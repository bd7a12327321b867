-- ===== src/Config/Mode/Climb.antt =====
-- EnterMode of src/config_api/config_client.cpp against a sensor that keeps an access mode.
use afi920_sdk.Prelude.{
  ◌⊎◌, ◌≢◌, ◌≤◌, ◌≡◌, refl, sym, ◌∙◌, subst, true, false, Option, none, some, arith, Bool-cases,
  inl, inr, if_true, if_false,
}
use afi920_sdk.Someip.Methods
use afi920_sdk.Config.Json.{Json}
use afi920_sdk.Config.Types.{AccessMode, normal, diagnostic, programming, ModeStatus}
use afi920_sdk.Config.Tables.{parse_mode_status}
use afi920_sdk.Config.Writes.{write_mode, mode_number}
use afi920_sdk.Config.Exchange.{Link, Client, send_json_request, send_empty_request}
use afi920_sdk.Config.Calls.{is_success}
use afi920_sdk.Config.Mode.{
  initial_status, same_mode, Coded, Status, status_or, read_status, get_mode, coded, request_mode,
  climb, enter_from, enter_current, enter_mode,
}

-- What the sensor's documentation says of GetMode and SetMode, while nobody else sets the mode and the
-- sensor is not restarted: a mode that an answer reports is its mode, GetMode changes nothing, and SetMode
-- sets the mode that it names, or nothing. An accepted one sets it; of any other, a request whose answer is
-- refused, late or lost, nothing is said of which it is.
pub record IsSensor (json : Json) (link : Link) : Type 0 where
  pub mode : link.State → AccessMode
  pub asked :
      (c : Client json link)
      → mode (send_empty_request json link Methods.get_mode c).client.tcp ≡ mode c.tcp
  pub reports :
      (c : Client json link) (s : ModeStatus)
      → is_success (send_empty_request json link Methods.get_mode c).error ≡ true
      → parse_mode_status json (send_empty_request json link Methods.get_mode c).content ≡ some s
      → s.access_mode ≡ mode c.tcp
  pub obeys :
      (m : AccessMode) (c : Client json link)
      → (mode (send_json_request json link Methods.set_mode (write_mode json m) c).client.tcp ≡ m)
        ⊎ ((is_success (send_json_request json link Methods.set_mode (write_mode json m) c).error
              ≡ false)
            × (mode (send_json_request json link Methods.set_mode (write_mode json m) c).client.tcp
                ≡ mode c.tcp))

module _ (json : Json) (link : Link) (sensor : IsSensor json link) where
  open sensor use {mode, asked, reports, obeys}

  record Reported (c : Client json link) (s : Status json link) : Type 0 where
    kept : mode s.client.tcp ≡ mode c.tcp
    told : is_success s.error ≡ true → s.out.access_mode ≡ mode c.tcp

  status_or-Reported :
      (c : Client json link) (o : Option ModeStatus) (d : Client json link)
      → mode d.tcp ≡ mode c.tcp
      → ((s : ModeStatus) → o ≡ some s → s.access_mode ≡ mode c.tcp)
      → Reported c (status_or json link initial_status o d)
  unfolding status_or
  status_or-Reported c none d k t = record { kept = k; told = λ e. absurd (cc) }
  status_or-Reported c (some s) d k t = record { kept = k; told = λ e. t s refl }

  get_mode-Reported : (c : Client json link) → Reported c (get_mode json link initial_status c)
  unfolding get_mode read_status
  get_mode-Reported c =
      let a = send_empty_request json link Methods.get_mode c in
      elim (Bool-cases (is_success a.error)) [
        | inl good ↦ subst (Reported c) (sym (if_true (is_success a.error) _ _ good)) (
            status_or-Reported c (parse_mode_status json a.content) a.client (asked c)
              (λ s e. reports c s good e))
        | inr bad ↦
            subst (Reported c) (sym (if_false (is_success a.error) _ _ bad))
              (record { kept = asked c; told = λ e. absurd (clash (sym e ∙ bad)) })
      ]
    where
      clash : true ≡ false → ⊥
      clash e = cc

  -- From the mode `before`: never down, and at the target if the code is kOk.
  pub record Climbs (before target : AccessMode) (r : Coded json link) : Type 0 where
    pub upward : mode_number before ≤ mode_number (mode r.client.tcp)
    pub arrives : is_success r.error ≡ true → mode r.client.tcp ≡ target

  -- An accepted SetMode has set the mode.
  obeyed :
      (m : AccessMode) (c : Client json link)
      → is_success (send_json_request json link Methods.set_mode (write_mode json m) c).error ≡ true
      → mode (send_json_request json link Methods.set_mode (write_mode json m) c).client.tcp ≡ m
  obeyed m c good = elim (obeys m c) [
    | inl set ↦ set
    | inr (bad, kept) ↦ absurd (clash (sym good ∙ bad))
  ]
    where
      clash : true ≡ false → ⊥
      clash e = cc

  request_diagnostic-Climbs :
      (c : Client json link)
      → mode c.tcp ≡ normal
      → Climbs normal diagnostic (request_mode json link diagnostic c)
  unfolding request_mode coded
  request_diagnostic-Climbs c e = record { upward = omega arith; arrives = obeyed diagnostic c }

  highest : (m : AccessMode) → mode_number m ≤ 2
  highest normal = omega arith
  highest diagnostic = omega arith
  highest programming = omega arith

  request_programming-Climbs :
      (c : Client json link) (before : AccessMode)
      → mode_number before ≤ mode_number (mode c.tcp)
      → Climbs before programming (request_mode json link programming c)
  unfolding request_mode coded
  request_programming-Climbs c before e = record {
    upward = elim (obeys programming c) [
      | inl set ↦ rw set (highest before)
      | inr (bad, kept) ↦ rw kept e
    ];
    arrives = obeyed programming c;
  }

  -- The step to Programming behind an accepted Diagnostic.
  climb-Climbs :
      (target : AccessMode) (r : Coded json link)
      → target ≢ normal
      → Climbs normal diagnostic r
      → Climbs normal target (climb json link target r)
  unfolding climb
  climb-Climbs normal r n i = absurd (n refl)
  climb-Climbs diagnostic r n i = elim (Bool-cases (is_success r.error)) [
    | inl good ↦ subst (Climbs normal diagnostic) (sym (if_true (is_success r.error) _ _ good)) i
    | inr bad ↦ subst (Climbs normal diagnostic) (sym (if_false (is_success r.error) _ _ bad)) i
  ]
  climb-Climbs programming r n i = elim (Bool-cases (is_success r.error)) [
    | inl good ↦
        subst (Climbs normal programming) (sym (if_true (is_success r.error) _ _ good))
          (request_programming-Climbs r.client normal i.upward)
    | inr bad ↦
        subst (Climbs normal programming) (sym (if_false (is_success r.error) _ _ bad))
          (record { upward = i.upward; arrives = λ g. absurd (clash (sym g ∙ bad)) })
  ]
    where
      clash : true ≡ false → ⊥
      clash e = cc

  enter_from-Climbs :
      (target cur : AccessMode) (c : Client json link)
      → target ≢ normal
      → same_mode cur target ≡ false
      → mode c.tcp ≡ cur
      → Climbs cur target (enter_from json link target cur c)
  unfolding enter_from
  enter_from-Climbs target normal c n d e = climb-Climbs target _ n (request_diagnostic-Climbs c e)
  enter_from-Climbs normal diagnostic c n d e = absurd (n refl)
  enter_from-Climbs diagnostic diagnostic c n d e = absurd (cc)
  enter_from-Climbs programming diagnostic c n d e =
      request_programming-Climbs c diagnostic (rw e (omega arith))
  enter_from-Climbs target programming c n d e = record {
    upward = rw e (omega arith);
    arrives = λ g. absurd (cc);
  }

  same_mode-eq : (a b : AccessMode) → same_mode a b ≡ true → a ≡ b
  same_mode-eq normal normal e = refl
  same_mode-eq diagnostic diagnostic e = refl
  same_mode-eq programming programming e = refl
  same_mode-eq normal diagnostic e = absurd (cc)
  same_mode-eq normal programming e = absurd (cc)
  same_mode-eq diagnostic normal e = absurd (cc)
  same_mode-eq diagnostic programming e = absurd (cc)
  same_mode-eq programming normal e = absurd (cc)
  same_mode-eq programming diagnostic e = absurd (cc)

  enter_current-Climbs :
      (target : AccessMode) (c : Client json link) (s : Status json link)
      → target ≢ normal
      → Reported c s
      → Climbs (mode c.tcp) target (enter_current json link target s)
  unfolding enter_current
  enter_current-Climbs target c s n i = elim (Bool-cases (is_success s.error)) [
    | inr bad ↦
        subst (Climbs (mode c.tcp) target) (sym (if_false (is_success s.error) _ _ bad)) (record {
          upward = rw (i.kept) (omega arith);
          arrives = λ g. absurd (clash (sym g ∙ bad));
        })
    | inl good ↦
        let told = i.told good in
        subst (Climbs (mode c.tcp) target) (sym (if_true (is_success s.error) _ _ good))
          (elim (Bool-cases (same_mode s.out.access_mode target)) [
            | inl there ↦
                subst (Climbs (mode c.tcp) target)
                  (sym (if_true (same_mode s.out.access_mode target) _ _ there))
                  (record {
                    upward = rw (i.kept) (omega arith);
                    arrives = λ g. i.kept ∙ sym told ∙ same_mode-eq s.out.access_mode target there;
                  })
            | inr away ↦
                subst (Climbs (mode c.tcp) target)
                  (sym (if_false (same_mode s.out.access_mode target) _ _ away))
                  (subst
                    (λ m. Climbs m target (enter_from json link target s.out.access_mode s.client))
                    told
                    (enter_from-Climbs target s.out.access_mode s.client n away
                      (i.kept ∙ sym told)))
          ])
  ]
    where
      clash : true ≡ false → ⊥
      clash e = cc

  -- EnterMode never moves the sensor down (from Programming to Diagnostic, or to Normal), whichever
  -- call of it fails and whether or not the sensor ran a SetMode whose answer was refused, late or lost,
  -- and where it returns kOk the sensor is in the mode that was asked for. For any
  -- mode that it starts from and any target; a target of Normal is never reached and changes nothing.
  pub enter_mode-Climbs :
      (target : AccessMode) (c : Client json link)
      → Climbs (mode c.tcp) target (enter_mode json link target c)
  unfolding enter_mode
  enter_mode-Climbs normal c = record { upward = omega arith; arrives = λ g. absurd (cc) }
  enter_mode-Climbs diagnostic c =
      enter_current-Climbs diagnostic c _ (λ e. cc) (get_mode-Reported c)
  enter_mode-Climbs programming c =
      enter_current-Climbs programming c _ (λ e. cc) (get_mode-Reported c)
