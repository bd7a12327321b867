-- ===== src/Stream/Steps.antt =====
-- What the steps of the handlers of src/afi_sdk.cpp deliver to the wire payload callback.
use afi920_sdk.Prelude.{
  ℕ, ◌≡◌, refl, sym, ap, subst, List, [], ◌∷◌, ◌++◌, Bool, true, false, ◌||◌, not, drop,
  if◌then◌else◌, Bool-cases, Option, none, some, Outcome, ok, reject, fault, ◌>>=◌, inl, inr, All,
  Ensures, ensured, ensured_reject, ensured_fault, >>=-Ensures, if_ind, if-Ensures, ltb, leb, ◌==◌,
  ◌+◌, ◌-◌, ◌%◌, ◌^◌, length, ltb→lt, ltb_false→le,
}
use afi920_sdk.Interface.{InterfaceHeaders, IsDocumented}
use afi920_sdk.E2e.Laws.{IsIntact, header_at}
use afi920_sdk.Someip.{tp_header_size, someip_tp_deserialize, SomeipHeader}
use afi920_sdk.E2e.{E2eHeader, E2eStatus, header_size}
use afi920_sdk.Reassembler.Bounds.{WellFormed, reset-WellFormed, feed-WellFormed}
use afi920_sdk.Payload.Shi.{shi_parse}
use afi920_sdk.Payload.Spi.{spi_parse}
use afi920_sdk.Payload.Rdi.{RdiMessage, rdi_parse}
use afi920_sdk.Stream.{
  rdi, StreamMeta, detection, health, performance, note_status, count_failure, Settings,
  StreamState, StreamKind, Event, WireFrame, wire, loss, Consumed, consume_e2e_header, iso_fields,
  deliver_wire_payload, track_rdi_loss,
}
use afi920_sdk.Stream.Consume.{IsConsumed, verdict-IsConsumed, consume_short, consume_in, some≢none}
use afi920_sdk.Stream.Process.{
  parsed, rdi_consumed, if_valid, shi_events, spi_events, small_message, assemble_tp,
  assemble_plain, release, reset_tp,
}

pub record IsHonestFrame (h : InterfaceHeaders) (c : Settings) (id : ℕ) (f : WireFrame)
    : Type 0 where
  pub valid : f.e2e_valid ≡ true → IsIntact h f.payload (header_at f.payload) id true
  pub strict : c.e2e_strict ≡ true → IsIntact h f.payload (header_at f.payload) id c.validate_e2e
  pub counter : f.e2e_counter ≡ (header_at f.payload).counter

-- Of the callbacks only the one with the wire payload is looked at.
pub IsHonest : InterfaceHeaders → Settings → ℕ → Event → Type 0
IsHonest h c id (wire f) = IsHonestFrame h c id f
IsHonest h c id _ = Unit

All-append {ℓ κ} :
    {A : Type ℓ} (P : A → Type κ) (xs ys : List A) → All P xs → All P ys → All P (xs ++ ys)
All-append P [] ys p q = q
All-append P (x ∷ xs) ys p q = (p.0, All-append P xs ys p.1 q)

any-Ensures {ℓ} : {A : Type ℓ} (m : Outcome A) → Ensures (λ _. Unit {0}) m
any-Ensures (ok a) = ensured a tt
any-Ensures reject = ensured_reject
any-Ensures fault = ensured_fault

module _ (h : InterfaceHeaders) (doc : IsDocumented h) (c : Settings) (id : ℕ) where
  -- A result whose reassembler is well formed and whose events are honest.
  pub record IsGood (r : StreamState × List Event) : Type 0 where
    pub well_formed : WellFormed r.0.rdi_tp
    pub honest : All (IsHonest h c id) r.1

  if-IsGood :
      (b : Bool) {x y : StreamState × List Event}
      → IsGood x
      → IsGood y
      → IsGood (if b then x else y)
  if-IsGood b p q = if_ind IsGood b p q

  pub good :
      {s : StreamState} {es : List Event}
      → WellFormed s.rdi_tp
      → All (IsHonest h c id) es
      → IsGood (s, es)
  good w a = record { well_formed = w; honest = a }

  loss-Honest : (b : Bool) (m n : ℕ) → All (IsHonest h c id) (if b then loss m n ∷ [] else [])
  unfolding IsHonest
  loss-Honest true m n = (tt, tt)
  loss-Honest false m n = tt

  track-IsGood : (s : StreamState) (n : ℕ) → WellFormed s.rdi_tp → IsGood (track_rdi_loss c s n)
  unfolding track_rdi_loss
  track-IsGood s n w =
      let delta : ℕ = (n + 2 ^ 32 - s.last_rdi_e2e_counter) % 2 ^ 32 in
      if-IsGood s.first_rdi (good w tt) (
        if-IsGood (delta == 0 || leb 0x80000000 delta) (good w tt)
          (if-IsGood (ltb 1 delta) (good w (loss-Honest c.loss_cb _ _)) (good w tt)))

  wire-Honest :
      (f : WireFrame) → IsHonestFrame h c id f → Ensures (All (IsHonest h c id)) (ok (wire f ∷ []))
  unfolding IsHonest
  wire-Honest f v = ensured _ (v, tt)

  deliver-Honest :
      (kind : StreamKind) (w : List ℕ) (now : ℕ) (k : Consumed)
      → IsConsumed h doc c w id k
      → Ensures (All (IsHonest h c id)) (deliver_wire_payload c kind w now k)
  unfolding deliver_wire_payload
  deliver-Honest kind w now k ic =
      if-Ensures c.wire_payload_cb
        (>>=-Ensures (iso_fields k.payload) (any-Ensures _) λ fields _. wire-Honest _ (record {
          valid = ic.valid;
          strict = ic.strict;
          counter = ap (λ e. e.counter) ic.header;
        }))
        (ensured [] tt)

  parsed-Honest {ℓ} :
      {A : Type ℓ} (m : Outcome A) (call : A → Event)
      → ((a : A) → IsHonest h c id (call a))
      → Ensures (All (IsHonest h c id)) (parsed m call)
  unfolding parsed
  parsed-Honest (ok a) call f = ensured _ (f a, tt)
  parsed-Honest reject call f = ensured _ tt
  parsed-Honest fault call f = ensured_fault

  -- The members but the generation and the counts stay, and what is handed on is as consumed.
  unfoldable pub IsJudged : StreamState → List ℕ → StreamState × Option Consumed → Type 0
  IsJudged s p r =
      (r.0.rdi_tp ≡ s.rdi_tp) × ((k : Consumed) → r.1 ≡ some k → IsConsumed h doc c p id k)

  note_status-rdi_tp :
      (s : StreamState) (kind : StreamKind) (r : E2eStatus × E2eHeader)
      → (note_status s kind r).rdi_tp ≡ s.rdi_tp
  unfolding note_status count_failure
  note_status-rdi_tp s detection r = if_ind (λ (t : StreamState). t.rdi_tp ≡ s.rdi_tp) _ refl refl
  note_status-rdi_tp s health r = if_ind (λ (t : StreamState). t.rdi_tp ≡ s.rdi_tp) _ refl refl
  note_status-rdi_tp s performance r = if_ind (λ (t : StreamState). t.rdi_tp ≡ s.rdi_tp) _ refl refl

  pub consume-IsJudged :
      (s : StreamState) (kind : StreamKind) (p : List ℕ)
      → Ensures (IsJudged s p) (consume_e2e_header h c s kind p id)
  unfolding IsJudged
  consume-IsJudged s kind p = elim (Bool-cases (ltb (length p) header_size)) [
    | inl short ↦
        rw (consume_short h doc c s kind p id (ltb→lt _ _ short))
          (ensured _ (refl, λ k e. absurd (some≢none (sym e))))
    | inr long ↦ rw (consume_in h doc c s kind p id (ltb_false→le long)) (
        ensured _ (
          note_status-rdi_tp s kind _,
          λ k e. verdict-IsConsumed h doc c p id (ltb_false→le long) e,
        ))
  ]

  pub release-WellFormed :
      (is_tp : Bool) (s : StreamState) → WellFormed s.rdi_tp → WellFormed (release is_tp s).rdi_tp
  unfolding release reset_tp
  release-WellFormed is_tp s w =
      if_ind (λ (t : StreamState). WellFormed t.rdi_tp) is_tp (reset-WellFormed w) w

  rdi-Honest : (m : StreamMeta) (n : ℕ) (r : RdiMessage) → IsHonest h c id (rdi r m n)
  unfolding IsHonest
  rdi-Honest m n r = tt

  pub rdi_consumed-IsGood :
      (is_tp : Bool) (s : StreamState) (w : List ℕ) (now : ℕ) (k : Consumed)
      → WellFormed s.rdi_tp
      → IsConsumed h doc c w id k
      → Ensures IsGood (rdi_consumed c is_tp s w now k)
  unfolding rdi_consumed
  rdi_consumed-IsGood is_tp s w now k wf ic =
      >>=-Ensures _ (deliver-Honest _ w now k ic) λ es honest.
        let tracked =
          if-IsGood (not c.validate_e2e || k.e2e_valid) (track-IsGood s k.e2e.counter wf)
            (good wf tt) in
        if-Ensures c.rdi_cb
          (>>=-Ensures _ (parsed-Honest (rdi_parse k.payload) _ (rdi-Honest _ _)) λ fs more.
            ensured _ (
              good (release-WellFormed is_tp _ tracked.well_formed)
                (All-append _ _ _ honest (All-append _ _ _ tracked.honest more))))
          (ensured _ (
            good (release-WellFormed is_tp _ tracked.well_formed)
              (All-append _ _ _ honest tracked.honest)))

  pub assemble_tp-WellFormed :
      (s : StreamState) (hdr : SomeipHeader) (datagram : List ℕ)
      → WellFormed s.rdi_tp
      → Ensures (λ r. WellFormed r.0.rdi_tp) (assemble_tp s hdr datagram)
  unfolding assemble_tp reset_tp
  assemble_tp-WellFormed s hdr datagram wf =
      if-Ensures (ltb (length datagram) (16 + tp_header_size)) (ensured (s, none) wf) (
        >>=-Ensures (someip_tp_deserialize datagram 16) (any-Ensures _) λ tp _. ensured _ (
          if_ind (λ (r : StreamState × Option (List ℕ)). WellFormed r.0.rdi_tp) (not tp.valid)
            (reset-WellFormed wf) (feed-WellFormed _ wf)))

  pub assemble_plain-WellFormed :
      (s : StreamState) (datagram : List ℕ)
      → WellFormed s.rdi_tp
      → WellFormed (assemble_plain s datagram).0.rdi_tp
  unfolding assemble_plain reset_tp
  assemble_plain-WellFormed s datagram wf =
      if_ind (λ (t : StreamState). WellFormed t.rdi_tp) s.rdi_tp.in_progress (reset-WellFormed wf)
        wf

  pub if_valid-IsGood :
      (s : StreamState) (m : Outcome SomeipHeader)
      {f : SomeipHeader → Outcome (StreamState × List Event)}
      → WellFormed s.rdi_tp
      → ((hdr : SomeipHeader) → Ensures IsGood (f hdr))
      → Ensures IsGood (if_valid s m f)
  unfolding if_valid
  if_valid-IsGood s (ok hdr) wf g = g hdr
  if_valid-IsGood s reject wf g = ensured _ (good wf tt)
  if_valid-IsGood s fault wf g = ensured_fault

  pub small_message-IsGood :
      (s : StreamState) (kind : StreamKind) (events : Consumed → Outcome (List Event))
      (datagram : List ℕ) (now : ℕ)
      → WellFormed s.rdi_tp
      → ((k : Consumed) → Ensures (All (IsHonest h c id)) (events k))
      → Ensures IsGood (small_message h c s kind id events datagram now)
  unfolding small_message IsJudged
  small_message-IsGood s kind events datagram now wf f =
      >>=-Ensures _ (consume-IsJudged s kind (drop 16 datagram))
        λ (s', o) j. consumed_or s' o (subst WellFormed (sym j.0) wf) j.1
    where
      consumed_or :
          (s' : StreamState) (o : Option Consumed)
          → WellFormed s'.rdi_tp
          → ((k : Consumed) → o ≡ some k → IsConsumed h doc c (drop 16 datagram) id k)
          → Ensures IsGood (elim o [
            | none ↦ ok (s', [])
            | some consumed ↦ (do
              frame ← deliver_wire_payload c kind (drop 16 datagram) now consumed
              typed ← events consumed
              ok (s', frame ++ typed))
          ])
      consumed_or s' none v g = ensured _ (good v tt)
      consumed_or s' (some k) v g =
          >>=-Ensures _ (deliver-Honest kind _ now k (g k refl))
            λ es p. >>=-Ensures _ (f k) λ fs q. ensured _ (good v (All-append _ _ _ p q))

  pub shi_events-Honest :
      (now : ℕ) (k : Consumed) → Ensures (All (IsHonest h c id)) (shi_events c now k)
  unfolding shi_events IsHonest
  shi_events-Honest now k =
      if-Ensures c.shi_meta_cb (parsed-Honest (shi_parse k.payload) _ λ m. tt)
        (if-Ensures c.shi_cb (parsed-Honest (shi_parse k.payload) _ λ m. tt) (ensured [] tt))

  pub spi_events-Honest :
      (now : ℕ) (k : Consumed) → Ensures (All (IsHonest h c id)) (spi_events c now k)
  unfolding spi_events IsHonest
  spi_events-Honest now k =
      if-Ensures c.spi_meta_cb (parsed-Honest (spi_parse k.payload) _ λ m. tt)
        (if-Ensures c.spi_cb (parsed-Honest (spi_parse k.payload) _ λ m. tt) (ensured [] tt))
