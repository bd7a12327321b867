-- ===== src/Stream/Consume.antt =====
-- What `ConsumeE2eHeader` of src/afi_sdk.cpp hands on.
use afi920_sdk.Prelude.{
  ltb→lt, ℕ, ◌≤◌, ◌<◌, ◌≡◌, refl, sym, ap, subst, ◌∙◌, List, Bool, true, false, length, drop, ltb,
  arith, if◌then◌else◌, if_true, Bool-cases, none, some, ok, inl, inr, lt→ltb, ltb_false→le,
  ok_injective,
}
use mathlib.Core.Bool.{false≢true}
use mathlib.Core.Logic.{◌⊎◌}
use afi920_sdk.Interface.{InterfaceHeaders, IsDocumented}
use afi920_sdk.E2e.{E2eHeader, E2eStatus, passed, header_size, e2e_status}
use afi920_sdk.E2e.Laws.{IsIntact, e2e_status_iff, header_at, e2e_validate_lem}
use afi920_sdk.Stream.{
  Settings, StreamState, StreamKind, Consumed, is_passed, verdict, note_status, consume_e2e_header,
}

is_passed-true : (s : E2eStatus) → is_passed s ≡ true → s ≡ passed
unfolding is_passed
is_passed-true s e = ground arith

pub some≢none {ℓ} : {A : Type ℓ} {a : A} → ¬ (some a ≡ none)
some≢none e = cc

some-injective {ℓ} : {A : Type ℓ} {a b : A} → some a ≡ some b → a ≡ b
some-injective e = cc

pick :
    (b strict : Bool) (x y : Consumed) {k : Consumed}
    → (if b then some x else if strict then none else some y) ≡ some k
    → ((b ≡ true) × (x ≡ k)) ⊎ ((strict ≡ false) × (y ≡ k))
pick true strict x y e = inl (refl, some-injective e)
pick false true x y e = absurd (some≢none (sym e))
pick false false x y e = inr (refl, some-injective e)

loose_some :
    (b strict : Bool) (x y : Consumed)
    → strict ≡ false
    → (k : Consumed) × ((if b then some x else if strict then none else some y) ≡ some k)
loose_some true strict x y l = (x, refl)
loose_some false true x y l = absurd (false≢true (sym l))
loose_some false false x y l = (y, refl)

verdict_loose :
    (c : Settings) (p : List ℕ) (r : E2eStatus × E2eHeader)
    → c.e2e_strict ≡ false
    → (k : Consumed) × (verdict c p r ≡ some k)
unfolding verdict
verdict_loose c p r loose = loose_some (is_passed r.0) c.e2e_strict _ _ loose

module _ (h : InterfaceHeaders) (doc : IsDocumented h) where
  -- With room for the header, the status of the frame decides.
  pub consume_in :
      (c : Settings) (s : StreamState) (kind : StreamKind) (p : List ℕ) (id : ℕ)
      → header_size ≤ length p
      → consume_e2e_header h c s kind p id
        ≡ ok (
            let r : E2eStatus × E2eHeader =
              (e2e_status h p (header_at p) id c.validate_e2e, header_at p) in
            (note_status s kind r, verdict c p r))
  unfolding consume_e2e_header
  consume_in c s kind p id room =
      let long : ltb (length p) header_size ≡ false = ground arith in
      rw (e2e_validate_lem h doc p id c.validate_e2e, long)

  pub consume_short :
      (c : Settings) (s : StreamState) (kind : StreamKind) (p : List ℕ) (id : ℕ)
      → length p < header_size
      → consume_e2e_header h c s kind p id ≡ ok (s, none)
  unfolding consume_e2e_header
  consume_short c s kind p id short = if_true _ _ _ (lt→ltb _ _ short)

  -- What the consumer of a frame may rely on.
  pub record IsConsumed (c : Settings) (p : List ℕ) (id : ℕ) (k : Consumed) : Type 0 where
    pub header : k.e2e ≡ header_at p
    pub body : k.payload ≡ drop header_size p
    pub valid : k.e2e_valid ≡ true → IsIntact h p (header_at p) id true
    pub strict : c.e2e_strict ≡ true → IsIntact h p (header_at p) id c.validate_e2e

  pub verdict-IsConsumed :
      (c : Settings) (p : List ℕ) (id : ℕ) {k : Consumed}
      → header_size ≤ length p
      → verdict c p (e2e_status h p (header_at p) id c.validate_e2e, header_at p) ≡ some k
      → IsConsumed c p id k
  unfolding verdict
  verdict-IsConsumed c p id {k} room e =
      elim (pick (is_passed (e2e_status h p (header_at p) id c.validate_e2e)) c.e2e_strict _ _ e) [
        | inl (good, e') ↦
            let intact =
              (e2e_status_iff h p (header_at p) id c.validate_e2e room).0 (is_passed-true _ good) in
            subst (IsConsumed c p id) e' (record {
              header = refl;
              body = refl;
              valid = λ v. subst (IsIntact h p (header_at p) id) v intact;
              strict = λ _. intact;
            })
        | inr (loose, e') ↦ subst (IsConsumed c p id) e' (record {
          header = refl;
          body = refl;
          valid = λ v. absurd (false≢true v);
          strict = λ v. absurd (false≢true (sym loose ∙ v));
        })
      ]

  -- A frame that `ConsumeE2eHeader` hands on carries the fields of its header and the bytes behind
  -- it; if it is marked valid it passed every check, and under e2e_strict it passed those that are
  -- switched on.
  pub consume_e2e_header-IsConsumed :
      (c : Settings) (s : StreamState) (kind : StreamKind) (p : List ℕ) (id : ℕ) {s' : StreamState}
      {k : Consumed}
      → consume_e2e_header h c s kind p id ≡ ok (s', some k)
      → IsConsumed c p id k
  consume_e2e_header-IsConsumed c s kind p id e = elim (Bool-cases (ltb (length p) header_size)) [
    | inl short ↦ absurd (
        some≢none
          (ap (λ r. r.1) (ok_injective (sym e ∙ consume_short c s kind p id (ltb→lt _ _ short)))))
    | inr long ↦
        let room = ltb_false→le long in
        verdict-IsConsumed c p id room
          (ap (λ r. r.1) (ok_injective (sym (consume_in c s kind p id room) ∙ e)))
  ]

  -- Unless e2e_strict is set, a frame with room for the header is handed on, whatever its checks say.
  pub consume_e2e_header_delivers :
      (c : Settings) (s : StreamState) (kind : StreamKind) (p : List ℕ) (id : ℕ)
      → c.e2e_strict ≡ false
      → header_size ≤ length p
      → (s' : StreamState) × (k : Consumed) × (consume_e2e_header h c s kind p id ≡ ok (s', some k))
  consume_e2e_header_delivers c s kind p id loose room =
      let st = e2e_status h p (header_at p) id c.validate_e2e in
      let (k, e) = verdict_loose c p (st, header_at p) loose in
      (
        note_status s kind (st, header_at p),
        k,
        consume_in c s kind p id room ∙ ap (λ o. ok (note_status s kind (st, header_at p), o)) e,
      )
