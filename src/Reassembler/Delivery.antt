-- ===== src/Reassembler/Delivery.antt =====
-- What `Feed` of src/protocol/someip_tp.cpp delivers, over any sequence of segments.
use afi920_sdk.Prelude.{
  ◌&&◌, ◌!=◌, not, if_true, if_false, All, Bool, if◌then◌else◌, false, ℕ, ◌<◌, ◌≡◌, refl, subst,
  ◌∙◌, List, [], ◌∷◌, true, arith, length, ◌⊎◌, inl, inr, Bool-cases,
}
use afi920_sdk.Reassembler.{
  claim_session, create, feed, open_session, place, restart_complete, restart_session, payload,
  finish, reset, Reassembler, Segment,
}
use afi920_sdk.Reassembler.Content.{
  Agrees, IsBlank, IsSliceOf, IsBlank-Agrees, reset-IsBlank, finish-payload, finish-Agrees,
}
use afi920_sdk.Reassembler.Accept.{accept-Stores}
use afi920_sdk.Reassembler.Bounds.{
  WellFormed, place_cases, feed_cases, open_session-WellFormed, feed-WellFormed, create-WellFormed,
}

-- Each session number stands for one message.
abbrev pub Messages : Type 0
Messages = ℕ → List ℕ

-- Nothing is stored, or what is stored belongs to the message of the current session.
abbrev pub IsConsistent : Messages → Reassembler → Type 0
IsConsistent msgs r = IsBlank r ⊎ ((r.has_session ≡ true) × Agrees (msgs r.session_id) r)

module _ (msgs : Messages) (session : ℕ) where
  abbrev IsReady : Reassembler → Type 0
  IsReady r =
      IsBlank r ⊎ ((r.has_session ≡ true) × (r.session_id ≡ session) × Agrees (msgs session) r)

  restart_complete-IsConsistent :
      (r : Reassembler) → IsConsistent msgs r → IsConsistent msgs (restart_complete r)
  unfolding restart_complete
  restart_complete-IsConsistent r c = elim (Bool-cases r.complete) [
    | inl e ↦ rw (if_true r.complete (reset r) r e) (inl (reset-IsBlank r))
    | inr e ↦ rw (if_false r.complete (reset r) r e) c
  ]

  restart_session-IsReady :
      (r : Reassembler) → IsConsistent msgs r → IsReady (restart_session r session)
  unfolding restart_session
  restart_session-IsReady r (inl b) = inl (
      rw
        (if_false (r.has_session && r.session_id != session) (reset r) r
          (ground (arith, b.no_session)))
        b)
  restart_session-IsReady r (inr (h, a)) =
      elim (Bool-cases (r.has_session && r.session_id != session)) [
        | inl e ↦ inl (rw (if_true _ (reset r) r e) (reset-IsBlank r))
        | inr e ↦
            let same : r.session_id ≡ session = ground (arith, h, e) in
            inr (rw (if_false _ (reset r) r e) (h, same, subst (λ k. Agrees (msgs k) r) same a))
      ]

  pub record IsOpened (r : Reassembler) : Type 0 where
    pub has : r.has_session ≡ true
    pub id : r.session_id ≡ session
    pub agrees : Agrees (msgs session) r

  claim_session-IsOpened : (r : Reassembler) → IsReady r → IsOpened (claim_session r session)
  unfolding claim_session
  claim_session-IsOpened r (inl b) =
      let a = IsBlank-Agrees (msgs session) r b in
      rw (if_true (not r.has_session) _ r (ground (arith, b.no_session))) (record {
        has = refl;
        id = refl;
        agrees = record { content = a.content; within = a.within; expected = a.expected };
      })
  claim_session-IsOpened r (inr (h, e, a)) =
      rw (if_false (not r.has_session) _ r (ground (arith, h)))
        (record { has = h; id = e; agrees = a })

  -- After the session tests of `Feed` what is stored belongs to the message of the session.
  pub open_session-IsOpened :
      (r : Reassembler) → IsConsistent msgs r → IsOpened (open_session r session)
  unfolding open_session
  open_session-IsOpened r c =
      claim_session-IsOpened _
        (restart_session-IsReady (restart_complete r) (restart_complete-IsConsistent r c))

-- A state and result of `Feed` after a segment of session `session`.
pub record IsSound (msgs : Messages) (session : ℕ) (result : Reassembler × Bool) : Type 0 where
  pub consistent : IsConsistent msgs result.0
  pub delivers : result.1 ≡ true → payload result.0 ≡ msgs session

module _ (msgs : Messages) (s : Segment) (slice : IsSliceOf (msgs s.session) s) where
  IsSound-reset : (r : Reassembler) → IsSound msgs s.session (reset r, false)
  IsSound-reset r = record { consistent = inl (reset-IsBlank r); delivers = λ e. cc }

  finish-IsSound :
      (q : Reassembler)
      → WellFormed q
      → IsOpened msgs s.session q
      → IsSound msgs s.session (finish q)
  finish-IsSound q w o = record {
    consistent =
        inr (
          finish_session.0,
          rw (finish_session.1 ∙ o.id) (finish-Agrees (msgs s.session) o.agrees),
        );
    delivers = finish-payload (msgs s.session) q w o.agrees;
  }
    where
      finish_session : ((finish q).0.has_session ≡ true) × ((finish q).0.session_id ≡ q.session_id)
      finish_session = unfold finish in ground (arith, o.has)

  place-IsSound :
      (r : Reassembler)
      → 0 < length s.bytes
      → WellFormed r
      → IsOpened msgs s.session r
      → IsSound msgs s.session (place r s.bytes s.offset_bytes s.more_segments)
  place-IsSound r h v o = elim (place_cases r s.bytes s.offset_bytes s.more_segments h) [
    | inl e ↦ rw e (IsSound-reset r)
    | inr (f, e) ↦
        let (q, st) = accept-Stores (msgs s.session) r s f v slice o.agrees in
        rw (e, st.finishes)
          (finish-IsSound q st.well_formed
            (record { has = st.session.1 ∙ o.has; id = st.session.0 ∙ o.id; agrees = st.agrees }))
  ]

-- Feeding one segment keeps the state consistent, and a completed message is the message.
feed-IsSound :
    (msgs : Messages) (r : Reassembler) (s : Segment)
    → WellFormed r
    → IsConsistent msgs r
    → IsSliceOf (msgs s.session) s
    → IsSound msgs s.session (feed r s)
feed-IsSound msgs r s v c slice = elim (feed_cases r s) [
  | inl e ↦ rw e (record { consistent = c; delivers = λ d. cc })
  | inr (inl e) ↦ rw e (IsSound-reset msgs s slice r)
  | inr (inr (h, _, e)) ↦ rw e (
      place-IsSound msgs s slice (open_session r s.session) h (open_session-WellFormed s.session v)
        (open_session-IsOpened msgs s.session r c))
]

-- The messages that a sequence of segments completes, each with its session.
unfoldable pub deliveries : Reassembler → List Segment → List (ℕ × List ℕ)
deliveries r [] = []
deliveries r (s ∷ ss) =
    let result = feed r s in
    let rest = deliveries result.0 ss in
    if result.1 then (s.session, payload result.0) ∷ rest else rest

abbrev pub AllGenuine : Messages → List Segment → Type 0
AllGenuine msgs = All (λ s. IsSliceOf (msgs s.session) s)

deliveries-genuine :
    (msgs : Messages) (r : Reassembler) (ss : List Segment)
    → WellFormed r
    → IsConsistent msgs r
    → AllGenuine msgs ss
    → All (λ d. d.1 ≡ msgs d.0) (deliveries r ss)
unfolding deliveries
deliveries-genuine msgs r [] v c g = tt
deliveries-genuine msgs r (s ∷ ss) v c g =
    let sound = feed-IsSound msgs r s v c g.0 in
    let rest = deliveries-genuine msgs (feed r s).0 ss (feed-WellFormed s v) sound.consistent g.1 in
    elim (Bool-cases (feed r s).1) [
      | inl e ↦ rw (if_true (feed r s).1 _ _ e) (sound.delivers e, rest)
      | inr e ↦ rw (if_false (feed r s).1 _ _ e) rest
    ]

-- Every message that a fresh reassembler completes is, byte for byte, the message that its session's
-- segments were cut from: whatever the order, the repetitions, the losses and the mixture of
-- sessions, as long as every segment was cut from the message of its session.
pub create-deliveries :
    (msgs : Messages) (max_payload max_segment : ℕ) (ss : List Segment)
    → AllGenuine msgs ss
    → All (λ d. d.1 ≡ msgs d.0) (deliveries (create max_payload max_segment) ss)
unfolding create
create-deliveries msgs m n ss g =
    deliveries-genuine msgs (create m n) ss (create-WellFormed m n)
      (inl (record { no_session = refl; no_ranges = refl; no_size = refl })) g
