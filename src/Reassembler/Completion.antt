-- ===== src/Reassembler/Completion.antt =====
-- `Feed` of src/protocol/someip_tp.cpp completes a message once its segments have arrived.
use afi920_sdk.Prelude.{
  sym, subst, ℕ, ◌+◌, ◌-◌, ◌%◌, ◌≤◌, ◌<◌, ◌≡◌, ◌≢◌, refl, ◌∙◌, List, [], ◌∷◌, map, true, false,
  ◌||◌, arith, length, All, ◌⊎◌, inl, inr, Bool-cases, if_true, if_false,
}
use mathlib.Core.Bool.{false≢true}
use afi920_sdk.Reassembler.{
  Reassembler, Segment, create, reset, feed, place, accept, finish, open_session, restart_complete,
  restart_session, claim_session, is_fully_covered,
}
use afi920_sdk.Reassembler.Ranges.{covers, in_range}
use afi920_sdk.Reassembler.Merge.{is_fully_covered_iff}
use afi920_sdk.Reassembler.Bounds.{WellFormed, Fits, open_session-WellFormed, create-WellFormed}
use afi920_sdk.Reassembler.Content.{Agrees, IsSliceOf, IsBlank-Agrees}
use afi920_sdk.Reassembler.Accept.{Stores, range_of, accept-Stores}
use afi920_sdk.Reassembler.Delivery.{deliveries}

finish_full :
    (q : Reassembler)
    → is_fully_covered q ≡ true
    → finish q
      ≡ (record q { total_size = q.expected_size; complete = true; in_progress = false }, true)
unfolding finish
finish_full q e = if_true _ _ _ e

finish_open : (q : Reassembler) → is_fully_covered q ≡ false → finish q ≡ (q, false)
unfolding finish
finish_open q e = if_false _ _ _ e

deliveries_done :
    (r : Reassembler) (s : Segment) (ss : List Segment) {q : Reassembler}
    → feed r s ≡ (q, true)
    → deliveries r (s ∷ ss) ≢ []
unfolding deliveries
deliveries_done r s ss e = rw e (λ d. cc)

deliveries_more :
    (r : Reassembler) (s : Segment) (ss : List Segment) {q : Reassembler}
    → feed r s ≡ (q, false)
    → deliveries r (s ∷ ss) ≡ deliveries q ss
unfolding deliveries
deliveries_more r s ss e = rw e

module _ (msg : List ℕ) (session max_payload max_segment : ℕ) where
  -- A segment of the message as a sender cuts it: within the limits, and a multiple of 16 bytes long
  -- unless it is the last one.
  pub record IsSent (s : Segment) : Type 0 where
    pub slice : IsSliceOf msg s
    pub of_session : s.session ≡ session
    pub nonempty : 0 < length s.bytes
    pub small : length s.bytes ≤ max_segment
    pub aligned : (s.more_segments ≡ false) ⊎ (length s.bytes % 16 ≡ 0)
    pub in_limit : s.offset_bytes + length s.bytes ≤ max_payload

  -- The message is under way and not yet complete.
  record IsPending (r : Reassembler) : Type 0 where
    well_formed : WellFormed r
    agrees : Agrees msg r
    payload_limit : r.max_payload_size ≡ max_payload
    segment_limit : r.max_segment_size ≡ max_segment
    incomplete : r.complete ≡ false
    session_open : (r.has_session ≡ false) ⊎ (r.session_id ≡ session)
    end_known : covers r.covered_ranges (length msg - 1) ≡ true → r.expected_size ≢ 0
    not_full : is_fully_covered r ≡ false

  -- Opening the session of a pending message touches the session fields only.
  opened : Reassembler → Reassembler
  opened r = record r { session_id = session; has_session = true }

  restart_complete_pending : (r : Reassembler) → IsPending r → restart_complete r ≡ r
  unfolding restart_complete
  restart_complete_pending r p = if_false r.complete (reset r) r p.incomplete

  restart_session_pending : (r : Reassembler) → IsPending r → restart_session r session ≡ r
  unfolding restart_session
  restart_session_pending r p = if_false _ (reset r) r (ground (arith, p.session_open))

  claim_session_pending : (r : Reassembler) → IsPending r → claim_session r session ≡ opened r
  unfolding claim_session opened
  claim_session_pending r p = ground (arith, p.session_open)

  open_session_pending : (r : Reassembler) → IsPending r → open_session r session ≡ opened r
  unfolding open_session
  open_session_pending r p =
      rw (restart_complete_pending r p, restart_session_pending r p, claim_session_pending r p)

  opened-Agrees : (r : Reassembler) → Agrees msg r → Agrees msg (opened r)
  unfolding opened
  opened-Agrees r a = record { content = a.content; within = a.within; expected = a.expected }

  opened-Fits :
      (r : Reassembler) (s : Segment)
      → IsPending r
      → IsSent s
      → Fits (opened r) s.bytes s.offset_bytes
  unfolding opened
  opened-Fits r s p t = record {
    nonempty = t.nonempty;
    in_limit = omega (arith, t.in_limit, p.payload_limit);
    in_message = ground (arith, p.agrees.expected, t.slice.inside);
  }

  feed_pending :
      (r : Reassembler) (s : Segment)
      → IsPending r
      → IsSent s
      → feed r s ≡ accept (opened r) s.bytes s.offset_bytes s.more_segments
  feed_pending r s p t = enters ∙ passes
    where
      enters : feed r s ≡ place (opened r) s.bytes s.offset_bytes s.more_segments
      enters =
          unfold feed in
          ground (
            arith,
            t.nonempty,
            t.small,
            t.aligned,
            p.segment_limit,
            t.of_session,
            open_session_pending r p,
          )

      passes :
          place (opened r) s.bytes s.offset_bytes s.more_segments
          ≡ accept (opened r) s.bytes s.offset_bytes s.more_segments
      passes =
          let f = opened-Fits r s p t in unfold place in ground (arith, f.in_limit, f.in_message)

  pending-Stores :
      (r : Reassembler) (s : Segment)
      → IsPending r
      → IsSent s
      → (q : Reassembler) × Stores msg (opened r) s q
  pending-Stores r s p t =
      accept-Stores msg (opened r) s (opened-Fits r s p t)
        (subst WellFormed (open_session_pending r p)
          (open_session-WellFormed session p.well_formed))
        t.slice (opened-Agrees r p.agrees)

  module _ (r : Reassembler) (s : Segment) (p : IsPending r) (t : IsSent s) (q : Reassembler)
      (st : Stores msg (opened r) s q) where
    stores_adds :
        (i : ℕ) → covers q.covered_ranges i ≡ (covers r.covered_ranges i || in_range (range_of s) i)
    stores_adds i = unfold opened in st.adds i

    -- The segment that holds the last byte makes the size known.
    stores_end_known : covers q.covered_ranges (length msg - 1) ≡ true → q.expected_size ≢ 0
    stores_end_known e z = elim (Bool-cases (covers r.covered_ranges (length msg - 1))) [
      | inl old ↦
          p.end_known old
            (unfold opened in ground (arith, st.size, z, t.slice.inside, t.nonempty, t.slice.last))
      | inr new ↦
          let i : ℕ = length msg - 1 in
          unfold opened in
          ground
            (arith, st.size, z, stores_adds i, e, new, t.slice.inside, t.nonempty, t.slice.last)
    ]

    stores-IsPending : is_fully_covered q ≡ false → IsPending q
    stores-IsPending e = record {
      well_formed = st.well_formed;
      agrees = st.agrees;
      payload_limit = st.limits.0 ∙ unfold opened in p.payload_limit;
      segment_limit = st.limits.1 ∙ unfold opened in p.segment_limit;
      incomplete = st.open_still ∙ unfold opened in p.incomplete;
      session_open = inr (st.session.0 ∙ unfold opened in refl);
      end_known = stores_end_known;
      not_full = e;
    }

  -- Every byte is stored already, or is in a segment to come.
  abbrev WillCover : Reassembler → List Segment → Type 0
  WillCover r ss =
      (i : ℕ) → i < length msg → (covers r.covered_ranges i || covers (map range_of ss) i) ≡ true

  not_pending_covered : (r : Reassembler) → 0 < length msg → IsPending r → ¬ WillCover r []
  unfolding covers
  not_pending_covered r pos p all = false≢true (sym p.not_full ∙ full)
    where
      covered : (i : ℕ) → i < length msg → covers r.covered_ranges i ≡ true
      covered i h = ground (arith, all i h)

      size : r.expected_size ≡ length msg
      size = ground (arith, p.agrees.expected, p.end_known (covered (length msg - 1) (omega arith)))

      full : is_fully_covered r ≡ true
      full =
          (is_fully_covered_iff r p.well_formed.separated (rw size p.agrees.within)).1
            (p.end_known (covered (length msg - 1) (omega arith)), rw size covered)

  deliveries_pending :
      (r : Reassembler) (ss : List Segment)
      → 0 < length msg
      → IsPending r
      → All IsSent ss
      → WillCover r ss
      → deliveries r ss ≢ []
  deliveries_pending r [] pos p ts all = absurd (not_pending_covered r pos p all)
  deliveries_pending r (s ∷ ss) pos p ts all =
      let (q, st) = pending-Stores r s p ts.0 in
      let fed : feed r s ≡ finish q = feed_pending r s p ts.0 ∙ unfold opened in st.finishes in
      elim (Bool-cases (is_fully_covered q)) [
        | inl e ↦ deliveries_done r s ss (fed ∙ finish_full q e)
        | inr e ↦ rw (deliveries_more r s ss (fed ∙ finish_open q e)) (
            deliveries_pending q ss pos (stores-IsPending r s p ts.0 q st e) ts.1
              λ i h. unfold covers in ground (arith, stores_adds r s p ts.0 q st i, all i h))
      ]

-- Once every byte of a message has arrived in segments that respect the limits, in any order and
-- with any repetition, a fresh reassembler has reported the message complete.
pub create_completes :
    (msg : List ℕ) (session max_payload max_segment : ℕ) (ss : List Segment)
    → 0 < length msg
    → All (IsSent msg session max_payload max_segment) ss
    → ((i : ℕ) → i < length msg → covers (map range_of ss) i ≡ true)
    → deliveries (create max_payload max_segment) ss ≢ []
unfolding create
create_completes msg session m n ss pos ts all =
    deliveries_pending msg session m n (create m n) ss pos
      (record {
        well_formed = create-WellFormed m n;
        agrees =
            IsBlank-Agrees msg (create m n)
              (record { no_session = refl; no_ranges = refl; no_size = refl });
        payload_limit = refl;
        segment_limit = refl;
        incomplete = refl;
        session_open = inl refl;
        end_known = unfold covers in λ e. cc;
        not_full = unfold is_fully_covered in refl;
      })
      ts λ i h. unfold covers in all i h
