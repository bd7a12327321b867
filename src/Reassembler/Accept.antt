-- ===== src/Reassembler/Accept.antt =====
-- The part of `Feed` in src/protocol/someip_tp.cpp behind the range tests, on a segment that was cut
-- from a message.
use afi920_sdk.Reassembler.Bounds.{
  store_segment_room, declare_end-WellFormed, store_segment-WellFormed, Fits, WellFormed,
}
use afi920_sdk.Reassembler.Merge.{covers-add_covered_range}
use afi920_sdk.Prelude.{
  if◌then◌else◌, false, ℕ, ◌+◌, ◌≤◌, ◌≡◌, refl, subst, List, true, ◌||◌, arith, length, inl, inr,
  Bool-cases,
}
use afi920_sdk.Reassembler.{
  accept, add_covered_range, finish, store_segment, Range, Reassembler, Segment, store,
}
use afi920_sdk.Reassembler.Ranges.{in_range, covers}
use afi920_sdk.Reassembler.Content.{Agrees, IsSliceOf, store_segment-Agrees, declare_end-Agrees}

abbrev pub range_of : Segment → Range
range_of s = record { first = s.offset_bytes; second = s.offset_bytes + length s.bytes }

-- A segment of the message that passes the range tests is stored, and the state `q` then decides
-- whether the message is complete.
pub record Stores (msg : List ℕ) (r : Reassembler) (s : Segment) (q : Reassembler) : Type 0 where
  pub finishes : accept r s.bytes s.offset_bytes s.more_segments ≡ finish q
  pub well_formed : WellFormed q
  pub agrees : Agrees msg q
  pub adds :
      (i : ℕ) → covers q.covered_ranges i ≡ (covers r.covered_ranges i || in_range (range_of s) i)
  pub size : q.expected_size ≡ (if s.more_segments then r.expected_size else length msg)
  pub session : (q.session_id ≡ r.session_id) × (q.has_session ≡ r.has_session)
  pub limits : (q.max_payload_size ≡ r.max_payload_size) × (q.max_segment_size ≡ r.max_segment_size)
  pub open_still : q.complete ≡ r.complete

module _ (msg : List ℕ) (r : Reassembler) (s : Segment) (f : Fits r s.bytes s.offset_bytes)
    (v : WellFormed r) (slice : IsSliceOf msg s) (a : Agrees msg r) where
  stored : Reassembler
  stored = store_segment r s.bytes s.offset_bytes

  stored_ok : WellFormed stored
  unfolding stored
  stored_ok = store_segment-WellFormed s.bytes s.offset_bytes f v

  stored-Agrees : Agrees msg stored
  unfolding stored
  stored-Agrees = store_segment-Agrees msg s v slice a

  stored_adds :
      (i : ℕ)
      → covers stored.covered_ranges i ≡ (covers r.covered_ranges i || in_range (range_of s) i)
  unfolding stored store_segment
  stored_adds i =
      covers-add_covered_range
        (record r { in_progress = true; buffer = store r.buffer s.offset_bytes s.bytes })
        s.offset_bytes (s.offset_bytes + length s.bytes) i

  accept_more : s.more_segments ≡ true → Stores msg r s stored
  accept_more e = record {
    finishes = unfold accept stored in rw e;
    well_formed = stored_ok;
    agrees = stored-Agrees;
    adds = stored_adds;
    size = unfold stored store_segment add_covered_range in ground (arith, e);
    session = unfold stored store_segment add_covered_range in (refl, refl);
    limits = unfold stored store_segment add_covered_range in (refl, refl);
    open_still = unfold stored store_segment add_covered_range in refl;
  }

  accept_last :
      s.more_segments ≡ false → Stores msg r s (record stored { expected_size = length msg })
  accept_last e =
      let end : s.offset_bytes + length s.bytes ≡ length msg =
        ground (arith, slice.last, slice.inside, e) in
      let d = declare_end-Agrees msg stored stored-Agrees in
      let room : length msg ≤ length stored.buffer =
        unfold stored in
        subst (λ k. k ≤ length (store_segment r s.bytes s.offset_bytes).buffer) end
          (store_segment_room r s.bytes s.offset_bytes) in
      record {
        finishes = unfold accept stored in rw (e, end, d.0);
        well_formed = declare_end-WellFormed (length msg) room stored_ok d.0;
        agrees = d.1;
        adds = stored_adds;
        size = rw e;
        session = unfold stored store_segment add_covered_range in (refl, refl);
        limits = unfold stored store_segment add_covered_range in (refl, refl);
        open_still = unfold stored store_segment add_covered_range in refl;
      }

  pub accept-Stores : (q : Reassembler) × Stores msg r s q
  accept-Stores = elim (Bool-cases s.more_segments) [
    | inl e ↦ (stored, accept_more e)
    | inr e ↦ (record stored { expected_size = length msg }, accept_last e)
  ]
