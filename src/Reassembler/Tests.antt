-- ===== src/Reassembler/Tests.antt =====
-- Runs of the reassembler of src/protocol/someip_tp.cpp on a message of 18 bytes in two segments,
-- the last one first.
use afi920_sdk.Prelude.{
  ℕ, ◌+◌, ◌<◌, ◌≡◌, ◌≢◌, ◌↔◌, refl, ap, ◌∙◌, get_or, List, [], ◌∷◌, true, false, ltb, take, drop,
  arith, All, inl, inr, ◌||◌, ◌&&◌, leb, get_or-take, get_or-drop,
}
use afi920_sdk.Reassembler.{
  Reassembler, Segment, create, feed, open_session, restart_complete, restart_session,
  claim_session, reset, place, accept, store_segment, store, merge_ranges, merge_from, sort_ranges,
  insert_range, range_leb, declare_end, last_end, finish, front_covers, payload, add_covered_range,
  is_fully_covered,
}
use afi920_sdk.Reassembler.Ranges.{covers}
use afi920_sdk.Reassembler.Merge.{CoversBelow, covers-add_covered_range, is_fully_covered_iff}
use afi920_sdk.Reassembler.Bounds.{WellFormed, create-WellFormed, feed-WellFormed}
use afi920_sdk.Reassembler.Content.{IsSliceOf}
use afi920_sdk.Reassembler.Delivery.{deliveries, create-deliveries}
use afi920_sdk.Reassembler.Completion.{IsSent, create_completes}

abbrev message : List ℕ
message = 1 ∷ 2 ∷ 3 ∷ 4 ∷ 5 ∷ 6 ∷ 7 ∷ 8 ∷ 9 ∷ 10 ∷ 11 ∷ 12 ∷ 13 ∷ 14 ∷ 15 ∷ 16 ∷ 17 ∷ 18 ∷ []

abbrev front : Segment
front = record { bytes = take 16 message; offset_bytes = 0; more_segments = true; session = 5 }

abbrev back : Segment
back = record { bytes = drop 16 message; offset_bytes = 16; more_segments = false; session = 5 }

front_content :
    (j : ℕ) → j < 16 → get_or (take 16 message) j 0 ≡ get_or message (front.offset_bytes + j) 0
front_content j h =
    let e : j ≡ 0 + j = omega arith in get_or-take 16 message j 0 h ∙ ap (λ i. get_or message i 0) e

front-IsSliceOf : IsSliceOf message front
front-IsSliceOf = record { inside = omega arith; content = λ j h. front_content j h; last = refl }

back-IsSliceOf : IsSliceOf message back
back-IsSliceOf = record {
  inside = omega arith;
  content = λ j h. get_or-drop 16 message j (16 + j) 0 (omega arith);
  last = refl;
}

-- The message comes out, once.
delivered : deliveries (create 64 32) (back ∷ front ∷ []) ≡ (5, message) ∷ []
unfolding deliveries feed create open_session restart_complete restart_session claim_session reset
    place accept store_segment store add_covered_range merge_ranges merge_from sort_ranges
    insert_range range_leb declare_end last_end finish is_fully_covered front_covers payload
delivered = refl

create-deliveries_example : All (λ d. d.1 ≡ message) (deliveries (create 64 32) (back ∷ front ∷ []))
create-deliveries_example =
    create-deliveries (λ _. message) 64 32 (back ∷ front ∷ [])
      (back-IsSliceOf, (front-IsSliceOf, tt))

front-IsSent : IsSent message 5 64 32 front
front-IsSent = record {
  slice = front-IsSliceOf;
  of_session = refl;
  nonempty = omega arith;
  small = omega arith;
  aligned = inr refl;
  in_limit = omega arith;
}

back-IsSent : IsSent message 5 64 32 back
back-IsSent = record {
  slice = back-IsSliceOf;
  of_session = refl;
  nonempty = omega arith;
  small = omega arith;
  aligned = inl refl;
  in_limit = omega arith;
}

create_completes_example : deliveries (create 64 32) (back ∷ front ∷ []) ≢ []
create_completes_example =
    create_completes message 5 64 32 (back ∷ front ∷ []) (omega arith)
      (back-IsSent, (front-IsSent, tt)) (λ i h. unfold covers in ground arith)

abbrev one_range : Reassembler
one_range = record (create 64 32) {
  covered_ranges = record { first = 0; second = 18 } ∷ [];
  buffer = message;
  expected_size = 18;
}

feed-WellFormed_example : WellFormed (feed (create 64 32) back).0
feed-WellFormed_example = feed-WellFormed back (create-WellFormed 64 32)

is_fully_covered_iff_example :
    (is_fully_covered one_range ≡ true)
    ↔ ((one_range.expected_size ≢ 0) × CoversBelow one_range.covered_ranges one_range.expected_size)
is_fully_covered_iff_example = is_fully_covered_iff one_range (omega arith, tt) (omega arith, tt)

covers-add_covered_range_example :
    covers (add_covered_range one_range 20 24).covered_ranges 21
    ≡ (covers one_range.covered_ranges 21 || (leb 20 21 && ltb 21 24))
covers-add_covered_range_example = covers-add_covered_range one_range 20 24 21
