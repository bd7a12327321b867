-- ===== src/Reassembler/Content.antt =====
-- What `Feed` of src/protocol/someip_tp.cpp reassembles: the bytes of the message that the segments
-- were cut from, in whatever order, repetition and mixture of sessions they arrive.
use afi920_sdk.Reassembler.Bounds.{WellFormed}
use afi920_sdk.Reassembler.Merge.{
  is_fully_covered_iff, CoversBelow, add_covered_range-Within, covers-add_covered_range,
}
use afi920_sdk.Prelude.{
  ◌≢◌, get_or_ext, sym, some, false, ℕ, ◌+◌, ◌-◌, ◌≤◌, ◌<◌, ◌≡◌, refl, subst, ◌∙◌, List, [], ◌∷◌,
  ◌++◌, true, ◌||◌, ltb, arith, max, length, ◌⊎◌, inl, inr, take, replicate, length-append,
  length-take, length-replicate, Bool-cases, get_or, get_or-append_left, get_or-append_right,
  get_or-take, get_or-drop,
}
use afi920_sdk.Reassembler.{
  is_fully_covered, add_covered_range, payload, declare_end, finish, last_end, reset, store_segment,
  Range, Reassembler, Segment, store,
}
use afi920_sdk.Reassembler.Ranges.{in_range, covers, Within}

module _ (buffer : List ℕ) (begin : ℕ) (segment : List ℕ) where
  grown : List ℕ
  grown = buffer ++ replicate (begin + length segment - length buffer) 0

  length-grown : length grown ≡ max (length buffer) (begin + length segment)
  unfolding grown
  length-grown = omega (
    arith,
    length-append buffer (replicate (begin + length segment - length buffer) 0),
    length-replicate {A = ℕ} (begin + length segment - length buffer) 0,
  )

  length-front : length (take begin grown) ≡ begin
  length-front = omega (arith, length-take begin grown, length-grown)

  -- The copy puts byte `j` of the segment at offset `begin + j`.
  pub get_or-store_inside :
      (j : ℕ)
      → j < length segment
      → get_or (store buffer begin segment) (begin + j) 0 ≡ get_or segment j 0
  unfolding store grown
  get_or-store_inside j h =
      get_or-append_right (take begin grown) _ (begin + j) j 0 (omega (arith, length-front))
      ∙ get_or-append_left segment _ j 0 h

  -- Outside the segment the copy changes nothing that was stored.
  pub get_or-store_outside :
      (i : ℕ)
      → i < length buffer
      → (i < begin) ⊎ (begin + length segment ≤ i)
      → get_or (store buffer begin segment) i 0 ≡ get_or buffer i 0
  unfolding store grown
  get_or-store_outside i h (inl before) =
      get_or-append_left (take begin grown) _ i 0 (omega (arith, length-front))
      ∙ get_or-take begin grown i 0 before
      ∙ get_or-append_left buffer _ i 0 h
  get_or-store_outside i h (inr behind) =
      let j : ℕ = i - (begin + length segment) in
      get_or-append_right (take begin grown) _ i (length segment + j) 0
        (omega (arith, length-front))
      ∙ get_or-append_right segment _ (length segment + j) j 0 refl
      ∙ get_or-drop (begin + length segment) grown j i 0 (omega arith)
      ∙ get_or-append_left buffer _ i 0 h

pub covers-lt : (n : ℕ) (rs : List Range) (i : ℕ) → Within n rs → covers rs i ≡ true → i < n
unfolding covers
covers-lt n [] i w e = cc
covers-lt n (c ∷ cs) i w e = ground (arith, covers-lt n cs i w.1)

-- The segment was cut from the message, and says truly whether it is the last one.
pub record IsSliceOf (msg : List ℕ) (s : Segment) : Type 0 where
  pub inside : s.offset_bytes + length s.bytes ≤ length msg
  pub content :
      (j : ℕ) → j < length s.bytes → get_or s.bytes j 0 ≡ get_or msg (s.offset_bytes + j) 0
  pub last : s.more_segments ≡ ltb (s.offset_bytes + length s.bytes) (length msg)

-- What is covered so far is the message's.
pub record Agrees (msg : List ℕ) (r : Reassembler) : Type 0 where
  pub content : (i : ℕ) → covers r.covered_ranges i ≡ true → get_or r.buffer i 0 ≡ get_or msg i 0
  pub within : Within (length msg) r.covered_ranges
  pub expected : (r.expected_size ≡ 0) ⊎ (r.expected_size ≡ length msg)

store_segment-content :
    (msg : List ℕ) (r : Reassembler) (s : Segment) (i : ℕ)
    → WellFormed r
    → IsSliceOf msg s
    → Agrees msg r
    → (covers r.covered_ranges i
        || in_range (record { first = s.offset_bytes; second = s.offset_bytes + length s.bytes }) i)
      ≡ true
    → get_or (store r.buffer s.offset_bytes s.bytes) i 0 ≡ get_or msg i 0
store_segment-content msg r s i v slice a e = elim (Bool-cases (in_range new i)) [
  | inl e' ↦ here (ground arith) (ground arith)
  | inr e' ↦
      get_or-store_outside r.buffer s.offset_bytes s.bytes i
        (covers-lt (length r.buffer) r.covered_ranges i v.stored (ground arith)) (ground arith)
      ∙ a.content i (ground arith)
]
  where
    new : Range
    new = record { first = s.offset_bytes; second = s.offset_bytes + length s.bytes }

    here :
        s.offset_bytes ≤ i
        → i < s.offset_bytes + length s.bytes
        → get_or (store r.buffer s.offset_bytes s.bytes) i 0 ≡ get_or msg i 0
    here lo hi =
        let j : ℕ = i - s.offset_bytes in
        let e : s.offset_bytes + j ≡ i = omega arith in
        subst (λ k. get_or (store r.buffer s.offset_bytes s.bytes) k 0 ≡ get_or msg k 0) e
          (get_or-store_inside r.buffer s.offset_bytes s.bytes j (omega arith)
            ∙ slice.content j (omega arith))

-- Nothing is stored yet, as after `Reset`.
pub record IsBlank (r : Reassembler) : Type 0 where
  pub no_session : r.has_session ≡ false
  pub no_ranges : r.covered_ranges ≡ []
  pub no_size : r.expected_size ≡ 0

pub reset-IsBlank : (r : Reassembler) → IsBlank (reset r)
unfolding reset
reset-IsBlank r = record { no_session = refl; no_ranges = refl; no_size = refl }

pub IsBlank-Agrees : (msg : List ℕ) (r : Reassembler) → IsBlank r → Agrees msg r
unfolding covers
IsBlank-Agrees msg r b = record {
  content = λ i e. ground (arith, b.no_ranges, e);
  within = rw b.no_ranges tt;
  expected = inl b.no_size;
}

pub store_segment-Agrees :
    (msg : List ℕ) {r : Reassembler} (s : Segment)
    → WellFormed r
    → IsSliceOf msg s
    → Agrees msg r
    → Agrees msg (store_segment r s.bytes s.offset_bytes)
unfolding store_segment
store_segment-Agrees msg {r} s v slice a = record {
  content = λ i e.
      unfold add_covered_range in
      store_segment-content msg r s i v slice a (sym (covers-add_covered_range stored _ _ i) ∙ e);
  within = add_covered_range-Within stored _ _ (length msg) slice.inside a.within;
  expected = unfold add_covered_range in a.expected;
}
  where
    stored : Reassembler
    stored = record r { in_progress = true; buffer = store r.buffer s.offset_bytes s.bytes }

pub last_end-le : (rs : List Range) (n : ℕ) → Within n rs → last_end rs ≤ n
unfolding last_end
last_end-le [] n w = omega arith
last_end-le (c ∷ []) n w = w.0
last_end-le (c ∷ d ∷ ds) n w = last_end-le (d ∷ ds) n w.1

-- The last segment of the message declares the message's own size, and is never refused.
pub declare_end-Agrees :
    (msg : List ℕ) (r : Reassembler)
    → Agrees msg r
    → (declare_end r (length msg) ≡ some (record r { expected_size = length msg }))
      × Agrees msg (record r { expected_size = length msg })
unfolding declare_end
declare_end-Agrees msg r a = (
  ground (arith, a.expected, last_end-le r.covered_ranges (length msg) a.within),
  record { content = a.content; within = a.within; expected = inr refl },
)

take-eq :
    (msg buffer : List ℕ) (n : ℕ)
    → n ≡ length msg
    → n ≤ length buffer
    → ((i : ℕ) → i < n → get_or buffer i 0 ≡ get_or msg i 0)
    → take n buffer ≡ msg
take-eq msg buffer n e h same =
    get_or_ext (take n buffer) msg 0 (omega (arith, length-take n buffer)) λ i p.
      let q : i < n = omega (arith, length-take n buffer) in get_or-take n buffer i 0 q ∙ same i q

-- A message that is reported complete is the message.
pub finish-payload :
    (msg : List ℕ) (r : Reassembler)
    → WellFormed r
    → Agrees msg r
    → (finish r).1 ≡ true
    → payload (finish r).0 ≡ msg
unfolding finish payload
finish-payload msg r v a e =
    rw full
      (take-eq msg r.buffer r.expected_size known v.expected_stored λ i h. a.content i (all.1 i h))
  where
    full : is_fully_covered r ≡ true
    full = ground arith

    known : r.expected_size ≡ length msg
    known = unfold is_fully_covered in ground (arith, full, a.expected)

    all : (r.expected_size ≢ 0) × CoversBelow r.covered_ranges r.expected_size
    all = (is_fully_covered_iff r v.separated (rw known a.within)).0 full

pub finish-Agrees : (msg : List ℕ) {r : Reassembler} → Agrees msg r → Agrees msg (finish r).0
unfolding finish
finish-Agrees msg {r} a = elim (Bool-cases (is_fully_covered r)) [
  | inl e ↦ rw e (record { content = a.content; within = a.within; expected = a.expected })
  | inr e ↦ rw e a
]
