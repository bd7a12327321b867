-- ===== src/Reassembler.antt =====
-- src/protocol/someip_tp.h and someip_tp.cpp: reassembly of SOME/IP-TP segments. Log lines are left
-- out. A size_t sum of the code stays below twice the payload limit, so it does not wrap.
pub mod Ranges
pub mod Merge
pub mod Bounds
pub mod Content
pub mod Accept
pub mod Delivery
pub mod Completion
mod Tests
use afi920_sdk.Prelude.{
  ℕ, ◌+◌, ◌-◌, ◌%◌, ◌*◌, max, List, [], ◌∷◌, ◌++◌, Bool, true, false, not, ◌&&◌, ◌||◌, length, take,
  drop, replicate, ltb, leb, ◌==◌, ◌!=◌, if◌then◌else◌, Option, none, some,
}

-- A covered range `[first, second)` of payload offsets, a `std::pair` in the source.
pub record Range : Type 0 where
  pub first : ℕ
  pub second : ℕ

pub record Reassembler : Type 0 where
  pub buffer : List ℕ
  pub covered_ranges : List Range
  pub max_payload_size : ℕ
  pub max_segment_size : ℕ
  pub expected_size : ℕ
  pub total_size : ℕ
  pub session_id : ℕ
  pub has_session : Bool
  pub in_progress : Bool
  pub complete : Bool

-- The constructor, with its default member values.
pub create : ℕ → ℕ → Reassembler
create max_payload_size max_segment_size = record {
  buffer = [];
  covered_ranges = [];
  max_payload_size = max_payload_size;
  max_segment_size = max_segment_size;
  expected_size = 0;
  total_size = 0;
  session_id = 0;
  has_session = false;
  in_progress = false;
  complete = false;
}

-- `Reset` keeps the buffer for reuse.
unfoldable pub reset : Reassembler → Reassembler
reset r = record r {
  covered_ranges = [];
  expected_size = 0;
  total_size = 0;
  session_id = 0;
  has_session = false;
  in_progress = false;
  complete = false;
}

-- The order of `std::pair`, by which `std::sort` sorts.
pub range_leb : Range → Range → Bool
range_leb a b = ltb a.first b.first || (a.first == b.first && leb a.second b.second)

pub insert_range : Range → List Range → List Range
insert_range x [] = x ∷ []
insert_range x (y ∷ ys) = if range_leb x y then x ∷ y ∷ ys else y ∷ insert_range x ys

pub sort_ranges : List Range → List Range
sort_ranges [] = []
sort_ranges (x ∷ xs) = insert_range x (sort_ranges xs)

-- The loop of `AddCoveredRange`: `back` is `merged.back()`, and what stands before it in `merged` is
-- already in the result.
pub merge_from : Range → List Range → List Range
merge_from back [] = back ∷ []
merge_from back (range ∷ rest) =
    let apart = back ∷ merge_from range rest in
    let joined = merge_from (record back { second = max back.second range.second }) rest in
    if ltb back.second range.first then apart else joined

pub merge_ranges : List Range → List Range
merge_ranges [] = []
merge_ranges (range ∷ rest) = merge_from range rest

pub add_covered_range : Reassembler → ℕ → ℕ → Reassembler
add_covered_range r begin end = record r {
  covered_ranges =
      merge_ranges (sort_ranges (r.covered_ranges ++ record { first = begin; second = end } ∷ []));
}

-- `covered_ranges_[0]`, tested for the front and the end.
pub front_covers : List Range → ℕ → Bool
front_covers [] size = false
front_covers (range ∷ rest) size = range.first == 0 && leb size range.second

pub is_fully_covered : Reassembler → Bool
is_fully_covered r =
    r.expected_size != 0
    && (length r.covered_ranges == 1 && front_covers r.covered_ranges r.expected_size)

-- `buffer.resize(end)` where the buffer is shorter, and the `memcpy` to `buffer + begin`.
pub store : List ℕ → ℕ → List ℕ → List ℕ
store buffer begin segment =
    let end = begin + length segment in
    let grown = buffer ++ replicate (end - length buffer) 0 in
    take begin grown ++ (segment ++ drop end grown)

-- What `Feed` does about sessions before it looks at the range, a function for each `if`.
pub restart_complete : Reassembler → Reassembler
restart_complete r = if r.complete then reset r else r

pub restart_session : Reassembler → ℕ → Reassembler
restart_session r session = if r.has_session && r.session_id != session then reset r else r

pub claim_session : Reassembler → ℕ → Reassembler
claim_session r session =
    if not r.has_session then record r { session_id = session; has_session = true } else r

pub open_session : Reassembler → ℕ → Reassembler
open_session r session = claim_session (restart_session (restart_complete r) session) session

-- `covered_ranges_.back().second`, or 0 if there is none.
pub last_end : List Range → ℕ
last_end [] = 0
last_end (range ∷ []) = range.second
last_end (range ∷ next ∷ rest) = last_end (next ∷ rest)

-- The block under `if (!more_segments)`; `none` is its `Reset` and `return false`.
pub declare_end : Reassembler → ℕ → Option Reassembler
declare_end r end =
    if r.expected_size != 0 && r.expected_size != end
    then none
    else if ltb end (last_end r.covered_ranges)
    then none
    else some (record r { expected_size = end })

pub finish : Reassembler → Reassembler × Bool
finish r =
    if is_fully_covered r
    then (record r { total_size = r.expected_size; complete = true; in_progress = false }, true)
    else (r, false)

-- The copy of the data and its range.
pub store_segment : Reassembler → List ℕ → ℕ → Reassembler
store_segment r segment begin =
    add_covered_range (record r { in_progress = true; buffer = store r.buffer begin segment }) begin
      (begin + length segment)

-- From the copy of the data on.
pub accept : Reassembler → List ℕ → ℕ → Bool → Reassembler × Bool
accept r segment begin more =
    let stored = store_segment r segment begin in
    if more then finish stored else elim (declare_end stored (begin + length segment)) [
      | none ↦ (reset stored, false)
      | some r' ↦ finish r'
    ]

pub place : Reassembler → List ℕ → ℕ → Bool → Reassembler × Bool
place r segment begin more =
    if ltb r.max_payload_size begin || ltb (r.max_payload_size - begin) (length segment)
    then (reset r, false)
    else if r.expected_size != 0 && ltb r.expected_size (begin + length segment)
    then (reset r, false)
    else accept r segment begin more

pub record Segment : Type 0 where
  pub bytes : List ℕ
  pub offset_bytes : ℕ
  pub more_segments : Bool
  pub session : ℕ

-- `Feed`: the new state, and whether the message is now complete.
pub feed : Reassembler → Segment → Reassembler × Bool
feed r s =
    if length s.bytes == 0
    then (r, false)
    else if ltb r.max_segment_size (length s.bytes) || (s.more_segments && length s.bytes % 16 != 0)
    then (reset r, false)
    else place (open_session r s.session) s.bytes s.offset_bytes s.more_segments

-- `GetPayload` with `GetPayloadSize`; the size is within the buffer (see Bounds).
pub payload : Reassembler → List ℕ
payload r = take r.total_size r.buffer
