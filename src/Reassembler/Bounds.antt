-- ===== src/Reassembler/Bounds.antt =====
-- Memory bounds of src/protocol/someip_tp.cpp: whatever segments arrive, the buffer stays below the
-- payload limit, and every range and the reported payload lie inside the buffer.
use afi920_sdk.Prelude.{
  ℕ, ◌+◌, ◌-◌, ◌≤◌, ◌<◌, ◌≡◌, List, [], ◌∷◌, ◌++◌, Bool, true, false, ◌&&◌, ◌||◌, ltb, arith, max,
  length, ◌!=◌, ◌⊎◌, inl, inr, take, drop, replicate, length-append, length-take, length-drop,
  length-replicate, some, Bool-cases, Option-cases,
}
use afi920_sdk.Reassembler.{
  restart_complete, restart_session, claim_session, Range, Reassembler, Segment, create, reset,
  store, store_segment, open_session, last_end, declare_end, finish, accept, place, feed,
  add_covered_range,
}
use afi920_sdk.Reassembler.Ranges.{Within, Within-mono}
use afi920_sdk.Reassembler.Merge.{
  IsSeparated, Apart, add_covered_range-IsSeparated, add_covered_range-Within,
}

pub length-store :
    (buffer : List ℕ) (begin : ℕ) (segment : List ℕ)
    → length (store buffer begin segment) ≡ max (length buffer) (begin + length segment)
unfolding store
length-store buffer begin segment =
    let end : ℕ = begin + length segment in
    let pad : List ℕ = replicate (end - length buffer) 0 in
    omega (
      arith,
      length-append (take begin (buffer ++ pad)) (segment ++ drop end (buffer ++ pad)),
      length-append segment (drop end (buffer ++ pad)),
      length-take begin (buffer ++ pad),
      length-drop end (buffer ++ pad),
      length-append buffer pad,
      length-replicate {A = ℕ} (end - length buffer) 0,
    )

pub record WellFormed (r : Reassembler) : Type 0 where
  pub separated : IsSeparated r.covered_ranges
  pub stored : Within (length r.buffer) r.covered_ranges
  pub small : length r.buffer ≤ r.max_payload_size
  pub expected_stored : r.expected_size ≤ length r.buffer
  pub expected_last : (r.expected_size ≡ 0) ⊎ Within r.expected_size r.covered_ranges
  pub total_stored : r.total_size ≤ length r.buffer

pub create-WellFormed : (max_payload max_segment : ℕ) → WellFormed (create max_payload max_segment)
unfolding create
create-WellFormed m n = ground arith

pub reset-WellFormed : {r : Reassembler} → WellFormed r → WellFormed (reset r)
unfolding reset
reset-WellFormed v = ground arith

restart_complete-WellFormed : {r : Reassembler} → WellFormed r → WellFormed (restart_complete r)
unfolding restart_complete
restart_complete-WellFormed v = ground (arith, reset-WellFormed v)

restart_session-WellFormed :
    {r : Reassembler} (session : ℕ) → WellFormed r → WellFormed (restart_session r session)
unfolding restart_session
restart_session-WellFormed session v = ground (arith, reset-WellFormed v)

claim_session-WellFormed :
    {r : Reassembler} (session : ℕ) → WellFormed r → WellFormed (claim_session r session)
unfolding claim_session
claim_session-WellFormed session v = ground arith

pub open_session-WellFormed :
    {r : Reassembler} (session : ℕ) → WellFormed r → WellFormed (open_session r session)
unfolding open_session
open_session-WellFormed session v =
    claim_session-WellFormed session
      (restart_session-WellFormed session (restart_complete-WellFormed v))

-- What the range tests of `Feed` have made sure of before the copy.
pub record Fits (r : Reassembler) (segment : List ℕ) (begin : ℕ) : Type 0 where
  pub nonempty : 0 < length segment
  pub in_limit : begin + length segment ≤ r.max_payload_size
  pub in_message : (r.expected_size ≡ 0) ⊎ (begin + length segment ≤ r.expected_size)

pub store_segment_room :
    (r : Reassembler) (segment : List ℕ) (begin : ℕ)
    → begin + length segment ≤ length (store_segment r segment begin).buffer
unfolding store_segment add_covered_range
store_segment_room r segment begin = omega (arith, length-store r.buffer begin segment)

stored_expected :
    (r : Reassembler) (begin end : ℕ)
    → (r.expected_size ≡ 0) ⊎ Within r.expected_size r.covered_ranges
    → (r.expected_size ≡ 0) ⊎ (end ≤ r.expected_size)
    → (r.expected_size ≡ 0) ⊎ Within r.expected_size (add_covered_range r begin end).covered_ranges
stored_expected r begin end (inl z) f = inl z
stored_expected r begin end (inr w) (inl z) = inl z
stored_expected r begin end (inr w) (inr f) =
    inr (add_covered_range-Within r begin end r.expected_size f w)

pub store_segment-WellFormed :
    {r : Reassembler} (segment : List ℕ) (begin : ℕ)
    → Fits r segment begin
    → WellFormed r
    → WellFormed (store_segment r segment begin)
unfolding store_segment add_covered_range
store_segment-WellFormed {r} segment begin f v =
    let end : ℕ = begin + length segment in
    let r' : Reassembler = record r { in_progress = true; buffer = store r.buffer begin segment } in
    let size = length-store r.buffer begin segment in
    record {
      separated =
          add_covered_range-IsSeparated r' begin end (ground (arith, f.nonempty)) v.separated;
      stored =
          add_covered_range-Within r' begin end (length (store r.buffer begin segment))
            (omega (arith, size))
            (Within-mono (length r.buffer) (length (store r.buffer begin segment)) r.covered_ranges
              (omega (arith, size)) v.stored);
      small = omega (arith, size, f.in_limit, v.small);
      expected_stored = omega (arith, size, v.expected_stored);
      expected_last = stored_expected r' begin end v.expected_last f.in_message;
      total_stored = omega (arith, size, v.total_stored);
    }

last_end-Apart :
    (low : ℕ) (c : Range) (cs : List Range) (n : ℕ)
    → Apart low (c ∷ cs)
    → last_end (c ∷ cs) ≤ n
    → Within n (c ∷ cs)
unfolding last_end
last_end-Apart low c [] n a h = (h, tt)
last_end-Apart low c (d ∷ ds) n a h =
    let rest = last_end-Apart c.second d ds n a.2 h in (omega arith, rest)

-- The end of the last range bounds all separated ranges.
pub last_end-Within : (rs : List Range) (n : ℕ) → IsSeparated rs → last_end rs ≤ n → Within n rs
unfolding last_end
last_end-Within [] n s h = tt
last_end-Within (c ∷ []) n s h = (h, tt)
last_end-Within (c ∷ d ∷ ds) n s h =
    let rest = last_end-Apart c.second d ds n s.1 h in (omega arith, rest)

pub declare_end-WellFormed :
    {r r' : Reassembler} (end : ℕ)
    → end ≤ length r.buffer
    → WellFormed r
    → declare_end r end ≡ some r'
    → WellFormed r'
unfolding declare_end
declare_end-WellFormed {r} end h v e =
    ground (arith, last_end-Within r.covered_ranges end v.separated)

pub finish-WellFormed : {r : Reassembler} → WellFormed r → WellFormed (finish r).0
unfolding finish
finish-WellFormed v = ground arith

pub accept-WellFormed :
    {r : Reassembler} (segment : List ℕ) (begin : ℕ) (more : Bool)
    → Fits r segment begin
    → WellFormed r
    → WellFormed (accept r segment begin more).0
unfolding accept
accept-WellFormed {r} segment begin true f v =
    finish-WellFormed (store_segment-WellFormed segment begin f v)
accept-WellFormed {r} segment begin false f v = elim (Option-cases (declare_end stored end)) [
  | inl e ↦ rw (e, accept) (reset-WellFormed stored_ok)
  | inr (r', e) ↦ rw (e, accept) (finish-WellFormed (declare_end-WellFormed end room stored_ok e))
]
  where
    stored : Reassembler
    stored = store_segment r segment begin

    end : ℕ
    end = begin + length segment

    stored_ok : WellFormed stored
    stored_ok = store_segment-WellFormed segment begin f v

    room : end ≤ length stored.buffer
    room = store_segment_room r segment begin

pub place_cases :
    (r : Reassembler) (segment : List ℕ) (begin : ℕ) (more : Bool)
    → 0 < length segment
    → (place r segment begin more ≡ (reset r, false))
      ⊎ (Fits r segment begin × (place r segment begin more ≡ accept r segment begin more))
place_cases r segment begin more h = elim (Bool-cases over) [
  | inl e ↦ inl (unfold place in rw e)
  | inr e ↦ elim (Bool-cases past) [
    | inl d ↦ inl (unfold place in rw (e, d))
    | inr d ↦ inr (
      record { nonempty = h; in_limit = ground arith; in_message = ground arith },
      unfold place in rw (e, d),
    )
  ]
]
  where
    over : Bool
    over = ltb r.max_payload_size begin || ltb (r.max_payload_size - begin) (length segment)

    past : Bool
    past = r.expected_size != 0 && ltb r.expected_size (begin + length segment)

place-WellFormed :
    {r : Reassembler} (segment : List ℕ) (begin : ℕ) (more : Bool)
    → 0 < length segment
    → WellFormed r
    → WellFormed (place r segment begin more).0
place-WellFormed {r} segment begin more h v = elim (place_cases r segment begin more h) [
  | inl e ↦ rw e (reset-WellFormed v)
  | inr (f, e) ↦ rw e (accept-WellFormed segment begin more f v)
]

pub feed_cases :
    (r : Reassembler) (s : Segment)
    → (feed r s ≡ (r, false))
      ⊎ (feed r s ≡ (reset r, false))
      ⊎ ((0 < length s.bytes)
          × (length s.bytes ≤ r.max_segment_size)
          × (feed r s ≡ place (open_session r s.session) s.bytes s.offset_bytes s.more_segments))
unfolding feed
feed_cases r s = ground arith

-- Whatever segment arrives, `Feed` keeps the buffer within the payload limit, the ranges separated,
-- and the ranges, the expected size and the reported payload inside the buffer.
pub feed-WellFormed : {r : Reassembler} (s : Segment) → WellFormed r → WellFormed (feed r s).0
feed-WellFormed {r} s v = elim (feed_cases r s) [
  | inl e ↦ rw e v
  | inr (inl e) ↦ rw e (reset-WellFormed v)
  | inr (inr (h, _, e)) ↦ rw e (
      place-WellFormed s.bytes s.offset_bytes s.more_segments h
        (open_session-WellFormed s.session v))
]
