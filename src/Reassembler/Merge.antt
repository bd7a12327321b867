-- ===== src/Reassembler/Merge.antt =====
-- The merge loop of `AddCoveredRange` in src/protocol/someip_tp.cpp: it keeps the set of offsets, and
-- leaves ranges that are apart, so that one range is left exactly when the set has no hole.
use afi920_sdk.Prelude.{
  ℕ, ◌≤◌, ◌<◌, ◌≡◌, refl, ◌∙◌, List, [], ◌∷◌, ◌++◌, true, false, ◌&&◌, ◌||◌, ltb, leb, arith, max,
  length, ◌-◌, ◌≢◌, ◌↔◌,
}
use afi920_sdk.Reassembler.{
  Range, Reassembler, sort_ranges, merge_from, merge_ranges, add_covered_range, front_covers,
  is_fully_covered,
}
use afi920_sdk.Reassembler.Ranges.{
  in_range, covers, covers-append, covers-sort_ranges, Rises, Rises-mono, IsSorted,
  sort_ranges-IsSorted, Within, Nonempty, Within-append, Nonempty-append, sort_ranges-Within,
  sort_ranges-Nonempty,
}

abbrev joined : Range → Range → Range
joined back c = record back { second = max back.second c.second }

covers-merge_from :
    (back : Range) (rest : List Range) (i : ℕ)
    → Rises back.first rest
    → covers (merge_from back rest) i ≡ (in_range back i || covers rest i)
unfolding covers merge_from
covers-merge_from back [] i s = refl
covers-merge_from back (c ∷ cs) i s = ground (
  arith,
  covers-merge_from c cs i s.1,
  covers-merge_from (joined back c) cs i (Rises-mono c.first back.first cs s.0 s.1),
)

covers-merge_ranges :
    (xs : List Range) (i : ℕ) → IsSorted xs → covers (merge_ranges xs) i ≡ covers xs i
unfolding covers merge_ranges
covers-merge_ranges [] i s = refl
covers-merge_ranges (x ∷ xs) i s = covers-merge_from x xs i s

abbrev pub ranges_with : List Range → ℕ → ℕ → List Range
ranges_with rs begin end = rs ++ record { first = begin; second = end } ∷ []

-- `AddCoveredRange` adds exactly the offsets of `[begin, end)` to the set of covered offsets.
pub covers-add_covered_range :
    (r : Reassembler) (begin end i : ℕ)
    → covers (add_covered_range r begin end).covered_ranges i
      ≡ (covers r.covered_ranges i || (leb begin i && ltb i end))
unfolding add_covered_range
covers-add_covered_range r begin end i =
    covers-merge_ranges (sort_ranges (ranges_with r.covered_ranges begin end)) i
      (sort_ranges-IsSorted (ranges_with r.covered_ranges begin end))
    ∙ covers-sort_ranges (ranges_with r.covered_ranges begin end) i
    ∙ covers-append r.covered_ranges (record { first = begin; second = end } ∷ []) i
    ∙ unfold covers in ground arith

-- Behind `low` the ranges are not empty, and there is a gap before each.
abbrev pub Apart : ℕ → List Range → Type 0
Apart low [] = Unit {0}
Apart low (c ∷ cs) = (low < c.first) × (c.first < c.second) × Apart c.second cs

abbrev pub IsSeparated : List Range → Type 0
IsSeparated [] = Unit {0}
IsSeparated (c ∷ cs) = (c.first < c.second) × Apart c.second cs

merge_from-Apart :
    (low : ℕ) (back : Range) (rest : List Range)
    → low < back.first
    → back.first < back.second
    → Rises back.first rest
    → Nonempty rest
    → Apart low (merge_from back rest)
unfolding merge_from
merge_from-Apart low back [] l h s n = (l, h, tt)
merge_from-Apart low back (c ∷ cs) l h s n = ground (
  arith,
  merge_from-Apart back.second c cs,
  merge_from-Apart low (joined back c) cs l (omega arith) (Rises-mono c.first back.first cs s.0 s.1)
      n.1,
)

merge_from-IsSeparated :
    (back : Range) (rest : List Range)
    → back.first < back.second
    → Rises back.first rest
    → Nonempty rest
    → IsSeparated (merge_from back rest)
unfolding merge_from
merge_from-IsSeparated back [] h s n = (h, tt)
merge_from-IsSeparated back (c ∷ cs) h s n = ground (
  arith,
  merge_from-Apart back.second c cs,
  merge_from-IsSeparated (joined back c) cs (omega arith) (Rises-mono c.first back.first cs s.0 s.1)
      n.1,
)

merge_ranges-IsSeparated :
    (xs : List Range) → IsSorted xs → Nonempty xs → IsSeparated (merge_ranges xs)
unfolding merge_ranges
merge_ranges-IsSeparated [] s n = tt
merge_ranges-IsSeparated (x ∷ xs) s n = merge_from-IsSeparated x xs n.0 s n.1

Apart-Nonempty : (low : ℕ) (xs : List Range) → Apart low xs → Nonempty xs
Apart-Nonempty low [] a = tt
Apart-Nonempty low (x ∷ xs) a = (a.1, Apart-Nonempty x.second xs a.2)

IsSeparated-Nonempty : (xs : List Range) → IsSeparated xs → Nonempty xs
IsSeparated-Nonempty [] a = tt
IsSeparated-Nonempty (x ∷ xs) a = (a.0, Apart-Nonempty x.second xs a.1)

-- `AddCoveredRange` keeps the ranges sorted, none of them empty, and no two of them touching.
pub add_covered_range-IsSeparated :
    (r : Reassembler) (begin end : ℕ)
    → begin < end
    → IsSeparated r.covered_ranges
    → IsSeparated (add_covered_range r begin end).covered_ranges
unfolding add_covered_range
add_covered_range-IsSeparated r begin end h s =
    merge_ranges-IsSeparated (sort_ranges (ranges_with r.covered_ranges begin end))
      (sort_ranges-IsSorted (ranges_with r.covered_ranges begin end))
      (sort_ranges-Nonempty (ranges_with r.covered_ranges begin end)
        (Nonempty-append r.covered_ranges _ (IsSeparated-Nonempty r.covered_ranges s) (h, tt)))

merge_from-Within :
    (limit : ℕ) (back : Range) (rest : List Range)
    → back.second ≤ limit
    → Within limit rest
    → Within limit (merge_from back rest)
unfolding merge_from
merge_from-Within limit back [] h w = (h, tt)
merge_from-Within limit back (c ∷ cs) h w = ground (
  arith,
  merge_from-Within limit c cs w.0 w.1,
  merge_from-Within limit (joined back c) cs (omega arith) w.1,
)

merge_ranges-Within :
    (limit : ℕ) (xs : List Range) → Within limit xs → Within limit (merge_ranges xs)
unfolding merge_ranges
merge_ranges-Within limit [] w = tt
merge_ranges-Within limit (x ∷ xs) w = merge_from-Within limit x xs w.0 w.1

pub add_covered_range-Within :
    (r : Reassembler) (begin end limit : ℕ)
    → end ≤ limit
    → Within limit r.covered_ranges
    → Within limit (add_covered_range r begin end).covered_ranges
unfolding add_covered_range
add_covered_range-Within r begin end limit h w =
    merge_ranges-Within limit (sort_ranges (ranges_with r.covered_ranges begin end)) (
      sort_ranges-Within limit (ranges_with r.covered_ranges begin end)
        (Within-append limit r.covered_ranges _ w (h, tt)))

-- Every offset below `n` is covered.
abbrev pub CoversBelow : List Range → ℕ → Type 0
CoversBelow rs n = (i : ℕ) → i < n → covers rs i ≡ true

not_covered_below :
    (low : ℕ) (xs : List Range) (i : ℕ) → Apart low xs → i ≤ low → covers xs i ≡ false
unfolding covers
not_covered_below low [] i a h = refl
not_covered_below low (x ∷ xs) i a h =
    ground (arith, not_covered_below x.second xs i a.2 (omega arith))

-- Separated ranges below `n` cover all of it only as the one range `[0, n)`.
pub one_range :
    (rs : List Range) (n : ℕ)
    → 0 < n
    → IsSeparated rs
    → Within n rs
    → CoversBelow rs n
    → (length rs ≡ 1) × (front_covers rs n ≡ true)
unfolding covers front_covers
one_range [] n pos s w all = cc (all 0 pos)
one_range (c ∷ []) n pos s w all = ground (arith, all 0 pos, all (n - 1) (omega arith))
one_range (c ∷ d ∷ rest) n pos s w all =
    ground (arith, all c.second (omega arith), not_covered_below d.second rest c.second)

front_covers_below :
    (rs : List Range) (n i : ℕ) → front_covers rs n ≡ true → i < n → covers rs i ≡ true
unfolding covers front_covers
front_covers_below [] n i e h = cc
front_covers_below (c ∷ cs) n i e h = ground arith

-- With separated ranges below the expected size, `IsFullyCovered` answers true exactly when the
-- expected size is known and every offset below it is covered.
pub is_fully_covered_iff :
    (r : Reassembler)
    → IsSeparated r.covered_ranges
    → Within r.expected_size r.covered_ranges
    → (is_fully_covered r ≡ true)
      ↔ ((r.expected_size ≢ 0) × CoversBelow r.covered_ranges r.expected_size)
unfolding is_fully_covered
is_fully_covered_iff r s w = (
  λ e. (
    λ z. ground arith,
    λ i h. front_covers_below r.covered_ranges r.expected_size i (ground arith) h,
  ),
  λ known.
      let one = one_range r.covered_ranges r.expected_size (ground arith) s w known.1 in
      ground arith,
)
