-- ===== src/Reassembler/Ranges.antt =====
-- What a list of covered ranges of src/protocol/someip_tp.cpp stands for: a set of byte offsets.
-- Sorting the list keeps the set.
use afi920_sdk.Prelude.{
  ℕ, ◌≤◌, ◌<◌, ◌≡◌, refl, List, [], ◌∷◌, ◌++◌, Bool, false, ◌&&◌, ◌||◌, ltb, leb, arith,
}
use afi920_sdk.Reassembler.{Range, range_leb, insert_range, sort_ranges}

abbrev pub in_range : Range → ℕ → Bool
in_range c i = leb c.first i && ltb i c.second

-- Whether some range of the list has the offset.
unfoldable pub covers : List Range → ℕ → Bool
covers [] i = false
covers (c ∷ cs) i = in_range c i || covers cs i

pub covers-append :
    (xs ys : List Range) (i : ℕ) → covers (xs ++ ys) i ≡ (covers xs i || covers ys i)
unfolding covers
covers-append [] ys i = refl
covers-append (x ∷ xs) ys i = ground (arith, covers-append xs ys i)

covers-insert_range :
    (x : Range) (xs : List Range) (i : ℕ)
    → covers (insert_range x xs) i ≡ (in_range x i || covers xs i)
unfolding covers insert_range
covers-insert_range x [] i = refl
covers-insert_range x (y ∷ ys) i = ground (arith, covers-insert_range x ys i)

pub covers-sort_ranges : (xs : List Range) (i : ℕ) → covers (sort_ranges xs) i ≡ covers xs i
unfolding covers sort_ranges
covers-sort_ranges [] i = refl
covers-sort_ranges (x ∷ xs) i =
    ground (arith, covers-insert_range x (sort_ranges xs) i, covers-sort_ranges xs i)

-- The first ends rise from `low` on.
abbrev pub Rises : ℕ → List Range → Type 0
Rises low [] = Unit {0}
Rises low (c ∷ cs) = (low ≤ c.first) × Rises c.first cs

abbrev pub IsSorted : List Range → Type 0
IsSorted [] = Unit {0}
IsSorted (c ∷ cs) = Rises c.first cs

pub Rises-mono : (low low' : ℕ) (xs : List Range) → low' ≤ low → Rises low xs → Rises low' xs
Rises-mono low low' [] h r = tt
Rises-mono low low' (x ∷ xs) h r = (omega arith, r.1)

insert_range-Rises :
    (low : ℕ) (x : Range) (xs : List Range)
    → low ≤ x.first
    → Rises low xs
    → Rises low (insert_range x xs)
unfolding insert_range range_leb
insert_range-Rises low x [] h r = (h, tt)
insert_range-Rises low x (y ∷ ys) h r = ground (arith, insert_range-Rises y.first x ys)

insert_range-IsSorted : (x : Range) (xs : List Range) → IsSorted xs → IsSorted (insert_range x xs)
unfolding insert_range range_leb
insert_range-IsSorted x [] r = tt
insert_range-IsSorted x (y ∷ ys) r = ground (arith, insert_range-Rises y.first x ys)

-- `sort_ranges` sorts by the first ends.
pub sort_ranges-IsSorted : (xs : List Range) → IsSorted (sort_ranges xs)
unfolding sort_ranges
sort_ranges-IsSorted [] = tt
sort_ranges-IsSorted (x ∷ xs) = insert_range-IsSorted x (sort_ranges xs) (sort_ranges-IsSorted xs)

-- Every range ends at `limit` at most.
abbrev pub Within : ℕ → List Range → Type 0
Within limit [] = Unit {0}
Within limit (c ∷ cs) = (c.second ≤ limit) × Within limit cs

abbrev pub Nonempty : List Range → Type 0
Nonempty [] = Unit {0}
Nonempty (c ∷ cs) = (c.first < c.second) × Nonempty cs

pub Within-append :
    (limit : ℕ) (xs ys : List Range) → Within limit xs → Within limit ys → Within limit (xs ++ ys)
Within-append limit [] ys hx hy = hy
Within-append limit (x ∷ xs) ys hx hy = (hx.0, Within-append limit xs ys hx.1 hy)

pub Within-mono : (m n : ℕ) (xs : List Range) → m ≤ n → Within m xs → Within n xs
Within-mono m n [] h w = tt
Within-mono m n (x ∷ xs) h w = (omega arith, Within-mono m n xs h w.1)

pub Nonempty-append : (xs ys : List Range) → Nonempty xs → Nonempty ys → Nonempty (xs ++ ys)
Nonempty-append [] ys hx hy = hy
Nonempty-append (x ∷ xs) ys hx hy = (hx.0, Nonempty-append xs ys hx.1 hy)

insert_range-Within :
    (limit : ℕ) (x : Range) (xs : List Range)
    → x.second ≤ limit
    → Within limit xs
    → Within limit (insert_range x xs)
unfolding insert_range
insert_range-Within limit x [] h w = (h, tt)
insert_range-Within limit x (y ∷ ys) h w = ground (arith, insert_range-Within limit x ys h w.1)

pub sort_ranges-Within :
    (limit : ℕ) (xs : List Range) → Within limit xs → Within limit (sort_ranges xs)
unfolding sort_ranges
sort_ranges-Within limit [] w = tt
sort_ranges-Within limit (x ∷ xs) w =
    insert_range-Within limit x (sort_ranges xs) w.0 (sort_ranges-Within limit xs w.1)

insert_range-Nonempty :
    (x : Range) (xs : List Range) → x.first < x.second → Nonempty xs → Nonempty (insert_range x xs)
unfolding insert_range
insert_range-Nonempty x [] h w = (h, tt)
insert_range-Nonempty x (y ∷ ys) h w = ground (arith, insert_range-Nonempty x ys h w.1)

pub sort_ranges-Nonempty : (xs : List Range) → Nonempty xs → Nonempty (sort_ranges xs)
unfolding sort_ranges
sort_ranges-Nonempty [] w = tt
sort_ranges-Nonempty (x ∷ xs) w =
    insert_range-Nonempty x (sort_ranges xs) w.0 (sort_ranges-Nonempty xs w.1)
