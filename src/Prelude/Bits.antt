-- ===== src/Prelude/Bits.antt =====
-- The masks that the SDK takes of a number, as division and remainder.
use Prim.Native.Nat.{ℕ, zero, suc, ◌+◌, ◌*◌, ◌/◌, ◌%◌, ◌≤◌, min, bit_and, digits, bit_and-bitwise}
use mathlib.Core.Path.{◌≡◌, refl, sym, ◌∙◌}
use native.Mathlib.Omega.{arith}

-- `bit_and` by its digits, `n` of them at most.
conj : ℕ → ℕ → ℕ → ℕ
conj = digits (λ b. zero) min

conj-zero : (n b : ℕ) → conj n 0 b ≡ 0
unfolding conj
conj-zero zero b = refl
conj-zero (suc n) b = refl

conj_by-zero : (n a : ℕ) → conj n a 0 ≡ 0
unfolding conj
conj_by-zero zero zero = refl
conj_by-zero zero (suc a) = refl
conj_by-zero (suc n) zero = refl
conj_by-zero (suc n) (suc a) = let e = conj_by-zero n (suc a / 2) in omega (arith, e)

-- Any two counts of digits that are enough for `a` give one value.
conj_settled : (a b n m : ℕ) → a ≤ m → a ≤ n → conj n a b ≡ conj m a b
unfolding conj
conj_settled zero b n m p q = conj-zero n b ∙ sym (conj-zero m b)
conj_settled (suc a) b zero m p q = absurd (omega arith)
conj_settled (suc a) b (suc n) zero p q = absurd (omega arith)
conj_settled (suc a) b (suc n) (suc m) p q =
    let half = conj_settled (suc a / 2) (b / 2) n m (omega arith) (omega arith) in
    omega (arith, half)

bit_and-conj : (a b n : ℕ) → a ≤ n → bit_and a b ≡ conj n a b
unfolding conj
bit_and-conj a b n h = let e = conj_settled a b a n h (omega arith) in bit_and-bitwise a b ∙ e

bit_and_by-zero : (a : ℕ) → bit_and a 0 ≡ 0
bit_and_by-zero a = bit_and-conj a 0 a (omega arith) ∙ conj_by-zero a a

bit_and_low : (a b : ℕ) → bit_and a b ≡ min (a % 2) (b % 2) + 2 * bit_and (a / 2) (b / 2)
unfolding conj
bit_and_low zero b =
    let none : bit_and 0 (b / 2) ≡ 0 = bit_and-conj 0 (b / 2) 0 (omega arith) in
    let all : bit_and 0 b ≡ 0 = bit_and-conj 0 b 0 (omega arith) in omega (arith, none, all)
bit_and_low (suc a) b =
    let half = bit_and-conj (suc a / 2) (b / 2) a (omega arith) in
    let whole = bit_and-conj (suc a) b (suc a) (omega arith) in omega (arith, whole, half)

bit_and-one : (a : ℕ) → bit_and a 1 ≡ a % 2
bit_and-one a = omega (arith, bit_and_low a 1, bit_and_by-zero (a / 2))

-- `x & 0x01`, `x & 0x0E` and `x & 0x20` by division.
pub bit_and_01 : (a : ℕ) → bit_and a 0x01 ≡ a % 2
bit_and_01 a = bit_and-one a

pub bit_and_0e : (a : ℕ) → bit_and a 0x0E ≡ a % 16 / 2 * 2
bit_and_0e a = omega (
  arith,
  bit_and_low a 14,
  bit_and_low (a / 2) 7,
  bit_and_low (a / 2 / 2) 3,
  bit_and-one (a / 2 / 2 / 2),
)

pub bit_and_20 : (a : ℕ) → bit_and a 0x20 ≡ a / 32 % 2 * 32
bit_and_20 a = omega (
  arith,
  bit_and_low a 32,
  bit_and_low (a / 2) 16,
  bit_and_low (a / 2 / 2) 8,
  bit_and_low (a / 2 / 2 / 2) 4,
  bit_and_low (a / 2 / 2 / 2 / 2) 2,
  bit_and-one (a / 2 / 2 / 2 / 2 / 2),
)
