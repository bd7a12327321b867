-- ===== src/Endian.antt =====
-- src/util/endian_util.h: words in big-endian and little-endian order. A byte is a number below
-- 256. The shifted bytes of a word share no bit, so the source's `|` is written `+`. A float is
-- its 32-bit pattern, since the source only copies it.
pub mod Laws
use afi920_sdk.Prelude.{
  ℕ, ◌+◌, ◌*◌, ◌/◌, ◌%◌, ◌^◌, List, [], ◌∷◌, none, some, get_elem?, Outcome, ok, fault, ◌>>=◌,
}

-- `p[i]`
unfoldable pub byte : List ℕ → ℕ → Outcome ℕ
byte p i = elim (get_elem? p i) [ none ↦ fault | some b ↦ ok b ]

unfoldable pub unpack_be16 : List ℕ → ℕ → Outcome ℕ
unfolding byte
unpack_be16 p i = do a ← byte p i; b ← byte p (i + 1); ok (a * 2 ^ 8 + b)

unfoldable pub unpack_be32 : List ℕ → ℕ → Outcome ℕ
unfolding byte
unpack_be32 p i = do
  a ← byte p i
  b ← byte p (i + 1)
  c ← byte p (i + 2)
  d ← byte p (i + 3)
  ok (a * 2 ^ 24 + b * 2 ^ 16 + c * 2 ^ 8 + d)

unfoldable pub unpack_le16 : List ℕ → ℕ → Outcome ℕ
unfolding byte
unpack_le16 p i = do a ← byte p i; b ← byte p (i + 1); ok (a + b * 2 ^ 8)

unfoldable pub unpack_le32 : List ℕ → ℕ → Outcome ℕ
unfolding byte
unpack_le32 p i = do
  a ← byte p i
  b ← byte p (i + 1)
  c ← byte p (i + 2)
  d ← byte p (i + 3)
  ok (a + b * 2 ^ 8 + c * 2 ^ 16 + d * 2 ^ 24)

unfoldable pub unpack_le64 : List ℕ → ℕ → Outcome ℕ
unfolding byte
unpack_le64 p i = do
  a ← byte p i
  b ← byte p (i + 1)
  c ← byte p (i + 2)
  d ← byte p (i + 3)
  e ← byte p (i + 4)
  f ← byte p (i + 5)
  g ← byte p (i + 6)
  h ← byte p (i + 7)
  ok (a + b * 2 ^ 8 + c * 2 ^ 16 + d * 2 ^ 24 + e * 2 ^ 32 + f * 2 ^ 40 + g * 2 ^ 48 + h * 2 ^ 56)

-- The float of `memcpy(&f, &u)` stays the pattern `u`.
unfoldable pub unpack_le_f32 : List ℕ → ℕ → Outcome ℕ
unfolding unpack_le32
unpack_le_f32 p i = unpack_le32 p i

unfoldable pub pack_be16 : ℕ → List ℕ
pack_be16 v = v / 2 ^ 8 % 256 ∷ v % 256 ∷ []

unfoldable pub pack_be32 : ℕ → List ℕ
pack_be32 v = v / 2 ^ 24 % 256 ∷ v / 2 ^ 16 % 256 ∷ v / 2 ^ 8 % 256 ∷ v % 256 ∷ []
