-- ===== src/Endian/Laws.antt =====
-- Laws of src/util/endian_util.h: reads in range, and unpacking what was packed.
use afi920_sdk.Prelude.{
  eq-Returns, returned, Returns, Returns-IsSafe, ℕ, ◌+◌, ◌*◌, ◌^◌, ◌≤◌, ◌<◌, ◌≡◌, ap, List, ◌++◌,
  arith, length, get_or, get_elem?-eq-get_or, All, ok, IsSafe, ok_safe,
}
use afi920_sdk.Endian.{
  byte, unpack_be16, unpack_be32, unpack_le16, unpack_le32, unpack_le64, unpack_le_f32, pack_be32,
}

abbrev pub byte_at : List ℕ → ℕ → ℕ
byte_at p i = get_or p i 0

abbrev pub IsByte : ℕ → Type 0
IsByte b = b < 256

abbrev pub IsBytes : List ℕ → Type 0
IsBytes p = All IsByte p

abbrev pub be16_at : List ℕ → ℕ → ℕ
be16_at p i = byte_at p i * 2 ^ 8 + byte_at p (i + 1)

abbrev pub be32_at : List ℕ → ℕ → ℕ
be32_at p i =
    byte_at p i * 2 ^ 24
    + byte_at p (i + 1) * 2 ^ 16
    + byte_at p (i + 2) * 2 ^ 8
    + byte_at p (i + 3)

module _ (p : List ℕ) (i : ℕ) where
  pub byte_in : i < length p → byte p i ≡ ok (byte_at p i)
  unfolding byte
  byte_in h = ground (arith, get_elem?-eq-get_or p i 0)

  pub unpack_be16_in : i + 2 ≤ length p → unpack_be16 p i ≡ ok (be16_at p i)
  unfolding unpack_be16
  unpack_be16_in h = ground (arith, get_elem?-eq-get_or p i 0, get_elem?-eq-get_or p (i + 1) 0)

  pub unpack_be32_in : i + 4 ≤ length p → unpack_be32 p i ≡ ok (be32_at p i)
  unfolding unpack_be32
  unpack_be32_in h = ground (
    arith,
    get_elem?-eq-get_or p i 0,
    get_elem?-eq-get_or p (i + 1) 0,
    get_elem?-eq-get_or p (i + 2) 0,
    get_elem?-eq-get_or p (i + 3) 0,
  )

  unpack_le16_in : i + 2 ≤ length p → unpack_le16 p i ≡ ok (byte_at p i + byte_at p (i + 1) * 2 ^ 8)
  unfolding unpack_le16
  unpack_le16_in h = ground (arith, get_elem?-eq-get_or p i 0, get_elem?-eq-get_or p (i + 1) 0)

  unpack_le32_in :
      i + 4 ≤ length p
      → unpack_le32 p i
        ≡ ok (
            byte_at p i
            + byte_at p (i + 1) * 2 ^ 8
            + byte_at p (i + 2) * 2 ^ 16
            + byte_at p (i + 3) * 2 ^ 24)
  unfolding unpack_le32
  unpack_le32_in h = ground (
    arith,
    get_elem?-eq-get_or p i 0,
    get_elem?-eq-get_or p (i + 1) 0,
    get_elem?-eq-get_or p (i + 2) 0,
    get_elem?-eq-get_or p (i + 3) 0,
  )

  pub byte-IsSafe : i < length p → IsSafe (byte p i)
  byte-IsSafe h = rw (byte_in h) (ok_safe _)

  pub unpack_le16-IsSafe : i + 2 ≤ length p → IsSafe (unpack_le16 p i)
  unpack_le16-IsSafe h = rw (unpack_le16_in h) (ok_safe _)

  pub unpack_le32-IsSafe : i + 4 ≤ length p → IsSafe (unpack_le32 p i)
  unpack_le32-IsSafe h = rw (unpack_le32_in h) (ok_safe _)

  pub unpack_le_f32-IsSafe : i + 4 ≤ length p → IsSafe (unpack_le_f32 p i)
  unfolding unpack_le_f32
  unpack_le_f32-IsSafe h = unpack_le32-IsSafe h

  pub unpack_be32-IsSafe : i + 4 ≤ length p → IsSafe (unpack_be32 p i)
  unpack_be32-IsSafe h = rw (unpack_be32_in h) (ok_safe _)

  pub unpack_le64-Returns : i + 8 ≤ length p → Returns (unpack_le64 p i)
  unfolding unpack_le64
  unpack_le64-Returns h =
      rw
        (
          get_elem?-eq-get_or p i 0 (omega arith),
          get_elem?-eq-get_or p (i + 1) 0 (omega arith),
          get_elem?-eq-get_or p (i + 2) 0 (omega arith),
          get_elem?-eq-get_or p (i + 3) 0 (omega arith),
          get_elem?-eq-get_or p (i + 4) 0 (omega arith),
          get_elem?-eq-get_or p (i + 5) 0 (omega arith),
          get_elem?-eq-get_or p (i + 6) 0 (omega arith),
          get_elem?-eq-get_or p (i + 7) 0 (omega arith),
          byte,
        )
        (returned _)

  pub unpack_le64-IsSafe : i + 8 ≤ length p → IsSafe (unpack_le64 p i)
  unpack_le64-IsSafe h = Returns-IsSafe (unpack_le64-Returns h)

  pub unpack_le32-Returns : i + 4 ≤ length p → Returns (unpack_le32 p i)
  unpack_le32-Returns h = eq-Returns (unpack_le32_in h)

-- `unpack_be32` gives a 32-bit word back from what `pack_be32` wrote, also with bytes behind it.
pub unpack_be32-pack_be32 :
    (v : ℕ) (rest : List ℕ) → v < 2 ^ 32 → unpack_be32 (pack_be32 v ++ rest) 0 ≡ ok v
unfolding unpack_be32 pack_be32
unpack_be32-pack_be32 v rest h = ap ok (omega arith)
