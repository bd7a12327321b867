-- ===== src/E2e.antt =====
-- src/protocol/e2e.h and e2e.cpp: the 20-byte E2E header, its checks and its writer.
pub mod Laws
pub mod RoundTrip
pub mod Tests
use afi920_sdk.Prelude.{
  ℕ, zero, suc, ◌+◌, ◌-◌, ◌*◌, ◌/◌, ◌^◌, ◌%◌, List, [], ◌∷◌, ◌++◌, Bool, true, false, not, ◌&&◌,
  ◌||◌, length, drop, ltb, ◌==◌, ◌!=◌, if◌then◌else◌, bit_and, bit_xor, Outcome, ok, reject, fault,
  reject_if, ◌>>=◌, ◌>>◌,
}
use afi920_sdk.Interface.{InterfaceHeaders}

-- `AfiInterfaceGeneration` of include/afi/afi_types.h
pub data Generation : Type 0 where
  unknown v1_0 v1_1 : Generation

-- BTS_E2E_HEADER_SIZE and the offsets BTS_E2E_OFF_* of the interface headers
abbrev pub header_size : ℕ
header_size = 20

abbrev pub off_crc_high : ℕ
off_crc_high = 0

abbrev pub off_crc : ℕ
off_crc = 4

abbrev pub off_length : ℕ
off_length = 8

abbrev pub off_counter : ℕ
off_counter = 12

abbrev pub off_data_id : ℕ
off_data_id = 16

pub record E2eHeader : Type 0 where
  pub crc_high : ℕ
  pub crc : ℕ
  pub length : ℕ
  pub counter : ℕ
  pub data_id : ℕ
  pub generation : Generation

-- The default member values.
abbrev pub initial_header : E2eHeader
initial_header = record {
  crc_high = 0;
  crc = 0;
  length = 0;
  counter = 0;
  data_id = 0;
  generation = unknown;
}

pub data E2eStatus : Type 0 where
  passed crc_mismatch too_short length_mismatch data_id_mismatch crc_zero : E2eStatus

-- One round of the inner loop that fills the table: `c & 1` is `c % 2`.
pub crc64_bit : ℕ → ℕ
crc64_bit c = if c % 2 == 1 then bit_xor (c / 2) 0xC96C5795D7870F42 else c / 2

pub crc64_rounds : ℕ → ℕ → ℕ
crc64_rounds zero c = c
crc64_rounds (suc k) c = crc64_rounds k (crc64_bit c)

-- `crc64_table()[n]`
pub crc64_table : ℕ → ℕ
crc64_table n = crc64_rounds 8 n

-- `x & 0xFF` is `x % 256`.
pub crc64_step : ℕ → ℕ → ℕ
crc64_step crc byte = bit_xor (crc / 2 ^ 8) (crc64_table (bit_xor crc byte % 256))

pub crc64_loop : ℕ → List ℕ → ℕ
crc64_loop crc [] = crc
crc64_loop crc (byte ∷ bytes) = crc64_loop (crc64_step crc byte) bytes

-- `~crc` of a 64-bit word
pub e2e_crc64_xz : List ℕ → ℕ
e2e_crc64_xz bytes = 2 ^ 64 - 1 - crc64_loop (2 ^ 64 - 1) bytes

module _ (h : InterfaceHeaders) where
  open h use {bts_unpack_be32, bts_e2e_crc32, bts_e2e_build_header, bts_e2e_apply_crc}

  unfoldable pub e2e_parse : List ℕ → Outcome E2eHeader
  e2e_parse buf = do
    reject_if (ltb (length buf) header_size)
    crc_high ← bts_unpack_be32 buf off_crc_high
    crc ← bts_unpack_be32 buf off_crc
    size ← bts_unpack_be32 buf off_length
    counter ← bts_unpack_be32 buf off_counter
    data_id ← bts_unpack_be32 buf off_data_id
    ok (record {
      crc_high = crc_high;
      crc = crc;
      length = size;
      counter = counter;
      data_id = data_id;
      generation = if crc_high == 0 then v1_1 else v1_0;
    })

  -- The checks of `e2e_validate` behind the parse.
  unfoldable pub e2e_status : List ℕ → E2eHeader → ℕ → Bool → E2eStatus
  e2e_status buf out expected_data_id check_crc =
      let body_len : ℕ = length buf - header_size in
      if out.length != body_len
      then length_mismatch
      else if expected_data_id != 0 && out.data_id != expected_data_id
      then data_id_mismatch
      else if not check_crc
      then passed
      else if out.crc_high == 0 && out.crc == 0
      then crc_zero
      else if out.crc_high != 0
      then (if e2e_crc64_xz (drop off_length buf) == out.crc_high * 2 ^ 32 + out.crc
          then passed
          else crc_mismatch)
      else if bts_e2e_crc32 (drop header_size buf) == out.crc
      then passed
      else crc_mismatch

  -- The status, and the header that is filled unless the frame is too short.
  unfoldable pub e2e_validate : List ℕ → ℕ → Bool → Outcome (E2eStatus × E2eHeader)
  e2e_validate buf expected_data_id check_crc = elim (e2e_parse buf) [
    | ok out ↦ ok (e2e_status buf out expected_data_id check_crc, out)
    | reject ↦ ok (too_short, initial_header)
    | fault ↦ fault
  ]

  -- The cast to uint32_t keeps the low 32 bits of the length.
  unfoldable pub e2e_write_header : ℕ → ℕ → List ℕ → List ℕ
  e2e_write_header data_id counter body =
      bts_e2e_apply_crc (bts_e2e_build_header data_id counter (length body % 2 ^ 32)) body
