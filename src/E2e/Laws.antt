-- ===== src/E2e/Laws.antt =====
-- Laws of the receive side of src/protocol/e2e.cpp.
use afi920_sdk.Prelude.{
  Bool-cases, ltb→lt, ◌==◌, if◌then◌else◌, ℕ, ◌+◌, ◌*◌, ◌^◌, ◌≤◌, ◌<◌, ◌≡◌, ◌≢◌, ◌⊎◌, ◌↔◌, inl, inr,
  List, Bool, false, length, drop, arith, ltb, ok, reject,
}
use afi920_sdk.Endian.Laws.{be32_at}
use afi920_sdk.Interface.{InterfaceHeaders, IsDocumented}
use afi920_sdk.E2e.{
  off_crc_high, off_crc, off_length, off_counter, off_data_id, E2eHeader, passed, too_short, v1_0,
  v1_1, initial_header, header_size, e2e_parse, e2e_status, e2e_validate, e2e_crc64_xz,
}

module _ (h : InterfaceHeaders) where
  -- What a receiver may rely on when the status is `passed`.
  pub record IsIntact (buf : List ℕ) (out : E2eHeader) (expected_data_id : ℕ) (check_crc : Bool)
      : Type 0 where
    pub length_matches : out.length + header_size ≡ length buf
    pub data_id_matches : (expected_data_id ≡ 0) ⊎ (out.data_id ≡ expected_data_id)
    pub crc_matches :
        (check_crc ≡ false)
        ⊎ ((out.crc_high ≢ 0) × (e2e_crc64_xz (drop 8 buf) ≡ out.crc_high * 2 ^ 32 + out.crc))
        ⊎ ((out.crc_high ≡ 0) × (out.crc ≢ 0) × (h.bts_e2e_crc32 (drop 20 buf) ≡ out.crc))

  -- Of a frame that has room for the header, the checks pass exactly when the length field is the
  -- body's, the Data ID is the expected one if one is expected, and, if the CRC is to be checked, it
  -- is not zero and matches: as CRC-64 where the high word is not zero, as CRC-32 where it is.
  pub e2e_status_iff :
      (buf : List ℕ) (out : E2eHeader) (expected_data_id : ℕ) (check_crc : Bool)
      → header_size ≤ length buf
      → (e2e_status h buf out expected_data_id check_crc ≡ passed)
        ↔ IsIntact buf out expected_data_id check_crc
  unfolding e2e_status
  e2e_status_iff buf out id check room = (
    λ e. record {
      length_matches = ground arith;
      data_id_matches = ground arith;
      crc_matches = ground arith;
    },
    λ v. ground (arith, v.length_matches, v.data_id_matches, v.crc_matches),
  )

-- The fields of a frame that starts with the header.
abbrev pub header_at : List ℕ → E2eHeader
header_at buf = record {
  crc_high = be32_at buf off_crc_high;
  crc = be32_at buf off_crc;
  length = be32_at buf off_length;
  counter = be32_at buf off_counter;
  data_id = be32_at buf off_data_id;
  generation = if be32_at buf off_crc_high == 0 then v1_1 else v1_0;
}

module _ (h : InterfaceHeaders) (doc : IsDocumented h) where
  pub e2e_parse_in :
      (buf : List ℕ) → header_size ≤ length buf → e2e_parse h buf ≡ ok (header_at buf)
  unfolding e2e_parse
  e2e_parse_in buf room = ground (
    arith,
    doc.unpacks buf 0,
    doc.unpacks buf 4,
    doc.unpacks buf 8,
    doc.unpacks buf 12,
    doc.unpacks buf 16,
  )

  e2e_parse_short : (buf : List ℕ) → length buf < header_size → e2e_parse h buf ≡ reject
  unfolding e2e_parse
  e2e_parse_short buf short = ground arith

  -- `e2e_validate` answers for every frame and reads nothing outside it: `too_short` with a header of
  -- zeros below 20 bytes, and the status of the checks with the frame's fields from 20 bytes on.
  pub e2e_validate_lem :
      (buf : List ℕ) (expected_data_id : ℕ) (check_crc : Bool)
      → e2e_validate h buf expected_data_id check_crc
        ≡ ok (
            if ltb (length buf) header_size
            then (too_short, initial_header)
            else (e2e_status h buf (header_at buf) expected_data_id check_crc, header_at buf))
  unfolding e2e_validate
  e2e_validate_lem buf id check = elim (Bool-cases (ltb (length buf) header_size)) [
    | inl short ↦ rw (short, e2e_parse_short buf (ltb→lt _ _ short), e2e_validate)
    | inr long ↦ rw (long, e2e_parse_in buf (ground arith), e2e_validate)
  ]
