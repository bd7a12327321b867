-- ===== src/E2e/Tests.antt =====
-- Runs of src/protocol/e2e.cpp, with a checksum that is always 7 in place of the interface headers'.
use afi920_sdk.Prelude.{ℕ, ◌≡◌, ◌↔◌, refl, List, [], ◌∷◌, ◌++◌, true, arith, replicate, inr, ok}
use afi920_sdk.Endian.{pack_be32}
use afi920_sdk.Interface.{InterfaceHeaders, IsDocumented, plain_headers, plain_headers-IsDocumented}
use afi920_sdk.E2e.{
  passed, v1_0, v1_1, e2e_crc64_xz, crc64_loop, crc64_step, crc64_table, crc64_rounds, crc64_bit,
  e2e_status, e2e_validate, e2e_write_header,
}
use afi920_sdk.E2e.Laws.{IsIntact, header_at, e2e_status_iff}
use afi920_sdk.E2e.RoundTrip.{frame_bytes, e2e_validate-e2e_write_header, e2e_validate_v1_0}

abbrev pub test_headers : InterfaceHeaders
test_headers = plain_headers (λ _. 7)

pub test_headers-IsDocumented : IsDocumented test_headers
test_headers-IsDocumented = plain_headers-IsDocumented (λ _. 7) (λ _. omega arith)

-- The check value of CRC-64/XZ, over the digits 1 to 9.
crc64_check :
    e2e_crc64_xz (0x31 ∷ 0x32 ∷ 0x33 ∷ 0x34 ∷ 0x35 ∷ 0x36 ∷ 0x37 ∷ 0x38 ∷ 0x39 ∷ [])
    ≡ 0x995DC9BBDF1939FA
unfolding e2e_crc64_xz crc64_loop crc64_step crc64_table crc64_rounds crc64_bit
crc64_check = refl

abbrev zeros : List ℕ
zeros = replicate 20 0

e2e_status_iff_example :
    (e2e_status test_headers zeros (header_at zeros) 0 true ≡ passed)
    ↔ IsIntact test_headers zeros (header_at zeros) 0 true
e2e_status_iff_example = e2e_status_iff test_headers zeros (header_at zeros) 0 true (omega arith)

e2e_validate-e2e_write_header_example :
    e2e_validate test_headers
      (e2e_write_header test_headers 0x60008002 3 (1 ∷ 2 ∷ []) ++ (1 ∷ 2 ∷ []))
      0x60008002
      true
    ≡ ok (
      passed,
      record {
        crc_high = 0;
        crc = 7;
        length = 2;
        counter = 3;
        data_id = 0x60008002;
        generation = v1_1;
      },
    )
e2e_validate-e2e_write_header_example =
    e2e_validate-e2e_write_header test_headers test_headers-IsDocumented 0x60008002 3 (1 ∷ 2 ∷ [])
      0x60008002 true (omega arith) (omega arith) (omega arith) (inr refl)

e2e_validate_v1_0_example :
    e2e_validate test_headers
      (frame_bytes 0x514E428F 0xBF6BC809 2 3 0x60008002 (1 ∷ 2 ∷ []))
      0x60008002
      true
    ≡ ok (
      passed,
      record {
        crc_high = 0x514E428F;
        crc = 0xBF6BC809;
        length = 2;
        counter = 3;
        data_id = 0x60008002;
        generation = v1_0;
      },
    )
e2e_validate_v1_0_example =
    e2e_validate_v1_0 test_headers test_headers-IsDocumented 0x514E428F 0xBF6BC809 0x60008002 3
      (1 ∷ 2 ∷ []) 0x60008002 true (omega arith) (omega arith) (omega arith) (omega arith)
      (omega arith) (omega arith) (inr refl)
      (unfold e2e_crc64_xz crc64_loop crc64_step crc64_table crc64_rounds crc64_bit pack_be32 in
        refl)
