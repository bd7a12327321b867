-- ===== src/E2e/RoundTrip.antt =====
-- What src/protocol/e2e.cpp writes, it accepts; and it accepts the frames of a v1.0.x sensor.
use afi920_sdk.Prelude.{
  if_false, ℕ, ◌+◌, ◌*◌, ◌^◌, ◌%◌, ◌<◌, ◌≡◌, ◌≢◌, ◌⊎◌, ap, ◌∙◌, List, ◌++◌, Bool, length, arith,
  ltb, ◌==◌, ◌&&◌, if◌then◌else◌, ok,
}
use afi920_sdk.Endian.{pack_be32}
use afi920_sdk.Interface.{InterfaceHeaders, IsDocumented}
use afi920_sdk.E2e.{
  too_short, initial_header, passed, crc_zero, v1_0, v1_1, header_size, e2e_status, e2e_validate,
  e2e_write_header, e2e_crc64_xz,
}
use afi920_sdk.E2e.Laws.{header_at, e2e_validate_lem}

-- Five big-endian words, and what follows them.
abbrev pub frame_bytes : ℕ → ℕ → ℕ → ℕ → ℕ → List ℕ → List ℕ
frame_bytes high crc size counter data_id body =
    pack_be32 high
    ++ (pack_be32 crc ++ (pack_be32 size ++ (pack_be32 counter ++ (pack_be32 data_id ++ body))))

header_at-frame_bytes :
    (high crc size counter data_id : ℕ) (body : List ℕ)
    → high < 2 ^ 32
    → crc < 2 ^ 32
    → size < 2 ^ 32
    → counter < 2 ^ 32
    → data_id < 2 ^ 32
    → header_at (frame_bytes high crc size counter data_id body) ≡ record {
      crc_high = high;
      crc = crc;
      length = size;
      counter = counter;
      data_id = data_id;
      generation = if high == 0 then v1_1 else v1_0;
    }
unfolding pack_be32
header_at-frame_bytes high crc size counter data_id body p q r s t = ground arith

module _ (h : InterfaceHeaders) (doc : IsDocumented h) where
  -- The 20 bytes of the written header, field by field.
  pub write_header_bytes :
      (data_id counter : ℕ) (body : List ℕ)
      → e2e_write_header h data_id counter body ++ body
        ≡ frame_bytes 0 (h.bts_e2e_crc32 body) (length body % 2 ^ 32) counter data_id body
  unfolding e2e_write_header pack_be32
  write_header_bytes data_id counter body =
      ap (λ hdr. h.bts_e2e_apply_crc hdr body ++ body)
        (doc.builds data_id counter (length body % 2 ^ 32))
      ∙ ap (λ hdr. hdr ++ body) (doc.applies _ body)

  validate_frame :
      (high crc size counter data_id : ℕ) (body : List ℕ) (expected : ℕ) (check : Bool)
      → e2e_validate h (frame_bytes high crc size counter data_id body) expected check
        ≡ ok (
            let frame = frame_bytes high crc size counter data_id body in
            (e2e_status h frame (header_at frame) expected check, header_at frame))
  unfolding pack_be32
  validate_frame high crc size counter data_id body expected check =
      e2e_validate_lem h doc (frame_bytes high crc size counter data_id body) expected check
      ∙ ap ok (
          if_false (ltb (length (frame_bytes high crc size counter data_id body)) header_size)
            (too_short, initial_header) _ (ground arith))

  -- A frame that `e2e_write_header` heads passes the checks with the sender's own fields, unless the
  -- body's CRC-32 happens to be zero and the CRC is checked: then it reads as `crc_zero`. The counter,
  -- the Data ID and the length have 32 bits, and the receiver expects this Data ID or none.
  pub e2e_validate-e2e_write_header :
      (data_id counter : ℕ) (body : List ℕ) (expected : ℕ) (check_crc : Bool)
      → data_id < 2 ^ 32
      → counter < 2 ^ 32
      → length body < 2 ^ 32
      → (expected ≡ 0) ⊎ (expected ≡ data_id)
      → e2e_validate h (e2e_write_header h data_id counter body ++ body) expected check_crc
        ≡ ok (
          (if check_crc && h.bts_e2e_crc32 body == 0 then crc_zero else passed),
          record {
            crc_high = 0;
            crc = h.bts_e2e_crc32 body;
            length = length body;
            counter = counter;
            data_id = data_id;
            generation = v1_1;
          },
        )
  e2e_validate-e2e_write_header data_id counter body expected check hd hc hl he =
      rw
        (
          write_header_bytes data_id counter body,
          validate_frame 0 (h.bts_e2e_crc32 body) (length body % 2 ^ 32) counter data_id body
              expected check,
          header_at-frame_bytes 0 (h.bts_e2e_crc32 body) (length body % 2 ^ 32) counter data_id body
              (omega arith) (doc.crc_fits body) (omega arith) hc hd,
        )
        (unfold e2e_status pack_be32 in ground (arith, he))

  -- A frame of a v1.0.x sensor, with the CRC-64 over length, counter, Data ID and body in the first
  -- two words, passes with the sender's own fields, if the CRC's high word is not zero.
  pub e2e_validate_v1_0 :
      (high low data_id counter : ℕ) (body : List ℕ) (expected : ℕ) (check_crc : Bool)
      → high ≢ 0
      → high < 2 ^ 32
      → low < 2 ^ 32
      → data_id < 2 ^ 32
      → counter < 2 ^ 32
      → length body < 2 ^ 32
      → (expected ≡ 0) ⊎ (expected ≡ data_id)
      → e2e_crc64_xz (pack_be32 (length body) ++ (pack_be32 counter ++ (pack_be32 data_id ++ body)))
        ≡ high * 2 ^ 32 + low
      → e2e_validate h (frame_bytes high low (length body) counter data_id body) expected check_crc
        ≡ ok (
          passed,
          record {
            crc_high = high;
            crc = low;
            length = length body;
            counter = counter;
            data_id = data_id;
            generation = v1_0;
          },
        )
  e2e_validate_v1_0 high low data_id counter body expected check hz hh hw hd hc hl he crc =
      rw
        (
          validate_frame high low (length body) counter data_id body expected check,
          header_at-frame_bytes high low (length body) counter data_id body hh hw hl hc hd,
        )
        (unfold e2e_status pack_be32 in ground (arith, he, crc))
