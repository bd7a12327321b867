-- ===== src/Someip/Laws.antt =====
-- Laws of src/protocol/someip.cpp: no read out of range, and the field layout of both headers.
use afi920_sdk.Prelude.{
  if◌then◌else◌, true, false, Bool, true, ◌+◌, ◌%◌, Bool, ℕ, ◌^◌, ◌<◌, ◌≡◌, List, [], ◌∷◌, ◌++◌,
  arith, length, ltb, ok, IsSafe, ok_safe, reject_if-IsSafe, >>=-IsSafe,
}
use afi920_sdk.Prelude.Bits.{bit_and_01, bit_and_0e}
use afi920_sdk.Endian.Laws.{unpack_be32-pack_be32, byte-IsSafe, unpack_be32-IsSafe}
use afi920_sdk.Someip.{someip_tp_deserialize, SomeipHeader, someip_deserialize, header_size}
use afi920_sdk.Endian.{byte, unpack_be32, pack_be16, pack_be32}

-- `someip_deserialize` reads nothing outside the buffer, whatever its length.
pub someip_deserialize-IsSafe : (buf : List ℕ) → IsSafe (someip_deserialize buf)
unfolding someip_deserialize
someip_deserialize-IsSafe buf = reject_if-IsSafe (ltb (length buf) header_size) λ long.
    >>=-IsSafe _ (unpack_be32-IsSafe buf 0 (ground arith)) λ _ _.
      >>=-IsSafe _ (unpack_be32-IsSafe buf 4 (ground arith)) λ _ _.
        >>=-IsSafe _ (unpack_be32-IsSafe buf 8 (ground arith)) λ _ _.
          >>=-IsSafe _ (byte-IsSafe buf 12 (ground arith)) λ _ _.
            >>=-IsSafe _ (byte-IsSafe buf 13 (ground arith)) λ _ _.
              >>=-IsSafe _ (byte-IsSafe buf 14 (ground arith))
                λ _ _. >>=-IsSafe _ (byte-IsSafe buf 15 (ground arith)) λ _ _. ok_safe _

-- The 16 bytes that stand for a header, by the field list of the format.
abbrev pub header_bytes : SomeipHeader → List ℕ
header_bytes h =
    pack_be16 h.service_id
    ++ (pack_be16 h.method_id
        ++ (pack_be32 h.length
            ++ (pack_be16 h.client_id
                ++ (pack_be16 h.session_id
                    ++ (h.protocol_version ∷ h.interface_version ∷ h.message_type ∷ h.return_code
                        ∷ [])))))

pub record IsHeader (h : SomeipHeader) : Type 0 where
  pub service_fits : h.service_id < 2 ^ 16
  pub method_fits : h.method_id < 2 ^ 16
  pub length_fits : h.length < 2 ^ 32
  pub client_fits : h.client_id < 2 ^ 16
  pub session_fits : h.session_id < 2 ^ 16

-- Deserializing the bytes of a header, with any payload behind them, gives the header back.
pub someip_deserialize-header_bytes :
    (h : SomeipHeader) (rest : List ℕ)
    → IsHeader h
    → someip_deserialize (header_bytes h ++ rest) ≡ ok h
unfolding someip_deserialize unpack_be32 byte pack_be16 pack_be32
someip_deserialize-header_bytes h rest v = ground arith

-- The TP word of a segment: the offset, a multiple of 16, with the more-segments flag in bit 0.
abbrev pub tp_word : ℕ → Bool → ℕ
tp_word offset_bytes more_segments = offset_bytes + (if more_segments then 1 else 0)

-- Deserializing the TP header that a sender writes gives the offset and the flag back.
pub someip_tp_deserialize-tp_word :
    (offset_bytes : ℕ) (more_segments : Bool) (rest : List ℕ)
    → offset_bytes % 16 ≡ 0
    → offset_bytes < 2 ^ 32
    → someip_tp_deserialize (pack_be32 (tp_word offset_bytes more_segments) ++ rest) 0
      ≡ ok (record { offset_bytes = offset_bytes; more_segments = more_segments; valid = true })
unfolding someip_tp_deserialize
someip_tp_deserialize-tp_word offset true rest h l =
    rw (unpack_be32-pack_be32 (offset + 1) rest (omega arith))
      (ground (arith, bit_and_01 (offset + 1), bit_and_0e (offset + 1)))
someip_tp_deserialize-tp_word offset false rest h l =
    rw (unpack_be32-pack_be32 (offset + 0) rest (omega arith))
      (ground (arith, bit_and_01 (offset + 0), bit_and_0e (offset + 0)))
