-- ===== src/Someip.antt =====
-- src/protocol/someip.h and someip.cpp: the SOME/IP header, the TP header and the identifiers.
pub mod Methods
pub mod Laws
mod Tests
use afi920_sdk.Prelude.{
  ℕ, ◌+◌, ◌-◌, ◌*◌, ◌/◌, ◌%◌, ◌^◌, List, Bool, true, false, length, ltb, ◌==◌, ◌!=◌, if◌then◌else◌,
  bit_and, Outcome, ok, reject, fault, reject_if, ◌>>=◌, ◌>>◌,
}
use afi920_sdk.Endian.{byte, unpack_be32}

abbrev pub service_id : ℕ
service_id = 0x6000

abbrev pub header_size : ℕ
header_size = 16

abbrev pub tp_header_size : ℕ
tp_header_size = 4

abbrev pub protocol_version : ℕ
protocol_version = 0x01

abbrev pub interface_version : ℕ
interface_version = 0x01

abbrev pub msg_type_request : ℕ
msg_type_request = 0x00

abbrev pub msg_type_notify : ℕ
msg_type_notify = 0x02

abbrev pub msg_type_response : ℕ
msg_type_response = 0x80

abbrev pub msg_type_error : ℕ
msg_type_error = 0x81

abbrev pub msg_type_tp_flag : ℕ
msg_type_tp_flag = 0x20

abbrev pub return_ok : ℕ
return_ok = 0x00

abbrev pub event_csii : ℕ
event_csii = 0x8001

abbrev pub event_rdi : ℕ
event_rdi = 0x8002

abbrev pub event_shii : ℕ
event_shii = 0x8003

abbrev pub event_spi : ℕ
event_spi = 0x8004

abbrev pub e2e_header_size : ℕ
e2e_header_size = 20

pub record SomeipHeader : Type 0 where
  pub service_id : ℕ
  pub method_id : ℕ
  pub length : ℕ
  pub client_id : ℕ
  pub session_id : ℕ
  pub protocol_version : ℕ
  pub interface_version : ℕ
  pub message_type : ℕ
  pub return_code : ℕ

-- `(x >> 16) & 0xFFFF` and `x & 0xFFFF` of a 32-bit word are its halves.
unfoldable pub someip_deserialize : List ℕ → Outcome SomeipHeader
someip_deserialize buf = do
  reject_if (ltb (length buf) header_size)
  message_id ← unpack_be32 buf 0
  len ← unpack_be32 buf 4
  request_id ← unpack_be32 buf 8
  protocol ← byte buf 12
  interface ← byte buf 13
  message_type ← byte buf 14
  return_code ← byte buf 15
  ok (record {
    service_id = message_id / 2 ^ 16 % 2 ^ 16;
    method_id = message_id % 2 ^ 16;
    length = len;
    client_id = request_id / 2 ^ 16 % 2 ^ 16;
    session_id = request_id % 2 ^ 16;
    protocol_version = protocol;
    interface_version = interface;
    message_type = message_type;
    return_code = return_code;
  })

unfoldable pub someip_is_tp : ℕ → Bool
someip_is_tp message_type = bit_and message_type msg_type_tp_flag != 0

unfoldable pub someip_payload_size : SomeipHeader → Bool → ℕ
someip_payload_size hdr has_tp =
    let overhead : ℕ = 8 + (if has_tp then tp_header_size else 0) in
    if ltb overhead hdr.length then hdr.length - overhead else 0

pub record SomeipTpHeader : Type 0 where
  pub offset_bytes : ℕ
  pub more_segments : Bool
  pub valid : Bool

-- `raw & 0x0E` tests bits 1 to 3 and `raw & 0x01` bit 0; both are read off `raw % 16`.
-- `(raw >> 4) * 16` is below 2 ^ 32, so it does not wrap.
unfoldable pub someip_tp_deserialize : List ℕ → ℕ → Outcome SomeipTpHeader
someip_tp_deserialize buf i = do
  raw ← unpack_be32 buf i
  ok (record {
    offset_bytes = raw / 2 ^ 4 * 16;
    more_segments = bit_and raw 0x01 != 0;
    valid = bit_and raw 0x0E == 0;
  })
