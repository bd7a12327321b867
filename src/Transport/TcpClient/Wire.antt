-- ===== src/Transport/TcpClient/Wire.antt =====
-- src/transport/tcp_client.h and tcp_client.cpp: the constants, the results, and what a response must
-- echo of its request.
use afi920_sdk.Prelude.{
  ℕ, ◌+◌, ◌-◌, ◌*◌, ◌%◌, ◌^◌, List, [], ◌∷◌, Bool, true, false, not, ◌&&◌, ◌||◌, ltb, ◌==◌, ◌!=◌,
  if◌then◌else◌, Outcome, ok, reject, fault,
}
use afi920_sdk.Endian.Laws.{be16_at, be32_at, byte_at}
use afi920_sdk.E2e.{
  Generation, unknown, v1_0, v1_1, E2eStatus, E2eHeader, passed, crc_mismatch, too_short,
  length_mismatch, data_id_mismatch, crc_zero,
}
use afi920_sdk.Transport.Network.{Connecting, connected, in_progress, refused}

abbrev pub service_id : ℕ
service_id = 0x6000

abbrev pub protocol_version : ℕ
protocol_version = 0x01

abbrev pub interface_version : ℕ
interface_version = 0x01

abbrev pub msg_type_request : ℕ
msg_type_request = 0x00

abbrev pub msg_type_response : ℕ
msg_type_response = 0x80

abbrev pub msg_type_error : ℕ
msg_type_error = 0x81

abbrev pub client_id : ℕ
client_id = 0x0001

abbrev pub someip_header_size : ℕ
someip_header_size = 16

abbrev pub e2e_header_bytes : ℕ
e2e_header_bytes = 20

abbrev pub max_response_payload : ℕ
max_response_payload = 4 * 1024 * 1024

abbrev pub max_request_body : ℕ
max_request_body = 16384

-- `kGetDeviceInfo` and `kEmptyJson` of ProbeLocked, and its test character
abbrev pub get_device_info : ℕ
get_device_info = 0x0010

abbrev pub empty_json : List ℕ
empty_json = b'{' ∷ b'}' ∷ []

pub data TcpResult : Type 0 where
  tcp_ok tcp_transport tcp_timeout tcp_protocol tcp_too_large tcp_legacy_sensor : TcpResult

-- What `RecvExact` leaves: its buffer filled, kTcpTransport, or kTcpTimeout.
pub data Reading : Type 0 where
  complete : List ℕ → Reading
  lost : Reading
  late : Reading

-- What a request gives to its caller: the result, the radar's return code, the response body, and
-- `*legacy_body`.
pub record Reply : Type 0 where
  pub result : TcpResult
  pub return_code : ℕ
  pub response : List ℕ
  pub legacy : Bool

abbrev pub failure : TcpResult → ℕ → Reply
failure r code = record { result = r; return_code = code; response = []; legacy = false }

-- The session id after `session_id_++`: a 16-bit word that skips 0.
unfoldable pub next_session : ℕ → ℕ
next_session session = if (session + 1) % 2 ^ 16 == 0 then 1 else (session + 1) % 2 ^ 16

abbrev pub message_id : ℕ → ℕ
message_id method = service_id * 2 ^ 16 + method

abbrev pub request_id : ℕ → ℕ
request_id session = client_id * 2 ^ 16 + session

-- The fields that a response must echo, its version and type, and the bounds of its length.
unfoldable pub answers : ℕ → ℕ → Bool → List ℕ → Bool
answers method session probe hdr =
    let min_length : ℕ = 8 + (if probe then 1 else e2e_header_bytes) in
    not (
      be32_at hdr 0 != message_id method
      || be16_at hdr 8 != client_id
      || be16_at hdr 10 != session
      || byte_at hdr 12 != protocol_version
      || byte_at hdr 13 != interface_version
      || (byte_at hdr 14 != msg_type_response && byte_at hdr 14 != msg_type_error)
      || ltb (be32_at hdr 4) min_length
      || ltb max_response_payload (be32_at hdr 4 - 8))

-- `e2e_validate` gives a status for a buffer of any length.
unfoldable pub is_ok : Outcome (E2eStatus × E2eHeader) → Bool
is_ok (ok (passed, e2e)) = true
is_ok (ok (crc_mismatch, e2e)) = false
is_ok (ok (too_short, e2e)) = false
is_ok (ok (length_mismatch, e2e)) = false
is_ok (ok (data_id_mismatch, e2e)) = false
is_ok (ok (crc_zero, e2e)) = false
is_ok reject = false
is_ok fault = false

abbrev pub is_connected : Connecting → Bool
is_connected connected = true
is_connected in_progress = false
is_connected refused = false

abbrev pub is_v1_0 : Generation → Bool
is_v1_0 v1_0 = true
is_v1_0 v1_1 = false
is_v1_0 unknown = false
