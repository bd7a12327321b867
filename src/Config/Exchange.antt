-- ===== src/Config/Exchange.antt =====
-- src/config_api/config_client.cpp: one request and its answer, over a connection given by what the
-- client calls of it. A returned json and an output parameter stand beside the returned code; a
-- pointer that may be null is an output that the caller may ignore.
use Prim.Native.String.{String}
use afi920_sdk.Prelude.{ℕ, List, [], ◌∷◌, Bool, false, Option, none, some, if◌then◌else◌}
use afi920_sdk.Someip.Methods.{MethodId, method_code}
use afi920_sdk.Error.{
  AfiError, timeout, disconnected, invalid_param, protocol_error, sensor_error, not_supported,
  ReturnCode, rc_success, rc_invalid_param, rc_connection_fail, rc_no_data, rc_memory_error,
  rc_not_supported, rc_internal_error, rc_busy, rc_mode_change_fail, rc_calibration_in_progress,
  rc_timeout, rc_session_required, rc_access_denied, rc_invalid_state, error_from_return_code,
  return_code_name,
}
use afi920_sdk.Transport.TcpClient.Wire.{
  Reply, TcpResult, tcp_ok, tcp_transport, tcp_timeout, tcp_protocol, tcp_too_large,
  tcp_legacy_sensor,
}
use afi920_sdk.Config.Json.{Json, ℤ, pos, negsuc}
use afi920_sdk.Config.Types.{SensorResult}
use afi920_sdk.Config.Reads.{or_default, safe_value}

-- What `ConfigClient` calls of its TcpClient.
pub record Link : Type 1 where
  pub State : Type 0
  pub has_endpoint : State → Bool
  pub send_request : ℕ → List ℕ → State → Reply × State
  pub last_response_e2e_ok : State → Bool

-- The default member values.
abbrev pub no_result : SensorResult
no_result = record { return_code = negsuc 0; return_name = ""; error_message = ""; e2e_ok = false }

-- The text of a return code's name
abbrev pub name_text : Option ReturnCode → String
name_text none = "UNKNOWN"
name_text (some rc_success) = "SUCCESS"
name_text (some rc_invalid_param) = "INVALID_PARAM"
name_text (some rc_connection_fail) = "CONNECTION_FAIL"
name_text (some rc_no_data) = "NO_DATA"
name_text (some rc_memory_error) = "MEMORY_ERROR"
name_text (some rc_not_supported) = "NOT_SUPPORTED"
name_text (some rc_internal_error) = "INTERNAL_ERROR"
name_text (some rc_busy) = "BUSY"
name_text (some rc_mode_change_fail) = "MODE_CHANGE_FAIL"
name_text (some rc_calibration_in_progress) = "CALIBRATION_IN_PROGRESS"
name_text (some rc_timeout) = "TIMEOUT"
name_text (some rc_session_required) = "SESSION_REQUIRED"
name_text (some rc_access_denied) = "ACCESS_DENIED"
name_text (some rc_invalid_state) = "INVALID_STATE"

-- `AfiReturnCodeName` and `AfiErrorFromReturnCode` of an int
unfoldable pub name_of : ℤ → String
name_of (pos n) = name_text (return_code_name n)
name_of (negsuc n) = "UNKNOWN"

unfoldable pub error_of : ℤ → AfiError
error_of (pos n) = error_from_return_code n
error_of (negsuc n) = sensor_error

-- `ErrorFromTransport`
unfoldable pub error_from_transport : TcpResult → AfiError
error_from_transport tcp_timeout = timeout
error_from_transport tcp_protocol = protocol_error
error_from_transport tcp_too_large = invalid_param
error_from_transport tcp_ok = disconnected
error_from_transport tcp_transport = disconnected
error_from_transport tcp_legacy_sensor = disconnected

module _ (json : Json) (link : Link) where
  open json use {Value, find, is_object, is_integer, get_int, get_string, object, dump, parse}

  -- `ConfigClient`: its connection and `last_result_`.
  pub record Client : Type 0 where
    pub tcp : link.State
    pub last_result : SensorResult

  -- What a call gives: the code, the "data" of the answer, and the client.
  pub record Answer : Type 0 where
    pub error : AfiError
    pub content : Value
    pub client : Client

  unfoldable pub finish : AfiError → SensorResult → Value → link.State → Answer
  finish e result v t = record {
    error = e;
    content = v;
    client = record { tcp = t; last_result = result };
  }

  -- The radar's code: the body's integer wins over the header's.
  unfoldable pub body_code : Option Value → ℤ → ℤ
  body_code none code = code
  body_code (some v) code = if is_integer v then or_default json (get_int 32 v) code else code

  unfoldable pub value_or_object : Option Value → Value
  value_or_object none = object []
  value_or_object (some v) = v

  -- `Exchange` behind the parse of a body that is there or empty.
  unfoldable pub judge : ℕ → Bool → Value → link.State → Answer
  judge header_code e2e_ok resp t =
      let code : ℤ =
        (if is_object resp
          then body_code (find resp "return_code") (pos header_code)
          else pos header_code) in
      let content : Value =
        (if is_object resp then value_or_object (find resp "data") else object []) in
      finish (error_of code)
        (record {
          return_code = code;
          return_name = safe_value json resp get_string "return_name" (name_of code);
          error_message =
              (if is_object content
                then safe_value json content get_string "error_message" ""
                else "");
          e2e_ok = e2e_ok;
        })
        content t

  unfoldable pub judge_parsed : ℕ → Bool → Option Value → link.State → Answer
  judge_parsed header_code e2e_ok none t =
      finish protocol_error (record no_result { e2e_ok = e2e_ok }) (object []) t
  judge_parsed header_code e2e_ok (some resp) t = judge header_code e2e_ok resp t

  unfoldable pub parse_body : List ℕ → Option Value
  parse_body [] = some (object [])
  parse_body (b ∷ bs) = parse (b ∷ bs)

  -- `Exchange` behind its `SendRequest`.
  unfoldable pub answered : Reply → link.State → Answer
  answered r t = elim r.result [
    | tcp_ok ↦ judge_parsed r.return_code (link.last_response_e2e_ok t) (parse_body r.response) t
    | tcp_legacy_sensor ↦
        finish not_supported
          (record {
            return_code = pos 5;
            return_name = name_of (pos 5);
            error_message = "interface v1.0.x sensor: Config API request not sent";
            e2e_ok = false;
          })
          (object []) t
    | tcp_transport ↦ finish (error_from_transport tcp_transport) no_result (object []) t
    | tcp_timeout ↦ finish (error_from_transport tcp_timeout) no_result (object []) t
    | tcp_protocol ↦ finish (error_from_transport tcp_protocol) no_result (object []) t
    | tcp_too_large ↦ finish (error_from_transport tcp_too_large) no_result (object []) t
  ]

  unfoldable pub exchange : MethodId → List ℕ → Client → Answer
  exchange method body c =
      let r = link.send_request (method_code method) body c.tcp in
      if link.has_endpoint c.tcp
      then answered r.0 r.1
      else finish disconnected no_result (object []) c.tcp

  -- `SendJsonRequest` with a request, and without one
  unfoldable pub send_json_request : MethodId → Value → Client → Answer
  send_json_request method request c = exchange method (dump request) c

  unfoldable pub send_empty_request : MethodId → Client → Answer
  send_empty_request method c = send_json_request method (object []) c
