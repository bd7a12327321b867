-- ===== src/Error.antt =====
-- include/afi/afi_error.h: the SDK's error codes and the radar's return codes.
pub mod Laws
use Prim.Native.String.{String}
use afi920_sdk.Config.Json.{ℤ, pos, negsuc}
use afi920_sdk.Prelude.{Option, some, none, ℕ, ◌==◌, if◌then◌else◌}

-- `AfiError`; `success` is kOk.
pub data AfiError : Type 0 where
  success not_initialized already_running connect_failed timeout disconnected : AfiError
  invalid_param protocol_error sensor_error internal_error not_supported busy : AfiError
  session_required access_denied invalid_state : AfiError

-- `AfiReturnCode`
pub data ReturnCode : Type 0 where
  rc_success rc_invalid_param rc_connection_fail rc_no_data rc_memory_error : ReturnCode
  rc_not_supported rc_internal_error rc_busy rc_mode_change_fail : ReturnCode
  rc_calibration_in_progress rc_timeout rc_session_required rc_access_denied : ReturnCode
  rc_invalid_state : ReturnCode

pub code : ReturnCode → ℕ
code rc_success = 0x00
code rc_invalid_param = 0x01
code rc_connection_fail = 0x02
code rc_no_data = 0x03
code rc_memory_error = 0x04
code rc_not_supported = 0x05
code rc_internal_error = 0x07
code rc_busy = 0x08
code rc_mode_change_fail = 0x09
code rc_calibration_in_progress = 0x0A
code rc_timeout = 0x0B
code rc_session_required = 0x0C
code rc_access_denied = 0x0D
code rc_invalid_state = 0x0E

-- `AfiErrorFromReturnCode`, the `switch` as a chain of tests.
unfoldable pub error_from_return_code : ℕ → AfiError
error_from_return_code rc =
    if rc == 0x00
    then success
    else if rc == 0x01
    then invalid_param
    else if rc == 0x05
    then not_supported
    else if rc == 0x08
    then busy
    else if rc == 0x0C
    then session_required
    else if rc == 0x0D
    then access_denied
    else if rc == 0x0E
    then invalid_state
    else sensor_error

-- `AfiReturnCodeName`: each name is the enumerator's own, so the enumerator stands for it, and `none`
-- for "UNKNOWN".
unfoldable pub return_code_name : ℕ → Option ReturnCode
return_code_name rc =
    if rc == 0x00
    then some rc_success
    else if rc == 0x01
    then some rc_invalid_param
    else if rc == 0x02
    then some rc_connection_fail
    else if rc == 0x03
    then some rc_no_data
    else if rc == 0x04
    then some rc_memory_error
    else if rc == 0x05
    then some rc_not_supported
    else if rc == 0x07
    then some rc_internal_error
    else if rc == 0x08
    then some rc_busy
    else if rc == 0x09
    then some rc_mode_change_fail
    else if rc == 0x0A
    then some rc_calibration_in_progress
    else if rc == 0x0B
    then some rc_timeout
    else if rc == 0x0C
    then some rc_session_required
    else if rc == 0x0D
    then some rc_access_denied
    else if rc == 0x0E
    then some rc_invalid_state
    else none

-- The values of `AfiError`
pub number : AfiError → ℤ
number success = pos 0
number not_initialized = negsuc 0
number already_running = negsuc 1
number connect_failed = negsuc 2
number timeout = negsuc 3
number disconnected = negsuc 4
number invalid_param = negsuc 5
number protocol_error = negsuc 6
number sensor_error = negsuc 7
number internal_error = negsuc 8
number not_supported = negsuc 9
number busy = negsuc 10
number session_required = negsuc 11
number access_denied = negsuc 12
number invalid_state = negsuc 13

-- `AfiErrorStr`, its `switch` as a chain of tests: by the sign, then from -1 on down.
unfoldable pub error_str : ℤ → String
error_str (pos n) = if n == 0 then "OK" else "Unknown error"
error_str (negsuc n) =
    if n == 0
    then "Not initialized"
    else if n == 1
    then "Already running"
    else if n == 2
    then "Connection failed"
    else if n == 3
    then "Timeout"
    else if n == 4
    then "Disconnected"
    else if n == 5
    then "Invalid parameter"
    else if n == 6
    then "Protocol error"
    else if n == 7
    then "Sensor returned error"
    else if n == 8
    then "Internal error"
    else if n == 9
    then "Not supported"
    else if n == 10
    then "Sensor busy (request rate limit)"
    else if n == 11
    then "Access mode required (SetMode)"
    else if n == 12
    then "Access denied by sensor"
    else if n == 13
    then "Invalid state for this step"
    else "Unknown error"
