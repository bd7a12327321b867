-- ===== src/Error/Laws.antt =====
-- Laws of include/afi/afi_error.h.
use afi920_sdk.Prelude.{some, ℕ, ◌≡◌, refl, false, ◌↔◌, arith}
use text.Mathlib.Text.{◌==◌ as text_eq}
use afi920_sdk.Error.{
  return_code_name, ReturnCode, AfiError, success, code, error_from_return_code, number, error_str,
  not_initialized, already_running, connect_failed, timeout, disconnected, invalid_param,
  protocol_error, sensor_error, internal_error, not_supported, busy, session_required,
  access_denied, invalid_state,
}

-- The SDK reports success exactly for the return code 0x00: no other code of the radar, known or
-- not, reads as success.
pub error_from_return_code-success_iff :
    (rc : ℕ) → (error_from_return_code rc ≡ success) ↔ (rc ≡ code ReturnCode.rc_success)
unfolding error_from_return_code code
error_from_return_code-success_iff rc = ground arith

-- The name of a number is that of a return code exactly when the number is the code's value.
pub return_code_name-code_iff :
    (rc : ℕ) (c : ReturnCode) → (return_code_name rc ≡ some c) ↔ (rc ≡ code c)
unfolding return_code_name code
return_code_name-code_iff rc c = ground arith

-- Every error code of the SDK is known to AfiErrorStr.
pub error_str-number : (e : AfiError) → text_eq (error_str (number e)) "Unknown error" ≡ false
unfolding number error_str
error_str-number success = refl
error_str-number not_initialized = refl
error_str-number already_running = refl
error_str-number connect_failed = refl
error_str-number timeout = refl
error_str-number disconnected = refl
error_str-number invalid_param = refl
error_str-number protocol_error = refl
error_str-number sensor_error = refl
error_str-number internal_error = refl
error_str-number not_supported = refl
error_str-number busy = refl
error_str-number session_required = refl
error_str-number access_denied = refl
error_str-number invalid_state = refl
