-- ===== src/Config/Calls.antt =====
-- The methods of ConfigClient in src/config_api/config_client.cpp. A method that reads an answer takes
-- the output as it was and gives it as it is afterwards; `restart_required`, which may be null, is
-- such an output.
use Prim.Native.String.{String}
use afi920_sdk.Prelude.{
  ℕ, List, [], Bool, true, false, Option, none, some, ltb, length, ◌==◌, if◌then◌else◌,
}
use afi920_sdk.Someip.Methods
use afi920_sdk.Someip.Methods.{MethodId}
use afi920_sdk.Error.{
  AfiError, success, not_initialized, already_running, connect_failed, timeout, disconnected,
  invalid_param, protocol_error, sensor_error, internal_error, not_supported, busy,
  session_required, access_denied, invalid_state,
}
use afi920_sdk.Config.Json.{Json}
use afi920_sdk.Config.Types.{
  DeviceInfo, SensorStatus, DiagnosticInfo, CommandHistory, NetworkConfig, StreamKind,
  StreamDestination, DetectionThreshold, DetectionFilters, PtpConfig, MountingPosition, Rotation,
  SensorPosition, OtaStartRequest, OtaStartResponse, OtaChunkResult, OtaStatus, OtaSwitchSlotResult,
  BootInfo, ConfigStatus, ResetConfigDefaultsResult,
}
use afi920_sdk.Config.Reads.{
  safe_value, read_device_info, read_sensor_status, read_diagnostic_info, read_command_history,
  read_detection_filters, read_ptp_config, read_mounting_position, read_rotation,
  read_sensor_position, read_ota_start_response, read_ota_chunk_result, read_ota_status,
  read_ota_switch_slot_result, read_boot_info, read_config_status,
  read_reset_config_defaults_result,
}
use afi920_sdk.Config.Tables.{read_network_config, read_detection_threshold}
use afi920_sdk.Config.Writes.{
  write_network_config, write_stream_destination, write_range_mode, is_valid_threshold,
  write_detection_threshold, write_detection_filters, write_ptp_profile, write_mounting_position,
  write_rotation, write_sensor_position, write_ota_start, write_update_type, write_keys, has_empty,
}
use afi920_sdk.Config.Exchange.{
  Link, Client, Answer, exchange, send_json_request, send_empty_request,
}

abbrev pub is_success : AfiError → Bool
is_success success = true
is_success not_initialized = false
is_success already_running = false
is_success connect_failed = false
is_success timeout = false
is_success disconnected = false
is_success invalid_param = false
is_success protocol_error = false
is_success sensor_error = false
is_success internal_error = false
is_success not_supported = false
is_success busy = false
is_success session_required = false
is_success access_denied = false
is_success invalid_state = false

module _ (json : Json) (link : Link) where
  open json use {Value, Real, get_bool, get_uint}

  -- The code that a method returns, its output, and the client.
  pub record Returned {ℓ} (Out : Type ℓ) : Type ℓ where
    pub error : AfiError
    pub out : Out
    pub client : Client json link

  -- `if (rc != kOk) return rc;` and the reading of the answer behind it
  unfoldable pub read_answer {ℓ} :
      {Out : Type ℓ} → (Value → Out) → Out → Answer json link → Returned Out
  read_answer read out a = record {
    error = a.error;
    out = if is_success a.error then read a.content else out;
    client = a.client;
  }

  unfoldable pub fetch {ℓ} :
      {Out : Type ℓ} → MethodId → (Value → Out) → Out → Client json link → Returned Out
  fetch method read out c = read_answer read out (send_empty_request json link method c)

  unfoldable pub submit {ℓ} :
      {Out : Type ℓ} → MethodId → Value → (Value → Out) → Out → Client json link → Returned Out
  submit method request read out c =
      read_answer read out (send_json_request json link method request c)

  -- `return kInvalidParam;` before anything is sent
  unfoldable pub refuse {ℓ} : {Out : Type ℓ} → Out → Client json link → Returned Out
  refuse out c = record { error = invalid_param; out = out; client = c }

  unfoldable pub restart_flag : Bool → Value → Bool
  restart_flag default j = safe_value json j get_bool "restart_required" default

  unfoldable pub get_device_info : DeviceInfo → Client json link → Returned (DeviceInfo)
  get_device_info = fetch Methods.get_device_info (read_device_info json)

  unfoldable pub get_sensor_status :
      SensorStatus Real → Client json link → Returned (SensorStatus Real)
  get_sensor_status = fetch Methods.get_sensor_status (read_sensor_status json)

  unfoldable pub get_diagnostic_info : DiagnosticInfo → Client json link → Returned (DiagnosticInfo)
  get_diagnostic_info = fetch Methods.get_diagnostic_info (read_diagnostic_info json)

  unfoldable pub get_command_history_info :
      CommandHistory → Client json link → Returned (CommandHistory)
  get_command_history_info = fetch Methods.get_command_history_info (read_command_history json)

  unfoldable pub get_network_config : NetworkConfig → Client json link → Returned (NetworkConfig)
  get_network_config = fetch Methods.get_network_config (read_network_config json)

  unfoldable pub get_detection_filters :
      DetectionFilters → Client json link → Returned (DetectionFilters)
  get_detection_filters = fetch Methods.get_detection_filters (read_detection_filters json)

  unfoldable pub get_ptp_config : PtpConfig → Client json link → Returned (PtpConfig)
  get_ptp_config = fetch Methods.get_ptp_config (read_ptp_config json)

  unfoldable pub get_mounting_position :
      MountingPosition Real → Client json link → Returned (MountingPosition Real)
  get_mounting_position = fetch Methods.get_mounting_position (read_mounting_position json)

  unfoldable pub get_rotation : Rotation Real → Client json link → Returned (Rotation Real)
  get_rotation = fetch Methods.get_rotation (read_rotation json)

  unfoldable pub get_sensor_position : SensorPosition → Client json link → Returned (SensorPosition)
  get_sensor_position = fetch Methods.get_sensor_position (read_sensor_position json)

  unfoldable pub firmware_update_status : OtaStatus → Client json link → Returned (OtaStatus)
  firmware_update_status = fetch Methods.firmware_update_status (read_ota_status json)

  unfoldable pub get_boot_info : BootInfo → Client json link → Returned (BootInfo)
  get_boot_info = fetch Methods.get_boot_info (read_boot_info json)

  unfoldable pub get_config_status : ConfigStatus → Client json link → Returned (ConfigStatus)
  get_config_status = fetch Methods.get_config_status (read_config_status json)

  unfoldable pub restart : Client json link → Answer json link
  restart = send_empty_request json link Methods.restart

  unfoldable pub reset_all_settings : Client json link → Answer json link
  reset_all_settings = send_empty_request json link Methods.reset_all_settings

  unfoldable pub firmware_update_commit : Client json link → Answer json link
  firmware_update_commit = send_empty_request json link Methods.firmware_update_commit

  unfoldable pub firmware_update_abort : Client json link → Answer json link
  firmware_update_abort = send_empty_request json link Methods.firmware_update_abort

  unfoldable pub firmware_update_reboot : Client json link → Answer json link
  firmware_update_reboot = send_empty_request json link Methods.firmware_update_reboot

  unfoldable pub set_detection_filters : DetectionFilters → Client json link → Answer json link
  set_detection_filters v =
      send_json_request json link Methods.set_detection_filters (write_detection_filters json v)

  unfoldable pub set_mounting_position : MountingPosition Real → Client json link → Answer json link
  set_mounting_position v =
      send_json_request json link Methods.set_mounting_position (write_mounting_position json v)

  unfoldable pub set_rotation : Rotation Real → Client json link → Answer json link
  set_rotation v = send_json_request json link Methods.set_rotation (write_rotation json v)

  unfoldable pub set_sensor_position : SensorPosition → Client json link → Answer json link
  set_sensor_position v =
      send_json_request json link Methods.set_sensor_position (write_sensor_position json v)

  unfoldable pub set_network_config : NetworkConfig → Bool → Client json link → Returned Bool
  set_network_config config =
      submit Methods.set_network_config (write_network_config json config) (restart_flag false)

  unfoldable pub set_stream_destination :
      StreamKind → StreamDestination → Client json link → Answer json link
  set_stream_destination kind dst =
      send_json_request json link Methods.set_network_config
        (write_stream_destination json kind dst)

  -- A range mode is the number of AfiRangeMode, with kUltraDualRange = 6 the last.
  unfoldable pub get_range_mode : ℕ → Client json link → Returned ℕ
  get_range_mode = fetch Methods.get_range_mode (λ j. safe_value json j (get_uint 8) "range_mode" 0)

  unfoldable pub set_range_mode : ℕ → Bool → Client json link → Returned Bool
  set_range_mode mode restart_required c =
      if ltb 6 mode
      then refuse restart_required c
      else submit Methods.set_range_mode (write_range_mode json mode) (restart_flag true)
          restart_required c

  -- An accepted answer that does not read as a threshold is kProtocolError, with what was read of it.
  unfoldable pub read_threshold :
      DetectionThreshold Real → Answer json link → Returned (DetectionThreshold Real)
  read_threshold out a =
      let r = read_detection_threshold json a.content out in
      record {
        error = if is_success a.error then (if r.0 then success else protocol_error) else a.error;
        out = if is_success a.error then r.1 else out;
        client = a.client;
      }

  unfoldable pub get_detection_threshold :
      DetectionThreshold Real → Client json link → Returned (DetectionThreshold Real)
  get_detection_threshold out c =
      read_threshold out (send_empty_request json link Methods.get_detection_threshold c)

  unfoldable pub set_detection_threshold :
      DetectionThreshold Real → Client json link → Returned (Unit {0})
  set_detection_threshold t c =
      if is_valid_threshold json t
      then submit Methods.set_detection_threshold (write_detection_threshold json t) (λ j. tt) tt c
      else refuse tt c

  unfoldable pub set_ptp_config : ℕ → Bool → Client json link → Returned Bool
  set_ptp_config profile restart_required c =
      if ltb 2 profile
      then refuse restart_required c
      else submit Methods.set_ptp_config (write_ptp_profile json profile) (restart_flag false)
          restart_required c

  unfoldable pub firmware_update_start :
      OtaStartRequest → OtaStartResponse → Client json link → Returned OtaStartResponse
  firmware_update_start request =
      submit Methods.firmware_update_start (write_ota_start json request)
        (read_ota_start_response json)

  -- `SendRawRequest`: the payload is given, or a null pointer with a length.
  unfoldable pub send_raw_request :
      MethodId → Option (List ℕ) → ℕ → Client json link → Returned Value
  send_raw_request method (some payload) len c =
      let a = exchange json link method payload c in
      record { error = a.error; out = a.content; client = a.client }
  send_raw_request method none len c =
      let a = exchange json link method [] c in
      if ltb 0 len
      then refuse (json.object []) c
      else record { error = a.error; out = a.content; client = a.client }

  unfoldable pub firmware_data_chunk :
      Option (List ℕ) → ℕ → OtaChunkResult → Client json link → Returned OtaChunkResult
  firmware_data_chunk chunk len out c =
      let r = send_raw_request Methods.firmware_data_chunk chunk len c in
      record {
        error = r.error;
        out = if is_success r.error then read_ota_chunk_result json r.out else out;
        client = r.client;
      }

  unfoldable pub firmware_switch_slot :
      String → OtaSwitchSlotResult → Client json link → Returned OtaSwitchSlotResult
  firmware_switch_slot update_type =
      submit Methods.firmware_switch_slot (write_update_type json update_type)
        (read_ota_switch_slot_result json)

  unfoldable pub reset_config_defaults :
      List String
      → ResetConfigDefaultsResult
      → Client json link
      → Returned ResetConfigDefaultsResult
  reset_config_defaults keys out c =
      if length keys == 0
      then refuse out c
      else if has_empty keys
      then refuse out c
      else submit Methods.reset_config_defaults (write_keys json keys)
          (read_reset_config_defaults_result json) out c
