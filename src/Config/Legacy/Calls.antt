-- ===== src/Config/Legacy/Calls.antt =====
-- The methods of ConfigClient in src/config_api/config_client.cpp over a connection whose probe has
-- answered as v1.0.x.
use Prim.Native.String.{String}
use afi920_sdk.Prelude.{
  ℕ, List, [], ◌∷◌, Bool, Option, none, some, ltb, length, ◌==◌, if◌then◌else◌,
}
use afi920_sdk.Interface.{InterfaceHeaders}
use afi920_sdk.Error.{AfiError, not_supported, invalid_param}
use afi920_sdk.Transport.Network.{Network}
use afi920_sdk.Config.Json.{Json}
use afi920_sdk.Config.Types.{
  DeviceInfo, SensorStatus, DiagnosticInfo, CommandHistory, NetworkConfig, StreamKind,
  StreamDestination, DetectionThreshold, DetectionFilters, PtpConfig, MountingPosition, Rotation,
  SensorPosition, OtaStartRequest, OtaStartResponse, OtaChunkResult, OtaStatus, OtaSwitchSlotResult,
  BootInfo, ConfigStatus, ResetConfigDefaultsResult, AccessMode, normal, diagnostic, programming,
  ModeStatus,
}
use afi920_sdk.Config.Writes.{is_valid_threshold, has_empty}
use afi920_sdk.Config.Exchange.{Link, Client, Answer}
use afi920_sdk.Config.Calls.{
  Returned, get_device_info, get_sensor_status, get_diagnostic_info, get_command_history_info,
  get_network_config, get_detection_filters, get_ptp_config, get_mounting_position, get_rotation,
  get_sensor_position, firmware_update_status, get_boot_info, get_config_status, get_range_mode,
  restart, reset_all_settings, firmware_update_commit, firmware_update_abort,
  firmware_update_reboot, set_detection_filters, set_mounting_position, set_rotation,
  set_sensor_position, set_network_config, set_stream_destination, set_range_mode,
  get_detection_threshold, set_detection_threshold, set_ptp_config, firmware_update_start,
  firmware_data_chunk, firmware_switch_slot, reset_config_defaults,
}
use afi920_sdk.Config.Mode.{Coded, Status, get_mode, set_mode, enter_mode}
use afi920_sdk.Config.Legacy.{tcp_link}

-- What a firmware chunk answers: a null pointer with a length is kInvalidParam.
abbrev pub chunk_expected : Option (List ℕ) → ℕ → AfiError
chunk_expected (some chunk) len = not_supported
chunk_expected none len = if ltb 0 len then invalid_param else not_supported

-- Nobody enters Normal.
abbrev pub mode_expected : AccessMode → AfiError
mode_expected normal = invalid_param
mode_expected diagnostic = not_supported
mode_expected programming = not_supported

module _ (json : Json) where
  -- A call of a method, with its arguments and its outputs as they were.
  pub data ConfigCall : Type 0 where
    get_device_info_call : DeviceInfo → ConfigCall
    get_sensor_status_call : SensorStatus json.Real → ConfigCall
    get_diagnostic_info_call : DiagnosticInfo → ConfigCall
    get_command_history_info_call : CommandHistory → ConfigCall
    get_network_config_call : NetworkConfig → ConfigCall
    get_detection_filters_call : DetectionFilters → ConfigCall
    get_ptp_config_call : PtpConfig → ConfigCall
    get_mounting_position_call : MountingPosition json.Real → ConfigCall
    get_rotation_call : Rotation json.Real → ConfigCall
    get_sensor_position_call : SensorPosition → ConfigCall
    firmware_update_status_call : OtaStatus → ConfigCall
    get_boot_info_call : BootInfo → ConfigCall
    get_config_status_call : ConfigStatus → ConfigCall
    get_range_mode_call : ℕ → ConfigCall
    restart_call : ConfigCall
    reset_all_settings_call : ConfigCall
    firmware_update_commit_call : ConfigCall
    firmware_update_abort_call : ConfigCall
    firmware_update_reboot_call : ConfigCall
    set_detection_filters_call : DetectionFilters → ConfigCall
    set_mounting_position_call : MountingPosition json.Real → ConfigCall
    set_rotation_call : Rotation json.Real → ConfigCall
    set_sensor_position_call : SensorPosition → ConfigCall
    set_network_config_call : NetworkConfig → Bool → ConfigCall
    set_stream_destination_call : StreamKind → StreamDestination → ConfigCall
    set_range_mode_call : ℕ → Bool → ConfigCall
    get_detection_threshold_call : DetectionThreshold json.Real → ConfigCall
    set_detection_threshold_call : DetectionThreshold json.Real → ConfigCall
    set_ptp_config_call : ℕ → Bool → ConfigCall
    firmware_update_start_call : OtaStartRequest → OtaStartResponse → ConfigCall
    firmware_data_chunk_call : Option (List ℕ) → ℕ → OtaChunkResult → ConfigCall
    firmware_switch_slot_call : String → OtaSwitchSlotResult → ConfigCall
    reset_config_defaults_call : List String → ResetConfigDefaultsResult → ConfigCall
    get_mode_call : ModeStatus → ConfigCall
    set_mode_call : AccessMode → ModeStatus → ConfigCall
    enter_mode_call : AccessMode → ConfigCall

  -- What a v1.0.x sensor's caller is told: kInvalidParam for arguments that the method refuses, and
  -- else kNotSupported.
  abbrev pub expected : ConfigCall → AfiError
  expected (get_device_info_call out) = not_supported
  expected (get_sensor_status_call out) = not_supported
  expected (get_diagnostic_info_call out) = not_supported
  expected (get_command_history_info_call out) = not_supported
  expected (get_network_config_call out) = not_supported
  expected (get_detection_filters_call out) = not_supported
  expected (get_ptp_config_call out) = not_supported
  expected (get_mounting_position_call out) = not_supported
  expected (get_rotation_call out) = not_supported
  expected (get_sensor_position_call out) = not_supported
  expected (firmware_update_status_call out) = not_supported
  expected (get_boot_info_call out) = not_supported
  expected (get_config_status_call out) = not_supported
  expected (get_range_mode_call out) = not_supported
  expected restart_call = not_supported
  expected reset_all_settings_call = not_supported
  expected firmware_update_commit_call = not_supported
  expected firmware_update_abort_call = not_supported
  expected firmware_update_reboot_call = not_supported
  expected (set_detection_filters_call v) = not_supported
  expected (set_mounting_position_call v) = not_supported
  expected (set_rotation_call v) = not_supported
  expected (set_sensor_position_call v) = not_supported
  expected (set_network_config_call v out) = not_supported
  expected (set_stream_destination_call kind dst) = not_supported
  expected (set_range_mode_call mode out) = if ltb 6 mode then invalid_param else not_supported
  expected (get_detection_threshold_call out) = not_supported
  expected (set_detection_threshold_call t) =
      if is_valid_threshold json t then not_supported else invalid_param
  expected (set_ptp_config_call profile out) =
      if ltb 2 profile then invalid_param else not_supported
  expected (firmware_update_start_call request out) = not_supported
  expected (firmware_data_chunk_call chunk len out) = chunk_expected chunk len
  expected (firmware_switch_slot_call update_type out) = not_supported
  expected (reset_config_defaults_call keys out) =
      if length keys == 0
      then invalid_param
      else if has_empty keys
      then invalid_param
      else not_supported
  expected (get_mode_call out) = not_supported
  expected (set_mode_call mode out) = mode_expected mode
  expected (enter_mode_call target) = mode_expected target

-- What a method returns, and the client.
abbrev pub returned {ℓ} :
    {json : Json} {link : Link} {Out : Type ℓ}
    → Returned json link Out
    → AfiError × Client json link
returned r = (r.error, r.client)

abbrev pub answered : {json : Json} {link : Link} → Answer json link → AfiError × Client json link
answered a = (a.error, a.client)

abbrev pub status : {json : Json} {link : Link} → Status json link → AfiError × Client json link
status s = (s.error, s.client)

abbrev pub coded : {json : Json} {link : Link} → Coded json link → AfiError × Client json link
coded r = (r.error, r.client)

module _ (json : Json) (net : Network) (h : InterfaceHeaders) where
  unfoldable pub apply :
      ConfigCall json → Client json (tcp_link net h) → AfiError × Client json (tcp_link net h)
  apply (get_device_info_call out) c = returned (get_device_info json (tcp_link net h) out c)
  apply (get_sensor_status_call out) c = returned (get_sensor_status json (tcp_link net h) out c)
  apply (get_diagnostic_info_call out) c =
      returned (get_diagnostic_info json (tcp_link net h) out c)
  apply (get_command_history_info_call out) c =
      returned (get_command_history_info json (tcp_link net h) out c)
  apply (get_network_config_call out) c = returned (get_network_config json (tcp_link net h) out c)
  apply (get_detection_filters_call out) c =
      returned (get_detection_filters json (tcp_link net h) out c)
  apply (get_ptp_config_call out) c = returned (get_ptp_config json (tcp_link net h) out c)
  apply (get_mounting_position_call out) c =
      returned (get_mounting_position json (tcp_link net h) out c)
  apply (get_rotation_call out) c = returned (get_rotation json (tcp_link net h) out c)
  apply (get_sensor_position_call out) c =
      returned (get_sensor_position json (tcp_link net h) out c)
  apply (firmware_update_status_call out) c =
      returned (firmware_update_status json (tcp_link net h) out c)
  apply (get_boot_info_call out) c = returned (get_boot_info json (tcp_link net h) out c)
  apply (get_config_status_call out) c = returned (get_config_status json (tcp_link net h) out c)
  apply (get_range_mode_call out) c = returned (get_range_mode json (tcp_link net h) out c)
  apply restart_call c = answered (restart json (tcp_link net h) c)
  apply reset_all_settings_call c = answered (reset_all_settings json (tcp_link net h) c)
  apply firmware_update_commit_call c = answered (firmware_update_commit json (tcp_link net h) c)
  apply firmware_update_abort_call c = answered (firmware_update_abort json (tcp_link net h) c)
  apply firmware_update_reboot_call c = answered (firmware_update_reboot json (tcp_link net h) c)
  apply (set_detection_filters_call v) c =
      answered (set_detection_filters json (tcp_link net h) v c)
  apply (set_mounting_position_call v) c =
      answered (set_mounting_position json (tcp_link net h) v c)
  apply (set_rotation_call v) c = answered (set_rotation json (tcp_link net h) v c)
  apply (set_sensor_position_call v) c = answered (set_sensor_position json (tcp_link net h) v c)
  apply (set_network_config_call v out) c =
      returned (set_network_config json (tcp_link net h) v out c)
  apply (set_stream_destination_call kind dst) c =
      answered (set_stream_destination json (tcp_link net h) kind dst c)
  apply (set_range_mode_call mode out) c =
      returned (set_range_mode json (tcp_link net h) mode out c)
  apply (get_detection_threshold_call out) c =
      returned (get_detection_threshold json (tcp_link net h) out c)
  apply (set_detection_threshold_call t) c =
      returned (set_detection_threshold json (tcp_link net h) t c)
  apply (set_ptp_config_call profile out) c =
      returned (set_ptp_config json (tcp_link net h) profile out c)
  apply (firmware_update_start_call request out) c =
      returned (firmware_update_start json (tcp_link net h) request out c)
  apply (firmware_data_chunk_call chunk len out) c =
      returned (firmware_data_chunk json (tcp_link net h) chunk len out c)
  apply (firmware_switch_slot_call update_type out) c =
      returned (firmware_switch_slot json (tcp_link net h) update_type out c)
  apply (reset_config_defaults_call keys out) c =
      returned (reset_config_defaults json (tcp_link net h) keys out c)
  apply (get_mode_call out) c = status (get_mode json (tcp_link net h) out c)
  apply (set_mode_call mode out) c = status (set_mode json (tcp_link net h) mode out c)
  apply (enter_mode_call target) c = coded (enter_mode json (tcp_link net h) target c)

  unfoldable pub run :
      List (ConfigCall json)
      → Client json (tcp_link net h)
      → List AfiError × Client json (tcp_link net h)
  run [] c = ([], c)
  run (call ∷ calls) c = let r = apply call c in let rest = run calls r.1 in (r.0 ∷ rest.0, rest.1)
