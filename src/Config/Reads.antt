-- ===== src/Config/Reads.antt =====
-- The answers that src/config_api/config_client.cpp reads into the types of the API.
use Prim.Native.String.{String}
use afi920_sdk.Prelude.{ℕ, List, [], true, false, Option, none, some, map}
use afi920_sdk.Config.Json.{Json, pos}
use afi920_sdk.Config.Types.{
  DeviceInfo, SensorStatus, FaultEntry, DiagnosticInfo, CommandHistory, DetectionFilters, PtpConfig,
  MountingPosition, Rotation, SensorPosition, OtaStartResponse, OtaChunkResult, OtaStatus,
  OtaSwitchSlotResult, BootInfo, ConfigStatus, ResetConfigDefaultsResult,
}

module _ (json : Json) where
  open json use {
    Value, Real, find, elements, is_integer, get_string, get_bool, get_uint, get_int, get_real,
    real_zero, is_finite, within_levels,
  }

  unfoldable pub or_default {ℓ} : {A : Type ℓ} → Option A → A → A
  or_default none d = d
  or_default (some a) d = a

  -- `safe_value` behind its `find`: `get` is none where `get<T>` throws.
  unfoldable pub value_or {ℓ} : {A : Type ℓ} → (Value → Option A) → Option Value → A → A
  value_or get none d = d
  value_or get (some v) d = or_default (get v) d

  unfoldable pub safe_value {ℓ} : {A : Type ℓ} → Value → (Value → Option A) → String → A → A
  safe_value j get key d = value_or get (find j key) d

  unfoldable pub read_device_info : Value → DeviceInfo
  read_device_info j = record {
    serial_number = safe_value j get_string "serial_number" "";
    mac_address = safe_value j get_string "mac_address" "";
    model_name = safe_value j get_string "model_name" "";
    hw_version = safe_value j get_string "hw_version" "";
    software_version = safe_value j get_string "software_version" "";
    bootloader_hash = safe_value j get_string "bootloader_hash" "";
    fw_hash = safe_value j get_string "fw_hash" "";
  }

  unfoldable pub read_sensor_status : Value → SensorStatus Real
  read_sensor_status j = record {
    operation_state = safe_value j get_string "operation_state" "";
    operation_state_code = safe_value j (get_uint 8) "operation_state_code" 0;
    temperature_mcu = safe_value j get_real "temperature_mcu" real_zero;
    temperature_rf = safe_value j get_real "temperature_rf" real_zero;
    voltage = safe_value j get_real "voltage" real_zero;
    uptime_sec = safe_value j (get_uint 32) "uptime_sec" 0;
  }

  unfoldable pub read_fault_entry : Value → FaultEntry
  read_fault_entry j = record {
    id = safe_value j get_string "id" "";
    name = safe_value j get_string "name" "";
    source = safe_value j get_string "source" "";
    level = safe_value j get_string "level" "";
    level_code = safe_value j (get_uint 8) "level_code" 0;
    active = safe_value j get_bool "active" false;
  }

  unfoldable pub read_entries : Option (List Value) → List FaultEntry
  read_entries none = []
  read_entries (some items) = map read_fault_entry items

  -- The faults of a diagnostic answer: none unless they are there and an array.
  unfoldable pub read_faults : Option Value → List FaultEntry
  read_faults none = []
  read_faults (some v) = read_entries (elements v)

  unfoldable pub read_diagnostic_info : Value → DiagnosticInfo
  read_diagnostic_info j = record {
    combined_state = safe_value j get_string "combined_state" "";
    combined_state_code = safe_value j (get_uint 8) "combined_state_code" 0;
    max_fault_level = safe_value j get_string "max_fault_level" "";
    max_fault_level_code = safe_value j (get_uint 8) "max_fault_level_code" 0;
    trigger_fault_id = safe_value j get_string "trigger_fault_id" "";
    active_fault_count = safe_value j (get_uint 16) "active_fault_count" 0;
    m7_snapshot_stale = safe_value j get_bool "m7_snapshot_stale" false;
    m7_stale_cycles = safe_value j (get_uint 32) "m7_stale_cycles" 0;
    faults = read_faults (find j "faults");
  }

  unfoldable pub read_command_history : Value → CommandHistory
  read_command_history j = record {
    total_commands = safe_value j (get_uint 32) "total_commands" 0;
    success_count = safe_value j (get_uint 32) "success_count" 0;
    fail_count = safe_value j (get_uint 32) "fail_count" 0;
  }

  unfoldable pub read_detection_filters : Value → DetectionFilters
  read_detection_filters j = record {
    filter_ego_specular = safe_value j get_bool "filter_ego_specular" false;
    filter_ground_sidelobe = safe_value j get_bool "filter_ground_sidelobe" true;
    filter_upper_structure = safe_value j get_bool "filter_upper_structure" false;
    filter_multibounce_2x = safe_value j get_bool "filter_multibounce_2x" true;
    filter_structure_multipath = safe_value j get_bool "filter_structure_multipath" true;
    filter_specular_mirror = safe_value j get_bool "filter_specular_mirror" true;
    filter_wheel_microdoppler = safe_value j get_bool "filter_wheel_microdoppler" false;
    filter_ground_reflection = safe_value j get_bool "filter_ground_reflection" false;
  }

  unfoldable pub read_ptp_config : Value → PtpConfig
  read_ptp_config j =
      let profile : ℕ = safe_value j (get_uint 8) "profile" 0 in
      let profile_name : String = safe_value j get_string "profile_name" "" in
      record {
        profile = profile;
        profile_name = profile_name;
        domain = safe_value j (get_uint 8) "domain" 0;
        priority1 = safe_value j (get_uint 8) "priority1" 255;
        priority2 = safe_value j (get_uint 8) "priority2" 255;
        state = safe_value j get_string "state" "";
        state_code = safe_value j (get_uint 8) "state_code" 0;
        offset_ns = safe_value j (get_int 64) "offset_ns" (pos 0);
        mean_path_delay_ns = safe_value j (get_int 64) "mean_path_delay_ns" (pos 0);
        master_clock_id = safe_value j get_string "master_clock_id" "";
        configured_profile = safe_value j (get_uint 8) "configured_profile" profile;
        configured_profile_name = safe_value j get_string "configured_profile_name" profile_name;
        restart_required = safe_value j get_bool "restart_required" false;
        grid_offset_ns = safe_value j (get_int 64) "grid_offset_ns" (pos 0);
        grid_state = safe_value j get_string "grid_state" "";
      }

  unfoldable pub read_mounting_position : Value → MountingPosition Real
  read_mounting_position j = record {
    x = safe_value j get_real "offset_x_m" real_zero;
    y = safe_value j get_real "offset_y_m" real_zero;
    z = safe_value j get_real "offset_z_m" real_zero;
  }

  unfoldable pub read_rotation : Value → Rotation Real
  read_rotation j = record {
    roll = safe_value j get_real "roll_deg" real_zero;
    pitch = safe_value j get_real "pitch_deg" real_zero;
    yaw = safe_value j get_real "yaw_deg" real_zero;
  }

  unfoldable pub read_sensor_position : Value → SensorPosition
  read_sensor_position j = record { position_code = safe_value j (get_uint 8) "position_code" 0 }

  unfoldable pub read_ota_start_response : Value → OtaStartResponse
  read_ota_start_response j = record {
    max_chunk_size = safe_value j (get_uint 32) "max_chunk_size" 4096;
    target_slot = safe_value j get_string "target_slot" "";
  }

  unfoldable pub read_ota_chunk_result : Value → OtaChunkResult
  read_ota_chunk_result j = record {
    received_bytes = safe_value j (get_uint 32) "received_bytes" 0;
    total_bytes = safe_value j (get_uint 32) "total_bytes" 0;
  }

  unfoldable pub read_ota_status : Value → OtaStatus
  read_ota_status j = record {
    state = safe_value j get_string "state" "";
    progress_pct = safe_value j (get_uint 8) "progress_pct" 0;
    current_component = safe_value j get_string "current_component" "";
    error_message = safe_value j get_string "error_message" "";
  }

  unfoldable pub read_ota_switch_slot_result : Value → OtaSwitchSlotResult
  read_ota_switch_slot_result j = record {
    previous_active = safe_value j get_string "previous_active" "";
    new_active = safe_value j get_string "new_active" "";
  }

  unfoldable pub read_boot_info : Value → BootInfo
  read_boot_info j = record {
    fw_update_active = safe_value j get_string "fw_update_active" "";
    fw_update_valid_a = safe_value j get_bool "fw_update_valid_a" false;
    fw_update_valid_b = safe_value j get_bool "fw_update_valid_b" false;
    fw_update_boot_count = safe_value j (get_uint 32) "fw_update_boot_count" 0;
    boot_info_status = safe_value j get_string "boot_info_status" "";
  }

  unfoldable pub read_config_status : Value → ConfigStatus
  read_config_status j = record {
    load_status = safe_value j (get_uint 8) "load_status" 0;
    load_status_name = safe_value j get_string "load_status_name" "";
  }

  unfoldable pub read_reset_config_defaults_result : Value → ResetConfigDefaultsResult
  read_reset_config_defaults_result j = record {
    reset_fields = safe_value j (get_uint 32) "reset_fields" 0;
  }
