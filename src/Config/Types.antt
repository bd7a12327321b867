-- ===== src/Config/Types.antt =====
-- The types of the configuration API, from include/afi/afi_types.h. A float is a value of the type `R`,
-- a string one of `String`, and an enumerator of AfiRangeMode its number.
use Prim.Native.String.{String}
use afi920_sdk.Prelude.{ℕ, List, Bool}
use afi920_sdk.Config.Json.{ℤ}

-- `AfiSensorResult`
pub record SensorResult : Type 0 where
  pub return_code : ℤ
  pub return_name : String
  pub error_message : String
  pub e2e_ok : Bool

-- `AfiAccessMode`
pub data AccessMode : Type 0 where
  normal diagnostic programming : AccessMode

-- `AfiStreamKind`
pub data StreamKind : Type 0 where
  detection_stream health_stream performance_stream : StreamKind

pub record DeviceInfo : Type 0 where
  pub serial_number : String
  pub mac_address : String
  pub model_name : String
  pub hw_version : String
  pub software_version : String
  pub bootloader_hash : String
  pub fw_hash : String

pub record SensorStatus (R : Type 0) : Type 0 where
  pub operation_state : String
  pub operation_state_code : ℕ
  pub temperature_mcu : R
  pub temperature_rf : R
  pub voltage : R
  pub uptime_sec : ℕ

pub record FaultEntry : Type 0 where
  pub id : String
  pub name : String
  pub source : String
  pub level : String
  pub level_code : ℕ
  pub active : Bool

pub record DiagnosticInfo : Type 0 where
  pub combined_state : String
  pub combined_state_code : ℕ
  pub max_fault_level : String
  pub max_fault_level_code : ℕ
  pub trigger_fault_id : String
  pub active_fault_count : ℕ
  pub m7_snapshot_stale : Bool
  pub m7_stale_cycles : ℕ
  pub faults : List FaultEntry

pub record CommandHistory : Type 0 where
  pub total_commands : ℕ
  pub success_count : ℕ
  pub fail_count : ℕ

pub record StreamDestination : Type 0 where
  pub ip : String
  pub port : ℕ
  pub protocol : String

pub record NetworkConfig : Type 0 where
  pub ip_address : String
  pub subnet_mask : String
  pub gateway : String
  pub api_port : ℕ
  pub vlan_id : ℕ
  pub detection : StreamDestination
  pub health : StreamDestination
  pub performance : StreamDestination

pub record DetectionThreshold (R : Type 0) : Type 0 where
  pub snr_db : R
  pub cfar_table_first_frame : List ℕ
  pub cfar_table_second_frame : List ℕ
  pub has_cfar_table_second_frame : Bool

pub record DetectionFilters : Type 0 where
  pub filter_ego_specular : Bool
  pub filter_ground_sidelobe : Bool
  pub filter_upper_structure : Bool
  pub filter_multibounce_2x : Bool
  pub filter_structure_multipath : Bool
  pub filter_specular_mirror : Bool
  pub filter_wheel_microdoppler : Bool
  pub filter_ground_reflection : Bool

pub record PtpConfig : Type 0 where
  pub profile : ℕ
  pub profile_name : String
  pub domain : ℕ
  pub priority1 : ℕ
  pub priority2 : ℕ
  pub state : String
  pub state_code : ℕ
  pub offset_ns : ℤ
  pub mean_path_delay_ns : ℤ
  pub master_clock_id : String
  pub configured_profile : ℕ
  pub configured_profile_name : String
  pub restart_required : Bool
  pub grid_offset_ns : ℤ
  pub grid_state : String

pub record MountingPosition (R : Type 0) : Type 0 where
  pub x : R
  pub y : R
  pub z : R

pub record Rotation (R : Type 0) : Type 0 where
  pub roll : R
  pub pitch : R
  pub yaw : R

pub record SensorPosition : Type 0 where
  pub position_code : ℕ

pub record OtaStartRequest : Type 0 where
  pub update_type : String
  pub component : String
  pub total_size : ℕ
  pub crc32 : String

pub record OtaStartResponse : Type 0 where
  pub max_chunk_size : ℕ
  pub target_slot : String

pub record OtaChunkResult : Type 0 where
  pub received_bytes : ℕ
  pub total_bytes : ℕ

pub record OtaStatus : Type 0 where
  pub state : String
  pub progress_pct : ℕ
  pub current_component : String
  pub error_message : String

pub record OtaSwitchSlotResult : Type 0 where
  pub previous_active : String
  pub new_active : String

pub record BootInfo : Type 0 where
  pub fw_update_active : String
  pub fw_update_valid_a : Bool
  pub fw_update_valid_b : Bool
  pub fw_update_boot_count : ℕ
  pub boot_info_status : String

pub record ConfigStatus : Type 0 where
  pub load_status : ℕ
  pub load_status_name : String

pub record ResetConfigDefaultsResult : Type 0 where
  pub reset_fields : ℕ

pub record ModeStatus : Type 0 where
  pub access_mode : AccessMode
  pub access_mode_name : String
  pub elapsed_ms : ℕ
  pub streams_halted : Bool
