-- ===== src/Discovery/Info.antt =====
-- `AfiSensorInfo` of include/afi/afi_types.h: what a discovery response tells of a sensor.
use Prim.Native.String.{String}
use afi920_sdk.Prelude.{ℕ, Bool, false}
use afi920_sdk.E2e.{Generation, unknown}
use afi920_sdk.Config.Json.{Json, ℤ, pos}

-- `AfiSensorInfo`
pub record SensorInfo (R : Type 0) : Type 0 where
  pub serial_number : String
  pub mac_address : String
  pub model : String
  pub hw_version : String
  pub software_version : String
  pub bootloader_hash : String
  pub fw_hash : String
  pub ip : String
  pub subnet_mask : String
  pub gateway : String
  pub port : ℕ
  pub detection_port : ℕ
  pub health_port : ℕ
  pub performance_port : ℕ
  pub detection_protocol : String
  pub health_protocol : String
  pub performance_protocol : String
  pub host_ip : String
  pub detection_ip : String
  pub health_ip : String
  pub performance_ip : String
  pub position_code : ℕ
  pub offset_x : R
  pub offset_y : R
  pub offset_z : R
  pub yaw_deg : R
  pub pitch_deg : R
  pub roll_deg : R
  pub range_mode : ℕ
  pub range_mode_name : String
  pub radar_active : Bool
  pub radar_mode : String
  pub ptp_state : String
  pub ptp_offset_ns : ℤ
  pub source_ip : String
  pub scan_index : ℕ
  pub uptime_seconds : ℕ
  pub generation : Generation

module _ (json : Json) where
  open json use {
    Value, Real, find, keys, is_object, get_string, get_bool, get_uint, get_int, get_real,
    real_zero, parse,
  }

  -- The default member values.
  unfoldable pub initial_info : SensorInfo Real
  initial_info = record {
    serial_number = "";
    mac_address = "";
    model = "";
    hw_version = "";
    software_version = "";
    bootloader_hash = "";
    fw_hash = "";
    ip = "";
    subnet_mask = "";
    gateway = "";
    port = 30500;
    detection_port = 30509;
    health_port = 30510;
    performance_port = 30511;
    detection_protocol = "";
    health_protocol = "";
    performance_protocol = "";
    host_ip = "";
    detection_ip = "";
    health_ip = "";
    performance_ip = "";
    position_code = 0;
    offset_x = real_zero;
    offset_y = real_zero;
    offset_z = real_zero;
    yaw_deg = real_zero;
    pitch_deg = real_zero;
    roll_deg = real_zero;
    range_mode = 0;
    range_mode_name = "";
    radar_active = false;
    radar_mode = "";
    ptp_state = "";
    ptp_offset_ns = pos 0;
    source_ip = "";
    scan_index = 0;
    uptime_seconds = 0;
    generation = unknown;
  }
