-- ===== src/Discovery/Response.antt =====
-- `ParseResponse` of src/discovery/discovery.cpp: the fields of a discovery response.
use Prim.Native.String.{String}
use text.Mathlib.Text.{starts_with}
use afi920_sdk.Prelude.{
  ℕ, List, [], ◌∷◌, Bool, false, ◌||◌, Option, none, some, ◌!=◌, if◌then◌else◌,
}
use afi920_sdk.E2e.{Generation, unknown, v1_0, v1_1}
use afi920_sdk.Config.Json.{Json, ℤ, pos, negsuc}
use afi920_sdk.Discovery.Info.{SensorInfo}

infixl 5 ◌>>=◌
abbrev ◌>>=◌ {ℓ κ} : {A : Type ℓ} {B : Type κ} → Option A → (A → Option B) → Option B
none >>= f = none
some a >>= f = f a

-- Whether a key begins with "m72_"
unfoldable pub has_m72 : List String → Bool
has_m72 [] = false
has_m72 (k ∷ ks) = starts_with k "m72_" || has_m72 ks

module _ (json : Json) where
  open json use {
    Value, Real, find, keys, is_object, get_string, get_bool, get_uint, get_int, get_real,
    real_zero, parse,
  }

  -- `if (d.contains(key)) field = d[key].get<T>();`, with none where `get` throws
  unfoldable pub value_if {ℓ} : {A : Type ℓ} → (Value → Option A) → A → Option Value → Option A
  value_if get old none = some old
  value_if get old (some v) = get v

  unfoldable pub field_if {ℓ} : {A : Type ℓ} → Value → (Value → Option A) → String → A → Option A
  field_if d get key old = value_if get old (find d key)

  -- Device identity and version
  unfoldable pub read_identity : Value → SensorInfo Real → Option (SensorInfo Real)
  read_identity d out = do
    serial_number ← field_if d get_string "serial_number" out.serial_number
    mac_address ← field_if d get_string "mac_address" out.mac_address
    model ← field_if d get_string "model_name" out.model
    hw_version ← field_if d get_string "hw_version" out.hw_version
    software_version ← field_if d get_string "software_version" out.software_version
    bootloader_hash ← field_if d get_string "bootloader_hash" out.bootloader_hash
    fw_hash ← field_if d get_string "fw_hash" out.fw_hash
    some (record out {
      serial_number = serial_number;
      mac_address = mac_address;
      model = model;
      hw_version = hw_version;
      software_version = software_version;
      bootloader_hash = bootloader_hash;
      fw_hash = fw_hash;
    })

  -- Network and ports
  unfoldable pub read_network : Value → SensorInfo Real → Option (SensorInfo Real)
  read_network d out = do
    ip ← field_if d get_string "ip_address" out.ip
    subnet_mask ← field_if d get_string "subnet_mask" out.subnet_mask
    gateway ← field_if d get_string "gateway" out.gateway
    port ← field_if d (get_uint 16) "api_port" out.port
    detection_port ← field_if d (get_uint 16) "detection_port" out.detection_port
    health_port ← field_if d (get_uint 16) "health_port" out.health_port
    performance_port ← field_if d (get_uint 16) "performance_port" out.performance_port
    some (record out {
      ip = ip;
      subnet_mask = subnet_mask;
      gateway = gateway;
      port = port;
      detection_port = detection_port;
      health_port = health_port;
      performance_port = performance_port;
    })

  -- Data stream protocols and host destination IPs
  unfoldable pub read_destinations : Value → SensorInfo Real → Option (SensorInfo Real)
  read_destinations d out = do
    detection_protocol ← field_if d get_string "detection_protocol" out.detection_protocol
    health_protocol ← field_if d get_string "health_protocol" out.health_protocol
    performance_protocol ← field_if d get_string "performance_protocol" out.performance_protocol
    host_ip ← field_if d get_string "host_ip" out.host_ip
    detection_ip ← field_if d get_string "detection_ip" out.detection_ip
    health_ip ← field_if d get_string "health_ip" out.health_ip
    performance_ip ← field_if d get_string "performance_ip" out.performance_ip
    some (record out {
      detection_protocol = detection_protocol;
      health_protocol = health_protocol;
      performance_protocol = performance_protocol;
      host_ip = host_ip;
      detection_ip = detection_ip;
      health_ip = health_ip;
      performance_ip = performance_ip;
    })

  -- Mounting and position
  unfoldable pub read_mounting : Value → SensorInfo Real → Option (SensorInfo Real)
  read_mounting d out = do
    position_code ← field_if d (get_uint 8) "position_code" out.position_code
    offset_x ← field_if d get_real "offset_x_m" out.offset_x
    offset_y ← field_if d get_real "offset_y_m" out.offset_y
    offset_z ← field_if d get_real "offset_z_m" out.offset_z
    yaw_deg ← field_if d get_real "yaw_deg" out.yaw_deg
    pitch_deg ← field_if d get_real "pitch_deg" out.pitch_deg
    roll_deg ← field_if d get_real "roll_deg" out.roll_deg
    some (record out {
      position_code = position_code;
      offset_x = offset_x;
      offset_y = offset_y;
      offset_z = offset_z;
      yaw_deg = yaw_deg;
      pitch_deg = pitch_deg;
      roll_deg = roll_deg;
    })

  -- Range mode, operation and PTP status
  unfoldable pub read_status : Value → SensorInfo Real → Option (SensorInfo Real)
  read_status d out = do
    range_mode ← field_if d (get_uint 8) "range_mode" out.range_mode
    range_mode_name ← field_if d get_string "range_mode_name" out.range_mode_name
    radar_active ← field_if d get_bool "radar_active" out.radar_active
    radar_mode ← field_if d get_string "radar_mode" out.radar_mode
    ptp_state ← field_if d get_string "ptp_state" out.ptp_state
    ptp_offset_ns ← field_if d (get_int 64) "ptp_offset_ns" out.ptp_offset_ns
    some (record out {
      range_mode = range_mode;
      range_mode_name = range_mode_name;
      radar_active = radar_active;
      radar_mode = radar_mode;
      ptp_state = ptp_state;
      ptp_offset_ns = ptp_offset_ns;
    })

  -- The scan status: `value` of a missing key is 0.
  unfoldable pub read_counts : Value → SensorInfo Real → Option (SensorInfo Real)
  read_counts ss out = do
    scan_index ← field_if ss (get_uint 32) "scan_index" 0
    uptime_seconds ← field_if ss (get_uint 32) "uptime_seconds" 0
    some (record out { scan_index = scan_index; uptime_seconds = uptime_seconds })

  unfoldable pub read_scan : Option Value → SensorInfo Real → Option (SensorInfo Real)
  read_scan none out = some out
  read_scan (some ss) out = if is_object ss then read_counts ss out else some out

  unfoldable pub generation_of : Option Value → List String → Generation
  generation_of (some v) ks = v1_0
  generation_of none ks = if has_m72 ks then v1_1 else unknown

  -- The fields of a response, from its "data" or, without one, from itself
  unfoldable pub read_info : Value → SensorInfo Real → Option (SensorInfo Real)
  read_info d out = do
    a ← read_identity d out
    b ← read_network d a
    c ← read_destinations d b
    e ← read_mounting d c
    f ← read_status d e
    g ← read_scan (find d "scan_status") f
    some (record g { generation = generation_of (find d "driver_hash") (keys d) })

  unfoldable pub data_or : Value → Option Value → Value
  data_or j none = j
  data_or j (some d) = d

  -- A return code other than 0 refuses the response.
  unfoldable pub checked : Value → SensorInfo Real → ℤ → Option (SensorInfo Real)
  checked j out (negsuc n) = none
  checked j out (pos n) = if n != 0 then none else read_info (data_or j (find j "data")) out

  -- `ParseResponse`, with none for its -1: a text that does not parse, a return code, a wrong type.
  unfoldable pub parse_response : List ℕ → SensorInfo Real → Option (SensorInfo Real)
  parse_response bytes out = do
    j ← parse bytes
    code ← field_if j (get_int 32) "return_code" (pos 0)
    checked j out code
