-- ===== src/Config/Writes.antt =====
-- The request bodies that src/config_api/config_client.cpp builds, and the checks of their arguments.
use Prim.Native.String.{String, ◌++◌ as text_append}
use text.Mathlib.Text.{◌==◌ as str_eq}
use afi920_sdk.Prelude.{
  ℕ, List, [], ◌∷◌, Bool, true, false, not, ◌&&◌, ◌||◌, map, length, ltb, ◌==◌, if◌then◌else◌,
}
use afi920_sdk.Config.Json.{Json}
use afi920_sdk.Config.Types.{
  NetworkConfig, StreamDestination, StreamKind, detection_stream, health_stream, performance_stream,
  DetectionThreshold, DetectionFilters, MountingPosition, Rotation, SensorPosition, OtaStartRequest,
  AccessMode, normal, diagnostic, programming,
}
use afi920_sdk.Config.Crc.{normalize_crc32}

-- `is_valid_cfar_table`
unfoldable pub are_levels : List ℕ → Bool
are_levels [] = true
are_levels (level ∷ rest) = if ltb level 1 || ltb 9 level then false else are_levels rest

unfoldable pub is_valid_cfar_table : List ℕ → Bool
is_valid_cfar_table table = length table == 19 && are_levels table

abbrev pub prefix_of : StreamKind → String
prefix_of detection_stream = "detection"
prefix_of health_stream = "health"
prefix_of performance_stream = "performance"

abbrev pub mode_number : AccessMode → ℕ
mode_number normal = 0
mode_number diagnostic = 1
mode_number programming = 2

-- Whether one of the keys is empty
unfoldable pub has_empty : List String → Bool
has_empty [] = false
has_empty (key ∷ keys) = str_eq key "" || has_empty keys

module _ (json : Json) where
  open json use {
    Value, Real, object, array, of_string, of_bool, of_number, of_real, is_finite, within_levels,
  }

  abbrev pub network_config_members : NetworkConfig → List (String × Value)
  network_config_members c =
      ("ip_address", of_string c.ip_address)
      ∷ ("subnet_mask", of_string c.subnet_mask)
      ∷ ("gateway", of_string c.gateway)
      ∷ ("api_port", of_number c.api_port)
      ∷ ("vlan_id", of_number c.vlan_id)
      ∷ ("detection_ip", of_string c.detection.ip)
      ∷ ("detection_port", of_number c.detection.port)
      ∷ ("detection_protocol", of_string c.detection.protocol)
      ∷ ("health_ip", of_string c.health.ip)
      ∷ ("health_port", of_number c.health.port)
      ∷ ("health_protocol", of_string c.health.protocol)
      ∷ ("performance_ip", of_string c.performance.ip)
      ∷ ("performance_port", of_number c.performance.port)
      ∷ ("performance_protocol", of_string c.performance.protocol)
      ∷ []

  unfoldable pub write_network_config : NetworkConfig → Value
  write_network_config c = object (network_config_members c)

  unfoldable pub write_stream_destination : StreamKind → StreamDestination → Value
  write_stream_destination kind dst =
      let protocol : List (String × Value) =
        (text_append (prefix_of kind) "_protocol", of_string dst.protocol) ∷ [] in
      object (
        (text_append (prefix_of kind) "_ip", of_string dst.ip)
        ∷ (text_append (prefix_of kind) "_port", of_number dst.port)
        ∷ (if str_eq dst.protocol "" then [] else protocol))

  unfoldable pub write_range_mode : ℕ → Value
  write_range_mode mode = object (("range_mode", of_number mode) ∷ [])

  unfoldable pub is_valid_threshold : DetectionThreshold Real → Bool
  is_valid_threshold t =
      is_finite t.snr_db
      && within_levels t.snr_db
      && is_valid_cfar_table t.cfar_table_first_frame
      && (not t.has_cfar_table_second_frame || is_valid_cfar_table t.cfar_table_second_frame)

  abbrev pub write_table : List ℕ → Value
  write_table table = array (map of_number table)

  -- The second table is left out where the mode has none.
  abbrev pub second_members : Bool → List ℕ → List (String × Value)
  second_members true table = ("cfar_table_second_frame", write_table table) ∷ []
  second_members false table = []

  abbrev pub detection_threshold_members : DetectionThreshold Real → List (String × Value)
  detection_threshold_members t =
      ("snr_threshold_db", of_real t.snr_db)
      ∷ ("cfar_table_first_frame", write_table t.cfar_table_first_frame)
      ∷ second_members t.has_cfar_table_second_frame t.cfar_table_second_frame

  unfoldable pub write_detection_threshold : DetectionThreshold Real → Value
  write_detection_threshold t = object (detection_threshold_members t)

  abbrev pub detection_filters_members : DetectionFilters → List (String × Value)
  detection_filters_members f =
      ("filter_ego_specular", of_bool f.filter_ego_specular)
      ∷ ("filter_ground_sidelobe", of_bool f.filter_ground_sidelobe)
      ∷ ("filter_upper_structure", of_bool f.filter_upper_structure)
      ∷ ("filter_multibounce_2x", of_bool f.filter_multibounce_2x)
      ∷ ("filter_structure_multipath", of_bool f.filter_structure_multipath)
      ∷ ("filter_specular_mirror", of_bool f.filter_specular_mirror)
      ∷ ("filter_wheel_microdoppler", of_bool f.filter_wheel_microdoppler)
      ∷ ("filter_ground_reflection", of_bool f.filter_ground_reflection)
      ∷ []

  unfoldable pub write_detection_filters : DetectionFilters → Value
  write_detection_filters f = object (detection_filters_members f)

  unfoldable pub write_ptp_profile : ℕ → Value
  write_ptp_profile profile = object (("profile", of_number profile) ∷ [])

  unfoldable pub write_mounting_position : MountingPosition Real → Value
  write_mounting_position p =
      object (
        ("offset_x_m", of_real p.x)
        ∷ ("offset_y_m", of_real p.y)
        ∷ ("offset_z_m", of_real p.z)
        ∷ [])

  unfoldable pub write_rotation : Rotation Real → Value
  write_rotation r = object (
      ("roll_deg", of_real r.roll)
      ∷ ("pitch_deg", of_real r.pitch)
      ∷ ("yaw_deg", of_real r.yaw)
      ∷ [])

  unfoldable pub write_sensor_position : SensorPosition → Value
  write_sensor_position p = object (("position_code", of_number p.position_code) ∷ [])

  -- A request with no crc32 leaves the key out.
  unfoldable pub write_ota_start : OtaStartRequest → Value
  write_ota_start r =
      let crc : List (String × Value) = ("crc32", of_string (normalize_crc32 r.crc32)) ∷ [] in
      object (
        ("update_type", of_string r.update_type)
        ∷ ("component", of_string r.component)
        ∷ ("total_size", of_number r.total_size)
        ∷ (if str_eq r.crc32 "" then [] else crc))

  unfoldable pub write_update_type : String → Value
  write_update_type update_type = object (("update_type", of_string update_type) ∷ [])

  unfoldable pub write_keys : List String → Value
  write_keys keys = object (("keys", array (map of_string keys)) ∷ [])

  unfoldable pub write_mode : AccessMode → Value
  write_mode mode = object (("access_mode", of_number (mode_number mode)) ∷ [])
