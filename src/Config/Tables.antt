-- ===== src/Config/Tables.antt =====
-- The answers that src/config_api/config_client.cpp checks while it reads them: the CFAR tables, the
-- network configuration, and the access mode.
use Prim.Native.String.{String, ◌++◌ as text_append}
use afi920_sdk.Prelude.{
  ℕ, List, [], ◌∷◌, ◌++◌, Bool, true, false, not, ◌&&◌, ◌||◌, Option, none, some, length, ltb, ◌==◌,
  ◌!=◌, if◌then◌else◌,
}
use afi920_sdk.Config.Json.{Json, ℤ, pos, negsuc}
use afi920_sdk.Config.Types.{
  StreamDestination, NetworkConfig, DetectionThreshold, ModeStatus, AccessMode, normal, diagnostic,
  programming,
}
use afi920_sdk.Config.Reads.{safe_value}

module _ (json : Json) where
  open json use {
    Value, Real, find, elements, is_integer, get_string, get_uint, get_int, get_real, real_zero,
    is_finite, within_levels,
  }

  -- A level of a CFAR table: an integer from 1 to 9.
  unfoldable pub level_of : Option ℤ → Option ℕ
  level_of none = none
  level_of (some (negsuc n)) = none
  level_of (some (pos n)) = if ltb n 1 || ltb 9 n then none else some n

  unfoldable pub read_level : Value → Option ℕ
  read_level v = if is_integer v then level_of (get_int 32 v) else none

  unfoldable pub push_level : (List ℕ → Bool × List ℕ) → List ℕ → Option ℕ → Bool × List ℕ
  push_level later out none = (false, out)
  push_level later out (some n) = later (out ++ (n ∷ []))

  -- The loop of `parse_cfar_table`: what it leaves in `out`, and whether it read every level.
  unfoldable pub read_levels : List Value → List ℕ → Bool × List ℕ
  read_levels [] out = (true, out)
  read_levels (v ∷ vs) out = push_level (read_levels vs) out (read_level v)

  unfoldable pub read_table : Option (List Value) → List ℕ → Bool × List ℕ
  read_table none out = (false, out)
  read_table (some items) out = if length items == 19 then read_levels items [] else (false, out)

  unfoldable pub parse_cfar_table : Option Value → List ℕ → Bool × List ℕ
  parse_cfar_table none out = (false, out)
  parse_cfar_table (some v) out = read_table (elements v) out

  -- `parse_stream_destination`
  unfoldable pub read_stream_destination : Value → String → ℕ → StreamDestination
  read_stream_destination j prefix default_port = record {
    ip = safe_value json j get_string (text_append prefix "_ip") "";
    port = safe_value json j (get_uint 16) (text_append prefix "_port") default_port;
    protocol = safe_value json j get_string (text_append prefix "_protocol") "tcp";
  }

  unfoldable pub read_network_config : Value → NetworkConfig
  read_network_config j = record {
    ip_address = safe_value json j get_string "ip_address" "";
    subnet_mask = safe_value json j get_string "subnet_mask" "";
    gateway = safe_value json j get_string "gateway" "";
    api_port = safe_value json j (get_uint 16) "api_port" 30500;
    vlan_id = safe_value json j (get_uint 16) "vlan_id" 0;
    detection = read_stream_destination j "detection" 30509;
    health = read_stream_destination j "health" 30510;
    performance = read_stream_destination j "performance" 30511;
  }

  -- What GetDetectionThreshold makes of an answer: whether it is accepted, and what it leaves.
  unfoldable pub second_table :
      Option Value → DetectionThreshold Real → Bool × DetectionThreshold Real
  second_table none t =
      (true, record t { has_cfar_table_second_frame = false; cfar_table_second_frame = [] })
  second_table (some v) t =
      let r = parse_cfar_table (some v) t.cfar_table_second_frame in
      (r.0, record t { has_cfar_table_second_frame = true; cfar_table_second_frame = r.1 })

  -- The checks of GetDetectionThreshold, given the level and the two keys.
  unfoldable pub check_threshold :
      Real → Option Value → Option Value → DetectionThreshold Real → Bool × DetectionThreshold Real
  check_threshold snr first_key second_key out =
      let leveled : DetectionThreshold Real = record out { snr_db = snr } in
      let first = parse_cfar_table first_key out.cfar_table_first_frame in
      let tabled : DetectionThreshold Real = record leveled { cfar_table_first_frame = first.1 } in
      if not (is_finite snr && within_levels snr)
      then (false, leveled)
      else if not first.0
      then (false, tabled)
      else second_table second_key tabled

  unfoldable pub read_detection_threshold :
      Value → DetectionThreshold Real → Bool × DetectionThreshold Real
  read_detection_threshold j out =
      check_threshold (safe_value json j get_real "snr_threshold_db" real_zero)
        (find j "cfar_table_first_frame") (find j "cfar_table_second_frame") out

  -- The access mode of an answer, with none for a number that is no mode.
  unfoldable pub mode_of : ℤ → Option AccessMode
  mode_of (negsuc n) = none
  mode_of (pos n) =
      if n == 0
      then some normal
      else if n == 1
      then some diagnostic
      else if n == 2
      then some programming
      else none

  unfoldable pub is_nonzero : ℤ → Bool
  is_nonzero (negsuc n) = true
  is_nonzero (pos n) = n != 0

  -- `parse_mode_status`, with none for its false
  unfoldable pub mode_status : Value → Option AccessMode → Option ModeStatus
  mode_status j none = none
  mode_status j (some mode) = some (record {
    access_mode = mode;
    access_mode_name = safe_value json j get_string "access_mode_name" "";
    elapsed_ms = safe_value json j (get_uint 32) "elapsed_ms" 0;
    streams_halted = is_nonzero (safe_value json j (get_int 32) "streams_halted" (pos 0));
  })

  unfoldable pub parse_mode_status : Value → Option ModeStatus
  parse_mode_status j =
      mode_status j (mode_of (safe_value json j (get_int 32) "access_mode" (negsuc 0)))
