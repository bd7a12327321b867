-- ===== src/Config/RoundTrip.antt =====
-- What src/config_api/config_client.cpp writes into a request, read back by its own reader: the keys and
-- the types of a Set and a Get agree.
use afi920_sdk.Prelude.{
  if_true, ltb_false→le, suc, sym, ℕ, ◌<◌, ◌^◌, ◌≡◌, refl, ap, ◌∙◌, List, [], ◌∷◌, ◌++◌,
  append_assoc, append-nil, map, length, Bool, true, false, Option, some, arith, ltb, ◌||◌, ◌&&◌,
  not, ◌==◌, if◌then◌else◌,
}
use Prim.Native.String.{String}
use afi920_sdk.Config.Json.{Json, IsJson, member}
use afi920_sdk.Config.Types.{NetworkConfig, DetectionThreshold, DetectionFilters}
use afi920_sdk.Config.Reads.{safe_value, value_or, or_default, read_detection_filters}
use afi920_sdk.Config.Tables.{
  check_threshold, read_network_config, read_stream_destination, read_detection_threshold,
  second_table, parse_cfar_table, read_table, read_levels, push_level, read_level, level_of,
}
use afi920_sdk.Config.Writes.{
  detection_filters_members, network_config_members, detection_threshold_members,
  write_network_config, write_detection_threshold, write_table, write_detection_filters,
  is_valid_threshold, is_valid_cfar_table, are_levels,
}

valid_parts :
    (n : ℕ) (ns : List ℕ)
    → are_levels (n ∷ ns) ≡ true
    → (ltb n 1 ≡ false) × (ltb 9 n ≡ false) × (are_levels ns ≡ true)
unfolding are_levels
valid_parts n ns v = ground (arith, v)

both : (a b : Bool) → (a && b) ≡ true → (a ≡ true) × (b ≡ true)
both true b e = (refl, e)
both false b e = absurd (cc)

four : (a b c d : Bool) → (a && b && c && d) ≡ true → ((a && b) ≡ true) × (c ≡ true) × (d ≡ true)
four a b c d e = ground (arith, e)

module _ (json : Json) (is : IsJson json) where
  open json use {Value, Real, find, object, get_string, get_bool, get_uint, get_real}
  open is use {finds, gets_string, gets_bool, gets_uint, gets_real, gets_int, numbers, lists}

  safe_value-object {ℓ} :
      {A : Type ℓ} (members : List (String × Value)) (get : Value → Option A) (key : String)
      (v : Value) (x d : A)
      → member members key ≡ some v
      → get v ≡ some x
      → safe_value json (object members) get key d ≡ x
  unfolding safe_value value_or or_default
  safe_value-object members get key v x d m g =
      ap (λ o. value_or json get o d) (finds members key ∙ m) ∙ ap (λ o. or_default json o d) g

  string_back :
      (members : List (String × Value)) (key x d : String)
      → member members key ≡ some (json.of_string x)
      → safe_value json (object members) get_string key d ≡ x
  string_back members key x d m =
      safe_value-object members get_string key (json.of_string x) x d m (gets_string x)

  bool_back :
      (members : List (String × Value)) (key : String) (x d : Bool)
      → member members key ≡ some (json.of_bool x)
      → safe_value json (object members) get_bool key d ≡ x
  bool_back members key x d m =
      safe_value-object members get_bool key (json.of_bool x) x d m (gets_bool x)

  real_back :
      (members : List (String × Value)) (key : String) (x d : Real)
      → member members key ≡ some (json.of_real x)
      → safe_value json (object members) get_real key d ≡ x
  real_back members key x d m =
      safe_value-object members get_real key (json.of_real x) x d m (gets_real x)

  number_back :
      (members : List (String × Value)) (key : String) (w x d : ℕ)
      → member members key ≡ some (json.of_number x)
      → x < 2 ^ w
      → safe_value json (object members) (get_uint w) key d ≡ x
  number_back members key w x d m l =
      safe_value-object members (get_uint w) key (json.of_number x) x d m (gets_uint w x l)

  -- SetDetectionFilters writes what GetDetectionFilters reads: all eight filters come back.
  pub read-write_detection_filters :
      (f : DetectionFilters) → read_detection_filters json (write_detection_filters json f) ≡ f
  unfolding read_detection_filters write_detection_filters
  read-write_detection_filters f =
      let sent = detection_filters_members json f in
      λ i. record {
        filter_ego_specular =
            bool_back sent "filter_ego_specular" f.filter_ego_specular false refl i;
        filter_ground_sidelobe =
            bool_back sent "filter_ground_sidelobe" f.filter_ground_sidelobe true refl i;
        filter_upper_structure =
            bool_back sent "filter_upper_structure" f.filter_upper_structure false refl i;
        filter_multibounce_2x =
            bool_back sent "filter_multibounce_2x" f.filter_multibounce_2x true refl i;
        filter_structure_multipath =
            bool_back sent "filter_structure_multipath" f.filter_structure_multipath true refl i;
        filter_specular_mirror =
            bool_back sent "filter_specular_mirror" f.filter_specular_mirror true refl i;
        filter_wheel_microdoppler =
            bool_back sent "filter_wheel_microdoppler" f.filter_wheel_microdoppler false refl i;
        filter_ground_reflection =
            bool_back sent "filter_ground_reflection" f.filter_ground_reflection false refl i;
      }

  -- SetNetworkConfig writes what GetNetworkConfig reads: all fourteen fields come back, if the ports and
  -- the VLAN id have 16 bits.
  pub read-write_network_config :
      (c : NetworkConfig)
      → c.api_port < 2 ^ 16
      → c.vlan_id < 2 ^ 16
      → c.detection.port < 2 ^ 16
      → c.health.port < 2 ^ 16
      → c.performance.port < 2 ^ 16
      → read_network_config json (write_network_config json c) ≡ c
  unfolding read_network_config read_stream_destination write_network_config
  read-write_network_config c p q r s t =
      let sent = network_config_members json c in
      λ i. record {
        ip_address = string_back sent "ip_address" c.ip_address "" refl i;
        subnet_mask = string_back sent "subnet_mask" c.subnet_mask "" refl i;
        gateway = string_back sent "gateway" c.gateway "" refl i;
        api_port = number_back sent "api_port" 16 c.api_port 30500 refl p i;
        vlan_id = number_back sent "vlan_id" 16 c.vlan_id 0 refl q i;
        detection = record {
          ip = string_back sent "detection_ip" c.detection.ip "" refl i;
          port = number_back sent "detection_port" 16 c.detection.port 30509 refl r i;
          protocol = string_back sent "detection_protocol" c.detection.protocol "tcp" refl i;
        };
        health = record {
          ip = string_back sent "health_ip" c.health.ip "" refl i;
          port = number_back sent "health_port" 16 c.health.port 30510 refl s i;
          protocol = string_back sent "health_protocol" c.health.protocol "tcp" refl i;
        };
        performance = record {
          ip = string_back sent "performance_ip" c.performance.ip "" refl i;
          port = number_back sent "performance_port" 16 c.performance.port 30511 refl t i;
          protocol = string_back sent "performance_protocol" c.performance.protocol "tcp" refl i;
        };
      }

  length-map : (table : List ℕ) → length (map json.of_number table) ≡ length table
  length-map [] = refl
  length-map (n ∷ ns) = ap suc (length-map ns)

  -- A level of a valid table is read back.
  read_level-written :
      (n : ℕ) → ltb n 1 ≡ false → ltb 9 n ≡ false → read_level json (json.of_number n) ≡ some n
  unfolding read_level level_of
  read_level-written n l h =
      rw (numbers n, gets_int n (omega (arith, ltb_false→le h))) (ground (arith, l, h))

  read_levels-written :
      (table out : List ℕ)
      → are_levels table ≡ true
      → read_levels json (map json.of_number table) out ≡ (true, out ++ table)
  unfolding read_levels push_level are_levels
  read_levels-written [] out v = ap (λ l. (true, l)) (sym (append-nil out))
  read_levels-written (n ∷ ns) out v =
      let p = valid_parts n ns v in
      ap (push_level json (read_levels json (map json.of_number ns)) out)
        (read_level-written n p.0 p.1)
      ∙ read_levels-written ns (out ++ (n ∷ [])) p.2
      ∙ ap (λ l. (true, l)) (append_assoc out (n ∷ []) ns)

  table_back :
      (table out : List ℕ)
      → is_valid_cfar_table table ≡ true
      → parse_cfar_table json (some (write_table json table)) out ≡ (true, table)
  unfolding parse_cfar_table read_table is_valid_cfar_table
  table_back table out v =
      let p = both (length table == 19) (are_levels table) v in
      ap (λ o. read_table json o out) (lists (map json.of_number table))
      ∙ if_true (length (map json.of_number table) == 19) _ _
          (ap (λ n. n == 19) (length-map table) ∙ p.0)
      ∙ read_levels-written table [] p.1

  -- A valid threshold, checked as it was written.
  check_threshold-written :
      (t out : DetectionThreshold Real)
      (snr : json.is_finite t.snr_db && json.within_levels t.snr_db ≡ true)
      → is_valid_cfar_table t.cfar_table_first_frame ≡ true
      → (second : Option Value)
      → check_threshold json t.snr_db (some (write_table json t.cfar_table_first_frame)) second out
        ≡ second_table json second
            (record out { snr_db = t.snr_db; cfar_table_first_frame = t.cfar_table_first_frame })
  unfolding check_threshold
  check_threshold-written t out snr v second =
      rw (snr, table_back t.cfar_table_first_frame out.cfar_table_first_frame v) refl

  -- What the second key of the request reads as.
  second_back :
      (has : Bool) (t out : DetectionThreshold Real)
      → t.has_cfar_table_second_frame ≡ has
      → (not has || is_valid_cfar_table t.cfar_table_second_frame) ≡ true
      → second_table json
          (member
            (detection_threshold_members json (record t { has_cfar_table_second_frame = has }))
            "cfar_table_second_frame")
          (record out { snr_db = t.snr_db; cfar_table_first_frame = t.cfar_table_first_frame })
        ≡ (
          true,
          record {
            snr_db = t.snr_db;
            cfar_table_first_frame = t.cfar_table_first_frame;
            cfar_table_second_frame = if has then t.cfar_table_second_frame else [];
            has_cfar_table_second_frame = has;
          },
        )
  unfolding second_table
  second_back true t out e v =
      rw (table_back t.cfar_table_second_frame out.cfar_table_second_frame v) refl
  second_back false t out e v = refl

  -- SetDetectionThreshold writes what GetDetectionThreshold accepts: for a threshold that the Set lets
  -- through, the Get reads the level and the first table back, and the second where the mode has
  -- one; without one it reads an empty second table. Whatever the output held before.
  pub read-write_detection_threshold :
      (t out : DetectionThreshold Real)
      → is_valid_threshold json t ≡ true
      → read_detection_threshold json (write_detection_threshold json t) out ≡ (
        true,
        record {
          snr_db = t.snr_db;
          cfar_table_first_frame = t.cfar_table_first_frame;
          cfar_table_second_frame =
              if t.has_cfar_table_second_frame then t.cfar_table_second_frame else [];
          has_cfar_table_second_frame = t.has_cfar_table_second_frame;
        },
      )
  unfolding read_detection_threshold write_detection_threshold is_valid_threshold
  read-write_detection_threshold t out v =
      let sent = detection_threshold_members json t in
      let p =
        four (json.is_finite t.snr_db) (json.within_levels t.snr_db)
          (is_valid_cfar_table t.cfar_table_first_frame)
          (not t.has_cfar_table_second_frame || is_valid_cfar_table t.cfar_table_second_frame) v in
      (λ i.
        check_threshold json (real_back sent "snr_threshold_db" t.snr_db json.real_zero refl i)
          (finds sent "cfar_table_first_frame" i) (finds sent "cfar_table_second_frame" i) out)
      ∙ check_threshold-written t out p.0 p.1 _
      ∙ second_back t.has_cfar_table_second_frame t out refl p.2
