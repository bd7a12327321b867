-- ===== src/Config/Tests.antt =====
-- Runs of src/config_api/ with a small JSON library and a sensor in memory.
pub mod Memory
use Prim.Native.String.{String}
use afi920_sdk.Prelude.{
  sym, ap, ◌∙◌, ℕ, ◌≡◌, refl, List, [], ◌∷◌, Bool, true, false, Option, none, some, arith, ◌==◌,
  ◌⊎◌, inl, inr, if◌then◌else◌, replicate,
}
use afi920_sdk.Someip.Methods.{method_code, get_mode, set_mode, reset_all_settings}
use afi920_sdk.Error.{error_from_return_code, not_supported, invalid_param}
use afi920_sdk.E2e.Tests.{test_headers}
use afi920_sdk.Transport.Tests.InMemory.{in_memory}
use afi920_sdk.Transport.Tests.TcpClientRuns.{legacy_client, answering}
use afi920_sdk.Transport.TcpClient.Wire.{Reply, tcp_ok}
use afi920_sdk.Config.Json.{pos}
use afi920_sdk.Config.Types.{
  SensorResult, AccessMode, normal, diagnostic, programming, ModeStatus, NetworkConfig,
  StreamDestination, DetectionThreshold, DetectionFilters,
}
use afi920_sdk.Config.Reads.{safe_value, value_or, or_default, read_detection_filters}
use afi920_sdk.Config.Tables.{
  parse_mode_status, mode_status, mode_of, read_network_config, read_detection_threshold,
}
use afi920_sdk.Config.Writes.{
  write_mode, mode_number, write_detection_filters, write_network_config, write_detection_threshold,
  is_valid_threshold, is_valid_cfar_table, are_levels,
}
use afi920_sdk.Config.Exchange.{
  Link, Client, no_result, exchange, answered, judge_parsed, judge, finish, parse_body, body_code,
  value_or_object, error_of, send_json_request, send_empty_request,
}
use afi920_sdk.Config.Calls.{is_success}
use afi920_sdk.Config.Mode.{enter_mode, initial_status}
use afi920_sdk.Config.Mode.Climb.{IsSensor, Climbs, enter_mode-Climbs}
use afi920_sdk.Config.RoundTrip.{
  read-write_detection_filters, read-write_network_config, read-write_detection_threshold,
}
use afi920_sdk.Config.Legacy.{tcp_link}
use afi920_sdk.Config.Legacy.Calls.{
  ConfigCall, run, reset_all_settings_call, set_ptp_config_call, set_network_config_call,
  set_mode_call, enter_mode_call, firmware_data_chunk_call,
}
use afi920_sdk.Config.Legacy.Quiet.{run-legacy}
use afi920_sdk.Config.Tests.Memory.{memory_json, memory_json-IsJson}

-- The sensor's answer: its mode, or return code 1 for a mode that it does not enter.
abbrev mode_reply : AccessMode → Reply × AccessMode
mode_reply m =
    (record { result = tcp_ok; return_code = 0; response = mode_number m ∷ []; legacy = false }, m)

abbrev refusal : AccessMode → Reply × AccessMode
refusal m = (record { result = tcp_ok; return_code = 1; response = []; legacy = false }, m)

abbrev enter : ℕ → AccessMode → Reply × AccessMode
enter n m =
    if n == 1 then mode_reply diagnostic else if n == 2 then mode_reply programming else refusal m

abbrev sensor_answer : Bool → List ℕ → AccessMode → Reply × AccessMode
sensor_answer true body m = mode_reply m
sensor_answer false [] m = refusal m
sensor_answer false (n ∷ ns) m = enter n m

abbrev memory_link : Link
memory_link = record {
  State = AccessMode;
  has_endpoint = λ m. true;
  send_request = λ method body m. sensor_answer (method == 0x00E0) body m;
  last_response_e2e_ok = λ m. true;
}

asked_lem :
    (m : AccessMode) (c : Client memory_json memory_link)
    → c.tcp ≡ m
    → (send_empty_request memory_json memory_link get_mode c).client.tcp ≡ m
unfolding send_empty_request send_json_request exchange answered judge_parsed judge finish
    parse_body method_code
asked_lem m c e = e

-- The mode of a status, when there is one.
abbrev mode_in : Option ModeStatus → AccessMode
mode_in none = normal
mode_in (some s) = s.access_mode

reports_lem :
    (m : AccessMode) (result : SensorResult) (s : ModeStatus)
    → parse_mode_status memory_json
        (send_empty_request memory_json memory_link get_mode
          (record { tcp = m; last_result = result })).content
      ≡ some s
    → s.access_mode ≡ m
unfolding send_empty_request send_json_request exchange answered judge_parsed judge finish
    parse_body method_code body_code value_or_object parse_mode_status mode_status mode_of
    safe_value value_or or_default
reports_lem normal result s p = ap mode_in (sym p)
reports_lem diagnostic result s p = ap mode_in (sym p)
reports_lem programming result s p = ap mode_in (sym p)

obeys_lem :
    (m : AccessMode) (c : Client memory_json memory_link)
    → ((send_json_request memory_json memory_link set_mode (write_mode memory_json m) c).client.tcp
        ≡ m)
      ⊎ ((is_success
              (send_json_request memory_json memory_link set_mode
                (write_mode memory_json m)
                c).error
            ≡ false)
          × ((send_json_request memory_json memory_link set_mode
                (write_mode memory_json m)
                c).client.tcp
              ≡ c.tcp))
unfolding send_json_request exchange answered judge_parsed judge finish parse_body method_code
    body_code write_mode error_of error_from_return_code
obeys_lem normal c = inr (refl, refl)
obeys_lem diagnostic c = inl refl
obeys_lem programming c = inl refl

abbrev memory_link-IsSensor : IsSensor memory_json memory_link
memory_link-IsSensor = record {
  mode = λ m. m;
  asked = λ c. asked_lem c.tcp c refl;
  reports = λ c s good e. reports_lem c.tcp c.last_result s e;
  obeys = obeys_lem;
}

abbrev normal_client : Client memory_json memory_link
normal_client = record { tcp = normal; last_result = no_result }

enter_mode-Climbs_example :
    Climbs memory_json memory_link memory_link-IsSensor normal programming
      (enter_mode memory_json memory_link programming normal_client)
enter_mode-Climbs_example =
    enter_mode-Climbs memory_json memory_link memory_link-IsSensor programming normal_client

abbrev some_filters : DetectionFilters
some_filters = record {
  filter_ego_specular = true;
  filter_ground_sidelobe = false;
  filter_upper_structure = true;
  filter_multibounce_2x = false;
  filter_structure_multipath = true;
  filter_specular_mirror = false;
  filter_wheel_microdoppler = true;
  filter_ground_reflection = false;
}

abbrev some_network : NetworkConfig
some_network = record {
  ip_address = "10.0.0.2";
  subnet_mask = "255.255.255.0";
  gateway = "10.0.0.1";
  api_port = 30500;
  vlan_id = 7;
  detection = record { ip = "10.0.0.9"; port = 30509; protocol = "udp" };
  health = record { ip = "10.0.0.9"; port = 30510; protocol = "tcp" };
  performance = record { ip = "10.0.0.8"; port = 65535; protocol = "udp" };
}

read-write_network_config_example :
    read_network_config memory_json (write_network_config memory_json some_network) ≡ some_network
read-write_network_config_example =
    read-write_network_config memory_json memory_json-IsJson some_network (omega arith)
      (omega arith) (omega arith) (omega arith) (omega arith)

abbrev some_threshold : DetectionThreshold ℕ
some_threshold = record {
  snr_db = 4;
  cfar_table_first_frame = replicate 19 3;
  cfar_table_second_frame = replicate 19 9;
  has_cfar_table_second_frame = true;
}

abbrev old_threshold : DetectionThreshold ℕ
old_threshold = record {
  snr_db = 1;
  cfar_table_first_frame = [];
  cfar_table_second_frame = [];
  has_cfar_table_second_frame = false;
}

some_threshold-valid : is_valid_threshold memory_json some_threshold ≡ true
unfolding is_valid_threshold is_valid_cfar_table are_levels
some_threshold-valid = refl

read-write_detection_threshold_example :
    read_detection_threshold memory_json
      (write_detection_threshold memory_json some_threshold)
      old_threshold
    ≡ (true, some_threshold)
read-write_detection_threshold_example =
    read-write_detection_threshold memory_json memory_json-IsJson some_threshold old_threshold
      some_threshold-valid

abbrev legacy_config : Client memory_json (tcp_link in_memory test_headers)
legacy_config = record { tcp = legacy_client; last_result = no_result }

abbrev some_calls : List (ConfigCall memory_json)
some_calls =
    reset_all_settings_call
    ∷ set_ptp_config_call 3 false
    ∷ set_network_config_call some_network false
    ∷ set_mode_call normal initial_status
    ∷ enter_mode_call programming
    ∷ firmware_data_chunk_call none 8 (record { received_bytes = 0; total_bytes = 0 })
    ∷ []

run-legacy_example :
    ((run memory_json in_memory test_headers some_calls legacy_config).0
      ≡ not_supported ∷ invalid_param ∷ not_supported ∷ invalid_param ∷ not_supported
        ∷ invalid_param ∷ [])
    × ((run memory_json in_memory test_headers some_calls legacy_config).1.tcp.world ≡ answering)
run-legacy_example =
    run-legacy memory_json in_memory test_headers some_calls legacy_config refl refl
