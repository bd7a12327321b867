-- ===== src/Payload/Shi/Tests.antt =====
-- Runs of src/protocol/shi_parser.cpp on the payload without entries.
use afi920_sdk.Prelude.{◌≡◌, refl, [], replicate, ok}
use afi920_sdk.Endian.{byte, unpack_le32, unpack_le64}
use afi920_sdk.Payload.Header.{parse_common_header}
use afi920_sdk.Payload.Shi.{
  ShiMessage, copy, parse_modes, parse_signals, parse_calibration, shi_parse,
}
use afi920_sdk.Payload.Shi.Laws.{IsExact, shi_parse-IsExact}

abbrev no_entries : ShiMessage
no_entries = record {
  header = record {
    version_major = 0;
    version_minor = 0;
    version_patch = 0;
    interface_id = 0;
    num_serving_sensors = 0;
    sensor_id = 0;
    timestamp = 0;
    message_counter = 0;
    interface_cycle_time = 0;
    interface_cycle_time_variation = 0;
    data_qualifier = 0;
  };
  sensor_operation_modes = [];
  sensor_defect_recognised = 0;
  sensor_defect_reason = 0;
  supply_voltage_status = 0;
  sensor_temperature_status = 0;
  sensor_input_signal_types = [];
  sensor_input_signal_statuses = [];
  sensor_time_sync = 0;
  sensor_calibration_components = [];
  sensor_calibration_statuses = [];
  sensor_calibration_states = [];
}

parses : shi_parse (replicate 32 0) ≡ ok no_entries
unfolding shi_parse parse_common_header parse_modes parse_signals parse_calibration copy byte
    unpack_le32 unpack_le64
parses = refl

shi_parse-IsExact_example : IsExact (replicate 32 0) no_entries
shi_parse-IsExact_example = shi_parse-IsExact (replicate 32 0) parses
