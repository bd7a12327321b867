-- ===== src/Payload/Rdi/Tests.antt =====
-- Runs of src/protocol/rdi_parser.cpp on the empty detection list.
use afi920_sdk.Prelude.{◌≡◌, refl, [], replicate, ok}
use afi920_sdk.Endian.{byte, unpack_le16, unpack_le32, unpack_le64, unpack_le_f32}
use afi920_sdk.Payload.Header.{parse_common_header}
use afi920_sdk.Payload.Rdi.{RdiMessage, parse_detections, rdi_parse}
use afi920_sdk.Payload.Rdi.Laws.{IsExact, rdi_parse-IsExact}

abbrev no_detections : RdiMessage
no_detections = record {
  header = record {
    version_major = 0;
    version_minor = 0;
    version_patch = 0;
    interface_id = 0;
    num_serving_sensors = 0;
    sensor_id = 0;
    timestamp = 0;
    message_counter = 0;
    interface_cycle_time = 0;
    interface_cycle_time_variation = 0;
    data_qualifier = 0;
  };
  radial_velocity_begin = 0;
  radial_velocity_end = 0;
  recognised_detections_capability = 0;
  num_detections = 0;
  detections = [];
}

parses : rdi_parse (replicate 36 0) ≡ ok no_detections
unfolding rdi_parse parse_common_header parse_detections byte unpack_le16 unpack_le32 unpack_le64
    unpack_le_f32
parses = refl

rdi_parse-IsExact_example : IsExact (replicate 36 0) no_detections
rdi_parse-IsExact_example = rdi_parse-IsExact (replicate 36 0) parses
