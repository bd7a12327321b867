-- ===== src/Payload/Spi/Tests.antt =====
-- Runs of src/protocol/spi_parser.cpp on the payload without entries.
use afi920_sdk.Prelude.{◌≡◌, refl, [], replicate, ok}
use afi920_sdk.Endian.{byte, unpack_le32, unpack_le64, unpack_le_f32}
use afi920_sdk.Payload.Header.{parse_common_header}
use afi920_sdk.Payload.Spi.{SpiMessage, parse_pose, parse_entries, parse_counted, spi_parse}
use afi920_sdk.Payload.Spi.Laws.{IsExact, spi_parse-IsExact}

abbrev no_entries : SpiMessage
no_entries = record {
  header = record {
    version_major = 0;
    version_minor = 0;
    version_patch = 0;
    interface_id = 0;
    num_serving_sensors = 0;
    sensor_id = 0;
    timestamp = 0;
    message_counter = 0;
    interface_cycle_time = 0;
    interface_cycle_time_variation = 0;
    data_qualifier = 0;
  };
  vehicle_coordinate_system = 0;
  sensor_pose = record {
    origin_point_x = 0;
    origin_point_y = 0;
    origin_point_z = 0;
    orientation_yaw = 0;
    orientation_pitch = 0;
    orientation_roll = 0;
    orientation_error_yaw = 0;
    orientation_error_pitch = 0;
  };
  fov_segments = [];
  recognisable_object_types = [];
  reference_target_types = [];
}

parses : spi_parse (replicate 60 0) ≡ ok no_entries
unfolding spi_parse parse_common_header parse_pose parse_entries parse_counted byte unpack_le32
    unpack_le64 unpack_le_f32
parses = refl

spi_parse-IsExact_example : IsExact (replicate 60 0) no_entries
spi_parse-IsExact_example = spi_parse-IsExact (replicate 60 0) parses
