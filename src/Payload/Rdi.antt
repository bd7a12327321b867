-- ===== src/Payload/Rdi.antt =====
-- src/protocol/rdi_parser.cpp: the radar detection list. A float is its 32-bit pattern, and the
-- frame's detection pointer is the list of its detections.
pub mod Laws
mod Tests
use afi920_sdk.Prelude.{
  ℕ, zero, suc, ◌+◌, ◌*◌, List, [], ◌∷◌, length, drop, ltb, ◌!=◌, Outcome, ok, reject_if, ◌>>=◌,
  ◌>>◌,
}
use afi920_sdk.Endian.{byte, unpack_le16, unpack_le_f32}
use afi920_sdk.Payload.Header.{CommonHeader, parse_common_header}

-- BTS_RDI_HEADER_SIZE, BTS_RDI_DETECTION_SIZE and BTS_RDI_MAX_DETECTIONS of the interface headers
abbrev pub rdi_header_size : ℕ
rdi_header_size = 36

abbrev pub rdi_detection_size : ℕ
rdi_detection_size = 51

abbrev pub rdi_max_detections : ℕ
rdi_max_detections = 8192

pub record RdiDetection : Type 0 where
  pub existence_probability : ℕ
  pub detection_id : ℕ
  pub object_id_reference : ℕ
  pub timestamp_difference : ℕ
  pub radar_cross_section : ℕ
  pub signal_to_noise_ratio : ℕ
  pub ambiguity_grouping_id : ℕ
  pub position_radial_distance : ℕ
  pub position_azimuth : ℕ
  pub position_elevation : ℕ
  pub position_radial_distance_error : ℕ
  pub position_azimuth_error : ℕ
  pub position_elevation_error : ℕ
  pub relative_velocity_radial : ℕ
  pub relative_velocity_radial_error : ℕ

pub record RdiMessage : Type 0 where
  pub header : CommonHeader
  pub radial_velocity_begin : ℕ
  pub radial_velocity_end : ℕ
  pub recognised_detections_capability : ℕ
  pub num_detections : ℕ
  pub detections : List RdiDetection

-- `d` is the buffer from the detection on.
unfoldable pub parse_detection : List ℕ → Outcome RdiDetection
parse_detection d = do
  existence_probability ← byte d 0
  detection_id ← unpack_le16 d 1
  object_id_reference ← unpack_le16 d 3
  timestamp_difference ← unpack_le_f32 d 5
  radar_cross_section ← unpack_le_f32 d 9
  signal_to_noise_ratio ← unpack_le_f32 d 13
  ambiguity_grouping_id ← unpack_le16 d 17
  radial_distance ← unpack_le_f32 d 19
  azimuth ← unpack_le_f32 d 23
  elevation ← unpack_le_f32 d 27
  radial_distance_error ← unpack_le_f32 d 31
  azimuth_error ← unpack_le_f32 d 35
  elevation_error ← unpack_le_f32 d 39
  velocity_radial ← unpack_le_f32 d 43
  velocity_radial_error ← unpack_le_f32 d 47
  ok (record {
    existence_probability = existence_probability;
    detection_id = detection_id;
    object_id_reference = object_id_reference;
    timestamp_difference = timestamp_difference;
    radar_cross_section = radar_cross_section;
    signal_to_noise_ratio = signal_to_noise_ratio;
    ambiguity_grouping_id = ambiguity_grouping_id;
    position_radial_distance = radial_distance;
    position_azimuth = azimuth;
    position_elevation = elevation;
    position_radial_distance_error = radial_distance_error;
    position_azimuth_error = azimuth_error;
    position_elevation_error = elevation_error;
    relative_velocity_radial = velocity_radial;
    relative_velocity_radial_error = velocity_radial_error;
  })

-- The loop at index `i`, with `left` detections to go.
unfoldable pub parse_detections : List ℕ → ℕ → ℕ → Outcome (List RdiDetection)
parse_detections payload i zero = ok []
parse_detections payload i (suc left) = do
  det ← parse_detection (drop (rdi_header_size + i * rdi_detection_size) payload)
  rest ← parse_detections payload (i + 1) left
  ok (det ∷ rest)

-- `Parse`; `reject` is its -1.
unfoldable pub rdi_parse : List ℕ → Outcome RdiMessage
rdi_parse payload = do
  reject_if (ltb (length payload) rdi_header_size)
  header ← parse_common_header payload
  velocity_begin ← unpack_le_f32 payload 24
  velocity_end ← unpack_le_f32 payload 28
  capability ← unpack_le16 payload 32
  num_detections ← unpack_le16 payload 34
  reject_if (ltb rdi_max_detections num_detections)
  reject_if (length payload != rdi_header_size + num_detections * rdi_detection_size)
  detections ← parse_detections payload 0 num_detections
  ok (record {
    header = header;
    radial_velocity_begin = velocity_begin;
    radial_velocity_end = velocity_end;
    recognised_detections_capability = capability;
    num_detections = num_detections;
    detections = detections;
  })
