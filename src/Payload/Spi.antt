-- ===== src/Payload/Spi.antt =====
-- src/protocol/spi_parser.cpp: the sensor performance message. A float is its 32-bit pattern, and
-- an array field with its count is the list of the entries that count.
pub mod Laws
mod Tests
use afi920_sdk.Prelude.{
  ℕ, zero, suc, ◌+◌, ◌-◌, ◌/◌, List, [], ◌∷◌, length, ltb, leb, ◌!=◌, Outcome, ok, reject_if, ◌>>=◌,
  ◌>>◌,
}
use afi920_sdk.Endian.{byte, unpack_le_f32}
use afi920_sdk.Payload.Header.{CommonHeader, parse_common_header}

-- kSpiMinSize and the BTS_SPI_ constants of the interface headers
abbrev pub spi_min_size : ℕ
spi_min_size = 60

abbrev pub spi_max_fov_segments : ℕ
spi_max_fov_segments = 16

abbrev pub spi_max_object_types : ℕ
spi_max_object_types = 16

abbrev pub spi_max_ref_targets : ℕ
spi_max_ref_targets = 16

abbrev pub spi_fov_segment_size : ℕ
spi_fov_segment_size = 17

abbrev pub spi_object_type_size : ℕ
spi_object_type_size = 9

abbrev pub spi_ref_target_size : ℕ
spi_ref_target_size = 16

pub record SensorPose : Type 0 where
  pub origin_point_x : ℕ
  pub origin_point_y : ℕ
  pub origin_point_z : ℕ
  pub orientation_yaw : ℕ
  pub orientation_pitch : ℕ
  pub orientation_roll : ℕ
  pub orientation_error_yaw : ℕ
  pub orientation_error_pitch : ℕ

pub record FovSegment : Type 0 where
  pub azimuth_begin : ℕ
  pub azimuth_end : ℕ
  pub elevation_begin : ℕ
  pub elevation_end : ℕ
  pub blockage_status : ℕ

pub record ObjectType : Type 0 where
  pub object_type : ℕ
  pub detection_range_begin : ℕ
  pub detection_range_end : ℕ

pub record RefTarget : Type 0 where
  pub radar_cross_section : ℕ
  pub detection_range_begin : ℕ
  pub detection_range_end : ℕ
  pub signal_to_noise_ratio : ℕ

pub record SpiMessage : Type 0 where
  pub header : CommonHeader
  pub vehicle_coordinate_system : ℕ
  pub sensor_pose : SensorPose
  pub fov_segments : List FovSegment
  pub recognisable_object_types : List ObjectType
  pub reference_target_types : List RefTarget

unfoldable pub parse_pose : List ℕ → ℕ → Outcome SensorPose
parse_pose p offset = do
  x ← unpack_le_f32 p offset
  y ← unpack_le_f32 p (offset + 4)
  z ← unpack_le_f32 p (offset + 8)
  yaw ← unpack_le_f32 p (offset + 12)
  pitch ← unpack_le_f32 p (offset + 16)
  roll ← unpack_le_f32 p (offset + 20)
  error_yaw ← unpack_le_f32 p (offset + 24)
  error_pitch ← unpack_le_f32 p (offset + 28)
  ok (record {
    origin_point_x = x;
    origin_point_y = y;
    origin_point_z = z;
    orientation_yaw = yaw;
    orientation_pitch = pitch;
    orientation_roll = roll;
    orientation_error_yaw = error_yaw;
    orientation_error_pitch = error_pitch;
  })

-- The bodies of the three loops, at the offset of their entry.
unfoldable pub parse_fov_segment : List ℕ → ℕ → Outcome FovSegment
parse_fov_segment p offset = do
  azimuth_begin ← unpack_le_f32 p offset
  azimuth_end ← unpack_le_f32 p (offset + 4)
  elevation_begin ← unpack_le_f32 p (offset + 8)
  elevation_end ← unpack_le_f32 p (offset + 12)
  blockage_status ← byte p (offset + 16)
  ok (record {
    azimuth_begin = azimuth_begin;
    azimuth_end = azimuth_end;
    elevation_begin = elevation_begin;
    elevation_end = elevation_end;
    blockage_status = blockage_status;
  })

unfoldable pub parse_object_type : List ℕ → ℕ → Outcome ObjectType
parse_object_type p offset = do
  object_type ← byte p offset
  range_begin ← unpack_le_f32 p (offset + 1)
  range_end ← unpack_le_f32 p (offset + 5)
  ok (record {
    object_type = object_type;
    detection_range_begin = range_begin;
    detection_range_end = range_end;
  })

unfoldable pub parse_ref_target : List ℕ → ℕ → Outcome RefTarget
parse_ref_target p offset = do
  cross_section ← unpack_le_f32 p offset
  range_begin ← unpack_le_f32 p (offset + 4)
  range_end ← unpack_le_f32 p (offset + 8)
  noise_ratio ← unpack_le_f32 p (offset + 12)
  ok (record {
    radar_cross_section = cross_section;
    detection_range_begin = range_begin;
    detection_range_end = range_end;
    signal_to_noise_ratio = noise_ratio;
  })

-- A loop over `n` entries of `size` bytes each: the entries, and the offset behind them.
unfoldable pub parse_entries {ℓ} :
    {A : Type ℓ} → (List ℕ → ℕ → Outcome A) → ℕ → List ℕ → ℕ → ℕ → Outcome (List A × ℕ)
parse_entries entry size p offset zero = ok ([], offset)
parse_entries entry size p offset (suc n) = do
  first ← entry p offset
  rest ← parse_entries entry size p (offset + size) n
  ok (first ∷ rest.0, rest.1)

-- The count byte, its two checks, and the loop.
unfoldable pub parse_counted {ℓ} :
    {A : Type ℓ} → (List ℕ → ℕ → Outcome A) → ℕ → ℕ → List ℕ → ℕ → Outcome (List A × ℕ)
parse_counted entry size most p offset = do
  n ← byte p offset
  reject_if (ltb most n)
  reject_if (ltb ((length p - (offset + 1)) / size) n)
  parse_entries entry size p (offset + 1) n

-- `Parse`; `reject` is its -1.
unfoldable pub spi_parse : List ℕ → Outcome SpiMessage
spi_parse p = do
  reject_if (ltb (length p) spi_min_size)
  header ← parse_common_header p
  vehicle_coordinate_system ← byte p 24
  pose ← parse_pose p 25
  fov ← parse_counted parse_fov_segment spi_fov_segment_size spi_max_fov_segments p 57
  reject_if (leb (length p) fov.1)
  objects ← parse_counted parse_object_type spi_object_type_size spi_max_object_types p fov.1
  reject_if (leb (length p) objects.1)
  targets ← parse_counted parse_ref_target spi_ref_target_size spi_max_ref_targets p objects.1
  reject_if (targets.1 != length p)
  ok (record {
    header = header;
    vehicle_coordinate_system = vehicle_coordinate_system;
    sensor_pose = pose;
    fov_segments = fov.0;
    recognisable_object_types = objects.0;
    reference_target_types = targets.0;
  })
