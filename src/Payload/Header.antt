-- ===== src/Payload/Header.antt =====
-- The 24-byte common interface header, which rdi_parser.cpp, shi_parser.cpp and spi_parser.cpp in
-- src/protocol read by the same statements. Enumeration fields keep the byte that was cast.
use afi920_sdk.Prelude.{
  ℕ, ◌≤◌, List, length, arith, Outcome, ok, ◌>>=◌, IsSafe, ok_safe, >>=-IsSafe,
}
use afi920_sdk.Endian.{byte, unpack_le32, unpack_le64}
use afi920_sdk.Endian.Laws.{byte-IsSafe, unpack_le32-IsSafe, unpack_le64-IsSafe}

pub record CommonHeader : Type 0 where
  pub version_major : ℕ
  pub version_minor : ℕ
  pub version_patch : ℕ
  pub interface_id : ℕ
  pub num_serving_sensors : ℕ
  pub sensor_id : ℕ
  pub timestamp : ℕ
  pub message_counter : ℕ
  pub interface_cycle_time : ℕ
  pub interface_cycle_time_variation : ℕ
  pub data_qualifier : ℕ

abbrev pub common_header_size : ℕ
common_header_size = 24

unfoldable pub parse_common_header : List ℕ → Outcome CommonHeader
parse_common_header p = do
  major ← byte p 0
  minor ← byte p 1
  patch ← byte p 2
  interface_id ← byte p 3
  num_serving_sensors ← byte p 4
  sensor_id ← byte p 5
  timestamp ← unpack_le64 p 6
  message_counter ← unpack_le32 p 14
  cycle_time ← unpack_le32 p 18
  variation ← byte p 22
  data_qualifier ← byte p 23
  ok (record {
    version_major = major;
    version_minor = minor;
    version_patch = patch;
    interface_id = interface_id;
    num_serving_sensors = num_serving_sensors;
    sensor_id = sensor_id;
    timestamp = timestamp;
    message_counter = message_counter;
    interface_cycle_time = cycle_time;
    interface_cycle_time_variation = variation;
    data_qualifier = data_qualifier;
  })

-- Whoever has 24 bytes can read the header.
pub parse_common_header-IsSafe :
    (p : List ℕ) → common_header_size ≤ length p → IsSafe (parse_common_header p)
unfolding parse_common_header
parse_common_header-IsSafe p h = >>=-IsSafe _ (byte-IsSafe p 0 (omega arith)) λ _ _.
    >>=-IsSafe _ (byte-IsSafe p 1 (omega arith)) λ _ _.
      >>=-IsSafe _ (byte-IsSafe p 2 (omega arith)) λ _ _.
        >>=-IsSafe _ (byte-IsSafe p 3 (omega arith)) λ _ _.
          >>=-IsSafe _ (byte-IsSafe p 4 (omega arith)) λ _ _.
            >>=-IsSafe _ (byte-IsSafe p 5 (omega arith)) λ _ _.
              >>=-IsSafe _ (unpack_le64-IsSafe p 6 (omega arith)) λ _ _.
                >>=-IsSafe _ (unpack_le32-IsSafe p 14 (omega arith)) λ _ _.
                  >>=-IsSafe _ (unpack_le32-IsSafe p 18 (omega arith)) λ _ _.
                    >>=-IsSafe _ (byte-IsSafe p 22 (omega arith))
                      λ _ _. >>=-IsSafe _ (byte-IsSafe p 23 (omega arith)) λ _ _. ok_safe _
