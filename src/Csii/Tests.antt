-- ===== src/Csii/Tests.antt =====
-- A run of src/protocol/csii_builder.cpp with packers that do what the interface headers' do.
use afi920_sdk.Prelude.{ℕ, ◌/◌, ◌%◌, ◌^◌, refl, List, [], ◌∷◌, ◌++◌, true, arith}
use afi920_sdk.Endian.{pack_be16, pack_be32}
use afi920_sdk.E2e.Tests.{test_headers, test_headers-IsDocumented}
use afi920_sdk.Csii.{Packers, AreDocumented, VehicleInput, csii_body, csii_build_frame}
use afi920_sdk.Csii.Laws.{IsAccepted, csii_build_frame-IsAccepted}

abbrev le32 : ℕ → List ℕ
le32 v = v % 256 ∷ v / 2 ^ 8 % 256 ∷ v / 2 ^ 16 % 256 ∷ v / 2 ^ 24 % 256 ∷ []

abbrev pub packers : Packers
packers = record {
  bts_pack_be16 = pack_be16;
  bts_pack_be32 = pack_be32;
  bts_pack_le32 = le32;
  bts_pack_le64 = λ v. le32 v ++ le32 (v / 2 ^ 32);
}

packers-AreDocumented : AreDocumented packers
packers-AreDocumented = record {
  packs_be16 = λ v. refl;
  packs_be32 = λ v. refl;
  length_le32 = λ v. refl;
  length_le64 = λ v. refl;
}

abbrev pub parked : VehicleInput
parked = record {
  sensor_id = 1;
  timestamp_ns = 5;
  somc = 0;
  global_timestamp_utc = 0;
  coord_system = 0;
  velocity_x_mps = 0;
  velocity_y_mps = 0;
  velocity_z_mps = 0;
  rotation_rate_yaw_rps = 0;
  rotation_rate_pitch_rps = 0;
  rotation_rate_roll_rps = 0;
  wheel_flp_rps = 0;
  wheel_frp_rps = 0;
  wheel_rlp_rps = 0;
  wheel_rrp_rps = 0;
  steering_angle_rad = 0;
  gear_position = 0;
}

csii_build_frame-IsAccepted_example :
    IsAccepted test_headers
      (csii_body packers parked 3 5)
      (csii_build_frame packers test_headers parked 3 9 5)
      3
      9
      true
csii_build_frame-IsAccepted_example =
    csii_build_frame-IsAccepted packers packers-AreDocumented test_headers test_headers-IsDocumented
      parked 3 9 5 (omega arith) (omega arith) true
