-- ===== src/Csii.antt =====
-- src/protocol/csii_builder.cpp: the vehicle input frame of 115 bytes. Its three parts lie one after
-- another, so the writes into `out` are a concatenation. Floats are their bit patterns.
pub mod Laws
pub mod Tests
use afi920_sdk.Prelude.{ℕ, ◌+◌, ◌*◌, ◌^◌, ◌≡◌, List, [], ◌∷◌, ◌++◌, length}
use afi920_sdk.Endian.{pack_be16, pack_be32}
use afi920_sdk.Interface.{InterfaceHeaders}
use afi920_sdk.Someip.{service_id, event_csii}
use afi920_sdk.E2e.{e2e_write_header}

-- The packers of the interface headers: the bytes that each writes.
pub record Packers : Type 0 where
  pub bts_pack_be16 : ℕ → List ℕ
  pub bts_pack_be32 : ℕ → List ℕ
  pub bts_pack_le32 : ℕ → List ℕ
  pub bts_pack_le64 : ℕ → List ℕ

pub record AreDocumented (k : Packers) : Type 0 where
  pub packs_be16 : (v : ℕ) → k.bts_pack_be16 v ≡ pack_be16 v
  pub packs_be32 : (v : ℕ) → k.bts_pack_be32 v ≡ pack_be32 v
  pub length_le32 : (v : ℕ) → length (k.bts_pack_le32 v) ≡ 4
  pub length_le64 : (v : ℕ) → length (k.bts_pack_le64 v) ≡ 8

-- `AfiVehicleInput`
pub record VehicleInput : Type 0 where
  pub sensor_id : ℕ
  pub timestamp_ns : ℕ
  pub somc : ℕ
  pub global_timestamp_utc : ℕ
  pub coord_system : ℕ
  pub velocity_x_mps : ℕ
  pub velocity_y_mps : ℕ
  pub velocity_z_mps : ℕ
  pub rotation_rate_yaw_rps : ℕ
  pub rotation_rate_pitch_rps : ℕ
  pub rotation_rate_roll_rps : ℕ
  pub wheel_flp_rps : ℕ
  pub wheel_frp_rps : ℕ
  pub wheel_rlp_rps : ℕ
  pub wheel_rrp_rps : ℕ
  pub steering_angle_rad : ℕ
  pub gear_position : ℕ

-- BTS_IID_COMMON_SENSOR_INPUT, BTS_CSII_SIZE, BTS_E2E_DATA_ID_CSII and BTS_SOMEIP_CLIENT_ID of the
-- interface headers
abbrev pub iid_common_sensor_input : ℕ
iid_common_sensor_input = 0x0E

abbrev pub csii_size : ℕ
csii_size = 79

abbrev pub data_id_csii : ℕ
data_id_csii = 0x60008001

abbrev pub someip_client_id : ℕ
someip_client_id = 0x0001

module _ (k : Packers) where
  open k use {bts_pack_be16, bts_pack_be32, bts_pack_le32, bts_pack_le64}

  -- The ISO 23150 payload.
  pub csii_body : VehicleInput → ℕ → ℕ → List ℕ
  csii_body input counter timestamp_ns =
      (1 ∷ 1 ∷ 0 ∷ iid_common_sensor_input ∷ 1 ∷ input.sensor_id ∷ [])
      ++ (bts_pack_le64 timestamp_ns
          ++ (bts_pack_le32 counter
              ++ (bts_pack_le32 100000000
                  ++ ((0 ∷ 0 ∷ input.somc ∷ [])
                      ++ (bts_pack_le64 input.global_timestamp_utc
                          ++ ((input.coord_system ∷ [])
                              ++ (bts_pack_le32 input.velocity_x_mps
                                  ++ (bts_pack_le32 input.velocity_y_mps
                                      ++ (bts_pack_le32 input.velocity_z_mps
                                          ++ (bts_pack_le32 input.rotation_rate_yaw_rps
                                              ++ (bts_pack_le32 input.rotation_rate_pitch_rps
                                                  ++ (bts_pack_le32 input.rotation_rate_roll_rps
                                                      ++ (bts_pack_le32 input.wheel_flp_rps
                                                          ++ (bts_pack_le32 input.wheel_frp_rps
                                                            ++ (bts_pack_le32 input.wheel_rlp_rps
                                                            ++ (bts_pack_le32 input.wheel_rrp_rps
                                                            ++ (bts_pack_le32
                                                            input.steering_angle_rad
                                                            ++ (input.gear_position
                                                            ∷ []))))))))))))))))))

  pub csii_someip : ℕ → List ℕ
  csii_someip session_id =
      bts_pack_be32 (service_id * 2 ^ 16 + event_csii)
      ++ (bts_pack_be32 (8 + 20 + csii_size)
          ++ (bts_pack_be16 someip_client_id
              ++ (bts_pack_be16 session_id ++ (0x01 ∷ 0x01 ∷ 0x02 ∷ 0x00 ∷ []))))

  -- `csii_build_frame`: what it writes to `out`.
  pub csii_build_frame : InterfaceHeaders → VehicleInput → ℕ → ℕ → ℕ → List ℕ
  csii_build_frame h input counter session_id timestamp_ns =
      csii_someip session_id
      ++ (e2e_write_header h data_id_csii counter (csii_body input counter timestamp_ns)
          ++ csii_body input counter timestamp_ns)
