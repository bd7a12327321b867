-- ===== src/Payload/Shi.antt =====
-- src/protocol/shi_parser.cpp: the sensor health message. An array field with its count is the list
-- of the entries that count, as bytes.
pub mod Laws
mod Tests
use afi920_sdk.Prelude.{
  ℕ, ◌+◌, ◌*◌, List, take, drop, length, ltb, leb, ◌!=◌, if◌then◌else◌, Outcome, ok, fault,
  reject_if, ◌>>=◌, ◌>>◌,
}
use afi920_sdk.Endian.{byte}
use afi920_sdk.Payload.Header.{CommonHeader, parse_common_header}

-- kShiMinSize and the BTS_SHI_MAX_ constants of the interface headers
abbrev pub shi_min_size : ℕ
shi_min_size = 32

abbrev pub shi_max_operation_modes : ℕ
shi_max_operation_modes = 11

abbrev pub shi_max_input_signals : ℕ
shi_max_input_signals = 4

abbrev pub shi_max_calibration_components : ℕ
shi_max_calibration_components = 3

pub record ShiMessage : Type 0 where
  pub header : CommonHeader
  pub sensor_operation_modes : List ℕ
  pub sensor_defect_recognised : ℕ
  pub sensor_defect_reason : ℕ
  pub supply_voltage_status : ℕ
  pub sensor_temperature_status : ℕ
  pub sensor_input_signal_types : List ℕ
  pub sensor_input_signal_statuses : List ℕ
  pub sensor_time_sync : ℕ
  pub sensor_calibration_components : List ℕ
  pub sensor_calibration_statuses : List ℕ
  pub sensor_calibration_states : List ℕ

-- `memcpy(_, p + off, n)` out of the payload
unfoldable pub copy : List ℕ → ℕ → ℕ → Outcome (List ℕ)
copy p off n = if leb (off + n) (length p) then ok (take n (drop off p)) else fault

-- What each part of `Parse` reads, and the offset it leaves.
pub record Modes : Type 0 where
  pub operation_modes : List ℕ
  pub defect_recognised : ℕ
  pub defect_reason : ℕ
  pub supply_voltage : ℕ
  pub temperature : ℕ
  pub next : ℕ

pub record Signals : Type 0 where
  pub types : List ℕ
  pub statuses : List ℕ
  pub time_sync : ℕ
  pub next : ℕ

pub record Calibration : Type 0 where
  pub components : List ℕ
  pub statuses : List ℕ
  pub states : List ℕ
  pub next : ℕ

-- Operation modes, defect information, voltage and temperature.
unfoldable pub parse_modes : List ℕ → ℕ → Outcome Modes
parse_modes p off = do
  n_op ← byte p off
  reject_if (ltb shi_max_operation_modes n_op)
  reject_if (ltb (length p) (off + 1 + n_op + 4))
  operation_modes ← copy p (off + 1) n_op
  defect_recognised ← byte p (off + 1 + n_op)
  defect_reason ← byte p (off + 2 + n_op)
  voltage ← byte p (off + 3 + n_op)
  temperature ← byte p (off + 4 + n_op)
  ok (record {
    operation_modes = operation_modes;
    defect_recognised = defect_recognised;
    defect_reason = defect_reason;
    supply_voltage = voltage;
    temperature = temperature;
    next = off + 5 + n_op;
  })

-- Input signal status and time synchronisation.
unfoldable pub parse_signals : List ℕ → ℕ → Outcome Signals
parse_signals p off = do
  reject_if (leb (length p) off)
  n_in ← byte p off
  reject_if (ltb shi_max_input_signals n_in)
  reject_if (ltb (length p) (off + 1 + 2 * n_in + 1))
  types ← copy p (off + 1) n_in
  statuses ← copy p (off + 1 + n_in) n_in
  time_sync ← byte p (off + 1 + n_in + n_in)
  ok (record {
    types = types;
    statuses = statuses;
    time_sync = time_sync;
    next = off + 2 + n_in + n_in;
  })

-- Sensor calibration.
unfoldable pub parse_calibration : List ℕ → ℕ → Outcome Calibration
parse_calibration p off = do
  reject_if (leb (length p) off)
  n_cal ← byte p off
  reject_if (ltb shi_max_calibration_components n_cal)
  reject_if (ltb (length p) (off + 1 + 3 * n_cal))
  components ← copy p (off + 1) n_cal
  statuses ← copy p (off + 1 + n_cal) n_cal
  states ← copy p (off + 1 + n_cal + n_cal) n_cal
  ok (record {
    components = components;
    statuses = statuses;
    states = states;
    next = off + 1 + n_cal + n_cal + n_cal;
  })

-- `Parse`; `reject` is its -1.
unfoldable pub shi_parse : List ℕ → Outcome ShiMessage
shi_parse p = do
  reject_if (ltb (length p) shi_min_size)
  header ← parse_common_header p
  modes ← parse_modes p 24
  signals ← parse_signals p modes.next
  calibration ← parse_calibration p signals.next
  reject_if (calibration.next != length p)
  ok (record {
    header = header;
    sensor_operation_modes = modes.operation_modes;
    sensor_defect_recognised = modes.defect_recognised;
    sensor_defect_reason = modes.defect_reason;
    supply_voltage_status = modes.supply_voltage;
    sensor_temperature_status = modes.temperature;
    sensor_input_signal_types = signals.types;
    sensor_input_signal_statuses = signals.statuses;
    sensor_time_sync = signals.time_sync;
    sensor_calibration_components = calibration.components;
    sensor_calibration_statuses = calibration.statuses;
    sensor_calibration_states = calibration.states;
  })
