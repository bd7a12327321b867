-- ===== src/Payload/Shi/Laws.antt =====
-- Laws of src/protocol/shi_parser.cpp: no read out of range, and what an accepted payload is.
use afi920_sdk.Prelude.{
  leb_false→lt, ◌<◌, ok_subst, !=_false→eq, ltb_false→le, if_true, length-take, ℕ, ◌+◌, ◌*◌, ◌≤◌,
  ◌≡◌, List, length, take, drop, length-drop, leb, ltb, ◌!=◌, arith, ok, IsSafe, ok_safe,
  reject_if-IsSafe, >>=-IsSafe, >>=-ok, reject_if_ok,
}
use afi920_sdk.Payload.Shi.{
  Modes, Signals, Calibration, parse_modes, parse_signals, parse_calibration, fault, ShiMessage,
  copy, shi_parse, shi_min_size, shi_max_operation_modes, shi_max_input_signals,
  shi_max_calibration_components,
}
use afi920_sdk.Endian.{byte}
use afi920_sdk.Endian.Laws.{byte-IsSafe}
use afi920_sdk.Payload.Header.{parse_common_header, parse_common_header-IsSafe}

copy-IsSafe : (p : List ℕ) (off n : ℕ) → off + n ≤ length p → IsSafe (copy p off n)
unfolding copy
copy-IsSafe p off n h =
    rw (if_true (leb (off + n) (length p)) (ok (take n (drop off p))) fault (ground arith))
      (ok_safe _)

length-copy : (p : List ℕ) (off n : ℕ) {b : List ℕ} → copy p off n ≡ ok b → length b ≡ n
unfolding copy
length-copy p off n e = ground (arith, length-take n (drop off p), length-drop off p)

parse_modes-IsSafe : (p : List ℕ) (off : ℕ) → off < length p → IsSafe (parse_modes p off)
unfolding parse_modes
parse_modes-IsSafe p off h = >>=-IsSafe _ (byte-IsSafe p off (omega arith)) λ n_op _.
    reject_if-IsSafe (ltb shi_max_operation_modes n_op) λ _.
      reject_if-IsSafe (ltb (length p) (off + 1 + n_op + 4)) λ r.
        let room : off + 1 + n_op + 4 ≤ length p = ltb_false→le r in
        >>=-IsSafe _ (copy-IsSafe p (off + 1) n_op (omega arith)) λ _ _.
          >>=-IsSafe _ (byte-IsSafe p (off + 1 + n_op) (omega arith)) λ _ _.
            >>=-IsSafe _ (byte-IsSafe p (off + 2 + n_op) (omega arith)) λ _ _.
              >>=-IsSafe _ (byte-IsSafe p (off + 3 + n_op) (omega arith))
                λ _ _. >>=-IsSafe _ (byte-IsSafe p (off + 4 + n_op) (omega arith)) λ _ _. ok_safe _

parse_signals-IsSafe : (p : List ℕ) (off : ℕ) → IsSafe (parse_signals p off)
unfolding parse_signals
parse_signals-IsSafe p off = reject_if-IsSafe (leb (length p) off) λ m.
    let more : off < length p = leb_false→lt m in
    >>=-IsSafe _ (byte-IsSafe p off (omega arith)) λ n_in _.
      reject_if-IsSafe (ltb shi_max_input_signals n_in) λ _.
        reject_if-IsSafe (ltb (length p) (off + 1 + 2 * n_in + 1)) λ r.
          let room : off + 1 + 2 * n_in + 1 ≤ length p = ltb_false→le r in
          >>=-IsSafe _ (copy-IsSafe p (off + 1) n_in (omega arith)) λ _ _.
            >>=-IsSafe _ (copy-IsSafe p (off + 1 + n_in) n_in (omega arith)) λ _ _.
              >>=-IsSafe _ (byte-IsSafe p (off + 1 + n_in + n_in) (omega arith)) λ _ _. ok_safe _

parse_calibration-IsSafe : (p : List ℕ) (off : ℕ) → IsSafe (parse_calibration p off)
unfolding parse_calibration
parse_calibration-IsSafe p off = reject_if-IsSafe (leb (length p) off) λ m.
    let more : off < length p = leb_false→lt m in
    >>=-IsSafe _ (byte-IsSafe p off (omega arith)) λ n_cal _.
      reject_if-IsSafe (ltb shi_max_calibration_components n_cal) λ _.
        reject_if-IsSafe (ltb (length p) (off + 1 + 3 * n_cal)) λ r.
          let room : off + 1 + 3 * n_cal ≤ length p = ltb_false→le r in
          >>=-IsSafe _ (copy-IsSafe p (off + 1) n_cal (omega arith)) λ _ _.
            >>=-IsSafe _ (copy-IsSafe p (off + 1 + n_cal) n_cal (omega arith)) λ _ _.
              >>=-IsSafe _ (copy-IsSafe p (off + 1 + n_cal + n_cal) n_cal (omega arith))
                λ _ _. ok_safe _

-- `Parse` reads nothing outside the payload, whatever its bytes.
pub shi_parse-IsSafe : (p : List ℕ) → IsSafe (shi_parse p)
unfolding shi_parse
shi_parse-IsSafe p = reject_if-IsSafe (ltb (length p) shi_min_size) λ r.
    let long : shi_min_size ≤ length p = ltb_false→le r in
    >>=-IsSafe _ (parse_common_header-IsSafe p (omega arith)) λ _ _.
      >>=-IsSafe _ (parse_modes-IsSafe p 24 (omega arith)) λ modes _.
        >>=-IsSafe _ (parse_signals-IsSafe p modes.next) λ signals _.
          >>=-IsSafe _ (parse_calibration-IsSafe p signals.next)
            λ calibration _. reject_if-IsSafe (calibration.next != length p) λ _. ok_safe _

record ModesRead (off : ℕ) (m : Modes) : Type 0 where
  size : m.next ≡ off + 5 + length m.operation_modes
  few : length m.operation_modes ≤ shi_max_operation_modes

parse_modes_read : (p : List ℕ) (off : ℕ) {m : Modes} → parse_modes p off ≡ ok m → ModesRead off m
unfolding parse_modes
parse_modes_read p off e =
    let (n_op, _, e) = >>=-ok (byte p off) e in
    let (few, e) = reject_if_ok (ltb shi_max_operation_modes n_op) e in
    let (_, e) = reject_if_ok (ltb (length p) (off + 1 + n_op + 4)) e in
    let (_, modes, e) = >>=-ok (copy p (off + 1) n_op) e in
    let (_, _, e) = >>=-ok (byte p (off + 1 + n_op)) e in
    let (_, _, e) = >>=-ok (byte p (off + 2 + n_op)) e in
    let (_, _, e) = >>=-ok (byte p (off + 3 + n_op)) e in
    let (_, _, e) = >>=-ok (byte p (off + 4 + n_op)) e in
    ok_subst (ModesRead off) e (record {
      size = omega (arith, length-copy p (off + 1) n_op modes);
      few = omega (arith, length-copy p (off + 1) n_op modes, ltb_false→le few);
    })

record SignalsRead (off : ℕ) (s : Signals) : Type 0 where
  size : s.next ≡ off + 2 + 2 * length s.types
  parallel : length s.statuses ≡ length s.types
  few : length s.types ≤ shi_max_input_signals

parse_signals_read :
    (p : List ℕ) (off : ℕ) {s : Signals} → parse_signals p off ≡ ok s → SignalsRead off s
unfolding parse_signals
parse_signals_read p off e =
    let (_, e) = reject_if_ok (leb (length p) off) e in
    let (n_in, _, e) = >>=-ok (byte p off) e in
    let (few, e) = reject_if_ok (ltb shi_max_input_signals n_in) e in
    let (_, e) = reject_if_ok (ltb (length p) (off + 1 + 2 * n_in + 1)) e in
    let (_, types, e) = >>=-ok (copy p (off + 1) n_in) e in
    let (_, statuses, e) = >>=-ok (copy p (off + 1 + n_in) n_in) e in
    let (_, _, e) = >>=-ok (byte p (off + 1 + n_in + n_in)) e in
    let l = length-copy p (off + 1) n_in types in
    ok_subst (SignalsRead off) e (record {
      size = omega (arith, l);
      parallel = omega (arith, l, length-copy p (off + 1 + n_in) n_in statuses);
      few = omega (arith, l, ltb_false→le few);
    })

record CalibrationRead (off : ℕ) (c : Calibration) : Type 0 where
  size : c.next ≡ off + 1 + 3 * length c.components
  statuses : length c.statuses ≡ length c.components
  states : length c.states ≡ length c.components
  few : length c.components ≤ shi_max_calibration_components

parse_calibration_read :
    (p : List ℕ) (off : ℕ) {c : Calibration}
    → parse_calibration p off ≡ ok c
    → CalibrationRead off c
unfolding parse_calibration
parse_calibration_read p off e =
    let (_, e) = reject_if_ok (leb (length p) off) e in
    let (n_cal, _, e) = >>=-ok (byte p off) e in
    let (few, e) = reject_if_ok (ltb shi_max_calibration_components n_cal) e in
    let (_, e) = reject_if_ok (ltb (length p) (off + 1 + 3 * n_cal)) e in
    let (_, components, e) = >>=-ok (copy p (off + 1) n_cal) e in
    let (_, statuses, e) = >>=-ok (copy p (off + 1 + n_cal) n_cal) e in
    let (_, states, e) = >>=-ok (copy p (off + 1 + n_cal + n_cal) n_cal) e in
    let l = length-copy p (off + 1) n_cal components in
    ok_subst (CalibrationRead off) e (record {
      size = omega (arith, l);
      statuses = omega (arith, l, length-copy p (off + 1 + n_cal) n_cal statuses);
      states = omega (arith, l, length-copy p (off + 1 + n_cal + n_cal) n_cal states);
      few = omega (arith, l, ltb_false→le few);
    })

-- An accepted message against its payload.
pub record IsExact (p : List ℕ) (m : ShiMessage) : Type 0 where
  pub size :
      length p
      ≡ shi_min_size
        + length m.sensor_operation_modes
        + 2 * length m.sensor_input_signal_types
        + 3 * length m.sensor_calibration_components
  pub signals : length m.sensor_input_signal_statuses ≡ length m.sensor_input_signal_types
  pub statuses : length m.sensor_calibration_statuses ≡ length m.sensor_calibration_components
  pub states : length m.sensor_calibration_states ≡ length m.sensor_calibration_components
  pub few_modes : length m.sensor_operation_modes ≤ shi_max_operation_modes
  pub few_signals : length m.sensor_input_signal_types ≤ shi_max_input_signals
  pub few_components : length m.sensor_calibration_components ≤ shi_max_calibration_components

-- An accepted payload is exactly as long as its three counted sections make it, the parallel arrays
-- of a section are as long as each other, and no section has more entries than the frame holds.
pub shi_parse-IsExact : (p : List ℕ) {m : ShiMessage} → shi_parse p ≡ ok m → IsExact p m
unfolding shi_parse
shi_parse-IsExact p e =
    let (_, e) = reject_if_ok (ltb (length p) shi_min_size) e in
    let (_, _, e) = >>=-ok (parse_common_header p) e in
    let (modes, em, e) = >>=-ok (parse_modes p 24) e in
    let (signals, es, e) = >>=-ok (parse_signals p modes.next) e in
    let (calibration, ec, e) = >>=-ok (parse_calibration p signals.next) e in
    let (all, e) = reject_if_ok (calibration.next != length p) e in
    let m = parse_modes_read p 24 em in
    let s = parse_signals_read p modes.next es in
    let c = parse_calibration_read p signals.next ec in
    ok_subst (IsExact p) e (record {
      size = omega (arith, m.size, s.size, c.size, !=_false→eq all);
      signals = s.parallel;
      statuses = c.statuses;
      states = c.states;
      few_modes = m.few;
      few_signals = s.few;
      few_components = c.few;
    })
