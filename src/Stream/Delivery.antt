-- ===== src/Stream/Delivery.antt =====
-- What the handlers of src/afi_sdk.cpp deliver to the wire payload callback.
use afi920_sdk.Prelude.{
  ℕ, ◌≡◌, refl, sym, subst, List, [], Bool, Option, none, some, ok, Ensures, ensured, >>=-Ensures,
  if-Ensures,
}
use afi920_sdk.Interface.{InterfaceHeaders, IsDocumented}
use afi920_sdk.Someip.{someip_is_tp, SomeipHeader}
use afi920_sdk.Reassembler.Bounds.{WellFormed}
use afi920_sdk.Stream.{detection, health, performance, Settings, StreamState, Consumed}
use afi920_sdk.Stream.Consume.{IsConsumed}
use afi920_sdk.Stream.Process.{
  rdi_consumed, rdi_payload, rdi_message, process_rdi, process_shi, process_spi, assemble_plain,
  release, data_id_rdi, data_id_shii, data_id_spi,
}
use afi920_sdk.Stream.Steps.{
  IsGood, good, IsJudged, release-WellFormed, consume-IsJudged, rdi_consumed-IsGood,
  assemble_tp-WellFormed, assemble_plain-WellFormed, if_valid-IsGood, small_message-IsGood,
  shi_events-Honest, spi_events-Honest,
}

module _ (h : InterfaceHeaders) (doc : IsDocumented h) (c : Settings) where
  rdi_payload-IsGood :
      (is_tp : Bool) (s : StreamState) (w : List ℕ) (now : ℕ)
      → WellFormed s.rdi_tp
      → Ensures (IsGood h doc c data_id_rdi) (rdi_payload h c is_tp s w now)
  unfolding rdi_payload IsJudged
  rdi_payload-IsGood is_tp s w now wf =
      >>=-Ensures _ (consume-IsJudged h doc c data_id_rdi s detection w)
        λ (s', o) j. consumed_or s' o (subst WellFormed (sym j.0) wf) j.1
    where
      consumed_or :
          (s' : StreamState) (o : Option Consumed)
          → WellFormed s'.rdi_tp
          → ((k : Consumed) → o ≡ some k → IsConsumed h doc c w data_id_rdi k)
          → Ensures (IsGood h doc c data_id_rdi) (elim o [
            | none ↦ ok (release is_tp s', [])
            | some consumed ↦ rdi_consumed c is_tp s' w now consumed
          ])
      consumed_or s' none v f =
          ensured _
            (good h doc c data_id_rdi (release-WellFormed h doc c data_id_rdi is_tp s' v) tt)
      consumed_or s' (some k) v f =
          rdi_consumed-IsGood h doc c data_id_rdi is_tp s' w now k v (f k refl)

  rdi_message-IsGood :
      (s : StreamState) (hdr : SomeipHeader) (datagram : List ℕ) (now : ℕ)
      → WellFormed s.rdi_tp
      → Ensures (IsGood h doc c data_id_rdi) (rdi_message h c s hdr datagram now)
  unfolding rdi_message
  rdi_message-IsGood s hdr datagram now wf =
      let is_tp = someip_is_tp hdr.message_type in
      >>=-Ensures {P = λ (r : StreamState × Option (List ℕ)). WellFormed r.0.rdi_tp} _
        (if-Ensures is_tp (assemble_tp-WellFormed h doc c data_id_rdi s hdr datagram wf) (
          ensured (assemble_plain s datagram)
            (assemble_plain-WellFormed h doc c data_id_rdi s datagram wf)))
        λ (s', o) v. payload_or is_tp s' o v
    where
      payload_or :
          (is_tp : Bool) (s' : StreamState) (o : Option (List ℕ))
          → WellFormed s'.rdi_tp
          → Ensures
              (IsGood h doc c data_id_rdi)
              (elim o [ none ↦ ok (s', []) | some w ↦ rdi_payload h c is_tp s' w now ])
      payload_or is_tp s' none v = ensured _ (good h doc c data_id_rdi v tt)
      payload_or is_tp s' (some w) v = rdi_payload-IsGood is_tp s' w now v

  -- From a state with a well-formed reassembler `ProcessRdiDatagram` leaves one, and every wire frame
  -- it delivers carries the E2E counter of its header, is intact if it is marked valid, and passed
  -- the checks that are switched on if e2e_strict is set.
  pub process_rdi-IsGood :
      (s : StreamState) (datagram : List ℕ) (now : ℕ)
      → WellFormed s.rdi_tp
      → Ensures (IsGood h doc c data_id_rdi) (process_rdi h c s datagram now)
  unfolding process_rdi
  process_rdi-IsGood s datagram now wf =
      if_valid-IsGood h doc c data_id_rdi s _ wf λ hdr. rdi_message-IsGood s hdr datagram now wf

  -- From a state with a well-formed reassembler `ProcessShiDatagram` leaves one, and every wire frame
  -- it delivers carries the E2E counter of its header, is intact if it is marked valid, and passed
  -- the checks that are switched on if e2e_strict is set.
  pub process_shi-IsGood :
      (s : StreamState) (datagram : List ℕ) (now : ℕ)
      → WellFormed s.rdi_tp
      → Ensures (IsGood h doc c data_id_shii) (process_shi h c s datagram now)
  unfolding process_shi
  process_shi-IsGood s datagram now wf = if_valid-IsGood h doc c data_id_shii s _ wf λ hdr.
      if-Ensures (someip_is_tp hdr.message_type) (ensured (s, []) (good h doc c data_id_shii wf tt))
        (small_message-IsGood h doc c data_id_shii s health _ datagram now wf
          (shi_events-Honest h doc c data_id_shii now))

  -- From a state with a well-formed reassembler `ProcessSpiDatagram` leaves one, and every wire frame
  -- it delivers carries the E2E counter of its header, is intact if it is marked valid, and passed
  -- the checks that are switched on if e2e_strict is set.
  pub process_spi-IsGood :
      (s : StreamState) (datagram : List ℕ) (now : ℕ)
      → WellFormed s.rdi_tp
      → Ensures (IsGood h doc c data_id_spi) (process_spi h c s datagram now)
  unfolding process_spi
  process_spi-IsGood s datagram now wf = if_valid-IsGood h doc c data_id_spi s _ wf λ hdr.
      if-Ensures (someip_is_tp hdr.message_type) (ensured (s, []) (good h doc c data_id_spi wf tt))
        (small_message-IsGood h doc c data_id_spi s performance _ datagram now wf
          (spi_events-Honest h doc c data_id_spi now))
