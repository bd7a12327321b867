-- ===== src/Stream.antt =====
-- The stream side of src/afi_sdk.cpp: what happens to a datagram of the RDI, SHII or SPI stream.
-- Log lines are left out; a callback is an event, and a clock value is an argument. The state is
-- that of one receiver thread between datagrams.
pub mod Process
pub mod Consume
pub mod Loss
pub mod Safe
pub mod Steps
pub mod Delivery
mod Tests
use afi920_sdk.Prelude.{
  ℕ, ◌+◌, ◌-◌, ◌%◌, ◌^◌, List, [], ◌∷◌, Bool, true, false, ◌&&◌, ◌||◌, not, length, drop, ltb, leb,
  ◌==◌, ◌!=◌, if◌then◌else◌, bit_and, Option, none, some, Outcome, ok, reject, fault, reject_if,
  ◌>>=◌, ◌>>◌,
}
use afi920_sdk.Endian.{unpack_le32, unpack_le64}
use afi920_sdk.Someip.{
  SomeipHeader, someip_deserialize, service_id, protocol_version, interface_version,
  msg_type_notify, return_ok,
}
use afi920_sdk.Interface.{InterfaceHeaders}
use afi920_sdk.E2e.{Generation, E2eHeader, E2eStatus, passed, header_size, e2e_validate}
use afi920_sdk.Reassembler.{Reassembler}
use afi920_sdk.Payload.Rdi.{RdiMessage}
use afi920_sdk.Payload.Shi.{ShiMessage}
use afi920_sdk.Payload.Spi.{SpiMessage}

-- `AfiStreamKind`
pub data StreamKind : Type 0 where
  detection health performance : StreamKind

-- The members of `AfiSdkConfig` that the handlers read, and which callbacks are set.
pub record Settings : Type 0 where
  pub validate_e2e : Bool
  pub e2e_strict : Bool
  pub rdi_cb : Bool
  pub shi_cb : Bool
  pub shi_meta_cb : Bool
  pub spi_cb : Bool
  pub spi_meta_cb : Bool
  pub loss_cb : Bool
  pub wire_payload_cb : Bool

-- The members of `Impl` that the handlers change; e2e_failures_ is a field for each index.
pub record StreamState : Type 0 where
  pub rdi_tp : Reassembler
  pub stream_generation : Generation
  pub rdi_frame_seq : ℕ
  pub total_packets : ℕ
  pub lost_packets : ℕ
  pub last_rdi_e2e_counter : ℕ
  pub first_rdi : Bool
  pub rdi_failures : ℕ
  pub shi_failures : ℕ
  pub spi_failures : ℕ

pub record WireFrame : Type 0 where
  pub stream : StreamKind
  pub recv_timestamp_ns : ℕ
  pub sensor_timestamp_ns : ℕ
  pub message_counter : ℕ
  pub e2e_counter : ℕ
  pub e2e_checked : Bool
  pub e2e_valid : Bool
  pub generation : Generation
  pub payload : List ℕ

-- `AfiStreamMeta`, and what `AfiRdiFrame` adds to its message.
pub record StreamMeta : Type 0 where
  pub recv_timestamp_ns : ℕ
  pub e2e_counter : ℕ
  pub e2e_checked : Bool
  pub e2e_valid : Bool
  pub generation : Generation

-- A call of a callback.
pub data Event : Type 0 where
  wire : WireFrame → Event
  loss : ℕ → ℕ → Event
  rdi : RdiMessage → StreamMeta → ℕ → Event
  shi : ShiMessage → Event
  shi_meta : ShiMessage → StreamMeta → Event
  spi : SpiMessage → Event
  spi_meta : SpiMessage → StreamMeta → Event

-- `ValidateStreamMessage`; `reject` is its false. `x & ~0x20` of a byte is `x & 0xDF`.
unfoldable pub validate_stream_message : List ℕ → ℕ → Outcome SomeipHeader
validate_stream_message datagram expected_event = do
  hdr ← someip_deserialize datagram
  reject_if (hdr.service_id != service_id || hdr.method_id != expected_event)
  reject_if (ltb hdr.length 8 || hdr.length + 8 != length datagram)
  reject_if (
      hdr.protocol_version != protocol_version
      || (hdr.interface_version != interface_version
          || (bit_and hdr.message_type 0xDF != msg_type_notify || hdr.return_code != return_ok)))
  ok hdr

unfoldable pub count_failure : StreamState → StreamKind → StreamState
count_failure s detection = record s { rdi_failures = (s.rdi_failures + 1) % 2 ^ 64 }
count_failure s health = record s { shi_failures = (s.shi_failures + 1) % 2 ^ 64 }
count_failure s performance = record s { spi_failures = (s.spi_failures + 1) % 2 ^ 64 }

-- What `ConsumeE2eHeader` hands back when it returns true.
pub record Consumed : Type 0 where
  pub e2e : E2eHeader
  pub e2e_valid : Bool
  pub payload : List ℕ

pub is_passed : E2eStatus → Bool
is_passed passed = true
is_passed _ = false

-- The body behind `e2e_validate`: what becomes of the frame, and of the members.
unfoldable pub verdict : Settings → List ℕ → E2eStatus × E2eHeader → Option Consumed
verdict c payload (status, e2e) =
    let consumed : Consumed = record {
      e2e = e2e;
      e2e_valid = c.validate_e2e;
      payload = drop header_size payload;
    } in
    if is_passed status
    then some consumed
    else if c.e2e_strict
    then none
    else some (record consumed { e2e_valid = false })

unfoldable pub note_status : StreamState → StreamKind → E2eStatus × E2eHeader → StreamState
note_status s kind (status, e2e) =
    if is_passed status
    then record s { stream_generation = e2e.generation }
    else count_failure s kind

-- `ConsumeE2eHeader`; `none` is its false.
unfoldable pub consume_e2e_header :
    InterfaceHeaders
    → Settings
    → StreamState
    → StreamKind
    → List ℕ
    → ℕ
    → Outcome (StreamState × Option Consumed)
consume_e2e_header h c s kind payload expected_data_id =
    if ltb (length payload) header_size
    then ok (s, none)
    else (e2e_validate h payload expected_data_id c.validate_e2e >>= λ r.
        ok (note_status s kind r, verdict c payload r))

-- The two fields of `DeliverWirePayload` that are read from the ISO payload.
unfoldable pub iso_fields : List ℕ → Outcome (ℕ × ℕ)
iso_fields iso =
    let read = (do
      timestamp ← unpack_le64 iso 6
      counter ← unpack_le32 iso 14
      ok (timestamp, counter)) in
    if leb 18 (length iso) then read else ok (0, 0)

-- `DeliverWirePayload`
unfoldable pub deliver_wire_payload :
    Settings → StreamKind → List ℕ → ℕ → Consumed → Outcome (List Event)
deliver_wire_payload c kind wire_payload now consumed =
    let frame = (do
      fields ← iso_fields consumed.payload
      ok (
          wire (record {
            stream = kind;
            recv_timestamp_ns = now;
            sensor_timestamp_ns = fields.0;
            message_counter = fields.1;
            e2e_counter = consumed.e2e.counter;
            e2e_checked = c.validate_e2e;
            e2e_valid = consumed.e2e_valid;
            generation = consumed.e2e.generation;
            payload = wire_payload;
          })
          ∷ [])) in
    if c.wire_payload_cb then frame else ok []

-- `TrackRdiLoss`: the difference of the 32-bit counters wraps, and so do the totals.
unfoldable pub track_rdi_loss : Settings → StreamState → ℕ → StreamState × List Event
track_rdi_loss c s counter =
    let total : ℕ = (s.total_packets + 1) % 2 ^ 32 in
    let delta : ℕ = (counter + 2 ^ 32 - s.last_rdi_e2e_counter) % 2 ^ 32 in
    let lost : ℕ = (s.lost_packets + (delta - 1)) % 2 ^ 32 in
    let counted = record s { total_packets = total; last_rdi_e2e_counter = counter } in
    if s.first_rdi
    then (record counted { first_rdi = false }, [])
    else if delta == 0 || leb 0x80000000 delta
    then (counted, [])
    else if ltb 1 delta
    then (record counted { lost_packets = lost }, (if c.loss_cb then loss total lost ∷ [] else []))
    else (counted, [])
