-- ===== src/Stream/Process.antt =====
-- The three datagram handlers of src/afi_sdk.cpp: ProcessRdiDatagram, ProcessShiDatagram and
-- ProcessSpiDatagram. Each yields the new state and the callbacks it makes, in order.
use afi920_sdk.Prelude.{
  ℕ, ◌+◌, ◌%◌, ◌^◌, List, [], ◌∷◌, ◌++◌, Bool, ◌||◌, not, length, drop, ltb, if◌then◌else◌, Option,
  none, some, Outcome, ok, reject, fault, ◌>>=◌,
}
use afi920_sdk.Someip.{
  SomeipHeader, someip_is_tp, someip_tp_deserialize, event_rdi, event_shii, event_spi,
  tp_header_size,
}
use afi920_sdk.Interface.{InterfaceHeaders}
use afi920_sdk.Reassembler.{feed, reset, payload}
use afi920_sdk.Payload.Rdi.{rdi_parse}
use afi920_sdk.Payload.Shi.{shi_parse}
use afi920_sdk.Payload.Spi.{spi_parse}
use afi920_sdk.Stream.{
  StreamKind, detection, health, performance, Settings, StreamState, StreamMeta, Event, rdi, shi,
  shi_meta, spi, spi_meta, Consumed, validate_stream_message, consume_e2e_header,
  deliver_wire_payload, track_rdi_loss,
}

-- BTS_E2E_DATA_ID_RDI, _SHII and _SPI of the interface headers
abbrev pub data_id_rdi : ℕ
data_id_rdi = 0x60008002

abbrev pub data_id_shii : ℕ
data_id_shii = 0x60008003

abbrev pub data_id_spi : ℕ
data_id_spi = 0x60008004

unfoldable pub meta : Settings → ℕ → Consumed → StreamMeta
meta c now consumed = record {
  recv_timestamp_ns = now;
  e2e_counter = consumed.e2e.counter;
  e2e_checked = c.validate_e2e;
  e2e_valid = consumed.e2e_valid;
  generation = consumed.e2e.generation;
}

-- The typed decode; a payload that does not parse makes no call.
unfoldable pub parsed {ℓ} : {A : Type ℓ} → Outcome A → (A → Event) → Outcome (List Event)
parsed (ok m) call = ok (call m ∷ [])
parsed reject call = ok []
parsed fault call = fault

unfoldable pub reset_tp : StreamState → StreamState
reset_tp s = record s { rdi_tp = reset s.rdi_tp }

-- A TP segment of the RDI stream: the new state, and the payload once it is complete.
unfoldable pub assemble_tp :
    StreamState → SomeipHeader → List ℕ → Outcome (StreamState × Option (List ℕ))
assemble_tp s hdr datagram =
    let segment = (do
      tp ← someip_tp_deserialize datagram 16
      let fed = feed s.rdi_tp (record {
        bytes = drop (16 + tp_header_size) datagram;
        offset_bytes = tp.offset_bytes;
        more_segments = tp.more_segments;
        session = hdr.session_id;
      })
      let invalid = reset_tp s
      let next : StreamState = record s { rdi_tp = fed.0 }
      ok (
          if not tp.valid
          then (invalid, none)
          else (next, (if fed.1 then some (payload fed.0) else none)))) in
    if ltb (length datagram) (16 + tp_header_size) then ok (s, none) else segment

-- A datagram that carries its whole payload drops a message under way.
unfoldable pub assemble_plain : StreamState → List ℕ → StreamState × Option (List ℕ)
assemble_plain s datagram =
    ((if s.rdi_tp.in_progress then reset_tp s else s), some (drop 16 datagram))

-- The last statement of the handler.
unfoldable pub release : Bool → StreamState → StreamState
release is_tp s = if is_tp then reset_tp s else s

-- From the assembled payload on, behind `ConsumeE2eHeader`.
unfoldable pub rdi_consumed :
    Settings → Bool → StreamState → List ℕ → ℕ → Consumed → Outcome (StreamState × List Event)
rdi_consumed c is_tp s wire_payload now consumed = do
  frame ← deliver_wire_payload c detection wire_payload now consumed
  let tracked =
      if not c.validate_e2e || consumed.e2e_valid
      then track_rdi_loss c s consumed.e2e.counter
      else (s, [])
  let typed : StreamState = record tracked.0 {
    rdi_frame_seq = (tracked.0.rdi_frame_seq + 1) % 2 ^ 32;
  }
  let seq : ℕ = tracked.0.rdi_frame_seq
  let decode = do
    frames ← parsed (rdi_parse consumed.payload) λ m. rdi m (meta c now consumed) seq
    ok (release is_tp typed, frame ++ (tracked.1 ++ frames))
  if c.rdi_cb then decode else ok (release is_tp tracked.0, frame ++ tracked.1)

unfoldable pub rdi_payload :
    InterfaceHeaders
    → Settings
    → Bool
    → StreamState
    → List ℕ
    → ℕ
    → Outcome (StreamState × List Event)
rdi_payload h c is_tp s wire_payload now =
    consume_e2e_header h c s detection wire_payload data_id_rdi >>= λ r. elim r.1 [
      | none ↦ ok (release is_tp r.0, [])
      | some consumed ↦ rdi_consumed c is_tp r.0 wire_payload now consumed
    ]

-- Behind `ValidateStreamMessage`.
unfoldable pub rdi_message :
    InterfaceHeaders
    → Settings
    → StreamState
    → SomeipHeader
    → List ℕ
    → ℕ
    → Outcome (StreamState × List Event)
rdi_message h c s hdr datagram now =
    let is_tp = someip_is_tp hdr.message_type in
    (if is_tp then assemble_tp s hdr datagram else ok (assemble_plain s datagram)) >>= λ r.
    elim r.1 [
      | none ↦ ok (r.0, [])
      | some wire_payload ↦ rdi_payload h c is_tp r.0 wire_payload now
    ]

-- A datagram that is not of the stream is ignored.
unfoldable pub if_valid :
    StreamState
    → Outcome SomeipHeader
    → (SomeipHeader → Outcome (StreamState × List Event))
    → Outcome (StreamState × List Event)
if_valid s (ok hdr) handle = handle hdr
if_valid s reject handle = ok (s, [])
if_valid s fault handle = fault

-- `ProcessRdiDatagram`
unfoldable pub process_rdi :
    InterfaceHeaders → Settings → StreamState → List ℕ → ℕ → Outcome (StreamState × List Event)
process_rdi h c s datagram now =
    if_valid s (validate_stream_message datagram event_rdi)
      λ hdr. rdi_message h c s hdr datagram now

-- The typed decode of the other two streams: the callback with the frame's metadata has precedence.
unfoldable pub shi_events : Settings → ℕ → Consumed → Outcome (List Event)
shi_events c now consumed =
    if c.shi_meta_cb
    then parsed (shi_parse consumed.payload) (λ m. shi_meta m (meta c now consumed))
    else if c.shi_cb
    then parsed (shi_parse consumed.payload) shi
    else ok []

unfoldable pub spi_events : Settings → ℕ → Consumed → Outcome (List Event)
spi_events c now consumed =
    if c.spi_meta_cb
    then parsed (spi_parse consumed.payload) (λ m. spi_meta m (meta c now consumed))
    else if c.spi_cb
    then parsed (spi_parse consumed.payload) spi
    else ok []

-- `ProcessShiDatagram` and `ProcessSpiDatagram` behind their guards: the same statements for their
-- stream, Data ID and decoder.
unfoldable pub small_message :
    InterfaceHeaders
    → Settings
    → StreamState
    → StreamKind
    → ℕ
    → (Consumed → Outcome (List Event))
    → List ℕ
    → ℕ
    → Outcome (StreamState × List Event)
small_message h c s kind data_id events datagram now =
    consume_e2e_header h c s kind (drop 16 datagram) data_id >>= λ r. elim r.1 [
      | none ↦ ok (r.0, [])
      | some consumed ↦ (do
        frame ← deliver_wire_payload c kind (drop 16 datagram) now consumed
        typed ← events consumed
        ok (r.0, frame ++ typed))
    ]

unfoldable pub process_shi :
    InterfaceHeaders → Settings → StreamState → List ℕ → ℕ → Outcome (StreamState × List Event)
process_shi h c s datagram now = if_valid s (validate_stream_message datagram event_shii) λ hdr.
    let handled = small_message h c s health data_id_shii (shi_events c now) datagram now in
    if someip_is_tp hdr.message_type then ok (s, []) else handled

unfoldable pub process_spi :
    InterfaceHeaders → Settings → StreamState → List ℕ → ℕ → Outcome (StreamState × List Event)
process_spi h c s datagram now = if_valid s (validate_stream_message datagram event_spi) λ hdr.
    let handled = small_message h c s performance data_id_spi (spi_events c now) datagram now in
    if someip_is_tp hdr.message_type then ok (s, []) else handled
