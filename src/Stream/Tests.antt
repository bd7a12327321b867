-- ===== src/Stream/Tests.antt =====
-- Runs of the stream side of src/afi_sdk.cpp on one RDI frame with an empty body.
use afi920_sdk.Prelude.{
  ℕ, ◌+◌, ◌%◌, ◌^◌, ◌≡◌, refl, List, [], ◌∷◌, ◌++◌, true, false, length, arith, some, ok, Returns,
  Ensures,
}
use afi920_sdk.Endian.{byte, unpack_be32}
use afi920_sdk.E2e.{v1_1, unknown, e2e_parse, e2e_status, e2e_validate}
use afi920_sdk.E2e.Laws.{header_at}
use afi920_sdk.E2e.Tests.{test_headers, test_headers-IsDocumented}
use afi920_sdk.Reassembler.{create}
use afi920_sdk.Reassembler.Bounds.{create-WellFormed}
use afi920_sdk.Stream.{
  detection, Settings, StreamState, Consumed, is_passed, verdict, note_status, consume_e2e_header,
}
use afi920_sdk.Stream.Process.{
  data_id_rdi, data_id_shii, data_id_spi, process_rdi, process_shi, process_spi,
}
use afi920_sdk.Stream.Consume.{
  IsConsumed, consume_e2e_header-IsConsumed, consume_e2e_header_delivers,
}
use afi920_sdk.Stream.Steps.{IsGood}
use afi920_sdk.Stream.Delivery.{process_rdi-IsGood, process_shi-IsGood, process_spi-IsGood}
use afi920_sdk.Stream.Safe.{process_rdi-Returns, process_shi_spi_return}
use afi920_sdk.Stream.Loss.{track_all, last_counter, track_all_span}

abbrev strict : Settings
strict = record {
  validate_e2e = true;
  e2e_strict = true;
  rdi_cb = true;
  shi_cb = true;
  shi_meta_cb = true;
  spi_cb = true;
  spi_meta_cb = true;
  loss_cb = true;
  wire_payload_cb = true;
}

abbrev loose : Settings
loose = record strict { e2e_strict = false }

abbrev fresh : StreamState
fresh = record {
  rdi_tp = create 1024 512;
  stream_generation = unknown;
  rdi_frame_seq = 0;
  total_packets = 0;
  lost_packets = 0;
  last_rdi_e2e_counter = 0;
  first_rdi = true;
  rdi_failures = 0;
  shi_failures = 0;
  spi_failures = 0;
}

-- An E2E header for an empty body, with the checksum 7 and the counter 1.
abbrev frame : List ℕ
frame = 0 ∷ 0 ∷ 0 ∷ 0 ∷ 0 ∷ 0 ∷ 0 ∷ 7 ∷ 0 ∷ 0 ∷ 0 ∷ 0 ∷ 0 ∷ 0 ∷ 0 ∷ 1 ∷ 0x60 ∷ 0 ∷ 0x80 ∷ 2 ∷ []

abbrev datagram : List ℕ
datagram = (0x60 ∷ 0 ∷ 0x80 ∷ 2 ∷ 0 ∷ 0 ∷ 0 ∷ 28 ∷ 0 ∷ 0 ∷ 0 ∷ 1 ∷ 1 ∷ 1 ∷ 2 ∷ 0 ∷ []) ++ frame

abbrev consumed : Consumed
consumed = record { e2e = header_at frame; e2e_valid = true; payload = [] }

consumes :
    consume_e2e_header test_headers strict fresh detection frame data_id_rdi
    ≡ ok (record fresh { stream_generation = v1_1 }, some consumed)
unfolding consume_e2e_header e2e_validate e2e_parse e2e_status is_passed verdict note_status
    unpack_be32 byte
consumes = refl

consume_e2e_header-IsConsumed_example :
    IsConsumed test_headers test_headers-IsDocumented strict frame data_id_rdi consumed
consume_e2e_header-IsConsumed_example =
    consume_e2e_header-IsConsumed test_headers test_headers-IsDocumented strict fresh detection
      frame data_id_rdi consumes

consume_e2e_header_delivers_example :
    (s' : StreamState) × (k : Consumed) × (consume_e2e_header test_headers loose fresh detection
        frame 5
      ≡ ok (s', some k))
consume_e2e_header_delivers_example =
    consume_e2e_header_delivers test_headers test_headers-IsDocumented loose fresh detection frame 5
      refl (omega arith)

process_rdi-IsGood_example :
    Ensures
      (IsGood test_headers test_headers-IsDocumented strict data_id_rdi)
      (process_rdi test_headers strict fresh datagram 9)
process_rdi-IsGood_example =
    process_rdi-IsGood test_headers test_headers-IsDocumented strict fresh datagram 9
      (create-WellFormed 1024 512)

process_shi-IsGood_example :
    Ensures
      (IsGood test_headers test_headers-IsDocumented strict data_id_shii)
      (process_shi test_headers strict fresh datagram 9)
process_shi-IsGood_example =
    process_shi-IsGood test_headers test_headers-IsDocumented strict fresh datagram 9
      (create-WellFormed 1024 512)

process_spi-IsGood_example :
    Ensures
      (IsGood test_headers test_headers-IsDocumented strict data_id_spi)
      (process_spi test_headers strict fresh datagram 9)
process_spi-IsGood_example =
    process_spi-IsGood test_headers test_headers-IsDocumented strict fresh datagram 9
      (create-WellFormed 1024 512)

process_rdi-Returns_example : Returns (process_rdi test_headers strict fresh datagram 9)
process_rdi-Returns_example =
    process_rdi-Returns test_headers test_headers-IsDocumented strict fresh datagram 9

process_shi_spi_return_example :
    Returns (process_shi test_headers strict fresh datagram 9)
    × Returns (process_spi test_headers strict fresh datagram 9)
process_shi_spi_return_example =
    process_shi_spi_return test_headers test_headers-IsDocumented strict fresh datagram 9

-- Three frames, with two slots missing between the last two.
abbrev later : List ℕ
later = 5 ∷ 8 ∷ []

abbrev tracked : StreamState
tracked = track_all strict fresh (4 ∷ later)

track_all_span_example :
    (tracked.total_packets ≡ length (4 ∷ later) % 2 ^ 32)
    × (tracked.lost_packets + length (4 ∷ later) + 4 ≡ last_counter 4 later + 1)
track_all_span_example =
    track_all_span strict fresh 4 later refl refl refl
      (omega arith, omega arith, (omega arith, omega arith, omega arith))
