-- ===== src/Transport/Tests/TcpClientRuns.antt =====
-- Runs of src/transport/tcp_client.cpp over the network in memory, with a checksum that is always 7 in
-- place of the interface headers'.
use afi920_sdk.Prelude.{ℕ, ◌≡◌, refl, List, [], ◌∷◌, true, false, arith, map, inl, ok, drop}
use afi920_sdk.Endian.{pack_be16, pack_be32}
use afi920_sdk.E2e.{v1_0, v1_1, e2e_write_header, e2e_validate, passed}
use afi920_sdk.E2e.Tests.{test_headers, test_headers-IsDocumented}
use afi920_sdk.Someip.{someip_deserialize}
use afi920_sdk.Transport.Tests.InMemory.{
  Line, octet, in_memory, in_memory-IsStream, in_memory-CountsFiles,
}
use afi920_sdk.Transport.Sending.{send_all, send_rounds, after_send}
use afi920_sdk.Transport.TcpClient.Wire.{
  failure, tcp_legacy_sensor, msg_type_response, message_id, next_session,
}
use afi920_sdk.Transport.TcpClient.{Client, numbered, exchange_locked, request_frame, send_request}
use afi920_sdk.Transport.TcpClient.Exchange.{IsHeld, IsExchanged, exchange_locked-IsExchanged}
use afi920_sdk.Transport.TcpClient.Linked.{IsLinked}
use afi920_sdk.Transport.TcpClient.Calls.{
  Call, connect_call, disconnect_call, request_call, run, run-IsLinked, legacy_quiet, requests,
  disconnects,
}
use afi920_sdk.Transport.TcpClient.Answer.{request_frame-decodes, request_header}
use afi920_sdk.Transport.TcpClient.Accept.{IsAnswered, exchange_locked-IsAnswered}

-- A response to method 0x11 in session 3, return code 7, with the body "{}", and one byte behind it.
abbrev pub response_bytes : List ℕ
response_bytes =
    0x60 ∷ 0 ∷ 0 ∷ 0x11 ∷ 0 ∷ 0 ∷ 0 ∷ 30 ∷ 0 ∷ 1 ∷ 0 ∷ 3 ∷ 1 ∷ 1 ∷ 0x80 ∷ 7 ∷ 0 ∷ 0 ∷ 0 ∷ 0 ∷ 0 ∷ 0
    ∷ 0 ∷ 7 ∷ 0 ∷ 0 ∷ 0 ∷ 2 ∷ 0 ∷ 0 ∷ 0 ∷ 9 ∷ 0x60 ∷ 0 ∷ 0 ∷ 0x11 ∷ 123 ∷ 125 ∷ 55 ∷ []

abbrev pub answering : Line
answering = record { arrivals = map octet response_bytes; written = []; files = 1; listens = true }

abbrev pub linked : Client in_memory test_headers
linked = record {
  world = answering;
  ip = 10;
  port = 30500;
  has_socket = true;
  reconnect = true;
  last_e2e_ok = false;
  session_id = 2;
  e2e_counter = 4;
  generation = v1_1;
}

abbrev sent_request : List ℕ
sent_request = request_frame in_memory test_headers 0x11 3 5 (123 ∷ 125 ∷ [])

exchange_locked-IsAnswered_example :
    IsAnswered in_memory test_headers test_headers-IsDocumented in_memory-IsStream
      (numbered in_memory test_headers linked)
      7
      (123 ∷ 125 ∷ [])
      (55 ∷ [])
      (exchange_locked in_memory test_headers 0x11 (123 ∷ 125 ∷ []) false linked)
unfolding pack_be16 pack_be32 e2e_write_header numbered next_session request_frame send_all
    send_rounds after_send
exchange_locked-IsAnswered_example =
    exchange_locked-IsAnswered in_memory test_headers test_headers-IsDocumented in_memory-IsStream
      0x11 msg_type_response 7 9 (123 ∷ 125 ∷ []) (55 ∷ []) false (omega arith) (omega arith)
      (omega arith) linked (123 ∷ 125 ∷ []) (record answering { written = sent_request }) (inl refl)
      refl refl refl

exchange_locked-IsExchanged_example :
    IsExchanged in_memory test_headers in_memory-CountsFiles 0
      (numbered in_memory test_headers linked)
      (exchange_locked in_memory test_headers 0x12 [] false linked)
exchange_locked-IsExchanged_example =
    exchange_locked-IsExchanged in_memory test_headers in_memory-CountsFiles 0 0x12 [] false linked
      (unfold IsHeld in refl)

abbrev some_calls : List (Call in_memory test_headers)
some_calls =
    request_call 0x12 [] ∷ connect_call 10 30500 ∷ disconnect_call ∷ request_call 0x11 [] ∷ []

run-IsLinked_example :
    IsLinked in_memory test_headers in_memory-CountsFiles 0
      (run in_memory test_headers some_calls linked)
run-IsLinked_example =
    run-IsLinked in_memory test_headers in_memory-CountsFiles 0 some_calls linked
      (record { owned = unfold IsHeld in refl; current = λ e. refl })

abbrev pub legacy_client : Client in_memory test_headers
legacy_client = record linked { has_socket = false; generation = v1_0 }

abbrev quiet_calls : List (Call in_memory test_headers)
quiet_calls = request_call 0x12 [] ∷ disconnect_call ∷ []

legacy_quiet_example :
    ((run in_memory test_headers quiet_calls legacy_client).world ≡ answering)
    × ((send_request in_memory test_headers 0x40 []
          (run in_memory test_headers quiet_calls legacy_client)).1.world
        ≡ answering)
    × ((send_request in_memory test_headers 0x40 []
          (run in_memory test_headers quiet_calls legacy_client)).0
        ≡ failure tcp_legacy_sensor 0)
legacy_quiet_example =
    legacy_quiet in_memory test_headers quiet_calls legacy_client 0x40 [] refl refl
      (requests 0x12 [], (disconnects, tt))

request_frame-decodes_example :
    (someip_deserialize (request_frame in_memory test_headers 0x11 3 5 (123 ∷ 125 ∷ []))
      ≡ ok (request_header in_memory test_headers 0x11 3 (123 ∷ 125 ∷ [])))
    × (e2e_validate test_headers
          (drop 16 (request_frame in_memory test_headers 0x11 3 5 (123 ∷ 125 ∷ [])))
          (message_id 0x11)
          true
        ≡ ok (
          passed,
          record {
            crc_high = 0;
            crc = 7;
            length = 2;
            counter = 5;
            data_id = message_id 0x11;
            generation = v1_1;
          },
        ))
request_frame-decodes_example =
    request_frame-decodes in_memory test_headers test_headers-IsDocumented 0x11 3 5 (123 ∷ 125 ∷ [])
      (omega arith) (omega arith) (omega arith) (omega arith)
