-- ===== src/Transport/TcpClient/Answer.antt =====
-- The bytes of src/transport/tcp_client.cpp: the request as a receiver reads it, and the response
-- that is accepted.
use afi920_sdk.Prelude.{
  inr, ℕ, ◌+◌, ◌^◌, ◌<◌, ◌≡◌, refl, ap, ◌∙◌, List, ◌++◌, true, arith, length, drop, if◌then◌else◌,
  ok, ◌==◌,
}
use afi920_sdk.Endian.{pack_be32, pack_be16}
use afi920_sdk.Interface.{InterfaceHeaders, IsDocumented}
use afi920_sdk.Someip.{SomeipHeader, someip_deserialize}
use afi920_sdk.Someip.Laws.{header_bytes, someip_deserialize-header_bytes}
use afi920_sdk.E2e.{Generation, passed, crc_zero, e2e_validate, e2e_write_header}
use afi920_sdk.E2e.RoundTrip.{e2e_validate-e2e_write_header}
use afi920_sdk.Transport.Network.{Network}
use afi920_sdk.Transport.TcpClient.Wire.{
  message_id, service_id, client_id, protocol_version, interface_version, msg_type_request,
}
use afi920_sdk.Transport.TcpClient.{request_frame}

module _ (net : Network) (h : InterfaceHeaders) where
  -- The request is the SOME/IP header of its fields, in front of the E2E header and the body.
  abbrev pub request_header : ℕ → ℕ → List ℕ → SomeipHeader
  request_header method session payload = record {
    service_id = service_id;
    method_id = method;
    length = 28 + length payload;
    client_id = client_id;
    session_id = session;
    protocol_version = protocol_version;
    interface_version = interface_version;
    message_type = msg_type_request;
    return_code = 0;
  }

  request_frame-header_bytes :
      (method session counter : ℕ) (payload : List ℕ)
      → method < 2 ^ 16
      → session < 2 ^ 16
      → 28 + length payload < 2 ^ 32
      → request_frame net h method session counter payload
        ≡ header_bytes (request_header method session payload)
          ++ (e2e_write_header h (message_id method) counter payload ++ payload)
  unfolding request_frame pack_be32 pack_be16
  request_frame-header_bytes method session counter payload m s l = ground arith

  module _ (doc : IsDocumented h) where
    -- A receiver with the SDK's own decoders reads back what a request says: the SOME/IP header has the
    -- method and the session, and the E2E check behind it passes with the Data ID of the method and
    -- the body's own length, or gives crc_zero where the body's CRC-32 happens to be zero. The
    -- method and the session have 16 bits, the counter 32, and the body is within the 32-bit length.
    pub request_frame-decodes :
        (method session counter : ℕ) (payload : List ℕ)
        → method < 2 ^ 16
        → session < 2 ^ 16
        → counter < 2 ^ 32
        → 28 + length payload < 2 ^ 32
        → (someip_deserialize (request_frame net h method session counter payload)
            ≡ ok (request_header method session payload))
          × (e2e_validate h
                (drop 16 (request_frame net h method session counter payload))
                (message_id method)
                true
              ≡ ok (
                (if h.bts_e2e_crc32 payload == 0 then crc_zero else passed),
                record {
                  crc_high = 0;
                  crc = h.bts_e2e_crc32 payload;
                  length = length payload;
                  counter = counter;
                  data_id = message_id method;
                  generation = Generation.v1_1;
                },
              ))
    request_frame-decodes method session counter payload m s k l =
        let e = request_frame-header_bytes method session counter payload m s l in
        (
          ap someip_deserialize e
              ∙ someip_deserialize-header_bytes (request_header method session payload) _ (record {
                service_fits = omega arith;
                method_fits = m;
                length_fits = l;
                client_fits = omega arith;
                session_fits = s;
              }),
          ap (λ f. e2e_validate h (drop 16 f) (message_id method) true) e
              ∙ unfold pack_be16 pack_be32 in
                e2e_validate-e2e_write_header h doc (message_id method) counter payload
                  (message_id method) true (omega (arith, m)) k (omega (arith, l)) (inr refl),
        )
