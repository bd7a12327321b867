-- ===== src/Transport/TcpClient.antt =====
-- src/transport/tcp_client.h and tcp_client.cpp: the connection of the configuration API. Locks,
-- socket options and timeouts, which belong to the operating system, are left out, and so are log
-- lines. A request fails or is answered before the next one starts, as the mutex has it.
pub mod Wire
pub mod Exchange
pub mod Linked
pub mod Calls
pub mod Answer
pub mod Accept
pub mod Reads
use afi920_sdk.Prelude.{
  ℕ, zero, suc, ◌+◌, ◌-◌, ◌*◌, ◌%◌, ◌^◌, List, [], ◌∷◌, ◌++◌, Bool, true, false, not, ◌&&◌, ◌||◌,
  Option, none, some, length, drop, ltb, ◌==◌, ◌!=◌, if◌then◌else◌, Outcome, ok, reject, fault,
}
use afi920_sdk.Endian.{pack_be32}
use afi920_sdk.Endian.Laws.{be16_at, be32_at, byte_at}
use afi920_sdk.Interface.{InterfaceHeaders}
use afi920_sdk.E2e.{
  Generation, unknown, v1_0, v1_1, E2eStatus, E2eHeader, passed, crc_mismatch, too_short,
  length_mismatch, data_id_mismatch, crc_zero, e2e_validate, e2e_write_header,
}
use afi920_sdk.Transport.Network.{
  Network, Received, got, closed, interrupted, timed_out, failed, Connecting, connected,
  in_progress, refused,
}
use afi920_sdk.Transport.Sending.{send_all}
use afi920_sdk.Transport.TcpClient.Wire.{
  service_id, protocol_version, interface_version, msg_type_request, msg_type_response,
  msg_type_error, client_id, someip_header_size, e2e_header_bytes, max_response_payload,
  max_request_body, get_device_info, empty_json, failure, next_session, message_id, request_id,
  answers, is_ok, is_connected, is_v1_0, TcpResult, tcp_ok, tcp_transport, tcp_timeout,
  tcp_protocol, tcp_too_large, tcp_legacy_sensor, Reading, complete, lost, late, Reply,
}

module _ (net : Network) (h : InterfaceHeaders) where
  open net use {World, Ip, inet_pton, socket, connect, recv, close}

  pub record Client : Type 0 where
    pub world : World
    pub ip : Ip
    pub port : ℕ
    pub has_socket : Bool
    pub reconnect : Bool
    pub last_e2e_ok : Bool
    pub session_id : ℕ
    pub e2e_counter : ℕ
    pub generation : Generation

  -- `RecvExact`: each answer with bytes brings one at least, so the count bounds the rounds.
  unfoldable pub received :
      (ℕ → List ℕ → World → Reading × World) → ℕ → List ℕ → Received × World → Reading × World
  received later n buf (got b bs, w) = later (n - length bs) (buf ++ (b ∷ bs)) w
  received later n buf (closed, w) = (lost, w)
  received later n buf (timed_out, w) = (late, w)
  received later n buf (interrupted, w) = (lost, w)
  received later n buf (failed, w) = (lost, w)

  unfoldable pub recv_rounds : ℕ → ℕ → List ℕ → World → Reading × World
  recv_rounds zero n buf w = (complete buf, w)
  recv_rounds (suc rounds) zero buf w = (complete buf, w)
  recv_rounds (suc rounds) (suc n) buf w = received (recv_rounds rounds) n buf (recv w (suc n))

  unfoldable pub recv_exact : ℕ → World → Reading × World
  recv_exact n w = recv_rounds n n [] w

  -- `CloseLocked`
  unfoldable pub close_locked : Client → Client
  close_locked c =
      if c.has_socket then record c { world = close c.world; has_socket = false } else c

  -- A failure of the exchange closes the connection.
  unfoldable pub give_up : TcpResult → ℕ → Client → Reply × Client
  give_up r code c = (failure r code, close_locked c)

  -- The whole request: SOME/IP header, E2E header and body.
  unfoldable pub request_frame : ℕ → ℕ → ℕ → List ℕ → List ℕ
  request_frame method session counter payload =
      pack_be32 (message_id method)
      ++ (pack_be32 ((8 + (e2e_header_bytes + length payload)) % 2 ^ 32)
          ++ (pack_be32 (request_id session)
              ++ ((protocol_version ∷ interface_version ∷ msg_type_request ∷ 0 ∷ [])
                  ++ (e2e_write_header h (message_id method) counter payload ++ payload))))

  -- `ExchangeLocked` behind the response body.
  unfoldable pub read_body : ℕ → Bool → ℕ → Client → Reading × World → Reply × Client
  read_body method probe code c (lost, w) = give_up tcp_transport code (record c { world = w })
  read_body method probe code c (late, w) = give_up tcp_timeout code (record c { world = w })
  read_body method probe code c (complete body, w) =
      let read = record c { world = w } in
      if probe && byte_at body 0 == b'{'
      then (record { result = tcp_ok; return_code = code; response = body; legacy = true }, read)
      else if ltb (length body) e2e_header_bytes
      then give_up tcp_protocol code read
      else (
        record {
          result = tcp_ok;
          return_code = code;
          response = drop e2e_header_bytes body;
          legacy = false;
        },
        record read { last_e2e_ok = is_ok (e2e_validate h body (message_id method) true) },
      )

  -- `ExchangeLocked` behind the response header.
  unfoldable pub read_header : ℕ → Bool → Client → Reading × World → Reply × Client
  read_header method probe c (lost, w) = give_up tcp_transport 0 (record c { world = w })
  read_header method probe c (late, w) = give_up tcp_timeout 0 (record c { world = w })
  read_header method probe c (complete hdr, w) =
      if answers method c.session_id probe hdr
      then read_body method probe (byte_at hdr 15) c (recv_exact (be32_at hdr 4 - 8) w)
      else give_up tcp_protocol 0 (record c { world = w })

  unfoldable pub await_response : ℕ → Bool → Client → Bool × World → Reply × Client
  await_response method probe c (true, w) =
      read_header method probe c (recv_exact someip_header_size w)
  await_response method probe c (false, w) = give_up tcp_transport 0 (record c { world = w })

  -- The counters that a request takes.
  unfoldable pub numbered : Client → Client
  numbered c = record c {
    session_id = next_session c.session_id;
    e2e_counter = (c.e2e_counter + 1) % 2 ^ 32;
  }

  -- `ExchangeLocked`, with whether `legacy_body` is set.
  unfoldable pub exchange_locked : ℕ → List ℕ → Bool → Client → Reply × Client
  exchange_locked method payload probe c =
      let next = numbered c in
      await_response method probe next
        (send_all net (request_frame method next.session_id next.e2e_counter payload) next.world)

  -- `ProbeLocked` behind its exchange: the result, and whether the body is a v1.0.x one.
  unfoldable pub decided : TcpResult → Bool → Client → TcpResult × Client
  decided tcp_ok true c = (tcp_ok, close_locked (record c { generation = v1_0 }))
  decided tcp_ok false c = (tcp_ok, record c { generation = v1_1 })
  decided tcp_transport legacy c = (tcp_transport, c)
  decided tcp_timeout legacy c = (tcp_timeout, c)
  decided tcp_protocol legacy c = (tcp_protocol, c)
  decided tcp_too_large legacy c = (tcp_too_large, c)
  decided tcp_legacy_sensor legacy c = (tcp_legacy_sensor, c)

  unfoldable pub probed : Reply × Client → TcpResult × Client
  probed r = decided r.0.result r.0.legacy r.1

  unfoldable pub probe_locked : Client → TcpResult × Client
  probe_locked c = probed (exchange_locked get_device_info empty_json true c)

  -- `ConnectLocked` behind its socket: the address, the connect, and the probe.
  unfoldable pub connect_socket : Client → Option ℕ → TcpResult × Client
  connect_socket c none = (tcp_transport, close_locked c)
  connect_socket c (some address) =
      let k = connect c.world address c.port in
      if is_connected k.0
      then probe_locked (record c { world = k.1; session_id = 0 })
      else (tcp_transport, close_locked (record c { world = k.1 }))

  unfoldable pub connect_locked : Client → TcpResult × Client
  connect_locked c =
      let shut = close_locked c in
      let s = socket shut.world in
      if s.0
      then connect_socket (record shut { world = s.1; has_socket = true }) (inet_pton shut.ip)
      else (tcp_transport, record shut { world = s.1 })

  -- `Connect`
  unfoldable pub connect_to : Ip → ℕ → Client → TcpResult × Client
  connect_to ip port c =
      connect_locked (record c { ip = ip; port = port; reconnect = true; generation = unknown })

  unfoldable pub disconnect : Client → Client
  disconnect c = close_locked (record c { reconnect = false })

  -- `SendRequest` behind a reconnect on demand.
  unfoldable pub send_connected : ℕ → List ℕ → TcpResult × Client → Reply × Client
  send_connected method payload (tcp_ok, c) =
      if is_v1_0 c.generation
      then (failure tcp_legacy_sensor 0, c)
      else exchange_locked method payload false c
  send_connected method payload (tcp_transport, c) = (failure tcp_transport 0, c)
  send_connected method payload (tcp_timeout, c) = (failure tcp_transport 0, c)
  send_connected method payload (tcp_protocol, c) = (failure tcp_transport 0, c)
  send_connected method payload (tcp_too_large, c) = (failure tcp_transport 0, c)
  send_connected method payload (tcp_legacy_sensor, c) = (failure tcp_transport 0, c)

  unfoldable pub send_request : ℕ → List ℕ → Client → Reply × Client
  send_request method payload c =
      let fresh = record c { last_e2e_ok = false } in
      if is_v1_0 c.generation
      then (failure tcp_legacy_sensor 0, fresh)
      else if ltb max_request_body (length payload)
      then (failure tcp_too_large 0, fresh)
      else if c.has_socket
      then exchange_locked method payload false fresh
      else if c.reconnect
      then send_connected method payload (connect_locked fresh)
      else (failure tcp_transport 0, fresh)
