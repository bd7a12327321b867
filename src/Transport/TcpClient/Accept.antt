-- ===== src/Transport/TcpClient/Accept.antt =====
-- The response that src/transport/tcp_client.cpp accepts, from the bytes on the stream to the reply.
use afi920_sdk.Prelude.{
  ap₂, subst, not, ◌⊎◌, inr, ℕ, ◌+◌, ◌^◌, ◌≤◌, ◌<◌, ◌≡◌, refl, sym, ap, ◌∙◌, List, [], ◌++◌, Bool,
  true, false, arith, length, drop, if◌then◌else◌, if_false, ok, ◌==◌, ◌&&◌, ltb,
}
use afi920_sdk.Endian.{pack_be32, pack_be16}
use afi920_sdk.Endian.Laws.{be32_at, byte_at}
use afi920_sdk.Interface.{InterfaceHeaders, IsDocumented}
use afi920_sdk.Someip.{SomeipHeader}
use afi920_sdk.Someip.Laws.{header_bytes}
use afi920_sdk.E2e.{E2eHeader, passed, crc_zero, e2e_validate, e2e_write_header}
use afi920_sdk.E2e.RoundTrip.{e2e_validate-e2e_write_header, write_header_bytes}
use afi920_sdk.Transport.Network.{Network, IsStream}
use afi920_sdk.Transport.Sending.{send_all}
use afi920_sdk.Transport.TcpClient.Wire.{
  Reply, Reading, complete, lost, late, tcp_ok, answers, is_ok, next_session, message_id,
  service_id, client_id, protocol_version, interface_version, msg_type_response, msg_type_error,
  e2e_header_bytes, max_response_payload,
}
use afi920_sdk.Transport.TcpClient.{
  Client, read_body, read_header, await_response, numbered, exchange_locked, request_frame,
}
use afi920_sdk.Transport.TcpClient.Reads.{recv_exact-Gets, Gets}

-- A response to `method` in `session`, with `size` bytes behind its SOME/IP header.
abbrev pub response_header : ℕ → ℕ → ℕ → ℕ → ℕ → SomeipHeader
response_header method session size kind code = record {
  service_id = service_id;
  method_id = method;
  length = 8 + size;
  client_id = client_id;
  session_id = session;
  protocol_version = protocol_version;
  interface_version = interface_version;
  message_type = kind;
  return_code = code;
}

module _ (method session size kind code : ℕ) (m : method < 2 ^ 16) (s : session < 2 ^ 16)
    (l : size ≤ max_response_payload) where
  private_size : be32_at (header_bytes (response_header method session size kind code)) 4 ≡ 8 + size
  unfolding pack_be16 pack_be32
  private_size = ground arith

  code_at : byte_at (header_bytes (response_header method session size kind code)) 15 ≡ code
  unfolding pack_be16 pack_be32
  code_at = refl

  answers-response_header :
      (probe : Bool)
      → e2e_header_bytes ≤ size
      → (kind ≡ msg_type_response) ⊎ (kind ≡ msg_type_error)
      → answers method session probe (header_bytes (response_header method session size kind code))
        ≡ true
  unfolding answers pack_be16 pack_be32
  answers-response_header probe z k = ground (arith, z, k)

-- A session id has 16 bits.
next_session-fits : (session : ℕ) → next_session session < 2 ^ 16
unfolding next_session
next_session-fits session = ground arith

complete_injective : {xs ys : List ℕ} → complete xs ≡ complete ys → xs ≡ ys
complete_injective e = cc

module _ (net : Network) (h : InterfaceHeaders) (doc : IsDocumented h) where
  -- A body behind the E2E header that the sender writes for it.
  abbrev pub sealed : ℕ → ℕ → List ℕ → List ℕ
  sealed method counter body = e2e_write_header h (message_id method) counter body ++ body

  module _ (method counter : ℕ) (body : List ℕ) where
    length-sealed : length (sealed method counter body) ≡ 20 + length body
    unfolding pack_be32
    length-sealed =
        omega (arith, ap length (write_header_bytes h doc (message_id method) counter body))

    drop-sealed : drop e2e_header_bytes (sealed method counter body) ≡ body
    unfolding pack_be32
    drop-sealed =
        ap (drop e2e_header_bytes) (write_header_bytes h doc (message_id method) counter body)

    byte_at-sealed : byte_at (sealed method counter body) 0 ≡ 0
    unfolding pack_be32
    byte_at-sealed =
        ap (λ p. byte_at p 0) (write_header_bytes h doc (message_id method) counter body)

    -- The verdict on a sealed body: it passes unless its CRC-32 is zero.
    is_ok-sealed :
        method < 2 ^ 16
        → counter < 2 ^ 32
        → length body < 2 ^ 32
        → is_ok (e2e_validate h (sealed method counter body) (message_id method) true)
          ≡ not (h.bts_e2e_crc32 body == 0)
    is_ok-sealed m k l =
        ap is_ok (
          e2e_validate-e2e_write_header h doc (message_id method) counter body (message_id method)
            true (omega (arith, m)) k l (inr refl))
        ∙ verdict (h.bts_e2e_crc32 body == 0) _
      where
        verdict :
            (b : Bool) (e : E2eHeader) → is_ok (ok ((if b then crc_zero else passed), e)) ≡ not b
        verdict b e = unfold is_ok in ground arith

    read_body-sealed :
        (probe : Bool) (code : ℕ) (c : Client net h) (w : net.World)
        → method < 2 ^ 16
        → counter < 2 ^ 32
        → length body < 2 ^ 32
        → read_body net h method probe code c (complete (sealed method counter body), w) ≡ (
          record { result = tcp_ok; return_code = code; response = body; legacy = false },
          record c { world = w; last_e2e_ok = not (h.bts_e2e_crc32 body == 0) },
        )
    unfolding read_body
    read_body-sealed probe code c w m k l =
        if_false (probe && byte_at (sealed method counter body) 0 == b'{') _ _
          (ground (arith, byte_at-sealed))
        ∙ if_false (ltb (length (sealed method counter body)) e2e_header_bytes) _ _
            (ground (arith, length-sealed))
        ∙ ap₂
            (λ (out : List ℕ) (good : Bool). (
              record { result = tcp_ok; return_code = code; response = out; legacy = false },
              record c { world = w; last_e2e_ok = good },
            ))
            drop-sealed (is_ok-sealed m k l)

  module _ (st : IsStream net) where
    open net use {World}
    open st use {pending, interrupts}

    -- The reply that `body` gives, and the client that read it.
    pub record IsAnswered (c : Client net h) (code : ℕ) (body rest : List ℕ)
        (r : Reply × Client net h) : Type 0 where
      pub replies :
          r.0 ≡ record { result = tcp_ok; return_code = code; response = body; legacy = false }
      pub verdict : r.1.last_e2e_ok ≡ not (h.bts_e2e_crc32 body == 0)
      pub stays : r.1.has_socket ≡ c.has_socket
      pub leaves : pending r.1.world ≡ rest

    module _ (method kind code counter : ℕ) (body rest : List ℕ) (probe : Bool)
        (m : method < 2 ^ 16) (k : counter < 2 ^ 32)
        (l : e2e_header_bytes + length body ≤ max_response_payload) where
      body-IsAnswered :
          (c : Client net h) (r : Reading × World)
          → Gets net h st (sealed method counter body) rest [] r
          → IsAnswered c code body rest (read_body net h method probe code c r)
      body-IsAnswered c (got_bytes, w) (e, p, i) =
          let x =
            ap (λ g. read_body net h method probe code c (g, w)) e
            ∙ read_body-sealed method counter body probe code c w m k (omega (arith, l)) in
          subst (IsAnswered c code body rest) (sym x)
            (record { replies = refl; verdict = refl; stays = refl; leaves = p })

      header-IsAnswered :
          (c : Client net h) (r : Reading × World)
          → c.session_id < 2 ^ 16
          → (kind ≡ msg_type_response) ⊎ (kind ≡ msg_type_error)
          → Gets net h st
              (header_bytes (response_header method c.session_id (20 + length body) kind code))
              (sealed method counter body ++ rest)
              []
              r
          → IsAnswered c code body rest (read_header net h method probe c r)
      unfolding read_header
      header-IsAnswered c (lost, w) s t (e, p, i) = absurd (cc)
      header-IsAnswered c (late, w) s t (e, p, i) = absurd (cc)
      header-IsAnswered c (complete hdr, w) s t (e, p, i) =
          let same : hdr
              ≡ header_bytes (response_header method c.session_id (20 + length body) kind code) =
            complete_injective e in
          subst
            (λ hdr.
              IsAnswered c code body rest (read_header net h method probe c (complete hdr, w)))
            (sym same)
            (rw
              (
                answers-response_header method c.session_id (20 + length body) kind code m s l probe
                    (omega arith) t,
                code_at method c.session_id (20 + length body) kind code m s l,
              )
              (body-IsAnswered c _ (
                recv_exact-Gets net h st _ (sealed method counter body) rest w
                  (omega (
                    arith,
                    length-sealed method counter body,
                    private_size method c.session_id (20 + length body) kind code m s l,
                  ))
                  p i)))

      -- A sensor's response is delivered. If the request goes out, and the stream then holds a response
      -- with the Message ID and the session of this request, of type RESPONSE or ERROR, whose body
      -- stands behind the E2E header written for it, then whichever way the stream is cut the caller
      -- gets the radar's return code and exactly that body, the connection stays up, exactly the bytes
      -- of the response are consumed, and the E2E verdict is true unless the body's CRC-32 is zero.
      -- No signal interrupts the reads, the method has 16 bits, the sender's counter 32, and the body
      -- is within the payload limit. It holds for the probe too.
      pub exchange_locked-IsAnswered :
          (c : Client net h) (payload : List ℕ) (w : World)
          → (kind ≡ msg_type_response) ⊎ (kind ≡ msg_type_error)
          → send_all net
              (request_frame net h method
                (numbered net h c).session_id
                (numbered net h c).e2e_counter
                payload)
              c.world
            ≡ (true, w)
          → pending w
            ≡ header_bytes
                (response_header method (next_session c.session_id) (20 + length body) kind code)
              ++ (sealed method counter body ++ rest)
          → interrupts w ≡ 0
          → IsAnswered
              (numbered net h c)
              code
              body
              rest
              (exchange_locked net h method payload probe c)
      unfolding exchange_locked await_response numbered
      exchange_locked-IsAnswered c payload w t sends holds calm = rw sends (
          header-IsAnswered (numbered net h c) _ (next_session-fits c.session_id) t (
            recv_exact-Gets net h st 16 _ (sealed method counter body ++ rest) w header_sized holds
              calm))
        where
          header_sized :
              length (
                header_bytes
                  (response_header method (next_session c.session_id) (20 + length body) kind code))
              ≡ 16
          header_sized = unfold pack_be16 pack_be32 in refl
