-- ===== src/Transport/TcpClient/Exchange.antt =====
-- What one request of src/transport/tcp_client.cpp does to the connection, whichever way it ends.
use afi920_sdk.Prelude.{
  ℕ, zero, suc, ◌+◌, ◌-◌, ◌≡◌, ◌≢◌, refl, ◌∙◌, List, [], ◌∷◌, Bool, true, false, arith,
  if◌then◌else◌, Bool-cases, inl, inr, ltb, length, ◌==◌, ◌&&◌,
}
use afi920_sdk.Endian.Laws.{be32_at, byte_at}
use afi920_sdk.Interface.{InterfaceHeaders}
use afi920_sdk.Transport.Network.{
  Network, CountsFiles, Received, got, closed, interrupted, timed_out, failed, Sent, sent, unsent,
}
use afi920_sdk.Transport.Sending.{send_all, send_rounds, after_send}
use afi920_sdk.Transport.TcpClient.Wire.{
  Reply, Reading, complete, lost, late, tcp_timeout, TcpResult, tcp_ok, tcp_transport, tcp_protocol,
  answers, someip_header_size, e2e_header_bytes,
}
use afi920_sdk.Transport.TcpClient.{
  Client, close_locked, give_up, read_body, read_header, await_response, numbered, exchange_locked,
  recv_exact, recv_rounds, received,
}

module _ (net : Network) (h : InterfaceHeaders) (files : CountsFiles net) where
  open net use {World, recv, send}
  open files use {held, close_held, recv_held, send_held}

  received_held :
      (later : ℕ → List ℕ → World → Reading × World) (n : ℕ) (buf : List ℕ) (r : Received × World)
      → ((m : ℕ) (front : List ℕ) (w : World) → held (later m front w).1 ≡ held w)
      → held (received net h later n buf r).1 ≡ held r.1
  unfolding received
  received_held later n buf (got b bs, w) p = p _ _ w
  received_held later n buf (interrupted, w) p = refl
  received_held later n buf (closed, w) p = refl
  received_held later n buf (timed_out, w) p = refl
  received_held later n buf (failed, w) p = refl

  recv_rounds_held :
      (rounds n : ℕ) (buf : List ℕ) (w : World) → held (recv_rounds net h rounds n buf w).1 ≡ held w
  unfolding recv_rounds
  recv_rounds_held zero n buf w = refl
  recv_rounds_held (suc rounds) zero buf w = refl
  recv_rounds_held (suc rounds) (suc n) buf w =
      received_held (recv_rounds net h rounds) n buf (recv w (suc n)) (recv_rounds_held rounds)
      ∙ recv_held w (suc n)

  recv_exact_held : (n : ℕ) (w : World) → held (recv_exact net h n w).1 ≡ held w
  unfolding recv_exact
  recv_exact_held n w = recv_rounds_held n n [] w

  after_send_held :
      (later : List ℕ → World → Bool × World) (bytes : List ℕ) (r : Sent × World)
      → ((rest : List ℕ) (w : World) → held (later rest w).1 ≡ held w)
      → held (after_send net later bytes r).1 ≡ held r.1
  unfolding after_send
  after_send_held later bytes (sent zero, w) p = refl
  after_send_held later bytes (sent (suc k), w) p = p _ w
  after_send_held later bytes (unsent, w) p = refl

  send_rounds_held :
      (n : ℕ) (bytes : List ℕ) (w : World) → held (send_rounds net n bytes w).1 ≡ held w
  unfolding send_rounds
  send_rounds_held zero bytes w = refl
  send_rounds_held (suc n) [] w = refl
  send_rounds_held (suc n) (b ∷ bs) w =
      after_send_held (send_rounds net n) (b ∷ bs) (send w (b ∷ bs)) (send_rounds_held n)
      ∙ send_held w (b ∷ bs)

  pub send_all_held : (bytes : List ℕ) (w : World) → held (send_all net bytes w).1 ≡ held w
  unfolding send_all
  send_all_held bytes w = send_rounds_held (length bytes) bytes w

  -- The client holds one descriptor exactly while it has a socket.
  unfoldable pub IsHeld : ℕ → Client net h → Type 0
  IsHeld base c = held c.world ≡ base + (if c.has_socket then 1 else 0)

  -- What the exchange leaves of the client `c`: its descriptor is accounted for, the generation and
  -- the endpoint stay, no socket appears, and a failure leaves none.
  pub record IsExchanged (base : ℕ) (c : Client net h) (r : Reply × Client net h) : Type 0 where
    pub owned : IsHeld base r.1
    pub same_generation : r.1.generation ≡ c.generation
    pub same_reconnect : r.1.reconnect ≡ c.reconnect
    pub same_session : r.1.session_id ≡ c.session_id
    pub closes : r.0.result ≢ tcp_ok → r.1.has_socket ≡ false
    pub answered : r.0.result ≡ tcp_ok → r.1.has_socket ≡ c.has_socket

  module _ (base : ℕ) (c : Client net h) (inv : IsHeld base c) where
    pub close_locked-IsHeld : IsHeld base (close_locked net h c)
    unfolding IsHeld close_locked
    close_locked-IsHeld = ground (arith, inv, close_held c.world)

    give_up-IsExchanged :
        (r : TcpResult) (code : ℕ) (w : World)
        → held w ≡ held c.world
        → r ≢ tcp_ok
        → IsExchanged base c (give_up net h r code (record c { world = w }))
    unfolding IsHeld close_locked give_up
    give_up-IsExchanged r code w e n = ground (arith, inv, e, close_held w, n)

    -- A response that is accepted keeps the connection.
    kept :
        (reply : Reply) (verdict : Bool) (w : World)
        → held w ≡ held c.world
        → reply.result ≡ tcp_ok
        → IsExchanged base c (reply, record c { world = w; last_e2e_ok = verdict })
    unfolding IsHeld
    kept reply verdict w e o = record {
      owned = e ∙ inv;
      same_generation = refl;
      same_reconnect = refl;
      same_session = refl;
      closes = λ n. absurd (n o);
      answered = λ q. refl;
    }

    read_body-IsExchanged :
        (method : ℕ) (probe : Bool) (code : ℕ) (r : Reading × World)
        → held r.1 ≡ held c.world
        → IsExchanged base c (read_body net h method probe code c r)
    unfolding read_body
    read_body-IsExchanged method probe code (lost, w) e =
        give_up-IsExchanged tcp_transport code w e (λ q. cc)
    read_body-IsExchanged method probe code (late, w) e =
        give_up-IsExchanged tcp_timeout code w e (λ q. cc)
    read_body-IsExchanged method probe code (complete body, w) e =
        elim (Bool-cases (probe && byte_at body 0 == b'{')) [
          | inl brace ↦ rw brace (kept _ _ w e refl)
          | inr headed ↦ rw headed (elim (Bool-cases (ltb (length body) e2e_header_bytes)) [
            | inl short ↦ rw short (give_up-IsExchanged tcp_protocol code w e (λ q. cc))
            | inr long ↦ rw long (kept _ _ w e refl)
          ])
        ]

    read_header-IsExchanged :
        (method : ℕ) (probe : Bool) (r : Reading × World)
        → held r.1 ≡ held c.world
        → IsExchanged base c (read_header net h method probe c r)
    unfolding read_header
    read_header-IsExchanged method probe (lost, w) e =
        give_up-IsExchanged tcp_transport 0 w e (λ q. cc)
    read_header-IsExchanged method probe (late, w) e =
        give_up-IsExchanged tcp_timeout 0 w e (λ q. cc)
    read_header-IsExchanged method probe (complete hdr, w) e =
        elim (Bool-cases (answers method c.session_id probe hdr)) [
          | inl ours ↦ rw ours (
              read_body-IsExchanged method probe (byte_at hdr 15)
                (recv_exact net h (be32_at hdr 4 - 8) w)
                (recv_exact_held (be32_at hdr 4 - 8) w ∙ e))
          | inr other ↦ rw other (give_up-IsExchanged tcp_protocol 0 w e (λ q. cc))
        ]

    await_response-IsExchanged :
        (method : ℕ) (probe : Bool) (r : Bool × World)
        → held r.1 ≡ held c.world
        → IsExchanged base c (await_response net h method probe c r)
    unfolding await_response
    await_response-IsExchanged method probe (true, w) e =
        read_header-IsExchanged method probe (recv_exact net h someip_header_size w)
          (recv_exact_held someip_header_size w ∙ e)
    await_response-IsExchanged method probe (false, w) e =
        give_up-IsExchanged tcp_transport 0 w e (λ q. cc)

  -- Whichever way a request ends, the descriptor is accounted for, and generation, endpoint and the
  -- session id of the request stay. Every failure (a short send, a lost or late response, a header
  -- that does not answer the request, a body without an E2E header) closes the connection, so that no
  -- late response is read as the next answer; an accepted response keeps it.
  pub exchange_locked-IsExchanged :
      (base method : ℕ) (payload : List ℕ) (probe : Bool) (c : Client net h)
      → IsHeld base c
      → IsExchanged base (numbered net h c) (exchange_locked net h method payload probe c)
  unfolding exchange_locked numbered IsHeld
  exchange_locked-IsExchanged base method payload probe c inv =
      await_response-IsExchanged base (numbered net h c) inv method probe _
        (send_all_held _ c.world)
