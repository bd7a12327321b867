-- ===== src/Transport/TcpClient/Calls.antt =====
-- The connection of src/transport/tcp_client.cpp over any sequence of calls, and its silence towards a
-- v1.0.x sensor.
use afi920_sdk.Prelude.{
  subst, All, if_ind, sym, ℕ, ◌≡◌, refl, ap, ◌∙◌, List, [], ◌∷◌, false, arith, Bool-cases, inl, inr,
  if_true, if_false, ltb, length,
}
use afi920_sdk.Transport.TcpClient.{
  Client, close_locked, exchange_locked, connect_locked, connect_to, disconnect, send_connected,
  send_request,
}
use afi920_sdk.Interface.{InterfaceHeaders}
use afi920_sdk.E2e.{v1_0}
use afi920_sdk.Transport.Network.{Network, CountsFiles}
use afi920_sdk.Transport.TcpClient.Wire.{
  Reply, TcpResult, tcp_ok, tcp_transport, tcp_timeout, tcp_protocol, tcp_too_large,
  tcp_legacy_sensor, failure, is_v1_0, max_request_body,
}
use afi920_sdk.Transport.TcpClient.Exchange.{IsHeld, exchange_locked-IsExchanged}
use afi920_sdk.Transport.TcpClient.Linked.{
  IsLinked, close_locked-IsLinked, exchanged-IsLinked, connect_locked-IsLinked,
}

module _ (net : Network) (h : InterfaceHeaders) where
  open net use {World, Ip}

  pub data Call : Type 0 where
    connect_call : Ip → ℕ → Call
    disconnect_call : Call
    request_call : ℕ → List ℕ → Call

  unfoldable pub apply : Call → Client net h → Client net h
  apply (connect_call ip port) c = (connect_to net h ip port c).1
  apply disconnect_call c = disconnect net h c
  apply (request_call method payload) c = (send_request net h method payload c).1

  unfoldable pub run : List Call → Client net h → Client net h
  run [] c = c
  run (call ∷ calls) c = run calls (apply call c)

  -- A v1.0.x sensor is on the line: no request leaves, no socket is opened.
  IsQuiet : World → Client net h → Type 0
  IsQuiet w c = (c.world ≡ w) × (c.generation ≡ v1_0) × (c.has_socket ≡ false)

  pub data IsAfterConnect : Call → Type 0 where
    disconnects : IsAfterConnect disconnect_call
    requests : (method : ℕ) (payload : List ℕ) → IsAfterConnect (request_call method payload)

  pub send_request-legacy :
      (method : ℕ) (payload : List ℕ) (c : Client net h)
      → c.generation ≡ v1_0
      → send_request net h method payload c
        ≡ (failure tcp_legacy_sensor 0, record c { last_e2e_ok = false })
  unfolding send_request
  send_request-legacy method payload c e = if_true (is_v1_0 c.generation) _ _ (ap is_v1_0 e)

  apply-IsQuiet :
      (w : World) (call : Call) (c : Client net h)
      → IsAfterConnect call
      → IsQuiet w c
      → IsQuiet w (apply call c)
  unfolding apply disconnect close_locked IsQuiet
  apply-IsQuiet w (connect_call _ _) c x q = elim x [ ]
  apply-IsQuiet w disconnect_call c disconnects (a, b, e) = ground (arith, a, b, e)
  apply-IsQuiet w (request_call method payload) c (requests _ _) (a, b, e) =
      subst (λ (r : Reply × Client net h). IsQuiet w r.1)
        (sym (send_request-legacy method payload c b)) (a, b, e)

  run-IsQuiet :
      (w : World) (calls : List Call) (c : Client net h)
      → All IsAfterConnect calls
      → IsQuiet w c
      → IsQuiet w (run calls c)
  unfolding run
  run-IsQuiet w [] c after q = q
  run-IsQuiet w (call ∷ calls) c after q =
      run-IsQuiet w calls (apply call c) after.1 (apply-IsQuiet w call c after.0 q)

  module _ (files : CountsFiles net) where
    open files use {held}

    module _ (base : ℕ) where
      send_connected-IsLinked :
          (method : ℕ) (payload : List ℕ) (r : TcpResult) (c : Client net h)
          → IsLinked net h files base c
          → IsLinked net h files base (send_connected net h method payload (r, c)).1
      unfolding send_connected
      send_connected-IsLinked method payload tcp_ok c inv =
          elim (Bool-cases (is_v1_0 c.generation)) [
            | inl old ↦
                rw
                  (if_true (is_v1_0 c.generation) (failure tcp_legacy_sensor 0, c)
                    (exchange_locked net h method payload false c) old)
                  inv
            | inr new ↦
                rw
                  (if_false (is_v1_0 c.generation) (failure tcp_legacy_sensor 0, c)
                    (exchange_locked net h method payload false c) new)
                  (exchanged-IsLinked net h files base c _ inv
                    (exchange_locked-IsExchanged net h files base method payload false c inv.owned))
          ]
      send_connected-IsLinked method payload tcp_transport c inv = inv
      send_connected-IsLinked method payload tcp_timeout c inv = inv
      send_connected-IsLinked method payload tcp_protocol c inv = inv
      send_connected-IsLinked method payload tcp_too_large c inv = inv
      send_connected-IsLinked method payload tcp_legacy_sensor c inv = inv

      fresh-IsLinked :
          (c : Client net h)
          → IsLinked net h files base c
          → IsLinked net h files base (record c { last_e2e_ok = false })
      unfolding IsHeld
      fresh-IsLinked c inv = record { owned = inv.owned; current = inv.current }

      send_request-IsLinked :
          (method : ℕ) (payload : List ℕ) (c : Client net h)
          → IsLinked net h files base c
          → IsLinked net h files base (send_request net h method payload c).1
      unfolding send_request
      send_request-IsLinked method payload c inv =
          let fresh : Client net h = record c { last_e2e_ok = false } in
          let still = fresh-IsLinked c inv in
          if_ind (λ (r : Reply × Client net h). IsLinked net h files base r.1)
            (is_v1_0 c.generation) still
            (if_ind (λ (r : Reply × Client net h). IsLinked net h files base r.1)
              (ltb max_request_body (length payload)) still
              (if_ind (λ (r : Reply × Client net h). IsLinked net h files base r.1) c.has_socket
                (exchanged-IsLinked net h files base fresh _ still (
                  exchange_locked-IsExchanged net h files base method payload false fresh
                    still.owned))
                (if_ind (λ (r : Reply × Client net h). IsLinked net h files base r.1) c.reconnect
                  (send_connected-IsLinked method payload (connect_locked net h fresh).0
                    (connect_locked net h fresh).1
                    (connect_locked-IsLinked net h files base fresh still.owned))
                  still)))

      apply-IsLinked :
          (call : Call) (c : Client net h)
          → IsLinked net h files base c
          → IsLinked net h files base (apply call c)
      unfolding apply connect_to disconnect IsHeld
      apply-IsLinked (connect_call ip port) c inv =
          connect_locked-IsLinked net h files base _ inv.owned
      apply-IsLinked disconnect_call c inv = close_locked-IsLinked net h files base _ inv.owned
      apply-IsLinked (request_call method payload) c inv =
          send_request-IsLinked method payload c inv

      -- Through any sequence of Connect, Disconnect and SendRequest the client leaks no descriptor: it
      -- holds one exactly while it has a socket, whatever fails. And a connection that is up is one
      -- to a sensor whose probe answered as v1.1.0.
      pub run-IsLinked :
          (calls : List Call) (c : Client net h)
          → IsLinked net h files base c
          → IsLinked net h files base (run calls c)
      unfolding run
      run-IsLinked [] c inv = inv
      run-IsLinked (call ∷ calls) c inv =
          run-IsLinked calls (apply call c) (apply-IsLinked call c inv)

  -- Once the probe has answered as v1.0.x, nothing reaches the sensor before the next Connect: any
  -- sequence of requests and disconnects leaves the world as it was, so that it opens no socket and
  -- sends no byte, and a further request returns kTcpLegacySensor with an empty response.
  pub legacy_quiet :
      (calls : List Call) (c : Client net h) (method : ℕ) (payload : List ℕ)
      → c.generation ≡ v1_0
      → c.has_socket ≡ false
      → All IsAfterConnect calls
      → ((run calls c).world ≡ c.world)
        × ((send_request net h method payload (run calls c)).1.world ≡ c.world)
        × ((send_request net h method payload (run calls c)).0 ≡ failure tcp_legacy_sensor 0)
  unfolding IsQuiet
  legacy_quiet calls c method payload old free after =
      let q = run-IsQuiet c.world calls c after (refl, old, free) in
      let e = send_request-legacy method payload (run calls c) q.1 in
      (
        q.0,
        ap (λ (r : Reply × Client net h). r.1.world) e ∙ q.0,
        ap (λ (r : Reply × Client net h). r.0) e,
      )
