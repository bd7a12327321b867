-- ===== src/Transport/StreamClient/Owned.antt =====
-- The descriptor and the back-off delay of src/transport/tcp_stream_client.cpp: what Open, Close and
-- the reconnect do to them.
use afi920_sdk.Prelude.{
  Option, if_false, ap, if_true, ℕ, zero, suc, ◌+◌, ◌*◌, ◌≤◌, min, ◌≡◌, refl, ◌∙◌, List, Bool, true,
  false, none, some, arith, if◌then◌else◌, Bool-cases, inl, inr,
}
use afi920_sdk.Transport.StreamClient.{
  dial_address, Exact, recv_exact, received, Client, Endpoint, finish, shut, drop_socket,
  wait_connected, dial, opened, open_endpoint, back_off, reopen, close_client, set_stopping,
  min_reconnect_delay, max_reconnect_delay,
}
use afi920_sdk.Transport.Network.{
  Network, CountsFiles, Received, got, closed, interrupted, timed_out, failed, Connecting,
}

module _ (net : Network) where
  module _ (files : CountsFiles net) where
    open net use {World, recv}
    open files use {held, socket_held, close_held, connect_held, select_held, recv_held, sleep_held}

    -- The client holds one descriptor exactly when it has a socket, an open client has one, and the
    -- delay stays within its bounds.
    pub record IsOwned (base : ℕ) (c : Client net) : Type 0 where
      pub owned : held c.world ≡ base + (if c.has_socket then 1 else 0)
      pub backed : c.is_open ≡ true → c.has_socket ≡ true
      pub not_hasty : min_reconnect_delay ≤ c.reconnect_delay_ms
      pub not_idle : c.reconnect_delay_ms ≤ max_reconnect_delay

    -- Reading holds what it held.
    pub received_held :
        (later : ℕ → List ℕ → World → Exact × World) (n : ℕ) (buf : List ℕ) (r : Received × World)
        → ((m : ℕ) (front : List ℕ) (w : World) → held (later m front w).1 ≡ held w)
        → held (received net later n buf r).1 ≡ held r.1
    unfolding received
    received_held later n buf (got b bs, w) h = h _ _ w
    received_held later n buf (interrupted, w) h = h _ _ w
    received_held later n buf (closed, w) h = refl
    received_held later n buf (timed_out, w) h = refl
    received_held later n buf (failed, w) h = refl

    pub recv_exact_held :
        (rounds n : ℕ) (buf : List ℕ) (w : World) → held (recv_exact net rounds n buf w).1 ≡ held w
    unfolding recv_exact
    recv_exact_held zero n buf w = refl
    recv_exact_held (suc rounds) zero buf w = refl
    recv_exact_held (suc rounds) (suc n) buf w =
        received_held (recv_exact net rounds) n buf (recv w (suc n)) (recv_exact_held rounds)
        ∙ recv_held w (suc n)

    module _ (base : ℕ) (c : Client net) (inv : IsOwned base c) where
      pub drop_socket-IsOwned : IsOwned base (shut net (drop_socket net c))
      unfolding drop_socket shut
      drop_socket-IsOwned =
          ground (arith, inv.owned, inv.not_hasty, inv.not_idle, close_held c.world)

      pub finish-IsOwned :
          (r : Exact × World) → held r.1 ≡ held c.world → IsOwned base (finish net c r).1
      unfolding finish shut
      finish-IsOwned r h = ground (arith, inv.owned, inv.backed, inv.not_hasty, inv.not_idle)

      pub shut-IsOwned :
          (w : World) → held w ≡ held c.world → IsOwned base (shut net (record c { world = w }))
      unfolding shut
      shut-IsOwned w h = ground (arith, inv.owned, inv.backed, inv.not_hasty, inv.not_idle)

    -- A connect that fails gives its descriptor back.
    wait_connected_held :
        (base : ℕ) (e : Endpoint net) (k : Connecting × World)
        → held k.1 ≡ suc base
        → held (wait_connected net e k).1 ≡ base + (if (wait_connected net e k).0 then 1 else 0)
    unfolding wait_connected
    wait_connected_held base e k h = ground (
      arith,
      h,
      close_held k.1,
      select_held k.1 e.connect_timeout_ms,
      close_held (net.select k.1 e.connect_timeout_ms).1,
    )

    dial_held :
        (base : ℕ) (e : Endpoint net) (w : World) (address : Option ℕ)
        → held w ≡ suc base
        → held (dial_address net e w address).1
          ≡ base + (if (dial_address net e w address).0 then 1 else 0)
    unfolding dial_address
    dial_held base e w none h = omega (arith, close_held w, h)
    dial_held base e w (some address) h =
        wait_connected_held base e (net.connect w address e.port)
          (connect_held w address e.port ∙ h)

    opened-IsOwned :
        (base : ℕ) (c : Client net) (r : Bool × World)
        → IsOwned base c
        → c.has_socket ≡ false
        → held r.1 ≡ base + (if r.0 then 1 else 0)
        → IsOwned base (opened net c r).1
    unfolding opened
    opened-IsOwned base c r inv free h =
        ground (arith, inv.owned, inv.backed, inv.not_hasty, inv.not_idle, h, free)

    -- `Open` on a client that holds no socket.
    dialled-IsOwned :
        (base : ℕ) (e : Endpoint net) (c : Client net) (s : Bool × World)
        → IsOwned base c
        → c.has_socket ≡ false
        → net.socket c.world ≡ s
        → IsOwned base
            (if s.0 then opened net c (dial net e s.1) else (false, record c { world = s.1 })).1
    unfolding dial
    dialled-IsOwned base e c (true, w) inv free h = opened-IsOwned base c (dial net e w) inv free (
        dial_held base e w (net.inet_pton e.ip) (
          omega (
            arith,
            ap (λ (s : Bool × World). held s.1) h,
            socket_held c.world,
            ap {B = ℕ} (λ (s : Bool × World). if s.0 then 1 else 0) h,
            inv.owned,
            ap {B = ℕ} (λ (b : Bool). if b then 1 else 0) free,
          )))
    dialled-IsOwned base e c (false, w) inv free h =
        ground
          (arith, inv.owned, inv.backed, inv.not_hasty, inv.not_idle, free, h, socket_held c.world)

    module _ (base : ℕ) (c : Client net) (inv : IsOwned base c) where
      started-IsOwned :
          (e : Endpoint net) → IsOwned base (record c { endpoint = e; is_running = true })
      started-IsOwned e = record {
        owned = inv.owned;
        backed = inv.backed;
        not_hasty = inv.not_hasty;
        not_idle = inv.not_idle;
      }

      pub open_endpoint-IsOwned : (e : Endpoint net) → IsOwned base (open_endpoint net e c).1
      unfolding open_endpoint
      open_endpoint-IsOwned e =
          let started : Client net = record c { endpoint = e; is_running = true } in
          elim (Bool-cases c.has_socket) [
            | inl has ↦ rw (if_true c.has_socket (shut net (drop_socket net started)) started has) (
                dialled-IsOwned base e (shut net (drop_socket net started)) _
                  (drop_socket-IsOwned base started (started-IsOwned e))
                  (unfold shut drop_socket in ground (arith, has)) refl)
            | inr free ↦
                rw (if_false c.has_socket (shut net (drop_socket net started)) started free)
                  (dialled-IsOwned base e started _ (started-IsOwned e) free refl)
          ]

      pub close_client-IsOwned : IsOwned base (close_client net c)
      unfolding close_client drop_socket
      close_client-IsOwned =
          ground (arith, inv.owned, inv.not_hasty, inv.not_idle, close_held c.world)

      pub set_stopping-IsOwned : IsOwned base (set_stopping net c)
      unfolding set_stopping
      set_stopping-IsOwned = record {
        owned = inv.owned;
        backed = inv.backed;
        not_hasty = inv.not_hasty;
        not_idle = inv.not_idle;
      }

      pub back_off-IsOwned : IsOwned base (back_off net c)
      unfolding back_off
      back_off-IsOwned =
          let d = drop_socket-IsOwned base c inv in
          record {
            owned = sleep_held _ _ ∙ d.owned;
            backed = d.backed;
            not_hasty = d.not_hasty;
            not_idle = d.not_idle;
          }

    -- Doubling up to the limit stays within the bounds.
    slower-IsOwned :
        (base : ℕ) (c : Client net)
        → IsOwned base c
        → IsOwned base
            (record c { reconnect_delay_ms = min (c.reconnect_delay_ms * 2) max_reconnect_delay })
    slower-IsOwned base c inv = record {
      owned = inv.owned;
      backed = inv.backed;
      not_hasty = omega (arith, inv.not_hasty);
      not_idle = omega arith;
    }

    module _ (base : ℕ) (c : Client net) (inv : IsOwned base c) where
      pub reopen-IsOwned : IsOwned base (reopen net c).1
      unfolding reopen
      reopen-IsOwned =
          let o = open_endpoint-IsOwned base c inv c.endpoint in
          elim (Bool-cases (open_endpoint net c.endpoint c).0) [
            | inl good ↦ rw good o
            | inr bad ↦ rw bad (slower-IsOwned base _ o)
          ]
