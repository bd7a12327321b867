-- ===== src/Transport/TcpClient/Linked.antt =====
-- The connection that src/transport/tcp_client.cpp makes: its descriptor and the probe's verdict.
use afi920_sdk.Transport.TcpClient.{
  decided, Client, close_locked, numbered, probed, probe_locked, connect_socket, connect_locked,
}
use afi920_sdk.Prelude.{
  sym, ◌⊎◌, ℕ, ◌≡◌, ◌≢◌, refl, ap, ◌∙◌, Bool, true, false, Option, none, some, arith, if◌then◌else◌,
  Bool-cases, inl, inr,
}
use afi920_sdk.Interface.{InterfaceHeaders}
use afi920_sdk.E2e.{v1_0, v1_1}
use afi920_sdk.Transport.Network.{Network, CountsFiles}
use afi920_sdk.Transport.TcpClient.Wire.{
  Reply, TcpResult, tcp_ok, tcp_transport, tcp_timeout, tcp_protocol, tcp_too_large,
  tcp_legacy_sensor, is_connected, get_device_info, empty_json,
}
use afi920_sdk.Transport.TcpClient.Exchange.{
  IsHeld, IsExchanged, close_locked-IsHeld, exchange_locked-IsExchanged,
}

module _ (net : Network) (h : InterfaceHeaders) where
  open net use {World, Ip}

  module _ (files : CountsFiles net) where
    open files use {held, socket_held, connect_held}

    -- The descriptor is accounted for, and a connection is one to a v1.1.0 sensor.
    pub record IsLinked (base : ℕ) (c : Client net h) : Type 0 where
      pub owned : IsHeld net h files base c
      pub current : c.has_socket ≡ true → c.generation ≡ v1_1

    pub close_locked-IsLinked :
        (base : ℕ) (c : Client net h)
        → IsHeld net h files base c
        → IsLinked base (close_locked net h c)
    close_locked-IsLinked base c inv = record {
      owned = close_locked-IsHeld net h files base c inv;
      current = λ e. absurd (unfold close_locked in ground (arith, e));
    }

    pub exchanged-IsLinked :
        (base : ℕ) (c : Client net h) (r : Reply × Client net h)
        → IsLinked base c
        → IsExchanged net h files base (numbered net h c) r
        → IsLinked base r.1
    unfolding numbered
    exchanged-IsLinked base c r inv x = record {
      owned = x.owned;
      current = λ e. elim (result_cases r.0.result) [
        | inl good ↦ x.same_generation ∙ inv.current (sym (x.answered good) ∙ e)
        | inr bad ↦ absurd (clash (sym e ∙ x.closes bad))
      ];
    }
      where
        clash : true ≡ false → ⊥
        clash e = cc

        result_cases : (t : TcpResult) → (t ≡ tcp_ok) ⊎ (t ≢ tcp_ok)
        result_cases tcp_ok = inl refl
        result_cases tcp_transport = inr (λ e. cc)
        result_cases tcp_timeout = inr (λ e. cc)
        result_cases tcp_protocol = inr (λ e. cc)
        result_cases tcp_too_large = inr (λ e. cc)
        result_cases tcp_legacy_sensor = inr (λ e. cc)

    pub gone-IsLinked :
        (base : ℕ) (c : Client net h)
        → IsHeld net h files base c
        → c.has_socket ≡ false
        → IsLinked base c
    gone-IsLinked base c inv e = record { owned = inv; current = λ f. absurd (cc) }

    decided-IsLinked :
        (base : ℕ) (t : TcpResult) (legacy : Bool) (d : Client net h)
        → IsHeld net h files base d
        → (t ≢ tcp_ok → d.has_socket ≡ false)
        → IsLinked base (decided net h t legacy d).1
    unfolding decided IsHeld
    decided-IsLinked base tcp_ok true d inv closes =
        close_locked-IsLinked base (record d { generation = v1_0 }) inv
    decided-IsLinked base tcp_ok false d inv closes = record { owned = inv; current = λ e. refl }
    decided-IsLinked base tcp_transport legacy d inv closes =
        gone-IsLinked base d inv (closes (λ q. cc))
    decided-IsLinked base tcp_timeout legacy d inv closes =
        gone-IsLinked base d inv (closes (λ q. cc))
    decided-IsLinked base tcp_protocol legacy d inv closes =
        gone-IsLinked base d inv (closes (λ q. cc))
    decided-IsLinked base tcp_too_large legacy d inv closes =
        gone-IsLinked base d inv (closes (λ q. cc))
    decided-IsLinked base tcp_legacy_sensor legacy d inv closes =
        gone-IsLinked base d inv (closes (λ q. cc))

    probe_locked-IsLinked :
        (base : ℕ) (c : Client net h)
        → IsHeld net h files base c
        → IsLinked base (probe_locked net h c).1
    unfolding probe_locked probed
    probe_locked-IsLinked base c inv =
        let x =
          exchange_locked-IsExchanged net h files base get_device_info empty_json true c inv in
        decided-IsLinked base _ _ _ x.owned x.closes

    connect_socket-IsLinked :
        (base : ℕ) (c : Client net h) (address : Option ℕ)
        → IsHeld net h files base c
        → IsLinked base (connect_socket net h c address).1
    unfolding connect_socket IsHeld
    connect_socket-IsLinked base c none inv = close_locked-IsLinked base c inv
    connect_socket-IsLinked base c (some address) inv =
        elim (Bool-cases (is_connected (net.connect c.world address c.port).0)) [
          | inl up ↦ rw up (
              probe_locked-IsLinked base (record c { world = _; session_id = 0 })
                (connect_held c.world address c.port ∙ inv))
          | inr down ↦ rw down (
              close_locked-IsLinked base (record c { world = _ })
                (connect_held c.world address c.port ∙ inv))
        ]

    -- `ConnectLocked` behind the answer of `socket`.
    socket-IsLinked :
        (base : ℕ) (c : Client net h) (s : Bool × World)
        → held c.world ≡ base
        → c.has_socket ≡ false
        → net.socket c.world ≡ s
        → IsLinked base
            (if s.0
              then connect_socket net h
                  (record c { world = s.1; has_socket = true })
                  (net.inet_pton c.ip)
              else (tcp_transport, record c { world = s.1 })).1
    unfolding IsHeld
    socket-IsLinked base c (true, w) e free q =
        connect_socket-IsLinked base (record c { world = w; has_socket = true })
          (net.inet_pton c.ip)
          (omega (
            arith,
            ap (λ (s : Bool × World). held s.1) q,
            ap {B = ℕ} (λ (s : Bool × World). if s.0 then 1 else 0) q,
            socket_held c.world,
            e,
          ))
    socket-IsLinked base c (false, w) e free q =
        gone-IsLinked base (record c { world = w })
          (ground (arith, q, free, e, socket_held c.world)) free

    pub connect_locked-IsLinked :
        (base : ℕ) (c : Client net h)
        → IsHeld net h files base c
        → IsLinked base (connect_locked net h c).1
    unfolding connect_locked
    connect_locked-IsLinked base c inv =
        let free : (close_locked net h c).has_socket ≡ false =
          unfold close_locked in ground arith in
        let own = close_locked-IsHeld net h files base c inv in
        socket-IsLinked base (close_locked net h c) _ (unfold IsHeld in ground (arith, own, free))
          free refl
