-- ===== src/Sdk/ConfigApi.antt =====
-- AfiSdk::Impl::ReconnectConfigApi of src/afi_sdk.cpp, over the connection of the configuration API. Of
-- the clock, a call is given how often it finds the deadline still ahead after a failed attempt; each
-- time it sleeps 500 ms.
use afi920_sdk.Prelude.{
  ℕ, zero, suc, ◌≡◌, ◌∙◌, Bool, true, false, if◌then◌else◌, if_true, if_false, ◌≤◌, arith,
}
use afi920_sdk.Error.{AfiError, success, not_initialized, connect_failed}
use afi920_sdk.Interface.{InterfaceHeaders}
use afi920_sdk.Transport.Network.{Network}
use afi920_sdk.Transport.TcpClient.{Client, connect_to}
use afi920_sdk.Transport.TcpClient.Wire.{
  TcpResult, tcp_ok, tcp_transport, tcp_timeout, tcp_protocol, tcp_too_large, tcp_legacy_sensor,
}

unfoldable pub is_tcp_ok : TcpResult → Bool
is_tcp_ok tcp_ok = true
is_tcp_ok tcp_transport = false
is_tcp_ok tcp_timeout = false
is_tcp_ok tcp_protocol = false
is_tcp_ok tcp_too_large = false
is_tcp_ok tcp_legacy_sensor = false

module _ (net : Network) (h : InterfaceHeaders) (ip : net.Ip) (port : ℕ) where
  -- The loop of `ReconnectConfigApi`
  unfoldable pub reconnect_loop : ℕ → Client net h → AfiError × Client net h
  reconnect_loop zero c =
      let tried = connect_to net h ip port c in
      if is_tcp_ok tried.0 then (success, tried.1) else (connect_failed, tried.1)
  reconnect_loop (suc waits) c =
      let tried = connect_to net h ip port c in
      let later = reconnect_loop waits tried.1 in
      if is_tcp_ok tried.0 then (success, tried.1) else later

  -- `ReconnectConfigApi`, with whether `config_client_` is set
  unfoldable pub reconnect_config_api : Bool → ℕ → Client net h → AfiError × Client net h
  reconnect_config_api false waits c = (not_initialized, c)
  reconnect_config_api true waits c = reconnect_loop waits c

  -- The client after a number of attempts.
  unfoldable pub after : ℕ → Client net h → Client net h
  after zero c = c
  after (suc k) c = after k (connect_to net h ip port c).1

  -- The first attempts fail, as many as the number says.
  unfoldable pub Fail : ℕ → Client net h → Type 0
  Fail zero c = Unit
  Fail (suc k) c =
      (is_tcp_ok (connect_to net h ip port c).0 ≡ false) × Fail k (connect_to net h ip port c).1

  -- The first attempt that connects ends the call with kOk and its connection, when the deadline is
  -- ahead after each attempt before it.
  pub reconnect_config_api-connects :
      (waits k : ℕ) (c : Client net h)
      → (k ≤ waits)
      → Fail k c
      → is_tcp_ok (connect_to net h ip port (after k c)).0 ≡ true
      → reconnect_config_api true waits c ≡ (success, (connect_to net h ip port (after k c)).1)
  unfolding reconnect_config_api reconnect_loop after Fail
  reconnect_config_api-connects zero zero c le f e = if_true _ _ _ e
  reconnect_config_api-connects (suc waits) zero c le f e = if_true _ _ _ e
  reconnect_config_api-connects zero (suc k) c le f e = absurd (omega arith)
  reconnect_config_api-connects (suc waits) (suc k) c le f e =
      if_false _ _ _ f.0
      ∙ reconnect_config_api-connects waits k (connect_to net h ip port c).1 (omega arith) f.1 e

  -- When every attempt up to the deadline fails, the call ends with kConnectFailed, after one attempt
  -- more than it waits.
  pub reconnect_config_api-expires :
      (waits : ℕ) (c : Client net h)
      → Fail (suc waits) c
      → reconnect_config_api true waits c ≡ (connect_failed, after (suc waits) c)
  unfolding reconnect_config_api reconnect_loop after Fail
  reconnect_config_api-expires zero c f = if_false _ _ _ f.0
  reconnect_config_api-expires (suc waits) c f =
      if_false _ _ _ f.0 ∙ reconnect_config_api-expires waits (connect_to net h ip port c).1 f.1
