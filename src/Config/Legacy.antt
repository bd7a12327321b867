-- ===== src/Config/Legacy.antt =====
-- ConfigClient over TcpClient: the two classes of src/config_api/config_client.cpp and
-- src/transport/tcp_client.cpp put together, with a v1.0.x sensor on the line.
pub mod Calls
pub mod Quiet
use afi920_sdk.Prelude.{ℕ, ◌≡◌, ap, ◌∙◌, List, true, false, if_true}
use afi920_sdk.Interface.{InterfaceHeaders}
use afi920_sdk.E2e.{v1_0}
use afi920_sdk.Error.{not_supported, return_code_name}
use afi920_sdk.Someip.Methods.{MethodId, method_code}
use afi920_sdk.Transport.Network.{Network}
use afi920_sdk.Transport.TcpClient as Tcp
use afi920_sdk.Transport.TcpClient.{send_request}
use afi920_sdk.Transport.TcpClient.Wire.{Reply, tcp_legacy_sensor, failure}
use afi920_sdk.Transport.TcpClient.Calls.{send_request-legacy}
use afi920_sdk.Config.Json.{Json, pos}
use afi920_sdk.Config.Exchange.{Link, Client, exchange, answered, finish, name_of}

-- The connection that ConfigClient is given.
abbrev pub tcp_link : Network → InterfaceHeaders → Link
tcp_link net h = record {
  State = Tcp.Client net h;
  has_endpoint = λ c. c.reconnect;
  send_request = send_request net h;
  last_response_e2e_ok = λ c. c.last_e2e_ok;
}

module _ (json : Json) (net : Network) (h : InterfaceHeaders) where
  -- A request fails at the connection, which keeps all but its E2E verdict.
  pub exchange_quiet :
      (method : MethodId) (body : List ℕ) (c : Client json (tcp_link net h))
      → c.tcp.generation ≡ v1_0
      → c.tcp.reconnect ≡ true
      → exchange json (tcp_link net h) method body c
        ≡ answered json
            (tcp_link net h)
            (failure tcp_legacy_sensor 0)
            (record c.tcp { last_e2e_ok = false })
  unfolding exchange
  exchange_quiet method body c old known =
      if_true c.tcp.reconnect _ _ known
      ∙ ap (λ (r : Reply × Tcp.Client net h). answered json (tcp_link net h) r.0 r.1)
          (send_request-legacy net h (method_code method) body c.tcp old)

  -- What such a request records: return code 5 with its name, and an unverified E2E verdict.
  pub exchange_recorded :
      (method : MethodId) (body : List ℕ) (c : Client json (tcp_link net h))
      → c.tcp.generation ≡ v1_0
      → c.tcp.reconnect ≡ true
      → ((exchange json (tcp_link net h) method body c).client.last_result.return_code ≡ pos 5)
        × ((exchange json (tcp_link net h) method body c).client.last_result.return_name
            ≡ "NOT_SUPPORTED")
        × ((exchange json (tcp_link net h) method body c).client.last_result.e2e_ok ≡ false)
  unfolding answered finish name_of return_code_name
  exchange_recorded method body c old known =
      let e = exchange_quiet method body c old known in
      (
        ap (λ a. a.client.last_result.return_code) e,
        ap (λ a. a.client.last_result.return_name) e,
        ap (λ a. a.client.last_result.e2e_ok) e,
      )
