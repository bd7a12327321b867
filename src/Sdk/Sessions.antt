-- ===== src/Sdk/Sessions.antt =====
-- The sessions of src/afi_sdk.cpp: Init, Start, Stop and SendVehicleInput in any order, with one
-- configuration throughout.
pub mod Streams
pub mod Stopped
use afi920_sdk.Prelude.{
  ◌≡◌, ◌≢◌, ◌∙◌, refl, sym, ap, subst, Bool, true, false, not, ◌&&◌, ◌||◌, List, [], ◌∷◌, Option,
  none, some, if◌then◌else◌, arith, Option-cases, Bool-cases, inl, inr, if_true, if_false,
}
use afi920_sdk.E2e.{unknown}
use afi920_sdk.Error.{AfiError}
use afi920_sdk.Sdk.{
  Config, not_init, ready, running, stopped, Channel, Sdk, Opens, Reconnects, Transport,
  resolve_transport, resolved_to, resolve_channel, resolve_all, open_channel, open_all,
  drop_channel, fail_init, connect_config, may_init, known_csii, init, start, start_thread,
  is_ready, close_channel, after_thread, join_thread, stop, is_not_init,
}
use afi920_sdk.Sdk.Cycle.{
  IsShut, IsClosed, fail_init-IsClosed, resolve_all_state, open_all_state, connect_config_state,
}

-- The default member values.
abbrev pub idle : Channel
idle = record { use_tcp = false; tcp_client = none; udp_open = false; has_thread = false }

abbrev pub fresh : Sdk
fresh = record {
  state = not_init;
  is_running = false;
  rdi = idle;
  shi = idle;
  spi = idle;
  config_client = false;
  config_connected = false;
  csii_sender = false;
  csii_tcp = false;
  stream_generation = unknown;
}

-- A call of the application. SendVehicleInput may leave either of its sockets open or closed, which the
-- call tells, and does nothing before Init.
pub data Call : Type 0 where
  init_call : Opens → Call
  start_call : Call
  stop_call : Reconnects → Call
  send_call : Bool → Bool → Call

unfoldable pub send_sockets : Bool → Bool → Sdk → Sdk
send_sockets over_udp over_tcp s =
    if is_not_init s.state then s else record s { csii_sender = over_udp; csii_tcp = over_tcp }

unfoldable pub apply : Config → Call → Sdk → Sdk
apply c (init_call o) s = (init c o s).0
apply c start_call s = (start c s).0
apply c (stop_call r) s = (stop r s).0
apply c (send_call over_udp over_tcp) s = send_sockets over_udp over_tcp s

unfoldable pub run : Config → List Call → Sdk → Sdk
run c [] s = s
run c (call ∷ calls) s = run c calls (apply c call s)
