-- ===== src/Sdk/Tests.antt =====
-- Sessions of src/afi_sdk.cpp, one stream over TCP and then over UDP.
use afi920_sdk.Sdk.{
  ready, Transport, unset, tcp, udp, Config, Sdk, Opens, named, resolve_transport, resolved_to,
  resolve_channel, resolve_all, open_channel, open_all, connect_config, may_init, known_csii, init,
  start, is_ready, close_channel, stop, is_not_init, start_thread, join_thread, after_thread,
  Reconnects,
}
use afi920_sdk.Prelude.{List, [], ◌∷◌, some, ◌≡◌, refl, true, false, arith}
use afi920_sdk.Csii.Tests.{packers, parked}
use afi920_sdk.E2e.Tests.{test_headers}
use afi920_sdk.Sdk.Input.{Sender, Answers, IsSent, send_vehicle_input, send_vehicle_input-IsSent}
use afi920_sdk.Sdk.Sessions.{fresh, Call, init_call, start_call, stop_call, send_call, run}
use afi920_sdk.Sdk.Sessions.Stopped.{AreStopped, stop-AreStopped}

abbrev over : Transport → Config
over t = record {
  stream_transport = t;
  rdi_transport = unset;
  shi_transport = unset;
  spi_transport = unset;
  csii_transport = unset;
  enable_rdi = true;
  enable_shi = false;
  enable_spi = false;
  enable_config_api = false;
}

abbrev all_open : Opens
all_open = record { rdi_opens = true; shi_opens = true; spi_opens = true; config_connects = true }

abbrev no_reconnects : Reconnects
no_reconnects = record { rdi_reconnects = false; shi_reconnects = false; spi_reconnects = false }

abbrev rdi_reconnecting : Reconnects
rdi_reconnecting = record no_reconnects { rdi_reconnects = true }

-- Two sessions over TCP, with a vehicle input in the second.
abbrev some_calls : List Call
some_calls =
    init_call all_open
    ∷ start_call
    ∷ stop_call rdi_reconnecting
    ∷ init_call all_open
    ∷ start_call
    ∷ send_call true false
    ∷ []

stop-AreStopped_example :
    AreStopped no_reconnects (stop no_reconnects (run (over tcp) some_calls fresh)).0
stop-AreStopped_example = stop-AreStopped (over tcp) some_calls no_reconnects

-- One session, with what its `Stop` leaves.
abbrev session : Transport → Reconnects → Sdk → Sdk
session t r s = (stop r (start (over t) (init (over t) all_open s).0).0).0

-- A session over TCP and then one over UDP: the second `Stop` leaves the UDP receiver open.
udp_left_open : (session udp no_reconnects (session tcp no_reconnects fresh)).rdi.udp_open ≡ true
unfolding init may_init known_csii resolve_all resolve_channel resolved_to resolve_transport named
    connect_config open_all open_channel start start_thread is_ready stop is_not_init close_channel
    join_thread after_thread
udp_left_open = refl

udp_alone_closed : (session udp no_reconnects fresh).rdi.udp_open ≡ false
unfolding init may_init known_csii resolve_all resolve_channel resolved_to resolve_transport named
    connect_config open_all open_channel start start_thread is_ready stop is_not_init close_channel
    join_thread after_thread
udp_alone_closed = refl

-- A receiver thread that connects again during `Stop` leaves its socket open.
tcp_left_open : (session tcp rdi_reconnecting fresh).rdi.tcp_client ≡ some true
unfolding init may_init known_csii resolve_all resolve_channel resolved_to resolve_transport named
    connect_config open_all open_channel start start_thread is_ready stop is_not_init close_channel
    join_thread after_thread
tcp_left_open = refl

abbrev sender : Sender
sender = record {
  csii_counter = 7;
  csii_session = 0xFFFF;
  tcp_connected = true;
  udp_connected = false;
}

-- The clock says 12, and a send fails.
abbrev failing : Answers
failing = record { connects = true; sends = false; now = 12 }

send_vehicle_input-IsSent_example :
    IsSent packers test_headers true failing parked sender
      (send_vehicle_input packers test_headers ready true failing parked sender)
send_vehicle_input-IsSent_example =
    send_vehicle_input-IsSent packers test_headers ready true failing parked sender
      (unfold is_not_init in refl) (omega arith)
