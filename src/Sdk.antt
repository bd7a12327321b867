-- ===== src/Sdk.antt =====
-- The life cycle of src/afi_sdk.cpp: Init, Start and Stop, over the sockets and the receiver threads that
-- AfiSdk::Impl owns. What a socket call answers is an argument; a socket is known by whether it is open,
-- and a thread by whether it is there. Log lines and the ports are left out.
pub mod ConfigApi
pub mod Cycle
pub mod Input
pub mod Sessions
mod Tests
use afi920_sdk.Prelude.{Bool, true, false, not, ◌&&◌, ◌||◌, Option, none, some, if◌then◌else◌}
use afi920_sdk.E2e.{Generation, unknown, v1_0}
use afi920_sdk.Error.{
  AfiError, success, not_initialized, already_running, connect_failed, invalid_param,
}

-- A transport as the configuration spells it: "", "tcp", "udp", or another text.
pub data Transport : Type 0 where
  unset tcp udp other : Transport

-- `AfiSdkConfig`, as far as the life cycle reads it.
pub record Config : Type 0 where
  pub stream_transport : Transport
  pub rdi_transport : Transport
  pub shi_transport : Transport
  pub spi_transport : Transport
  pub csii_transport : Transport
  pub enable_rdi : Bool
  pub enable_shi : Bool
  pub enable_spi : Bool
  pub enable_config_api : Bool

-- `AfiSdk::Impl::State`
pub data State : Type 0 where
  not_init ready running stopped : State

-- The receivers of one stream: the client object, if there is one, with whether its socket is open,
-- the UDP receiver, and the receiver thread.
pub record Channel : Type 0 where
  pub use_tcp : Bool
  pub tcp_client : Option Bool
  pub udp_open : Bool
  pub has_thread : Bool

pub record Sdk : Type 0 where
  pub state : State
  pub is_running : Bool
  pub rdi : Channel
  pub shi : Channel
  pub spi : Channel
  pub config_client : Bool
  pub config_connected : Bool
  pub csii_sender : Bool
  pub csii_tcp : Bool
  pub stream_generation : Generation

-- Which calls to open a socket succeed.
pub record Opens : Type 0 where
  pub rdi_opens : Bool
  pub shi_opens : Bool
  pub spi_opens : Bool
  pub config_connects : Bool

pub named : Transport → Option Bool
named tcp = some true
named udp = some false
named _ = none

-- `ResolveTransport`: whether TCP is used, or `none` for its false.
pub resolve_transport : Transport → Transport → Option Bool
resolve_transport default unset = named default
resolve_transport default stream = named stream

pub resolved_to : Channel → Option Bool → Channel × Bool
resolved_to ch none = (ch, false)
resolved_to ch (some with_tcp) = (record ch { use_tcp = with_tcp }, true)

pub resolve_channel : Bool → Transport → Transport → Channel → Channel × Bool
resolve_channel enable default stream ch =
    let resolved = resolved_to ch (resolve_transport default stream) in
    if enable then resolved else (ch, true)

-- The three calls under one `if`: a failure skips the rest.
pub resolve_all : Config → Sdk → Sdk × Bool
resolve_all c s =
    let a = resolve_channel c.enable_rdi c.stream_transport c.rdi_transport s.rdi in
    let b = resolve_channel c.enable_shi c.stream_transport c.shi_transport s.shi in
    let d = resolve_channel c.enable_spi c.stream_transport c.spi_transport s.spi in
    if not a.1
    then (s, false)
    else if not b.1
    then (record s { rdi = a.0 }, false)
    else if not d.1
    then (record s { rdi = a.0; shi = b.0 }, false)
    else (record s { rdi = a.0; shi = b.0; spi = d.0 }, true)

-- The socket of one enabled stream.
pub open_channel : Bool → Bool → Channel → Channel × Bool
open_channel enable opens ch =
    if not enable
    then (ch, true)
    else if ch.use_tcp
    then (record ch { tcp_client = some opens }, opens)
    else (record ch { udp_open = opens }, opens)

pub open_all : Config → Opens → Sdk → Sdk × Bool
open_all c o s =
    let a = open_channel c.enable_rdi o.rdi_opens s.rdi in
    let b = open_channel c.enable_shi o.shi_opens s.shi in
    let d = open_channel c.enable_spi o.spi_opens s.spi in
    if not a.1
    then (record s { rdi = a.0 }, false)
    else if not b.1
    then (record s { rdi = a.0; shi = b.0 }, false)
    else (record s { rdi = a.0; shi = b.0; spi = d.0 }, d.1)

pub drop_channel : Channel → Channel
drop_channel ch = record ch { tcp_client = none; udp_open = false }

-- `fail_init`
pub fail_init : Sdk → Sdk
fail_init s = record s {
  rdi = drop_channel s.rdi;
  shi = drop_channel s.shi;
  spi = drop_channel s.spi;
  config_client = false;
  config_connected = false;
  csii_sender = false;
  csii_tcp = false;
}

-- A failed connect of the configuration API is not an error.
pub connect_config : Config → Opens → Sdk → Sdk
connect_config c o s =
    if c.enable_config_api
    then record s { config_client = true; config_connected = o.config_connects }
    else s

pub may_init : State → Bool
may_init not_init = true
may_init stopped = true
may_init _ = false

pub known_csii : Transport → Bool
known_csii other = false
known_csii _ = true

-- `Init`
pub init : Config → Opens → Sdk → Sdk × AfiError
init c o s =
    let cleared = record s { state = not_init; stream_generation = unknown } in
    let resolved = resolve_all c cleared in
    let opened = open_all c o (connect_config c o resolved.0) in
    if not (may_init s.state)
    then (s, already_running)
    else if not (known_csii c.csii_transport)
    then (fail_init cleared, invalid_param)
    else if not resolved.1
    then (fail_init resolved.0, invalid_param)
    else if not opened.1
    then (fail_init opened.0, connect_failed)
    else (record opened.0 { state = ready }, success)

pub is_ready : State → Bool
is_ready ready = true
is_ready _ = false

-- The thread of an enabled stream.
pub start_thread : Bool → Channel → Channel
start_thread enable ch = if enable then record ch { has_thread = true } else ch

-- `Start`, with the configuration that `Init` kept
pub start : Config → Sdk → Sdk × AfiError
start c s =
    if is_ready s.state
    then (
      record s {
        is_running = true;
        rdi = start_thread c.enable_rdi s.rdi;
        shi = start_thread c.enable_shi s.shi;
        spi = start_thread c.enable_spi s.spi;
        state = running;
      },
      success,
    )
    else (s, not_initialized)

-- The streams whose receiver thread is in the sleep of a reconnect while `Stop` closes the sockets, and
-- connects again behind it, before it reads that the SDK has stopped.
pub record Reconnects : Type 0 where
  pub rdi_reconnects : Bool
  pub shi_reconnects : Bool
  pub spi_reconnects : Bool

-- A TCP client is kept, with its socket closed; only without one is the UDP receiver closed.
pub close_channel : Channel → Channel
close_channel ch = elim ch.tcp_client [
  | none ↦ record ch { udp_open = false }
  | some _ ↦ record ch { tcp_client = some false }
]

-- The client's socket after a thread over TCP has come to its end.
pub after_thread : Bool → Option Bool → Option Bool
after_thread reconnects none = none
after_thread reconnects (some is_open) = some (is_open || reconnects)

-- The thread is joined and reset.
pub join_thread : Bool → Channel → Channel
join_thread reconnects ch = record ch {
  tcp_client =
      if ch.has_thread && ch.use_tcp then after_thread reconnects ch.tcp_client else ch.tcp_client;
  has_thread = false;
}

pub is_not_init : State → Bool
is_not_init not_init = true
is_not_init _ = false

-- `Stop`
pub stop : Reconnects → Sdk → Sdk × AfiError
stop r s = if not s.is_running && is_not_init s.state then (s, success) else (
  record s {
    is_running = false;
    rdi = join_thread r.rdi_reconnects (close_channel s.rdi);
    shi = join_thread r.shi_reconnects (close_channel s.shi);
    spi = join_thread r.spi_reconnects (close_channel s.spi);
    config_client = false;
    config_connected = false;
    csii_sender = false;
    csii_tcp = false;
    state = stopped;
  },
  success,
)
