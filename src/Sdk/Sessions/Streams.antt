-- ===== src/Sdk/Sessions/Streams.antt =====
-- The streams of src/afi_sdk.cpp under one configuration: each has the client or the UDP socket of the
-- transport that it is configured for, through Init, Start and Stop.
use afi920_sdk.Prelude.{
  ◌≡◌, ◌∙◌, sym, Bool, true, false, Option, none, some, arith, Option-cases, Bool-cases, inl, inr,
}
use afi920_sdk.Sdk.{
  Config, Channel, Sdk, Opens, Transport, resolve_transport, resolved_to, resolve_channel,
  resolve_all, open_channel, open_all, connect_config, start_thread, close_channel, after_thread,
  join_thread,
}

pub has_client : Option Bool → Bool
has_client none = false
has_client (some _) = true

-- A stream that is configured for `t` has a client only for TCP, and a UDP socket only for UDP.
pub record IsOf (t : Option Bool) (ch : Channel) : Type 0 where
  client_over : has_client ch.tcp_client ≡ true → t ≡ some true
  udp_over : ch.udp_open ≡ true → t ≡ some false

pub rdi_over : Config → Option Bool
rdi_over c = resolve_transport c.stream_transport c.rdi_transport

pub shi_over : Config → Option Bool
shi_over c = resolve_transport c.stream_transport c.shi_transport

pub spi_over : Config → Option Bool
spi_over c = resolve_transport c.stream_transport c.spi_transport

pub shut-IsOf :
    (t : Option Bool) (ch : Channel) → ch.tcp_client ≡ none → ch.udp_open ≡ false → IsOf t ch
unfolding has_client
shut-IsOf t ch e d = record {
  client_over = λ f. ground (arith, e);
  udp_over = λ f. ground (arith, d);
}

pub resolve_channel-IsOf :
    (enable : Bool) (default stream : Transport) (ch : Channel)
    → IsOf (resolve_transport default stream) ch
    → IsOf (resolve_transport default stream) (resolve_channel enable default stream ch).0
unfolding resolve_channel resolved_to
resolve_channel-IsOf enable default stream ch i = record {
  client_over = λ f. ground (arith, i.client_over);
  udp_over = λ f. ground (arith, i.udp_over);
}

pub resolve_channel_over :
    (enable : Bool) (default stream : Transport) (ch : Channel)
    → (resolve_channel enable default stream ch).1 ≡ true
    → enable ≡ true
    → resolve_transport default stream ≡ some (resolve_channel enable default stream ch).0.use_tcp
unfolding resolve_channel resolved_to
resolve_channel_over enable default stream ch e on =
    elim (Option-cases (resolve_transport default stream)) [
      | inl f ↦ ground (arith, f)
      | inr (b, f) ↦ ground (arith, f)
    ]

pub open_channel-IsOf :
    (t : Option Bool) (enable opens : Bool) (ch : Channel)
    → (enable ≡ true → t ≡ some ch.use_tcp)
    → IsOf t ch
    → IsOf t (open_channel enable opens ch).0
unfolding open_channel has_client
open_channel-IsOf t enable opens ch on i = record {
  client_over = λ f. ground (arith, i.client_over, on);
  udp_over = λ f. ground (arith, i.udp_over, on);
}

pub start_thread-IsOf :
    (t : Option Bool) (enable : Bool) (ch : Channel) → IsOf t ch → IsOf t (start_thread enable ch)
unfolding start_thread
start_thread-IsOf t enable ch i = record {
  client_over = λ f. ground (arith, i.client_over);
  udp_over = λ f. ground (arith, i.udp_over);
}

-- What `Stop` leaves of a stream.
abbrev pub stop_channel : Bool → Channel → Channel
stop_channel reconnects ch = join_thread reconnects (close_channel ch)

pub stop_channel-IsOf :
    (t : Option Bool) (reconnects : Bool) (ch : Channel)
    → IsOf t ch
    → IsOf t (stop_channel reconnects ch)
unfolding join_thread close_channel after_thread has_client
stop_channel-IsOf t reconnects ch i = elim (Option-cases ch.tcp_client) [
  | inl e ↦ record {
    client_over = λ f. ground (arith, e);
    udp_over = λ f. ground (arith, e, i.udp_over);
  }
  | inr (b, e) ↦ record {
    client_over = λ f. ground (arith, e, i.client_over);
    udp_over = λ f. ground (arith, e, i.udp_over);
  }
]

-- No UDP socket is left open, and a TCP socket only where the thread has connected again.
pub record IsStopped (reconnects : Bool) (ch : Channel) : Type 0 where
  pub udp_shut : ch.udp_open ≡ false
  pub tcp_shut : ch.tcp_client ≡ some true → reconnects ≡ true

pub stop_channel-IsStopped :
    (t : Option Bool) (reconnects : Bool) (ch : Channel)
    → IsOf t ch
    → IsStopped reconnects (stop_channel reconnects ch)
unfolding join_thread close_channel after_thread has_client
stop_channel-IsStopped t reconnects ch i = elim (Option-cases ch.tcp_client) [
  | inl e ↦ record { udp_shut = ground (arith, e); tcp_shut = λ f. ground (arith, e) }
  | inr (b, e) ↦ record {
    udp_shut = elim (Bool-cases ch.udp_open) [
      | inl bound ↦ absurd (clash (sym (i.client_over (ground (arith, e))) ∙ i.udp_over bound))
      | inr shut ↦ ground (arith, e, shut)
    ];
    tcp_shut = λ f. ground (arith, e);
  }
]
  where
    clash : some true ≡ some false → ⊥
    clash e = cc

-- The enabled streams have the flag of their transport.
pub record IsResolved (c : Config) (s : Sdk) : Type 0 where
  rdi_flag : c.enable_rdi ≡ true → rdi_over c ≡ some s.rdi.use_tcp
  shi_flag : c.enable_shi ≡ true → shi_over c ≡ some s.shi.use_tcp
  spi_flag : c.enable_spi ≡ true → spi_over c ≡ some s.spi.use_tcp

-- The streams of a state, whatever else it holds.
pub record AreOf (c : Config) (s : Sdk) : Type 0 where
  pub rdi_is : IsOf (rdi_over c) s.rdi
  pub shi_is : IsOf (shi_over c) s.shi
  pub spi_is : IsOf (spi_over c) s.spi

pub resolve_all-AreOf :
    (c : Config) (s : Sdk)
    → (resolve_all c s).1 ≡ true
    → AreOf c s
    → AreOf c (resolve_all c s).0 × IsResolved c (resolve_all c s).0
unfolding resolve_all rdi_over shi_over spi_over
resolve_all-AreOf c s e i =
    let d = c.stream_transport in
    let a = resolve_channel-IsOf c.enable_rdi d c.rdi_transport s.rdi i.rdi_is in
    let b = resolve_channel-IsOf c.enable_shi d c.shi_transport s.shi i.shi_is in
    let f = resolve_channel-IsOf c.enable_spi d c.spi_transport s.spi i.spi_is in
    let a' = resolve_channel_over c.enable_rdi d c.rdi_transport s.rdi in
    let b' = resolve_channel_over c.enable_shi d c.shi_transport s.shi in
    let f' = resolve_channel_over c.enable_spi d c.spi_transport s.spi in
    ground (arith, a, b, f, a', b', f')

pub connect_config-AreOf :
    (c : Config) (o : Opens) (s : Sdk)
    → AreOf c s × IsResolved c s
    → AreOf c (connect_config c o s) × IsResolved c (connect_config c o s)
unfolding connect_config
connect_config-AreOf c o s i = ground arith

pub open_all-AreOf :
    (c : Config) (o : Opens) (s : Sdk)
    → (open_all c o s).1 ≡ true
    → AreOf c s × IsResolved c s
    → AreOf c (open_all c o s).0
unfolding open_all
open_all-AreOf c o s e (i, r) =
    let a = open_channel-IsOf (rdi_over c) c.enable_rdi o.rdi_opens s.rdi r.rdi_flag i.rdi_is in
    let b = open_channel-IsOf (shi_over c) c.enable_shi o.shi_opens s.shi r.shi_flag i.shi_is in
    let f = open_channel-IsOf (spi_over c) c.enable_spi o.spi_opens s.spi r.spi_flag i.spi_is in
    ground (arith, a, b, f)
