-- ===== src/Sdk/Sessions/Stopped.antt =====
-- What Stop of src/afi_sdk.cpp leaves open after any sequence of calls.
use afi920_sdk.Prelude.{
  ◌≡◌, ◌∙◌, refl, sym, subst, Bool, true, false, not, ◌&&◌, List, [], ◌∷◌, Option, if◌then◌else◌,
  arith, Bool-cases, inl, inr, if_true, if_false,
}
use afi920_sdk.E2e.{unknown}
use afi920_sdk.Error.{AfiError}
use afi920_sdk.Sdk.{
  Config, not_init, ready, stopped, Channel, Sdk, Opens, Reconnects, resolve_all, open_all,
  drop_channel, fail_init, connect_config, may_init, known_csii, init, start, is_ready, stop,
  is_not_init,
}
use afi920_sdk.Sdk.Cycle.{IsShut, IsClosed, fail_init-IsClosed}
use afi920_sdk.Sdk.Sessions.{
  idle, fresh, Call, init_call, start_call, stop_call, send_call, send_sockets, apply, run,
}
use afi920_sdk.Sdk.Sessions.Streams.{
  IsOf, rdi_over, shi_over, spi_over, shut-IsOf, start_thread-IsOf, stop_channel-IsOf, IsStopped,
  stop_channel-IsStopped, AreOf, resolve_all-AreOf, connect_config-AreOf, open_all-AreOf,
}

record IsKept (c : Config) (s : Sdk) : Type 0 where
  rdi_of : IsOf (rdi_over c) s.rdi
  shi_of : IsOf (shi_over c) s.shi
  spi_of : IsOf (spi_over c) s.spi
  quiet : s.is_running ≡ false → is_not_init s.state ≡ true → IsClosed s

fail_init-IsKept : (c : Config) (s : Sdk) → IsKept c (fail_init s)
unfolding fail_init drop_channel
fail_init-IsKept c s = record {
  rdi_of = dropped (rdi_over c) s.rdi;
  shi_of = dropped (shi_over c) s.shi;
  spi_of = dropped (spi_over c) s.spi;
  quiet = λ e f. fail_init-IsClosed s;
}
  where
    dropped : (t : Option Bool) (ch : Channel) → IsOf t (drop_channel ch)
    dropped t ch = shut-IsOf t (drop_channel ch) refl refl

fresh-IsKept : (c : Config) → IsKept c fresh
fresh-IsKept c = record {
  rdi_of = shut-IsOf (rdi_over c) idle refl refl;
  shi_of = shut-IsOf (shi_over c) idle refl refl;
  spi_of = shut-IsOf (spi_over c) idle refl refl;
  quiet = λ e f. record {
    rdi_shut = record { tcp_shut = λ d. cc; udp_shut = refl };
    shi_shut = record { tcp_shut = λ d. cc; udp_shut = refl };
    spi_shut = record { tcp_shut = λ d. cc; udp_shut = refl };
    no_config = (refl, refl);
    no_csii = (refl, refl);
  };
}

if-IsKept :
    (c : Config) (b : Bool) (x y : Sdk × AfiError)
    → (b ≡ true → IsKept c x.0)
    → (b ≡ false → IsKept c y.0)
    → IsKept c (if b then x else y).0
if-IsKept c true x y p q = p refl
if-IsKept c false x y p q = q refl

init-IsKept : (c : Config) (o : Opens) (s : Sdk) → IsKept c s → IsKept c (init c o s).0
unfolding init is_not_init
init-IsKept c o s i =
    let cleared : Sdk = record s { state = not_init; stream_generation = unknown } in
    let resolved = resolve_all c cleared in
    let opened = open_all c o (connect_config c o resolved.0) in
    if-IsKept c (not (may_init s.state)) _ _ (λ _. i)
      λ _.
        if-IsKept c (not (known_csii c.csii_transport)) _ _ (λ _. fail_init-IsKept c cleared)
          λ _.
            if-IsKept c (not resolved.1) _ _ (λ _. fail_init-IsKept c resolved.0)
              λ r.
                if-IsKept c (not opened.1) _ _ (λ _. fail_init-IsKept c opened.0)
                  λ b.
                    let before : AreOf c cleared = record {
                      rdi_is = i.rdi_of;
                      shi_is = i.shi_of;
                      spi_is = i.spi_of;
                    } in
                    let over = open_all-AreOf c o (connect_config c o resolved.0) (ground arith) (
                      connect_config-AreOf c o resolved.0
                        (resolve_all-AreOf c cleared (ground arith) before)) in
                    record {
                      rdi_of = over.rdi_is;
                      shi_of = over.shi_is;
                      spi_of = over.spi_is;
                      quiet = λ e f. absurd (not_quiet f);
                    }
  where
    not_quiet : is_not_init ready ≡ true → ⊥
    not_quiet e = cc

start-IsKept : (c : Config) (s : Sdk) → IsKept c s → IsKept c (start c s).0
unfolding start
start-IsKept c s i =
    if-IsKept c (is_ready s.state) _ _
      (λ _. record {
        rdi_of = start_thread-IsOf (rdi_over c) c.enable_rdi s.rdi i.rdi_of;
        shi_of = start_thread-IsOf (shi_over c) c.enable_shi s.shi i.shi_of;
        spi_of = start_thread-IsOf (spi_over c) c.enable_spi s.spi i.spi_of;
        quiet = λ e f. absurd (cc);
      })
      (λ _. i)

stop-IsKept : (c : Config) (r : Reconnects) (s : Sdk) → IsKept c s → IsKept c (stop r s).0
unfolding stop is_not_init
stop-IsKept c r s i =
    if-IsKept c (not s.is_running && is_not_init s.state) _ _ (λ _. i)
      λ _. record {
        rdi_of = stop_channel-IsOf (rdi_over c) r.rdi_reconnects s.rdi i.rdi_of;
        shi_of = stop_channel-IsOf (shi_over c) r.shi_reconnects s.shi i.shi_of;
        spi_of = stop_channel-IsOf (spi_over c) r.spi_reconnects s.spi i.spi_of;
        quiet = λ e f. absurd (not_quiet f);
      }
  where
    not_quiet : is_not_init stopped ≡ true → ⊥
    not_quiet e = cc

send_sockets-IsKept :
    (c : Config) (over_udp over_tcp : Bool) (s : Sdk)
    → IsKept c s
    → IsKept c (send_sockets over_udp over_tcp s)
unfolding send_sockets
send_sockets-IsKept c over_udp over_tcp s i = elim (Bool-cases (is_not_init s.state)) [
  | inl e ↦ subst (IsKept c) (sym (if_true (is_not_init s.state) _ _ e)) i
  | inr e ↦ subst (IsKept c) (sym (if_false (is_not_init s.state) _ _ e)) (record {
    rdi_of = i.rdi_of;
    shi_of = i.shi_of;
    spi_of = i.spi_of;
    quiet = λ _ f. absurd (clash (sym f ∙ e));
  })
]
  where
    clash : true ≡ false → ⊥
    clash e = cc

run-IsKept : (c : Config) (calls : List Call) (s : Sdk) → IsKept c s → IsKept c (run c calls s)
unfolding run apply
run-IsKept c [] s i = i
run-IsKept c (init_call o ∷ calls) s i = run-IsKept c calls (init c o s).0 (init-IsKept c o s i)
run-IsKept c (start_call ∷ calls) s i = run-IsKept c calls (start c s).0 (start-IsKept c s i)
run-IsKept c (stop_call r ∷ calls) s i = run-IsKept c calls (stop r s).0 (stop-IsKept c r s i)
run-IsKept c (send_call over_udp over_tcp ∷ calls) s i =
    run-IsKept c calls (send_sockets over_udp over_tcp s)
      (send_sockets-IsKept c over_udp over_tcp s i)

-- What is left behind `Stop`.
pub record AreStopped (r : Reconnects) (s : Sdk) : Type 0 where
  pub rdi_stopped : IsStopped r.rdi_reconnects s.rdi
  pub shi_stopped : IsStopped r.shi_reconnects s.shi
  pub spi_stopped : IsStopped r.spi_reconnects s.spi
  pub no_config : (s.config_client ≡ false) × (s.config_connected ≡ false)
  pub no_csii : (s.csii_sender ≡ false) × (s.csii_tcp ≡ false)

shut-IsStopped : (reconnects : Bool) (ch : Channel) → IsShut ch → IsStopped reconnects ch
shut-IsStopped reconnects ch i = record {
  udp_shut = i.udp_shut;
  tcp_shut = λ e. absurd (i.tcp_shut e);
}

-- Whatever calls of Init, Start, Stop and SendVehicleInput came before on a new SDK, in any order and
-- whichever sockets opened, with one configuration for every Init: after a further Stop, no UDP socket of
-- a stream, no socket of the vehicle input and no client of the configuration API is left open, and of the
-- TCP streams only those whose receiver thread connected again during this Stop.
pub stop-AreStopped :
    (c : Config) (calls : List Call) (r : Reconnects) → AreStopped r (stop r (run c calls fresh)).0
unfolding stop is_not_init
stop-AreStopped c calls r =
    let s = run c calls fresh in
    let i = run-IsKept c calls fresh (fresh-IsKept c) in
    elim (Bool-cases (not s.is_running && is_not_init s.state)) [
      | inl e ↦
          let closed = i.quiet (ground arith) (ground arith) in
          subst (λ (x : Sdk × AfiError). AreStopped r x.0)
            (sym (if_true (not s.is_running && is_not_init s.state) _ _ e))
            (record {
              rdi_stopped = shut-IsStopped r.rdi_reconnects s.rdi closed.rdi_shut;
              shi_stopped = shut-IsStopped r.shi_reconnects s.shi closed.shi_shut;
              spi_stopped = shut-IsStopped r.spi_reconnects s.spi closed.spi_shut;
              no_config = closed.no_config;
              no_csii = closed.no_csii;
            })
      | inr e ↦
          subst (λ (x : Sdk × AfiError). AreStopped r x.0)
            (sym (if_false (not s.is_running && is_not_init s.state) _ _ e))
            (record {
              rdi_stopped = stop_channel-IsStopped (rdi_over c) r.rdi_reconnects s.rdi i.rdi_of;
              shi_stopped = stop_channel-IsStopped (shi_over c) r.shi_reconnects s.shi i.shi_of;
              spi_stopped = stop_channel-IsStopped (spi_over c) r.spi_reconnects s.spi i.spi_of;
              no_config = (refl, refl);
              no_csii = (refl, refl);
            })
    ]
