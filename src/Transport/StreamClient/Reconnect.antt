-- ===== src/Transport/StreamClient/Reconnect.antt =====
-- A stop that meets the back-off sleep of src/transport/tcp_stream_client.cpp.
use afi920_sdk.Transport.StreamClient.{
  Endpoint, Client, Reception, error, reconnected, drop_socket, shut, dial, opened, open_endpoint,
  back_off, reopen, try_reconnect, close_client, set_stopping,
}
use afi920_sdk.Prelude.{◌≡◌, refl, Bool, true, false, arith, if◌then◌else◌}
use afi920_sdk.Transport.Network.{Network}

module _ (net : Network) where
  -- Another thread's SetStopping and Close, as Stop of src/afi_sdk.cpp calls them.
  abbrev pub stopped_by_owner : Client net → Client net
  stopped_by_owner c = close_client net (set_stopping net c)

  -- `try_reconnect` of a running client, with another thread's stop during its sleep.
  abbrev pub reconnect_across_stop : Client net → Reception × Client net
  reconnect_across_stop c = reopen net (stopped_by_owner (back_off net c))

  stopped_before :
      (c : Client net) → try_reconnect net (stopped_by_owner c) ≡ (error, stopped_by_owner c)
  unfolding try_reconnect close_client set_stopping drop_socket
  stopped_before c = ground arith

  record Up (r : Bool × Client net) : Type 0 where
    running : r.1.is_running ≡ true
    open_if : r.0 ≡ true → (r.1.is_open ≡ true) × (r.1.has_socket ≡ true)

  opened-Up : (c : Client net) (r : Bool × net.World) → c.is_running ≡ true → Up (opened net c r)
  unfolding opened
  opened-Up c r h = ground (arith, h)

  dialled-Up :
      (e : Endpoint net) (c : Client net) (s : Bool × net.World)
      → c.is_running ≡ true
      → Up (if s.0 then opened net c (dial net e s.1) else (false, record c { world = s.1 }))
  dialled-Up e c (true, w) h = opened-Up c (dial net e w) h
  dialled-Up e c (false, w) h = record { running = h; open_if = λ x. absurd (cc) }

  ready_running :
      (c : Client net) (b : Bool)
      → c.is_running ≡ true
      → (if b then shut net (drop_socket net c) else c).is_running ≡ true
  unfolding shut drop_socket
  ready_running c b h = ground (arith, h)

  open_endpoint-Up : (e : Endpoint net) (c : Client net) → Up (open_endpoint net e c)
  unfolding open_endpoint
  open_endpoint-Up e c =
      dialled-Up e _ _
        (ready_running (record c { endpoint = e; is_running = true }) c.has_socket refl)

  reopen-running :
      (c : Client net)
      → ((reopen net c).1.is_running ≡ true)
        × ((reopen net c).0 ≡ reconnected
            → ((reopen net c).1.is_open ≡ true) × ((reopen net c).1.has_socket ≡ true))
  unfolding reopen
  reopen-running c =
      let up = open_endpoint-Up c.endpoint c in ground (arith, up.running, up.open_if)

  -- A stop before the reconnect ends it: `try_reconnect` fails and changes nothing. A stop that
  -- another thread makes while it sleeps is lost: whatever the network answers, the client is
  -- marked as running again afterwards, and if the connect succeeds it is open with a socket.
  pub reconnect_across_stop_lem :
      (c : Client net)
      → (try_reconnect net (stopped_by_owner c) ≡ (error, stopped_by_owner c))
        × ((reconnect_across_stop c).1.is_running ≡ true)
        × ((reconnect_across_stop c).0 ≡ reconnected
            → ((reconnect_across_stop c).1.is_open ≡ true)
              × ((reconnect_across_stop c).1.has_socket ≡ true))
  reconnect_across_stop_lem c =
      let r = reopen-running (stopped_by_owner (back_off net c)) in (stopped_before c, r.0, r.1)
