-- ===== src/Transport/Tests/UdpRuns.antt =====
-- Runs of src/transport/udp_receiver.cpp over a network in memory.
use afi920_sdk.Prelude.{ℕ, ◌≡◌, refl, List, [], ◌∷◌, true, false, some, arith}
use afi920_sdk.Transport.UdpReceiver.{
  Datagram, arrived, quiet, broken, UdpNetwork, Receiver, set_expected_source, receive_loop,
}
use afi920_sdk.Transport.UdpReceiver.Filter.{receive_loop-accepted}

abbrev take_datagram : List Datagram → Datagram × List Datagram
take_datagram [] = (quiet, [])
take_datagram (d ∷ ds) = (d, ds)

abbrev udp_line : UdpNetwork
udp_line = record {
  World = List Datagram;
  Ip = ℕ;
  inet_pton = λ ip. some ip;
  socket = λ w. (true, w);
  bind = λ w port. (true, w);
  recvfrom = λ w n. take_datagram w;
  close = λ w. w;
}

-- Two datagrams of sensor 10 and one of 11 between them, an empty one, and an error.
abbrev listening : Receiver udp_line
listening = record {
  world =
      arrived 10 (1 ∷ 2 ∷ [])
      ∷ arrived 11 (3 ∷ [])
      ∷ broken
      ∷ arrived 10 []
      ∷ arrived 10 (4 ∷ [])
      ∷ [];
  has_socket = true;
  filter_source = false;
  expected_source = 0;
  foreign_drops = 7;
}

receive_loop-accepted_example :
    ((receive_loop udp_line 65507 6 (set_expected_source udp_line (some 10) listening).1).0
      ≡ (1 ∷ 2 ∷ []) ∷ (4 ∷ []) ∷ [])
    × ((receive_loop udp_line 65507 6
          (set_expected_source udp_line (some 10) listening).1).1.foreign_drops
        ≡ 8)
receive_loop-accepted_example =
    receive_loop-accepted udp_line (some 10) 65507 6 listening refl (omega arith)
