-- ===== src/Transport/Senders.antt =====
-- src/transport/tcp_sender.h and tcp_sender.cpp, and UdpSender of src/transport/udp_receiver.h and
-- udp_receiver.cpp: the two ways the vehicle input frames leave. Socket options are left out; an
-- empty list also stands for a null pointer.
use afi920_sdk.Prelude.{
  ℕ, List, Bool, true, false, not, Option, none, some, length, ◌==◌, if◌then◌else◌,
}
use afi920_sdk.Transport.Network.{
  Network, Connecting, connected, in_progress, refused, Sent, sent, unsent,
}
use afi920_sdk.Transport.Sending.{send_all}

abbrev is_connected : Connecting → Bool
is_connected connected = true
is_connected in_progress = false
is_connected refused = false

module _ (net : Network) where
  open net use {World, Ip, inet_pton, socket, connect, send, close}

  -- `TcpSender` and `UdpSender`: the world and whether `socket_` is valid.
  pub record Sender : Type 0 where
    pub world : World
    pub has_socket : Bool

  -- `Disconnect` of both classes, and the first lines of `Connect`.
  unfoldable pub disconnect : Sender → Sender
  disconnect s = if s.has_socket then record { world = close s.world; has_socket = false } else s

  -- `connect`, and the socket closed where it fails.
  unfoldable pub finish_connect : Connecting × World → Bool × Sender
  finish_connect k =
      if is_connected k.0
      then (true, record { world = k.1; has_socket = true })
      else (false, record { world = close k.1; has_socket = false })

  -- `TcpSender::Connect` behind its socket.
  unfoldable pub tcp_connect_socket : Option ℕ → ℕ → World → Bool × Sender
  tcp_connect_socket none port w = (false, record { world = close w; has_socket = false })
  tcp_connect_socket (some address) port w = finish_connect (connect w address port)

  -- True for the source's 0.
  unfoldable pub tcp_connect : Ip → ℕ → Sender → Bool × Sender
  tcp_connect ip port s =
      let shut = disconnect s in
      let made = socket shut.world in
      if made.0
      then tcp_connect_socket (inet_pton ip) port made.1
      else (false, record { world = made.1; has_socket = false })

  -- `UdpSender::Connect` with the address read before a socket is made.
  unfoldable pub udp_connect_address : Option ℕ → ℕ → Sender → Bool × Sender
  udp_connect_address none port s = (false, s)
  udp_connect_address (some address) port s =
      let made = socket s.world in
      if made.0
      then finish_connect (connect made.1 address port)
      else (false, record { world = made.1; has_socket = false })

  unfoldable pub udp_connect : Ip → ℕ → Sender → Bool × Sender
  udp_connect ip port s = udp_connect_address (inet_pton ip) port (disconnect s)

  -- `TcpSender::Send` behind its loop: a failure closes the socket.
  unfoldable pub sent_or_closed : Bool × World → Bool × Sender
  sent_or_closed (true, w) = (true, record { world = w; has_socket = true })
  sent_or_closed (false, w) = (false, record { world = close w; has_socket = false })

  unfoldable pub tcp_send : List ℕ → Sender → Bool × Sender
  tcp_send bytes s =
      if not s.has_socket
      then (false, s)
      else if length bytes == 0
      then (false, s)
      else sent_or_closed (send_all net bytes s.world)

  -- `UdpSender::Send` behind its call: a count that is not the length is a failure, and the socket
  -- stays.
  unfoldable pub sent_whole : List ℕ → Sent × World → Bool × World
  sent_whole bytes (sent k, w) = (k == length bytes, w)
  sent_whole bytes (unsent, w) = (false, w)

  unfoldable pub udp_send : List ℕ → Sender → Bool × Sender
  udp_send bytes s =
      let r = sent_whole bytes (send s.world bytes) in
      if s.has_socket then (r.0, record s { world = r.1 }) else (false, s)
