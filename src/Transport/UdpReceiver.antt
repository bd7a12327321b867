-- ===== src/Transport/UdpReceiver.antt =====
-- UdpReceiver of src/transport/udp_receiver.h and udp_receiver.cpp: the socket of one UDP stream and
-- its source filter. The calls of the operating system are parameters; socket options, the multicast
-- membership among them, are left out.
pub mod Filter
use afi920_sdk.Prelude.{
  ℕ, zero, suc, ◌+◌, ◌%◌, ◌^◌, ◌≡◌, refl, ap, ap₂, ◌∙◌, List, [], ◌∷◌, Bool, true, false, Option,
  none, some, ◌!=◌, ◌&&◌, if◌then◌else◌, arith, Bool-cases, inl, inr,
}

-- An answer of `recvfrom`: a sender's address with the bytes that fit the buffer, EAGAIN, or another
-- error.
pub data Datagram : Type 0 where
  arrived : ℕ → List ℕ → Datagram
  quiet : Datagram
  broken : Datagram

-- `inet_pton` is given the text of an address; the empty text is `none` of `Option Ip` below.
pub record UdpNetwork : Type 1 where
  pub World : Type 0
  pub Ip : Type 0
  pub inet_pton : Ip → Option ℕ
  pub socket : World → Bool × World
  pub bind : World → ℕ → Bool × World
  pub recvfrom : World → ℕ → Datagram × World
  pub close : World → World

-- What `Receive` returns: a datagram with its length, 0, or -1.
pub data UdpReception : Type 0 where
  received : List ℕ → UdpReception
  nothing : UdpReception
  failed : UdpReception

module _ (net : UdpNetwork) where
  open net use {World, Ip, inet_pton, socket, bind, recvfrom, close}

  pub record Receiver : Type 0 where
    pub world : World
    pub has_socket : Bool
    pub filter_source : Bool
    pub expected_source : ℕ
    pub foreign_drops : ℕ

  unfoldable pub close_receiver : Receiver → Receiver
  close_receiver r =
      if r.has_socket then record r { world = close r.world; has_socket = false } else r

  -- `Open` behind its `bind`: a failure closes the socket.
  unfoldable pub bound : Receiver → Bool × World → Bool × Receiver
  bound r (true, w) = (true, record r { world = w; has_socket = true })
  bound r (false, w) = (false, record r { world = close w; has_socket = false })

  -- `Open`, with true for its 0.
  unfoldable pub open_receiver : ℕ → Receiver → Bool × Receiver
  open_receiver port r =
      let shut = close_receiver r in
      let made = socket shut.world in
      if made.0
      then bound shut (bind made.1 port)
      else (false, record shut { world = made.1; has_socket = false })

  -- Whether `Receive` drops a datagram from `sender`.
  unfoldable pub is_foreign : Receiver → ℕ → Bool
  is_foreign r sender = r.filter_source && sender != r.expected_source

  unfoldable pub accept : Receiver → Datagram × World → UdpReception × Receiver
  accept r (arrived sender bytes, w) =
      if is_foreign r sender
      then (nothing, record r { world = w; foreign_drops = (r.foreign_drops + 1) % 2 ^ 64 })
      else (received bytes, record r { world = w })
  accept r (quiet, w) = (nothing, record r { world = w })
  accept r (broken, w) = (failed, record r { world = w })

  unfoldable pub receive : ℕ → Receiver → UdpReception × Receiver
  receive buf_size r = if r.has_socket then accept r (recvfrom r.world buf_size) else (failed, r)

  -- The filter that an address sets, with true for success.
  unfoldable pub filter_on : Receiver → Option ℕ → Bool × Receiver
  filter_on r none = (false, r)
  filter_on r (some address) = (true, record r { filter_source = true; expected_source = address })

  unfoldable pub set_expected_source : Option Ip → Receiver → Bool × Receiver
  set_expected_source none r = (true, record r { filter_source = false })
  set_expected_source (some ip) r = filter_on (record r { filter_source = false }) (inet_pton ip)

  -- `n` rounds of a receiver thread of src/afi_sdk.cpp: the datagrams that it hands on, and the
  -- receiver afterwards. A round without one, or with an empty one, goes on to the next.
  unfoldable pub collect :
      (Receiver → List (List ℕ) × Receiver) → UdpReception × Receiver → List (List ℕ) × Receiver
  collect later (received [], r) = later r
  collect later (received (b ∷ bs), r) = let rest = later r in ((b ∷ bs) ∷ rest.0, rest.1)
  collect later (nothing, r) = later r
  collect later (failed, r) = later r

  unfoldable pub receive_loop : ℕ → ℕ → Receiver → List (List ℕ) × Receiver
  receive_loop buf_size zero r = ([], r)
  receive_loop buf_size (suc n) r = collect (receive_loop buf_size n) (receive buf_size r)
