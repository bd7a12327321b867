-- ===== src/Transport/StreamClient.antt =====
-- src/transport/tcp_stream_client.h and tcp_stream_client.cpp: the TCP receiver of one data stream,
-- with its framing and its reconnects. The socket options, best-effort in the source, are left out;
-- the first argument `rounds` bounds the calls of `recv` for one read, since a call that a signal
-- interrupts is made again.
pub mod Exactly
pub mod Frames
pub mod Refine
pub mod Owned
pub mod Calls
pub mod Reconnect
use afi920_sdk.Prelude.{
  ℕ, zero, suc, ◌+◌, ◌*◌, ◌-◌, min, List, [], ◌∷◌, ◌++◌, Bool, true, false, not, ◌||◌, Option, none,
  some, length, ltb, ◌!=◌, if◌then◌else◌,
}
use afi920_sdk.Endian.Laws.{be32_at}
use afi920_sdk.Transport.Network.{
  Network, got, closed, interrupted, timed_out, failed, refused, connected, in_progress, Connecting,
  Received,
}

abbrev pub max_reconnect_delay : ℕ
max_reconnect_delay = 30000

abbrev pub min_reconnect_delay : ℕ
min_reconnect_delay = 1000

-- `std::numeric_limits<int>::max()`
abbrev pub int_max : ℕ
int_max = 2147483647

-- What `recv_exact` leaves: its buffer filled, its -1, or a loop that still runs.
pub data Exact : Type 0 where
  filled : List ℕ → Exact
  broken : Exact
  unfinished : Exact

-- What `Receive` returns: a frame, 0 after a reconnect, -1, or a read that still runs.
pub data Reception : Type 0 where
  frame : List ℕ → Reception
  reconnected : Reception
  error : Reception
  waiting : Reception

abbrev is_refused : Connecting → Bool
is_refused refused = true
is_refused connected = false
is_refused in_progress = false

module _ (net : Network) where
  open net use {
    World, Ip, inet_pton, socket, connect, select, so_error, recv, close, sleep, allocates,
  }

  pub record Endpoint : Type 0 where
    pub ip : Ip
    pub port : ℕ
    pub connect_timeout_ms : ℕ

  -- `TcpStreamClient`, with the world that its calls act on.
  pub record Client : Type 0 where
    pub world : World
    pub endpoint : Endpoint
    pub has_socket : Bool
    pub is_open : Bool
    pub is_running : Bool
    pub reconnect_delay_ms : ℕ

  -- One answer of `recv`, when `n + 1` bytes are still missing; `later` is the rest of the loop.
  unfoldable pub received :
      (ℕ → List ℕ → World → Exact × World) → ℕ → List ℕ → Received × World → Exact × World
  received later n buf (got b bs, w) = later (n - length bs) (buf ++ (b ∷ bs)) w
  received later n buf (interrupted, w) = later (suc n) buf w
  received later n buf (closed, w) = (broken, w)
  received later n buf (timed_out, w) = (broken, w)
  received later n buf (failed, w) = (broken, w)

  unfoldable pub recv_exact : ℕ → ℕ → List ℕ → World → Exact × World
  recv_exact zero n buf w = (unfinished, w)
  recv_exact (suc rounds) zero buf w = (filled buf, w)
  recv_exact (suc rounds) (suc n) buf w = received (recv_exact rounds) n buf (recv w (suc n))

  -- `platform_close_socket` and the reset of `socket_`
  unfoldable pub drop_socket : Client → Client
  drop_socket c = if c.has_socket then record c { world = close c.world; has_socket = false } else c

  unfoldable pub shut : Client → Client
  shut c = record c { is_open = false }

  -- `connect` behind the valid socket: the wait for it, and its SO_ERROR. A failure closes it.
  unfoldable pub wait_connected : Endpoint → Connecting × World → Bool × World
  wait_connected e k =
      let v = select k.1 e.connect_timeout_ms in
      if is_refused k.0
      then (false, close k.1)
      else if not v.0 || so_error v.1 != 0
      then (false, close v.1)
      else (true, v.1)

  -- An address that `inet_pton` refuses closes it too.
  unfoldable pub dial_address : Endpoint → World → Option ℕ → Bool × World
  dial_address e w none = (false, close w)
  dial_address e w (some address) = wait_connected e (connect w address e.port)

  unfoldable pub dial : Endpoint → World → Bool × World
  dial e w = dial_address e w (inet_pton e.ip)

  -- The state that `Open` leaves with the answer of `socket` or `dial`.
  unfoldable pub opened : Client → Bool × World → Bool × Client
  opened c r =
      if r.0
      then (
        true,
        record c {
          world = r.1;
          has_socket = true;
          is_open = true;
          reconnect_delay_ms = min_reconnect_delay;
        },
      )
      else (false, record c { world = r.1 })

  -- `Open`, with true for its 0. An old socket is closed first, and only then is the client shut.
  unfoldable pub open_endpoint : Endpoint → Client → Bool × Client
  open_endpoint e c =
      let started = record c { endpoint = e; is_running = true } in
      let ready = if c.has_socket then shut (drop_socket started) else started in
      let s = socket ready.world in
      if s.0 then opened ready (dial e s.1) else (false, record ready { world = s.1 })

  -- `try_reconnect` up to the end of its sleep.
  unfoldable pub back_off : Client → Client
  back_off c =
      let dropped = shut (drop_socket c) in
      record dropped { world = sleep dropped.world dropped.reconnect_delay_ms }

  -- The rest of `try_reconnect`.
  unfoldable pub reopen : Client → Reception × Client
  reopen c =
      let o = open_endpoint c.endpoint c in
      if o.0 then (reconnected, o.1) else (
        error,
        record o.1 { reconnect_delay_ms = min (o.1.reconnect_delay_ms * 2) max_reconnect_delay },
      )

  unfoldable pub try_reconnect : Client → Reception × Client
  try_reconnect c = if c.is_running then reopen (back_off c) else (error, c)

  -- What a read of `recv_exact` means to `Receive`.
  unfoldable pub finish : Client → Exact × World → Reception × Client
  finish c r = elim r.0 [
    | filled buf ↦ (frame buf, record c { world = r.1 })
    | broken ↦ (error, shut (record c { world = r.1 }))
    | unfinished ↦ (waiting, record c { world = r.1 })
  ]

  module _ (rounds : ℕ) (refuses : ℕ → World → Bool) where
    -- The prefix gives the size; the rest is read behind it.
    unfoldable pub receive_rest : Client → List ℕ → World → Reception × Client
    receive_rest c hdr w =
        let size = be32_at hdr 4 in
        if refuses (8 + size) w
        then (error, shut (record c { world = w }))
        else finish c (recv_exact rounds size hdr w)

    unfoldable pub receive_prefix : Client → Exact × World → Reception × Client
    receive_prefix c r = elim r.0 [
      | filled hdr ↦ receive_rest c hdr r.1
      | broken ↦ (error, shut (record c { world = r.1 }))
      | unfinished ↦ (waiting, record c { world = r.1 })
    ]

    -- What the two overloads of `Receive` share: they differ in the totals that they refuse.
    unfoldable pub receive_with : Client → Reception × Client
    receive_with c =
        if c.is_open then receive_prefix c (recv_exact rounds 8 [] c.world) else try_reconnect c

  -- `Receive(uint8_t*, size_t)`
  unfoldable pub receive_buffer : ℕ → ℕ → Client → Reception × Client
  receive_buffer rounds buf_size = receive_with rounds (λ total w. ltb buf_size total)

  -- `Receive(std::vector<uint8_t>&, size_t)`; `allocates` is the resize that may throw bad_alloc.
  unfoldable pub receive : ℕ → ℕ → Client → Reception × Client
  receive rounds max_frame_size =
      receive_with rounds
        (λ total w. ltb max_frame_size total || ltb int_max total || not (allocates w total))

  -- `n` rounds of a receiver thread (RdiThreadFunc, ShiThreadFunc and SpiThreadFunc of
  -- src/afi_sdk.cpp): the frames that it hands on. A round without a frame goes on to the next.
  unfoldable pub collect : (Client → List (List ℕ)) → Reception × Client → List (List ℕ)
  collect later (frame f, c) = f ∷ later c
  collect later (reconnected, c) = later c
  collect later (error, c) = later c
  collect later (waiting, c) = later c

  unfoldable pub receive_loop : ℕ → ℕ → ℕ → Client → List (List ℕ)
  receive_loop rounds max_frame_size zero c = []
  receive_loop rounds max_frame_size (suc n) c =
      collect (receive_loop rounds max_frame_size n) (receive rounds max_frame_size c)

  unfoldable pub close_client : Client → Client
  close_client c = drop_socket (record c { is_running = false; is_open = false })

  unfoldable pub set_stopping : Client → Client
  set_stopping c = record c { is_running = false }
