-- ===== src/Transport/StreamClient/Calls.antt =====
-- The descriptor and the back-off delay of src/transport/tcp_stream_client.cpp over any sequence of
-- calls.
use afi920_sdk.Transport.StreamClient.{
  be32_at, error, Exact, filled, broken, unfinished, recv_exact, Client, Endpoint, receive,
  receive_buffer, receive_with, receive_prefix, receive_rest, finish, open_endpoint, back_off,
  reopen, try_reconnect, close_client, set_stopping,
}
use afi920_sdk.Prelude.{if_false, if_true, ℕ, ◌≡◌, ◌∙◌, List, [], ◌∷◌, Bool, Bool-cases, inl, inr}
use afi920_sdk.Transport.Network.{Network, CountsFiles}
use afi920_sdk.Transport.StreamClient.Frames.{size_of}
use afi920_sdk.Transport.StreamClient.Owned.{
  IsOwned, recv_exact_held, finish-IsOwned, shut-IsOwned, open_endpoint-IsOwned,
  close_client-IsOwned, set_stopping-IsOwned, back_off-IsOwned, reopen-IsOwned,
}

module _ (net : Network) where
  -- The calls of the class's users.
  pub data Call : Type 0 where
    open_call : Endpoint net → Call
    receive_call : ℕ → ℕ → Call
    buffer_call : ℕ → ℕ → Call
    stop_call : Call
    close_call : Call

  unfoldable pub apply : Call → Client net → Client net
  apply (open_call e) c = (open_endpoint net e c).1
  apply (receive_call rounds limit) c = (receive net rounds limit c).1
  apply (buffer_call rounds limit) c = (receive_buffer net rounds limit c).1
  apply stop_call c = set_stopping net c
  apply close_call c = close_client net c

  unfoldable pub run : List Call → Client net → Client net
  run [] c = c
  run (call ∷ calls) c = run calls (apply call c)

  module _ (files : CountsFiles net) where
    open net use {World}
    open files use {held}

    module _ (base : ℕ) (c : Client net) (inv : IsOwned net files base c) where
      try_reconnect-IsOwned : IsOwned net files base (try_reconnect net c).1
      unfolding try_reconnect
      try_reconnect-IsOwned = elim (Bool-cases c.is_running) [
        | inl running ↦
            rw (if_true c.is_running (reopen net (back_off net c)) (error, c) running) (
              reopen-IsOwned net files base (back_off net c)
                (back_off-IsOwned net files base c inv))
        | inr stopped ↦
            rw (if_false c.is_running (reopen net (back_off net c)) (error, c) stopped) inv
      ]

      module _ (rounds : ℕ) (refuses : ℕ → World → Bool) where
        rest-IsOwned :
            (hdr : List ℕ) (w : World)
            → held w ≡ held c.world
            → IsOwned net files base (receive_rest net rounds refuses c hdr w).1
        unfolding receive_rest
        rest-IsOwned hdr w h = elim (Bool-cases (refuses (size_of hdr) w)) [
          | inl big ↦ rw big (shut-IsOwned net files base c inv w h)
          | inr fits ↦ rw fits (
              finish-IsOwned net files base c inv (recv_exact net rounds (be32_at hdr 4) hdr w)
                (recv_exact_held net files rounds (be32_at hdr 4) hdr w ∙ h))
        ]

        prefix-IsOwned :
            (r : Exact × World)
            → held r.1 ≡ held c.world
            → IsOwned net files base (receive_prefix net rounds refuses c r).1
        unfolding receive_prefix
        prefix-IsOwned (filled hdr, w) h = rest-IsOwned hdr w h
        prefix-IsOwned (broken, w) h = shut-IsOwned net files base c inv w h
        prefix-IsOwned (unfinished, w) h =
            unfold finish in finish-IsOwned net files base c inv (unfinished, w) h

        receive_with-IsOwned : IsOwned net files base (receive_with net rounds refuses c).1
        unfolding receive_with
        receive_with-IsOwned = elim (Bool-cases c.is_open) [
          | inl up ↦
              rw
                (if_true c.is_open
                  (receive_prefix net rounds refuses c (recv_exact net rounds 8 [] c.world))
                  (try_reconnect net c) up)
                (prefix-IsOwned _ (recv_exact_held net files rounds 8 [] c.world))
          | inr down ↦
              rw
                (if_false c.is_open
                  (receive_prefix net rounds refuses c (recv_exact net rounds 8 [] c.world))
                  (try_reconnect net c) down)
                try_reconnect-IsOwned
        ]

    apply-IsOwned :
        (base : ℕ) (call : Call) (c : Client net)
        → IsOwned net files base c
        → IsOwned net files base (apply call c)
    unfolding apply receive receive_buffer
    apply-IsOwned base (open_call e) c inv = open_endpoint-IsOwned net files base c inv e
    apply-IsOwned base (receive_call rounds limit) c inv = receive_with-IsOwned base c inv rounds _
    apply-IsOwned base (buffer_call rounds limit) c inv = receive_with-IsOwned base c inv rounds _
    apply-IsOwned base stop_call c inv = set_stopping-IsOwned net files base c inv
    apply-IsOwned base close_call c inv = close_client-IsOwned net files base c inv

    -- Through any sequence of Open, Receive (both), SetStopping and Close the client leaks no
    -- descriptor: it holds one exactly while it has a socket, whatever fails. An
    -- open client has a socket, and the back-off delay stays within 1 and 30 seconds.
    pub run-IsOwned :
        (base : ℕ) (calls : List Call) (c : Client net)
        → IsOwned net files base c
        → IsOwned net files base (run calls c)
    unfolding run
    run-IsOwned base [] c inv = inv
    run-IsOwned base (call ∷ calls) c inv =
        run-IsOwned base calls (apply call c) (apply-IsOwned base call c inv)
