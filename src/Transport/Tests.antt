-- ===== src/Transport/Tests.antt =====
-- Runs of src/transport/ over a network in memory.
pub mod InMemory
pub mod TcpClientRuns
pub mod UdpRuns
use afi920_sdk.Prelude.{
  ℕ, ◌+◌, ◌≤◌, ◌<◌, ◌≡◌, refl, List, [], ◌∷◌, ◌++◌, true, false, arith, length, All,
}
use afi920_sdk.Transport.Network.{Network}
use afi920_sdk.Transport.Tests.InMemory.{
  Line, Arrival, octet, signal, in_memory, in_memory-IsStream, in_memory-CountsFiles,
}
use afi920_sdk.Transport.StreamClient.{
  Client, receive_loop, recv_exact, received, receive, receive_with, collect, receive_prefix,
  receive_rest, finish, shut, try_reconnect, error, reconnected,
}
use afi920_sdk.Transport.StreamClient.Frames.{frames, IsFrame, concat}
use afi920_sdk.Transport.StreamClient.Refine.{receive_loop-frames, receive_loop-concat}
use afi920_sdk.Transport.StreamClient.Calls.{
  Call, open_call, receive_call, close_call, run, run-IsOwned,
}
use afi920_sdk.Transport.StreamClient.Owned.{IsOwned}
use afi920_sdk.Transport.StreamClient.Reconnect.{
  stopped_by_owner, reconnect_across_stop, reconnect_across_stop_lem,
}

-- Two frames, of 10 and 8 bytes, and a third that is cut off; a signal in the midst of the first.
abbrev first_frame : List ℕ
first_frame = 1 ∷ 2 ∷ 3 ∷ 4 ∷ 0 ∷ 0 ∷ 0 ∷ 2 ∷ 7 ∷ 8 ∷ []

abbrev second_frame : List ℕ
second_frame = 5 ∷ 6 ∷ 7 ∷ 8 ∷ 0 ∷ 0 ∷ 0 ∷ 0 ∷ []

abbrev busy_line : Line
busy_line = record {
  arrivals =
      octet 1
      ∷ octet 2
      ∷ octet 3
      ∷ octet 4
      ∷ octet 0
      ∷ octet 0
      ∷ octet 0
      ∷ signal
      ∷ octet 2
      ∷ octet 7
      ∷ octet 8
      ∷ octet 5
      ∷ octet 6
      ∷ octet 7
      ∷ octet 8
      ∷ octet 0
      ∷ octet 0
      ∷ octet 0
      ∷ octet 0
      ∷ octet 9
      ∷ [];
  written = [];
  files = 1;
  listens = true;
}

abbrev busy_client : Client in_memory
busy_client = record {
  world = busy_line;
  endpoint = record { ip = 10; port = 30501; connect_timeout_ms = 5000 };
  has_socket = true;
  is_open = true;
  is_running = true;
  reconnect_delay_ms = 1000;
}

first_frame-IsFrame : IsFrame 64 first_frame
first_frame-IsFrame = record { has_prefix = omega arith; is_counted = refl; fits = omega arith }

second_frame-IsFrame : IsFrame 64 second_frame
second_frame-IsFrame = record { has_prefix = omega arith; is_counted = refl; fits = omega arith }

receive_loop_run : receive_loop in_memory 100 64 2 busy_client ≡ first_frame ∷ second_frame ∷ []
unfolding receive_loop receive receive_with receive_prefix receive_rest finish shut recv_exact
    received collect try_reconnect
receive_loop_run = refl

receive_loop-frames_example :
    (later : List (List ℕ)) × (receive_loop in_memory 100 64 2 busy_client
      ≡ frames 2 64 (in_memory-IsStream.pending busy_line) ++ later)
receive_loop-frames_example =
    receive_loop-frames in_memory in_memory-IsStream 100 64 (omega arith) (λ w total l. refl) 2
      busy_client refl (omega arith)

receive_loop-concat_example :
    receive_loop in_memory 100 64 2 busy_client ≡ first_frame ∷ second_frame ∷ []
receive_loop-concat_example =
    receive_loop-concat in_memory in_memory-IsStream 100 64 (omega arith) (λ w total l. refl)
      busy_client (first_frame ∷ second_frame ∷ []) (9 ∷ []) refl (omega arith)
      (first_frame-IsFrame, (second_frame-IsFrame, tt)) refl

abbrev some_calls : List (Call in_memory)
some_calls =
    receive_call 100 64
    ∷ receive_call 100 64
    ∷ receive_call 100 64
    ∷ receive_call 100 64
    ∷ open_call (record { ip = 10; port = 30501; connect_timeout_ms = 5000 })
    ∷ close_call
    ∷ []

run-IsOwned_example :
    IsOwned in_memory in_memory-CountsFiles 0 (run in_memory some_calls busy_client)
run-IsOwned_example =
    run-IsOwned in_memory in_memory-CountsFiles 0 some_calls busy_client
      (record { owned = refl; backed = λ e. refl; not_hasty = omega arith; not_idle = omega arith })

reconnect_across_stop_lem_example :
    (try_reconnect in_memory (stopped_by_owner in_memory busy_client)
      ≡ (error, stopped_by_owner in_memory busy_client))
    × ((reconnect_across_stop in_memory busy_client).1.is_running ≡ true)
    × ((reconnect_across_stop in_memory busy_client).0 ≡ reconnected
        → ((reconnect_across_stop in_memory busy_client).1.is_open ≡ true)
          × ((reconnect_across_stop in_memory busy_client).1.has_socket ≡ true))
reconnect_across_stop_lem_example = reconnect_across_stop_lem in_memory busy_client
