-- ===== src/Transport/Network.antt =====
-- The system calls that src/transport/ makes on one socket, as operations on an abstract world, and
-- what their documentation says of them. The operating system is not part of the SDK, so both are
-- parameters.
use afi920_sdk.Prelude.{
  take, ◌-◌, if◌then◌else◌, ◌+◌, ℕ, suc, ◌≤◌, ◌<◌, ◌≡◌, List, [], ◌∷◌, ◌++◌, Bool, Option, length,
}

-- An answer of `recv`: bytes, 0 for the end of the connection, or -1 with its errno.
pub data Received : Type 0 where
  got : ℕ → List ℕ → Received
  closed : Received
  interrupted : Received
  timed_out : Received
  failed : Received

-- An answer of `send`: a positive count, or 0 and -1 as one.
pub data Sent : Type 0 where
  sent : ℕ → Sent
  unsent : Sent

-- An answer of `connect`: 0, -1 with EINPROGRESS, or another -1.
pub data Connecting : Type 0 where
  connected in_progress refused : Connecting

-- The answers after which a receiver gives up.
pub data IsEnd : Received → Type 0 where
  closed_ends : IsEnd closed
  timeout_ends : IsEnd timed_out
  failure_ends : IsEnd failed

pub record Network : Type 1 where
  pub World : Type 0
  pub Ip : Type 0
  pub inet_pton : Ip → Option ℕ
  pub socket : World → Bool × World
  pub connect : World → ℕ → ℕ → Connecting × World
  pub select : World → ℕ → Bool × World
  pub so_error : World → ℕ
  pub recv : World → ℕ → Received × World
  pub send : World → List ℕ → Sent × World
  pub close : World → World
  pub sleep : World → ℕ → World
  pub allocates : World → ℕ → Bool

-- A byte stream: `pending` is what the connection still delivers before it ends, and `interrupts`
-- counts the signals that arrive until then. A call for `n` bytes gives at least one and at most
-- `n` of them, and never fails while bytes are pending.
pub record IsStream (net : Network) : Type 0 where
  pub pending : net.World → List ℕ
  pub interrupts : net.World → ℕ
  pub delivers :
      (w : net.World) (n b : ℕ) (bs : List ℕ) (v : net.World)
      → net.recv w (suc n) ≡ (got b bs, v)
      → (length bs ≤ n) × (pending w ≡ b ∷ (bs ++ pending v)) × (interrupts v ≤ interrupts w)
  pub resumes :
      (w : net.World) (n : ℕ) (v : net.World)
      → net.recv w (suc n) ≡ (interrupted, v)
      → (pending v ≡ pending w) × (interrupts v < interrupts w)
  pub ends :
      (w : net.World) (n : ℕ) (a : Received) (v : net.World)
      → net.recv w (suc n) ≡ (a, v)
      → IsEnd a
      → pending w ≡ []

-- The descriptors that the process holds: a valid `socket` is one more and `close` one less; the
-- other calls change nothing of it.
pub record CountsFiles (net : Network) : Type 0 where
  pub held : net.World → ℕ
  pub socket_held :
      (w : net.World) → held (net.socket w).1 ≡ held w + (if (net.socket w).0 then 1 else 0)
  pub close_held : (w : net.World) → held (net.close w) ≡ held w - 1
  pub connect_held :
      (w : net.World) (address port : ℕ) → held (net.connect w address port).1 ≡ held w
  pub select_held : (w : net.World) (timeout : ℕ) → held (net.select w timeout).1 ≡ held w
  pub recv_held : (w : net.World) (n : ℕ) → held (net.recv w n).1 ≡ held w
  pub send_held : (w : net.World) (bytes : List ℕ) → held (net.send w bytes).1 ≡ held w
  pub sleep_held : (w : net.World) (ms : ℕ) → held (net.sleep w ms) ≡ held w

-- What was written to a connection: an accepted count is a part from the front of what was given.
pub record IsSink (net : Network) : Type 0 where
  pub written : net.World → List ℕ
  pub writes :
      (w : net.World) (bytes : List ℕ) (k : ℕ) (v : net.World)
      → net.send w bytes ≡ (sent k, v)
      → written v ≡ written w ++ take k bytes
  pub keeps :
      (w : net.World) (bytes : List ℕ) (v : net.World)
      → net.send w bytes ≡ (unsent, v)
      → written v ≡ written w
