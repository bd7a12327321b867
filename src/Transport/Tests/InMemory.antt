-- ===== src/Transport/Tests/InMemory.antt =====
-- A network in memory that meets what the system calls of src/transport/ are assumed to do. It
-- delivers one byte for each call of `recv`, and takes at most three for each call of `send`.
use afi920_sdk.Prelude.{
  ap, ℕ, suc, ◌-◌, ◌≤◌, ◌<◌, ◌≡◌, refl, min, List, [], ◌∷◌, ◌++◌, Bool, true, some, arith, length,
  take, if◌then◌else◌,
}
use afi920_sdk.Transport.Network.{
  Network, IsStream, CountsFiles, Received, got, closed, interrupted, timed_out, failed, IsEnd,
  sent, Sent, unsent, connected, refused,
}

pub data Arrival : Type 0 where
  octet : ℕ → Arrival
  signal : Arrival

pub record Line : Type 0 where
  pub arrivals : List Arrival
  pub written : List ℕ
  pub files : ℕ
  pub listens : Bool

abbrev pub take_arrival : Line → List Arrival → Received × Line
take_arrival w [] = (closed, w)
take_arrival w (octet b ∷ rest) = (got b [], record w { arrivals = rest })
take_arrival w (signal ∷ rest) = (interrupted, record w { arrivals = rest })

abbrev pub octets : List Arrival → List ℕ
octets [] = []
octets (octet b ∷ rest) = b ∷ octets rest
octets (signal ∷ rest) = octets rest

abbrev pub signals : List Arrival → ℕ
signals [] = 0
signals (octet b ∷ rest) = signals rest
signals (signal ∷ rest) = suc (signals rest)

abbrev pub take_bytes : Line → List ℕ → Sent × Line
take_bytes w [] = (unsent, w)
take_bytes w (b ∷ bs) =
    (sent (min 3 (length (b ∷ bs))), record w { written = w.written ++ take 3 (b ∷ bs) })

abbrev pub in_memory : Network
in_memory = record {
  World = Line;
  Ip = ℕ;
  inet_pton = λ ip. some ip;
  socket = λ w. (true, record w { files = suc w.files });
  connect = λ w address port. (if w.listens then connected else refused, w);
  select = λ w ms. (w.listens, w);
  so_error = λ w. 0;
  recv = λ w n. take_arrival w w.arrivals;
  send = take_bytes;
  close = λ w. record w { files = w.files - 1 };
  sleep = λ w ms. w;
  allocates = λ w total. true;
}

pub delivers_lem :
    (w : Line) (l : List Arrival) (n b : ℕ) (bs : List ℕ) (v : Line)
    → take_arrival w l ≡ (got b bs, v)
    → (length bs ≤ n)
      × (octets l ≡ b ∷ (bs ++ octets v.arrivals))
      × (signals v.arrivals ≤ signals l)
delivers_lem w [] n b bs v e = absurd (cc)
delivers_lem w (octet c ∷ rest) n b bs v e = ground arith
delivers_lem w (signal ∷ rest) n b bs v e = absurd (cc)

pub resumes_lem :
    (w : Line) (l : List Arrival) (v : Line)
    → take_arrival w l ≡ (interrupted, v)
    → (octets v.arrivals ≡ octets l) × (signals v.arrivals < signals l)
resumes_lem w [] v e = absurd (cc)
resumes_lem w (octet c ∷ rest) v e = absurd (cc)
resumes_lem w (signal ∷ rest) v e = ground arith

pub ends_lem :
    (w : Line) (l : List Arrival) (a : Received) (v : Line)
    → take_arrival w l ≡ (a, v)
    → IsEnd a
    → octets l ≡ []
ends_lem w [] a v e h = refl
ends_lem w (octet c ∷ rest) a v e h = absurd (no_bytes a h (ap (λ (r : Received × Line). r.0) e))
  where
    no_bytes : (a : Received) → IsEnd a → got c [] ≡ a → ⊥
    no_bytes (got _ _) h e = elim h [ ]
    no_bytes interrupted h e = elim h [ ]
    no_bytes closed h e = cc
    no_bytes timed_out h e = cc
    no_bytes failed h e = cc
ends_lem w (signal ∷ rest) a v e h = absurd (no_signal a h (ap (λ (r : Received × Line). r.0) e))
  where
    no_signal : (a : Received) → IsEnd a → interrupted ≡ a → ⊥
    no_signal (got _ _) h e = elim h [ ]
    no_signal interrupted h e = elim h [ ]
    no_signal closed h e = cc
    no_signal timed_out h e = cc
    no_signal failed h e = cc

pub recv_files : (w : Line) (l : List Arrival) → (take_arrival w l).1.files ≡ w.files
recv_files w [] = refl
recv_files w (octet b ∷ rest) = refl
recv_files w (signal ∷ rest) = refl

pub send_files : (w : Line) (bytes : List ℕ) → (take_bytes w bytes).1.files ≡ w.files
send_files w [] = refl
send_files w (b ∷ bs) = refl

abbrev pub in_memory-IsStream : IsStream in_memory
in_memory-IsStream = record {
  pending = λ w. octets w.arrivals;
  interrupts = λ w. signals w.arrivals;
  delivers = λ w n b bs v. delivers_lem w w.arrivals n b bs v;
  resumes = λ w n v. resumes_lem w w.arrivals v;
  ends = λ w n a v. ends_lem w w.arrivals a v;
}

abbrev pub in_memory-CountsFiles : CountsFiles in_memory
in_memory-CountsFiles = record {
  held = λ w. w.files;
  socket_held = λ w. omega arith;
  close_held = λ w. refl;
  connect_held = λ w address port. refl;
  select_held = λ w ms. refl;
  recv_held = λ w n. recv_files w w.arrivals;
  send_held = send_files;
  sleep_held = λ w ms. refl;
}
