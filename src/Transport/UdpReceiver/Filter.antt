-- ===== src/Transport/UdpReceiver/Filter.antt =====
-- The source filter of src/transport/udp_receiver.cpp over the datagrams that arrive.
use afi920_sdk.Prelude.{
  ℕ, zero, suc, ◌+◌, ◌%◌, ◌^◌, ◌<◌, ◌≡◌, refl, ap, ap₂, sym, ◌∙◌, List, [], ◌∷◌, Bool, true, false,
  not, Option, none, some, ◌==◌, if◌then◌else◌, arith, if_true, subst,
}
use afi920_sdk.Transport.UdpReceiver.{
  Datagram, arrived, quiet, broken, UdpNetwork, failed, Receiver, is_foreign, accept, receive,
  filter_on, set_expected_source, collect, receive_loop,
}

-- Whether a source filter lets a sender through.
abbrev pub admits : Option ℕ → ℕ → Bool
admits none sender = true
admits (some address) sender = sender == address

-- The payloads to hand on, and the datagrams to count as foreign.
abbrev pub accepted : Option ℕ → List Datagram → List (List ℕ)
accepted f [] = []
accepted f (arrived sender [] ∷ ds) = accepted f ds
accepted f (arrived sender (b ∷ bs) ∷ ds) =
    let rest = accepted f ds in if admits f sender then (b ∷ bs) ∷ rest else rest
accepted f (quiet ∷ ds) = accepted f ds
accepted f (broken ∷ ds) = accepted f ds

abbrev pub foreign : Option ℕ → List Datagram → ℕ
foreign f [] = 0
foreign f (arrived sender bs ∷ ds) = (if admits f sender then 0 else 1) + foreign f ds
foreign f (quiet ∷ ds) = foreign f ds
foreign f (broken ∷ ds) = foreign f ds

add_wrap : (drops n : ℕ) → ((drops + 1) % 2 ^ 64 + n) % 2 ^ 64 ≡ (drops + (1 + n)) % 2 ^ 64
add_wrap drops n = omega arith

sum_small : (drops : ℕ) → drops < 2 ^ 64 → drops ≡ (drops + 0) % 2 ^ 64
sum_small drops h = omega arith

module _ (net : UdpNetwork) where
  open net use {World, Ip, inet_pton, recvfrom}

  -- The answers of `n` calls of `recvfrom`, one after another.
  abbrev pub arrivals : ℕ → ℕ → World → List Datagram
  arrivals buf_size zero w = []
  arrivals buf_size (suc n) w = let d = recvfrom w buf_size in d.0 ∷ arrivals buf_size n d.1

  -- The filter that a text sets: none for the empty text and for one that is no address.
  abbrev pub filter_of : Option Ip → Option ℕ
  filter_of none = none
  filter_of (some ip) = inet_pton ip

  -- The receiver filters by `f`.
  record Filters (f : Option ℕ) (r : Receiver net) : Type 0 where
    open_socket : r.has_socket ≡ true
    small : r.foreign_drops < 2 ^ 64
    tests : (sender : ℕ) → is_foreign net r sender ≡ not (admits f sender)

  Follows : Option ℕ → List Datagram → Receiver net → List (List ℕ) × Receiver net → Type 0
  Follows f ds r out =
      (out.0 ≡ accepted f ds) × (out.1.foreign_drops ≡ (r.foreign_drops + foreign f ds) % 2 ^ 64)

  Follows-accept :
      (f : Option ℕ) (ds : List Datagram) (r : Receiver net) (d : Datagram) (w : World)
      (later : Receiver net → List (List ℕ) × Receiver net)
      → Filters f r
      → ((q : Receiver net) → q.world ≡ w → Filters f q → Follows f ds q (later q))
      → Follows f (d ∷ ds) r (collect net later (accept net r (d, w)))
  unfolding Follows collect accept is_foreign
  Follows-accept f ds r quiet w later i ih =
      ih (record r { world = w }) refl
        (record { open_socket = i.open_socket; small = i.small; tests = i.tests })
  Follows-accept f ds r broken w later i ih =
      ih (record r { world = w }) refl
        (record { open_socket = i.open_socket; small = i.small; tests = i.tests })
  Follows-accept f ds r (arrived sender []) w later i ih =
      let own =
        ih (record r { world = w }) refl
          (record { open_socket = i.open_socket; small = i.small; tests = i.tests }) in
      let other =
        ih (record r { world = w; foreign_drops = (r.foreign_drops + 1) % 2 ^ 64 }) refl
          (record { open_socket = i.open_socket; small = omega arith; tests = i.tests }) in
      ground (arith, i.tests sender, own, other, add_wrap r.foreign_drops (foreign f ds))
  Follows-accept f ds r (arrived sender (b ∷ bs)) w later i ih =
      let own =
        ih (record r { world = w }) refl
          (record { open_socket = i.open_socket; small = i.small; tests = i.tests }) in
      let other =
        ih (record r { world = w; foreign_drops = (r.foreign_drops + 1) % 2 ^ 64 }) refl
          (record { open_socket = i.open_socket; small = omega arith; tests = i.tests }) in
      ground (arith, i.tests sender, own, other, add_wrap r.foreign_drops (foreign f ds))

  receive_loop-Follows :
      (f : Option ℕ) (buf_size n : ℕ) (r : Receiver net)
      → Filters f r
      → Follows f (arrivals buf_size n r.world) r (receive_loop net buf_size n r)
  unfolding receive_loop receive
  receive_loop-Follows f buf_size zero r i =
      unfold Follows in (refl, sum_small r.foreign_drops i.small)
  receive_loop-Follows f buf_size (suc n) r i =
      let d = recvfrom r.world buf_size in
      subst
        (λ x.
          Follows f (d.0 ∷ arrivals buf_size n d.1) r (collect net (receive_loop net buf_size n) x))
        (sym (if_true r.has_socket (accept net r d) (failed, r) i.open_socket))
        (Follows-accept f (arrivals buf_size n d.1) r d.0 d.1 (receive_loop net buf_size n) i
          (λ q e j.
            subst (λ w. Follows f (arrivals buf_size n w) q (receive_loop net buf_size n q)) e
              (receive_loop-Follows f buf_size n q j)))

  set-Filters :
      (ip : Option Ip) (r : Receiver net)
      → r.has_socket ≡ true
      → r.foreign_drops < 2 ^ 64
      → Filters (filter_of ip) (set_expected_source net ip r).1
  unfolding set_expected_source is_foreign filter_on
  set-Filters none r h lt = record { open_socket = h; small = lt; tests = λ sender. refl }
  set-Filters (some ip) r h lt = on (inet_pton ip)
    where
      on : (a : Option ℕ) → Filters a (filter_on net (record r { filter_source = false }) a).1
      on none = record { open_socket = h; small = lt; tests = λ sender. refl }
      on (some address) = record { open_socket = h; small = lt; tests = λ sender. ground arith }

  same :
      (ip : Option Ip) (r : Receiver net)
      → ((set_expected_source net ip r).1.world ≡ r.world)
        × ((set_expected_source net ip r).1.foreign_drops ≡ r.foreign_drops)
  unfolding set_expected_source filter_on
  same none r = (refl, refl)
  same (some ip) r = on (inet_pton ip)
    where
      on :
          (a : Option ℕ)
          → ((filter_on net (record r { filter_source = false }) a).1.world ≡ r.world)
            × ((filter_on net (record r { filter_source = false }) a).1.foreign_drops
                ≡ r.foreign_drops)
      on none = (refl, refl)
      on (some address) = (refl, refl)

  -- After SetExpectedSource, `n` rounds of a receiver thread hand on exactly the payloads of the
  -- datagrams that came from the address it was given, in their order and unchanged, of those that
  -- `n` calls of `recvfrom` bring; each other datagram is counted in foreign_drops once, and nothing
  -- else is, modulo 2^64 as the counter's 64 bits have it. An empty text, and one that is no address,
  -- lets every sender through. The socket is open; empty datagrams and errors are passed over.
  pub receive_loop-accepted :
      (ip : Option Ip) (buf_size n : ℕ) (r : Receiver net)
      → r.has_socket ≡ true
      → r.foreign_drops < 2 ^ 64
      → ((receive_loop net buf_size n (set_expected_source net ip r).1).0
          ≡ accepted (filter_of ip) (arrivals buf_size n r.world))
        × ((receive_loop net buf_size n (set_expected_source net ip r).1).1.foreign_drops
            ≡ (r.foreign_drops + foreign (filter_of ip) (arrivals buf_size n r.world)) % 2 ^ 64)
  unfolding Follows
  receive_loop-accepted ip buf_size n r h lt =
      let set = (set_expected_source net ip r).1 in
      let x = receive_loop-Follows (filter_of ip) buf_size n set (set-Filters ip r h lt) in
      let e = same ip r in
      (
        x.0 ∙ ap (λ w. accepted (filter_of ip) (arrivals buf_size n w)) e.0,
        x.1
            ∙ ap₂ (λ drops w. (drops + foreign (filter_of ip) (arrivals buf_size n w)) % 2 ^ 64) e.1
                e.0,
      )
