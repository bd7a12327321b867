-- ===== src/Transport/StreamClient/Exactly.antt =====
-- `recv_exact` of src/transport/tcp_stream_client.cpp over a byte stream, however it is cut into
-- answers of `recv` and however often a signal interrupts it.
use afi920_sdk.Prelude.{
  ℕ, zero, suc, ◌+◌, ◌-◌, ◌≤◌, ◌<◌, ◌≡◌, refl, sym, ap, ◌∙◌, List, [], ◌∷◌, ◌++◌, append-nil,
  append_assoc, arith, length, length-append,
}
use afi920_sdk.Transport.Network.{
  Network, IsStream, Received, got, closed, interrupted, timed_out, failed, IsEnd, closed_ends,
  timeout_ends, failure_ends,
}
use afi920_sdk.Transport.StreamClient.{Exact, filled, broken, unfinished, recv_exact, received}

module _ (net : Network) (st : IsStream net) where
  open net use {World, recv}
  open st use {pending, interrupts, delivers, resumes, ends}

  -- A read of `n` bytes behind `buf`: the next `n` pending bytes, or an end within them.
  abbrev pub Reads : ℕ → List ℕ → World → Exact → World → Type 0
  Reads n buf w (filled out) v =
      (chunk : List ℕ) × (out ≡ buf ++ chunk)
      × (length chunk ≡ n)
      × (pending w ≡ chunk ++ pending v)
      × (interrupts v ≤ interrupts w)
  Reads n buf w broken v = length (pending w) < n
  Reads n buf w unfinished v = ⊥

  -- The bytes of one answer, in front of what the later ones bring.
  Reads-got :
      (n b : ℕ) (bs buf : List ℕ) (w v : World) (e : Exact) (u : World)
      → length bs ≤ n
      → pending w ≡ b ∷ (bs ++ pending v)
      → interrupts v ≤ interrupts w
      → Reads (n - length bs) (buf ++ (b ∷ bs)) v e u
      → Reads (suc n) buf w e u
  Reads-got n b bs buf w v (filled out) u l p i (chunk, o, s, q, j) = (
    b ∷ (bs ++ chunk),
    o ∙ append_assoc buf (b ∷ bs) chunk,
    omega (arith, length-append bs chunk),
    p ∙ ap (λ rest. b ∷ (bs ++ rest)) q ∙ ap (◌∷◌ b) (sym (append_assoc bs chunk (pending u))),
    omega arith,
  )
  Reads-got n b bs buf w v broken u l p i h =
      omega (arith, ap length p, length-append bs (pending v))
  Reads-got n b bs buf w v unfinished u l p i h = h

  Reads-interrupted :
      (n : ℕ) (buf : List ℕ) (w v : World) (e : Exact) (u : World)
      → pending v ≡ pending w
      → interrupts v ≤ interrupts w
      → Reads n buf v e u
      → Reads n buf w e u
  Reads-interrupted n buf w v (filled out) u p i (chunk, o, s, q, j) =
      (chunk, o, s, sym p ∙ q, omega arith)
  Reads-interrupted n buf w v broken u p i h = omega (arith, ap length p)
  Reads-interrupted n buf w v unfinished u p i h = h

  Reads-end :
      (n : ℕ) (buf : List ℕ) (w v u : World) (a : Received)
      → recv w (suc n) ≡ (a, v)
      → IsEnd a
      → Reads (suc n) buf w broken u
  Reads-end n buf w v u a e h = omega (arith, ap length (ends w n a v e h))

  -- The reads of a whole result.
  abbrev pub ReadsBy : ℕ → List ℕ → World → Exact × World → Type 0
  ReadsBy n buf w r = Reads n buf w r.0 r.1

  -- One round: the answer of `recv`, and what the later rounds make of the rest.
  Reads-received :
      (rounds n : ℕ) (buf : List ℕ) (w : World) (r : Received × World)
      → recv w (suc n) ≡ r
      → suc n + interrupts w ≤ rounds
      → ((m : ℕ) (front : List ℕ) (u : World)
          → m + interrupts u < rounds
          → ReadsBy m front u (recv_exact net rounds m front u))
      → ReadsBy (suc n) buf w (received net (recv_exact net rounds) n buf r)
  unfolding received
  Reads-received rounds n buf w (got b bs, v) e h later =
      let d = delivers w n b bs v e in
      Reads-got n b bs buf w v _ _ d.0 d.1 d.2
        (later (n - length bs) (buf ++ (b ∷ bs)) v (omega (arith, d.2)))
  Reads-received rounds n buf w (interrupted, v) e h later =
      let d = resumes w n v e in
      Reads-interrupted (suc n) buf w v _ _ d.0 (omega (arith, d.1))
        (later (suc n) buf v (omega (arith, d.1)))
  Reads-received rounds n buf w (closed, v) e h later = Reads-end n buf w v v closed e closed_ends
  Reads-received rounds n buf w (timed_out, v) e h later =
      Reads-end n buf w v v timed_out e timeout_ends
  Reads-received rounds n buf w (failed, v) e h later = Reads-end n buf w v v failed e failure_ends

  -- Enough rounds for the bytes asked and the interrupts to come end the loop: it fills its buffer
  -- with the next bytes of the stream, or meets the end of the connection within them.
  pub recv_exact-Reads :
      (rounds n : ℕ) (buf : List ℕ) (w : World)
      → n + interrupts w < rounds
      → ReadsBy n buf w (recv_exact net rounds n buf w)
  unfolding recv_exact
  recv_exact-Reads zero n buf w h = absurd (omega arith)
  recv_exact-Reads (suc rounds) zero buf w h = ([], sym (append-nil buf), refl, refl, omega arith)
  recv_exact-Reads (suc rounds) (suc n) buf w h =
      Reads-received rounds n buf w (recv w (suc n)) refl (omega arith)
        (λ m front u l. recv_exact-Reads rounds m front u l)
