-- ===== src/Transport/TcpClient/Reads.antt =====
-- `RecvExact` of src/transport/tcp_client.cpp over a byte stream.
use afi920_sdk.Prelude.{
  ap₂, ℕ, zero, suc, ◌-◌, ◌≤◌, ◌≡◌, refl, sym, ap, ◌∙◌, List, [], ◌∷◌, ◌++◌, append-nil,
  append_assoc, arith, length, length-append,
}
use afi920_sdk.Interface.{InterfaceHeaders}
use afi920_sdk.Transport.Network.{
  Network, IsStream, Received, got, closed, interrupted, timed_out, failed, closed_ends,
  timeout_ends, failure_ends,
}
use afi920_sdk.Transport.TcpClient.Wire.{Reading, complete}
use afi920_sdk.Transport.TcpClient.{recv_exact, recv_rounds, received}

head_eq : {a b : ℕ} {xs ys : List ℕ} → a ∷ xs ≡ b ∷ ys → a ≡ b
head_eq e = cc

tail_eq : {a b : ℕ} {xs ys : List ℕ} → a ∷ xs ≡ b ∷ ys → xs ≡ ys
tail_eq e = cc

-- Two ways to cut one list, the first no longer than the second.
cut_between :
    (bs p cs rest : List ℕ)
    → bs ++ p ≡ cs ++ rest
    → length bs ≤ length cs
    → (mid : List ℕ) × (cs ≡ bs ++ mid) × (p ≡ mid ++ rest)
cut_between [] p cs rest e l = (cs, refl, e)
cut_between (b ∷ bs) p [] rest e l = absurd (omega (arith, l))
cut_between (b ∷ bs) p (c ∷ cs) rest e l =
    let r = cut_between bs p cs rest (tail_eq e) (omega (arith, l)) in
    (r.0, ap₂ ◌∷◌ (sym (head_eq e)) r.1, r.2)

module _ (net : Network) (h : InterfaceHeaders) (st : IsStream net) where
  open net use {World, recv}
  open st use {pending, interrupts, delivers, resumes, ends}

  -- The read of a chunk that the stream holds next.
  abbrev pub Gets : List ℕ → List ℕ → List ℕ → Reading × World → Type 0
  Gets chunk rest buf r =
      (r.0 ≡ complete (buf ++ chunk)) × (pending r.1 ≡ rest) × (interrupts r.1 ≡ 0)

  Gets-received :
      (rounds n : ℕ) (chunk rest buf : List ℕ) (w : World) (r : Received × World)
      → recv w (suc n) ≡ r
      → length chunk ≡ suc n
      → pending w ≡ chunk ++ rest
      → interrupts w ≡ 0
      → ((m : ℕ) (more front : List ℕ) (v : World)
          → m ≤ n
          → length more ≡ m
          → pending v ≡ more ++ rest
          → interrupts v ≡ 0
          → Gets more rest front (recv_rounds net h rounds m front v))
      → Gets chunk rest buf (received net h (recv_rounds net h rounds) n buf r)
  unfolding received
  Gets-received rounds n chunk rest buf w (got b bs, v) e l p i later =
      let d = delivers w n b bs v e in
      let c = cut_between (b ∷ bs) (pending v) chunk rest (sym d.1 ∙ p) (omega (arith, l, d.0)) in
      let g =
        later (n - length bs) c.0 (buf ++ (b ∷ bs)) v (omega arith) (sized n bs c.0 chunk l c.1) c.2
          (omega (arith, d.2, i)) in
      (g.0 ∙ ap complete (append_assoc buf (b ∷ bs) c.0 ∙ ap (◌++◌ buf) (sym c.1)), g.1, g.2)
    where
      sized :
          (n : ℕ) (bs mid all : List ℕ)
          → length all ≡ suc n
          → all ≡ b ∷ (bs ++ mid)
          → length mid ≡ n - length bs
      sized n bs mid all l e = omega (arith, l, ap length e, length-append bs mid)
  Gets-received rounds n chunk rest buf w (interrupted, v) e l p i later =
      absurd (omega (arith, (resumes w n v e).1, i))
  Gets-received rounds n chunk rest buf w (closed, v) e l p i later = absurd (
      omega
        (arith, l, length-append chunk rest, ap length (sym p ∙ ends w n closed v e closed_ends)))
  Gets-received rounds n chunk rest buf w (timed_out, v) e l p i later = absurd (
      omega (
        arith,
        l,
        length-append chunk rest,
        ap length (sym p ∙ ends w n timed_out v e timeout_ends),
      ))
  Gets-received rounds n chunk rest buf w (failed, v) e l p i later = absurd (
      omega
        (arith, l, length-append chunk rest, ap length (sym p ∙ ends w n failed v e failure_ends)))

  recv_rounds-Gets :
      (rounds n : ℕ) (chunk rest buf : List ℕ) (w : World)
      → n ≤ rounds
      → length chunk ≡ n
      → pending w ≡ chunk ++ rest
      → interrupts w ≡ 0
      → Gets chunk rest buf (recv_rounds net h rounds n buf w)
  unfolding recv_rounds
  recv_rounds-Gets zero n [] rest buf w k l p i = (ap complete (sym (append-nil buf)), p, i)
  recv_rounds-Gets zero n (c ∷ cs) rest buf w k l p i = absurd (omega (arith, k, l))
  recv_rounds-Gets (suc rounds) zero [] rest buf w k l p i =
      (ap complete (sym (append-nil buf)), p, i)
  recv_rounds-Gets (suc rounds) zero (c ∷ cs) rest buf w k l p i = absurd (omega (arith, l))
  recv_rounds-Gets (suc rounds) (suc n) chunk rest buf w k l p i =
      Gets-received rounds n chunk rest buf w (recv w (suc n)) refl l p i (λ m more front v b e q j.
        recv_rounds-Gets rounds m more rest front v (omega (arith, b, k)) e q j)

  -- A chunk that the stream holds is read whole, and nothing behind it.
  pub recv_exact-Gets :
      (n : ℕ) (chunk rest : List ℕ) (w : World)
      → length chunk ≡ n
      → pending w ≡ chunk ++ rest
      → interrupts w ≡ 0
      → Gets chunk rest [] (recv_exact net h n w)
  unfolding recv_exact
  recv_exact-Gets n chunk rest w l p i = recv_rounds-Gets n n chunk rest [] w (omega arith) l p i
