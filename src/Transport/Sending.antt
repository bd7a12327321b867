-- ===== src/Transport/Sending.antt =====
-- The loop that writes a whole buffer: TcpClient::SendAll of src/transport/tcp_client.cpp and the
-- loop of TcpSender::Send of src/transport/tcp_sender.cpp.
use afi920_sdk.Prelude.{
  subst, sym, ℕ, zero, suc, ◌≤◌, ◌≡◌, refl, ap, ◌∙◌, List, [], ◌∷◌, ◌++◌, Bool, true, false,
  append-nil, append_assoc, arith, length, take, drop, length-drop,
}
use afi920_sdk.Transport.Network.{Network, Sent, sent, unsent, IsSink}

module _ (net : Network) where
  open net use {World, send}

  -- One answer of `send`: nothing and an error end the loop.
  unfoldable pub after_send : (List ℕ → World → Bool × World) → List ℕ → Sent × World → Bool × World
  after_send later bytes (sent zero, w) = (false, w)
  after_send later bytes (sent (suc k), w) = later (drop (suc k) bytes) w
  after_send later bytes (unsent, w) = (false, w)

  -- Each round sends a byte at least, so the bytes' count bounds the rounds.
  unfoldable pub send_rounds : ℕ → List ℕ → World → Bool × World
  send_rounds zero bytes w = (true, w)
  send_rounds (suc n) [] w = (true, w)
  send_rounds (suc n) (b ∷ bs) w = after_send (send_rounds n) (b ∷ bs) (send w (b ∷ bs))

  -- True for the source's 0.
  unfoldable pub send_all : List ℕ → World → Bool × World
  send_all bytes w = send_rounds (length bytes) bytes w

  module _ (sink : IsSink net) where
    open sink use {written, writes, keeps}

    take-drop : (n : ℕ) (bytes : List ℕ) → take n bytes ++ drop n bytes ≡ bytes
    take-drop zero bytes = refl
    take-drop (suc n) [] = refl
    take-drop (suc n) (b ∷ bs) = ap (◌∷◌ b) (take-drop n bs)

    -- What a run has written: all of the bytes if it succeeds, a part from their front if not.
    abbrev pub Wrote : List ℕ → World → Bool × World → Type 0
    Wrote bytes w (true, v) = written v ≡ written w ++ bytes
    Wrote bytes w (false, v) =
        (front back : List ℕ) × (bytes ≡ front ++ back) × (written v ≡ written w ++ front)

    Wrote-more :
        (front back : List ℕ) (w v : World) (r : Bool × World)
        → written v ≡ written w ++ front
        → Wrote back v r
        → Wrote (front ++ back) w r
    Wrote-more front back w v (true, u) e h =
        h ∙ ap (λ old. old ++ back) e ∙ append_assoc (written w) front back
    Wrote-more front back w v (false, u) e (more, rest, whole, h) = (
      front ++ more,
      rest,
      ap (◌++◌ front) whole ∙ sym (append_assoc front more rest),
      h ∙ ap (λ old. old ++ more) e ∙ append_assoc (written w) front more,
    )

    Wrote-after_send :
        (n : ℕ) (bytes : List ℕ) (w : World) (r : Sent × World)
        → send w bytes ≡ r
        → ((k : ℕ) (v : World)
            → Wrote (drop (suc k) bytes) v (send_rounds n (drop (suc k) bytes) v))
        → Wrote bytes w (after_send (send_rounds n) bytes r)
    unfolding after_send
    Wrote-after_send n bytes w (sent zero, v) e later = ([], bytes, refl, writes w bytes 0 v e)
    Wrote-after_send n bytes w (sent (suc k), v) e later =
        subst (λ all. Wrote all w (send_rounds n (drop (suc k) bytes) v)) (take-drop (suc k) bytes)
          (Wrote-more (take (suc k) bytes) (drop (suc k) bytes) w v _ (writes w bytes (suc k) v e)
            (later k v))
    Wrote-after_send n bytes w (unsent, v) e later =
        ([], bytes, refl, keeps w bytes v e ∙ sym (append-nil (written w)))

    send_rounds-Wrote :
        (n : ℕ) (bytes : List ℕ) (w : World)
        → length bytes ≤ n
        → Wrote bytes w (send_rounds n bytes w)
    unfolding send_rounds
    send_rounds-Wrote zero [] w h = sym (append-nil (written w))
    send_rounds-Wrote zero (b ∷ bs) w h = absurd (omega (arith, h))
    send_rounds-Wrote (suc n) [] w h = sym (append-nil (written w))
    send_rounds-Wrote (suc n) (b ∷ bs) w h =
        Wrote-after_send n (b ∷ bs) w (send w (b ∷ bs)) refl
          (λ k v. send_rounds-Wrote n (drop k bs) v (omega (arith, h, length-drop k bs)))

    -- A send that succeeds has written all of the bytes, in their order and once; one that fails has
    -- written a part from their front. However `send` cuts them.
    pub send_all-Wrote : (bytes : List ℕ) (w : World) → Wrote bytes w (send_all bytes w)
    unfolding send_all
    send_all-Wrote bytes w = send_rounds-Wrote (length bytes) bytes w (omega arith)
