-- ===== src/Transport/StreamClient/Refine.antt =====
-- The receive loop of src/transport/tcp_stream_client.cpp against the framing of the byte stream.
use afi920_sdk.Prelude.{
  append-nil, if_true, ℕ, zero, suc, ◌+◌, ◌≤◌, ◌<◌, ◌≡◌, refl, sym, ap, ◌∙◌, subst, List, [], ◌∷◌,
  ◌++◌, Option, none, some, Bool, true, false, not, ◌||◌, append_assoc, arith, length, ltb,
  Bool-cases, inl, inr, All, length-append,
}
use afi920_sdk.Transport.StreamClient.{
  collect, receive_loop, Exact, filled, broken, unfinished, Client, Reception, frame, error,
  waiting, reconnected, receive, receive_with, receive_prefix, receive_rest, finish, shut, int_max,
}
use afi920_sdk.Transport.StreamClient.Frames.{
  split_frame-cut, split_frame-append, split_frame-large, size_of-append, split_frame-short,
  size_of, split_frame, frames, concat, IsFrame, frames-concat,
}
use afi920_sdk.Endian.Laws.{be32_at}
use afi920_sdk.Transport.Network.{Network, IsStream}
use afi920_sdk.Transport.StreamClient.Exactly.{ReadsBy, recv_exact-Reads}

module _ (net : Network) (st : IsStream net) where
  open net use {World, allocates}
  open st use {pending, interrupts}

  -- What `Receive` does to an open client, told by the first frame of its stream: it returns the
  -- frame and leaves the rest, or fails and shuts the client.
  abbrev pub Agrees : Client net → Option (List ℕ × List ℕ) → Reception × Client net → Type 0
  Agrees c none r = (r.0 ≡ error) × (r.1.is_open ≡ false)
  Agrees c (some (f, rest)) r =
      (r.0 ≡ frame f)
      × (r.1.is_open ≡ true)
      × (pending r.1.world ≡ rest)
      × (interrupts r.1.world ≤ interrupts c.world)

  module _ (rounds max_size : ℕ) (bounded : max_size ≤ int_max)
      (has_memory : (w : World) (total : ℕ) → total ≤ max_size → allocates w total ≡ true) where
    refuses : ℕ → World → Bool
    refuses total w = ltb max_size total || ltb int_max total || not (allocates w total)

    refuses-large : (total : ℕ) (w : World) → refuses total w ≡ true → max_size < total
    unfolding refuses
    refuses-large total w h = ground (arith, bounded, has_memory w total)

    refuses-small : (total : ℕ) (w : World) → refuses total w ≡ false → total ≤ max_size
    unfolding refuses
    refuses-small total w h = ground arith

    module _ (c : Client net) (opened : c.is_open ≡ true) where
      agree_short :
          (bytes : List ℕ) (v : World)
          → split_frame max_size bytes ≡ none
          → Agrees c (split_frame max_size bytes) (error, shut net (record c { world = v }))
      agree_short bytes v h = unfold shut in rw h (refl, refl)

      agree_finish :
          (hdr : List ℕ) (v : World) (r : Exact × World)
          → length hdr ≡ 8
          → size_of hdr ≤ max_size
          → interrupts v ≤ interrupts c.world
          → ReadsBy net st (be32_at hdr 4) hdr v r
          → Agrees c (split_frame max_size (hdr ++ pending v)) (finish net c r)
      unfolding finish
      agree_finish hdr v (filled out, u) l m i (chunk, o, s, q, j) =
          let whole : hdr ++ pending v ≡ out ++ pending u =
            ap (◌++◌ hdr) q
            ∙ sym (append_assoc hdr chunk (pending u))
            ∙ ap (λ f. f ++ pending u) (sym o) in
          let sized = size_of-append hdr chunk (omega (arith, l)) in
          let counted = length-append hdr chunk in
          let valid : IsFrame max_size out = subst (IsFrame max_size) (sym o) (record {
            has_prefix = omega (arith, counted, l);
            is_counted = omega (arith, counted, sized, s, l);
            fits = omega (arith, counted, s, l, m);
          }) in
          rw (whole, split_frame-append max_size out (pending u) valid)
            (refl, opened, refl, omega (arith, i, j))
      agree_finish hdr v (broken, u) l m i h = agree_short (hdr ++ pending v) u (
          split_frame-cut max_size (hdr ++ pending v) (
            omega (
              arith,
              h,
              l,
              length-append hdr (pending v),
              size_of-append hdr (pending v) (omega (arith, l)),
            )))
      agree_finish hdr v (unfinished, u) l m i h = absurd h

      agree_rest :
          (hdr : List ℕ) (v : World)
          → length hdr ≡ 8
          → interrupts v ≤ interrupts c.world
          → max_size + 8 + interrupts c.world < rounds
          → Agrees c
              (split_frame max_size (hdr ++ pending v))
              (receive_rest net rounds refuses c hdr v)
      unfolding receive_rest
      agree_rest hdr v l i enough =
          let sized = size_of-append hdr (pending v) (omega (arith, l)) in
          elim (Bool-cases (refuses (size_of hdr) v)) [
            | inl big ↦
                let large = refuses-large (size_of hdr) v big in
                rw big (
                  agree_short (hdr ++ pending v) v
                    (split_frame-large max_size (hdr ++ pending v) (omega (arith, sized, large))))
            | inr fits ↦
                let small = refuses-small (size_of hdr) v fits in
                rw fits (
                  agree_finish hdr v _ l small i (
                    recv_exact-Reads net st rounds (be32_at hdr 4) hdr v
                      (omega (arith, small, i, enough))))
          ]

      agree_prefix :
          (r : Exact × World)
          → max_size + 8 + interrupts c.world < rounds
          → ReadsBy net st 8 [] c.world r
          → Agrees c
              (split_frame max_size (pending c.world))
              (receive_prefix net rounds refuses c r)
      unfolding receive_prefix
      agree_prefix (filled hdr, v) enough (chunk, o, s, q, j) =
          rw (q, sym o) (agree_rest hdr v (ap length o ∙ s) j enough)
      agree_prefix (broken, v) enough h =
          agree_short (pending c.world) v (split_frame-short max_size (pending c.world) h)
      agree_prefix (unfinished, v) enough h = absurd h

    receive-Agrees :
        (c : Client net)
        → c.is_open ≡ true
        → max_size + 8 + interrupts c.world < rounds
        → Agrees c (split_frame max_size (pending c.world)) (receive net rounds max_size c)
    unfolding receive receive_with refuses
    receive-Agrees c opened enough =
        subst (Agrees c (split_frame max_size (pending c.world)))
          (sym (if_true c.is_open _ _ opened))
          (agree_prefix c opened _ enough
            (recv_exact-Reads net st rounds 8 [] c.world (omega (arith, enough))))

    -- The frames of `n` rounds begin with the first `n` frames of the stream.
    Continues : ℕ → Client net → List (List ℕ) → Type 0
    Continues n c fs =
        (later : List (List ℕ)) × (receive_loop net rounds max_size n c ≡ fs ++ later)

    Continues-step :
        (n : ℕ) (c : Client net) (o : Option (List ℕ × List ℕ)) (r : Reception × Client net)
        → split_frame max_size (pending c.world) ≡ o
        → receive net rounds max_size c ≡ r
        → max_size + 8 + interrupts c.world < rounds
        → Agrees c o r
        → ((d : Client net)
            → d.is_open ≡ true
            → max_size + 8 + interrupts d.world < rounds
            → Continues n d (frames n max_size (pending d.world)))
        → Continues (suc n) c (frames (suc n) max_size (pending c.world))
    unfolding Continues receive_loop collect frames
    Continues-step n c none (r, d) e f enough (x, y) later =
        rw (frames, e) (receive_loop net rounds max_size (suc n) c, refl)
    Continues-step n c (some (first, rest)) (r, d) e f enough (x, y, z, i) later =
        let next = later d y (omega (arith, i, enough)) in
        (
          next.0,
          ap (collect net (receive_loop net rounds max_size n)) (f ∙ ap (λ o. (o, d)) x)
              ∙ ap (◌∷◌ first) (next.1 ∙ ap (λ b. frames n max_size b ++ next.0) z)
              ∙ rw (frames, e) refl,
        )

    -- However the stream is cut into answers of `recv`, the frames that `n` rounds of a receiver
    -- thread hand on begin with the first `n` frames of the byte stream of the connection, if
    -- the client is open, the limit is at most INT_MAX, memory suffices up to it, and the rounds of
    -- one read cover a frame and the interrupts to come.
    pub receive_loop-frames :
        (n : ℕ) (c : Client net)
        → c.is_open ≡ true
        → max_size + 8 + interrupts c.world < rounds
        → (later : List (List ℕ)) × (receive_loop net rounds max_size n c
            ≡ frames n max_size (pending c.world) ++ later)
    unfolding Continues receive_loop frames
    receive_loop-frames zero c opened enough = ([], refl)
    receive_loop-frames (suc n) c opened enough =
        Continues-step n c _ _ refl refl enough (receive-Agrees c opened enough)
          (λ d o e. receive_loop-frames n d o e)

    length-collect :
        (n : ℕ) (r : Reception × Client net)
        → ((d : Client net) → length (receive_loop net rounds max_size n d) ≤ n)
        → length (collect net (receive_loop net rounds max_size n) r) ≤ suc n
    unfolding collect
    length-collect n (frame f, c) h = omega (arith, h c)
    length-collect n (reconnected, c) h = omega (arith, h c)
    length-collect n (error, c) h = omega (arith, h c)
    length-collect n (waiting, c) h = omega (arith, h c)

    length-receive_loop :
        (n : ℕ) (c : Client net) → length (receive_loop net rounds max_size n c) ≤ n
    unfolding receive_loop
    length-receive_loop zero c = omega arith
    length-receive_loop (suc n) c =
        length-collect n (receive net rounds max_size c) (length-receive_loop n)

    empty : (l : List (List ℕ)) → length l ≡ 0 → l ≡ []
    empty [] h = refl
    empty (f ∷ fs) h = absurd (omega (arith, h))

    -- Frames that the sensor sends back to back are what the receiver thread hands on, each once, in
    -- their order and unchanged, after one round for each: however the stream is cut into answers of
    -- `recv`. The client is open, each frame's length field counts it and is within the limit, the
    -- limit is at most INT_MAX, memory suffices up to it, and the rounds of one read cover a frame
    -- and the interrupts to come.
    pub receive_loop-concat :
        (c : Client net) (fs : List (List ℕ)) (rest : List ℕ)
        → c.is_open ≡ true
        → max_size + 8 + interrupts c.world < rounds
        → All (IsFrame max_size) fs
        → pending c.world ≡ concat fs ++ rest
        → receive_loop net rounds max_size (length fs) c ≡ fs
    receive_loop-concat c fs rest opened enough valid sends =
        let run = receive_loop-frames (length fs) c opened enough in
        let e =
          run.1
          ∙ ap (λ b. frames (length fs) max_size b ++ run.0) sends
          ∙ ap (λ out. out ++ run.0)
              (frames-concat (length fs) max_size fs rest (omega arith) valid) in
        let none_left : length run.0 ≡ 0 =
          omega (arith, ap length e, length-append fs run.0, length-receive_loop (length fs) c) in
        e ∙ ap (◌++◌ fs) (empty run.0 none_left) ∙ append-nil fs
