-- ===== src/Stream/Loss.antt =====
-- `TrackRdiLoss` of src/afi_sdk.cpp over a run of counters.
use afi920_sdk.Prelude.{
  ℕ, ◌+◌, ◌-◌, ◌%◌, ◌^◌, ◌<◌, ◌≡◌, refl, ap, subst, List, [], ◌∷◌, true, false, length, arith,
  if_true,
}
use afi920_sdk.Stream.{Event, Settings, StreamState, track_rdi_loss}

-- The handler on one counter after another.
pub track_all : Settings → StreamState → List ℕ → StreamState
track_all c s [] = s
track_all c s (counter ∷ counters) = track_all c (track_rdi_loss c s counter).0 counters

pub last_counter : ℕ → List ℕ → ℕ
last_counter x [] = x
last_counter x (y ∷ ys) = last_counter y ys

-- Each counter is ahead of the one before it by less than half the range.
abbrev pub IsAscending : ℕ → List ℕ → Type 0
IsAscending x [] = x < 2 ^ 32
IsAscending x (y ∷ ys) = (x < y) × (y < x + 2 ^ 31) × IsAscending y ys

ascending_fits : (x : ℕ) (ys : List ℕ) → IsAscending x ys → x < 2 ^ 32
ascending_fits x [] a = a
ascending_fits x (y ∷ ys) a = omega (arith, a.0, ascending_fits y ys a.2)

track_first :
    (c : Settings) (s : StreamState) (x : ℕ)
    → s.first_rdi ≡ true
    → (track_rdi_loss c s x).0 ≡ record s {
      total_packets = (s.total_packets + 1) % 2 ^ 32;
      last_rdi_e2e_counter = x;
      first_rdi = false;
    }
unfolding track_rdi_loss
track_first c s x e = ap (λ (r : StreamState × List Event). r.0) (if_true s.first_rdi _ _ e)

-- A counter ahead of the last one adds the slots between them.
record IsAhead (s : StreamState) (y : ℕ) (t : StreamState) : Type 0 where
  total : t.total_packets ≡ (s.total_packets + 1) % 2 ^ 32
  lost : t.lost_packets ≡ (s.lost_packets + (y - s.last_rdi_e2e_counter - 1)) % 2 ^ 32
  last : t.last_rdi_e2e_counter ≡ y
  started : t.first_rdi ≡ false

track-IsAhead :
    (c : Settings) (s : StreamState) (y : ℕ)
    → s.first_rdi ≡ false
    → s.last_rdi_e2e_counter < y
    → y < s.last_rdi_e2e_counter + 2 ^ 31
    → y < 2 ^ 32
    → s.lost_packets < 2 ^ 32
    → IsAhead s y (track_rdi_loss c s y).0
unfolding track_rdi_loss
track-IsAhead c s y e lt near fits l =
    let delta : (y + 2 ^ 32 - s.last_rdi_e2e_counter) % 2 ^ 32 ≡ y - s.last_rdi_e2e_counter =
      omega arith in
    record {
      total = ground (arith, delta);
      lost = ground (arith, delta);
      last = ground (arith, delta);
      started = ground (arith, delta);
    }

-- The state after `n` counters from `first` to `x`: the received and the lost ones fill the span.
record IsTally (first n x : ℕ) (s : StreamState) : Type 0 where
  started : s.first_rdi ≡ false
  last : s.last_rdi_e2e_counter ≡ x
  total : s.total_packets ≡ n % 2 ^ 32
  span : s.lost_packets + n + first ≡ x + 1

track-IsTally :
    (c : Settings) (s : StreamState) (first n x y : ℕ)
    → IsTally first n x s
    → x < y
    → y < x + 2 ^ 31
    → y < 2 ^ 32
    → IsTally first (n + 1) y (track_rdi_loss c s y).0
track-IsTally c s first n x y t lt near fits =
    let a =
      track-IsAhead c s y t.started (omega (arith, t.last)) (omega (arith, t.last)) fits
        (omega (arith, t.span)) in
    record {
      started = a.started;
      last = a.last;
      total = omega (arith, a.total, t.total);
      span = omega (arith, a.lost, t.span, t.last);
    }

track_all-IsTally :
    (c : Settings) (s : StreamState) (first n x : ℕ) (ys : List ℕ)
    → IsTally first n x s
    → IsAscending x ys
    → IsTally first (n + length ys) (last_counter x ys) (track_all c s ys)
unfolding track_all last_counter
track_all-IsTally c s first n x [] t a = subst (λ m. IsTally first m x s) (omega arith) t
track_all-IsTally c s first n x (y ∷ ys) t a =
    subst (λ m. IsTally first m (last_counter y ys) (track_all c (track_rdi_loss c s y).0 ys))
      (omega arith)
      (track_all-IsTally c (track_rdi_loss c s y).0 first (n + 1) y ys
        (track-IsTally c s first n x y t a.0 a.1 (ascending_fits y ys a.2)) a.2)

-- From a state that has seen no counter, over counters that each run ahead of the last by less than
-- half the range: the frames are counted, and the frames lost and received together are the slots
-- from the first counter to the last.
pub track_all_span :
    (c : Settings) (s : StreamState) (x : ℕ) (ys : List ℕ)
    → s.first_rdi ≡ true
    → s.total_packets ≡ 0
    → s.lost_packets ≡ 0
    → IsAscending x ys
    → ((track_all c s (x ∷ ys)).total_packets ≡ length (x ∷ ys) % 2 ^ 32)
      × ((track_all c s (x ∷ ys)).lost_packets + length (x ∷ ys) + x ≡ last_counter x ys + 1)
unfolding track_all
track_all_span c s x ys e none_seen none_lost a =
    let first : IsTally x 1 x (track_rdi_loss c s x).0 = rw (track_first c s x e) (record {
      started = refl;
      last = refl;
      total = omega (arith, none_seen);
      span = omega (arith, none_lost);
    }) in
    let t = track_all-IsTally c (track_rdi_loss c s x).0 x 1 x ys first a in
    (omega (arith, t.total), omega (arith, t.span))
