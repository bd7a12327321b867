-- ===== src/Transport/StreamClient/Frames.antt =====
-- The framing of a SOME/IP byte stream, as src/transport/tcp_stream_client.h describes it: 8 bytes
-- with a length in the last 4, then that many bytes. It knows nothing of sockets.
use afi920_sdk.Prelude.{
  append_assoc, sym, ℕ, zero, suc, ◌+◌, ◌≤◌, ◌<◌, ◌≡◌, refl, ap, ◌∙◌, List, [], ◌∷◌, ◌++◌, Option,
  none, some, ◌||◌, arith, length, take, drop, ltb, if◌then◌else◌, All, take-append, drop-append,
  length-append, get_or-append_left,
}
use afi920_sdk.Endian.Laws.{be32_at}

abbrev pub size_of : List ℕ → ℕ
size_of bytes = 8 + be32_at bytes 4

-- The first frame and what follows it; none where the stream ends within it or it is too large.
unfoldable pub split_frame : ℕ → List ℕ → Option (List ℕ × List ℕ)
split_frame max_size bytes =
    if ltb (length bytes) 8 || ltb max_size (size_of bytes) || ltb (length bytes) (size_of bytes)
    then none
    else some (take (size_of bytes) bytes, drop (size_of bytes) bytes)

-- The frames of a stream, `n` at most, up to its end or to a frame that is too large.
unfoldable pub frames : ℕ → ℕ → List ℕ → List (List ℕ)
frames zero max_size bytes = []
frames (suc n) max_size bytes = elim (split_frame max_size bytes) [
  | none ↦ []
  | some (first, rest) ↦ first ∷ frames n max_size rest
]

-- A frame whose length field counts the bytes behind its prefix.
pub record IsFrame (max_size : ℕ) (f : List ℕ) : Type 0 where
  pub has_prefix : 8 ≤ length f
  pub is_counted : length f ≡ size_of f
  pub fits : length f ≤ max_size

abbrev pub concat : List (List ℕ) → List ℕ
concat [] = []
concat (f ∷ fs) = f ++ concat fs

pub size_of-append : (f rest : List ℕ) → 8 ≤ length f → size_of (f ++ rest) ≡ size_of f
size_of-append f rest h = omega (
  arith,
  get_or-append_left f rest 4 0,
  get_or-append_left f rest 5 0,
  get_or-append_left f rest 6 0,
  get_or-append_left f rest 7 0,
)

-- Where a stream gives no frame.
pub split_frame-short :
    (max_size : ℕ) (bytes : List ℕ) → length bytes < 8 → split_frame max_size bytes ≡ none
unfolding split_frame
split_frame-short max_size bytes h = ground arith

pub split_frame-large :
    (max_size : ℕ) (bytes : List ℕ) → max_size < size_of bytes → split_frame max_size bytes ≡ none
unfolding split_frame
split_frame-large max_size bytes h = ground arith

pub split_frame-cut :
    (max_size : ℕ) (bytes : List ℕ)
    → length bytes < size_of bytes
    → split_frame max_size bytes ≡ none
unfolding split_frame
split_frame-cut max_size bytes h = ground arith

pub split_frame-append :
    (max_size : ℕ) (f rest : List ℕ)
    → IsFrame max_size f
    → split_frame max_size (f ++ rest) ≡ some (f, rest)
unfolding split_frame
split_frame-append max_size f rest v =
    let s = size_of-append f rest v.has_prefix ∙ sym v.is_counted in
    rw s (
      ground
        (arith, v.has_prefix, v.fits, length-append f rest, take-append f rest, drop-append f rest))

-- The frames of a list of frames sent back to back are that list, then those of what follows.
pub frames-concat :
    (n max_size : ℕ) (fs : List (List ℕ)) (rest : List ℕ)
    → n ≡ length fs
    → All (IsFrame max_size) fs
    → frames n max_size (concat fs ++ rest) ≡ fs
unfolding frames
frames-concat zero max_size [] rest l v = refl
frames-concat zero max_size (f ∷ fs) rest l v = absurd (omega (arith, l))
frames-concat (suc n) max_size [] rest l v = absurd (omega (arith, l))
frames-concat (suc n) max_size (f ∷ fs) rest l v =
    rw
      (
        append_assoc f (concat fs) rest,
        frames,
        split_frame-append max_size f (concat fs ++ rest) v.0,
      )
      (ap (◌∷◌ f) (frames-concat n max_size fs rest (omega (arith, l)) v.1))
