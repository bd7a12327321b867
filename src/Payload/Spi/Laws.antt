-- ===== src/Payload/Spi/Laws.antt =====
-- Laws of src/protocol/spi_parser.cpp: no read out of range, and what an accepted payload is.
use native.Mathlib.Nat.{le-div_iff_mul-le}
use afi920_sdk.Prelude.{
  ℕ, zero, suc, ◌+◌, ◌-◌, ◌/◌, ◌*◌, ◌≤◌, ◌≡◌, ◌<◌, List, length, leb, ltb, ◌!=◌, arith,
  ltb_false→le, leb_false→lt, !=_false→eq, Outcome, ok, IsSafe, ok_safe, reject_if-IsSafe,
  >>=-IsSafe, >>=-ok, reject_if_ok, ok_subst,
}
use afi920_sdk.Endian.{byte}
use afi920_sdk.Endian.Laws.{byte-IsSafe, unpack_le_f32-IsSafe}
use afi920_sdk.Payload.Header.{parse_common_header, parse_common_header-IsSafe}
use afi920_sdk.Payload.Spi.{
  SpiMessage, parse_pose, parse_fov_segment, parse_object_type, parse_ref_target, parse_entries,
  parse_counted, spi_parse, spi_min_size, spi_max_fov_segments, spi_max_object_types,
  spi_max_ref_targets, spi_fov_segment_size, spi_object_type_size, spi_ref_target_size,
}

parse_pose-IsSafe : (p : List ℕ) (off : ℕ) → off + 32 ≤ length p → IsSafe (parse_pose p off)
unfolding parse_pose
parse_pose-IsSafe p off h = >>=-IsSafe _ (unpack_le_f32-IsSafe p off (omega arith)) λ _ _.
    >>=-IsSafe _ (unpack_le_f32-IsSafe p (off + 4) (omega arith)) λ _ _.
      >>=-IsSafe _ (unpack_le_f32-IsSafe p (off + 8) (omega arith)) λ _ _.
        >>=-IsSafe _ (unpack_le_f32-IsSafe p (off + 12) (omega arith)) λ _ _.
          >>=-IsSafe _ (unpack_le_f32-IsSafe p (off + 16) (omega arith)) λ _ _.
            >>=-IsSafe _ (unpack_le_f32-IsSafe p (off + 20) (omega arith)) λ _ _.
              >>=-IsSafe _ (unpack_le_f32-IsSafe p (off + 24) (omega arith)) λ _ _.
                >>=-IsSafe _ (unpack_le_f32-IsSafe p (off + 28) (omega arith)) λ _ _. ok_safe _

parse_fov_segment-IsSafe :
    (p : List ℕ) (off : ℕ)
    → off + spi_fov_segment_size ≤ length p
    → IsSafe (parse_fov_segment p off)
unfolding parse_fov_segment
parse_fov_segment-IsSafe p off h = >>=-IsSafe _ (unpack_le_f32-IsSafe p off (omega arith)) λ _ _.
    >>=-IsSafe _ (unpack_le_f32-IsSafe p (off + 4) (omega arith)) λ _ _.
      >>=-IsSafe _ (unpack_le_f32-IsSafe p (off + 8) (omega arith)) λ _ _.
        >>=-IsSafe _ (unpack_le_f32-IsSafe p (off + 12) (omega arith))
          λ _ _. >>=-IsSafe _ (byte-IsSafe p (off + 16) (omega arith)) λ _ _. ok_safe _

parse_object_type-IsSafe :
    (p : List ℕ) (off : ℕ)
    → off + spi_object_type_size ≤ length p
    → IsSafe (parse_object_type p off)
unfolding parse_object_type
parse_object_type-IsSafe p off h = >>=-IsSafe _ (byte-IsSafe p off (omega arith)) λ _ _.
    >>=-IsSafe _ (unpack_le_f32-IsSafe p (off + 1) (omega arith))
      λ _ _. >>=-IsSafe _ (unpack_le_f32-IsSafe p (off + 5) (omega arith)) λ _ _. ok_safe _

parse_ref_target-IsSafe :
    (p : List ℕ) (off : ℕ) → off + spi_ref_target_size ≤ length p → IsSafe (parse_ref_target p off)
unfolding parse_ref_target
parse_ref_target-IsSafe p off h = >>=-IsSafe _ (unpack_le_f32-IsSafe p off (omega arith)) λ _ _.
    >>=-IsSafe _ (unpack_le_f32-IsSafe p (off + 4) (omega arith)) λ _ _.
      >>=-IsSafe _ (unpack_le_f32-IsSafe p (off + 8) (omega arith))
        λ _ _. >>=-IsSafe _ (unpack_le_f32-IsSafe p (off + 12) (omega arith)) λ _ _. ok_safe _

-- The three loops share what is proved of a loop over entries of a fixed size.
module _ {ℓ} {A : Type ℓ} (entry : List ℕ → ℕ → Outcome A) (size : ℕ)
    (entry_safe : (p : List ℕ) (off : ℕ) → off + size ≤ length p → IsSafe (entry p off)) where
  parse_entries-IsSafe :
      (p : List ℕ) (off n : ℕ)
      → off + n * size ≤ length p
      → IsSafe (parse_entries entry size p off n)
  unfolding parse_entries
  parse_entries-IsSafe p off zero h = ok_safe _
  parse_entries-IsSafe p off (suc n) h =
      >>=-IsSafe _ (entry_safe p off (ground arith))
        λ _ _. >>=-IsSafe _ (parse_entries-IsSafe p (off + size) n (ground arith)) λ _ _. ok_safe _

  parse_counted-IsSafe :
      (most : ℕ) (p : List ℕ) (off : ℕ)
      → 0 < size
      → off < length p
      → IsSafe (parse_counted entry size most p off)
  unfolding parse_counted
  parse_counted-IsSafe most p off pos h = >>=-IsSafe _ (byte-IsSafe p off (omega arith)) λ n _.
      reject_if-IsSafe (ltb most n) λ _.
        reject_if-IsSafe (ltb ((length p - (off + 1)) / size) n) λ r.
          let room : n ≤ (length p - (off + 1)) / size = ltb_false→le r in
          parse_entries-IsSafe p (off + 1) n (omega (arith, (le-div_iff_mul-le pos).0 room))

module _ {ℓ} {A : Type ℓ} (entry : List ℕ → ℕ → Outcome A) (size : ℕ) where
  -- The entries are as many as were asked for, and stand side by side.
  record EntriesRead (off n : ℕ) (out : List A × ℕ) : Type ℓ where
    count : length out.0 ≡ n
    next : out.1 ≡ off + n * size

  parse_entries_read :
      (p : List ℕ) (off n : ℕ) {out : List A × ℕ}
      → parse_entries entry size p off n ≡ ok out
      → EntriesRead off n out
  unfolding parse_entries
  parse_entries_read p off zero e =
      ok_subst (EntriesRead off zero) e (record { count = omega arith; next = omega arith })
  parse_entries_read p off (suc n) e =
      let (first, _, e) = >>=-ok (entry p off) e in
      let (rest, er, e) = >>=-ok (parse_entries entry size p (off + size) n) e in
      let r = parse_entries_read p (off + size) n er in
      ok_subst (EntriesRead off (suc n)) e
        (record { count = omega (arith, r.count); next = ground (arith, r.next) })

  record CountedRead (most off : ℕ) (out : List A × ℕ) : Type ℓ where
    next : out.1 ≡ off + 1 + length out.0 * size
    few : length out.0 ≤ most

  parse_counted_read :
      (most : ℕ) (p : List ℕ) (off : ℕ) {out : List A × ℕ}
      → parse_counted entry size most p off ≡ ok out
      → CountedRead most off out
  unfolding parse_counted
  parse_counted_read most p off e =
      let (n, _, e) = >>=-ok (byte p off) e in
      let (few, e) = reject_if_ok (ltb most n) e in
      let (_, e) = reject_if_ok (ltb ((length p - (off + 1)) / size) n) e in
      let r = parse_entries_read p (off + 1) n e in
      record { next = rw r.count (r.next); few = omega (arith, r.count, ltb_false→le few) }

-- `Parse` reads nothing outside the payload, whatever its bytes.
pub spi_parse-IsSafe : (p : List ℕ) → IsSafe (spi_parse p)
unfolding spi_parse
spi_parse-IsSafe p = reject_if-IsSafe (ltb (length p) spi_min_size) λ r.
    let long : spi_min_size ≤ length p = ltb_false→le r in
    >>=-IsSafe _ (parse_common_header-IsSafe p (omega arith)) λ _ _.
      >>=-IsSafe _ (byte-IsSafe p 24 (omega arith)) λ _ _.
        >>=-IsSafe _ (parse_pose-IsSafe p 25 (omega arith)) λ _ _.
          >>=-IsSafe _
            (parse_counted-IsSafe parse_fov_segment _ parse_fov_segment-IsSafe spi_max_fov_segments
              p 57 (omega arith) (omega arith))
            λ fov _. reject_if-IsSafe (leb (length p) fov.1) λ more.
              >>=-IsSafe _
                (parse_counted-IsSafe parse_object_type _ parse_object_type-IsSafe
                  spi_max_object_types p fov.1 (omega arith) (leb_false→lt more))
                λ objects _. reject_if-IsSafe (leb (length p) objects.1) λ last.
                  >>=-IsSafe _
                    (parse_counted-IsSafe parse_ref_target _ parse_ref_target-IsSafe
                      spi_max_ref_targets p objects.1 (omega arith) (leb_false→lt last))
                    λ targets _. reject_if-IsSafe (targets.1 != length p) λ _. ok_safe _

-- An accepted message against its payload.
pub record IsExact (p : List ℕ) (m : SpiMessage) : Type 0 where
  pub size :
      length p
      ≡ spi_min_size
        + spi_fov_segment_size * length m.fov_segments
        + spi_object_type_size * length m.recognisable_object_types
        + spi_ref_target_size * length m.reference_target_types
  pub few_segments : length m.fov_segments ≤ spi_max_fov_segments
  pub few_objects : length m.recognisable_object_types ≤ spi_max_object_types
  pub few_targets : length m.reference_target_types ≤ spi_max_ref_targets

-- An accepted payload is exactly as long as its three counted sections make it, and no section has
-- more than 16 entries.
pub spi_parse-IsExact : (p : List ℕ) {m : SpiMessage} → spi_parse p ≡ ok m → IsExact p m
unfolding spi_parse
spi_parse-IsExact p e =
    let (_, e) = reject_if_ok (ltb (length p) spi_min_size) e in
    let (_, _, e) = >>=-ok (parse_common_header p) e in
    let (_, _, e) = >>=-ok (byte p 24) e in
    let (_, _, e) = >>=-ok (parse_pose p 25) e in
    let (fov, ef, e) =
      >>=-ok (parse_counted parse_fov_segment spi_fov_segment_size spi_max_fov_segments p 57) e in
    let (_, e) = reject_if_ok (leb (length p) fov.1) e in
    let (objects, eo, e) =
      >>=-ok (parse_counted parse_object_type spi_object_type_size spi_max_object_types p fov.1)
        e in
    let (_, e) = reject_if_ok (leb (length p) objects.1) e in
    let (targets, et, e) =
      >>=-ok (parse_counted parse_ref_target spi_ref_target_size spi_max_ref_targets p objects.1)
        e in
    let (all, e) = reject_if_ok (targets.1 != length p) e in
    let f = parse_counted_read parse_fov_segment _ spi_max_fov_segments p 57 ef in
    let o = parse_counted_read parse_object_type _ spi_max_object_types p fov.1 eo in
    let t = parse_counted_read parse_ref_target _ spi_max_ref_targets p objects.1 et in
    ok_subst (IsExact p) e (record {
      size = omega (arith, f.next, o.next, t.next, !=_false→eq all);
      few_segments = f.few;
      few_objects = o.few;
      few_targets = t.few;
    })
