-- ===== src/Payload/Rdi/Laws.antt =====
-- Laws of src/protocol/rdi_parser.cpp: no read out of range, and what an accepted payload is.
use afi920_sdk.Prelude.{
  ltb_false→le, !=_false→eq, ok_subst, >>=-ok, reject_if_ok, ℕ, zero, suc, ◌+◌, ◌*◌, ◌≤◌, ◌≡◌, List,
  length, length-drop, drop, ltb, ◌!=◌, arith, ok, IsSafe, ok_safe, reject_if-IsSafe, >>=-IsSafe,
}
use afi920_sdk.Payload.Rdi.{
  unpack_le16, unpack_le_f32, RdiDetection, RdiMessage, parse_detection, parse_detections,
  rdi_parse, rdi_header_size, rdi_detection_size, rdi_max_detections,
}
use afi920_sdk.Payload.Header.{parse_common_header, parse_common_header-IsSafe}
use afi920_sdk.Endian.Laws.{byte-IsSafe, unpack_le16-IsSafe, unpack_le_f32-IsSafe}

parse_detection-IsSafe : (d : List ℕ) → rdi_detection_size ≤ length d → IsSafe (parse_detection d)
unfolding parse_detection
parse_detection-IsSafe d h = >>=-IsSafe _ (byte-IsSafe d 0 (omega arith)) λ _ _.
    >>=-IsSafe _ (unpack_le16-IsSafe d 1 (omega arith)) λ _ _.
      >>=-IsSafe _ (unpack_le16-IsSafe d 3 (omega arith)) λ _ _.
        >>=-IsSafe _ (unpack_le_f32-IsSafe d 5 (omega arith)) λ _ _.
          >>=-IsSafe _ (unpack_le_f32-IsSafe d 9 (omega arith)) λ _ _.
            >>=-IsSafe _ (unpack_le_f32-IsSafe d 13 (omega arith)) λ _ _.
              >>=-IsSafe _ (unpack_le16-IsSafe d 17 (omega arith)) λ _ _.
                >>=-IsSafe _ (unpack_le_f32-IsSafe d 19 (omega arith)) λ _ _.
                  >>=-IsSafe _ (unpack_le_f32-IsSafe d 23 (omega arith)) λ _ _.
                    >>=-IsSafe _ (unpack_le_f32-IsSafe d 27 (omega arith)) λ _ _.
                      >>=-IsSafe _ (unpack_le_f32-IsSafe d 31 (omega arith)) λ _ _.
                        >>=-IsSafe _ (unpack_le_f32-IsSafe d 35 (omega arith)) λ _ _.
                          >>=-IsSafe _ (unpack_le_f32-IsSafe d 39 (omega arith)) λ _ _.
                            >>=-IsSafe _ (unpack_le_f32-IsSafe d 43 (omega arith)) λ _ _.
                              >>=-IsSafe _ (unpack_le_f32-IsSafe d 47 (omega arith))
                                λ _ _. ok_safe _

parse_detections-IsSafe :
    (payload : List ℕ) (i left : ℕ)
    → rdi_header_size + (i + left) * rdi_detection_size ≤ length payload
    → IsSafe (parse_detections payload i left)
unfolding parse_detections
parse_detections-IsSafe payload i zero h = ok_safe _
parse_detections-IsSafe payload i (suc left) h =
    >>=-IsSafe _
      (parse_detection-IsSafe (drop (rdi_header_size + i * rdi_detection_size) payload)
        (omega (arith, length-drop (rdi_header_size + i * rdi_detection_size) payload)))
      λ _ _.
        >>=-IsSafe _ (parse_detections-IsSafe payload (i + 1) left (omega arith)) λ _ _. ok_safe _

-- `Parse` reads nothing outside the payload, whatever its bytes.
pub rdi_parse-IsSafe : (payload : List ℕ) → IsSafe (rdi_parse payload)
unfolding rdi_parse
rdi_parse-IsSafe payload = reject_if-IsSafe (ltb (length payload) rdi_header_size) λ long.
    >>=-IsSafe _ (parse_common_header-IsSafe payload (ground arith)) λ _ _.
      >>=-IsSafe _ (unpack_le_f32-IsSafe payload 24 (ground arith)) λ _ _.
        >>=-IsSafe _ (unpack_le_f32-IsSafe payload 28 (ground arith)) λ _ _.
          >>=-IsSafe _ (unpack_le16-IsSafe payload 32 (ground arith)) λ _ _.
            >>=-IsSafe _ (unpack_le16-IsSafe payload 34 (ground arith)) λ n _.
              reject_if-IsSafe (ltb rdi_max_detections n) λ few.
                reject_if-IsSafe (length payload != rdi_header_size + n * rdi_detection_size)
                  λ exact.
                    >>=-IsSafe _ (parse_detections-IsSafe payload 0 n (ground arith))
                      λ _ _. ok_safe _

length-parse_detections :
    (payload : List ℕ) (i left : ℕ) {ds : List RdiDetection}
    → parse_detections payload i left ≡ ok ds
    → length ds ≡ left
unfolding parse_detections
length-parse_detections payload i zero e = ground arith
length-parse_detections payload i (suc left) e =
    let (det, _, e1) =
      >>=-ok (parse_detection (drop (rdi_header_size + i * rdi_detection_size) payload)) e in
    let (rest, er, e2) = >>=-ok (parse_detections payload (i + 1) left) e1 in
    ground (arith, length-parse_detections payload (i + 1) left er)

-- An accepted frame against its payload.
pub record IsExact (payload : List ℕ) (m : RdiMessage) : Type 0 where
  pub size : length payload ≡ rdi_header_size + m.num_detections * rdi_detection_size
  pub few : m.num_detections ≤ rdi_max_detections
  pub count : length m.detections ≡ m.num_detections

-- An accepted payload has exactly the bytes of its header and of its detections, at most 8192 of
-- them, and the frame lists as many as the count field says.
pub rdi_parse-IsExact :
    (payload : List ℕ) {m : RdiMessage} → rdi_parse payload ≡ ok m → IsExact payload m
unfolding rdi_parse
rdi_parse-IsExact payload e =
    let (_, e1) = reject_if_ok (ltb (length payload) rdi_header_size) e in
    let (_, _, e2) = >>=-ok (parse_common_header payload) e1 in
    let (_, _, e3) = >>=-ok (unpack_le_f32 payload 24) e2 in
    let (_, _, e4) = >>=-ok (unpack_le_f32 payload 28) e3 in
    let (_, _, e5) = >>=-ok (unpack_le16 payload 32) e4 in
    let (n, _, e6) = >>=-ok (unpack_le16 payload 34) e5 in
    let (few, e7) = reject_if_ok (ltb rdi_max_detections n) e6 in
    let (exact, e8) =
      reject_if_ok (length payload != rdi_header_size + n * rdi_detection_size) e7 in
    let (ds, ed, e9) = >>=-ok (parse_detections payload 0 n) e8 in
    ok_subst (IsExact payload) e9 (record {
      size = !=_false→eq exact;
      few = ltb_false→le few;
      count = length-parse_detections payload 0 n ed;
    })
