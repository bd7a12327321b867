-- ===== src/Stream/Safe.antt =====
-- The datagram handlers of src/afi_sdk.cpp read nothing outside their datagram.
use afi920_sdk.Someip.{
  return_ok, msg_type_notify, interface_version, protocol_version, service_id, SomeipHeader,
  someip_tp_deserialize, someip_is_tp, tp_header_size,
}
use afi920_sdk.Prelude.{
  ltb→lt, ℕ, ◌+◌, ◌≤◌, ◌≡◌, refl, List, Bool, true, false, length, drop, ltb, leb, arith,
  if◌then◌else◌, ◌||◌, ◌!=◌, Bool-cases, Option, none, some, Outcome, ok, reject, fault, inl, inr,
  IsSafe, ok_safe, >>=-IsSafe, reject_if-IsSafe, ltb_false→le, Returns, returned, >>=-Returns,
  eq-Returns, bit_and,
}
use afi920_sdk.Endian.Laws.{unpack_le32-Returns, unpack_le64-Returns, unpack_be32_in}
use afi920_sdk.Interface.{InterfaceHeaders, IsDocumented}
use afi920_sdk.E2e.{header_size}
use afi920_sdk.Someip.Laws.{someip_deserialize-IsSafe}
use afi920_sdk.Payload.Rdi.Laws.{rdi_parse-IsSafe}
use afi920_sdk.Payload.Shi.Laws.{shi_parse-IsSafe}
use afi920_sdk.Payload.Spi.Laws.{spi_parse-IsSafe}
use afi920_sdk.Payload.Rdi.{rdi_parse}
use afi920_sdk.Stream.{
  Settings, StreamState, StreamKind, Event, Consumed, validate_stream_message, consume_e2e_header,
  iso_fields, deliver_wire_payload,
}
use afi920_sdk.Stream.Consume.{consume_in, consume_short}
use afi920_sdk.Stream.Process.{
  parsed, assemble_tp, rdi_consumed, rdi_payload, rdi_message, if_valid, process_rdi, process_shi,
  process_spi, shi_events, spi_events, small_message,
}

if-Returns {ℓ} :
    {A : Type ℓ} (b : Bool) {x y : Outcome A}
    → (b ≡ true → Returns x)
    → (b ≡ false → Returns y)
    → Returns (if b then x else y)
if-Returns true f g = f refl
if-Returns false f g = g refl

option-Returns {ℓ κ} :
    {A : Type ℓ} {B : Type κ} (o : Option A) {x : Outcome B} {f : A → Outcome B}
    → Returns x
    → ((a : A) → Returns (f a))
    → Returns (elim o [ none ↦ x | some a ↦ f a ])
option-Returns none r f = r
option-Returns (some a) r f = f a

parsed-Returns {ℓ} :
    {A : Type ℓ} (m : Outcome A) (call : A → Event) → IsSafe m → Returns (parsed m call)
unfolding parsed
parsed-Returns (ok a) call s = returned _
parsed-Returns reject call s = returned _
parsed-Returns fault call s = elim s [ ]

if_valid-Returns :
    (s : StreamState) (m : Outcome SomeipHeader)
    (f : SomeipHeader → Outcome (StreamState × List Event))
    → IsSafe m
    → ((hdr : SomeipHeader) → Returns (f hdr))
    → Returns (if_valid s m f)
unfolding if_valid
if_valid-Returns s (ok hdr) f m g = g hdr
if_valid-Returns s reject f m g = returned _
if_valid-Returns s fault f m g = elim m [ ]

validate_stream_message-IsSafe :
    (datagram : List ℕ) (event : ℕ) → IsSafe (validate_stream_message datagram event)
unfolding validate_stream_message
validate_stream_message-IsSafe datagram event =
    >>=-IsSafe _ (someip_deserialize-IsSafe datagram) λ hdr _.
      reject_if-IsSafe (hdr.service_id != service_id || hdr.method_id != event) λ _.
        reject_if-IsSafe (ltb hdr.length 8 || hdr.length + 8 != length datagram) λ _.
          reject_if-IsSafe
            (hdr.protocol_version != protocol_version
              || (hdr.interface_version != interface_version
                  || (bit_and hdr.message_type 0xDF != msg_type_notify
                      || hdr.return_code != return_ok)))
            λ _. ok_safe _

iso_fields-Returns : (iso : List ℕ) → Returns (iso_fields iso)
unfolding iso_fields
iso_fields-Returns iso =
    if-Returns (leb 18 (length iso))
      (λ e.
        >>=-Returns _ (unpack_le64-Returns iso 6 (ground arith))
          λ _. >>=-Returns _ (unpack_le32-Returns iso 14 (ground arith)) λ _. returned _)
      λ _. returned _

deliver-Returns :
    (c : Settings) (kind : StreamKind) (w : List ℕ) (now : ℕ) (k : Consumed)
    → Returns (deliver_wire_payload c kind w now k)
unfolding deliver_wire_payload
deliver-Returns c kind w now k =
    if-Returns c.wire_payload_cb (λ _. >>=-Returns _ (iso_fields-Returns k.payload) λ _. returned _)
      λ _. returned _

tp-Returns :
    (datagram : List ℕ) (i : ℕ)
    → i + 4 ≤ length datagram
    → Returns (someip_tp_deserialize datagram i)
unfolding someip_tp_deserialize
tp-Returns datagram i h = >>=-Returns _ (eq-Returns (unpack_be32_in datagram i h)) λ _. returned _

assemble_tp-Returns :
    (s : StreamState) (hdr : SomeipHeader) (datagram : List ℕ)
    → Returns (assemble_tp s hdr datagram)
unfolding assemble_tp
assemble_tp-Returns s hdr datagram =
    if-Returns (ltb (length datagram) (16 + tp_header_size)) (λ _. returned _)
      λ long. >>=-Returns _ (tp-Returns datagram 16 (ground arith)) λ _. returned _

rdi_consumed-Returns :
    (c : Settings) (is_tp : Bool) (s : StreamState) (w : List ℕ) (now : ℕ) (k : Consumed)
    → Returns (rdi_consumed c is_tp s w now k)
unfolding rdi_consumed
rdi_consumed-Returns c is_tp s w now k = >>=-Returns _ (deliver-Returns c _ w now k) λ _.
    if-Returns c.rdi_cb
      (λ _.
        >>=-Returns _ (parsed-Returns (rdi_parse k.payload) _ (rdi_parse-IsSafe k.payload))
          λ _. returned _)
      λ _. returned _

shi_events-Returns : (c : Settings) (now : ℕ) (k : Consumed) → Returns (shi_events c now k)
unfolding shi_events
shi_events-Returns c now k =
    if-Returns c.shi_meta_cb (λ _. parsed-Returns _ _ (shi_parse-IsSafe k.payload))
      λ _.
        if-Returns c.shi_cb (λ _. parsed-Returns _ _ (shi_parse-IsSafe k.payload)) λ _. returned _

spi_events-Returns : (c : Settings) (now : ℕ) (k : Consumed) → Returns (spi_events c now k)
unfolding spi_events
spi_events-Returns c now k =
    if-Returns c.spi_meta_cb (λ _. parsed-Returns _ _ (spi_parse-IsSafe k.payload))
      λ _.
        if-Returns c.spi_cb (λ _. parsed-Returns _ _ (spi_parse-IsSafe k.payload)) λ _. returned _

module _ (h : InterfaceHeaders) (doc : IsDocumented h) where
  consume-Returns :
      (c : Settings) (s : StreamState) (kind : StreamKind) (p : List ℕ) (id : ℕ)
      → Returns (consume_e2e_header h c s kind p id)
  consume-Returns c s kind p id = elim (Bool-cases (ltb (length p) header_size)) [
    | inl short ↦ eq-Returns (consume_short h doc c s kind p id (ltb→lt _ _ short))
    | inr long ↦ eq-Returns (consume_in h doc c s kind p id (ltb_false→le long))
  ]

  rdi_payload-Returns :
      (c : Settings) (is_tp : Bool) (s : StreamState) (w : List ℕ) (now : ℕ)
      → Returns (rdi_payload h c is_tp s w now)
  unfolding rdi_payload
  rdi_payload-Returns c is_tp s w now =
      >>=-Returns _ (consume-Returns c s _ w _)
        λ r. option-Returns r.1 (returned _) (rdi_consumed-Returns c is_tp r.0 w now)

  -- `ProcessRdiDatagram` runs to its end on every datagram and in every state, and reads nothing
  -- outside the datagram and the reassembled payload.
  pub process_rdi-Returns :
      (c : Settings) (s : StreamState) (datagram : List ℕ) (now : ℕ)
      → Returns (process_rdi h c s datagram now)
  unfolding process_rdi rdi_message
  process_rdi-Returns c s datagram now =
      if_valid-Returns s _ _ (validate_stream_message-IsSafe datagram _) λ hdr.
        >>=-Returns _
          (if-Returns (someip_is_tp hdr.message_type) (λ _. assemble_tp-Returns s hdr datagram)
            λ _. returned _)
          λ r. option-Returns r.1 (returned _) λ w. rdi_payload-Returns c _ r.0 w now

  small_message-Returns :
      (c : Settings) (s : StreamState) (kind : StreamKind) (id : ℕ)
      (events : Consumed → Outcome (List Event)) (datagram : List ℕ) (now : ℕ)
      → ((k : Consumed) → Returns (events k))
      → Returns (small_message h c s kind id events datagram now)
  unfolding small_message
  small_message-Returns c s kind id events datagram now f =
      >>=-Returns _ (consume-Returns c s kind (drop 16 datagram) id) λ r.
        option-Returns r.1 (returned _) λ k.
          >>=-Returns _ (deliver-Returns c kind _ now k) λ _. >>=-Returns _ (f k) λ _. returned _

  -- `ProcessShiDatagram` and `ProcessSpiDatagram` run to their end on every datagram and in every
  -- state, and read nothing outside the datagram.
  pub process_shi_spi_return :
      (c : Settings) (s : StreamState) (datagram : List ℕ) (now : ℕ)
      → Returns (process_shi h c s datagram now) × Returns (process_spi h c s datagram now)
  unfolding process_shi process_spi
  process_shi_spi_return c s datagram now = (
    if_valid-Returns s _ _ (validate_stream_message-IsSafe datagram _) λ hdr.
        if-Returns (someip_is_tp hdr.message_type) (λ _. returned _)
          λ _. small_message-Returns c s _ _ _ datagram now (shi_events-Returns c now),
    if_valid-Returns s _ _ (validate_stream_message-IsSafe datagram _) λ hdr.
        if-Returns (someip_is_tp hdr.message_type) (λ _. returned _)
          λ _. small_message-Returns c s _ _ _ datagram now (spi_events-Returns c now),
  )
