-- ===== src/Csii/Laws.antt =====
-- Laws of src/protocol/csii_builder.cpp: the SDK's own receive side accepts what it builds.
use afi920_sdk.Prelude.{
  ℕ, ◌+◌, ◌*◌, ◌^◌, ◌≡◌, ◌<◌, refl, ap, subst, ◌∙◌, inr, List, ◌++◌, Bool, ◌&&◌, ◌==◌,
  if◌then◌else◌, length, drop, length-append, arith, ok,
}
use afi920_sdk.Endian.{pack_be16, pack_be32}
use afi920_sdk.Interface.{InterfaceHeaders, IsDocumented}
use afi920_sdk.Someip.{SomeipHeader, someip_deserialize, event_csii, service_id}
use afi920_sdk.Someip.Laws.{header_bytes, someip_deserialize-header_bytes}
use afi920_sdk.E2e.{crc_zero, passed, v1_1, e2e_validate, e2e_write_header}
use afi920_sdk.E2e.RoundTrip.{frame_bytes, write_header_bytes, e2e_validate-e2e_write_header}
use afi920_sdk.Csii.{
  Packers, AreDocumented, VehicleInput, csii_body, csii_someip, csii_build_frame, csii_size,
  data_id_csii, someip_client_id,
}

-- The header that the frame starts with.
abbrev pub csii_header : ℕ → SomeipHeader
csii_header session_id = record {
  service_id = service_id;
  method_id = event_csii;
  length = 8 + 20 + csii_size;
  client_id = someip_client_id;
  session_id = session_id;
  protocol_version = 1;
  interface_version = 1;
  message_type = 2;
  return_code = 0;
}

-- What the receive side makes of a frame with the body `body`.
pub record IsAccepted (h : InterfaceHeaders) (body frame : List ℕ) (counter session_id : ℕ)
    (check_crc : Bool) : Type 0 where
  pub size : length frame ≡ 115
  pub envelope : someip_deserialize frame ≡ ok (csii_header session_id)
  pub checks :
      e2e_validate h (drop 16 frame) data_id_csii check_crc
      ≡ ok (
        (if check_crc && h.bts_e2e_crc32 body == 0 then crc_zero else passed),
        record {
          crc_high = 0;
          crc = h.bts_e2e_crc32 body;
          length = csii_size;
          counter = counter;
          data_id = data_id_csii;
          generation = v1_1;
        },
      )

module _ (k : Packers) (known : AreDocumented k) where
  length-csii_body :
      (input : VehicleInput) (counter timestamp_ns : ℕ)
      → length (csii_body k input counter timestamp_ns) ≡ csii_size
  unfolding csii_body
  length-csii_body input counter timestamp_ns =
      simp (length-append, known.length_le32, known.length_le64)

  csii_someip_bytes :
      (session_id : ℕ) → csii_someip k session_id ≡ header_bytes (csii_header session_id)
  unfolding csii_someip pack_be16 pack_be32
  csii_someip_bytes session_id =
      rw
        (
          csii_someip,
          known.packs_be32 (service_id * 2 ^ 16 + event_csii),
          known.packs_be32 (8 + 20 + csii_size),
          known.packs_be16 someip_client_id,
          known.packs_be16 session_id,
        )
        refl

  length-header_bytes :
      (hdr : SomeipHeader) (rest : List ℕ) → length (header_bytes hdr ++ rest) ≡ 16 + length rest
  unfolding pack_be16 pack_be32
  length-header_bytes hdr rest = omega arith

  drop-header_bytes :
      (hdr : SomeipHeader) (rest : List ℕ) → drop 16 (header_bytes hdr ++ rest) ≡ rest
  unfolding pack_be16 pack_be32
  drop-header_bytes hdr rest = refl

  length-frame_bytes :
      (a b c d e : ℕ) (body : List ℕ) → length (frame_bytes a b c d e body) ≡ 20 + length body
  unfolding pack_be32
  length-frame_bytes a b c d e body = omega arith

  module _ (h : InterfaceHeaders) (doc : IsDocumented h) (input : VehicleInput)
      (counter session_id timestamp_ns : ℕ) (fits : counter < 2 ^ 32)
      (session_fits : session_id < 2 ^ 16) where
    abbrev body : List ℕ
    body = csii_body k input counter timestamp_ns

    abbrev rest : List ℕ
    rest = e2e_write_header h data_id_csii counter body ++ body

    -- A built frame is 115 bytes long, its SOME/IP header reads back with the CSII event and the given
    -- session, and the rest passes the E2E checks with the given counter, unless the checked CRC-32
    -- of the body is zero.
    pub csii_build_frame-IsAccepted :
        (check_crc : Bool)
        → IsAccepted h
            (csii_body k input counter timestamp_ns)
            (csii_build_frame k h input counter session_id timestamp_ns)
            counter
            session_id
            check_crc
    csii_build_frame-IsAccepted check = record {
      size = length_frame;
      envelope = deserialized;
      checks = validated;
    }
      where
        parts :
            csii_build_frame k h input counter session_id timestamp_ns
            ≡ header_bytes (csii_header session_id) ++ rest
        parts =
            unfold csii_build_frame in
            ap
              (λ b.
                b
                ++ (e2e_write_header h data_id_csii counter (csii_body k input counter timestamp_ns)
                    ++ csii_body k input counter timestamp_ns))
              (csii_someip_bytes session_id)

        length_body : length body ≡ csii_size
        length_body = length-csii_body input counter timestamp_ns

        length_rest : length rest ≡ 20 + length body
        length_rest =
            ap length (write_header_bytes h doc data_id_csii counter body)
            ∙ length-frame_bytes _ _ _ _ _ body

        length_frame : length (csii_build_frame k h input counter session_id timestamp_ns) ≡ 115
        length_frame =
            ap length parts
            ∙ length-header_bytes (csii_header session_id) rest
            ∙ omega (arith, length_rest, length_body)

        deserialized :
            someip_deserialize (csii_build_frame k h input counter session_id timestamp_ns)
            ≡ ok (csii_header session_id)
        deserialized =
            ap someip_deserialize parts
            ∙ someip_deserialize-header_bytes (csii_header session_id) rest (record {
              service_fits = omega arith;
              method_fits = omega arith;
              length_fits = omega arith;
              client_fits = omega arith;
              session_fits = session_fits;
            })

        validated :
            e2e_validate h
              (drop 16 (csii_build_frame k h input counter session_id timestamp_ns))
              data_id_csii
              check
            ≡ ok (
              (if check && h.bts_e2e_crc32 (csii_body k input counter timestamp_ns) == 0
                  then crc_zero
                  else passed),
              record {
                crc_high = 0;
                crc = h.bts_e2e_crc32 (csii_body k input counter timestamp_ns);
                length = csii_size;
                counter = counter;
                data_id = data_id_csii;
                generation = v1_1;
              },
            )
        validated =
            ap (λ b. e2e_validate h (drop 16 b) data_id_csii check) parts
            ∙ ap (λ b. e2e_validate h b data_id_csii check)
                (drop-header_bytes (csii_header session_id) rest)
            ∙ subst
                (λ n.
                  e2e_validate h rest data_id_csii check
                  ≡ ok (
                    (if check && h.bts_e2e_crc32 body == 0 then crc_zero else passed),
                    record {
                      crc_high = 0;
                      crc = h.bts_e2e_crc32 body;
                      length = n;
                      counter = counter;
                      data_id = data_id_csii;
                      generation = v1_1;
                    },
                  ))
                length_body
                (e2e_validate-e2e_write_header h doc data_id_csii counter body data_id_csii check
                  (omega arith) fits (omega (arith, length_body)) (inr refl))
