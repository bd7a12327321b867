-- ===== src/Interface.antt =====
-- What the SDK calls of the AFI920 interface headers in third_party/afi920_interface, a vendored copy
-- of another project: a parameter of the model. `IsDocumented` is what their comments promise.
use afi920_sdk.Prelude.{
  ℕ, ◌+◌, ◌^◌, ◌≤◌, ◌<◌, ◌≡◌, refl, List, ◌++◌, Outcome, ok, length, drop, replicate,
}
use afi920_sdk.Endian.{unpack_be32, pack_be32}
use afi920_sdk.Endian.Laws.{be32_at, unpack_be32_in}

pub record InterfaceHeaders : Type 0 where
  -- `bts_unpack_be32(buf + i)`
  pub bts_unpack_be32 : List ℕ → ℕ → Outcome ℕ
  -- `bts_e2e_crc32(body, body_len)`
  pub bts_e2e_crc32 : List ℕ → ℕ
  -- `bts_e2e_build_header(out, data_id, counter, body_len)`: the 20 bytes written to `out`
  pub bts_e2e_build_header : ℕ → ℕ → ℕ → List ℕ
  -- `bts_e2e_apply_crc(hdr, body, body_len)`: the header afterwards
  pub bts_e2e_apply_crc : List ℕ → List ℕ → List ℕ

pub record IsDocumented (h : InterfaceHeaders) : Type 0 where
  pub unpacks : (p : List ℕ) (i : ℕ) → i + 4 ≤ length p → h.bts_unpack_be32 p i ≡ ok (be32_at p i)
  pub crc_fits : (body : List ℕ) → h.bts_e2e_crc32 body < 2 ^ 32
  pub builds :
      (data_id counter size : ℕ)
      → h.bts_e2e_build_header data_id counter size
        ≡ replicate 8 0 ++ (pack_be32 size ++ (pack_be32 counter ++ pack_be32 data_id))
  pub applies :
      (hdr body : List ℕ)
      → h.bts_e2e_apply_crc hdr body
        ≡ pack_be32 0 ++ (pack_be32 (h.bts_e2e_crc32 body) ++ drop 8 hdr)

-- A value that meets it; the checksum is left to the caller.
abbrev pub plain_headers : (List ℕ → ℕ) → InterfaceHeaders
plain_headers crc = record {
  bts_unpack_be32 = unpack_be32;
  bts_e2e_crc32 = crc;
  bts_e2e_build_header = λ data_id counter size.
      replicate 8 0 ++ (pack_be32 size ++ (pack_be32 counter ++ pack_be32 data_id));
  bts_e2e_apply_crc = λ hdr body. pack_be32 0 ++ (pack_be32 (crc body) ++ drop 8 hdr);
}

pub plain_headers-IsDocumented :
    (crc : List ℕ → ℕ) → ((body : List ℕ) → crc body < 2 ^ 32) → IsDocumented (plain_headers crc)
plain_headers-IsDocumented crc h = record {
  unpacks = unpack_be32_in;
  crc_fits = h;
  builds = λ d c s. refl;
  applies = λ hdr body. refl;
}
