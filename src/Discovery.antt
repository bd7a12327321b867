-- ===== src/Discovery.antt =====
-- src/discovery/discovery.h and discovery.cpp: the broadcast for sensors, the answers it accepts, and
-- what it reads of each. The socket calls and the clock are left out: a scan is given what its calls of
-- `recvfrom` answer until its time is up.
pub mod Distinct
pub mod Info
pub mod Response
mod Tests
use Prim.Native.String.{String, ◌++◌ as text_append}
use text.Mathlib.Text.{◌==◌ as str_eq, starts_with}
use afi920_sdk.Prelude.{
  ℕ, ◌+◌, ◌*◌, ◌^◌, List, [], ◌∷◌, ◌++◌, Bool, true, false, not, ◌||◌, ◌&&◌, Option, none, some,
  map, length, drop, ltb, ◌==◌, ◌!=◌, if◌then◌else◌, Outcome, ok, reject, fault,
}
use afi920_sdk.Endian.{pack_be32}
use afi920_sdk.Someip.{
  SomeipHeader, someip_deserialize, header_size, service_id, msg_type_request, return_ok,
}
use afi920_sdk.Someip.Methods.{method_code, discover_request, discover_response}
use afi920_sdk.E2e.{Generation, unknown, v1_0, v1_1}
use afi920_sdk.Config.Json.{Json, ℤ, pos, negsuc}
use afi920_sdk.Discovery.Info.{SensorInfo, initial_info}
use afi920_sdk.Discovery.Response.{parse_response}

-- The request: a SOME/IP header with client 1 and session 1, and the body "{}".
unfoldable pub discover_message : List ℕ
discover_message =
    pack_be32 (service_id * 2 ^ 16 + method_code discover_request)
    ++ (pack_be32 10
        ++ (pack_be32 0x00010001
            ++ (0x01 ∷ 0x01 ∷ msg_type_request ∷ return_ok ∷ b'{' ∷ b'}' ∷ [])))

-- Whether a text is among others
unfoldable pub contains : List String → String → Bool
contains [] key = false
contains (k ∷ ks) key = str_eq k key || contains ks key

module _ (json : Json) where
  open json use {
    Value, Real, find, keys, is_object, get_string, get_bool, get_uint, get_int, get_real,
    real_zero, parse,
  }

  -- What a call of `recvfrom` answers during a scan: a datagram with the text of its sender's address,
  -- an error that is no timeout, or a timeout. The answers end with the time.
  pub data ScanAnswer : Type 0 where
    datagram : String → List ℕ → ScanAnswer
    failed : ScanAnswer
    timed_out : ScanAnswer

  -- The sender's address, and the reported one where the radar gives none
  unfoldable pub with_source : String → SensorInfo Real → SensorInfo Real
  with_source src info = record info {
    source_ip = src;
    ip = if str_eq info.ip "" then src else info.ip;
  }

  unfoldable pub sourced : String → Option (SensorInfo Real) → Option (SensorInfo Real)
  sourced src none = none
  sourced src (some info) = some (with_source src info)

  -- The body of a datagram whose header is a Discovery response
  unfoldable pub read_body : String → List ℕ → Outcome SomeipHeader → Option (SensorInfo Real)
  read_body src bytes (ok hdr) =
      if hdr.method_id != method_code discover_response || length bytes == header_size
      then none
      else sourced src (parse_response json (drop header_size bytes) (initial_info json))
  read_body src bytes reject = none
  read_body src bytes fault = none

  -- The sensor that a datagram tells of, if it passes the checks of the loop
  unfoldable pub read_datagram : String → List ℕ → Option (SensorInfo Real)
  read_datagram src bytes =
      if ltb (length bytes) header_size
      then none
      else read_body src bytes (someip_deserialize bytes)

  unfoldable pub key_of : SensorInfo Real → String
  key_of info = text_append info.source_ip (text_append "|" info.serial_number)

  -- `seen` and `results`
  pub record Found : Type 0 where
    pub seen : List String
    pub results : List (SensorInfo Real)

  unfoldable pub add_found : Found → Option (SensorInfo Real) → Found
  add_found s none = s
  add_found s (some info) =
      if contains s.seen (key_of info)
      then s
      else record { seen = key_of info ∷ s.seen; results = s.results ++ (info ∷ []) }

  -- The loop of `Scan`
  unfoldable pub scan_answers : Found → List ScanAnswer → Found
  scan_answers s [] = s
  scan_answers s (timed_out ∷ rest) = s
  scan_answers s (failed ∷ rest) = scan_answers s rest
  scan_answers s (datagram src bytes ∷ rest) =
      scan_answers (add_found s (read_datagram src bytes)) rest

  -- `Scan`: nothing without a socket or where the broadcast is not sent
  unfoldable pub scan : Bool → Bool → List ScanAnswer → List (SensorInfo Real)
  scan has_socket broadcast answers =
      let found = scan_answers (record { seen = []; results = [] }) answers in
      if has_socket && broadcast then found.results else []
