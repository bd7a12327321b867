-- ===== src/Discovery/Tests.antt =====
-- Runs of src/discovery/discovery.cpp: a sensor that answers twice, an error between, then a timeout.
use Prim.Native.String.{String}
use afi920_sdk.Prelude.{◌≡◌, refl, List, [], ◌∷◌, ◌++◌, true, length, ℕ}
use afi920_sdk.Endian.{pack_be32, unpack_be32, byte}
use afi920_sdk.Config.Tests.Memory.{memory_json}
use afi920_sdk.Someip.{someip_deserialize}
use afi920_sdk.Someip.Methods.{method_code}
use afi920_sdk.Discovery.Info.{initial_info}
use afi920_sdk.Discovery.Response.{
  parse_response, field_if, value_if, checked, read_info, read_identity, data_or, read_network,
  generation_of, has_m72, read_counts, read_destinations, read_mounting, read_scan, read_status,
}
use afi920_sdk.Discovery.{
  scan, scan_answers, add_found, read_datagram, read_body, sourced, key_of, with_source, ScanAnswer,
  datagram, failed, timed_out, contains,
}
use afi920_sdk.Discovery.Distinct.{distinct, keys_of, heard, scan-distinct}

abbrev response : List ℕ
response =
    pack_be32 0x600000C1
    ++ (pack_be32 9 ++ (pack_be32 0x00010001 ++ (0x01 ∷ 0x01 ∷ 0x80 ∷ 0x00 ∷ b'0' ∷ [])))

abbrev answers : List (ScanAnswer memory_json)
answers = datagram "10.0.0.2" response ∷ failed ∷ datagram "10.0.0.2" response ∷ timed_out ∷ []

found_once : length (scan memory_json true true answers) ≡ 1
unfolding scan scan_answers add_found read_datagram pack_be32 read_body someip_deserialize
    unpack_be32 method_code sourced parse_response field_if value_if checked read_info read_identity
    data_or read_network initial_info generation_of has_m72 read_counts read_destinations
    read_mounting read_scan read_status contains key_of with_source byte
found_once = refl

scan-distinct_example :
    (distinct (keys_of memory_json (scan memory_json true true answers)) ≡ true)
    × ((k : String)
        → contains (keys_of memory_json (scan memory_json true true answers)) k
          ≡ contains (keys_of memory_json (heard memory_json answers)) k)
scan-distinct_example = scan-distinct memory_json answers
