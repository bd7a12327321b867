-- ===== src/Someip/Tests.antt =====
-- Runs of src/protocol/someip.cpp.
use afi920_sdk.Someip.{SomeipHeader, someip_deserialize}
use afi920_sdk.Prelude.{◌≡◌, [], ◌∷◌, ◌++◌, arith, ok}
use afi920_sdk.Someip.Laws.{header_bytes, someip_deserialize-header_bytes}

abbrev sample : SomeipHeader
sample = record {
  service_id = 0x6000;
  method_id = 0x8002;
  length = 28;
  client_id = 0;
  session_id = 1;
  protocol_version = 1;
  interface_version = 1;
  message_type = 2;
  return_code = 0;
}

someip_deserialize-header_bytes_example :
    someip_deserialize (header_bytes sample ++ (9 ∷ [])) ≡ ok sample
someip_deserialize-header_bytes_example = someip_deserialize-header_bytes sample (9 ∷ []) (record {
  service_fits = omega arith;
  method_fits = omega arith;
  length_fits = omega arith;
  client_fits = omega arith;
  session_fits = omega arith;
})
