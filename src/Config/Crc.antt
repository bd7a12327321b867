-- ===== src/Config/Crc.antt =====
-- `normalize_crc32` of src/config_api/config_client.cpp.
use Prim.Native.Char.{Char, code}
use Prim.Native.String.{String, [], ◌∷◌, ◌++◌, len}
use afi920_sdk.Prelude.{Bool, true, ◌&&◌, ◌||◌, leb, ◌==◌, if◌then◌else◌}

-- A character of "0123456789abcdefABCDEF"
unfoldable pub is_hex_digit : Char → Bool
is_hex_digit c =
    leb 48 (code c) && leb (code c) 57
    || leb 97 (code c) && leb (code c) 102
    || leb 65 (code c) && leb (code c) 70

-- `find_first_not_of` finds nothing.
unfoldable pub all_hex : String → Bool
all_hex [] = true
all_hex (c ∷ s) = is_hex_digit c && all_hex s

unfoldable pub normalize_crc32 : String → String
normalize_crc32 crc = if len crc == 8 && all_hex crc then "0x" ++ crc else crc
