-- ===== src/Config/Json.antt =====
-- What src/config_api/ calls of the vendored JSON library nlohmann::json, and of floating point: a
-- parameter. `IsJson` is what their documentation says of it, as far as a request is read back.
use Prim.Native.String.{String}
use text.Mathlib.Text.{◌==◌ as str_eq}
use afi920_sdk.Prelude.{
  ℕ, ◌^◌, ◌<◌, ◌≡◌, List, [], ◌∷◌, Bool, true, Option, none, some, if◌then◌else◌,
}

-- The integers: `negsuc n` is -(n + 1).
pub data ℤ : Type 0 where
  pos : ℕ → ℤ
  negsuc : ℕ → ℤ

-- The getters are `get<T>` of a string, a bool, an unsigned and a signed integer of the given width,
-- and a float, with none where it throws. `within_levels` is that a float is not below 1.0 and not
-- above 9.0. `find` is none for a missing key and for what is no object;
-- `elements` is none for what is no array, and `keys` are those of `items()`.
pub record Json : Type 1 where
  pub Value : Type 0
  pub Real : Type 0
  pub find : Value → String → Option Value
  pub keys : Value → List String
  pub elements : Value → Option (List Value)
  pub is_object : Value → Bool
  pub is_integer : Value → Bool
  pub get_string : Value → Option String
  pub get_bool : Value → Option Bool
  pub get_uint : ℕ → Value → Option ℕ
  pub get_int : ℕ → Value → Option ℤ
  pub get_real : Value → Option Real
  pub object : List (String × Value) → Value
  pub array : List Value → Value
  pub of_string : String → Value
  pub of_bool : Bool → Value
  pub of_number : ℕ → Value
  pub of_real : Real → Value
  pub dump : Value → List ℕ
  pub parse : List ℕ → Option Value
  pub real_zero : Real
  pub is_finite : Real → Bool
  pub within_levels : Real → Bool

-- The value of a key in a list of members.
abbrev pub member {ℓ} : {A : Type ℓ} → List (String × A) → String → Option A
member [] key = none
member ((k, v) ∷ rest) key = if str_eq k key then some v else member rest key

pub record IsJson (json : Json) : Type 0 where
  pub finds :
      (members : List (String × json.Value)) (key : String)
      → json.find (json.object members) key ≡ member members key
  pub gets_string : (s : String) → json.get_string (json.of_string s) ≡ some s
  pub gets_bool : (b : Bool) → json.get_bool (json.of_bool b) ≡ some b
  pub gets_uint : (w n : ℕ) → n < 2 ^ w → json.get_uint w (json.of_number n) ≡ some n
  pub gets_int : (n : ℕ) → n < 2 ^ 31 → json.get_int 32 (json.of_number n) ≡ some (pos n)
  pub numbers : (n : ℕ) → json.is_integer (json.of_number n) ≡ true
  pub gets_real : (r : json.Real) → json.get_real (json.of_real r) ≡ some r
  pub lists : (vs : List json.Value) → json.elements (json.array vs) ≡ some vs
