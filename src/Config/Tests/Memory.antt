-- ===== src/Config/Tests/Memory.antt =====
-- A JSON library in memory that meets what is assumed of one. Its texts carry one number each: the
-- access mode. And a sensor that keeps an access mode and speaks such texts.
use Prim.Native.String.{String}
use native.Mathlib.Nat.{mod-eq_of_lt}
use afi920_sdk.Prelude.{
  ℕ, ◌%◌, ◌^◌, ◌≡◌, refl, ap, List, [], ◌∷◌, Bool, true, false, Option, none, some,
}
use afi920_sdk.Config.Json.{Json, IsJson, member, ℤ, pos}

mutual
  pub data Value : Type 0 where
    phrase : String → Value
    flag : Bool → Value
    number : ℕ → Value
    decimal : ℕ → Value
    arr : Values → Value
    obj : Members → Value

  pub data Values : Type 0 where
    nil : Values
    cons : Value → Values → Values

  pub data Members : Type 0 where
    no_members : Members
    and_member : String → Value → Members → Members

abbrev pub to_values : List Value → Values
to_values [] = nil
to_values (v ∷ vs) = cons v (to_values vs)

abbrev pub from_values : Values → List Value
from_values nil = []
from_values (cons v vs) = v ∷ from_values vs

abbrev pub to_members : List (String × Value) → Members
to_members [] = no_members
to_members ((k, v) ∷ rest) = and_member k v (to_members rest)

abbrev pub from_members : Members → List (String × Value)
from_members no_members = []
from_members (and_member k v rest) = (k, v) ∷ from_members rest

pub from_to_values : (vs : List Value) → from_values (to_values vs) ≡ vs
from_to_values [] = refl
from_to_values (v ∷ vs) = ap (◌∷◌ v) (from_to_values vs)

pub from_to_members : (ms : List (String × Value)) → from_members (to_members ms) ≡ ms
from_to_members [] = refl
from_to_members ((k, v) ∷ ms) = ap (◌∷◌ (k, v)) (from_to_members ms)

abbrev pub find_in : Value → String → Option Value
find_in (obj ms) key = member (from_members ms) key
find_in (phrase _) key = none
find_in (flag _) key = none
find_in (number _) key = none
find_in (decimal _) key = none
find_in (arr _) key = none

abbrev pub names_of : List (String × Value) → List String
names_of [] = []
names_of ((k, v) ∷ rest) = k ∷ names_of rest

abbrev pub keys_of : Value → List String
keys_of (obj ms) = names_of (from_members ms)
keys_of (phrase _) = []
keys_of (flag _) = []
keys_of (number _) = []
keys_of (decimal _) = []
keys_of (arr _) = []

abbrev pub elements_of : Value → Option (List Value)
elements_of (arr vs) = some (from_values vs)
elements_of (obj _) = none
elements_of (phrase _) = none
elements_of (flag _) = none
elements_of (number _) = none
elements_of (decimal _) = none

abbrev pub is_obj : Value → Bool
is_obj (obj _) = true
is_obj (arr _) = false
is_obj (phrase _) = false
is_obj (flag _) = false
is_obj (number _) = false
is_obj (decimal _) = false

abbrev pub is_number : Value → Bool
is_number (number _) = true
is_number (obj _) = false
is_number (arr _) = false
is_number (phrase _) = false
is_number (flag _) = false
is_number (decimal _) = false

abbrev pub text_of : Value → Option String
text_of (phrase s) = some s
text_of (obj _) = none
text_of (arr _) = none
text_of (number _) = none
text_of (flag _) = none
text_of (decimal _) = none

abbrev pub flag_of : Value → Option Bool
flag_of (flag b) = some b
flag_of (obj _) = none
flag_of (arr _) = none
flag_of (number _) = none
flag_of (phrase _) = none
flag_of (decimal _) = none

abbrev pub number_of : Value → Option ℕ
number_of (number n) = some n
number_of (obj _) = none
number_of (arr _) = none
number_of (flag _) = none
number_of (phrase _) = none
number_of (decimal _) = none

abbrev pub decimal_of : Value → Option ℕ
decimal_of (decimal n) = some n
decimal_of (obj _) = none
decimal_of (arr _) = none
decimal_of (flag _) = none
decimal_of (phrase _) = none
decimal_of (number _) = none

abbrev pub low : ℕ → Option ℕ → Option ℕ
low w none = none
low w (some n) = some (n % 2 ^ w)

abbrev pub signed : Option ℕ → Option ℤ
signed none = none
signed (some n) = some (pos n)

-- The text of a value: the number of its access mode.
abbrev pub mode_text : Option Value → List ℕ
mode_text (some (number n)) = n ∷ []
mode_text none = []
mode_text (some (phrase _)) = []
mode_text (some (flag _)) = []
mode_text (some (decimal _)) = []
mode_text (some (arr _)) = []
mode_text (some (obj _)) = []

abbrev pub mode_value : List ℕ → Option Value
mode_value [] = none
mode_value (n ∷ ns) =
    some (obj (and_member "data" (obj (and_member "access_mode" (number n) no_members)) no_members))

abbrev pub memory_json : Json
memory_json = record {
  Value = Value;
  Real = ℕ;
  find = find_in;
  keys = keys_of;
  elements = elements_of;
  is_object = is_obj;
  is_integer = is_number;
  get_string = text_of;
  get_bool = flag_of;
  get_uint = λ w v. low w (number_of v);
  get_int = λ w v. signed (number_of v);
  get_real = decimal_of;
  object = λ ms. obj (to_members ms);
  array = λ vs. arr (to_values vs);
  of_string = phrase;
  of_bool = flag;
  of_number = number;
  of_real = decimal;
  dump = λ v. mode_text (find_in v "access_mode");
  parse = mode_value;
  real_zero = 0;
  is_finite = λ r. true;
  within_levels = λ r. true;
}

pub memory_json-IsJson : IsJson memory_json
memory_json-IsJson = record {
  finds = λ ms key. ap (λ l. member l key) (from_to_members ms);
  gets_string = λ s. refl;
  gets_bool = λ b. refl;
  gets_uint = λ w n l. ap some (mod-eq_of_lt l);
  gets_int = λ n l. refl;
  numbers = λ n. refl;
  gets_real = λ r. refl;
  lists = λ vs. ap some (from_to_values vs);
}
