-- ===== src/Prelude/Reads.antt =====
-- Outcomes of code that reads a buffer. A pointer and its length are one list of bytes; a null
-- pointer is the empty list. `fault` is a read past the end, which C++ leaves undefined.
use mathlib.Core.Path.{◌≡◌, refl, sym, subst}
use mathlib.Core.Bool.{Bool, true, false}
use afi920_sdk.Prelude.Tests.{if◌then◌else◌}

pub data Outcome {ℓ} (A : Type ℓ) : Type ℓ where
  ok : A → Outcome A
  reject : Outcome A
  fault : Outcome A

infixl 5 ◌>>=◌ ◌>>◌
abbrev pub ◌>>=◌ {ℓ κ} : {A : Type ℓ} {B : Type κ} → Outcome A → (A → Outcome B) → Outcome B
ok a >>= f = f a
reject >>= f = reject
fault >>= f = fault

abbrev pub ◌>>◌ {ℓ} : {B : Type ℓ} → Outcome (Unit {0}) → Outcome B → Outcome B
m >> k = m >>= λ _. k

-- `if (test) return -1;`
abbrev pub reject_if : Bool → Outcome (Unit {0})
reject_if true = reject
reject_if false = ok tt

-- The code reads nothing outside its buffer.
pub data IsSafe {ℓ} {A : Type ℓ} : Outcome A → Type ℓ where
  ok_safe : (a : A) → IsSafe (ok a)
  reject_safe : IsSafe reject

pub reject_if-IsSafe {ℓ} :
    {B : Type ℓ} (b : Bool) {k : Outcome B} → (b ≡ false → IsSafe k) → IsSafe (reject_if b >> k)
reject_if-IsSafe true h = reject_safe
reject_if-IsSafe false h = h refl

pub >>=-IsSafe {ℓ κ} :
    {A : Type ℓ} {B : Type κ} (m : Outcome A) {k : A → Outcome B}
    → IsSafe m
    → ((a : A) → m ≡ ok a → IsSafe (k a))
    → IsSafe (m >>= k)
>>=-IsSafe (ok a) s h = h a refl
>>=-IsSafe reject s h = reject_safe
>>=-IsSafe fault s h = elim s [ ]

reject≢ok {ℓ} : {A : Type ℓ} {a : A} → ¬ (reject ≡ ok a)
reject≢ok e = cc

fault≢ok {ℓ} : {A : Type ℓ} {a : A} → ¬ (fault ≡ ok a)
fault≢ok e = cc

-- What a result tells of the steps that led to it.
pub >>=-ok {ℓ κ} :
    {A : Type ℓ} {B : Type κ} (m : Outcome A) {k : A → Outcome B} {b : B}
    → (m >>= k) ≡ ok b
    → (a : A) × (m ≡ ok a) × (k a ≡ ok b)
>>=-ok (ok a) e = (a, refl, e)
>>=-ok reject e = absurd (reject≢ok e)
>>=-ok fault e = absurd (fault≢ok e)

pub reject_if_ok {ℓ} :
    {B : Type ℓ} (b : Bool) {k : Outcome B} {x : B}
    → (reject_if b >> k) ≡ ok x
    → (b ≡ false) × (k ≡ ok x)
reject_if_ok true e = absurd (reject≢ok e)
reject_if_ok false e = (refl, e)

pub ok_injective {ℓ} : {A : Type ℓ} {a b : A} → ok a ≡ ok b → a ≡ b
ok_injective e = cc

-- A property of the value a run must return holds of the one it returned.
pub ok_subst {ℓ κ} : {A : Type ℓ} (P : A → Type κ) {a b : A} → ok a ≡ ok b → P a → P b
ok_subst P e p = subst P (ok_injective e) p

-- What runs to its end, with a value and without a read out of range.
pub data Returns {ℓ} {A : Type ℓ} : Outcome A → Type ℓ where
  returned : (a : A) → Returns (ok a)

pub >>=-Returns {ℓ κ} :
    {A : Type ℓ} {B : Type κ} (m : Outcome A) {k : A → Outcome B}
    → Returns m
    → ((a : A) → Returns (k a))
    → Returns (m >>= k)
>>=-Returns (ok a) r f = f a
>>=-Returns reject r f = elim r [ ]
>>=-Returns fault r f = elim r [ ]

pub eq-Returns {ℓ} : {A : Type ℓ} {m : Outcome A} {a : A} → m ≡ ok a → Returns m
eq-Returns e = subst Returns (sym e) (returned _)

pub Returns-IsSafe {ℓ} : {A : Type ℓ} {m : Outcome A} → Returns m → IsSafe m
Returns-IsSafe (returned a) = ok_safe a

-- What is returned, if anything is, has the property.
pub data Ensures {ℓ κ} {A : Type ℓ} (P : A → Type κ) : Outcome A → Type (ℓ ⊔ κ) where
  ensured : (a : A) → P a → Ensures P (ok a)
  ensured_reject : Ensures P reject
  ensured_fault : Ensures P fault

pub Ensures-holds {ℓ κ} :
    {A : Type ℓ} {P : A → Type κ} {m : Outcome A} → Ensures P m → (a : A) → m ≡ ok a → P a
Ensures-holds {P = P} (ensured b p) a e = subst P (ok_injective e) p
Ensures-holds ensured_reject a e = absurd (reject≢ok e)
Ensures-holds ensured_fault a e = absurd (fault≢ok e)

pub >>=-Ensures {ℓ κ μ ν} :
    {A : Type ℓ} {B : Type κ} {P : A → Type μ} {Q : B → Type ν} (m : Outcome A) {k : A → Outcome B}
    → Ensures P m
    → ((a : A) → P a → Ensures Q (k a))
    → Ensures Q (m >>= k)
>>=-Ensures (ok a) r f = f a (Ensures-holds r a refl)
>>=-Ensures reject r f = ensured_reject
>>=-Ensures fault r f = ensured_fault

pub if_ind {ℓ κ} :
    {A : Type ℓ} (P : A → Type κ) (b : Bool) {x y : A} → P x → P y → P (if b then x else y)
if_ind P true p q = p
if_ind P false p q = q

pub if-Ensures {ℓ κ} :
    {A : Type ℓ} {P : A → Type κ} (b : Bool) {x y : Outcome A}
    → Ensures P x
    → Ensures P y
    → Ensures P (if b then x else y)
if-Ensures true p q = p
if-Ensures false p q = q
