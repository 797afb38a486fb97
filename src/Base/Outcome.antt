-- ===== src/Base/Outcome.antt =====
-- Python's exceptions as values, and code that may raise.
use mathlib.Core.Path.{◌≡◌, refl}
use mathlib.Core.Logic.{◌≢◌, ◌⊎◌, inl, inr}
use mathlib.Core.Bool.{Bool, true, false}
use tempesta_test.Base.Tests.{if◌then◌else◌}
use native.Mathlib.Omega.{arith}

-- The exception classes that the modelled code raises or catches. `incomplete_message` and
-- `parse_error` are the two classes of framework/deproxy/deproxy_message.py, the first a subclass
-- of the second; `framework_error` is `error.Error` of framework/helpers/error.py, and
-- `plain_exception` is `Exception` itself. `no_fuel` is no
-- exception: it marks a loop of the model that was given too few rounds.
pub data Error : Type 0 where
  incomplete_message parse_error value_error index_error type_error : Error
  attribute_error key_error assertion_error framework_error runtime_error plain_exception : Error
  no_fuel : Error

pub data Result {ℓ} (A : Type ℓ) : Type ℓ where
  ok : A → Result A
  raise : Error → Result A

-- A chain: what raises ends it.
infixl 5 ◌>>=◌ ◌>>◌
abbrev pub ◌>>=◌ {ℓ κ} : {X : Type ℓ} {Y : Type κ} → Result X → (X → Result Y) → Result Y
raise e >>= next = raise e
ok x >>= next = next x

abbrev pub ◌>>◌ {κ} : {Y : Type κ} → Result (Unit {0}) → Result Y → Result Y
first >> second = first >>= (λ done. second)

-- `assert b`, and `if not b: raise e`.
abbrev pub check : Bool → Error → Result (Unit {0})
check true e = ok tt
check false e = raise e

-- `except ParseError`, which takes the subclass too.
abbrev pub is_parse_error : Error → Bool
is_parse_error incomplete_message = true
is_parse_error parse_error = true
is_parse_error _ = false

-- A chain runs out of fuel only where one of its parts does.
pub >>=-IsFueled {ℓ κ} :
    {A : Type ℓ} {B : Type κ} (m : Result A) (f : A → Result B)
    → m ≢ raise no_fuel
    → ((a : A) → m ≡ ok a → f a ≢ raise no_fuel)
    → (m >>= f) ≢ raise no_fuel
>>=-IsFueled (ok a) f h k = k a refl
>>=-IsFueled (raise e) f h k = λ p. h (ground arith)

-- The outcome of a chain that returns.
pub >>=-eq-ok {ℓ κ} :
    {X : Type ℓ} {Y : Type κ} (first : Result X) (next : X → Result Y) {y : Y}
    → (first >>= next) ≡ ok y
    → (x : X) × (first ≡ ok x) × (next x ≡ ok y)
>>=-eq-ok (raise e) next h = cc
>>=-eq-ok (ok x) next h = (x, refl, h)

pub >>=-ok {ℓ} : {A : Type ℓ} (m : Result A) → m ≡ (m >>= ok)
>>=-ok (ok a) = refl
>>=-ok (raise e) = refl

pub >>=_assoc {ℓ κ μ} :
    {A : Type ℓ} {B : Type κ} {C : Type μ} (m : Result A) (f : A → Result B) (g : B → Result C)
    → (m >>= f >>= g) ≡ (m >>= λ a. f a >>= g)
>>=_assoc (ok a) f g = refl
>>=_assoc (raise e) f g = refl

pub Result-cases {ℓ} :
    {A : Type ℓ} (r : Result A) → ((a : A) × (r ≡ ok a)) ⊎ ((e : Error) × (r ≡ raise e))
Result-cases (ok a) = inl (a, refl)
Result-cases (raise e) = inr (e, refl)

-- Every result that code returns has a property.
abbrev pub Returns {ℓ κ} : {A : Type ℓ} → (A → Type κ) → Result A → Type κ
Returns P (ok a) = P a
Returns P (raise e) = Unit

pub >>=-Returns {ℓ κ μ} :
    {A : Type ℓ} {B : Type κ} (P : B → Type μ) (m : Result A) (f : A → Result B)
    → ((a : A) → Returns P (f a))
    → Returns P (m >>= f)
>>=-Returns P (ok a) f h = h a
>>=-Returns P (raise e) f h = tt

pub >>=-Returns_of {ℓ κ μ ν} :
    {A : Type ℓ} {B : Type κ} (Q : A → Type ν) (P : B → Type μ) (m : Result A) (f : A → Result B)
    → Returns Q m
    → ((a : A) → Q a → Returns P (f a))
    → Returns P (m >>= f)
>>=-Returns_of Q P (ok a) f q h = h a q
>>=-Returns_of Q P (raise e) f q h = tt

pub Returns-ok {ℓ κ} :
    {A : Type ℓ} (P : A → Type κ) (m : Result A) {a : A} → Returns P m → m ≡ ok a → P a
Returns-ok P m q e = rw e at q

pub Returns-mono {ℓ κ μ} :
    {A : Type ℓ} (P : A → Type κ) (Q : A → Type μ) (m : Result A)
    → ((a : A) → P a → Q a)
    → Returns P m
    → Returns Q m
Returns-mono P Q (ok a) f h = f a h
Returns-mono P Q (raise e) f h = tt

pub >>=-Returns_eq {ℓ κ μ} :
    {A : Type ℓ} {B : Type κ} (P : B → Type μ) (m : Result A) (f : A → Result B)
    → ((a : A) → m ≡ ok a → Returns P (f a))
    → Returns P (m >>= f)
>>=-Returns_eq P (ok a) f h = h a refl
>>=-Returns_eq P (raise e) f h = tt

pub check-IsFueled : (b : Bool) (e : Error) → e ≢ no_fuel → check b e ≢ raise no_fuel
check-IsFueled true e h = ground arith
check-IsFueled false e h = ground arith

pub if-IsFueled {ℓ} :
    {A : Type ℓ} (b : Bool) (x y : Result A)
    → x ≢ raise no_fuel
    → y ≢ raise no_fuel
    → (if b then x else y) ≢ raise no_fuel
if-IsFueled true x y h k = h
if-IsFueled false x y h k = k

-- The same, where the first branch may use the test.
pub if-IsFueled_of {ℓ} :
    {A : Type ℓ} (b : Bool) (x y : Result A)
    → (b ≡ true → x ≢ raise no_fuel)
    → y ≢ raise no_fuel
    → (if b then x else y) ≢ raise no_fuel
if-IsFueled_of true x y h k = h refl
if-IsFueled_of false x y h k = k

pub if-Returns {ℓ κ} :
    {A : Type ℓ} (P : A → Type κ) (b : Bool) (x y : Result A)
    → Returns P x
    → Returns P y
    → Returns P (if b then x else y)
if-Returns P true x y h k = h
if-Returns P false x y h k = k

pub if-Returns-true {ℓ κ} :
    {A : Type ℓ} (P : A → Type κ) (b : Bool) (x y : Result A)
    → b ≡ true
    → Returns P x
    → Returns P (if b then x else y)
if-Returns-true P true x y e h = h
if-Returns-true P false x y e h = absurd (ground arith)
