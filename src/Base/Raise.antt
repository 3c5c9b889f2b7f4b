-- ===== src/Base/Raise.antt =====
-- The result of a host call: a value, or the class of the exception that it raises.
use mathlib.Core.Path.{◌≡◌, refl}
use mathlib.Core.Bool.{Bool, true, false}
use mathlib.Core.Logic.{◌⊎◌, inl, inr}
use cimba_python.Base.Tests.{if◌then◌else◌}

pub data Error : Type 0 where
  value_error type_error key_error index_error attribute_error overflow_error : Error
  runtime_error assertion_error : Error
  -- Not an exception: a loop of the model used up its fuel.
  out_of_fuel : Error
  model_definition_error experiment_config_error input_error : Error
  trials_failed optimization_error : Error

pub data Result {ℓ} (A : Type ℓ) : Type ℓ where
  ok : A → Result A
  raise : Error → Result A

pub ok_injective {ℓ} : {A : Type ℓ} {a b : A} → ok a ≡ ok b → a ≡ b
ok_injective e = cc

-- Statements in sequence: the first that raises ends them all.
infixl 5 ◌>>=◌ ◌>>◌
abbrev pub ◌>>=◌ {ℓ κ} : {X : Type ℓ} {Y : Type κ} → Result X → (X → Result Y) → Result Y
raise error >>= next = raise error
ok value >>= next = next value

abbrev pub ◌>>◌ {κ} : {Y : Type κ} → Result (Unit {0}) → Result Y → Result Y
raise error >> next = raise error
ok done >> next = next

-- `if test: raise e`
abbrev pub raise_if : Bool → Error → Result (Unit {0})
raise_if true e = raise e
raise_if false e = ok tt

pub raise_if-ok : (b : Bool) (x : Error) → raise_if b x ≡ ok tt → b ≡ false
raise_if-ok true x h = cc
raise_if-ok false x h = refl

-- A sequence that returned: what its first statement yielded, and that the rest returned too.
pub >>=-eq-ok {ℓ κ} :
    {X : Type ℓ} {Y : Type κ} (first : Result X) (next : X → Result Y) {result : Y}
    → (first >>= next) ≡ ok result
    → (value : X) × (first ≡ ok value) × (next value ≡ ok result)
>>=-eq-ok (raise error) next returned = cc
>>=-eq-ok (ok value) next returned = (value, refl, returned)

pub >>-eq-ok {κ} :
    {Y : Type κ} (first : Result (Unit {0})) (next : Result Y) {result : Y}
    → (first >> next) ≡ ok result
    → (first ≡ ok tt) × (next ≡ ok result)
>>-eq-ok (raise error) next returned = cc
>>-eq-ok (ok done) next returned = (refl, returned)

pub Result-cases {ℓ} :
    {A : Type ℓ} (r : Result A) → ((a : A) × (r ≡ ok a)) ⊎ ((e : Error) × (r ≡ raise e))
Result-cases (ok a) = inl (a, refl)
Result-cases (raise e) = inr (e, refl)

pub if-ok :
    {A : Type 0} (b : Bool) (x y : Result A) {a : A}
    → (if b then x else y) ≡ ok a
    → ((b ≡ true) × (x ≡ ok a)) ⊎ ((b ≡ false) × (y ≡ ok a))
if-ok true x y h = inl (refl, h)
if-ok false x y h = inr (refl, h)

-- A test that returned took its branch.
pub test-ok {ℓ} :
    {A : Type ℓ} (b : Bool) (x : A) (e : Error) {a : A}
    → (if b then ok x else raise e) ≡ ok a
    → (b ≡ true) × (x ≡ a)
test-ok true x e h = (refl, ok_injective h)
test-ok false x e h = cc
