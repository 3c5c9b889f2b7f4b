-- ===== src/Base/Ends.antt =====
-- Code of the model that does not run out of fuel.
use mathlib.Core.Path.{◌≡◌, refl}
use mathlib.Core.Bool.{Bool, true, false}
use mathlib.Core.List.{List, [], ◌∷◌}
use cimba_python.Base.Tests.{if◌then◌else◌}
use cimba_python.Base.Raise.{Error, out_of_fuel, Result, ok, raise, raise_if, ◌>>=◌, ◌>>◌}
use cimba_python.Base.Sequences.{collect}

-- Whether a statement of the source ends or raises.
abbrev pub is_exception : Error → Bool
is_exception out_of_fuel = false
is_exception _ = true

abbrev pub ends : {A : Type 0} → Result A → Bool
ends (raise e) = is_exception e
ends (ok a) = true

pub >>=-ends :
    {A B : Type 0} (r : Result A) (next : A → Result B)
    → ends r ≡ true
    → ((a : A) → r ≡ ok a → ends (next a) ≡ true)
    → ends (r >>= next) ≡ true
>>=-ends (ok a) next h k = k a refl
>>=-ends (raise e) next h k = h

pub raise_if-ends :
    {A : Type 0} (b : Bool) (e : Error) (next : Result A)
    → ends {A = A} (raise e) ≡ true
    → ends next ≡ true
    → ends (raise_if b e >> next) ≡ true
raise_if-ends true e next h k = h
raise_if-ends false e next h k = k

pub collect-ends :
    {A B : Type 0} (f : A → Result B)
    → ((a : A) → ends (f a) ≡ true)
    → (as_list : List A) → ends (collect f as_list) ≡ true
unfolding collect
collect-ends f each [] = refl
collect-ends f each (a ∷ others) =
    >>=-ends (f a) _ (each a)
      (λ b eq. >>=-ends (collect f others) _ (collect-ends f each others) (λ c eq. refl))

pub if-ends :
    {A : Type 0} (b : Bool) (x y : Result A)
    → ends x ≡ true
    → ends y ≡ true
    → ends (if b then x else y) ≡ true
if-ends true x y h k = h
if-ends false x y h k = k
