-- ===== src/Base/Sequences.antt =====
-- Sequences whose access may raise, as the host's subscripts do.
use Prim.Native.Nat.{ℕ, zero, suc}
use mathlib.Core.List.{List, [], ◌∷◌}
use cimba_python.Base.Raise.{Result, ok, raise, index_error, ◌>>=◌}

abbrev pub element {ℓ} : {A : Type ℓ} → List A → ℕ → Result A
element [] i = raise index_error
element (x ∷ xs) zero = ok x
element (x ∷ xs) (suc i) = element xs i

-- The elements at some positions, as in `seeds[positions]`.
unfoldable pub gather {ℓ} : {A : Type ℓ} → List A → List ℕ → Result (List A)
gather xs [] = ok []
gather xs (i ∷ is) = do x ← element xs i; rest ← gather xs is; ok (x ∷ rest)

unfoldable pub range_from : ℕ → ℕ → List ℕ
range_from i zero = []
range_from i (suc n) = i ∷ range_from (suc i) n

-- Every element of a list through a call that may raise.
unfoldable pub collect {ℓ κ} : {A : Type ℓ} {B : Type κ} → (A → Result B) → List A → Result (List B)
collect f [] = ok []
collect f (a ∷ rest) = do b ← f a; others ← collect f rest; ok (b ∷ others)

-- `np.broadcast_to`
abbrev pub broadcast {ℓ} : {A : Type ℓ} → ℕ → A → List A
broadcast zero row = []
broadcast (suc n) row = row ∷ broadcast n row
