-- ===== src/Run/Extension.antt =====
-- cimba/experiments/snapshot.py: the loop of `Batch._run_core` that runs a trial again with longer
-- rows while the trial asks for them. The native engine and the generation of a row are parameters.
pub mod Next
pub mod Grown
use cimba_python.Base.{
  ℕ, zero, suc, ◌+◌, ◌-◌, ◌*◌, Bool, true, false, not, ◌&&◌, ◌||◌, Option, none, some, List, [],
  ◌∷◌, Result, ok, raise, raise_if, runtime_error, out_of_fuel, ◌>>=◌, ◌>>◌, if◌then◌else◌, ltb,
  leb, ◌==◌, length, take,
}

-- The source of an input field: generated rows, whether they are prefix-stable and their greatest
-- length, or another source.
pub data Source : Type 0 where
  generated : Bool → Option ℕ → Source
  other : Source

-- An input of one trial: its source, the row bound to it and the extensions so far.
pub record Slot (V : Type 0) : Type 0 where
  pub source : Source
  pub row : List V
  pub extensions : ℕ

-- The status of a trial, and which of its inputs ran out.
pub record Outcome : Type 0 where
  pub status : ℕ
  pub is_exhausted : ℕ → Bool

-- A trial after the loop; the host's own failure has status 3.
pub record Trial (V : Type 0) : Type 0 where
  pub status : ℕ
  pub slots : List (Slot V)

abbrev pub is_generated : Source → Bool
is_generated (generated stable limit) = true
is_generated other = false

abbrev pub exceeds : Option ℕ → ℕ → Bool
exceeds none n = false
exceeds (some m) n = ltb m n

module _ {V : Type 0} (equal : V → V → Bool) (rows : ℕ → ℕ → Result (List V))
    (engine : List (List V) → Outcome) where
  -- `np.array_equal`
  unfoldable pub array_equal : List V → List V → Bool
  array_equal [] [] = true
  array_equal (x ∷ xs) (y ∷ ys) = equal x y && array_equal xs ys
  array_equal _ _ = false

  abbrev pub bound : List (Slot V) → List (List V)
  bound [] = []
  bound (s ∷ rest) = s.row ∷ bound rest

  unfoldable pub any_exhausted : (ℕ → Bool) → ℕ → List (Slot V) → Bool
  any_exhausted exhausted n [] = false
  any_exhausted exhausted n (s ∷ rest) = exhausted n || any_exhausted exhausted (suc n) rest

  unfoldable pub any_generated : List (Slot V) → Bool
  any_generated [] = false
  any_generated (s ∷ rest) = is_generated s.source || any_generated rest

  -- One target: whether the extension failed, and the input with its new row.
  unfoldable pub extend_slot : ℕ → Source → Slot V → Result (Bool × Slot V)
  unfolding array_equal
  extend_slot n other s = ok (true, s)
  extend_slot n (generated stable limit) s =
      let new_length = length s.row * 2 in
      if not stable || leb 6 s.extensions
      then ok (true, s)
      else if exceeds limit new_length
      then ok (true, s)
      else (do
        row ← rows n new_length
        raise_if (not (array_equal (take (length s.row) row) s.row)) runtime_error
        ok (false, record { source = s.source; row = row; extensions = suc s.extensions }))

  -- The first input that ran out.
  unfoldable pub extend_first : (ℕ → Bool) → ℕ → List (Slot V) → Result (Bool × List (Slot V))
  unfolding extend_slot
  extend_first exhausted n [] = ok (true, [])
  extend_first exhausted n (s ∷ rest) =
      let others = extend_first exhausted (suc n) rest in
      if exhausted n
      then (do e ← extend_slot n s.source s; ok (e.0, e.1 ∷ rest))
      else (do e ← others; ok (e.0, s ∷ e.1))

  -- Every generated input in turn, up to the first that fails.
  unfoldable pub extend_all : ℕ → List (Slot V) → Result (Bool × List (Slot V))
  unfolding extend_slot
  extend_all n [] = ok (false, [])
  extend_all n (s ∷ rest) =
      let others = extend_all (suc n) rest in
      if is_generated s.source
      then (do
        e ← extend_slot n s.source s
        if e.0 then ok (true, e.1 ∷ rest) else (do more ← others; ok (more.0, e.1 ∷ more.1)))
      else (do more ← others; ok (more.0, s ∷ more.1))

  -- The targets of one extension. Where no input of the tree ran out, a clone in a spawned model
  -- did; then there must be a generated input.
  unfoldable pub extend : Outcome → List (Slot V) → Result (Bool × List (Slot V))
  unfolding any_exhausted any_generated extend_first extend_all
  extend o slots =
      if any_exhausted o.is_exhausted 0 slots
      then extend_first o.is_exhausted 0 slots
      else if any_generated slots
      then extend_all 0 slots
      else ok (true, slots)

  -- `while headers["status"][i] == 4`
  unfoldable pub extend_loop : ℕ → Outcome → List (Slot V) → Result (Trial V)
  unfolding extend
  extend_loop zero o slots = raise out_of_fuel
  extend_loop (suc fuel) o slots =
      if o.status == 4
      then (do
        e ← extend o slots
        (if e.0
            then ok (record { status = 3; slots = e.1 })
            else extend_loop fuel (engine (bound e.1)) e.1))
      else ok (record { status = o.status; slots = slots })

  -- The first run of a trial and its extensions.
  unfoldable pub run_trial : ℕ → List (Slot V) → Result (Trial V)
  unfolding extend_loop
  run_trial fuel slots = extend_loop fuel (engine (bound slots)) slots
