-- ===== src/Tests/Resamples.antt =====
-- Resampling of three recorded values, with a generator that draws the largest integer and runs of
-- two.
use cimba_python.Base.{
  ℕ, zero, suc, ◌-◌, ◌%◌, ◌≤◌, ◌<◌, ◌≡◌, refl, Bool, true, not, Option, none, List, [], ◌∷◌, Result,
  ok, arith, replicate, length-replicate, All, ◌==◌, gather, element,
}
use cimba_python.Inputs.Bootstrap.{
  Rng, iid_draw, moving_draw, circular_draw, stationary_draw, intermittent_draw, joint, joint_draw,
}
use cimba_python.Inputs.Bootstrap.Indices.{Laws, IsResample, draws-IsResample}
use cimba_python.Inputs.Bootstrap.Panel.{joint_draw-aligned}
use cimba_python.Inputs.Bootstrap.Prefix.{
  IsPrefix, stationary_draw-IsPrefix, intermittent_draw-IsPrefix,
}

abbrev last : Rng
last = record {
  R = ℕ;
  integers = λ low high r. (high - 1, suc r);
  sample = λ low high n r. replicate n (high - 1);
  geometric = λ r. (2, suc r);
  below = λ p r. (r % 2 == 0, suc r);
}

replicate-IsWithin :
    (n low high : ℕ) → low < high → All (λ i. (low ≤ i) × (i < high)) (replicate n (high - 1))
replicate-IsWithin zero low high h = tt
replicate-IsWithin (suc n) low high h =
    ((omega arith, omega arith), replicate-IsWithin n low high h)

last_laws : Laws last
last_laws = record {
  integers_range = λ low high r h. (omega arith, omega arith);
  sample_length = λ low high n r. length-replicate n (high - 1);
  sample_range = λ low high n r h. replicate-IsWithin n low high h;
  geometric_positive = λ r. omega arith;
}

abbrev values : List ℕ
values = 10 ∷ 20 ∷ 30 ∷ []

draws-IsResample_example :
    IsResample last last_laws values 5 (iid_draw last values 5 0)
    × IsResample last last_laws values 5 (moving_draw last 2 values 5 0)
    × IsResample last last_laws values 5 (circular_draw last 2 values 5 0)
    × IsResample last last_laws values 5 (stationary_draw last true values 5 0)
draws-IsResample_example = draws-IsResample last last_laws values 2 5 0 (omega arith) (omega arith)

wraps : stationary_draw last true values 3 0 ≡ ok (30 ∷ 10 ∷ 30 ∷ [])
unfolding stationary_draw gather
wraps = refl

wraps_longer : stationary_draw last true values 4 0 ≡ ok (30 ∷ 10 ∷ 30 ∷ 10 ∷ [])
unfolding stationary_draw gather
wraps_longer = refl

stationary_draw-IsPrefix_example : IsPrefix {A = ℕ} (30 ∷ 10 ∷ 30 ∷ []) (30 ∷ 10 ∷ 30 ∷ 10 ∷ [])
stationary_draw-IsPrefix_example =
    stationary_draw-IsPrefix last values true 3 4 0 (omega arith) wraps wraps_longer

abbrev sparse : List ℕ
sparse = 4 ∷ 0 ∷ 6 ∷ []

abbrev as_drawn : ℕ → ℕ → Option ℕ × ℕ
as_drawn v r = (none, r)

abbrev is_positive : ℕ → Bool
is_positive v = not (v == 0)

demands : intermittent_draw last is_positive 0 as_drawn sparse 2 0 ≡ ok (0 ∷ 6 ∷ [])
unfolding intermittent_draw gather
demands = refl

demands_longer : intermittent_draw last is_positive 0 as_drawn sparse 3 0 ≡ ok (0 ∷ 6 ∷ 6 ∷ [])
unfolding intermittent_draw gather
demands_longer = refl

intermittent_draw-IsPrefix_example : IsPrefix {A = ℕ} (0 ∷ 6 ∷ []) (0 ∷ 6 ∷ 6 ∷ [])
intermittent_draw-IsPrefix_example =
    intermittent_draw-IsPrefix last is_positive 0 as_drawn sparse 2 3 0 (omega arith) demands
      demands_longer

abbrev tens : ℕ × List ℕ
tens = (0, 10 ∷ 20 ∷ 30 ∷ [])

abbrev ones : ℕ × List ℕ
ones = (1, 1 ∷ 2 ∷ 3 ∷ [])

abbrev panel : List (ℕ × List ℕ)
panel = tens ∷ ones ∷ []

abbrev accept : List ℕ → Result (List ℕ)
accept column = ok column

accepted : joint last accept panel ≡ ok panel
unfolding joint
accepted = refl

first_column : joint_draw last true tens 3 0 ≡ ok (30 ∷ 10 ∷ 30 ∷ [])
unfolding joint_draw gather
first_column = refl

second_column : joint_draw last true ones 3 0 ≡ ok (3 ∷ 1 ∷ 3 ∷ [])
unfolding joint_draw gather
second_column = refl

joint_draw-aligned_example : (s : ℕ) × (element tens.1 s ≡ ok 10) × (element ones.1 s ≡ ok 1)
joint_draw-aligned_example =
    joint_draw-aligned last accept panel true 3 0 0 1 1 accepted refl refl first_column
      second_column refl refl
