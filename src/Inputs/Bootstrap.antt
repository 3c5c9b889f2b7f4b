-- ===== src/Inputs/Bootstrap.antt =====
-- cimba/inputs/bootstrap.py: resampling of recorded values. What the code calls of NumPy's random
-- generator is a parameter, as are the tests on floats.
pub mod Indices
pub mod Prefix
pub mod Panel
use cimba_python.Base.{
  ℕ, zero, suc, ◌+◌, ◌-◌, ◌*◌, ◌/◌, ◌%◌, min, Bool, true, false, not, ◌&&◌, ◌||◌, Option, none,
  some, List, [], ◌∷◌, ◌++◌, Result, ok, raise, raise_if, out_of_fuel, input_error, ◌>>=◌, ◌>>◌,
  if◌then◌else◌, ltb, leb, ◌==◌, length, take, gather, map,
}

-- What is used of a generator, by its state.
pub record Rng : Type 1 where
  pub R : Type 0
  -- `rng.integers(low, high)`
  pub integers : ℕ → ℕ → R → ℕ × R
  -- `rng.integers(low, high, size=n)`
  pub sample : ℕ → ℕ → ℕ → R → List ℕ
  -- `rng.geometric(p)`, at the probability of the source.
  pub geometric : R → ℕ × R
  -- `rng.random() < p`, at one of the probabilities of an intermittent source.
  pub below : ℕ → R → Bool × R

-- `_block_size`
unfoldable pub block_size : ℕ → ℕ → Result ℕ
block_size block size = if leb 1 block && leb block size then ok block else raise input_error

-- `(start + np.arange(n)) % size`
unfoldable pub run_of : ℕ → ℕ → ℕ → List ℕ
run_of start zero size = []
run_of start (suc n) size = (start % size) ∷ run_of (suc start) n size

-- `start + np.arange(n)`
unfoldable pub span : ℕ → ℕ → List ℕ
span start zero = []
span start (suc n) = start ∷ span (suc start) n

-- `(starts[:, None] + offsets).ravel()`
unfoldable pub ravel : ℕ → List ℕ → List ℕ
unfolding span
ravel block [] = []
ravel block (s ∷ starts) = span s block ++ ravel block starts

unfoldable pub wrap : ℕ → List ℕ → List ℕ
wrap size [] = []
wrap size (i ∷ is) = (i % size) ∷ wrap size is

module _ (g : Rng) where
  open g use {R, integers, sample, geometric, below}

  -- The loop of `stationary_indices`: what it writes from an offset on.
  unfoldable pub stationary_loop : ℕ → ℕ → ℕ → ℕ → R → Result (List ℕ)
  unfolding run_of
  stationary_loop zero size offset len r = if ltb offset len then raise out_of_fuel else ok []
  stationary_loop (suc fuel) size offset len r =
      let start = integers 0 size r in
      let run = geometric start.1 in
      let stop = min len (offset + run.0) in
      let rest = stationary_loop fuel size stop len run.1 in
      if ltb offset len
      then (rest >>= λ tail. ok (run_of start.0 (stop - offset) size ++ tail))
      else ok []

  -- `stationary_indices`, with the test of the mean block length and as much fuel as entries.
  unfoldable pub stationary_indices : Bool → ℕ → ℕ → R → Result (List ℕ)
  unfolding stationary_loop
  stationary_indices valid_mean size len r = do
    raise_if (not valid_mean) input_error
    stationary_loop len size 0 len r

  -- The indices that `moving_block` draws.
  unfoldable pub moving_indices : ℕ → ℕ → ℕ → R → List ℕ
  unfolding ravel
  moving_indices block size len r =
      take len (ravel block (sample 0 (size - block + 1) ((len + block - 1) / block) r))

  -- The indices that `circular_block` draws.
  unfoldable pub circular_indices : ℕ → ℕ → ℕ → R → List ℕ
  unfolding ravel wrap
  circular_indices block size len r =
      wrap size (take len (ravel block (sample 0 size ((len + block - 1) / block) r)))

  module _ {V : Type 0} where
    -- The draws of `iid`, `moving_block`, `circular_block` and `stationary`.
    unfoldable pub iid_draw : List V → ℕ → R → Result (List V)
    iid_draw values len r = gather values (sample 0 (length values) len r)

    unfoldable pub moving_draw : ℕ → List V → ℕ → R → Result (List V)
    unfolding block_size moving_indices
    moving_draw block values len r = do
      b ← block_size block (length values)
      gather values (moving_indices b (length values) len r)

    unfoldable pub circular_draw : ℕ → List V → ℕ → R → Result (List V)
    unfolding block_size circular_indices
    circular_draw block values len r = do
      b ← block_size block (length values)
      gather values (circular_indices b (length values) len r)

    unfoldable pub stationary_draw : Bool → List V → ℕ → R → Result (List V)
    unfolding stationary_indices
    stationary_draw valid_mean values len r = do
      is ← stationary_indices valid_mean (length values) len r
      gather values is

    -- `intermittent`: the nonzero values, and the series of occurrences. `moved` is the
    -- perturbation by a normal draw, if it is asked for and positive.
    unfoldable pub keep_nonzero : (V → Bool) → List V → List V
    keep_nonzero occurs [] = []
    keep_nonzero occurs (v ∷ values) =
        if occurs v then v ∷ keep_nonzero occurs values else keep_nonzero occurs values

    module _ (occurs : V → Bool) (zero_value : V) (moved : V → R → Option V × R) where
      abbrev pub prefer : Option V → V → V
      prefer none v = v
      prefer (some w) v = w

      unfoldable pub demand : Bool → List V → R → Result (V × R)
      demand false sizes r = ok (zero_value, r)
      demand true sizes r = do
        let i = integers 0 (length sizes) r
        drawn ← gather sizes (i.0 ∷ [])
        first drawn i.1
        where
          first : List V → R → Result (V × R)
          first [] r = raise input_error
          first (v ∷ rest) r = ok (prefer (moved v r).0 v, (moved v r).1)

      -- Probability 0 follows a zero, probability 1 an occurrence.
      unfoldable pub intermittent_loop : ℕ → Bool → List V → R → Result (List V)
      unfolding demand
      intermittent_loop zero state sizes r = ok []
      intermittent_loop (suc n) state sizes r =
          let now = below (if state then 1 else 0) r in
          do
            one ← demand now.0 sizes now.1
            rest ← intermittent_loop n now.0 sizes one.1
            ok (one.0 ∷ rest)

      -- The draw of `intermittent`: probability 2 is that of the first state.
      unfoldable pub intermittent_draw : List V → ℕ → R → Result (List V)
      unfolding keep_nonzero intermittent_loop
      intermittent_draw values len r =
          let sizes = keep_nonzero occurs values in
          let start = below 2 r in
          raise_if (ltb (length sizes) 2 || length sizes == length values) input_error
          >> intermittent_loop len start.0 sizes start.1

    -- `JointMembers`: a panel of named columns, all of one length. `check` is `reference`.
    unfoldable pub all_of_length : ℕ → List (List V) → Bool
    all_of_length n [] = true
    all_of_length n (y ∷ ys) = (length y == n) && all_of_length n ys

    -- `len({len(x) for x in arrays}) == 1`
    unfoldable pub equal_lengths : List (List V) → Bool
    unfolding all_of_length
    equal_lengths [] = false
    equal_lengths (x ∷ xs) = all_of_length (length x) xs

    unfoldable pub check_columns :
        {K : Type 0} → (List V → Result (List V)) → List (K × List V) → Result (List (K × List V))
    check_columns check [] = ok []
    check_columns check ((k, x) ∷ panel) = do
      x' ← check x
      rest ← check_columns check panel
      ok ((k, x') ∷ rest)

    unfoldable pub joint :
        {K : Type 0} → (List V → Result (List V)) → List (K × List V) → Result (List (K × List V))
    unfolding equal_lengths check_columns
    joint check panel = do
      raise_if (length panel == 0) input_error
      members ← check_columns check panel
      raise_if (not (equal_lengths (map (λ m. m.1) members))) input_error
      ok members

    -- The draw of one member.
    unfoldable pub joint_draw : {K : Type 0} → Bool → K × List V → ℕ → R → Result (List V)
    unfolding stationary_draw
    joint_draw valid_mean member len r = stationary_draw valid_mean member.1 len r
