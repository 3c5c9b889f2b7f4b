-- ===== src/Design/Product.antt =====
-- cimba/experiments/design.py: the combinations that `itertools.product` yields, and their order.
use cimba_python.Base.{
  ℕ, zero, suc, ◌+◌, ◌*◌, ◌<◌, ◌≡◌, refl, ap, some, List, [], ◌∷◌, ◌++◌, arith, length, get_elem?,
  length-append, sym, ◌∙◌, ◌⊎◌, inl, inr,
}
use cimba_python.Design.{prefix_all, from_position, positions}

abbrev pub product : List ℕ → ℕ
product [] = 1
product (n ∷ ns) = n * product ns

-- One position for each length, below it.
abbrev pub IsCombination : List ℕ → List ℕ → Type 0
IsCombination [] [] = Unit
IsCombination (n ∷ ns) (p ∷ ps) = (p < n) × IsCombination ns ps
IsCombination _ _ = ⊥

-- The place of a combination where the last position varies fastest.
abbrev pub rank : List ℕ → List ℕ → ℕ
rank (n ∷ ns) (p ∷ ps) = p * product ns + rank ns ps
rank _ _ = 0

pub get_elem?-append_left {ℓ} :
    {A : Type ℓ} (xs ys : List A) (i : ℕ) {x : A}
    → get_elem? xs i ≡ some x
    → get_elem? (xs ++ ys) i ≡ some x
get_elem?-append_left [] ys i h = cc
get_elem?-append_left (x ∷ xs) ys zero h = h
get_elem?-append_left (x ∷ xs) ys (suc i) h = get_elem?-append_left xs ys i h

pub get_elem?-append_right {ℓ} :
    {A : Type ℓ} (xs ys : List A) (i : ℕ) → get_elem? (xs ++ ys) (length xs + i) ≡ get_elem? ys i
get_elem?-append_right [] ys i = ap (get_elem? ys) (omega arith)
get_elem?-append_right (x ∷ xs) ys i =
    ap (get_elem? (x ∷ xs ++ ys)) (next (length xs) i) ∙ get_elem?-append_right xs ys i
  where
    next : (m n : ℕ) → suc m + n ≡ suc (m + n)
    next m n = omega arith

pub get_elem?-bound {ℓ} :
    {A : Type ℓ} (xs : List A) (i : ℕ) {x : A} → get_elem? xs i ≡ some x → i < length xs
get_elem?-bound [] i h = cc
get_elem?-bound (x ∷ xs) zero h = omega arith
get_elem?-bound (x ∷ xs) (suc i) h = omega (arith, get_elem?-bound xs i h)

length-prefix_all : (i : ℕ) (rest : List (List ℕ)) → length (prefix_all i rest) ≡ length rest
unfolding prefix_all
length-prefix_all i [] = refl
length-prefix_all i (p ∷ ps) = ap suc (length-prefix_all i ps)

get_elem?-prefix_all :
    (i : ℕ) (rest : List (List ℕ)) (r : ℕ) {q : List ℕ}
    → get_elem? rest r ≡ some q
    → get_elem? (prefix_all i rest) r ≡ some (i ∷ q)
unfolding prefix_all
get_elem?-prefix_all i [] r h = cc
get_elem?-prefix_all i (p ∷ ps) zero h = cc
get_elem?-prefix_all i (p ∷ ps) (suc r) h = get_elem?-prefix_all i ps r h

length-from_position :
    (n i : ℕ) (rest : List (List ℕ)) → length (from_position n i rest) ≡ n * length rest
unfolding from_position
length-from_position zero i rest = omega arith
length-from_position (suc n) i rest = omega (
  arith,
  length-append (prefix_all i rest) (from_position n (suc i) rest),
  length-prefix_all i rest,
  length-from_position n (suc i) rest,
)

pub length-positions : (ns : List ℕ) → length (positions ns) ≡ product ns
unfolding positions
length-positions [] = refl
length-positions (n ∷ ns) =
    length-from_position n 0 (positions ns) ∙ ap (λ m. n * m) (length-positions ns)

get_elem?-from_position :
    (n i j : ℕ) (rest : List (List ℕ)) (r : ℕ) {q : List ℕ}
    → j < n
    → get_elem? rest r ≡ some q
    → get_elem? (from_position n i rest) (j * length rest + r) ≡ some ((i + j) ∷ q)
unfolding from_position
get_elem?-from_position zero i j rest r h e = absurd (omega arith)
get_elem?-from_position (suc n) i zero rest r {q = q} h e =
    ap (get_elem? (prefix_all i rest ++ from_position n (suc i) rest)) (zero_mul (length rest))
    ∙ get_elem?-append_left (prefix_all i rest) (from_position n (suc i) rest) r
        (get_elem?-prefix_all i rest r e)
    ∙ ap (λ k. some (k ∷ q)) (omega arith)
  where
    zero_mul : (m : ℕ) → 0 * m + r ≡ r
    zero_mul m = omega arith
get_elem?-from_position (suc n) i (suc j) rest r {q = q} h e =
    ap (get_elem? (prefix_all i rest ++ from_position n (suc i) rest)) shift
    ∙ get_elem?-append_right (prefix_all i rest) (from_position n (suc i) rest)
        (j * length rest + r)
    ∙ get_elem?-from_position n (suc i) j rest r (omega arith) e
    ∙ ap (λ k. some (k ∷ q)) (omega arith)
  where
    shift : suc j * length rest + r ≡ length (prefix_all i rest) + (j * length rest + r)
    shift = omega (arith, length-prefix_all i rest)

-- Every combination of the axis positions stands at its rank.
pub get_elem?-rank :
    (ns c : List ℕ) → IsCombination ns c → get_elem? (positions ns) (rank ns c) ≡ some c
unfolding positions
get_elem?-rank [] [] h = refl
get_elem?-rank [] (p ∷ ps) h = elim h [ ]
get_elem?-rank (n ∷ ns) [] h = elim h [ ]
get_elem?-rank (n ∷ ns) (p ∷ ps) h =
    ap (λ m. get_elem? (from_position n 0 (positions ns)) (p * m + rank ns ps))
      (sym (length-positions ns))
    ∙ get_elem?-from_position n 0 p (positions ns) (rank ns ps) h.0 (get_elem?-rank ns ps h.1)
    ∙ ap (λ k. some (k ∷ ps)) (omega arith)

-- Past the front, an element of the whole is one of the rest.
get_elem?-append_cases {ℓ} :
    {A : Type ℓ} (xs ys : List A) (i : ℕ) {x : A}
    → get_elem? (xs ++ ys) i ≡ some x
    → (get_elem? xs i ≡ some x) ⊎ ((j : ℕ) × (i ≡ length xs + j) × (get_elem? ys j ≡ some x))
get_elem?-append_cases [] ys i h = inr (i, omega arith, h)
get_elem?-append_cases (x ∷ xs) ys zero h = inl h
get_elem?-append_cases (x ∷ xs) ys (suc i) h = elim (get_elem?-append_cases xs ys i h) [
  | inl e ↦ inl e
  | inr (j, e, found) ↦ inr (j, omega arith, found)
]

prefix_all-get :
    (i : ℕ) (rest : List (List ℕ)) (r : ℕ) {c : List ℕ}
    → get_elem? (prefix_all i rest) r ≡ some c
    → (q : List ℕ) × (c ≡ i ∷ q) × (get_elem? rest r ≡ some q)
unfolding prefix_all
prefix_all-get i [] r h = cc
prefix_all-get i (p ∷ ps) zero h = (p, cc, refl)
prefix_all-get i (p ∷ ps) (suc r) h = prefix_all-get i ps r h

-- What stands at place k among the combinations that begin with i, …, i + n - 1.
Split : ℕ → ℕ → List (List ℕ) → ℕ → List ℕ → Type 0
Split n i rest k c =
    (j : ℕ) × (r : ℕ) × (q : List ℕ) × (c ≡ (i + j) ∷ q)
    × (j < n)
    × (k ≡ j * length rest + r)
    × (get_elem? rest r ≡ some q)

from_position-get :
    (n i : ℕ) (rest : List (List ℕ)) (k : ℕ) {c : List ℕ}
    → get_elem? (from_position n i rest) k ≡ some c
    → Split n i rest k c
unfolding from_position Split
from_position-get zero i rest k h = cc
from_position-get (suc n) i rest k h =
    elim (get_elem?-append_cases (prefix_all i rest) (from_position n (suc i) rest) k h) [
      | inl e ↦
          let (q, same, found) = prefix_all-get i rest k e in
          (0, k, q, same ∙ ap (λ m. m ∷ q) (omega arith), omega arith, omega arith, found)
      | inr (j, e, found) ↦
          let (j', r, q, same, small, place, found') = from_position-get n (suc i) rest j found in
          (
            suc j',
            r,
            q,
            same ∙ ap (λ m. m ∷ q) (omega arith),
            omega arith,
            omega (arith, length-prefix_all i rest),
            found',
          )
    ]

-- Nothing else stands there.
pub positions-get :
    (ns : List ℕ) (k : ℕ) {c : List ℕ}
    → get_elem? (positions ns) k ≡ some c
    → IsCombination ns c × (k ≡ rank ns c)
unfolding positions Split
positions-get [] zero {c = []} h = (tt, refl)
positions-get [] zero {c = x ∷ c} h = cc
positions-get [] (suc k) h = cc
positions-get (n ∷ ns) k {c = c} h =
    let (j, r, q, same, small, place, found) = from_position-get n 0 (positions ns) k h in
    let (comb, at) = positions-get ns r found in
    rw same ((omega arith, comb), omega_rank j r q place at)
  where
    omega_rank :
        (j r : ℕ) (q : List ℕ)
        → k ≡ j * length (positions ns) + r
        → r ≡ rank ns q
        → k ≡ (0 + j) * product ns + rank ns q
    omega_rank j r q place at =
        place ∙ ap (λ m. j * m + r) (length-positions ns) ∙ omega (arith, at)
