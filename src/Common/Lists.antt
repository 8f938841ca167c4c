-- ===== src/Common/Lists.antt =====
-- Lists measured and indexed by native numbers, under the library's names, and functions of the
-- numbers that are changed at one place.
use Prim.Native.Nat.{ℕ, zero, suc, ◌+◌, ◌<◌, ◌≤◌}
use mathlib.Core.Path.{◌≡◌, refl, ap}
use mathlib.Core.Logic.{◌≢◌}
use mathlib.Core.List.{List, [], ◌∷◌, ◌++◌}
use mathlib.Core.Bool.{Bool, true, false}
use mathlib.Core.Option.{Option, none, some}
use native.Mathlib.Omega.{arith}
use leitner.Common.Tests.{◌==◌, if◌then◌else◌}

module _ {ℓ} {A : Type ℓ} where
  abbrev pub length : List A → ℕ
  length [] = 0
  length (x ∷ xs) = suc (length xs)

  abbrev pub get_elem? : List A → ℕ → Option A
  get_elem? [] i = none
  get_elem? (x ∷ xs) zero = some x
  get_elem? (x ∷ xs) (suc i) = get_elem? xs i

  abbrev pub head? : List A → Option A
  head? [] = none
  head? (x ∷ xs) = some x

  abbrev pub take : ℕ → List A → List A
  take zero xs = []
  take (suc n) [] = []
  take (suc n) (x ∷ xs) = x ∷ take n xs

  abbrev pub drop : ℕ → List A → List A
  drop zero xs = xs
  drop (suc n) [] = []
  drop (suc n) (x ∷ xs) = drop n xs

  abbrev pub get_or : Option A → A → A
  get_or none d = d
  get_or (some x) d = x

  -- `f` with the value `v` at `k`.
  abbrev pub update : (ℕ → A) → ℕ → A → ℕ → A
  update f k v j = if k == j then v else f j

  pub length-append : (xs ys : List A) → length (xs ++ ys) ≡ length xs + length ys
  length-append [] ys = omega arith
  length-append (x ∷ xs) ys = omega (arith, length-append xs ys)

  pub update_self : (f : ℕ → A) (k : ℕ) (v : A) → update f k v k ≡ v
  update_self f k v = ground arith

  pub update_ne : (f : ℕ → A) (k : ℕ) (v : A) (j : ℕ) → k ≢ j → update f k v j ≡ f j
  update_ne f k v j h = ground arith

-- Occurrences of a number in a list.
abbrev pub count : ℕ → List ℕ → ℕ
count x [] = 0
count x (y ∷ ys) = (if y == x then 1 else 0) + count x ys

pub count-append : (x : ℕ) (xs ys : List ℕ) → count x (xs ++ ys) ≡ count x xs + count x ys
count-append x [] ys = omega arith
count-append x (y ∷ xs) ys = omega (arith, count-append x xs ys)

-- The sum of `f` below `n`.
abbrev pub sum_below : ℕ → (ℕ → ℕ) → ℕ
sum_below zero f = 0
sum_below (suc n) f = sum_below n f + f n

pub sum_below-congr :
    (n : ℕ) (f g : ℕ → ℕ) → ((j : ℕ) → j < n → f j ≡ g j) → sum_below n f ≡ sum_below n g
sum_below-congr zero f g h = refl
sum_below-congr (suc n) f g h =
    omega (arith, sum_below-congr n f g (λ j p. h j (omega arith)), h n (omega arith))

-- The sum changes by what the one changed value does.
pub sum_below_change :
    (n k : ℕ) (f g : ℕ → ℕ)
    → k < n
    → ((j : ℕ) → k ≢ j → f j ≡ g j)
    → sum_below n f + g k ≡ sum_below n g + f k
sum_below_change zero k f g h e = elim h [ ]
sum_below_change (suc n) k f g h e = elim (test (k == n) refl) [
  | yes same ↦ omega (
    arith,
    same,
    ap f same,
    ap g same,
    sum_below-congr n f g (λ j p. e j (λ q. absurd (omega arith))),
  )
  | no other ↦ omega (arith, sum_below_change n k f g (omega arith) e, e n other)
]
  where
    test : (b : Bool) → (k == n) ≡ b → Dec (k ≡ n)
    test true p = yes (ground arith)
    test false p = no (λ q. ground arith)

pub le-sum_below : (n k : ℕ) (f : ℕ → ℕ) → k < n → f k ≤ sum_below n f
le-sum_below zero k f h = elim h [ ]
le-sum_below (suc n) k f h = grind (arith, le-sum_below n k f)

pub le-sum_below_pair : (n k l : ℕ) (f : ℕ → ℕ) → k < n → l < n → k ≢ l → f k + f l ≤ sum_below n f
le-sum_below_pair zero k l f hk hl ne = elim hk [ ]
le-sum_below_pair (suc n) k l f hk hl ne =
    grind (arith, le-sum_below n k f, le-sum_below n l f, le-sum_below_pair n k l f)
