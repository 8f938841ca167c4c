-- ===== src/Boxes/Chain.antt =====
-- The chain of `next_inode_linenr` in the meta file, followed from a first line number.
use leitner.Common.{ℕ, zero, suc, ◌≤◌, ◌<◌, ◌≡◌, ◌≢◌, refl, ap, sym, ◌∙◌, arith}
use leitner.Common.{List, [], ◌∷◌, ◌++◌, length, count, get_or}
use leitner.Boxes.Move.{last?}

abbrev pub walk : (ℕ → ℕ) → ℕ → ℕ → List ℕ
walk next first zero = []
walk next first (suc n) = first ∷ walk next (next first) n

abbrev pub last_or : List ℕ → ℕ → ℕ
last_or xs d = get_or (last? xs) d

pub walk_at :
    (next : ℕ → ℕ) {f g : ℕ} {xs ys : List ℕ}
    → f ≡ g
    → xs ≡ ys
    → walk next g (length ys) ≡ ys
    → walk next f (length xs) ≡ xs
walk_at next p q h = rw (p, q) h

pub walk-congr :
    (next next' : ℕ → ℕ) (first : ℕ) (xs : List ℕ)
    → ((x : ℕ) → 0 < count x xs → next' x ≡ next x)
    → walk next first (length xs) ≡ xs
    → walk next' first (length xs) ≡ xs
walk-congr next next' first [] same h = refl
walk-congr next next' first (x ∷ xs) same h =
    let e : first ≡ x = cc h in
    let tl : walk next (next first) (length xs) ≡ xs = cc h in
    let s : next' first ≡ next first = same first (ground arith) in
    let ih = walk-congr next next' (next first) xs (λ y p. same y (ground arith)) tl in
    rw (s, ih) (rw e)

pub count_last : (x : ℕ) (xs : List ℕ) (d : ℕ) → 0 < count (last_or (x ∷ xs) d) (x ∷ xs)
count_last x [] d = ground arith
count_last x (y ∷ ys) d = omega (arith, count_last y ys d)

pub walk_extend :
    (next next' : ℕ → ℕ) (p d first x : ℕ) (xs : List ℕ)
    → ((y : ℕ) → count y (x ∷ xs) ≤ 1)
    → ((y : ℕ) → 0 < count y (x ∷ xs) → y ≢ last_or (x ∷ xs) d → next' y ≡ next y)
    → next' (last_or (x ∷ xs) d) ≡ p
    → walk next first (length (x ∷ xs)) ≡ x ∷ xs
    → walk next' first (suc (length (x ∷ xs))) ≡ (x ∷ xs) ++ (p ∷ [])
walk_extend next next' p d first x [] once same link h = let e : first ≡ x = cc h in rw (e, link)
walk_extend next next' p d first x (y ∷ ys) once same link h =
    let e : first ≡ x = cc h in
    let tl : walk next (next first) (length (y ∷ ys)) ≡ y ∷ ys = cc h in
    let apart : x ≢ last_or (y ∷ ys) d =
      λ q. absurd (ground (arith, count_last y ys d, once x, ap (λ t. count t (y ∷ ys)) q)) in
    let s : next' first ≡ next first = same first (ground arith) (λ q. apart (sym e ∙ q)) in
    let ih =
      walk_extend next next' p d (next first) y ys (λ z. omega (arith, once z))
        (λ z q. same z (omega arith)) link tl in
    rw (s, ih) (rw e)
