-- ===== src/Cvsp/Ring.antt =====
-- Rings of nodes that are linked both ways: what the assignments of cvsp_alloc and cvsp_free
-- (src/cvspool.c) do to them.
use leitner.Common.{ℕ, ◌<◌, ◌≤◌, ◌≡◌, ◌≢◌, sym, ap, ◌∙◌, arith, List, [], ◌∷◌, ◌++◌, count}

-- `next` leads from `x` through `ys` to `h`, and `prev` the same way back.
abbrev pub Links : (ℕ → ℕ) → (ℕ → ℕ) → ℕ → List ℕ → ℕ → Type 0
Links n q x [] h = (n x ≡ h) × (q h ≡ x)
Links n q x (y ∷ ys) h = ((n x ≡ y) × (q y ≡ x)) × Links n q y ys h

abbrev pub last_of : ℕ → List ℕ → ℕ
last_of x [] = x
last_of x (y ∷ ys) = last_of y ys

pub Links-congr :
    (n q n' q' : ℕ → ℕ) (x : ℕ) (ys : List ℕ) (h : ℕ)
    → ((z : ℕ) → 0 < count z (x ∷ ys) → n' z ≡ n z)
    → ((z : ℕ) → 0 < count z (h ∷ ys) → q' z ≡ q z)
    → Links n q x ys h
    → Links n' q' x ys h
Links-congr n q n' q' x [] h f g (e, e') = (f x (ground arith) ∙ e, g h (ground arith) ∙ e')
Links-congr n q n' q' x (y ∷ ys) h f g ((e, e'), l) = (
  (f x (ground arith) ∙ e, g y (ground arith) ∙ e'),
  Links-congr n q n' q' y ys h (λ z i. f z (omega (arith, i))) (λ z i. g z (omega (arith, i))) l,
)

-- Segments joined at a node.
pub Links-join :
    (n q : ℕ → ℕ) (x : ℕ) (xs : List ℕ) (p : ℕ) (zs : List ℕ) (h : ℕ)
    → Links n q x xs p
    → Links n q p zs h
    → Links n q x (xs ++ (p ∷ zs)) h
Links-join n q x [] p zs h l r = (l, r)
Links-join n q x (a ∷ xs) p zs h (e, l) r = (e, Links-join n q a xs p zs h l r)

pub Links-cut :
    (n q : ℕ → ℕ) (x : ℕ) (xs : List ℕ) (p : ℕ) (zs : List ℕ) (h : ℕ)
    → Links n q x (xs ++ (p ∷ zs)) h
    → Links n q x xs p × Links n q p zs h
Links-cut n q x [] p zs h (l, r) = (l, r)
Links-cut n q x (a ∷ xs) p zs h (e, l) = let (l', r) = Links-cut n q a xs p zs h l in ((e, l'), r)

pub Links-last :
    (n q : ℕ → ℕ) (x : ℕ) (ys : List ℕ) (h : ℕ)
    → Links n q x ys h
    → (n (last_of x ys) ≡ h) × (q h ≡ last_of x ys)
Links-last n q x [] h l = l
Links-last n q x (y ∷ ys) h (e, l) = Links-last n q y ys h l

pub count-last : (x : ℕ) (ys : List ℕ) → 0 < count (last_of x ys) (x ∷ ys)
count-last x [] = ground arith
count-last x (y ∷ ys) = omega (arith, count-last y ys)

-- The end of a segment led to another node.
pub Links-end :
    (n q n' q' : ℕ → ℕ) (x : ℕ) (ys : List ℕ) (h h' : ℕ)
    → ((z : ℕ) → count z (x ∷ ys) ≤ 1)
    → ((z : ℕ) → z ≢ last_of x ys → 0 < count z (x ∷ ys) → n' z ≡ n z)
    → ((z : ℕ) → 0 < count z ys → q' z ≡ q z)
    → n' (last_of x ys) ≡ h'
    → q' h' ≡ last_of x ys
    → Links n q x ys h
    → Links n' q' x ys h'
Links-end n q n' q' x [] h h' one f g e e' l = (e, e')
Links-end n q n' q' x (y ∷ ys) h h' one f g e e' ((a, b), l) = (
  (f x apart (ground arith) ∙ a, g y (ground arith) ∙ b),
  Links-end n q n' q' y ys h h' (λ z. omega (arith, one z)) (λ z ne i. f z ne (omega (arith, i)))
      (λ z i. g z (omega (arith, i))) e e' l,
)
  where
    apart : x ≢ last_of y ys
    apart u = absurd (ground (arith, one x, u, count-last y ys))

-- The start of a segment replaced by another node.
pub Links-start :
    (n q n' q' : ℕ → ℕ) (x x' : ℕ) (ys : List ℕ) (h : ℕ)
    → n' x' ≡ n x
    → q' (n x) ≡ x'
    → ((z : ℕ) → 0 < count z ys → n' z ≡ n z)
    → ((z : ℕ) → z ≢ n x → 0 < count z (h ∷ ys) → q' z ≡ q z)
    → ((z : ℕ) → count z (h ∷ ys) ≤ 1)
    → Links n q x ys h
    → Links n' q' x' ys h
Links-start n q n' q' x x' [] h e e' f g one (a, b) = (e ∙ a, ap q' (sym a) ∙ e')
Links-start n q n' q' x x' (y ∷ ys) h e e' f g one ((a, b), l) = (
  (e ∙ a, ap q' (sym a) ∙ e'),
  Links-congr n q n' q' y ys h f
      (λ z i. g z (λ u. absurd (ground (arith, one y, u, a, i))) (omega (arith, i))) l,
)
