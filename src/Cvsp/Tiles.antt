-- ===== src/Cvsp/Tiles.antt =====
-- The nodes of a trunk one behind the other, as the header of src/cvspool.c draws them.
use leitner.Common.{ℕ, ◌+◌, ◌*◌, ◌%◌, ◌<◌, ◌≤◌, ◌≡◌, ◌≢◌, ◌⊎◌, ap, ◌∙◌, arith, List, [], ◌∷◌, count}
use leitner.Cvsp.Nodes.{Mem, half, pad, tail_len, tail_guard, free_guard0, free_guard1, busy_guard0}

pub data Node : Type 0 where
  free_node busy_node : ℕ → Node

abbrev pub size : Node → ℕ
size (free_node len) = len
size (busy_node len) = len

-- The slots of the nodes.
abbrev pub slots : List Node → ℕ
slots [] = 0
slots (t ∷ ts) = size t + slots ts

-- The slots of the busy nodes.
abbrev pub busy_slots : List Node → ℕ
busy_slots [] = 0
busy_slots (free_node len ∷ ts) = busy_slots ts
busy_slots (busy_node len ∷ ts) = len + busy_slots ts

abbrev pub free_starts : ℕ → List Node → List ℕ
free_starts s [] = []
free_starts s (free_node len ∷ ts) = s ∷ free_starts (s + len) ts
free_starts s (busy_node len ∷ ts) = free_starts (s + len) ts

-- The meta data of a node at the slot `s`.
abbrev pub NodeAt : Mem → ℕ → Node → Type 0
NodeAt m s (free_node len) =
    (3 ≤ len)
    × (pad m s ≡ free_guard0)
    × (half m (2 * s + 1) + 1 ≡ len)
    × (half m (tail_len s len) + 1 ≡ len)
    × (half m (tail_guard s len) ≡ free_guard1)
NodeAt m s (busy_node len) =
    (3 ≤ len) × (half m (2 * s) ≡ busy_guard0) × (half m (2 * s + 1) + 1 ≡ len)

abbrev pub Tiled : Mem → ℕ → List Node → ℕ → Type 0
Tiled m s [] e = s ≡ e
Tiled m s (t ∷ ts) e = NodeAt m s t × Tiled m (s + size t) ts e

-- Every busy node of the list keeps all its bytes.
abbrev pub Kept : Mem → Mem → ℕ → List Node → Type 0
Kept m m' s [] = Unit
Kept m m' s (free_node len ∷ ts) = Kept m m' (s + len) ts
Kept m m' s (busy_node len ∷ ts) =
    ((a : ℕ) → 2 * s ≤ a → a < 2 * (s + len) → half m' a ≡ half m a) × Kept m m' (s + len) ts

-- Only the links of the free node at `a` differ.
pub record LinkOnly (m m' : Mem) (a : ℕ) : Type 0 where
  pub others : (b : ℕ) → 2 * a ≢ b → 2 * a + 2 ≢ b → 2 * a + 3 ≢ b → half m' b ≡ half m b
  pub same_pad : pad m' a ≡ pad m a

pub NodeAt-congr :
    (m m' : Mem) (s : ℕ) (t : Node)
    → ((a : ℕ) → 2 * s ≤ a → a < 2 * (s + size t) → half m' a ≡ half m a)
    → NodeAt m s t
    → NodeAt m' s t
unfolding pad
NodeAt-congr m m' s (free_node len) f (pos, g, l, tl, tg) = (
  pos,
  ap (λ h. h % 256) (f (2 * s) (omega arith) (omega (arith, pos))) ∙ g,
  ap (λ h. h + 1) (f (2 * s + 1) (omega arith) (omega (arith, pos))) ∙ l,
  ap (λ h. h + 1) (f (tail_len s len) (omega (arith, pos)) (omega (arith, pos))) ∙ tl,
  f (tail_guard s len) (omega (arith, pos)) (omega (arith, pos)) ∙ tg,
)
NodeAt-congr m m' s (busy_node len) f (pos, g, l) = (
  pos,
  f (2 * s) (omega arith) (omega (arith, pos)) ∙ g,
  ap (λ h. h + 1) (f (2 * s + 1) (omega arith) (omega (arith, pos))) ∙ l,
)

pub Tiled-congr :
    (m m' : Mem) (s : ℕ) (ts : List Node) (e : ℕ)
    → ((a : ℕ) → 2 * s ≤ a → a < 2 * (s + slots ts) → half m' a ≡ half m a)
    → Tiled m s ts e
    → Tiled m' s ts e
Tiled-congr m m' s [] e f h = h
Tiled-congr m m' s (t ∷ ts) e f (h, hs) = (
  NodeAt-congr m m' s t (λ a ge lt. f a ge (omega (arith, lt))) h,
  Tiled-congr m m' (s + size t) ts e (λ a ge lt. f a (omega (arith, ge)) (omega (arith, lt))) hs,
)

pub Kept-congr :
    (m m' : Mem) (s : ℕ) (ts : List Node)
    → ((a : ℕ) → 2 * s ≤ a → a < 2 * (s + slots ts) → half m' a ≡ half m a)
    → Kept m m' s ts
Kept-congr m m' s [] f = tt
Kept-congr m m' s (free_node len ∷ ts) f =
    Kept-congr m m' (s + len) ts (λ a ge lt. f a (omega (arith, ge)) (omega (arith, lt)))
Kept-congr m m' s (busy_node len ∷ ts) f = (
  λ a ge lt. f a ge (omega (arith, lt)),
  Kept-congr m m' (s + len) ts (λ a ge lt. f a (omega (arith, ge)) (omega (arith, lt))),
)

pub Kept-trans :
    (m m' m'' : Mem) (s : ℕ) (ts : List Node) → Kept m m' s ts → Kept m' m'' s ts → Kept m m'' s ts
Kept-trans m m' m'' s [] h h' = tt
Kept-trans m m' m'' s (free_node len ∷ ts) h h' = Kept-trans m m' m'' (s + len) ts h h'
Kept-trans m m' m'' s (busy_node len ∷ ts) (k, h) (k', h') =
    ((λ a ge lt. k' a ge lt ∙ k a ge lt), Kept-trans m m' m'' (s + len) ts h h')

pub free_starts-ge :
    (m : Mem) (a s : ℕ) (ts : List Node) (e : ℕ)
    → Tiled m s ts e
    → 0 < count a (free_starts s ts)
    → s ≤ a
free_starts-ge m a s [] e h i = absurd (omega (arith, i))
free_starts-ge m a s (free_node len ∷ ts) e (k, h) i =
    ground (arith, i, free_starts-ge m a (s + len) ts e h)
free_starts-ge m a s (busy_node len ∷ ts) e (k, h) i =
    omega (arith, free_starts-ge m a (s + len) ts e h i)

pub NodeAt-link :
    (m m' : Mem) (a s : ℕ) (t : Node)
    → LinkOnly m m' a
    → ((a + 3 ≤ s) ⊎ (s + size t ≤ a))
    → NodeAt m s t
    → NodeAt m' s t
NodeAt-link m m' a s t l far h =
    NodeAt-congr m m' s t
      (λ b ge lt.
        l.others b (λ u. omega (arith, u, ge, lt, far)) (λ u. omega (arith, u, ge, lt, far))
          (λ u. omega (arith, u, ge, lt, far)))
      h

pub NodeAt-link_self :
    (m m' : Mem) (s len : ℕ)
    → LinkOnly m m' s
    → NodeAt m s (free_node len)
    → NodeAt m' s (free_node len)
NodeAt-link_self m m' s len l (pos, g, h, tl, tg) = (
  pos,
  l.same_pad ∙ g,
  ap (λ k. k + 1)
        (l.others (2 * s + 1) (λ u. omega (arith, u)) (λ u. omega (arith, u))
          (λ u. omega (arith, u)))
      ∙ h,
  ap (λ k. k + 1)
        (l.others (tail_len s len) (λ u. omega (arith, u, pos)) (λ u. omega (arith, u, pos))
          (λ u. omega (arith, u, pos)))
      ∙ tl,
  l.others (tail_guard s len) (λ u. omega (arith, u, pos)) (λ u. omega (arith, u, pos))
        (λ u. omega (arith, u, pos))
      ∙ tg,
)
