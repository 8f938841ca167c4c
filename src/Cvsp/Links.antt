-- ===== src/Cvsp/Links.antt =====
-- Changes of the links of one free node leave the nodes and the contents of busy nodes.
use mathlib.Core.Path.{subst}
use leitner.Common.{
  ℕ, ◌+◌, ◌<◌, ◌≤◌, ◌≡◌, ◌⊎◌, inl, inr, refl, sym, ap, ◌∙◌, arith, List, [], ◌∷◌, ◌++◌, count, ◌==◌,
  Bool-cases,
}
use leitner.Cvsp.Nodes.{Mem, set_next, set_prev}
use leitner.Cvsp.Fields.{set_next-half, set_prev-half, set_next-pad, set_prev-pad, Far}
use leitner.Cvsp.Tiles.{
  Node, free_node, busy_node, size, slots, free_starts, NodeAt, Tiled, Kept, LinkOnly, NodeAt-link,
  NodeAt-link_self, free_starts-ge,
}

-- Before the nodes, or a free one of them.
abbrev pub Linked : ℕ → ℕ → List Node → Type 0
Linked a s ts = (a + 3 ≤ s) ⊎ (0 < count a (free_starts s ts))

-- The node at `s` itself, one before, or one behind.
place :
    (m : Mem) (a s len : ℕ) (ts : List Node) (e : ℕ)
    → 3 ≤ len
    → Tiled m (s + len) ts e
    → Linked a s (free_node len ∷ ts)
    → (a ≡ s) ⊎ (((a + 3 ≤ s) ⊎ (s + len ≤ a)) × Linked a (s + len) ts)
place m a s len ts e pos h (inl b) = inr (inl b, inl (omega (arith, b)))
place m a s len ts e pos h (inr i) = elim (Bool-cases (s == a)) [
  | inl u ↦ inl (ground (arith, u))
  | inr u ↦
      let j : 0 < count a (free_starts (s + len) ts) = ground (arith, u, i) in
      inr (inr (free_starts-ge m a (s + len) ts e h j), inr j)
]

place_busy :
    (m : Mem) (a s len : ℕ) (ts : List Node) (e : ℕ)
    → Tiled m (s + len) ts e
    → Linked a s (busy_node len ∷ ts)
    → ((a + 3 ≤ s) ⊎ (s + len ≤ a)) × Linked a (s + len) ts
place_busy m a s len ts e h (inl b) = (inl b, inl (omega (arith, b)))
place_busy m a s len ts e h (inr i) = (inr (free_starts-ge m a (s + len) ts e h i), inr i)

pub Tiled-link :
    (m m' : Mem) (a s : ℕ) (ts : List Node) (e : ℕ)
    → LinkOnly m m' a
    → Linked a s ts
    → Tiled m s ts e
    → Tiled m' s ts e
Tiled-link m m' a s [] e l at h = h
Tiled-link m m' a s (free_node len ∷ ts) e l at (k, h) = elim (place m a s len ts e k.0 h at) [
  | inl u ↦ (
    subst (λ b. NodeAt m' b (free_node len)) u
        (NodeAt-link_self m m' a len l (subst (λ b. NodeAt m b (free_node len)) (sym u) k)),
    Tiled-link m m' a (s + len) ts e l (inl (omega (arith, u, k.0))) h,
  )
  | inr (far, at') ↦
      (NodeAt-link m m' a s (free_node len) l far k, Tiled-link m m' a (s + len) ts e l at' h)
]
Tiled-link m m' a s (busy_node len ∷ ts) e l at (k, h) =
    let (far, at') = place_busy m a s len ts e h at in
    (NodeAt-link m m' a s (busy_node len) l far k, Tiled-link m m' a (s + len) ts e l at' h)

pub Kept-link :
    (m m' : Mem) (a s : ℕ) (ts : List Node) (e : ℕ)
    → LinkOnly m m' a
    → Linked a s ts
    → Tiled m s ts e
    → Kept m m' s ts
Kept-link m m' a s [] e l at h = tt
Kept-link m m' a s (free_node len ∷ ts) e l at (k, h) = elim (place m a s len ts e k.0 h at) [
  | inl u ↦ Kept-link m m' a (s + len) ts e l (inl (omega (arith, u, k.0))) h
  | inr (far, at') ↦ Kept-link m m' a (s + len) ts e l at' h
]
Kept-link m m' a s (busy_node len ∷ ts) e l at (k, h) =
    let (far, at') = place_busy m a s len ts e h at in
    (
      λ b ge lt.
          l.others b (λ u. omega (arith, u, ge, lt, far)) (λ u. omega (arith, u, ge, lt, far))
            (λ u. omega (arith, u, ge, lt, far)),
      Kept-link m m' a (s + len) ts e l at' h,
    )

pub set_next-LinkOnly : (m : Mem) (a blk off : ℕ) → LinkOnly m (set_next m a blk off) a
set_next-LinkOnly m a blk off = record {
  others = λ b x y z. set_next-half m a blk off b x z;
  same_pad = set_next-pad m a blk off;
}

pub set_prev-LinkOnly : (m : Mem) (a blk off : ℕ) → LinkOnly m (set_prev m a blk off) a
set_prev-LinkOnly m a blk off = record {
  others = λ b x y z. set_prev-half m a blk off b x y;
  same_pad = set_prev-pad m a blk off;
}

-- Two free nodes of one trunk, or the head: the same or apart.
pub starts-Far :
    (m : Mem) (a b s : ℕ) (ts : List Node) (e : ℕ)
    → Tiled m s ts e
    → Linked a s ts
    → 0 < count b (free_starts s ts)
    → Far a b
starts-Far m a b s [] e h at i = absurd (omega (arith, i))
starts-Far m a b s (free_node len ∷ ts) e (k, h) at i = elim (Bool-cases (s == b)) [
  | inl u ↦ elim (place m a s len ts e k.0 h at) [
    | inl v ↦ inl (ground (arith, u, v))
    | inr (inl far, at') ↦ inr (inl (ground (arith, u, far)))
    | inr (inr far, at') ↦ inr (inr (ground (arith, u, far, k.0)))
  ]
  | inr u ↦
      let j : 0 < count b (free_starts (s + len) ts) = ground (arith, u, i) in
      elim (place m a s len ts e k.0 h at) [
        | inl v ↦ inr (inl (omega (arith, v, k.0, free_starts-ge m b (s + len) ts e h j)))
        | inr (far, at') ↦ starts-Far m a b (s + len) ts e h at' j
      ]
]
starts-Far m a b s (busy_node len ∷ ts) e (k, h) at i =
    starts-Far m a b (s + len) ts e h (place_busy m a s len ts e h at).1 i

pub free_starts-Once :
    (m : Mem) (s : ℕ) (ts : List Node) (e : ℕ)
    → Tiled m s ts e
    → (z : ℕ) → count z (free_starts s ts) ≤ 1
free_starts-Once m s [] e h z = omega arith
free_starts-Once m s (busy_node len ∷ ts) e (k, h) z = free_starts-Once m (s + len) ts e h z
free_starts-Once m s (free_node len ∷ ts) e (k, h) z =
    ground (arith, k.0, free_starts-Once m (s + len) ts e h z, free_starts-ge m z (s + len) ts e h)

pub Tiled-cut :
    (m : Mem) (s : ℕ) (xs zs : List Node) (e : ℕ)
    → Tiled m s (xs ++ zs) e
    → Tiled m s xs (s + slots xs) × Tiled m (s + slots xs) zs e
Tiled-cut m s [] zs e h = (omega arith, subst (λ k. Tiled m k zs e) (omega arith) h)
Tiled-cut m s (x ∷ xs) zs e (k, h) =
    let (l, r) = Tiled-cut m (s + size x) xs zs e h in
    (
      (k, subst (λ k. Tiled m (s + size x) xs k) (omega arith) l),
      subst (λ k. Tiled m k zs e) (omega arith) r,
    )

pub Tiled-join :
    (m : Mem) (s : ℕ) (xs zs : List Node) (e : ℕ)
    → Tiled m s xs (s + slots xs)
    → Tiled m (s + slots xs) zs e
    → Tiled m s (xs ++ zs) e
Tiled-join m s [] zs e l r = subst (λ k. Tiled m k zs e) (omega arith) r
Tiled-join m s (x ∷ xs) zs e (k, l) r = (
  k,
  Tiled-join m (s + size x) xs zs e (subst (λ k. Tiled m (s + size x) xs k) (omega arith) l)
      (subst (λ k. Tiled m k zs e) (omega arith) r),
)

pub Kept-join :
    (m m' : Mem) (s : ℕ) (xs zs : List Node)
    → Kept m m' s xs
    → Kept m m' (s + slots xs) zs
    → Kept m m' s (xs ++ zs)
Kept-join m m' s [] zs l r = subst (λ k. Kept m m' k zs) (omega arith) r
Kept-join m m' s (free_node len ∷ xs) zs l r =
    Kept-join m m' (s + len) xs zs l (subst (λ k. Kept m m' k zs) (omega arith) r)
Kept-join m m' s (busy_node len ∷ xs) zs (k, l) r =
    (k, Kept-join m m' (s + len) xs zs l (subst (λ k. Kept m m' k zs) (omega arith) r))

pub Kept-cut :
    (m m' : Mem) (s : ℕ) (xs zs : List Node)
    → Kept m m' s (xs ++ zs)
    → Kept m m' s xs × Kept m m' (s + slots xs) zs
Kept-cut m m' s [] zs h = (tt, subst (λ k. Kept m m' k zs) (omega arith) h)
Kept-cut m m' s (free_node len ∷ xs) zs h =
    let (l, r) = Kept-cut m m' (s + len) xs zs h in (l, subst (λ k. Kept m m' k zs) (omega arith) r)
Kept-cut m m' s (busy_node len ∷ xs) zs (k, h) =
    let (l, r) = Kept-cut m m' (s + len) xs zs h in
    ((k, l), subst (λ k. Kept m m' k zs) (omega arith) r)

pub free_starts-append :
    (s : ℕ) (xs zs : List Node)
    → free_starts s (xs ++ zs) ≡ free_starts s xs ++ free_starts (s + slots xs) zs
free_starts-append s [] zs = ap (λ k. free_starts k zs) (omega arith)
free_starts-append s (free_node len ∷ xs) zs =
    ap (λ ys. s ∷ ys)
      (free_starts-append (s + len) xs zs
        ∙ ap (λ k. free_starts (s + len) xs ++ free_starts k zs) (omega arith))
free_starts-append s (busy_node len ∷ xs) zs =
    free_starts-append (s + len) xs zs
    ∙ ap (λ k. free_starts (s + len) xs ++ free_starts k zs) (omega arith)

-- The free node that begins at a slot of the list.
pub record Found (p s : ℕ) (ts : List Node) : Type 0 where
  pub before : List Node
  pub len : ℕ
  pub behind : List Node
  pub is : ts ≡ before ++ (free_node len ∷ behind)
  pub at_slot : p ≡ s + slots before

pub find_start : (p s : ℕ) (ts : List Node) → 0 < count p (free_starts s ts) → Found p s ts
find_start p s [] i = absurd (omega (arith, i))
find_start p s (free_node len ∷ ts) i = elim (Bool-cases (s == p)) [
  | inl u ↦ record { before = []; len = len; behind = ts; is = refl; at_slot = ground (arith, u) }
  | inr u ↦
      let f = find_start p (s + len) ts (ground (arith, u, i)) in
      record {
        before = free_node len ∷ f.before;
        len = f.len;
        behind = f.behind;
        is = ap (λ ys. free_node len ∷ ys) f.is;
        at_slot = omega (arith, f.at_slot);
      }
]
find_start p s (busy_node len ∷ ts) i =
    let f = find_start p (s + len) ts i in
    record {
      before = busy_node len ∷ f.before;
      len = f.len;
      behind = f.behind;
      is = ap (λ ys. busy_node len ∷ ys) f.is;
      at_slot = omega (arith, f.at_slot);
    }
