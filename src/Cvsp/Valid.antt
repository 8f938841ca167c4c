-- ===== src/Cvsp/Valid.antt =====
-- The invariant of a trunk's memory: its nodes, and the ring of the free ones in its order.
use mathlib.Core.Path.{subst}
use leitner.Common.{
  ℕ, ◌+◌, ◌*◌, ◌^◌, ◌<◌, ◌≤◌, ◌≡◌, ◌≢◌, ◌⊎◌, inl, inr, sym, ap, ◌∙◌, arith, List, [], ◌∷◌, ◌++◌,
  count, count-append, length, ◌==◌, Bool-cases,
}
use leitner.Cvsp.Nodes.{Mem, half, next_fnode, prev_fnode}
use leitner.Cvsp.Fields.{Far}
use leitner.Cvsp.Ring.{Links}
use leitner.Cvsp.Rings.{Once}
use leitner.Cvsp.Tiles.{
  Node, free_node, busy_node, size, slots, free_starts, NodeAt, Tiled, Kept, Tiled-congr,
  Kept-congr, free_starts-ge,
}
use leitner.Cvsp.Links.{
  Linked, starts-Far, free_starts-Once, Tiled-cut, Tiled-join, Kept-join, free_starts-append,
}

-- The memory of a trunk of one block with `n` slots: behind the head the nodes `ns`, and from the head
-- through the free ones among them, in the order `fs`, a ring.
pub record Valid (m : Mem) (n : ℕ) (ns : List Node) (fs : List ℕ) : Type 0 where
  pub head : NodeAt m 0 (free_node 3)
  pub tiled : Tiled m 3 ns (n + 3)
  pub ring : Links (next_fnode m) (prev_fnode m) 0 fs 0
  pub same : (z : ℕ) → count z fs ≡ count z (free_starts 3 ns)
  pub long : length fs ≡ length (free_starts 3 ns)
  pub small : n + 3 ≤ 2 ^ 16

pub slots-Tiled : (m : Mem) (s : ℕ) (ts : List Node) (e : ℕ) → Tiled m s ts e → s + slots ts ≡ e
slots-Tiled m s [] e h = omega (arith, h)
slots-Tiled m s (t ∷ ts) e (k, h) = omega (arith, slots-Tiled m (s + size t) ts e h)

-- A free node lies before the end of the nodes.
pub free_starts-le :
    (m : Mem) (z s : ℕ) (ts : List Node) (e : ℕ)
    → Tiled m s ts e
    → 0 < count z (free_starts s ts)
    → z + 3 ≤ e
free_starts-le m z s [] e h i = absurd (omega (arith, i))
free_starts-le m z s (free_node len ∷ ts) e (k, h) i =
    ground (arith, i, k.0, slots-Tiled m (s + len) ts e h, free_starts-le m z (s + len) ts e h)
free_starts-le m z s (busy_node len ∷ ts) e (k, h) i = free_starts-le m z (s + len) ts e h i

module _ {m : Mem} {n : ℕ} {ns : List Node} {fs : List ℕ} (v : Valid m n ns fs) where
  pub fs-Once : Once (0 ∷ fs)
  fs-Once z = ground (
    arith,
    v.same z,
    free_starts-Once m 3 ns (n + 3) v.tiled z,
    free_starts-ge m z 3 ns (n + 3) v.tiled,
  )

  pub member-Linked : (z : ℕ) → 0 < count z (0 ∷ fs) → Linked z 3 ns
  member-Linked z i = elim (Bool-cases (0 == z)) [
    | inl u ↦ inl (ground (arith, u))
    | inr u ↦ inr (ground (arith, u, i, v.same z))
  ]

  pub members-Far : (a b : ℕ) → 0 < count a (0 ∷ fs) → 0 < count b (0 ∷ fs) → Far a b
  members-Far a b i j = elim (Bool-cases (0 == b)) [
    | inl u ↦ elim (Bool-cases (0 == a)) [
      | inl w ↦ inl (ground (arith, u, w))
      | inr w ↦
          inr (inr (ground (arith, u, w, i, v.same a, free_starts-ge m a 3 ns (n + 3) v.tiled)))
    ]
    | inr u ↦
        starts-Far m a b 3 ns (n + 3) v.tiled (member-Linked a i) (ground (arith, u, j, v.same b))
  ]

  -- A node of the ring is the head or lies behind it.
  pub member-place : (z : ℕ) → 0 < count z (0 ∷ fs) → (z ≡ 0) ⊎ (3 ≤ z)
  member-place z i = elim (members-Far 0 z (ground arith) i) [
    | inl u ↦ inl u
    | inr (inl u) ↦ inr (omega (arith, u))
    | inr (inr u) ↦ absurd (omega (arith, u))
  ]

-- The head and the starts of free nodes.
pub Linked-count :
    (z : ℕ) (gs : List ℕ) (ns : List Node)
    → 0 < count z (0 ∷ gs)
    → count z gs ≤ count z (free_starts 3 ns)
    → Linked z 3 ns
Linked-count z gs ns i le = elim (Bool-cases (0 == z)) [
  | inl u ↦ inl (ground (arith, u))
  | inr u ↦ inr (ground (arith, u, i, le))
]

-- A node outside the slots from `p` up to `e` is far from one that lies inside.
pub outside-Far : (z p s e : ℕ) → (z + 3 ≤ p) ⊎ (e ≤ z) → p ≤ s → s + 3 ≤ e → Far z s × (s ≢ z)
outside-Far z p s e (inl u) ge le = (inr (inl (omega (arith, u, ge))), λ w. omega (arith, u, ge, w))
outside-Far z p s e (inr u) ge le = (inr (inr (omega (arith, u, le))), λ w. omega (arith, u, le, w))

-- Halfwords outside the slots from `lo` up to `hi` are the same.
abbrev pub Outside : Mem → Mem → ℕ → ℕ → Type 0
Outside m m' lo hi = (a : ℕ) → (a < 2 * lo) ⊎ (2 * hi ≤ a) → half m' a ≡ half m a

module _ (m m' : Mem) (p : ℕ) (before mid mid' behind : List Node) (e : ℕ)
    (h : Tiled m 3 (before ++ (mid ++ behind)) e) (at : p ≡ 3 + slots before)
    (same_slots : slots mid' ≡ slots mid) (out : Outside m m' p (p + slots mid)) where
  parts : Tiled m 3 before (3 + slots before) × Tiled m (3 + slots before) (mid ++ behind) e
  parts = Tiled-cut m 3 before (mid ++ behind) e h

  parts' :
      Tiled m (3 + slots before) mid (3 + slots before + slots mid)
      × Tiled m (3 + slots before + slots mid) behind e
  parts' = Tiled-cut m (3 + slots before) mid behind e parts.1

  -- Other nodes in the place of some.
  pub Tiled-change : Tiled m' p mid' (p + slots mid) → Tiled m' 3 (before ++ (mid' ++ behind)) e
  Tiled-change h' =
      Tiled-join m' 3 before (mid' ++ behind) e
        (Tiled-congr m m' 3 before (3 + slots before)
          (λ a ge lt. out a (inl (omega (arith, lt, at)))) parts.0)
        (Tiled-join m' (3 + slots before) mid' behind e
          (subst (λ k. Tiled m' (3 + slots before) mid' (3 + slots before + k)) (sym same_slots)
            (subst (λ k. Tiled m' k mid' (k + slots mid)) at h'))
          (subst (λ k. Tiled m' (3 + slots before + k) behind e) (sym same_slots)
            (Tiled-congr m m' (3 + slots before + slots mid) behind e
              (λ a ge lt. out a (inr (omega (arith, ge, at)))) parts'.1)))

  pub Kept-change : Kept m m' p mid → Kept m m' 3 (before ++ (mid ++ behind))
  Kept-change k =
      Kept-join m m' 3 before (mid ++ behind)
        (Kept-congr m m' 3 before (λ a ge lt. out a (inl (omega (arith, lt, at)))))
        (Kept-join m m' (3 + slots before) mid behind (subst (λ k. Kept m m' k mid) at k) (
          Kept-congr m m' (3 + slots before + slots mid) behind
            (λ a ge lt. out a (inr (omega (arith, ge, at))))))

-- A node of the ring other than one of its nodes lies outside that one.
pub outside_node :
    (m : Mem) (z p : ℕ) (before : List Node) (len : ℕ) (behind : List Node) (e : ℕ)
    → Tiled m 3 (before ++ (free_node len ∷ behind)) e
    → p ≡ 3 + slots before
    → z ≢ p
    → 0 < count z (0 ∷ free_starts 3 (before ++ (free_node len ∷ behind)))
    → (z + 3 ≤ p) ⊎ (p + len ≤ z)
outside_node m z p before len behind e h at ne i =
    let (l, (k, r)) = Tiled-cut m 3 before (free_node len ∷ behind) e h in
    let c : count z (free_starts 3 (before ++ (free_node len ∷ behind)))
        ≡ count z (free_starts 3 before)
          + count z (free_starts (3 + slots before) (free_node len ∷ behind)) =
      ap (count z) (free_starts-append 3 before (free_node len ∷ behind))
      ∙ count-append z (free_starts 3 before)
          (free_starts (3 + slots before) (free_node len ∷ behind)) in
    ground (
      arith,
      i,
      ne,
      at,
      c,
      free_starts-le m z 3 before (3 + slots before) l,
      free_starts-ge m z (3 + slots before + len) behind e r,
    )
