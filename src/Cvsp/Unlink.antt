-- ===== src/Cvsp/Unlink.antt =====
-- Taking a free node out of the ring, as cvsp_alloc and cvsp_free of src/cvspool.c do.
use mathlib.Core.Path.{subst}
use leitner.Common.{
  ℕ, ◌+◌, ◌<◌, ◌≤◌, ◌≡◌, ◌≢◌, ◌⊎◌, inl, inr, sym, ap, ◌∙◌, arith, List, [], ◌∷◌, ◌++◌, count,
  count-append,
}
use leitner.Cvsp.Nodes.{
  Mem, idx, next_off, prev_off, prev_blkidx, next_blkidx, next_fnode, prev_fnode, set_next,
}
use leitner.Cvsp.Alloc.{unlink}
use leitner.Cvsp.Fields.{
  Far, idx_lt, next-set_next_self, next-set_next_other, next-set_prev, prev-set_prev_self,
  prev-set_prev_other, prev-set_next,
}
use leitner.Cvsp.Ring.{Links, Links-cut, Links-last, last_of, count-last}
use leitner.Cvsp.Rings.{first-count, Links-unlink}
use leitner.Cvsp.Tiles.{
  Node, free_node, NodeAt, Tiled, Kept, NodeAt-link_self, NodeAt-link, Kept-trans, LinkOnly,
}
use leitner.Cvsp.Links.{Tiled-link, Kept-link, set_next-LinkOnly, set_prev-LinkOnly}
use leitner.Cvsp.Valid.{member-place, Valid, fs-Once, member-Linked, members-Far}

-- A link of the head or of a free node changed.
pub head-link :
    (m m' : Mem) (a : ℕ)
    → LinkOnly m m' a
    → (a ≡ 0) ⊎ (3 ≤ a)
    → NodeAt m 0 (free_node 3)
    → NodeAt m' 0 (free_node 3)
head-link m m' a l (inl u) h = NodeAt-link_self m m' 0 3 (subst (λ b. LinkOnly m m' b) u l) h
head-link m m' a l (inr u) h = NodeAt-link m m' a 0 (free_node 3) l (inr u) h

first-back : (n q : ℕ → ℕ) (x : ℕ) (ys : List ℕ) (h : ℕ) → Links n q x ys h → q (n x) ≡ x
first-back n q x [] h (e, e') = ap q e ∙ e'
first-back n q x (y ∷ ys) h ((e, e'), l) = ap q e ∙ e'

module _ {m : Mem} {n : ℕ} {ns : List Node} (xs : List ℕ) (p : ℕ) (zs : List ℕ)
    (v : Valid m n ns (xs ++ (p ∷ zs))) where
  cut : Links (next_fnode m) (prev_fnode m) 0 xs p × Links (next_fnode m) (prev_fnode m) p zs 0
  cut = Links-cut (next_fnode m) (prev_fnode m) 0 xs p zs 0 v.ring

  -- The neighbours are other members of the ring.
  pub prev-member : 0 < count (prev_fnode m p) (0 ∷ (xs ++ zs))
  prev-member =
      let (b, a) = Links-last (next_fnode m) (prev_fnode m) 0 xs p cut.0 in
      subst (λ k. 0 < count k (0 ∷ (xs ++ zs))) (sym a)
        (omega (arith, count-last 0 xs, count-append (last_of 0 xs) xs zs))

  pub next-member : 0 < count (next_fnode m p) (0 ∷ (xs ++ zs))
  next-member = omega (
    arith,
    first-count (next_fnode m) (prev_fnode m) p zs 0 cut.1,
    count-append (next_fnode m p) xs zs,
  )

  pub more : (z : ℕ) → 0 < count z (0 ∷ (xs ++ zs)) → 0 < count z (0 ∷ (xs ++ (p ∷ zs)))
  more z i = omega (arith, i, count-append z xs zs, count-append z xs (p ∷ zs))

  pub other : (z : ℕ) → 0 < count z (0 ∷ (xs ++ zs)) → z ≢ p
  other z i u =
      absurd (ground (arith, i, u, fs-Once v p, count-append z xs zs, count-append p xs (p ∷ zs)))

  pub self-member : 0 < count p (0 ∷ (xs ++ (p ∷ zs)))
  self-member = ground (arith, count-append p xs (p ∷ zs))

  pub next-prev : next_fnode m (prev_fnode m p) ≡ p
  next-prev =
      let (b, a) = Links-last (next_fnode m) (prev_fnode m) 0 xs p cut.0 in ap (next_fnode m) a ∙ b

  pub prev-next : prev_fnode m (next_fnode m p) ≡ p
  prev-next = first-back (next_fnode m) (prev_fnode m) p zs 0 cut.1

  abbrev pr : ℕ
  pr = prev_fnode m p

  abbrev nx : ℕ
  nx = next_fnode m p

  abbrev m1 : Mem
  m1 = set_next m pr (next_blkidx (idx m p)) (next_off m p)

  off_pr : (z : ℕ) → 0 < count z (0 ∷ (xs ++ (p ∷ zs))) → Far pr z
  off_pr z i = members-Far v pr z (more pr prev-member) i

  off_nx : (z : ℕ) → 0 < count z (0 ∷ (xs ++ (p ∷ zs))) → Far nx z
  off_nx z i = members-Far v nx z (more nx next-member) i

  same_prev : prev_fnode m1 p ≡ prev_fnode m p
  same_prev =
      prev-set_next m pr (next_blkidx (idx m p)) (next_off m p) p (omega arith)
        (off_pr p self-member)

  abbrev blk : ℕ
  blk = prev_blkidx (idx m1 p)

  blk_lt : blk < 16
  blk_lt = omega (arith, idx_lt m1 p)

  pub unlink-Links : Links (next_fnode (unlink m p)) (prev_fnode (unlink m p)) 0 (xs ++ zs) 0
  unfolding unlink next_fnode prev_fnode next_off prev_off
  unlink-Links =
      Links-unlink (next_fnode m) (prev_fnode m) (next_fnode (unlink m p)) (prev_fnode (unlink m p))
        xs p zs (fs-Once v)
        (λ z i ne.
          next-set_prev m1 nx blk (prev_off m1 p) z blk_lt (off_nx z (more z i))
          ∙ next-set_next_other m pr (next_blkidx (idx m p)) (next_off m p) z (off_pr z (more z i))
              ne)
        (λ z i ne.
          prev-set_prev_other m1 nx blk (prev_off m1 p) z (off_nx z (more z i)) ne
          ∙ prev-set_next m pr (next_blkidx (idx m p)) (next_off m p) z (omega arith)
              (off_pr z (more z i)))
        (next-set_prev m1 nx blk (prev_off m1 p) pr blk_lt (off_nx pr (more pr prev-member))
          ∙ next-set_next_self m pr (next_blkidx (idx m p)) (next_off m p) (omega arith)
              (omega arith))
        (prev-set_prev_self m1 nx blk (prev_off m1 p) blk_lt (omega arith) ∙ same_prev) v.ring

  pub unlink-head : NodeAt (unlink m p) 0 (free_node 3)
  unfolding unlink
  unlink-head =
      head-link m1 (unlink m p) nx (set_prev-LinkOnly m1 nx blk (prev_off m1 p))
        (member-place v nx (more nx next-member))
        (head-link m m1 pr (set_next-LinkOnly m pr (next_blkidx (idx m p)) (next_off m p))
          (member-place v pr (more pr prev-member)) v.head)

  tiled1 : Tiled m1 3 ns (n + 3)
  tiled1 =
      Tiled-link m m1 pr 3 ns (n + 3)
        (set_next-LinkOnly m pr (next_blkidx (idx m p)) (next_off m p))
        (member-Linked v pr (more pr prev-member)) v.tiled

  pub unlink-Tiled : Tiled (unlink m p) 3 ns (n + 3)
  unfolding unlink
  unlink-Tiled =
      Tiled-link m1 (unlink m p) nx 3 ns (n + 3) (set_prev-LinkOnly m1 nx blk (prev_off m1 p))
        (member-Linked v nx (more nx next-member)) tiled1

  pub unlink-Kept : Kept m (unlink m p) 3 ns
  unfolding unlink
  unlink-Kept =
      Kept-trans m m1 (unlink m p) 3 ns
        (Kept-link m m1 pr 3 ns (n + 3)
          (set_next-LinkOnly m pr (next_blkidx (idx m p)) (next_off m p))
          (member-Linked v pr (more pr prev-member)) v.tiled)
        (Kept-link m1 (unlink m p) nx 3 ns (n + 3) (set_prev-LinkOnly m1 nx blk (prev_off m1 p))
          (member-Linked v nx (more nx next-member)) tiled1)
