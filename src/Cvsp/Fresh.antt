-- ===== src/Cvsp/Fresh.antt =====
-- A trunk of one block as cvsp_init_trunk of src/cvspool.c leaves it.
use leitner.Common.{ℕ, ◌+◌, ◌-◌, ◌*◌, ◌^◌, ◌<◌, ◌≤◌, ◌≡◌, inl, inr, refl, ◌∙◌, arith, [], ◌∷◌, some}
use leitner.Boxes.Load.{min_unsigned}
use leitner.Cvsp.Nodes.{
  Mem, half, pad, idx, set_idx, next_off, prev_off, next_fnode, prev_fnode, set_next, set_prev,
  written_len, ◌>>=◌,
}
use leitner.Cvsp.Trunk.{
  CvspoolTrunk, head_fields, first_fields, blocks_loop, close_ring, init_mem, cvsp_init_trunk,
}
use leitner.Cvsp.Fields.{
  next-set_next_self, next-set_next_other, next-set_prev, prev-set_prev_self, prev-set_prev_other,
  prev-set_next, next-congr,
}
use leitner.Cvsp.Tiles.{free_node, NodeAt, Tiled, NodeAt-congr}
use leitner.Cvsp.Links.{Tiled-link, set_next-LinkOnly, set_prev-LinkOnly}
use leitner.Cvsp.Lengths.{written_len-half, written_len-next, written_len-prev, written_len-NodeAt}
use leitner.Cvsp.Valid.{Valid}
use leitner.Cvsp.Unlink.{head-link}
use leitner.Cvsp.Split.{Valid-congr}
use leitner.Cvsp.Give.{ValidTrunk, set_fnode_len-some}

closed-half :
    (r : Mem) (a : ℕ)
    → next_fnode r 3 ≡ 3
    → half (close_ring r 3) a ≡ half (set_next (set_prev r 0 0 3) 3 0 0) a
unfolding close_ring set_next set_prev set_idx idx pad next_off next_fnode
closed-half r a e = ground (arith, e)

module _ (m : Mem) (n : ℕ) (pos : 3 ≤ n) (small : n + 3 ≤ 2 ^ 16) where
  abbrev m1 : Mem
  m1 = written_len (head_fields m) 0 3

  abbrev m2 : Mem
  m2 = written_len (first_fields m1) 3 n

  low : (a : ℕ) → a < 6 → half m2 a ≡ half m1 a
  unfolding set_idx
  low a lt =
      written_len-half (first_fields m1) 3 n pos a (λ u. omega (arith, u, lt))
        (λ u. omega (arith, u, lt)) (λ u. omega (arith, u, lt, pos))
        (λ u. omega (arith, u, lt, pos))
      ∙ ground (arith, lt)

  head_at : NodeAt m2 0 (free_node 3)
  head_at =
      NodeAt-congr m1 m2 0 (free_node 3) (λ a ge lt. low a lt)
        (written_len-NodeAt (head_fields m) 0 3 (omega arith) (omega arith))

  first_at : NodeAt m2 3 (free_node n)
  first_at = written_len-NodeAt (first_fields m1) 3 n pos (omega (arith, small))

  head_next : next_fnode m2 0 ≡ 3
  unfolding next_fnode next_off idx set_idx pad
  head_next =
      next-congr m1 m2 0 (low 0 (omega arith)) (low 3 (omega arith))
      ∙ (written_len-next (head_fields m) 0 3 (omega arith) ∙ ground arith)

  first_prev : prev_fnode m2 3 ≡ 0
  unfolding prev_fnode prev_off idx set_idx pad
  first_prev = written_len-prev (first_fields m1) 3 n pos ∙ ground arith

  first_next : next_fnode m2 3 ≡ 3
  unfolding next_fnode next_off idx set_idx pad
  first_next = written_len-next (first_fields m1) 3 n pos ∙ ground arith

  abbrev m3 : Mem
  m3 = set_prev m2 0 0 3

  abbrev m4 : Mem
  m4 = set_next m3 3 0 0

  tiled : Tiled m4 3 (free_node n ∷ []) (n + 3)
  tiled =
      Tiled-link m3 m4 3 3 (free_node n ∷ []) (n + 3) (set_next-LinkOnly m3 3 0 0)
        (inr (ground arith))
        (Tiled-link m2 m3 0 3 (free_node n ∷ []) (n + 3) (set_prev-LinkOnly m2 0 0 3)
          (inl (omega arith)) (first_at, omega arith))

  ring_closed : Valid m4 n (free_node n ∷ []) (3 ∷ [])
  ring_closed = record {
    head =
        head-link m3 m4 3 (set_next-LinkOnly m3 3 0 0) (inr (omega arith))
          (head-link m2 m3 0 (set_prev-LinkOnly m2 0 0 3) (inl refl) head_at);
    tiled = tiled;
    ring = (
      (
        next-set_next_other m3 3 0 0 0 (inr (inr (omega arith))) (λ u. omega (arith, u))
            ∙ (next-set_prev m2 0 0 3 0 (omega arith) (inl refl) ∙ head_next),
        prev-set_next m3 3 0 0 3 (omega arith) (inl refl)
            ∙ (prev-set_prev_other m2 0 0 3 3 (inr (inl (omega arith))) (λ u. omega (arith, u))
                ∙ first_prev),
      ),
      (
        next-set_next_self m3 3 0 0 (omega arith) (omega arith),
        prev-set_next m3 3 0 0 0 (omega arith) (inr (inr (omega arith)))
            ∙ prev-set_prev_self m2 0 0 3 (omega arith) (omega arith),
      ),
    );
    same = λ z. refl;
    long = refl;
    small = small;
  }

  closed : (a : ℕ) → half (close_ring m2 3) a ≡ half m4 a
  closed a = closed-half m2 a first_next

  least : min_unsigned (2 ^ 16 - 3) n ≡ n
  least = ground (arith, small)

  no_more : n - (2 ^ 16 - 3) ≡ 0
  no_more = omega (arith, small)

  made : init_mem m n ≡ some (close_ring m2 3)
  unfolding init_mem blocks_loop
  made =
      rw (set_fnode_len-some (head_fields m) 0 3 (omega arith))
        (rw (least) (rw (set_fnode_len-some (first_fields m1) 3 n pos, ◌>>=◌) (rw (no_more) refl)))

  -- Whatever malloc's memory holds, a trunk of one block with three slots or more is made: it is valid, it
  -- is one free node, and none of its slots is used.
  pub cvsp_init_trunk-Valid :
      (id : ℕ)
      → (t : CvspoolTrunk) × (cvsp_init_trunk id n m ≡ some t)
        × ValidTrunk t (free_node n ∷ []) (3 ∷ [])
        × (t.t_total ≡ n)
  unfolding cvsp_init_trunk
  cvsp_init_trunk-Valid id = (
    record { id = id; t_total = n; t_used = 0; t_total_mem = n * 4 + 12; mem = close_ring m2 3 },
    rw (made, ◌>>=◌) refl,
    record { valid = Valid-congr m4 (close_ring m2 3) closed ring_closed; used = refl },
    refl,
  )
