-- ===== src/Cvsp/AddLast.antt =====
-- A freed node between nodes in use put at the end of the ring: add_last of src/cvspool.c.
use mathlib.Core.Path.{subst}
use leitner.Common.{
  ℕ, ◌+◌, ◌/◌, ◌%◌, ◌<◌, ◌≤◌, ◌≡◌, ◌≢◌, ◌⊎◌, inl, inr, refl, sym, ap, ◌∙◌, arith, List, [], ◌∷◌,
  ◌++◌, count, count-append, length-append, some,
}
use leitner.Cvsp.Nodes.{
  Mem, next_fnode, prev_fnode, next_off, prev_off, idx, written_len, set_next, set_prev, blk_slots,
  ◌>>=◌, pnblkidx, prev_blkidx, next_blkidx,
}
use leitner.Cvsp.Fields.{
  Far, idx_lt, next-set_next_self, next-set_next_other, next-set_prev, prev-set_prev_self,
  prev-set_prev_other, prev-set_next,
}
use leitner.Cvsp.Ring.{Links, Links-last, count-last}
use leitner.Cvsp.Rings.{Links-add}
use leitner.Cvsp.Free.{add_last}
use leitner.Cvsp.Tiles.{
  Node, free_node, busy_node, slots, free_starts, Tiled, Kept, Kept-trans, Kept-congr,
}
use leitner.Cvsp.Links.{
  Tiled-cut, Kept-cut, Tiled-link, Kept-link, Linked, set_next-LinkOnly, set_prev-LinkOnly,
}
use leitner.Cvsp.Lengths.{written_len-half}
use leitner.Cvsp.Valid.{
  member-place, Linked-count, outside-Far, Valid, Outside, Tiled-change, slots-Tiled, fs-Once,
  members-Far,
}
use leitner.Cvsp.Unlink.{head-link}
use leitner.Cvsp.Region.{next-outside, prev-outside, head-outside, count-parts, length-parts}
use leitner.Cvsp.Outer.{
  outside_nodes, node_mem, node_mem-Outside, node_mem-next, node_mem-prev, node_mem-NodeAt,
}
use leitner.Cvsp.Give.{set_fnode_len-some}
use leitner.Cvsp.Joined.{Freed, get_bnode_len-NodeAt}

module _ (m : Mem) (n : ℕ) (before : List Node) (len : ℕ) (behind : List Node) (p : ℕ) (fs : List ℕ)
    (at : p ≡ 3 + slots before) (v : Valid m n (before ++ (busy_node len ∷ behind)) fs) where
  abbrev pp : ℕ
  pp = prev_fnode m 0

  there : Tiled m p (busy_node len ∷ behind) (n + 3)
  there =
      subst (λ j. Tiled m j (busy_node len ∷ behind) (n + 3)) (sym at)
        (Tiled-cut m 3 before (busy_node len ∷ behind) (n + 3) v.tiled).1

  ends : p + len ≤ n + 3
  ends = omega (arith, slots-Tiled m p (busy_node len ∷ behind) (n + 3) there)

  abbrev mw : Mem
  mw = written_len m p len

  abbrev both_idx : ℕ
  both_idx = pnblkidx (prev_blkidx (idx mw 0)) (next_blkidx (idx mw pp))

  abbrev mb : Mem
  mb = node_mem m p len both_idx (prev_off mw 0) (next_off mw pp) there.0.0

  out : Outside m mb p (p + len)
  out = node_mem-Outside m p len both_idx (prev_off mw 0) (next_off mw pp) there.0.0

  out_w : Outside m mw p (p + len)
  out_w a far =
      written_len-half m p len there.0.0 a (λ u. omega (arith, u, far, there.0.0))
        (λ u. omega (arith, u, far, there.0.0)) (λ u. omega (arith, u, far, there.0.0))
        (λ u. omega (arith, u, far, there.0.0))

  ends_ring : (next_fnode m pp ≡ 0) × (0 < count pp (0 ∷ fs))
  ends_ring =
      let (a, b) = Links-last (next_fnode m) (prev_fnode m) 0 fs 0 v.ring in
      (ap (next_fnode m) b ∙ a, subst (λ k. 0 < count k (0 ∷ fs)) (sym b) (count-last 0 fs))

  far_out : (z : ℕ) → 0 < count z (0 ∷ fs) → (z + 3 ≤ p) ⊎ (p + len ≤ z)
  far_out z i =
      subst (λ j. (z + 3 ≤ p) ⊎ (p + j ≤ z)) (omega arith)
        (outside_nodes m z p before (busy_node len ∷ []) behind (n + 3) v.tiled at
          (omega (arith, there.0.0)) refl (omega (arith, i, v.same z)))

  idx_bound : both_idx < 256
  idx_bound = omega (arith, idx_lt mw 0, idx_lt mw pp)

  own_next : next_fnode mb p ≡ 0
  unfolding next_fnode next_off
  own_next =
      node_mem-next m p len both_idx (prev_off mw 0) (next_off mw pp) there.0.0 idx_bound
        (omega arith)
      ∙ (omega arith ∙ (next-outside m mw p len out_w pp (far_out pp ends_ring.1) ∙ ends_ring.0))

  own_prev : prev_fnode mb p ≡ pp
  unfolding prev_fnode prev_off
  own_prev =
      node_mem-prev m p len both_idx (prev_off mw 0) (next_off mw pp) there.0.0 idx_bound
        (omega arith)
      ∙ (omega arith ∙ prev-outside m mw p len out_w 0 (far_out 0 (ground arith)))

  abbrev nodes : List Node
  nodes = before ++ (free_node len ∷ behind)

  nodes_b : Tiled mb 3 nodes (n + 3)
  nodes_b =
      Tiled-change m mb p before (busy_node len ∷ []) (free_node len ∷ []) behind (n + 3) v.tiled at
        refl (subst (λ j. Outside m mb p (p + j)) (omega arith) out)
        (
          node_mem-NodeAt m p len both_idx (prev_off mw 0) (next_off mw pp) there.0.0
              (omega (arith, ends, v.small)),
          omega arith,
        )

  same_counts : (z : ℕ) → count z (fs ++ (p ∷ [])) ≡ count z (free_starts 3 nodes)
  same_counts z = ground (
    arith,
    v.same z,
    at,
    count-append z fs (p ∷ []),
    count-parts z before (busy_node len ∷ behind),
    count-parts z before (free_node len ∷ behind),
  )

  linked : (z : ℕ) → 0 < count z (0 ∷ fs) → Linked z 3 nodes
  linked z i = Linked-count z fs nodes i (ground (arith, same_counts z, count-append z fs (p ∷ [])))

  off_p : (z : ℕ) → 0 < count z (0 ∷ fs) → Far z p × (p ≢ z)
  off_p z i = outside-Far z p p (p + len) (far_out z i) (omega arith) (omega (arith, there.0.0))

  head_in : 0 < count 0 (0 ∷ fs)
  head_in = ground arith

  abbrev blk : ℕ
  blk = p / blk_slots

  blk_lt : blk < 16
  blk_lt = omega (arith, ends, v.small)

  abbrev m3 : Mem
  m3 = set_next mb pp blk (p % blk_slots)

  abbrev m4 : Mem
  m4 = set_prev m3 0 blk (p % blk_slots)

  off_0 : (z : ℕ) → 0 < count z (0 ∷ fs) → Far 0 z
  off_0 z i = members-Far v 0 z head_in i

  off_pp : (z : ℕ) → 0 < count z (0 ∷ fs) → Far pp z
  off_pp z i = members-Far v pp z ends_ring.1 i

  ring : Links (next_fnode m4) (prev_fnode m4) 0 (fs ++ (p ∷ [])) 0
  ring =
      Links-add (next_fnode m) (prev_fnode m) (next_fnode m4) (prev_fnode m4) p fs (fs-Once v)
        (λ z i ne.
          next-set_prev m3 0 blk (p % blk_slots) z blk_lt (off_0 z i)
          ∙ (next-set_next_other mb pp blk (p % blk_slots) z (off_pp z i) ne
              ∙ next-outside m mb p len out z (far_out z i)))
        (λ z i ne.
          let j : 0 < count z (0 ∷ fs) = omega (arith, i) in
          prev-set_prev_other m3 0 blk (p % blk_slots) z (off_0 z j) ne
          ∙ (prev-set_next mb pp blk (p % blk_slots) z blk_lt (off_pp z j)
              ∙ prev-outside m mb p len out z (far_out z j)))
        (next-set_prev m3 0 blk (p % blk_slots) pp blk_lt (off_0 pp ends_ring.1)
          ∙ (next-set_next_self mb pp blk (p % blk_slots) blk_lt (omega arith) ∙ omega arith))
        (prev-set_prev_other m3 0 blk (p % blk_slots) p (off_p 0 head_in).0 (off_p 0 head_in).1
          ∙ (prev-set_next mb pp blk (p % blk_slots) p blk_lt (off_p pp ends_ring.1).0 ∙ own_prev))
        (next-set_prev m3 0 blk (p % blk_slots) p blk_lt (off_p 0 head_in).0
          ∙ (next-set_next_other mb pp blk (p % blk_slots) p (off_p pp ends_ring.1).0
                (off_p pp ends_ring.1).1
              ∙ own_next))
        (prev-set_prev_self m3 0 blk (p % blk_slots) blk_lt (omega arith) ∙ omega arith) v.ring

  nodes_3 : Tiled m3 3 nodes (n + 3)
  nodes_3 =
      Tiled-link mb m3 pp 3 nodes (n + 3) (set_next-LinkOnly mb pp blk (p % blk_slots))
        (linked pp ends_ring.1) nodes_b

  valid : Valid m4 n nodes (fs ++ (p ∷ []))
  valid = record {
    head = head-link m3 m4 0 (set_prev-LinkOnly m3 0 blk (p % blk_slots)) (inl refl) (
        head-link mb m3 pp (set_next-LinkOnly mb pp blk (p % blk_slots))
          (member-place v pp ends_ring.1) (head-outside m mb p len out (omega (arith, at)) v.head));
    tiled =
        Tiled-link m3 m4 0 3 nodes (n + 3) (set_prev-LinkOnly m3 0 blk (p % blk_slots))
          (inl (omega arith)) nodes_3;
    ring = ring;
    same = same_counts;
    long = ground (
      arith,
      v.long,
      length-append fs (p ∷ []),
      length-parts before (busy_node len ∷ behind),
      length-parts before (free_node len ∷ behind),
    );
    small = v.small;
  }

  links_kept : Kept mb m4 3 nodes
  links_kept =
      Kept-trans mb m3 m4 3 nodes
        (Kept-link mb m3 pp 3 nodes (n + 3) (set_next-LinkOnly mb pp blk (p % blk_slots))
          (linked pp ends_ring.1) nodes_b)
        (Kept-link m3 m4 0 3 nodes (n + 3) (set_prev-LinkOnly m3 0 blk (p % blk_slots))
          (inl (omega arith)) nodes_3)

  returned : add_last m p ≡ some m4
  unfolding add_last
  returned =
      rw (get_bnode_len-NodeAt m p len there.0)
        (rw (set_fnode_len-some m p len there.0.0, ◌>>=◌) refl)

  pub add_last-Freed : Freed m n before (p + len) behind nodes (add_last m p)
  add_last-Freed =
      let (l, r) = Kept-cut mb m4 3 before (free_node len ∷ behind) links_kept in
      record {
        mem = m4;
        returned = returned;
        order = fs ++ (p ∷ []);
        valid = valid;
        kept = (
          Kept-trans m mb m4 3 before
              (Kept-congr m mb 3 before (λ a ge lt. out a (inl (omega (arith, lt, at))))) l,
          Kept-trans m mb m4 (p + len) behind
              (Kept-congr m mb (p + len) behind (λ a ge lt. out a (inr ge)))
              (subst (λ j. Kept mb m4 j behind) (omega (arith, at)) r),
        );
      }
