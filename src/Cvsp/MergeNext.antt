-- ===== src/Cvsp/MergeNext.antt =====
-- A freed node joined to the free node behind it: merge_next of src/cvspool.c.
use mathlib.Core.Path.{subst}
use leitner.Common.{
  ℕ, ◌+◌, ◌-◌, ◌*◌, ◌/◌, ◌^◌, ◌<◌, ◌≤◌, ◌≡◌, ◌≢◌, ◌⊎◌, inl, inr, refl, sym, ◌∙◌, arith, List, [],
  ◌∷◌, ◌++◌, count, count-append, length-append, some,
}
use leitner.Cvsp.Nodes.{
  Mem, half, next_fnode, prev_fnode, next_off, prev_off, idx, written_len, set_next, set_prev,
  blk_slots, ◌>>=◌,
}
use leitner.Cvsp.Fields.{
  Far, idx_lt, next-congr, prev-congr, next-set_next_other, next-set_prev, prev-set_prev_other,
  prev-set_next,
}
use leitner.Cvsp.Ring.{Links}
use leitner.Cvsp.Rings.{Links-replace}
use leitner.Cvsp.Free.{merge_next, lead_to}
use leitner.Cvsp.Tiles.{
  Node, free_node, busy_node, slots, free_starts, Tiled, Kept, Kept-trans, Kept-congr,
}
use leitner.Cvsp.Links.{
  Tiled-cut, Kept-cut, Tiled-link, Kept-link, Linked, set_next-LinkOnly, set_prev-LinkOnly,
}
use leitner.Cvsp.Lengths.{get_fnode_len-NodeAt, written_len-half}
use leitner.Cvsp.Valid.{
  member-place, Linked-count, outside-Far, Valid, Outside, Tiled-change, slots-Tiled, fs-Once,
  members-Far,
}
use leitner.Cvsp.Unlink.{prev-member, next-member, other, more, head-link, next-prev, prev-next}
use leitner.Cvsp.Region.{next-outside, prev-outside, head-outside, count-parts, length-parts}
use leitner.Cvsp.Outer.{
  outside_nodes, node_mem, node_mem-Outside, node_mem-next, node_mem-prev, node_mem-NodeAt,
  next-set_next_mod, prev-set_prev_mod,
}
use leitner.Cvsp.Give.{set_fnode_len-some}
use leitner.Cvsp.Joined.{Freed, get_bnode_len-NodeAt}

module _ (m : Mem) (n : ℕ) (before : List Node) (len k : ℕ) (behind : List Node) (p : ℕ)
    (xs zs : List ℕ) (at : p ≡ 3 + slots before)
    (v : Valid m n
      (before ++ (busy_node len ∷ (free_node k ∷ behind)))
      (xs ++ ((p + len) ∷ zs))) where
  abbrev two : List Node
  two = busy_node len ∷ (free_node k ∷ [])

  abbrev nxt : ℕ
  nxt = p + len

  abbrev pr : ℕ
  pr = prev_fnode m nxt

  abbrev nx : ℕ
  nx = next_fnode m nxt

  there : Tiled m p (two ++ behind) (n + 3)
  there =
      subst (λ j. Tiled m j (two ++ behind) (n + 3)) (sym at)
        (Tiled-cut m 3 before (two ++ behind) (n + 3) v.tiled).1

  long_enough : 3 ≤ len + k
  long_enough = omega (arith, there.0.0)

  ends : p + len + k ≤ n + 3
  ends = omega (arith, slots-Tiled m p (two ++ behind) (n + 3) there)

  pos : 3 ≤ slots two
  pos = omega (arith, long_enough)

  abbrev mw : Mem
  mw = written_len m p (len + k)

  abbrev mb : Mem
  mb = node_mem m p (len + k) (idx mw nxt) (prev_off mw nxt) (next_off mw nxt) long_enough

  out : Outside m mb p (p + (len + k))
  out = node_mem-Outside m p (len + k) (idx mw nxt) (prev_off mw nxt) (next_off mw nxt) long_enough

  out' : Outside m mb p (p + slots two)
  out' = subst (λ j. Outside m mb p (p + j)) (omega arith) out

  kept_half : (a : ℕ) → 2 * nxt ≤ a → a ≤ 2 * nxt + 3 → half mw a ≡ half m a
  kept_half a ge le =
      written_len-half m p (len + k) long_enough a (λ u. omega (arith, u, ge, there.0.0))
        (λ u. omega (arith, u, ge, there.0.0)) (λ u. omega (arith, u, le, there.1.0.0))
        (λ u. omega (arith, u, le, there.1.0.0))

  own_next : next_fnode mb p ≡ nx
  unfolding next_fnode next_off
  own_next =
      node_mem-next m p (len + k) (idx mw nxt) (prev_off mw nxt) (next_off mw nxt) long_enough
        (idx_lt mw nxt) (omega arith)
      ∙ next-congr m mw nxt (kept_half (2 * nxt) (omega arith) (omega arith))
          (kept_half (2 * nxt + 3) (omega arith) (omega arith))

  own_prev : prev_fnode mb p ≡ pr
  unfolding prev_fnode prev_off
  own_prev =
      node_mem-prev m p (len + k) (idx mw nxt) (prev_off mw nxt) (next_off mw nxt) long_enough
        (idx_lt mw nxt) (omega arith)
      ∙ prev-congr m mw nxt (kept_half (2 * nxt) (omega arith) (omega arith))
          (kept_half (2 * nxt + 2) (omega arith) (omega arith))

  abbrev nodes : List Node
  nodes = before ++ (free_node (len + k) ∷ behind)

  nodes_b : Tiled mb 3 nodes (n + 3)
  nodes_b =
      Tiled-change m mb p before two (free_node (len + k) ∷ []) behind (n + 3) v.tiled at
        (omega arith) out'
        (
          node_mem-NodeAt m p (len + k) (idx mw nxt) (prev_off mw nxt) (next_off mw nxt) long_enough
              (omega (arith, ends, v.small)),
          omega arith,
        )

  same_counts : (z : ℕ) → count z (xs ++ (p ∷ zs)) ≡ count z (free_starts 3 nodes)
  same_counts z = ground (
    arith,
    v.same z,
    at,
    count-append z xs (p ∷ zs),
    count-append z xs (nxt ∷ zs),
    count-parts z before (two ++ behind),
    count-parts z before (free_node (len + k) ∷ behind),
  )

  linked : (z : ℕ) → 0 < count z (0 ∷ (xs ++ zs)) → Linked z 3 nodes
  linked z i =
      Linked-count z (xs ++ zs) nodes i
        (ground (arith, same_counts z, count-append z xs (p ∷ zs), count-append z xs zs))

  far_out : (z : ℕ) → 0 < count z (0 ∷ (xs ++ zs)) → (z + 3 ≤ p) ⊎ (p + (len + k) ≤ z)
  far_out z i =
      subst (λ j. (z + 3 ≤ p) ⊎ (p + j ≤ z)) (omega arith)
        (outside_nodes m z p before two behind (n + 3) v.tiled at pos
          (ground (arith, other xs nxt zs v z i)) (omega (arith, more xs nxt zs v z i, v.same z)))

  off_nx : (z : ℕ) → 0 < count z (0 ∷ (xs ++ zs)) → Far nx z
  off_nx z i =
      members-Far v nx z (more xs nxt zs v nx (next-member xs nxt zs v)) (more xs nxt zs v z i)

  off_pr : (z : ℕ) → 0 < count z (0 ∷ (xs ++ zs)) → Far pr z
  off_pr z i =
      members-Far v pr z (more xs nxt zs v pr (prev-member xs nxt zs v)) (more xs nxt zs v z i)

  off_p : (z : ℕ) → 0 < count z (0 ∷ (xs ++ zs)) → Far z p × (p ≢ z)
  off_p z i =
      outside-Far z p p (p + (len + k)) (far_out z i) (omega arith) (omega (arith, long_enough))

  b-next : (z : ℕ) → 0 < count z (0 ∷ (xs ++ zs)) → next_fnode mb z ≡ next_fnode m z
  b-next z i = next-outside m mb p (len + k) out z (far_out z i)

  b-prev : (z : ℕ) → 0 < count z (0 ∷ (xs ++ zs)) → prev_fnode mb z ≡ prev_fnode m z
  b-prev z i = prev-outside m mb p (len + k) out z (far_out z i)

  abbrev blk : ℕ
  blk = p / blk_slots

  blk_lt : blk < 16
  blk_lt = omega (arith, ends, v.small)

  abbrev off1 : ℕ
  off1 = half mb (2 * pr + 3) + 2 ^ 16 - len

  abbrev m1 : Mem
  m1 = set_next mb pr blk off1

  abbrev off2 : ℕ
  off2 = half m1 (2 * nx + 2) + 2 ^ 16 - len

  abbrev mf : Mem
  mf = set_prev m1 nx blk off2

  at_pr : next_fnode m1 pr ≡ p
  unfolding next_fnode next_off
  at_pr =
      next-set_next_mod mb pr blk off1 blk_lt
      ∙ omega (
        arith,
        b-next pr (prev-member xs nxt zs v) ∙ next-prev xs nxt zs v,
        ends,
        there.0.0,
        long_enough,
        v.small,
      )

  at_nx : prev_fnode mf nx ≡ p
  unfolding prev_fnode prev_off
  at_nx =
      prev-set_prev_mod m1 nx blk off2 blk_lt
      ∙ omega (
        arith,
        prev-set_next mb pr blk off1 nx blk_lt (off_pr nx (next-member xs nxt zs v))
            ∙ (b-prev nx (next-member xs nxt zs v) ∙ prev-next xs nxt zs v),
        ends,
        there.0.0,
        long_enough,
        v.small,
      )

  ring : Links (next_fnode mf) (prev_fnode mf) 0 (xs ++ (p ∷ zs)) 0
  ring =
      Links-replace (next_fnode m) (prev_fnode m) (next_fnode mf) (prev_fnode mf) xs nxt p zs
        (fs-Once v)
        (λ z i ne.
          next-set_prev m1 nx blk off2 z blk_lt (off_nx z i)
          ∙ (next-set_next_other mb pr blk off1 z (off_pr z i) ne ∙ b-next z i))
        (λ z i ne.
          prev-set_prev_other m1 nx blk off2 z (off_nx z i) ne
          ∙ (prev-set_next mb pr blk off1 z blk_lt (off_pr z i) ∙ b-prev z i))
        (next-set_prev m1 nx blk off2 pr blk_lt (off_nx pr (prev-member xs nxt zs v)) ∙ at_pr) at_nx
        (next-set_prev m1 nx blk off2 p blk_lt (off_p nx (next-member xs nxt zs v)).0
          ∙ (next-set_next_other mb pr blk off1 p (off_p pr (prev-member xs nxt zs v)).0
                (off_p pr (prev-member xs nxt zs v)).1
              ∙ own_next))
        (prev-set_prev_other m1 nx blk off2 p (off_p nx (next-member xs nxt zs v)).0
            (off_p nx (next-member xs nxt zs v)).1
          ∙ (prev-set_next mb pr blk off1 p blk_lt (off_p pr (prev-member xs nxt zs v)).0
              ∙ own_prev))
        v.ring

  nodes_1 : Tiled m1 3 nodes (n + 3)
  nodes_1 =
      Tiled-link mb m1 pr 3 nodes (n + 3) (set_next-LinkOnly mb pr blk off1)
        (linked pr (prev-member xs nxt zs v)) nodes_b

  valid : Valid mf n nodes (xs ++ (p ∷ zs))
  valid = record {
    head =
        head-link m1 mf nx (set_prev-LinkOnly m1 nx blk off2)
          (member-place v nx (more xs nxt zs v nx (next-member xs nxt zs v)))
          (head-link mb m1 pr (set_next-LinkOnly mb pr blk off1)
            (member-place v pr (more xs nxt zs v pr (prev-member xs nxt zs v)))
            (head-outside m mb p (len + k) out (omega (arith, at)) v.head));
    tiled =
        Tiled-link m1 mf nx 3 nodes (n + 3) (set_prev-LinkOnly m1 nx blk off2)
          (linked nx (next-member xs nxt zs v)) nodes_1;
    ring = ring;
    same = same_counts;
    long = ground (
      arith,
      v.long,
      length-append xs (p ∷ zs),
      length-append xs (nxt ∷ zs),
      length-parts before (two ++ behind),
      length-parts before (free_node (len + k) ∷ behind),
    );
    small = v.small;
  }

  links_kept : Kept mb mf 3 nodes
  links_kept =
      Kept-trans mb m1 mf 3 nodes
        (Kept-link mb m1 pr 3 nodes (n + 3) (set_next-LinkOnly mb pr blk off1)
          (linked pr (prev-member xs nxt zs v)) nodes_b)
        (Kept-link m1 mf nx 3 nodes (n + 3) (set_prev-LinkOnly m1 nx blk off2)
          (linked nx (next-member xs nxt zs v)) nodes_1)

  returned : merge_next m p ≡ some mf
  unfolding merge_next lead_to set_next set_prev
  returned = rw (get_bnode_len-NodeAt m p len there.0) (
      rw (get_fnode_len-NodeAt m nxt k there.1.0, ◌>>=◌)
        (rw (set_fnode_len-some m p (len + k) long_enough, ◌>>=◌) refl))

  pub merge_next-Freed : Freed m n before (nxt + k) behind nodes (merge_next m p)
  merge_next-Freed =
      let (l, r) = Kept-cut mb mf 3 before (free_node (len + k) ∷ behind) links_kept in
      record {
        mem = mf;
        returned = returned;
        order = xs ++ (p ∷ zs);
        valid = valid;
        kept = (
          Kept-trans m mb mf 3 before
              (Kept-congr m mb 3 before (λ a ge lt. out a (inl (omega (arith, lt, at))))) l,
          Kept-trans m mb mf (nxt + k) behind
              (Kept-congr m mb (nxt + k) behind (λ a ge lt. out a (inr (omega (arith, ge)))))
              (subst (λ j. Kept mb mf j behind) (omega (arith, at)) r),
        );
      }
