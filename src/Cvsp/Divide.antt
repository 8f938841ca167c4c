-- ===== src/Cvsp/Divide.antt =====
-- A free node of which a part is given out: the trunk behind the call.
use mathlib.Core.Path.{subst}
use leitner.Common.{
  ℕ, ◌+◌, ◌-◌, ◌*◌, ◌^◌, ◌<◌, ◌≤◌, ◌≡◌, ◌≢◌, ◌⊎◌, ap, ◌∙◌, arith, List, [], ◌∷◌, ◌++◌, count,
  count-append, length-append,
}
use leitner.Cvsp.Nodes.{Mem, half, next_fnode, prev_fnode}
use leitner.Cvsp.Fields.{Far}
use leitner.Cvsp.Ring.{Links}
use leitner.Cvsp.Rings.{Links-replace}
use leitner.Cvsp.Tiles.{
  Node, free_node, busy_node, slots, free_starts, NodeAt, Tiled, Kept, Kept-trans, Kept-congr,
}
use leitner.Cvsp.Links.{Tiled-cut, Kept-cut, Kept-join, Tiled-link, Kept-link, Linked}
use leitner.Cvsp.Lengths.{
  next_on, prev_on, next_on-LinkOnly, prev_on-LinkOnly, next-next_on_self, next-next_on_other,
  prev-next_on, prev-prev_on_self, prev-prev_on_other, next-prev_on,
}
use leitner.Cvsp.Valid.{
  member-place, Linked-count, outside-Far, Valid, Outside, outside_node, Tiled-change, Kept-change,
  fs-Once, members-Far, slots-Tiled,
}
use leitner.Cvsp.Unlink.{
  self-member, prev-member, next-member, other, more, head-link, next-prev, prev-next,
}
use leitner.Cvsp.Alloc.{shift_links}
use leitner.Cvsp.Region.{
  written_bnode, bnode-NodeAt, next-outside, prev-outside, head-outside, count-parts, length-parts,
}
use leitner.Cvsp.Split.{
  Valid-congr, rest_made, both_made, both_made-Outside, rest-NodeAt, rest-next, rest-prev,
}

-- The head of a busy node may be written before the links of others or behind them.
shift-bnode :
    (r : Mem) (p need pr nx k a : ℕ)
    → 2 * pr + 3 ≢ 2 * p + 1
    → 2 * nx + 2 ≢ 2 * p
    → half (written_bnode (shift_links r pr nx k) p need) a
      ≡ half (prev_on (next_on (written_bnode r p need) pr k) nx k) a
unfolding shift_links
shift-bnode r p need pr nx k a n1 n2 = ground (arith, n1, n2)

-- What is kept of a divided node's trunk is kept of the trunk.
Kept-merge :
    (m m' : Mem) (s : ℕ) (before : List Node) (need len : ℕ) (behind : List Node)
    → need + 3 ≤ len
    → Kept m m' s (before ++ (busy_node need ∷ (free_node (len - need) ∷ behind)))
    → Kept m m' s (before ++ (free_node len ∷ behind))
Kept-merge m m' s before need len behind room h =
    let (l, (k, r)) =
      Kept-cut m m' s before (busy_node need ∷ (free_node (len - need) ∷ behind)) h in
    Kept-join m m' s before (free_node len ∷ behind) l
      (subst (λ k. Kept m m' k behind) (omega (arith, room)) r)

module _ {m : Mem} {n : ℕ} (before : List Node) (len : ℕ) (behind : List Node) (xs : List ℕ) (p : ℕ)
    (zs : List ℕ) (need : ℕ) (at : p ≡ 3 + slots before)
    (v : Valid m n (before ++ (free_node len ∷ behind)) (xs ++ (p ∷ zs))) (pos : 3 ≤ need)
    (room : need + 3 ≤ len) where
  abbrev pub pr : ℕ
  pr = prev_fnode m p

  abbrev pub nx : ℕ
  nx = next_fnode m p

  pub node_there : NodeAt m (3 + slots before) (free_node len)
  node_there = (Tiled-cut m 3 before (free_node len ∷ behind) (n + 3) v.tiled).1.0

  pub le : len ≤ 2 ^ 16
  le = let (a, b, l, c, d) = node_there in omega (arith, l)

  pub ends : p + len ≤ n + 3
  ends =
      let h = Tiled-cut m 3 before (free_node len ∷ behind) (n + 3) v.tiled in
      omega (arith, at, slots-Tiled m (3 + slots before) (free_node len ∷ behind) (n + 3) h.1)

  abbrev pub nodes : List Node
  nodes = before ++ (busy_node need ∷ (free_node (len - need) ∷ behind))

  abbrev pub mb : Mem
  mb = both_made m p len need

  out : Outside m mb p (p + len)
  out = both_made-Outside m p len need pos room le

  out' : Outside m mb p (p + (len + 0))
  out' = subst (λ k. Outside m mb p (p + k)) (omega arith) out

  pub nodes_b : Tiled mb 3 nodes (n + 3)
  nodes_b =
      Tiled-change m mb p before (free_node len ∷ [])
        (busy_node need ∷ (free_node (len - need) ∷ [])) behind (n + 3) v.tiled at
        (omega (arith, room)) out'
        (
          bnode-NodeAt (rest_made m p len need) p need pos (omega (arith, room, le)),
          (rest-NodeAt m p len need pos room le, omega (arith, room)),
        )

  pub kept_b : Kept m mb 3 (before ++ (free_node len ∷ behind))
  kept_b =
      Kept-change m mb p before (free_node len ∷ [])
        (busy_node need ∷ (free_node (len - need) ∷ [])) behind (n + 3) v.tiled at
        (omega (arith, room)) out' tt

  abbrev pub m1 : Mem
  m1 = next_on mb pr need

  abbrev pub mf : Mem
  mf = prev_on m1 nx need

  same_counts : (z : ℕ) → count z (xs ++ ((p + need) ∷ zs)) ≡ count z (free_starts 3 nodes)
  same_counts z = ground (
    arith,
    v.same z,
    at,
    count-append z xs ((p + need) ∷ zs),
    count-append z xs (p ∷ zs),
    count-parts z before (free_node len ∷ behind),
    count-parts z before (busy_node need ∷ (free_node (len - need) ∷ behind)),
    room,
  )

  pub linked : (z : ℕ) → 0 < count z (0 ∷ (xs ++ zs)) → Linked z 3 nodes
  linked z i =
      Linked-count z (xs ++ zs) nodes i
        (ground (arith, same_counts z, count-append z xs ((p + need) ∷ zs), count-append z xs zs))

  pub far_out : (z : ℕ) → 0 < count z (0 ∷ (xs ++ zs)) → (z + 3 ≤ p) ⊎ (p + len ≤ z)
  far_out z i =
      outside_node m z p before len behind (n + 3) v.tiled at (other xs p zs v z i)
        (omega (arith, more xs p zs v z i, v.same z))

  off_nx : (z : ℕ) → 0 < count z (0 ∷ (xs ++ zs)) → Far nx z
  off_nx z i = members-Far v nx z (more xs p zs v nx (next-member xs p zs v)) (more xs p zs v z i)

  off_rest : (z : ℕ) → 0 < count z (0 ∷ (xs ++ zs)) → Far z (p + need) × (p + need ≢ z)
  off_rest z i =
      outside-Far z p (p + need) (p + len) (far_out z i) (omega arith) (omega (arith, room))

  b-next : (z : ℕ) → 0 < count z (0 ∷ (xs ++ zs)) → next_fnode mb z ≡ next_fnode m z
  b-next z i = next-outside m mb p len out z (far_out z i)

  b-prev : (z : ℕ) → 0 < count z (0 ∷ (xs ++ zs)) → prev_fnode mb z ≡ prev_fnode m z
  b-prev z i = prev-outside m mb p len out z (far_out z i)

  at_pr : next_fnode mb pr ≡ p
  at_pr = b-next pr (prev-member xs p zs v) ∙ next-prev xs p zs v

  at_nx : prev_fnode m1 nx ≡ p
  at_nx = prev-next_on mb pr need nx ∙ (b-prev nx (next-member xs p zs v) ∙ prev-next xs p zs v)

  ring : Links (next_fnode mf) (prev_fnode mf) 0 (xs ++ ((p + need) ∷ zs)) 0
  ring =
      Links-replace (next_fnode m) (prev_fnode m) (next_fnode mf) (prev_fnode mf) xs p (p + need) zs
        (fs-Once v)
        (λ z i ne.
          next-prev_on m1 nx need z (off_nx z i)
          ∙ (next-next_on_other mb pr need z ne ∙ b-next z i))
        (λ z i ne.
          prev-prev_on_other m1 nx need z (off_nx z i) ne
          ∙ (prev-next_on mb pr need z ∙ b-prev z i))
        (next-prev_on m1 nx need pr (off_nx pr (prev-member xs p zs v))
          ∙ (next-next_on_self mb pr need (omega (arith, at_pr, ends, room, v.small))
              ∙ ap (λ k. k + need) at_pr))
        (prev-prev_on_self m1 nx need (omega (arith, at_nx, ends, room, v.small))
          ∙ ap (λ k. k + need) at_nx)
        (next-prev_on m1 nx need (p + need) (off_rest nx (next-member xs p zs v)).0
          ∙ (next-next_on_other mb pr need (p + need) (off_rest pr (prev-member xs p zs v)).1
              ∙ rest-next m p len need pos room le))
        (prev-prev_on_other m1 nx need (p + need) (off_rest nx (next-member xs p zs v)).0
            (off_rest nx (next-member xs p zs v)).1
          ∙ (prev-next_on mb pr need (p + need) ∙ rest-prev m p len need pos room le))
        v.ring

  pub nodes_1 : Tiled m1 3 nodes (n + 3)
  nodes_1 =
      Tiled-link mb m1 pr 3 nodes (n + 3) (next_on-LinkOnly mb pr need)
        (linked pr (prev-member xs p zs v)) nodes_b

  pub linked-Valid : Valid mf n nodes (xs ++ ((p + need) ∷ zs))
  linked-Valid = record {
    head =
        head-link m1 mf nx (prev_on-LinkOnly m1 nx need)
          (member-place v nx (more xs p zs v nx (next-member xs p zs v)))
          (head-link mb m1 pr (next_on-LinkOnly mb pr need)
            (member-place v pr (more xs p zs v pr (prev-member xs p zs v)))
            (head-outside m mb p len out (omega (arith, at)) v.head));
    tiled =
        Tiled-link m1 mf nx 3 nodes (n + 3) (prev_on-LinkOnly m1 nx need)
          (linked nx (next-member xs p zs v)) nodes_1;
    ring = ring;
    same = same_counts;
    long = ground (
      arith,
      room,
      v.long,
      length-append xs ((p + need) ∷ zs),
      length-append xs (p ∷ zs),
      length-parts before (free_node len ∷ behind),
      length-parts before (busy_node need ∷ (free_node (len - need) ∷ behind)),
    );
    small = v.small;
  }

  -- What the code writes, which sets the head of the busy node last.
  abbrev pub split_mem : Mem
  split_mem = written_bnode (shift_links (rest_made m p len need) pr nx need) p need

  off_nx_p : Far nx p
  off_nx_p = members-Far v nx p (more xs p zs v nx (next-member xs p zs v)) (self-member xs p zs v)

  off_pr_p : Far pr p
  off_pr_p = members-Far v pr p (more xs p zs v pr (prev-member xs p zs v)) (self-member xs p zs v)

  pub same_halves : (a : ℕ) → half split_mem a ≡ half mf a
  unfolding shift_links
  same_halves a =
      shift-bnode (rest_made m p len need) p need pr nx need a (λ u. omega (arith, u, off_pr_p))
        (λ u. omega (arith, u, off_nx_p))

  pub split-Valid : Valid split_mem n nodes (xs ++ ((p + need) ∷ zs))
  split-Valid = Valid-congr mf split_mem same_halves linked-Valid

  pub split-Kept : Kept m split_mem 3 (before ++ (free_node len ∷ behind))
  split-Kept = Kept-trans m mb split_mem 3 (before ++ (free_node len ∷ behind)) kept_b (
      Kept-merge mb split_mem 3 before need len behind room (
        Kept-trans mb m1 split_mem 3 nodes
          (Kept-link mb m1 pr 3 nodes (n + 3) (next_on-LinkOnly mb pr need)
            (linked pr (prev-member xs p zs v)) nodes_b)
          (Kept-trans m1 mf split_mem 3 nodes
            (Kept-link m1 mf nx 3 nodes (n + 3) (prev_on-LinkOnly m1 nx need)
              (linked nx (next-member xs p zs v)) nodes_1)
            (Kept-congr mf split_mem 3 nodes (λ a ge lt. same_halves a)))))
