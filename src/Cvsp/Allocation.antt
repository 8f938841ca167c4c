-- ===== src/Cvsp/Allocation.antt =====
-- What trunk_alloc, the part of cvsp_alloc (src/cvspool.c) on one trunk, gives.
use mathlib.Core.Path.{subst}
use leitner.Common.{
  ℕ, suc, ◌+◌, ◌<◌, ◌≤◌, ◌≡◌, inl, inr, sym, arith, List, ◌∷◌, ◌++◌, some, none, Option, true,
  Bool-cases, ==_iff, ◌==◌,
}
use leitner.Cvsp.Nodes.{next_fnode, ◌>>=◌}
use leitner.Cvsp.Trunk.{CvspoolTrunk}
use leitner.Cvsp.Alloc.{search, fits, fnode_taken, trunk_alloc}
use leitner.Cvsp.Tiles.{Node, free_node, slots, free_starts-ge}
use leitner.Cvsp.Links.{find_start}
use leitner.Cvsp.Search.{Searched, search-Searched, len_of_free, none_fit, length-free_starts}
use leitner.Cvsp.Give.{
  ValidTrunk, Gives, take_exact, take_split, node_at, handed_exact, handed_split, find_place,
}

give_at :
    (t : CvspoolTrunk) (before : List Node) (len : ℕ) (behind : List Node) (xs : List ℕ) (p : ℕ)
    (zs : List ℕ) (need : ℕ)
    → p ≡ 3 + slots before
    → ValidTrunk t (before ++ (free_node len ∷ behind)) (xs ++ (p ∷ zs))
    → 3 ≤ need
    → fits len need ≡ true
    → Gives t (before ++ (free_node len ∷ behind)) need (fnode_taken t need (some p))
unfolding fnode_taken
give_at t before len behind xs p zs need at v pos f = elim (Bool-cases (len == need)) [
  | inl u ↦
      subst (λ k. Gives t (before ++ (free_node len ∷ behind)) k (fnode_taken t k (some p)))
        ((==_iff len need).0 u)
        (rw (take_exact t.mem p len (node_at t before len behind xs p zs at v))
          (handed_exact t before len behind xs p zs at v))
  | inr u ↦
      let room : need + 3 ≤ len = ground (arith, u, f) in
      rw (take_split t.mem p len need (node_at t before len behind xs p zs at v) pos room)
        (handed_split t before len behind xs p zs at v need pos room)
]

give_found :
    (t : CvspoolTrunk) (ns : List Node) (fs : List ℕ) (need : ℕ) (r : Option (Option ℕ))
    → ValidTrunk t ns fs
    → 3 ≤ need
    → Searched t.mem need fs r
    → Gives t ns need (r >>= fnode_taken t need)
unfolding fnode_taken
give_found t ns fs need none v pos s = s
give_found t ns fs need (some none) v pos s =
    none_fit t.mem need 3 ns (t.t_total + 3) v.valid.tiled
      (λ z i. s z (subst (λ k. 0 < k) (sym (v.valid.same z)) i))
give_found t ns fs need (some (some p)) v pos (i, f) =
    let o = find_start p 3 ns (subst (λ k. 0 < k) (v.valid.same p) i) in
    let mb = find_place p fs i in
    let v' : ValidTrunk t (o.before ++ (free_node o.len ∷ o.behind)) (mb.xs ++ (p ∷ mb.zs)) =
      subst (λ k. ValidTrunk t (o.before ++ (free_node o.len ∷ o.behind)) k) mb.is
        (subst (λ k. ValidTrunk t k fs) o.is v) in
    let (a, b, c, d, e) = node_at t o.before o.len o.behind mb.xs p mb.zs o.at_slot v' in
    subst (λ k. Gives t k need (fnode_taken t need (some p))) (sym o.is)
      (give_at t o.before o.len o.behind mb.xs p mb.zs need o.at_slot v' pos
        (subst (λ k. fits k need ≡ true) c f))

-- On a valid trunk of one block a request of three or more slots returns. Either it gives nothing, and
-- then no free node is as long as the request or three slots longer; or it gives the slots of such a free
-- node from its start, the rest of it stays free, the trunk is valid again with these nodes, its count of
-- used slots is right, and every node in use keeps all its bytes.
pub trunk_alloc-Gives :
    (t : CvspoolTrunk) (ns : List Node) (fs : List ℕ) (need : ℕ)
    → ValidTrunk t ns fs
    → 3 ≤ need
    → Gives t ns need (trunk_alloc t need)
unfolding trunk_alloc
trunk_alloc-Gives t ns fs need v pos =
    give_found t ns fs need (search (suc t.t_total) t.mem need (next_fnode t.mem 0)) v pos (
      search-Searched (suc t.t_total) t.mem need 0 fs
        (omega (arith, v.valid.long, length-free_starts t.mem 3 ns (t.t_total + 3) v.valid.tiled))
        (λ z i. (
          λ u. omega (
            arith,
            u,
            free_starts-ge t.mem z 3 ns (t.t_total + 3) v.valid.tiled
                (subst (λ k. 0 < k) (v.valid.same z) i),
          ),
          len_of_free t.mem z 3 ns (t.t_total + 3) v.valid.tiled
              (subst (λ k. 0 < k) (v.valid.same z) i),
        ))
        v.valid.ring)
