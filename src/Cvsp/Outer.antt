-- ===== src/Cvsp/Outer.antt =====
-- Writes into several nodes that lie side by side, as cvsp_free of src/cvspool.c makes them.
use mathlib.Core.Path.{subst}
use leitner.Common.{
  ℕ, ◌+◌, ◌*◌, ◌/◌, ◌%◌, ◌^◌, ◌<◌, ◌≤◌, ◌≡◌, ◌⊎◌, ap, arith, List, ◌∷◌, ◌++◌, count, count-append,
}
use leitner.Cvsp.Nodes.{
  Mem, idx, pad, set_idx, next_fnode, prev_fnode, next_off, prev_off, set_next, set_prev, blk_slots,
  written_len,
}
use leitner.Cvsp.Tiles.{
  Node, slots, free_starts, Tiled, free_starts-ge, NodeAt, free_node, LinkOnly, NodeAt-link_self,
}
use leitner.Cvsp.Links.{Tiled-cut, free_starts-append}
use leitner.Cvsp.Lengths.{written_len-half, written_len-NodeAt}
use leitner.Cvsp.Free.{set_links}
use leitner.Cvsp.Valid.{free_starts-le, Outside}
use leitner.Cvsp.Region.{count-parts}

-- A node of the ring that is none of those lies outside of them.
pub outside_nodes :
    (m : Mem) (z p : ℕ) (before mid behind : List Node) (e : ℕ)
    → Tiled m 3 (before ++ (mid ++ behind)) e
    → p ≡ 3 + slots before
    → 3 ≤ slots mid
    → count z (free_starts p mid) ≡ 0
    → 0 < count z (0 ∷ free_starts 3 (before ++ (mid ++ behind)))
    → (z + 3 ≤ p) ⊎ (p + slots mid ≤ z)
outside_nodes m z p before mid behind e h at big none i =
    let (l, k) = Tiled-cut m 3 before (mid ++ behind) e h in
    let (c, r) = Tiled-cut m (3 + slots before) mid behind e k in
    let none' : count z (free_starts (3 + slots before) mid) ≡ 0 =
      subst (λ b. count z (free_starts b mid) ≡ 0) at none in
    ground (
      arith,
      i,
      at,
      none',
      count-parts z before (mid ++ behind),
      ap (count z) (free_starts-append (3 + slots before) mid behind),
      count-append z (free_starts (3 + slots before) mid)
          (free_starts (3 + slots before + slots mid) behind),
      free_starts-le m z 3 before (3 + slots before) l,
      free_starts-ge m z (3 + slots before + slots mid) behind e r,
    )

-- A node whose length and guards are written, and then its links.
module _ (m : Mem) (p len i a b : ℕ) (pos : 3 ≤ len) where
  abbrev pub node_mem : Mem
  node_mem = set_links (written_len m p len) p i a b

  pub node_mem-Outside : Outside m node_mem p (p + len)
  unfolding set_idx
  node_mem-Outside c far = ground (
    arith,
    pos,
    far,
    written_len-half m p len pos c (λ u. omega (arith, u, far, pos))
        (λ u. omega (arith, u, far, pos)) (λ u. omega (arith, u, far, pos))
        (λ u. omega (arith, u, far, pos)),
  )

  pub node_mem-next : i < 256 → b < 2 ^ 16 → next_fnode node_mem p ≡ i % 16 * blk_slots + b
  unfolding next_fnode next_off idx set_idx pad
  node_mem-next lt lt' = ground (arith, lt, lt')

  pub node_mem-prev : i < 256 → a < 2 ^ 16 → prev_fnode node_mem p ≡ i / 16 * blk_slots + a
  unfolding prev_fnode prev_off idx set_idx pad
  node_mem-prev lt lt' = ground (arith, lt, lt')

  links_only : LinkOnly (written_len m p len) node_mem p
  unfolding set_idx pad
  links_only = record { others = λ c x y z. ground (arith, x, y, z); same_pad = ground arith }

  pub node_mem-NodeAt : len ≤ 2 ^ 16 → NodeAt node_mem p (free_node len)
  node_mem-NodeAt le =
      NodeAt-link_self (written_len m p len) node_mem p len links_only
        (written_len-NodeAt m p len pos le)

-- An offset that wraps.
pub next-set_next_mod :
    (m : Mem) (fn blk off : ℕ)
    → blk < 16
    → next_fnode (set_next m fn blk off) fn ≡ blk * blk_slots + off % 2 ^ 16
unfolding next_fnode next_off set_next set_idx idx pad
next-set_next_mod m fn blk off lt = ground (arith, lt)

pub prev-set_prev_mod :
    (m : Mem) (fn blk off : ℕ)
    → blk < 16
    → prev_fnode (set_prev m fn blk off) fn ≡ blk * blk_slots + off % 2 ^ 16
unfolding prev_fnode prev_off set_prev set_idx idx pad
prev-set_prev_mod m fn blk off lt = ground (arith, lt)
