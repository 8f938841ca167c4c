-- ===== src/Cvsp/Region.antt =====
-- Writes into one free node: the other nodes, their ring and the contents of busy nodes stay.
use mathlib.Core.Path.{subst}
use leitner.Common.{
  ℕ, ◌+◌, ◌-◌, ◌*◌, ◌^◌, ◌<◌, ◌≤◌, ◌≡◌, ◌≢◌, ◌⊎◌, inl, inr, refl, ap, ◌∙◌, arith, List, [], ◌∷◌,
  ◌++◌, count, count-append, length, length-append,
}
use leitner.Cvsp.Nodes.{Mem, write16, next_fnode, prev_fnode, busy_guard0}
use leitner.Cvsp.Fields.{next-congr, prev-congr, half_self, half_other}
use leitner.Cvsp.Ring.{Links, Links-congr}
use leitner.Cvsp.Tiles.{
  Node, free_node, busy_node, slots, free_starts, NodeAt, Tiled, Kept, NodeAt-congr, Kept-trans,
}
use leitner.Cvsp.Links.{Tiled-cut, free_starts-append}
use leitner.Cvsp.Valid.{Valid, Outside, outside_node, Tiled-change, Kept-change}
use leitner.Cvsp.Unlink.{unlink-Links, unlink-head, unlink-Tiled, unlink-Kept, other, more}
use leitner.Cvsp.Alloc.{unlink}

module _ (m m' : Mem) (p len : ℕ) (out : Outside m m' p (p + len)) where
  side :
      (z k : ℕ)
      → k ≤ 5
      → (z + 3 ≤ p) ⊎ (p + len ≤ z)
      → (2 * z + k < 2 * p) ⊎ (2 * (p + len) ≤ 2 * z + k)
  side z k le (inl b) = inl (omega (arith, b, le))
  side z k le (inr b) = inr (omega (arith, b))

  first_side : (z : ℕ) → (z + 3 ≤ p) ⊎ (p + len ≤ z) → (2 * z < 2 * p) ⊎ (2 * (p + len) ≤ 2 * z)
  first_side z (inl b) = inl (omega (arith, b))
  first_side z (inr b) = inr (omega (arith, b))

  -- The links of a node outside.
  pub next-outside : (z : ℕ) → (z + 3 ≤ p) ⊎ (p + len ≤ z) → next_fnode m' z ≡ next_fnode m z
  next-outside z far =
      next-congr m m' z (out (2 * z) (first_side z far))
        (out (2 * z + 3) (side z 3 (omega arith) far))

  pub prev-outside : (z : ℕ) → (z + 3 ≤ p) ⊎ (p + len ≤ z) → prev_fnode m' z ≡ prev_fnode m z
  prev-outside z far =
      prev-congr m m' z (out (2 * z) (first_side z far))
        (out (2 * z + 2) (side z 2 (omega arith) far))

  pub head-outside : 3 ≤ p → NodeAt m 0 (free_node 3) → NodeAt m' 0 (free_node 3)
  head-outside ge h =
      NodeAt-congr m m' 0 (free_node 3) (λ a le lt. out a (inl (omega (arith, lt, ge)))) h

  -- The ring without the node.
  pub Links-outside :
      (before behind : List Node) (e : ℕ) (fs : List ℕ)
      → Tiled m 3 (before ++ (free_node len ∷ behind)) e
      → p ≡ 3 + slots before
      → ((z : ℕ)
          → 0 < count z (0 ∷ fs)
          → (z ≢ p) × 0 < count z (0 ∷ free_starts 3 (before ++ (free_node len ∷ behind))))
      → Links (next_fnode m) (prev_fnode m) 0 fs 0
      → Links (next_fnode m') (prev_fnode m') 0 fs 0
  Links-outside before behind e fs h at mem =
      Links-congr (next_fnode m) (prev_fnode m) (next_fnode m') (prev_fnode m') 0 fs 0
        (λ z i.
          next-outside z (outside_node m z p before len behind e h at (mem z i).0 (mem z i).1))
        (λ z i.
          prev-outside z (outside_node m z p before len behind e h at (mem z i).0 (mem z i).1))

abbrev pub written_bnode : Mem → ℕ → ℕ → Mem
written_bnode m p need = write16 (write16 m (2 * p) busy_guard0) (2 * p + 1) (need - 1)

pub bnode-NodeAt :
    (m : Mem) (p len : ℕ)
    → 3 ≤ len
    → len ≤ 2 ^ 16
    → NodeAt (written_bnode m p len) p (busy_node len)
bnode-NodeAt m p len pos le = (
  pos,
  half_other (write16 m (2 * p) busy_guard0) (2 * p + 1) (len - 1) (2 * p) (λ u. omega (arith, u))
      ∙ half_self m (2 * p) busy_guard0,
  ap (λ h. h + 1) (half_self (write16 m (2 * p) busy_guard0) (2 * p + 1) (len - 1))
      ∙ omega (arith, pos, le),
)

pub bnode-Outside :
    (m : Mem) (p need len : ℕ) → 3 ≤ len → Outside m (written_bnode m p need) p (p + len)
bnode-Outside m p need len pos a far = ground (arith, pos, far)

pub count-parts :
    (z : ℕ) (before : List Node) (ts : List Node)
    → count z (free_starts 3 (before ++ ts))
      ≡ count z (free_starts 3 before) + count z (free_starts (3 + slots before) ts)
count-parts z before ts =
    ap (count z) (free_starts-append 3 before ts)
    ∙ count-append z (free_starts 3 before) (free_starts (3 + slots before) ts)

pub length-parts :
    (before : List Node) (ts : List Node)
    → length (free_starts 3 (before ++ ts))
      ≡ length (free_starts 3 before) + length (free_starts (3 + slots before) ts)
length-parts before ts =
    ap length (free_starts-append 3 before ts)
    ∙ length-append (free_starts 3 before) (free_starts (3 + slots before) ts)

-- The whole of a free node becomes a busy one.
module _ {m : Mem} {n : ℕ} (before : List Node) (len : ℕ) (behind : List Node) (xs : List ℕ) (p : ℕ)
    (zs : List ℕ) (at : p ≡ 3 + slots before)
    (v : Valid m n (before ++ (free_node len ∷ behind)) (xs ++ (p ∷ zs))) where
  abbrev pub exact_mem : Mem
  exact_mem = written_bnode (unlink m p) p len

  node_there : NodeAt (unlink m p) (3 + slots before) (free_node len)
  node_there =
      (Tiled-cut (unlink m p) 3 before (free_node len ∷ behind) (n + 3)
        (unlink-Tiled xs p zs v)).1.0

  pos : 3 ≤ len
  pos = node_there.0

  small_len : len ≤ 2 ^ 16
  small_len = let (a, b, l, c, d) = node_there in omega (arith, l)

  outside : Outside (unlink m p) exact_mem p (p + len)
  outside = bnode-Outside (unlink m p) p len len pos

  pub exact-Valid : Valid exact_mem n (before ++ (busy_node len ∷ behind)) (xs ++ zs)
  exact-Valid = record {
    head =
        head-outside (unlink m p) exact_mem p len outside (omega (arith, at))
          (unlink-head xs p zs v);
    tiled =
        Tiled-change (unlink m p) exact_mem p before (free_node len ∷ []) (busy_node len ∷ [])
          behind (n + 3) (unlink-Tiled xs p zs v) at refl
          (subst (λ k. Outside (unlink m p) exact_mem p (p + k)) (omega arith) outside)
          (bnode-NodeAt (unlink m p) p len pos small_len, omega arith);
    ring =
        Links-outside (unlink m p) exact_mem p len outside before behind (n + 3) (xs ++ zs)
          (unlink-Tiled xs p zs v) at
          (λ z i. (other xs p zs v z i, omega (arith, more xs p zs v z i, v.same z)))
          (unlink-Links xs p zs v);
    same = λ z. ground (
      arith,
      v.same z,
      at,
      count-append z xs zs,
      count-append z xs (p ∷ zs),
      count-parts z before (free_node len ∷ behind),
      count-parts z before (busy_node len ∷ behind),
    );
    long = omega (
      arith,
      v.long,
      length-append xs zs,
      length-append xs (p ∷ zs),
      length-parts before (free_node len ∷ behind),
      length-parts before (busy_node len ∷ behind),
    );
    small = v.small;
  }

  pub exact-Kept : Kept m exact_mem 3 (before ++ (free_node len ∷ behind))
  exact-Kept =
      Kept-trans m (unlink m p) exact_mem 3 (before ++ (free_node len ∷ behind))
        (unlink-Kept xs p zs v)
        (Kept-change (unlink m p) exact_mem p before (free_node len ∷ []) (busy_node len ∷ [])
          behind (n + 3) (unlink-Tiled xs p zs v) at refl
          (subst (λ k. Outside (unlink m p) exact_mem p (p + k)) (omega arith) outside) tt)
