-- ===== src/Cvsp/Split.antt =====
-- split_fnode: the first slots of a free node become a busy one, and the rest takes its place.
use leitner.Common.{ℕ, ◌+◌, ◌-◌, ◌*◌, ◌^◌, ◌≤◌, ◌≡◌, ◌∙◌, arith, List}
use leitner.Cvsp.Nodes.{Mem, half, next_fnode, prev_fnode, next_off, prev_off, idx, written_len}
use leitner.Cvsp.Fields.{next-congr, prev-congr}
use leitner.Cvsp.Ring.{Links-congr}
use leitner.Cvsp.Tiles.{Node, free_node, NodeAt, NodeAt-congr, Tiled-congr}
use leitner.Cvsp.Lengths.{written_len-half, written_len-next, written_len-prev, written_len-NodeAt}
use leitner.Cvsp.Valid.{Valid, Outside}
use leitner.Cvsp.Alloc.{copy_fnode0}
use leitner.Cvsp.Region.{written_bnode}

pub Valid-congr :
    {n : ℕ} {ns : List Node} {fs : List ℕ} (m m' : Mem)
    → ((a : ℕ) → half m' a ≡ half m a)
    → Valid m n ns fs
    → Valid m' n ns fs
Valid-congr {n} {ns} {fs} m m' f v = record {
  head = NodeAt-congr m m' 0 (free_node 3) (λ a ge lt. f a) v.head;
  tiled = Tiled-congr m m' 3 ns (n + 3) (λ a ge lt. f a) v.tiled;
  ring =
      Links-congr (next_fnode m) (prev_fnode m) (next_fnode m') (prev_fnode m') 0 fs 0
        (λ z i. next-congr m m' z (f (2 * z)) (f (2 * z + 3)))
        (λ z i. prev-congr m m' z (f (2 * z)) (f (2 * z + 2))) v.ring;
  same = v.same;
  long = v.long;
  small = v.small;
}

-- The copy of the node's head, the length of the rest, and the head of the busy node.
module _ (m : Mem) (p len need : ℕ) where
  abbrev pub head_copied : Mem
  head_copied = copy_fnode0 m (p + need) p

  abbrev pub rest_made : Mem
  rest_made = written_len head_copied (p + need) (len - need)

  abbrev pub both_made : Mem
  both_made = written_bnode rest_made p need

module _ (m : Mem) (p len need : ℕ) (pos : 3 ≤ need) (room : need + 3 ≤ len)
    (le : len ≤ 2 ^ 16) where
  pub head_copied-Outside : Outside m (head_copied m p len need) p (p + len)
  unfolding copy_fnode0
  head_copied-Outside a far = ground (arith, pos, room, far)

  pub rest_made-Outside : Outside m (rest_made m p len need) p (p + len)
  rest_made-Outside a far =
      written_len-half (head_copied m p len need) (p + need) (len - need) (omega (arith, room)) a
        (λ u. omega (arith, u, far, pos, room)) (λ u. omega (arith, u, far, pos, room))
        (λ u. omega (arith, u, far, pos, room)) (λ u. omega (arith, u, far, pos, room))
      ∙ head_copied-Outside a far

  pub both_made-Outside : Outside m (both_made m p len need) p (p + len)
  both_made-Outside a far = ground (arith, rest_made-Outside a far, pos, room, far)

  head_apart :
      (a : ℕ) → 2 * p + 2 ≤ a → half (both_made m p len need) a ≡ half (rest_made m p len need) a
  head_apart a ge = ground (arith, ge)

  pub rest-NodeAt : NodeAt (both_made m p len need) (p + need) (free_node (len - need))
  rest-NodeAt =
      NodeAt-congr (rest_made m p len need) (both_made m p len need) (p + need)
        (free_node (len - need)) (λ a ge lt. head_apart a (omega (arith, ge, pos)))
        (written_len-NodeAt (head_copied m p len need) (p + need) (len - need) (omega (arith, room))
          (omega (arith, le)))

  pub rest-next : next_fnode (both_made m p len need) (p + need) ≡ next_fnode m p
  unfolding copy_fnode0 next_fnode next_off idx
  rest-next =
      next-congr (rest_made m p len need) (both_made m p len need) (p + need)
        (head_apart (2 * (p + need)) (omega (arith, pos)))
        (head_apart (2 * (p + need) + 3) (omega (arith, pos)))
      ∙ (written_len-next (head_copied m p len need) (p + need) (len - need) (omega (arith, room))
          ∙ ground (arith, pos))

  pub rest-prev : prev_fnode (both_made m p len need) (p + need) ≡ prev_fnode m p
  unfolding copy_fnode0 prev_fnode prev_off idx
  rest-prev =
      prev-congr (rest_made m p len need) (both_made m p len need) (p + need)
        (head_apart (2 * (p + need)) (omega (arith, pos)))
        (head_apart (2 * (p + need) + 2) (omega (arith, pos)))
      ∙ (written_len-prev (head_copied m p len need) (p + need) (len - need) (omega (arith, room))
          ∙ ground (arith, pos))
