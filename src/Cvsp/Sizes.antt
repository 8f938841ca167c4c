-- ===== src/Cvsp/Sizes.antt =====
-- The bytes of a node that cvsp_alloc gave, as get_bnode_mem_len of src/cvspool.c says.
use mathlib.Core.Path.{subst}
use leitner.Common.{ℕ, ◌+◌, ◌-◌, ◌*◌, ◌^◌, ◌<◌, ◌≤◌, ◌≡◌, refl, arith, List, ◌∷◌, ◌++◌, some}
use leitner.Cvsp.Trunk.{CvspoolTrunk}
use leitner.Cvsp.Alloc.{trunk_alloc, need_slots_of}
use leitner.Cvsp.Free.{get_bnode_mem_len}
use leitner.Cvsp.Tiles.{Node, busy_node, slots, NodeAt}
use leitner.Cvsp.Links.{Tiled-cut}
use leitner.Cvsp.Give.{ValidTrunk, Given, Gives}
use leitner.Cvsp.Joined.{get_bnode_len-NodeAt}
use leitner.Cvsp.Allocation.{trunk_alloc-Gives}
use leitner.Cvsp.Coalesced.{rest_of, cut_rest}
use leitner.Cvsp.Serving.{need_slots_of-ge}

enough : (size : ℕ) → size + 7 < 2 ^ 32 → size ≤ (need_slots_of size - 1) * 4
unfolding need_slots_of
enough size lt = ground (arith, lt)

handed_mem_len :
    (t t' : CvspoolTrunk) (ns : List Node) (need slot : ℕ)
    → Given t ns need t' slot
    → get_bnode_mem_len t'.mem slot ≡ some ((need - 1) * 4)
unfolding get_bnode_mem_len
handed_mem_len t t' ns need slot g =
    let s : ℕ = 3 + slots g.before in
    let v : ValidTrunk t' (g.before ++ (busy_node need ∷ rest_of g.len need g.behind)) g.order =
      subst (λ k. ValidTrunk t' (g.before ++ k) g.order) (cut_rest g.len need g.behind) g.trunk in
    let node : NodeAt t'.mem s (busy_node need) =
      (Tiled-cut t'.mem 3 g.before (busy_node need ∷ rest_of g.len need g.behind) (t'.t_total + 3)
        v.valid.tiled).1.0 in
    let back : slot - 1 ≡ s = omega (arith, g.at_slot) in
    let (big, guard, head) = node in
    rw (back) (rw (guard) (rw (get_bnode_len-NodeAt t'.mem s need node) refl))

-- A node that a valid trunk of one block gives for a request of `size` bytes, seven less than 2^32 at
-- most, has room for them: get_bnode_mem_len answers with as many bytes or more.
pub get_bnode_mem_len-trunk_alloc :
    (t t' : CvspoolTrunk) (ns : List Node) (fs : List ℕ) (size slot : ℕ)
    → ValidTrunk t ns fs
    → size + 7 < 2 ^ 32
    → trunk_alloc t (need_slots_of size) ≡ some (some (t', slot))
    → (bytes : ℕ) × (get_bnode_mem_len t'.mem slot ≡ some bytes) × size ≤ bytes
get_bnode_mem_len-trunk_alloc t t' ns fs size slot v lt e = (
  (need_slots_of size - 1) * 4,
  handed_mem_len t t' ns (need_slots_of size) slot (
      subst (λ r. Gives t ns (need_slots_of size) r) e
        (trunk_alloc-Gives t ns fs (need_slots_of size) v (need_slots_of-ge size))),
  enough size lt,
)
