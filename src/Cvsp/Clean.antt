-- ===== src/Cvsp/Clean.antt =====
-- When cvsp_free of src/cvspool.c stops: a node in use that ends with what a free node left there.
use leitner.Common.{ℕ, ◌+◌, ◌-◌, ◌≡◌, refl, arith, List, ◌∷◌, ◌++◌, none}
use leitner.Cvsp.Nodes.{Mem, half, pad, ◌>>=◌, free_guard1, tail_len, tail_guard}
use leitner.Cvsp.Trunk.{CvspoolTrunk}
use leitner.Cvsp.Free.{merged, trunk_free, prev_free, before_node}
use leitner.Cvsp.Tiles.{Node, busy_node, slots, NodeAt}
use leitner.Cvsp.Links.{Tiled-cut}
use leitner.Cvsp.Give.{ValidTrunk}

prev_stops :
    (m : Mem) (s l : ℕ)
    → NodeAt m s (busy_node l)
    → half m (tail_len s l) + 1 ≡ l
    → half m (tail_guard s l) ≡ free_guard1
    → prev_free m (s + l) ≡ none
unfolding prev_free pad
prev_stops m s l (a, g, b) e e' =
    let found : before_node m (s + l) ≡ s = omega (arith, e) in
    rw (found) (ground (arith, a, g, e, e'))

-- Two nodes in use side by side, of which the first still ends with the length and the guard that the free
-- node of the same slots had there: freeing the second fails at an assertion.
pub trunk_free_stops :
    (t : CvspoolTrunk) (before : List Node) (l len : ℕ) (behind : List Node) (fs : List ℕ)
    → ValidTrunk t (before ++ (busy_node l ∷ (busy_node len ∷ behind))) fs
    → half t.mem (tail_len (3 + slots before) l) + 1 ≡ l
    → half t.mem (tail_guard (3 + slots before) l) ≡ free_guard1
    → trunk_free t (3 + slots before + l + 1) ≡ none
unfolding trunk_free merged
trunk_free_stops t before l len behind fs v e e' =
    let s : ℕ = 3 + slots before in
    let there =
      Tiled-cut t.mem 3 before (busy_node l ∷ (busy_node len ∷ behind)) (t.t_total + 3)
        v.valid.tiled in
    let (big, guard, head) = there.1.1.0 in
    let back : s + l + 1 - 1 ≡ s + l = omega arith in
    rw (back) (rw (guard) (rw (prev_stops t.mem s l there.1.0 e e', ◌>>=◌) refl))
