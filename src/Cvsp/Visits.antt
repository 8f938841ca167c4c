-- ===== src/Cvsp/Visits.antt =====
-- Which nodes cvsp_for_each_bnode of src/cvspool.c visits.
use leitner.Common.{◌≢◌}
use leitner.Common.{ltb→lt}
use leitner.Common.{
  ℕ, zero, suc, ◌+◌, ◌*◌, ◌≡◌, ◌≤◌, ◌<◌, refl, sym, ap, ◌∙◌, arith, List, [], ◌∷◌, ◌++◌, length,
  some, none, Option, true, false, ltb, ◌==◌, Bool-cases, if◌then◌else◌, inl, inr,
}
use leitner.Cvsp.Nodes.{Mem, ◌>>=◌, half, pad, get_bnode_len}
use leitner.Cvsp.Trunk.{CvspoolTrunk}
use leitner.Cvsp.Alloc.{CvspPool}
use leitner.Cvsp.Tiles.{Node, free_node, busy_node, size, slots, busy_slots, NodeAt, Tiled}
use leitner.Cvsp.Valid.{slots-Tiled}
use leitner.Cvsp.Give.{ValidTrunk}
use leitner.Cvsp.Joined.{get_bnode_len-NodeAt}
use leitner.Cvsp.Iterate.{
  find_bnode, from_tmp, iter_bnode, bnodes_loop, each_trunk, cvsp_for_each_bnode,
}

-- The contents of the busy nodes, but not of a last one of three slots.
abbrev pub visited : ℕ → List Node → List ℕ
visited s [] = []
visited s (free_node len ∷ ts) = visited (s + len) ts
visited s (busy_node len ∷ []) = if ltb 3 len then (s + 1) ∷ [] else []
visited s (busy_node len ∷ (t ∷ ts)) = (s + 1) ∷ visited (s + len) (t ∷ ts)

-- The first busy node that begins before `n`.
abbrev first_busy : ℕ → ℕ → List Node → Option ℕ
first_busy n s [] = none
first_busy n s (free_node len ∷ ts) = first_busy n (s + len) ts
first_busy n s (busy_node len ∷ ts) = if ltb s n then some s else none

-- Behind a node that begins in the last three slots there is no other.
nothing_behind :
    (m : Mem) (n s : ℕ) (k : Node) (ts : List Node)
    → Tiled m s (k ∷ ts) (n + 3)
    → n ≤ s
    → 3 ≤ size k
    → (ts ≡ []) × (size k ≡ 3)
nothing_behind m n s k [] (a, h) le big = (refl, omega (arith, h, le, big))
nothing_behind m n s k (free_node len ∷ ts) (a, (b, h)) le big =
    absurd (omega (arith, b.0, le, big, slots-Tiled m (s + size k + len) ts (n + 3) h))
nothing_behind m n s k (busy_node len ∷ ts) (a, (b, h)) le big =
    absurd (omega (arith, b.0, le, big, slots-Tiled m (s + size k + len) ts (n + 3) h))

not_busy : (m : Mem) (s len : ℕ) → NodeAt m s (free_node len) → (half m (2 * s) == 65528) ≡ false
unfolding pad
not_busy m s len (big, p, a, b, c) = ground (arith, p)

len_of : (m : Mem) (s len : ℕ) → NodeAt m s (free_node len) → get_bnode_len m s ≡ len
unfolding get_bnode_len
len_of m s len (big, p, a, b, c) = a

find_bnode-first_busy :
    (m : Mem) (n fuel s : ℕ) (ts : List Node)
    → Tiled m s ts (n + 3)
    → length ts < fuel
    → find_bnode fuel m n s ≡ some (first_busy n s ts)
unfolding find_bnode
find_bnode-first_busy m n zero s ts h lt = absurd (omega (arith, lt))
find_bnode-first_busy m n (suc fuel) s [] h lt =
    let over : ltb s n ≡ false = ground (arith, h) in rw (over, find_bnode) refl
find_bnode-first_busy m n (suc fuel) s (free_node len ∷ ts) (k, h) lt =
    elim (Bool-cases (ltb s n)) [
      | inl u ↦
          rw (u, find_bnode)
            (rw (not_busy m s len k) (
              rw (len_of m s len k)
                (find_bnode-first_busy m n fuel (s + len) ts h (omega (arith, lt)))))
      | inr u ↦
          let (none_left, e) =
            nothing_behind m n s (free_node len) ts (k, h) (ground (arith, u)) k.0 in
          rw (u, find_bnode) (ap (λ ts. some (first_busy n (s + len) ts)) (sym none_left))
    ]
find_bnode-first_busy m n (suc fuel) s (busy_node len ∷ ts) (k, h) lt =
    elim (Bool-cases (ltb s n)) [
      | inl u ↦ rw (u, find_bnode) (rw (k.1) refl)
      | inr u ↦ rw (u, find_bnode) refl
    ]

-- What the loop does with what a search has found.
abbrev cont : ℕ → CvspoolTrunk → Option ℕ → Option (Option ℕ × List ℕ)
cont fuel t none = some (none, [])
cont fuel t (some fn) =
    bnodes_loop fuel t (some fn) >>= λ (tmp, slots). some (tmp, (fn + 1) ∷ slots)

bnodes_loop-found :
    (fuel : ℕ) (t : CvspoolTrunk) (tmp r : Option ℕ)
    → (t.t_used == 0) ≡ false
    → find_bnode (suc t.t_total) t.mem t.t_total (from_tmp t.mem tmp) ≡ some r
    → bnodes_loop (suc fuel) t tmp ≡ cont fuel t r
unfolding bnodes_loop iter_bnode
bnodes_loop-found fuel t tmp none busy e = rw (busy) (rw (e, ◌>>=◌) refl)
bnodes_loop-found fuel t tmp (some fn) busy e = rw (busy) (rw (e, ◌>>=◌) refl)

in_sight :
    (m : Mem) (n s len : ℕ) (ts : List Node)
    → Tiled m (s + len) ts (n + 3)
    → s < n
    → ((s + 1) ∷ visited (s + len) ts) ≡ visited s (busy_node len ∷ ts)
in_sight m n s len [] h lt = let long : ltb 3 len ≡ true = ground (arith, h, lt) in rw (long) refl
in_sight m n s len (t ∷ ts) h lt = refl

out_of_sight :
    (s len : ℕ) (ts : List Node) → ts ≡ [] → len ≡ 3 → [] ≡ visited s (busy_node len ∷ ts)
out_of_sight s len [] e short = rw (short) refl
out_of_sight s len (t ∷ ts) e short = absurd (omega (arith, ap length e))

-- The next round of the loop.
round_on :
    (fuel : ℕ) (t : CvspoolTrunk) (s len : ℕ) (ts : List Node)
    → (t.t_used == 0) ≡ false
    → NodeAt t.mem s (busy_node len)
    → Tiled t.mem (s + len) ts (t.t_total + 3)
    → length ts ≤ t.t_total
    → bnodes_loop (suc fuel) t (some s) ≡ cont fuel t (first_busy t.t_total (s + len) ts)
round_on fuel t s len ts busy k h room =
    bnodes_loop-found fuel t (some s) (first_busy t.t_total (s + len) ts) busy (
      rw (get_bnode_len-NodeAt t.mem s len k) (
        find_bnode-first_busy t.mem t.t_total (suc t.t_total) (s + len) ts h (omega (arith, room))))

-- A trunk in use visits what its nodes from `s` on say.
loop-visited :
    (fuel : ℕ) (t : CvspoolTrunk) (s : ℕ) (ts : List Node)
    → (t.t_used == 0) ≡ false
    → Tiled t.mem s ts (t.t_total + 3)
    → length ts ≤ t.t_total
    → length ts ≤ fuel
    → cont fuel t (first_busy t.t_total s ts) ≡ some (none, visited s ts)
loop-visited fuel t s [] busy h room le = refl
loop-visited fuel t s (free_node len ∷ ts) busy (k, h) room le =
    loop-visited fuel t (s + len) ts busy h (omega (arith, room)) (omega (arith, le))
loop-visited zero t s (busy_node len ∷ ts) busy (k, h) room le = absurd (omega (arith, le))
loop-visited (suc fuel) t s (busy_node len ∷ ts) busy (k, h) room le =
    elim (Bool-cases (ltb s t.t_total)) [
      | inl u ↦ rw (u) (
          rw (round_on fuel t s len ts busy k h (omega (arith, room))) (
            rw (loop-visited fuel t (s + len) ts busy h (omega (arith, room)) (omega (arith, le))) (
              ap (λ xs. some (none, xs))
                (in_sight t.mem t.t_total s len ts h (ltb→lt s t.t_total u)))))
      | inr u ↦
          let (none_left, short) =
            nothing_behind t.mem t.t_total s (busy_node len) ts (k, h) (ground (arith, u)) k.0 in
          rw (u) (ap (λ xs. some (none, xs)) (out_of_sight s len ts none_left short))
    ]

none_visited :
    (m : Mem) (s : ℕ) (ts : List Node) (e : ℕ)
    → Tiled m s ts e
    → busy_slots ts ≡ 0
    → visited s ts ≡ []
none_visited m s [] e h z = refl
none_visited m s (free_node len ∷ ts) e (k, h) z = none_visited m (s + len) ts e h z
none_visited m s (busy_node len ∷ ts) e (k, h) z = absurd (omega (arith, z, k.0))

few_nodes : (m : Mem) (s : ℕ) (ts : List Node) (e : ℕ) → Tiled m s ts e → length ts * 3 + s ≤ e
few_nodes m s [] e h = omega (arith, h)
few_nodes m s (free_node len ∷ ts) e (k, h) = omega (arith, few_nodes m (s + len) ts e h, k.0)
few_nodes m s (busy_node len ∷ ts) e (k, h) = omega (arith, few_nodes m (s + len) ts e h, k.0)

some_node : (ts : List Node) → busy_slots ts ≢ 0 → 0 < length ts
some_node [] ne = absurd (ne refl)
some_node (t ∷ ts) ne = omega arith

-- The loop on a valid trunk from its head on.
bnodes_loop-visited :
    (t : CvspoolTrunk) (ns : List Node) (fs : List ℕ)
    → ValidTrunk t ns fs
    → bnodes_loop (suc t.t_total) t none ≡ some (none, visited 3 ns)
unfolding bnodes_loop iter_bnode
bnodes_loop-visited t ns fs v =
    let few : length ns ≤ t.t_total =
      omega (arith, few_nodes t.mem 3 ns (t.t_total + 3) v.valid.tiled) in
    elim (Bool-cases (t.t_used == 0)) [
      | inl u ↦ rw (u) (
          ap (λ xs. some (none, xs))
            (sym (
              none_visited t.mem 3 ns (t.t_total + 3) v.valid.tiled
                (sym v.used ∙ ground (arith, u)))))
      | inr u ↦
          bnodes_loop-found t.t_total t none (first_busy t.t_total 3 ns) u (
            find_bnode-first_busy t.mem t.t_total (suc t.t_total) 0 (free_node 3 ∷ ns)
              (v.valid.head, v.valid.tiled)
              (omega (
                arith,
                few_nodes t.mem 3 ns (t.t_total + 3) v.valid.tiled,
                some_node ns (λ e. ground (arith, u, v.used, e)),
              )))
          ∙ loop-visited t.t_total t 3 ns u v.valid.tiled few few
    ]

-- The list as often as the number says.
abbrev pub repeated : ℕ → List ℕ → List ℕ
repeated zero xs = []
repeated (suc k) xs = xs ++ repeated k xs

each_trunk-visited :
    (ts : List CvspoolTrunk) (t : CvspoolTrunk) (ns : List Node) (fs : List ℕ)
    → ValidTrunk t ns fs
    → each_trunk ts t none ≡ some (none, repeated (length ts) (visited 3 ns))
unfolding each_trunk
each_trunk-visited [] t ns fs v = refl
each_trunk-visited (u ∷ us) t ns fs v =
    rw (bnodes_loop-visited t ns fs v, ◌>>=◌) (rw (each_trunk-visited us t ns fs v, ◌>>=◌) refl)

-- On a pool whose first trunk is valid, cvsp_for_each_bnode calls fn for the busy nodes of the first
-- trunk, one after the other, once for each trunk of the pool; a last node of three slots is left out. It
-- comes to its end and leaves the static pointer as NULL.
pub cvsp_for_each_bnode-visited :
    (sp : CvspPool) (t : CvspoolTrunk) (ts : List CvspoolTrunk) (ns : List Node) (fs : List ℕ)
    → sp.trunk_list ≡ t ∷ ts
    → ValidTrunk t ns fs
    → cvsp_for_each_bnode sp none ≡ some (none, repeated (suc (length ts)) (visited 3 ns))
unfolding cvsp_for_each_bnode
cvsp_for_each_bnode-visited sp t ts ns fs e v = rw (e) (each_trunk-visited (t ∷ ts) t ns fs v)
