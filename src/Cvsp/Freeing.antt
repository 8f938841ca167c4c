-- ===== src/Cvsp/Freeing.antt =====
-- Which of its four branches cvsp_free (src/cvspool.c) takes, and what it leaves.
use leitner.Common.{
  ℕ, ◌+◌, ◌-◌, ◌*◌, ◌<◌, ◌≡◌, ◌≢◌, refl, ap, arith, List, [], ◌∷◌, ◌++◌, some, none, true, false,
}
use leitner.Cvsp.Nodes.{Mem, half, pad, free_guard0, free_guard1}
use leitner.Cvsp.Free.{next_free, prev_free, before_node}
use leitner.Cvsp.Tiles.{Node, free_node, busy_node, slots, NodeAt}
use leitner.Cvsp.Joined.{get_bnode_len-NodeAt}

-- A free node of `l` slots put before nodes, joined to a free one.
abbrev pub grow : ℕ → List Node → List Node
grow l [] = free_node l ∷ []
grow l (free_node k ∷ ts) = free_node (l + k) ∷ ts
grow l (busy_node k ∷ ts) = free_node l ∷ (busy_node k ∷ ts)

-- The nodes put behind others, joined where a free one meets a free one.
abbrev pub put : List Node → List Node → List Node
put [] ys = ys
put (busy_node l ∷ []) ys = busy_node l ∷ ys
put (free_node l ∷ []) ys = grow l ys
put (t ∷ (u ∷ ts)) ys = t ∷ put (u ∷ ts) ys

-- The nodes of a trunk when the busy one of `len` slots between others is freed.
abbrev pub released : List Node → ℕ → List Node → List Node
released before len behind = put before (grow len behind)

pub put-snoc :
    (ts : List Node) (t : Node) (ys : List Node) → put (ts ++ (t ∷ [])) ys ≡ ts ++ put (t ∷ []) ys
put-snoc [] t ys = refl
put-snoc (x ∷ []) t ys = refl
put-snoc (x ∷ (y ∷ ts)) t ys = ap (λ k. x ∷ k) (put-snoc (y ∷ ts) t ys)

pub data Last (ts : List Node) : Type 0 where
  nothing : ts ≡ [] → Last ts
  last : (xs : List Node) (t : Node) → ts ≡ xs ++ (t ∷ []) → Last ts

pub last_node : (ts : List Node) → Last ts
last_node [] = nothing refl
last_node (x ∷ ts) = elim (last_node ts) [
  | nothing e ↦ last [] x (ap (λ k. x ∷ k) e)
  | last xs t e ↦ last (x ∷ xs) t (ap (λ k. x ∷ k) e)
]

module _ (m : Mem) (p len : ℕ) (busy : NodeAt m p (busy_node len)) where
  pub next-free : (k : ℕ) → NodeAt m (p + len) (free_node k) → next_free m p ≡ true
  next-free k (a, g, b, c, d) = rw (get_bnode_len-NodeAt m p len busy) (ground (arith, g))

  pub next-busy : (k : ℕ) → NodeAt m (p + len) (busy_node k) → next_free m p ≡ false
  unfolding pad
  next-busy k (a, g, b) = rw (get_bnode_len-NodeAt m p len busy) (ground (arith, g))

  pub next-none : pad m (p + len) ≢ free_guard0 → next_free m p ≡ false
  next-none ne = rw (get_bnode_len-NodeAt m p len busy) (ground (arith, ne))

pub prev-head : (m : Mem) → NodeAt m 0 (free_node 3) → prev_free m 3 ≡ some none
unfolding prev_free
prev-head m (a, b, c, d, e) = ground (arith, b, c, d, e)

pub prev-busy : (m : Mem) (p : ℕ) → half m (2 * p - 1) ≢ free_guard1 → prev_free m p ≡ some none
unfolding prev_free
prev-busy m p ne = ground (arith, ne)

pub prev-free :
    (m : Mem) (pre l : ℕ)
    → 0 < pre
    → NodeAt m pre (free_node l)
    → prev_free m (pre + l) ≡ some (some pre)
unfolding prev_free
prev-free m pre l pos (a, b, c, d, e) =
    let found : before_node m (pre + l) ≡ pre = omega (arith, d) in
    rw (found) (ground (arith, pos, a, b, c, d, e))

-- The slot before the node is not taken for the end of a free node: where a node in use lies before it,
-- that one's last bytes are not the guard.
abbrev pub CleanBefore : Mem → List Node → Type 0
CleanBefore m before =
    (xs : List Node) (l : ℕ)
    → before ≡ xs ++ (busy_node l ∷ [])
    → half m (2 * (3 + slots before) - 1) ≢ free_guard1

-- Where no node lies behind, the byte behind the memory is not the guard.
abbrev pub CleanBehind : Mem → ℕ → List Node → Type 0
CleanBehind m end behind = behind ≡ [] → pad m end ≢ free_guard0
