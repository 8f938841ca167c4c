-- ===== src/Cvsp/Coalesced.antt =====
-- No two free nodes lie side by side: what cvsp_free (src/cvspool.c) merges for.
use mathlib.Core.Path.{subst}
use leitner.Common.{
  ℕ, ◌+◌, ◌-◌, ◌≡◌, refl, sym, ap, ◌∙◌, arith, List, [], ◌∷◌, ◌++◌, true, if◌then◌else◌, ◌==◌,
  Bool-cases, ==_iff, inl, inr,
}
use leitner.Cvsp.Tiles.{Node, free_node, busy_node}
use leitner.Cvsp.Alloc.{fits}
use leitner.Cvsp.Give.{cut_node}
use leitner.Cvsp.Freeing.{grow, put, released}

abbrev pub Coalesced : List Node → Type 0
Coalesced [] = Unit
Coalesced (t ∷ []) = Unit
Coalesced (free_node a ∷ (free_node b ∷ ts)) = ⊥
Coalesced (free_node a ∷ (busy_node b ∷ ts)) = Coalesced (busy_node b ∷ ts)
Coalesced (busy_node a ∷ (u ∷ ts)) = Coalesced (u ∷ ts)

tail-Coalesced : (t : Node) (ts : List Node) → Coalesced (t ∷ ts) → Coalesced ts
tail-Coalesced t [] h = tt
tail-Coalesced (free_node a) (free_node b ∷ ts) h = absurd h
tail-Coalesced (free_node a) (busy_node b ∷ ts) h = h
tail-Coalesced (busy_node a) (u ∷ ts) h = h

pub back-Coalesced : (xs ts : List Node) → Coalesced (xs ++ ts) → Coalesced ts
back-Coalesced [] ts h = h
back-Coalesced (x ∷ xs) ts h = back-Coalesced xs ts (tail-Coalesced x (xs ++ ts) h)

front-Coalesced : (xs ts : List Node) → Coalesced (xs ++ ts) → Coalesced xs
front-Coalesced [] ts h = tt
front-Coalesced (x ∷ []) ts h = tt
front-Coalesced (free_node a ∷ (free_node b ∷ xs)) ts h = absurd h
front-Coalesced (free_node a ∷ (busy_node b ∷ xs)) ts h = front-Coalesced (busy_node b ∷ xs) ts h
front-Coalesced (busy_node a ∷ (u ∷ xs)) ts h = front-Coalesced (u ∷ xs) ts h

resized-Coalesced :
    (a b : ℕ) (ts : List Node) → Coalesced (free_node a ∷ ts) → Coalesced (free_node b ∷ ts)
resized-Coalesced a b [] h = tt
resized-Coalesced a b (free_node c ∷ ts) h = absurd h
resized-Coalesced a b (busy_node c ∷ ts) h = h

grow-Coalesced : (l : ℕ) (ts : List Node) → Coalesced ts → Coalesced (grow l ts)
grow-Coalesced l [] h = tt
grow-Coalesced l (free_node k ∷ ts) h = resized-Coalesced k (l + k) ts h
grow-Coalesced l (busy_node k ∷ ts) h = h

busy-Coalesced : (a : ℕ) (ts : List Node) → Coalesced ts → Coalesced (busy_node a ∷ ts)
busy-Coalesced a [] h = tt
busy-Coalesced a (u ∷ ts) h = h

-- A node in use stays in front.
free_busy-Coalesced :
    (a b : ℕ) (ts ys : List Node)
    → Coalesced (put (busy_node b ∷ ts) ys)
    → Coalesced (free_node a ∷ put (busy_node b ∷ ts) ys)
free_busy-Coalesced a b [] ys h = h
free_busy-Coalesced a b (u ∷ ts) ys h = h

put-Coalesced : (xs ys : List Node) → Coalesced xs → Coalesced ys → Coalesced (put xs ys)
put-Coalesced [] ys h h' = h'
put-Coalesced (free_node a ∷ []) ys h h' = grow-Coalesced a ys h'
put-Coalesced (busy_node a ∷ []) ys h h' = busy-Coalesced a ys h'
put-Coalesced (free_node a ∷ (free_node b ∷ xs)) ys h h' = absurd h
put-Coalesced (free_node a ∷ (busy_node b ∷ xs)) ys h h' =
    free_busy-Coalesced a b xs ys (put-Coalesced (busy_node b ∷ xs) ys h h')
put-Coalesced (busy_node a ∷ (u ∷ xs)) ys h h' =
    busy-Coalesced a (put (u ∷ xs) ys) (put-Coalesced (u ∷ xs) ys h h')

-- A freed node leaves no free node beside a free one where there was none before.
pub released-Coalesced :
    (before : List Node) (len : ℕ) (behind : List Node)
    → Coalesced (before ++ (busy_node len ∷ behind))
    → Coalesced (released before len behind)
released-Coalesced before len behind h =
    put-Coalesced before (grow len behind) (front-Coalesced before (busy_node len ∷ behind) h) (
      grow-Coalesced len behind
        (tail-Coalesced (busy_node len) behind (back-Coalesced before (busy_node len ∷ behind) h)))

put-free :
    (xs : List Node) (len : ℕ) (ts : List Node)
    → Coalesced (xs ++ (free_node len ∷ ts))
    → put xs (free_node len ∷ ts) ≡ xs ++ (free_node len ∷ ts)
put-free [] len ts h = refl
put-free (free_node a ∷ []) len ts h = absurd h
put-free (busy_node a ∷ []) len ts h = refl
put-free (free_node a ∷ (u ∷ xs)) len ts h =
    ap (λ k. free_node a ∷ k)
      (put-free (u ∷ xs) len ts (tail-Coalesced (free_node a) (u ∷ (xs ++ (free_node len ∷ ts))) h))
put-free (busy_node a ∷ (u ∷ xs)) len ts h = ap (λ k. busy_node a ∷ k) (put-free (u ∷ xs) len ts h)

grow-free :
    (len : ℕ) (ts : List Node) → Coalesced (free_node len ∷ ts) → grow len ts ≡ free_node len ∷ ts
grow-free len [] h = refl
grow-free len (free_node k ∷ ts) h = absurd h
grow-free len (busy_node k ∷ ts) h = refl

-- What lies behind the part that was cut off a free node.
abbrev pub rest_of : ℕ → ℕ → List Node → List Node
rest_of len need behind = if len == need then behind else free_node (len - need) ∷ behind

pub cut_rest :
    (len need : ℕ) (behind : List Node)
    → cut_node len need ++ behind ≡ busy_node need ∷ rest_of len need behind
cut_rest len need behind = elim (Bool-cases (len == need)) [
  | inl u ↦ rw (u) refl
  | inr u ↦ rw (u) refl
]

-- The part put back is the free node again.
pub released-rest_of :
    (before : List Node) (len need : ℕ) (behind : List Node)
    → Coalesced (before ++ (free_node len ∷ behind))
    → fits len need ≡ true
    → released before need (rest_of len need behind) ≡ before ++ (free_node len ∷ behind)
released-rest_of before len need behind h f = elim (Bool-cases (len == need)) [
  | inl u ↦ rw (u) (
      subst (λ k. put before (grow k behind) ≡ before ++ (free_node len ∷ behind))
        ((==_iff len need).0 u)
        (ap (put before) (grow-free len behind (back-Coalesced before (free_node len ∷ behind) h))
          ∙ put-free before len behind h))
  | inr u ↦ rw (u) (
      let whole : need + (len - need) ≡ len = ground (arith, u, f) in
      ap (λ k. put before (free_node k ∷ behind)) whole ∙ put-free before len behind h)
]

busy_for_free :
    (xs : List Node) (len need : ℕ) (ts us : List Node)
    → Coalesced (xs ++ (free_node len ∷ ts))
    → Coalesced us
    → Coalesced (xs ++ (busy_node need ∷ us))
busy_for_free [] len need ts us h h' = busy-Coalesced need us h'
busy_for_free (free_node a ∷ []) len need ts us h h' = absurd h
busy_for_free (busy_node a ∷ []) len need ts us h h' = busy-Coalesced need us h'
busy_for_free (free_node a ∷ (free_node b ∷ xs)) len need ts us h h' = absurd h
busy_for_free (free_node a ∷ (busy_node b ∷ xs)) len need ts us h h' =
    busy_for_free (busy_node b ∷ xs) len need ts us h h'
busy_for_free (busy_node a ∷ (u ∷ xs)) len need ts us h h' =
    busy_for_free (u ∷ xs) len need ts us h h'

-- An allocation leaves no two free nodes side by side.
pub cut-Coalesced :
    (before : List Node) (len need : ℕ) (behind : List Node)
    → Coalesced (before ++ (free_node len ∷ behind))
    → Coalesced (before ++ (cut_node len need ++ behind))
cut-Coalesced before len need behind h =
    subst (λ k. Coalesced (before ++ k)) (sym (cut_rest len need behind))
      (busy_for_free before len need behind (rest_of len need behind) h
        (elim (Bool-cases (len == need)) [
          | inl u ↦ rw (u) (
              tail-Coalesced (free_node len) behind
                (back-Coalesced before (free_node len ∷ behind) h))
          | inr u ↦ rw (u) (
              resized-Coalesced len (len - need) behind
                (back-Coalesced before (free_node len ∷ behind) h))
        ]))
