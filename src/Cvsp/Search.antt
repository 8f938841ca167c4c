-- ===== src/Cvsp/Search.antt =====
-- The search of cvsp_alloc (src/cvspool.c) along the ring.
use mathlib.Core.Path.{subst}
use leitner.Common.{
  ℕ, zero, suc, ◌+◌, ◌*◌, ◌<◌, ◌≤◌, ◌≡◌, ◌≢◌, inl, inr, sym, ap, ◌∙◌, arith, List, [], ◌∷◌, count,
  length, some, none, Option, true, false, Bool-cases, ==-ne, ◌==◌,
}
use leitner.Cvsp.Nodes.{Mem, half, next_fnode, prev_fnode, get_fnode_len, ◌>>=◌}
use leitner.Cvsp.Ring.{Links}
use leitner.Cvsp.Alloc.{search, fits}
use leitner.Cvsp.Tiles.{Node, free_node, busy_node, free_starts, NodeAt, Tiled}
use leitner.Cvsp.Lengths.{get_fnode_len-NodeAt}

-- The slots of the node at `fn`, as its head says.
abbrev pub len_of : Mem → ℕ → ℕ
len_of m fn = half m (2 * fn + 1) + 1

-- A search along `ys` comes back with a node of them that fits, or with the head if none does.
abbrev pub Searched : Mem → ℕ → List ℕ → Option (Option ℕ) → Type 0
Searched m need ys none = ⊥
Searched m need ys (some none) = (z : ℕ) → 0 < count z ys → fits (len_of m z) need ≡ false
Searched m need ys (some (some p)) = 0 < count p ys × (fits (len_of m p) need ≡ true)

-- What a search has found it finds in a longer list.
Searched-more :
    (m : Mem) (need y : ℕ) (ys : List ℕ) (r : Option (Option ℕ))
    → fits (len_of m y) need ≡ false
    → Searched m need ys r
    → Searched m need (y ∷ ys) r
Searched-more m need y ys none e h = h
Searched-more m need y ys (some none) e h = λ z i. elim (Bool-cases (y == z)) [
  | inl u ↦ subst (λ k. fits (len_of m k) need ≡ false) (ground (arith, u)) e
  | inr u ↦ h z (ground (arith, u, i))
]
Searched-more m need y ys (some (some p)) e (i, f) = (omega (arith, i), f)

pub search-Searched :
    (fuel : ℕ) (m : Mem) (need x : ℕ) (ys : List ℕ)
    → length ys < fuel
    → ((z : ℕ) → 0 < count z ys → (z ≢ 0) × (get_fnode_len m z ≡ some (len_of m z)))
    → Links (next_fnode m) (prev_fnode m) x ys 0
    → Searched m need ys (search fuel m need (next_fnode m x))
unfolding search
search-Searched zero m need x ys lt all l = absurd (omega (arith, lt))
search-Searched (suc fuel) m need x [] lt all (e, e') =
    rw (e, search) (λ z i. absurd (omega (arith, i)))
search-Searched (suc fuel) m need x (y ∷ ys) lt all ((e, e'), l) =
    let (ne, len) = all y (ground arith) in
    subst (λ k. Searched m need (y ∷ ys) (search (suc fuel) m need k)) (sym e)
      (rw (==-ne y 0 ne, search)
        (rw (len) (elim (Bool-cases (fits (len_of m y) need)) [
          | inl f ↦ rw (f, ◌>>=◌) (ground arith, f)
          | inr f ↦
              rw (f, ◌>>=◌)
                (Searched-more m need y ys (search fuel m need (next_fnode m y)) f (
                  search-Searched fuel m need y ys (omega (arith, lt))
                    (λ z i. all z (omega (arith, i))) l))
        ])))

-- The length of a free node, by its slot.
pub len_of_free :
    (m : Mem) (z s : ℕ) (ts : List Node) (e : ℕ)
    → Tiled m s ts e
    → 0 < count z (free_starts s ts)
    → get_fnode_len m z ≡ some (len_of m z)
len_of_free m z s [] e h i = absurd (omega (arith, i))
len_of_free m z s (free_node len ∷ ts) e (k, h) i = elim (Bool-cases (s == z)) [
  | inl u ↦
      subst (λ b. get_fnode_len m b ≡ some (len_of m b)) (ground (arith, u))
        (get_fnode_len-NodeAt m s len k ∙ sym (ap (λ b. some b) (second k)))
  | inr u ↦ len_of_free m z (s + len) ts e h (ground (arith, u, i))
]
  where
    second : NodeAt m s (free_node len) → len_of m s ≡ len
    second (a, b, c, d, f) = c
len_of_free m z s (busy_node len ∷ ts) e (k, h) i = len_of_free m z (s + len) ts e h i

-- No free node of the list has room.
abbrev pub Misses : ℕ → List Node → Type 0
Misses need [] = Unit
Misses need (free_node len ∷ ts) = (fits len need ≡ false) × Misses need ts
Misses need (busy_node len ∷ ts) = Misses need ts

pub none_fit :
    (m : Mem) (need s : ℕ) (ts : List Node) (e : ℕ)
    → Tiled m s ts e
    → ((z : ℕ) → 0 < count z (free_starts s ts) → fits (len_of m z) need ≡ false)
    → Misses need ts
none_fit m need s [] e h all = tt
none_fit m need s (free_node len ∷ ts) e ((a, b, c, d, f), h) all = (
  subst (λ k. fits k need ≡ false) c (all s (ground arith)),
  none_fit m need (s + len) ts e h (λ z i. all z (omega (arith, i))),
)
none_fit m need s (busy_node len ∷ ts) e (k, h) all = none_fit m need (s + len) ts e h all

pub length-free_starts :
    (m : Mem) (s : ℕ) (ts : List Node) (e : ℕ)
    → Tiled m s ts e
    → length (free_starts s ts) * 3 + s ≤ e
length-free_starts m s [] e h = omega (arith, h)
length-free_starts m s (free_node len ∷ ts) e (k, h) =
    omega (arith, k.0, length-free_starts m (s + len) ts e h)
length-free_starts m s (busy_node len ∷ ts) e (k, h) =
    omega (arith, k.0, length-free_starts m (s + len) ts e h)
