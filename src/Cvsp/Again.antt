-- ===== src/Cvsp/Again.antt =====
-- A node given out by cvsp_alloc and freed at once (src/cvspool.c).
use mathlib.Core.Path.{subst}
use leitner.Common.{
  ℕ, ◌+◌, ◌-◌, ◌*◌, ◌≡◌, ◌≢◌, ◌≤◌, ◌<◌, sym, ◌∙◌, arith, List, [], ◌∷◌, ◌++◌, some, Option,
}
use leitner.Cvsp.Nodes.{Mem, half, pad, free_guard0, free_guard1}
use leitner.Cvsp.Trunk.{CvspoolTrunk}
use leitner.Cvsp.Alloc.{trunk_alloc}
use leitner.Cvsp.Free.{trunk_free}
use leitner.Cvsp.Tiles.{Node, free_node, busy_node, slots, Kept, Tiled}
use leitner.Cvsp.Links.{Tiled-cut, Kept-cut}
use leitner.Cvsp.Give.{ValidTrunk, Given, Gives}
use leitner.Cvsp.Freeing.{released}
use leitner.Cvsp.Release.{trunk_free-Released}
use leitner.Cvsp.Allocation.{trunk_alloc-Gives}
use leitner.Cvsp.Coalesced.{Coalesced, rest_of, cut_rest, released-rest_of}

-- No node in use ends with the guard of a free one.
abbrev pub AllClean : Mem → ℕ → List Node → Type 0
AllClean m s [] = Unit
AllClean m s (free_node len ∷ ts) = AllClean m (s + len) ts
AllClean m s (busy_node len ∷ ts) =
    (half m (2 * (s + len) - 1) ≢ free_guard1) × AllClean m (s + len) ts

clean_last :
    (m : Mem) (s : ℕ) (xs : List Node) (l : ℕ) (ts : List Node)
    → AllClean m s ((xs ++ (busy_node l ∷ [])) ++ ts)
    → half m (2 * (s + slots (xs ++ (busy_node l ∷ []))) - 1) ≢ free_guard1
clean_last m s [] l ts h = subst (λ k. half m (2 * (s + k) - 1) ≢ free_guard1) (omega arith) h.0
clean_last m s (free_node len ∷ xs) l ts h =
    subst (λ k. half m (2 * k - 1) ≢ free_guard1) (omega arith) (clean_last m (s + len) xs l ts h)
clean_last m s (busy_node len ∷ xs) l ts (k, h) =
    subst (λ k. half m (2 * k - 1) ≢ free_guard1) (omega arith) (clean_last m (s + len) xs l ts h)

kept_last :
    (m m' : Mem) (s : ℕ) (xs : List Node) (l : ℕ)
    → 0 < l
    → Kept m m' s (xs ++ (busy_node l ∷ []))
    → half m' (2 * (s + slots (xs ++ (busy_node l ∷ []))) - 1)
      ≡ half m (2 * (s + slots (xs ++ (busy_node l ∷ []))) - 1)
kept_last m m' s [] l pos (k, h) =
    k (2 * (s + (l + 0)) - 1) (omega (arith, pos)) (omega (arith, pos))
kept_last m m' s (free_node len ∷ xs) l pos h =
    subst (λ k. half m' (2 * k - 1) ≡ half m (2 * k - 1)) (omega arith)
      (kept_last m m' (s + len) xs l pos h)
kept_last m m' s (busy_node len ∷ xs) l pos (k, h) =
    subst (λ k. half m' (2 * k - 1) ≡ half m (2 * k - 1)) (omega arith)
      (kept_last m m' (s + len) xs l pos h)

still_clean :
    (m m' : Mem) (xs : List Node) (l : ℕ) (ts before : List Node)
    → before ≡ xs ++ (busy_node l ∷ [])
    → AllClean m 3 (before ++ ts)
    → Kept m m' 3 before
    → Tiled m 3 before (3 + slots before)
    → half m' (2 * (3 + slots before) - 1) ≢ free_guard1
still_clean m m' xs l ts before e h k tiled =
    let pos =
      (Tiled-cut m 3 xs (busy_node l ∷ []) (3 + slots before)
        (subst (λ b. Tiled m 3 b (3 + slots before)) e tiled)).1.0.0 in
    subst (λ b. half m' (2 * (3 + slots b) - 1) ≢ free_guard1) (sym e)
      (λ u.
        clean_last m 3 xs l ts (subst (λ b. AllClean m 3 (b ++ ts)) e h)
          (sym (kept_last m m' 3 xs l (omega (arith, pos)) (subst (λ b. Kept m m' 3 b) e k)) ∙ u))

-- The trunk as it was before, with the same nodes.
pub record Restored (t : CvspoolTrunk) (ns : List Node) (r : Option CvspoolTrunk) : Type 0 where
  pub after : CvspoolTrunk
  pub returned : r ≡ some after
  pub order : List ℕ
  pub trunk : ValidTrunk after ns order
  pub same_used : after.t_used ≡ t.t_used

given_back :
    (t t' : CvspoolTrunk) (ns : List Node) (fs : List ℕ) (need slot : ℕ)
    → ValidTrunk t ns fs
    → Coalesced ns
    → AllClean t.mem 3 ns
    → pad t'.mem (t.t_total + 3) ≢ free_guard0
    → Given t ns need t' slot
    → Restored t ns (trunk_free t' slot)
given_back t t' ns fs need slot v c clean end g =
    let v' : ValidTrunk t' (g.before ++ (busy_node need ∷ rest_of g.len need g.behind)) g.order =
      subst (λ k. ValidTrunk t' (g.before ++ k) g.order) (cut_rest g.len need g.behind) g.trunk in
    let r =
      trunk_free-Released t' g.before need (rest_of g.len need g.behind) g.order v'
        (λ xs l e.
          still_clean t.mem t'.mem xs l (free_node g.len ∷ g.behind) g.before e
            (subst (λ k. AllClean t.mem 3 k) g.was clean)
            (Kept-cut t.mem t'.mem 3 g.before (free_node g.len ∷ g.behind)
              (subst (λ k. Kept t.mem t'.mem 3 k) g.was g.kept)).0
            (Tiled-cut t.mem 3 g.before (free_node g.len ∷ g.behind) (t.t_total + 3)
              (subst (λ k. Tiled t.mem 3 k (t.t_total + 3)) g.was v.valid.tiled)).0)
        (λ e. subst (λ k. pad t'.mem (k + 3) ≢ free_guard0) (sym g.same.1) end) in
    let nodes : released g.before need (rest_of g.len need g.behind) ≡ ns =
      released-rest_of g.before g.len need g.behind (subst Coalesced g.was c) g.fitting
      ∙ sym g.was in
    let v'' : ValidTrunk r.after ns r.order =
      subst (λ k. ValidTrunk r.after k r.order) nodes r.trunk in
    record {
      after = r.after;
      returned = subst (λ k. trunk_free t' k ≡ some r.after) (sym g.at_slot) r.returned;
      order = r.order;
      trunk = v'';
      same_used = v''.used ∙ sym v.used;
    }

-- A node that a valid trunk of one block gives is taken back at once: the trunk has the same nodes as
-- before, free and in use, and the same count of used slots. Before the call no two free nodes lie side by
-- side and no node in use ends with the free guard, and the byte behind the memory is not the guard.
pub trunk_free-trunk_alloc :
    (t t' : CvspoolTrunk) (ns : List Node) (fs : List ℕ) (need slot : ℕ)
    → ValidTrunk t ns fs
    → Coalesced ns
    → AllClean t.mem 3 ns
    → 3 ≤ need
    → trunk_alloc t need ≡ some (some (t', slot))
    → pad t'.mem (t.t_total + 3) ≢ free_guard0
    → Restored t ns (trunk_free t' slot)
trunk_free-trunk_alloc t t' ns fs need slot v c clean pos e end =
    given_back t t' ns fs need slot v c clean end
      (subst (Gives t ns need) e (trunk_alloc-Gives t ns fs need v pos))
