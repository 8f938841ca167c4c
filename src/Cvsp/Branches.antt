-- ===== src/Cvsp/Branches.antt =====
-- The branches of cvsp_free (src/cvspool.c), by the nodes beside the freed one.
use mathlib.Core.Path.{subst}
use leitner.Common.{ℕ, ◌+◌, ◌≡◌, ◌≢◌, refl, sym, arith, List, [], ◌∷◌, ◌++◌, some, none, Option}
use leitner.Cvsp.Nodes.{Mem, pad, ◌>>=◌, free_guard0}
use leitner.Cvsp.Free.{merge_both, prev_free, merged}
use leitner.Cvsp.Tiles.{Node, free_node, busy_node, slots, Tiled}
use leitner.Cvsp.Links.{Tiled-cut}
use leitner.Cvsp.Valid.{Valid}
use leitner.Cvsp.Region.{count-parts}
use leitner.Cvsp.Give.{find_place}
use leitner.Cvsp.Joined.{Freed, merge_prev-Freed, merge_both-Freed}
use leitner.Cvsp.MergeNext.{merge_next-Freed}
use leitner.Cvsp.AddLast.{add_last-Freed}
use leitner.Cvsp.Freeing.{grow, CleanBehind, next-free, next-busy, next-none, prev-free}

-- A free node that was joined holds nothing.
with_free :
    (m : Mem) (n : ℕ) (before : List Node) (end k : ℕ) (behind ns : List Node) (r : Option Mem)
    → Freed m n before (end + k) behind ns r
    → Freed m n before end (free_node k ∷ behind) ns r
with_free m n before end k behind ns r f = record {
  mem = f.mem;
  returned = f.returned;
  order = f.order;
  valid = f.valid;
  kept = f.kept;
}

module _ (m : Mem) (n : ℕ) (len : ℕ) where
  nodes_at :
      (before ts : List Node) (p : ℕ) (fs : List ℕ)
      → p ≡ 3 + slots before
      → Valid m n (before ++ ts) fs
      → Tiled m p ts (n + 3)
  nodes_at before ts p fs at v =
      subst (λ j. Tiled m j ts (n + 3)) (sym at) (Tiled-cut m 3 before ts (n + 3) v.tiled).1

  -- Behind a node in use, or the head.
  pub free_alone :
      (before behind : List Node) (p : ℕ) (fs : List ℕ)
      → p ≡ 3 + slots before
      → Valid m n (before ++ (busy_node len ∷ behind)) fs
      → CleanBehind m (n + 3) behind
      → prev_free m p ≡ some none
      → Freed m n before (p + len) behind (before ++ grow len behind) (merged m p)
  unfolding merged
  free_alone before [] p fs at v clean alone =
      let there = nodes_at before (busy_node len ∷ []) p fs at v in
      rw (alone, ◌>>=◌)
        (rw
          (next-none m p len there.0
            (subst (λ j. pad m j ≢ free_guard0) (sym there.1) (clean refl)))
          (add_last-Freed m n before len [] p fs at v))
  free_alone before (busy_node k ∷ behind) p fs at v clean alone =
      let there = nodes_at before (busy_node len ∷ (busy_node k ∷ behind)) p fs at v in
      rw (alone, ◌>>=◌)
        (rw (next-busy m p len there.0 k there.1.0)
          (add_last-Freed m n before len (busy_node k ∷ behind) p fs at v))
  free_alone before (free_node k ∷ behind) p fs at v clean alone =
      let there = nodes_at before (busy_node len ∷ (free_node k ∷ behind)) p fs at v in
      let mb = find_place (p + len) fs (
        ground (
          arith,
          at,
          v.same (p + len),
          count-parts (p + len) before (busy_node len ∷ (free_node k ∷ behind)),
        )) in
      rw (alone, ◌>>=◌)
        (rw (next-free m p len there.0 k there.1.0) (
          with_free m n before (p + len) k behind (before ++ (free_node (len + k) ∷ behind)) _ (
            merge_next-Freed m n before len k behind p mb.xs mb.zs at (
              subst (λ j. Valid m n (before ++ (busy_node len ∷ (free_node k ∷ behind))) j) mb.is
                v))))

  -- Behind a free node.
  pub free_joined :
      (before behind : List Node) (l pre : ℕ) (fs : List ℕ)
      → pre ≡ 3 + slots before
      → Valid m n (before ++ (free_node l ∷ (busy_node len ∷ behind))) fs
      → CleanBehind m (n + 3) behind
      → Freed m n before
          (pre + l + len)
          behind
          (before ++ grow l (grow len behind))
          (merged m (pre + l))
  unfolding merged
  free_joined before [] l pre fs at v clean =
      let there = nodes_at before (free_node l ∷ (busy_node len ∷ [])) pre fs at v in
      rw (prev-free m pre l (omega (arith, at)) there.0, ◌>>=◌)
        (rw
          (next-none m (pre + l) len there.1.0
            (subst (λ j. pad m j ≢ free_guard0) (sym there.1.1) (clean refl)))
          (merge_prev-Freed m n before l len [] pre fs at v))
  free_joined before (busy_node k ∷ behind) l pre fs at v clean =
      let there =
        nodes_at before (free_node l ∷ (busy_node len ∷ (busy_node k ∷ behind))) pre fs at v in
      rw (prev-free m pre l (omega (arith, at)) there.0, ◌>>=◌)
        (rw (next-busy m (pre + l) len there.1.0 k there.1.1.0)
          (merge_prev-Freed m n before l len (busy_node k ∷ behind) pre fs at v))
  free_joined before (free_node k ∷ behind) l pre fs at v clean =
      let there =
        nodes_at before (free_node l ∷ (busy_node len ∷ (free_node k ∷ behind))) pre fs at v in
      let mb = find_place (pre + l + len) fs (
        ground (
          arith,
          at,
          v.same (pre + l + len),
          count-parts (pre + l + len) before
              (free_node l ∷ (busy_node len ∷ (free_node k ∷ behind))),
        )) in
      rw (prev-free m pre l (omega (arith, at)) there.0, ◌>>=◌)
        (rw (next-free m (pre + l) len there.1.0 k there.1.1.0) (
          with_free m n before (pre + l + len) k behind
            (before ++ (free_node (l + (len + k)) ∷ behind)) _
            (subst
              (λ j.
                Freed m n before (pre + l + len + k) behind (before ++ (free_node j ∷ behind))
                  (merge_both m (pre + l) pre))
              (omega arith)
              (merge_both-Freed m n before l len k behind pre mb.xs mb.zs at (
                subst
                  (λ j.
                    Valid m n (before ++ (free_node l ∷ (busy_node len ∷ (free_node k ∷ behind))))
                      j)
                  mb.is v)))))
