-- ===== src/Cvsp/Joined.antt =====
-- A freed node joined to the free node before it: merge_prev and merge_both of src/cvspool.c.
use mathlib.Core.Path.{subst}
use leitner.Common.{
  ℕ, ◌+◌, ◌<◌, ◌≤◌, ◌≡◌, ◌≢◌, sym, ap, ◌∙◌, arith, List, [], ◌∷◌, ◌++◌, count, count-append, length,
  length-append, some, Option,
}
use leitner.Cvsp.Nodes.{Mem, written_len, get_bnode_len, ◌>>=◌}
use leitner.Cvsp.Alloc.{unlink}
use leitner.Cvsp.Free.{merge_prev, merge_both}
use leitner.Cvsp.Tiles.{
  Node, free_node, busy_node, slots, free_starts, NodeAt, Tiled, Kept, Kept-trans,
}
use leitner.Cvsp.Links.{Tiled-cut, Kept-cut}
use leitner.Cvsp.Lengths.{get_fnode_len-NodeAt}
use leitner.Cvsp.Valid.{Valid}
use leitner.Cvsp.Unlink.{unlink-Links, unlink-head, unlink-Tiled, unlink-Kept, other}
use leitner.Cvsp.Region.{count-parts, length-parts}
use leitner.Cvsp.Give.{set_fnode_len-some}
use leitner.Cvsp.MergePrev.{grown, grown-Valid, grown-Kept}

-- A call that makes the nodes `ns`, and spares those before the node and from the slot `end` on.
pub record Freed (m : Mem) (n : ℕ) (before : List Node) (end : ℕ) (behind ns : List Node)
    (r : Option Mem) : Type 0 where
  pub mem : Mem
  pub returned : r ≡ some mem
  pub order : List ℕ
  pub valid : Valid mem n ns order
  pub kept : Kept m mem 3 before × Kept m mem end behind

pub get_bnode_len-NodeAt :
    (m : Mem) (p len : ℕ) → NodeAt m p (busy_node len) → get_bnode_len m p ≡ len
unfolding get_bnode_len
get_bnode_len-NodeAt m p len (a, b, c) = c

module _ (m : Mem) (n : ℕ) (before : List Node) (l len : ℕ) (behind : List Node) (pre : ℕ)
    (fs : List ℕ) (at : pre ≡ 3 + slots before)
    (v : Valid m n (before ++ (free_node l ∷ (busy_node len ∷ behind))) fs) where
  abbrev mid : List Node
  mid = free_node l ∷ (busy_node len ∷ [])

  there : Tiled m pre (free_node l ∷ (busy_node len ∷ behind)) (n + 3)
  there =
      subst (λ k. Tiled m k (free_node l ∷ (busy_node len ∷ behind)) (n + 3)) (sym at)
        (Tiled-cut m 3 before (free_node l ∷ (busy_node len ∷ behind)) (n + 3) v.tiled).1

  big : 3 ≤ slots mid
  big = omega (arith, there.0.0)

  prev_returned : merge_prev m (pre + l) pre ≡ some (grown m n before mid behind pre fs at big)
  unfolding merge_prev
  prev_returned = rw (get_fnode_len-NodeAt m pre l there.0) (
      rw (get_bnode_len-NodeAt m (pre + l) len there.1.0, ◌>>=◌)
        (rw (set_fnode_len-some m pre (l + len) (omega (arith, there.0.0)))
          (ap (λ k. some (written_len m pre k)) (omega arith))))

  same : (z : ℕ) → count z fs ≡ count z (free_starts 3 (before ++ (free_node (slots mid) ∷ behind)))
  same z = ground (
    arith,
    v.same z,
    count-parts z before (free_node l ∷ (busy_node len ∷ behind)),
    count-parts z before (free_node (slots mid) ∷ behind),
  )

  long : length fs ≡ length (free_starts 3 (before ++ (free_node (slots mid) ∷ behind)))
  long = ground (
    arith,
    v.long,
    length-parts before (free_node l ∷ (busy_node len ∷ behind)),
    length-parts before (free_node (slots mid) ∷ behind),
  )

  only : (z : ℕ) → 0 < count z (0 ∷ fs) → z ≢ pre → count z (free_starts pre mid) ≡ 0
  only z i ne = ground (arith, ne)

  within : (z : ℕ) → 0 < count z fs → 0 < count z (free_starts 3 (before ++ (mid ++ behind)))
  within z i = omega (arith, i, v.same z)

  kept_both :
      Kept m (grown m n before mid behind pre fs at big) 3 before
      × Kept m (grown m n before mid behind pre fs at big) (pre + slots mid) behind
  kept_both =
      grown-Kept m n before mid behind pre fs at big v.head v.tiled v.ring only within same long
        v.small

  pub merge_prev-Freed :
      Freed m n before
        (pre + l + len)
        behind
        (before ++ (free_node (l + len) ∷ behind))
        (merge_prev m (pre + l) pre)
  merge_prev-Freed = record {
    mem = grown m n before mid behind pre fs at big;
    returned = prev_returned;
    order = fs;
    valid =
        subst
          (λ k.
            Valid (grown m n before mid behind pre fs at big) n (before ++ (free_node k ∷ behind))
              fs)
          (omega arith)
          (grown-Valid m n before mid behind pre fs at big v.head v.tiled v.ring only within same
            long v.small);
    kept = (
      kept_both.0,
      subst (λ k. Kept m (grown m n before mid behind pre fs at big) k behind) (omega arith)
          kept_both.1,
    );
  }

module _ (m : Mem) (n : ℕ) (before : List Node) (l len more_len : ℕ) (behind : List Node) (pre : ℕ)
    (xs zs : List ℕ) (at : pre ≡ 3 + slots before)
    (v : Valid m n
      (before ++ (free_node l ∷ (busy_node len ∷ (free_node more_len ∷ behind))))
      (xs ++ ((pre + l + len) ∷ zs))) where
  abbrev three : List Node
  three = free_node l ∷ (busy_node len ∷ (free_node more_len ∷ []))

  abbrev nxt : ℕ
  nxt = pre + l + len

  abbrev m1 : Mem
  m1 = unlink m nxt

  tiled1 : Tiled m1 3 (before ++ (three ++ behind)) (n + 3)
  tiled1 = unlink-Tiled xs nxt zs v

  there1 : Tiled m1 pre (three ++ behind) (n + 3)
  there1 =
      subst (λ k. Tiled m1 k (three ++ behind) (n + 3)) (sym at)
        (Tiled-cut m1 3 before (three ++ behind) (n + 3) tiled1).1

  there0 : Tiled m pre (three ++ behind) (n + 3)
  there0 =
      subst (λ k. Tiled m k (three ++ behind) (n + 3)) (sym at)
        (Tiled-cut m 3 before (three ++ behind) (n + 3) v.tiled).1

  big3 : 3 ≤ slots three
  big3 = omega (arith, there1.0.0)

  both_returned :
      merge_both m (pre + l) pre ≡ some (grown m1 n before three behind pre (xs ++ zs) at big3)
  unfolding merge_both
  both_returned = rw (get_bnode_len-NodeAt m (pre + l) len there0.1.0) (
      rw (get_fnode_len-NodeAt m1 pre l there1.0) (
        rw (get_fnode_len-NodeAt m1 nxt more_len there1.1.1.0, ◌>>=◌)
          (rw (get_bnode_len-NodeAt m1 (pre + l) len there1.1.0) (
            set_fnode_len-some m1 pre (l + len + more_len) (omega (arith, there1.0.0))
            ∙ ap (λ k. some (written_len m1 pre k)) (omega arith)))))

  same3 :
      (z : ℕ)
      → count z (xs ++ zs) ≡ count z (free_starts 3 (before ++ (free_node (slots three) ∷ behind)))
  same3 z = ground (
    arith,
    v.same z,
    at,
    count-append z xs zs,
    count-append z xs (nxt ∷ zs),
    count-parts z before (three ++ behind),
    count-parts z before (free_node (slots three) ∷ behind),
  )

  long3 : length (xs ++ zs) ≡ length (free_starts 3 (before ++ (free_node (slots three) ∷ behind)))
  long3 = ground (
    arith,
    v.long,
    length-append xs zs,
    length-append xs (nxt ∷ zs),
    length-parts before (three ++ behind),
    length-parts before (free_node (slots three) ∷ behind),
  )

  only3 : (z : ℕ) → 0 < count z (0 ∷ (xs ++ zs)) → z ≢ pre → count z (free_starts pre three) ≡ 0
  only3 z i ne = ground (arith, ne, other xs nxt zs v z i)

  within3 :
      (z : ℕ) → 0 < count z (xs ++ zs) → 0 < count z (free_starts 3 (before ++ (three ++ behind)))
  within3 z i = omega (arith, i, v.same z, count-append z xs zs, count-append z xs (nxt ∷ zs))

  pub merge_both-Freed :
      Freed m n before
        (nxt + more_len)
        behind
        (before ++ (free_node (l + len + more_len) ∷ behind))
        (merge_both m (pre + l) pre)
  merge_both-Freed =
      let g : Mem = grown m1 n before three behind pre (xs ++ zs) at big3 in
      let valid =
        grown-Valid m1 n before three behind pre (xs ++ zs) at big3 (unlink-head xs nxt zs v) tiled1
          (unlink-Links xs nxt zs v) only3 within3 same3 long3 v.small in
      let kept =
        grown-Kept m1 n before three behind pre (xs ++ zs) at big3 (unlink-head xs nxt zs v) tiled1
          (unlink-Links xs nxt zs v) only3 within3 same3 long3 v.small in
      let (k, ks) = Kept-cut m m1 3 before (three ++ behind) (unlink-Kept xs nxt zs v) in
      record {
        mem = g;
        returned = both_returned;
        order = xs ++ zs;
        valid =
            subst (λ k. Valid g n (before ++ (free_node k ∷ behind)) (xs ++ zs)) (omega arith)
              valid;
        kept = (
          Kept-trans m m1 g 3 before k kept.0,
          Kept-trans m m1 g (nxt + more_len) behind
              (subst (λ k. Kept m m1 (k + l + len + more_len) behind) (sym at) ks.1)
              (subst (λ k. Kept m1 g k behind) (omega arith) kept.1),
        );
      }
