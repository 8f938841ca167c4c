-- ===== src/Cvsp/Release.antt =====
-- What cvsp_free of src/cvspool.c leaves of a trunk.
use mathlib.Core.Path.{subst}
use mathlib.Core.List.{append_assoc}
use leitner.Common.{
  ℕ, ◌+◌, ◌-◌, ◌^◌, ◌≡◌, refl, sym, ap, ◌∙◌, arith, List, [], ◌∷◌, ◌++◌, some, Option, u32,
}
use leitner.Cvsp.Nodes.{Mem, ◌>>=◌}
use leitner.Cvsp.Trunk.{CvspoolTrunk}
use leitner.Cvsp.Free.{merged, trunk_free}
use leitner.Cvsp.Tiles.{Node, free_node, busy_node, slots, busy_slots, Kept}
use leitner.Cvsp.Links.{Tiled-cut, Kept-join}
use leitner.Cvsp.Valid.{Valid, slots-Tiled}
use leitner.Cvsp.Give.{ValidTrunk, busy-parts, busy-le, slots-parts}
use leitner.Cvsp.Joined.{Freed, get_bnode_len-NodeAt}
use leitner.Cvsp.Freeing.{
  grow, put, released, put-snoc, Last, nothing, last, last_node, CleanBefore, CleanBehind,
  prev-head, prev-busy,
}
use leitner.Cvsp.Branches.{free_alone, free_joined}

put-busy :
    (before xs : List Node) (l : ℕ) (ys : List Node)
    → before ≡ xs ++ (busy_node l ∷ [])
    → put before ys ≡ before ++ ys
put-busy before xs l ys e =
    subst (λ k. put k ys ≡ k ++ ys) (sym e)
      (put-snoc xs (busy_node l) ys ∙ sym (append_assoc xs (busy_node l ∷ []) ys))

module _ (m : Mem) (n len : ℕ) (behind : List Node) (fs : List ℕ) where
  after_last :
      (before : List Node)
      → Last before
      → Valid m n (before ++ (busy_node len ∷ behind)) fs
      → CleanBefore m before
      → CleanBehind m (n + 3) behind
      → Freed m n before
          (3 + slots before + len)
          behind
          (released before len behind)
          (merged m (3 + slots before))
  after_last before (nothing e) v c c' =
      subst
        (λ b.
          Freed m n b (3 + slots b + len) behind (released b len behind) (merged m (3 + slots b)))
        (sym e)
        (free_alone m n len [] behind 3 fs refl
          (subst (λ b. Valid m n (b ++ (busy_node len ∷ behind)) fs) e v) c' (prev-head m v.head))
  after_last before (last xs (busy_node l) e) v c c' =
      subst (λ k. Freed m n before (3 + slots before + len) behind k (merged m (3 + slots before)))
        (sym (put-busy before xs l (grow len behind) e))
        (free_alone m n len before behind (3 + slots before) fs refl v c'
          (prev-busy m (3 + slots before) (c xs l e)))
  after_last before (last xs (free_node l) e) v c c' =
      let v' : Valid m n (xs ++ (free_node l ∷ (busy_node len ∷ behind))) fs =
        subst (λ k. Valid m n k fs) (append_assoc xs (free_node l ∷ []) (busy_node len ∷ behind))
          (subst (λ b. Valid m n (b ++ (busy_node len ∷ behind)) fs) e v) in
      let f = free_joined m n len xs behind l (3 + slots xs) fs refl v' c' in
      let place : 3 + slots xs + l ≡ 3 + slots before =
        omega (arith, ap slots e, slots-parts xs (free_node l ∷ [])) in
      record {
        mem = f.mem;
        returned = subst (λ k. merged m k ≡ some f.mem) place f.returned;
        order = f.order;
        valid =
            subst (λ k. Valid f.mem n k f.order)
              (sym
                (ap (λ k. put k (grow len behind)) e ∙ put-snoc xs (free_node l) (grow len behind)))
              f.valid;
        kept = (
          subst (λ k. Kept m f.mem 3 k) (sym e)
              (Kept-join m f.mem 3 xs (free_node l ∷ []) f.kept.0 tt),
          subst (λ k. Kept m f.mem (k + len) behind) place f.kept.1,
        );
      }

busy-grow : (l : ℕ) (ts : List Node) → busy_slots (grow l ts) ≡ busy_slots ts
busy-grow l [] = refl
busy-grow l (free_node k ∷ ts) = refl
busy-grow l (busy_node k ∷ ts) = refl

busy-put :
    (ts : List Node) (l : ℕ) (ys : List Node)
    → busy_slots (put ts (grow l ys)) ≡ busy_slots ts + busy_slots ys
busy-put [] l ys = omega (arith, busy-grow l ys)
busy-put (busy_node k ∷ []) l ys = omega (arith, busy-grow l ys)
busy-put (free_node k ∷ []) l ys = omega (arith, busy-grow l ys, busy-grow k (grow l ys))
busy-put (free_node k ∷ (t ∷ ts)) l ys = busy-put (t ∷ ts) l ys
busy-put (busy_node k ∷ (t ∷ ts)) l ys = omega (arith, busy-put (t ∷ ts) l ys)

-- The trunk without the node: its slots are free, joined to free nodes beside it, and the nodes in use
-- keep their bytes.
pub record Released (t : CvspoolTrunk) (before : List Node) (len : ℕ) (behind : List Node)
    (r : Option CvspoolTrunk) : Type 0 where
  pub after : CvspoolTrunk
  pub returned : r ≡ some after
  pub order : List ℕ
  pub trunk : ValidTrunk after (released before len behind) order
  pub kept : Kept t.mem after.mem 3 before × Kept t.mem after.mem (3 + slots before + len) behind
  pub same : (after.id ≡ t.id) × (after.t_total ≡ t.t_total)

-- Freeing a node in use of a valid trunk of one block returns. Its slots are free, joined to the free node
-- before it and to the one behind it where there are such; the trunk is valid again with these nodes,
-- its count of used slots is right, and the other nodes in use keep all their bytes. The last two bytes
-- of a node in use that lies just before are not the free guard, nor, for the last node, is the byte
-- behind the memory.
pub trunk_free-Released :
    (t : CvspoolTrunk) (before : List Node) (len : ℕ) (behind : List Node) (fs : List ℕ)
    → ValidTrunk t (before ++ (busy_node len ∷ behind)) fs
    → CleanBefore t.mem before
    → CleanBehind t.mem (t.t_total + 3) behind
    → Released t before len behind (trunk_free t (3 + slots before + 1))
unfolding trunk_free
trunk_free-Released t before len behind fs v c c' =
    let p : ℕ = 3 + slots before in
    let back : p + 1 - 1 ≡ p = omega arith in
    let f = after_last t.mem t.t_total len behind fs before (last_node before) v.valid c c' in
    let there = Tiled-cut t.mem 3 before (busy_node len ∷ behind) (t.t_total + 3) v.valid.tiled in
    let (big, guard, head) = there.1.0 in
    record {
      after = record t { mem = f.mem; t_used = u32 (t.t_used + 2 ^ 32 - len) };
      returned = rw (back) (
          rw (guard)
            (rw (f.returned, ◌>>=◌) (rw (get_bnode_len-NodeAt t.mem p len there.1.0) refl)));
      order = f.order;
      trunk = record {
        valid = f.valid;
        used = omega (
          arith,
          v.used,
          v.valid.small,
          busy-parts before (busy_node len ∷ behind),
          busy-put before len behind,
          busy-le before,
          busy-le behind,
          slots-parts before (busy_node len ∷ behind),
          slots-Tiled t.mem 3 (before ++ (busy_node len ∷ behind)) (t.t_total + 3) v.valid.tiled,
        );
      };
      kept = f.kept;
      same = (refl, refl);
    }
