-- ===== src/Cvsp/Give.antt =====
-- An allocation from a trunk: trunk_alloc on valid memory.
use leitner.Cvsp.Nodes.{written_len}
use leitner.Cvsp.Alloc.{shift_links}
use leitner.Cvsp.Region.{written_bnode}
use mathlib.Core.Path.{subst}
use leitner.Common.{
  ℕ, ◌+◌, ◌-◌, ◌^◌, ◌<◌, ◌≤◌, ◌≡◌, inl, inr, refl, sym, ap, arith, List, [], ◌∷◌, ◌++◌, count, some,
  none, Option, true, Bool-cases, ==-ne, ==_self, ◌==◌, if◌then◌else◌, u32,
}
use leitner.Cvsp.Nodes.{
  Mem, next_fnode, prev_fnode, get_fnode_len, set_fnode_len, set_bnode_len, ◌>>=◌,
}
use leitner.Cvsp.Trunk.{CvspoolTrunk}
use leitner.Cvsp.Alloc.{fits, take_fnode, split_fnode, unlink, copy_fnode0}
use leitner.Cvsp.Tiles.{Node, free_node, busy_node, slots, busy_slots, NodeAt, Kept}
use leitner.Cvsp.Links.{Tiled-cut}
use leitner.Cvsp.Lengths.{get_fnode_len-NodeAt}
use leitner.Cvsp.Valid.{Valid, slots-Tiled}
use leitner.Cvsp.Region.{exact_mem, exact-Valid, exact-Kept}
use leitner.Cvsp.Split.{rest_made, head_copied}
use leitner.Cvsp.Divide.{split_mem, split-Valid, split-Kept}
use leitner.Cvsp.Search.{Misses}

-- What a free node of `len` slots becomes when `need` of them are given out.
abbrev pub cut_node : ℕ → ℕ → List Node
cut_node len need =
    if len == need then busy_node need ∷ [] else busy_node need ∷ (free_node (len - need) ∷ [])

pub record ValidTrunk (t : CvspoolTrunk) (ns : List Node) (fs : List ℕ) : Type 0 where
  pub valid : Valid t.mem t.t_total ns fs
  pub used : t.t_used ≡ busy_slots ns

-- The node at `slot` was cut off a free node that fits, and is the trunk's; the others stay.
pub record Given (t : CvspoolTrunk) (ns : List Node) (need : ℕ) (t' : CvspoolTrunk) (slot : ℕ)
    : Type 0 where
  pub before : List Node
  pub len : ℕ
  pub behind : List Node
  pub was : ns ≡ before ++ (free_node len ∷ behind)
  pub fitting : fits len need ≡ true
  pub at_slot : slot ≡ 3 + slots before + 1
  pub order : List ℕ
  pub trunk : ValidTrunk t' (before ++ (cut_node len need ++ behind)) order
  pub kept : Kept t.mem t'.mem 3 ns
  pub same : (t'.id ≡ t.id) × (t'.t_total ≡ t.t_total)

abbrev pub Gives : CvspoolTrunk → List Node → ℕ → Option (Option (CvspoolTrunk × ℕ)) → Type 0
Gives t ns need none = ⊥
Gives t ns need (some none) = Misses need ns
Gives t ns need (some (some (t', slot))) = Given t ns need t' slot

pub set_bnode_len-some :
    (m : Mem) (p need : ℕ) → 3 ≤ need → set_bnode_len m p need ≡ some (written_bnode m p need)
unfolding set_bnode_len
set_bnode_len-some m p need pos = ground (arith, pos)

pub set_fnode_len-some :
    (m : Mem) (p len : ℕ) → 3 ≤ len → set_fnode_len m p len ≡ some (written_len m p len)
unfolding set_fnode_len
set_fnode_len-some m p len pos = ground (arith, pos)

pub take_exact :
    (m : Mem) (p len : ℕ)
    → NodeAt m p (free_node len)
    → take_fnode m p len ≡ some (written_bnode (unlink m p) p len)
unfolding take_fnode
take_exact m p len h =
    rw (get_fnode_len-NodeAt m p len h)
      (rw (==_self len, ◌>>=◌) (set_bnode_len-some (unlink m p) p len h.0))

copied_len :
    (m : Mem) (p len need : ℕ)
    → NodeAt m p (free_node len)
    → 3 ≤ need
    → need + 3 ≤ len
    → get_fnode_len (head_copied m p len need) p ≡ some len
unfolding get_fnode_len copy_fnode0
copied_len m p len need (a, b, c, d, e) pos room = ground (arith, a, c, d, pos, room)

pub take_split :
    (m : Mem) (p len need : ℕ)
    → NodeAt m p (free_node len)
    → 3 ≤ need
    → need + 3 ≤ len
    → take_fnode m p need
      ≡ some (
          written_bnode
            (shift_links (rest_made m p len need) (prev_fnode m p) (next_fnode m p) need)
            p
            need)
unfolding take_fnode split_fnode
take_split m p len need h pos room = rw (get_fnode_len-NodeAt m p len h) (
    rw (==-ne len need (λ u. omega (arith, u, room)), ◌>>=◌)
      (rw (copied_len m p len need h pos room, ◌>>=◌)
        (rw
          (
            set_fnode_len-some (head_copied m p len need) (p + need) (len - need)
                (omega (arith, room)),
            ◌>>=◌,
          )
          (set_bnode_len-some _ p need pos))))

-- A member of the ring in its place.
pub record Member (p : ℕ) (fs : List ℕ) : Type 0 where
  pub xs : List ℕ
  pub zs : List ℕ
  pub is : fs ≡ xs ++ (p ∷ zs)

pub find_place : (p : ℕ) (fs : List ℕ) → 0 < count p fs → Member p fs
find_place p [] i = absurd (omega (arith, i))
find_place p (y ∷ fs) i = elim (Bool-cases (y == p)) [
  | inl u ↦ record { xs = []; zs = fs; is = ap (λ k. k ∷ fs) (ground (arith, u)) }
  | inr u ↦
      let r = find_place p fs (ground (arith, u, i)) in
      record { xs = y ∷ r.xs; zs = r.zs; is = ap (λ k. y ∷ k) r.is }
]

pub busy-parts : (xs zs : List Node) → busy_slots (xs ++ zs) ≡ busy_slots xs + busy_slots zs
busy-parts [] zs = omega arith
busy-parts (free_node len ∷ xs) zs = busy-parts xs zs
busy-parts (busy_node len ∷ xs) zs = omega (arith, busy-parts xs zs)

pub busy-le : (ts : List Node) → busy_slots ts ≤ slots ts
busy-le [] = omega arith
busy-le (free_node len ∷ ts) = omega (arith, busy-le ts)
busy-le (busy_node len ∷ ts) = omega (arith, busy-le ts)

pub slots-parts : (xs zs : List Node) → slots (xs ++ zs) ≡ slots xs + slots zs
slots-parts [] zs = omega arith
slots-parts (x ∷ xs) zs = omega (arith, slots-parts xs zs)

abbrev used_more : CvspoolTrunk → Mem → ℕ → CvspoolTrunk
used_more t m need = record t { mem = m; t_used = u32 (t.t_used + need) }

module _ (t : CvspoolTrunk) (before : List Node) (len : ℕ) (behind : List Node) (xs : List ℕ)
    (p : ℕ) (zs : List ℕ) (at : p ≡ 3 + slots before)
    (v : ValidTrunk t (before ++ (free_node len ∷ behind)) (xs ++ (p ∷ zs))) where
  abbrev ns : List Node
  ns = before ++ (free_node len ∷ behind)

  pub node_at : NodeAt t.mem p (free_node len)
  node_at =
      subst (λ k. NodeAt t.mem k (free_node len)) (sym at)
        (Tiled-cut t.mem 3 before (free_node len ∷ behind) (t.t_total + 3) v.valid.tiled).1.0

  -- The count of the used slots does not wrap.
  used_fits : t.t_used + len < 2 ^ 32
  used_fits = omega (
    arith,
    v.used,
    busy-parts before (free_node len ∷ behind),
    busy-le before,
    busy-le behind,
    slots-parts before (free_node len ∷ behind),
    slots-Tiled t.mem 3 ns (t.t_total + 3) v.valid.tiled,
    v.valid.small,
  )

  pub handed_exact :
      Given t ns len (used_more t (exact_mem before len behind xs p zs at v.valid) len) (p + 1)
  handed_exact = record {
    before = before;
    len = len;
    behind = behind;
    was = refl;
    fitting = ground arith;
    at_slot = omega (arith, at);
    order = xs ++ zs;
    trunk = rw (==_self len) record {
      valid = exact-Valid before len behind xs p zs at v.valid;
      used = omega (
        arith,
        v.used,
        used_fits,
        busy-parts before (free_node len ∷ behind),
        busy-parts before (busy_node len ∷ behind),
      );
    };
    kept = exact-Kept before len behind xs p zs at v.valid;
    same = (refl, refl);
  }

  pub handed_split :
      (need : ℕ) (pos : 3 ≤ need) (room : need + 3 ≤ len)
      → Given t ns need
          (used_more t (split_mem before len behind xs p zs need at v.valid pos room) need)
          (p + 1)
  handed_split need pos room = record {
    before = before;
    len = len;
    behind = behind;
    was = refl;
    fitting = ground (arith, room);
    at_slot = omega (arith, at);
    order = xs ++ ((p + need) ∷ zs);
    trunk = rw (==-ne len need (λ u. omega (arith, u, room))) record {
      valid = split-Valid before len behind xs p zs need at v.valid pos room;
      used = omega (
        arith,
        v.used,
        used_fits,
        room,
        busy-parts before (free_node len ∷ behind),
        busy-parts before (busy_node need ∷ (free_node (len - need) ∷ behind)),
      );
    };
    kept = split-Kept before len behind xs p zs need at v.valid pos room;
    same = (refl, refl);
  }
