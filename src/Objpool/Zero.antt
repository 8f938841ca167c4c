-- ===== src/Objpool/Zero.antt =====
-- objpool_zalloc of src/objpool.c.
use native.Mathlib.Decide.{dec_lt, ℕ_discrete}
use mathlib.Core.Path.{subst}
use leitner.Common.{
  ℕ, ◌⊎◌, inl, inr, ◌+◌, ◌≤◌, ◌<◌, ◌≡◌, refl, sym, ap, ◌∙◌, arith, Option, some, List, ◌∷◌,
}
use leitner.Common.{count, update_self}
use leitner.Objpool.{Ptr, at, Bytes, ObjPool}
use leitner.Objpool.Ops.{objpool_alloc, objpool_zalloc, zeroed, memset_zero}
use leitner.Objpool.FreeList.{slots, slots_apart}
use leitner.Objpool.Invariant.{Sound}
use leitner.Objpool.Pop.{lend}
use leitner.Objpool.Alloc.{Allocates, objpool_alloc-Allocates}

-- A call gave an object whose bytes are all 0, and left the bytes of the objects in use.
pub record Zeroes (p : ObjPool) (live : ℕ → List ℕ) (r : Option (ObjPool × Ptr)) : Type 0 where
  pub after : ObjPool
  pub block : ℕ
  pub offset : ℕ
  pub returned : r ≡ some (after, at block offset)
  pub zero_bytes : (k : ℕ) → k < p.obj_size → after.bytes block (offset + k) ≡ 0
  pub other_bytes :
      (b o k : ℕ)
      → 0 < count o (live b)
      → k < p.obj_size
      → after.bytes b (o + k) ≡ p.bytes b (o + k)

memset_zero_in : (m : Bytes) (b o n k : ℕ) → k < n → memset_zero m b o n b (o + k) ≡ 0
memset_zero_in m b o n k lt = ground arith

memset_zero_out :
    (m : Bytes) (b o n c j : ℕ) → (b ≡ c → (j < o) ⊎ (o + n ≤ j)) → memset_zero m b o n c j ≡ m c j
memset_zero_out m b o n c j h = ground arith

-- The new object's bytes against those of an object that was in use before.
module _ (q : ObjPool) (live frees : ℕ → List ℕ) (b o : ℕ) (s : Sound q (lend live b o) frees)
    (inside : 0 < count b q.slabs) (unused : count o (live b) ≡ 0) where
  in_slots : (k : ℕ) → 0 < count k (o ∷ live b) → 0 < count k (slots q.real_obj_size)
  in_slots k i = omega (arith, s.shared b k inside, ap (count k) (update_self live b (o ∷ live b)))

  apart_from :
      (j k : ℕ) → 0 < count j (live b) → k < q.obj_size → (j + k < o) ⊎ (o + q.obj_size ≤ j + k)
  apart_from j k i lt = elim (dec_lt j o) [
    | yes below ↦ inl (
        omega (
          arith,
          s.real,
          slots_apart q.real_obj_size j o (omega (arith, s.real)) (in_slots j (omega arith))
              (in_slots o (ground arith)) below,
        ))
    | no above ↦ inr (
        omega (
          arith,
          s.real,
          slots_apart q.real_obj_size o j (omega (arith, s.real)) (in_slots o (ground arith))
              (in_slots j (omega arith)) (higher above),
        ))
  ]
    where
      higher : ((j < o) → ⊥) → o < j
      higher above = elim (ℕ_discrete o j) [
        | yes e ↦ absurd (omega (arith, unused, i, ap (λ t. count t (live b)) e))
        | no ne ↦ omega (arith, above, ne)
      ]

module _ (p : ObjPool) (live frees : ℕ → List ℕ) (s : Sound p live frees) (new : ℕ)
    (fresh : count new p.slabs ≡ 0) where
  zeroed-Zeroes :
      (r : Option (ObjPool × Ptr)) → Allocates p live frees new r → Zeroes p live (zeroed r)
  unfolding zeroed
  zeroed-Zeroes r a = record {
    after = record after { bytes = memset_zero after.bytes block offset after.obj_size };
    block = block;
    offset = offset;
    returned = rw (a.gives.returned, zeroed) refl;
    zero_bytes = λ k lt.
        memset_zero_in after.bytes block offset after.obj_size k
          (omega (arith, a.gives.same_size, a.same_size));
    other_bytes = λ b o k i lt.
        memset_zero_out after.bytes block offset after.obj_size b (o + k) (λ e.
          apart_from after live a.gives.frees block offset sound a.gives.inside a.gives.unused o k
            (subst (λ c. 0 < count o (live c)) (sym e) i)
            (omega (arith, a.gives.same_size, a.same_size)))
        ∙ ap (λ m. m b (o + k)) (a.gives.same_bytes ∙ a.same_bytes);
  }
    where
      open a.gives use {after, block, offset, sound}

  -- An object that objpool_zalloc gives has only bytes 0, and the bytes of the objects in use stay as
  -- they are, in a sound pool when malloc returns a block that is no slab of the pool.
  pub objpool_zalloc-Zeroes : Zeroes p live (objpool_zalloc p new)
  unfolding objpool_zalloc
  objpool_zalloc-Zeroes =
      zeroed-Zeroes (objpool_alloc p new) (objpool_alloc-Allocates p live frees s new fresh)
