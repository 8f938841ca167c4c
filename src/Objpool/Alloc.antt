-- ===== src/Objpool/Alloc.antt =====
-- objpool_alloc of src/objpool.c, on each of its ways to a slab.
use native.Mathlib.Decide.{ℕ_discrete}
use leitner.Common.{
  ℕ, ◌<◌, ◌≡◌, ◌⊎◌, inl, inr, refl, sym, ap, ◌∙◌, arith, Option, none, some, List, [], ◌∷◌, true,
  false,
}
use leitner.Common.{count}
use leitner.Common.{Bool-cases}
use leitner.Objpool.{Ptr, Slab, ObjPool}
use leitner.Objpool.Ops.{
  is_null, found, find_free, recent_with_free, alloc_from, alloc_in_list, objpool_alloc,
  add_new_slab, found_new,
}
use leitner.Objpool.FreeList.{Chain}
use leitner.Objpool.Grow.{grown, grown-Sound, add_new_slab-grown, with_slots}
use leitner.Objpool.Invariant.{Sound}
use leitner.Objpool.Pop.{Gives, found-Gives}

-- The slab whose free list objpool_alloc takes an object from, and the pool it then stands in: the
-- pool itself, or the pool with one more slab when no object is free.
pub record Allocates (p : ObjPool) (live frees : ℕ → List ℕ) (new : ℕ) (r : Option (ObjPool × Ptr))
    : Type 0 where
  pub base : ObjPool
  pub gives : Gives base live r
  pub same_size : base.obj_size ≡ p.obj_size
  pub same_real : base.real_obj_size ≡ p.real_obj_size
  pub same_bytes : base.bytes ≡ p.bytes
  pub fewest :
      (base.slabs ≡ p.slabs)
      ⊎ ((base.slabs ≡ new ∷ p.slabs) × ((b : ℕ) → 0 < count b p.slabs → frees b ≡ []))

find_free-some :
    (slab : ℕ → Slab) (bs : List ℕ) (b : ℕ)
    → find_free slab bs ≡ some b
    → (0 < count b bs) × (is_null (slab b).free ≡ false)
unfolding find_free
find_free-some slab [] b h = absurd (ground (arith, h))
find_free-some slab (c ∷ bs) b h = ground (arith, find_free-some slab bs b, h)

find_free-none :
    (slab : ℕ → Slab) (bs : List ℕ)
    → find_free slab bs ≡ none
    → (b : ℕ) → 0 < count b bs
    → is_null (slab b).free ≡ true
unfolding find_free
find_free-none slab [] h b i = absurd (omega (arith, i))
find_free-none slab (c ∷ bs) h b i = elim (Bool-cases (is_null (slab c).free)) [
  | inl e ↦ at_one (find_free-none slab bs (ground (arith, h, e)) b) e
  | inr e ↦ absurd (ground (arith, h, e))
]
  where
    at_one :
        (0 < count b bs → is_null (slab b).free ≡ true)
        → is_null (slab c).free ≡ true
        → is_null (slab b).free ≡ true
    at_one f e = elim (ℕ_discrete c b) [
      | yes q ↦ ap (λ k. is_null (slab k).free) (sym q) ∙ e
      | no ne ↦ f (ground (arith, i))
    ]

module _ (p : ObjPool) (live frees : ℕ → List ℕ) (s : Sound p live frees) (new : ℕ)
    (fresh : count new p.slabs ≡ 0) where
  null_empty : (b : ℕ) → 0 < count b p.slabs → is_null (p.slab b).free ≡ true → frees b ≡ []
  null_empty b i h = empty (frees b) (s.chained b i)
    where
      empty : (xs : List ℕ) → Chain p.links p.obj_size b (p.slab b).free xs → xs ≡ []
      empty [] c = refl
      empty (o ∷ xs) (e, c) = absurd (ground (arith, h, e))

  in_place :
      (b : ℕ)
      → 0 < count b p.slabs
      → is_null (p.slab b).free ≡ false
      → Allocates p live frees new (found p b)
  in_place b i h = record {
    base = p;
    gives = found-Gives p live frees s b i h;
    same_size = refl;
    same_real = refl;
    same_bytes = refl;
    fewest = inl refl;
  }

  new_slab :
      ((b : ℕ) → 0 < count b p.slabs → is_null (p.slab b).free ≡ true)
      → Allocates p live frees new (found_new new (add_new_slab p new))
  new_slab full = rw (add_new_slab-grown p live frees s new fresh) (record {
    base = grown p live frees s new fresh;
    gives =
        found-Gives (grown p live frees s new fresh) live (with_slots p live frees s new fresh)
          (grown-Sound p live frees s new fresh) new (ground arith) (ground arith);
    same_size = refl;
    same_real = refl;
    same_bytes = refl;
    fewest = inr (refl, λ b i. null_empty b i (full b i));
  })

  in_recent :
      (b : ℕ)
      → 0 < count b p.slabs
      → is_null (p.slab b).free ≡ false
      → Allocates p live frees new (found (record p { recent_slab = some b }) b)
  in_recent b i h = record {
    base = record p { recent_slab = some b };
    gives = found-Gives (record p { recent_slab = some b }) live frees remembered b i h;
    same_size = refl;
    same_real = refl;
    same_bytes = refl;
    fewest = inl refl;
  }
    where
      remembered : Sound (record p { recent_slab = some b }) live frees
      remembered = record {
        real = s.real;
        size = s.size;
        distinct = s.distinct;
        recent = λ c e. ground (arith, i, e);
        shared = s.shared;
        full = s.full;
        outside = s.outside;
        chained = s.chained;
        busy = s.busy;
        slab_count = s.slab_count;
        obj_count = s.obj_count;
        free_count = s.free_count;
      }

  in_list :
      (r : Option ℕ)
      → find_free p.slab p.slabs ≡ r
      → Allocates p live frees new (alloc_in_list p new r)
  unfolding alloc_in_list
  in_list none e = new_slab (find_free-none p.slab p.slabs e)
  in_list (some b) e = let (i, h) = find_free-some p.slab p.slabs b e in in_recent b i h

  from_recent :
      (b c : ℕ)
      → p.recent_slab ≡ some b
      → recent_with_free p (some b) ≡ some c
      → (0 < count c p.slabs) × (is_null (p.slab c).free ≡ false)
  unfolding recent_with_free
  from_recent b c e h = ground (arith, s.recent b e, h)

  by_recent :
      (r c : Option ℕ)
      → p.recent_slab ≡ c
      → recent_with_free p c ≡ r
      → Allocates p live frees new (alloc_from p new r)
  unfolding alloc_from recent_with_free
  by_recent none c e h = in_list (find_free p.slab p.slabs) refl
  by_recent (some b) none e h = absurd (ground (arith, h))
  by_recent (some b) (some c) e h = let (i, f) = from_recent c b e h in in_place b i f

  pub objpool_alloc-Allocates : Allocates p live frees new (objpool_alloc p new)
  unfolding objpool_alloc
  objpool_alloc-Allocates = by_recent (recent_with_free p p.recent_slab) p.recent_slab refl refl
