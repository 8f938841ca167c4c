-- ===== src/Objpool/Service.antt =====
-- What src/objpool.c does for a client, from the making of the pool on.
use leitner.Common.{◌∙◌}
use leitner.Objpool.Invariant.{Sound}
use leitner.Common.{ap, refl}
use leitner.Common.{inl}
use leitner.Common.{inr}
use leitner.Common.{◌⊎◌}
use native.Mathlib.Decide.{dec_lt}
use leitner.Common.{ℕ, ◌+◌, ◌*◌, ◌≤◌, ◌<◌, ◌≡◌, arith, Option, some, List, [], ◌∷◌}
use leitner.Common.{count, length, u32, inc32}
use leitner.Objpool.{Ptr, at, Links, Bytes, Slab, ObjPool, obj_num}
use leitner.Objpool.Ops.{create_objpool, objpool_alloc, slab_cache}
use leitner.Common.{◌≢◌}
use leitner.Objpool.FreeList.{Chain, slots_once, slots_apart, slots_bounds}
use leitner.Objpool.Invariant.{sum_over}
use leitner.Objpool.Alloc.{objpool_alloc-Allocates}
use leitner.Objpool.Create.{max_size, create_objpool-Sound}
use leitner.Objpool.Safety.{Reach, Fits, Reach-Fits}

sum_over-add :
    (bs : List ℕ) (f g : ℕ → ℕ) (n : ℕ)
    → ((b : ℕ) → 0 < count b bs → f b + g b ≡ n)
    → sum_over bs f + sum_over bs g ≡ n * length bs
sum_over-add [] f g n h = omega arith
sum_over-add (b ∷ bs) f g n h =
    omega (arith, h b (ground arith), sum_over-add bs f g n (λ c i. h c (omega arith)))

-- The promise of a call for an object: it is none of those in use.
pub record Serves (p : ObjPool) (live : ℕ → List ℕ) (new : ℕ) (r : Option (ObjPool × Ptr))
    : Type 0 where
  pub after : ObjPool
  pub block : ℕ
  pub offset : ℕ
  pub returned : r ≡ some (after, at block offset)
  pub unused : count offset (live block) ≡ 0
  pub fewest : (after.slabs ≡ p.slabs) ⊎ ((after.slabs ≡ new ∷ p.slabs) × (p.free_obj_nr ≡ 0))

-- An object was put in front of the free list of its slab.
pub record TakesBack (p : ObjPool) (b o : ℕ) (r : Option ObjPool) : Type 0 where
  pub after : ObjPool
  pub returned : r ≡ some after
  pub free_list : List ℕ
  pub before : Chain p.links p.obj_size b (p.slab b).free free_list
  pub behind : Chain after.links after.obj_size b (after.slab b).free (o ∷ free_list)
  pub words : (c k : ℕ) → (b ≢ c) ⊎ (o + p.obj_size ≢ k) → after.links c k ≡ p.links c k
  pub lists : (c : ℕ) → b ≢ c → after.slab c ≡ p.slab c
  pub counted : after.free_obj_nr ≡ inc32 p.free_obj_nr
  pub same_slabs : after.slabs ≡ p.slabs
  pub same_bytes : after.bytes ≡ p.bytes

none_free :
    (bs : List ℕ) (frees : ℕ → List ℕ)
    → ((b : ℕ) → 0 < count b bs → frees b ≡ [])
    → sum_over bs (λ b. length (frees b)) ≡ 0
none_free [] frees h = refl
none_free (b ∷ bs) frees h =
    omega (arith, ap length (h b (ground arith)), none_free bs frees (λ c i. h c (omega arith)))

fewest_slabs :
    (p q : ObjPool) (live frees : ℕ → List ℕ) (new : ℕ) (after : List ℕ)
    → Sound p live frees
    → after ≡ q.slabs
    → (q.slabs ≡ p.slabs)
      ⊎ ((q.slabs ≡ new ∷ p.slabs) × ((b : ℕ) → 0 < count b p.slabs → frees b ≡ []))
    → (after ≡ p.slabs) ⊎ ((after ≡ new ∷ p.slabs) × (p.free_obj_nr ≡ 0))
fewest_slabs p q live frees new after s e (inl same) = inl (e ∙ same)
fewest_slabs p q live frees new after s e (inr (more, full)) =
    inr (e ∙ more, omega (arith, s.free_count, none_free p.slabs frees full))

module _ (size : ℕ) (slab : ℕ → Slab) (links : Links) (bytes : Bytes) (small : size ≤ max_size)
    (p : ObjPool) (live : ℕ → List ℕ)
    (reach : Reach (create_objpool size slab links bytes) p live) where
  reached-Fits : Fits p live
  reached-Fits = Reach-Fits (_, create_objpool-Sound size slab links bytes small) reach

  -- Whatever a client did with a new pool, a call of objpool_alloc follows no null pointer and
  -- returns an object that is not in use; malloc's block becomes a slab only when the counter of free
  -- objects is 0. The client frees only objects in use, and malloc returns a block that is no slab of
  -- the pool yet.
  pub objpool_alloc-Serves :
      (new : ℕ) → count new p.slabs ≡ 0 → Serves p live new (objpool_alloc p new)
  objpool_alloc-Serves new fresh =
      let (frees, sound) = reached-Fits in
      let all = objpool_alloc-Allocates p live frees sound new fresh in
      let given = all.gives in
      record {
        after = given.after;
        block = given.block;
        offset = given.offset;
        returned = given.returned;
        unused = given.unused;
        fewest =
            fewest_slabs p all.base live frees new given.after.slabs sound given.same_slabs
              all.fewest;
      }

  in_its_slab :
      (b o : ℕ)
      → 0 < count o (live b)
      → (count o (live b) ≡ 1) × (slab_cache ≤ o) × (o + p.real_obj_size ≤ slab_cache + p.slab_size)
  in_its_slab b o used =
      let (frees, s) = reached-Fits in
      let inside : 0 < count b p.slabs = ground (arith, s.outside b o) in
      let pos : 0 < p.real_obj_size = omega (arith, s.real) in
      let once = slots_once p.real_obj_size o pos in
      let (low, high) =
        slots_bounds p.real_obj_size o pos (omega (arith, s.shared b o inside, used)) in
      (omega (arith, s.shared b o inside, once), low, omega (arith, high, s.size))

  -- Whatever a client did with a new pool, no object is in use twice, each lies with its word inside
  -- its slab, and of two objects in use of a slab one ends, its word included, before the other.
  pub live_apart :
      (b o k : ℕ)
      → 0 < count o (live b)
      → 0 < count k (live b)
      → (count o (live b) ≡ 1)
        × (slab_cache ≤ o)
        × (o + p.real_obj_size ≤ slab_cache + p.slab_size)
        × ((o ≡ k) ⊎ ((o + p.real_obj_size ≤ k) ⊎ (k + p.real_obj_size ≤ o)))
  live_apart b o k used used' =
      let (once, low, high) = in_its_slab b o used in
      (once, low, high, order (dec_lt o k) (dec_lt k o))
    where
      apart :
          (j l : ℕ) → 0 < count j (live b) → 0 < count l (live b) → j < l → j + p.real_obj_size ≤ l
      apart j l i i' lt =
          let (frees, s) = reached-Fits in
          let inside : 0 < count b p.slabs = ground (arith, s.outside b o) in
          slots_apart p.real_obj_size j l (omega (arith, s.real))
            (omega (arith, s.shared b j inside)) (omega (arith, s.shared b l inside)) lt

      order :
          Dec (o < k)
          → Dec (k < o)
          → (o ≡ k) ⊎ ((o + p.real_obj_size ≤ k) ⊎ (k + p.real_obj_size ≤ o))
      order (yes lt) d = inr (inl (apart o k used used' lt))
      order (no ge) (yes gt) = inr (inr (apart k o used' used gt))
      order (no ge) (no le) = inl (omega (arith, ge, le))

  -- Whatever a client did with a new pool, the free objects and those in use are all the objects of
  -- the pool, 128 for each slab, as the unsigned counters say.
  pub objects-counted :
      (u32 (p.free_obj_nr + sum_over p.slabs (λ b. length (live b))) ≡ p.obj_nr)
      × (p.obj_nr ≡ u32 (obj_num * p.slab_nr))
      × (p.slab_nr ≡ u32 (length p.slabs))
  objects-counted =
      let (frees, s) = reached-Fits in
      let all =
        sum_over-add p.slabs (λ b. length (live b)) (λ b. length (frees b)) obj_num s.full in
      (
        omega (arith, all, s.free_count, s.obj_count),
        omega (arith, s.obj_count, s.slab_count),
        s.slab_count,
      )
