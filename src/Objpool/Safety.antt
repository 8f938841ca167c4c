-- ===== src/Objpool/Safety.antt =====
-- A client that uses a pool: it frees only what it was given and has not freed, and malloc gives it
-- blocks that are not yet slabs of the pool.
use mathlib.Core.Path.{subst}
use leitner.Common.{ℕ, ◌<◌, ◌≡◌, sym, Option, none, some, List, []}
use leitner.Common.{count}
use leitner.Objpool.{Ptr, null, at, ObjPool}
use leitner.Objpool.Ops.{objpool_alloc, objpool_zalloc, objpool_free, zeroed}
use leitner.Objpool.Invariant.{Sound}
use leitner.Objpool.Pop.{lend}
use leitner.Objpool.Alloc.{objpool_alloc-Allocates}
use leitner.Objpool.Free.{give_back, objpool_free-Frees}

pub data Use : ObjPool → (ℕ → List ℕ) → ObjPool → (ℕ → List ℕ) → Type 0 where
  allocs :
      {p q : ObjPool} {live : ℕ → List ℕ} (b o new : ℕ)
      → count new p.slabs ≡ 0
      → objpool_alloc p new ≡ some (q, at b o)
      → Use p live q (lend live b o)
  zallocs :
      {p q : ObjPool} {live : ℕ → List ℕ} (b o new : ℕ)
      → count new p.slabs ≡ 0
      → objpool_zalloc p new ≡ some (q, at b o)
      → Use p live q (lend live b o)
  releases :
      {p q : ObjPool} {live : ℕ → List ℕ} (b o : ℕ)
      → 0 < count o (live b)
      → objpool_free p (at b o) ≡ some q
      → Use p live q (give_back live b o)

-- What the client can make of the pool `p`.
pub data Reach (p : ObjPool) : ObjPool → (ℕ → List ℕ) → Type 0 where
  start : Reach p p (λ b. [])
  next :
      {q r : ObjPool} {live live' : ℕ → List ℕ}
      → Reach p q live
      → Use q live r live'
      → Reach p r live'

-- Some free lists fit the pool and the objects in use.
abbrev pub Fits : ObjPool → (ℕ → List ℕ) → Type 0
Fits p live = (frees : ℕ → List ℕ) × Sound p live frees

abbrev GivenFits : (ℕ → List ℕ) → Option (ObjPool × Ptr) → Type 0
GivenFits live none = ⊥
GivenFits live (some (q, null)) = ⊥
GivenFits live (some (q, at b o)) = Fits q (lend live b o)

abbrev FreedFits : (ℕ → List ℕ) → Option ObjPool → Type 0
FreedFits live none = ⊥
FreedFits live (some q) = Fits q live

zeroed-GivenFits :
    (live : ℕ → List ℕ) (r : Option (ObjPool × Ptr)) → GivenFits live r → GivenFits live (zeroed r)
unfolding zeroed
zeroed-GivenFits live none h = h
zeroed-GivenFits live (some (q, null)) h = h
zeroed-GivenFits live (some (q, at b o)) (frees, s) = (
  frees,
  record {
    real = s.real;
    size = s.size;
    distinct = s.distinct;
    recent = s.recent;
    shared = s.shared;
    full = s.full;
    outside = s.outside;
    chained = s.chained;
    busy = s.busy;
    slab_count = s.slab_count;
    obj_count = s.obj_count;
    free_count = s.free_count;
  },
)

module _ (p : ObjPool) (live : ℕ → List ℕ) (fits : Fits p live) where
  alloc-GivenFits : (new : ℕ) → count new p.slabs ≡ 0 → GivenFits live (objpool_alloc p new)
  alloc-GivenFits new fresh =
      let gives = (objpool_alloc-Allocates p live fits.0 fits.1 new fresh).gives in
      subst (GivenFits live) (sym gives.returned) (gives.frees, gives.sound)

  free-FreedFits :
      (b o : ℕ) → 0 < count o (live b) → FreedFits (give_back live b o) (objpool_free p (at b o))
  free-FreedFits b o used =
      let freed = objpool_free-Frees p live fits.0 fits.1 b o used in
      subst (FreedFits (give_back live b o)) (sym freed.returned) (_, freed.sound)

pub Use-Fits :
    {p q : ObjPool} {live live' : ℕ → List ℕ} → Use p live q live' → Fits p live → Fits q live'
unfolding objpool_zalloc
Use-Fits {p} {live = live} (allocs b o new fresh e) fits =
    subst (GivenFits live) e (alloc-GivenFits p live fits new fresh)
Use-Fits {p} {live = live} (zallocs b o new fresh e) fits =
    subst (GivenFits live) e
      (zeroed-GivenFits live (objpool_alloc p new) (alloc-GivenFits p live fits new fresh))
Use-Fits {p} {live = live} (releases b o used e) fits =
    subst (FreedFits (give_back live b o)) e (free-FreedFits p live fits b o used)

pub Reach-Fits :
    {p q : ObjPool} {live : ℕ → List ℕ} → Fits p (λ b. []) → Reach p q live → Fits q live
Reach-Fits fits start = fits
Reach-Fits fits (next before step) = Use-Fits step (Reach-Fits fits before)
