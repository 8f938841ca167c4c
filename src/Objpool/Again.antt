-- ===== src/Objpool/Again.antt =====
-- objpool_free and objpool_alloc of src/objpool.c one after the other.
use leitner.Common.{ℕ, ◌+◌, ◌<◌, ◌≡◌, some, List}
use leitner.Common.{count, update, inc32}
use leitner.Objpool.{at, ObjPool}
use leitner.Objpool.Ops.{write}
use leitner.Objpool.Invariant.{Sound}

module _ (p : ObjPool) (live frees : ℕ → List ℕ) (s : Sound p live frees) (b o : ℕ)
    (used : 0 < count o (live b)) (recent : p.recent_slab ≡ some b) where
  abbrev given_back : ObjPool
  given_back = record p {
    links = write p.links b (o + p.obj_size) (p.slab b).free;
    slab = update p.slab b (record { free = at b o; id = (p.slab b).id });
    free_obj_nr = inc32 p.free_obj_nr;
  }
