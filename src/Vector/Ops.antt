-- ===== src/Vector/Ops.antt =====
-- objv_alloc, objv_realloc and objv_free of src/objvec.c on the pool below. `none` is an assertion that
-- fails; an address is a trunk's id and a slot.
use leitner.Common.{
  ℕ, ◌+◌, ◌-◌, ◌*◌, ◌^◌, Bool, Option, none, some, List, [], ◌∷◌, ◌==◌, ltb, if◌then◌else◌, u32,
}
use leitner.Cvsp.Nodes.{◌>>=◌, get_bnode_len}
use leitner.Cvsp.Trunk.{CvspoolTrunk}
use leitner.Cvsp.Free.{trunk_free, get_bnode_mem_len}
use leitner.Cvsp.Alloc.{CvspPool, Allocated}
use leitner.Cvsp.Pool.{Mallocs, cvsp_alloc}

-- The trunk with the id.
unfoldable pub trunk_with : List CvspoolTrunk → ℕ → Option CvspoolTrunk
trunk_with [] id = none
trunk_with (t ∷ ts) id = let rest = trunk_with ts id in if t.id == id then some t else rest

unfoldable pub put_trunk : List CvspoolTrunk → CvspoolTrunk → List CvspoolTrunk
put_trunk [] t' = []
put_trunk (t ∷ ts) t' = let rest = put_trunk ts t' in if t.id == t'.id then t' ∷ ts else t ∷ rest

-- cvsp_free of the pool, with the trunk that get_trunk finds.
unfoldable pub cvsp_free : CvspPool → ℕ × ℕ → Option CvspPool
cvsp_free sp (id, slot) = do
  t ← trunk_with sp.trunk_list id
  t' ← trunk_free t slot
  some (record sp {
    trunk_list = put_trunk sp.trunk_list t';
    used = u32 (sp.used + 2 ^ 32 - get_bnode_len t.mem (slot - 1));
  })

pub record Objvec : Type 0 where
  pub cp : CvspPool
  pub size : ℕ

abbrev pub not_null : Objvec → Allocated → Option (Objvec × ℕ × ℕ)
not_null ov (sp, none) = none
not_null ov (sp, some (id, slot)) = some (record ov { cp = sp }, id, slot)

unfoldable pub objv_alloc : Mallocs → Objvec → ℕ → Option (Objvec × ℕ × ℕ)
objv_alloc answers ov obj_cnt = cvsp_alloc answers ov.cp (u32 (ov.size * obj_cnt)) >>= not_null ov

unfoldable pub objv_free : Objvec → ℕ × ℕ → Option Objvec
objv_free ov objs = cvsp_free ov.cp objs >>= λ sp. some (record ov { cp = sp })

-- `adjust` is what adjust_fn writes, given the old and the new address and lengths; a new address may be
-- NULL here.
unfoldable pub objv_realloc :
    Mallocs
    → Objvec
    → ℕ × ℕ
    → ℕ
    → (CvspPool → ℕ × ℕ → ℕ → Option (ℕ × ℕ) → ℕ → CvspPool)
    → Bool
    → Option (Objvec × Option (ℕ × ℕ))
objv_realloc answers ov oldobjs new_cnt adjust free_old = do
  t ← trunk_with ov.cp.trunk_list oldobjs.0
  oldlen ← get_bnode_mem_len t.mem oldobjs.1
  let newlen = u32 (ov.size * new_cnt)
  (sp, newobjs) ← (if ltb oldlen newlen then cvsp_alloc answers ov.cp newlen else none)
  let sp' = adjust sp oldobjs oldlen newobjs newlen
  sp'' ← (if free_old then cvsp_free sp' oldobjs else some sp')
  some (record ov { cp = sp'' }, newobjs)
