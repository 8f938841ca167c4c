-- ===== src/Cvsp/Pool.antt =====
-- cvsp_alloc of src/cvspool.c on a pool: its trunks in turn, and the growing of the pool.
use leitner.Common.{ℕ, ◌+◌, Option, none, some, List, [], ◌∷◌, ◌==◌, ltb, if◌then◌else◌, u32}
use leitner.Cvsp.Nodes.{Mem, ◌>>=◌, blk_slots}
use leitner.Cvsp.Trunk.{CvspoolTrunk}
use leitner.Cvsp.Alloc.{
  CvspPool, add_new_trunk, trunks_alloc, need_slots_of, first_total, Allocated,
}

-- What malloc answers to each call of add_new_trunk.
abbrev pub Mallocs : Type 0
Mallocs = List (Option Mem)

abbrev pub or_same : CvspPool → Option CvspPool → CvspPool
or_same sp none = sp
or_same sp (some sp') = sp'

-- A trunk like the first one is added, if there is memory.
abbrev pub extend : CvspPool → Option Mem → Option CvspPool
extend sp answer = add_new_trunk sp (first_total sp.trunk_list) answer >>= λ r. some (or_same sp r)

abbrev pub scanned :
    CvspPool → ℕ → Option (List CvspoolTrunk × ℕ × ℕ) → Option Allocated → Option Allocated
scanned sp need none again = if sp.autoex then again else some (sp, none)
scanned sp need (some (ts, id, slot)) again =
    some (record sp { trunk_list = ts; used = u32 (sp.used + need) }, some (id, slot))

-- From RESCAN on, as often as malloc has answers; `none` asks for one more.
unfoldable pub rescan : Mallocs → CvspPool → ℕ → Option Allocated
rescan [] sp need = trunks_alloc sp.trunk_list need >>= λ r. scanned sp need r none
rescan (answer ∷ answers) sp need = trunks_alloc sp.trunk_list need >>= λ r.
    scanned sp need r (extend sp answer >>= λ sp'. rescan answers sp' need)

unfoldable pub checked_alloc : Mallocs → CvspPool → ℕ → Option Allocated
checked_alloc answers sp need =
    if ltb blk_slots need
    then none
    else (if ltb (first_total sp.trunk_list) need then some (sp, none) else rescan answers sp need)

abbrev pub extended_alloc : Mallocs → CvspPool → ℕ → Option Allocated
extended_alloc [] sp need = none
extended_alloc (answer ∷ answers) sp need =
    extend sp answer >>= λ sp'. checked_alloc answers sp' need

-- `size` in bytes.
unfoldable pub cvsp_alloc : Mallocs → CvspPool → ℕ → Option Allocated
cvsp_alloc answers sp size =
    if sp.used == sp.total
    then (if sp.autoex then extended_alloc answers sp (need_slots_of size) else some (sp, none))
    else checked_alloc answers sp (need_slots_of size)
