-- ===== src/Cvsp/Iterate.antt =====
-- iter_bnode and cvsp_for_each_bnode of src/cvspool.c. `none` is fuel that has run out.
use leitner.Common.{
  ℕ, zero, suc, ◌+◌, ◌*◌, true, false, Option, none, some, List, [], ◌∷◌, ◌++◌, ◌==◌, ltb,
  if◌then◌else◌,
}
use leitner.Cvsp.Nodes.{Mem, ◌>>=◌, half, get_bnode_len, busy_guard0}
use leitner.Cvsp.Trunk.{CvspoolTrunk}
use leitner.Cvsp.Alloc.{CvspPool}

-- From the node at `fn` on, to the first busy one that begins before the slot `total`.
unfoldable pub find_bnode : ℕ → Mem → ℕ → ℕ → Option (Option ℕ)
find_bnode zero m total fn = none
find_bnode (suc fuel) m total fn = elim (ltb fn total) [
  | false ↦ some none
  | true ↦ elim (half m (2 * fn) == busy_guard0) [
    | true ↦ some (some fn)
    | false ↦ find_bnode fuel m total (fn + get_bnode_len m fn)
  ]
]

-- Where a call goes on: from the head, or behind the node that the last call found.
abbrev pub from_tmp : Mem → Option ℕ → ℕ
from_tmp m none = 0
from_tmp m (some fn) = fn + get_bnode_len m fn

abbrev pub content : Option ℕ → Option ℕ
content none = none
content (some fn) = some (fn + 1)

-- `tmp` is the static pointer, as a slot; the call returns it with the slot of the node's content.
unfoldable pub iter_bnode : CvspoolTrunk → Option ℕ → Option (Option ℕ × Option ℕ)
iter_bnode t tmp =
    if t.t_used == 0
    then some (tmp, none)
    else (find_bnode (suc t.t_total) t.mem t.t_total (from_tmp t.mem tmp) >>= λ r.
        some (r, content r))

-- The loop on a trunk: the slots that fn is called with. fn leaves the nodes as they are.
unfoldable pub bnodes_loop : ℕ → CvspoolTrunk → Option ℕ → Option (Option ℕ × List ℕ)
bnodes_loop zero t tmp = none
bnodes_loop (suc fuel) t tmp = iter_bnode t tmp >>= λ (tmp', pobj). elim pobj [
  | none ↦ some (tmp', [])
  | some slot ↦ bnodes_loop fuel t tmp' >>= λ (tmp'', slots). some (tmp'', slot ∷ slots)
]

-- A loop on the trunk `t` for each trunk of the list.
unfoldable pub each_trunk : List CvspoolTrunk → CvspoolTrunk → Option ℕ → Option (Option ℕ × List ℕ)
each_trunk [] t tmp = some (tmp, [])
each_trunk (u ∷ us) t tmp = do
  (tmp', slots) ← bnodes_loop (suc t.t_total) t tmp
  (tmp'', others) ← each_trunk us t tmp'
  some (tmp'', slots ++ others)

abbrev pub of_first : List CvspoolTrunk → Option ℕ → Option (Option ℕ × List ℕ)
of_first [] tmp = some (tmp, [])
of_first (t ∷ ts) tmp = each_trunk (t ∷ ts) t tmp

-- The slots of the first trunk that fn is called with.
unfoldable pub cvsp_for_each_bnode : CvspPool → Option ℕ → Option (Option ℕ × List ℕ)
cvsp_for_each_bnode sp tmp = of_first sp.trunk_list tmp
