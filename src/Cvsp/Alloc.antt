-- ===== src/Cvsp/Alloc.antt =====
-- cvsp_alloc of src/cvspool.c, with add_new_trunk and the parts of its body. `none` is an assertion that
-- fails, or a search that does not come back to the head.
use leitner.Common.{
  ℕ, zero, suc, ◌+◌, ◌-◌, ◌*◌, ◌/◌, Bool, true, false, ◌||◌, Option, none, some, List, [], ◌∷◌,
  ◌==◌, ltb, leb, if◌then◌else◌, u32,
}
use leitner.Vector.Gcd.{min_node_size}
use leitner.Cvsp.Nodes.{
  Mem, ◌>>=◌, half, write16, idx, prev_blkidx, next_blkidx, prev_off, next_off, next_fnode,
  prev_fnode, set_next, set_prev, set_fnode_len, get_fnode_len, set_bnode_len,
}
use leitner.Cvsp.Trunk.{CvspoolTrunk, cvsp_init_trunk}

abbrev pub fits : ℕ → ℕ → Bool
fits len need = (len == need) || leb (need + min_node_size) len

-- for_each_fnode from `fn` on, to the first node that fits: `some none` is the head.
unfoldable pub search : ℕ → Mem → ℕ → ℕ → Option (Option ℕ)
search zero m need fn = none
search (suc fuel) m need fn = elim (fn == 0) [
  | true ↦ some none
  | false ↦ do
    len ← get_fnode_len m fn
    elim (fits len need) [ true ↦ some (some fn) | false ↦ search fuel m need (next_fnode m fn) ]
]

-- The node's neighbours linked to each other.
unfoldable pub unlink : Mem → ℕ → Mem
unlink m fn =
    let m1 = set_next m (prev_fnode m fn) (next_blkidx (idx m fn)) (next_off m fn) in
    set_prev m1 (next_fnode m fn) (prev_blkidx (idx m1 fn)) (prev_off m1 fn)

-- memcpy of a fnode0.
unfoldable pub copy_fnode0 : Mem → ℕ → ℕ → Mem
copy_fnode0 m new fn =
    write16
      (write16 (write16 (write16 m (2 * new) (half m (2 * fn))) (2 * new + 1) (half m (2 * fn + 1)))
        (2 * new + 2) (half m (2 * fn + 2)))
      (2 * new + 3) (half m (2 * fn + 3))

-- The neighbours' offsets moved on; the indexes of their blocks stay.
unfoldable pub shift_links : Mem → ℕ → ℕ → ℕ → Mem
shift_links m pre nxt k =
    let m1 = write16 m (2 * pre + 3) (half m (2 * pre + 3) + k) in
    write16 m1 (2 * nxt + 2) (half m1 (2 * nxt + 2) + k)

-- The first `need` slots cut off a free node, and the rest put in its place in the ring.
unfoldable pub split_fnode : Mem → ℕ → ℕ → Option Mem
split_fnode m fn need = do
  let m1 = copy_fnode0 m (fn + need) fn
  len ← get_fnode_len m1 fn
  m2 ← set_fnode_len m1 (fn + need) (len - need)
  some (shift_links m2 (prev_fnode m fn) (next_fnode m fn) need)

unfoldable pub take_fnode : Mem → ℕ → ℕ → Option Mem
take_fnode m fn need = do
  len ← get_fnode_len m fn
  m1 ← (if len == need then some (unlink m fn) else split_fnode m fn need)
  set_bnode_len m1 fn need

-- The trunk with the node that the search found, and the slot behind the head of the busy node.
unfoldable pub fnode_taken : CvspoolTrunk → ℕ → Option ℕ → Option (Option (CvspoolTrunk × ℕ))
fnode_taken t need none = some none
fnode_taken t need (some fn) = do
  m ← take_fnode t.mem fn need
  some (some (record t { mem = m; t_used = u32 (t.t_used + need) }, fn + 1))

-- A trunk's part of an allocation.
unfoldable pub trunk_alloc : CvspoolTrunk → ℕ → Option (Option (CvspoolTrunk × ℕ))
trunk_alloc t need = search (suc t.t_total) t.mem need (next_fnode t.mem 0) >>= fnode_taken t need

pub record CvspPool : Type 0 where
  pub total : ℕ
  pub used : ℕ
  pub total_mem : ℕ
  pub autoex : Bool
  pub trunk_cnt : ℕ
  pub trunk_list : List CvspoolTrunk

abbrev pub sizeof_trunk : ℕ
sizeof_trunk = 48

abbrev pub grown : CvspPool → ℕ → CvspoolTrunk → CvspPool
grown sp n t = record sp {
  trunk_list = t ∷ sp.trunk_list;
  total = u32 (sp.total + n);
  total_mem = u32 (sp.total_mem + t.t_total_mem + sizeof_trunk);
  trunk_cnt = u32 (sp.trunk_cnt + 1);
}

-- add_new_trunk, before the first trunk of the list; `malloced` is none where malloc gives no memory.
unfoldable pub add_new_trunk : CvspPool → ℕ → Option Mem → Option (Option CvspPool)
add_new_trunk sp n none = some none
add_new_trunk sp n (some malloced) = do
  t ← cvsp_init_trunk sp.trunk_cnt n malloced
  some (some (grown sp n t))

-- The first trunk of the list with a node that fits: the list, the trunk's id, and the slot.
unfoldable pub trunks_alloc : List CvspoolTrunk → ℕ → Option (Option (List CvspoolTrunk × ℕ × ℕ))
trunks_alloc [] need = some none
trunks_alloc (t ∷ ts) need = trunk_alloc t need >>= λ r. elim r [
  | some (t', slot) ↦ some (some (t' ∷ ts, t.id, slot))
  | none ↦ trunks_alloc ts need >>= λ r. elim r [
    | some (ts', id, slot) ↦ some (some (t ∷ ts', id, slot))
    | none ↦ some none
  ]
]

-- MAX(((size+4+3)>>2), MIN_NODE_SIZE), where the sum wraps.
unfoldable pub need_slots_of : ℕ → ℕ
need_slots_of size =
    let slots = u32 (size + 4 + 3) / 4 in if ltb min_node_size slots then slots else min_node_size

abbrev pub first_total : List CvspoolTrunk → ℕ
first_total [] = 0
first_total (t ∷ ts) = t.t_total

-- The pool after the call, and what it returns: NULL, or a trunk's id and a slot.
abbrev pub Allocated : Type 0
Allocated = CvspPool × Option (ℕ × ℕ)
