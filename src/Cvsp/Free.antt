-- ===== src/Cvsp/Free.antt =====
-- cvsp_free of src/cvspool.c on the trunk that get_trunk finds, and get_bnode_mem_len. `none` is an
-- assertion that fails.
use leitner.Common.{
  ℕ, ◌+◌, ◌-◌, ◌*◌, ◌/◌, ◌%◌, ◌^◌, Bool, ◌&&◌, Option, none, some, ◌==◌, leb, if◌then◌else◌, u32,
}
use leitner.Cvsp.Nodes.{
  Mem, ◌>>=◌, half, write16, idx, set_idx, pad, pnblkidx, prev_blkidx, next_blkidx, prev_off,
  next_off, next_fnode, prev_fnode, set_next, set_prev, set_fnode_len, get_fnode_len, get_bnode_len,
  blk_slots, busy_guard0, free_guard0, free_guard1,
}
use leitner.Cvsp.Trunk.{CvspoolTrunk}
use leitner.Cvsp.Alloc.{unlink}

-- Whether the node behind begins with the free guard; what lies behind the memory is read, too.
abbrev pub next_free : Mem → ℕ → Bool
next_free m bn = pad m (bn + get_bnode_len m bn) == free_guard0

abbrev pub before_node : Mem → ℕ → ℕ
before_node m bn = bn - (half m (2 * bn - 2) + 1)

-- The free node before, if the slot before ends with the free guard and it is not the head; a node
-- before the memory is none.
unfoldable pub prev_free : Mem → ℕ → Option (Option ℕ)
prev_free m bn =
    if half m (2 * bn - 1) == free_guard1
    then (if leb (half m (2 * bn - 2) + 1) bn
          && (pad m (before_node m bn) == free_guard0)
          && (half m (2 * before_node m bn + 1) == half m (2 * bn - 2))
        then some (if before_node m bn == 0 then none else some (before_node m bn))
        else none)
    else some none

unfoldable pub merge_both : Mem → ℕ → ℕ → Option Mem
merge_both m bn pre = do
  let nxt = bn + get_bnode_len m bn
  let m1 = unlink m nxt
  prelen ← get_fnode_len m1 pre
  nextlen ← get_fnode_len m1 nxt
  set_fnode_len m1 pre (prelen + get_bnode_len m1 bn + nextlen)

unfoldable pub merge_prev : Mem → ℕ → ℕ → Option Mem
merge_prev m bn pre = do len ← get_fnode_len m pre; set_fnode_len m pre (len + get_bnode_len m bn)

-- idx, prev and next of a free node as they are given.
abbrev pub set_links : Mem → ℕ → ℕ → ℕ → ℕ → Mem
set_links m fn i p n = write16 (write16 (set_idx m fn i) (2 * fn + 2) p) (2 * fn + 3) n

-- The neighbours of the node behind led to the node, whose slot is `len` slots before it.
unfoldable pub lead_to : Mem → ℕ → ℕ → ℕ → ℕ → Mem
lead_to m pon non bn len =
    let m1 =
      write16 (set_idx m pon (pnblkidx (prev_blkidx (idx m pon)) (bn / blk_slots))) (2 * pon + 3)
        (half m (2 * pon + 3) + 2 ^ 16 - len) in
    write16 (set_idx m1 non (pnblkidx (bn / blk_slots) (next_blkidx (idx m1 non)))) (2 * non + 2)
      (half m1 (2 * non + 2) + 2 ^ 16 - len)

unfoldable pub merge_next : Mem → ℕ → Option Mem
merge_next m bn = do
  let len = get_bnode_len m bn
  let nxt = bn + len
  nextlen ← get_fnode_len m nxt
  m1 ← set_fnode_len m bn (len + nextlen)
  let m2 = set_links m1 bn (idx m1 nxt) (prev_off m1 nxt) (next_off m1 nxt)
  some (lead_to m2 (prev_fnode m nxt) (next_fnode m nxt) bn len)

-- The node put at the end of the ring.
unfoldable pub add_last : Mem → ℕ → Option Mem
add_last m bn = do
  let pp = prev_fnode m 0
  m1 ← set_fnode_len m bn (get_bnode_len m bn)
  let m2 =
      set_links m1 bn (pnblkidx (prev_blkidx (idx m1 0)) (next_blkidx (idx m1 pp))) (prev_off m1 0)
        (next_off m1 pp)
  let m3 = set_next m2 pp (bn / blk_slots) (bn % blk_slots)
  some (set_prev m3 0 (bn / blk_slots) (bn % blk_slots))

unfoldable pub merged : Mem → ℕ → Option Mem
merged m bn = prev_free m bn >>= λ r. elim r [
  | some pre ↦ (if next_free m bn then merge_both m bn pre else merge_prev m bn pre)
  | none ↦ (if next_free m bn then merge_next m bn else add_last m bn)
]

-- `slot` is behind the head of the busy node.
unfoldable pub trunk_free : CvspoolTrunk → ℕ → Option CvspoolTrunk
trunk_free t slot =
    if half t.mem (2 * (slot - 1)) == busy_guard0
    then (merged t.mem (slot - 1) >>= λ m.
        some
          (record t { mem = m; t_used = u32 (t.t_used + 2 ^ 32 - get_bnode_len t.mem (slot - 1)) }))
    else none

-- The bytes of a busy node that the client may use.
unfoldable pub get_bnode_mem_len : Mem → ℕ → Option ℕ
get_bnode_mem_len m slot =
    if half m (2 * (slot - 1)) == busy_guard0
    then some ((get_bnode_len m (slot - 1) - 1) * 4)
    else none
