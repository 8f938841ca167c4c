-- ===== src/Cvsp/Nodes.antt =====
-- The fields of free and busy nodes in a trunk's memory (inc/cvspool.h), and the functions of
-- src/cvspool.c on one node.
use leitner.Common.{
  ℕ, ◌+◌, ◌-◌, ◌*◌, ◌/◌, ◌%◌, ◌^◌, Option, none, some, ◌==◌, ltb, if◌then◌else◌, update,
}
use leitner.Vector.Gcd.{min_node_size}

infixl 5 ◌>>=◌
abbrev pub ◌>>=◌ : {A B : Type 0} → Option A → (A → Option B) → Option B
none >>= f = none
some a >>= f = f a

-- The memory of a trunk, by halfwords: slot s has the halfwords 2 s and 2 s + 1.
abbrev pub Mem : Type 0
Mem = ℕ → ℕ

abbrev pub half : Mem → ℕ → ℕ
half m a = m a % 2 ^ 16

abbrev pub write16 : Mem → ℕ → ℕ → Mem
write16 m a v = update m a (v % 2 ^ 16)

abbrev pub free_guard0 : ℕ
free_guard0 = 245

abbrev pub free_guard1 : ℕ
free_guard1 = 65527

abbrev pub busy_guard0 : ℕ
busy_guard0 = 65528

-- MAX_BLK_SIZE >> 2: the slots of a block.
abbrev pub blk_slots : ℕ
blk_slots = 2 ^ 16

-- pad and idx are the two bytes of a halfword.
unfoldable pub pad : Mem → ℕ → ℕ
pad m fn = half m (2 * fn) % 256

unfoldable pub idx : Mem → ℕ → ℕ
idx m fn = half m (2 * fn) / 256

unfoldable pub set_pad : Mem → ℕ → ℕ → Mem
set_pad m fn v = write16 m (2 * fn) (idx m fn * 256 + v % 256)

unfoldable pub set_idx : Mem → ℕ → ℕ → Mem
set_idx m fn v = write16 m (2 * fn) (v % 256 * 256 + pad m fn)

abbrev pub pnblkidx : ℕ → ℕ → ℕ
pnblkidx pidx nidx = pidx * 16 + nidx

abbrev pub prev_blkidx : ℕ → ℕ
prev_blkidx pnidx = pnidx / 16

abbrev pub next_blkidx : ℕ → ℕ
next_blkidx pnidx = pnidx % 16

unfoldable pub prev_off : Mem → ℕ → ℕ
prev_off m fn = half m (2 * fn + 2)

unfoldable pub next_off : Mem → ℕ → ℕ
next_off m fn = half m (2 * fn + 3)

-- NEXT_FNODE and PREV_FNODE, as slots of the trunk.
unfoldable pub next_fnode : Mem → ℕ → ℕ
next_fnode m fn = next_blkidx (idx m fn) * blk_slots + next_off m fn

unfoldable pub prev_fnode : Mem → ℕ → ℕ
prev_fnode m fn = prev_blkidx (idx m fn) * blk_slots + prev_off m fn

-- The two assignments that lead the next or the prev of a node to another block and offset.
unfoldable pub set_next : Mem → ℕ → ℕ → ℕ → Mem
set_next m fn blk off =
    write16 (set_idx m fn (pnblkidx (prev_blkidx (idx m fn)) blk)) (2 * fn + 3) off

unfoldable pub set_prev : Mem → ℕ → ℕ → ℕ → Mem
set_prev m fn blk off =
    write16 (set_idx m fn (pnblkidx blk (next_blkidx (idx m fn)))) (2 * fn + 2) off

-- The halfwords of fnode1, the last slot of a free node of `len` slots.
abbrev pub tail_len : ℕ → ℕ → ℕ
tail_len fn len = 2 * (fn + len) - 2

abbrev pub tail_guard : ℕ → ℕ → ℕ
tail_guard fn len = 2 * (fn + len) - 1

abbrev pub written_len : Mem → ℕ → ℕ → Mem
written_len m fn len =
    write16
      (set_pad (write16 (write16 m (tail_len fn len) (len - 1)) (2 * fn + 1) (len - 1)) fn
        free_guard0)
      (tail_guard fn len) free_guard1

-- `none` is an assertion that fails.
unfoldable pub set_fnode_len : Mem → ℕ → ℕ → Option Mem
set_fnode_len m fn len = if ltb len min_node_size then none else some (written_len m fn len)

unfoldable pub get_fnode_len : Mem → ℕ → Option ℕ
get_fnode_len m fn =
    let len = half m (2 * fn + 1) + 1 in
    if half m (2 * fn + 1) == half m (tail_len fn len) then some len else none

unfoldable pub set_bnode_len : Mem → ℕ → ℕ → Option Mem
set_bnode_len m bn len =
    if ltb len min_node_size
    then none
    else some (write16 (write16 m (2 * bn) busy_guard0) (2 * bn + 1) (len - 1))

unfoldable pub get_bnode_len : Mem → ℕ → ℕ
get_bnode_len m bn = half m (2 * bn + 1) + 1
