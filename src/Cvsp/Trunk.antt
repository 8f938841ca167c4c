-- ===== src/Cvsp/Trunk.antt =====
-- A trunk with its memory, and cvsp_init_trunk of src/cvspool.c. `none` is an assertion that fails.
use leitner.Common.{ℕ, zero, suc, ◌+◌, ◌-◌, ◌*◌, ◌/◌, ◌%◌, true, false, Option, none, some, ◌==◌}
use leitner.Vector.Gcd.{min_node_size}
use leitner.Boxes.Load.{min_unsigned}
use leitner.Cvsp.Nodes.{
  Mem, ◌>>=◌, write16, idx, set_idx, next_off, pnblkidx, prev_blkidx, next_blkidx, blk_slots,
  set_fnode_len, get_fnode_len,
}

-- free_head is slot 0 of the memory; t_total_mem is counted in bytes.
pub record CvspoolTrunk : Type 0 where
  pub id : ℕ
  pub t_total : ℕ
  pub t_used : ℕ
  pub t_total_mem : ℕ
  pub mem : Mem

-- The head's fields, and those of the first free node of a trunk of `n` slots.
abbrev pub head_fields : Mem → Mem
head_fields m = write16 (write16 (set_idx m 0 (pnblkidx 0 0)) 2 0) 3 min_node_size

abbrev pub first_fields : Mem → Mem
first_fields m = write16 (write16 (set_idx m 3 (pnblkidx 0 0)) 8 0) 9 min_node_size

-- What a round writes for the node at `fn`, the one after `pre`, at the absolute slot `cur`.
unfoldable pub link_fields : Mem → ℕ → ℕ → ℕ → Mem
link_fields m pre fn cur =
    let m1 = set_idx m fn (pnblkidx (next_blkidx (idx m pre)) (cur / blk_slots)) in
    let m2 = write16 m1 (2 * fn + 2) (next_off m1 pre) in
    let m3 = set_idx m2 pre (pnblkidx (prev_blkidx (idx m2 pre)) (cur / blk_slots)) in
    write16 (write16 m3 (2 * pre + 3) (cur % blk_slots)) (2 * fn + 3) (cur % blk_slots)

-- The loop, with `remained` in slots; it returns the memory and the last node.
unfoldable pub blocks_loop : ℕ → ℕ → Mem → ℕ → ℕ → Option (Mem × ℕ)
blocks_loop zero n m remained pre = none
blocks_loop (suc fuel) n m remained pre = elim (remained == 0) [
  | true ↦ some (m, pre)
  | false ↦ do
    len ← get_fnode_len m pre
    m1 ← set_fnode_len m (pre + len) (min_unsigned blk_slots remained)
    blocks_loop fuel n (link_fields m1 pre (pre + len) (n - remained + min_node_size))
        (remained - blk_slots) (pre + len)
]

-- The head led to the last node, and the last node to the head.
unfoldable pub close_ring : Mem → ℕ → Mem
close_ring m fn =
    let m1 = set_idx m 0 (pnblkidx (next_blkidx (idx m fn)) (next_blkidx (idx m 0))) in
    let m2 = write16 m1 2 (next_off m1 fn) in
    let m3 = write16 m2 (2 * fn + 3) 0 in set_idx m3 fn (pnblkidx (prev_blkidx (idx m3 fn)) 0)

-- The memory that malloc gave, with a ring of free nodes; a block is a round of the loop.
unfoldable pub init_mem : Mem → ℕ → Option Mem
init_mem m n = do
  m1 ← set_fnode_len (head_fields m) 0 min_node_size
  m2 ← set_fnode_len (first_fields m1) 3 (min_unsigned (blk_slots - min_node_size) n)
  (m3, fn) ← blocks_loop (suc n) n m2 (n - (blk_slots - min_node_size)) 3
  some (close_ring m3 fn)

-- `malloced` is the memory that malloc gives. A trunk of no slots is refused.
unfoldable pub cvsp_init_trunk : ℕ → ℕ → Mem → Option CvspoolTrunk
cvsp_init_trunk id n malloced = do
  m ← init_mem malloced n
  some (record {
    id = id;
    t_total = n;
    t_used = 0;
    t_total_mem = n * 4 + min_node_size * 4;
    mem = m;
  })
