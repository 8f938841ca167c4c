-- ===== src/Cvsp/Init.antt =====
-- slots_num_adjust and cvsp_init of src/cvspool.c. The id of a pool (CVSP_M_NEEDID) is left out.
use leitner.Common.{
  ℕ, zero, suc, ◌+◌, ◌-◌, ◌*◌, ◌/◌, ◌%◌, ◌^◌, Bool, true, false, ◌&&◌, Option, none, some, List, [],
  ◌∷◌, ◌==◌, ltb, if◌then◌else◌, not, u32,
}
use leitner.Vector.Gcd.{min_node_size}
use leitner.Boxes.Load.{min_unsigned}
use leitner.Cvsp.Nodes.{◌>>=◌, blk_slots}
use leitner.Cvsp.Trunk.{CvspoolTrunk, cvsp_init_trunk}
use leitner.Cvsp.Alloc.{CvspPool, sizeof_trunk}
use leitner.Cvsp.Pool.{Mallocs}

-- MAX_TRUNK_SIZE >> 2: the slots of a trunk with its head.
abbrev pub trunk_slots : ℕ
trunk_slots = blk_slots * 16

-- The loop that counts the trunks: how many there are, and what is left for the last one with its head.
-- `none` is fuel that has run out.
unfoldable pub trunks_of : ℕ → ℕ → ℕ → Option (ℕ × ℕ)
trunks_of zero nt st = none
trunks_of (suc fuel) nt st = elim (not (st / trunk_slots == 0) && not (st % trunk_slots == 0)) [
  | true ↦ trunks_of fuel (nt + 1) (st - trunk_slots + min_node_size)
  | false ↦ some (nt, st)
]

-- The slots of the only trunk, made enough for a node in its last block.
unfoldable pub adjusted_last : ℕ → ℕ
adjusted_last n =
    if ltb n min_node_size && not (n % min_node_size == 0)
    then u32 (n + (min_node_size - n % min_node_size))
    else (let remain = u32 (n + min_node_size) % blk_slots in
        if ltb remain min_node_size && not (remain % min_node_size == 0)
        then u32 (n + (min_node_size - remain % min_node_size))
        else n)

unfoldable pub slots_in_last_trunk : ℕ → ℕ → ℕ
slots_in_last_trunk n nt = u32 (n + 2 ^ 32 - u32 ((nt - 1) * (trunk_slots - min_node_size)))

-- `depth` bounds the calls for the last trunk.
unfoldable pub slots_num_adjust : ℕ → ℕ → Option ℕ
slots_num_adjust zero n = none
slots_num_adjust (suc depth) n = do
  (nt, st) ← trunks_of (suc (n + min_node_size)) 1 (u32 (n + min_node_size))
  elim (ltb 1 nt) [
    | true ↦ slots_num_adjust depth (slots_in_last_trunk n nt) >>= λ adjusted.
        some (u32 (u32 (n + 2 ^ 32 - slots_in_last_trunk n nt) + adjusted))
    | false ↦ some (adjusted_last n)
  ]

-- The trunks from the one with the number `id` on, for `tremain` slots below 2^29, where the shift to
-- bytes does not overflow; `some none` where malloc gives no memory, and the trunks so far are freed.
unfoldable pub init_trunks : Mallocs → ℕ → ℕ → Option (Option (List CvspoolTrunk))
init_trunks [] id tremain = none
init_trunks (none ∷ answers) id tremain = some none
init_trunks (some malloced ∷ answers) id tremain = do
  let tsize = min_unsigned (trunk_slots - min_node_size) tremain
  t ← cvsp_init_trunk id tsize malloced
  elim (tremain - tsize == 0) [
    | true ↦ some (some (t ∷ []))
    | false ↦ init_trunks answers (u32 (id + 1)) (tremain - tsize) >>= λ r. elim r [
      | none ↦ some none
      | some ts ↦ some (some (t ∷ ts))
    ]
  ]

abbrev pub trunks_cnt : List CvspoolTrunk → ℕ
trunks_cnt [] = 0
trunks_cnt (t ∷ ts) = u32 (trunks_cnt ts + 1)

abbrev pub trunks_mem : List CvspoolTrunk → ℕ
trunks_mem [] = 0
trunks_mem (t ∷ ts) = u32 (trunks_mem ts + t.t_total_mem + sizeof_trunk)

-- `some none` is the result -1.
abbrev pub made : ℕ → Bool → Option (List CvspoolTrunk) → Option (Option CvspPool)
made total autoex none = some none
made total autoex (some ts) = some (
    some (record {
      total = total;
      used = 0;
      total_mem = trunks_mem ts;
      autoex = autoex;
      trunk_cnt = trunks_cnt ts;
      trunk_list = ts;
    }))

unfoldable pub cvsp_init : Mallocs → ℕ → Bool → Option (Option CvspPool)
cvsp_init answers slots_num autoex = do
  total ← slots_num_adjust 2 slots_num
  r ← init_trunks answers 0 total
  made total autoex r
