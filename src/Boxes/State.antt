-- ===== src/Boxes/State.antt =====
-- inc/vs.h: the boxes, their mirror in the mapped meta file, and the whole system.
use leitner.Common.{ℕ, ◌+◌, ◌*◌, ◌==◌, ltb, if◌then◌else◌, get_elem?, get_or}
use leitner.Common.{Bool, false, not, List, [], ◌∷◌}

-- `struct lt_box_meta`: what the meta file keeps of a box.
pub record LtBoxMeta : Type 0 where
  pub first_inode_linenr : ℕ
  pub vs_cnt : ℕ
  pub vs_busy_cnt : ℕ

-- `struct lt_box`. An item is named by its line number, which is its index in `itblk`.
pub record LtBox : Type 0 where
  pub fi_linernr : ℕ
  pub vs_cnt : ℕ
  pub vs_limit : ℕ
  pub vs_busy_cnt : ℕ
  pub i_list : List ℕ
  pub ltbm : LtBoxMeta

-- `struct ltsys`, the part that the boxes use, with `vs_meta_head`, the `next_inode_linenr` of each
-- `vs_meta_item`, and the `cur_lb_level` and `vbuf` of each `vs_item`.
pub record Ltsys : Type 0 where
  pub lt_boxes : ℕ → LtBox
  pub next_inode_linenr : ℕ → ℕ
  pub cur_lb_level : ℕ → ℕ
  pub vbuf : ℕ → List ℕ
  pub vs_total : ℕ
  pub vs_cur_total : ℕ
  pub num_per_load : ℕ

abbrev pub no_more_vis : ℕ
no_more_vis = 0x4e4f4d4f

abbrev pub new_first_inode_linenr : ℕ
new_first_inode_linenr = 0x4e46494c

abbrev pub box_level_cnt : ℕ
box_level_cnt = 6

abbrev pub max_tries : ℕ
max_tries = 3

abbrev pub vs_cnt_base : ℕ
vs_cnt_base = 4

-- Rows of four: the limit of the box, then the most items to play for each type of going.
abbrev pub box_leve_max_vs : List ℕ
box_leve_max_vs =
    4 ∷ 0 ∷ 0 ∷ 2 ∷ 12 ∷ 6 ∷ 0 ∷ 4 ∷ 12 ∷ 8 ∷ 0 ∷ 8 ∷ 20 ∷ 10 ∷ 0 ∷ 10 ∷ 32 ∷ 16 ∷ 0 ∷ 16 ∷ 0 ∷ 0
    ∷ 0 ∷ 0 ∷ []

-- GO_LBTYPE_PUSH, GO_LBTYPE_CLEAN and GO_LBTYPE_MAKEWAY.
pub data GoType : Type 0 where
  push clean makeway : GoType

abbrev pub go_index : GoType → ℕ
go_index push = 0
go_index clean = 1
go_index makeway = 2

-- The entry of the table for a level and a type of going.
abbrev pub max_to_go : ℕ → GoType → ℕ
max_to_go level type = get_or (get_elem? box_leve_max_vs (4 * level + go_index type + 1)) 0

abbrev pub lbox_is_full : Ltsys → ℕ → Bool
lbox_is_full lts level =
    if level == 5
    then false
    else not (ltb (lts.lt_boxes level).vs_cnt (lts.lt_boxes level).vs_limit)

abbrev pub lbox_is_empty : Ltsys → ℕ → Bool
lbox_is_empty lts level = (lts.lt_boxes level).vs_cnt == 0
