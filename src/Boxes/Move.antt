-- ===== src/Boxes/Move.antt =====
-- `move_to_lbox` of src/vs.c up to its first `msync`: an item leaves its box and joins another.
use leitner.Common.{ℕ, ◌==◌, if◌then◌else◌, get_or, head?, update, inc32, dec32}
use leitner.Common.{List, [], ◌∷◌, ◌++◌, Option, none, some}
use leitner.Boxes.State.{Ltsys, LtBox, lbox_is_full, no_more_vis}

-- `pvi->inode.next`: `none` is the list's head, which is no item.
abbrev pub next_of : ℕ → List ℕ → Option ℕ
next_of p [] = none
next_of p (x ∷ xs) = if x == p then head? xs else next_of p xs

-- `i_list.prev`.
abbrev pub last? : List ℕ → Option ℕ
last? [] = none
last? (x ∷ []) = some x
last? (x ∷ y ∷ ys) = last? (y ∷ ys)

-- `list_del`.
abbrev pub list_del : ℕ → List ℕ → List ℕ
list_del p [] = []
list_del p (x ∷ xs) = if x == p then xs else x ∷ list_del p xs

-- The counters are kept in the meta file and copied to the box.
unfoldable pub set_counts : LtBox → ℕ → ℕ → LtBox
set_counts b cnt busy = record b {
  vs_cnt = cnt;
  vs_busy_cnt = busy;
  ltbm = record (b.ltbm) { vs_cnt = cnt; vs_busy_cnt = busy };
}

unfoldable pub set_first : LtBox → ℕ → LtBox
set_first b n = record b { fi_linernr = n; ltbm = record (b.ltbm) { first_inode_linenr = n } }

-- An item leaves: the count goes down, or, where items wait beyond the limit, one of those takes the
-- free place.
unfoldable pub leave_counts : LtBox → LtBox
unfolding set_counts
leave_counts b =
    let b' = set_counts b (dec32 b.ltbm.vs_cnt) b.ltbm.vs_busy_cnt in
    if b.vs_busy_cnt == 0
    then b'
    else set_counts b' (inc32 b'.ltbm.vs_cnt) (dec32 b'.ltbm.vs_busy_cnt)

-- `list_del` of the item, with the new first line number. Where the item was the last of its box, the
-- source reads `vs_linenr` through the list's head: `head_read` stands for what that yields.
unfoldable pub detach : (Ltsys → ℕ → ℕ) → Ltsys → ℕ → Ltsys
unfolding set_first leave_counts
detach head_read lts p =
    let old = lts.cur_lb_level p in
    let b = lts.lt_boxes old in
    let b' = set_first b (get_or (next_of p b.i_list) (head_read lts old)) in
    record lts {
      lt_boxes =
          update lts.lt_boxes old (leave_counts (record b' { i_list = list_del p b.i_list }));
    }

-- The item becomes the first of an empty box, or is chained behind the last of a box in use.
unfoldable pub link_behind : (Ltsys → ℕ → ℕ) → Ltsys → ℕ → ℕ → Ltsys
unfolding set_first
link_behind head_read lts new p =
    let b = lts.lt_boxes new in
    let last = get_or (last? b.i_list) (head_read lts new) in
    if b.vs_cnt == 0
    then record lts { lt_boxes = update lts.lt_boxes new (set_first b p) }
    else record lts { next_inode_linenr = update lts.next_inode_linenr last p }

-- `list_add_tail`, with the end of the chain in the meta file.
unfoldable pub add_tail : Ltsys → ℕ → ℕ → Ltsys
add_tail lts new p =
    let b = lts.lt_boxes new in
    record lts {
      next_inode_linenr = update lts.next_inode_linenr p no_more_vis;
      lt_boxes = update lts.lt_boxes new (record b { i_list = b.i_list ++ (p ∷ []) });
    }

-- The item counts as busy where the box is full.
unfoldable pub join_counts : Ltsys → ℕ → Ltsys
unfolding set_counts
join_counts lts new =
    let b = lts.lt_boxes new in
    let b' =
      if lbox_is_full lts new
      then set_counts b b.ltbm.vs_cnt (inc32 b.ltbm.vs_busy_cnt)
      else set_counts b (inc32 b.ltbm.vs_cnt) b.ltbm.vs_busy_cnt in
    record lts { lt_boxes = update lts.lt_boxes new b' }

unfoldable pub attach : (Ltsys → ℕ → ℕ) → Ltsys → ℕ → ℕ → Ltsys
unfolding link_behind add_tail join_counts
attach head_read lts new p =
    let lts' = join_counts (add_tail (link_behind head_read lts new p) new p) new in
    record lts' { cur_lb_level = update lts'.cur_lb_level p new }

-- The item's way from its box to the end of the box `new`.
unfoldable pub transfer : (Ltsys → ℕ → ℕ) → Ltsys → ℕ → ℕ → Ltsys
transfer head_read lts new p = attach head_read (detach head_read lts p) new p
