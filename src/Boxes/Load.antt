-- ===== src/Boxes/Load.antt =====
-- `cmd_load` of src/ltsys.c: items not yet in a box join box 0.
use leitner.Common.{ℕ, zero, suc, ◌+◌, ◌-◌, ◌%◌, ◌^◌, ltb, if◌then◌else◌, update, inc32}
use leitner.Common.{Option, none, some}
use leitner.Common.Int.{ℤ, pos, negsuc, min_int}
use leitner.Boxes.State.{Ltsys}
use leitner.Boxes.Move.{link_behind, add_tail, set_counts}

-- An `int` as the `unsigned` operand that it is converted to.
abbrev pub to_unsigned : ℤ → ℕ
to_unsigned (pos n) = n % 2 ^ 32
to_unsigned (negsuc n) = 2 ^ 32 - 1 - n % 2 ^ 32

abbrev pub sub_unsigned : ℕ → ℕ → ℕ
sub_unsigned a b = (a + 2 ^ 32 - b) % 2 ^ 32

abbrev pub min_unsigned : ℕ → ℕ → ℕ
min_unsigned a b = if ltb a b then a else b

-- How many items are loaded; the argument is what `atoi` makes of the command's, if there is one.
unfoldable pub num_to_load : Ltsys → Option ℤ → ℕ
num_to_load lts arg =
    let asked : ℤ = elim arg [
      | none ↦ pos lts.num_per_load
      | some n ↦ min_int (pos lts.num_per_load) n
    ] in
    let b = lts.lt_boxes 0 in
    min_unsigned (min_unsigned (to_unsigned asked) (sub_unsigned b.vs_limit b.vs_cnt))
      (sub_unsigned lts.vs_total lts.vs_cur_total)

-- One round of the loop: item `x` joins box 0.
unfoldable pub load_one : (Ltsys → ℕ → ℕ) → Ltsys → ℕ → Ltsys
load_one head_read lts x =
    let lts' = add_tail (link_behind head_read lts 0 x) 0 x in
    let b = lts'.lt_boxes 0 in
    record lts' {
      cur_lb_level = update lts'.cur_lb_level x 0;
      lt_boxes = update lts'.lt_boxes 0 (set_counts b (inc32 b.ltbm.vs_cnt) b.ltbm.vs_busy_cnt);
      vs_cur_total = inc32 lts'.vs_cur_total;
    }

unfoldable pub load_loop : (Ltsys → ℕ → ℕ) → ℕ → ℕ → Ltsys → Ltsys
load_loop head_read zero x lts = lts
load_loop head_read (suc n) x lts = load_loop head_read n (x + 1) (load_one head_read lts x)

-- The count is kept in an `int`: from 2 ^ 31 on it is negative and the loop makes no round.
abbrev pub rounds : ℕ → ℕ
rounds n = if ltb n (2 ^ 31) then n else 0

unfoldable pub cmd_load : (Ltsys → ℕ → ℕ) → Ltsys → Option ℤ → Ltsys
cmd_load head_read lts arg = load_loop head_read (rounds (num_to_load lts arg)) lts.vs_cur_total lts
