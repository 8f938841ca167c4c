-- ===== src/Boxes/Invariant.antt =====
-- The invariant of the boxes of src/vs.c between two commands, and of each box by itself.
use leitner.Common.{ℕ, zero, suc, ◌+◌, ◌*◌, ◌≤◌, ◌<◌, ◌^◌, ◌≡◌, ◌≢◌, refl, ap, sym, arith}
use leitner.Common.{List, [], ◌∷◌, ◌⊎◌, Option, length, count, get_elem?, get_or, head?}
use leitner.Common.{sum_below, if◌then◌else◌, ltb}
use leitner.Boxes.State.{Ltsys, LtBox, box_leve_max_vs, box_level_cnt}
use leitner.Boxes.Move.{set_first, leave_counts, next_of, list_del}
use leitner.Boxes.Chain.{walk, walk_at}

-- The first column of the table of limits.
abbrev pub limit_of : ℕ → ℕ
limit_of level = get_or (get_elem? box_leve_max_vs (4 * level)) 0

-- One box: the counters mirror the meta file and make up the length of the list, which the chain of
-- line numbers spells out; items wait beyond the limit only in a full box, and the last box has none.
pub record BoxIsValid (next : ℕ → ℕ) (level : ℕ) (b : LtBox) : Type 0 where
  pub first_kept : b.fi_linernr ≡ b.ltbm.first_inode_linenr
  pub cnt_kept : b.vs_cnt ≡ b.ltbm.vs_cnt
  pub busy_kept : b.vs_busy_cnt ≡ b.ltbm.vs_busy_cnt
  pub counted : b.vs_cnt + b.vs_busy_cnt ≡ length b.i_list
  pub chained : walk next b.fi_linernr (length b.i_list) ≡ b.i_list
  pub limited : b.vs_limit ≡ limit_of level
  pub within : (level ≡ 5) ⊎ (b.vs_cnt ≤ b.vs_limit)
  pub waiting : (b.vs_busy_cnt ≡ 0) ⊎ ((level ≢ 5) × (b.vs_cnt ≡ b.vs_limit))

-- How often an item stands in the boxes.
abbrev pub occurs : ℕ → Ltsys → ℕ
occurs x lts = sum_below box_level_cnt (λ l. count x (lts.lt_boxes l).i_list)

-- The items that stand in the boxes, by `present`, and their number.
pub record Holds (present : ℕ → ℕ) (n : ℕ) (lts : Ltsys) : Type 0 where
  pub boxes : (l : ℕ) → l < box_level_cnt → BoxIsValid lts.next_inode_linenr l (lts.lt_boxes l)
  pub placed : (x : ℕ) → occurs x lts ≡ present x
  pub once : (x : ℕ) → present x ≤ 1
  pub levels :
      (x l : ℕ) → l < box_level_cnt → 0 < count x (lts.lt_boxes l).i_list → lts.cur_lb_level x ≡ l
  pub total : sum_below box_level_cnt (λ l. length (lts.lt_boxes l).i_list) ≡ n
  pub small : n < 2 ^ 31

abbrev pub loaded : Ltsys → ℕ → ℕ
loaded lts x = if ltb x lts.vs_cur_total then 1 else 0

-- Between two commands: exactly the items loaded so far stand in the boxes, each once.
abbrev pub IsValid : Ltsys → Type 0
IsValid lts =
    Holds (loaded lts) lts.vs_cur_total lts
    × (lts.vs_cur_total ≤ lts.vs_total)
    × (lts.vs_total < 2 ^ 31)

pub limit_pos : (l : ℕ) → l < 5 → 0 < limit_of l
limit_pos zero h = omega arith
limit_pos (suc zero) h = omega arith
limit_pos (suc (suc zero)) h = omega arith
limit_pos (suc (suc (suc zero))) h = omega arith
limit_pos (suc (suc (suc (suc zero)))) h = omega arith
limit_pos (suc (suc (suc (suc (suc l))))) h = absurd (omega arith)

-- A box without items has a count of zero, and the other way round.
pub empty_iff :
    {next : ℕ → ℕ} {l : ℕ} {b : LtBox}
    → l < 6
    → BoxIsValid next l b
    → (b.vs_cnt ≡ 0 → b.i_list ≡ []) × (b.i_list ≡ [] → b.vs_cnt ≡ 0)
empty_iff {next} {l} {b} low v = (λ e. ground (arith, limit_pos l), λ e. ground arith)

walk_tail :
    (next : ℕ → ℕ) (first p junk : ℕ) (xs : List ℕ)
    → walk next first (length (p ∷ xs)) ≡ p ∷ xs
    → walk next (get_or (head? xs) junk) (length xs) ≡ xs
walk_tail next first p junk [] h = refl
walk_tail next first p junk (x ∷ xs) h =
    let e : next first ≡ x = cc h in
    let tl : x ∷ walk next (next (next first)) (length xs) ≡ x ∷ xs = cc h in rw e at tl

-- The first item of a box leaves it.
abbrev pub without_first : LtBox → ℕ → ℕ → LtBox
without_first b p junk =
    leave_counts
      (record (set_first b (get_or (next_of p b.i_list) junk)) { i_list = list_del p b.i_list })

pub leave-BoxIsValid :
    (next : ℕ → ℕ) (l p junk : ℕ) (b : LtBox) (xs : List ℕ)
    → length (p ∷ xs) < 2 ^ 31
    → b.i_list ≡ p ∷ xs
    → BoxIsValid next l b
    → BoxIsValid next l (without_first b p junk) × ((without_first b p junk).i_list ≡ xs)
unfolding leave_counts set_first
leave-BoxIsValid next l p junk b xs sm e v = (
  record {
    first_kept = ground arith;
    cnt_kept = ground arith;
    busy_kept = ground arith;
    counted = ground (arith, ap length e, ap length same);
    chained =
        walk_at next first same
          (walk_tail next b.fi_linernr p junk xs (walk_at next refl (sym e) v.chained));
    limited = ground arith;
    within = ground (arith, ap length e);
    waiting = ground (arith, ap length e);
  },
  same,
)
  where
    gone : list_del p b.i_list ≡ xs
    gone = rw e (ground arith)

    second : next_of p b.i_list ≡ head? xs
    second = rw e (ground arith)

    same : (without_first b p junk).i_list ≡ xs
    same = ground (arith, gone)

    first : (without_first b p junk).fi_linernr ≡ get_or (head? xs) junk
    first = ground (arith, ap (λ (o : Option ℕ). get_or o junk) second)
