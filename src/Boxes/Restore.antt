-- ===== src/Boxes/Restore.antt =====
-- `ltsys_meta_init` of src/vs.c: the boxes are rebuilt from the meta file of an earlier run.
use leitner.Common.{
  ℕ, zero, suc, ◌+◌, ◌*◌, ◌%◌, ◌^◌, ◌<◌, ◌≤◌, ◌≡◌, refl, ap, sym, ◌∙◌, arith, ◌==◌,
}
use leitner.Common.{
  if◌then◌else◌, get_elem?, get_or, update, Bool, true, false, List, [], ◌∷◌, length, count,
}
use leitner.Common.{le-sum_below, sum_below, sum_below-congr, ==-ne, ◌⊎◌, inl, inr}
use native.Mathlib.Decide.{ℕ_discrete}
use leitner.Boxes.State.{
  LtBoxMeta, LtBox, Ltsys, box_leve_max_vs, box_level_cnt, new_first_inode_linenr,
}
use leitner.Boxes.Chain.{walk}
use leitner.Boxes.Invariant.{IsValid, BoxIsValid}

-- `vs_meta_head` and the `vs_meta_item`s behind it, as the file holds them.
pub record MetaFile : Type 0 where
  pub vs_total : ℕ
  pub vs_cur_total : ℕ
  pub ltb_meta : ℕ → LtBoxMeta
  pub next_inode_linenr : ℕ → ℕ

-- The file of a running system: it is mapped, and each `ltbm` points into it.
unfoldable pub meta_of : Ltsys → MetaFile
meta_of lts = record {
  vs_total = lts.vs_total;
  vs_cur_total = lts.vs_cur_total;
  ltb_meta = λ l. (lts.lt_boxes l).ltbm;
  next_inode_linenr = lts.next_inode_linenr;
}

-- The loop that fills one list: `n` rounds are left, this is round `j`, `curi` is the line before.
unfoldable pub read_chain : (ℕ → ℕ) → ℕ → ℕ → ℕ → ℕ → List ℕ
read_chain next first zero j curi = []
read_chain next first (suc n) j curi =
    let cur = if j == 0 then first else if j == 1 then next first else next curi in
    cur ∷ read_chain next first n (j + 1) cur

unfoldable pub meta_start : Bool → LtBoxMeta → LtBoxMeta
meta_start true m = record {
  first_inode_linenr = new_first_inode_linenr;
  vs_cnt = 0;
  vs_busy_cnt = 0;
}
meta_start false m = m

unfoldable pub init_box : Bool → MetaFile → ℕ → LtBox
init_box newly_created file i =
    let m = meta_start newly_created (file.ltb_meta i) in
    record {
      fi_linernr = m.first_inode_linenr;
      vs_cnt = m.vs_cnt;
      vs_limit = get_or (get_elem? box_leve_max_vs (4 * i)) 0;
      vs_busy_cnt = m.vs_busy_cnt;
      i_list =
          read_chain file.next_inode_linenr m.first_inode_linenr
            ((m.vs_cnt + m.vs_busy_cnt) % 2 ^ 32) 0 0;
      ltbm = m;
    }

-- `pvsi->cur_lb_level = i` for the items of a list.
unfoldable pub set_levels : ℕ → List ℕ → (ℕ → ℕ) → ℕ → ℕ
set_levels l [] f = f
set_levels l (x ∷ xs) f = set_levels l xs (update f x l)

unfoldable pub levels_below : ℕ → (ℕ → LtBox) → ℕ → ℕ
levels_below zero boxes = λ _. 0
levels_below (suc n) boxes = set_levels n (boxes n).i_list (levels_below n boxes)

-- `newly_created` tells a file that was just made from one of an earlier run. The last two arguments
-- are set by `ltsys_init`.
unfoldable pub ltsys_meta_init : Bool → ℕ → MetaFile → (ℕ → List ℕ) → ℕ → Ltsys
ltsys_meta_init newly_created total file vbuf num_per_load = record {
  lt_boxes = init_box newly_created file;
  next_inode_linenr = file.next_inode_linenr;
  cur_lb_level = levels_below box_level_cnt (init_box newly_created file);
  vbuf = vbuf;
  vs_total = total;
  vs_cur_total = file.vs_cur_total;
  num_per_load = num_per_load;
}

-- The loop follows the chain.
read_chain-eq-walk :
    (next : ℕ → ℕ) (first n j curi : ℕ)
    → read_chain next first n (j + 2) curi ≡ walk next (next curi) n
unfolding read_chain
read_chain-eq-walk next first zero j curi = refl
read_chain-eq-walk next first (suc n) j curi =
    rw (==-ne (j + 2) 0 (λ e. absurd (omega arith)), ==-ne (j + 2) 1 (λ e. absurd (omega arith)))
      (ap (λ zs. next curi ∷ zs)
        (ap (λ k. read_chain next first n k (next curi)) shift
          ∙ read_chain-eq-walk next first n (j + 1) (next curi)))
  where
    shift : j + 2 + 1 ≡ j + 1 + 2
    shift = omega arith

read_chain_lem : (next : ℕ → ℕ) (first n : ℕ) → read_chain next first n 0 0 ≡ walk next first n
unfolding read_chain
read_chain_lem next first zero = refl
read_chain_lem next first (suc zero) = refl
read_chain_lem next first (suc (suc n)) =
    ap (λ zs. first ∷ next first ∷ zs) (read_chain-eq-walk next first n 0 (next first))

set_levels-hit :
    (x l : ℕ) (xs : List ℕ) (f : ℕ → ℕ) → (0 < count x xs) ⊎ (f x ≡ l) → set_levels l xs f x ≡ l
unfolding set_levels
set_levels-hit x l [] f h = ground arith
set_levels-hit x l (y ∷ ys) f h = set_levels-hit x l ys (update f y l) (ground arith)

set_levels-miss : (x l : ℕ) (xs : List ℕ) (f : ℕ → ℕ) → count x xs ≡ 0 → set_levels l xs f x ≡ f x
unfolding set_levels
set_levels-miss x l [] f h = refl
set_levels-miss x l (y ∷ ys) f h =
    set_levels-miss x l ys (update f y l) (omega arith) ∙ ground arith

levels_below_lem :
    (n l x : ℕ) (boxes : ℕ → LtBox)
    → l < n
    → 0 < count x (boxes l).i_list
    → sum_below n (λ k. count x (boxes k).i_list) ≤ 1
    → levels_below n boxes x ≡ l
unfolding levels_below
levels_below_lem zero l x boxes h c one = elim h [ ]
levels_below_lem (suc n) l x boxes h c one = elim (ℕ_discrete l n) [
  | yes last ↦
      set_levels-hit x n (boxes n).i_list (levels_below n boxes) (inl (rw (← last) c)) ∙ sym last
  | no earlier ↦
      let below : l < n = omega (arith, earlier) in
      let ls = le-sum_below n l (λ k. count x (boxes k).i_list) below in
      set_levels-miss x n (boxes n).i_list (levels_below n boxes) (omega (arith, ls))
      ∙ levels_below_lem n l x boxes below c (omega arith)
]

-- The box of an earlier run comes back.
init_box-eq :
    (lts : Ltsys) (l : ℕ)
    → length (lts.lt_boxes l).i_list < 2 ^ 32
    → BoxIsValid lts.next_inode_linenr l (lts.lt_boxes l)
    → init_box false (meta_of lts) l ≡ lts.lt_boxes l
unfolding init_box meta_of meta_start
init_box-eq lts l small v = ground (arith, items)
  where
    n : ℕ
    n = ((lts.lt_boxes l).ltbm.vs_cnt + (lts.lt_boxes l).ltbm.vs_busy_cnt) % 2 ^ 32

    all_read : n ≡ length (lts.lt_boxes l).i_list
    all_read = omega (arith, v)

    items :
        read_chain lts.next_inode_linenr (lts.lt_boxes l).ltbm.first_inode_linenr n 0 0
        ≡ (lts.lt_boxes l).i_list
    items =
        read_chain_lem lts.next_inode_linenr (lts.lt_boxes l).ltbm.first_inode_linenr n
        ∙ ap (walk lts.next_inode_linenr (lts.lt_boxes l).ltbm.first_inode_linenr) all_read
        ∙ ap (λ k. walk lts.next_inode_linenr k (length (lts.lt_boxes l).i_list)) (sym v.first_kept)
        ∙ v.chained

abbrev pub restarted : Ltsys → ℕ → Ltsys
restarted lts num = ltsys_meta_init false lts.vs_total (meta_of lts) lts.vbuf num

module _ (lts : Ltsys) (num : ℕ) (v : IsValid lts) where
  box_restored : (l : ℕ) → l < 6 → (restarted lts num).lt_boxes l ≡ lts.lt_boxes l
  unfolding ltsys_meta_init
  box_restored l low =
      init_box-eq lts l
        (omega
          (arith, v.0.total, v.0.small, le-sum_below 6 l (λ k. length (lts.lt_boxes k).i_list) low))
        (v.0.boxes l low)

  sum_restored :
      (f : List ℕ → ℕ)
      → sum_below 6 (λ l. f ((restarted lts num).lt_boxes l).i_list)
        ≡ sum_below 6 (λ l. f (lts.lt_boxes l).i_list)
  sum_restored f =
      sum_below-congr 6 _ _ (λ l low. ap (λ (b : LtBox). f b.i_list) (box_restored l low))

  levels_restored :
      (x l : ℕ)
      → l < 6
      → 0 < count x ((restarted lts num).lt_boxes l).i_list
      → (restarted lts num).cur_lb_level x ≡ l
  unfolding ltsys_meta_init
  levels_restored x l low c =
      levels_below_lem 6 l x (init_box false (meta_of lts)) low c
        (omega (arith, sum_restored (count x), v.0.placed x, v.0.once x))

  restored_totals :
      ((restarted lts num).vs_cur_total ≡ lts.vs_cur_total)
      × ((restarted lts num).vs_total ≡ lts.vs_total)
      × ((restarted lts num).next_inode_linenr ≡ lts.next_inode_linenr)
  unfolding ltsys_meta_init meta_of
  restored_totals = (refl, refl, refl)

  -- What a valid system has in the meta file is enough: a run that starts from that file has the
  -- same boxes, each with the same list in the same order and the same counters, and is valid
  -- again.
  pub ltsys_meta_init-restores :
      ((l : ℕ) → l < box_level_cnt → (restarted lts num).lt_boxes l ≡ lts.lt_boxes l)
      × ((restarted lts num).vs_cur_total ≡ lts.vs_cur_total)
      × IsValid (restarted lts num)
  unfolding ltsys_meta_init meta_of
  ltsys_meta_init-restores = (
    box_restored,
    refl,
    (
      record {
        boxes = λ l low. rw (box_restored l low) (v.0.boxes l low);
        placed = λ x. sum_restored (count x) ∙ v.0.placed x;
        once = v.0.once;
        levels = levels_restored;
        total = sum_restored length ∙ v.0.total;
        small = v.0.small;
      },
      v.1,
      v.2,
    ),
  )

-- A file that was just made, with nothing loaded yet and fewer than 2 ^ 31 items, gives valid
-- boxes.
pub ltsys_meta_init-IsValid :
    (total : ℕ) (file : MetaFile) (vbuf : ℕ → List ℕ) (num : ℕ)
    → file.vs_cur_total ≡ 0
    → total < 2 ^ 31
    → IsValid (ltsys_meta_init true total file vbuf num)
unfolding ltsys_meta_init init_box meta_start read_chain
ltsys_meta_init-IsValid total file vbuf num e small = (
  record {
    boxes = λ l low. record {
      first_kept = refl;
      cnt_kept = refl;
      busy_kept = refl;
      counted = omega arith;
      chained = refl;
      limited = refl;
      within = inr (omega arith);
      waiting = inl refl;
    };
    placed = λ x. ground arith;
    once = λ x. ground arith;
    levels = λ x l low c. absurd (omega arith);
    total = omega arith;
    small = omega arith;
  },
  omega arith,
  small,
)
