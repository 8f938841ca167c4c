-- ===== src/Boxes/Leave.antt =====
-- `detach`, the first half of `move_to_lbox` of src/vs.c, and the invariant.
use leitner.Common.{ℕ, suc, ◌+◌, ◌<◌, ◌^◌, ◌≡◌, ◌≢◌, refl, ap, ◌∙◌, arith}
use leitner.Common.{List, ◌∷◌, length, count, update, update_self, update_ne}
use leitner.Common.{sum_below, sum_below_change, le-sum_below}
use native.Mathlib.Decide.{ℕ_discrete}
use leitner.Boxes.State.{Ltsys, LtBox}
use leitner.Boxes.Move.{detach}
use leitner.Boxes.Invariant.{Holds, BoxIsValid, occurs, without_first, leave-BoxIsValid}

module _ (head_read : Ltsys → ℕ → ℕ) (lts : Ltsys) (p : ℕ) (xs : List ℕ) where
  abbrev old : ℕ
  old = lts.cur_lb_level p

  pub detach_other : (l : ℕ) → old ≢ l → (detach head_read lts p).lt_boxes l ≡ lts.lt_boxes l
  unfolding detach
  detach_other l ne = update_ne lts.lt_boxes old _ l ne

  detach_self :
      (detach head_read lts p).lt_boxes old ≡ without_first (lts.lt_boxes old) p (head_read lts old)
  unfolding detach
  detach_self = update_self lts.lt_boxes old _

  next_kept : (detach head_read lts p).next_inode_linenr ≡ lts.next_inode_linenr
  unfolding detach
  next_kept = refl

  level_kept : (detach head_read lts p).cur_lb_level ≡ lts.cur_lb_level
  unfolding detach
  level_kept = refl

  -- What is measured of the lists box by box changes by what the one box loses.
  detach_sum :
      (f : List ℕ → ℕ)
      → old < 6
      → sum_below 6 (λ l. f ((detach head_read lts p).lt_boxes l).i_list)
          + f (lts.lt_boxes old).i_list
        ≡ sum_below 6 (λ l. f (lts.lt_boxes l).i_list)
          + f ((detach head_read lts p).lt_boxes old).i_list
  detach_sum f low =
      sum_below_change 6 old (λ l. f ((detach head_read lts p).lt_boxes l).i_list)
        (λ l. f (lts.lt_boxes l).i_list) low
        (λ j ne. ap (λ (b : LtBox). f b.i_list) (detach_other j ne))

  module _ (present : ℕ → ℕ) (n : ℕ) (low : old < 6) (e : (lts.lt_boxes old).i_list ≡ p ∷ xs)
      (h : Holds present (suc n) lts) where
    old_small : length (p ∷ xs) < 2 ^ 31
    old_small = omega (
      arith,
      h.small,
      h.total,
      ap length e,
      le-sum_below 6 old (λ l. length (lts.lt_boxes l).i_list) low,
    )

    left :
        BoxIsValid lts.next_inode_linenr old
          (without_first (lts.lt_boxes old) p (head_read lts old))
        × ((without_first (lts.lt_boxes old) p (head_read lts old)).i_list ≡ xs)
    left = leave-BoxIsValid _ old p (head_read lts old) _ xs old_small e (h.boxes old low)

    pub detach_items : ((detach head_read lts p).lt_boxes old).i_list ≡ xs
    detach_items = ap (λ (b : LtBox). b.i_list) detach_self ∙ left.1

    left_boxes :
        (l : ℕ)
        → l < 6
        → BoxIsValid
            (detach head_read lts p).next_inode_linenr
            l
            ((detach head_read lts p).lt_boxes l)
    left_boxes l q = elim (ℕ_discrete old l) [
      | yes same ↦ rw (next_kept, ← same, detach_self) left.0
      | no other ↦ rw (next_kept, detach_other l other) (h.boxes l q)
    ]

    left_placed : (x : ℕ) → occurs x (detach head_read lts p) ≡ update present p 0 x
    left_placed x = ground (
      arith,
      detach_sum (count x) low,
      h.placed x,
      h.once x,
      ap (count x) e,
      ap (count x) detach_items,
      le-sum_below 6 old (λ l. count x (lts.lt_boxes l).i_list) low,
    )

    left_levels :
        (x l : ℕ)
        → l < 6
        → 0 < count x ((detach head_read lts p).lt_boxes l).i_list
        → (detach head_read lts p).cur_lb_level x ≡ l
    left_levels x l q c = rw level_kept (elim (ℕ_discrete old l) [
      | yes same ↦
          let c' : 0 < count x ((detach head_read lts p).lt_boxes old).i_list = rw same c in
          h.levels x l q (rw (← same) (ground (arith, ap (count x) e, ap (count x) detach_items)))
      | no other ↦ h.levels x l q (rw (detach_other l other) at c)
    ])

    -- The boxes hold the other items as before.
    pub detach-Holds : Holds (update present p 0) n (detach head_read lts p)
    detach-Holds = record {
      boxes = left_boxes;
      placed = left_placed;
      once = λ x. ground (arith, h.once x);
      levels = left_levels;
      total = omega (arith, detach_sum length low, h.total, ap length e, ap length detach_items);
      small = omega (arith, h.small);
    }
