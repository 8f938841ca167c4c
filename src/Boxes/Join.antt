-- ===== src/Boxes/Join.antt =====
-- `attach`, the second half of `move_to_lbox` of src/vs.c, and the invariant.
use leitner.Common.{
  ℕ, suc, ◌+◌, ◌≤◌, ◌⊎◌, inl, inr, ◌<◌, ◌^◌, ◌≡◌, ◌≢◌, refl, ap, sym, ◌∙◌, le-sum_below_pair, ==-ne,
  arith, inc32, not, ltb, false,
}
use leitner.Common.{List, [], ◌∷◌, ◌++◌, length, count, update, ◌==◌}
use leitner.Common.{sum_below, sum_below_change, le-sum_below, count-append, length-append}
use leitner.Common.{if◌then◌else◌}
use mathlib.Core.Path.{subst}
use native.Mathlib.Decide.{ℕ_discrete}
use leitner.Boxes.State.{Ltsys, LtBox}
use leitner.Boxes.Move.{attach, set_counts, set_first}
use leitner.Boxes.Chain.{walk, walk_at, walk-congr, walk_extend, count_last, last_or}
use leitner.Boxes.Invariant.{Holds, BoxIsValid, occurs, empty_iff}

-- The box after the item has joined it.
abbrev joined : LtBox → ℕ → ℕ → LtBox
joined b level p =
    let b' = record (if b.vs_cnt == 0 then set_first b p else b) {
      i_list = b.i_list ++ (p ∷ []);
    } in
    if (if level == 5 then false else not (ltb b'.vs_cnt b'.vs_limit))
    then set_counts b' b'.ltbm.vs_cnt (inc32 b'.ltbm.vs_busy_cnt)
    else set_counts b' (inc32 b'.ltbm.vs_cnt) b'.ltbm.vs_busy_cnt

joined_items : (b : LtBox) (l p : ℕ) → (joined b l p).i_list ≡ b.i_list ++ (p ∷ [])
unfolding set_counts set_first
joined_items b l p = ground arith

joined_first :
    (b : LtBox) (l p : ℕ) → (joined b l p).fi_linernr ≡ (if b.vs_cnt == 0 then p else b.fi_linernr)
unfolding set_counts set_first
joined_first b l p = ground arith

joined-BoxIsValid :
    (next next' : ℕ → ℕ) (l p : ℕ) (b : LtBox)
    → l < 6
    → length b.i_list + 1 < 2 ^ 31
    → walk next' (if b.vs_cnt == 0 then p else b.fi_linernr) (suc (length b.i_list))
      ≡ b.i_list ++ (p ∷ [])
    → BoxIsValid next l b
    → BoxIsValid next' l (joined b l p)
unfolding set_counts set_first
joined-BoxIsValid next next' l p b low sm ch v = record {
  first_kept = ground arith;
  cnt_kept = ground arith;
  busy_kept = ground arith;
  counted = ground (arith, ap length (joined_items b l p), length-append b.i_list (p ∷ []));
  chained =
      walk_at next' (joined_first b l p) (joined_items b l p)
        (ap (walk next' (if b.vs_cnt == 0 then p else b.fi_linernr)) longer ∙ ch);
  limited = ground arith;
  within = ground (arith);
  waiting = ground (arith);
}
  where
    longer : length (b.i_list ++ (p ∷ [])) ≡ suc (length b.i_list)
    longer = omega (arith, length-append b.i_list (p ∷ []))

BoxIsValid-congr :
    (next next' : ℕ → ℕ) (l : ℕ) (b : LtBox)
    → ((x : ℕ) → 0 < count x b.i_list → next' x ≡ next x)
    → BoxIsValid next l b
    → BoxIsValid next' l b
BoxIsValid-congr next next' l b same v = record {
  first_kept = v.first_kept;
  cnt_kept = v.cnt_kept;
  busy_kept = v.busy_kept;
  counted = v.counted;
  chained = walk-congr next next' b.fi_linernr b.i_list same v.chained;
  limited = v.limited;
  within = v.within;
  waiting = v.waiting;
}

module _ (head_read : Ltsys → ℕ → ℕ) (lts : Ltsys) (new p : ℕ) where
  pub attach_other : (l : ℕ) → new ≢ l → (attach head_read lts new p).lt_boxes l ≡ lts.lt_boxes l
  unfolding attach
  attach_other l ne = ground arith

  attach_self : (attach head_read lts new p).lt_boxes new ≡ joined (lts.lt_boxes new) new p
  unfolding attach set_first set_counts
  attach_self = ground arith

  abbrev next' : ℕ → ℕ
  next' = (attach head_read lts new p).next_inode_linenr

  attach_level :
      (x : ℕ)
      → (attach head_read lts new p).cur_lb_level x ≡ (if p == x then new else lts.cur_lb_level x)
  unfolding attach set_first set_counts
  attach_level x = ground arith

  -- The chain changes at the item and at the item before it only.
  attach_next_other :
      (x : ℕ)
      → p ≢ x
      → ((lts.lt_boxes new).vs_cnt ≡ 0)
        ⊎ (x ≢ last_or (lts.lt_boxes new).i_list (head_read lts new))
      → next' x ≡ lts.next_inode_linenr x
  unfolding attach set_first set_counts
  attach_next_other x ne h = ground arith

  attach_next_last :
      (lts.lt_boxes new).vs_cnt ≢ 0
      → p ≢ last_or (lts.lt_boxes new).i_list (head_read lts new)
      → next' (last_or (lts.lt_boxes new).i_list (head_read lts new)) ≡ p
  unfolding attach set_first set_counts
  attach_next_last used ne = ground arith

  attach_sum :
      (f : List ℕ → ℕ)
      → new < 6
      → sum_below 6 (λ l. f ((attach head_read lts new p).lt_boxes l).i_list)
          + f (lts.lt_boxes new).i_list
        ≡ sum_below 6 (λ l. f (lts.lt_boxes l).i_list)
          + f ((attach head_read lts new p).lt_boxes new).i_list
  attach_sum f low =
      sum_below_change 6 new (λ l. f ((attach head_read lts new p).lt_boxes l).i_list)
        (λ l. f (lts.lt_boxes l).i_list) low
        (λ j ne. ap (λ (b : LtBox). f b.i_list) (attach_other j ne))

  pub attach_items :
      ((attach head_read lts new p).lt_boxes new).i_list ≡ (lts.lt_boxes new).i_list ++ (p ∷ [])
  attach_items = ap (λ (b : LtBox). b.i_list) attach_self ∙ joined_items (lts.lt_boxes new) new p

  module _ (present : ℕ → ℕ) (n : ℕ) (low : new < 6) (room : suc n < 2 ^ 31)
      (absent : present p ≡ 0) (h : Holds present n lts) where
    once_in : (l x : ℕ) → l < 6 → count x (lts.lt_boxes l).i_list ≤ present x
    once_in l x q =
        omega (arith, h.placed x, le-sum_below 6 l (λ k. count x (lts.lt_boxes k).i_list) q)

    -- An item of another box keeps its place in the chain.
    kept_elsewhere :
        (l x : ℕ)
        → l < 6
        → new ≢ l
        → 0 < count x (lts.lt_boxes l).i_list
        → next' x ≡ lts.next_inode_linenr x
    kept_elsewhere l x q ne c =
        attach_next_other x (λ e. absurd (omega (arith, absent, once_in l x q, ap present e)))
          (last_or_none (lts.lt_boxes new).i_list refl)
      where
        last_or_none :
            (xs : List ℕ)
            → (lts.lt_boxes new).i_list ≡ xs
            → ((lts.lt_boxes new).vs_cnt ≡ 0)
              ⊎ (x ≢ last_or (lts.lt_boxes new).i_list (head_read lts new))
        last_or_none [] e = inl ((empty_iff low (h.boxes new low)).1 e)
        last_or_none (y ∷ ys) e = inr λ s. absurd (
            omega (
              arith,
              count_last y ys (head_read lts new),
              ap (λ t. count t (y ∷ ys)) (s ∙ ap (λ t. last_or t (head_read lts new)) e),
              ap (count x) e,
              h.placed x,
              h.once x,
              le-sum_below_pair 6 new l (λ k. count x (lts.lt_boxes k).i_list) low q ne,
            ))

    new_chain :
        (xs : List ℕ)
        → (lts.lt_boxes new).i_list ≡ xs
        → walk next'
            (if (lts.lt_boxes new).vs_cnt == 0 then p else (lts.lt_boxes new).fi_linernr)
            (suc (length xs))
          ≡ xs ++ (p ∷ [])
    new_chain [] e = rw ((empty_iff low (h.boxes new low)).1 e)
    new_chain (x ∷ xs) e = rw (==-ne _ 0 used) (
        walk_extend lts.next_inode_linenr next' p (head_read lts new) _ x xs
          (λ y. omega (arith, in_new y, once_in new y low, h.once y))
          (λ y c ne.
            attach_next_other y (not_new y c)
              (inr (λ s. ne (s ∙ ap (λ t. last_or t (head_read lts new)) e))))
          (rw e at (attach_next_last used last_is_not))
          (walk_at lts.next_inode_linenr refl (sym e) (h.boxes new low).chained))
      where
        in_new : (y : ℕ) → count y (lts.lt_boxes new).i_list ≡ count y (x ∷ xs)
        in_new y = ap (count y) e

        used : (lts.lt_boxes new).vs_cnt ≢ 0
        used c = cc ((empty_iff low (h.boxes new low)).0 c)

        not_new : (y : ℕ) → 0 < count y (x ∷ xs) → p ≢ y
        not_new y c s = absurd (omega (arith, absent, once_in new y low, in_new y, ap present s))

        last_is_not : p ≢ last_or (lts.lt_boxes new).i_list (head_read lts new)
        last_is_not = rw e (not_new _ (count_last x xs (head_read lts new)))

    joined_boxes :
        (l : ℕ)
        → l < 6
        → BoxIsValid
            (attach head_read lts new p).next_inode_linenr
            l
            ((attach head_read lts new p).lt_boxes l)
    joined_boxes l q = elim (ℕ_discrete new l) [
      | yes same ↦
          rw (← same, attach_self)
            (joined-BoxIsValid lts.next_inode_linenr next' new p (lts.lt_boxes new) low
              (omega (
                arith,
                h.total,
                room,
                le-sum_below 6 new (λ k. length (lts.lt_boxes k).i_list) low,
              ))
              (new_chain (lts.lt_boxes new).i_list refl) (h.boxes new low))
      | no other ↦ rw (attach_other l other) (
          BoxIsValid-congr lts.next_inode_linenr next' l (lts.lt_boxes l)
            (λ x. kept_elsewhere l x q other) (h.boxes l q))
    ]

    joined_placed : (x : ℕ) → occurs x (attach head_read lts new p) ≡ update present p 1 x
    joined_placed x = ground (
      arith,
      attach_sum (count x) low,
      h.placed x,
      absent,
      ap (count x) attach_items,
      count-append x (lts.lt_boxes new).i_list (p ∷ []),
    )

    joined_levels :
        (x l : ℕ)
        → l < 6
        → 0 < count x ((attach head_read lts new p).lt_boxes l).i_list
        → (attach head_read lts new p).cur_lb_level x ≡ l
    joined_levels x l q c = rw attach_level (elim (ℕ_discrete new l) [
      | yes same ↦
          let c' =
            subst (λ k. 0 < count x ((attach head_read lts new p).lt_boxes k).i_list) (sym same)
              c in
          ground (
            arith,
            h.levels x l q,
            ap (λ (k : ℕ). count x (lts.lt_boxes k).i_list) same,
            ap (count x) attach_items,
            count-append x (lts.lt_boxes new).i_list (p ∷ []),
          )
      | no other ↦
          let c' : 0 < count x (lts.lt_boxes l).i_list = rw (attach_other l other) at c in
          ground (arith, h.levels x l q c', once_in l x q, absent, once_in l p q)
    ])

    -- The boxes hold the item too.
    pub attach-Holds : Holds (update present p 1) (suc n) (attach head_read lts new p)
    attach-Holds = record {
      boxes = joined_boxes;
      placed = joined_placed;
      once = λ x. ground (arith, h.once x);
      levels = joined_levels;
      total = omega (
        arith,
        attach_sum length low,
        h.total,
        ap length attach_items,
        length-append (lts.lt_boxes new).i_list (p ∷ []),
      );
      small = room;
    }
