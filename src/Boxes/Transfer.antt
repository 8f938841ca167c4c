-- ===== src/Boxes/Transfer.antt =====
-- `transfer`, the whole move of `move_to_lbox` of src/vs.c: the invariant and the lists.
use leitner.Common.{ℕ, suc, ◌-◌, ◌<◌, ◌≡◌, ◌≢◌, ap, sym, ◌∙◌, arith, ltb, if◌then◌else◌}
use leitner.Common.{List, [], ◌∷◌, ◌++◌, length, count, update, le-sum_below}
use mathlib.Core.Path.{subst}
use leitner.Boxes.State.{Ltsys, LtBox}
use leitner.Boxes.Move.{detach, attach, transfer}
use leitner.Boxes.Invariant.{Holds, IsValid, loaded}
use leitner.Boxes.Leave.{detach-Holds, detach_items, detach_other}
use leitner.Boxes.Join.{attach-Holds, attach_items, attach_other}

pub Holds-congr :
    (f g : ℕ → ℕ) (n : ℕ) (lts : Ltsys) → ((x : ℕ) → f x ≡ g x) → Holds f n lts → Holds g n lts
Holds-congr f g n lts e h = record {
  boxes = h.boxes;
  placed = λ x. h.placed x ∙ e x;
  once = λ x. omega (arith, e x, h.once x);
  levels = h.levels;
  total = h.total;
  small = h.small;
}

module _ (head_read : Ltsys → ℕ → ℕ) (lts : Ltsys) (p level new : ℕ) (xs : List ℕ) (low : level < 6)
    (new_low : new < 6) (first : (lts.lt_boxes level).i_list ≡ p ∷ xs) where
  first_level : {f : ℕ → ℕ} {n : ℕ} → Holds f n lts → lts.cur_lb_level p ≡ level
  first_level h = h.levels p level low (ground (arith, ap (count p) first))

  transfer_totals :
      ((transfer head_read lts new p).vs_cur_total ≡ lts.vs_cur_total)
      × ((transfer head_read lts new p).vs_total ≡ lts.vs_total)
  unfolding transfer detach attach
  transfer_totals = ground arith

  transfer-Holds : (f : ℕ → ℕ) (n : ℕ) → Holds f n lts → Holds f n (transfer head_read lts new p)
  unfolding transfer
  transfer-Holds f n h =
      Holds-congr (update (update f p 0) p 1) f n _
        (λ x. ground (arith, here, h.once p, ap f {x = p} {y = x}))
        (subst
          (λ k.
            Holds (update (update f p 0) p 1) k (attach head_read (detach head_read lts p) new p))
          (sym one_more)
          (attach-Holds head_read (detach head_read lts p) new p (update f p 0) (n - 1) new_low
            (omega (arith, h.small, one_more)) (ground arith)
            (detach-Holds head_read lts p xs f (n - 1) (rw lev low) (rw lev first)
              (subst (λ k. Holds f k lts) one_more h))))
    where
      lev : lts.cur_lb_level p ≡ level
      lev = first_level h

      here : 0 < f p
      here = omega (
        arith,
        h.placed p,
        le-sum_below 6 level (λ k. count p (lts.lt_boxes k).i_list) low,
        counted,
      )
        where
          counted : 0 < count p (lts.lt_boxes level).i_list
          counted = ground (arith, ap (count p) first)

      one_more : n ≡ suc (n - 1)
      one_more = omega (
        arith,
        h.total,
        ap length first,
        le-sum_below 6 level (λ k. length (lts.lt_boxes k).i_list) low,
      )

  -- In valid boxes, a move of the first item of a box to the end of a box, the same one or
  -- another, keeps the invariant: the counters and the meta file agree with the lists, the chain
  -- of line numbers spells out each list, and each loaded item stands in exactly one box.
  pub transfer-IsValid : IsValid lts → IsValid (transfer head_read lts new p)
  transfer-IsValid (h, le, small) = (
    subst (λ k. Holds (loaded moved) k moved) (sym transfer_totals.0)
        (Holds-congr (loaded lts) (loaded moved) _ moved same (transfer-Holds _ _ h)),
    omega (arith, transfer_totals),
    omega (arith, transfer_totals),
  )
    where
      moved : Ltsys
      moved = transfer head_read lts new p

      same : (x : ℕ) → loaded lts x ≡ loaded moved x
      same x = ap (λ (n : ℕ). if ltb x n then 1 else 0) (sym transfer_totals.0)

  left_behind : IsValid lts → ((detach head_read lts p).lt_boxes level).i_list ≡ xs
  left_behind v =
      ap (λ k. ((detach head_read lts p).lt_boxes k).i_list) (sym (first_level v.0))
      ∙ detach_items head_read lts p xs (loaded lts) (lts.vs_cur_total - 1)
          (rw (first_level v.0) low) (rw (first_level v.0) first)
          (subst (λ k. Holds (loaded lts) k lts) some_loaded v.0)
    where
      some_loaded : lts.vs_cur_total ≡ suc (lts.vs_cur_total - 1)
      some_loaded = omega (
        arith,
        v.0.total,
        ap length first,
        le-sum_below 6 level (λ k. length (lts.lt_boxes k).i_list) low,
      )

  untouched :
      IsValid lts → (l : ℕ) → l ≢ level → (detach head_read lts p).lt_boxes l ≡ lts.lt_boxes l
  untouched v l ne = detach_other head_read lts p xs l (λ e. ne (sym e ∙ first_level v.0))

  -- In valid boxes, a move of the first item of a box takes it off there and appends it to the
  -- list of the new one; the other boxes stay as they are. Moved within its box, the item goes
  -- from the front to the end.
  pub transfer_lists :
      IsValid lts
      → (new ≡ level → ((transfer head_read lts new p).lt_boxes new).i_list ≡ xs ++ (p ∷ []))
        × (new ≢ level
            → (((transfer head_read lts new p).lt_boxes level).i_list ≡ xs)
              × (((transfer head_read lts new p).lt_boxes new).i_list
                  ≡ (lts.lt_boxes new).i_list ++ (p ∷ [])))
        × ((l : ℕ)
            → l ≢ level
            → l ≢ new
            → (transfer head_read lts new p).lt_boxes l ≡ lts.lt_boxes l)
  unfolding transfer
  transfer_lists v = (
    λ e.
        attach_items head_read left new p
        ∙ ap (λ zs. zs ++ (p ∷ [])) (ap (λ k. (left.lt_boxes k).i_list) e ∙ left_behind v),
    λ ne. (
      ap (λ (b : LtBox). b.i_list) (attach_other head_read left new p level ne) ∙ left_behind v,
      attach_items head_read left new p
          ∙ ap (λ (b : LtBox). b.i_list ++ (p ∷ [])) (untouched v new ne),
    ),
    λ l other apart. attach_other head_read left new p l (λ e. apart (sym e)) ∙ untouched v l other,
  )
    where
      left : Ltsys
      left = detach head_read lts p
