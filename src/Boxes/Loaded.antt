-- ===== src/Boxes/Loaded.antt =====
-- `cmd_load` of src/ltsys.c: the invariant and the list of box 0.
use leitner.Common.{
  ℕ, zero, suc, ◌+◌, ◌-◌, ◌≤◌, ◌<◌, ◌^◌, ◌≡◌, ◌≢◌, refl, ap, sym, ◌∙◌, arith, ◌==◌,
}
use leitner.Common.{
  List, [], ◌∷◌, ◌++◌, update, false, inc32, Option, none, some, Bool-cases, inl, inr,
}
use leitner.Common.Int.{ℤ, pos, negsuc}
use Prim.Native.Nat.{min}
use mathlib.Core.Path.{subst, ap₂}
use mathlib.Core.List.{append_assoc, append-nil}
use leitner.Boxes.State.{Ltsys, lbox_is_full}
use leitner.Boxes.Move.{attach, link_behind, add_tail, join_counts, set_counts, set_first}
use leitner.Boxes.Invariant.{Holds, IsValid, loaded}
use leitner.Boxes.Join.{attach-Holds, attach_items, attach_other}
use leitner.Boxes.Transfer.{Holds-congr}
use leitner.Boxes.Load.{load_one, load_loop, cmd_load, num_to_load, rounds}

module _ (head_read : Ltsys → ℕ → ℕ) where
  -- Where box 0 has room, a round of the loop is what a move does at its end.
  load_one-eq-attach :
      (lts : Ltsys) (x : ℕ)
      → lbox_is_full lts 0 ≡ false
      → load_one head_read lts x
        ≡ record (attach head_read lts 0 x) { vs_cur_total = inc32 lts.vs_cur_total }
  unfolding load_one attach link_behind add_tail join_counts set_counts set_first
  load_one-eq-attach lts x room = elim (Bool-cases ((lts.lt_boxes 0).vs_cnt == 0)) [
    | inl e ↦ rw (e, room)
    | inr e ↦ rw (e, room)
  ]

  load_totals :
      (lts : Ltsys) (x : ℕ)
      → ((load_one head_read lts x).vs_total ≡ lts.vs_total)
        × ((load_one head_read lts x).vs_cur_total ≡ inc32 lts.vs_cur_total)
  unfolding load_one link_behind add_tail
  load_totals lts x = ground arith

  module _ (lts : Ltsys) (x : ℕ) (room : (lts.lt_boxes 0).vs_cnt < (lts.lt_boxes 0).vs_limit)
      (more : lts.vs_cur_total < lts.vs_total) (v : IsValid lts) where
    as_attach :
        load_one head_read lts x
        ≡ record (attach head_read lts 0 x) { vs_cur_total = inc32 lts.vs_cur_total }
    as_attach = load_one-eq-attach lts x (ground arith)

    load_one_count : ((load_one head_read lts x).lt_boxes 0).vs_cnt ≡ (lts.lt_boxes 0).vs_cnt + 1
    unfolding load_one link_behind add_tail set_counts set_first
    load_one_count = ground (arith, v.0.boxes 0 (omega arith), v.0.small, v.0.total)

    load_one_limit : ((load_one head_read lts x).lt_boxes 0).vs_limit ≡ (lts.lt_boxes 0).vs_limit
    unfolding load_one link_behind add_tail set_counts set_first
    load_one_limit = ground arith

    load_one_items :
        ((load_one head_read lts x).lt_boxes 0).i_list ≡ (lts.lt_boxes 0).i_list ++ (x ∷ [])
    load_one_items = rw as_attach (attach_items head_read lts 0 x)

    load_one_other : (l : ℕ) → 0 ≢ l → (load_one head_read lts x).lt_boxes l ≡ lts.lt_boxes l
    load_one_other l ne = rw as_attach (attach_other head_read lts 0 x l ne)

    load_one-IsValid : x ≡ lts.vs_cur_total → IsValid (load_one head_read lts x)
    load_one-IsValid e = (
      subst (λ k. Holds (loaded after) k after) (sym cur)
          (Holds-congr (update (loaded lts) x 1) (loaded after) _ after same (
            rw as_attach (
              as_loaded (
                attach-Holds head_read lts 0 x (loaded lts) lts.vs_cur_total (omega arith)
                  (omega arith) (ground arith) v.0)))),
      omega (arith, cur, load_totals lts x),
      omega (arith, load_totals lts x),
    )
      where
        after : Ltsys
        after = load_one head_read lts x

        cur : after.vs_cur_total ≡ suc lts.vs_cur_total
        cur = omega (arith, load_totals lts x)

        same : (y : ℕ) → update (loaded lts) x 1 y ≡ loaded after y
        same y = ground (arith, cur)

        as_loaded :
            {f : ℕ → ℕ} {n : ℕ}
            → Holds f n (attach head_read lts 0 x)
            → Holds f n
                (record (attach head_read lts 0 x) { vs_cur_total = inc32 lts.vs_cur_total })
        as_loaded h = record {
          boxes = h.boxes;
          placed = h.placed;
          once = h.once;
          levels = h.levels;
          total = h.total;
          small = h.small;
        }

-- In valid boxes, with a default below 2 ^ 31, the conversions to `unsigned` and back change
-- nothing for a count that is not negative: the least of the default, the count and the room is
-- loaded. A negative count is no bound at all, nor is the default then.
pub num_to_load_lem :
    (lts : Ltsys)
    → lts.num_per_load < 2 ^ 31
    → IsValid lts
    → let room =
        min
          ((lts.lt_boxes 0).vs_limit - (lts.lt_boxes 0).vs_cnt)
          (lts.vs_total - lts.vs_cur_total) in
      (num_to_load lts none ≡ min lts.num_per_load room)
      × ((n : ℕ) → num_to_load lts (some (pos n)) ≡ min (min lts.num_per_load n) room)
      × ((n : ℕ) → n < 2 ^ 31 → num_to_load lts (some (negsuc n)) ≡ room)
unfolding num_to_load
num_to_load_lem lts small v =
    let b = v.0.boxes 0 (omega arith) in
    (ground (arith, b), λ n. ground (arith, b), λ n h. ground (arith, b))

-- `n` line numbers from `x` on.
abbrev pub span : ℕ → ℕ → List ℕ
span x zero = []
span x (suc n) = x ∷ span (x + 1) n

-- The next `n` items of the file were appended to box 0, and nothing else has moved.
pub record Loads (lts : Ltsys) (n : ℕ) (after : Ltsys) : Type 0 where
  pub valid : IsValid after
  pub appended : (after.lt_boxes 0).i_list ≡ (lts.lt_boxes 0).i_list ++ span lts.vs_cur_total n
  pub others : (l : ℕ) → 0 ≢ l → after.lt_boxes l ≡ lts.lt_boxes l
  pub cur_total : after.vs_cur_total ≡ lts.vs_cur_total + n

num_to_load-fits :
    (lts : Ltsys) (arg : Option ℤ)
    → IsValid lts
    → (num_to_load lts arg ≤ (lts.lt_boxes 0).vs_limit - (lts.lt_boxes 0).vs_cnt)
      × (num_to_load lts arg ≤ lts.vs_total - lts.vs_cur_total)
      × (rounds (num_to_load lts arg) ≡ num_to_load lts arg)
unfolding num_to_load
num_to_load-fits lts arg v = let b = v.0.boxes 0 (omega arith) in ground (arith, b)

module _ (head_read : Ltsys → ℕ → ℕ) where
  load_loop-Loads :
      (n x : ℕ) (lts : Ltsys)
      → x ≡ lts.vs_cur_total
      → (lts.lt_boxes 0).vs_cnt + n ≤ (lts.lt_boxes 0).vs_limit
      → lts.vs_cur_total + n ≤ lts.vs_total
      → IsValid lts
      → Loads lts n (load_loop head_read n x lts)
  unfolding load_loop
  load_loop-Loads zero x lts e room more v = record {
    valid = v;
    appended = sym (append-nil _);
    others = λ l ne. refl;
    cur_total = omega arith;
  }
  load_loop-Loads (suc n) x lts e room more v =
      let next = load_one head_read lts x in
      let here = load_totals head_read lts x in
      let rest =
        load_loop-Loads n (x + 1) next (omega (arith, here, v.0.small, v.1, v.2))
          (omega (
            arith,
            load_one_count head_read lts x (omega arith) (omega arith) v,
            load_one_limit head_read lts x (omega arith) (omega arith) v,
          ))
          (omega (arith, here, v.0.small))
          (load_one-IsValid head_read lts x (omega arith) (omega arith) v e) in
      record {
        valid = rest.valid;
        appended =
            rest.appended
            ∙ ap (λ zs. zs ++ span next.vs_cur_total n)
                (load_one_items head_read lts x (omega arith) (omega arith) v)
            ∙ append_assoc (lts.lt_boxes 0).i_list (x ∷ []) (span next.vs_cur_total n)
            ∙ ap₂ (λ k c. (lts.lt_boxes 0).i_list ++ (k ∷ span c n)) e
                (omega (arith, here, v.0.small));
        others = λ l ne.
            rest.others l ne ∙ load_one_other head_read lts x (omega arith) (omega arith) v l ne;
        cur_total = omega (arith, rest.cur_total, here, v.0.small);
      }

  -- In valid boxes, `cmd_load` appends the next items of the file to box 0, no more than the box
  -- has room for, and keeps the invariant.
  pub cmd_load-Loads :
      (lts : Ltsys) (arg : Option ℤ)
      → IsValid lts
      → (num_to_load lts arg ≤ (lts.lt_boxes 0).vs_limit - (lts.lt_boxes 0).vs_cnt)
        × Loads lts (num_to_load lts arg) (cmd_load head_read lts arg)
  unfolding cmd_load
  cmd_load-Loads lts arg v =
      let fits = num_to_load-fits lts arg v in
      (
        fits.0,
        subst (λ n. Loads lts (num_to_load lts arg) (load_loop head_read n lts.vs_cur_total lts))
            (sym fits.2)
            (load_loop-Loads _ lts.vs_cur_total lts refl
              (omega (arith, fits, v.0.boxes 0 (omega arith))) (omega (arith, fits)) v),
      )
