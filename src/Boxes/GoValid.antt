-- ===== src/Boxes/GoValid.antt =====
-- The invariant of the boxes in a session: `go_lbox` of src/vs.c and `cmd_go` of src/ltsys.c.
use leitner.Common.{ℕ, zero, suc, ◌+◌, ◌<◌, arith, ltb, ◌==◌, Bool}
use leitner.Common.{Bool-cases, inl, inr, List, [], ◌∷◌, none, not, ◌&&◌}
use leitner.Common.Int.{ℤ}
use leitner.Boxes.State.{Ltsys, GoType, push, clean, max_to_go, lbox_is_full, vs_cnt_base}
use leitner.Boxes.Invariant.{IsValid}
use leitner.Boxes.Load.{num_to_load, rounds}
use leitner.Boxes.Loaded.{cmd_load-Loads}
use leitner.Boxes.Session.{Session, Ran, Go}
use leitner.Boxes.Go.{used_up, unless_used_up, first_circles, circle, circles, reload, refill}
use leitner.Boxes.Go.{is_makeway, go_here, go_lbox, cmd_go}
use leitner.Boxes.Valid.{Ensures, Ensures-bind, RanIsValid, GoIsSafe, add_to-Ensures, full_below}
use leitner.Boxes.Valid.{internal_safe}

abbrev AllLow : List ℕ → Type 0
AllLow [] = Unit {0}
AllLow (j ∷ js) = (j < 5) × AllLow js

unless_used_up-Ensures :
    (ugc : ℤ) (step : Ran) (next : Session → Ran)
    → Ensures RanIsValid step
    → ((s : Session) → IsValid s.sys → Ensures RanIsValid (next s))
    → Ensures RanIsValid (unless_used_up ugc step next)
unless_used_up-Ensures ugc step next h k = Ensures-bind RanIsValid RanIsValid step _ h λ t v.
    elim (Bool-cases (used_up ugc t.1)) [
      | inl e ↦ rw (e, Ensures) v
      | inr e ↦ rw (e, Ensures) (add_to-Ensures t.0 _ (k t.1 v))
    ]

abbrev CircleIsValid : Bool × ℤ × Session → Type 0
CircleIsValid r = IsValid r.2.sys

module _ (head_read : Ltsys → ℕ → ℕ) (ugc : ℤ) where
  module _ (go : Go) (safe : GoIsSafe go) where
    circle_safe :
        (js : List ℕ) (s : Session)
        → AllLow js
        → IsValid s.sys
        → Ensures CircleIsValid (circle head_read ugc go js s)
    unfolding circle
    circle_safe [] s low v = v
    circle_safe (j ∷ js) s low v =
        Ensures-bind RanIsValid CircleIsValid (go j clean s) _ (safe j clean s low.0 v) λ t w.
          elim (Bool-cases (used_up ugc t.1)) [
            | inl e ↦ rw (e, Ensures) w
            | inr e ↦
                rw (e, Ensures)
                  (Ensures-bind CircleIsValid CircleIsValid _ _ (circle_safe js t.1 low.1 w)
                    (λ r u. u))
          ]

    circles_safe :
        (n : ℕ) (js : List ℕ) (s : Session)
        → AllLow js
        → IsValid s.sys
        → Ensures RanIsValid (circles head_read ugc n go js s)
    unfolding circles
    circles_safe zero js s low v =
        elim (Bool-cases (not s.firstwhile && ltb (s.sys.lt_boxes 5).vs_cnt s.sys.vs_cur_total)) [
          | inl e ↦ rw (e, Ensures) tt
          | inr e ↦ rw (e, Ensures) v
        ]
    circles_safe (suc n) js s low v =
        elim (Bool-cases (not s.firstwhile && ltb (s.sys.lt_boxes 5).vs_cnt s.sys.vs_cur_total)) [
          | inl e ↦
              rw (e, Ensures)
                (Ensures-bind CircleIsValid RanIsValid _ _ (circle_safe js _ low v) λ r w.
                  elim (Bool-cases (r.0)) [
                    | inl d ↦ rw (d, Ensures) w
                    | inr d ↦
                        rw (d, Ensures) (add_to-Ensures r.1 _ (circles_safe n _ _ (omega arith) w))
                  ])
          | inr e ↦ rw (e, Ensures) v
        ]

    reload_safe :
        (fuel : ℕ) (s : Session)
        → IsValid s.sys
        → Ensures RanIsValid (reload head_read ugc fuel go s)
    unfolding reload
    reload_safe fuel s v =
        let w = (cmd_load-Loads head_read s.sys none v).1.valid in
        elim (Bool-cases (ltb 0 (rounds (num_to_load s.sys none)))) [
          | inl e ↦ rw (e, Ensures) (safe 0 push _ (omega arith) w)
          | inr e ↦ rw (e, Ensures) (circles_safe fuel first_circles _ (omega arith) w)
        ]

    refill_safe :
        (fuel : ℕ) (s : Session)
        → IsValid s.sys
        → Ensures RanIsValid (refill head_read ugc fuel go s)
    unfolding refill
    refill_safe fuel s v = elim (Bool-cases (ltb vs_cnt_base (s.sys.lt_boxes 1).vs_cnt)) [
      | inl e ↦
          rw (e, Ensures)
            (unless_used_up-Ensures ugc _ _
              (internal_safe go safe head_read ugc fuel 1 _ s (omega arith) v) (reload_safe fuel))
      | inr e ↦ rw (e, Ensures) (reload_safe fuel s v)
    ]

    go_here_safe :
        (fuel level : ℕ) (type : GoType) (s : Session)
        → level < 5
        → IsValid s.sys
        → Ensures RanIsValid (go_here head_read ugc fuel go level type s)
    unfolding go_here
    go_here_safe fuel level type s low v =
        unless_used_up-Ensures ugc _ _
          (internal_safe go safe head_read ugc fuel level (max_to_go level type) s low v)
          (λ s' w. elim (Bool-cases (level == 0 && not (is_makeway type))) [
            | inl e ↦ rw (e, Ensures) (refill_safe fuel s' w)
            | inr e ↦ rw (e, Ensures) w
          ])

  -- Whatever the user types, a call of `go_lbox` on one of the boxes 0 to 4 leaves the boxes valid,
  -- when it returns and when it ends with the input, and reads no item from an empty list.
  pub go_lbox-GoIsSafe : (fuel : ℕ) → GoIsSafe (go_lbox head_read ugc fuel)
  unfolding go_lbox
  go_lbox-GoIsSafe zero level type s low v = tt
  go_lbox-GoIsSafe (suc fuel) level type s low v =
      let here =
        go_here_safe (go_lbox head_read ugc fuel) (go_lbox-GoIsSafe fuel) fuel level type in
      elim (Bool-cases (lbox_is_full s.sys (level + 1))) [
        | inl e ↦
            rw (e, Ensures)
              (Ensures-bind RanIsValid RanIsValid _ _
                (go_lbox-GoIsSafe fuel (level + 1) type s
                  (full_below s.sys (level + 1) (omega arith) e) v)
                (λ t w. add_to-Ensures t.0 _ (here t.1 low w)))
        | inr e ↦ rw (e, Ensures) (here s low v)
      ]

-- The command `go`, started in valid boxes with any count and any lines typed by the user, keeps
-- the invariant of the boxes: when it returns, and when the input ends, which ends the program. It
-- reads no item from an empty list.
pub cmd_go-IsValid :
    (head_read : Ltsys → ℕ → ℕ) (fuel : ℕ) (lts : Ltsys) (cnt : ℤ) (lines : List (List ℕ))
    → IsValid lts
    → Ensures RanIsValid (cmd_go head_read fuel lts cnt lines)
unfolding cmd_go
cmd_go-IsValid head_read fuel lts cnt lines v =
    go_lbox-GoIsSafe head_read cnt fuel 0 push _ (omega arith) v
