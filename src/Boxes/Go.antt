-- ===== src/Boxes/Go.antt =====
-- `go_lbox` of src/vs.c, and `cmd_go` of src/ltsys.c.
use leitner.Common.{ℕ, zero, suc, ◌+◌, ◌-◌, ◌==◌, ltb, Bool, true, false, not, ◌&&◌}
use leitner.Common.{List, [], ◌∷◌, none}
use leitner.Common.Int.{ℤ, pos, ◌+ℤ◌, is_zero, is_positive}
use leitner.Boxes.State.{Ltsys, GoType, push, clean, makeway, max_to_go, lbox_is_full, vs_cnt_base}
use leitner.Boxes.Load.{cmd_load, num_to_load, rounds}
use leitner.Boxes.Session.{Session, Outcome, done, no_fuel, ◌>>=◌, Ran, Go, add_to}
use leitner.Boxes.Session.{go_lbox_internal}

-- `(ugc_original>0) && (*puser_gave_cnt==0)`: the count that the user gave is used up.
abbrev pub used_up : ℤ → Session → Bool
used_up ugc s = is_positive ugc && is_zero s.pug_cnt

-- A step, and the next one unless the count is used up.
abbrev pub unless_used_up : ℤ → Ran → (Session → Ran) → Ran
unless_used_up ugc step next =
    step >>= λ t. elim (used_up ugc t.1) [ true ↦ done t | false ↦ add_to t.0 (next t.1) ]

-- The boxes of the circles 01->012->0123->01234, without the very first 0.
abbrev pub first_circles : List ℕ
first_circles = 1 ∷ 0 ∷ 1 ∷ 2 ∷ 0 ∷ 1 ∷ 2 ∷ 3 ∷ 0 ∷ 1 ∷ 2 ∷ 3 ∷ 4 ∷ []

abbrev pub is_makeway : GoType → Bool
is_makeway push = false
is_makeway clean = false
is_makeway makeway = true

module _ (head_read : Ltsys → ℕ → ℕ) (ugc : ℤ) where
  -- The flag says that the count was used up on the way.
  unfoldable pub circle : Go → List ℕ → Session → Outcome (Bool × ℤ × Session)
  circle go [] s = done (false, pos 0, s)
  circle go (j ∷ js) s = go j clean s >>= λ t. elim (used_up ugc t.1) [
    | true ↦ done (true, t.0, t.1)
    | false ↦ circle go js t.1 >>= λ r. done (r.0, t.0 +ℤ r.1, r.2)
  ]

  -- `firstwhile` is set before the circles, and reset after them: there `j` is 5.
  unfoldable pub circles : ℕ → Go → List ℕ → Session → Ran
  circles zero go js s =
      elim (not s.firstwhile && ltb (s.sys.lt_boxes 5).vs_cnt s.sys.vs_cur_total) [
        | true ↦ no_fuel
        | false ↦ done (pos 0, s)
      ]
  circles (suc n) go js s =
      elim (not s.firstwhile && ltb (s.sys.lt_boxes 5).vs_cnt s.sys.vs_cur_total) [
        | true ↦ circle go js (record s { firstwhile = true }) >>= λ r. elim (r.0) [
          | true ↦ done (r.1, r.2)
          | false ↦
              add_to r.1 (circles n go (0 ∷ first_circles) (record (r.2) { firstwhile = false }))
        ]
        | false ↦ done (pos 0, s)
      ]

  -- Items are loaded; if there are none left, all boxes are gone through in circles.
  unfoldable pub reload : ℕ → Go → Session → Ran
  reload fuel go s =
      let num_loaded = rounds (num_to_load s.sys none) in
      let s' = record s { sys = cmd_load head_read s.sys none } in
      elim (ltb 0 num_loaded) [ true ↦ go 0 push s' | false ↦ circles fuel go first_circles s' ]

  -- Before loading, box 1 is played down to a few items.
  unfoldable pub refill : ℕ → Go → Session → Ran
  refill fuel go s =
      let cnt = (s.sys.lt_boxes 1).vs_cnt in
      elim (ltb vs_cnt_base cnt) [
        | true ↦
            unless_used_up ugc (go_lbox_internal head_read ugc fuel go 1 (cnt - vs_cnt_base) s)
              (reload fuel go)
        | false ↦ reload fuel go s
      ]

  -- The box itself, then, for box 0, the loading.
  unfoldable pub go_here : ℕ → Go → ℕ → GoType → Session → Ran
  go_here fuel go level type s =
      unless_used_up ugc (go_lbox_internal head_read ugc fuel go level (max_to_go level type) s)
        (λ s'. elim (level == 0 && not (is_makeway type)) [
          | true ↦ refill fuel go s'
          | false ↦ done (pos 0, s')
        ])

  -- A full box above is played first.
  unfoldable pub go_lbox : ℕ → Go
  go_lbox zero level type s = no_fuel
  go_lbox (suc fuel) level type s = elim (lbox_is_full s.sys (level + 1)) [
    | true ↦ go_lbox fuel (level + 1) type s >>= λ t.
        add_to t.0 (go_here fuel (go_lbox fuel) level type t.1)
    | false ↦ go_here fuel (go_lbox fuel) level type s
  ]

-- The session that the user starts with a count, 0 for no limit.
unfoldable pub cmd_go : (Ltsys → ℕ → ℕ) → ℕ → Ltsys → ℤ → List (List ℕ) → Ran
cmd_go head_read fuel lts cnt lines =
    go_lbox head_read cnt fuel 0 push
      (record { sys = lts; pug_cnt = cnt; lines = lines; firstwhile = false })
