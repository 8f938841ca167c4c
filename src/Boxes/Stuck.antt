-- ===== src/Boxes/Stuck.antt =====
-- The loop of `move_to_lbox` of src/vs.c when the count that the user gave is used up.
use leitner.Common.{
  ℕ, zero, suc, ◌+◌, ◌<◌, ◌≡◌, ◌≢◌, refl, ap, ◌∙◌, arith, ◌==◌, ==-ne, Bool-cases, true, false,
}
use leitner.Common.{◌⊎◌, inl, inr, ◌&&◌, not}
use leitner.Common.Int.{ℤ, pos, ◌+ℤ◌, ◌-ℤ◌}
use leitner.Boxes.State.{Ltsys, makeway, max_to_go, lbox_is_full}
use leitner.Boxes.Move.{transfer}
use leitner.Boxes.Session.{
  Session, Outcome, done, no_fuel, ◌>>=◌, Ran, Go, add_to, play, count_to_go,
}
use leitner.Boxes.Session.{Moved, make_way, move_to_lbox, go_lbox_internal}
use leitner.Boxes.Go.{go_lbox, go_here, used_up, unless_used_up, refill, is_makeway}
use leitner.Boxes.Valid.{full_below}

makeway_pos : (level : ℕ) → level < 5 → 0 < max_to_go level makeway
makeway_pos zero h = omega arith
makeway_pos (suc zero) h = omega arith
makeway_pos (suc (suc zero)) h = omega arith
makeway_pos (suc (suc (suc zero))) h = omega arith
makeway_pos (suc (suc (suc (suc zero)))) h = omega arith
makeway_pos (suc (suc (suc (suc (suc l))))) h = absurd (omega arith)

unless_used_up-done :
    (ugc n : ℤ) (s : Session) (next : Session → Ran)
    → used_up ugc s ≡ true
    → unless_used_up ugc (done (n, s)) next ≡ done (n, s)
unless_used_up-done ugc n s next h = rw (h, ◌>>=◌)

module _ (head_read : Ltsys → ℕ → ℕ) (u : ℕ) where
  none_to_go :
      (maxcnt : ℕ) (s : Session)
      → 0 < maxcnt
      → s.pug_cnt ≡ pos 0
      → count_to_go (pos (suc u)) maxcnt s.pug_cnt ≡ pos 0
  unfolding count_to_go
  none_to_go maxcnt s h e = rw e (ground arith)

  play_idle :
      (n fuel level : ℕ) (go : Go) (s : Session)
      → play head_read n fuel go level (pos 0) s ≡ done (pos 0, s)
  unfolding play
  play_idle zero fuel level go s = refl
  play_idle (suc n) fuel level go s = refl

  -- Nothing is played: the lesser of the box's count and the user's is zero.
  internal_idle :
      (fuel level maxcnt : ℕ) (go : Go) (s : Session)
      → 0 < maxcnt
      → s.pug_cnt ≡ pos 0
      → go_lbox_internal head_read (pos (suc u)) fuel go level maxcnt s ≡ done (pos 0, s)
  unfolding go_lbox_internal
  internal_idle fuel level maxcnt go s h e = rw (none_to_go maxcnt s h e, play_idle) refl

  here_idle :
      (fuel level : ℕ) (go : Go) (s : Session)
      → level < 5
      → s.pug_cnt ≡ pos 0
      → go_here head_read (pos (suc u)) fuel go level makeway s ≡ done (pos 0, s)
  unfolding go_here
  here_idle fuel level go s low e =
      ap (λ (r : Ran). unless_used_up (pos (suc u)) r after)
        (internal_idle fuel level (max_to_go level makeway) go s (makeway_pos level low) e)
      ∙ unless_used_up-done (pos (suc u)) (pos 0) s after (rw e (ground arith))
    where
      after : Session → Ran
      after s' = elim (level == 0 && not (is_makeway makeway)) [
        | true ↦ refill head_read (pos (suc u)) fuel go s'
        | false ↦ done (pos 0, s')
      ]

  go_lbox_idle :
      (fuel level : ℕ) (s : Session)
      → level < 5
      → s.pug_cnt ≡ pos 0
      → (go_lbox head_read (pos (suc u)) fuel level makeway s ≡ done (pos 0, s))
        ⊎ (go_lbox head_read (pos (suc u)) fuel level makeway s ≡ no_fuel)
  unfolding go_lbox
  go_lbox_idle zero level s low e = inr refl
  go_lbox_idle (suc fuel) level s low e = elim (Bool-cases (lbox_is_full s.sys (level + 1))) [
    | inl full ↦
        elim (go_lbox_idle fuel (level + 1) s (full_below s.sys (level + 1) (omega arith) full) e) [
          | inl idle ↦ inl (
              above full
              ∙ ap (λ (r : Ran). r >>= after) idle
              ∙ ap (add_to (pos 0))
                  (here_idle fuel level (go_lbox head_read (pos (suc u)) fuel) s low e))
          | inr out ↦ inr (above full ∙ ap (λ (r : Ran). r >>= after) out)
        ]
    | inr room ↦
        inl
          (rw (room, go_lbox) (here_idle fuel level (go_lbox head_read (pos (suc u)) fuel) s low e))
  ]
    where
      after : ℤ × Session → Ran
      after t = add_to t.0 (
          go_here head_read (pos (suc u)) fuel (go_lbox head_read (pos (suc u)) fuel) level makeway
            t.1)

      above :
          lbox_is_full s.sys (level + 1) ≡ true
          → go_lbox head_read (pos (suc u)) (suc fuel) level makeway s
            ≡ (go_lbox head_read (pos (suc u)) fuel (level + 1) makeway s >>= after)
      above h = rw (h, go_lbox)

  -- Once the user's count is used up, the loop in a full box other than box 0 never ends: no fuel is
  -- enough.
  pub make_way_stuck :
      (fuel fuel' new : ℕ) (s : Session)
      → new ≢ 0
      → new < 6
      → lbox_is_full s.sys new ≡ true
      → s.pug_cnt ≡ pos 0
      → make_way fuel (go_lbox head_read (pos (suc u)) fuel') new s ≡ no_fuel
  unfolding make_way
  make_way_stuck zero fuel' new s ne low full e = rw (full, make_way)
  make_way_stuck (suc fuel) fuel' new s ne low full e =
      elim (go_lbox_idle fuel' new s (full_below s.sys new low full) e) [
        | inl idle ↦
            enters
            ∙ ap (λ (r : Ran). r >>= after) idle
            ∙ again (make_way_stuck fuel fuel' new s ne low full e)
        | inr out ↦ enters ∙ ap (λ (r : Ran). r >>= after) out
      ]
    where
      after : ℤ × Session → Ran
      after t = elim (new == 0) [
        | true ↦ done t
        | false ↦ add_to t.0 (make_way fuel (go_lbox head_read (pos (suc u)) fuel') new t.1)
      ]

      enters :
          make_way (suc fuel) (go_lbox head_read (pos (suc u)) fuel') new s
          ≡ (go_lbox head_read (pos (suc u)) fuel' new makeway s >>= after)
      enters = rw (full, make_way)

      again :
          make_way fuel (go_lbox head_read (pos (suc u)) fuel') new s ≡ no_fuel
          → after (pos 0, s) ≡ no_fuel
      again h = rw (==-ne new 0 ne, after) (ap (add_to (pos 0)) h)

  -- In a session with a count of the user of which one is left, a move after which its new box,
  -- which is not box 0, is full runs out of any fuel.
  pub move_to_lbox_stuck :
      (fuel fuel' new p : ℕ) (s : Session)
      → new ≢ 0
      → new < 6
      → lbox_is_full (transfer head_read s.sys new p) new ≡ true
      → s.pug_cnt ≡ pos 1
      → move_to_lbox head_read fuel (go_lbox head_read (pos (suc u)) fuel') new p s ≡ no_fuel
  unfolding move_to_lbox
  move_to_lbox_stuck fuel fuel' new p s ne low full e =
      rw (full, move_to_lbox)
        (ap (λ (r : Ran). r >>= counted)
          (make_way_stuck fuel fuel' new moved ne low full (rw e refl)))
    where
      moved : Session
      moved = record s { sys = transfer head_read s.sys new p; pug_cnt = s.pug_cnt -ℤ pos 1 }

      counted : ℤ × Session → Outcome Moved
      counted t = done (pos 1 +ℤ t.0, true, t.1)
