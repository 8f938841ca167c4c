-- ===== src/Boxes/Valid.antt =====
-- The invariant of the boxes in a session: `go_lbox_internal` and what it calls, of src/vs.c.
use leitner.Common.{ℕ, zero, suc, ◌<◌, ◌≡◌, refl, arith, ◌==◌, true, false}
use leitner.Common.{Bool-cases, inl, inr, List, [], ◌∷◌, Option, none, some, not, ◌&&◌}
use leitner.Common.Int.{ℤ, is_zero}
use leitner.Boxes.State.{Ltsys, GoType, makeway, lbox_is_full, lbox_is_empty}
use leitner.Boxes.Move.{transfer}
use leitner.Boxes.Invariant.{IsValid, empty_iff}
use leitner.Boxes.Transfer.{transfer-IsValid}
use leitner.Boxes.Answer.{destination}
use leitner.Boxes.Session.{Session, Outcome, done, exited, fault, no_fuel, ◌>>=◌, Ran, Go, add_to}
use leitner.Boxes.Session.{
  Moved, make_way, move_to_lbox, play_one, play, move_answered, go_lbox_internal, account,
}

-- A result that satisfies `P`, or an exit that leaves valid boxes; running out of fuel is no result.
abbrev pub Ensures : {A : Type 0} → (A → Type 0) → Outcome A → Type 0
Ensures P (done a) = P a
Ensures P (exited s) = IsValid s.sys
Ensures P fault = ⊥
Ensures P no_fuel = Unit {0}

pub Ensures-bind :
    {A B : Type 0} (P : A → Type 0) (Q : B → Type 0) (m : Outcome A) (f : A → Outcome B)
    → Ensures P m
    → ((a : A) → P a → Ensures Q (f a))
    → Ensures Q (m >>= f)
Ensures-bind P Q (done a) f h k = k a h
Ensures-bind P Q (exited s) f h k = h
Ensures-bind P Q fault f h k = h
Ensures-bind P Q no_fuel f h k = h

abbrev pub RanIsValid : ℤ × Session → Type 0
RanIsValid t = IsValid t.1.sys

abbrev pub MovedIsValid : Moved → Type 0
MovedIsValid m = IsValid m.2.sys

abbrev pub GoIsSafe : Go → Type 0
GoIsSafe go =
    (level : ℕ) (type : GoType) (s : Session)
    → level < 5
    → IsValid s.sys
    → Ensures RanIsValid (go level type s)

pub add_to-Ensures : (n : ℤ) (r : Ran) → Ensures RanIsValid r → Ensures RanIsValid (add_to n r)
add_to-Ensures n r h = Ensures-bind RanIsValid RanIsValid r _ h (λ t v. v)

-- A full box is not the last one.
pub full_below : (lts : Ltsys) (l : ℕ) → l < 6 → lbox_is_full lts l ≡ true → l < 5
full_below lts l low full = ground arith

module _ (go : Go) (safe : GoIsSafe go) where
  make_way_safe :
      (fuel new : ℕ) (s : Session)
      → new < 6
      → IsValid s.sys
      → Ensures RanIsValid (make_way fuel go new s)
  unfolding make_way
  make_way_safe zero new s low v = elim (Bool-cases (lbox_is_full s.sys new)) [
    | inl full ↦ rw (full, Ensures) tt
    | inr room ↦ rw (room, Ensures) v
  ]
  make_way_safe (suc fuel) new s low v = elim (Bool-cases (lbox_is_full s.sys new)) [
    | inl full ↦
        rw (full, Ensures)
          (Ensures-bind RanIsValid RanIsValid (go new makeway s) _
            (safe new makeway s (full_below s.sys new low full) v)
            (λ t w. elim (Bool-cases (new == 0)) [
              | inl e ↦ rw (e, Ensures) w
              | inr e ↦ rw (e, Ensures) (add_to-Ensures t.0 _ (make_way_safe fuel new t.1 low w))
            ]))
    | inr room ↦ rw (room, Ensures) v
  ]

  module _ (head_read : Ltsys → ℕ → ℕ) where
    move_safe :
        (fuel new p level : ℕ) (xs : List ℕ) (s : Session)
        → level < 6
        → new < 6
        → (s.sys.lt_boxes level).i_list ≡ p ∷ xs
        → IsValid s.sys
        → Ensures MovedIsValid (move_to_lbox head_read fuel go new p s)
    unfolding move_to_lbox
    move_safe fuel new p level xs s low new_low e v =
        elim (Bool-cases (lbox_is_full (transfer head_read s.sys new p) new)) [
          | inl full ↦
              rw (full, Ensures)
                (Ensures-bind RanIsValid MovedIsValid _ _ (make_way_safe fuel new _ new_low moved)
                  (λ t w. w))
          | inr room ↦ rw (room, Ensures) moved
        ]
      where
        moved : IsValid (transfer head_read s.sys new p)
        moved = transfer-IsValid head_read s.sys p level new xs low new_low e v

    destination_low : (wrong : Option ℕ) (level : ℕ) → level < 5 → destination wrong level < 6
    destination_low none level h = omega arith
    destination_low (some try) level h = ground arith

    answered_safe :
        (fuel level p : ℕ) (xs : List ℕ) (s : Session) (answer : Option (Option ℕ × List (List ℕ)))
        → level < 5
        → (s.sys.lt_boxes level).i_list ≡ p ∷ xs
        → IsValid s.sys
        → Ensures MovedIsValid (move_answered head_read fuel go level p s answer)
    unfolding move_answered
    answered_safe fuel level p xs s none low e v = v
    answered_safe fuel level p xs s (some (wrong, lines)) low e v =
        move_safe fuel (destination wrong level) p level xs _ (omega arith)
          (destination_low wrong level low) e v

    play_one_safe :
        (fuel level : ℕ) (s : Session)
        → level < 5
        → lbox_is_empty s.sys level ≡ false
        → IsValid s.sys
        → Ensures MovedIsValid (play_one head_read fuel go level s)
    unfolding play_one
    play_one_safe fuel level s low used v = by_items (s.sys.lt_boxes level).i_list refl
      where
        by_items :
            (items : List ℕ)
            → (s.sys.lt_boxes level).i_list ≡ items
            → Ensures MovedIsValid (play_one head_read fuel go level s)
        by_items [] e = absurd (
            ground
              (arith, (empty_iff {l = level} (omega arith) (v.0.boxes level (omega arith))).1 e))
        by_items (p ∷ xs) e = rw (e, Ensures) (answered_safe fuel level p xs s _ low e v)

    account-IsValid : (cnt : ℤ) (m : Moved) → MovedIsValid m → IsValid (account cnt m).2.sys
    account-IsValid cnt (ret, true, s) v = v
    account-IsValid cnt (ret, false, s) v = v

    play_safe :
        (n fuel level : ℕ) (cnt : ℤ) (s : Session)
        → level < 5
        → IsValid s.sys
        → Ensures RanIsValid (play head_read n fuel go level cnt s)
    unfolding play
    play_safe zero fuel level cnt s low v =
        elim (Bool-cases (not (is_zero cnt) && not (lbox_is_empty s.sys level))) [
          | inl more ↦ rw (more, Ensures) tt
          | inr stop ↦ rw (stop, Ensures) v
        ]
    play_safe (suc n) fuel level cnt s low v =
        elim (Bool-cases (not (is_zero cnt) && not (lbox_is_empty s.sys level))) [
          | inl more ↦
              rw (more, Ensures)
                (Ensures-bind MovedIsValid RanIsValid (play_one head_read fuel go level s) _
                  (play_one_safe fuel level s low (ground arith) v)
                  (λ m w. elim (Bool-cases (account cnt m).0) [
                    | inl last ↦ rw (last, Ensures) (account-IsValid cnt m w)
                    | inr on ↦
                        rw (on, Ensures)
                          (play_safe n fuel level (account cnt m).1 (account cnt m).2 low
                            (account-IsValid cnt m w))
                  ]))
          | inr stop ↦ rw (stop, Ensures) v
        ]

    pub internal_safe :
        (ugc : ℤ) (fuel level maxcnt : ℕ) (s : Session)
        → level < 5
        → IsValid s.sys
        → Ensures RanIsValid (go_lbox_internal head_read ugc fuel go level maxcnt s)
    unfolding go_lbox_internal
    internal_safe ugc fuel level maxcnt s low v =
        Ensures-bind RanIsValid RanIsValid _ _ (play_safe fuel fuel level _ s low v) (λ t w. w)
