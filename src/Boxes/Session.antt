-- ===== src/Boxes/Session.antt =====
-- `move_to_lbox`, `go_lbox_internal` and `go_lbox` of src/vs.c, which call each other, and `cmd_go` of
-- src/ltsys.c. The loops and calls share a fuel; `ugc_original` never changes in a session.
use leitner.Common.{ℕ, zero, suc, ◌==◌, if◌then◌else◌, Bool, true, false, not, ◌&&◌}
use leitner.Common.{List, Option, none, some, head?}
use leitner.Common.Int.{ℤ, pos, negsuc, ◌+ℤ◌, ◌-ℤ◌, is_zero, min_int}
use leitner.Boxes.State.{Ltsys, GoType, makeway, lbox_is_full, lbox_is_empty}
use leitner.Boxes.Move.{transfer}
use leitner.Boxes.Answer.{ask, destination}

-- The system, the count that the user gave (`*pug_cnt`), the lines still to be typed, and the global
-- `firstwhile`.
pub record Session : Type 0 where
  pub sys : Ltsys
  pub pug_cnt : ℤ
  pub lines : List (List ℕ)
  pub firstwhile : Bool

-- `exited` is ERROR at the end of the input; `fault` is an item read from an empty list.
pub data Outcome (A : Type 0) : Type 0 where
  done : A → Outcome A
  exited : Session → Outcome A
  fault no_fuel : Outcome A

infixl 5 ◌>>=◌
abbrev pub ◌>>=◌ : {A B : Type 0} → Outcome A → (A → Outcome B) → Outcome B
done a >>= f = f a
exited s >>= f = exited s
fault >>= f = fault
no_fuel >>= f = no_fuel

-- The counted items and the session after a call.
abbrev pub Ran : Type 0
Ran = Outcome (ℤ × Session)

-- A call of `go_lbox`.
abbrev pub Go : Type 0
Go = ℕ → GoType → Session → Ran

abbrev pub add_to : ℤ → Ran → Ran
add_to n r = r >>= λ t. done (n +ℤ t.0, t.1)

-- The loop that makes way in a full box.
unfoldable pub make_way : ℕ → Go → ℕ → Session → Ran
make_way zero go new s = elim (lbox_is_full s.sys new) [ true ↦ no_fuel | false ↦ done (pos 0, s) ]
make_way (suc fuel) go new s = elim (lbox_is_full s.sys new) [
  | true ↦ go new makeway s >>= λ t. elim (new == 0) [
    | true ↦ done t
    | false ↦ add_to t.0 (make_way fuel go new t.1)
  ]
  | false ↦ done (pos 0, s)
]

-- `ret` and `*pnewlbox_fulled` of `move_to_lbox`, and the session after it.
abbrev pub Moved : Type 0
Moved = ℤ × Bool × Session

unfoldable pub move_to_lbox : (Ltsys → ℕ → ℕ) → ℕ → Go → ℕ → ℕ → Session → Outcome Moved
move_to_lbox head_read fuel go new p s =
    let s' = record s { sys = transfer head_read s.sys new p } in
    let s'' = record s' { pug_cnt = s'.pug_cnt -ℤ pos 1 } in
    elim (lbox_is_full s'.sys new) [
      | true ↦ make_way fuel go new s'' >>= λ t. done (pos 1 +ℤ t.0, true, t.1)
      | false ↦ done (pos 0, false, s')
    ]

-- How many items `go_lbox_internal` plays; -1 is no limit.
unfoldable pub count_to_go : ℤ → ℕ → ℤ → ℤ
count_to_go ugc maxcnt pug =
    if maxcnt == 0
    then (if is_zero ugc then negsuc 0 else pug)
    else if is_zero ugc
    then pos maxcnt
    else min_int (pos maxcnt) pug

-- After a move: its items are taken off, and one more if the move has not counted the item. The flag
-- says to break.
abbrev pub account : ℤ → Moved → Bool × ℤ × Session
account cnt2go (ret, fulled, s) = if fulled then (false, cnt2go -ℤ ret, s) else (
  is_zero (s.pug_cnt -ℤ pos 1),
  cnt2go -ℤ ret -ℤ pos 1,
  record s { pug_cnt = s.pug_cnt -ℤ pos 1 },
)

-- The item moves by its answers; without them the program exits.
unfoldable pub move_answered :
    (Ltsys → ℕ → ℕ) → ℕ → Go → ℕ → ℕ → Session → Option (Option ℕ × List (List ℕ)) → Outcome Moved
move_answered head_read fuel go level p s none = exited s
move_answered head_read fuel go level p s (some (wrong, lines)) =
    move_to_lbox head_read fuel go (destination wrong level) p (record s { lines = lines })

-- The first item of the box is asked and moved.
unfoldable pub play_one : (Ltsys → ℕ → ℕ) → ℕ → Go → ℕ → Session → Outcome Moved
play_one head_read fuel go level s = elim (head? (s.sys.lt_boxes level).i_list) [
  | none ↦ fault
  | some p ↦ move_answered head_read fuel go level p s (ask (s.sys.vbuf p) s.lines)
]

-- The loop of `go_lbox_internal`: what is left of `cnt2go`.
unfoldable pub play : (Ltsys → ℕ → ℕ) → ℕ → ℕ → Go → ℕ → ℤ → Session → Ran
play head_read zero fuel go level cnt2go s =
    elim (not (is_zero cnt2go) && not (lbox_is_empty s.sys level)) [
      | true ↦ no_fuel
      | false ↦ done (cnt2go, s)
    ]
play head_read (suc n) fuel go level cnt2go s =
    elim (not (is_zero cnt2go) && not (lbox_is_empty s.sys level)) [
      | true ↦ play_one head_read fuel go level s >>= λ m.
          let t = account cnt2go m in
          elim (t.0) [ true ↦ done (t.1, t.2) | false ↦ play head_read n fuel go level t.1 t.2 ]
      | false ↦ done (cnt2go, s)
    ]

unfoldable pub go_lbox_internal : (Ltsys → ℕ → ℕ) → ℤ → ℕ → Go → ℕ → ℕ → Session → Ran
go_lbox_internal head_read ugc fuel go level maxcnt s =
    let cnt2go = count_to_go ugc maxcnt s.pug_cnt in
    play head_read fuel fuel go level cnt2go s >>= λ t. done (cnt2go -ℤ t.0, t.1)
