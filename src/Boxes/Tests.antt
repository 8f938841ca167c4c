-- ===== src/Boxes/Tests.antt =====
-- The boxes at concrete inputs: a new file of thirteen items, four of them loaded.
use leitner.Common.{
  ℕ, ◌-◌, ◌^◌, ◌<◌, ◌≤◌, ◌==◌, ◌≡◌, ◌↔◌, ◌≢◌, refl, arith, true, false, List, [], ◌∷◌, ◌++◌,
}
use leitner.Common.{Option, none, some, ◌&&◌, if◌then◌else◌, str_eq}
use leitner.Common.Int.{ℤ, pos, negsuc}
use Prim.Native.Nat.{min}
use leitner.Boxes.State.{Ltsys}
use leitner.Boxes.Move.{
  transfer, detach, attach, link_behind, add_tail, join_counts, leave_counts, set_counts,
}
use leitner.Boxes.Move.{set_first}
use leitner.Boxes.Invariant.{IsValid}
use leitner.Boxes.Transfer.{transfer-IsValid, transfer_lists}
use leitner.Boxes.Answer.{ask, is_right, destination, ask_from, chop, trim_end, trim_start}
use leitner.Boxes.Words.{is_right_padded, destination-ask}
use leitner.Boxes.Load.{cmd_load, load_loop, load_one, num_to_load}
use leitner.Boxes.Loaded.{cmd_load-Loads, Loads, num_to_load_lem}
use leitner.Boxes.Session.{Session, Outcome, done, no_fuel, move_to_lbox, play, play_one}
use leitner.Boxes.Session.{move_answered, count_to_go, go_lbox_internal}
use leitner.Boxes.Go.{cmd_go, go_lbox, go_here}
use leitner.Boxes.Valid.{Ensures, RanIsValid}
use leitner.Boxes.GoValid.{cmd_go-IsValid}
use leitner.Boxes.Stuck.{move_to_lbox_stuck}
use leitner.Boxes.Restore.{
  MetaFile, ltsys_meta_init, init_box, meta_start, read_chain, levels_below,
}
use leitner.Boxes.Restore.{set_levels, ltsys_meta_init-IsValid, ltsys_meta_init-restores, restarted}

abbrev zeros : MetaFile
zeros = record {
  vs_total = 0;
  vs_cur_total = 0;
  ltb_meta = λ _. record { first_inode_linenr = 0; vs_cnt = 0; vs_busy_cnt = 0 };
  next_inode_linenr = λ _. 0;
}

-- The word of every item is "go".
abbrev words : ℕ → List ℕ
words _ = b'g' ∷ b'o' ∷ []

-- What is read through a list's head.
abbrev nowhere : Ltsys → ℕ → ℕ
nowhere _ _ = 0

abbrev fresh : Ltsys
fresh = ltsys_meta_init true 13 zeros words 30

abbrev four : Ltsys
four = cmd_load nowhere fresh (some (pos 9))

fresh-IsValid : IsValid fresh
fresh-IsValid = ltsys_meta_init-IsValid 13 zeros words 30 refl (omega arith)

four-IsValid : IsValid four
four-IsValid = (cmd_load-Loads nowhere fresh (some (pos 9)) fresh-IsValid).1.valid

four_items : (four.lt_boxes 0).i_list ≡ 0 ∷ 1 ∷ 2 ∷ 3 ∷ []
unfolding ltsys_meta_init init_box meta_start read_chain cmd_load num_to_load load_loop load_one
    link_behind add_tail set_counts set_first
four_items = refl

abbrev right_line : List ℕ
right_line = b' ' ∷ b'g' ∷ b'o' ∷ b' ' ∷ 10 ∷ []

abbrev wrong_line : List ℕ
wrong_line = b'a' ∷ 10 ∷ []

-- One right item, then one wrong at the first try.
abbrev two_rounds : List (List ℕ)
two_rounds = right_line ∷ right_line ∷ right_line ∷ wrong_line ∷ right_line ∷ right_line ∷ []

abbrev lists_of : Outcome (ℤ × Session) → ℤ × List ℕ × List ℕ
lists_of (done (n, s)) = (n, (s.sys.lt_boxes 0).i_list, (s.sys.lt_boxes 1).i_list)
lists_of _ = (pos 0, [], [])

played : lists_of (cmd_go nowhere 9 four (pos 2) two_rounds) ≡ (pos 2, 2 ∷ 3 ∷ 1 ∷ [], 0 ∷ [])
unfolding ltsys_meta_init init_box meta_start read_chain cmd_load num_to_load load_loop load_one
    link_behind add_tail set_counts set_first cmd_go go_lbox go_here go_lbox_internal play play_one
    move_answered move_to_lbox transfer detach attach join_counts leave_counts ask ask_from is_right
    chop trim_end trim_start str_eq count_to_go levels_below set_levels
played = refl

cmd_go-IsValid_example : Ensures RanIsValid (cmd_go nowhere 9 four (pos 2) two_rounds)
cmd_go-IsValid_example = cmd_go-IsValid nowhere 9 four (pos 2) two_rounds four-IsValid

transfer-IsValid_example : IsValid (transfer nowhere four 1 0)
transfer-IsValid_example =
    transfer-IsValid nowhere four 0 0 1 (1 ∷ 2 ∷ 3 ∷ []) (omega arith) (omega arith) four_items
      four-IsValid

transfer_lists_example :
    (◌≡◌ {A = ℕ} 1 0
      → ((transfer nowhere four 1 0).lt_boxes 1).i_list ≡ (1 ∷ 2 ∷ 3 ∷ []) ++ (0 ∷ []))
    × (◌≢◌ {A = ℕ} 1 0
        → (((transfer nowhere four 1 0).lt_boxes 0).i_list ≡ 1 ∷ 2 ∷ 3 ∷ [])
          × (((transfer nowhere four 1 0).lt_boxes 1).i_list
              ≡ (four.lt_boxes 1).i_list ++ (0 ∷ [])))
    × ((l : ℕ) → l ≢ 0 → l ≢ 1 → (transfer nowhere four 1 0).lt_boxes l ≡ four.lt_boxes l)
transfer_lists_example =
    transfer_lists nowhere four 0 0 1 (1 ∷ 2 ∷ 3 ∷ []) (omega arith) (omega arith) four_items
      four-IsValid

cmd_load-Loads_example :
    (num_to_load fresh (some (pos 9)) ≤ (fresh.lt_boxes 0).vs_limit - (fresh.lt_boxes 0).vs_cnt)
    × Loads fresh (num_to_load fresh (some (pos 9))) (cmd_load nowhere fresh (some (pos 9)))
cmd_load-Loads_example = cmd_load-Loads nowhere fresh (some (pos 9)) fresh-IsValid

num_to_load_lem_example :
    (num_to_load fresh none
      ≡ min 30 (
          min
            ((fresh.lt_boxes 0).vs_limit - (fresh.lt_boxes 0).vs_cnt)
            (fresh.vs_total - fresh.vs_cur_total)))
    × ((n : ℕ)
        → num_to_load fresh (some (pos n))
          ≡ min (min 30 n) (
              min
                ((fresh.lt_boxes 0).vs_limit - (fresh.lt_boxes 0).vs_cnt)
                (fresh.vs_total - fresh.vs_cur_total)))
    × ((n : ℕ)
        → n < 2 ^ 31
        → num_to_load fresh (some (negsuc n))
          ≡ min
              ((fresh.lt_boxes 0).vs_limit - (fresh.lt_boxes 0).vs_cnt)
              (fresh.vs_total - fresh.vs_cur_total))
unfolding ltsys_meta_init
num_to_load_lem_example = num_to_load_lem fresh (omega arith) fresh-IsValid

ltsys_meta_init-restores_example :
    ((l : ℕ) → l < 6 → (restarted four 30).lt_boxes l ≡ four.lt_boxes l)
    × ((restarted four 30).vs_cur_total ≡ four.vs_cur_total)
    × IsValid (restarted four 30)
ltsys_meta_init-restores_example = ltsys_meta_init-restores four 30 four-IsValid

padded_word :
    (is_right (b'g' ∷ []) (((b' ' ∷ []) ++ (b'g' ∷ []) ++ (b' ' ∷ [])) ++ (10 ∷ [])) ≡ true)
    ↔ (◌≡◌ {A = List ℕ} (b'g' ∷ []) (b'g' ∷ []))
unfolding trim_start trim_end
padded_word =
    is_right_padded (b'g' ∷ []) (b' ' ∷ []) [] (b' ' ∷ []) b'g' 10 (refl, tt) (refl, tt)
      (refl, refl)

asked_thrice :
    (wrong : Option ℕ) × (ask (words 0) (right_line ∷ wrong_line ∷ right_line ∷ [])
      ≡ some (wrong, []))
    × (destination wrong 1
        ≡ (if is_right (words 0) right_line && is_right (words 0) wrong_line then 2 else 0))
asked_thrice = destination-ask (words 0) right_line wrong_line right_line [] 1

-- Item 11 waits in box 0, and box 1 has eleven of its twelve places taken.
abbrev almost_full : Ltsys
almost_full = record four {
  lt_boxes = λ l.
      if l == 0
      then record {
        fi_linernr = 11;
        vs_cnt = 1;
        vs_limit = 4;
        vs_busy_cnt = 0;
        i_list = 11 ∷ [];
        ltbm = record { first_inode_linenr = 11; vs_cnt = 1; vs_busy_cnt = 0 };
      }
      else record {
        fi_linernr = 0;
        vs_cnt = 11;
        vs_limit = 12;
        vs_busy_cnt = 0;
        i_list = 0 ∷ 1 ∷ 2 ∷ 3 ∷ 4 ∷ 5 ∷ 6 ∷ 7 ∷ 8 ∷ 9 ∷ 10 ∷ [];
        ltbm = record { first_inode_linenr = 0; vs_cnt = 11; vs_busy_cnt = 0 };
      };
  cur_lb_level = λ x. if x == 11 then 0 else 1;
}

abbrev last_of_count : Session
last_of_count = record { sys = almost_full; pug_cnt = pos 1; lines = []; firstwhile = false }

move_to_lbox_stuck_example :
    move_to_lbox nowhere 20 (go_lbox nowhere (pos 1) 20) 1 11 last_of_count ≡ no_fuel
unfolding transfer detach attach link_behind add_tail join_counts leave_counts set_counts set_first
move_to_lbox_stuck_example =
    move_to_lbox_stuck nowhere 0 20 20 1 11 last_of_count (λ e. absurd (omega (arith, e)))
      (omega arith) refl refl
