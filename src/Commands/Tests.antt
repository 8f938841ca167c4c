-- ===== src/Commands/Tests.antt =====
-- The command line at concrete inputs.
use leitner.Common.{ℕ}
use leitner.Common.{List}
use leitner.Commands.Refused.{cmd_modify_lem}
use leitner.Commands.Refused.{lines_of, recorded, typed, modify, vocabulary_group}
use leitner.Commands.Modify.{usage}
use leitner.Commands.Output.{round-Restored}
use leitner.Commands.Piped.{round-piped}
use leitner.Commands.Modify.{lsbox_usage}
use leitner.Commands.Redirect.{pager}
use leitner.Commands.Output.{Restored}
use leitner.Commands.Modify.{box}
use leitner.Commands.Table.{type_of}
use leitner.Commands.Redirect.{open_file, piped}
use leitner.Commands.Words.{parse_args-spaced}
use leitner.Commands.Names.{completions_lem}
use leitner.Common.{refl, arith, some, [], ◌∷◌, ◌≡◌, ◌↔◌, true, false}
use leitner.Commands.Output.{round_stale}
use leitner.Commands.Redirect.{redirect_file, scroll}
use leitner.Commands.Names.{find_cmd_iff}
use leitner.Commands.Redirect.{or_scroll}
use leitner.Commands.Round.{calls}
use leitner.Commands.Table.{stdpipe_partial}
use leitner.Commands.Redirect.{scan}
use leitner.Util.Strip.{strip_back}
use leitner.Commands.Table.{tcommand}
use leitner.Commands.Lines.{setup_redirect_refused}
use leitner.Commands.Round.{row_of}
use leitner.Util.Strip.{strip_front}
use leitner.Commands.Args.{has}
use leitner.Common.{some, str_eq}
use leitner.Commands.Table.{is_called}
use leitner.Commands.Round.{call, may_redirect}
use leitner.Util.Strip.{strip_linefeeds}
use leitner.Commands.Redirect.{redirect_failure}
use leitner.Commands.Args.{split_words}
use leitner.Commands.Table.{completions, find_row}
use leitner.Common.{false, ◌↔◌}
use leitner.Commands.Modify.{cmd_help}
use leitner.Commands.Round.{dispatch}
use leitner.Util.Strip.{strip_ending_whitespace}
use leitner.Commands.Args.{strtok_all}
use leitner.Commands.Words.{words_of}
use leitner.Commands.Table.{is_prefix}
use leitner.Common.{true, ◌≡◌}
use leitner.Common.{codes}
use leitner.Commands.Names.{matching}
use leitner.Commands.Modify.{listing}
use leitner.Commands.Round.{on_line}
use leitner.Util.Strip.{strip_beginning_whitespace}
use leitner.Commands.Args.{before_redirect}
use leitner.Commands.Words.{spaced}
use leitner.Commands.Table.{find_cmd}
use leitner.Commands.Redirect.{setup_redirect, std_out}
use leitner.Commands.Modify.{cmd_lsbox, cmd_modify}
use leitner.Util.Strip.{All, clean_line}
use leitner.Commands.Args.{parse_args}
use leitner.Commands.Words.{AreWords}
use leitner.Commands.Table.{cmds}
use leitner.Commands.Round.{Shell, main_loop, round}
use leitner.Commands.Redirect.{System}
use Prim.Native.String.{[]}

abbrev willing : System
willing = record {
  popens = λ p. true;
  fopens = λ a p. true;
  stdpipes = true;
  is_loaded = λ av. false;
}

-- Behind a call of the command at row 3, which is go.
abbrev behind_go : Shell
behind_go = record { i = 3; fp = std_out }

row_found :
    (find_cmd (codes "ls") ≡ 4)
    ↔ (is_called (codes "ls") (tcommand (codes "lsbox") (codes "ls") stdpipe_partial) ≡ true)
unfolding cmds
row_found = find_cmd_iff 4 (tcommand (codes "lsbox") (codes "ls") stdpipe_partial) (codes "ls") refl

names_completed : completions 10 (codes "l") cmds ≡ some (codes "load" ∷ (codes "lsbox" ∷ []))
unfolding cmds matching is_prefix
names_completed = completions_lem 10 (codes "l") cmds (omega arith)

words_before_bar : parse_args (codes "ls a | less") ≡ codes "ls" ∷ (codes "a" ∷ [])
unfolding AreWords All spaced words_of
words_before_bar =
    parse_args-spaced ((codes "ls", codes " ") ∷ ((codes "a", codes " ") ∷ [])) b'|' (codes " less")
      (refl, (refl, (refl, tt)), refl, (refl, tt), (refl, (refl, tt), refl, (refl, tt), tt)) refl

-- A word with the sign in it is lost.
parse_args_glued : parse_args (codes "ls a|less") ≡ codes "ls" ∷ []
unfolding parse_args before_redirect strtok_all split_words has
parse_args_glued = refl

setup_redirect_refused_example :
    (setup_redirect willing std_out 4 (codes "ls a |") ≡ (redirect_failure, std_out))
    × (setup_redirect willing std_out 4 (codes "ls a >") ≡ (redirect_failure, std_out))
    × (setup_redirect willing std_out 4 (codes "ls a >>") ≡ (redirect_failure, std_out))
unfolding All
setup_redirect_refused_example =
    setup_redirect_refused willing std_out 4 (codes "ls a ") []
      (refl, (refl, (refl, (refl, (refl, tt))))) refl tt

round-piped_example :
    (round willing behind_go (codes "ls a | less")).action
    ≡ calls 4 (codes "ls" ∷ (codes "a" ∷ [])) (piped (codes "less"))
unfolding AreWords All spaced words_of find_cmd find_row cmds str_eq clean_line
    strip_beginning_whitespace strip_ending_whitespace strip_linefeeds strip_front strip_back
round-piped_example =
    round-piped willing behind_go (codes "ls") (codes " ") ((codes "a", codes " ") ∷ [])
      (codes " less") (codes "less")
      (refl, (refl, (refl, tt)), refl, (refl, tt), (refl, (refl, tt), refl, (refl, tt), tt))
      (omega arith) refl refl refl refl

round_stale_example :
    (round willing behind_go (codes "> f")).action
    ≡ calls 3 [] (setup_redirect willing std_out 3 (codes "> f")).1
unfolding clean_line strip_beginning_whitespace strip_ending_whitespace strip_linefeeds strip_front
    strip_back
round_stale_example = round_stale willing behind_go b'>' (codes " f") refl (omega arith) refl

round-Restored_example : Restored std_out (round willing behind_go (codes "foo > f"))
unfolding round on_line dispatch may_redirect row_of setup_redirect scan or_scroll redirect_file
    open_file parse_args before_redirect strtok_all split_words has find_cmd find_row cmds str_eq
    clean_line strip_beginning_whitespace strip_ending_whitespace strip_linefeeds strip_front
    strip_back
round-Restored_example = round-Restored willing behind_go (codes "foo > f") refl

abbrev write_t1 : List (List ℕ)
write_t1 = codes "mo" ∷ (codes "w" ∷ (codes "vg" ∷ (codes "t1" ∷ [])))

cmd_modify_lem_example :
    ((cmd_modify [] write_t1 9 3).helped ≡ false)
    × ((m : List ℕ)
        → lines_of m (cmd_modify [] write_t1 9 3).tags ≡ recorded true (codes "t1") 3 [] m)
cmd_modify_lem_example =
    cmd_modify_lem [] write_t1 (codes "t1") true true 9 3
      (typed (codes "mo") (codes "w") (codes "vg") (codes "t1") modify vocabulary_group)
      (omega arith)

-- The commit that the help shows, without a type.
commit_refused : (cmd_modify [] (codes "mo" ∷ (codes "c" ∷ (codes "t1" ∷ []))) 0 0).helped ≡ true
unfolding cmd_modify
commit_refused = refl

-- Two sessions: a box is listed to a pager, and the program ends at exit.
session :
    main_loop behind_go
      ((willing, codes "ls 0") ∷ ((willing, codes "e") ∷ ((willing, codes "g") ∷ [])))
    ≡ calls 4 (codes "ls" ∷ (codes "0" ∷ [])) pager ∷ (calls 8 (codes "e" ∷ []) std_out ∷ [])
unfolding main_loop round on_line dispatch call may_redirect row_of setup_redirect scan or_scroll
    scroll type_of redirect_file open_file parse_args before_redirect strtok_all split_words has
    find_cmd find_row cmds str_eq clean_line strip_beginning_whitespace strip_ending_whitespace
    strip_linefeeds strip_front strip_back
session = refl

boxes_listed :
    (cmd_lsbox (codes "ls" ∷ (codes "4" ∷ [])) ≡ box 4)
    × (cmd_lsbox (codes "ls" ∷ (codes "o" ∷ [])) ≡ box 5)
    × (cmd_lsbox (codes "ls" ∷ (codes "5" ∷ [])) ≡ lsbox_usage)
    × (cmd_help (codes "h" ∷ (codes "mo" ∷ [])) ≡ usage 6)
unfolding cmd_lsbox listing cmd_help find_cmd find_row cmds str_eq
boxes_listed = (refl, refl, refl, refl)
