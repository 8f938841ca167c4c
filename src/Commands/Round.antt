-- ===== src/Commands/Round.antt =====
-- The loop of main in src/main.c, with cmd_exit and the result of cmd_mkidx of src/ltsys.c.
use leitner.Common.{ℕ}
use leitner.Common.{Bool, true, false, ◌||◌, ◌&&◌, List, [], ◌∷◌}
use leitner.Common.{◌==◌, ltb, leb, if◌then◌else◌}
use leitner.Util.Strip.{is_nil, clean_line}
use leitner.Commands.Table.{cmd_null, cmd_mkidx_nr, cmd_exit_nr, find_cmd}
use leitner.Commands.Args.{parse_args, has}
use leitner.Commands.Redirect.{
  System, Output, std_out, Redirect, redirect_not_done, redirect_shell_command, setup_redirect,
}

-- The variables that a round leaves to the next one.
pub record Shell : Type 0 where
  pub i : ℕ
  pub fp : Output

-- What a round does: nothing for an empty line, a shell command, the list of the commands, or a call
-- of row `i` with its arguments, with where it prints.
pub data Action : Type 0 where
  skips runs_shell : Action
  lists : Output → Action
  calls : ℕ → List (List ℕ) → Output → Action

pub record Ran : Type 0 where
  pub action : Action
  pub goes_on : Bool
  pub shell : Shell

unfoldable pub row_of : ℕ → List (List ℕ) → ℕ
row_of i [] = i
row_of i (word ∷ words) = find_cmd word

-- cmdproc returns 0: cmd_exit does, and cmd_mkidx when it is given the loaded file.
abbrev pub returns_zero : System → ℕ → List (List ℕ) → Bool
returns_zero sys i av = i == cmd_exit_nr || (i == cmd_mkidx_nr && sys.is_loaded av)

abbrev pub is_shell_command : Redirect → Bool
is_shell_command redirect_shell_command = true
is_shell_command _ = false

-- `cmdproc` and restore_sanity, which the loop does not reach when it ends.
unfoldable pub call : System → ℕ → List (List ℕ) → Output → Ran
call sys i av fp =
    if returns_zero sys i av
    then record { action = calls i av fp; goes_on = false; shell = record { i = i; fp = fp } }
    else record { action = calls i av fp; goes_on = true; shell = record { i = i; fp = std_out } }

unfoldable pub dispatch : System → ℕ → List (List ℕ) → Redirect × Output → Ran
dispatch sys i av (ret, fp) =
    if is_shell_command ret
    then record { action = runs_shell; goes_on = true; shell = record { i = i; fp = fp } }
    else (if leb cmd_null i
        then record { action = lists fp; goes_on = true; shell = record { i = i; fp = fp } }
        else call sys i av fp)

-- The test for the call of setup_redirect.
unfoldable pub may_redirect : System → Output → ℕ → List ℕ → Redirect × Output
may_redirect sys fp i s =
    if ltb i cmd_null || (has b'!' s || has b'>' s)
    then setup_redirect sys fp i (clean_line s)
    else (redirect_not_done, fp)

unfoldable pub on_line : System → Shell → List ℕ → Ran
on_line sys st s =
    let i = row_of st.i (parse_args s) in dispatch sys i (parse_args s) (may_redirect sys st.fp i s)

unfoldable pub round : System → Shell → List ℕ → Ran
round sys st line =
    if is_nil (clean_line line)
    then record { action = skips; goes_on = true; shell = st }
    else on_line sys st (clean_line line)

-- The loop over the lines that are typed.
unfoldable pub main_loop : Shell → List (System × List ℕ) → List Action
main_loop st [] = []
main_loop st ((sys, line) ∷ lines) =
    let ran = round sys st line in
    let rest = main_loop ran.shell lines in ran.action ∷ (if ran.goes_on then rest else [])
