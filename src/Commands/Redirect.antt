-- ===== src/Commands/Redirect.antt =====
-- setup_redirect and shell_command of src/main.c. What the system answers is an argument.
use leitner.Common.{ℕ}
use leitner.Common.{Bool, true, false, ◌||◌, not, Option, none, some, List, [], ◌∷◌}
use leitner.Common.{◌==◌, if◌then◌else◌}
use leitner.Util.Strip.{is_nil, strip_beginning_whitespace}
use leitner.Commands.Table.{StdpipeType, stdpipe_none, stdpipe_partial, stdpipe_all, type_of}

-- The answers of popen for a text, of fopen for a mode and a name, and of setup_stdpipe; and whether
-- cmd_mkidx finds that it was given the name of the loaded file.
pub record System : Type 0 where
  pub popens : List ℕ → Bool
  pub fopens : Bool → List ℕ → Bool
  pub stdpipes : Bool
  pub is_loaded : List (List ℕ) → Bool

-- Where `fp` leads: the terminal, a command, a file (true where it is appended to) or the pager.
pub data Output : Type 0 where
  std_out pager : Output
  piped : List ℕ → Output
  filed : Bool → List ℕ → Output

-- REDIRECT_*.
pub data Redirect : Type 0 where
  redirect_not_done redirect_to_pipe redirect_to_stdpipe redirect_to_file : Redirect
  redirect_shell_command redirect_failure : Redirect

abbrev pub shell_command : System → List ℕ → Redirect
shell_command sys cmd = if sys.popens cmd then redirect_shell_command else redirect_failure

unfoldable pub escape : System → List ℕ → Redirect
escape sys p = if is_nil p then redirect_failure else shell_command sys p

unfoldable pub open_pipe : System → Output → List ℕ → Redirect × Output
open_pipe sys fp p =
    if is_nil p || not (sys.popens p) then (redirect_failure, fp) else (redirect_to_pipe, piped p)

unfoldable pub open_file : System → Output → Bool → List ℕ → Redirect × Output
open_file sys fp append p =
    if is_nil p || not (sys.fopens append p)
    then (redirect_failure, fp)
    else (redirect_to_file, filed append p)

-- Behind a `>`.
unfoldable pub redirect_file : System → Output → List ℕ → Redirect × Output
redirect_file sys fp [] = open_file sys fp false []
redirect_file sys fp (c ∷ cs) =
    if c == b'>'
    then open_file sys fp true (strip_beginning_whitespace cs)
    else open_file sys fp false (strip_beginning_whitespace (c ∷ cs))

-- The loop for `|` and `>`.
unfoldable pub scan : System → Output → List ℕ → Option (Redirect × Output)
scan sys fp [] = none
scan sys fp (c ∷ cs) =
    let rest = scan sys fp cs in
    if c == b'|'
    then some (open_pipe sys fp (strip_beginning_whitespace cs))
    else (if c == b'>' then some (redirect_file sys fp cs) else rest)

abbrev pub is_stdpipe_none : StdpipeType → Bool
is_stdpipe_none stdpipe_none = true
is_stdpipe_none stdpipe_partial = false
is_stdpipe_none stdpipe_all = false

unfoldable pub scroll : System → Output → ℕ → Redirect × Output
scroll sys fp cmd_idx =
    if is_stdpipe_none (type_of cmd_idx)
    then (redirect_not_done, fp)
    else (if sys.stdpipes then (redirect_to_stdpipe, pager) else (redirect_failure, fp))

unfoldable pub or_scroll : System → Output → ℕ → Option (Redirect × Output) → Redirect × Output
or_scroll sys fp cmd_idx none = scroll sys fp cmd_idx
or_scroll sys fp cmd_idx (some r) = r

unfoldable pub setup_redirect : System → Output → ℕ → List ℕ → Redirect × Output
setup_redirect sys fp cmd_idx [] = scroll sys fp cmd_idx
setup_redirect sys fp cmd_idx (c ∷ cs) =
    if c == b'!'
    then (escape sys (strip_beginning_whitespace cs), fp)
    else or_scroll sys fp cmd_idx (scan sys fp (c ∷ cs))
