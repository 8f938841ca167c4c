-- ===== src/Commands/Table.antt =====
-- The table Cmds of inc/ltsys.h, and the searches in it: the loop of main in src/main.c and of
-- cmd_help in src/ltsys.c, and command_generator of src/main.c.
use leitner.Common.{ℕ, zero, suc}
use leitner.Common.{Bool, true, false, ◌||◌, ◌&&◌, Option, none, some, List, [], ◌∷◌}
use leitner.Common.{codes, str_eq, ◌==◌, if◌then◌else◌, get_elem?}

-- STDPIPE_NONE, STDPIPE_PARTIAL and STDPIPE_ALL.
pub data StdpipeType : Type 0 where
  stdpipe_none stdpipe_partial stdpipe_all : StdpipeType

pub record Tcommand : Type 0 where
  pub cmd_str : List ℕ
  pub cmd_apr : List ℕ
  pub stdpipe_type : StdpipeType

-- CMD_NULL, which is also CmdMAXNum.
abbrev pub cmd_null : ℕ
cmd_null = 9

abbrev pub cmd_mkidx_nr : ℕ
cmd_mkidx_nr = 5

abbrev pub cmd_exit_nr : ℕ
cmd_exit_nr = 8

abbrev pub tcommand : List ℕ → List ℕ → StdpipeType → Tcommand
tcommand name apr type = record { cmd_str = name; cmd_apr = apr; stdpipe_type = type }

-- The rows of commands; the row behind them, at CMD_NULL, has null pointers and the type STDPIPE_NONE.
unfoldable pub cmds : List Tcommand
cmds =
    tcommand (codes "clear") (codes "c") stdpipe_none
    ∷ tcommand (codes "init") (codes "i") stdpipe_none
    ∷ tcommand (codes "load") (codes "ld") stdpipe_none
    ∷ tcommand (codes "go") (codes "g") stdpipe_none
    ∷ tcommand (codes "lsbox") (codes "ls") stdpipe_partial
    ∷ tcommand (codes "mkidx") (codes "m") stdpipe_none
    ∷ tcommand (codes "modify") (codes "mo") stdpipe_none
    ∷ tcommand (codes "help") (codes "h") stdpipe_partial
    ∷ tcommand (codes "exit") (codes "e") stdpipe_none
    ∷ []

unfoldable pub type_of : ℕ → StdpipeType
type_of i = elim (get_elem? cmds i) [ none ↦ stdpipe_none | some c ↦ c.stdpipe_type ]

abbrev pub is_called : List ℕ → Tcommand → Bool
is_called word c = str_eq word c.cmd_str || str_eq word c.cmd_apr

-- The loop over `i`: the rows left and the row's number.
unfoldable pub find_row : List ℕ → ℕ → List Tcommand → ℕ
find_row word i [] = i
find_row word i (c ∷ cs) =
    let rest = find_row word (suc i) cs in if is_called word c then i else rest

unfoldable pub find_cmd : List ℕ → ℕ
find_cmd word = find_row word 0 cmds

-- strncmp(name, text, len) == 0 for the `len` characters of `text`.
unfoldable pub is_prefix : List ℕ → List ℕ → Bool
is_prefix [] name = true
is_prefix (c ∷ cs) [] = false
is_prefix (c ∷ cs) (d ∷ ds) = c == d && is_prefix cs ds

-- A call of command_generator from the rows left on: the name found, and the rows then left, which
-- list_index stands for.
unfoldable pub command_generator : List ℕ → List Tcommand → Option (List ℕ × List Tcommand)
command_generator text [] = none
command_generator text (c ∷ cs) =
    let rest = command_generator text cs in
    if is_prefix text c.cmd_str then some (c.cmd_str, cs) else rest

-- The calls that readline makes until there is no further name.
unfoldable pub completions : ℕ → List ℕ → List Tcommand → Option (List (List ℕ))
completions zero text rows = none
completions (suc fuel) text rows = elim (command_generator text rows) [
  | none ↦ some []
  | some (name, left) ↦ elim (completions fuel text left) [
    | none ↦ none
    | some names ↦ some (name ∷ names)
  ]
]
