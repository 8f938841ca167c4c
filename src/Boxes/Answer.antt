-- ===== src/Boxes/Answer.antt =====
-- The answers of the user in `go_lbox_internal` of src/vs.c: each try reads a line with `fgets` and
-- compares it, cleaned, with the expected word.
use leitner.Common.{ℕ, zero, suc, ◌+◌, ◌==◌, if◌then◌else◌, Bool, ◌||◌}
use leitner.Common.{List, [], ◌∷◌, Option, none, some, str_eq}
use leitner.Boxes.State.{max_tries}

-- Strings are the codes of their characters, without the closing zero.
abbrev pub is_blank : ℕ → Bool
is_blank c = c == b' ' || c == 9

-- `input_str[strlen(input_str)-1] = '\0'`.
unfoldable pub chop : List ℕ → List ℕ
chop [] = []
chop (c ∷ []) = []
chop (c ∷ d ∷ ds) = c ∷ chop (d ∷ ds)

-- The two loops over blanks, at the end and then at the start. On a line of blanks the source goes on
-- to read the byte before the buffer; here the first loop stops at the empty string.
unfoldable pub trim_end : List ℕ → List ℕ
trim_end [] = []
trim_end (c ∷ cs) = elim (trim_end cs) [
  | [] ↦ if is_blank c then [] else c ∷ []
  | d ∷ ds ↦ c ∷ d ∷ ds
]

unfoldable pub trim_start : List ℕ → List ℕ
trim_start [] = []
trim_start (c ∷ cs) = let rest = trim_start cs in if is_blank c then rest else c ∷ cs

unfoldable pub is_right : List ℕ → List ℕ → Bool
unfolding chop trim_end trim_start
is_right word line = str_eq word (trim_start (trim_end (chop line)))

-- `wrong_pos`: the first wrong try; `none` is its start value -1.
abbrev pub first_wrong : Option ℕ → ℕ → Option ℕ
first_wrong none try = some try
first_wrong (some t) try = some t

-- All tries are made, also after a right one. `none` is the end of the input, where `fgets` fails.
unfoldable pub ask_from :
    ℕ → ℕ → Option ℕ → List ℕ → List (List ℕ) → Option (Option ℕ × List (List ℕ))
unfolding is_right
ask_from zero try wrong word lines = some (wrong, lines)
ask_from (suc left) try wrong word [] = none
ask_from (suc left) try wrong word (line ∷ lines) =
    ask_from left (try + 1) (if is_right word line then wrong else first_wrong wrong try) word lines

unfoldable pub ask : List ℕ → List (List ℕ) → Option (Option ℕ × List (List ℕ))
unfolding ask_from
ask word lines = ask_from max_tries 1 none word lines

-- The box that the item goes to, by its first wrong try.
abbrev pub destination : Option ℕ → ℕ → ℕ
destination none level = level + 1
destination (some try) level = if try == 1 then 0 else if try == 2 then 0 else level + 1
