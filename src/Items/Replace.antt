-- ===== src/Items/Replace.antt =====
-- replace_str2 of src/vs.c.
use leitner.Common.{ltb}
use leitner.Common.{
  ℕ, zero, suc, ◌+◌, ◌-◌, ◌*◌, ◌%◌, ◌^◌, Bool, true, false, ◌&&◌, not, Option, none, some, List, [],
  ◌∷◌, ◌++◌, ◌==◌, if◌then◌else◌, length,
}

-- The text behind `old`, if the text begins with it.
unfoldable pub behind : List ℕ → List ℕ → Option (List ℕ)
behind [] text = some text
behind (c ∷ cs) [] = none
behind (c ∷ cs) (d ∷ ds) = let rest = behind cs ds in if c == d then rest else none

abbrev pub further : ℕ → Option (List ℕ × List ℕ) → Option (List ℕ × List ℕ)
further c none = none
further c (some (before, rest)) = some (c ∷ before, rest)

abbrev pub found_or : Option (List ℕ) → Option (List ℕ × List ℕ) → Option (List ℕ × List ℕ)
found_or (some rest) later = some ([], rest)
found_or none later = later

-- strstr: what stands before the first `old` of the text, and what stands behind it.
unfoldable pub strstr : List ℕ → List ℕ → Option (List ℕ × List ℕ)
strstr old [] = found_or (behind old []) none
strstr old (c ∷ cs) = found_or (behind old (c ∷ cs)) (further c (strstr old cs))

abbrev pub one_more : Option ℕ → Option ℕ
one_more none = none
one_more (some n) = some (suc n)

-- The first loop, which counts; `none` when the fuel is used up.
unfoldable pub count_loop : ℕ → List ℕ → List ℕ → Option ℕ
count_loop zero old p = none
count_loop (suc fuel) old p = elim (strstr old p) [
  | none ↦ some 0
  | some (before, rest) ↦ one_more (count_loop fuel old rest)
]

abbrev pub int_max : ℕ
int_max = 2147483647

abbrev pub joined : List ℕ → List ℕ → Option (List ℕ) → Option (List ℕ)
joined before new none = none
joined before new (some out) = some (before ++ (new ++ out))

-- `int l = q - p`: a longer piece has no length in an int, which is none.
unfoldable pub copied : List ℕ → List ℕ → Option (List ℕ) → Option (List ℕ)
copied before new out = if ltb int_max (length before) then none else joined before new out

-- The second loop: what it and the strcpy behind it write for `p`; `none` also when an int overflows.
unfoldable pub copy_loop : ℕ → Bool → ℕ → List ℕ → List ℕ → List ℕ → Option (List ℕ)
copy_loop zero samesize count old new p = none
copy_loop (suc fuel) samesize count old new p =
    let rest : Option (List ℕ) = elim (strstr old p) [
      | none ↦ some p
      | some (before, behind_it) ↦
          copied before new (copy_loop fuel samesize (count - 1) old new behind_it)
    ] in
    if not samesize && count == 0 then some p else rest

-- A size_t.
abbrev pub size_max : ℕ
size_max = 2 ^ 64

abbrev pub ret_len : ℕ → ℕ → ℕ → ℕ → ℕ
ret_len len count newlen oldlen =
    (len + count * ((newlen + (size_max - oldlen)) % size_max)) % size_max

-- The text written, and the size of the buffer without its closing NUL.
pub record Replaced : Type 0 where
  pub text : List ℕ
  pub retlen : ℕ

abbrev pub sized : ℕ → Option (List ℕ) → Option Replaced
sized n none = none
sized n (some t) = some (record { text = t; retlen = n })

abbrev pub counted : ℕ → List ℕ → List ℕ → List ℕ → Option ℕ → Option Replaced
counted fuel old new str none = none
counted fuel old new str (some count) =
    sized (ret_len (length str) count (length new) (length old))
      (copy_loop fuel false count old new str)

unfoldable pub replace_str2 : ℕ → List ℕ → List ℕ → List ℕ → Option Replaced
replace_str2 fuel str old new =
    if length old == length new
    then sized (length str) (copy_loop fuel true 0 old new str)
    else counted fuel old new str (count_loop fuel old str)
