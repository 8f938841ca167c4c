-- ===== src/Commands/Names.antt =====
-- The commands of inc/ltsys.h by their names, and the completion of names in src/main.c.
use mathlib.Core.Path.{subst}
use leitner.Common.{ℕ, zero, suc, ◌+◌, ◌≤◌, ◌<◌, ◌≡◌, ◌↔◌, ◌⊎◌, inl, inr, refl, sym, arith}
use leitner.Common.{true, false, Option, none, some, List, [], ◌∷◌, length}
use leitner.Common.{str_eq, str_eq_iff, if◌then◌else◌, Bool-cases, get_elem?}
use leitner.Commands.Table.{
  Tcommand, cmds, is_called, find_row, find_cmd, is_prefix, command_generator, completions,
}

abbrev RowsFound : ℕ → List Tcommand → Type 0
RowsFound i [] = Unit
RowsFound i (c ∷ cs) = (find_cmd c.cmd_str ≡ i) × (find_cmd c.cmd_apr ≡ i) × RowsFound (suc i) cs

rows_found : RowsFound 0 cmds
unfolding find_cmd find_row cmds str_eq
rows_found = (
  refl,
  refl,
  (
    refl,
    refl,
    (
      refl,
      refl,
      (refl, refl, (refl, refl, (refl, refl, (refl, refl, (refl, refl, (refl, refl, tt)))))),
    ),
  ),
)

row_found :
    (k j : ℕ) (cs : List Tcommand) (c : Tcommand)
    → RowsFound k cs
    → get_elem? cs j ≡ some c
    → (find_cmd c.cmd_str ≡ k + j) × (find_cmd c.cmd_apr ≡ k + j)
row_found k j [] c h e = absurd (ground (arith, e))
row_found k zero (d ∷ cs) c (n, a, h) e = ground (arith, n, a, e)
row_found k (suc j) (d ∷ cs) c (n, a, h) e =
    let ih = row_found (suc k) j cs c h e in (omega (arith, ih.0), omega (arith, ih.1))

called_word :
    (word : List ℕ) (c : Tcommand)
    → is_called word c ≡ true
    → (word ≡ c.cmd_str) ⊎ (word ≡ c.cmd_apr)
called_word word c h = elim (Bool-cases (str_eq word c.cmd_str)) [
  | inl e ↦ inl ((str_eq_iff word c.cmd_str).0 e)
  | inr e ↦ inr ((str_eq_iff word c.cmd_apr).0 (ground (arith, h, e)))
]

find_row_ge : (word : List ℕ) (k : ℕ) (cs : List Tcommand) → k ≤ find_row word k cs
unfolding find_row
find_row_ge word k [] = omega arith
find_row_ge word k (c ∷ cs) = elim (Bool-cases (is_called word c)) [
  | inl e ↦ rw (e) (omega arith)
  | inr e ↦ rw (e) (omega (arith, find_row_ge word (suc k) cs))
]

find_row-hit :
    (word : List ℕ) (k : ℕ) (c : Tcommand) (cs : List Tcommand)
    → is_called word c ≡ true
    → find_row word k (c ∷ cs) ≡ k
unfolding find_row
find_row-hit word k c cs e = rw (e) refl

find_row-miss :
    (word : List ℕ) (k : ℕ) (c : Tcommand) (cs : List Tcommand)
    → is_called word c ≡ false
    → find_row word k (c ∷ cs) ≡ find_row word (suc k) cs
unfolding find_row
find_row-miss word k c cs e = rw (e) refl

-- What the search returns is a row that is called by the word, or the number behind the last row.
find_row-called :
    (word : List ℕ) (k j : ℕ) (cs : List Tcommand) (c : Tcommand)
    → find_row word k cs ≡ k + j
    → get_elem? cs j ≡ some c
    → is_called word c ≡ true
find_row-called word k j [] c h e = absurd (ground (arith, e))
find_row-called word k zero (d ∷ cs) c h e = elim (Bool-cases (is_called word d)) [
  | inl hit ↦ ground (arith, hit, e)
  | inr miss ↦
      absurd (omega (arith, h, find_row-miss word k d cs miss, find_row_ge word (suc k) cs))
]
find_row-called word k (suc j) (d ∷ cs) c h e = elim (Bool-cases (is_called word d)) [
  | inl hit ↦ absurd (omega (arith, h, find_row-hit word k d cs hit))
  | inr miss ↦
      find_row-called word (suc k) j cs c (omega (arith, h, find_row-miss word k d cs miss)) e
]

-- For each row of the table: the search of main and of cmd_help finds it for a word exactly if the
-- word is its name or its abbreviation.
pub find_cmd_iff :
    (i : ℕ) (c : Tcommand) (word : List ℕ)
    → get_elem? cmds i ≡ some c
    → (find_cmd word ≡ i) ↔ (is_called word c ≡ true)
unfolding find_cmd
find_cmd_iff i c word e = (
  (λ h. find_row-called word 0 i cmds c (omega (arith, h)) e),
  λ h.
      let (name, apr) = row_found 0 i cmds c rows_found e in
      elim (called_word word c h) [
        | inl q ↦ subst (λ w. find_row w 0 cmds ≡ i) (sym q) (omega (arith, name))
        | inr q ↦ subst (λ w. find_row w 0 cmds ≡ i) (sym q) (omega (arith, apr))
      ],
)

-- The names that begin with the text, in the order of the rows.
unfoldable pub matching : List ℕ → List Tcommand → List (List ℕ)
matching text [] = []
matching text (c ∷ cs) =
    let rest = matching text cs in if is_prefix text c.cmd_str then c.cmd_str ∷ rest else rest

abbrev Follows : List ℕ → List Tcommand → Option (List ℕ × List Tcommand) → Type 0
Follows text rows none = matching text rows ≡ []
Follows text rows (some (name, left)) =
    (matching text rows ≡ name ∷ matching text left) × (length left < length rows)

Follows-skip :
    (text : List ℕ) (c : Tcommand) (cs : List Tcommand) (r : Option (List ℕ × List Tcommand))
    → is_prefix text c.cmd_str ≡ false
    → Follows text cs r
    → Follows text (c ∷ cs) r
unfolding matching
Follows-skip text c cs none e h = rw (e) h
Follows-skip text c cs (some (name, left)) e (h, lt) = (rw (e) h, omega (arith, lt))

Follows-take :
    (text : List ℕ) (c : Tcommand) (cs : List Tcommand)
    → is_prefix text c.cmd_str ≡ true
    → Follows text (c ∷ cs) (some (c.cmd_str, cs))
unfolding matching
Follows-take text c cs e = (rw (e) refl, omega arith)

command_generator-take :
    (text : List ℕ) (c : Tcommand) (cs : List Tcommand)
    → is_prefix text c.cmd_str ≡ true
    → command_generator text (c ∷ cs) ≡ some (c.cmd_str, cs)
unfolding command_generator
command_generator-take text c cs e = rw (e) refl

command_generator-skip :
    (text : List ℕ) (c : Tcommand) (cs : List Tcommand)
    → is_prefix text c.cmd_str ≡ false
    → command_generator text (c ∷ cs) ≡ command_generator text cs
unfolding command_generator
command_generator-skip text c cs e = rw (e) refl

command_generator-Follows :
    (text : List ℕ) (rows : List Tcommand) → Follows text rows (command_generator text rows)
unfolding command_generator matching
command_generator-Follows text [] = refl
command_generator-Follows text (c ∷ cs) = elim (Bool-cases (is_prefix text c.cmd_str)) [
  | inl e ↦
      subst (Follows text (c ∷ cs)) (sym (command_generator-take text c cs e))
        (Follows-take text c cs e)
  | inr e ↦
      subst (Follows text (c ∷ cs)) (sym (command_generator-skip text c cs e))
        (Follows-skip text c cs (command_generator text cs) e (command_generator-Follows text cs))
]

-- The calls that readline makes give the names of the rows that begin with the text, each once and in
-- order, and then a null pointer; a call more than there are rows is enough.
pub completions_lem :
    (fuel : ℕ) (text : List ℕ) (rows : List Tcommand)
    → length rows < fuel
    → completions fuel text rows ≡ some (matching text rows)
unfolding completions
completions_lem zero text rows h = absurd (omega arith)
completions_lem (suc fuel) text rows h =
    go (command_generator text rows) refl (command_generator-Follows text rows)
      (completions_lem fuel text)
  where
    go :
        (r : Option (List ℕ × List Tcommand))
        → command_generator text rows ≡ r
        → Follows text rows r
        → ((left : List Tcommand)
            → length left < fuel
            → completions fuel text left ≡ some (matching text left))
        → completions (suc fuel) text rows ≡ some (matching text rows)
    go none e f ih = rw (e, completions) (rw (f) refl)
    go (some (name, left)) e (f, lt) ih =
        rw (e, completions) (rw (ih left (omega (arith, lt, h)), f) refl)
