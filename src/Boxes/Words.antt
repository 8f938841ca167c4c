-- ===== src/Boxes/Words.antt =====
-- The answers in `go_lbox_internal` of src/vs.c: words between blanks, and where an item goes.
use leitner.Common.{ℕ, ◌+◌, ◌≡◌, ◌↔◌, refl, ap, arith, true, ◌&&◌}
use leitner.Common.{if◌then◌else◌, List, [], ◌∷◌, ◌++◌, Option, none, some, str_eq_iff}
use leitner.Boxes.Answer.{
  is_blank, chop, trim_end, trim_start, is_right, ask, ask_from, destination,
}

abbrev pub AllBlank : List ℕ → Type 0
AllBlank [] = Unit {0}
AllBlank (c ∷ cs) = (is_blank c ≡ true) × AllBlank cs

-- A word neither starts nor ends with a blank, and is not empty.
abbrev pub IsWord : List ℕ → Type 0
IsWord w = (trim_start w ≡ w) × (trim_end w ≡ w)

chop_lem : (xs : List ℕ) (c : ℕ) → chop (xs ++ (c ∷ [])) ≡ xs
unfolding chop
chop_lem [] c = refl
chop_lem (x ∷ []) c = refl
chop_lem (x ∷ y ∷ ys) c = ap (λ zs. x ∷ zs) (chop_lem (y ∷ ys) c)

trim_end_blank : (cs : List ℕ) → AllBlank cs → trim_end cs ≡ []
unfolding trim_end
trim_end_blank [] h = refl
trim_end_blank (c ∷ cs) h = ground (arith, trim_end_blank cs h.1)

trim_end_padded : (xs cs : List ℕ) → AllBlank cs → trim_end (xs ++ cs) ≡ trim_end xs
unfolding trim_end
trim_end_padded [] cs h = trim_end_blank cs h
trim_end_padded (x ∷ xs) cs h = ground (arith, trim_end_padded xs cs h)

-- Blanks before a text that ends in no blank stay where they are.
trim_end_kept :
    (cs w : List ℕ) (x : ℕ) → trim_end (x ∷ w) ≡ x ∷ w → trim_end (cs ++ (x ∷ w)) ≡ cs ++ (x ∷ w)
unfolding trim_end
trim_end_kept [] w x h = h
trim_end_kept (c ∷ []) w x h = ground (arith, h)
trim_end_kept (c ∷ d ∷ ds) w x h = ground (arith, trim_end_kept (d ∷ ds) w x h)

trim_start_padded : (cs w : List ℕ) → AllBlank cs → trim_start (cs ++ w) ≡ trim_start w
unfolding trim_start
trim_start_padded [] w h = refl
trim_start_padded (c ∷ cs) w h = ground (arith, trim_start_padded cs w h.1)

-- A line that holds a word, with any blanks before and behind it and one closing character, is right
-- for exactly that word.
pub is_right_padded :
    (expected before w after : List ℕ) (x newline : ℕ)
    → AllBlank before
    → AllBlank after
    → IsWord (x ∷ w)
    → (is_right expected ((before ++ (x ∷ w) ++ after) ++ (newline ∷ [])) ≡ true)
      ↔ (expected ≡ x ∷ w)
unfolding is_right
is_right_padded expected before w after x newline hb ha hw =
    rw
      (
        chop_lem ((before ++ (x ∷ w)) ++ after) newline,
        trim_end_padded (before ++ (x ∷ w)) after ha,
        trim_end_kept before w x hw.1,
        trim_start_padded before (x ∷ w) hb,
        hw.0,
      )
      (str_eq_iff expected (x ∷ w))

-- After three lines the item goes to box 0 exactly if the first or the second of them is wrong; the
-- third line changes nothing, and the three lines are used up.
pub destination-ask :
    (word first second third : List ℕ) (rest : List (List ℕ)) (level : ℕ)
    → (wrong : Option ℕ) × (ask word (first ∷ second ∷ third ∷ rest) ≡ some (wrong, rest))
      × (destination wrong level
          ≡ (if is_right word first && is_right word second then level + 1 else 0))
unfolding ask ask_from
destination-ask word first second third rest level = (
  if is_right word first
      then (if is_right word second then (if is_right word third then none else some 3) else some 2)
      else some 1,
  ground arith,
  ground arith,
)
