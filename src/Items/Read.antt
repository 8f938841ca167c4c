-- ===== src/Items/Read.antt =====
-- The body of the loop of ltsys_init in src/vs.c: an item from a line of the vocabulary file.
use leitner.Common.{length}
use leitner.Common.{ltb}
use leitner.Common.{ℕ, Option, none, some, List, [], ◌∷◌, ◌==◌, if◌then◌else◌, map}
use leitner.Items.Replace.{Replaced, further, replace_str2}

-- strchr: what stands before the first `c`, and what stands behind it.
unfoldable pub strchr : ℕ → List ℕ → Option (List ℕ × List ℕ)
strchr c [] = none
strchr c (d ∷ ds) = let rest = further d (strchr c ds) in if d == c then some ([], ds) else rest

abbrev pub vbuf_len : ℕ
vbuf_len = 30

-- aLine[256], of which the last character stays NUL.
abbrev pub aline_len : ℕ
aline_len = 256

-- `struct vs_item`, the texts of it.
pub record VsItem : Type 0 where
  pub vbuf : List ℕ
  pub sbuf : List ℕ
  pub comm : Option (List ℕ)

abbrev pub before_or_all : List ℕ → Option (List ℕ × List ℕ) → List ℕ
before_or_all text none = text
before_or_all text (some (a, b)) = a

-- The text behind the `=`, without a comment, and the comment up to a `&`.
unfoldable pub split_comment : List ℕ → Option (List ℕ × List ℕ) → List ℕ × Option (List ℕ)
split_comment text none = (text, none)
split_comment text (some (a, b)) = (a, some (before_or_all b (strchr b'&' b)))

-- One `_` for each character.
unfoldable pub underline : List ℕ → List ℕ
underline word = map (λ c. b'_') word

abbrev pub item_of : List ℕ → Option (List ℕ) → Option Replaced → Option VsItem
item_of vbuf comm none = none
item_of vbuf comm (some r) = some (record { vbuf = vbuf; sbuf = r.text; comm = comm })

abbrev pub with_comment : ℕ → List ℕ → List ℕ × Option (List ℕ) → Option VsItem
with_comment fuel word (sentence, comm) =
    item_of word comm (replace_str2 fuel sentence word (underline word))

-- The item of a line. A line without `=` gives none; `no_return` is that replace_str2 has not returned
-- within the fuel, and `overrun` that a line or a word is too long for its buffer.
pub data Line : Type 0 where
  no_item no_return overrun : Line
  item : VsItem → Line

abbrev pub returned : Option VsItem → Line
returned none = no_return
returned (some it) = item it

-- vbuf and undline have as many characters as each other.
unfoldable pub read_rest : ℕ → Option (List ℕ × List ℕ) → Line
read_rest fuel none = no_item
read_rest fuel (some (word, text)) =
    if ltb (length word) vbuf_len
    then returned (with_comment fuel word (split_comment text (strchr b'#' text)))
    else overrun

unfoldable pub read_line : ℕ → List ℕ → Line
read_line fuel line =
    if ltb (length line) aline_len then read_rest fuel (strchr b'=' line) else overrun
