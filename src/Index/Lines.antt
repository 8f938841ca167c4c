-- ===== src/Index/Lines.antt =====
-- The lines that the index of `cmd_mkidx` leads `ltsys_init` to.
use leitner.Common.{
  ℕ, ◌+◌, ◌%◌, ◌^◌, ◌<◌, ◌≡◌, refl, sym, ap, ◌∙◌, arith, ◌==◌, if◌then◌else◌, Bool, true, false,
}
use leitner.Common.{List, [], ◌∷◌, ◌++◌, length, length-append, drop}
use mathlib.Core.Path.{subst, ap₂}
use mathlib.Core.List.{append_assoc, append-nil}
use native.Mathlib.Nat.{mod-eq_of_lt}
use leitner.Common.{
  Option, some, none, ltb, str_eq, ◌&&◌, ◌≢◌, ◌≤◌, count, get_or, head?, ==-ne, Bool-cases, inl,
  inr,
}
use leitner.Index.Make.{
  has_equals, aline_size, def_vs_num, noted, Mkidx, written, is_entry, mkidx_loop, cmd_mkidx,
  vs_get_newline, index_lines,
}

-- A text of lines, each closed by a linefeed.
unfoldable pub text_of : List (List ℕ) → List ℕ
text_of [] = []
text_of (line ∷ lines) = line ++ (10 ∷ text_of lines)

-- The line has no linefeed.
unfoldable pub IsLine : List ℕ → Type 0
IsLine [] = Unit
IsLine (c ∷ cs) = ((c == 10) ≡ false) × IsLine cs

-- Lines without a NUL that fit into aLine.
unfoldable pub AreLines : List (List ℕ) → Type 0
AreLines [] = Unit
AreLines (line ∷ lines) =
    (IsLine line × (length line < aline_size) × (count 0 line ≡ 0)) × AreLines lines

-- The lines that count.
unfoldable entries_of : List (List ℕ) → List (List ℕ)
entries_of [] = []
entries_of (line ∷ lines) = if is_entry line then line ∷ entries_of lines else entries_of lines

get_newline_line : (line rest : List ℕ) → IsLine line → vs_get_newline (line ++ (10 ∷ rest)) ≡ line
unfolding vs_get_newline IsLine
get_newline_line [] rest h = refl
get_newline_line (c ∷ cs) rest h = rw (h.0) (ap (λ z. c ∷ z) (get_newline_line cs rest h.1))

drop-append : (pre rest : List ℕ) → drop (length pre) (pre ++ rest) ≡ rest
drop-append [] rest = refl
drop-append (c ∷ pre) rest = drop-append pre rest

abbrev at_linefeed : List ℕ → ℕ → List ℕ → Option (List ℕ)
at_linefeed line bpos rest =
    if ltb (length line) aline_size
    then (if is_entry line
        then noted (bpos % 2 ^ 32) (mkidx_loop [] (bpos + (length line + 1)) rest)
        else mkidx_loop [] (bpos + (length line + 1)) rest)
    else none

mkidx_line :
    (acc line rest : List ℕ) (bpos : ℕ)
    → IsLine line
    → mkidx_loop acc bpos (line ++ (10 ∷ rest)) ≡ at_linefeed (acc ++ line) bpos rest
unfolding mkidx_loop IsLine
mkidx_line acc [] rest bpos h = ap (λ z. at_linefeed z bpos rest) (sym (append-nil acc))
mkidx_line acc (c ∷ cs) rest bpos h =
    rw (h.0, mkidx_loop)
      (subst (λ z. mkidx_loop (acc ++ (c ∷ [])) bpos (cs ++ (10 ∷ rest)) ≡ at_linefeed z bpos rest)
        (append_assoc acc (c ∷ []) cs) (mkidx_line (acc ++ (c ∷ [])) cs rest bpos h.1))

-- The loop leads to the lines that count.
pub record Leads (text : List ℕ) (es : List (List ℕ)) (r : Option (List ℕ)) : Type 0 where
  pub index : List ℕ
  pub returned : r ≡ some index
  pub found : index_lines text index ≡ es
  pub as_many : length index ≡ length es

noted-Leads :
    (text line : List ℕ) (es : List (List ℕ)) (pos : ℕ) (r : Option (List ℕ))
    → vs_get_newline (drop pos text) ≡ line
    → Leads text es r
    → Leads text (line ∷ es) (noted pos r)
unfolding index_lines
noted-Leads text line es pos r here l = record {
  index = pos ∷ l.index;
  returned = ap (noted pos) l.returned;
  found = ap₂ (λ l ls. l ∷ ls) here l.found;
  as_many = omega (arith, l.as_many);
}

entry-Leads :
    (text line : List ℕ) (es : List (List ℕ)) (pos : ℕ) (r : Option (List ℕ)) (b : Bool)
    → vs_get_newline (drop pos text) ≡ line
    → Leads text es r
    → Leads text (if b then line ∷ es else es) (if b then noted pos r else r)
entry-Leads text line es pos r true here l = noted-Leads text line es pos r here l
entry-Leads text line es pos r false here l = l

index_from :
    (pre : List ℕ) (lines : List (List ℕ))
    → AreLines lines
    → length (pre ++ text_of lines) < 2 ^ 32
    → Leads (pre ++ text_of lines) (entries_of lines) (mkidx_loop [] (length pre) (text_of lines))
unfolding index_lines text_of AreLines entries_of mkidx_loop
index_from pre [] h small = record { index = []; returned = refl; found = refl; as_many = refl }
index_from pre (line ∷ lines) ((is_line, short, no_nul), h) small =
    subst (Leads text (if is_entry line then line ∷ entries_of lines else entries_of lines))
      (sym (mkidx_line [] line rest (length pre) is_line ∙ if_short))
      (entry-Leads text line (entries_of lines) (length pre % 2 ^ 32)
        (mkidx_loop [] (length pre + (length line + 1)) rest) (is_entry line) here
        (onward (index_from before lines h (subst (λ t. length t < 2 ^ 32) (sym same_text) small))))
  where
    rest : List ℕ
    rest = text_of lines

    text : List ℕ
    text = pre ++ (line ++ (10 ∷ rest))

    before : List ℕ
    before = pre ++ (line ++ (10 ∷ []))

    same_text : before ++ rest ≡ text
    same_text =
        append_assoc pre (line ++ (10 ∷ [])) rest
        ∙ ap (λ z. pre ++ z) (append_assoc line (10 ∷ []) rest)

    same_length : length before ≡ length pre + (length line + 1)
    same_length = omega (arith, length-append pre (line ++ (10 ∷ [])), length-append line (10 ∷ []))

    fits : ltb (length line) aline_size ≡ true
    fits = ground (arith, short)

    if_short : at_linefeed line (length pre) rest ≡ (
        if is_entry line
        then noted (length pre % 2 ^ 32) (mkidx_loop [] (length pre + (length line + 1)) rest)
        else mkidx_loop [] (length pre + (length line + 1)) rest)
    if_short = rw (fits) refl

    here : vs_get_newline (drop (length pre % 2 ^ 32) text) ≡ line
    here =
        ap (λ n. vs_get_newline (drop n text))
          (mod-eq_of_lt (omega (arith, small, length-append pre (line ++ (10 ∷ rest)))))
        ∙ ap vs_get_newline (drop-append pre (line ++ (10 ∷ rest)))
        ∙ get_newline_line line rest is_line

    onward :
        Leads (before ++ rest) (entries_of lines) (mkidx_loop [] (length before) rest)
        → Leads text (entries_of lines) (mkidx_loop [] (length pre + (length line + 1)) rest)
    onward l =
        subst
          (λ t. Leads t (entries_of lines) (mkidx_loop [] (length pre + (length line + 1)) rest))
          same_text
          (subst (λ n. Leads (before ++ rest) (entries_of lines) (mkidx_loop [] n rest)) same_length
            l)

-- The lines with an = and no # in front, in their order.
pub data Entries : List (List ℕ) → List (List ℕ) → Type 0 where
  done : Entries [] []
  counts :
      (before behind : List ℕ) {lines es : List (List ℕ)}
      → get_or (head? (before ++ (b'=' ∷ behind))) 0 ≢ b'#'
      → Entries lines es
      → Entries ((before ++ (b'=' ∷ behind)) ∷ lines) ((before ++ (b'=' ∷ behind)) ∷ es)
  hashed :
      (line : List ℕ) {lines es : List (List ℕ)}
      → Entries lines es
      → Entries ((b'#' ∷ line) ∷ lines) es
  plain :
      {line : List ℕ} {lines es : List (List ℕ)}
      → count b'=' line ≡ 0
      → Entries lines es
      → Entries (line ∷ lines) es

has_equals-count : (line : List ℕ) → count b'=' line ≡ 0 → has_equals line ≡ false
unfolding has_equals
has_equals-count [] h = refl
has_equals-count (c ∷ cs) h =
    let fewer : count b'=' cs ≡ 0 = ground (arith, h) in
    rw (has_equals-count cs fewer) (ground (arith, h))

has_equals-append : (before behind : List ℕ) → has_equals (before ++ (b'=' ∷ behind)) ≡ true
unfolding has_equals
has_equals-append [] behind = ground arith
has_equals-append (c ∷ before) behind = rw (has_equals-append before behind) (ground arith)

entries_of-Entries : {lines es : List (List ℕ)} → Entries lines es → entries_of lines ≡ es
unfolding entries_of is_entry
entries_of-Entries done = refl
entries_of-Entries (counts before behind ne e) =
    let line : List ℕ = before ++ (b'=' ∷ behind) in
    rw (==-ne (get_or (head? line) 0) b'#' ne)
      (rw (has_equals-append before behind) (ap (λ ls. line ∷ ls) (entries_of-Entries e)))
entries_of-Entries (hashed line e) = entries_of-Entries e
entries_of-Entries (plain {line} h e) = elim (Bool-cases (get_or (head? line) 0 == b'#')) [
  | inl u ↦ rw (u) (entries_of-Entries e)
  | inr u ↦ rw (u) (rw (has_equals-count line h) (entries_of-Entries e))
]

-- The index that a call writes leads to the lines.
pub record Writes (text : List ℕ) (es : List (List ℕ)) (r : Mkidx) : Type 0 where
  pub index : List ℕ
  pub returned : r ≡ written index
  pub found : index_lines text index ≡ es

-- mkidx of a vocabulary that is not the one in use writes an index that leads ltsys_init to exactly the
-- lines with an = and no # in front, in their order. The text is of closed lines without NUL, of fewer than 128
-- characters each, below 2 ^ 32 characters, and no more than DEF_VS_NUM of its lines count.
pub index_lines-mkidx :
    (fb_name name : List ℕ) (mapped : Bool) (lines es : List (List ℕ))
    → (str_eq fb_name name && mapped) ≡ false
    → AreLines lines
    → length (text_of lines) < 2 ^ 32
    → Entries lines es
    → length es ≤ def_vs_num
    → Writes (text_of lines) es (cmd_mkidx fb_name mapped name (some (text_of lines)))
unfolding cmd_mkidx
index_lines-mkidx fb_name name mapped lines es other h small e few =
    let l =
      subst (λ es. Leads (text_of lines) es (mkidx_loop [] 0 (text_of lines)))
        (entries_of-Entries e) (index_from [] lines h small) in
    let room : ltb def_vs_num (length l.index) ≡ false = ground (arith, few, l.as_many) in
    record {
      index = l.index;
      returned = rw (other) (rw (l.returned) (rw (room) refl));
      found = l.found;
    }
