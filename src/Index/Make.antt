-- ===== src/Index/Make.antt =====
-- The loop of `cmd_mkidx` of src/ltsys.c over the mapped text, and `vs_get_newline` of src/vs.c.
use leitner.Common.{
  Option, none, some, ltb, str_eq, ℕ, ◌+◌, ◌%◌, ◌^◌, ◌==◌, if◌then◌else◌, Bool, false, not, ◌&&◌,
  ◌||◌,
}
use leitner.Common.{List, [], ◌∷◌, ◌++◌, length, head?, get_or, drop, map}

-- `strchr(aLine, '=') != NULL`.
unfoldable pub has_equals : List ℕ → Bool
has_equals [] = false
has_equals (c ∷ cs) = c == b'=' || has_equals cs

-- A line counts if it begins with no `#` and has a `=`. The first character of an empty line is its NUL.
unfoldable pub is_entry : List ℕ → Bool
is_entry line = not (get_or (head? line) 0 == b'#') && has_equals line

-- aLine[128], with the closing NUL.
abbrev pub aline_size : ℕ
aline_size = 128

-- DEF_VS_NUM: the entries that the mapping of the index has place for.
abbrev pub def_vs_num : ℕ
def_vs_num = 1280

abbrev pub noted : ℕ → Option (List ℕ) → Option (List ℕ)
noted pos none = none
noted pos (some index) = some (pos ∷ index)

-- The loop: `line` is what stands from `pb` to before `pt1`, `bpos` the position of `pb`. Each entry is
-- the `pos` of one `struct vs_index_info`, an `unsigned int`; its `vs_linenr` is its place in the list.
-- `none` is a line that is too long for aLine.
unfoldable pub mkidx_loop : List ℕ → ℕ → List ℕ → Option (List ℕ)
mkidx_loop line bpos [] = some []
mkidx_loop line bpos (c ∷ cs) =
    if c == 10
    then (if ltb (length line) aline_size
        then (if is_entry line
            then noted (bpos % 2 ^ 32) (mkidx_loop [] (bpos + (length line + 1)) cs)
            else mkidx_loop [] (bpos + (length line + 1)) cs)
        else none)
    else mkidx_loop (line ++ (c ∷ [])) bpos cs

-- What a call does: it warns that the vocabulary is in use, exits because a file is not opened, writes
-- behind one of its buffers, or writes the index.
pub data Mkidx : Type 0 where
  current exits overrun : Mkidx
  written : List ℕ → Mkidx

abbrev pub into_mapping : Option (List ℕ) → Mkidx
into_mapping none = overrun
into_mapping (some index) = if ltb def_vs_num (length index) then overrun else written index

abbrev pub of_file : Option (List ℕ) → Mkidx
of_file none = exits
of_file (some text) = into_mapping (mkidx_loop [] 0 text)

-- `file` is the text that open and mmap give, `mapped` whether a meta file is mapped.
unfoldable pub cmd_mkidx : List ℕ → Bool → List ℕ → Option (List ℕ) → Mkidx
cmd_mkidx fb_name mapped name file = if str_eq fb_name name && mapped then current else of_file file

-- `vs_get_newline`: the characters up to the linefeed.
unfoldable pub vs_get_newline : List ℕ → List ℕ
vs_get_newline [] = []
vs_get_newline (c ∷ cs) = if c == 10 then [] else c ∷ vs_get_newline cs

-- The lines that `ltsys_init` reads for an index.
unfoldable pub index_lines : List ℕ → List ℕ → List (List ℕ)
index_lines text index = map (λ pos. vs_get_newline (drop pos text)) index
