-- ===== src/Commands/Modify.antt =====
-- cmd_help, cmd_lsbox and cmd_modify of src/ltsys.c: what they do for their arguments. The first
-- argument is the command's own name.
use leitner.Common.{ℕ, suc, ◌+◌, ◌-◌}
use leitner.Common.{Bool, true, false, ◌||◌, ◌&&◌, not, List, [], ◌∷◌, ◌++◌}
use leitner.Common.{◌==◌, ltb, leb, if◌then◌else◌, str_eq, get_or, head?, length}
use leitner.Common.{take}
use leitner.Boxes.State.{box_level_cnt}
use leitner.Commands.Table.{cmd_null, find_cmd}

-- cmd_disp, or the usage of a row.
pub data Help : Type 0 where
  disp : Help
  usage : ℕ → Help

unfoldable pub cmd_help : List (List ℕ) → Help
cmd_help (name ∷ (word ∷ more)) = if find_cmd word == cmd_null then disp else usage (find_cmd word)
cmd_help _ = disp

-- The usage, all items, or a box.
pub data Listing : Type 0 where
  lsbox_usage all_items : Listing
  box : ℕ → Listing

unfoldable pub listing : ℕ → Listing
listing c =
    if leb b'0' c && leb c (b'0' + box_level_cnt - 2)
    then box (c - b'0')
    else (if c == b'a' || c == b'A'
        then all_items
        else (if c == b'o' || c == b'O' then box (box_level_cnt - 1) else lsbox_usage))

unfoldable pub cmd_lsbox : List (List ℕ) → Listing
cmd_lsbox (name ∷ ((c ∷ []) ∷ [])) = listing c
cmd_lsbox _ = lsbox_usage

-- A file of objects that are not committed. `tag_name` is the text that strcmp reads: strncpy puts no
-- NUL behind 16 characters, and the next byte is then the first one of why_created.
pub record ModTagFile : Type 0 where
  pub tag_name : List ℕ
  pub why_created : ℕ
  pub lines : ℕ
  pub ex1 : ℕ
  pub ex2 : ℕ

abbrev pub copied_name : List ℕ → List ℕ
copied_name name = if ltb (length name) 16 then name else take 16 name ++ (1 ∷ [])

-- The obj_type_char of each row of glt_wtips.
abbrev pub obj_type_chars : List ℕ
obj_type_chars = b't' ∷ b'p' ∷ b'r' ∷ b'v' ∷ b'g' ∷ b's' ∷ []

unfoldable pub find_type : ℕ → ℕ → List ℕ → ℕ
find_type c type [] = type
find_type c type (d ∷ ds) = let rest = find_type c (suc type) ds in if c == d then type else rest

abbrev pub bdt_max : ℕ
bdt_max = 6

-- The usage was shown, or not, and the list of tag files behind the call.
pub record Modified : Type 0 where
  pub helped : Bool
  pub tags : List ModTagFile

abbrev pub refuse : List ModTagFile → Modified
refuse tags = record { helped = true; tags = tags }

abbrev pub keep : List ModTagFile → Modified
keep tags = record { helped = false; tags = tags }

-- The label NEW. `size` and `count` are the size and the lines of the file that the editor leaves.
unfoldable pub make_new : List ModTagFile → List ℕ → ℕ → ℕ → Modified
make_new tags name size count =
    if size == 0
    then keep tags
    else keep (
        record { tag_name = copied_name name; why_created = 1; lines = count; ex1 = 0; ex2 = 0 }
        ∷ tags)

unfoldable pub has_tag : List ℕ → List ModTagFile → Bool
has_tag name [] = false
has_tag name (t ∷ ts) = str_eq t.tag_name name || has_tag name ts

unfoldable pub set_lines : List ℕ → ℕ → List ModTagFile → List ModTagFile
set_lines name count [] = []
set_lines name count (t ∷ ts) =
    let rest = set_lines name count ts in
    if str_eq t.tag_name name then record t { lines = count } ∷ ts else t ∷ rest

unfoldable pub write_tag : List ModTagFile → List ℕ → ℕ → ℕ → Modified
write_tag tags name size count =
    if not (has_tag name tags)
    then make_new tags name size count
    else (if size == 0 then keep tags else keep (set_lines name count tags))

unfoldable pub by_action : ℕ → List ModTagFile → List ℕ → ℕ → ℕ → Modified
by_action action tags name size count =
    if action == b'n'
    then make_new tags name size count
    else (if action == b'w'
        then write_tag tags name size count
        else (if action == b'c' || action == b'm' then keep tags else refuse tags))

-- The first character of an empty argument is its NUL.
abbrev pub first : List ℕ → ℕ
first word = get_or (head? word) 0

unfoldable pub cmd_modify : List ModTagFile → List (List ℕ) → ℕ → ℕ → Modified
cmd_modify tags (name ∷ (action ∷ (type ∷ (content ∷ [])))) size count =
    if find_type (first type) 0 obj_type_chars == bdt_max
    then refuse tags
    else by_action (first action) tags content size count
cmd_modify tags _ size count = refuse tags
