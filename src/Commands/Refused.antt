-- ===== src/Commands/Refused.antt =====
-- What cmd_modify of src/ltsys.c makes of the calls that its help (cmd_modify_help) shows.
use mathlib.Core.Path.{subst}
use leitner.Common.{
  ℕ, ◌≡◌, ◌<◌, inl, inr, refl, sym, ◌∙◌, arith, length, Option, some, none, if◌then◌else◌,
}
use leitner.Common.{Bool, true, false, ◌&&◌, not, List, [], ◌∷◌, codes, ltb}
use leitner.Common.{◌==◌, str_eq, str_eq_iff, Bool-cases}
use leitner.Commands.Modify.{
  Modified, ModTagFile, obj_type_chars, find_type, bdt_max, make_new, has_tag, set_lines, write_tag,
  by_action, first, cmd_modify,
}

-- The actions, and whether the editor's file is recorded.
pub data Action : List ℕ → Bool → Type 0 where
  create : Action (codes "n") true
  modify : Action (codes "w") true
  commit : Action (codes "c") false
  existed : Action (codes "m") false

-- The types of objects.
pub data ObjType : List ℕ → Type 0 where
  root_fix : ObjType (codes "rf")
  vocabulary : ObjType (codes "v")
  vocabulary_group : ObjType (codes "vg")
  grammar : ObjType (codes "g")

-- mo[dify] action [obj_type] content: the arguments, the content, whether there is a type, and whether the
-- editor's file is recorded.
pub data Documented : List (List ℕ) → List ℕ → Bool → Bool → Type 0 where
  untyped :
      (name action content : List ℕ) {writes : Bool}
      → Action action writes
      → Documented (name ∷ (action ∷ (content ∷ []))) content false writes
  typed :
      (name action type content : List ℕ) {writes : Bool}
      → Action action writes
      → ObjType type
      → Documented (name ∷ (action ∷ (type ∷ (content ∷ [])))) content true writes

-- The lines that are recorded for a tag.
unfoldable pub lines_of : List ℕ → List ModTagFile → Option ℕ
lines_of name [] = none
lines_of name (t ∷ ts) =
    let rest = lines_of name ts in if str_eq t.tag_name name then some t.lines else rest

str_eq_self : (name : List ℕ) → str_eq name name ≡ true
str_eq_self name = (str_eq_iff name name).1 refl

str_eq-sym : (a b : List ℕ) → str_eq a b ≡ str_eq b a
str_eq-sym a b = elim (Bool-cases (str_eq a b)) [
  | inl e ↦ e ∙ sym ((str_eq_iff b a).1 (sym ((str_eq_iff a b).0 e)))
  | inr e ↦ elim (Bool-cases (str_eq b a)) [
    | inl u ↦ absurd (true-ne (sym ((str_eq_iff a b).1 (sym ((str_eq_iff b a).0 u))) ∙ e))
    | inr u ↦ e ∙ sym u
  ]
]
  where
    true-ne : true ≡ false → ⊥
    true-ne e = ground (arith, e)

-- A tag of the name has the count, any other name what it had.
abbrev pub recorded : Bool → List ℕ → ℕ → List ModTagFile → List ℕ → Option ℕ
recorded writes name count tags m = if writes && str_eq name m then some count else lines_of m tags

-- The tags behind a call record the count, or all is as it was.
abbrev Records : Bool → List ℕ → ℕ → List ModTagFile → List ModTagFile → Type 0
Records writes name count tags after =
    (m : List ℕ) → lines_of m after ≡ recorded writes name count tags m

lines_of-set_lines :
    (name m : List ℕ) (count : ℕ) (tags : List ModTagFile)
    → has_tag name tags ≡ true
    → lines_of m (set_lines name count tags) ≡ recorded true name count tags m
unfolding lines_of set_lines has_tag
lines_of-set_lines name m count [] h = absurd (ground (arith, h))
lines_of-set_lines name m count (t ∷ ts) h = elim (Bool-cases (str_eq t.tag_name name)) [
  | inl e ↦ rw (e) (
      subst
        (λ n. (if str_eq t.tag_name m then some count else lines_of m ts) ≡ (
          if str_eq n m
          then some count
          else (if str_eq t.tag_name m then some t.lines else lines_of m ts)))
        ((str_eq_iff t.tag_name name).0 e)
        (elim (Bool-cases (str_eq t.tag_name m)) [ inl u ↦ rw (u) refl | inr u ↦ rw (u) refl ]))
  | inr e ↦
      let later : has_tag name ts ≡ true = ground (arith, h, e) in
      rw (e) (
        rw (lines_of-set_lines name m count ts later) (elim (Bool-cases (str_eq t.tag_name m)) [
          | inl u ↦ rw (u) (rw (other name t.tag_name m e u) refl)
          | inr u ↦ rw (u) refl
        ]))
]
  where
    other :
        (name tag m : List ℕ)
        → str_eq tag name ≡ false
        → str_eq tag m ≡ true
        → str_eq name m ≡ false
    other name tag m e u =
        str_eq-sym name m ∙ subst (λ k. str_eq k name ≡ false) ((str_eq_iff tag m).0 u) e

make_new-Records :
    (tags : List ModTagFile) (name : List ℕ) (size count : ℕ)
    → length name < 16
    → Records (not (size == 0)) name count tags (make_new tags name size count).tags
unfolding make_new lines_of
make_new-Records tags name size count short m =
    let whole : ltb (length name) 16 ≡ true = ground (arith, short) in
    elim (Bool-cases (size == 0)) [ inl e ↦ rw (e) refl | inr e ↦ rw (e) (rw (whole) refl) ]

write_tag-Records :
    (tags : List ModTagFile) (name : List ℕ) (size count : ℕ)
    → length name < 16
    → Records (not (size == 0)) name count tags (write_tag tags name size count).tags
unfolding write_tag
write_tag-Records tags name size count short m = elim (Bool-cases (has_tag name tags)) [
  | inr e ↦ rw (e) (make_new-Records tags name size count short m)
  | inl e ↦ rw (e) (elim (Bool-cases (size == 0)) [
    | inl z ↦ rw (z) refl
    | inr z ↦ rw (z) (lines_of-set_lines name m count tags e)
  ])
]

make_new-helped :
    (tags : List ModTagFile) (name : List ℕ) (size count : ℕ)
    → (make_new tags name size count).helped ≡ false
unfolding make_new
make_new-helped tags name size count = ground arith

write_tag-helped :
    (tags : List ModTagFile) (name : List ℕ) (size count : ℕ)
    → (write_tag tags name size count).helped ≡ false
unfolding write_tag make_new
write_tag-helped tags name size count = ground arith

-- What a call that is not refused for its type does.
abbrev Obeys : Bool → ℕ → List ℕ → ℕ → List ModTagFile → Modified → Type 0
Obeys writes size name count tags r =
    (r.helped ≡ false) × Records (writes && not (size == 0)) name count tags r.tags

by_action-Obeys :
    {action : List ℕ} {writes : Bool} (tags : List ModTagFile) (name : List ℕ) (size count : ℕ)
    → Action action writes
    → length name < 16
    → Obeys writes size name count tags (by_action (first action) tags name size count)
unfolding by_action
by_action-Obeys tags name size count create short =
    (make_new-helped tags name size count, make_new-Records tags name size count short)
by_action-Obeys tags name size count modify short =
    (write_tag-helped tags name size count, write_tag-Records tags name size count short)
by_action-Obeys tags name size count commit short = (refl, λ m. refl)
by_action-Obeys tags name size count existed short = (refl, λ m. refl)

known_type :
    {type : List ℕ} → ObjType type → (find_type (first type) 0 obj_type_chars == bdt_max) ≡ false
unfolding find_type
known_type root_fix = refl
known_type vocabulary = refl
known_type vocabulary_group = refl
known_type grammar = refl

-- A call of cmd_modify that its help shows is refused, with the usage, exactly if it has no type, which
-- the help calls optional; the tags stay then. With a type, an action n or w whose file is not empty records the
-- file's lines for the tag that is named, be it new or not, and no other tag's lines change; any
-- other call changes none. The name has fewer than 16 characters.
pub cmd_modify_lem :
    (tags : List ModTagFile) (av : List (List ℕ)) (name : List ℕ) (has_type writes : Bool)
    (size count : ℕ)
    → Documented av name has_type writes
    → length name < 16
    → ((cmd_modify tags av size count).helped ≡ not has_type)
      × ((m : List ℕ)
          → lines_of m (cmd_modify tags av size count).tags
            ≡ recorded (has_type && (writes && not (size == 0))) name count tags m)
unfolding cmd_modify
cmd_modify_lem tags av name has_type writes size count (untyped n a c k) short = (refl, λ m. refl)
cmd_modify_lem tags av name has_type writes size count (typed n a t c k l) short =
    rw (known_type l) (by_action-Obeys tags c size count k short)
