-- ===== src/Enums/GlueInfo.antt =====
-- `gi_eng` of src/glue_eng.c as C fills it: of two designated entries at one place the later one stays.
use leitner.Common.{
  ℕ, zero, suc, ◌≡◌, refl, sym, ap, ◌∙◌, ◌==◌, ==_iff, ==_self, if◌then◌else◌, Bool, Bool-cases,
  true, false, not, ◌&&◌, ◌||◌,
}
use leitner.Common.{◌⊎◌, inl, inr, List, [], ◌∷◌, Option, none, some, get_or, get_elem?, arith}
use mathlib.Core.Path.{subst}
use leitner.Enums.Offsets.{glof}
use leitner.Enums.Entries.{
  GlueInfoEntry, Designated, glit_lhead_1ton, uw_rfix_entries, mw_rfix_entries, tw_rfix_entries,
}
use leitner.Enums.Entries.{
  uw_voca_entries, mw_voca_entries, tw_voca_entries, uw_gram_entries, mw_gram_entries,
  tw_gram_entries, mw_sentence_entries,
}

-- The glue node types `GLT_*` of inc/glue_eng.h.
pub data GltType : Type 0 where
  glt_uw_ptrans : GltType
  glt_mw_ptrans : GltType
  glt_tw_ptrans : GltType
  glt_uw_pgrams : GltType
  glt_mw_pgrams : GltType
  glt_tw_pgrams : GltType
  glt_uw_rfix : GltType
  glt_mw_rfix : GltType
  glt_tw_rfix : GltType
  glt_uw_voca : GltType
  glt_mw_voca : GltType
  glt_tw_voca : GltType
  glt_uw_gram : GltType
  glt_mw_gram : GltType
  glt_tw_gram : GltType
  glt_mw_sentence : GltType

-- What src/glue_eng.c writes for a type.
abbrev pub entries : GltType → List Designated
entries glt_uw_ptrans = []
entries glt_mw_ptrans = []
entries glt_tw_ptrans = []
entries glt_uw_pgrams = []
entries glt_mw_pgrams = []
entries glt_tw_pgrams = []
entries glt_uw_rfix = uw_rfix_entries
entries glt_mw_rfix = mw_rfix_entries
entries glt_tw_rfix = tw_rfix_entries
entries glt_uw_voca = uw_voca_entries
entries glt_mw_voca = mw_voca_entries
entries glt_tw_voca = tw_voca_entries
entries glt_uw_gram = uw_gram_entries
entries glt_mw_gram = mw_gram_entries
entries glt_tw_gram = tw_gram_entries
entries glt_mw_sentence = mw_sentence_entries

-- The entry at `o`, if one is designated there.
abbrev pub later_or : Option GlueInfoEntry → Designated → ℕ → Option GlueInfoEntry
later_or none d o = if glof d.at == o then some d.entry else none
later_or (some e) d o = some e

unfoldable pub designated : List Designated → ℕ → Option GlueInfoEntry
designated [] o = none
designated (d ∷ ds) o = later_or (designated ds o) d o

-- `gi_eng[t].gie_tbl[o]`: what is not designated is all zeros.
unfoldable pub gi_eng : GltType → ℕ → GlueInfoEntry
gi_eng t o =
    get_or (designated (entries t) o)
      (record { head_nr = 0; node_nr = 0; gli_type = glit_lhead_1ton; desc = none })

-- A later entry of the list stands at the number `o`.
unfoldable pub is_taken : ℕ → List Designated → Bool
is_taken o [] = false
is_taken o (d ∷ ds) = glof d.at == o || is_taken o ds

-- The `i`th entry of a list is overridden by a later one.
unfoldable pub is_overridden : List Designated → ℕ → Bool
is_overridden [] i = false
is_overridden (d ∷ ds) zero = is_taken (glof d.at) ds
is_overridden (d ∷ ds) (suc i) = is_overridden ds i

not_taken : (o : ℕ) (ds : List Designated) → is_taken o ds ≡ false → designated ds o ≡ none
unfolding is_taken designated
not_taken o [] h = refl
not_taken o (d ∷ ds) h = rw (not_taken o ds (ground (arith, h)), not_here) refl
  where
    not_here : (glof d.at == o) ≡ false
    not_here = ground (arith, h)

kept :
    (ds : List Designated) (i : ℕ) (d : Designated)
    → is_overridden ds i ≡ false
    → get_elem? ds i ≡ some d
    → designated ds (glof d.at) ≡ some d.entry
unfolding is_overridden designated
kept [] i d h e = ground arith
kept (c ∷ ds) zero d h e =
    subst (λ b. designated (c ∷ ds) (glof b.at) ≡ some b.entry) (ap (λ o. get_or o c) e)
      (rw (not_taken (glof c.at) ds h, ==_self (glof c.at)) refl)
kept (c ∷ ds) (suc i) d h e = rw (kept ds i d h e) refl

-- No entry of the list is overridden.
none_overridden : List Designated → Bool
none_overridden [] = true
none_overridden (d ∷ ds) = not (is_taken (glof d.at) ds) && none_overridden ds

none_overridden_lem :
    (ds : List Designated) (i : ℕ) → none_overridden ds ≡ true → is_overridden ds i ≡ false
unfolding none_overridden is_overridden
none_overridden_lem [] i h = refl
none_overridden_lem (d ∷ ds) zero h = ground (arith, h)
none_overridden_lem (d ∷ ds) (suc i) h = none_overridden_lem ds i (ground (arith, h))

-- Every entry of the list is written at its own head number.
all_at_head : List Designated → Bool
all_at_head [] = true
all_at_head (d ∷ ds) = glof d.at == d.entry.head_nr && all_at_head ds

all_at_head_lem :
    (ds : List Designated) (o : ℕ) (e : GlueInfoEntry)
    → all_at_head ds ≡ true
    → designated ds o ≡ some e
    → e.head_nr ≡ o
unfolding all_at_head designated
all_at_head_lem [] o e h q = ground arith
all_at_head_lem (d ∷ ds) o e h q =
    split (designated ds o) (glof d.at == o) refl (all_at_head_lem ds o e (ground (arith, h))) q
  where
    own : glof d.at ≡ d.entry.head_nr
    own = (==_iff _ _).0 (ground (arith, h))

    split :
        (r : Option GlueInfoEntry) (b : Bool)
        → (glof d.at == o) ≡ b
        → (r ≡ some e → e.head_nr ≡ o)
        → later_or r d o ≡ some e
        → e.head_nr ≡ o
    split (some f) b p next q' = next q'
    split none true p next q' =
        ap (λ r. (get_or r e).head_nr)
          (sym (sym (ap (λ c. if c then some d.entry else none) p) ∙ q'))
        ∙ sym own
        ∙ (==_iff (glof d.at) o).0 p
    split none false p next q' = next (sym (ap (λ c. if c then some d.entry else none) p) ∙ q')

-- An entry that is designated at an offset has that offset as its head number.
pub designated-head_nr :
    (t : GltType) (o : ℕ) (e : GlueInfoEntry) → designated (entries t) o ≡ some e → e.head_nr ≡ o
unfolding all_at_head
designated-head_nr glt_uw_ptrans o e = all_at_head_lem (entries glt_uw_ptrans) o e refl
designated-head_nr glt_mw_ptrans o e = all_at_head_lem (entries glt_mw_ptrans) o e refl
designated-head_nr glt_tw_ptrans o e = all_at_head_lem (entries glt_tw_ptrans) o e refl
designated-head_nr glt_uw_pgrams o e = all_at_head_lem (entries glt_uw_pgrams) o e refl
designated-head_nr glt_mw_pgrams o e = all_at_head_lem (entries glt_mw_pgrams) o e refl
designated-head_nr glt_tw_pgrams o e = all_at_head_lem (entries glt_tw_pgrams) o e refl
designated-head_nr glt_uw_rfix o e = all_at_head_lem (entries glt_uw_rfix) o e refl
designated-head_nr glt_mw_rfix o e = all_at_head_lem (entries glt_mw_rfix) o e refl
designated-head_nr glt_tw_rfix o e = all_at_head_lem (entries glt_tw_rfix) o e refl
designated-head_nr glt_uw_voca o e = all_at_head_lem (entries glt_uw_voca) o e refl
designated-head_nr glt_mw_voca o e = all_at_head_lem (entries glt_mw_voca) o e refl
designated-head_nr glt_tw_voca o e = all_at_head_lem (entries glt_tw_voca) o e refl
designated-head_nr glt_uw_gram o e = all_at_head_lem (entries glt_uw_gram) o e refl
designated-head_nr glt_mw_gram o e = all_at_head_lem (entries glt_mw_gram) o e refl
designated-head_nr glt_tw_gram o e = all_at_head_lem (entries glt_tw_gram) o e refl
designated-head_nr glt_mw_sentence o e = all_at_head_lem (entries glt_mw_sentence) o e refl

-- In the table of the words only the entry for the meanings, written fifth, is overridden.
overridden_voca : (i : ℕ) → is_overridden (entries glt_mw_voca) i ≡ true → i ≡ 4
unfolding is_overridden is_taken
overridden_voca zero h = ground arith
overridden_voca (suc zero) h = ground arith
overridden_voca (suc (suc zero)) h = ground arith
overridden_voca (suc (suc (suc zero))) h = ground arith
overridden_voca (suc (suc (suc (suc zero)))) h = refl
overridden_voca (suc (suc (suc (suc (suc zero))))) h = ground arith
overridden_voca (suc (suc (suc (suc (suc (suc zero)))))) h = ground arith
overridden_voca (suc (suc (suc (suc (suc (suc (suc zero))))))) h = ground arith
overridden_voca (suc (suc (suc (suc (suc (suc (suc (suc zero)))))))) h = ground arith
overridden_voca (suc (suc (suc (suc (suc (suc (suc (suc (suc i))))))))) h = ground arith

not_overridden :
    (t : GltType)
    → none_overridden (entries t) ≡ true
    → (i : ℕ) → is_overridden (entries t) i ≡ true
    → (t ≡ glt_mw_voca) × (i ≡ 4)
not_overridden t h i e = absurd (ground (arith, e, none_overridden_lem (entries t) i h))

only_voca : (t : GltType) (i : ℕ) → is_overridden (entries t) i ≡ true → (t ≡ glt_mw_voca) × (i ≡ 4)
unfolding none_overridden is_taken
only_voca glt_uw_ptrans i e = not_overridden glt_uw_ptrans refl i e
only_voca glt_mw_ptrans i e = not_overridden glt_mw_ptrans refl i e
only_voca glt_tw_ptrans i e = not_overridden glt_tw_ptrans refl i e
only_voca glt_uw_pgrams i e = not_overridden glt_uw_pgrams refl i e
only_voca glt_mw_pgrams i e = not_overridden glt_mw_pgrams refl i e
only_voca glt_tw_pgrams i e = not_overridden glt_tw_pgrams refl i e
only_voca glt_uw_rfix i e = not_overridden glt_uw_rfix refl i e
only_voca glt_mw_rfix i e = not_overridden glt_mw_rfix refl i e
only_voca glt_tw_rfix i e = not_overridden glt_tw_rfix refl i e
only_voca glt_uw_voca i e = not_overridden glt_uw_voca refl i e
only_voca glt_mw_voca i e = (refl, overridden_voca i e)
only_voca glt_tw_voca i e = not_overridden glt_tw_voca refl i e
only_voca glt_uw_gram i e = not_overridden glt_uw_gram refl i e
only_voca glt_mw_gram i e = not_overridden glt_mw_gram refl i e
only_voca glt_tw_gram i e = not_overridden glt_tw_gram refl i e
only_voca glt_mw_sentence i e = not_overridden glt_mw_sentence refl i e

-- `gi_eng` has at the place of each entry that is written for a type this entry, but for the fifth one
-- of `GLT_MW_VOCA`, the meanings of a word: at its place stands the eighth one, the grammar points.
pub gi_eng_lem :
    (t : GltType) (i : ℕ) (d : Designated)
    → get_elem? (entries t) i ≡ some d
    → (gi_eng t (glof d.at) ≡ d.entry)
      ⊎ ((t ≡ glt_mw_voca)
          × (i ≡ 4)
          × ((c : Designated) × (get_elem? (entries glt_mw_voca) 7 ≡ some c)
              × (glof c.at ≡ 4)
              × (gi_eng glt_mw_voca 4 ≡ c.entry)))
unfolding gi_eng designated
gi_eng_lem t i d e = elim (Bool-cases (is_overridden (entries t) i)) [
  | inl over ↦
      let only = only_voca t i over in
      inr (only.0, only.1, (get_or (get_elem? (entries glt_mw_voca) 7) d, refl, refl, refl))
  | inr free ↦ inl (rw (kept (entries t) i d free e) refl)
]
