-- ===== src/Enums/Lookup.antt =====
-- The enum types that src/glue_eng.c and src/glue.c define with `DEFINE_ENUM`, and their two lookups.
use leitner.Common.{
  ℕ, suc, ◌≡◌, refl, ◌==◌, ==_iff, if◌then◌else◌, Bool, true, false, ◌&&◌, ◌||◌, ◌≢◌, List, [], ◌∷◌,
}
use leitner.Common.{
  Option, none, some, get_or, str_eq, str_eq_iff, str_eq-ne, codes, length, arith, ap, sym, ◌∙◌,
}
use leitner.Util.Hash.{str_hash}
use leitner.Enums.Factory.{
  Item, enum_value, enum_hash_arg, case_string, case_hash, get_string, get_value,
}
use leitner.Enums.Types.{
  business_data_types, wrapper_types, phontrans_ts_types, phonograms_ts_types,
}
use leitner.Enums.Types.{
  rootfixes_ts_types, vocabulary_ts_types, grammar_ts_types, sentence_ts_types,
}
use leitner.Enums.Types.{glue_lh_node_types}
use leitner.Enums.Uw.{uw_types}

-- The types that are defined.
pub data EnumType : Type 0 where
  business_data_types_t : EnumType
  wrapper_types_t : EnumType
  phontrans_ts_types_t : EnumType
  phonograms_ts_types_t : EnumType
  rootfixes_ts_types_t : EnumType
  vocabulary_ts_types_t : EnumType
  grammar_ts_types_t : EnumType
  sentence_ts_types_t : EnumType
  uw_types_t : EnumType
  glue_lh_node_types_t : EnumType

-- The table of a type.
abbrev pub enum_def : EnumType → List Item
enum_def business_data_types_t = business_data_types
enum_def wrapper_types_t = wrapper_types
enum_def phontrans_ts_types_t = phontrans_ts_types
enum_def phonograms_ts_types_t = phonograms_ts_types
enum_def rootfixes_ts_types_t = rootfixes_ts_types
enum_def vocabulary_ts_types_t = vocabulary_ts_types
enum_def grammar_ts_types_t = grammar_ts_types
enum_def sentence_ts_types_t = sentence_ts_types
enum_def uw_types_t = uw_types
enum_def glue_lh_node_types_t = glue_lh_node_types

-- The length of the prefix that its names share.
abbrev pub ignore_chcnt : EnumType → ℕ
ignore_chcnt business_data_types_t = length (codes "BDT_")
ignore_chcnt wrapper_types_t = length (codes "WT_")
ignore_chcnt phontrans_ts_types_t = length (codes "TS_PT_")
ignore_chcnt phonograms_ts_types_t = length (codes "TS_PG_")
ignore_chcnt rootfixes_ts_types_t = length (codes "TS_RF_")
ignore_chcnt vocabulary_ts_types_t = length (codes "TS_V_")
ignore_chcnt grammar_ts_types_t = length (codes "TS_G_")
ignore_chcnt sentence_ts_types_t = length (codes "TS_S_")
ignore_chcnt uw_types_t = length (codes "UW_XX_")
ignore_chcnt glue_lh_node_types_t = length (codes "GLT_")

-- `get_##EnumType##_string` and `get_##EnumType##_value` of a type.
abbrev pub string_of : EnumType → ℕ → Option (List ℕ)
string_of t value = get_string (enum_def t) value

abbrev pub value_of : EnumType → List ℕ → Option ℕ
value_of t str = get_value (ignore_chcnt t) (enum_def t) str

unfoldable pub is_some : Option ℕ → ℕ → Bool
is_some none v = false
is_some (some w) v = w == v

is_some_lem : (o : Option ℕ) (v : ℕ) → is_some o v ≡ true → o ≡ some v
unfolding is_some
is_some_lem none v h = ground arith
is_some_lem (some w) v h = ap some ((==_iff w v).0 h)

-- The name whose line in inc/glue_eng.h has the hash of another.
abbrev pub gltmax : List ℕ
gltmax = codes "GLT_GLTMAX"

-- Every name of a table but that one is found again by its hash.
unfoldable pub all_found : ℕ → List Item → ℕ → List Item → Bool
all_found ignore table next [] = true
all_found ignore table next (item ∷ items) =
    let here = enum_value item next in
    let rest = all_found ignore table (suc here) items in
    (str_eq item.name gltmax || is_some (get_value ignore table item.name) here) && rest

pub case_string-found :
    (ignore : ℕ) (table : List Item) (next : ℕ) (items : List Item) (v : ℕ) (s : List ℕ)
    → s ≢ gltmax
    → all_found ignore table next items ≡ true
    → case_string next items v ≡ some s
    → get_value ignore table s ≡ some v
unfolding all_found case_string
case_string-found ignore table next [] v s ne h e = ground arith
case_string-found ignore table next (item ∷ items) v s ne h e =
    split (case_string-found ignore table (suc here) items v s ne later) (enum_value item next == v)
      refl
  where
    here : ℕ
    here = enum_value item next

    found : str_eq item.name gltmax ≡ false → is_some (get_value ignore table item.name) here ≡ true
    found other = ground (arith, h, other)

    later : all_found ignore table (suc here) items ≡ true
    later = ground (arith, h)

    rest : Option (List ℕ)
    rest = case_string (suc here) items v

    chosen : (b : Bool) → (here == v) ≡ b → (if b then some item.name else rest) ≡ some s
    chosen b q = sym (ap (λ c. if c then some item.name else rest) q) ∙ e

    split :
        (rest ≡ some s → get_value ignore table s ≡ some v)
        → (b : Bool) → (here == v) ≡ b
        → get_value ignore table s ≡ some v
    split next_one true q =
        let same : item.name ≡ s = ap (λ o. get_or o []) (chosen true q) in
        sym (ap (get_value ignore table) same)
        ∙ is_some_lem (get_value ignore table item.name) here
            (found (str_eq-ne item.name gltmax (λ z. ne (sym same ∙ z))))
        ∙ ap some ((==_iff here v).0 q)
    split next_one false q = next_one (chosen false q)

unfoldable pub is_name : Option (List ℕ) → List ℕ → Bool
is_name none s = false
is_name (some r) s = str_eq r s

is_name_lem : (o : Option (List ℕ)) (s : List ℕ) → is_name o s ≡ true → o ≡ some s
unfolding is_name
is_name_lem none s h = ground arith
is_name_lem (some r) s h = ap some ((str_eq_iff r s).0 h)

-- `v` is the number of a name in the table that has the hash `k`.
unfoldable pub IsNamed : ℕ → List Item → ℕ → ℕ → Type 0
IsNamed ignore table v k =
    (s : List ℕ) × (get_string table v ≡ some s) × (str_hash s (enum_hash_arg ignore) ≡ k)

-- Every name of a table but that one hashes to the hash beside it, and its number is the name's again.
unfoldable pub all_named : ℕ → List Item → ℕ → List Item → Bool
all_named ignore table next [] = true
all_named ignore table next (item ∷ items) =
    let here = enum_value item next in
    let rest = all_named ignore table (suc here) items in
    (str_eq item.name gltmax || str_hash item.name (enum_hash_arg ignore) == item.hash)
    && (is_name (get_string table here) item.name && rest)

pub case_hash-IsNamed :
    (ignore : ℕ) (table : List Item) (next : ℕ) (items : List Item) (v k : ℕ)
    → get_string table v ≢ some gltmax
    → all_named ignore table next items ≡ true
    → case_hash next items k ≡ some v
    → IsNamed ignore table v k
unfolding all_named case_hash IsNamed
case_hash-IsNamed ignore table next [] v k ne h e = ground arith
case_hash-IsNamed ignore table next (item ∷ items) v k ne h e =
    split (case_hash-IsNamed ignore table (suc here) items v k ne later) (item.hash == k) refl
  where
    here : ℕ
    here = enum_value item next

    rest : Option ℕ
    rest = case_hash (suc here) items k

    hashes : str_eq item.name gltmax ≡ false → str_hash item.name (enum_hash_arg ignore) ≡ item.hash
    hashes other = (==_iff _ _).0 (ground (arith, h, other))

    named : get_string table here ≡ some item.name
    named = is_name_lem (get_string table here) item.name (ground (arith, h))

    later : all_named ignore table (suc here) items ≡ true
    later = ground (arith, h)

    chosen : (b : Bool) → (item.hash == k) ≡ b → (if b then some here else rest) ≡ some v
    chosen b q = sym (ap (λ c. if c then some here else rest) q) ∙ e

    split :
        (rest ≡ some v → IsNamed ignore table v k)
        → (b : Bool) → (item.hash == k) ≡ b
        → IsNamed ignore table v k
    split next_one true q =
        let here_named : get_string table v ≡ some item.name =
          sym (ap (λ o. get_string table (get_or o 0)) (chosen true q)) ∙ named in
        (
          item.name,
          here_named,
          hashes (str_eq-ne item.name gltmax (λ z. ne (here_named ∙ ap some z)))
              ∙ (==_iff item.hash k).0 q,
        )
    split next_one false q = next_one (chosen false q)
