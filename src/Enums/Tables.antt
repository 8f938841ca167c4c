-- ===== src/Enums/Tables.antt =====
-- The two lookups in each enum table of inc/glue.h and inc/glue_eng.h.
use leitner.Common.{ℕ, ◌≡◌, refl, true, ◌≢◌, List}
use leitner.Common.{some, str_eq}
use leitner.Util.Hash.{str_hash, hash_loop}
use leitner.Enums.Factory.{enum_hash_arg, case_string, case_hash, get_string, get_value}
use leitner.Enums.Types.{
  business_data_types, wrapper_types, phontrans_ts_types, phonograms_ts_types,
}
use leitner.Enums.Types.{
  rootfixes_ts_types, vocabulary_ts_types, grammar_ts_types, sentence_ts_types,
}
use leitner.Enums.Types.{glue_lh_node_types}
use leitner.Enums.Uw.{uw_types}
use leitner.Enums.Lookup.{
  EnumType, business_data_types_t, wrapper_types_t, phontrans_ts_types_t, phonograms_ts_types_t,
}
use leitner.Enums.Lookup.{
  rootfixes_ts_types_t, vocabulary_ts_types_t, grammar_ts_types_t, sentence_ts_types_t,
}
use leitner.Enums.Lookup.{
  uw_types_t, glue_lh_node_types_t, enum_def, ignore_chcnt, string_of, value_of, gltmax,
}
use leitner.Enums.Lookup.{
  is_some, all_found, case_string-found, is_name, all_named, case_hash-IsNamed, IsNamed,
}

business_data_types_found : all_found 4 business_data_types 0 business_data_types ≡ true
unfolding all_found is_some get_value case_hash str_hash hash_loop str_eq
business_data_types_found = refl

wrapper_types_found : all_found 3 wrapper_types 0 wrapper_types ≡ true
unfolding all_found is_some get_value case_hash str_hash hash_loop str_eq
wrapper_types_found = refl

phontrans_ts_types_found : all_found 6 phontrans_ts_types 0 phontrans_ts_types ≡ true
unfolding all_found is_some get_value case_hash str_hash hash_loop str_eq
phontrans_ts_types_found = refl

phonograms_ts_types_found : all_found 6 phonograms_ts_types 0 phonograms_ts_types ≡ true
unfolding all_found is_some get_value case_hash str_hash hash_loop str_eq
phonograms_ts_types_found = refl

rootfixes_ts_types_found : all_found 6 rootfixes_ts_types 0 rootfixes_ts_types ≡ true
unfolding all_found is_some get_value case_hash str_hash hash_loop str_eq
rootfixes_ts_types_found = refl

vocabulary_ts_types_found : all_found 5 vocabulary_ts_types 0 vocabulary_ts_types ≡ true
unfolding all_found is_some get_value case_hash str_hash hash_loop str_eq
vocabulary_ts_types_found = refl

grammar_ts_types_found : all_found 5 grammar_ts_types 0 grammar_ts_types ≡ true
unfolding all_found is_some get_value case_hash str_hash hash_loop str_eq
grammar_ts_types_found = refl

sentence_ts_types_found : all_found 5 sentence_ts_types 0 sentence_ts_types ≡ true
unfolding all_found is_some get_value case_hash str_hash hash_loop str_eq
sentence_ts_types_found = refl

uw_types_found : all_found 6 uw_types 0 uw_types ≡ true
unfolding all_found is_some get_value case_hash str_hash hash_loop str_eq
uw_types_found = refl

glue_lh_node_types_found : all_found 4 glue_lh_node_types 0 glue_lh_node_types ≡ true
unfolding all_found is_some get_value case_hash str_hash hash_loop str_eq
glue_lh_node_types_found = refl

business_data_types_named : all_named 4 business_data_types 0 business_data_types ≡ true
unfolding all_named is_name get_string case_string str_hash hash_loop str_eq
business_data_types_named = refl

wrapper_types_named : all_named 3 wrapper_types 0 wrapper_types ≡ true
unfolding all_named is_name get_string case_string str_hash hash_loop str_eq
wrapper_types_named = refl

phontrans_ts_types_named : all_named 6 phontrans_ts_types 0 phontrans_ts_types ≡ true
unfolding all_named is_name get_string case_string str_hash hash_loop str_eq
phontrans_ts_types_named = refl

phonograms_ts_types_named : all_named 6 phonograms_ts_types 0 phonograms_ts_types ≡ true
unfolding all_named is_name get_string case_string str_hash hash_loop str_eq
phonograms_ts_types_named = refl

rootfixes_ts_types_named : all_named 6 rootfixes_ts_types 0 rootfixes_ts_types ≡ true
unfolding all_named is_name get_string case_string str_hash hash_loop str_eq
rootfixes_ts_types_named = refl

vocabulary_ts_types_named : all_named 5 vocabulary_ts_types 0 vocabulary_ts_types ≡ true
unfolding all_named is_name get_string case_string str_hash hash_loop str_eq
vocabulary_ts_types_named = refl

grammar_ts_types_named : all_named 5 grammar_ts_types 0 grammar_ts_types ≡ true
unfolding all_named is_name get_string case_string str_hash hash_loop str_eq
grammar_ts_types_named = refl

sentence_ts_types_named : all_named 5 sentence_ts_types 0 sentence_ts_types ≡ true
unfolding all_named is_name get_string case_string str_hash hash_loop str_eq
sentence_ts_types_named = refl

uw_types_named : all_named 6 uw_types 0 uw_types ≡ true
unfolding all_named is_name get_string case_string str_hash hash_loop str_eq
uw_types_named = refl

glue_lh_node_types_named : all_named 4 glue_lh_node_types 0 glue_lh_node_types ≡ true
unfolding all_named is_name get_string case_string str_hash hash_loop str_eq
glue_lh_node_types_named = refl

-- In each table the string of a number is found again as that number, but for `GLT_GLTMAX`.
pub value_of-string_of :
    (t : EnumType) (v : ℕ) (s : List ℕ)
    → s ≢ gltmax
    → string_of t v ≡ some s
    → value_of t s ≡ some v
unfolding get_string
value_of-string_of business_data_types_t v s ne =
    case_string-found 4 business_data_types 0 business_data_types v s ne business_data_types_found
value_of-string_of wrapper_types_t v s ne =
    case_string-found 3 wrapper_types 0 wrapper_types v s ne wrapper_types_found
value_of-string_of phontrans_ts_types_t v s ne =
    case_string-found 6 phontrans_ts_types 0 phontrans_ts_types v s ne phontrans_ts_types_found
value_of-string_of phonograms_ts_types_t v s ne =
    case_string-found 6 phonograms_ts_types 0 phonograms_ts_types v s ne phonograms_ts_types_found
value_of-string_of rootfixes_ts_types_t v s ne =
    case_string-found 6 rootfixes_ts_types 0 rootfixes_ts_types v s ne rootfixes_ts_types_found
value_of-string_of vocabulary_ts_types_t v s ne =
    case_string-found 5 vocabulary_ts_types 0 vocabulary_ts_types v s ne vocabulary_ts_types_found
value_of-string_of grammar_ts_types_t v s ne =
    case_string-found 5 grammar_ts_types 0 grammar_ts_types v s ne grammar_ts_types_found
value_of-string_of sentence_ts_types_t v s ne =
    case_string-found 5 sentence_ts_types 0 sentence_ts_types v s ne sentence_ts_types_found
value_of-string_of uw_types_t v s ne = case_string-found 6 uw_types 0 uw_types v s ne uw_types_found
value_of-string_of glue_lh_node_types_t v s ne =
    case_string-found 4 glue_lh_node_types 0 glue_lh_node_types v s ne glue_lh_node_types_found

-- In each table a number that is found for a string is the number of a name with the string's hash,
-- but for the number of `GLT_GLTMAX`.
pub value_of-IsNamed :
    (t : EnumType) (v : ℕ) (str : List ℕ)
    → string_of t v ≢ some gltmax
    → value_of t str ≡ some v
    → IsNamed (ignore_chcnt t) (enum_def t) v (str_hash str (enum_hash_arg (ignore_chcnt t)))
unfolding get_value
value_of-IsNamed business_data_types_t v str ne =
    case_hash-IsNamed 4 business_data_types 0 business_data_types v _ ne business_data_types_named
value_of-IsNamed wrapper_types_t v str ne =
    case_hash-IsNamed 3 wrapper_types 0 wrapper_types v _ ne wrapper_types_named
value_of-IsNamed phontrans_ts_types_t v str ne =
    case_hash-IsNamed 6 phontrans_ts_types 0 phontrans_ts_types v _ ne phontrans_ts_types_named
value_of-IsNamed phonograms_ts_types_t v str ne =
    case_hash-IsNamed 6 phonograms_ts_types 0 phonograms_ts_types v _ ne phonograms_ts_types_named
value_of-IsNamed rootfixes_ts_types_t v str ne =
    case_hash-IsNamed 6 rootfixes_ts_types 0 rootfixes_ts_types v _ ne rootfixes_ts_types_named
value_of-IsNamed vocabulary_ts_types_t v str ne =
    case_hash-IsNamed 5 vocabulary_ts_types 0 vocabulary_ts_types v _ ne vocabulary_ts_types_named
value_of-IsNamed grammar_ts_types_t v str ne =
    case_hash-IsNamed 5 grammar_ts_types 0 grammar_ts_types v _ ne grammar_ts_types_named
value_of-IsNamed sentence_ts_types_t v str ne =
    case_hash-IsNamed 5 sentence_ts_types 0 sentence_ts_types v _ ne sentence_ts_types_named
value_of-IsNamed uw_types_t v str ne = case_hash-IsNamed 6 uw_types 0 uw_types v _ ne uw_types_named
value_of-IsNamed glue_lh_node_types_t v str ne =
    case_hash-IsNamed 4 glue_lh_node_types 0 glue_lh_node_types v _ ne glue_lh_node_types_named
