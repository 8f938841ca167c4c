-- ===== src/Enums/Tests.antt =====
-- The enum tables at concrete names.
use leitner.Common.{ℕ, ◌≡◌, ◌⊎◌, ◌≢◌, refl, ap, arith, List, none, some, codes, get_elem?, get_or}
use leitner.Util.Hash.{str_hash, hash_loop}
use leitner.Enums.Factory.{get_string, get_value, case_string, case_hash, enum_hash_arg}
use leitner.Enums.Lookup.{
  vocabulary_ts_types_t, glue_lh_node_types_t, string_of, value_of, gltmax, IsNamed, enum_def,
}
use leitner.Enums.Tables.{value_of-string_of, value_of-IsNamed}
use leitner.Enums.Offsets.{mw_rfix_usage_instance_lhead, glof}
use leitner.Enums.Entries.{Designated, GlueInfoEntry, glit_lhead_mton}
use leitner.Enums.GlueInfo.{
  glt_mw_voca, glt_tw_rfix, gi_eng, gi_eng_lem, designated, designated-head_nr, entries,
}

abbrev money : List ℕ
money = codes "TS_V_MONEY_MATTERS"

money-ne : money ≢ gltmax
money-ne e = ground (arith, ap (λ s. get_or (get_elem? s 0) 0) e)

value_of-string_of_example : value_of vocabulary_ts_types_t money ≡ some 11
unfolding get_string case_string
value_of-string_of_example = value_of-string_of vocabulary_ts_types_t 11 money money-ne refl

-- Only the first six letters behind the prefix count.
money_number :
    IsNamed 5
      (enum_def vocabulary_ts_types_t)
      11
      (str_hash (codes "TS_V_MONEY_MATRESS") (enum_hash_arg 5))
unfolding get_string case_string get_value case_hash str_hash hash_loop
money_number =
    value_of-IsNamed vocabulary_ts_types_t 11 (codes "TS_V_MONEY_MATRESS")
      (λ e. money-ne (ap (λ o. get_or o money) e)) refl

-- The last name of the glue node types is found by no hash.
gltmax_lost : value_of glue_lh_node_types_t gltmax ≡ none
unfolding get_value case_hash str_hash hash_loop
gltmax_lost = refl

gltmax_number : string_of glue_lh_node_types_t 41 ≡ some gltmax
unfolding get_string case_string
gltmax_number = refl

abbrev usage : GlueInfoEntry
usage = record {
  head_nr = 1;
  node_nr = 6;
  gli_type = glit_lhead_mton;
  desc = some (codes "All vocab examples of this Roots/Fixes usage instance:");
}

usage_head_nr : usage.head_nr ≡ 1
unfolding designated
usage_head_nr = designated-head_nr glt_tw_rfix 1 usage refl

abbrev instance_head : Designated
instance_head = record { at = mw_rfix_usage_instance_lhead; entry = usage }

head_placed :
    (gi_eng glt_tw_rfix (glof instance_head.at) ≡ instance_head.entry)
    ⊎ ((glt_tw_rfix ≡ glt_mw_voca)
        × (◌≡◌ {A = ℕ} 1 4)
        × ((c : Designated) × (get_elem? (entries glt_mw_voca) 7 ≡ some c)
            × (glof c.at ≡ 4)
            × (gi_eng glt_mw_voca 4 ≡ c.entry)))
head_placed = gi_eng_lem glt_tw_rfix 1 instance_head refl
