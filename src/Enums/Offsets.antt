-- ===== src/Enums/Offsets.antt =====
-- The offset enumerators `GLOF_*` of inc/glue_eng.h: one anonymous enum for each glue node type.
use leitner.Common.{ℕ}

pub data Glof : Type 0 where
  mw_phontrans_type_lhead : Glof
  uw_phontrans_type_lnode : Glof
  tw_phontrans_tusage_lhead : Glof
  mw_phontrans_tusage_lnode : Glof
  mw_phonogram_type_lhead : Glof
  uw_phonogram_type_lnode : Glof
  tw_phonogram_tusage_lhead : Glof
  mw_phonogram_tusage_lnode : Glof
  mw_rfix_type_lhead : Glof
  mw_rfix_type_lnode : Glof
  tw_rfix_usage_lhead : Glof
  mw_rfix_instance_lhead : Glof
  mw_voca_rtincluded_lnode : Glof
  tw_rfix_usage_lnode : Glof
  mw_rfix_usage_instance_lhead : Glof
  tw_voca_usage_rtincluded_lnode : Glof
  mw_voca_catewords_lhead : Glof
  mw_voca_cate_lnode : Glof
  mw_voca_basewords_lnode : Glof
  uw_voca_cate_lhead : Glof
  sw_voca_examplev_lhead : Glof
  mw_voca_basewords_lhead : Glof
  tw_voca_meaningusage_lhead : Glof
  mw_rfix_instance_lnode : Glof
  mw_voca_rtincluded_lhead : Glof
  uw_voca_catewords_lnode : Glof
  mw_sent_vused_lnode : Glof
  tw_voca_meaningusage_lnode : Glof
  tw_voca_dummy1 : Glof
  sw_voca_examplevusage_lhead : Glof
  tw_gram_vwords_lnode : Glof
  tw_voca_wordsallg_lhead : Glof
  tw_sent_vusedusage_lnode : Glof
  mw_rfix_usage_instance_lnode : Glof
  tw_voca_usage_rtincluded_lhead : Glof
  mw_gram_gtype_lhead : Glof
  uw_gram_gtype_lnode : Glof
  tw_gram_gusage_lhead : Glof
  mw_gram_exampleg_lhead : Glof
  mw_sent_gused_lnode : Glof
  mw_gram_gusage_lnode : Glof
  tw_gram_vwords_lhead : Glof
  mw_gram_exampleusage_lhead : Glof
  tw_voca_wordsallg_lnode : Glof
  tw_sent_gusedusage_lnode : Glof
  mw_sent_vused_lhead : Glof
  tw_sent_vusedusage_lhead : Glof
  mw_voca_examplev_lnode : Glof
  sw_voca_examplevusage_lnode : Glof
  mw_sent_gused_lhead : Glof
  tw_sent_gusedusage_lhead : Glof
  mw_gram_exampleg_lnode : Glof
  mw_gram_exampleusage_lnode : Glof

-- The number of an enumerator: its place in its own enum.
abbrev pub glof : Glof → ℕ
glof mw_phontrans_type_lhead = 0
glof uw_phontrans_type_lnode = 0
glof tw_phontrans_tusage_lhead = 1
glof mw_phontrans_tusage_lnode = 0
glof mw_phonogram_type_lhead = 0
glof uw_phonogram_type_lnode = 0
glof tw_phonogram_tusage_lhead = 1
glof mw_phonogram_tusage_lnode = 0
glof mw_rfix_type_lhead = 0
glof mw_rfix_type_lnode = 0
glof tw_rfix_usage_lhead = 1
glof mw_rfix_instance_lhead = 2
glof mw_voca_rtincluded_lnode = 3
glof tw_rfix_usage_lnode = 0
glof mw_rfix_usage_instance_lhead = 1
glof tw_voca_usage_rtincluded_lnode = 2
glof mw_voca_catewords_lhead = 0
glof mw_voca_cate_lnode = 1
glof mw_voca_basewords_lnode = 0
glof uw_voca_cate_lhead = 1
glof sw_voca_examplev_lhead = 2
glof mw_voca_basewords_lhead = 3
glof tw_voca_meaningusage_lhead = 4
glof mw_rfix_instance_lnode = 5
glof mw_voca_rtincluded_lhead = 6
glof uw_voca_catewords_lnode = 7
glof mw_sent_vused_lnode = 8
glof tw_voca_meaningusage_lnode = 0
glof tw_voca_dummy1 = 1
glof sw_voca_examplevusage_lhead = 2
glof tw_gram_vwords_lnode = 3
glof tw_voca_wordsallg_lhead = 4
glof tw_sent_vusedusage_lnode = 5
glof mw_rfix_usage_instance_lnode = 6
glof tw_voca_usage_rtincluded_lhead = 7
glof mw_gram_gtype_lhead = 0
glof uw_gram_gtype_lnode = 0
glof tw_gram_gusage_lhead = 1
glof mw_gram_exampleg_lhead = 2
glof mw_sent_gused_lnode = 3
glof mw_gram_gusage_lnode = 0
glof tw_gram_vwords_lhead = 1
glof mw_gram_exampleusage_lhead = 2
glof tw_voca_wordsallg_lnode = 3
glof tw_sent_gusedusage_lnode = 4
glof mw_sent_vused_lhead = 0
glof tw_sent_vusedusage_lhead = 1
glof mw_voca_examplev_lnode = 2
glof sw_voca_examplevusage_lnode = 3
glof mw_sent_gused_lhead = 4
glof tw_sent_gusedusage_lhead = 5
glof mw_gram_exampleg_lnode = 6
glof mw_gram_exampleusage_lnode = 7
