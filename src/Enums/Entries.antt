-- ===== src/Enums/Entries.antt =====
-- The entries of `gi_eng` in src/glue_eng.c, one list for each glue node type.
use leitner.Common.{ℕ, List, [], ◌∷◌, codes, Option, none, some}
use leitner.Enums.Offsets.{Glof, glof}
use leitner.Enums.Offsets.{
  mw_rfix_type_lhead, mw_rfix_type_lnode, tw_rfix_usage_lhead, mw_rfix_instance_lhead,
}
use leitner.Enums.Offsets.{
  mw_voca_rtincluded_lnode, tw_rfix_usage_lnode, mw_rfix_usage_instance_lhead,
  tw_voca_usage_rtincluded_lnode,
}
use leitner.Enums.Offsets.{
  mw_voca_catewords_lhead, mw_voca_cate_lnode, mw_voca_basewords_lnode, uw_voca_cate_lhead,
}
use leitner.Enums.Offsets.{
  sw_voca_examplev_lhead, mw_voca_basewords_lhead, tw_voca_meaningusage_lhead,
  mw_rfix_instance_lnode,
}
use leitner.Enums.Offsets.{
  mw_voca_rtincluded_lhead, uw_voca_catewords_lnode, tw_voca_meaningusage_lnode,
}
use leitner.Enums.Offsets.{tw_voca_dummy1, sw_voca_examplevusage_lhead, tw_voca_wordsallg_lhead}
use leitner.Enums.Offsets.{
  mw_rfix_usage_instance_lnode, tw_voca_usage_rtincluded_lhead, mw_gram_gtype_lhead,
}
use leitner.Enums.Offsets.{
  uw_gram_gtype_lnode, tw_gram_gusage_lhead, mw_gram_exampleg_lhead, mw_sent_gused_lnode,
}
use leitner.Enums.Offsets.{
  mw_gram_gusage_lnode, tw_gram_vwords_lhead, mw_gram_exampleusage_lhead, tw_voca_wordsallg_lnode,
}
use leitner.Enums.Offsets.{
  tw_sent_gusedusage_lnode, mw_sent_vused_lhead, tw_sent_vusedusage_lhead, mw_voca_examplev_lnode,
}
use leitner.Enums.Offsets.{mw_sent_gused_lhead, tw_sent_gusedusage_lhead, mw_gram_exampleg_lnode}
use leitner.Enums.Offsets.{mw_gram_exampleusage_lnode}

-- `GLIT_*` of inc/glue.h.
pub data Glit : Type 0 where
  glit_lhead_1ton : Glit
  glit_lhead_mton : Glit
  glit_lnode : Glit
  glit_lnode_top_backpt : Glit
  glit_lnode_bottom_backpt : Glit
  glit_dummy : Glit

-- `struct glue_info_entry`.
pub record GlueInfoEntry : Type 0 where
  pub head_nr : ℕ
  pub node_nr : ℕ
  pub gli_type : Glit
  pub desc : Option (List ℕ)

-- A designated entry `[at] = { head, node, type, desc }`.
pub record Designated : Type 0 where
  pub at : Glof
  pub entry : GlueInfoEntry

abbrev pub designate : Glof → Glof → Glof → Glit → Option (List ℕ) → Designated
designate at head node type desc = record {
  at = at;
  entry = record { head_nr = glof head; node_nr = glof node; gli_type = type; desc = desc };
}

abbrev pub uw_rfix_entries : List Designated
uw_rfix_entries =
    designate mw_rfix_type_lhead mw_rfix_type_lhead mw_rfix_type_lnode glit_lhead_1ton
      (some (codes "All Roots or Fixes of this type:"))
    ∷ []

abbrev pub mw_rfix_entries : List Designated
mw_rfix_entries =
    designate mw_rfix_type_lnode mw_rfix_type_lnode mw_rfix_type_lhead glit_lnode_top_backpt
      (some (codes "The type of this Root or Fix:"))
    ∷ designate tw_rfix_usage_lhead tw_rfix_usage_lhead tw_rfix_usage_lnode glit_lhead_1ton
        (some (codes "All usage rules of this Root or Fix:"))
    ∷ designate mw_rfix_instance_lhead mw_rfix_instance_lhead mw_voca_rtincluded_lhead
        glit_lhead_mton (some (codes "All usage instances of this Root or Fix:"))
    ∷ designate mw_voca_rtincluded_lnode mw_voca_rtincluded_lnode mw_voca_rtincluded_lhead
        glit_lnode none
    ∷ []

abbrev pub tw_rfix_entries : List Designated
tw_rfix_entries =
    designate tw_rfix_usage_lnode tw_rfix_usage_lnode tw_rfix_usage_lhead glit_lnode_top_backpt
      (some (codes "The Root or Fix of this usage rule:"))
    ∷ designate mw_rfix_usage_instance_lhead mw_rfix_usage_instance_lhead
        mw_rfix_usage_instance_lnode glit_lhead_mton
        (some (codes "All vocab examples of this Roots/Fixes usage instance:"))
    ∷ designate tw_voca_usage_rtincluded_lnode tw_voca_usage_rtincluded_lnode
        tw_voca_usage_rtincluded_lhead glit_lnode none
    ∷ []

abbrev pub uw_voca_entries : List Designated
uw_voca_entries =
    designate mw_voca_catewords_lhead mw_voca_catewords_lhead uw_voca_catewords_lnode
      glit_lhead_1ton (some (codes "All vocas of this category:"))
    ∷ designate mw_voca_cate_lnode mw_voca_cate_lnode uw_voca_cate_lhead glit_lnode none
    ∷ []

abbrev pub mw_voca_entries : List Designated
mw_voca_entries =
    designate mw_voca_basewords_lnode mw_voca_basewords_lnode mw_voca_basewords_lhead
      glit_lnode_top_backpt (some (codes "The base word of this vocabulay:"))
    ∷ designate uw_voca_cate_lhead uw_voca_cate_lhead mw_voca_cate_lnode glit_lhead_1ton
        (some (codes "All categories of this vocabulary:"))
    ∷ designate sw_voca_examplev_lhead sw_voca_examplev_lhead mw_voca_examplev_lnode glit_lhead_1ton
        (some (codes "All example sentences of this vocabulay:"))
    ∷ designate mw_voca_basewords_lhead mw_voca_basewords_lhead mw_voca_basewords_lnode
        glit_lhead_1ton (some (codes "All derivative words of this base word:"))
    ∷ designate tw_voca_meaningusage_lhead tw_voca_meaningusage_lhead tw_voca_meaningusage_lnode
        glit_lhead_1ton (some (codes "All meaning or usage info of this vocabulary:"))
    ∷ designate mw_rfix_instance_lnode mw_rfix_instance_lnode mw_rfix_instance_lhead glit_lnode none
    ∷ designate mw_voca_rtincluded_lhead mw_voca_rtincluded_lhead mw_voca_rtincluded_lnode
        glit_lhead_1ton (some (codes "All roots/fixes included in this vocabulary:"))
    ∷ designate tw_voca_wordsallg_lhead tw_voca_wordsallg_lhead tw_voca_wordsallg_lnode
        glit_lhead_1ton (some (codes "All grammar points of this vocabulary:"))
    ∷ designate uw_voca_catewords_lnode uw_voca_catewords_lnode mw_voca_catewords_lhead glit_lnode
        none
    ∷ []

abbrev pub tw_voca_entries : List Designated
tw_voca_entries =
    designate tw_voca_meaningusage_lnode tw_voca_meaningusage_lnode tw_voca_meaningusage_lhead
      glit_lnode_top_backpt (some (codes "The vocabulary of this meaning or usage:"))
    ∷ designate tw_voca_dummy1 tw_voca_dummy1 tw_voca_dummy1 glit_dummy (some (codes "Dummy:"))
    ∷ designate sw_voca_examplevusage_lhead sw_voca_examplevusage_lhead tw_sent_vusedusage_lhead
        glit_lhead_mton (some (codes "All sent examples of this usage instance of this vocab:"))
    ∷ designate mw_rfix_usage_instance_lnode mw_rfix_usage_instance_lnode
        mw_rfix_usage_instance_lhead glit_lnode none
    ∷ designate tw_voca_usage_rtincluded_lhead tw_voca_usage_rtincluded_lhead
        tw_voca_usage_rtincluded_lnode glit_lhead_1ton
        (some (codes "All Roots/Fixes usage rules in this vocabulary:"))
    ∷ []

abbrev pub uw_gram_entries : List Designated
uw_gram_entries =
    designate mw_gram_gtype_lhead mw_gram_gtype_lhead uw_gram_gtype_lnode glit_lhead_1ton
      (some (codes "All grammar sub-classes of this big type:"))
    ∷ []

abbrev pub mw_gram_entries : List Designated
mw_gram_entries =
    designate uw_gram_gtype_lnode uw_gram_gtype_lnode mw_gram_gtype_lhead glit_lnode_top_backpt
      (some (codes "The grammar big type of this sub-class:"))
    ∷ designate tw_gram_gusage_lhead tw_gram_gusage_lhead mw_gram_gusage_lnode glit_lhead_1ton
        (some (codes "All small grammar usage points in this sub-class:"))
    ∷ designate mw_gram_exampleg_lhead mw_gram_exampleg_lhead mw_gram_exampleg_lnode glit_lhead_1ton
        (some (codes "All sentence examples for this grammar sub-class:"))
    ∷ designate mw_sent_gused_lnode mw_sent_gused_lnode mw_sent_gused_lhead glit_lnode
        (some (codes "NULL"))
    ∷ []

abbrev pub tw_gram_entries : List Designated
tw_gram_entries =
    designate mw_gram_gusage_lnode mw_gram_gusage_lnode tw_gram_gusage_lhead glit_lnode_top_backpt
      (some (codes "The grammar sub-class of this small usage point:"))
    ∷ designate tw_gram_vwords_lhead tw_gram_vwords_lhead tw_voca_wordsallg_lhead glit_lhead_mton
        (some (codes "All vocabularies this grammar point controls:"))
    ∷ designate mw_gram_exampleusage_lhead mw_gram_exampleusage_lhead mw_gram_exampleusage_lnode
        glit_lhead_1ton (some (codes "All sent examples of this grammar point:"))
    ∷ designate tw_voca_wordsallg_lnode tw_voca_wordsallg_lnode tw_voca_wordsallg_lhead glit_lnode
        none
    ∷ designate tw_sent_gusedusage_lnode tw_sent_gusedusage_lnode tw_sent_gusedusage_lhead
        glit_lnode none
    ∷ []

abbrev pub mw_sentence_entries : List Designated
mw_sentence_entries =
    designate mw_sent_vused_lhead mw_sent_vused_lhead sw_voca_examplev_lhead glit_lhead_mton
      (some (codes "All key vocabularies used in this sentence:"))
    ∷ designate tw_sent_vusedusage_lhead tw_sent_vusedusage_lhead sw_voca_examplevusage_lhead
        glit_lhead_mton (some (codes "All vocab detail usage info in this sentence:"))
    ∷ designate mw_voca_examplev_lnode mw_voca_examplev_lnode sw_voca_examplev_lhead glit_lnode none
    ∷ designate mw_sent_gused_lhead mw_sent_gused_lhead mw_sent_gused_lnode glit_lhead_mton
        (some (codes "All grammar sub-classes used in this sentence:"))
    ∷ designate tw_sent_gusedusage_lhead tw_sent_gusedusage_lhead tw_sent_gusedusage_lnode
        glit_lhead_1ton (some (codes "All grammar points used in this sentence:"))
    ∷ designate mw_gram_exampleg_lnode mw_gram_exampleg_lnode mw_gram_exampleg_lhead glit_lnode none
    ∷ designate mw_gram_exampleusage_lnode mw_gram_exampleusage_lnode mw_gram_exampleusage_lhead
        glit_lhead_1ton (some (codes "All sent examples of this grammar point:"))
    ∷ []
