-- ===== src/Enums/Types.antt =====
-- The enum tables of inc/glue.h and inc/glue_eng.h, but for the long one of the upper wrappers.
use leitner.Common.{ℕ, ◌+◌, ◌*◌, ◌^◌, List, [], ◌∷◌}
use leitner.Enums.Factory.{Item, xx, xx_at}

-- `BUSINESS_DATA_TYPES`.
abbrev pub business_data_types : List Item
business_data_types =
    xx "BDT_PT" 409
    ∷ xx "BDT_PG" 396
    ∷ xx "BDT_RF" 447
    ∷ xx "BDT_V" 21
    ∷ xx "BDT_G" 6
    ∷ xx "BDT_S" 18
    ∷ xx "BDT_BDTMAX" 13594383
    ∷ []

-- `WRAPPER_TYPES`.
abbrev pub wrapper_types : List Item
wrapper_types = xx "WT_UW" 542 ∷ xx "WT_MW" 334 ∷ xx "WT_TW" 516 ∷ xx "WT_WTMAX" 10395551 ∷ []

-- `PHONTRANS_TS_TYPES`.
abbrev pub phontrans_ts_types : List Item
phontrans_ts_types =
    xx "TS_PT_VOWEL" 9857547 ∷ xx "TS_PT_CONSONANT" 30401449 ∷ xx "TS_PT_PTMAX" 7196719 ∷ []

-- `PHONOGRAMS_TS_TYPES`.
abbrev pub phonograms_ts_types : List Item
phonograms_ts_types =
    xx "TS_PG_SINGLE_BASIC" 217753410
    ∷ xx "TS_PG_MULTI_BASIC" 151922421
    ∷ xx "TS_PG_TSADVANCED" 233974286
    ∷ xx "TS_PG_PGMAX" 6968231
    ∷ []

-- `ROOTFIXES_TS_TYPES`.
abbrev pub rootfixes_ts_types : List Item
rootfixes_ts_types =
    xx "TS_RF_ROOT" 308639
    ∷ xx "TS_RF_PREFIX" 186063147
    ∷ xx "TS_RF_SUFFIX" 223095779
    ∷ xx "TS_RF_RFMAX" 7864607
    ∷ []

-- `VOCABULARY_TS_TYPES`.
abbrev pub vocabulary_ts_types : List Item
vocabulary_ts_types =
    xx "TS_V_PEOPLE" 180305038
    ∷ xx "TS_V_DESCRIBING_PEOPLE" 37790202
    ∷ xx "TS_V_TSFEELINGS_EMOTIONS" 234062411
    ∷ xx "TS_V_HUMAN_BODY" 92520403
    ∷ xx "TS_V_ABOUT_HEALTH" 717061
    ∷ xx "TS_V_AROUND_THE_HOUSE" 8028517
    ∷ xx "TS_V_FOOD_DRINK" 66052731
    ∷ xx "TS_V_LEISURE_TIME" 132676353
    ∷ xx "TS_V_SPORT" 8499133
    ∷ xx "TS_V_THE_MEDIA" 229023499
    ∷ xx "TS_V_TECHNOLOGY" 227614284
    ∷ xx "TS_V_MONEY_MATTERS" 149206004
    ∷ xx "TS_V_TRAVEL_TRANSPORT" 233529047
    ∷ xx "TS_V_EDUCATION_WORK" 49249323
    ∷ xx "TS_V_SOCIETY" 220303115
    ∷ xx "TS_V_OUR_WORLD" 175792829
    ∷ xx "TS_V_ABSTRACT_CONCEPTS" 786630
    ∷ xx "TS_V_VMAX" 377231
    ∷ []

-- `GRAMMAR_TS_TYPES`.
abbrev pub grammar_ts_types : List Item
grammar_ts_types =
    xx "TS_G_VOCABULARY" 255941758 ∷ xx "TS_G_SENTENCE" 215934121 ∷ xx "TS_G_GMAX" 113591 ∷ []

-- `SENTENCE_TS_TYPES`.
abbrev pub sentence_ts_types : List Item
sentence_ts_types = xx "TS_S_ALL" 297 ∷ xx "TS_S_SMAX" 324503 ∷ []

-- The enumerators that the table of the glue node types is made with.
abbrev pub bdt_pt : ℕ
bdt_pt = 0

abbrev pub bdt_pg : ℕ
bdt_pg = 1

abbrev pub bdt_rf : ℕ
bdt_rf = 2

abbrev pub bdt_v : ℕ
bdt_v = 3

abbrev pub bdt_g : ℕ
bdt_g = 4

abbrev pub bdt_s : ℕ
bdt_s = 5

abbrev pub wt_uw : ℕ
wt_uw = 0

abbrev pub wt_mw : ℕ
wt_mw = 1

-- `GBM_WT_SIZE` of inc/glue.h.
abbrev pub gbm_wt_size : ℕ
gbm_wt_size = 2

-- `bdt<<GBM_WT_SIZE+wt`: the sum binds tighter than the shift.
abbrev pub glt_base : ℕ → ℕ → ℕ
glt_base bdt wt = bdt * 2 ^ (gbm_wt_size + wt)

-- `GLUE_LH_NODE_TYPES`.
abbrev pub glue_lh_node_types : List Item
glue_lh_node_types =
    xx_at "GLT_UW_PTRANS" (glt_base bdt_pt wt_uw) 247957918
    ∷ xx "GLT_MW_PTRANS" 152906910
    ∷ xx "GLT_TW_PTRANS" 236076542
    ∷ xx_at "GLT_UW_PGRAMS" (glt_base bdt_pg wt_uw) 247949130
    ∷ xx "GLT_MW_PGRAMS" 152898122
    ∷ xx "GLT_TW_PGRAMS" 236067754
    ∷ xx_at "GLT_UW_RFIX" (glt_base bdt_rf wt_uw) 247983395
    ∷ xx "GLT_MW_RFIX" 152932387
    ∷ xx "GLT_TW_RFIX" 236102019
    ∷ xx_at "GLT_UW_VOCA" (glt_base bdt_v wt_uw) 248059604
    ∷ xx "GLT_MW_VOCA" 153008596
    ∷ xx "GLT_TW_VOCA" 236178228
    ∷ xx_at "GLT_UW_GRAM" (glt_base bdt_g wt_uw) 247797952
    ∷ xx "GLT_MW_GRAM" 152746944
    ∷ xx "GLT_TW_GRAM" 235916576
    ∷ xx_at "GLT_MW_SENTENCE" (glt_base bdt_s wt_mw) 152949413
    ∷ xx "GLT_GLTMAX" 7196719
    ∷ []
