-- ===== src/Enums/Uw.antt =====
-- The enum table of the upper wrappers, `UW_TYPES` of inc/glue_eng.h.
use leitner.Common.{List, [], ◌∷◌}
use leitner.Enums.Factory.{Item, xx}

-- `UW_TYPES`.
abbrev pub uw_types : List Item
uw_types =
    xx "UW_PT_VOWEL_SUMMARY" 256296240
    ∷ xx "UW_PT_FRONT_VOWEL" 67430839
    ∷ xx "UW_PT_CNETRAL_VOWEL" 29787030
    ∷ xx "UW_PT_BACK_VOWEL" 11923848
    ∷ xx "UW_PT_HIGH_VOWEL" 86936188
    ∷ xx "UW_PT_MID_VOWEL" 146299630
    ∷ xx "UW_PT_LOW_VOWEL" 137494054
    ∷ xx "UW_PT_LAX_VOWEL" 131113966
    ∷ xx "UW_PT_TENSE_VOWEL" 227814829
    ∷ xx "UW_PT_PURE_VOWEL" 187662216
    ∷ xx "UW_PT_DIPHTHONG" 39568809
    ∷ xx "UW_PT_RCOLOR_VOWEL" 203151225
    ∷ xx "UW_PT_CONS_SUMMARY" 30401560
    ∷ xx "UW_PT_BILABIAL_CONS" 15730554
    ∷ xx "UW_PT_LABIO_DENTAL_CONS" 130718487
    ∷ xx "UW_PT_DENTAL_CONS" 37713375
    ∷ xx "UW_PT_ALVEOLAR_CONS" 5398911
    ∷ xx "UW_PT_POST_ALVEOLAR_CONS" 184947527
    ∷ xx "UW_PT_PALATO_ALVEOLAR_CONS" 178414484
    ∷ xx "UW_PT_PALATAL_CONS" 178414470
    ∷ xx "UW_PT_VELAR_CONS" 251530580
    ∷ xx "UW_PT_GLOTTAL_CONS" 76574394
    ∷ xx "UW_PT_PLOSIVE_CONS" 183505837
    ∷ xx "UW_PT_FRICATIVE_CONS" 67317451
    ∷ xx "UW_PT_AFFRICATE_CONS" 2384462
    ∷ xx "UW_PT_NASAL_CONS" 154774544
    ∷ xx "UW_PT_APPROX_CONS" 7130159
    ∷ xx "UW_PT_TAP_CONS" 226011513
    ∷ xx "UW_PT_GLIDE_CONS" 76457734
    ∷ xx "UW_PG_BASIC_SIGNLE" 12203222
    ∷ xx "UW_PG_BASIC_MULTI" 12203216
    ∷ xx "UW_PG_UWADVANCED" 247683566
    ∷ xx "UW_RF_DUMB_ROOT" 44995692
    ∷ xx "UW_RF_DUMB_PF" 44995631
    ∷ xx "UW_RF_NOUN_SF" 161216333
    ∷ xx "UW_RF_VERB_SF" 251636741
    ∷ xx "UW_RF_ADJ_SF" 59285
    ∷ xx "UW_RF_ADV_SF" 67397
    ∷ xx "UW_VV_AGE" 160
    ∷ xx "UW_VV_LIFE_STAGES" 134442015
    ∷ xx "UW_VV_BABIES_CHILDREN" 11904482
    ∷ xx "UW_VV_DEATH" 1441733
    ∷ xx "UW_VV_FAMILY" 59623510
    ∷ xx "UW_VV_FRIENDS" 67319125
    ∷ xx "UW_VV_LOVE_ROMANCE" 137465056
    ∷ xx "UW_VV_MARRIAGE" 142887004
    ∷ xx "UW_VV_GENERAL_APPEARANCE" 73347794
    ∷ xx "UW_VV_CLOTHES" 29048582
    ∷ xx "UW_VV_TALKING_ABOUT_CLOTHES" 225946461
    ∷ xx "UW_VV_CHARACTER_DESCRIBING" 26973078
    ∷ xx "UW_VV_ADJECTIVES_TO_DESCRIB_PEOPLE" 1531887
    ∷ xx "UW_VV_UWFEELINGS_EMOTIONS" 247771691
    ∷ xx "UW_VV_HAPPY_SAD" 83444054
    ∷ xx "UW_VV_GETTING_ANGRY" 73463169
    ∷ xx "UW_VV_LIKING_DISLIKING" 134532456
    ∷ xx "UW_VV_HEAD_FACE" 84999694
    ∷ xx "UW_VV_HAIR_FACE" 83321862
    ∷ xx "UW_VV_BODY_PARTS" 18348382
    ∷ xx "UW_VV_BODY_MOVEMENTS" 18348318
    ∷ xx "UW_VV_THE_SENSES" 229027565
    ∷ xx "UW_VV_FEELING_ILL" 61312745
    ∷ xx "UW_VV_INJURIES" 101163850
    ∷ xx "UW_VV_AT_THE_DOCTORS" 9021327
    ∷ xx "UW_VV_IN_HOSPITAL" 101124675
    ∷ xx "UW_VV_HEALTHY_LIFESTYLE" 85005473
    ∷ xx "UW_VV_HOUSE_HOMES" 89931095
    ∷ xx "UW_VV_LIVING_ROOM" 134725792
    ∷ xx "UW_VV_KITHEN" 122808361
    ∷ xx "UW_VV_BEDROOM_BATHROOM" 13773878
    ∷ xx "UW_VV_JOBS_AROUND_HOUSE" 113359809
    ∷ xx "UW_VV_PROBLEMS_AROUND_HOUSE" 186236262
    ∷ xx "UW_VV_MEAT_FISH_GROCERIES" 144417398
    ∷ xx "UW_VV_FRUTI_VEGETABLES" 67540065
    ∷ xx "UW_VV_FOOD_IN_TALKING" 66052857
    ∷ xx "UW_VV_COOKING" 30413461
    ∷ xx "UW_VV_EATING_OUT" 47865200
    ∷ xx "UW_VV_DRINKS" 43562394
    ∷ xx "UW_VV_FREE_TIME_IN_TALKING" 67248982
    ∷ xx "UW_VV_HOBBIES_INTERESTS" 89585760
    ∷ xx "UW_VV_ACTIVITIES_INTERESTS" 1253858
    ∷ xx "UW_VV_SPECIAL_OCCASIONS" 220791272
    ∷ xx "UW_VV_FILM_CINEMA" 63264196
    ∷ xx "UW_VV_BOOKS_ART" 18532332
    ∷ xx "UW_VV_MUSIC" 5847610
    ∷ xx "UW_VV_BALL" 17873
    ∷ xx "UW_VV_FOOTBALL" 66063478
    ∷ xx "UW_VV_OTHER_SPORTS" 175148004
    ∷ xx "UW_VV_RESULT_SCORES" 204141489
    ∷ xx "UW_VV_TELEVISION" 227770642
    ∷ xx "UW_VV_NEWSPAPERS" 156685022
    ∷ xx "UW_VV_ADVERTISING" 1743189
    ∷ xx "UW_VV_TELEPHONES" 227770485
    ∷ xx "UW_VV_COMPUTERS" 30382007
    ∷ xx "UW_VV_MACHINE_EQUIPMENT" 142616617
    ∷ xx "UW_VV_MONEY" 5738692
    ∷ xx "UW_VV_RICH_POOR" 205679488
    ∷ xx "UW_VV_AT_THE_BANK" 9021325
    ∷ xx "UW_VV_SHOPS_SHOPPING" 217320290
    ∷ xx "UW_VV_HOLIDAYS" 89766118
    ∷ xx "UW_VV_BEACH_HOLIDAYS" 13710821
    ∷ xx "UW_VV_TRANSPORTS_FORMS" 233524007
    ∷ xx "UW_VV_CARS" 35612
    ∷ xx "UW_VV_DRIVING" 43567745
    ∷ xx "UW_VV_PUBLIC_TRANSPORTS" 187385382
    ∷ xx "UW_VV_SCHOOL" 214911591
    ∷ xx "UW_VV_FURTHER_EDUCATION" 68858222
    ∷ xx "UW_VV_LANGUAGE_LEARNING" 130928200
    ∷ xx "UW_VV_JOBS" 167692
    ∷ xx "UW_VV_EMPLOYMENT" 53280680
    ∷ xx "UW_VV_WORKING_LIFE" 268093709
    ∷ xx "UW_VV_IN_THE_OFFICE" 101330490
    ∷ xx "UW_VV_BUSINESS" 21343014
    ∷ xx "UW_VV_CRIME_PUNISHMENT" 31680183
    ∷ xx "UW_VV_SERIOUS_CRIME" 215997256
    ∷ xx "UW_VV_THEFT_DRUGS_OTHERCRIME" 229019157
    ∷ xx "UW_VV_POLITICS" 184817550
    ∷ xx "UW_VV_RELIGION" 204010204
    ∷ xx "UW_VV_SOCIAL_ISSUES" 220303003
    ∷ xx "UW_VV_ENVIRONMENT" 53841152
    ∷ xx "UW_VV_NATURAL_WORLD" 154805794
    ∷ xx "UW_VV_SCIENCE" 214922372
    ∷ xx "UW_VV_MATERIALS" 142913610
    ∷ xx "UW_VV_HISTORY" 87155033
    ∷ xx "UW_VV_COUNTRIES_NATIONALITIES" 30521235
    ∷ xx "UW_VV_WEATHER" 263231206
    ∷ xx "UW_VV_DISASTERS" 39616791
    ∷ xx "UW_VV_WILD_ANIMALS" 265241457
    ∷ xx "UW_VV_DOMESTIC_FARM_ANIMALS" 42255895
    ∷ xx "UW_VV_ANIMALS_IN_TALKING" 6089419
    ∷ xx "UW_VV_TOWNS_CITIES" 232539738
    ∷ xx "UW_VV_TIME" 339668
    ∷ xx "UW_VV_NUMBERS" 163809117
    ∷ xx "UW_VV_SIMILARITY_DIFFERENCE" 217737182
    ∷ xx "UW_VV_THOUGHTS_IDEAS" 229204723
    ∷ xx "UW_VV_SIZE_SHAPE" 217963155
    ∷ xx "UW_VV_DISTANCE_SPEED" 39629161
    ∷ xx "UW_VV_QUANTITIES" 199250826
    ∷ xx "UW_XX_MAX" 8135
    ∷ []
