-- ===== src/Parser/Keywords.antt =====
-- inc/keywords.h, with `keyword_info` and `lookup_keyword` of src/parser.c.
use leitner.Common.{ℕ, suc, ◌==◌, if◌then◌else◌, List, codes, get_elem?, get_or, ◌≡◌, ◌≢◌, refl}

pub data Keyword : Type 0 where
  k_unknown k_enum k_rfx k_voc k_vgrp k_gram k_vs k_item k_sitem k_rfref k_vref k_vgref k_gref :
      Keyword

pub data KwordFlags : Type 0 where
  no_flags section option : KwordFlags

-- The functions that `keyword_info` points to; `no_func` is the null pointer.
pub data KwordFunc : Type 0 where
  no_func parse_rfx parse_voc parse_vgrp parse_gram parse_vs parse_item parse_sitem : KwordFunc

-- `struct kword`. The line functions do nothing, and are named by the function of their section.
pub record Kword : Type 0 where
  pub name : List ℕ
  pub len : ℕ
  pub flags : KwordFlags
  pub level : ℕ
  pub nargs : ℕ
  pub func : KwordFunc
  pub line_func : KwordFunc

abbrev pub kword : List ℕ → ℕ → KwordFlags → ℕ → ℕ → KwordFunc → Kword
kword name len flags level nargs func = record {
  name = name;
  len = len;
  flags = flags;
  level = level;
  nargs = suc nargs;
  func = func;
  line_func = func;
}

abbrev pub keyword_info : Keyword → Kword
keyword_info k_unknown = record {
  name = codes "UNKNOWN";
  len = 0;
  flags = no_flags;
  level = 0;
  nargs = 0;
  func = no_func;
  line_func = no_func;
}
keyword_info k_enum = kword (codes "ENUM") 4 section 0 0 no_func
keyword_info k_rfx = kword (codes "RFX") 3 section 1 0 parse_rfx
keyword_info k_voc = kword (codes "VOC") 3 section 1 0 parse_voc
keyword_info k_vgrp = kword (codes "VGRP") 4 section 1 0 parse_vgrp
keyword_info k_gram = kword (codes "GRAM") 4 section 1 0 parse_gram
keyword_info k_vs = kword (codes "VS") 2 section 1 0 parse_vs
keyword_info k_item = kword (codes "ITEM") 4 section 2 0 parse_item
keyword_info k_sitem = kword (codes "SITEM") 5 section 3 0 parse_sitem
keyword_info k_rfref = kword (codes "RFREF") 5 option 0 0 no_func
keyword_info k_vref = kword (codes "VREF") 4 option 0 0 no_func
keyword_info k_vgref = kword (codes "VGREF") 5 option 0 0 no_func
keyword_info k_gref = kword (codes "GREF") 4 option 0 0 no_func

-- The character at an index. Behind the end the source reads the closing NUL and, one further, what
-- stands there; `beyond` is that.
abbrev pub char_at : (ℕ → ℕ) → List ℕ → ℕ → ℕ
char_at beyond s i = get_or (get_elem? s i) (beyond i)

-- The second switch, for what begins with a V.
unfoldable pub lookup_v : (ℕ → ℕ) → List ℕ → Keyword
lookup_v beyond s =
    let c = char_at beyond s 1 in
    if c == b'O'
    then k_voc
    else if c == b'G'
    then (if char_at beyond s 3 == b'P' then k_vgrp else k_vgref)
    else if c == b'S'
    then k_vs
    else if c == b'R'
    then k_vref
    else k_unknown

unfoldable pub lookup_keyword : (ℕ → ℕ) → List ℕ → Keyword
lookup_keyword beyond s =
    let c = char_at beyond s 0 in
    if c == b'E'
    then k_enum
    else if c == b'G'
    then (if char_at beyond s 2 == b'A' then k_gram else k_gref)
    else if c == b'I'
    then k_item
    else if c == b'S'
    then k_sitem
    else if c == b'R'
    then (if char_at beyond s 2 == b'X' then k_rfx else k_rfref)
    else if c == b'V'
    then lookup_v beyond s
    else k_unknown

-- The name of each keyword is looked up as that keyword, whatever stands in memory behind it.
pub lookup_keyword-name :
    (beyond : ℕ → ℕ) (k : Keyword) → k ≢ k_unknown → lookup_keyword beyond (keyword_info k).name ≡ k
unfolding lookup_keyword lookup_v
lookup_keyword-name beyond k_unknown ne = absurd (ne refl)
lookup_keyword-name beyond k_enum ne = refl
lookup_keyword-name beyond k_rfx ne = refl
lookup_keyword-name beyond k_voc ne = refl
lookup_keyword-name beyond k_vgrp ne = refl
lookup_keyword-name beyond k_gram ne = refl
lookup_keyword-name beyond k_vs ne = refl
lookup_keyword-name beyond k_item ne = refl
lookup_keyword-name beyond k_sitem ne = refl
lookup_keyword-name beyond k_rfref ne = refl
lookup_keyword-name beyond k_vref ne = refl
lookup_keyword-name beyond k_vgref ne = refl
lookup_keyword-name beyond k_gref ne = refl
