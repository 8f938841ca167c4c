-- ===== src/Parser/Tests.antt =====
-- The parser at concrete texts.
use leitner.Common.{
  ℕ, ◌≡◌, ◌≢◌, refl, arith, Bool, false, leb, ◌&&◌, ◌||◌, List, [], ◌∷◌, ◌++◌, codes,
}
use leitner.Parser.Keywords.{
  k_voc, k_unknown, lookup_keyword, lookup_keyword-name, lookup_v, no_func,
}
use leitner.Parser.Lexer.{Lexer, next_token, lex_between, lex_text, act, act_in_text}
use leitner.Parser.Lexer.{act_behind_backslash, written, do_act, text_done}
use leitner.Parser.Ltd.{
  ParseContextNode, Parsed, parsed, null_call, no_fuel, parse_ltd, parse_loop, after_token,
  after_line,
}
use leitner.Parser.Ltd.{end_line, parse_new_section, call_func, valid_name}
use leitner.Parser.Lines.{next_token-word, next_token-phrase, AllPlain, IsPhrase, AreBlank}
use leitner.Parser.Ending.{parse_ltd-ends}

abbrev zeros : ℕ → ℕ
zeros _ = 0

abbrev is_letter : ℕ → Bool
is_letter c = (leb b'a' c && leb c b'z') || (leb b'A' c && leb c b'Z')

abbrev at : List ℕ → Lexer
at s = record {
  rest = s;
  text = [];
  line = 0;
  nexttoken = false;
  brace_cnt = 0;
  line_real_termed = false;
}

voc-ne : k_voc ≢ k_unknown
voc-ne e = ground (arith, e)

voc_found : lookup_keyword zeros (codes "VOC") ≡ k_voc
voc_found = lookup_keyword-name zeros k_voc voc-ne

next_word :
    next_token (at (codes " go on")) ≡ text_done (at (codes " go on")) (codes "go") (codes "on")
unfolding AllPlain AreBlank
next_word =
    next_token-word (at (codes " go on")) b' ' (codes "on") refl (codes " ") b'g' (codes "o")
      (refl, tt) (refl, (refl, tt)) refl refl refl

next_token-phrase_example :
    next_token (at (codes "[a b] c")) ≡ text_done (at (codes "[a b] c")) (codes "a b") (codes "c")
unfolding IsPhrase AreBlank
next_token-phrase_example =
    next_token-phrase (at (codes "[a b] c")) b' ' (codes "c") refl [] b'[' (codes "a b") b']' tt
      refl (refl, (refl, (refl, tt))) refl refl refl

abbrev unset : ParseContextNode
unset = record { context = false; parse_line = no_func }

parse_ltd-ends_example : parse_ltd is_letter zeros 20 unset 0 false (codes "VOC go;") ≢ no_fuel
parse_ltd-ends_example =
    parse_ltd-ends is_letter zeros unset 0 false (codes "VOC go;") 20 (omega arith)

abbrev level_of : Parsed → ℕ
level_of (parsed s) = s.cur_level
level_of _ = 9

-- A section for a word opens level 1.
voc_section :
    level_of (parse_ltd is_letter zeros 20 unset 0 false (codes "VOC go" ++ (10 ∷ []))) ≡ 1
unfolding parse_ltd parse_loop after_token after_line next_token lex_between lex_text act
    act_in_text written do_act end_line lookup_keyword lookup_v parse_new_section call_func
    valid_name
voc_section = refl

-- Any word with an E in front calls the function that `ENUM` does not have.
enum_section : parse_ltd is_letter zeros 20 unset 0 false (codes "EXIT" ++ (10 ∷ [])) ≡ null_call
unfolding parse_ltd parse_loop after_token after_line next_token lex_between lex_text act
    act_in_text written do_act end_line lookup_keyword lookup_v parse_new_section call_func
    valid_name
enum_section = refl

-- The letter behind a backslash is written for what it stands for, and then once more.
escape_twice : (next_token (at (92 ∷ b'n' ∷ b' ' ∷ []))).1.text ≡ 10 ∷ b'n' ∷ []
unfolding next_token lex_between lex_text act act_in_text act_behind_backslash written do_act
escape_twice = refl
