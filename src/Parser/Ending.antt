-- ===== src/Parser/Ending.antt =====
-- `parse_ltd` of src/parser.c: how long it runs.
use leitner.Common.{
  ℕ, zero, suc, ◌+◌, ◌*◌, ◌<◌, ◌≡◌, ◌≢◌, refl, sym, arith, Bool, true, false, inl, inr,
}
use leitner.Common.{List, [], ◌∷◌, length, update}
use mathlib.Core.Path.{subst}
use leitner.Parser.Keywords.{
  Keyword, keyword_info, lookup_keyword, KwordFlags, no_func, section, option, no_flags,
}
use leitner.Parser.Ltd.{
  ParseContext, ParseContextNode, Parsed, parsed, parse_error, null_call, no_argument, no_fuel,
  Section, made, none_made,
}
use leitner.Parser.Ltd.{
  bad_name, called_null, missing, call_func, parse_new_section, end_line, after_line, after_token,
  parse_loop, parse_ltd,
}
use leitner.Parser.Lexer.{Token, t_eof, t_text, t_newline, t_contline, Lexer}
use leitner.Parser.Lexer.{}
use leitner.Parser.Lexer.{next_token}
use leitner.Parser.Left.{left, Leaves, Leaves-mono, next_token-Leaves}

-- A line neither runs out of fuel nor moves in the text.
Keeps : Lexer → Parsed → Type 0
Keeps lexer (parsed state) = state.lexer ≡ lexer
Keeps lexer parse_error = Unit
Keeps lexer null_call = Unit
Keeps lexer no_argument = Unit
Keeps lexer no_fuel = ⊥

module _ (isalpha : ℕ → Bool) where
  parse_new_section-Keeps :
      (state : ParseContext) (kw : Keyword) (args : List (List ℕ))
      → Keeps state.lexer (parse_new_section isalpha state kw args)
  unfolding parse_new_section Keeps
  parse_new_section-Keeps state kw args = by_section (call_func isalpha (keyword_info kw).func args)
    where
      by_section :
          (r : Section)
          → Keeps state.lexer (elim r [
            | called_null ↦ null_call
            | missing ↦ no_argument
            | bad_name ↦ parse_error
            | made ↦ parsed (record state {
              cur_level = (keyword_info kw).level;
              pcn =
                  update state.pcn
                    (keyword_info kw).level
                    (record { context = true; parse_line = (keyword_info kw).line_func });
            })
            | none_made ↦ parsed (record state {
              pcn =
                  update state.pcn
                    (keyword_info kw).level
                    (record { context = false; parse_line = no_func });
            })
          ])
      by_section called_null = tt
      by_section missing = tt
      by_section bad_name = tt
      by_section made = refl
      by_section none_made = refl

  module _ (beyond : ℕ → ℕ) where
    end_line-Keeps :
        (state : ParseContext) (args : List (List ℕ))
        → Keeps state.lexer (end_line isalpha beyond state args)
    unfolding end_line Keeps
    end_line-Keeps state [] = refl
    end_line-Keeps state (arg ∷ args) = by_flags (keyword_info (lookup_keyword beyond arg)).flags
      where
        by_flags :
            (f : KwordFlags)
            → Keeps state.lexer (elim f [
              | section ↦ parse_new_section isalpha state (lookup_keyword beyond arg) (arg ∷ args)
              | option ↦ parsed state
              | no_flags ↦ parsed state
            ])
        by_flags section = parse_new_section-Keeps state (lookup_keyword beyond arg) (arg ∷ args)
        by_flags option = refl
        by_flags no_flags = refl

    after_line-ends :
        (again : ParseContext → Parsed) (lexer : Lexer) (r : Parsed)
        → Keeps lexer r
        → ((state : ParseContext) → state.lexer ≡ lexer → again state ≢ no_fuel)
        → after_line isalpha beyond again r ≢ no_fuel
    unfolding after_line Keeps
    after_line-ends again lexer (parsed state) k go = go state k
    after_line-ends again lexer parse_error k go = λ e. ground (arith, e)
    after_line-ends again lexer null_call k go = λ e. ground (arith, e)
    after_line-ends again lexer no_argument k go = λ e. ground (arith, e)
    after_line-ends again lexer no_fuel k go = absurd k

    after_token-ends :
        (again : ParseContext → List (List ℕ) → Parsed) (fuel : ℕ)
        → ((state : ParseContext) (args : List (List ℕ))
            → left state.lexer < fuel
            → again state args ≢ no_fuel)
        → (state : ParseContext) (args : List (List ℕ)) (r : Token × Lexer) → Leaves fuel r
        → after_token isalpha beyond again state args r ≢ no_fuel
    unfolding after_token
    after_token-ends again fuel go state args (t_eof, lexer) l = λ e. ground (arith, e)
    after_token-ends again fuel go state args (t_text, lexer) (inl e) = absurd (ground (arith, e))
    after_token-ends again fuel go state args (t_text, lexer) (inr l) = go _ _ l
    after_token-ends again fuel go state args (t_contline, lexer) (inl e) =
        absurd (ground (arith, e))
    after_token-ends again fuel go state args (t_contline, lexer) (inr l) = go _ _ l
    after_token-ends again fuel go state args (t_newline, lexer) (inl e) =
        absurd (ground (arith, e))
    after_token-ends again fuel go state args (t_newline, lexer) (inr l) =
        after_line-ends (λ state'. again state' []) (record lexer { line = lexer.line + 1 }) _
          (end_line-Keeps (record state { lexer = record lexer { line = lexer.line + 1 } }) args)
          (λ state' e. go state' [] (subst (λ x. left x < fuel) (sym e) l))

    parse_loop-ends :
        (fuel : ℕ) (state : ParseContext) (args : List (List ℕ))
        → left state.lexer < fuel
        → parse_loop isalpha beyond fuel state args ≢ no_fuel
    unfolding parse_loop
    parse_loop-ends zero state args h = absurd (omega arith)
    parse_loop-ends (suc fuel) state args h =
        after_token-ends (parse_loop isalpha beyond fuel) fuel (parse_loop-ends fuel) state args
          (next_token state.lexer)
          (Leaves-mono (left state.lexer) fuel (next_token state.lexer) (omega (arith, h))
            (next_token-Leaves state.lexer))

    -- The parse of a text ends: fuel of more than two rounds for each character is enough.
    pub parse_ltd-ends :
        (pcn_3 : ParseContextNode) (brace_cnt : ℕ) (termed : Bool) (s : List ℕ) (fuel : ℕ)
        → 2 * length s < fuel
        → parse_ltd isalpha beyond fuel pcn_3 brace_cnt termed s ≢ no_fuel
    unfolding parse_ltd
    parse_ltd-ends pcn_3 brace_cnt termed s fuel h = parse_loop-ends fuel _ [] (omega (arith, h))
