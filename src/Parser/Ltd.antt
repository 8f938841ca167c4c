-- ===== src/Parser/Ltd.antt =====
-- `valid_name`, `parse_new_section` and `parse_ltd` of src/parser.c.
use leitner.Common.{
  ℕ, zero, suc, ◌+◌, ltb, ◌==◌, if◌then◌else◌, Bool, true, false, ◌&&◌, ◌||◌, List, [], ◌∷◌, ◌++◌,
}
use leitner.Common.{length, update, none, some, get_elem?}
use leitner.Parser.Keywords.{
  Keyword, section, option, no_flags, KwordFunc, no_func, parse_rfx, parse_voc,
}
use leitner.Parser.Keywords.{
  parse_vgrp, parse_gram, parse_vs, parse_item, parse_sitem, keyword_info, lookup_keyword,
}
use leitner.Parser.Lexer.{Token, t_eof, t_text, t_newline, t_contline, Lexer, next_token}

-- `struct parse_context_node`: is there a context, and which line function; `no_func` stands for
-- `parse_line_no_op`.
pub record ParseContextNode : Type 0 where
  pub context : Bool
  pub parse_line : KwordFunc

-- `struct parse_context`.
pub record ParseContext : Type 0 where
  pub lexer : Lexer
  pub cur_level : ℕ
  pub pcn : ℕ → ParseContextNode

-- How a parse ends: at the end of the text, with `parse_error`, which exits, by a call of a null
-- pointer, by a read of an argument that is not there, or without fuel.
pub data Parsed : Type 0 where
  parsed : ParseContext → Parsed
  parse_error null_call no_argument no_fuel : Parsed

abbrev pub args_max : ℕ
args_max = 12

-- What a section's function returns: whether it makes a context.
pub data Section : Type 0 where
  made none_made bad_name called_null missing : Section

module _ (isalpha : ℕ → Bool) where
  unfoldable pub valid_name : List ℕ → Bool
  valid_name [] = true
  valid_name (c ∷ cs) = (isalpha c || (c == b'_' || c == b'-')) && valid_name cs

  unfoldable pub call_func : KwordFunc → List (List ℕ) → Section
  call_func no_func args = called_null
  call_func parse_rfx args = none_made
  call_func parse_voc args = elim (get_elem? args 1) [
    | none ↦ missing
    | some name ↦ if valid_name name then made else bad_name
  ]
  call_func parse_vgrp args = none_made
  call_func parse_gram args = none_made
  call_func parse_vs args = none_made
  call_func parse_item args = none_made
  call_func parse_sitem args = none_made

  -- A section that makes a context opens its level; one that fails clears it.
  unfoldable pub parse_new_section : ParseContext → Keyword → List (List ℕ) → Parsed
  parse_new_section state kw args =
      let kwlevel = (keyword_info kw).level in
      elim (call_func (keyword_info kw).func args) [
        | called_null ↦ null_call
        | missing ↦ no_argument
        | bad_name ↦ parse_error
        | made ↦ parsed (record state {
          cur_level = kwlevel;
          pcn =
              update state.pcn kwlevel
                (record { context = true; parse_line = (keyword_info kw).line_func });
        })
        | none_made ↦ parsed (record state {
          pcn = update state.pcn kwlevel (record { context = false; parse_line = no_func });
        })
      ]

  module _ (beyond : ℕ → ℕ) where
    -- A line with arguments: only sections change the state, since the line functions do nothing.
    unfoldable pub end_line : ParseContext → List (List ℕ) → Parsed
    end_line state [] = parsed state
    end_line state (arg ∷ args) =
        let kw = lookup_keyword beyond arg in
        elim ((keyword_info kw).flags) [
          | section ↦ parse_new_section state kw (arg ∷ args)
          | option ↦ parsed state
          | no_flags ↦ parsed state
        ]

    abbrev pub with_lexer : ParseContext → Lexer → ParseContext
    with_lexer state lexer = record state { lexer = lexer }

    -- The loop goes on after a line, unless the line ends the parse.
    unfoldable pub after_line : (ParseContext → Parsed) → Parsed → Parsed
    after_line again (parsed state) = again state
    after_line again parse_error = parse_error
    after_line again null_call = null_call
    after_line again no_argument = no_argument
    after_line again no_fuel = no_fuel

    -- What a token does; `args` are the arguments of the line so far, and `again` goes on.
    unfoldable pub after_token :
        (ParseContext → List (List ℕ) → Parsed)
        → ParseContext
        → List (List ℕ)
        → Token × Lexer
        → Parsed
    after_token again state args (t_eof, lexer) = parsed (with_lexer state lexer)
    after_token again state args (t_newline, lexer) =
        after_line (λ state'. again state' [])
          (end_line (with_lexer state (record lexer { line = lexer.line + 1 })) args)
    after_token again state args (t_text, lexer) =
        again (with_lexer state lexer)
          (if ltb (length args) args_max then args ++ (lexer.text ∷ []) else args)
    after_token again state args (t_contline, lexer) = again (with_lexer state lexer) args

    -- The loop of `parse_ltd`.
    unfoldable pub parse_loop : ℕ → ParseContext → List (List ℕ) → Parsed
    parse_loop zero state args = no_fuel
    parse_loop (suc fuel) state args =
        after_token (parse_loop fuel) state args (next_token state.lexer)

    -- `pcn[3]` is not initialised: it is a parameter. So are the two static variables of the lexer.
    unfoldable pub parse_ltd : ℕ → ParseContextNode → ℕ → Bool → List ℕ → Parsed
    parse_ltd fuel pcn_3 brace_cnt line_real_termed s =
        let lexer : Lexer = record {
          rest = s;
          text = [];
          line = 0;
          nexttoken = false;
          brace_cnt = brace_cnt;
          line_real_termed = line_real_termed;
        } in
        parse_loop fuel
          (record {
            lexer = lexer;
            cur_level = 0;
            pcn = λ i. if ltb i 3 then record { context = false; parse_line = no_func } else pcn_3;
          })
          []
