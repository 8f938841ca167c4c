-- ===== src/Parser/Lexer.antt =====
-- `next_token` of src/parser.c on the text of a file, up to its NUL.
use leitner.Common.{
  ℕ, ◌+◌, ltb, ◌==◌, if◌then◌else◌, Bool, true, false, not, ◌&&◌, ◌||◌, inc32, dec32,
}
use leitner.Common.{List, [], ◌∷◌, ◌++◌, Option, none, some, drop, head?, get_or}

pub data Token : Type 0 where
  t_eof t_text t_newline t_contline : Token

-- What `next_token` keeps: `rest` is the text from `state->ptr` on, `nexttoken` says that a newline
-- is due, and the last two are its static variables.
pub record Lexer : Type 0 where
  pub rest : List ℕ
  pub text : List ℕ
  pub line : ℕ
  pub nexttoken : Bool
  pub brace_cnt : ℕ
  pub line_real_termed : Bool

abbrev pub is_blank : ℕ → Bool
is_blank c = c == b' ' || (c == 9 || c == 13)

-- What ends a text: a blank, `.`, `:`.
abbrev pub is_stop : ℕ → Bool
is_stop c = is_blank c || (c == b'.' || c == b':')

abbrev pub opens_quote : ℕ → Bool
opens_quote c = c == b'"' || c == b'['

abbrev pub closes_quote : ℕ → Bool
closes_quote c = c == b'"' || c == b']'

-- A text is written over its own source: `out` is what is written before `s`, `gap` what stands from
-- `s` to before `x`. `*s++ = c; x++` with `read` the character at `x`:
abbrev pub copied : List ℕ → ℕ → List ℕ
copied gap read = drop 1 (gap ++ (read ∷ []))

-- `s++; x++`: the character that stands at `s` stays.
abbrev pub stepped : List ℕ → ℕ → List ℕ
stepped gap read = get_or (head? (gap ++ (read ∷ []))) read ∷ []

-- Where the text is read: `eating` is behind a line that is continued, where blanks are eaten, and
-- `backslash` behind a backslash.
pub data Mode : Type 0 where
  in_text eating quoted backslash : Mode

-- What a character does there.
pub data Act : Type 0 where
  skip stop term open_brace close_brace newline quote unquote escape line_end copy : Act

unfoldable pub act_in_text : ℕ → Act
act_in_text c =
    if is_stop c
    then stop
    else if c == b';'
    then term
    else if c == b'{'
    then open_brace
    else if c == b'}'
    then close_brace
    else if c == 10
    then newline
    else if opens_quote c
    then quote
    else if c == 92
    then escape
    else copy

-- The character that a backslash and `c` stand for. The source writes it and does not pass over `c`,
-- which is then read once more.
abbrev pub replacement : ℕ → Option ℕ
replacement c =
    if c == b'n'
    then some 10
    else if c == b'r'
    then some 13
    else if c == b't'
    then some 9
    else if c == 92
    then some 92
    else none

abbrev pub is_lone_cr : ℕ → List ℕ → Bool
is_lone_cr c cs = c == 13 && not (get_or (head? cs) 0 == 10)

unfoldable pub act_behind_backslash : ℕ → List ℕ → Act
act_behind_backslash c cs = elim (replacement c) [
  | some e ↦ act_in_text c
  | none ↦ if is_lone_cr c cs then skip else if c == 13 || c == 10 then line_end else copy
]

unfoldable pub act : Mode → ℕ → List ℕ → Act
act in_text c cs = act_in_text c
act eating c cs = if c == b' ' || c == 9 then skip else act_in_text c
act quoted c cs = if closes_quote c then unquote else copy
act backslash c cs = act_behind_backslash c cs

unfoldable pub written : Mode → ℕ → Option ℕ
written backslash c = replacement c
written in_text c = none
written eating c = none
written quoted c = none

-- How the reading goes on behind a character that is skipped or copied: blanks are eaten on, and a
-- quote goes on.
abbrev pub after_skip : Mode → Mode
after_skip eating = eating
after_skip m = in_text

abbrev pub after_copy : Mode → Mode
after_copy quoted = quoted
after_copy m = in_text

abbrev pub text_done : Lexer → List ℕ → List ℕ → Token × Lexer
text_done st out rest = (t_text, record st { text = out; rest = rest })

-- One round of the loop: the text ends behind the character, or goes on.
pub data Step : Type 0 where
  ends : Lexer → List ℕ → Step
  goes_on : Mode → Lexer → List ℕ → List ℕ → Step

unfoldable pub do_act : Act → Mode → Lexer → List ℕ → List ℕ → ℕ → Step
do_act skip m st out gap c = goes_on (after_skip m) st out (gap ++ (c ∷ []))
do_act stop m st out gap c = ends st out
do_act term m st out gap c = ends (record st { line_real_termed = true }) out
do_act open_brace m st out gap c =
    goes_on in_text (record st { brace_cnt = inc32 st.brace_cnt }) (out ++ stepped gap c)
      (copied gap c)
do_act close_brace m st out gap c =
    goes_on in_text (record st { brace_cnt = dec32 st.brace_cnt }) (out ++ stepped gap c)
      (copied gap c)
do_act newline m st out gap c = ends (record st { nexttoken = true }) out
do_act quote m st out gap c = goes_on quoted st out (gap ++ (c ∷ []))
do_act unquote m st out gap c = goes_on in_text st out (gap ++ (c ∷ []))
do_act escape m st out gap c = goes_on backslash st out (gap ++ (c ∷ []))
do_act line_end m st out gap c =
    goes_on eating (record st { line = st.line + 1 }) out (gap ++ (c ∷ []))
do_act copy m st out gap c = goes_on (after_copy m) st (out ++ (c ∷ [])) (copied gap c)

-- A character that a backslash stands for is written first.
abbrev pub write_out : Option ℕ → List ℕ → List ℕ
write_out none out = out
write_out (some e) out = out ++ (e ∷ [])

abbrev pub write_gap : Option ℕ → List ℕ → List ℕ
write_gap none gap = gap
write_gap (some e) gap = drop 1 gap

-- The text from `x` on. At the end within quotes the text is not closed.
unfoldable pub lex_text : Mode → Lexer → List ℕ → List ℕ → List ℕ → Token × Lexer
lex_text quoted st out gap [] = (t_eof, record st { text = out ++ gap; rest = [] })
lex_text in_text st out gap [] = text_done st out []
lex_text eating st out gap [] = text_done st out []
lex_text backslash st out gap [] = text_done st out []
lex_text m st out gap (c ∷ cs) =
    let e = written m c in
    elim (do_act (act m c cs) m st (write_out e out) (write_gap e gap) c) [
      | ends st' out' ↦ text_done st' out' cs
      | goes_on m' st' out' gap' ↦ lex_text m' st' out' gap' cs
    ]

-- A comment, up to its linefeed.
unfoldable pub lex_comment : Lexer → List ℕ → Token × Lexer
lex_comment st [] = (t_eof, record st { rest = [] })
lex_comment st (c ∷ cs) =
    if c == 10 then (t_newline, record st { rest = cs }) else lex_comment st cs

-- Between the texts. In a block, a line that no `;` ends goes on.
unfoldable pub lex_between : Lexer → List ℕ → Token × Lexer
lex_between st [] = (t_eof, record st { rest = [] })
lex_between st (c ∷ cs) =
    if c == 10
    then (if ltb 0 st.brace_cnt && not st.line_real_termed
        then (t_contline, record st { rest = cs })
        else (t_newline, record st { rest = cs; line_real_termed = false }))
    else if is_blank c
    then lex_between st cs
    else if c == b'#'
    then lex_comment st (c ∷ cs)
    else lex_text in_text st [] [] (c ∷ cs)

unfoldable pub next_token : Lexer → Token × Lexer
next_token st =
    if st.nexttoken then (t_newline, record st { nexttoken = false }) else lex_between st st.rest
