-- ===== src/Parser/Left.antt =====
-- `next_token` of src/parser.c: how much of the text is left after a token.
use leitner.Common.{
  ℕ, ◌+◌, ◌*◌, ◌≤◌, ◌<◌, ◌≡◌, refl, sym, arith, ltb, ◌==◌, if◌then◌else◌, Bool, Bool-cases, true,
  false, not, ◌&&◌, ◌⊎◌, inl, inr,
}
use leitner.Common.{List, [], ◌∷◌, length}
use mathlib.Core.Path.{subst}
use leitner.Parser.Lines.{from_rest}
use leitner.Parser.Lexer.{
  Token, t_eof, Lexer, Mode, in_text, eating, quoted, backslash, Act, act, written,
}
use leitner.Parser.Lexer.{
  Step, ends, goes_on, do_act, write_out, write_gap, skip, stop, term, open_brace, close_brace,
  newline, quote, unquote, escape, line_end, copy, text_done,
}
use leitner.Parser.Lexer.{is_blank, lex_text, lex_comment, lex_between, next_token}

-- The tokens that are still to come are no more than this: two for each character, and the newline
-- that is due.
abbrev pub left : Lexer → ℕ
left st = 2 * length st.rest + (if st.nexttoken then 1 else 0)

-- A token that is not the end leaves less than `n`.
abbrev pub Leaves : ℕ → Token × Lexer → Type 0
Leaves n r = (r.0 ≡ t_eof) ⊎ (left (r.1) < n)

pub Leaves-mono : (n m : ℕ) (r : Token × Lexer) → n ≤ m → Leaves n r → Leaves m r
Leaves-mono n m r h (inl e) = inl e
Leaves-mono n m r h (inr l) = inr (omega (arith, h, l))

-- A round of the loop makes no newline due, unless it ends the text.
Idle : Step → Type 0
Idle (ends st out) = Unit
Idle (goes_on m st out gap) = st.nexttoken ≡ false

do_act-Idle :
    (a : Act) (m : Mode) (st : Lexer) (out gap : List ℕ) (c : ℕ)
    → st.nexttoken ≡ false
    → Idle (do_act a m st out gap c)
unfolding do_act Idle
do_act-Idle skip m st out gap c idle = idle
do_act-Idle stop m st out gap c idle = tt
do_act-Idle term m st out gap c idle = tt
do_act-Idle open_brace m st out gap c idle = idle
do_act-Idle close_brace m st out gap c idle = idle
do_act-Idle newline m st out gap c idle = tt
do_act-Idle quote m st out gap c idle = idle
do_act-Idle unquote m st out gap c idle = idle
do_act-Idle escape m st out gap c idle = idle
do_act-Idle line_end m st out gap c idle = idle
do_act-Idle copy m st out gap c idle = idle

done-Leaves :
    (st : Lexer) (out cs : List ℕ) (n : ℕ) → 2 * length cs + 1 < n → Leaves n (text_done st out cs)
done-Leaves st out cs n h = inr (ground (arith, h))

step-Leaves :
    (s : Step) (cs : List ℕ) (n : ℕ)
    → 2 * length cs + 1 < n
    → Idle s
    → ((m : Mode) (st : Lexer) (out gap : List ℕ)
        → st.nexttoken ≡ false
        → Leaves (2 * length cs + 1) (lex_text m st out gap cs))
    → Leaves n (elim s [
      | ends st out ↦ text_done st out cs
      | goes_on m st out gap ↦ lex_text m st out gap cs
    ])
unfolding Idle
step-Leaves (ends st out) cs n h idle rest = done-Leaves st out cs n h
step-Leaves (goes_on m st out gap) cs n h idle rest =
    Leaves-mono (2 * length cs + 1) n (lex_text m st out gap cs) (omega (arith, h))
      (rest m st out gap idle)

lex_text-Leaves :
    (cs : List ℕ) (m : Mode) (st : Lexer) (out gap : List ℕ)
    → st.nexttoken ≡ false
    → Leaves (2 * length cs + 1) (lex_text m st out gap cs)
unfolding lex_text
lex_text-Leaves [] quoted st out gap idle = inl refl
lex_text-Leaves [] in_text st out gap idle = inr (rw (idle) (omega arith))
lex_text-Leaves [] eating st out gap idle = inr (rw (idle) (omega arith))
lex_text-Leaves [] backslash st out gap idle = inr (rw (idle) (omega arith))
lex_text-Leaves (c ∷ cs) m st out gap idle =
    step-Leaves
      (do_act (act m c cs) m st (write_out (written m c) out) (write_gap (written m c) gap) c) cs
      (2 * length (c ∷ cs) + 1) (omega arith)
      (do_act-Idle (act m c cs) m st (write_out (written m c) out) (write_gap (written m c) gap) c
        idle)
      (lex_text-Leaves cs)

first_text-Leaves :
    (c : ℕ) (cs : List ℕ) (st : Lexer)
    → st.nexttoken ≡ false
    → Leaves (2 * length (c ∷ cs)) (lex_text in_text st [] [] (c ∷ cs))
unfolding lex_text
first_text-Leaves c cs st idle =
    step-Leaves
      (do_act (act in_text c cs) in_text st (write_out (written in_text c) [])
        (write_gap (written in_text c) []) c)
      cs (2 * length (c ∷ cs)) (omega arith)
      (do_act-Idle (act in_text c cs) in_text st (write_out (written in_text c) [])
        (write_gap (written in_text c) []) c idle)
      (lex_text-Leaves cs)

either-Leaves :
    {n : ℕ} (b : Bool) (x y : Token × Lexer)
    → Leaves n x
    → Leaves n y
    → Leaves n (if b then x else y)
either-Leaves true x y hx hy = hx
either-Leaves false x y hx hy = hy

lex_comment-Leaves :
    (cs : List ℕ) (st : Lexer) → st.nexttoken ≡ false → Leaves (2 * length cs) (lex_comment st cs)
unfolding lex_comment
lex_comment-Leaves [] st idle = inl refl
lex_comment-Leaves (c ∷ cs) st idle = either-Leaves (c == 10) _ _ (inr (rw (idle) (omega arith))) (
    Leaves-mono (2 * length cs) (2 * length (c ∷ cs)) (lex_comment st cs) (omega arith)
      (lex_comment-Leaves cs st idle))

lex_between-Leaves :
    (cs : List ℕ) (st : Lexer) → st.nexttoken ≡ false → Leaves (2 * length cs) (lex_between st cs)
unfolding lex_between
lex_between-Leaves [] st idle = inl refl
lex_between-Leaves (c ∷ cs) st idle =
    either-Leaves (c == 10) _ _
      (either-Leaves (ltb 0 st.brace_cnt && not st.line_real_termed) _ _
        (inr (rw (idle) (omega arith))) (inr (rw (idle) (omega arith))))
      (either-Leaves (is_blank c) _ _
        (Leaves-mono (2 * length cs) (2 * length (c ∷ cs)) (lex_between st cs) (omega arith)
          (lex_between-Leaves cs st idle))
        (either-Leaves (c == b'#') _ _ (lex_comment-Leaves (c ∷ cs) st idle)
          (first_text-Leaves c cs st idle)))

pub next_token-Leaves : (st : Lexer) → Leaves (left st) (next_token st)
unfolding next_token
next_token-Leaves st = elim (Bool-cases st.nexttoken) [
  | inl due ↦ rw (due) (inr (omega arith))
  | inr idle ↦ subst (Leaves (left st)) (sym (from_rest st idle)) (
      Leaves-mono (2 * length st.rest) (left st) (lex_between st st.rest) (omega arith)
        (lex_between-Leaves st.rest st idle))
]
