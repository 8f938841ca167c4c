-- ===== src/Parser/Lines.antt =====
-- `next_token` of src/parser.c on words and quoted phrases.
use leitner.Common.{
  ℕ, ◌≡◌, refl, sym, ap, ◌∙◌, arith, ◌==◌, if◌then◌else◌, Bool, true, false, not, ◌||◌,
}
use leitner.Common.{List, [], ◌∷◌, ◌++◌}
use mathlib.Core.List.{append_assoc, append-nil}
use leitner.Parser.Lexer.{Token, t_newline, Lexer, in_text, quoted, copy, stop, quote}
use leitner.Parser.Lexer.{
  is_blank, is_stop, opens_quote, closes_quote, copied, act_in_text, act, written, text_done,
}
use leitner.Parser.Lexer.{lex_text, do_act, lex_between, next_token}

-- A character that a text keeps as it is.
abbrev pub is_plain : ℕ → Bool
is_plain c = not (
    is_stop c
    || (c == b';' || (c == b'{' || (c == b'}' || (c == 10 || (opens_quote c || c == 92))))))

unfoldable pub AllPlain : List ℕ → Type 0
AllPlain [] = Unit
AllPlain (c ∷ cs) = (is_plain c ≡ true) × AllPlain cs

-- No character of a phrase closes its quote.
unfoldable pub IsPhrase : List ℕ → Type 0
IsPhrase [] = Unit
IsPhrase (c ∷ cs) = (closes_quote c ≡ false) × IsPhrase cs

plain-copy : (c : ℕ) → is_plain c ≡ true → act_in_text c ≡ copy
unfolding act_in_text
plain-copy c h = ground (arith, h)

stop_lem : (c : ℕ) → is_stop c ≡ true → act_in_text c ≡ stop
unfolding act_in_text
stop_lem c h = ground (arith, h)

unfoldable pub AreBlank : List ℕ → Type 0
AreBlank [] = Unit
AreBlank (c ∷ cs) = (is_blank c ≡ true) × AreBlank cs

quote_lem : (c : ℕ) → opens_quote c ≡ true → act_in_text c ≡ quote
unfolding act_in_text
quote_lem c h = ground (arith, h)

module _ (st : Lexer) where
  between_blanks :
      (blanks cs : List ℕ) → AreBlank blanks → lex_between st (blanks ++ cs) ≡ lex_between st cs
  unfolding lex_between AreBlank
  between_blanks [] cs h = refl
  between_blanks (b ∷ blanks) cs h =
      blank_first b h.0 (lex_between st (blanks ++ cs)) _ _ ∙ between_blanks blanks cs h.1
    where
      blank_first :
          (b : ℕ)
          → is_blank b ≡ true
          → (x y z : Token × Lexer) → (if b == 10 then y else if is_blank b then x else z) ≡ x
      blank_first b h x y z = ground (arith, h)

  pub from_rest : st.nexttoken ≡ false → next_token st ≡ lex_between st st.rest
  unfolding next_token
  from_rest idle =
      ap (λ b. if b then (t_newline, record st { nexttoken = false }) else lex_between st st.rest)
        idle

  begin :
      (c : ℕ) (cs : List ℕ)
      → is_plain c ≡ true
      → (c == b'#') ≡ false
      → lex_between st (c ∷ cs) ≡ lex_text in_text st [] [] (c ∷ cs)
  unfolding lex_between
  begin c cs h hash = chosen (lex_text in_text st [] [] (c ∷ cs)) _ _ _
    where
      chosen :
          (t x y z : Token × Lexer)
          → (if c == 10 then x else if is_blank c then y else if c == b'#' then z else t) ≡ t
      chosen t x y z = ground (arith, h, hash)

  begin_quote :
      (c : ℕ) (cs : List ℕ)
      → opens_quote c ≡ true
      → lex_between st (c ∷ cs) ≡ lex_text quoted st [] (c ∷ []) cs
  unfolding lex_between lex_text act written do_act
  begin_quote c cs h = chosen (lex_text in_text st [] [] (c ∷ cs)) _ _ _ ∙ opened
    where
      chosen :
          (t x y z : Token × Lexer)
          → (if c == 10 then x else if is_blank c then y else if c == b'#' then z else t) ≡ t
      chosen t x y z = ground (arith, h)

      opened : lex_text in_text st [] [] (c ∷ cs) ≡ lex_text quoted st [] (c ∷ []) cs
      opened = rw (quote_lem c h, lex_text) refl

module _ (st : Lexer) (e : ℕ) (rest : List ℕ) (closing_end : is_stop e ≡ true) where
  lex_word :
      (out w : List ℕ)
      → AllPlain w
      → lex_text in_text st out [] (w ++ (e ∷ rest)) ≡ text_done st (out ++ w) rest
  unfolding lex_text AllPlain act written do_act
  lex_word out [] h =
      rw (stop_lem e closing_end, lex_text) (ap (λ z. text_done st z rest) (sym (append-nil out)))
  lex_word out (c ∷ w) h =
      rw (plain-copy c h.0, lex_text) (lex_word (out ++ (c ∷ [])) w h.1)
      ∙ ap (λ z. text_done st z rest) (append_assoc out (c ∷ []) w)

  lex_phrase :
      (out gap q : List ℕ) (close : ℕ)
      → IsPhrase q
      → closes_quote close ≡ true
      → lex_text quoted st out gap (q ++ (close ∷ e ∷ rest)) ≡ text_done st (out ++ q) rest
  unfolding lex_text IsPhrase act written do_act
  lex_phrase out gap [] close h closing =
      rw (closing, lex_text)
        (rw (stop_lem e closing_end, lex_text)
          (ap (λ z. text_done st z rest) (sym (append-nil out))))
  lex_phrase out gap (c ∷ q) close h closing =
      rw (h.0, lex_text) (lex_phrase (out ++ (c ∷ [])) (copied gap c) q close h.1 closing)
      ∙ ap (λ z. text_done st z rest) (append_assoc out (c ∷ []) q)

  -- When no newline is due, a word that ends before a blank, `.` or `:` is the next text, and the
  -- end is passed over; blanks in front are skipped. The word begins with no `#` and has none of
  -- the characters that mean something else.
  pub next_token-word :
      (blanks : List ℕ) (c : ℕ) (w : List ℕ)
      → AreBlank blanks
      → AllPlain (c ∷ w)
      → (c == b'#') ≡ false
      → st.nexttoken ≡ false
      → st.rest ≡ blanks ++ ((c ∷ w) ++ (e ∷ rest))
      → next_token st ≡ text_done st (c ∷ w) rest
  unfolding AllPlain
  next_token-word blanks c w hb hw hash idle source =
      from_rest st idle
      ∙ ap (lex_between st) source
      ∙ between_blanks st blanks ((c ∷ w) ++ (e ∷ rest)) hb
      ∙ begin st c (w ++ (e ∷ rest)) hw.0 hash
      ∙ lex_word [] (c ∷ w) hw

  -- When no newline is due, a phrase in quotes or brackets that ends before a blank, `.` or `:` is
  -- the next text, with its blanks and without the quotes, if no character of it closes them;
  -- blanks in front are skipped.
  pub next_token-phrase :
      (blanks : List ℕ) (first : ℕ) (q : List ℕ) (close : ℕ)
      → AreBlank blanks
      → opens_quote first ≡ true
      → IsPhrase q
      → closes_quote close ≡ true
      → st.nexttoken ≡ false
      → st.rest ≡ blanks ++ (first ∷ (q ++ (close ∷ e ∷ rest)))
      → next_token st ≡ text_done st q rest
  next_token-phrase blanks first q close hb opens hq closes idle source =
      from_rest st idle
      ∙ ap (lex_between st) source
      ∙ between_blanks st blanks (first ∷ (q ++ (close ∷ e ∷ rest))) hb
      ∙ begin_quote st first (q ++ (close ∷ e ∷ rest)) opens
      ∙ lex_phrase [] (first ∷ []) q close hq closes
