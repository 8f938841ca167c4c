-- ===== src/Commands/Piped.antt =====
-- Rounds of the loop of main in src/main.c: a command with a pipe, a line that begins with a sign, and
-- where the output leads behind a round.
use leitner.Common.{ℕ, ◌<◌, ◌≡◌, refl, sym, ap, ◌∙◌, arith}
use leitner.Common.{true, false, some, List, [], ◌∷◌, ◌++◌}
use leitner.Common.{ltb}
use leitner.Util.Strip.{is_nil, All, strip_beginning_whitespace, clean_line}
use leitner.Commands.Table.{cmd_null, find_cmd}
use leitner.Commands.Args.{is_delim, parse_args}
use leitner.Commands.Words.{is_plain, AreWords, spaced, words_of, parse_args-spaced}
use leitner.Commands.Redirect.{
  System, Output, piped, Redirect, redirect_to_pipe, setup_redirect, open_pipe,
}
use leitner.Commands.Lines.{is_unsigned, no_bang, scan-bar, setup_redirect-scan}
use leitner.Commands.Round.{
  Shell, calls, row_of, call, dispatch, may_redirect, on_line, round, is_shell_command,
}

delim-unsigned : (cs t : List ℕ) → All is_delim cs → All is_unsigned t → All is_unsigned (cs ++ t)
unfolding All
delim-unsigned [] t h k = k
delim-unsigned (c ∷ cs) t h k = (ground (arith, h.0), delim-unsigned cs t h.1 k)

plain-unsigned : (cs t : List ℕ) → All is_plain cs → All is_unsigned t → All is_unsigned (cs ++ t)
unfolding All
plain-unsigned [] t h k = k
plain-unsigned (c ∷ cs) t h k = (ground (arith, h.0), plain-unsigned cs t h.1 k)

spaced-unsigned : (ps : List (List ℕ × List ℕ)) → AreWords ps → All is_unsigned (spaced ps)
unfolding AreWords spaced All
spaced-unsigned [] h = tt
spaced-unsigned ((w, gap) ∷ ps) (n, p, g, d, h) =
    plain-unsigned w (gap ++ spaced ps) p (delim-unsigned gap (spaced ps) d (spaced-unsigned ps h))

word-no_bang : (w t : List ℕ) → is_nil w ≡ false → All is_plain w → no_bang (w ++ t) ≡ true
unfolding All
word-no_bang [] t n h = absurd (ground (arith, n))
word-no_bang (c ∷ w) t n h = ground (arith, h.0)

spaced-no_bang :
    (w gap : List ℕ) (ps : List (List ℕ × List ℕ))
    → AreWords ((w, gap) ∷ ps)
    → no_bang (spaced ((w, gap) ∷ ps)) ≡ true
unfolding AreWords spaced
spaced-no_bang w gap ps (n, p, g, d, h) = word-no_bang w (gap ++ spaced ps) n p

dispatch-calls :
    (sys : System) (i : ℕ) (av : List (List ℕ)) (ret : Redirect) (fp : Output)
    → is_shell_command ret ≡ false
    → i < cmd_null
    → (dispatch sys i av (ret, fp)).action ≡ calls i av fp
unfolding dispatch call
dispatch-calls sys i av ret fp h lt = ground (arith, h)

open_pipe-opens :
    (sys : System) (fp : Output) (p : List ℕ)
    → is_nil p ≡ false
    → sys.popens p ≡ true
    → open_pipe sys fp p ≡ (redirect_to_pipe, piped p)
unfolding open_pipe
open_pipe-opens sys fp p n o = rw (n, o) refl

pub round-on_line :
    (sys : System) (st : Shell) (s : List ℕ)
    → clean_line s ≡ s
    → is_nil s ≡ false
    → round sys st s ≡ on_line sys st s
unfolding round
round-on_line sys st s clean n = rw (clean, n) refl

-- The row `i` and the redirection settle what a line does.
pub round-calls :
    (sys : System) (st : Shell) (s : List ℕ) (av : List (List ℕ)) (i : ℕ) (ret : Redirect)
    (fp : Output)
    → clean_line s ≡ s
    → is_nil s ≡ false
    → parse_args s ≡ av
    → row_of st.i av ≡ i
    → i < cmd_null
    → setup_redirect sys st.fp i s ≡ (ret, fp)
    → is_shell_command ret ≡ false
    → (round sys st s).action ≡ calls i av fp
unfolding on_line may_redirect
round-calls sys st s av i ret fp clean n e row lt redirect h =
    ap (λ r. r.action) (round-on_line sys st s clean n)
    ∙ rw (e, row, ltb_true i lt, clean, redirect) (dispatch-calls sys i av ret fp h lt)
  where
    ltb_true : (i : ℕ) → i < cmd_null → ltb i cmd_null ≡ true
    ltb_true i lt = ground arith

nonempty : (u t : List ℕ) (c : ℕ) → is_nil (u ++ (c ∷ t)) ≡ false
nonempty [] t c = refl
nonempty (d ∷ u) t c = refl

-- A command with words behind it, a bar and a shell command is called with exactly the words before
-- the bar, and prints to the shell command, if popen opens it: the line is one that clean_line leaves,
-- its first word names a command, and the words have none of the characters | > !.
pub round-piped :
    (sys : System) (st : Shell) (w gap : List ℕ) (ps : List (List ℕ × List ℕ)) (sh p : List ℕ)
    → AreWords ((w, gap) ∷ ps)
    → find_cmd w < cmd_null
    → p ≡ strip_beginning_whitespace sh
    → is_nil p ≡ false
    → sys.popens p ≡ true
    → clean_line (spaced ((w, gap) ∷ ps) ++ (b'|' ∷ sh)) ≡ spaced ((w, gap) ∷ ps) ++ (b'|' ∷ sh)
    → (round sys st (spaced ((w, gap) ∷ ps) ++ (b'|' ∷ sh))).action
      ≡ calls (find_cmd w) (w ∷ words_of ps) (piped p)
unfolding words_of find_cmd row_of
round-piped sys st w gap ps sh p h lt e n o clean =
    round-calls sys st line (w ∷ words_of ps) (find_cmd w) redirect_to_pipe (piped p) clean
      (nonempty (spaced ((w, gap) ∷ ps)) sh b'|') words (row w (words_of ps)) lt redirect refl
  where
    line : List ℕ
    line = spaced ((w, gap) ∷ ps) ++ (b'|' ∷ sh)

    words : parse_args line ≡ w ∷ words_of ps
    words = parse_args-spaced ((w, gap) ∷ ps) b'|' sh h refl

    redirect : setup_redirect sys st.fp (find_cmd w) line ≡ (redirect_to_pipe, piped p)
    redirect =
        setup_redirect-scan sys st.fp (find_cmd w) (spaced ((w, gap) ∷ ps)) sh b'|'
          (redirect_to_pipe, piped p) (spaced-no_bang w gap ps h) refl
          (scan-bar sys st.fp (spaced ((w, gap) ∷ ps)) sh (spaced-unsigned ((w, gap) ∷ ps) h)
            ∙ ap some (ap (open_pipe sys st.fp) (sym e) ∙ open_pipe-opens sys st.fp p n o))

    row : (w : List ℕ) (ws : List (List ℕ)) → row_of st.i (w ∷ ws) ≡ find_cmd w
    row w ws = refl
