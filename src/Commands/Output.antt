-- ===== src/Commands/Output.antt =====
-- Where the output leads behind a round of the loop of main in src/main.c, and what a line that
-- begins with a sign does.
use leitner.Common.{ℕ, ◌<◌, ◌≡◌, ◌⊎◌, inl, inr, refl, sym, ap, ◌∙◌, arith}
use leitner.Common.{Bool, true, false, ◌||◌, List, [], ◌∷◌}
use leitner.Common.{◌==◌, ltb, Bool-cases}
use leitner.Util.Strip.{is_nil, strip_beginning_whitespace, clean_line}
use leitner.Commands.Table.{cmd_null}
use leitner.Commands.Args.{has, parse_args}
use leitner.Commands.Words.{is_sign, parse_args-sign}
use leitner.Commands.Redirect.{
  System, Output, std_out, Redirect, setup_redirect, open_pipe, open_file, redirect_file, scan,
  scroll, or_scroll,
}
use leitner.Commands.Piped.{round-calls}
use leitner.Commands.Round.{
  Shell, calls, lists, Ran, row_of, call, dispatch, may_redirect, on_line, round, is_shell_command,
}

false-ne : false ≡ true → ⊥
false-ne e = ground (arith, e)

module _ (sys : System) (fp : Output) where
  open_pipe-shell : (p : List ℕ) → is_shell_command (open_pipe sys fp p).0 ≡ false
  unfolding open_pipe
  open_pipe-shell p = ground arith

  open_file-shell :
      (append : Bool) (p : List ℕ) → is_shell_command (open_file sys fp append p).0 ≡ false
  unfolding open_file
  open_file-shell append p = ground arith

  redirect_file-shell : (t : List ℕ) → is_shell_command (redirect_file sys fp t).0 ≡ false
  unfolding redirect_file
  redirect_file-shell [] = open_file-shell false []
  redirect_file-shell (c ∷ t) = elim (Bool-cases (c == b'>')) [
    | inl e ↦ rw (e) (open_file-shell true (strip_beginning_whitespace t))
    | inr e ↦ rw (e) (open_file-shell false (strip_beginning_whitespace (c ∷ t)))
  ]

  scroll-shell : (i : ℕ) → is_shell_command (scroll sys fp i).0 ≡ false
  unfolding scroll
  scroll-shell i = ground arith

  scan-shell :
      (i : ℕ) (t : List ℕ) → is_shell_command (or_scroll sys fp i (scan sys fp t)).0 ≡ false
  unfolding scan or_scroll
  scan-shell i [] = scroll-shell i
  scan-shell i (c ∷ t) = elim (Bool-cases (c == b'|')) [
    | inl e ↦ rw (e) (open_pipe-shell (strip_beginning_whitespace t))
    | inr e ↦ rw (e) (elim (Bool-cases (c == b'>')) [
      | inl e' ↦ rw (e') (redirect_file-shell t)
      | inr e' ↦ rw (e') (scan-shell i t)
    ])
  ]

  -- Only a line with an exclamation mark first is a shell command, and it leaves the output.
  setup_redirect-shell :
      (i : ℕ) (s : List ℕ)
      → is_shell_command (setup_redirect sys fp i s).0 ≡ true
      → (setup_redirect sys fp i s).1 ≡ fp
  unfolding setup_redirect
  setup_redirect-shell i [] h = absurd (ground (arith, scroll-shell i, h))
  setup_redirect-shell i (c ∷ s) h = elim (Bool-cases (c == b'!')) [
    | inl e ↦ rw (e) refl
    | inr e ↦ absurd (
        false-ne
          (sym (scan-shell i (c ∷ s)) ∙ sym (ap (λ r. is_shell_command r.0) (unescaped e)) ∙ h))
  ]
    where
      unescaped :
          (c == b'!') ≡ false
          → setup_redirect sys fp i (c ∷ s) ≡ or_scroll sys fp i (scan sys fp (c ∷ s))
      unescaped e = rw (e) refl

  setup_redirect-sign :
      (i c : ℕ) (t : List ℕ)
      → is_sign c ≡ true
      → is_shell_command (setup_redirect sys fp i (c ∷ t)).0 ≡ false
  unfolding setup_redirect
  setup_redirect-sign i c t h = rw (not_bang h) (scan-shell i (c ∷ t))
    where
      not_bang : is_sign c ≡ true → (c == b'!') ≡ false
      not_bang h = ground (arith, h)

-- A line that begins with | or > calls the command of the line before once more, with no arguments,
-- when that line named a command: a line that clean_line leaves.
pub round_stale :
    (sys : System) (st : Shell) (c : ℕ) (t : List ℕ)
    → is_sign c ≡ true
    → st.i < cmd_null
    → clean_line (c ∷ t) ≡ c ∷ t
    → (round sys st (c ∷ t)).action ≡ calls st.i [] (setup_redirect sys st.fp st.i (c ∷ t)).1
unfolding row_of
round_stale sys st c t h lt clean =
    round-calls sys st (c ∷ t) [] st.i (setup_redirect sys st.fp st.i (c ∷ t)).0
      (setup_redirect sys st.fp st.i (c ∷ t)).1 clean refl (parse_args-sign c t h) refl lt refl
      (setup_redirect-sign sys st.fp st.i c t h)

-- Where the output leads behind a round that goes on: it leads where it did before, or to the terminal, or the round has
-- printed the list of the commands and the output stays where that was printed.
abbrev pub Restored : Output → Ran → Type 0
Restored fp ran =
    (ran.shell.fp ≡ fp) ⊎ ((ran.shell.fp ≡ std_out) ⊎ (ran.action ≡ lists ran.shell.fp))

dispatch-Restored :
    (sys : System) (i : ℕ) (av : List (List ℕ)) (fp out : Output) (ret : Redirect)
    → (is_shell_command ret ≡ true → out ≡ fp)
    → (dispatch sys i av (ret, out)).goes_on ≡ true
    → Restored fp (dispatch sys i av (ret, out))
unfolding dispatch call
dispatch-Restored sys i av fp out ret same on = elim (Bool-cases (is_shell_command ret)) [
  | inl e ↦ rw (e) (inl (same e))
  | inr e ↦ ground (arith, e, on)
]

may_redirect-shell :
    (sys : System) (fp : Output) (i : ℕ) (s : List ℕ)
    → is_shell_command (may_redirect sys fp i s).0 ≡ true
    → (may_redirect sys fp i s).1 ≡ fp
unfolding may_redirect
may_redirect-shell sys fp i s h = elim (Bool-cases (ltb i cmd_null || (has b'!' s || has b'>' s))) [
  | inl e ↦ ground (arith, setup_redirect-shell sys fp i (clean_line s), h, e)
  | inr e ↦ rw (e) refl
]

on_line-Restored :
    (sys : System) (st : Shell) (s : List ℕ)
    → (on_line sys st s).goes_on ≡ true
    → Restored st.fp (on_line sys st s)
unfolding on_line
on_line-Restored sys st s on =
    dispatch-Restored sys (row_of st.i (parse_args s)) (parse_args s) st.fp
      (may_redirect sys st.fp (row_of st.i (parse_args s)) s).1
      (may_redirect sys st.fp (row_of st.i (parse_args s)) s).0
      (may_redirect-shell sys st.fp (row_of st.i (parse_args s)) s) on

-- Behind a round that goes on, the output leads where it did before the round or to the terminal, but
-- for a round that printed the list of the commands: then it stays where that list was printed.
pub round-Restored :
    (sys : System) (st : Shell) (line : List ℕ)
    → (round sys st line).goes_on ≡ true
    → Restored st.fp (round sys st line)
unfolding round
round-Restored sys st line on = elim (Bool-cases (is_nil (clean_line line))) [
  | inl e ↦ rw (e) (inl refl)
  | inr e ↦ rw (e) (on_line-Restored sys st (clean_line line) (rest e))
]
  where
    rest : is_nil (clean_line line) ≡ false → (on_line sys st (clean_line line)).goes_on ≡ true
    rest e = ground (arith, e, on)
