-- ===== src/Commands/Lines.antt =====
-- setup_redirect and the loop of src/main.c on whole lines.
use mathlib.Core.List.{append-nil}
use leitner.Common.{ℕ, ◌≡◌, refl, sym, ap, ◌∙◌, arith}
use leitner.Common.{Bool, true, not, some, List, [], ◌∷◌, ◌++◌}
use leitner.Common.{◌==◌}
use leitner.Util.Strip.{is_space, All, strip_beginning_whitespace, strip_front, strip_front_padded}
use leitner.Commands.Words.{is_sign}
use leitner.Commands.Redirect.{
  System, Output, Redirect, redirect_failure, setup_redirect, scan, or_scroll, open_pipe, open_file,
  redirect_file,
}
use leitner.Commands.Round.{}

abbrev pub is_unsigned : ℕ → Bool
is_unsigned c = not (is_sign c)

abbrev pub no_bang : List ℕ → Bool
no_bang [] = true
no_bang (c ∷ cs) = not (c == b'!')

pub scan-bar :
    (sys : System) (fp : Output) (u t : List ℕ)
    → All is_unsigned u
    → scan sys fp (u ++ (b'|' ∷ t)) ≡ some (open_pipe sys fp (strip_beginning_whitespace t))
unfolding scan All
scan-bar sys fp [] t h = refl
scan-bar sys fp (c ∷ u) t h = ground (arith, scan-bar sys fp u t h.1, h.0)

pub scan-more :
    (sys : System) (fp : Output) (u t : List ℕ)
    → All is_unsigned u
    → scan sys fp (u ++ (b'>' ∷ t)) ≡ some (redirect_file sys fp t)
unfolding scan All
scan-more sys fp [] t h = refl
scan-more sys fp (c ∷ u) t h = ground (arith, scan-more sys fp u t h.1, h.0)

pub setup_redirect-scan :
    (sys : System) (fp : Output) (i : ℕ) (u t : List ℕ) (c : ℕ) (r : Redirect × Output)
    → no_bang u ≡ true
    → is_sign c ≡ true
    → scan sys fp (u ++ (c ∷ t)) ≡ some r
    → setup_redirect sys fp i (u ++ (c ∷ t)) ≡ r
unfolding setup_redirect or_scroll
setup_redirect-scan sys fp i [] t c r n s e = ground (arith, e, s)
setup_redirect-scan sys fp i (d ∷ u) t c r n s e = ground (arith, e, n)

strip-blanks : (blanks : List ℕ) → All is_space blanks → strip_beginning_whitespace blanks ≡ []
unfolding strip_beginning_whitespace strip_front
strip-blanks blanks h =
    ap (strip_front is_space) (sym (append-nil blanks)) ∙ strip_front_padded is_space blanks [] h

refused_file :
    (sys : System) (fp : Output) (blanks : List ℕ)
    → All is_space blanks
    → redirect_file sys fp blanks ≡ (redirect_failure, fp)
unfolding redirect_file open_file All
refused_file sys fp [] h = refl
refused_file sys fp (c ∷ blanks) h = ground (arith, strip-blanks (c ∷ blanks) h, h.0)

refused_append :
    (sys : System) (fp : Output) (blanks : List ℕ)
    → All is_space blanks
    → redirect_file sys fp (b'>' ∷ blanks) ≡ (redirect_failure, fp)
unfolding redirect_file open_file
refused_append sys fp blanks h = rw (strip-blanks blanks h) refl

refused_pipe :
    (sys : System) (fp : Output) (blanks : List ℕ)
    → All is_space blanks
    → open_pipe sys fp (strip_beginning_whitespace blanks) ≡ (redirect_failure, fp)
unfolding open_pipe
refused_pipe sys fp blanks h = rw (strip-blanks blanks h) refl

-- A redirection with nothing but blanks behind its sign fails and leaves the output where it was, for
-- each of | > and >>, whatever the system would answer; the text before has no sign and does not
-- begin with an exclamation mark.
pub setup_redirect_refused :
    (sys : System) (fp : Output) (i : ℕ) (u blanks : List ℕ)
    → All is_unsigned u
    → no_bang u ≡ true
    → All is_space blanks
    → (setup_redirect sys fp i (u ++ (b'|' ∷ blanks)) ≡ (redirect_failure, fp))
      × (setup_redirect sys fp i (u ++ (b'>' ∷ blanks)) ≡ (redirect_failure, fp))
      × (setup_redirect sys fp i (u ++ (b'>' ∷ (b'>' ∷ blanks))) ≡ (redirect_failure, fp))
setup_redirect_refused sys fp i u blanks h n b = (
  setup_redirect-scan sys fp i u blanks b'|' (redirect_failure, fp) n refl
      (scan-bar sys fp u blanks h ∙ ap some (refused_pipe sys fp blanks b)),
  setup_redirect-scan sys fp i u blanks b'>' (redirect_failure, fp) n refl
      (scan-more sys fp u blanks h ∙ ap some (refused_file sys fp blanks b)),
  setup_redirect-scan sys fp i u (b'>' ∷ blanks) b'>' (redirect_failure, fp) n refl
      (scan-more sys fp u (b'>' ∷ blanks) h ∙ ap some (refused_append sys fp blanks b)),
)
