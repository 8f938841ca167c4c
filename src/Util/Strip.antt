-- ===== src/Util/Strip.antt =====
-- The line helpers of src/util.c. A line is the list of its characters before the closing NUL.
use leitner.Common.{ℕ, ◌==◌, if◌then◌else◌, Bool, true, false, ◌&&◌, ◌||◌, List, [], ◌∷◌, ◌++◌}
use leitner.Common.{◌≡◌, refl, ap, ◌∙◌, arith}
use mathlib.Core.List.{append-nil}

abbrev pub is_space : ℕ → Bool
is_space c = c == b' ' || c == 9

abbrev pub is_linefeed : ℕ → Bool
is_linefeed c = c == 10

abbrev pub is_nil : List ℕ → Bool
is_nil [] = true
is_nil (c ∷ cs) = false

-- The loop from the last character back to the first: it stops at a character that `p` does not hold of.
unfoldable pub strip_back : (ℕ → Bool) → List ℕ → List ℕ
strip_back p [] = []
strip_back p (c ∷ cs) = let rest = strip_back p cs in if is_nil rest && p c then [] else c ∷ rest

-- The loop from the first character on.
unfoldable pub strip_front : (ℕ → Bool) → List ℕ → List ℕ
strip_front p [] = []
strip_front p (c ∷ cs) = if p c then strip_front p cs else c ∷ cs

unfoldable pub strip_ending_whitespace : List ℕ → List ℕ
strip_ending_whitespace line = strip_back is_space line

unfoldable pub strip_beginning_whitespace : List ℕ → List ℕ
strip_beginning_whitespace line = strip_front is_space line

unfoldable pub strip_linefeeds : List ℕ → List ℕ
strip_linefeeds line = strip_back is_linefeed line

unfoldable pub clean_line : List ℕ → List ℕ
clean_line line = strip_ending_whitespace (strip_linefeeds (strip_beginning_whitespace line))

unfoldable pub strip_line_end : List ℕ → List ℕ
strip_line_end line = strip_ending_whitespace (strip_linefeeds line)

-- Each character is one that `p` holds of.
unfoldable pub All : (ℕ → Bool) → List ℕ → Type 0
All p [] = Unit
All p (c ∷ cs) = (p c ≡ true) × All p cs

strip_back-All : (p : ℕ → Bool) (cs : List ℕ) → All p cs → strip_back p cs ≡ []
unfolding All strip_back
strip_back-All p [] h = refl
strip_back-All p (c ∷ cs) h = rw (strip_back-All p cs h.1, h.0) refl

pub strip_back_padded :
    (p : ℕ → Bool) (w after : List ℕ) → All p after → strip_back p (w ++ after) ≡ strip_back p w
unfolding strip_back
strip_back_padded p [] after h = strip_back-All p after h
strip_back_padded p (c ∷ w) after h = rw (strip_back_padded p w after h) refl

pub strip_front_padded :
    (p : ℕ → Bool) (before w : List ℕ)
    → All p before
    → strip_front p (before ++ w) ≡ strip_front p w
unfolding All strip_front
strip_front_padded p [] w h = refl
strip_front_padded p (c ∷ cs) w h = rw (h.0) (strip_front_padded p cs w h.1)

-- A first character that stays, stays whatever follows.
strip_front_kept : (p : ℕ → Bool) (c : ℕ) (w : List ℕ) → p c ≡ false → strip_front p (c ∷ w) ≡ c ∷ w
unfolding strip_front
strip_front_kept p c w h = rw (h) refl

-- What ends in something that keeps all its characters loses none.
strip_back_kept :
    (p : ℕ → Bool) (w : List ℕ) (c : ℕ) (cs : List ℕ)
    → strip_back p (c ∷ cs) ≡ c ∷ cs
    → strip_back p (w ++ (c ∷ cs)) ≡ w ++ (c ∷ cs)
unfolding strip_back
strip_back_kept p [] c cs h = h
strip_back_kept p (d ∷ w) c cs h = rw (strip_back_kept p w c cs h) (nonempty w)
  where
    nonempty :
        (w : List ℕ)
        → (if is_nil (w ++ (c ∷ cs)) && p d then [] else d ∷ (w ++ (c ∷ cs))) ≡ d ∷ (w ++ (c ∷ cs))
    nonempty [] = refl
    nonempty (e ∷ w) = refl

space-linefeed : (c : ℕ) → is_space c ≡ true → is_linefeed c ≡ false
space-linefeed c h = ground arith

-- Blanks hold no linefeed.
spaces_kept : (cs : List ℕ) → All is_space cs → strip_back is_linefeed cs ≡ cs
unfolding All strip_back
spaces_kept [] h = refl
spaces_kept (c ∷ cs) h = rw (spaces_kept cs h.1, space-linefeed c h.0) (unchanged cs)
  where
    unchanged : (cs : List ℕ) → (if is_nil cs && false then [] else c ∷ cs) ≡ c ∷ cs
    unchanged [] = refl
    unchanged (d ∷ cs) = refl

linefeeds_kept :
    (w after : List ℕ)
    → strip_back is_linefeed w ≡ w
    → All is_space after
    → strip_back is_linefeed (w ++ after) ≡ w ++ after
linefeeds_kept w [] hw h = rw (append-nil w) hw
linefeeds_kept w (c ∷ after) hw h =
    strip_back_kept is_linefeed w c after (spaces_kept (c ∷ after) h)

-- A line of blanks, a text, blanks and then linefeeds is cleaned to that text, if the text begins
-- with no blank and ends in neither a blank nor a linefeed.
pub clean_line_padded :
    (before : List ℕ) (x : ℕ) (w after feeds : List ℕ)
    → All is_space before
    → All is_space after
    → All is_linefeed feeds
    → is_space x ≡ false
    → strip_back is_space (x ∷ w) ≡ x ∷ w
    → strip_back is_linefeed (x ∷ w) ≡ x ∷ w
    → clean_line (before ++ (((x ∷ w) ++ after) ++ feeds)) ≡ x ∷ w
unfolding clean_line strip_ending_whitespace strip_linefeeds strip_beginning_whitespace
clean_line_padded before x w after feeds hb ha hf first last_space last_feed =
    ap (λ z. strip_back is_space (strip_back is_linefeed z))
      (strip_front_padded is_space before _ hb
        ∙ strip_front_kept is_space x ((w ++ after) ++ feeds) first)
    ∙ ap (strip_back is_space) (
        strip_back_padded is_linefeed ((x ∷ w) ++ after) feeds hf
        ∙ linefeeds_kept (x ∷ w) after last_feed ha)
    ∙ strip_back_padded is_space (x ∷ w) after ha
    ∙ last_space
