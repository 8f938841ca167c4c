-- ===== src/Commands/Words.antt =====
-- parse_args of src/main.c on words between delimiters.
use mathlib.Core.List.{append-nil, append_assoc}
use leitner.Common.{ℕ, ◌≡◌, refl, ap, ◌∙◌, arith}
use leitner.Common.{Bool, true, false, ◌||◌, not, List, [], ◌∷◌, ◌++◌, ◌==◌}
use leitner.Util.Strip.{is_nil, All}
use leitner.Commands.Args.{
  is_delim, push, split_words, strtok_all, has, before_redirect, parse_args,
}

abbrev pub is_sign : ℕ → Bool
is_sign c = c == b'|' || c == b'>'

-- A character of a word that has nothing to do with redirections.
abbrev pub is_plain : ℕ → Bool
is_plain c = not (is_delim c || (is_sign c || c == b'!'))

-- Words, each with the delimiters that follow it.
unfoldable pub AreWords : List (List ℕ × List ℕ) → Type 0
AreWords [] = Unit
AreWords ((w, gap) ∷ ps) =
    (is_nil w ≡ false) × All is_plain w × (is_nil gap ≡ false) × All is_delim gap × AreWords ps

unfoldable pub spaced : List (List ℕ × List ℕ) → List ℕ
spaced [] = []
spaced ((w, gap) ∷ ps) = w ++ (gap ++ spaced ps)

unfoldable pub words_of : List (List ℕ × List ℕ) → List (List ℕ)
words_of [] = []
words_of ((w, gap) ∷ ps) = w ∷ words_of ps

plain-is_delim : (c : ℕ) → is_plain c ≡ true → is_delim c ≡ false
plain-is_delim c h = ground (arith, h)

plain-is_sign : (c : ℕ) → is_plain c ≡ true → ((c == b'|') ≡ false) × ((c == b'>') ≡ false)
plain-is_sign c h = ground (arith, h)

split_words-plain :
    (w t : List ℕ)
    → All is_plain w
    → split_words (w ++ t) ≡ (w ++ (split_words t).0, (split_words t).1)
unfolding split_words All
split_words-plain [] t h = refl
split_words-plain (c ∷ w) t h = rw (split_words-plain w t h.1, plain-is_delim c h.0) refl

strtok_all-gap : (gap t : List ℕ) → All is_delim gap → strtok_all (gap ++ t) ≡ strtok_all t
unfolding strtok_all split_words All
strtok_all-gap [] t h = refl
strtok_all-gap (c ∷ gap) t h = rw (h.0) (strtok_all-gap gap t h.1)

split_words-gap :
    (gap t : List ℕ)
    → is_nil gap ≡ false
    → All is_delim gap
    → split_words (gap ++ t) ≡ ([], strtok_all t)
unfolding strtok_all split_words All
split_words-gap [] t n h = absurd (ground (arith, n))
split_words-gap (c ∷ gap) t n h = rw (h.0) (ap (λ ws. ([], ws)) (strtok_all-gap gap t h.1))

push-word : (w : List ℕ) (ws : List (List ℕ)) → is_nil w ≡ false → push w ws ≡ w ∷ ws
push-word [] ws n = absurd (ground (arith, n))
push-word (c ∷ w) ws n = refl

strtok_all-word :
    (w gap t : List ℕ)
    → is_nil w ≡ false
    → All is_plain w
    → is_nil gap ≡ false
    → All is_delim gap
    → strtok_all (w ++ (gap ++ t)) ≡ w ∷ strtok_all t
unfolding strtok_all
strtok_all-word w gap t n h g d =
    rw (split_words-plain w (gap ++ t) h, split_words-gap gap t g d, append-nil w)
      (push-word w (strtok_all t) n)

has-plain :
    (w : List ℕ)
    → All is_plain w
    → (has b'|' w ≡ false) × (has b'>' w ≡ false) × (has b'!' w ≡ false)
unfolding has All
has-plain [] h = (refl, refl, refl)
has-plain (c ∷ w) h = ground (arith, has-plain w, h)

before_redirect-word :
    (w : List ℕ) (ws : List (List ℕ))
    → All is_plain w
    → before_redirect (w ∷ ws) ≡ w ∷ before_redirect ws
unfolding before_redirect
before_redirect-word w ws h = let (bar, more, bang) = has-plain w h in rw (bar, more) refl

parse_args-word :
    (w gap t : List ℕ)
    → is_nil w ≡ false
    → All is_plain w
    → is_nil gap ≡ false
    → All is_delim gap
    → parse_args (w ++ (gap ++ t)) ≡ w ∷ parse_args t
unfolding parse_args
parse_args-word w gap t n h g d =
    rw (strtok_all-word w gap t n h g d) (before_redirect-word w (strtok_all t) h)

pub spaced-cons :
    (w gap : List ℕ) (ps : List (List ℕ × List ℕ)) (t : List ℕ)
    → spaced ((w, gap) ∷ ps) ++ t ≡ w ++ (gap ++ (spaced ps ++ t))
unfolding spaced
spaced-cons w gap ps t =
    append_assoc w (gap ++ spaced ps) t ∙ ap (λ u. w ++ u) (append_assoc gap (spaced ps) t)

-- A text that begins with a sign gives no words.
pub parse_args-sign : (c : ℕ) (t : List ℕ) → is_sign c ≡ true → parse_args (c ∷ t) ≡ []
unfolding parse_args strtok_all split_words before_redirect has
parse_args-sign c t h = ground (arith, h)

-- The words before a sign of redirection, each with delimiters behind it, are what parse_args returns;
-- the words have none of the characters | > ! and the text behind the sign is any.
pub parse_args-spaced :
    (ps : List (List ℕ × List ℕ)) (c : ℕ) (t : List ℕ)
    → AreWords ps
    → is_sign c ≡ true
    → parse_args (spaced ps ++ (c ∷ t)) ≡ words_of ps
unfolding AreWords spaced words_of
parse_args-spaced [] c t h s = parse_args-sign c t s
parse_args-spaced ((w, gap) ∷ ps) c t (n, p, g, d, h) s =
    ap parse_args (spaced-cons w gap ps (c ∷ t))
    ∙ parse_args-word w gap (spaced ps ++ (c ∷ t)) n p g d
    ∙ ap (λ ws. w ∷ ws) (parse_args-spaced ps c t h s)
