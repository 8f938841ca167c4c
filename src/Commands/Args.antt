-- ===== src/Commands/Args.antt =====
-- parse_args of src/main.c.
use leitner.Common.{ℕ}
use leitner.Common.{Bool, false, ◌||◌, List, [], ◌∷◌, ◌==◌, if◌then◌else◌}

-- The characters of `delim`, " \f\n\r\t\v".
abbrev pub is_delim : ℕ → Bool
is_delim c = c == b' ' || (c == 12 || (c == 10 || (c == 13 || (c == 9 || c == 11))))

abbrev pub push : List ℕ → List (List ℕ) → List (List ℕ)
push [] ws = ws
push (c ∷ cs) ws = (c ∷ cs) ∷ ws

-- The word that the text begins with, and the words behind it.
unfoldable pub split_words : List ℕ → List ℕ × List (List ℕ)
split_words [] = ([], [])
split_words (c ∷ cs) =
    let rest = split_words cs in
    if is_delim c then ([], push rest.0 rest.1) else (c ∷ rest.0, rest.1)

-- What the calls of strtok return one after the other.
unfoldable pub strtok_all : List ℕ → List (List ℕ)
strtok_all line = let rest = split_words line in push rest.0 rest.1

-- strstr with a text of one character.
unfoldable pub has : ℕ → List ℕ → Bool
has c [] = false
has c (d ∷ ds) = d == c || has c ds

abbrev pub redirects : List ℕ → Bool
redirects tok = has b'|' tok || has b'>' tok

unfoldable pub before_redirect : List (List ℕ) → List (List ℕ)
before_redirect [] = []
before_redirect (tok ∷ toks) =
    let rest = before_redirect toks in if redirects tok then [] else tok ∷ rest

unfoldable pub parse_args : List ℕ → List (List ℕ)
parse_args cmdline = before_redirect (strtok_all cmdline)
