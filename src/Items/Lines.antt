-- ===== src/Items/Lines.antt =====
-- The lines of the vocabulary file that ltsys_init of src/vs.c makes items of.
use leitner.Common.{==_self, false}
use leitner.Common.{length-append, ◌++◌, ◌==◌}
use leitner.Common.{count, ltb, ◌≤◌}
use native.Mathlib.Nat.{mul-le-mul_left}
use leitner.Common.{
  ℕ, zero, suc, ◌+◌, ◌-◌, ◌*◌, ◌<◌, ◌≡◌, refl, ap, arith, true, Option, none, some, List, [], ◌∷◌,
  length,
}
use leitner.Items.Replace.{
  behind, strstr, copied, copy_loop, further, int_max, size_max, replace_str2,
}
use leitner.Items.Read.{
  VsItem, vbuf_len, aline_len, before_or_all, strchr, split_comment, underline, with_comment, Line,
  no_return, item, returned, read_rest, read_line,
}
use leitner.Items.Laws.{Replaces, Replaces-length, replace_str2-Replaces}

strstr-empty : (p : List ℕ) → strstr [] p ≡ some ([], p)
unfolding strstr behind
strstr-empty [] = refl
strstr-empty (c ∷ p) = refl

copy_loop-empty : (fuel k : ℕ) (p : List ℕ) → copy_loop fuel true k [] [] p ≡ none
unfolding copy_loop copied
copy_loop-empty zero k p = refl
copy_loop-empty (suc fuel) k p =
    rw (strstr-empty p, copy_loop) (rw (copy_loop-empty fuel (k - 1) p) refl)

replace_str2-empty : (fuel : ℕ) (str : List ℕ) → replace_str2 fuel str [] [] ≡ none
unfolding replace_str2
replace_str2-empty fuel str = rw (copy_loop-empty fuel 0 str) refl

no_return_for :
    (fuel : ℕ) (p : List ℕ × Option (List ℕ)) → returned (with_comment fuel [] p) ≡ no_return
unfolding underline
no_return_for fuel (sentence, comm) = rw (replace_str2-empty fuel sentence) refl

-- A line that begins with = and fits into aLine makes ltsys_init loop for ever: no fuel is enough.
pub read_line_stuck :
    (fuel : ℕ) (text : List ℕ)
    → length text + 1 < aline_len
    → read_line fuel (b'=' ∷ text) ≡ no_return
unfolding read_line read_rest strchr underline
read_line_stuck fuel text short =
    let fits : ltb (length (b'=' ∷ text)) aline_len ≡ true = ground (arith, short) in
    rw (fits) (no_return_for fuel (split_comment text (strchr b'#' text)))

-- strchr finds the first character of its kind.
pub strchr-first : (c : ℕ) (a b : List ℕ) → count c a ≡ 0 → strchr c (a ++ (c ∷ b)) ≡ some (a, b)
unfolding strchr
strchr-first c [] b h = rw (==_self c) refl
strchr-first c (d ∷ a) b h =
    let other : (d == c) ≡ false = ground (arith, h) in
    let fewer : count c a ≡ 0 = ground (arith, h) in
    rw (other) (ap (further d) (strchr-first c a b fewer))

strchr-none : (c : ℕ) (a : List ℕ) → count c a ≡ 0 → strchr c a ≡ none
unfolding strchr
strchr-none c [] h = refl
strchr-none c (d ∷ a) h =
    let other : (d == c) ≡ false = ground (arith, h) in
    let fewer : count c a ≡ 0 = ground (arith, h) in
    rw (other) (ap (further d) (strchr-none c a fewer))

-- The comment in what stands behind a hash: all of it, or what stands before its first ampersand.
pub data Comment : List ℕ → List ℕ → Type 0 where
  whole : {b : List ℕ} → count b'&' b ≡ 0 → Comment b b
  cut : (c rest : List ℕ) → count b'&' c ≡ 0 → Comment (c ++ (b'&' ∷ rest)) c

-- What stands behind the = of a line: a sentence, and a comment if there is a hash.
pub data Parts : List ℕ → List ℕ → Option (List ℕ) → Type 0 where
  plain : {text : List ℕ} → count b'#' text ≡ 0 → Parts text text none
  commented :
      (sentence b : List ℕ) {comm : List ℕ}
      → count b'#' sentence ≡ 0
      → Comment b comm
      → Parts (sentence ++ (b'#' ∷ b)) sentence (some comm)

before_or_all-Comment : {b comm : List ℕ} → Comment b comm → before_or_all b (strchr b'&' b) ≡ comm
before_or_all-Comment {b} (whole h) = rw (strchr-none b'&' b h) refl
before_or_all-Comment (cut c rest h) = rw (strchr-first b'&' c rest h) refl

split_comment-Parts :
    {text sentence : List ℕ} {comm : Option (List ℕ)}
    → Parts text sentence comm
    → split_comment text (strchr b'#' text) ≡ (sentence, comm)
unfolding split_comment
split_comment-Parts {text} (plain h) = rw (strchr-none b'#' text h) refl
split_comment-Parts (commented sentence b h k) =
    rw (strchr-first b'#' sentence b h, split_comment)
      (ap (λ c. (sentence, some c)) (before_or_all-Comment k))

length-underline : (word : List ℕ) → length (underline word) ≡ length word
unfolding underline
length-underline [] = refl
length-underline (c ∷ word) = omega (arith, length-underline word)

length-Parts :
    {text sentence : List ℕ} {comm : Option (List ℕ)}
    → Parts text sentence comm
    → length sentence ≤ length text
length-Parts (plain h) = omega arith
length-Parts (commented sentence b h k) = omega (arith, length-append sentence (b'#' ∷ b))

-- What an item is to be: the word before the =, the sentence with the word replaced by as many
-- underscores, and the comment.
pub record Hides (word sentence : List ℕ) (comm : Option (List ℕ)) (r : Line) : Type 0 where
  pub it : VsItem
  pub changed : ℕ
  pub returned_it : r ≡ item it
  pub word_of : it.vbuf ≡ word
  pub comm_of : it.comm ≡ comm
  pub hidden : Replaces word (underline word) sentence it.sbuf changed
  pub same_length : length it.sbuf ≡ length sentence

-- A line of a word without =, a =, and a text becomes an item with that word. If the text has no hash, it is
-- the sentence and there is no comment; else the sentence stands before the first hash and the comment
-- behind it, up to its first ampersand. In the item's sentence each occurrence of the word is replaced by
-- underscores, and the length is the same. The word is not empty and shorter than vbuf, the line
-- shorter than aLine, and the fuel exceeds the sentence's length.
pub read_line-Hides :
    (fuel : ℕ) (word text sentence : List ℕ) (comm : Option (List ℕ))
    → count b'=' word ≡ 0
    → Parts text sentence comm
    → 0 < length word
    → length word < vbuf_len
    → length (word ++ (b'=' ∷ text)) < aline_len
    → length sentence < fuel
    → Hides word sentence comm (read_line fuel (word ++ (b'=' ∷ text)))
unfolding read_line read_rest
read_line-Hides fuel word text sentence comm e parts pos lw ll lt =
    let (r, n, ret, means, len) =
      replace_str2-Replaces fuel sentence word (underline word) pos lt short (omega (arith, lw))
        (omega (arith, length-underline word, lw)) small in
    record {
      it = record { vbuf = word; sbuf = r.text; comm = comm };
      changed = n;
      returned_it = rw (line_fits) (
          rw (strchr-first b'=' word text e, read_rest)
            (rw (word_fits) (rw (split_comment-Parts parts) (rw (ret) refl))));
      word_of = refl;
      comm_of = refl;
      hidden = means;
      same_length = omega (arith, Replaces-length means, ap (λ k. n * k) (length-underline word));
    }
  where
    line_fits : ltb (length (word ++ (b'=' ∷ text))) aline_len ≡ true
    line_fits = ground (arith, ll)

    word_fits : ltb (length word) vbuf_len ≡ true
    word_fits = ground (arith, lw)

    inside : length sentence < aline_len
    inside = omega (arith, ll, length-append word (b'=' ∷ text), length-Parts parts)

    short : length sentence ≤ int_max
    short = omega (arith, inside)

    product : length sentence * length (underline word) ≤ length sentence * vbuf_len
    product = mul-le-mul_left (length sentence) (omega (arith, length-underline word, lw))

    small : length sentence + length sentence * length (underline word) < size_max
    small = omega (arith, inside, product)
