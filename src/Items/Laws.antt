-- ===== src/Items/Laws.antt =====
-- What replace_str2 of src/vs.c returns.
use mathlib.Core.Path.{subst}
use native.Mathlib.Decide.{dec_lt}
use native.Mathlib.Nat.{mul-add, mul-le-mul_right}
use leitner.Common.{
  ℕ, zero, suc, ◌+◌, ◌-◌, ◌*◌, ◌%◌, ◌≤◌, ◌<◌, ◌≡◌, inl, inr, refl, sym, ap, ◌∙◌, arith, true, false,
  Option, none, some, List, [], ◌∷◌, ◌++◌, ◌==◌, length, length-append, Bool-cases, ==_iff,
}
use leitner.Items.Replace.{
  behind, further, found_or, strstr, count_loop, copied, copy_loop, int_max, size_max, ret_len,
  Replaced, replace_str2,
}

-- The text with each `old` replaced, from the left on: up to the first `old` the text stays, `new`
-- takes its place, and so for the rest.
pub data Replaces (old new : List ℕ) : List ℕ → List ℕ → ℕ → Type 0 where
  stays : {p : List ℕ} → strstr old p ≡ none → Replaces old new p p 0
  changes :
      {p before rest out : List ℕ} {n : ℕ}
      → strstr old p ≡ some (before, rest)
      → Replaces old new rest out n
      → Replaces old new p (before ++ (new ++ out)) (suc n)

behind-length :
    (old text rest : List ℕ) → behind old text ≡ some rest → length text ≡ length old + length rest
unfolding behind
behind-length [] text rest h = ground (arith, h)
behind-length (c ∷ old) [] rest h = absurd (ground (arith, h))
behind-length (c ∷ old) (d ∷ text) rest h = elim (Bool-cases (c == d)) [
  | inl e ↦ omega (arith, behind-length old text rest (ground (arith, h, e)))
  | inr e ↦ absurd (ground (arith, h, e))
]

-- The lengths of what strstr splits a text into.
abbrev Splits : List ℕ → List ℕ → Option (List ℕ × List ℕ) → Type 0
Splits old p none = Unit
Splits old p (some (before, rest)) = length p ≡ length before + length old + length rest

further-Splits :
    (old p : List ℕ) (c : ℕ) (r : Option (List ℕ × List ℕ))
    → Splits old p r
    → Splits old (c ∷ p) (further c r)
further-Splits old p c none h = tt
further-Splits old p c (some (before, rest)) h = omega (arith, h)

found_or-Splits :
    (old p : List ℕ) (b : Option (List ℕ)) (r : Option (List ℕ × List ℕ))
    → behind old p ≡ b
    → Splits old p r
    → Splits old p (found_or b r)
found_or-Splits old p none r e h = h
found_or-Splits old p (some rest) r e h = omega (arith, behind-length old p rest e)

strstr-Splits : (old p : List ℕ) → Splits old p (strstr old p)
unfolding strstr
strstr-Splits old [] = found_or-Splits old [] (behind old []) none refl tt
strstr-Splits old (c ∷ p) =
    found_or-Splits old (c ∷ p) (behind old (c ∷ p)) (further c (strstr old p)) refl
      (further-Splits old p c (strstr old p) (strstr-Splits old p))

-- The loops return, count the changes and write the changed text.
record Runs (fuel : ℕ) (old new p : List ℕ) : Type 0 where
  pub out : List ℕ
  pub changed : ℕ
  pub meaning : Replaces old new p out changed
  pub counts : count_loop fuel old p ≡ some changed
  pub copies : (k : ℕ) → copy_loop fuel true k old new p ≡ some out
  pub copies_counted : copy_loop fuel false changed old new p ≡ some out

copied-some :
    (before new out : List ℕ)
    → length before ≤ int_max
    → copied before new (some out) ≡ some (before ++ (new ++ out))
unfolding copied
copied-some before new out le = ground (arith, le)

module _ (old new : List ℕ) where
  ends_here : (fuel : ℕ) (p : List ℕ) → strstr old p ≡ none → Runs (suc fuel) old new p
  unfolding count_loop copy_loop
  ends_here fuel p e = record {
    out = p;
    changed = 0;
    meaning = stays e;
    counts = rw (e, count_loop) refl;
    copies = λ k. rw (e, copy_loop) refl;
    copies_counted = refl;
  }

  counted_step :
      (fuel n : ℕ) (p before rest : List ℕ)
      → strstr old p ≡ some (before, rest)
      → copy_loop (suc fuel) false (suc n) old new p
        ≡ copied before new (copy_loop fuel false n old new rest)
  unfolding copy_loop
  counted_step fuel n p before rest e =
      rw (not_zero, e, copy_loop)
        (ap (λ k. copied before new (copy_loop fuel false k old new rest)) pred)
    where
      not_zero : (suc n == 0) ≡ false
      not_zero = ground arith

      pred : suc n - 1 ≡ n
      pred = omega arith

  goes_on :
      (fuel : ℕ) (p before rest : List ℕ)
      → strstr old p ≡ some (before, rest)
      → length before ≤ int_max
      → Runs fuel old new rest
      → Runs (suc fuel) old new p
  unfolding count_loop copy_loop
  goes_on fuel p before rest e le r = record {
    out = before ++ (new ++ r.out);
    changed = suc r.changed;
    meaning = changes e r.meaning;
    counts = rw (e, count_loop) (rw (r.counts) refl);
    copies = λ k. rw (e, copy_loop) (rw (r.copies (k - 1)) (copied-some before new r.out le));
    copies_counted =
        counted_step fuel r.changed p before rest e
        ∙ (ap (copied before new) r.copies_counted ∙ copied-some before new r.out le);
  }

  by_split :
      (fuel : ℕ) (p : List ℕ) (r : Option (List ℕ × List ℕ))
      → strstr old p ≡ r
      → Splits old p r
      → 0 < length old
      → length p < suc fuel
      → length p ≤ int_max
      → ((rest : List ℕ) → length rest < fuel → length rest ≤ int_max → Runs fuel old new rest)
      → Runs (suc fuel) old new p
  by_split fuel p none e s pos lt le ih = ends_here fuel p e
  by_split fuel p (some (before, rest)) e s pos lt le ih =
      goes_on fuel p before rest e (omega (arith, s, le))
        (ih rest (omega (arith, s)) (omega (arith, s, le)))

  loops-Runs :
      (fuel : ℕ) (p : List ℕ)
      → 0 < length old
      → length p < fuel
      → length p ≤ int_max
      → Runs fuel old new p
  loops-Runs zero p pos lt le = absurd (omega arith)
  loops-Runs (suc fuel) p pos lt le =
      by_split fuel p (strstr old p) refl (strstr-Splits old p) pos lt le
        (λ rest l k. loops-Runs fuel rest pos l k)

pub Replaces-length :
    {old new p out : List ℕ} {n : ℕ}
    → Replaces old new p out n
    → length out + n * length old ≡ length p + n * length new
Replaces-length (stays e) = omega arith
Replaces-length {old} {new} (changes {p} {before} {rest} {out} {n} e r) = omega (
  arith,
  Replaces-length r,
  subst (Splits old p) e (strstr-Splits old p),
  length-append before (new ++ out),
  length-append new out,
)

Replaces-few :
    {old new p out : List ℕ} {n : ℕ} → 0 < length old → Replaces old new p out n → n ≤ length p
Replaces-few pos (stays e) = omega arith
Replaces-few {old} {new} pos (changes {p} {before} {rest} {out} {n} e r) =
    omega (arith, pos, subst (Splits old p) e (strstr-Splits old p), Replaces-few pos r)

shrinks :
    (c d q len out : ℕ)
    → d + q ≡ size_max
    → out + c * q ≡ len
    → out < size_max
    → (len + c * d) % size_max ≡ out
shrinks c d q len out e h lt = omega (arith, mul-add c d q, ap (λ n. c * n) e)

-- The size_t sum is the length of the text, although newlen - oldlen may wrap.
ret_len_lem :
    (len count newlen oldlen out : ℕ)
    → out + count * oldlen ≡ len + count * newlen
    → out < size_max
    → newlen < size_max
    → oldlen < size_max
    → ret_len len count newlen oldlen ≡ out
ret_len_lem len count newlen oldlen out e lo ln lold = elim (dec_lt newlen oldlen) [
  | yes less ↦
      ap (λ d. (len + count * d) % size_max) (below less)
      ∙ shrinks count (newlen + (size_max - oldlen)) (oldlen - newlen) len out (omega arith)
          (omega (arith, mul-add count newlen (oldlen - newlen), whole less)) lo
  | no more ↦
      ap (λ d. (len + count * d) % size_max) (above more)
      ∙ omega (arith, mul-add count oldlen (newlen - oldlen), whole' more)
]
  where
    below :
        newlen < oldlen → (newlen + (size_max - oldlen)) % size_max ≡ newlen + (size_max - oldlen)
    below less = omega arith

    above : (newlen < oldlen → ⊥) → (newlen + (size_max - oldlen)) % size_max ≡ newlen - oldlen
    above more = omega (arith, more)

    whole : newlen < oldlen → count * (newlen + (oldlen - newlen)) ≡ count * oldlen
    whole less = ap (λ n. count * n) (omega arith)

    whole' : (newlen < oldlen → ⊥) → count * (oldlen + (newlen - oldlen)) ≡ count * newlen
    whole' more = ap (λ n. count * n) (omega (arith, more))

-- replace_str2 returns when the word is not empty, with one unit of fuel more than the text has
-- characters: it writes the text with each occurrence of the word replaced from the left on, and just
-- as many characters as the buffer has beside its NUL, whether or not the two words are of one length.
-- The text has no more characters than an int counts, and all lengths fit into a size_t.
pub replace_str2-Replaces :
    (fuel : ℕ) (str old new : List ℕ)
    → 0 < length old
    → length str < fuel
    → length str ≤ int_max
    → length old < size_max
    → length new < size_max
    → length str + length str * length new < size_max
    → (r : Replaced) × (n : ℕ) × (replace_str2 fuel str old new ≡ some r)
      × Replaces old new str r.text n
      × (length r.text ≡ r.retlen)
unfolding replace_str2
replace_str2-Replaces fuel str old new pos lt short lo ln fits =
    elim (Bool-cases (length old == length new)) [
      | inl e ↦ (
        record { text = runs.out; retlen = length str },
        runs.changed,
        rw (e) (rw (runs.copies 0) refl),
        runs.meaning,
        omega (
          arith,
          Replaces-length runs.meaning,
          ap (λ k. runs.changed * k) ((==_iff (length old) (length new)).0 e),
        ),
      )
      | inr e ↦ (
        record {
          text = runs.out;
          retlen = ret_len (length str) runs.changed (length new) (length old);
        },
        runs.changed,
        rw (e) (rw (runs.counts) (rw (runs.copies_counted) refl)),
        runs.meaning,
        sym (
            ret_len_lem (length str) runs.changed (length new) (length old) (length runs.out)
              (Replaces-length runs.meaning)
              (omega (
                arith,
                Replaces-length runs.meaning,
                mul-le-mul_right (length new) (Replaces-few pos runs.meaning),
              ))
              ln lo),
      )
    ]
  where
    runs : Runs fuel old new str
    runs = loops-Runs old new fuel str pos lt short
