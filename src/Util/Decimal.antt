-- ===== src/Util/Decimal.antt =====
-- `decimal` of src/util.c: does a text consist of decimal digits and blanks?
use leitner.Common.{take}
use leitner.Common.{
  ℕ, zero, suc, ◌-◌, ◌≡◌, arith, leb, ltb, ◌==◌, if◌then◌else◌, Bool, true, false, ◌&&◌, ◌||◌, List,
  [], ◌∷◌,
}
use leitner.Util.Strip.{strip_line_end}

unfoldable pub is_digit : ℕ → Bool
is_digit c = leb b'0' c && leb c b'9'

-- The loop over the characters. `limited` says that a count was given, and `cnt` is what is left of
-- it; the loop returns `false` at once at any other character than a digit or a blank.
unfoldable pub decimal_loop : Bool → ℕ → ℕ → List ℕ → Bool
decimal_loop limited cnt digits [] = ltb 0 digits
decimal_loop limited cnt digits (c ∷ cs) =
    let digits' : ℕ = if is_digit c then suc digits else digits in
    let rest = decimal_loop limited (cnt - 1) digits' cs in
    if is_digit c || c == b' '
    then (if limited && cnt - 1 == 0 then ltb 0 digits' else rest)
    else false

unfoldable pub decimal : List ℕ → ℕ → Bool
decimal s zero = decimal_loop false 0 0 (strip_line_end s)
decimal s (suc n) = decimal_loop true (suc n) 0 s

abbrev pub all : (ℕ → Bool) → List ℕ → Bool
all p [] = true
all p (c ∷ cs) = p c && all p cs

abbrev pub any : (ℕ → Bool) → List ℕ → Bool
any p [] = false
any p (c ∷ cs) = p c || any p cs

abbrev pub is_decimal : ℕ → Bool
is_decimal c = is_digit c || c == b' '

-- The characters that are looked at.
unfoldable pub examined : List ℕ → ℕ → List ℕ
examined s zero = strip_line_end s
examined s (suc n) = take (suc n) s

decimal_loop-all :
    (cnt digits : ℕ) (s : List ℕ)
    → decimal_loop false cnt digits s ≡ (all is_decimal s && (ltb 0 digits || any is_digit s))
unfolding decimal_loop
decimal_loop-all cnt digits [] = ground arith
decimal_loop-all cnt digits (c ∷ cs) =
    ground (arith, decimal_loop-all (cnt - 1) digits cs, decimal_loop-all (cnt - 1) (suc digits) cs)

module _ (digits c : ℕ) (cs : List ℕ) where
  decimal_last :
      decimal_loop true 1 digits (c ∷ cs)
      ≡ ((is_decimal c && true) && (ltb 0 digits || (is_digit c || false)))
  unfolding decimal_loop
  decimal_last = ground arith

  decimal_next :
      (n : ℕ) (t : List ℕ)
      → ((d : ℕ)
          → decimal_loop true (suc n) d cs ≡ (all is_decimal t && (ltb 0 d || any is_digit t)))
      → decimal_loop true (suc (suc n)) digits (c ∷ cs)
        ≡ ((is_decimal c && all is_decimal t) && (ltb 0 digits || (is_digit c || any is_digit t)))
  unfolding decimal_loop
  decimal_next n t h = ground (arith, h digits, h (suc digits))

decimal_loop_some :
    (n digits : ℕ) (s : List ℕ)
    → decimal_loop true (suc n) digits s
      ≡ (all is_decimal (take (suc n) s) && (ltb 0 digits || any is_digit (take (suc n) s)))
unfolding decimal_loop
decimal_loop_some n digits [] = ground arith
decimal_loop_some zero digits (c ∷ cs) = decimal_last digits c cs
decimal_loop_some (suc n) digits (c ∷ cs) =
    decimal_next digits c cs n (take (suc n) cs) (λ d. decimal_loop_some n d cs)

-- `decimal` holds exactly if every character that it looks at is a digit or a blank and one of them
-- is a digit. It looks at the first `count` characters, and without a count at the whole text less
-- the linefeeds and then the blanks at its end.
pub decimal_lem :
    (s : List ℕ) (count : ℕ)
    → decimal s count ≡ (all is_decimal (examined s count) && any is_digit (examined s count))
unfolding decimal examined
decimal_lem s zero = decimal_loop-all 0 0 (strip_line_end s)
decimal_lem s (suc n) = decimal_loop_some n 0 s
