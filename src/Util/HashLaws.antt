-- ===== src/Util/HashLaws.antt =====
-- `str_hash` of src/util.c: omitted characters, and names of as many letters.
use leitner.Common.{
  ℕ, zero, suc, ◌+◌, ◌*◌, ◌-◌, ◌%◌, ◌^◌, ◌<◌, ◌≤◌, ◌≡◌, refl, arith, ltb, ltb→lt, if◌then◌else◌,
  Bool, true, false,
}
use leitner.Common.{List, [], ◌∷◌, drop, length, Bool-cases, inl, inr, ap, sym, ◌∙◌}
use mathlib.Core.Path.{ap₂}
use native.Mathlib.Nat.{
  mul_comm, mul_assoc, mul-le-mul_left, mul-le-mul_right, pow-suc, pow-zero, one-le-pow,
}
use native.Mathlib.Nat.{mod-eq_of_lt}
use leitner.Util.Hash.{HashArg, is_omited, mix, hash_loop, str_hash}

-- The characters that count.
unfoldable pub without_omited : List ℕ → List ℕ → List ℕ
without_omited os [] = []
without_omited os (c ∷ cs) =
    if is_omited os c then without_omited os cs else c ∷ without_omited os cs

-- The number that the characters are the digits of, without any wrap.
unfoldable pub numeral : HashArg → ℕ → List ℕ → ℕ
numeral h n [] = n
numeral h n (c ∷ cs) = numeral h (c - h.base_char + h.power * n) cs

-- Each character is a digit to the base `power`, counted from `base_char`.
unfoldable pub AreDigits : HashArg → List ℕ → Type 0
AreDigits h [] = Unit
AreDigits h (c ∷ cs) = ((h.base_char ≤ c) × (c < h.base_char + h.power)) × AreDigits h cs

hash_loop-without :
    (h : HashArg) (len v : ℕ) (cs : List ℕ)
    → hash_loop h len v cs ≡ hash_loop h len v (without_omited h.omited_chars cs)
unfolding hash_loop without_omited
hash_loop-without h len v [] = refl
hash_loop-without h zero v (c ∷ cs) = stopped (without_omited h.omited_chars (c ∷ cs))
  where
    stopped : (ds : List ℕ) → v ≡ hash_loop h 0 v ds
    stopped [] = refl
    stopped (d ∷ ds) = refl
hash_loop-without h (suc len) v (c ∷ cs) = elim (Bool-cases (is_omited h.omited_chars c)) [
  | inl e ↦ rw (e) (hash_loop-without h (suc len) v cs)
  | inr e ↦ rw (e) (rw (e, hash_loop) (hash_loop-without h len (mix h v c) cs))
]

-- A room for one more digit in front: `power` times the numbers below `n + 1`.
scaled : (p n q : ℕ) → p * suc n * q ≡ suc n * (q * p)
scaled p n q =
    ap (λ k. k * q) (mul_comm p (suc n))
    ∙ mul_assoc (suc n) p q
    ∙ ap (λ k. suc n * k) (mul_comm p q)

next_digit : (p n d : ℕ) → d < p → suc (d + p * n) ≤ p * suc n
next_digit p n d low = omega arith

numeral-bound :
    (h : HashArg) (n : ℕ) (cs : List ℕ)
    → AreDigits h cs
    → numeral h n cs < suc n * h.power ^ length cs
unfolding numeral AreDigits
numeral-bound h n [] a = omega (arith, pow-zero h.power, ap (λ k. suc n * k) (pow-zero h.power))
numeral-bound h n (c ∷ cs) a = omega (
  arith,
  numeral-bound h (c - h.base_char + h.power * n) cs a.1,
  mul-le-mul_right (h.power ^ length cs)
      (next_digit h.power n (c - h.base_char) (omega (arith, a.0))),
  scaled h.power n (h.power ^ length cs),
  ap (λ k. suc n * k) (pow-suc h.power (length cs)),
)

digit_le : (p n m c d : ℕ) → c < p → d < p → c + p * n ≡ d + p * m → n ≤ m
digit_le p n m c d hc hd e = elim (Bool-cases (ltb m n)) [
  | inl lt ↦ absurd (omega (arith, mul-le-mul_left p (ltb→lt m n lt)))
  | inr ge ↦ ground (arith, ge)
]

digit_unique : (p n m c d : ℕ) → c < p → d < p → c + p * n ≡ d + p * m → (c ≡ d) × (n ≡ m)
digit_unique p n m c d hc hd e = (omega (arith, e, ap (λ k. p * k) same), same)
  where
    same : n ≡ m
    same = omega (arith, digit_le p n m c d hc hd e, digit_le p m n d c hd hc (sym e))

numeral-injective :
    (h : HashArg) (n m : ℕ) (xs ys : List ℕ)
    → AreDigits h xs
    → AreDigits h ys
    → length xs ≡ length ys
    → numeral h n xs ≡ numeral h m ys
    → (n ≡ m) × (xs ≡ ys)
unfolding numeral AreDigits
numeral-injective h n m [] [] a b l e = (e, refl)
numeral-injective h n m [] (y ∷ ys) a b l e = absurd (omega (arith, l))
numeral-injective h n m (x ∷ xs) [] a b l e = absurd (omega (arith, l))
numeral-injective h n m (x ∷ xs) (y ∷ ys) a b l e =
    let rest =
      numeral-injective h (x - h.base_char + h.power * n) (y - h.base_char + h.power * m) xs ys a.1
        b.1 (omega (arith, l)) e in
    let digit =
      digit_unique h.power n m (x - h.base_char) (y - h.base_char) (omega (arith, a.0))
        (omega (arith, b.0)) rest.0 in
    (digit.1, ap₂ (λ z zs. z ∷ zs) (omega (arith, digit.0, a.0, b.0)) rest.1)

mix-exact :
    (h : HashArg) (v c : ℕ)
    → h.base_char ≤ c
    → c < h.base_char + h.power
    → h.power * suc v ≤ 2 ^ 32
    → mix h v c ≡ c - h.base_char + h.power * v
mix-exact h v c low high fits = omega arith

numeral_none : (h : HashArg) (v : ℕ) (ws : List ℕ) → length ws ≤ 0 → numeral h v ws ≡ v
unfolding numeral
numeral_none h v [] l = refl
numeral_none h v (w ∷ ws) l = absurd (omega (arith, l))

room_for : (p v q : ℕ) → suc v * (q * p) ≤ 2 ^ 32 → 1 ≤ q → p * suc v ≤ 2 ^ 32
room_for p v q fits pos = omega (arith, mul-le-mul_left (p * suc v) pos, scaled p v q, fits)

exact_step :
    (h : HashArg) (len v c : ℕ) (cs ws : List ℕ) (skip : Bool)
    → (AreDigits h ws
        → length ws ≤ suc len
        → suc v * h.power ^ length ws ≤ 2 ^ 32
        → hash_loop h (suc len) v cs ≡ numeral h v ws)
    → (AreDigits h ws
        → length ws ≤ len
        → suc (mix h v c) * h.power ^ length ws ≤ 2 ^ 32
        → hash_loop h len (mix h v c) cs ≡ numeral h (mix h v c) ws)
    → AreDigits h (if skip then ws else c ∷ ws)
    → length (if skip then ws else c ∷ ws) ≤ suc len
    → suc v * h.power ^ length (if skip then ws else c ∷ ws) ≤ 2 ^ 32
    → hash_loop h (if skip then suc len else len) (if skip then v else mix h v c) cs
      ≡ numeral h v (if skip then ws else c ∷ ws)
unfolding numeral AreDigits
exact_step h len v c cs ws true skipped taken a l fits = skipped a l fits
exact_step h len v c cs ws false skipped taken a l fits =
    taken a.1 (omega (arith, l)) smaller ∙ ap (λ k. numeral h k ws) exact
  where
    fits' : suc v * (h.power ^ length ws * h.power) ≤ 2 ^ 32
    fits' = omega (arith, fits, ap (λ k. suc v * k) (pow-suc h.power (length ws)))

    exact : mix h v c ≡ c - h.base_char + h.power * v
    exact = mix-exact h v c a.0.0 a.0.1 (
        room_for h.power v (h.power ^ length ws) fits'
          (one-le-pow (length ws) h.power (omega (arith, a.0))))

    smaller : suc (mix h v c) * h.power ^ length ws ≤ 2 ^ 32
    smaller = omega (
      arith,
      ap (λ k. suc k * h.power ^ length ws) exact,
      mul-le-mul_right (h.power ^ length ws)
          (next_digit h.power v (c - h.base_char) (omega (arith, a.0))),
      scaled h.power v (h.power ^ length ws),
      fits',
    )

-- The characters that count, if they are digits, are no more than `len` and have a numeral below
-- 2 ^ 32, hash to their numeral.
hash_loop-exact :
    (h : HashArg) (len v : ℕ) (cs : List ℕ)
    → AreDigits h (without_omited h.omited_chars cs)
    → length (without_omited h.omited_chars cs) ≤ len
    → suc v * h.power ^ length (without_omited h.omited_chars cs) ≤ 2 ^ 32
    → hash_loop h len v cs ≡ numeral h v (without_omited h.omited_chars cs)
unfolding hash_loop numeral AreDigits without_omited
hash_loop-exact h len v [] a l fits = refl
hash_loop-exact h zero v (c ∷ cs) a l fits =
    sym (numeral_none h v (without_omited h.omited_chars (c ∷ cs)) l)
hash_loop-exact h (suc len) v (c ∷ cs) a l fits =
    exact_step h len v c cs (without_omited h.omited_chars cs) (is_omited h.omited_chars c)
      (hash_loop-exact h (suc len) v cs) (hash_loop-exact h len (mix h v c) cs) a l fits

-- A string's characters that count from `from` on.
unfoldable pub hashed : List ℕ → HashArg → List ℕ
hashed str h = without_omited h.omited_chars (drop h.from str)

-- The hash looks at no omitted character: two strings with the same other characters have the same
-- hash.
pub str_hash-omited :
    (s t : List ℕ) (h : HashArg) → hashed s h ≡ hashed t h → str_hash s h ≡ str_hash t h
unfolding str_hash hashed
str_hash-omited s t h e =
    ap (λ k. k % h.hash_size)
      (hash_loop-without h h.len 0 (drop h.from s)
        ∙ ap (hash_loop h h.len 0) e
        ∙ sym (hash_loop-without h h.len 0 (drop h.from t)))

-- Two strings whose characters that count are equally many digits, no more than `len`, have the
-- same such characters if they have the same hash. As many numbers as there are of that many
-- digits have to fit below `hash_size`, which is at most 2 ^ 32.
pub str_hash-injective :
    (s t : List ℕ) (h : HashArg)
    → AreDigits h (hashed s h)
    → AreDigits h (hashed t h)
    → length (hashed s h) ≡ length (hashed t h)
    → length (hashed s h) ≤ h.len
    → h.power ^ length (hashed s h) ≤ h.hash_size
    → h.hash_size ≤ 2 ^ 32
    → str_hash s h ≡ str_hash t h
    → hashed s h ≡ hashed t h
unfolding str_hash hashed
str_hash-injective s t h as_ at l short room word e =
    (numeral-injective h 0 0 (hashed s h) (hashed t h) as_ at l (
      sym (plain s as_ short room)
      ∙ e
      ∙ plain t at (omega (arith, l, short)) (omega (arith, room, ap (λ k. h.power ^ k) l)))).1
  where
    plain :
        (u : List ℕ)
        → AreDigits h (hashed u h)
        → length (hashed u h) ≤ h.len
        → h.power ^ length (hashed u h) ≤ h.hash_size
        → str_hash u h ≡ numeral h 0 (hashed u h)
    plain u au fits small =
        ap (λ k. k % h.hash_size)
          (hash_loop-exact h h.len 0 (drop h.from u) au fits (omega (arith, small, word)))
        ∙ mod-eq_of_lt (omega (arith, numeral-bound h 0 (hashed u h) au, small))
