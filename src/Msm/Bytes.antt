-- ===== src/Msm/Bytes.antt =====
-- The fields of struct ser_head and struct ser_sum_entry of inc/msm.h as bytes.
use leitner.Common.{
  ℕ, zero, suc, ◌+◌, ◌*◌, ◌/◌, ◌%◌, ◌^◌, ◌<◌, ◌≡◌, refl, ap, arith, false, Option, none, some, List,
  [], ◌∷◌, ◌++◌, ◌==◌, if◌then◌else◌, length, drop,
}

-- An unsigned int, its lowest byte first.
unfoldable pub enc32 : ℕ → List ℕ
enc32 n = n % 256 ∷ (n / 256 % 256 ∷ (n / 65536 % 256 ∷ (n / 16777216 % 256 ∷ [])))

unfoldable pub dec32 : List ℕ → Option (ℕ × List ℕ)
dec32 (a ∷ (b ∷ (c ∷ (d ∷ t)))) = some (a + 256 * b + 65536 * c + 16777216 * d, t)
dec32 _ = none

unfoldable pub zeros : ℕ → List ℕ
zeros zero = []
zeros (suc n) = 0 ∷ zeros n

-- strncpy into `n` zeroed bytes.
unfoldable pub enc_name : ℕ → List ℕ → List ℕ
enc_name zero cs = []
enc_name (suc n) [] = 0 ∷ enc_name n []
enc_name (suc n) (c ∷ cs) = c ∷ enc_name n cs

abbrev pub consed : ℕ → Option (List ℕ × List ℕ) → Option (List ℕ × List ℕ)
consed c none = none
consed c (some (name, t)) = some (c ∷ name, t)

-- The text in `n` bytes, and what stands behind them; a text that has no NUL there is none.
unfoldable pub dec_name : ℕ → List ℕ → Option (List ℕ × List ℕ)
dec_name zero bs = none
dec_name (suc n) [] = none
dec_name (suc n) (c ∷ bs) =
    let rest = consed c (dec_name n bs) in if c == 0 then some ([], drop n bs) else rest

pub dec32-enc32 : (n : ℕ) (t : List ℕ) → n < 2 ^ 32 → dec32 (enc32 n ++ t) ≡ some (n, t)
unfolding dec32 enc32
dec32-enc32 n t h = ap (λ k. some (k, t)) (omega arith)

-- A C string of fewer than `n` characters.
unfoldable pub IsName : ℕ → List ℕ → Type 0
IsName zero cs = ⊥
IsName (suc n) [] = Unit
IsName (suc n) (c ∷ cs) = ((c == 0) ≡ false) × IsName n cs

drop-enc_name : (n : ℕ) (t : List ℕ) → drop n (enc_name n [] ++ t) ≡ t
unfolding enc_name
drop-enc_name zero t = refl
drop-enc_name (suc n) t = drop-enc_name n t

pub dec_name-enc_name :
    (n : ℕ) (name t : List ℕ) → IsName n name → dec_name n (enc_name n name ++ t) ≡ some (name, t)
unfolding dec_name enc_name IsName
dec_name-enc_name zero name t h = absurd h
dec_name-enc_name (suc n) [] t h = ap (λ u. some ([], u)) (drop-enc_name n t)
dec_name-enc_name (suc n) (c ∷ name) t (ne, h) =
    rw (ne) (ap (consed c) (dec_name-enc_name n name t h))

pub length-enc_name : (n : ℕ) (name : List ℕ) → length (enc_name n name) ≡ n
unfolding enc_name
length-enc_name zero name = refl
length-enc_name (suc n) [] = omega (arith, length-enc_name n [])
length-enc_name (suc n) (c ∷ name) = omega (arith, length-enc_name n name)
