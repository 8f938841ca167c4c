-- ===== src/Util/Tests.antt =====
-- The text helpers at concrete inputs.
use leitner.Common.{ℕ, ◌≡◌, refl, arith, true, false, ◌&&◌, List, [], ◌∷◌, ◌++◌}
use leitner.Util.Strip.{
  clean_line, clean_line_padded, strip_back, strip_front, All, strip_ending_whitespace,
}
use leitner.Util.Strip.{strip_beginning_whitespace, strip_linefeeds, strip_line_end}
use leitner.Util.Decimal.{
  decimal, decimal_lem, examined, all, any, is_decimal, is_digit, decimal_loop,
}
use leitner.Util.Hash.{HashArg, str_hash, hash_loop}
use leitner.Util.HashLaws.{str_hash-omited, str_hash-injective, hashed, without_omited, AreDigits}

padded_line :
    clean_line ((b' ' ∷ 9 ∷ []) ++ (((b'1' ∷ b'2' ∷ []) ++ (b' ' ∷ [])) ++ (10 ∷ 10 ∷ [])))
    ≡ b'1' ∷ b'2' ∷ []
unfolding All strip_back
padded_line =
    clean_line_padded (b' ' ∷ 9 ∷ []) b'1' (b'2' ∷ []) (b' ' ∷ []) (10 ∷ 10 ∷ []) (refl, (refl, tt))
      (refl, tt) (refl, (refl, tt)) refl refl refl

-- A blank behind the linefeed keeps the linefeed in the line.
linefeed_left : clean_line (b'1' ∷ 10 ∷ b' ' ∷ []) ≡ b'1' ∷ 10 ∷ []
unfolding clean_line strip_ending_whitespace strip_beginning_whitespace strip_linefeeds strip_back
    strip_front
linefeed_left = refl

digits_read : decimal (b'4' ∷ b'2' ∷ b'x' ∷ []) 2 ≡ (
    all is_decimal (examined (b'4' ∷ b'2' ∷ b'x' ∷ []) 2)
    && any is_digit (examined (b'4' ∷ b'2' ∷ b'x' ∷ []) 2))
digits_read = decimal_lem (b'4' ∷ b'2' ∷ b'x' ∷ []) 2

decimal_two : decimal (b'4' ∷ b'2' ∷ b'x' ∷ []) 2 ≡ true
unfolding decimal decimal_loop is_digit
decimal_two = refl

decimal_all : decimal (b'4' ∷ b'2' ∷ b'x' ∷ []) 0 ≡ false
unfolding decimal decimal_loop is_digit strip_line_end strip_ending_whitespace strip_linefeeds
    strip_back
decimal_all = refl

-- The arguments that the enum tables hash with, after a prefix of three characters.
abbrev skip_three : HashArg
skip_three = record {
  from = 3;
  len = 6;
  base_char = b'A';
  power = 26;
  omited_chars = b'_' ∷ b'-' ∷ b'+' ∷ b'=' ∷ [];
  hash_size = 4294967295;
}

abbrev wt_uw : List ℕ
wt_uw = b'W' ∷ b'T' ∷ b'_' ∷ b'U' ∷ b'W' ∷ []

abbrev wt_u_w : List ℕ
wt_u_w = b'W' ∷ b'T' ∷ b'_' ∷ b'U' ∷ b'_' ∷ b'W' ∷ []

wt_uw_hash : str_hash wt_uw skip_three ≡ 542
unfolding str_hash hash_loop
wt_uw_hash = refl

wt_hashes : str_hash wt_uw skip_three ≡ str_hash wt_u_w skip_three
unfolding hashed without_omited
wt_hashes = str_hash-omited wt_uw wt_u_w skip_three refl

hashes_apart : hashed wt_uw skip_three ≡ hashed wt_u_w skip_three
unfolding hashed without_omited AreDigits str_hash hash_loop
hashes_apart =
    str_hash-injective wt_uw wt_u_w skip_three
      ((omega arith, omega arith), ((omega arith, omega arith), tt))
      ((omega arith, omega arith), ((omega arith, omega arith), tt)) refl (omega arith)
      (omega arith) (omega arith) refl
