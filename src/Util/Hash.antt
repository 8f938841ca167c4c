-- ===== src/Util/Hash.antt =====
-- `str_hash` of src/util.c: the hash of a name, which the enum tables are searched by.
use leitner.Common.{ℕ, zero, suc, ◌+◌, ◌*◌, ◌-◌, ◌%◌, ◌^◌, ◌==◌, if◌then◌else◌, Bool, false}
use leitner.Common.{◌||◌, List, [], ◌∷◌, drop}
use native.Mathlib.Nat.{}

-- `struct hash_arg`; a missing `omited_chars` is the empty list.
pub record HashArg : Type 0 where
  pub from : ℕ
  pub len : ℕ
  pub base_char : ℕ
  pub power : ℕ
  pub omited_chars : List ℕ
  pub hash_size : ℕ

abbrev pub is_omited : List ℕ → ℕ → Bool
is_omited [] c = false
is_omited (o ∷ os) c = c == o || is_omited os c

-- One character joins the hash, in the arithmetic of `unsigned`.
abbrev pub mix : HashArg → ℕ → ℕ → ℕ
mix h hashval c = (c + 2 ^ 32 - h.base_char + h.power * hashval) % 2 ^ 32

-- The loop: `len` characters at most count, and an omitted one does not.
unfoldable pub hash_loop : HashArg → ℕ → ℕ → List ℕ → ℕ
hash_loop h len hashval [] = hashval
hash_loop h zero hashval (c ∷ cs) = hashval
hash_loop h (suc len) hashval (c ∷ cs) =
    let skip = is_omited h.omited_chars c in
    hash_loop h (if skip then suc len else len) (if skip then hashval else mix h hashval c) cs

unfoldable pub str_hash : List ℕ → HashArg → ℕ
str_hash str h = hash_loop h h.len 0 (drop h.from str) % h.hash_size
