-- ===== src/Enums/Factory.antt =====
-- inc/enum_factory.h: the functions that `DEFINE_ENUM` makes of a table `ENUM_DEF`.
use leitner.Common.{ℕ, suc, ◌==◌, if◌then◌else◌, List, [], ◌∷◌}
use leitner.Common.{Option, none, some, get_or, String, codes}
use leitner.Util.Hash.{HashArg, str_hash}

-- One line `XX(name, assign, hash)` of a table.
pub record Item : Type 0 where
  pub name : List ℕ
  pub assign : Option ℕ
  pub hash : ℕ

-- A line with an empty `assign`, and one that assigns a number.
abbrev pub xx : String → ℕ → Item
xx name hash = record { name = codes name; assign = none; hash = hash }

abbrev pub xx_at : String → ℕ → ℕ → Item
xx_at name n hash = record { name = codes name; assign = some n; hash = hash }

-- `ENUM_VALUE`: an enumerator is one more than the one before, unless it is assigned a number.
abbrev pub enum_value : Item → ℕ → ℕ
enum_value item next = get_or item.assign next

-- `ENUM_CASE`: the switch of `get_##EnumType##_string`, with the number that comes next.
unfoldable pub case_string : ℕ → List Item → ℕ → Option (List ℕ)
case_string next [] value = none
case_string next (item ∷ items) value =
    let here = enum_value item next in
    let rest = case_string (suc here) items value in if here == value then some item.name else rest

-- `ENUM_STRHASH`: the switch of `get_##EnumType##_value` on the hash.
unfoldable pub case_hash : ℕ → List Item → ℕ → Option ℕ
case_hash next [] strhash = none
case_hash next (item ∷ items) strhash =
    let here = enum_value item next in
    let rest = case_hash (suc here) items strhash in
    if item.hash == strhash then some here else rest

-- The arguments of the hash, which skips the prefix of a name.
abbrev pub enum_hash_arg : ℕ → HashArg
enum_hash_arg ignore_chcnt = record {
  from = ignore_chcnt;
  len = 6;
  base_char = b'A';
  power = 26;
  omited_chars = codes "_-+=";
  hash_size = 4294967295;
}

-- `get_##EnumType##_string`; `none` is the null pointer.
unfoldable pub get_string : List Item → ℕ → Option (List ℕ)
get_string items value = case_string 0 items value

-- `get_##EnumType##_value`; `none` is the failed assertion.
unfoldable pub get_value : ℕ → List Item → List ℕ → Option ℕ
get_value ignore_chcnt items str = case_hash 0 items (str_hash str (enum_hash_arg ignore_chcnt))
