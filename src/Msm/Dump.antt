-- ===== src/Msm/Dump.antt =====
-- dump_to_mem and load_from_mem of src/msm.c over any pools with a serialization.
use leitner.Common.{
  ℕ, zero, suc, ◌+◌, ◌-◌, ◌*◌, Option, none, some, List, [], ◌∷◌, ◌++◌, ◌==◌, if◌then◌else◌, length,
  drop, str_eq, codes,
}
use leitner.Msm.Bytes.{enc32, dec32, enc_name, dec_name}

-- struct pool_ops: the functions that a pool type registers. deser_high gives the pool and the bytes that
-- it has not read.
pub record PoolOps (S : Type 0) : Type 0 where
  pub ser : S → List ℕ
  pub deser_high : S → List ℕ → S × List ℕ
  pub deser_low : S → S
  pub getlen : S → ℕ

-- The data sources, by their names, in the order in which they were registered.
abbrev pub Sources : Type 0 → Type 0
Sources S = List (List ℕ × S)

abbrev pub head_size : ℕ
head_size = 16

abbrev pub entry_size : ℕ
entry_size = 16

-- A summary entry: the name, the offset and the length of the detail.
abbrev pub SumEntry : Type 0
SumEntry = List ℕ × ℕ × ℕ

abbrev pub with_len : List ℕ → ℕ → Option (ℕ × List ℕ) → Option (SumEntry × List ℕ)
with_len name off none = none
with_len name off (some (len, t)) = some ((name, off, len), t)

abbrev pub with_off : List ℕ → Option (ℕ × List ℕ) → Option (SumEntry × List ℕ)
with_off name none = none
with_off name (some (off, t)) = with_len name off (dec32 t)

abbrev pub with_name : Option (List ℕ × List ℕ) → Option (SumEntry × List ℕ)
with_name none = none
with_name (some (name, t)) = with_off name (dec32 t)

abbrev pub dec_entry : List ℕ → Option (SumEntry × List ℕ)
dec_entry bs = with_name (dec_name 8 bs)

abbrev pub entry_onto : SumEntry → Option (List SumEntry × List ℕ) → Option (List SumEntry × List ℕ)
entry_onto e none = none
entry_onto e (some (es, t)) = some (e ∷ es, t)

module _ {S : Type 0} (ops : PoolOps S) where
  unfoldable pub summary : ℕ → Sources S → List ℕ
  summary pos [] = []
  summary pos ((name, p) ∷ xs) =
      (enc_name 8 name ++ (enc32 pos ++ enc32 (length (ops.ser p))))
      ++ summary (pos + length (ops.ser p)) xs

  unfoldable pub details : Sources S → List ℕ
  details [] = []
  details ((name, p) ∷ xs) = ops.ser p ++ details xs

  -- The magic, the count that grows by an entry, and the version 1.
  unfoldable pub dump_to_mem : Sources S → List ℕ
  dump_to_mem xs =
      enc_name 8 (codes "MSM")
      ++ (enc32 (length xs)
          ++ (enc32 1 ++ (summary (head_size + entry_size * length xs) xs ++ details xs)))

  -- The first source of the name. Where there is none, the code goes on with no source at all.
  unfoldable pub find_dsn_by_name : Sources S → List ℕ → Option S
  find_dsn_by_name [] name = none
  find_dsn_by_name ((n, q) ∷ ys) name =
      let rest = find_dsn_by_name ys name in if str_eq n name then some q else rest

  unfoldable pub set_dsn : Sources S → List ℕ → S → Sources S
  set_dsn [] name s = []
  set_dsn ((n, q) ∷ ys) name s =
      let rest = set_dsn ys name s in if str_eq n name then (n, s) ∷ ys else (n, q) ∷ rest

  -- The second loop for one entry, and behind it: `pos` is dv - addr.
  unfoldable pub dec_detail :
      List ℕ → ℕ → ℕ → ℕ → Option S → Sources S → List ℕ → Option (Sources S × ℕ × List ℕ)
  dec_detail name off len pos none ys bs = none
  dec_detail name off len pos (some q) ys bs =
      let read = ops.deser_high q bs in
      if off == pos
      then (if len == 0
          then some (ys, pos, bs)
          else (if length bs - length read.1 == len
              then some (set_dsn ys name read.0, pos + len, read.1)
              else none))
      else none

  -- The third loop for one entry.
  unfoldable pub dec_low : List ℕ → Option S → Sources S → Sources S
  dec_low name none ys = ys
  dec_low name (some q) ys = set_dsn ys name (ops.deser_low q)

  abbrev pub if_found : Option S → Option (List SumEntry × List ℕ) → Option (List SumEntry × List ℕ)
  if_found none r = none
  if_found (some q) r = r

  -- The first loop, over `cnt` entries.
  unfoldable pub dec_summary : Sources S → ℕ → List ℕ → Option (List SumEntry × List ℕ)
  dec_summary ys zero bs = some ([], bs)
  dec_summary ys (suc cnt) bs = elim (dec_entry bs) [
    | none ↦ none
    | some ((name, off, len), t) ↦
        if_found (find_dsn_by_name ys name) (entry_onto (name, off, len) (dec_summary ys cnt t))
  ]

  unfoldable pub dec_details : List SumEntry → ℕ → Sources S → List ℕ → Option (Sources S)
  dec_details [] pos ys bs = some ys
  dec_details ((name, off, len) ∷ es) pos ys bs =
      elim (dec_detail name off len pos (find_dsn_by_name ys name) ys bs) [
        | none ↦ none
        | some (ys', pos', bs') ↦ dec_details es pos' ys' bs'
      ]

  unfoldable pub dec_lows : List SumEntry → Sources S → Sources S
  dec_lows [] ys = ys
  dec_lows ((name, off, len) ∷ es) ys = dec_lows es (dec_low name (find_dsn_by_name ys name) ys)

  abbrev pub lowered : List SumEntry → Option (Sources S) → Option (Sources S)
  lowered es none = none
  lowered es (some ys) = some (dec_lows es ys)

  unfoldable pub load_body : ℕ → Sources S → Option (List SumEntry × List ℕ) → Option (Sources S)
  load_body cnt ys none = none
  load_body cnt ys (some (es, bs)) =
      lowered es (dec_details es (head_size + entry_size * cnt) ys bs)

  abbrev pub load_entries : Sources S → ℕ → Option (ℕ × List ℕ) → Option (Sources S)
  load_entries ys cnt none = none
  load_entries ys cnt (some (ver, bs)) = load_body cnt ys (dec_summary ys cnt bs)

  abbrev pub load_counted : Sources S → Option (ℕ × List ℕ) → Option (Sources S)
  load_counted ys none = none
  load_counted ys (some (cnt, bs)) = load_entries ys cnt (dec32 bs)

  -- The magic is not looked at.
  unfoldable pub load_from_mem : Sources S → List ℕ → Option (Sources S)
  load_from_mem ys bs = load_counted ys (dec32 (drop 8 bs))
