-- ===== src/Msm/Trip.antt =====
-- What load_from_mem of src/msm.c reads of the head and the summary that dump_to_mem wrote.
use leitner.Common.{ℕ, ◌+◌, ◌*◌, ◌≡◌, some, List, [], ◌∷◌, ◌++◌, length, codes, take, drop}
use leitner.Msm.Bytes.{enc32, enc_name}
use leitner.Msm.Dump.{
  PoolOps, Sources, SumEntry, head_size, entry_size, summary, details, load_body, load_from_mem,
}

-- Each entry has its source's name and length, and at its offset the text has the source's bytes.
abbrev pub Locates : {S : Type 0} → PoolOps S → List ℕ → Sources S → List SumEntry → Type 0
Locates ops text [] [] = Unit
Locates ops text [] (e ∷ es) = ⊥
Locates ops text (x ∷ xs) [] = ⊥
Locates ops text ((n, p) ∷ xs) ((m, off, len) ∷ es) =
    (m ≡ n)
    × (len ≡ length (ops.ser p))
    × (take len (drop off text) ≡ ops.ser p)
    × Locates ops text xs es

-- The load comes to the details with entries that locate them.
pub record ReadsEntries {S : Type 0} (ops : PoolOps S) (xs ys : Sources S) (text : List ℕ)
    : Type 0 where
  pub entries : List SumEntry
  pub located : Locates ops text xs entries
  pub read :
      load_from_mem ops ys text ≡ load_body ops (length xs) ys (some (entries, details ops xs))

module _ {S : Type 0} (ops : PoolOps S) where
  -- The head and the summary of a dump.
  abbrev front : Sources S → List ℕ
  front xs =
      (enc_name 8 (codes "MSM") ++ (enc32 (length xs) ++ enc32 1))
      ++ summary ops (head_size + entry_size * length xs) xs
