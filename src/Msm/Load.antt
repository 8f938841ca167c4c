-- ===== src/Msm/Load.antt =====
-- The first loop of load_from_mem of src/msm.c on the summary that a dump wrote.
use mathlib.Core.List.{append_assoc}
use leitner.Common.{
  ℕ, ◌+◌, ◌^◌, ◌<◌, ◌≡◌, refl, arith, some, List, [], ◌∷◌, ◌++◌, length, length-append,
}
use leitner.Msm.Bytes.{enc32, dec32-enc32, enc_name, dec_name-enc_name, IsName}
use leitner.Msm.Dump.{
  PoolOps, Sources, SumEntry, summary, details, find_dsn_by_name, dec_entry, dec_summary,
}

-- All names fit into the eight bytes with their NUL.
abbrev pub Short : {S : Type 0} → Sources S → Type 0
Short [] = Unit
Short ((n, p) ∷ xs) = IsName 8 n × Short xs

module _ {S : Type 0} (ops : PoolOps S) where
  -- Each source of `xs` has one of its name in `ys`.
  abbrev pub Registered : Sources S → Sources S → Type 0
  Registered [] ys = Unit
  Registered ((n, p) ∷ xs) ys = ((s : S) × (find_dsn_by_name ops ys n ≡ some s)) × Registered xs ys

  abbrev pub entries_of : ℕ → Sources S → List SumEntry
  entries_of pos [] = []
  entries_of pos ((name, p) ∷ xs) =
      (name, pos, length (ops.ser p)) ∷ entries_of (pos + length (ops.ser p)) xs

  dec_entry-bytes :
      (name : List ℕ) (off len : ℕ) (t : List ℕ)
      → IsName 8 name
      → off < 2 ^ 32
      → len < 2 ^ 32
      → dec_entry ((enc_name 8 name ++ (enc32 off ++ enc32 len)) ++ t) ≡ some ((name, off, len), t)
  dec_entry-bytes name off len t nm lt lt' =
      rw (append_assoc (enc_name 8 name) (enc32 off ++ enc32 len) t) (
        rw (dec_name-enc_name 8 name ((enc32 off ++ enc32 len) ++ t) nm) (
          rw (append_assoc (enc32 off) (enc32 len) t)
            (rw (dec32-enc32 off (enc32 len ++ t) lt) (rw (dec32-enc32 len t lt') refl))))

  pub summary-read :
      (xs ys : Sources S) (pos : ℕ) (t : List ℕ)
      → Short xs
      → Registered xs ys
      → pos + length (details ops xs) < 2 ^ 32
      → dec_summary ops ys (length xs) (summary ops pos xs ++ t) ≡ some (entries_of pos xs, t)
  unfolding dec_summary summary details
  summary-read [] ys pos t sh h lt = refl
  summary-read ((n, p) ∷ xs) ys pos t (nm, sh) ((s, e), h) lt =
      let rest : List ℕ = summary ops (pos + length (ops.ser p)) xs in
      let lt' : pos + length (ops.ser p) + length (details ops xs) < 2 ^ 32 =
        omega (arith, lt, length-append (ops.ser p) (details ops xs)) in
      rw (append_assoc (enc_name 8 n ++ (enc32 pos ++ enc32 (length (ops.ser p)))) rest t) (
        rw
          (
            dec_entry-bytes n pos (length (ops.ser p)) (rest ++ t) nm (omega (arith, lt'))
                (omega (arith, lt')),
            dec_summary,
          )
          (rw (e) (rw (summary-read xs ys (pos + length (ops.ser p)) t sh h lt') refl)))
