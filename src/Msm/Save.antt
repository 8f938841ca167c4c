-- ===== src/Msm/Save.antt =====
-- msm_dump and msm_load of src/msm.c, their modes and sizes.
use leitner.Common.{
  ℕ, ◌+◌, ◌*◌, ◌/◌, ◌%◌, ◌≤◌, ◌≡◌, inl, inr, refl, sym, arith, Bool, true, false, Option, none,
  some, List, [], ◌∷◌, ◌++◌, ◌==◌, ltb, if◌then◌else◌, length, length-append, Bool-cases,
}
use leitner.Msm.Bytes.{enc32, enc_name, length-enc_name}
use leitner.Msm.Dump.{
  PoolOps, Sources, head_size, entry_size, summary, details, dump_to_mem, load_from_mem,
}

abbrev pub msm_file : ℕ
msm_file = 1

abbrev pub msm_mem : ℕ
msm_mem = 2

abbrev pub msm_preallocd : ℕ
msm_preallocd = 4

abbrev pub msm_getsize : ℕ
msm_getsize = 16

abbrev pub msm_rdonly : ℕ
msm_rdonly = 32

-- flags & bit
abbrev pub has_flag : ℕ → ℕ → Bool
has_flag flags bit = flags / bit % 2 == 1

-- What msm_dump does: it fails, or writes a file, the caller's memory or memory of its own, or gives the
-- size. Without memory it logs and writes to a null pointer.
pub data Dumped : Type 0 where
  failed : Dumped
  to_file : List ℕ → Dumped
  into : List ℕ → Dumped
  fresh : ℕ → List ℕ → Dumped
  size_out : ℕ → Dumped
  null_written : Dumped

pub data Load (S : Type 0) : Type 0 where
  not_loaded : Load S
  stopped : Load S
  loaded : ℕ → Sources S → Load S

module _ {S : Type 0} (ops : PoolOps S) where
  unfoldable pub lens : Sources S → ℕ
  lens [] = 0
  lens ((name, p) ∷ xs) = ops.getlen p + lens xs

  unfoldable pub ser_osz : Sources S → ℕ
  ser_osz xs = head_size + length xs * entry_size + lens xs

  abbrev pub to_mem : ℕ → Bool → ℕ → Sources S → Dumped
  to_mem mode has_memory pa_sz xs =
      if has_flag mode msm_preallocd
      then (if ltb pa_sz (ser_osz xs) then failed else into (dump_to_mem ops xs))
      else (if has_memory then fresh (ser_osz xs) (dump_to_mem ops xs) else null_written)

  -- `opened` says whether mmap_output_file gives a mapping of that size, `has_memory` what malloc does.
  unfoldable pub msm_dump : ℕ → ℕ → Bool → Bool → ℕ → Sources S → Dumped
  msm_dump flags mode opened has_memory pa_sz xs =
      if has_flag flags msm_rdonly
      then failed
      else (if has_flag mode msm_file
          then (if opened then to_file (dump_to_mem ops xs) else failed)
          else (if has_flag mode msm_mem
              then to_mem mode has_memory pa_sz xs
              else (if has_flag mode msm_getsize then size_out (ser_osz xs) else failed)))

  abbrev pub load_into : ℕ → Option (Sources S) → Load S
  load_into flags none = stopped
  load_into flags (some ys) = loaded flags ys

  abbrev pub load_file : Sources S → Option (List ℕ) → Load S
  load_file ys none = not_loaded
  load_file ys (some text) = load_into (msm_file + msm_rdonly) (load_from_mem ops ys text)

  -- `file` is what mmap_file maps, `text` the memory of the caller.
  unfoldable pub msm_load : ℕ → Option (List ℕ) → List ℕ → Sources S → Load S
  msm_load mode file text ys =
      if has_flag mode msm_file
      then load_file ys file
      else (if has_flag mode msm_mem
          then load_into (msm_mem + msm_rdonly) (load_from_mem ops ys text)
          else not_loaded)

  -- What is written has the size that ser_osz says, and fits into the memory of the caller.
  unfoldable pub Fits : ℕ → Sources S → Dumped → Type 0
  Fits pa_sz xs failed = Unit
  Fits pa_sz xs (to_file bs) = length bs ≡ ser_osz xs
  Fits pa_sz xs (into bs) = (length bs ≡ ser_osz xs) × length bs ≤ pa_sz
  Fits pa_sz xs (fresh n bs) = (n ≡ ser_osz xs) × (length bs ≡ n)
  Fits pa_sz xs (size_out n) = n ≡ length (dump_to_mem ops xs)
  Fits pa_sz xs null_written = Unit

  pub length-summary :
      (pos : ℕ) (xs : Sources S) → length (summary ops pos xs) ≡ length xs * entry_size
  unfolding summary enc32
  length-summary pos [] = refl
  length-summary pos ((name, p) ∷ xs) =
      let more : ℕ = pos + length (ops.ser p) in
      omega (
        arith,
        length-summary more xs,
        length-enc_name 8 name,
        length-append (enc_name 8 name) (enc32 pos ++ enc32 (length (ops.ser p))),
        length-append (enc_name 8 name ++ (enc32 pos ++ enc32 (length (ops.ser p))))
            (summary ops more xs),
      )

  -- getlen gives the number of bytes of each source.
  abbrev pub Measured : Sources S → Type 0
  Measured [] = Unit
  Measured ((name, p) ∷ xs) = (ops.getlen p ≡ length (ops.ser p)) × Measured xs

  length-details : (xs : Sources S) → Measured xs → length (details ops xs) ≡ lens xs
  unfolding details lens
  length-details [] h = refl
  length-details ((name, p) ∷ xs) (e, h) =
      omega (arith, length-details xs h, e, length-append (ops.ser p) (details ops xs))

  length-dump_to_mem : (xs : Sources S) → Measured xs → length (dump_to_mem ops xs) ≡ ser_osz xs
  unfolding dump_to_mem ser_osz enc32 enc_name
  length-dump_to_mem xs h =
      let pos : ℕ = head_size + entry_size * length xs in
      omega (
        arith,
        length-summary pos xs,
        length-details xs h,
        length-append (summary ops pos xs) (details ops xs),
      )

  branch-Fits :
      (pa_sz : ℕ) (xs : Sources S) (b : Bool) (r r' : Dumped)
      → Fits pa_sz xs r
      → Fits pa_sz xs r'
      → Fits pa_sz xs (if b then r else r')
  branch-Fits pa_sz xs true r r' h h' = h
  branch-Fits pa_sz xs false r r' h h' = h'

  into-Fits :
      (pa_sz : ℕ) (xs : Sources S)
      → Measured xs
      → Fits pa_sz xs (if ltb pa_sz (ser_osz xs) then failed else into (dump_to_mem ops xs))
  unfolding Fits
  into-Fits pa_sz xs h = elim (Bool-cases (ltb pa_sz (ser_osz xs))) [
    | inl e ↦ rw (e) tt
    | inr e ↦ rw (e) (length-dump_to_mem xs h, ground (arith, e, length-dump_to_mem xs h))
  ]

  pub Measured-Fits :
      (flags mode pa_sz : ℕ) (opened has_memory : Bool) (xs : Sources S)
      → Measured xs
      → Fits pa_sz xs (msm_dump flags mode opened has_memory pa_sz xs)
  unfolding msm_dump Fits
  Measured-Fits flags mode pa_sz opened has_memory xs h =
      let dumped : length (dump_to_mem ops xs) ≡ ser_osz xs = length-dump_to_mem xs h in
      let br = branch-Fits pa_sz xs in
      br (has_flag flags msm_rdonly) _ _ tt (
        br (has_flag mode msm_file) _ _ (br opened _ _ dumped tt) (
          br (has_flag mode msm_mem) _ _
            (br (has_flag mode msm_preallocd) _ _ (into-Fits pa_sz xs h)
              (br has_memory _ _ (refl, dumped) tt))
            (br (has_flag mode msm_getsize) _ _ (sym dumped) tt)))
