-- ===== src/Msm/Loaded.antt =====
-- Data sources that msm_load of src/msm.c filled are not dumped again.
use mathlib.Core.Path.{subst}
use leitner.Common.{ℕ, ◌+◌, ◌≡◌, refl, Bool, true, false, Option, none, some, List, if◌then◌else◌}
use leitner.Msm.Dump.{PoolOps, Sources, load_from_mem}
use leitner.Msm.Save.{
  msm_file, msm_mem, msm_rdonly, has_flag, failed, Load, not_loaded, stopped, loaded, load_into,
  load_file, msm_load, msm_dump,
}

-- The flags of a load are read-only ones.
Marked : {S : Type 0} → Load S → Type 0
Marked not_loaded = Unit
Marked stopped = Unit
Marked (loaded flags ys) = has_flag flags msm_rdonly ≡ true

module _ {S : Type 0} (ops : PoolOps S) where
  into-Marked :
      (flags : ℕ) (r : Option (Sources S))
      → has_flag flags msm_rdonly ≡ true
      → Marked (load_into ops flags r)
  unfolding Marked
  into-Marked flags none h = tt
  into-Marked flags (some ys) h = h

  file-Marked : (ys : Sources S) (file : Option (List ℕ)) → Marked (load_file ops ys file)
  unfolding Marked
  file-Marked ys none = tt
  file-Marked ys (some text) = into-Marked (msm_file + msm_rdonly) (load_from_mem ops ys text) refl

  branch-Marked : (b : Bool) (r r' : Load S) → Marked r → Marked r' → Marked (if b then r else r')
  branch-Marked true r r' h h' = h
  branch-Marked false r r' h h' = h'

  msm_load-Marked :
      (mode : ℕ) (file : Option (List ℕ)) (text : List ℕ) (ys : Sources S)
      → Marked (msm_load ops mode file text ys)
  unfolding msm_load Marked
  msm_load-Marked mode file text ys =
      branch-Marked (has_flag mode msm_file) _ _ (file-Marked ys file) (
        branch-Marked (has_flag mode msm_mem) _ _
          (into-Marked (msm_mem + msm_rdonly) (load_from_mem ops ys text) refl) tt)

  -- Whatever msm_load loaded, with the flags that it leaves no mode of msm_dump writes anything or gives
  -- a size: it fails.
  pub msm_dump-msm_load :
      (mode mode' flags pa_sz : ℕ) (file : Option (List ℕ)) (text : List ℕ)
      (opened has_memory : Bool)
      → (xs ys ys' : Sources S) → msm_load ops mode file text ys ≡ loaded flags ys'
      → msm_dump ops flags mode' opened has_memory pa_sz xs ≡ failed
  unfolding msm_dump Marked
  msm_dump-msm_load mode mode' flags pa_sz file text opened has_memory xs ys ys' h =
      rw (subst Marked h (msm_load-Marked mode file text ys)) refl
