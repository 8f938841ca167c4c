-- ===== src/Msm/Tests.antt =====
-- A space and its twin, dumped and loaded, and pools of one number each.
use leitner.Common.{
  ℕ, ◌+◌, ◌-◌, ◌≡◌, refl, arith, true, false, none, some, List, [], ◌∷◌, codes, str_eq,
}
use leitner.Cvsp.Trunk.{CvspoolTrunk}
use leitner.Cvsp.Alloc.{CvspPool}
use leitner.Msm.Bytes.{enc32, dec32, enc_name, dec_name}
use leitner.Msm.Dump.{
  PoolOps, Sources, dump_to_mem, load_from_mem, details, summary, dec_summary, dec_details,
  dec_detail, dec_lows, dec_low, find_dsn_by_name, set_dsn, load_body,
}
use leitner.Msm.Save.{Fits, msm_dump, msm_load, failed}
use leitner.Msm.Loaded.{msm_dump-msm_load}
use leitner.Msm.Cvspool.{cvspool_ops, msm_dump-Fits}

-- A space of one trunk of nine slots, whose bytes are all 7.
abbrev trunk : CvspoolTrunk
trunk = record { id = 5; t_total = 9; t_used = 0; t_total_mem = 48; mem = λ a. 1799 }

abbrev space : CvspPool
space = record {
  total = 9;
  used = 0;
  total_mem = 96;
  autoex = false;
  trunk_cnt = 1;
  trunk_list = trunk ∷ [];
}

-- Structs of zeros; a load that reads nothing.
abbrev ops : PoolOps CvspPool
ops = cvspool_ops (λ sp k. 0) (λ t k. 0) (λ sp bs. (sp, bs)) (λ sp. sp)

abbrev spaces : Sources CvspPool
spaces = (codes "texts", space) ∷ ((codes "names", space) ∷ [])

msm_dump-Fits_example : Fits ops 400 spaces (msm_dump ops 0 6 false true 400 spaces)
msm_dump-Fits_example =
    msm_dump-Fits (λ sp k. 0) (λ t k. 0) (λ sp bs. (sp, bs)) (λ sp. sp) 0 6 400 false true spaces
      ((refl, omega arith), ((refl, omega arith), tt))

abbrev one_byte : ℕ → List ℕ → ℕ × List ℕ
one_byte q [] = (q, [])
one_byte q (c ∷ t) = (c + 1, t)

-- A pool that is a number: its bytes are that number, which the first step takes one too large.
abbrev numbers : PoolOps ℕ
numbers = record {
  ser = λ p. p ∷ [];
  deser_high = one_byte;
  deser_low = λ s. s - 1;
  getlen = λ p. 1;
}

abbrev kept : Sources ℕ
kept = (codes "objp", 7) ∷ ((codes "cvsp", 9) ∷ [])

abbrev registered : Sources ℕ
registered = (codes "objv", 3) ∷ ((codes "cvsp", 0) ∷ ((codes "objp", 0) ∷ []))

loaded_again :
    load_from_mem numbers registered (dump_to_mem numbers kept)
    ≡ some ((codes "objv", 3) ∷ ((codes "cvsp", 9) ∷ ((codes "objp", 7) ∷ [])))
unfolding load_from_mem dump_to_mem summary details enc_name enc32 dec32 dec_name dec_summary
    dec_details dec_detail dec_lows dec_low find_dsn_by_name set_dsn load_body str_eq
loaded_again = refl

loaded_unwritten : msm_dump numbers 34 2 true true 0 kept ≡ failed
unfolding msm_load load_from_mem dump_to_mem summary details enc_name enc32 dec32 dec_name
    dec_summary dec_details dec_detail dec_lows dec_low find_dsn_by_name set_dsn load_body str_eq
loaded_unwritten =
    msm_dump-msm_load numbers 2 2 34 0 none (dump_to_mem numbers kept) true true kept registered
      ((codes "objv", 3) ∷ ((codes "cvsp", 9) ∷ ((codes "objp", 7) ∷ []))) refl
