-- ===== src/Msm/Cvspool.antt =====
-- cvspool_ser and cvspool_ser_getlen of src/cvspool.c, and msm_ser of src/msm.c: dumps of spaces.
use leitner.Common.{
  ℕ, zero, suc, ◌+◌, ◌/◌, ◌%◌, ◌^◌, ◌<◌, ◌≡◌, refl, arith, Bool, Option, none, some, List, [], ◌∷◌,
  ◌++◌, ◌==◌, if◌then◌else◌, length, length-append, u32,
}
use leitner.Cvsp.Nodes.{Mem, half, ◌>>=◌}
use leitner.Cvsp.Trunk.{CvspoolTrunk, cvsp_init_trunk}
use leitner.Cvsp.Alloc.{CvspPool, sizeof_trunk, grown, add_new_trunk}
use leitner.Cvsp.Init.{cvsp_init, slots_num_adjust, init_trunks, made, trunks_mem}
use leitner.Msm.Dump.{PoolOps, Sources}
use leitner.Msm.Save.{Measured, Fits, msm_dump, Measured-Fits}

-- memcpy of `sz` bytes.
unfoldable pub msm_ser : (ℕ → ℕ) → ℕ → List ℕ
msm_ser from zero = []
msm_ser from (suc sz) = from 0 ∷ msm_ser (λ k. from (k + 1)) sz

-- The bytes of a trunk's memory.
abbrev pub mem_byte : Mem → ℕ → ℕ
mem_byte m k = if k % 2 == 0 then half m (k / 2) % 256 else half m (k / 2) / 256

abbrev pub sizeof_cvspool : ℕ
sizeof_cvspool = 64

unfoldable pub cvspool_ser_getlen : CvspPool → ℕ
cvspool_ser_getlen sp = u32 (sizeof_cvspool + sp.total_mem)

-- Each trunk's memory and then the trunk; `trunk_bytes` are the bytes of the struct, its addresses among
-- them.
unfoldable pub ser_trunks : (CvspoolTrunk → ℕ → ℕ) → List CvspoolTrunk → List ℕ
ser_trunks trunk_bytes [] = []
ser_trunks trunk_bytes (t ∷ ts) =
    msm_ser (mem_byte t.mem) t.t_total_mem
    ++ (msm_ser (trunk_bytes t) sizeof_trunk ++ ser_trunks trunk_bytes ts)

unfoldable pub cvspool_ser : (CvspPool → ℕ → ℕ) → (CvspoolTrunk → ℕ → ℕ) → CvspPool → List ℕ
cvspool_ser pool_bytes trunk_bytes sp =
    msm_ser (pool_bytes sp) sizeof_cvspool ++ ser_trunks trunk_bytes sp.trunk_list

length-msm_ser : (from : ℕ → ℕ) (sz : ℕ) → length (msm_ser from sz) ≡ sz
unfolding msm_ser
length-msm_ser from zero = refl
length-msm_ser from (suc sz) = omega (arith, length-msm_ser (λ k. from (k + 1)) sz)

-- The bytes of the trunks, with their memory.
abbrev pub trunks_size : List CvspoolTrunk → ℕ
trunks_size [] = 0
trunks_size (t ∷ ts) = t.t_total_mem + sizeof_trunk + trunks_size ts

-- total_mem counts the bytes of the trunks.
abbrev pub Counted : CvspPool → Type 0
Counted sp = sp.total_mem ≡ u32 (trunks_size sp.trunk_list)

trunks_mem-size : (ts : List CvspoolTrunk) → trunks_mem ts ≡ u32 (trunks_size ts)
trunks_mem-size [] = refl
trunks_mem-size (t ∷ ts) = omega (arith, trunks_mem-size ts)

abbrev pub IsCounted : Option (Option CvspPool) → Type 0
IsCounted none = Unit
IsCounted (some none) = Unit
IsCounted (some (some sp)) = Counted sp

-- A new pool counts its trunks.
pub cvsp_init-Counted :
    (answers : List (Option Mem)) (n : ℕ) (autoex : Bool) → IsCounted (cvsp_init answers n autoex)
unfolding cvsp_init
cvsp_init-Counted answers n autoex = by_size (slots_num_adjust 2 n)
  where
    by_trunks :
        (total : ℕ) (r : Option (Option (List CvspoolTrunk)))
        → IsCounted (r >>= λ r. made total autoex r)
    by_trunks total none = tt
    by_trunks total (some none) = tt
    by_trunks total (some (some ts)) = trunks_mem-size ts

    by_size :
        (r : Option ℕ)
        → IsCounted (r >>= λ total. init_trunks answers 0 total >>= λ r. made total autoex r)
    by_size none = tt
    by_size (some total) = by_trunks total (init_trunks answers 0 total)

-- A pool that has grown counts its trunks.
pub add_new_trunk-Counted :
    (sp : CvspPool) (n : ℕ) (answer : Option Mem)
    → Counted sp
    → IsCounted (add_new_trunk sp n answer)
unfolding add_new_trunk
add_new_trunk-Counted sp n none c = tt
add_new_trunk-Counted sp n (some malloced) c = by_trunk (cvsp_init_trunk sp.trunk_cnt n malloced)
  where
    by_trunk : (r : Option CvspoolTrunk) → IsCounted (r >>= λ t. some (some (grown sp n t)))
    by_trunk none = tt
    by_trunk (some t) = omega (arith, c)

length-ser_trunks :
    (trunk_bytes : CvspoolTrunk → ℕ → ℕ) (ts : List CvspoolTrunk)
    → length (ser_trunks trunk_bytes ts) ≡ trunks_size ts
unfolding ser_trunks
length-ser_trunks trunk_bytes [] = refl
length-ser_trunks trunk_bytes (t ∷ ts) = omega (
  arith,
  length-append (msm_ser (mem_byte t.mem) t.t_total_mem)
      (msm_ser (trunk_bytes t) sizeof_trunk ++ ser_trunks trunk_bytes ts),
  length-append (msm_ser (trunk_bytes t) sizeof_trunk) (ser_trunks trunk_bytes ts),
  length-msm_ser (mem_byte t.mem) t.t_total_mem,
  length-msm_ser (trunk_bytes t) sizeof_trunk,
  length-ser_trunks trunk_bytes ts,
)

module _ (pool_bytes : CvspPool → ℕ → ℕ) (trunk_bytes : CvspoolTrunk → ℕ → ℕ)
    (deser_high : CvspPool → List ℕ → CvspPool × List ℕ) (deser_low : CvspPool → CvspPool) where
  -- What is registered for PT_CVSP; a dump calls the first two only.
  abbrev pub cvspool_ops : PoolOps CvspPool
  cvspool_ops = record {
    ser = cvspool_ser pool_bytes trunk_bytes;
    deser_high = deser_high;
    deser_low = deser_low;
    getlen = cvspool_ser_getlen;
  }

  cvspool_ser_getlen-cvspool_ser :
      (sp : CvspPool)
      → Counted sp
      → trunks_size sp.trunk_list + sizeof_cvspool < 2 ^ 32
      → cvspool_ser_getlen sp ≡ length (cvspool_ser pool_bytes trunk_bytes sp)
  unfolding cvspool_ser_getlen cvspool_ser
  cvspool_ser_getlen-cvspool_ser sp c small = omega (
    arith,
    c,
    small,
    length-append (msm_ser (pool_bytes sp) sizeof_cvspool) (ser_trunks trunk_bytes sp.trunk_list),
    length-msm_ser (pool_bytes sp) sizeof_cvspool,
    length-ser_trunks trunk_bytes sp.trunk_list,
  )

  -- All pools count their trunks, in less than four gigabytes.
  abbrev pub AllCounted : Sources CvspPool → Type 0
  AllCounted [] = Unit
  AllCounted ((name, sp) ∷ xs) =
      (Counted sp × (trunks_size sp.trunk_list + sizeof_cvspool < 2 ^ 32)) × AllCounted xs

  all-Measured : (xs : Sources CvspPool) → AllCounted xs → Measured cvspool_ops xs
  all-Measured [] h = tt
  all-Measured ((name, sp) ∷ xs) ((c, small), h) =
      (cvspool_ser_getlen-cvspool_ser sp c small, all-Measured xs h)

  -- In every mode and whatever the system answers, what msm_dump writes of spaces has exactly as many bytes as
  -- ser_osz says, the size that it gives is that of a dump, and it writes into the caller's memory no
  -- more bytes than that has. The total_mem of each space counts the bytes of its trunks, as it does in a
  -- new one and in one that has grown, and they are less than four gigabytes.
  pub msm_dump-Fits :
      (flags mode pa_sz : ℕ) (opened has_memory : Bool) (xs : Sources CvspPool)
      → AllCounted xs
      → Fits cvspool_ops pa_sz xs (msm_dump cvspool_ops flags mode opened has_memory pa_sz xs)
  msm_dump-Fits flags mode pa_sz opened has_memory xs h =
      Measured-Fits cvspool_ops flags mode pa_sz opened has_memory xs (all-Measured xs h)
