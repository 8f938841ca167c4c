-- ===== src/Cvsp/Serving.antt =====
-- cvsp_alloc of src/cvspool.c on a pool of valid trunks.
use leitner.Common.{
  ℕ, zero, suc, ◌+◌, ◌≡◌, ◌≤◌, ◌<◌, ◌⊎◌, inl, inr, refl, arith, List, [], ◌∷◌, some, none, Option,
  false, ltb, ◌==◌, Bool-cases, ==_iff, u32, ltb→lt,
}
use leitner.Cvsp.Nodes.{◌>>=◌, blk_slots}
use leitner.Cvsp.Trunk.{CvspoolTrunk}
use leitner.Cvsp.Alloc.{CvspPool, trunk_alloc, trunks_alloc, need_slots_of, first_total, Allocated}
use leitner.Cvsp.Pool.{Mallocs, rescan, checked_alloc, cvsp_alloc, scanned}
use leitner.Cvsp.Tiles.{Node}
use leitner.Cvsp.Search.{Misses}
use leitner.Cvsp.Give.{ValidTrunk, Given, Gives}
use leitner.Cvsp.Allocation.{trunk_alloc-Gives}

-- The nodes of each trunk.
abbrev pub ValidTrunks : List CvspoolTrunk → List (List Node) → Type 0
ValidTrunks [] [] = Unit
ValidTrunks [] (ns ∷ nss) = ⊥
ValidTrunks (t ∷ ts) [] = ⊥
ValidTrunks (t ∷ ts) (ns ∷ nss) = ((fs : List ℕ) × ValidTrunk t ns fs) × ValidTrunks ts nss

abbrev pub AllMiss : ℕ → List (List Node) → Type 0
AllMiss need [] = Unit
AllMiss need (ns ∷ nss) = Misses need ns × AllMiss need nss

-- The first trunk with room gives, the others are as they were.
pub data GivenFrom (need id slot : ℕ)
    : List CvspoolTrunk → List (List Node) → List CvspoolTrunk → Type 0 where
  here :
      {t t' : CvspoolTrunk} {ts : List CvspoolTrunk} {ns : List Node} {nss : List (List Node)}
      → Given t ns need t' slot
      → id ≡ t.id
      → GivenFrom need id slot (t ∷ ts) (ns ∷ nss) (t' ∷ ts)
  behind :
      {t : CvspoolTrunk} {ts ts' : List CvspoolTrunk} {ns : List Node} {nss : List (List Node)}
      → Misses need ns
      → GivenFrom need id slot ts nss ts'
      → GivenFrom need id slot (t ∷ ts) (ns ∷ nss) (t ∷ ts')

abbrev pub TrunksGive :
    List CvspoolTrunk → List (List Node) → ℕ → Option (Option (List CvspoolTrunk × ℕ × ℕ)) → Type 0
TrunksGive ts nss need none = ⊥
TrunksGive ts nss need (some none) = AllMiss need nss
TrunksGive ts nss need (some (some (ts', id, slot))) = GivenFrom need id slot ts nss ts'

pub trunks_alloc-TrunksGive :
    (ts : List CvspoolTrunk) (nss : List (List Node)) (need : ℕ)
    → ValidTrunks ts nss
    → 3 ≤ need
    → TrunksGive ts nss need (trunks_alloc ts need)
unfolding trunks_alloc
trunks_alloc-TrunksGive [] [] need v pos = tt
trunks_alloc-TrunksGive [] (ns ∷ nss) need v pos = absurd v
trunks_alloc-TrunksGive (t ∷ ts) [] need v pos = absurd v
trunks_alloc-TrunksGive (t ∷ ts) (ns ∷ nss) need ((fs, v), vs) pos =
    step (trunk_alloc t need) (trunks_alloc ts need) (trunk_alloc-Gives t ns fs need v pos)
      (trunks_alloc-TrunksGive ts nss need vs pos)
  where
    step :
        (r : Option (Option (CvspoolTrunk × ℕ))) (rs : Option (Option (List CvspoolTrunk × ℕ × ℕ)))
        → Gives t ns need r
        → TrunksGive ts nss need rs
        → TrunksGive (t ∷ ts) (ns ∷ nss) need (
            r >>= λ r. elim r [
              | some (t', slot) ↦ some (some (t' ∷ ts, t.id, slot))
              | none ↦ rs >>= λ r. elim r [
                | some (ts', id, slot) ↦ some (some (t ∷ ts', id, slot))
                | none ↦ some none
              ]
            ])
    step none rs g gs = g
    step (some (some (t', slot))) rs g gs = here g refl
    step (some none) none g gs = gs
    step (some none) (some none) g gs = (g, gs)
    step (some none) (some (some (ts', id, slot))) g gs = behind g gs

-- What a call is to return: NULL, and then the pool is as it was and full, or its first trunk is smaller
-- than the request, or no trunk has room; or a slot of the first trunk with room.
abbrev pub Serves : CvspPool → List (List Node) → ℕ → Option Allocated → Type 0
Serves sp nss need none = ⊥
Serves sp nss need (some (sp', none)) =
    (sp' ≡ sp) × ((sp.used ≡ sp.total) ⊎ ((first_total sp.trunk_list < need) ⊎ AllMiss need nss))
Serves sp nss need (some (sp', some (id, slot))) =
    GivenFrom need id slot sp.trunk_list nss sp'.trunk_list × (sp'.used ≡ u32 (sp.used + need))

pub need_slots_of-ge : (size : ℕ) → 3 ≤ need_slots_of size
unfolding need_slots_of
need_slots_of-ge size = ground arith

not_less : (a b : ℕ) → b ≤ a → ltb a b ≡ false
not_less a b le = ground (arith, le)

scanned-Serves :
    (sp : CvspPool) (nss : List (List Node)) (need : ℕ) (again : Option Allocated)
    (r : Option (Option (List CvspoolTrunk × ℕ × ℕ)))
    → sp.autoex ≡ false
    → TrunksGive sp.trunk_list nss need r
    → Serves sp nss need (r >>= λ r. scanned sp need r again)
scanned-Serves sp nss need again none off h = h
scanned-Serves sp nss need again (some none) off h = rw (off) (refl, inr (inr h))
scanned-Serves sp nss need again (some (some (ts', id, slot))) off h = (h, refl)

rescan-Serves :
    (answers : Mallocs) (sp : CvspPool) (nss : List (List Node)) (need : ℕ)
    → ValidTrunks sp.trunk_list nss
    → sp.autoex ≡ false
    → 3 ≤ need
    → Serves sp nss need (rescan answers sp need)
unfolding rescan
rescan-Serves [] sp nss need v off pos =
    scanned-Serves sp nss need none (trunks_alloc sp.trunk_list need) off
      (trunks_alloc-TrunksGive sp.trunk_list nss need v pos)
rescan-Serves (answer ∷ answers) sp nss need v off pos =
    scanned-Serves sp nss need _ (trunks_alloc sp.trunk_list need) off
      (trunks_alloc-TrunksGive sp.trunk_list nss need v pos)

-- A pool of valid trunks of one block that may not grow serves each request of at most a block: it
-- returns NULL and stays as it was only if it is full, its first trunk is smaller than the request, or no
-- trunk has a free node that fits; else the first trunk that has one gives its slots, and the slots in
-- use grow by the slots needed.
pub cvsp_alloc-Serves :
    (answers : Mallocs) (sp : CvspPool) (nss : List (List Node)) (size : ℕ)
    → ValidTrunks sp.trunk_list nss
    → sp.autoex ≡ false
    → need_slots_of size ≤ blk_slots
    → Serves sp nss (need_slots_of size) (cvsp_alloc answers sp size)
unfolding cvsp_alloc checked_alloc
cvsp_alloc-Serves answers sp nss size v off fits =
    let need : ℕ = need_slots_of size in
    elim (Bool-cases (sp.used == sp.total)) [
      | inl u ↦ rw (u) (rw (off) (refl, inl ((==_iff sp.used sp.total).0 u)))
      | inr u ↦ rw (u) (
          rw (not_less blk_slots need fits)
            (elim (Bool-cases (ltb (first_total sp.trunk_list) need)) [
              | inl w ↦ rw (w) (refl, inr (inl (ltb→lt (first_total sp.trunk_list) need w)))
              | inr w ↦ rw (w) (rescan-Serves answers sp nss need v off (need_slots_of-ge size))
            ]))
    ]

-- malloc that gives no memory.
abbrev pub nones : ℕ → Mallocs
nones zero = []
nones (suc k) = none ∷ nones k
