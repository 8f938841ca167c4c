-- ===== src/Objpool/Free.antt =====
-- objpool_free of src/objpool.c.
use mathlib.Core.Path.{subst}
use leitner.Common.{
  ℕ, ◌+◌, ◌≤◌, ◌<◌, ◌≡◌, ◌≢◌, refl, sym, ap, ◌∙◌, arith, Option, some, List, [], ◌∷◌,
}
use leitner.Common.{◌⊎◌, ◌==◌, if◌then◌else◌, count, length, update, u32, inc32}
use leitner.Objpool.{at, ObjPool}
use leitner.Objpool.Ops.{objpool_free, freed_into}
use leitner.Objpool.FreeList.{Chain, Chain-write, slots, slots_once, write_self, write_other}
use leitner.Objpool.Invariant.{Sound, moved, moved-Sound, sum_over, sum_over-update}

abbrev pub remove_one : ℕ → List ℕ → List ℕ
remove_one o [] = []
remove_one o (x ∷ xs) = if x == o then xs else x ∷ remove_one o xs

pub count-remove_one :
    (o k : ℕ) (xs : List ℕ)
    → 0 < count o xs
    → count k (remove_one o xs) + (if o == k then 1 else 0) ≡ count k xs
count-remove_one o k [] h = absurd (omega (arith, h))
count-remove_one o k (x ∷ xs) h = ground (arith, count-remove_one o k xs)

length-remove_one :
    (o : ℕ) (xs : List ℕ) → 0 < count o xs → length (remove_one o xs) + 1 ≡ length xs
length-remove_one o [] h = absurd (omega (arith, h))
length-remove_one o (x ∷ xs) h = ground (arith, length-remove_one o xs)

abbrev pub give_back : (ℕ → List ℕ) → ℕ → ℕ → ℕ → List ℕ
give_back live b o = update live b (remove_one o (live b))

-- A call took an object back, to the front of its slab's free list.
pub record Frees (p : ObjPool) (live frees : ℕ → List ℕ) (b o : ℕ) (r : Option ObjPool)
    : Type 0 where
  pub after : ObjPool
  pub returned : r ≡ some after
  pub sound : Sound after (give_back live b o) (update frees b (o ∷ frees b))
  pub words : (c k : ℕ) → (b ≢ c) ⊎ (o + p.obj_size ≢ k) → after.links c k ≡ p.links c k
  pub lists : (c : ℕ) → b ≢ c → after.slab c ≡ p.slab c
  pub counted : after.free_obj_nr ≡ inc32 p.free_obj_nr
  pub same_bytes : after.bytes ≡ p.bytes
  pub same_slabs : after.slabs ≡ p.slabs
  pub same_size : after.obj_size ≡ p.obj_size
  pub same_real : after.real_obj_size ≡ p.real_obj_size

module _ (p : ObjPool) (live frees : ℕ → List ℕ) (s : Sound p live frees) (b o : ℕ)
    (used : 0 < count o (live b)) where
  in_pool : 0 < count b p.slabs
  in_pool = ground (arith, s.outside b o)

  not_free : count o (frees b) ≡ 0
  not_free =
      omega (arith, s.shared b o in_pool, slots_once p.real_obj_size o (omega (arith, s.real)))

  one_more :
      inc32 p.free_obj_nr ≡ u32 (sum_over p.slabs (λ c. length (update frees b (o ∷ frees b) c)))
  one_more = omega (
    arith,
    s.free_count,
    in_pool,
    sum_over-update p.slabs b frees (o ∷ frees b) (omega (arith, s.distinct b, in_pool)),
  )

  still_used : (k : ℕ) → 0 < count k (remove_one o (live b)) → (o ≢ k) × (0 < count k (live b))
  still_used k i = (
    λ e. absurd (omega (arith, s.shared b o in_pool, once, ap (λ t. count t kept) e, gone, i)),
    omega (arith, count-remove_one o k (live b) used),
  )
    where
      kept : List ℕ
      kept = remove_one o (live b)

      once : count o (slots p.real_obj_size) ≤ 1
      once = slots_once p.real_obj_size o (omega (arith, s.real))

      gone : count o kept + 1 ≡ count o (live b)
      gone = ground (arith, count-remove_one o o (live b) used)

  pub objpool_free-Frees : Frees p live frees b o (objpool_free p (at b o))
  unfolding objpool_free freed_into
  objpool_free-Frees = record {
    after = freed;
    returned = rw (s.busy b o used, freed_into) refl;
    sound =
        moved-Sound p live frees s b o (inc32 p.free_obj_nr) (at b o) (p.slab b).free
          (remove_one o (live b)) (o ∷ frees b) in_pool chain
          (λ k. omega (arith, count-remove_one o k (live b) used))
          (omega (arith, length-remove_one o (live b) used)) still one_more;
    words = λ c k ne. ground (arith, ne);
    lists = λ c ne. ground (arith, ne);
    counted = refl;
    same_bytes = refl;
    same_slabs = refl;
    same_size = refl;
    same_real = refl;
  }
    where
      freed : ObjPool
      freed =
          moved p live frees s b o (inc32 p.free_obj_nr) (at b o) (p.slab b).free
            (remove_one o (live b)) (o ∷ frees b) in_pool

      chain : Chain freed.links p.obj_size b (at b o) (o ∷ frees b)
      chain = (
        refl,
        subst (λ q. Chain freed.links p.obj_size b q (frees b))
            (sym (write_self p.links b (o + p.obj_size) (p.slab b).free))
            (Chain-write p.links p.obj_size b (p.slab b).free (frees b) b o (p.slab b).free
              (λ e. not_free) (s.chained b in_pool)),
      )

      still :
          (k : ℕ) → 0 < count k (remove_one o (live b)) → freed.links b (k + p.obj_size) ≡ at b 0
      still k i =
          let (ne, l) = still_used k i in
          write_other p.links b (o + p.obj_size) (p.slab b).free b (k + p.obj_size)
            (λ e q. absurd (ne (omega arith)))
          ∙ s.busy b k l
