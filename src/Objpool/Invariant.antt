-- ===== src/Objpool/Invariant.antt =====
-- What holds of the pools of src/objpool.c: each slab's free list and the objects in use share out
-- the slab, and the counters agree.
use native.Mathlib.Decide.{ℕ_discrete}
use mathlib.Core.Path.{subst}
use leitner.Common.{ℕ, ◌+◌, ◌*◌, ◌≤◌, ◌<◌, ◌≡◌, ◌≢◌, refl, sym, ap, arith, some, List, [], ◌∷◌}
use leitner.Common.{count, length, update, update_self, update_ne, u32, ==_self, ==-ne}
use leitner.Objpool.{Ptr, at, ObjPool, obj_num, word_size}
use leitner.Objpool.Ops.{write}
use leitner.Objpool.FreeList.{Chain, Chain-write, slots}

abbrev pub sum_over : List ℕ → (ℕ → ℕ) → ℕ
sum_over [] f = 0
sum_over (b ∷ bs) f = f b + sum_over bs f

pub sum_over-other :
    (bs : List ℕ) (f g : ℕ → ℕ)
    → ((b : ℕ) → 0 < count b bs → f b ≡ g b)
    → sum_over bs f ≡ sum_over bs g
sum_over-other [] f g h = refl
sum_over-other (b ∷ bs) f g h =
    omega (arith, h b (ground arith), sum_over-other bs f g (λ c i. h c (omega arith)))

pub sum_over_change :
    (bs : List ℕ) (b : ℕ) (f g : ℕ → ℕ)
    → count b bs ≡ 1
    → ((c : ℕ) → b ≢ c → f c ≡ g c)
    → sum_over bs f + g b ≡ sum_over bs g + f b
sum_over_change [] b f g h e = absurd (omega (arith, h))
sum_over_change (a ∷ bs) b f g h e = elim (ℕ_discrete b a) [
  | yes same ↦ omega (
    arith,
    ap f same,
    ap g same,
    sum_over-other bs f g (λ c i. e c (λ q. absurd (ground (arith, same)))),
  )
  | no other ↦ omega (arith, sum_over_change bs b f g (ground arith) e, e a other)
]

pub sum_over-update :
    (bs : List ℕ) (b : ℕ) (f : ℕ → List ℕ) (xs : List ℕ)
    → count b bs ≡ 1
    → sum_over bs (λ c. length (f c)) + length xs
      ≡ sum_over bs (λ c. length (update f b xs c)) + length (f b)
sum_over-update bs b f xs h = omega (
  arith,
  sum_over_change bs b (λ c. length (f c)) (λ c. length (update f b xs c)) h
      (λ c ne. ap length (sym (update_ne f b xs c ne))),
  ap length (update_self f b xs),
)

-- For each block, the offsets of the objects in use, and of the free ones in the order of the list.
pub record Sound (p : ObjPool) (live frees : ℕ → List ℕ) : Type 0 where
  pub real : p.real_obj_size ≡ p.obj_size + word_size
  pub size : p.slab_size ≡ obj_num * p.real_obj_size
  pub distinct : (b : ℕ) → count b p.slabs ≤ 1
  pub recent : (b : ℕ) → p.recent_slab ≡ some b → 0 < count b p.slabs
  pub shared :
      (b o : ℕ)
      → 0 < count b p.slabs
      → count o (live b) + count o (frees b) ≡ count o (slots p.real_obj_size)
  pub full : (b : ℕ) → 0 < count b p.slabs → length (live b) + length (frees b) ≡ obj_num
  pub outside : (b o : ℕ) → count b p.slabs ≡ 0 → count o (live b) ≡ 0
  pub chained : (b : ℕ) → 0 < count b p.slabs → Chain p.links p.obj_size b (p.slab b).free (frees b)
  pub busy : (b o : ℕ) → 0 < count o (live b) → p.links b (o + p.obj_size) ≡ at b 0
  pub slab_count : p.slab_nr ≡ u32 (length p.slabs)
  pub obj_count : p.obj_nr ≡ u32 (obj_num * length p.slabs)
  pub free_count : p.free_obj_nr ≡ u32 (sum_over p.slabs (λ b. length (frees b)))

-- An object that changes sides, in a slab of the pool.
module _ (p : ObjPool) (live frees : ℕ → List ℕ) (s : Sound p live frees) (b o n : ℕ) (q v : Ptr)
    (ls fs : List ℕ) (inside : 0 < count b p.slabs) where
  abbrev pub moved : ObjPool
  moved = record p {
    slab = update p.slab b (record { free = q; id = (p.slab b).id });
    links = write p.links b (o + p.obj_size) v;
    free_obj_nr = n;
  }

  pub moved-Sound :
      Chain moved.links p.obj_size b q fs
      → ((k : ℕ) → count k ls + count k fs ≡ count k (live b) + count k (frees b))
      → length ls + length fs ≡ length (live b) + length (frees b)
      → ((k : ℕ) → 0 < count k ls → moved.links b (k + p.obj_size) ≡ at b 0)
      → n ≡ u32 (sum_over p.slabs (λ c. length (update frees b fs c)))
      → Sound moved (update live b ls) (update frees b fs)
  moved-Sound chain same lengths own number = record {
    real = s.real;
    size = s.size;
    distinct = s.distinct;
    recent = s.recent;
    shared = λ c k i. elim (ℕ_discrete b c) [
      | yes e ↦ ground (arith, same k, s.shared b k)
      | no ne ↦ ground (arith, s.shared c k)
    ];
    full = λ c i. elim (ℕ_discrete b c) [
      | yes e ↦ ground (arith, lengths, s.full b)
      | no ne ↦ ground (arith, s.full c)
    ];
    outside = λ c k i. ground (arith, s.outside c k);
    chained = λ c i. elim (ℕ_discrete b c) [
      | yes e ↦
          subst (λ d. Chain moved.links p.obj_size d (moved.slab d).free (update frees b fs d)) e
            (here chain)
      | no ne ↦ there c ne (s.chained c i)
    ];
    busy = λ c k i. elim (ℕ_discrete b c) [
      | yes e ↦ ground (arith, own k)
      | no ne ↦ ground (arith, s.busy c k)
    ];
    slab_count = s.slab_count;
    obj_count = s.obj_count;
    free_count = number;
  }
    where
      here :
          Chain moved.links p.obj_size b q fs
          → Chain moved.links p.obj_size b (moved.slab b).free (update frees b fs b)
      here h = rw (update_self frees b fs, ==_self b) h

      there :
          (c : ℕ)
          → b ≢ c
          → Chain p.links p.obj_size c (p.slab c).free (frees c)
          → Chain moved.links p.obj_size c (moved.slab c).free (update frees b fs c)
      there c ne h =
          rw (==-ne b c ne) (
            Chain-write p.links p.obj_size c (p.slab c).free (frees c) b o v (λ e. absurd (ne e)) h)
