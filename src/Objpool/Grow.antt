-- ===== src/Objpool/Grow.antt =====
-- add_new_slab of src/objpool.c: the loop of init_slab ends, and links all objects of the slab.
use native.Mathlib.Decide.{ℕ_discrete}
use mathlib.Core.Path.{subst}
use leitner.Common.{ℕ, suc, ◌+◌, ◌-◌, ◌<◌, ◌≡◌, ◌≢◌, refl, sym, ap, ◌∙◌, arith, some, List, [], ◌∷◌}
use leitner.Common.{count, length, update, update_self, update_ne, u32, inc32}
use leitner.Common.{==_self, ==-ne}
use leitner.Objpool.{null, at, Links, ObjPool, obj_num}
use leitner.Objpool.Ops.{write, init_loop, add_new_slab, slab_cache}
use leitner.Objpool.FreeList.{
  Chain, Chain-congr, slots, write_other, length-slots, init_loop-filled, filled, filled-other,
  filled-Chain,
}
use leitner.Objpool.Invariant.{Sound, sum_over, sum_over-other}

length-none : (xs : List ℕ) → ((o : ℕ) → count o xs ≡ 0) → length xs ≡ 0
length-none [] h = refl
length-none (x ∷ xs) h = absurd (ground (arith, h x))

module _ (p : ObjPool) (live frees : ℕ → List ℕ) (s : Sound p live frees) (new : ℕ)
    (fresh : count new p.slabs ≡ 0) where
  abbrev words : Links
  words = filled p.obj_size p.real_obj_size new p.links

  abbrev last : ℕ
  last = slab_cache + p.slab_size - p.real_obj_size

  abbrev pub grown : ObjPool
  grown = record p {
    links = write words new (last + p.obj_size) null;
    slab =
        update (update p.slab new (record { free = at new slab_cache; id = (p.slab new).id })) new
          (record { free = at new slab_cache; id = p.slab_nr });
    slabs = new ∷ p.slabs;
    slab_nr = inc32 p.slab_nr;
    obj_nr = u32 (p.obj_nr + obj_num);
    free_obj_nr = u32 (p.free_obj_nr + obj_num);
  }

  pub add_new_slab-grown : add_new_slab p new ≡ some grown
  add_new_slab-grown = rw loop (rw (==_self new) refl)
    where
      loop :
          init_loop
            (suc p.slab_size)
            p.obj_size
            p.real_obj_size
            new
            slab_cache
            (slab_cache + p.slab_size)
            p.links
          ≡ some (words, slab_cache + p.slab_size)
      loop =
          init_loop-filled (suc p.slab_size) p.obj_size p.real_obj_size new
            (slab_cache + p.slab_size) p.links (omega (arith, s.real))
            (omega (arith, s.size, s.real)) (omega (arith, s.size))

  old_word : (c k : ℕ) → new ≢ c → grown.links c k ≡ p.links c k
  old_word c k ne =
      write_other words new (last + p.obj_size) null c k (λ e. absurd (ne e))
      ∙ filled-other p.obj_size p.real_obj_size new p.links c k ne

  abbrev pub with_slots : ℕ → List ℕ
  with_slots = update frees new (slots p.real_obj_size)

  ne_new : (b : ℕ) → 0 < count b p.slabs → new ≢ b
  ne_new b i q = absurd (omega (arith, fresh, ap (λ t. count t p.slabs) q))

  new_Chain : Chain grown.links p.obj_size new (at new slab_cache) (slots p.real_obj_size)
  new_Chain =
      filled-Chain p.obj_size p.real_obj_size new last p.links (omega (arith, s.real))
        (omega (arith, s.size, s.real))

  Chain-at_new :
      (b : ℕ) → new ≡ b → Chain grown.links p.obj_size b (grown.slab b).free (with_slots b)
  Chain-at_new b e =
      subst (λ c. Chain grown.links p.obj_size c (grown.slab c).free (with_slots c)) e
        (rw (==_self new) new_Chain)

  Chain-elsewhere :
      (b : ℕ)
      → new ≢ b
      → 0 < count b p.slabs
      → Chain grown.links p.obj_size b (grown.slab b).free (with_slots b)
  Chain-elsewhere b ne i = rw (==-ne new b ne) (
      Chain-congr p.links grown.links p.obj_size b (p.slab b).free (frees b)
        (λ o j. old_word b (o + p.obj_size) ne) (s.chained b i))

  none_live : (b : ℕ) → new ≡ b → length (live b) ≡ 0
  none_live b e =
      length-none (live b) λ o. s.outside b o (ap (λ t. count t p.slabs) (sym e) ∙ fresh)

  more_free :
      u32 (p.free_obj_nr + obj_num)
      ≡ u32 (length (with_slots new) + sum_over p.slabs (λ b. length (with_slots b)))
  more_free = omega (
    arith,
    s.free_count,
    ap length (update_self frees new (slots p.real_obj_size)),
    length-slots p.real_obj_size,
    sum_over-other p.slabs (λ b. length (with_slots b)) (λ b. length (frees b))
        (λ b i. ap length (update_ne frees new (slots p.real_obj_size) b (ne_new b i))),
  )

  pub grown-Sound : Sound grown live with_slots
  grown-Sound = record {
    real = s.real;
    size = s.size;
    distinct = λ b. ground (arith, s.distinct b, fresh);
    recent = λ b e. omega (arith, s.recent b e);
    shared = λ b o i. elim (ℕ_discrete new b) [
      | yes e ↦ ground (arith, s.outside b o, fresh)
      | no ne ↦ ground (arith, s.shared b o)
    ];
    full = λ b i. elim (ℕ_discrete new b) [
      | yes e ↦ ground (arith, none_live b e, length-slots p.real_obj_size)
      | no ne ↦ ground (arith, s.full b)
    ];
    outside = λ b o i. s.outside b o (omega (arith, i));
    chained = λ b i. elim (ℕ_discrete new b) [
      | yes e ↦ Chain-at_new b e
      | no ne ↦ Chain-elsewhere b ne (ground arith)
    ];
    busy = λ b o i. elim (ℕ_discrete new b) [
      | yes e ↦ absurd (omega (arith, i, s.outside b o (ap (λ t. count t p.slabs) (sym e) ∙ fresh)))
      | no ne ↦ old_word b (o + p.obj_size) ne ∙ s.busy b o i
    ];
    slab_count = omega (arith, s.slab_count);
    obj_count = omega (arith, s.obj_count);
    free_count = more_free;
  }
