-- ===== src/Objpool/Pop.antt =====
-- The label found of objpool_alloc in src/objpool.c, which takes an object from a slab.
use leitner.Common.{ℕ, ◌+◌, ◌≤◌, ◌<◌, ◌≡◌, refl, ap, ◌∙◌, arith, Option, some, List, [], ◌∷◌, false}
use leitner.Common.{count, length, update, u32, dec32}
use leitner.Objpool.{Ptr, at, ObjPool}
use leitner.Objpool.Ops.{write, is_null, found}
use leitner.Objpool.FreeList.{Chain, Chain-write, slots_once}
use leitner.Objpool.Invariant.{Sound, moved, moved-Sound, sum_over, sum_over-update}

abbrev pub lend : (ℕ → List ℕ) → ℕ → ℕ → ℕ → List ℕ
lend live b o = update live b (o ∷ live b)

-- What the label found makes of a slab whose first free object is at `o`.
abbrev pub taken : ObjPool → ℕ → ℕ → ℕ → ObjPool
taken p b c o = record p {
  slab = update p.slab b (record { free = p.links c (o + p.obj_size); id = (p.slab b).id });
  links = write p.links c (o + p.obj_size) (at b 0);
  free_obj_nr = dec32 p.free_obj_nr;
}

pub found-taken :
    (p : ObjPool) (b c o : ℕ) → (p.slab b).free ≡ at c o → found p b ≡ some (taken p b c o, at c o)
unfolding found
found-taken p b c o e = rw (e, found) refl

-- A call gave the client an object that was not in use, of a pool of the same sizes and bytes.
pub record Gives (p : ObjPool) (live : ℕ → List ℕ) (r : Option (ObjPool × Ptr)) : Type 0 where
  pub after : ObjPool
  pub block : ℕ
  pub offset : ℕ
  pub frees : ℕ → List ℕ
  pub returned : r ≡ some (after, at block offset)
  pub unused : count offset (live block) ≡ 0
  pub sound : Sound after (lend live block offset) frees
  pub inside : 0 < count block after.slabs
  pub same_size : after.obj_size ≡ p.obj_size
  pub same_real : after.real_obj_size ≡ p.real_obj_size
  pub same_bytes : after.bytes ≡ p.bytes
  pub same_slabs : after.slabs ≡ p.slabs

module _ (p : ObjPool) (live frees : ℕ → List ℕ) (s : Sound p live frees) (b : ℕ)
    (inside : 0 < count b p.slabs) where
  first_once : (o : ℕ) (xs : List ℕ) → frees b ≡ o ∷ xs → (count o xs ≡ 0) × (count o (live b) ≡ 0)
  first_once o xs e = (omega (arith, once, more), omega (arith, once, more))
    where
      once : count o (live b) + count o (frees b) ≤ 1
      once =
          omega (arith, s.shared b o inside, slots_once p.real_obj_size o (omega (arith, s.real)))

      more : count o (frees b) ≡ 1 + count o xs
      more = ap (count o) e ∙ ground arith

  popped-Gives :
      (o : ℕ) (xs : List ℕ)
      → frees b ≡ o ∷ xs
      → (p.slab b).free ≡ at b o
      → Chain p.links p.obj_size b (p.links b (o + p.obj_size)) xs
      → Gives p live (found p b)
  unfolding found
  popped-Gives o xs e free chain = record {
    after = moved p live frees s b o (dec32 p.free_obj_nr) next (at b 0) (o ∷ live b) xs inside;
    block = b;
    offset = o;
    frees = update frees b xs;
    returned = rw (free, found) refl;
    unused = (first_once o xs e).1;
    sound =
        moved-Sound p live frees s b o (dec32 p.free_obj_nr) next (at b 0) (o ∷ live b) xs inside
          (Chain-write p.links p.obj_size b next xs b o (at b 0) (λ e'. (first_once o xs e).0)
            chain)
          (λ k. omega (arith, ap (count k) e)) (omega (arith, ap length e))
          (λ k i. ground (arith, s.busy b k)) fewer;
    inside = inside;
    same_size = refl;
    same_real = refl;
    same_bytes = refl;
    same_slabs = refl;
  }
    where
      next : Ptr
      next = p.links b (o + p.obj_size)

      fewer : dec32 p.free_obj_nr ≡ u32 (sum_over p.slabs (λ c. length (update frees b xs c)))
      fewer = omega (
        arith,
        s.free_count,
        sum_over-update p.slabs b frees xs (omega (arith, s.distinct b)),
        ap length e,
      )

  found_from :
      (xs : List ℕ)
      → frees b ≡ xs
      → Chain p.links p.obj_size b (p.slab b).free xs
      → is_null (p.slab b).free ≡ false
      → Gives p live (found p b)
  found_from [] e chain some_free = absurd (ground (arith, chain))
  found_from (o ∷ xs) e (at_o, chain) some_free = popped-Gives o xs e at_o chain

  pub found-Gives : is_null (p.slab b).free ≡ false → Gives p live (found p b)
  found-Gives some_free = found_from (frees b) refl (s.chained b inside) some_free
