-- ===== src/Objpool/Create.antt =====
-- create_objpool of src/objpool.c and the sizes it fixes.
use leitner.Common.{ℕ, ◌+◌, ◌-◌, ◌*◌, ◌%◌, ◌^◌, ◌≤◌, ◌<◌, ◌≡◌, refl, arith, []}
use leitner.Objpool.{Links, Bytes, Slab, ObjPool, obj_num, word_size}
use leitner.Objpool.Ops.{create_objpool, round_up}
use leitner.Objpool.Invariant.{Sound}

-- Up to this size the slab is smaller than 2 ^ 31 bytes, which an int holds.
abbrev pub max_size : ℕ
max_size = 2 ^ 24 - 16

-- The sizes that create_objpool fixes for objects of `size` bytes.
pub record FitsSizes (size : ℕ) (p : ObjPool) : Type 0 where
  pub holds : (size ≤ p.obj_size) × (p.obj_size < size + word_size)
  pub aligned : p.obj_size % word_size ≡ 0
  pub word_behind : p.real_obj_size ≡ p.obj_size + word_size
  pub slab : p.slab_size ≡ obj_num * p.real_obj_size
  pub small : p.slab_size < 2 ^ 31

round_up_bounds :
    (size : ℕ) → (size ≤ round_up size) × (round_up size < size + 8) × (round_up size % 8 ≡ 0)
round_up_bounds size = ground arith

module _ (size : ℕ) (slab : ℕ → Slab) (links : Links) (bytes : Bytes)
    (small : size ≤ max_size) where
  -- The object size is the asked one rounded up to whole words; each object has a word behind it, and
  -- a slab holds 128 of them, in a size that an int holds, when the asked size is at most max_size.
  pub create_objpool-sizes : FitsSizes size (create_objpool size slab links bytes)
  unfolding create_objpool
  create_objpool-sizes =
      let (low, high, whole) = round_up_bounds size in
      record {
        holds = (omega arith, omega arith);
        aligned = omega arith;
        word_behind = omega arith;
        slab = omega arith;
        small = omega arith;
      }

  pub create_objpool-Sound : Sound (create_objpool size slab links bytes) (λ b. []) (λ b. [])
  unfolding create_objpool
  create_objpool-Sound = record {
    real = create_objpool-sizes.word_behind;
    size = create_objpool-sizes.slab;
    distinct = λ b. omega arith;
    recent = λ b e. absurd (ground (arith, e));
    shared = λ b o i. absurd (omega (arith, i));
    full = λ b i. absurd (omega (arith, i));
    outside = λ b o i. refl;
    chained = λ b i. absurd (omega (arith, i));
    busy = λ b o i. absurd (omega (arith, i));
    slab_count = refl;
    obj_count = refl;
    free_count = refl;
  }
