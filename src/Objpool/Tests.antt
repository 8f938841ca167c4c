-- ===== src/Objpool/Tests.antt =====
-- A pool of objects of four bytes at concrete inputs.
use leitner.Objpool.Ops.{slab_cache}
use leitner.Objpool.Safety.{allocs}
use leitner.Objpool.Pop.{lend}
use leitner.Objpool.Zero.{objpool_zalloc-Zeroes}
use leitner.Objpool.Service.{live_apart}
use leitner.Objpool.Safety.{start}
use leitner.Common.{[], arith}
use leitner.Objpool.Ops.{objpool_zalloc}
use leitner.Objpool.Service.{objects-counted, objpool_alloc-Serves}
use leitner.Objpool.Safety.{next}
use leitner.Objpool.Create.{create_objpool-Sound, create_objpool-sizes}
use leitner.Common.{List, ◌≤◌}
use leitner.Objpool.{Slab}
use leitner.Objpool.Zero.{Zeroes}
use leitner.Objpool.Create.{FitsSizes}
use leitner.Objpool.Service.{Serves}
use leitner.Objpool.Safety.{Reach}
use leitner.Objpool.Invariant.{Sound, sum_over}
use leitner.Objpool.{Bytes, Links}
use leitner.Common.{count, ℕ}
use leitner.Common.{◌≡◌, ◌⊎◌, ◌+◌, ◌*◌, u32, length, refl, some}
use leitner.Objpool.{null, at, ObjPool}
use leitner.Objpool.Ops.{
  create_objpool, objpool_alloc, init_loop, find_free, recent_with_free, alloc_from, alloc_in_list,
  found,
}

abbrev no_slabs : ℕ → Slab
no_slabs b = record { free = null; id = 0 }

abbrev no_links : Links
no_links b k = null

abbrev all_255 : Bytes
all_255 b k = 255

abbrev none_live : ℕ → List ℕ
none_live b = []

abbrev one_live : ℕ → List ℕ
one_live = lend none_live 7 24

abbrev empty_pool : ObjPool
empty_pool = create_objpool 4 no_slabs no_links all_255

abbrev first_object : (q : ObjPool) × (objpool_alloc empty_pool 7 ≡ some (q, at 7 24))
unfolding create_objpool objpool_alloc init_loop find_free recent_with_free alloc_from alloc_in_list
    found
first_object = (_, refl)

empty-Sound : Sound empty_pool none_live none_live
empty-Sound = create_objpool-Sound 4 no_slabs no_links all_255 (omega arith)

abbrev one_used : ObjPool
one_used = first_object.0

-- One object was given, of block 7 at offset 24.
one_given : Reach empty_pool one_used one_live
unfolding create_objpool
one_given = next start (allocs 7 24 7 refl first_object.1)

objpool_alloc-Serves_example : Serves one_used one_live 9 (objpool_alloc one_used 9)
unfolding create_objpool first_object
objpool_alloc-Serves_example =
    objpool_alloc-Serves 4 no_slabs no_links all_255 (omega arith) one_used one_live one_given 9
      refl

abbrev used_offset : ℕ
used_offset = 24

live_apart_example :
    (count 24 (one_live 7) ≡ 1)
    × (slab_cache ≤ 24)
    × (24 + one_used.real_obj_size ≤ slab_cache + one_used.slab_size)
    × ((used_offset ≡ used_offset)
        ⊎ ((24 + one_used.real_obj_size ≤ 24) ⊎ (24 + one_used.real_obj_size ≤ 24)))
live_apart_example =
    live_apart 4 no_slabs no_links all_255 (omega arith) one_used one_live one_given 7 24 24
      (omega arith) (omega arith)

objects-counted_example :
    (u32 (one_used.free_obj_nr + sum_over one_used.slabs (λ b. length (one_live b)))
      ≡ one_used.obj_nr)
    × (one_used.obj_nr ≡ u32 (128 * one_used.slab_nr))
    × (one_used.slab_nr ≡ u32 (length one_used.slabs))
objects-counted_example =
    objects-counted 4 no_slabs no_links all_255 (omega arith) one_used one_live one_given

small_objects : FitsSizes 4 empty_pool
small_objects = create_objpool-sizes 4 no_slabs no_links all_255 (omega arith)

objpool_zalloc-Zeroes_example : Zeroes empty_pool none_live (objpool_zalloc empty_pool 7)
unfolding create_objpool
objpool_zalloc-Zeroes_example =
    objpool_zalloc-Zeroes empty_pool none_live none_live empty-Sound 7 refl

-- Where a slab with a free object was looked for, it is the recent one.
abbrev second_object : (q : ObjPool) × (objpool_alloc one_used 9 ≡ some (q, at 7 40))
unfolding first_object create_objpool objpool_alloc init_loop find_free recent_with_free alloc_from
    alloc_in_list found
second_object = (_, refl)
