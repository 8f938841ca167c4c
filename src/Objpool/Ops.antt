-- ===== src/Objpool/Ops.antt =====
-- The functions of src/objpool.c that make, fill and use a pool. `none` stands for what C leaves
-- undefined: a null pointer, or a word that is not the pointer of a slab, that is followed.
use leitner.Common.{
  ℕ, zero, suc, ◌+◌, ◌-◌, ◌*◌, ◌/◌, ◌%◌, Bool, true, false, ◌&&◌, Option, none, some, List, [], ◌∷◌,
}
use leitner.Common.{if◌then◌else◌, ltb, leb, ◌==◌, update, u32, inc32, dec32}
use leitner.Objpool.{Ptr, null, at, Links, Bytes, Slab, ObjPool, obj_num, slab_t_size, word_size}

abbrev pub is_null : Ptr → Bool
is_null null = true
is_null (at b o) = false

abbrev pub write : Links → ℕ → ℕ → Ptr → Links
write m b o v = update m b (update (m b) o v)

abbrev pub set_freepointer : ObjPool → Ptr → Ptr → Option ObjPool
set_freepointer mpl null fp = none
set_freepointer mpl (at b o) fp =
    some (record mpl { links = write mpl.links b (o + mpl.obj_size) fp })

abbrev pub get_freepointer : ObjPool → Ptr → Option Ptr
get_freepointer mpl null = none
get_freepointer mpl (at b o) = some (mpl.links b (o + mpl.obj_size))

abbrev pub slab_cache : ℕ
slab_cache = slab_t_size

-- The loop of init_slab on `size` bytes an object and `real` bytes a step; it returns the words and
-- where `start` stands behind it, `none` when the fuel is used up.
unfoldable pub init_loop : ℕ → ℕ → ℕ → ℕ → ℕ → ℕ → Links → Option (Links × ℕ)
init_loop zero size real b start end m = none
init_loop (suc fuel) size real b start end m =
    let rest =
      init_loop fuel size real b (start + real) end
        (write m b (start + size) (at b (start + real))) in
    if ltb start end then rest else some (m, start)

abbrev pub init_done : ObjPool → ℕ → Option (Links × ℕ) → Option ObjPool
init_done mpl b none = none
init_done mpl b (some (m, start)) = some (record mpl {
  links = write m b (start - mpl.real_obj_size + mpl.obj_size) null;
  slab = update mpl.slab b (record { free = at b slab_cache; id = (mpl.slab b).id });
})

abbrev pub init_slab : ObjPool → ℕ → Option ObjPool
init_slab mpl b = init_done mpl b (
    init_loop (suc mpl.slab_size) mpl.obj_size mpl.real_obj_size b slab_cache
      (slab_cache + mpl.slab_size) mpl.links)

-- `b` is the block that malloc returns.
abbrev pub link_slab : ℕ → ObjPool → ObjPool
link_slab b mpl = record mpl {
  slabs = b ∷ mpl.slabs;
  slab = update mpl.slab b (record { free = (mpl.slab b).free; id = mpl.slab_nr });
  slab_nr = inc32 mpl.slab_nr;
  obj_nr = u32 (mpl.obj_nr + obj_num);
  free_obj_nr = u32 (mpl.free_obj_nr + obj_num);
}

abbrev pub linked : ℕ → Option ObjPool → Option ObjPool
linked b none = none
linked b (some mpl) = some (link_slab b mpl)

abbrev pub add_new_slab : ObjPool → ℕ → Option ObjPool
add_new_slab mpl b = linked b (init_slab mpl b)

abbrev pub round_up : ℕ → ℕ
round_up size = if size % word_size == 0 then size else (size / word_size + 1) * word_size

unfoldable pub create_objpool : ℕ → (ℕ → Slab) → Links → Bytes → ObjPool
create_objpool size slab links bytes = record {
  obj_size = u32 (round_up size);
  real_obj_size = u32 (round_up size + word_size);
  slab_size = u32 (obj_num * u32 (round_up size + word_size));
  slab_nr = 0;
  obj_nr = 0;
  free_obj_nr = 0;
  slabs = [];
  recent_slab = none;
  slab = slab;
  links = links;
  bytes = bytes;
}

unfoldable pub find_free : (ℕ → Slab) → List ℕ → Option ℕ
find_free slab [] = none
find_free slab (b ∷ bs) =
    let rest = find_free slab bs in if is_null (slab b).free then rest else some b

unfoldable pub recent_with_free : ObjPool → Option ℕ → Option ℕ
recent_with_free mpl none = none
recent_with_free mpl (some b) = if is_null (mpl.slab b).free then none else some b

-- The label found of objpool_alloc.
abbrev pub popped : ObjPool → ℕ → Ptr → Option Ptr → Option (ObjPool × Ptr)
popped mpl b object none = none
popped mpl b null (some next) = none
popped mpl b (at c o) (some next) = some (
  record mpl {
    slab = update mpl.slab b (record { free = next; id = (mpl.slab b).id });
    links = write mpl.links c (o + mpl.obj_size) (at b 0);
    free_obj_nr = dec32 mpl.free_obj_nr;
  },
  at c o,
)

unfoldable pub found : ObjPool → ℕ → Option (ObjPool × Ptr)
found mpl b = popped mpl b (mpl.slab b).free (get_freepointer mpl (mpl.slab b).free)

abbrev pub found_new : ℕ → Option ObjPool → Option (ObjPool × Ptr)
found_new b none = none
found_new b (some mpl) = found mpl b

unfoldable pub alloc_in_list : ObjPool → ℕ → Option ℕ → Option (ObjPool × Ptr)
alloc_in_list mpl new none = found_new new (add_new_slab mpl new)
alloc_in_list mpl new (some b) = found (record mpl { recent_slab = some b }) b

unfoldable pub alloc_from : ObjPool → ℕ → Option ℕ → Option (ObjPool × Ptr)
alloc_from mpl new (some b) = found mpl b
alloc_from mpl new none = alloc_in_list mpl new (find_free mpl.slab mpl.slabs)

-- `new` is the block that malloc returns, when it is called.
unfoldable pub objpool_alloc : ObjPool → ℕ → Option (ObjPool × Ptr)
objpool_alloc mpl new = alloc_from mpl new (recent_with_free mpl mpl.recent_slab)

-- memset(obj, 0, n) for an object at `o`.
abbrev pub memset_zero : Bytes → ℕ → ℕ → ℕ → Bytes
memset_zero m b o n = update m b (λ k. if leb o k && ltb k (o + n) then 0 else m b k)

unfoldable pub zeroed : Option (ObjPool × Ptr) → Option (ObjPool × Ptr)
zeroed none = none
zeroed (some (mpl, null)) = none
zeroed (some (mpl, at b o)) =
    some (record mpl { bytes = memset_zero mpl.bytes b o mpl.obj_size }, at b o)

unfoldable pub objpool_zalloc : ObjPool → ℕ → Option (ObjPool × Ptr)
objpool_zalloc mpl new = zeroed (objpool_alloc mpl new)

-- The object's word as a slab: a pointer to the begin of a block.
unfoldable pub freed_into : ObjPool → ℕ → ℕ → Option Ptr → Option ObjPool
freed_into mpl b o (some (at s zero)) = some (record mpl {
  links = write mpl.links b (o + mpl.obj_size) (mpl.slab s).free;
  slab = update mpl.slab s (record { free = at b o; id = (mpl.slab s).id });
  free_obj_nr = inc32 mpl.free_obj_nr;
})
freed_into mpl b o _ = none

unfoldable pub objpool_free : ObjPool → Ptr → Option ObjPool
objpool_free mpl null = none
objpool_free mpl (at b o) = freed_into mpl b o (get_freepointer mpl (at b o))
