-- ===== src/Objpool.antt =====
-- The object pool of src/objpool.c and inc/objpool.h. A pointer is a block that malloc gave and a
-- byte offset into it; a slab is a block that begins with its struct, so its pointer has offset 0.
-- The slabs that lead from slab_head by next are a list of their blocks.
pub mod Ops
pub mod FreeList
pub mod Invariant
pub mod Pop
pub mod Alloc
pub mod Grow
pub mod Free
pub mod Create
pub mod Safety
pub mod Service
pub mod Zero
pub mod Again
mod Tests
use leitner.Common.{ℕ, Option, List}

pub data Ptr : Type 0 where
  null : Ptr
  at : ℕ → ℕ → Ptr

-- The words that hold free pointers, and the bytes of the objects, by block and offset.
abbrev pub Links : Type 0
Links = ℕ → ℕ → Ptr

abbrev pub Bytes : Type 0
Bytes = ℕ → ℕ → ℕ

pub record Slab : Type 0 where
  pub free : Ptr
  pub id : ℕ

pub record ObjPool : Type 0 where
  pub obj_size : ℕ
  pub real_obj_size : ℕ
  pub slab_size : ℕ
  pub slab_nr : ℕ
  pub obj_nr : ℕ
  pub free_obj_nr : ℕ
  pub slabs : List ℕ
  pub recent_slab : Option ℕ
  pub slab : ℕ → Slab
  pub links : Links
  pub bytes : Bytes

abbrev pub obj_num : ℕ
obj_num = 128

-- sizeof(slab_t), sizeof(long) and sizeof(void *) on a 64-bit machine.
abbrev pub slab_t_size : ℕ
slab_t_size = 24

abbrev pub word_size : ℕ
word_size = 8
