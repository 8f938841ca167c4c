-- ===== src/Vector.antt =====
-- The vectors of objects of src/objvec.c: the sizes that objv_init asks for.
pub mod Gcd
pub mod Ops
pub mod Laws
mod Tests
