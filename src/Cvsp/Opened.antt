-- ===== src/Cvsp/Opened.antt =====
-- A pool that cvsp_init of src/cvspool.c has made, ready for cvsp_alloc.
use leitner.Common.{
  ℕ, ◌+◌, ◌-◌, ◌^◌, ◌≡◌, ◌≤◌, ◌<◌, ◌==◌, refl, arith, [], ◌∷◌, some, Option, true, Bool,
}
use leitner.Cvsp.Nodes.{Mem, ◌>>=◌}
use leitner.Boxes.Load.{min_unsigned}
use leitner.Cvsp.Trunk.{CvspoolTrunk, cvsp_init_trunk}
use leitner.Cvsp.Alloc.{CvspPool}
use leitner.Cvsp.Pool.{Mallocs}
use leitner.Cvsp.Init.{
  adjusted_last, slots_num_adjust, init_trunks, cvsp_init, trunks_mem, trunk_slots,
}
use leitner.Cvsp.Tiles.{free_node}
use leitner.Cvsp.Give.{ValidTrunk}
use leitner.Cvsp.Fresh.{cvsp_init_trunk-Valid}
use leitner.Cvsp.Adjusted.{adjusted_once, adjusted_last-bounds}
use leitner.Cvsp.Serving.{ValidTrunks}

-- A pool of one trunk, which is one free node of the slots asked for or up to two more.
pub record Opened (n : ℕ) (autoex : Bool) (r : Option (Option CvspPool)) : Type 0 where
  pub slots : ℕ
  pub few : (n ≤ slots) × (slots ≤ n + 2)
  pub pool : CvspPool
  pub returned : r ≡ some (some pool)
  pub trunks : ValidTrunks pool.trunk_list ((free_node slots ∷ []) ∷ [])
  pub counts :
      (pool.total ≡ slots) × (pool.used ≡ 0) × (pool.trunk_cnt ≡ 1) × (pool.autoex ≡ autoex)

adjusted_small :
    (n : ℕ) → 0 < n → n + 3 ≤ 2 ^ 16 → (3 ≤ adjusted_last n) × (adjusted_last n + 3 ≤ 2 ^ 16)
unfolding adjusted_last
adjusted_small n pos small = (ground (arith, pos, small), ground (arith, pos, small))

not_less_of : (a b : ℕ) → b ≤ a → min_unsigned a b ≡ b
not_less_of a b le = ground (arith, le)

one_trunk :
    (answers : Mallocs) (malloced : Mem) (id n : ℕ) (t : CvspoolTrunk)
    → n + 3 ≤ 2 ^ 16
    → cvsp_init_trunk id n malloced ≡ some t
    → init_trunks (some malloced ∷ answers) id n ≡ some (some (t ∷ []))
unfolding init_trunks
one_trunk answers malloced id n t small e =
    let all : min_unsigned (trunk_slots - 3) n ≡ n =
      not_less_of (trunk_slots - 3) n (omega (arith, small)) in
    let done : (n - n == 0) ≡ true = ground arith in rw (all) (rw (e, ◌>>=◌) (rw (done) refl))

opened :
    (answers : Mallocs) (malloced : Mem) (autoex : Bool) (n slots : ℕ) (t : CvspoolTrunk)
    → slots_num_adjust 2 n ≡ some slots
    → init_trunks (some malloced ∷ answers) 0 slots ≡ some (some (t ∷ []))
    → (n ≤ slots) × (slots ≤ n + 2)
    → ValidTrunk t (free_node slots ∷ []) (3 ∷ [])
    → Opened n autoex (cvsp_init (some malloced ∷ answers) n autoex)
unfolding cvsp_init
opened answers malloced autoex n slots t e e' few v = record {
  slots = slots;
  few = few;
  pool = record {
    total = slots;
    used = 0;
    total_mem = trunks_mem (t ∷ []);
    autoex = autoex;
    trunk_cnt = 1;
    trunk_list = t ∷ [];
  };
  returned = rw (e, ◌>>=◌) (rw (e', ◌>>=◌) refl);
  trunks = (((3 ∷ []), v), tt);
  counts = (refl, refl, refl, refl);
}

-- Where malloc gives memory, cvsp_init with at least one slot and no more than a block has behind its head
-- makes a pool of one valid trunk, all free, with up to two slots more than asked for.
pub cvsp_init-Opened :
    (answers : Mallocs) (malloced : Mem) (autoex : Bool) (n : ℕ)
    → 0 < n
    → n + 3 ≤ 2 ^ 16
    → Opened n autoex (cvsp_init (some malloced ∷ answers) n autoex)
cvsp_init-Opened answers malloced autoex n pos small =
    let slots : ℕ = adjusted_last n in
    let (big, fitting) = adjusted_small n pos small in
    let (t, made, valid, total) = cvsp_init_trunk-Valid malloced slots big fitting 0 in
    opened answers malloced autoex n slots t
      (adjusted_once 1 n (omega (arith, small)) (ground (arith, small)))
      (one_trunk answers malloced 0 slots t fitting made)
      (adjusted_last-bounds n (omega (arith, small))) valid
