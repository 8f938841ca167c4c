-- ===== src/Cvsp/Adjusted.antt =====
-- What slots_num_adjust and cvsp_init of src/cvspool.c make of a number of slots.
use leitner.Common.{◌⊎◌}
use leitner.Cvsp.Init.{slots_in_last_trunk}
use leitner.Common.{
  ℕ, suc, ◌+◌, ◌-◌, ◌*◌, ◌/◌, ◌%◌, ◌^◌, ◌≡◌, ◌≤◌, ◌<◌, ◌≢◌, ◌&&◌, ◌==◌, not, refl, arith, some,
  Option, false, Bool, u32,
}
use leitner.Cvsp.Nodes.{◌>>=◌}
use leitner.Cvsp.Init.{slots_in_last_trunk, trunks_of, adjusted_last, slots_num_adjust, trunk_slots}

pub adjusted_last-bounds :
    (n : ℕ) → n + 6 < 2 ^ 32 → (n ≤ adjusted_last n) × (adjusted_last n ≤ n + 2)
unfolding adjusted_last
adjusted_last-bounds n lt = (ground (arith, lt), ground (arith, lt))

-- Slots with a head before them that leave no block with room for less than a node.
abbrev pub HasRoom : ℕ → Type 0
HasRoom n = ((n + 3) % 2 ^ 16 ≢ 1) × ((n + 3) % 2 ^ 16 ≢ 2)

-- Where the loop that counts trunks goes on.
abbrev pub more : ℕ → Bool
more st = not (st / trunk_slots == 0) && not (st % trunk_slots == 0)

record Counted (nt st : ℕ) (r : Option (ℕ × ℕ)) : Type 0 where
  full : ℕ
  left : ℕ
  found : r ≡ some (nt + full, left)
  split : st ≡ left + full * (trunk_slots - 3)
  stops : more left ≡ false
  big : 3 ≤ left

-- The slots with those that were added: full trunks with a head each, and a rest, which with a head has room
-- in one trunk or is full trunks, too.
pub record Adjusts (n : ℕ) (r : Option ℕ) : Type 0 where
  pub full : ℕ
  pub rest : ℕ
  pub adjusted : ℕ
  pub returned : r ≡ some (full * (trunk_slots - 3) + adjusted)
  pub split : n ≡ full * (trunk_slots - 3) + rest
  pub last : (rest + 3 ≤ trunk_slots) ⊎ ((rest + 3) % trunk_slots ≡ 0)
  pub few : (rest ≤ adjusted) × (adjusted ≤ rest + 2)
  pub room : HasRoom adjusted

small_enough : (n : ℕ) → n < 2 ^ 29 → u32 n ≡ n
small_enough n lt = omega (arith, lt)

trunks_of-stops : (fuel nt st : ℕ) → more st ≡ false → trunks_of (suc fuel) nt st ≡ some (nt, st)
unfolding trunks_of
trunks_of-stops fuel nt st e = rw (e, trunks_of) refl

-- One trunk is enough.
pub adjusted_once :
    (depth n : ℕ)
    → n + 3 < 2 ^ 29
    → more (n + 3) ≡ false
    → slots_num_adjust (suc depth) n ≡ some (adjusted_last n)
unfolding slots_num_adjust
adjusted_once depth n lt e =
    rw (small_enough (n + 3) lt) (rw (trunks_of-stops (n + 3) 1 (n + 3) e, ◌>>=◌) refl)
