-- ===== src/Vector/Gcd.antt =====
-- GCD, LCM and the slots that objv_init of src/objvec.c asks cvsp_init for.
use leitner.Common.{
  ℕ, zero, suc, ◌+◌, ◌-◌, ◌*◌, ◌/◌, ◌%◌, ◌^◌, Option, none, some, ◌==◌, if◌then◌else◌, u32,
}

-- The loop of GCD; each half leaves it when a remainder is 0. `none` when the fuel is used up.
unfoldable pub gcd_loop : ℕ → ℕ → ℕ → Option (ℕ × ℕ)
gcd_loop zero a b = none
gcd_loop (suc fuel) a b =
    let rest = gcd_loop fuel (a % b) (b % (a % b)) in
    if a % b == 0 then some (0, b) else (if b % (a % b) == 0 then some (a % b, 0) else rest)

abbrev pub sum32 : Option (ℕ × ℕ) → Option ℕ
sum32 none = none
sum32 (some (a, b)) = some (u32 (a + b))

-- Named as in the source, in lower case. Each round more than halves b, so b rounds are enough.
unfoldable pub gcd : ℕ → ℕ → Option ℕ
gcd a b = if b == 0 then some (u32 (a + b)) else sum32 (gcd_loop b a b)

abbrev pub divided : ℕ → Option ℕ → Option ℕ
divided n none = none
divided n (some zero) = none
divided n (some (suc d)) = some (n / suc d)

-- The product wraps before it is divided; a division by 0 is undefined.
unfoldable pub lcm : ℕ → ℕ → Option ℕ
lcm a b = divided (u32 (a * b)) (gcd a b)

abbrev pub max_blk_size : ℕ
max_blk_size = 2 ^ 16 * 4

abbrev pub max_trunk_size : ℕ
max_trunk_size = max_blk_size * 16

abbrev pub min_node_size : ℕ
min_node_size = 3

abbrev pub slots_for : Option ℕ → Option ℕ
slots_for none = none
slots_for (some zero) = none
slots_for (some (suc l)) = some (u32 ((max_trunk_size - min_node_size * 4) / suc l * suc l) / 4)

-- `need_slots` of objv_init.
unfoldable pub need_slots : ℕ → Option ℕ
need_slots osize = slots_for (lcm osize 4)
