-- ===== src/Vector/Tests.antt =====
-- Common divisors and the slots of a vector at concrete inputs.
use leitner.Vector.Gcd.{gcd_loop}
use leitner.Vector.Laws.{gcd-divisors}
use leitner.Vector.Gcd.{lcm}
use leitner.Vector.Gcd.{gcd, need_slots}
use leitner.Common.{ℕ, ◌≡◌, ◌↔◌, refl, arith, some}
use Prim.Native.Nat.{◌∣◌}

gcd-divisors_example : (g : ℕ) × (gcd 12 4 ≡ some g) × ((k : ℕ) → (k ∣ g) ↔ ((k ∣ 12) × (k ∣ 4)))
gcd-divisors_example = gcd-divisors 12 4 (omega arith) (omega arith)

slots_of_twelve : need_slots 12 ≡ some 1048572
unfolding need_slots lcm gcd gcd_loop
slots_of_twelve = refl
