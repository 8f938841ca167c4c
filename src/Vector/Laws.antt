-- ===== src/Vector/Laws.antt =====
-- What GCD and the slots of objv_init in src/objvec.c come to.
use leitner.Common.{inr}
use leitner.Common.{inl, inr}
use native.Mathlib.Nat.{mod-le, mod-lt, le_trans, dvd-mod_iff, dvd-zero}
use mathlib.Core.Path.{subst}
use Prim.Native.Nat.{◌∣◌}
use leitner.Common.{
  ℕ, zero, suc, ◌+◌, ◌%◌, ◌^◌, ◌≤◌, ◌<◌, ◌≡◌, ◌↔◌, refl, sym, ap, arith, true, false, Option, some,
  ◌==◌, u32, Bool-cases, ==_iff,
}
use leitner.Vector.Gcd.{gcd_loop, gcd}

-- The loop ends with one of the two numbers 0, and the other has exactly the common divisors.
record Ends (a b : ℕ) (r : Option (ℕ × ℕ)) : Type 0 where
  pub x : ℕ
  pub y : ℕ
  pub returned : r ≡ some (x, y)
  pub value : ℕ
  pub total : x + y ≡ value
  pub small : value ≤ b
  pub divisors : (k : ℕ) → (k ∣ value) ↔ ((k ∣ a) × (k ∣ b))

dvd_of_zero : (k a b : ℕ) → (a % b == 0) ≡ true → k ∣ b → k ∣ a
dvd_of_zero k a b e h =
    (dvd-mod_iff k {m = a} {n = b} h).0
      (subst (λ n. k ∣ n) (sym ((==_iff (a % b) 0).0 e)) (dvd-zero k))

-- The remainder and the divisor have the common divisors of the dividend and the divisor.
dvd_round : (k a b : ℕ) → ((k ∣ a % b) × (k ∣ b)) ↔ ((k ∣ a) × (k ∣ b))
dvd_round k a b = (
  (λ (r, h). ((dvd-mod_iff k {m = a} {n = b} h).0 r, h)),
  λ (d, h). ((dvd-mod_iff k {m = a} {n = b} h).1 d, h),
)

swap : {A B : Type 0} → A × B → B × A
swap (a, b) = (b, a)

module _ (fuel a b : ℕ) (pos : 0 < b) where
  first-Ends : (a % b == 0) ≡ true → Ends a b (gcd_loop (suc fuel) a b)
  unfolding gcd_loop
  first-Ends e = record {
    x = 0;
    y = b;
    returned = rw (e) refl;
    value = b;
    total = omega arith;
    small = omega arith;
    divisors = λ k. ((λ h. (dvd_of_zero k a b e h, h)), λ h. h.1);
  }

  second-Ends :
      (a % b == 0) ≡ false → (b % (a % b) == 0) ≡ true → Ends a b (gcd_loop (suc fuel) a b)
  unfolding gcd_loop
  second-Ends e e' = record {
    x = a % b;
    y = 0;
    returned = rw (e, e') refl;
    value = a % b;
    total = omega arith;
    small = omega (arith, mod-lt a pos);
    divisors = λ k. (
      (λ h. (dvd_round k a b).0 (h, dvd_of_zero k b (a % b) e' h)),
      λ h. ((dvd_round k a b).1 h).0,
    );
  }

  goes_round :
      (a % b == 0) ≡ false
      → (b % (a % b) == 0) ≡ false
      → Ends (a % b) (b % (a % b)) (gcd_loop fuel (a % b) (b % (a % b)))
      → Ends a b (gcd_loop (suc fuel) a b)
  unfolding gcd_loop
  goes_round e e' ends = record {
    x = ends.x;
    y = ends.y;
    returned = rw (e, e') ends.returned;
    value = ends.value;
    total = ends.total;
    small = le_trans ends.small (mod-le b (a % b));
    divisors = λ k. (
      (λ h. (dvd_round k a b).0 (swap ((dvd_round k b (a % b)).0 (swap ((ends.divisors k).0 h))))),
      λ h. (ends.divisors k).1 (swap ((dvd_round k b (a % b)).1 (swap ((dvd_round k a b).1 h)))),
    );
  }

positive : (n : ℕ) → (n == 0) ≡ false → 0 < n
positive n h = ground (arith, h)

gcd_loop-Ends : (fuel a b : ℕ) → 0 < b → b ≤ fuel → Ends a b (gcd_loop fuel a b)
gcd_loop-Ends zero a b pos le = absurd (omega arith)
gcd_loop-Ends (suc fuel) a b pos le = elim (Bool-cases (a % b == 0)) [
  | inl e ↦ first-Ends fuel a b pos e
  | inr e ↦ elim (Bool-cases (b % (a % b) == 0)) [
    | inl e' ↦ second-Ends fuel a b pos e e'
    | inr e' ↦ goes_round fuel a b pos e e' (
        gcd_loop-Ends fuel (a % b) (b % (a % b)) (positive (b % (a % b)) e')
          (omega (arith, mod-lt b (positive (a % b) e), mod-lt a pos)))
  ]
]

-- GCD returns, and its result has exactly the common divisors of the two numbers, of 32 bits.
pub gcd-divisors :
    (a b : ℕ)
    → a < 2 ^ 32
    → b < 2 ^ 32
    → (g : ℕ) × (gcd a b ≡ some g) × ((k : ℕ) → (k ∣ g) ↔ ((k ∣ a) × (k ∣ b)))
unfolding gcd
gcd-divisors a b la lb = elim (Bool-cases (b == 0)) [
  | inl e ↦ (a, rw (e) (ap some (alone e)), λ k. ((λ h. (h, all k e)), λ h. h.0))
  | inr e ↦
      let ends = gcd_loop-Ends b a b (positive b e) (omega arith) in
      (
        ends.value,
        rw (e) (rw (ends.returned) (ap some (omega (arith, ends.total, ends.small, lb)))),
        ends.divisors,
      )
]
  where
    alone : (b == 0) ≡ true → u32 (a + b) ≡ a
    alone e = ground (arith, e)

    all : (k : ℕ) → (b == 0) ≡ true → k ∣ b
    all k e = subst (λ n. k ∣ n) (sym ((==_iff b 0).0 e)) (dvd-zero k)
