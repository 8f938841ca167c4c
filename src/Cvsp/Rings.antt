-- ===== src/Cvsp/Rings.antt =====
-- A node taken out of a ring, put in place of another, and put at the end.
use mathlib.Core.List.{append-nil}
use mathlib.Core.Path.{subst}
use leitner.Common.{
  ℕ, ◌<◌, ◌≤◌, ◌≡◌, ◌≢◌, sym, ap, ◌∙◌, arith, List, [], ◌∷◌, ◌++◌, count, count-append,
}
use leitner.Cvsp.Ring.{
  Links, last_of, Links-congr, Links-join, Links-cut, Links-last, Links-end, Links-start,
  count-last,
}

-- The functions at the members of a list but one.
abbrev pub AgreeBut : ℕ → List ℕ → (ℕ → ℕ) → (ℕ → ℕ) → Type 0
AgreeBut a ms f g = (z : ℕ) → 0 < count z ms → z ≢ a → f z ≡ g z

abbrev pub Once : List ℕ → Type 0
Once ms = (z : ℕ) → count z ms ≤ 1

-- Two members of one list.
last-ne : (xs ms : List ℕ) (x z : ℕ) → Once (x ∷ (xs ++ ms)) → 0 < count z ms → z ≢ last_of x xs
last-ne xs ms x z one i u =
    absurd (ground (arith, one z, u, i, count-last x xs, count-append z xs ms))

pub first-count :
    (n q : ℕ → ℕ) (x : ℕ) (ys : List ℕ) (h : ℕ) → Links n q x ys h → 0 < count (n x) (h ∷ ys)
first-count n q x [] h (e, e') = ground (arith, e)
first-count n q x (y ∷ ys) h ((e, e'), l) = ground (arith, e)

module _ (n q n' q' : ℕ → ℕ) (xs : List ℕ) (p : ℕ) where
  pub Links-unlink :
      (zs : List ℕ)
      → Once (0 ∷ (xs ++ (p ∷ zs)))
      → AgreeBut (q p) (0 ∷ (xs ++ zs)) n' n
      → AgreeBut (n p) (0 ∷ (xs ++ zs)) q' q
      → n' (q p) ≡ n p
      → q' (n p) ≡ q p
      → Links n q 0 (xs ++ (p ∷ zs)) 0
      → Links n' q' 0 (xs ++ zs) 0
  Links-unlink [] one f g at_n at_q l =
      let (l', (e, e')) = Links-cut n q 0 xs p [] 0 l in
      let (b, a) = Links-last n q 0 xs p l' in
      subst (λ u. Links n' q' 0 u 0) (sym (append-nil xs))
        (Links-end n q n' q' 0 xs p 0 (λ z. omega (arith, one z, count-append z xs (p ∷ [])))
          (λ z ne i. f z (omega (arith, i, count-append z xs [])) (λ u. ne (u ∙ a)))
          (λ z i.
            g z (omega (arith, i, count-append z xs []))
              (λ u. absurd (ground (arith, i, one z, u, e, count-append z xs (p ∷ [])))))
          (ap n' (sym a) ∙ (at_n ∙ e)) (ap q' (sym e) ∙ (at_q ∙ a)) l')
  Links-unlink (y ∷ zs) one f g at_n at_q l =
      let (l', ((e, e'), r)) = Links-cut n q 0 xs p (y ∷ zs) 0 l in
      let (b, a) = Links-last n q 0 xs p l' in
      Links-join n' q' 0 xs y zs 0
        (Links-end n q n' q' 0 xs p y (λ z. omega (arith, one z, count-append z xs (p ∷ (y ∷ zs))))
          (λ z ne i. f z (omega (arith, i, count-append z xs (y ∷ zs))) (λ u. ne (u ∙ a)))
          (λ z i.
            g z (omega (arith, i, count-append z xs (y ∷ zs)))
              (λ u. absurd (ground (arith, i, one z, u, e, count-append z xs (p ∷ (y ∷ zs))))))
          (ap n' (sym a) ∙ (at_n ∙ e)) (ap q' (sym e) ∙ (at_q ∙ a)) l')
        (Links-congr n q n' q' y zs 0
          (λ z i.
            f z (omega (arith, i, count-append z xs (y ∷ zs)))
              (λ u. last-ne xs (p ∷ (y ∷ zs)) 0 z one (omega (arith, i)) (u ∙ a)))
          (λ z i.
            g z (omega (arith, i, count-append z xs (y ∷ zs)))
              (λ u. absurd (ground (arith, i, one z, u, e, count-append z xs (p ∷ (y ∷ zs))))))
          r)

  pub Links-replace :
      (p' : ℕ) (zs : List ℕ)
      → Once (0 ∷ (xs ++ (p ∷ zs)))
      → AgreeBut (q p) (0 ∷ (xs ++ zs)) n' n
      → AgreeBut (n p) (0 ∷ (xs ++ zs)) q' q
      → n' (q p) ≡ p'
      → q' (n p) ≡ p'
      → n' p' ≡ n p
      → q' p' ≡ q p
      → Links n q 0 (xs ++ (p ∷ zs)) 0
      → Links n' q' 0 (xs ++ (p' ∷ zs)) 0
  Links-replace p' zs one f g at_n at_q on oq l =
      let (l', r) = Links-cut n q 0 xs p zs 0 l in
      let (b, a) = Links-last n q 0 xs p l' in
      Links-join n' q' 0 xs p' zs 0
        (Links-end n q n' q' 0 xs p p' (λ z. omega (arith, one z, count-append z xs (p ∷ zs)))
          (λ z ne i. f z (omega (arith, i, count-append z xs zs)) (λ u. ne (u ∙ a)))
          (λ z i. g z (omega (arith, i, count-append z xs zs)) (λ u.
            absurd
              (ground (arith, i, one z, u, first-count n q p zs 0 r, count-append z xs (p ∷ zs)))))
          (ap n' (sym a) ∙ at_n) (oq ∙ a) l')
        (Links-start n q n' q' p p' zs 0 on at_q
          (λ z i.
            f z (omega (arith, i, count-append z xs zs))
              (λ u. last-ne xs (p ∷ zs) 0 z one (omega (arith, i)) (u ∙ a)))
          (λ z ne i. g z (omega (arith, i, count-append z xs zs)) ne)
          (λ z. omega (arith, one z, count-append z xs (p ∷ zs))) r)

pub Links-add :
    (n q n' q' : ℕ → ℕ) (p : ℕ) (ys : List ℕ)
    → Once (0 ∷ ys)
    → AgreeBut (q 0) (0 ∷ ys) n' n
    → AgreeBut 0 ys q' q
    → n' (q 0) ≡ p
    → q' p ≡ q 0
    → n' p ≡ 0
    → q' 0 ≡ p
    → Links n q 0 ys 0
    → Links n' q' 0 (ys ++ (p ∷ [])) 0
Links-add n q n' q' p ys one f g at_n at_q on oq l =
    let (b, a) = Links-last n q 0 ys 0 l in
    Links-join n' q' 0 ys p [] 0
      (Links-end n q n' q' 0 ys 0 p one (λ z ne i. f z i (λ u. ne (u ∙ a)))
        (λ z i. g z i (λ u. absurd (ground (arith, one z, i, u)))) (ap n' (sym a) ∙ at_n) (at_q ∙ a)
        l)
      (on, oq)
