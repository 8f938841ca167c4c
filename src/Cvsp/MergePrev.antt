-- ===== src/Cvsp/MergePrev.antt =====
-- merge_prev and merge_both of cvsp_free (src/cvspool.c): the free node before grows.
use mathlib.Core.Path.{subst}
use leitner.Common.{
  ℕ, ◌+◌, ◌^◌, ◌<◌, ◌≤◌, ◌≡◌, ◌≢◌, ◌⊎◌, inl, inr, sym, arith, List, [], ◌∷◌, ◌++◌, count, length,
  Bool-cases, ==_iff, ◌==◌,
}
use leitner.Cvsp.Nodes.{Mem, next_fnode, prev_fnode, written_len}
use leitner.Cvsp.Ring.{Links, Links-congr}
use leitner.Cvsp.Tiles.{Node, free_node, slots, free_starts, NodeAt, Tiled, Kept, Kept-congr}
use leitner.Cvsp.Lengths.{written_len-half, written_len-next, written_len-prev, written_len-NodeAt}
use leitner.Cvsp.Valid.{Valid, Outside, Tiled-change, slots-Tiled}
use leitner.Cvsp.Region.{next-outside, prev-outside, head-outside}
use leitner.Cvsp.Outer.{outside_nodes}
use leitner.Cvsp.Give.{slots-parts}

-- The free node at `pre` takes the place of `mid`, which begins with it; the ring is as it was.
module _ (m : Mem) (n : ℕ) (before mid behind : List Node) (pre : ℕ) (fs : List ℕ)
    (at : pre ≡ 3 + slots before) (pos : 3 ≤ slots mid) where
  abbrev pub grown : Mem
  grown = written_len m pre (slots mid)

  out : Outside m grown pre (pre + slots mid)
  out a far =
      written_len-half m pre (slots mid) pos a (λ u. omega (arith, u, far, pos))
        (λ u. omega (arith, u, far, pos)) (λ u. omega (arith, u, far, pos))
        (λ u. omega (arith, u, far, pos))

  module _ (head : NodeAt m 0 (free_node 3)) (tiled : Tiled m 3 (before ++ (mid ++ behind)) (n + 3))
      (ring : Links (next_fnode m) (prev_fnode m) 0 fs 0)
      (only : (z : ℕ) → 0 < count z (0 ∷ fs) → z ≢ pre → count z (free_starts pre mid) ≡ 0)
      (within : (z : ℕ) → 0 < count z fs → 0 < count z (free_starts 3 (before ++ (mid ++ behind))))
      (same : (z : ℕ)
        → count z fs ≡ count z (free_starts 3 (before ++ (free_node (slots mid) ∷ behind))))
      (long : length fs ≡ length (free_starts 3 (before ++ (free_node (slots mid) ∷ behind))))
      (small : n + 3 ≤ 2 ^ 16) where
    mid_fits : slots mid ≤ 2 ^ 16
    mid_fits = omega (
      arith,
      small,
      slots-parts before (mid ++ behind),
      slots-parts mid behind,
      slots-Tiled m 3 (before ++ (mid ++ behind)) (n + 3) tiled,
    )

    apart : (z : ℕ) → 0 < count z (0 ∷ fs) → z ≢ pre → (z + 3 ≤ pre) ⊎ (pre + slots mid ≤ z)
    apart z i ne =
        outside_nodes m z pre before mid behind (n + 3) tiled at pos (only z i ne)
          (ground (arith, i, within z))

    grown-next : (z : ℕ) → 0 < count z (0 ∷ fs) → next_fnode grown z ≡ next_fnode m z
    grown-next z i = elim (Bool-cases (z == pre)) [
      | inl u ↦
          subst (λ k. next_fnode grown k ≡ next_fnode m k) (sym ((==_iff z pre).0 u))
            (written_len-next m pre (slots mid) pos)
      | inr u ↦
          next-outside m grown pre (slots mid) out z
            (apart z i (λ w. absurd (ground (arith, u, w))))
    ]

    grown-prev : (z : ℕ) → 0 < count z (0 ∷ fs) → prev_fnode grown z ≡ prev_fnode m z
    grown-prev z i = elim (Bool-cases (z == pre)) [
      | inl u ↦
          subst (λ k. prev_fnode grown k ≡ prev_fnode m k) (sym ((==_iff z pre).0 u))
            (written_len-prev m pre (slots mid) pos)
      | inr u ↦
          prev-outside m grown pre (slots mid) out z
            (apart z i (λ w. absurd (ground (arith, u, w))))
    ]

    pub grown-Valid : Valid grown n (before ++ (free_node (slots mid) ∷ behind)) fs
    grown-Valid = record {
      head = head-outside m grown pre (slots mid) out (omega (arith, at)) head;
      tiled =
          Tiled-change m grown pre before mid (free_node (slots mid) ∷ []) behind (n + 3) tiled at
            (omega arith) out (written_len-NodeAt m pre (slots mid) pos mid_fits, omega arith);
      ring =
          Links-congr (next_fnode m) (prev_fnode m) (next_fnode grown) (prev_fnode grown) 0 fs 0
            grown-next grown-prev ring;
      same = same;
      long = long;
      small = small;
    }

    -- What other nodes hold is as it was.
    pub grown-Kept : Kept m grown 3 before × Kept m grown (pre + slots mid) behind
    grown-Kept = (
      Kept-congr m grown 3 before (λ a ge lt. out a (inl (omega (arith, lt, at)))),
      Kept-congr m grown (pre + slots mid) behind (λ a ge lt. out a (inr ge)),
    )
