-- ===== src/Space/Tests.antt =====
-- Node numbers in a pool of two trunks.
use leitner.Space.Ids.{node_from_id-id_of_node}
use leitner.Vector.Gcd.{max_trunk_size}
use leitner.Space.NodeId.{node_from_id}
use leitner.Space.NodeId.{id_of_node}
use leitner.Space.Ids.{In}
use leitner.Space.Ids.{Numbered}
use leitner.Space.NodeId.{CvsPool, Trunk}
use leitner.Common.{
  ℕ, ◌≡◌, ◌≤◌, ◌<◌, ◌%◌, ◌^◌, refl, sym, ap, ◌∙◌, arith, inl, inr, none, some, [], ◌∷◌,
}

abbrev lower : Trunk
lower = record { id = 1; t_total_mem = 400; mem = 4096 }

abbrev upper : Trunk
upper = record { id = 2; t_total_mem = 400; mem = 8192 }

abbrev two_trunks : CvsPool
two_trunks = record { trunk_list = lower ∷ (upper ∷ []); cached_trunk = some lower; pool_id = 3 }

two_ids :
    (t u : Trunk) → In t two_trunks.trunk_list → In u two_trunks.trunk_list → t.id ≡ u.id → t ≡ u
two_ids t u (inl e) (inl e') h = sym e ∙ e'
two_ids t u (inl e) (inr (inl e')) h =
    absurd (omega (arith, h, ap (λ v. v.id) e, ap (λ v. v.id) e'))
two_ids t u (inl e) (inr (inr z)) h = absurd z
two_ids t u (inr (inl e)) (inl e') h =
    absurd (omega (arith, h, ap (λ v. v.id) e, ap (λ v. v.id) e'))
two_ids t u (inr (inl e)) (inr (inl e')) h = sym e ∙ e'
two_ids t u (inr (inl e)) (inr (inr z)) h = absurd z
two_ids t u (inr (inr z)) m h = absurd z

two_bounds :
    (t : Trunk)
    → In t two_trunks.trunk_list
    → (t.id < 2 ^ 6) × (t.t_total_mem ≤ max_trunk_size) × (t.mem % 4 ≡ 0)
two_bounds t (inl e) = (
  omega (arith, ap (λ v. v.id) e),
  omega (arith, ap (λ v. v.t_total_mem) e),
  omega (arith, ap (λ v. v.mem) e),
)
two_bounds t (inr (inl e)) = (
  omega (arith, ap (λ v. v.id) e),
  omega (arith, ap (λ v. v.t_total_mem) e),
  omega (arith, ap (λ v. v.mem) e),
)
two_bounds t (inr (inr z)) = absurd z

two-Numbered : Numbered two_trunks
two-Numbered = record {
  ids = two_ids;
  few = λ t m. (two_bounds t m).0;
  sizes = λ t m. (two_bounds t m).1;
  aligned = λ t m. (two_bounds t m).2;
  cached = inl refl;
  pool = omega arith;
}

-- The address of a node in the upper trunk; the search gives the lower one, which it also reaches.
node_from_id-id_of_node_example :
    (l : ℕ) × (after later : CvsPool) × (id_of_node two_trunks 8204 ≡ some (l, after))
    × (node_from_id (λ p. p) (record two_trunks { cached_trunk = none }) l ≡ some (8204, later))
node_from_id-id_of_node_example =
    node_from_id-id_of_node (λ p. p) two_trunks 8204 upper none two-Numbered (inr (inl refl))
      (omega arith) (omega arith) refl tt
