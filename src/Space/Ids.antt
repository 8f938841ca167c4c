-- ===== src/Space/Ids.antt =====
-- The number of a node of src/cvspool.c leads back to the node.
use leitner.Common.{
  ℕ, ◌+◌, ◌-◌, ◌/◌, ◌%◌, ◌^◌, ◌≤◌, ◌<◌, ◌≡◌, ◌⊎◌, inl, inr, refl, ap, arith, false, ◌&&◌, Option,
  none, some, List, [], ◌∷◌, ◌==◌, ltb, leb, Bool-cases, ==_iff, ==_self,
}
use leitner.Vector.Gcd.{max_trunk_size}
use leitner.Space.NodeId.{
  Trunk, CvsPool, encode, pool_of, trunk_of, slot_of, find_by_address, find_by_id, is_in,
  cached_by_address, cached_by_id, cached_or, get_trunk, get_trunk_by_id, id_in, id_of_node,
  node_in, node_from_id,
}

abbrev pub In : Trunk → List Trunk → Type 0
In t [] = ⊥
In t (x ∷ xs) = (x ≡ t) ⊎ In t xs

abbrev pub Cached : Option Trunk → List Trunk → Type 0
Cached none ts = Unit
Cached (some t) ts = In t ts

-- The trunks have different ids of 6 bits, and memory at a multiple of 4 of no more than
-- MAX_TRUNK_SIZE; the cached trunk is one of them, and the pool's number has 4 bits.
pub record Numbered (cvsp : CvsPool) : Type 0 where
  pub ids : (t u : Trunk) → In t cvsp.trunk_list → In u cvsp.trunk_list → t.id ≡ u.id → t ≡ u
  pub few : (t : Trunk) → In t cvsp.trunk_list → t.id < 2 ^ 6
  pub sizes : (t : Trunk) → In t cvsp.trunk_list → t.t_total_mem ≤ max_trunk_size
  pub aligned : (t : Trunk) → In t cvsp.trunk_list → t.mem % 4 ≡ 0
  pub cached : Cached cvsp.cached_trunk cvsp.trunk_list
  pub pool : cvsp.pool_id < 2 ^ 4

encode-fields :
    (p t s : ℕ)
    → p < 2 ^ 4
    → t < 2 ^ 6
    → s < 2 ^ 20
    → (pool_of (encode p t s) ≡ p) × (trunk_of (encode p t s) ≡ t) × (slot_of (encode p t s) ≡ s)
unfolding encode
encode-fields p t s hp ht hs = (omega arith, omega arith, omega arith)

-- A trunk of the list whose largest memory would hold the address.
record Reaches (ts : List Trunk) (str : ℕ) (r : Option Trunk) : Type 0 where
  pub trunk : Trunk
  pub found : r ≡ some trunk
  pub member : In trunk ts
  pub above : trunk.mem ≤ str
  pub below : str < trunk.mem + max_trunk_size

later-Reaches :
    (t : Trunk) (ts : List Trunk) (str : ℕ) (r : Option Trunk)
    → Reaches ts str r
    → Reaches (t ∷ ts) str r
later-Reaches t ts str r h = record {
  trunk = h.trunk;
  found = h.found;
  member = inr h.member;
  above = h.above;
  below = h.below;
}

find_by_address-Reaches :
    (ts : List Trunk) (str : ℕ) (h : Trunk)
    → In h ts
    → h.mem ≤ str
    → str < h.mem + max_trunk_size
    → Reaches ts str (find_by_address str ts)
unfolding find_by_address
find_by_address-Reaches [] str h m lo hi = absurd m
find_by_address-Reaches (t ∷ ts) str h m lo hi =
    elim (Bool-cases (leb t.mem str && ltb str (t.mem + max_trunk_size))) [
      | inl e ↦ rw (e) (record {
        trunk = t;
        found = refl;
        member = inl refl;
        above = ground (arith, e);
        below = ground (arith, e);
      })
      | inr e ↦ rw (e) (elsewhere m e (λ m'. find_by_address-Reaches ts str h m' lo hi))
    ]
  where
    elsewhere :
        (t ≡ h) ⊎ In h ts
        → (leb t.mem str && ltb str (t.mem + max_trunk_size)) ≡ false
        → (In h ts → Reaches ts str (find_by_address str ts))
        → Reaches (t ∷ ts) str (find_by_address str ts)
    elsewhere (inl same) e rest = absurd (ground (arith, e, ap (λ u. u.mem) same))
    elsewhere (inr m') e rest = later-Reaches t ts str (find_by_address str ts) (rest m')

-- The search by a number gives a trunk with that number.
record Named (ts : List Trunk) (tid : ℕ) (r : Option Trunk) : Type 0 where
  pub trunk : Trunk
  pub found : r ≡ some trunk
  pub member : In trunk ts
  pub named : trunk.id ≡ tid

find_by_id-Named : (ts : List Trunk) (t : Trunk) → In t ts → Named ts t.id (find_by_id t.id ts)
unfolding find_by_id
find_by_id-Named [] t m = absurd m
find_by_id-Named (u ∷ ts) t m = elim (Bool-cases (u.id == t.id)) [
  | inl e ↦
      rw (e) (record { trunk = u; found = refl; member = inl refl; named = (==_iff u.id t.id).0 e })
  | inr e ↦ rw (e) (elsewhere m e (find_by_id-Named ts t))
]
  where
    elsewhere :
        (u ≡ t) ⊎ In t ts
        → (u.id == t.id) ≡ false
        → (In t ts → Named ts t.id (find_by_id t.id ts))
        → Named (u ∷ ts) t.id (find_by_id t.id ts)
    elsewhere (inl same) e rest = absurd (ground (arith, e, ap (λ v. v.id) same))
    elsewhere (inr m') e rest =
        let r = rest m' in
        record { trunk = r.trunk; found = r.found; member = inr r.member; named = r.named }

-- What get_trunk and get_trunk_by_id give: a trunk, and the pool with that trunk cached or unchanged.
record Gets (cvsp : CvsPool) (r : Option (Trunk × CvsPool)) : Type 0 where
  pub trunk : Trunk
  pub after : CvsPool
  pub returned : r ≡ some (trunk, after)
  pub member : In trunk cvsp.trunk_list
  pub same_pool : after.pool_id ≡ cvsp.pool_id

abbrev Located : CvsPool → ℕ → Option (Trunk × CvsPool) → Type 0
Located cvsp str r = (g : Gets cvsp r) × (g.trunk.mem ≤ str) × (str < g.trunk.mem + max_trunk_size)

abbrev NamedIn : CvsPool → ℕ → Option (Trunk × CvsPool) → Type 0
NamedIn cvsp tid r = (g : Gets cvsp r) × (g.trunk.id ≡ tid)

module _ (cvsp : CvsPool) (n : Numbered cvsp) where
  searched :
      (str : ℕ) (r : Option Trunk)
      → Reaches cvsp.trunk_list str r
      → Located cvsp str (cached_or cvsp none r)
  unfolding cached_or
  searched str r h = (
    record {
      trunk = h.trunk;
      after = record cvsp { cached_trunk = some h.trunk };
      returned = rw (h.found, cached_or) refl;
      member = h.member;
      same_pool = refl;
    },
    h.above,
    h.below,
  )

  by_address :
      (str : ℕ) (r c : Option Trunk)
      → Reaches cvsp.trunk_list str r
      → Cached c cvsp.trunk_list
      → Located cvsp str (cached_or cvsp (cached_by_address str c) r)
  unfolding cached_by_address cached_or
  by_address str r none h m = searched str r h
  by_address str r (some t) h m = elim (Bool-cases (is_in str t)) [
    | inl e ↦ rw (e) (
      record { trunk = t; after = cvsp; returned = refl; member = m; same_pool = refl },
      ground (arith, e),
      ground (arith, e, n.sizes t m),
    )
    | inr e ↦ rw (e) (searched str r h)
  ]

  found_by_id :
      (tid : ℕ) (r : Option Trunk)
      → Named cvsp.trunk_list tid r
      → NamedIn cvsp tid (cached_or cvsp none r)
  unfolding cached_or
  found_by_id tid r h = (
    record {
      trunk = h.trunk;
      after = record cvsp { cached_trunk = some h.trunk };
      returned = rw (h.found, cached_or) refl;
      member = h.member;
      same_pool = refl;
    },
    h.named,
  )

  by_id :
      (tid : ℕ) (r c : Option Trunk)
      → Named cvsp.trunk_list tid r
      → Cached c cvsp.trunk_list
      → NamedIn cvsp tid (cached_or cvsp (cached_by_id tid c) r)
  unfolding cached_by_id cached_or
  by_id tid r none h m = found_by_id tid r h
  by_id tid r (some t) h m = elim (Bool-cases (t.id == tid)) [
    | inl e ↦ rw (e) (
      record { trunk = t; after = cvsp; returned = refl; member = m; same_pool = refl },
      (==_iff t.id tid).0 e,
    )
    | inr e ↦ rw (e) (found_by_id tid r h)
  ]

  get_trunk_by_id-Named :
      (t : Trunk) → In t cvsp.trunk_list → NamedIn cvsp t.id (get_trunk_by_id cvsp t.id)
  unfolding get_trunk_by_id
  get_trunk_by_id-Named t m =
      by_id t.id (find_by_id t.id cvsp.trunk_list) cvsp.cached_trunk
        (find_by_id-Named cvsp.trunk_list t m) n.cached

  -- A number that was made for an address in a trunk leads back to that address.
  node_from_id-encode :
      (ididr : ℕ → ℕ) (t : Trunk) (str : ℕ)
      → In t cvsp.trunk_list
      → t.mem ≤ str
      → str < t.mem + max_trunk_size
      → str % 4 ≡ 0
      → (after : CvsPool) × (node_from_id ididr cvsp (encode cvsp.pool_id t.id ((str - t.mem) / 4))
          ≡ some (str, after))
  unfolding node_from_id node_in
  node_from_id-encode ididr t str m lo hi al =
      let (pool, trunk, slot) =
        encode-fields cvsp.pool_id t.id ((str - t.mem) / 4) n.pool (n.few t m) (omega arith) in
      let (g, named) = get_trunk_by_id-Named t m in
      (
        g.after,
        rw (pool, trunk, ==_self cvsp.pool_id, g.returned, slot)
            (ap (λ a. some (a, g.after))
              (omega (
                arith,
                lo,
                al,
                n.aligned t m,
                ap (λ u. u.mem) (n.ids g.trunk t g.member m named),
              ))),
      )

-- The number that id_of_node gives for an address in a trunk leads node_from_id back to the address,
-- also when another trunk is cached by then: the trunks have different ids of 6 bits, memory at
-- multiples of 4 of no more than MAX_TRUNK_SIZE, and the pool's number has 4 bits.
pub node_from_id-id_of_node :
    (ididr : ℕ → ℕ) (cvsp : CvsPool) (str : ℕ) (h : Trunk) (c : Option Trunk)
    → Numbered cvsp
    → In h cvsp.trunk_list
    → h.mem ≤ str
    → str < h.mem + h.t_total_mem
    → str % 4 ≡ 0
    → Cached c cvsp.trunk_list
    → (l : ℕ) × (after later : CvsPool) × (id_of_node cvsp str ≡ some (l, after))
      × (node_from_id ididr (record cvsp { cached_trunk = c }) l ≡ some (str, later))
unfolding id_of_node id_in get_trunk
node_from_id-id_of_node ididr cvsp str h c n m lo hi al mc =
    let (g, low, high) =
      by_address cvsp n str (find_by_address str cvsp.trunk_list) cvsp.cached_trunk
        (find_by_address-Reaches cvsp.trunk_list str h m lo (omega (arith, n.sizes h m)))
        n.cached in
    let (later, back) =
      node_from_id-encode (record cvsp { cached_trunk = c }) recached ididr g.trunk str g.member low
        high al in
    (
      encode cvsp.pool_id g.trunk.id ((str - g.trunk.mem) / 4),
      g.after,
      later,
      rw (g.returned, id_in) (rw (g.same_pool) refl),
      back,
    )
  where
    recached : Numbered (record cvsp { cached_trunk = c })
    recached = record {
      ids = n.ids;
      few = n.few;
      sizes = n.sizes;
      aligned = n.aligned;
      cached = mc;
      pool = n.pool;
    }
