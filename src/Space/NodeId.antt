-- ===== src/Space/NodeId.antt =====
-- get_trunk, get_trunk_by_id, id_of_node and node_from_id of src/cvspool.c, and union node_id of
-- inc/cvspool.h. `none` is an assertion that fails.
use leitner.Common.{
  ℕ, ◌+◌, ◌-◌, ◌*◌, ◌/◌, ◌%◌, ◌^◌, Bool, ◌&&◌, ◌||◌, Option, none, some, List, [], ◌∷◌, ◌==◌, ltb,
  leb, if◌then◌else◌,
}
use leitner.Vector.Gcd.{max_trunk_size}

-- The part of a trunk that the numbers use; `mem` is the address of its memory.
pub record Trunk : Type 0 where
  pub id : ℕ
  pub t_total_mem : ℕ
  pub mem : ℕ

pub record CvsPool : Type 0 where
  pub trunk_list : List Trunk
  pub cached_trunk : Option Trunk
  pub pool_id : ℕ

-- The bit fields of 4, 6 and 20 bits above the two lowest bits, which are 0.
unfoldable pub encode : ℕ → ℕ → ℕ → ℕ
encode pool trunk slot = pool % 2 ^ 4 * 2 ^ 2 + trunk % 2 ^ 6 * 2 ^ 6 + slot % 2 ^ 20 * 2 ^ 12

abbrev pub pool_of : ℕ → ℕ
pool_of l = l / 2 ^ 2 % 2 ^ 4

abbrev pub trunk_of : ℕ → ℕ
trunk_of l = l / 2 ^ 6 % 2 ^ 6

abbrev pub slot_of : ℕ → ℕ
slot_of l = l / 2 ^ 12 % 2 ^ 20

-- The search by address takes every trunk to be of the largest size.
unfoldable pub find_by_address : ℕ → List Trunk → Option Trunk
find_by_address str [] = none
find_by_address str (t ∷ ts) =
    let rest = find_by_address str ts in
    if leb t.mem str && ltb str (t.mem + max_trunk_size) then some t else rest

unfoldable pub find_by_id : ℕ → List Trunk → Option Trunk
find_by_id tid [] = none
find_by_id tid (t ∷ ts) = let rest = find_by_id tid ts in if t.id == tid then some t else rest

abbrev pub is_in : ℕ → Trunk → Bool
is_in str t = leb t.mem str && ltb str (t.mem + t.t_total_mem)

unfoldable pub cached_by_address : ℕ → Option Trunk → Option Trunk
cached_by_address str none = none
cached_by_address str (some t) = if is_in str t then some t else none

unfoldable pub cached_by_id : ℕ → Option Trunk → Option Trunk
cached_by_id tid none = none
cached_by_id tid (some t) = if t.id == tid then some t else none

-- The cached trunk, or the one that the search finds, which is cached.
unfoldable pub cached_or : CvsPool → Option Trunk → Option Trunk → Option (Trunk × CvsPool)
cached_or cvsp (some t) search = some (t, cvsp)
cached_or cvsp none (some t) = some (t, record cvsp { cached_trunk = some t })
cached_or cvsp none none = none

unfoldable pub get_trunk : CvsPool → ℕ → Option (Trunk × CvsPool)
get_trunk cvsp str =
    cached_or cvsp (cached_by_address str cvsp.cached_trunk) (find_by_address str cvsp.trunk_list)

unfoldable pub get_trunk_by_id : CvsPool → ℕ → Option (Trunk × CvsPool)
get_trunk_by_id cvsp tid =
    cached_or cvsp (cached_by_id tid cvsp.cached_trunk) (find_by_id tid cvsp.trunk_list)

unfoldable pub id_in : ℕ → Option (Trunk × CvsPool) → Option (ℕ × CvsPool)
id_in str none = none
id_in str (some (t, cvsp)) = some (encode cvsp.pool_id t.id ((str - t.mem) / 4), cvsp)

unfoldable pub id_of_node : CvsPool → ℕ → Option (ℕ × CvsPool)
id_of_node cvsp str = id_in str (get_trunk cvsp str)

unfoldable pub node_in : ℕ → Option (Trunk × CvsPool) → Option (ℕ × CvsPool)
node_in l none = none
node_in l (some (t, cvsp)) = some (t.mem + slot_of l * 4, cvsp)

-- `ididr` is what idr_find answers for the pool number.
unfoldable pub node_from_id : (ℕ → ℕ) → CvsPool → ℕ → Option (ℕ × CvsPool)
node_from_id ididr cvsp l =
    let found = node_in l (get_trunk_by_id cvsp (trunk_of l)) in
    if cvsp.pool_id == pool_of l || cvsp.pool_id == ididr (pool_of l) then found else none
