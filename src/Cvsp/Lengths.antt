-- ===== src/Cvsp/Lengths.antt =====
-- set_fnode_len of src/cvspool.c makes a free node, and the shifts of a link move it on.
use leitner.Common.{ℕ, ◌+◌, ◌*◌, ◌%◌, ◌^◌, ◌<◌, ◌≤◌, ◌≡◌, ◌≢◌, ap, arith, some}
use leitner.Cvsp.Nodes.{
  Mem, half, write16, pad, idx, set_pad, next_fnode, prev_fnode, next_off, prev_off, written_len,
  get_fnode_len, tail_len, tail_guard,
}
use leitner.Cvsp.Fields.{Far, half_other, next-congr, prev-congr, idx_lt}
use leitner.Cvsp.Tiles.{NodeAt, free_node, LinkOnly}

module _ (m : Mem) (fn len : ℕ) (pos : 3 ≤ len) where
  pub written_len-half :
      (a : ℕ)
      → 2 * fn ≢ a
      → 2 * fn + 1 ≢ a
      → a ≢ tail_len fn len
      → a ≢ tail_guard fn len
      → half (written_len m fn len) a ≡ half m a
  unfolding set_pad
  written_len-half a n1 n2 n3 n4 = ground (arith, n1, n2, n3, n4)

  first_half : half (written_len m fn len) (2 * fn) ≡ (idx m fn * 256 + 245)
  unfolding set_pad idx
  first_half = ground (arith, pos, idx_lt m fn)

  pub written_len-next : next_fnode (written_len m fn len) fn ≡ next_fnode m fn
  unfolding next_fnode next_off idx
  written_len-next = omega (
    arith,
    first_half,
    written_len-half (2 * fn + 3) (λ u. omega (arith, u)) (λ u. omega (arith, u))
        (λ u. omega (arith, u, pos)) (λ u. omega (arith, u, pos)),
  )

  pub written_len-prev : prev_fnode (written_len m fn len) fn ≡ prev_fnode m fn
  unfolding prev_fnode prev_off idx
  written_len-prev = omega (
    arith,
    first_half,
    written_len-half (2 * fn + 2) (λ u. omega (arith, u)) (λ u. omega (arith, u))
        (λ u. omega (arith, u, pos)) (λ u. omega (arith, u, pos)),
  )

  pub written_len-NodeAt : len ≤ 2 ^ 16 → NodeAt (written_len m fn len) fn (free_node len)
  unfolding pad set_pad
  written_len-NodeAt le = (
    pos,
    omega (arith, first_half),
    ground (arith, pos, le),
    ground (arith, pos, le),
    ground (arith, pos, le),
  )

pub get_fnode_len-NodeAt :
    (m : Mem) (fn len : ℕ) → NodeAt m fn (free_node len) → get_fnode_len m fn ≡ some len
unfolding get_fnode_len
get_fnode_len-NodeAt m fn len (a, b, c, d, e) = ground (arith, a, c, d)

-- A link of the node at `a` moved on by `k` slots within its block.
module _ (m : Mem) (a k : ℕ) where
  abbrev pub next_on : Mem
  next_on = write16 m (2 * a + 3) (half m (2 * a + 3) + k)

  abbrev pub prev_on : Mem
  prev_on = write16 m (2 * a + 2) (half m (2 * a + 2) + k)

  pub next_on-LinkOnly : LinkOnly m next_on a
  unfolding pad
  next_on-LinkOnly = record {
    others = λ b x y z. half_other m (2 * a + 3) (half m (2 * a + 3) + k) b z;
    same_pad =
        ap (λ h. h % 256)
          (half_other m (2 * a + 3) (half m (2 * a + 3) + k) (2 * a) (λ u. omega (arith, u)));
  }

  pub prev_on-LinkOnly : LinkOnly m prev_on a
  unfolding pad
  prev_on-LinkOnly = record {
    others = λ b x y z. half_other m (2 * a + 2) (half m (2 * a + 2) + k) b y;
    same_pad =
        ap (λ h. h % 256)
          (half_other m (2 * a + 2) (half m (2 * a + 2) + k) (2 * a) (λ u. omega (arith, u)));
  }

  pub next-next_on_self : next_fnode m a + k < 2 ^ 16 → next_fnode next_on a ≡ next_fnode m a + k
  unfolding next_fnode next_off idx
  next-next_on_self lt = ground (arith, lt)

  pub prev-prev_on_self : prev_fnode m a + k < 2 ^ 16 → prev_fnode prev_on a ≡ prev_fnode m a + k
  unfolding prev_fnode prev_off idx
  prev-prev_on_self lt = ground (arith, lt)

  pub next-next_on_other : (z : ℕ) → z ≢ a → next_fnode next_on z ≡ next_fnode m z
  unfolding next_fnode next_off idx
  next-next_on_other z ne = next-congr m next_on z (ground arith) (ground (arith, ne))

  pub prev-next_on : (z : ℕ) → prev_fnode next_on z ≡ prev_fnode m z
  prev-next_on z = prev-congr m next_on z (ground arith) (ground arith)

  pub prev-prev_on_other : (z : ℕ) → Far a z → z ≢ a → prev_fnode prev_on z ≡ prev_fnode m z
  prev-prev_on_other z far ne =
      prev-congr m prev_on z (ground (arith, far, ne)) (ground (arith, ne))

  pub next-prev_on : (z : ℕ) → Far a z → next_fnode prev_on z ≡ next_fnode m z
  next-prev_on z far = next-congr m prev_on z (ground (arith, far)) (ground arith)
