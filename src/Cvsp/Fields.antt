-- ===== src/Cvsp/Fields.antt =====
-- What the writes of src/cvspool.c to one node leave of the fields of the others.
use leitner.Common.{
  ℕ, ◌+◌, ◌*◌, ◌/◌, ◌%◌, ◌^◌, ◌<◌, ◌≤◌, ◌≡◌, ◌≢◌, ◌⊎◌, inl, inr, refl, ap, ◌∙◌, arith,
}
use leitner.Cvsp.Nodes.{
  Mem, half, write16, pad, idx, set_idx, prev_off, next_off, next_fnode, prev_fnode, set_next,
  set_prev, prev_blkidx, next_blkidx, pnblkidx, blk_slots,
}

pub half_self : (m : Mem) (a v : ℕ) → half (write16 m a v) a ≡ v % 2 ^ 16
half_self m a v = ground arith

pub half_other : (m : Mem) (a v b : ℕ) → a ≢ b → half (write16 m a v) b ≡ half m b
half_other m a v b h = ground arith

-- One node, or nodes that do not overlap.
abbrev pub Far : ℕ → ℕ → Type 0
Far a x = (x ≡ a) ⊎ ((a + 3 ≤ x) ⊎ (x + 3 ≤ a))

-- set_idx keeps every halfword but its own.
set_idx-half : (m : Mem) (fn v a : ℕ) → 2 * fn ≢ a → half (set_idx m fn v) a ≡ half m a
unfolding set_idx
set_idx-half m fn v a ne = half_other m (2 * fn) (v % 256 * 256 + pad m fn) a ne

set_idx-idx : (m : Mem) (fn v : ℕ) → v < 256 → idx (set_idx m fn v) fn ≡ v
unfolding set_idx idx pad
set_idx-idx m fn v lt =
    ap (λ h. h / 256) (half_self m (2 * fn) (v % 256 * 256 + pad m fn)) ∙ omega (arith, lt)

set_idx-pad : (m : Mem) (fn v : ℕ) → pad (set_idx m fn v) fn ≡ pad m fn
unfolding set_idx pad
set_idx-pad m fn v =
    ap (λ h. h % 256) (half_self m (2 * fn) (v % 256 * 256 + pad m fn)) ∙ omega arith

pub idx_lt : (m : Mem) (fn : ℕ) → idx m fn < 256
unfolding idx
idx_lt m fn = omega arith

-- The nodes' links read two halfwords each.
pub next-congr :
    (m m' : Mem) (x : ℕ)
    → half m' (2 * x) ≡ half m (2 * x)
    → half m' (2 * x + 3) ≡ half m (2 * x + 3)
    → next_fnode m' x ≡ next_fnode m x
unfolding next_fnode next_off idx
next-congr m m' x e e' = rw (e, e') refl

pub prev-congr :
    (m m' : Mem) (x : ℕ)
    → half m' (2 * x) ≡ half m (2 * x)
    → half m' (2 * x + 2) ≡ half m (2 * x + 2)
    → prev_fnode m' x ≡ prev_fnode m x
unfolding prev_fnode prev_off idx
prev-congr m m' x e e' = rw (e, e') refl

module _ (m : Mem) (fn blk off : ℕ) where
  abbrev nidx : ℕ
  nidx = pnblkidx (prev_blkidx (idx m fn)) blk

  abbrev pidx : ℕ
  pidx = pnblkidx blk (next_blkidx (idx m fn))

  pub set_next-half :
      (a : ℕ) → 2 * fn ≢ a → 2 * fn + 3 ≢ a → half (set_next m fn blk off) a ≡ half m a
  unfolding set_next
  set_next-half a ne ne' =
      half_other (set_idx m fn nidx) (2 * fn + 3) off a ne' ∙ set_idx-half m fn nidx a ne

  pub set_prev-half :
      (a : ℕ) → 2 * fn ≢ a → 2 * fn + 2 ≢ a → half (set_prev m fn blk off) a ≡ half m a
  unfolding set_prev
  set_prev-half a ne ne' =
      half_other (set_idx m fn pidx) (2 * fn + 2) off a ne' ∙ set_idx-half m fn pidx a ne

  first_next : half (set_next m fn blk off) (2 * fn) ≡ half (set_idx m fn nidx) (2 * fn)
  unfolding set_next
  first_next = half_other (set_idx m fn nidx) (2 * fn + 3) off (2 * fn) (λ e. omega (arith, e))

  first_prev : half (set_prev m fn blk off) (2 * fn) ≡ half (set_idx m fn pidx) (2 * fn)
  unfolding set_prev
  first_prev = half_other (set_idx m fn pidx) (2 * fn + 2) off (2 * fn) (λ e. omega (arith, e))

  pub set_next-pad : pad (set_next m fn blk off) fn ≡ pad m fn
  unfolding pad
  set_next-pad = ap (λ h. h % 256) first_next ∙ set_idx-pad m fn nidx

  pub set_prev-pad : pad (set_prev m fn blk off) fn ≡ pad m fn
  unfolding pad
  set_prev-pad = ap (λ h. h % 256) first_prev ∙ set_idx-pad m fn pidx

  set_next-idx : blk < 16 → idx (set_next m fn blk off) fn ≡ nidx
  unfolding idx
  set_next-idx lt =
      ap (λ h. h / 256) first_next ∙ set_idx-idx m fn nidx (omega (arith, idx_lt m fn, lt))

  set_prev-idx : blk < 16 → idx (set_prev m fn blk off) fn ≡ pidx
  unfolding idx
  set_prev-idx lt =
      ap (λ h. h / 256) first_prev ∙ set_idx-idx m fn pidx (omega (arith, idx_lt m fn, lt))

  pub next-set_next_self :
      blk < 16 → off < 2 ^ 16 → next_fnode (set_next m fn blk off) fn ≡ blk * blk_slots + off
  unfolding next_fnode next_off set_next
  next-set_next_self lt lt' =
      omega (arith, lt, lt', set_next-idx lt, half_self (set_idx m fn nidx) (2 * fn + 3) off)

  pub prev-set_prev_self :
      blk < 16 → off < 2 ^ 16 → prev_fnode (set_prev m fn blk off) fn ≡ blk * blk_slots + off
  unfolding prev_fnode prev_off set_prev
  prev-set_prev_self lt lt' =
      omega (arith, lt, lt', set_prev-idx lt, half_self (set_idx m fn pidx) (2 * fn + 2) off)

  pub next-set_next_other :
      (x : ℕ) → Far fn x → x ≢ fn → next_fnode (set_next m fn blk off) x ≡ next_fnode m x
  next-set_next_other x far ne =
      next-congr m _ x
        (set_next-half (2 * x) (λ e. omega (arith, e, far, ne)) (λ e. omega (arith, e)))
        (set_next-half (2 * x + 3) (λ e. omega (arith, e)) (λ e. omega (arith, e, far, ne)))

  pub prev-set_prev_other :
      (x : ℕ) → Far fn x → x ≢ fn → prev_fnode (set_prev m fn blk off) x ≡ prev_fnode m x
  prev-set_prev_other x far ne =
      prev-congr m _ x
        (set_prev-half (2 * x) (λ e. omega (arith, e, far, ne)) (λ e. omega (arith, e, far, ne)))
        (set_prev-half (2 * x + 2) (λ e. omega (arith, e, far, ne))
          (λ e. omega (arith, e, far, ne)))

  next-set_prev_self : blk < 16 → next_fnode (set_prev m fn blk off) fn ≡ next_fnode m fn
  unfolding next_fnode next_off
  next-set_prev_self lt = omega (
    arith,
    lt,
    set_prev-idx lt,
    idx_lt m fn,
    set_prev-half (2 * fn + 3) (λ e. omega (arith, e)) (λ e. omega (arith, e)),
  )

  prev-set_next_self : blk < 16 → prev_fnode (set_next m fn blk off) fn ≡ prev_fnode m fn
  unfolding prev_fnode prev_off
  prev-set_next_self lt = omega (
    arith,
    lt,
    set_next-idx lt,
    idx_lt m fn,
    set_next-half (2 * fn + 2) (λ e. omega (arith, e)) (λ e. omega (arith, e)),
  )

  pub next-set_prev :
      (x : ℕ) → blk < 16 → Far fn x → next_fnode (set_prev m fn blk off) x ≡ next_fnode m x
  next-set_prev x lt (inl e) = rw (e) (next-set_prev_self lt)
  next-set_prev x lt (inr far) =
      next-congr m _ x
        (set_prev-half (2 * x) (λ e. omega (arith, e, far)) (λ e. omega (arith, e, far)))
        (set_prev-half (2 * x + 3) (λ e. omega (arith, e, far)) (λ e. omega (arith, e, far)))

  pub prev-set_next :
      (x : ℕ) → blk < 16 → Far fn x → prev_fnode (set_next m fn blk off) x ≡ prev_fnode m x
  prev-set_next x lt (inl e) = rw (e) (prev-set_next_self lt)
  prev-set_next x lt (inr far) =
      prev-congr m _ x
        (set_next-half (2 * x) (λ e. omega (arith, e, far)) (λ e. omega (arith, e, far)))
        (set_next-half (2 * x + 2) (λ e. omega (arith, e, far)) (λ e. omega (arith, e, far)))
