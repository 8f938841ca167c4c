-- ===== src/Objpool/FreeList.antt =====
-- The free list of a slab as the list of its objects' offsets, and what init_slab makes of it.
use leitner.Common.{ℕ, zero, suc, ◌+◌, ◌*◌, ◌≤◌, ◌<◌, ◌≡◌, ◌≢◌, refl, sym, ap, ◌∙◌, arith}
use mathlib.Core.Path.{subst}
use leitner.Common.{true, some, List, [], ◌∷◌, count, length}
use leitner.Common.{ltb}
use leitner.Objpool.{Ptr, null, at, Links, obj_num}
use leitner.Objpool.Ops.{write, init_loop, slab_cache}

-- From `p` the free pointers lead through the objects at `xs` of block `b`, and end.
abbrev pub Chain : Links → ℕ → ℕ → Ptr → List ℕ → Type 0
Chain m size b p [] = p ≡ null
Chain m size b p (o ∷ xs) = (p ≡ at b o) × Chain m size b (m b (o + size)) xs

abbrev pub slots_from : ℕ → ℕ → ℕ → List ℕ
slots_from zero o real = []
slots_from (suc n) o real = o ∷ slots_from n (o + real) real

unfoldable pub slots : ℕ → List ℕ
slots real = slots_from obj_num slab_cache real

pub Chain-congr :
    (m m' : Links) (size b : ℕ) (p : Ptr) (xs : List ℕ)
    → ((o : ℕ) → 0 < count o xs → m' b (o + size) ≡ m b (o + size))
    → Chain m size b p xs
    → Chain m' size b p xs
Chain-congr m m' size b p [] same h = h
Chain-congr m m' size b p (o ∷ xs) same (e, h) = (
  e,
  subst (λ q. Chain m' size b q xs) (sym (same o (ground arith)))
      (Chain-congr m m' size b (m b (o + size)) xs (λ k q. same k (omega arith)) h),
)

pub write_other :
    (m : Links) (b o : ℕ) (v : Ptr) (c k : ℕ) → (b ≡ c → o ≢ k) → write m b o v c k ≡ m c k
write_other m b o v c k h = ground arith

pub write_self : (m : Links) (b o : ℕ) (v : Ptr) → write m b o v b o ≡ v
write_self m b o v = ground arith

-- A write to the word of an object that is not in the chain leaves it.
pub Chain-write :
    (m : Links) (size b : ℕ) (p : Ptr) (xs : List ℕ) (c o : ℕ) (v : Ptr)
    → (c ≡ b → count o xs ≡ 0)
    → Chain m size b p xs
    → Chain (write m c (o + size) v) size b p xs
Chain-write m size b p xs c o v out h =
    Chain-congr m (write m c (o + size) v) size b p xs
      (λ k i. write_other m c (o + size) v b (k + size) λ e q. absurd (apart k i e (omega arith))) h
  where
    apart : (k : ℕ) → 0 < count k xs → c ≡ b → o ≢ k
    apart k i e q = absurd (omega (arith, out e, ap (λ t. count t xs) q))

-- What the loop of init_slab writes in `n` rounds.
unfoldable pub fill : ℕ → ℕ → ℕ → ℕ → ℕ → Links → Links
fill zero size real b start m = m
fill (suc n) size real b start m =
    fill n size real b (start + real) (write m b (start + size) (at b (start + real)))

fill-other :
    (n size real b start : ℕ) (m : Links) (c k : ℕ)
    → (b ≡ c → k < start + size)
    → fill n size real b start m c k ≡ m c k
unfolding fill
fill-other zero size real b start m c k h = refl
fill-other (suc n) size real b start m c k h =
    fill-other n size real b (start + real) _ c k (λ e. omega (arith, h e))
    ∙ write_other m b (start + size) (at b (start + real)) c k (λ e q. absurd (omega (arith, h e)))

init_loop-fill :
    (fuel n size real b start end : ℕ) (m : Links)
    → 0 < real
    → n < fuel
    → end ≡ start + n * real
    → init_loop fuel size real b start end m ≡ some (fill n size real b start m, end)
unfolding init_loop fill
init_loop-fill zero n size real b start end m pos lt e = absurd (omega arith)
init_loop-fill (suc fuel) zero size real b start end m pos lt e = ground arith
init_loop-fill (suc fuel) (suc n) size real b start end m pos lt e =
    rw (ltb_more, init_loop)
      (init_loop-fill fuel n size real b (start + real) end _ pos (omega arith) (omega arith))
  where
    ltb_more : ltb start end ≡ true
    ltb_more = ground arith

fill-Chain :
    (n size real b start last : ℕ) (m : Links)
    → 0 < real
    → last ≡ start + n * real
    → Chain
        (write (fill (suc n) size real b start m) b (last + size) null)
        size
        b
        (at b start)
        (slots_from (suc n) start real)
unfolding fill
fill-Chain zero size real b start last m pos e = (refl, ground arith)
fill-Chain (suc n) size real b start last m pos e = (
  refl,
  subst
      (λ q.
        Chain (write (fill (suc n) size real b (start + real) next) b (last + size) null) size b q
          (slots_from (suc n) (start + real) real))
      (sym word) (fill-Chain n size real b (start + real) last next pos (omega arith)),
)
  where
    next : Links
    next = write m b (start + size) (at b (start + real))

    word :
        write (fill (suc (suc n)) size real b start m) b (last + size) null b (start + size)
        ≡ at b (start + real)
    word =
        write_other (fill (suc (suc n)) size real b start m) b (last + size) null b (start + size)
          (λ e' q. absurd (omega arith))
        ∙ fill-other (suc n) size real b (start + real)
            (write m b (start + size) (at b (start + real))) b (start + size) (λ e'. omega arith)
        ∙ write_self m b (start + size) (at b (start + real))

-- The slots lie one behind another.
slots_from_bounds :
    (n o real k : ℕ) → 0 < count k (slots_from n o real) → 0 < real → (o ≤ k) × (k < o + n * real)
slots_from_bounds zero o real k h pos = absurd (omega (arith, h))
slots_from_bounds (suc n) o real k h pos = ground (arith, slots_from_bounds n (o + real) real k)

slots_from_fit :
    (n o real k : ℕ)
    → 0 < count k (slots_from n o real)
    → 0 < real
    → (o ≤ k) × (k + real ≤ o + n * real)
slots_from_fit zero o real k h pos = absurd (omega (arith, h))
slots_from_fit (suc n) o real k h pos = ground (arith, slots_from_fit n (o + real) real k)

slots_from_once : (n o real k : ℕ) → 0 < real → count k (slots_from n o real) ≤ 1
slots_from_once zero o real k pos = omega arith
slots_from_once (suc n) o real k pos =
    ground (arith, slots_from_once n (o + real) real k, slots_from_bounds n (o + real) real k)

slots_from_apart :
    (n o real j k : ℕ)
    → 0 < real
    → 0 < count j (slots_from n o real)
    → 0 < count k (slots_from n o real)
    → j < k
    → j + real ≤ k
slots_from_apart zero o real j k pos hj hk lt = absurd (omega (arith, hj))
slots_from_apart (suc n) o real j k pos hj hk lt = ground (
  arith,
  slots_from_bounds n (o + real) real k,
  slots_from_bounds n (o + real) real j,
  slots_from_apart n (o + real) real j k pos,
)

length-slots_from : (n o real : ℕ) → length (slots_from n o real) ≡ n
length-slots_from zero o real = refl
length-slots_from (suc n) o real = omega (arith, length-slots_from n (o + real) real)

pub slots_once : (real k : ℕ) → 0 < real → count k (slots real) ≤ 1
unfolding slots
slots_once real k pos = slots_from_once obj_num slab_cache real k pos

pub length-slots : (real : ℕ) → length (slots real) ≡ obj_num
unfolding slots
length-slots real = length-slots_from obj_num slab_cache real

-- Two objects of a slab do not overlap.
pub slots_apart :
    (real j k : ℕ)
    → 0 < real
    → 0 < count j (slots real)
    → 0 < count k (slots real)
    → j < k
    → j + real ≤ k
unfolding slots
slots_apart real j k pos hj hk lt = slots_from_apart obj_num slab_cache real j k pos hj hk lt

pub filled : ℕ → ℕ → ℕ → Links → Links
filled size real b m = fill obj_num size real b slab_cache m

pub filled-other :
    (size real b : ℕ) (m : Links) (c k : ℕ) → b ≢ c → filled size real b m c k ≡ m c k
unfolding filled
filled-other size real b m c k ne =
    fill-other obj_num size real b slab_cache m c k (λ e. absurd (ne e))

-- The fuel of init_slab is enough for a round an object.
pub init_loop-filled :
    (fuel size real b end : ℕ) (m : Links)
    → 0 < real
    → obj_num < fuel
    → end ≡ slab_cache + obj_num * real
    → init_loop fuel size real b slab_cache end m ≡ some (filled size real b m, end)
unfolding filled
init_loop-filled fuel size real b end m pos lt e =
    init_loop-fill fuel obj_num size real b slab_cache end m pos lt e

pub filled-Chain :
    (size real b last : ℕ) (m : Links)
    → 0 < real
    → last ≡ slab_cache + 127 * real
    → Chain
        (write (filled size real b m) b (last + size) null)
        size
        b
        (at b slab_cache)
        (slots real)
unfolding filled slots
filled-Chain size real b last m pos e = fill-Chain 127 size real b slab_cache last m pos e

pub slots_bounds :
    (real k : ℕ)
    → 0 < real
    → 0 < count k (slots real)
    → (slab_cache ≤ k) × (k + real ≤ slab_cache + obj_num * real)
unfolding slots
slots_bounds real k pos h = slots_from_fit obj_num slab_cache real k h pos
