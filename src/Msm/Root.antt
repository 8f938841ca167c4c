-- ===== src/Msm/Root.antt =====
-- The registration of data sources and the count of references of src/msm.c.
use leitner.Common.{
  ℕ, zero, suc, ◌+◌, ◌≡◌, refl, ap, ◌∙◌, arith, Option, none, some, List, [], ◌∷◌, ◌++◌, str_eq,
  str_eq_iff, Bool-cases, inl, inr,
}
use leitner.Msm.Dump.{PoolOps, Sources, find_dsn_by_name}

-- only_srd: none, or root data with its refcnt.
unfoldable pub msm_get : Option ℕ → Option ℕ
msm_get none = some 1
msm_get (some refcnt) = some (refcnt + 1)

unfoldable pub msm_put : Option ℕ → Option ℕ
msm_put none = none
msm_put (some zero) = none
msm_put (some (suc refcnt)) = some refcnt

unfoldable pub gets : ℕ → Option ℕ → Option ℕ
gets zero srd = srd
gets (suc n) srd = gets n (msm_get srd)

unfoldable pub puts : ℕ → Option ℕ → Option ℕ
puts zero srd = srd
puts (suc n) srd = puts n (msm_put srd)

gets-some : (n refcnt : ℕ) → gets n (some refcnt) ≡ some (n + refcnt)
unfolding gets msm_get
gets-some zero refcnt = ap (λ k. some k) (omega arith)
gets-some (suc n) refcnt = gets-some n (refcnt + 1) ∙ ap (λ k. some k) (omega arith)

puts_all : (n : ℕ) → puts n (some n) ≡ some 0
unfolding puts msm_put
puts_all zero = refl
puts_all (suc n) = puts_all n

-- After as many msm_put as msm_get, one or more, the root data is still there; the next msm_put frees it.
pub puts-gets :
    (n : ℕ)
    → (puts (suc n) (gets (suc n) none) ≡ some 0)
      × (msm_put (puts (suc n) (gets (suc n) none)) ≡ none)
unfolding gets msm_get msm_put
puts-gets n =
    let kept : puts (suc n) (gets (suc n) none) ≡ some 0 =
      ap (puts (suc n)) (gets-some n 1 ∙ ap (λ k. some k) (omega arith)) ∙ puts_all (suc n) in
    (kept, ap msm_put kept)

-- list_add_tail.
unfoldable pub msm_register_ds : {S : Type 0} → Sources S → List ℕ → S → Sources S
msm_register_ds ys name p = ys ++ ((name, p) ∷ [])

module _ {S : Type 0} (ops : PoolOps S) where
  -- What a search gives that asks the sources before one of the name first.
  abbrev pub or_new : Option S → S → Option S
  or_new none p = some p
  or_new (some q) p = some q

  -- A registered source is found by its name, unless one of that name was registered before.
  pub find_dsn_by_name-msm_register_ds :
      (ys : Sources S) (name : List ℕ) (p : S)
      → find_dsn_by_name ops (msm_register_ds ys name p) name
        ≡ or_new (find_dsn_by_name ops ys name) p
  unfolding find_dsn_by_name msm_register_ds
  find_dsn_by_name-msm_register_ds [] name p = rw ((str_eq_iff name name).1 refl) refl
  find_dsn_by_name-msm_register_ds ((n, q) ∷ ys) name p = elim (Bool-cases (str_eq n name)) [
    | inl e ↦ rw (e) refl
    | inr e ↦ rw (e) (find_dsn_by_name-msm_register_ds ys name p)
  ]
