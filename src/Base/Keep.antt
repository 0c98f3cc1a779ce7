-- ===== src/Base/Keep.antt =====
-- Membership in what a comprehension keeps.
use mathlib.Core.Path.{◌≡◌}
use mathlib.Core.Logic.{inl, inr}
use mathlib.Core.Logic.Or
use mathlib.Core.Bool.{Bool, true, false}
use mathlib.Core.List.{List, [], ◌∷◌, Mem, mem-cons, mem-cons_of_mem, Mem-prop, not-mem-nil}
use native.Mathlib.Omega.{arith}
use app_scan_custom_dashboar.Base.Tests.{Bool-cases}
use app_scan_custom_dashboar.Base.Lists.{keep, any_of}

module _ {ℓ} {A : Type ℓ} where
  keep-cons_true :
      (test : A → Bool) (x : A) (xs : List A)
      → test x ≡ true
      → keep test (x ∷ xs) ≡ x ∷ keep test xs
  unfolding keep
  keep-cons_true test x xs h = rw h

  keep-cons_false :
      (test : A → Bool) (x : A) (xs : List A) → test x ≡ false → keep test (x ∷ xs) ≡ keep test xs
  unfolding keep
  keep-cons_false test x xs h = rw h

  mem-keep_self :
      (test : A → Bool) (x y : A) (xs : List A) → x ≡ y → test x ≡ true → Mem x (keep test (y ∷ xs))
  mem-keep_self test x y xs e h = rw (keep-cons_true test y xs (rw e at h)) (mem-cons.1 (Or.inl e))

  mem-keep_later :
      (test : A → Bool) (x y : A) (xs : List A) → Mem x (keep test xs) → Mem x (keep test (y ∷ xs))
  mem-keep_later test x y xs m = elim (Bool-cases (test y)) [
    | inl kept ↦ rw (keep-cons_true test y xs kept) (mem-cons_of_mem y m)
    | inr gone ↦ rw (keep-cons_false test y xs gone) m
  ]

  pub mem-keep_of :
      (test : A → Bool) (x : A) (xs : List A) → Mem x xs → test x ≡ true → Mem x (keep test xs)
  mem-keep_of test x [] m h = absurd (not-mem-nil m)
  mem-keep_of test x (y ∷ ys) m h =
      Or.elim Mem-prop (mem-cons.0 m) (λ e. mem-keep_self test x y ys e h)
        (λ later. mem-keep_later test x y ys (mem-keep_of test x ys later h))

  both-prop : (test : A → Bool) (x : A) (xs : List A) → IsProp (Mem x xs × (test x ≡ true))
  both-prop test x xs = hlevel Mem-prop

  pub mem-of_keep :
      (test : A → Bool) (x : A) (xs : List A) → Mem x (keep test xs) → Mem x xs × (test x ≡ true)
  unfolding keep
  mem-of_keep test x [] m = absurd (not-mem-nil m)
  mem-of_keep test x (y ∷ ys) m = elim (Bool-cases (test y)) [
    | inl kept ↦
        Or.elim (both-prop test x (y ∷ ys)) (mem-cons.0 (rw kept at m))
          (λ e. (mem-cons.1 (Or.inl e), rw e kept))
          (λ l. let r = mem-of_keep test x ys l in (mem-cons_of_mem y r.0, r.1))
    | inr gone ↦ let r = mem-of_keep test x ys (rw gone at m) in (mem-cons_of_mem y r.0, r.1)
  ]

  -- A member that passes makes `any` true.
  pub any_of-mem :
      (test : A → Bool) (x : A) (xs : List A) → Mem x xs → test x ≡ true → any_of test xs ≡ true
  unfolding any_of
  any_of-mem test x [] m h = absurd (not-mem-nil m)
  any_of-mem test x (y ∷ ys) m h =
      Or.elim (hlevel) (mem-cons.0 m) (λ e. let kept : test y ≡ true = rw e at h in rw kept)
        (λ later. let rest : any_of test ys ≡ true = any_of-mem test x ys later h in ground arith)
