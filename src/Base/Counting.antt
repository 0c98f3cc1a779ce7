-- ===== src/Base/Counting.antt =====
-- Sums and counts over lists and over the values of a dict.
use Prim.Native.Nat.{ℕ, ◌+◌, ◌≤◌}
use Prim.Native.String.{String}
use mathlib.Core.Path.{◌≡◌, refl, ap, sym, ◌∙◌}
use mathlib.Core.Bool.{Bool}
use mathlib.Core.Option.{none, some}
use mathlib.Core.List.{List, [], ◌∷◌, ◌++◌, Perm, Permᴰ, map}
use mathlib.Core.Logic.{∥∥₁_elim}
use native.Mathlib.Omega.{arith}
use text.Mathlib.Text.{◌==◌}
use text.Mathlib.TextEquality.{eq_iff}
use app_scan_custom_dashboar.Base.Tests.{if◌then◌else◌, Bool-cases, Option-cases}
use mathlib.Core.Logic.{inl, inr}
use app_scan_custom_dashboar.Base.Lists.{sum_of, length}
use app_scan_custom_dashboar.Base.Maps.{Dict, lookup, lookup_or, insert, lookup-insert}

-- `1 if test else 0`.
abbrev pub one_if : Bool → ℕ
one_if b = if b then 1 else 0

-- `sum(1 for x in xs if test(x))`.
unfoldable pub count_where {ℓ} : {A : Type ℓ} → (A → Bool) → List A → ℕ
count_where test [] = 0
count_where test (x ∷ xs) = one_if (test x) + count_where test xs

pub sum_of-append {ℓ} :
    {A : Type ℓ} (f : A → ℕ) (xs ys : List A) → sum_of f (xs ++ ys) ≡ sum_of f xs + sum_of f ys
unfolding sum_of
sum_of-append f [] ys = omega arith
sum_of-append f (x ∷ xs) ys = omega (arith, sum_of-append f xs ys)

sum_of-Permᴰ : {A : Type 0} (f : A → ℕ) (xs ys : List A) → Permᴰ xs ys → sum_of f xs ≡ sum_of f ys
unfolding sum_of
sum_of-Permᴰ f [] [] Permᴰ.nil = refl
sum_of-Permᴰ f (x ∷ xs) (y ∷ ys) (Permᴰ.cons e p) = omega (arith, ap f e, sum_of-Permᴰ f xs ys p)
sum_of-Permᴰ f (x ∷ y ∷ xs) (u ∷ v ∷ ys) (Permᴰ.swap e d) = omega (arith, ap f e, ap f d)
sum_of-Permᴰ f xs zs (Permᴰ.trans {l₂} p q) = sum_of-Permᴰ f xs l₂ p ∙ sum_of-Permᴰ f l₂ zs q

pub sum_of-Perm : {A : Type 0} (f : A → ℕ) (xs ys : List A) → Perm xs ys → sum_of f xs ≡ sum_of f ys
sum_of-Perm f xs ys p = ∥∥₁_elim p (hlevel) (sum_of-Permᴰ f xs ys)

-- The number of the value under a key: 0 where the key is missing.
unfoldable pub at_key {ℓ} : {V : Type ℓ} → (V → ℕ) → String → Dict V → ℕ
unfolding lookup
at_key f k d = elim (lookup k d) [ none ↦ 0 | some v ↦ f v ]

-- The sum of one number for each value of a dict.
unfoldable pub sum_values {ℓ} : {V : Type ℓ} → (V → ℕ) → Dict V → ℕ
unfolding sum_of
sum_values f d = sum_of (λ e. f e.1) d

at_key-cons {ℓ} :
    {V : Type ℓ} (f : V → ℕ) (k j : String) (w : V) (d : Dict V)
    → at_key f k ((j, w) ∷ d) ≡ (if j == k then f w else at_key f k d)
unfolding at_key lookup
at_key-cons f k j w d = elim (Bool-cases (j == k)) [
  | inl found ↦ rw (found, at_key) (refl)
  | inr missing ↦ rw (missing, at_key) (refl)
]

-- A write replaces what the key had.
pub sum_values-insert {ℓ} :
    {V : Type ℓ} (f : V → ℕ) (k : String) (v : V) (d : Dict V)
    → sum_values f (insert k v d) + at_key f k d ≡ sum_values f d + f v
unfolding sum_values insert
sum_values-insert f k v [] = unfold at_key lookup in omega arith
sum_values-insert f k v ((j, w) ∷ d) =
    ground (arith, at_key-cons f k j w d, sum_values-insert f k v d)

-- `counts[key] = counts.get(key, 0) + 1`.
unfoldable pub bump_key : String → Dict ℕ → Dict ℕ
unfolding insert lookup_or
bump_key k d = insert k (lookup_or k 0 d + 1) d

pub lookup_or-bump_key :
    (k j : String) (d : Dict ℕ) → lookup_or j 0 (bump_key k d) ≡ one_if (k == j) + lookup_or j 0 d
unfolding lookup_or bump_key
lookup_or-bump_key k j d = ground (arith, lookup-insert k j (lookup_or k 0 d + 1) d, eq_iff k j)

-- A default that counts for nothing.
pub at_key-lookup_or {ℓ} :
    {V : Type ℓ} (f : V → ℕ) (k : String) (v : V) (d : Dict V)
    → f v ≡ 0
    → at_key f k d ≡ f (lookup_or k v d)
unfolding at_key lookup_or
at_key-lookup_or f k v d h = elim (Option-cases (lookup k d)) [
  | inl missing ↦ rw (at_key, lookup_or, missing) (sym h)
  | inr (w, found) ↦ rw (at_key, lookup_or, found) refl
]

pub sum_values-bump_key :
    (k : String) (d : Dict ℕ) → sum_values (λ n. n) (bump_key k d) ≡ sum_values (λ n. n) d + 1
unfolding bump_key
sum_values-bump_key k d = omega (
  arith,
  at_key-lookup_or (λ n. n) k 0 d refl,
  sum_values-insert (λ n. n) k (lookup_or k 0 d + 1) d,
)

pub sum_values-nil {ℓ} : {V : Type ℓ} (f : V → ℕ) → sum_values f [] ≡ 0
unfolding sum_values
sum_values-nil f = refl

-- The values in a list of their own.
pub sum_of-values {ℓ} :
    {V : Type ℓ} (f : V → ℕ) (d : Dict V) → sum_of f (map (λ e. e.1) d) ≡ sum_values f d
unfolding sum_of sum_values
sum_of-values f [] = refl
sum_of-values f ((k, v) ∷ d) = omega (arith, sum_of-values f d)

pub count_where-le {ℓ} :
    {A : Type ℓ} (test : A → Bool) (xs : List A) → count_where test xs ≤ length xs
unfolding count_where
count_where-le test [] = omega arith
count_where-le test (x ∷ xs) = ground (arith, count_where-le test xs)

-- `d.setdefault(k, v)` with a fresh `v` that counts for nothing, and then a change of that value.
pub sum_values-update {ℓ} :
    {V : Type ℓ} (f : V → ℕ) (k : String) (v w : V) (d : Dict V) (n : ℕ)
    → f v ≡ 0
    → f w ≡ f (lookup_or k v d) + n
    → sum_values f (insert k w d) ≡ sum_values f d + n
sum_values-update f k v w d n fresh changed =
    omega (arith, sum_values-insert f k w d, at_key-lookup_or f k v d fresh)

pub sum_of-map {ℓ κ} :
    {A : Type ℓ} {B : Type κ} (f : B → ℕ) (g : A → B) (xs : List A)
    → sum_of f (map g xs) ≡ sum_of (λ x. f (g x)) xs
unfolding sum_of
sum_of-map f g [] = refl
sum_of-map f g (x ∷ xs) = omega (arith, sum_of-map f g xs)
