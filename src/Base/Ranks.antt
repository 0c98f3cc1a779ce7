-- ===== src/Base/Ranks.antt =====
-- What `sorted` gives: each element stands before those that it is better than, and the first `n` of
-- the result before the others.
use Prim.Native.Nat.{ℕ, zero, suc, ◌<◌, min}
use mathlib.Core.Path.{◌≡◌, refl, ap, ◌∙◌}
use mathlib.Core.Logic.{inl, inr}
use mathlib.Core.Bool.{Bool, true, false}
use mathlib.Core.List.{List, [], ◌∷◌, ◌++◌, Perm}
use native.Mathlib.Omega.{arith}
use app_scan_custom_dashboar.Base.Tests.{Bool-cases, leb}
use app_scan_custom_dashboar.Base.Lists.{All, take, drop, length}
use app_scan_custom_dashboar.Base.Sort.{sort, insert_sorted, sort-perm}

abbrev pub Ranked {ℓ} : {A : Type ℓ} → (A → A → Bool) → List A → Type 0
Ranked le [] = Unit
Ranked le (x ∷ xs) = All (λ y. le x y ≡ true) xs × Ranked le xs

module _ {ℓ} {A : Type ℓ} (le better : A → A → Bool)
    (trans : (x y z : A) → better x y ≡ true → better y z ≡ true → better x z ≡ true)
    (before : (x y : A) → le x y ≡ true → better x y ≡ true)
    (behind : (x y : A) → le x y ≡ false → better y x ≡ true) where
  All-trans :
      (x y : A) (zs : List A)
      → better x y ≡ true
      → All (λ z. better y z ≡ true) zs
      → All (λ z. better x z ≡ true) zs
  All-trans x y [] h a = tt
  All-trans x y (z ∷ zs) h a = (trans x y z h a.0, All-trans x y zs h a.1)

  All-insert_sorted :
      (x y : A) (zs : List A)
      → better x y ≡ true
      → All (λ z. better x z ≡ true) zs
      → All (λ z. better x z ≡ true) (insert_sorted le y zs)
  unfolding insert_sorted
  All-insert_sorted x y [] h a = (h, tt)
  All-insert_sorted x y (z ∷ zs) h a = elim (Bool-cases (le y z)) [
    | inl first ↦ rw first (h, a)
    | inr later ↦ rw later (a.0, All-insert_sorted x y zs h a.1)
  ]

  insert_sorted-Ranked :
      (x : A) (ys : List A) → Ranked better ys → Ranked better (insert_sorted le x ys)
  unfolding insert_sorted
  insert_sorted-Ranked x [] r = (tt, tt)
  insert_sorted-Ranked x (y ∷ ys) r = elim (Bool-cases (le x y)) [
    | inl first ↦ rw first ((before x y first, All-trans x y ys (before x y first) r.0), r)
    | inr later ↦
        rw later (All-insert_sorted y x ys (behind x y later) r.0, insert_sorted-Ranked x ys r.1)
  ]

  pub sort-Ranked : (xs : List A) → Ranked better (sort le xs)
  unfolding sort
  sort-Ranked [] = tt
  sort-Ranked (x ∷ xs) = insert_sorted-Ranked x (sort le xs) (sort-Ranked xs)

module _ {ℓ κ} {A : Type ℓ} (P : A → Type κ) (le : A → A → Bool) where
  All-of_insert_sorted : (x : A) (ys : List A) → All P (insert_sorted le x ys) → P x × All P ys
  unfolding insert_sorted
  All-of_insert_sorted x [] a = (a.0, tt)
  All-of_insert_sorted x (y ∷ ys) a = elim (Bool-cases (le x y)) [
    | inl first ↦ let b : All P (x ∷ y ∷ ys) = rw first at a in (b.0, b.1)
    | inr later ↦
        let b : All P (y ∷ insert_sorted le x ys) = rw later at a in
        let c : P x × All P ys = All-of_insert_sorted x ys b.1 in (c.0, (b.0, c.1))
  ]

  pub All-of_sort : (xs : List A) → All P (sort le xs) → All P xs
  unfolding sort
  All-of_sort [] a = tt
  All-of_sort (x ∷ xs) a =
      let b : P x × All P (sort le xs) = All-of_insert_sorted x (sort le xs) a in
      (b.0, All-of_sort xs b.1)

  All-to_insert_sorted : (x : A) (ys : List A) → P x → All P ys → All P (insert_sorted le x ys)
  unfolding insert_sorted
  All-to_insert_sorted x [] p a = (p, tt)
  All-to_insert_sorted x (y ∷ ys) p a = elim (Bool-cases (le x y)) [
    | inl first ↦ rw first (p, a)
    | inr later ↦ rw later (a.0, All-to_insert_sorted x ys p a.1)
  ]

  pub All-sort : (xs : List A) → All P xs → All P (sort le xs)
  unfolding sort
  All-sort [] a = tt
  All-sort (x ∷ xs) a = All-to_insert_sorted x (sort le xs) a.0 (All-sort xs a.1)

module _ {ℓ} {A : Type ℓ} where
  pub All-take {κ} : (P : A → Type κ) (n : ℕ) (xs : List A) → All P xs → All P (take n xs)
  All-take P zero xs a = tt
  All-take P (suc n) [] a = tt
  All-take P (suc n) (x ∷ xs) a = (a.0, All-take P n xs a.1)

  All-drop {κ} : (P : A → Type κ) (n : ℕ) (xs : List A) → All P xs → All P (drop n xs)
  All-drop P zero xs a = a
  All-drop P (suc n) [] a = tt
  All-drop P (suc n) (x ∷ xs) a = All-drop P n xs a.1

  pub take-Ranked : (le : A → A → Bool) (n : ℕ) (xs : List A) → Ranked le xs → Ranked le (take n xs)
  take-Ranked le zero xs r = tt
  take-Ranked le (suc n) [] r = tt
  take-Ranked le (suc n) (x ∷ xs) r =
      (All-take (λ y. le x y ≡ true) n xs r.0, take-Ranked le n xs r.1)

  pub take-before-drop :
      (le : A → A → Bool) (n : ℕ) (xs : List A)
      → Ranked le xs
      → All (λ x. All (λ y. le x y ≡ true) (drop n xs)) (take n xs)
  take-before-drop le zero xs r = tt
  take-before-drop le (suc n) [] r = tt
  take-before-drop le (suc n) (x ∷ xs) r =
      (All-drop (λ y. le x y ≡ true) n xs r.0, take-before-drop le n xs r.1)

  take-drop : (n : ℕ) (xs : List A) → take n xs ++ drop n xs ≡ xs
  take-drop zero xs = refl
  take-drop (suc n) [] = refl
  take-drop (suc n) (x ∷ xs) = ap (λ l. x ∷ l) (take-drop n xs)

-- `sorted(xs, key=score, reverse=True)`.
abbrev pub higher {ℓ} : {A : Type ℓ} → (A → ℕ) → A → A → Bool
higher score x y = leb (score y) (score x)

pub higher_trans {ℓ} :
    {A : Type ℓ} (score : A → ℕ) (x y z : A)
    → higher score x y ≡ true
    → higher score y z ≡ true
    → higher score x z ≡ true
higher_trans score x y z h k = ground arith

pub higher_total {ℓ} :
    {A : Type ℓ} (score : A → ℕ) (x y : A) → higher score x y ≡ false → higher score y x ≡ true
higher_total score x y h = ground arith

length-insert_sorted {ℓ} :
    {A : Type ℓ} (le : A → A → Bool) (x : A) (ys : List A)
    → length (insert_sorted le x ys) ≡ suc (length ys)
unfolding insert_sorted
length-insert_sorted le x [] = refl
length-insert_sorted le x (y ∷ ys) = elim (Bool-cases (le x y)) [
  | inl first ↦ rw first refl
  | inr later ↦ rw later (ap suc (length-insert_sorted le x ys))
]

pub length-sort {ℓ} :
    {A : Type ℓ} (le : A → A → Bool) (xs : List A) → length (sort le xs) ≡ length xs
unfolding sort
length-sort le [] = refl
length-sort le (x ∷ xs) = length-insert_sorted le x (sort le xs) ∙ ap suc (length-sort le xs)

length-take {ℓ} : {A : Type ℓ} (n : ℕ) (xs : List A) → length (take n xs) ≡ min n (length xs)
length-take zero xs = omega arith
length-take (suc n) [] = omega arith
length-take (suc n) (x ∷ xs) = omega (arith, length-take n xs)

-- `best` is the `n` first of `xs` by the score: it has `n` elements, or all if `xs` has fewer, the two
-- lists together are a rearrangement of `xs`,
-- the scores of `best` fall, and none of the rest has a higher score than one of `best`.
pub record Best {A : Type 0} (score : A → ℕ) (n : ℕ) (xs best rest : List A) : Type 0 where
  pub size : length best ≡ min n (length xs)
  pub together : Perm (best ++ rest) xs
  pub falling : Ranked (higher score) best
  pub above : All (λ x. All (λ y. higher score x y ≡ true) rest) best

pub take-sort-Best :
    {A : Type 0} (score : A → ℕ) (n : ℕ) (xs : List A)
    → Best score n xs (take n (sort (higher score) xs)) (drop n (sort (higher score) xs))
take-sort-Best score n xs =
    let ranked : Ranked (higher score) (sort (higher score) xs) =
      sort-Ranked (higher score) (higher score) (higher_trans score) (λ x y h. h)
        (higher_total score) xs in
    record {
      size = length-take n (sort (higher score) xs) ∙ ap (min n) (length-sort (higher score) xs);
      together = rw (take-drop n (sort (higher score) xs)) (sort-perm (higher score) xs);
      falling = take-Ranked (higher score) n (sort (higher score) xs) ranked;
      above = take-before-drop (higher score) n (sort (higher score) xs) ranked;
    }

-- `sorted` of a list that is not empty has a first element.
insert_sorted-cons {ℓ} :
    {A : Type ℓ} (le : A → A → Bool) (x : A) (ys : List A)
    → (y : A) × (zs : List A) × (insert_sorted le x ys ≡ y ∷ zs)
unfolding insert_sorted
insert_sorted-cons le x [] = (x, [], refl)
insert_sorted-cons le x (y ∷ ys) = elim (Bool-cases (le x y)) [
  | inl first ↦ (x, y ∷ ys, rw first refl)
  | inr later ↦ (y, insert_sorted le x ys, rw later refl)
]

pub sort-cons {ℓ} :
    {A : Type ℓ} (le : A → A → Bool) (xs : List A)
    → 0 < length xs
    → (y : A) × (zs : List A) × (sort le xs ≡ y ∷ zs)
unfolding sort
sort-cons le [] h = absurd (omega arith)
sort-cons le (x ∷ xs) h = insert_sorted-cons le x (sort le xs)
