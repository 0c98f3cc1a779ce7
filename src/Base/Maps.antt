-- ===== src/Base/Maps.antt =====
-- A Python dict with text keys, as an association list in insertion order.
use Prim.Native.String.{String}
use mathlib.Core.Path.{◌≡◌, refl, ap, subst}
use mathlib.Core.Option.{Option, none, some, some-injective}
use mathlib.Core.List.{List, [], ◌∷◌, map}
use native.Mathlib.Omega.{arith}
use text.Mathlib.Text.{◌==◌}
use text.Mathlib.TextEquality.{eq_iff}
use text.Mathlib.TextPositions.{eq_refl}
use app_scan_custom_dashboar.Base.Tests.{if◌then◌else◌, Bool-cases}
use app_scan_custom_dashboar.Base.Lists.{All}
use mathlib.Core.Logic.{inl, inr}

abbrev pub Dict {ℓ} : Type ℓ → Type ℓ
Dict V = List (String × V)

module _ {ℓ} {V : Type ℓ} where
  -- `d.get(k)`.
  unfoldable pub lookup : String → Dict V → Option V
  lookup k [] = none
  lookup k ((j, v) ∷ d) = let rest = lookup k d in if j == k then some v else rest

  -- `d.get(k, v)`.
  unfoldable pub lookup_or : String → V → Dict V → V
  unfolding lookup
  lookup_or k v d = elim (lookup k d) [ none ↦ v | some w ↦ w ]

  -- `d[k] = v`: in place if the key is there, else at the end.
  unfoldable pub insert : String → V → Dict V → Dict V
  insert k v [] = (k, v) ∷ []
  insert k v ((j, w) ∷ d) = let rest = insert k v d in if j == k then (j, v) ∷ d else (j, w) ∷ rest

  pub lookup-insert :
      (k j : String) (v : V) (d : Dict V)
      → lookup j (insert k v d) ≡ (if k == j then some v else lookup j d)
  unfolding lookup insert
  lookup-insert k j v [] = refl
  lookup-insert k j v ((i, w) ∷ d) =
      ground (arith, eq_iff k j, eq_iff i k, eq_iff i j, lookup-insert k j v d)

  pub lookup_or-insert :
      (k j : String) (v other : V) (d : Dict V)
      → lookup_or j other (insert k v d) ≡ (if k == j then v else lookup_or j other d)
  unfolding lookup_or
  lookup_or-insert k j v other d = elim (Bool-cases (k == j)) [
    | inl found ↦ rw (lookup_or, lookup-insert k j v d, found) refl
    | inr missing ↦ rw (lookup_or, lookup-insert k j v d, missing) refl
  ]

  unfoldable pub keys : Dict V → List String
  keys d = map (λ e. e.0) d

  -- Each key once.
  abbrev pub Unique : Dict V → Type ℓ
  Unique [] = Unit
  Unique ((k, v) ∷ d) = (lookup k d ≡ none) × Unique d

  pub insert-Unique : (k : String) (v : V) (d : Dict V) → Unique d → Unique (insert k v d)
  unfolding insert lookup
  insert-Unique k v [] u = (refl, tt)
  insert-Unique k v ((j, w) ∷ d) u = elim (Bool-cases (j == k)) [
    | inl found ↦ rw found u
    | inr missing ↦ rw missing (
      ground (arith, lookup-insert k j v d, eq_iff k j, eq_iff j k, u.0),
      insert-Unique k v d u.1,
    )
  ]

  -- A property of every entry.
  pub All-insert {κ} :
      (P : String × V → Type κ) (k : String) (v : V) (d : Dict V)
      → ((j : String) → j ≡ k → P (j, v))
      → All P d
      → All P (insert k v d)
  unfolding insert
  All-insert P k v [] h a = (h k refl, tt)
  All-insert P k v ((j, w) ∷ d) h a = elim (Bool-cases (j == k)) [
    | inl found ↦ rw found (h j ((eq_iff j k).0 found), a.1)
    | inr missing ↦ rw missing (a.0, All-insert P k v d h a.1)
  ]

  pub All-lookup {κ} :
      (P : String × V → Type κ) (k : String) (v : V) (d : Dict V)
      → All P d
      → lookup k d ≡ some v
      → P (k, v)
  unfolding lookup
  All-lookup P k v [] a h = cc
  All-lookup P k v ((j, w) ∷ d) a h = elim (Bool-cases (j == k)) [
    | inl found ↦
        subst P (ap (λ (t : String). (t, v)) ((eq_iff j k).0 found))
          (subst P (ap (λ (t : V). (j, t)) (some-injective w v (rw found at h))) a.0)
    | inr missing ↦ All-lookup P k v d a.1 (rw missing at h)
  ]

  lookup-first : (k : String) (v : V) (d : Dict V) → lookup k ((k, v) ∷ d) ≡ some v
  unfolding lookup
  lookup-first k v d = rw (eq_refl k) refl

  lookup-behind_one :
      (k : String) (v : V) (d : Dict V) (j : String) (w : V)
      → lookup k d ≡ none
      → lookup j d ≡ some w
      → lookup j ((k, v) ∷ d) ≡ some w
  lookup-behind_one k v d j w missing h = elim (Bool-cases (k == j)) [
    | inl same ↦ cc (missing, ap (λ (t : String). lookup t d) ((eq_iff k j).0 same))
    | inr apart ↦ unfold lookup in rw apart h
  ]

  lookup-behind :
      (k : String) (v : V) (d : Dict V) (es : Dict V)
      → lookup k d ≡ none
      → All (λ e. lookup e.0 d ≡ some e.1) es
      → All (λ e. lookup e.0 ((k, v) ∷ d) ≡ some e.1) es
  lookup-behind k v d [] missing a = tt
  lookup-behind k v d ((j, w) ∷ es) missing a =
      (lookup-behind_one k v d j w missing a.0, lookup-behind k v d es missing a.1)

  pub Unique-lookup : (d : Dict V) → Unique d → All (λ e. lookup e.0 d ≡ some e.1) d
  Unique-lookup [] u = tt
  Unique-lookup ((k, v) ∷ d) u =
      (lookup-first k v d, lookup-behind k v d d u.0 (Unique-lookup d u.1))
