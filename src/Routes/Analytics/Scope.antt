-- ===== src/Routes/Analytics/Scope.antt =====
-- Which scope a request of backend/app/api/v1/routes/analytics.py may ask for, and what it then sees.
use app_scan_custom_dashboar.Base.{
  String, Bool, true, false, not, ◌&&◌, Option, List, [], ◌∷◌, ◌≡◌, refl, ◌⊎◌, if◌then◌else◌,
  member, keep, All, Mem, mem-of_keep, Bool-cases, inl, inr, arith,
}
use mathlib.Core.List.{mem-cons}
use mathlib.Core.Logic.Or
use app_scan_custom_dashboar.Errors.{Result, ok, err, http_exception}
use app_scan_custom_dashboar.Security.Session.{UserContext}
use app_scan_custom_dashboar.Services.ReadService.Filters.{is_empty}
use app_scan_custom_dashboar.Routes.Analytics.{sees_all, normalize_id_list, resolve_scope_filters}

-- The groups of the list are all among those of the user.
abbrev pub AllOf : List String → List String → Type 0
AllOf permitted groups = All (λ g. member g permitted ≡ true) groups

-- Answered with the scope, or refused with a 403.
pub data Verdict (user : UserContext) (groups applications : List String)
    : Result (List String × List String) → Type 0 where
  granted :
      (member user.role ("PlatformAdmin" ∷ "SecurityManager" ∷ []) ≡ true)
        ⊎ AllOf user.asset_group_ids groups
      → Verdict user groups applications (ok (groups, applications))
  refused :
      (detail : String)
      → member user.role ("PlatformAdmin" ∷ "SecurityManager" ∷ []) ≡ false
      → (group : String) → Mem group groups
      → member group user.asset_group_ids ≡ false
      → Verdict user groups applications (err (http_exception 403 detail))

no_denied :
    (permitted : List String) (g : String) (groups : List String)
    → member g permitted ≡ false
    → is_empty (keep (λ item. not (member item permitted)) (g ∷ groups)) ≡ true
    → ⊥
unfolding keep
no_denied permitted g groups missing h = let e : false ≡ true = rw missing at h in cc

first_of : (xs : List String) → is_empty xs ≡ false → (x : String) × Mem x xs
first_of [] h = cc
first_of (x ∷ xs) h = (x, mem-cons.1 (Or.inl refl))

keep-empty :
    (permitted groups : List String)
    → is_empty (keep (λ item. not (member item permitted)) groups) ≡ true
    → AllOf permitted groups
unfolding keep
keep-empty permitted [] h = tt
keep-empty permitted (g ∷ groups) h = elim (Bool-cases (member g permitted)) [
  | inl there ↦ (there, keep-empty permitted groups (rw there at h))
  | inr missing ↦ absurd (no_denied permitted g groups missing h)
]

keep-first :
    (permitted groups : List String)
    → is_empty (keep (λ item. not (member item permitted)) groups) ≡ false
    → (g : String) × Mem g groups × (member g permitted ≡ false)
keep-first permitted groups h =
    let (g, m) = first_of (keep (λ item. not (member item permitted)) groups) h in
    let kept = mem-of_keep (λ item. not (member item permitted)) g groups m in
    (g, kept.0, ground arith)

and_false : (a b : Bool) → (a && b && false) ≡ false
and_false true true = refl
and_false true false = refl
and_false false b = refl

some_groups :
    (test : String → Bool) (groups : List String)
    → is_empty (keep test groups) ≡ false
    → is_empty groups ≡ false
unfolding keep
some_groups test [] h = h
some_groups test (g ∷ groups) h = refl

Verdict-of :
    (user : UserContext) (groups applications : List String) (detail : String)
    → Verdict user groups applications (
        if not (sees_all user)
          && not (is_empty groups)
          && not (is_empty (keep (λ item. not (member item user.asset_group_ids)) groups))
        then err (http_exception 403 detail)
        else ok (groups, applications))
Verdict-of user groups applications detail =
    elim (Bool-cases (is_empty (keep (λ item. not (member item user.asset_group_ids)) groups))) [
      | inl none_denied ↦
          rw (none_denied, and_false (not (sees_all user)) (not (is_empty groups)))
            (Verdict.granted (inr (keep-empty user.asset_group_ids groups none_denied)))
      | inr some_denied ↦ elim (Bool-cases (sees_all user)) [
        | inl admin ↦ rw admin (Verdict.granted (inl admin))
        | inr limited ↦
            let (g, m, missing) = keep-first user.asset_group_ids groups some_denied in
            let e : (not (sees_all user)
                  && not (is_empty groups)
                  && not (is_empty (keep (λ item. not (member item user.asset_group_ids)) groups)))
                ≡ true =
              rw
                (
                  limited,
                  some_groups (λ item. not (member item user.asset_group_ids)) groups some_denied,
                  some_denied,
                )
                refl in
            rw e (Verdict.refused detail limited g m missing)
      ]
    ]

-- A user who may not see everything is only answered with asset groups of their own: the scope of a
-- request is granted as it was normalised, if the user is an administrator or security manager or has
-- all its groups, and else refused with a 403, for a group that the user does not have.
pub resolve_scope_filters-Verdict :
    (user : UserContext) (group : Option String) (groups : List String)
    (application : Option String) (applications : List String)
    → Verdict user
        (normalize_id_list groups group)
        (normalize_id_list applications application)
        (resolve_scope_filters user group groups application applications)
unfolding resolve_scope_filters
resolve_scope_filters-Verdict user group groups application applications =
    Verdict-of user (normalize_id_list groups group) (normalize_id_list applications application) _
