-- ===== src/Security/Policy/Roles.antt =====
-- What the policy of backend/app/core/security/policy.py lets each role do.
use app_scan_custom_dashboar.Base.{
  String, ◌≡◌, refl, Bool, true, ◌&&◌, ◌||◌, not, Option, none, some, List, [], ◌∷◌, ◌==◌, eq_iff,
  arith, ◌↔◌, inl, inr, if◌then◌else◌, member, lookup, Dict, starts, Mem, member_iff, Bool-cases,
}
use app_scan_custom_dashboar.Errors.{ok, err, http_exception}
use app_scan_custom_dashboar.Security.Policy.{
  role_action_policy, allowed_roles, check_roles, assert_action_allowed,
}

-- A Boolean test of every entry of a table, and what it says of a key that is found.
every_entry : (String → List String → Bool) → Dict (List String) → Bool
every_entry test [] = true
every_entry test ((k, rs) ∷ d) = test k rs && every_entry test d

every_entry-lookup :
    (test : String → List String → Bool) (k : String) (rs : List String) (d : Dict (List String))
    → every_entry test d ≡ true
    → lookup k d ≡ some rs
    → test k rs ≡ true
unfolding every_entry lookup
every_entry-lookup test k rs [] h e = cc
every_entry-lookup test k rs ((j, ss) ∷ d) h e = elim (Bool-cases (j == k)) [
  | inl same ↦ ground (arith, eq_iff j k)
  | inr other ↦ every_entry-lookup test k rs d (ground arith) (ground arith)
]

check_roles-ok :
    (action role : String) (o : Option (List String))
    → check_roles action role o ≡ ok tt
    → (rs : List String) × (o ≡ some rs) × (member role rs ≡ true)
unfolding check_roles
check_roles-ok action role none h = cc
check_roles-ok action role (some []) h = cc
check_roles-ok action role (some (r ∷ rs)) h = (r ∷ rs, refl, ground arith)

check_roles-member :
    (action role : String) (rs : List String)
    → member role rs ≡ true
    → check_roles action role (some rs) ≡ ok tt
unfolding check_roles member
check_roles-member action role [] h = cc
check_roles-member action role (r ∷ rs) h = rw h

-- A call that raises nothing was for a listed action, by a role that is in its set.
pub allowed-member :
    (action role : String)
    → assert_action_allowed action role ≡ ok tt
    → (rs : List String) × (allowed_roles action ≡ some rs) × (member role rs ≡ true)
unfolding assert_action_allowed
allowed-member action role h = check_roles-ok action role (allowed_roles action) h

-- `assert_action_allowed` raises nothing exactly when the policy lists the action and the role is
-- in the set of roles that it lists for the action.
pub assert_action_allowed_iff :
    (action role : String)
    → (assert_action_allowed action role ≡ ok tt)
      ↔ ((rs : List String) × (allowed_roles action ≡ some rs) × Mem role rs)
unfolding assert_action_allowed
assert_action_allowed_iff action role = (
  λ h.
      let (rs, found, isin) = allowed-member action role h in
      (rs, found, (member_iff role rs).0 isin),
  λ (rs, found, isin). rw found (check_roles-member action role rs ((member_iff role rs).1 isin)),
)

-- What a test of all entries says of every call that raises nothing.
allowed_entry :
    (test : String → List String → Bool) (action role : String)
    → every_entry test role_action_policy ≡ true
    → assert_action_allowed action role ≡ ok tt
    → (rs : List String) × (member role rs ≡ true) × (test action rs ≡ true)
unfolding allowed_roles
allowed_entry test action role all h =
    let (rs, found, isin) = allowed-member action role h in
    (rs, isin, every_entry-lookup test action rs role_action_policy all found)

abbrev developer_entry : String → List String → Bool
developer_entry action rs = not (member "Developer" rs) || starts action "view_"

developer_entries : every_entry developer_entry role_action_policy ≡ true
unfolding every_entry role_action_policy member starts
developer_entries = refl

-- A developer is allowed nothing but actions whose name begins with `view_`.
pub developer_only_views :
    (action : String)
    → assert_action_allowed action "Developer" ≡ ok tt
    → starts action "view_" ≡ true
developer_only_views action h =
    let (rs, isin, test) = allowed_entry developer_entry action "Developer" developer_entries h in
    ground arith

no_member : (role : String) → member role [] ≡ true → ⊥
unfolding member
no_member role h = cc

abbrev admin_entry : String → List String → Bool
admin_entry action rs = member "PlatformAdmin" rs && member "SecurityManager" rs

admin_entries : every_entry admin_entry role_action_policy ≡ true
unfolding every_entry role_action_policy member
admin_entries = refl

-- Both administrative roles are allowed every action that the policy lists, so for a listed action
-- no role gets the 500 of a missing policy: it is allowed, or refused with 403.
pub listed_action_outcomes :
    (action role : String) (rs : List String)
    → allowed_roles action ≡ some rs
    → (assert_action_allowed action "PlatformAdmin" ≡ ok tt)
      × (assert_action_allowed action "SecurityManager" ≡ ok tt)
      × (assert_action_allowed action role ≡ (
          if member role rs
          then ok tt
          else err (http_exception 403 "Insufficient role for requested action")))
unfolding allowed_roles assert_action_allowed
listed_action_outcomes action role rs found =
    let both = every_entry-lookup admin_entry action rs role_action_policy admin_entries found in
    (
      rw found (check_roles-member action "PlatformAdmin" rs (ground arith)),
      rw found (check_roles-member action "SecurityManager" rs (ground arith)),
      rw found (refusal rs (ground arith)),
    )
  where
    refusal :
        (ss : List String)
        → member "PlatformAdmin" ss ≡ true
        → check_roles action role (some ss) ≡ (
            if member role ss
            then ok tt
            else err (http_exception 403 "Insufficient role for requested action"))
    refusal [] h = absurd (no_member "PlatformAdmin" h)
    refusal (r ∷ ss) h = refl
