-- ===== src/Security/Access/Filter.antt =====
-- What `filter_by_asset_group` keeps.
use app_scan_custom_dashboar.Base.{
  String, ◌≡◌, refl, ap, sym, ◌∙◌, map, ◌++◌, ◌||◌, ◌↔◌, inl, inr, Bool, true, false, some, List,
  [], ◌∷◌, arith, if◌then◌else◌, member, keep, any_of, Mem, Bool-cases, ◌==◌, eq_iff, member_iff,
  mem-keep_of, mem-of_keep, any_of-mem,
}
use mathlib.Core.List.{mem-cons_self, mem-cons_of_mem, not-mem-nil}
use app_scan_custom_dashboar.Json.{
  Value, Fields, null, bool, int, float, text, arr, obj, get, str, elements,
}
use app_scan_custom_dashboar.Security.Access.{
  admin_roles, has_asset_group_access, item_values, raw_values, filter_by_asset_group,
}

-- A value of an item that names a group: a list by one of its elements, a null none, and any other
-- value by its text.
abbrev pub Names : Value → String → Type 0
Names null group = ⊥
Names (arr vs) group = Mem group (map str (elements vs))
Names v group = str v ≡ group

-- Under one of the keys the item names a permitted group.
abbrev pub Visible : List String → List String → Fields → Type 0
Visible permitted key_names item =
    (key : String) × Mem key key_names
    × (group : String) × Mem group permitted
    × Names (get key item) group

any_of-append :
    (test : String → Bool) (xs ys : List String)
    → any_of test (xs ++ ys) ≡ any_of test xs || any_of test ys
unfolding any_of
any_of-append test [] ys = refl
any_of-append test (x ∷ xs) ys = ground (arith, any_of-append test xs ys)

any_of-item_values :
    (test : String → Bool) (item : Fields) (key_names : List String)
    → any_of test (item_values item key_names)
      ≡ any_of (λ key. any_of test (raw_values (get key item))) key_names
unfolding item_values any_of
any_of-item_values test item [] = refl
any_of-item_values test item (key ∷ key_names) =
    any_of-append test (raw_values (get key item)) (item_values item key_names)
    ∙ ap (λ b. any_of test (raw_values (get key item)) || b)
        (any_of-item_values test item key_names)

-- An element that passes the test.
passes :
    (test : String → Bool) (xs : List String)
    → any_of test xs ≡ true
    → (x : String) × Mem x xs × (test x ≡ true)
unfolding any_of
passes test [] h = cc
passes test (x ∷ xs) h = elim (Bool-cases (test x)) [
  | inl here ↦ (x, mem-cons_self, here)
  | inr other ↦ let (y, m, p) = passes test xs (ground arith) in (y, mem-cons_of_mem x m, p)
]

only_member : (x group : String) → Mem group (x ∷ []) → x ≡ group
only_member x group m =
    let h : member group (x ∷ []) ≡ true = (member_iff group (x ∷ [])).1 m in
    let e : (group == x || false) ≡ true = unfold member in h in ground (arith, eq_iff group x)

mem-only : (x group : String) → x ≡ group → Mem group (x ∷ [])
mem-only x group e = rw e mem-cons_self

Names-of_member : (v : Value) (group : String) → Mem group (raw_values v) → Names v group
unfolding raw_values
Names-of_member null group m = absurd (not-mem-nil m)
Names-of_member (arr vs) group m = m
Names-of_member (bool b) group m = only_member _ group m
Names-of_member (int i) group m = only_member _ group m
Names-of_member (float t) group m = only_member _ group m
Names-of_member (text t) group m = only_member _ group m
Names-of_member (obj fs) group m = only_member _ group m

member-Names : (v : Value) (group : String) → Names v group → Mem group (raw_values v)
unfolding raw_values
member-Names null group n = absurd n
member-Names (arr vs) group n = n
member-Names (bool b) group n = mem-only _ group n
member-Names (int i) group n = mem-only _ group n
member-Names (float t) group n = mem-only _ group n
member-Names (text t) group n = mem-only _ group n
member-Names (obj fs) group n = mem-only _ group n

has_permitted : List String → List String → Fields → Bool
has_permitted permitted key_names item =
    any_of (λ value. member value permitted) (item_values item key_names)

has_permitted-Visible :
    (permitted key_names : List String) (item : Fields)
    → (has_permitted permitted key_names item ≡ true) ↔ Visible permitted key_names item
unfolding has_permitted
has_permitted-Visible permitted key_names item =
    let test : String → Bool = λ value. member value permitted in
    let by_key = any_of-item_values test item key_names in
    (
      λ h.
          let (key, among, any) =
            passes (λ key. any_of test (raw_values (get key item))) key_names (sym by_key ∙ h) in
          let (group, named, granted) = passes test (raw_values (get key item)) any in
          (
            key,
            among,
            group,
            (member_iff group permitted).0 granted,
            Names-of_member (get key item) group named,
          ),
      λ (key, among, group, granted, named).
          by_key
          ∙ any_of-mem (λ key. any_of test (raw_values (get key item))) key key_names among
              (any_of-mem test group (raw_values (get key item))
                (member-Names (get key item) group named) ((member_iff group permitted).1 granted)),
    )

-- For a role that is not administrative, an item is in the result exactly when it is among the items
-- and names a permitted group under one of the keys: by its text, or by an element of its list, and
-- not by a null or a missing key.
pub mem-filter_by_asset_group :
    (items : List Fields) (permitted : List String) (user_role : String) (key_names : List String)
    → member user_role admin_roles ≡ false
    → (item : Fields)
    → Mem item (filter_by_asset_group items permitted user_role key_names)
      ↔ (Mem item items × Visible permitted key_names item)
unfolding filter_by_asset_group has_permitted
mem-filter_by_asset_group items permitted user_role key_names plain item = rw plain (
  λ m.
      let (isin, test) = mem-of_keep (has_permitted permitted key_names) item items m in
      (isin, (has_permitted-Visible permitted key_names item).0 test),
  λ (isin, visible).
      mem-keep_of (has_permitted permitted key_names) item items isin
        ((has_permitted-Visible permitted key_names item).1 visible),
)

-- On an item whose group is a text, the filter and `has_asset_group_access` agree, for every role.
pub filter-has_asset_group_access :
    (item : Fields) (key group : String) (permitted : List String) (user_role : String)
    → get key item ≡ text group
    → filter_by_asset_group (item ∷ []) permitted user_role (key ∷ [])
      ≡ (if has_asset_group_access (some group) permitted user_role then item ∷ [] else [])
unfolding filter_by_asset_group has_asset_group_access keep any_of item_values raw_values str
filter-has_asset_group_access item key group permitted user_role e = rw e (ground arith)
