-- ===== src/Store/Table.antt =====
-- A table whose key column is a text, as its rows in the order of their insertion, and the SQL
-- statements that the store uses on one.
use app_scan_custom_dashboar.Base.{
  Bool-cases, inl, inr, String, ◌≡◌, refl, Bool, true, false, Option, none, some, List, [], ◌∷◌,
  ◌++◌, ◌==◌, eq_iff, arith, if◌then◌else◌, eq_refl,
}

module _ {A : Type 0} (key : A → String) where
  -- SELECT … WHERE key = k, with `fetchone`.
  unfoldable pub find_row : String → List A → Option A
  find_row k [] = none
  find_row k (r ∷ rows) = let rest = find_row k rows in if key r == k then some r else rest

  unfoldable pub has_row : String → List A → Bool
  has_row k [] = false
  has_row k (r ∷ rows) = let rest = has_row k rows in if key r == k then true else rest

  -- INSERT: none if the key is taken.
  unfoldable pub insert_row : A → List A → Option (List A)
  insert_row r rows = if has_row (key r) rows then none else some (rows ++ (r ∷ []))

  -- UPDATE … WHERE key = k.
  unfoldable pub update_rows : String → (A → A) → List A → List A
  update_rows k f [] = []
  update_rows k f (r ∷ rows) = (if key r == k then f r else r) ∷ update_rows k f rows

  -- DELETE … WHERE key = k.
  unfoldable pub delete_rows : String → List A → List A
  delete_rows k [] = []
  delete_rows k (r ∷ rows) = let rest = delete_rows k rows in if key r == k then rest else r ∷ rest

  -- INSERT … ON CONFLICT DO UPDATE of every other column.
  unfoldable pub upsert_row : A → List A → List A
  upsert_row r rows =
      if has_row (key r) rows then update_rows (key r) (λ _. r) rows else rows ++ (r ∷ [])

  pub find_row-key : (k : String) (rows : List A) (r : A) → find_row k rows ≡ some r → key r ≡ k
  unfolding find_row
  find_row-key k [] r h = cc
  find_row-key k (x ∷ rows) r h = ground (arith, eq_iff (key x) k, find_row-key k rows r)

  pub find_row-append_new :
      (k : String) (rows : List A) (r : A)
      → has_row (key r) rows ≡ false
      → find_row k (rows ++ (r ∷ [])) ≡ (if key r == k then some r else find_row k rows)
  unfolding find_row has_row
  find_row-append_new k [] r h = refl
  find_row-append_new k (x ∷ rows) r h = ground (
    arith,
    eq_iff (key x) k,
    eq_iff (key r) k,
    eq_iff (key x) (key r),
    find_row-append_new k rows r,
  )

  -- An update that leaves the key alone.
  pub find_row-update_rows :
      (k j : String) (f : A → A) (rows : List A)
      → ((r : A) → key (f r) ≡ key r)
      → find_row j (update_rows k f rows) ≡ (
          if k == j
          then (elim (find_row j rows) [ none ↦ none | some r ↦ some (f r) ])
          else find_row j rows)
  unfolding find_row update_rows
  find_row-update_rows k j f [] h = ground (arith, eq_iff k j)
  find_row-update_rows k j f (x ∷ rows) h = ground (
    arith,
    h x,
    eq_iff k j,
    eq_iff (key x) j,
    eq_iff (key x) k,
    eq_iff (key (f x)) j,
    find_row-update_rows k j f rows h,
  )

  pub find_row-update_found :
      (k : String) (f : A → A) (rows : List A) (r : A)
      → ((x : A) → key (f x) ≡ key x)
      → find_row k rows ≡ some r
      → find_row k (update_rows k f rows) ≡ some (f r)
  find_row-update_found k f rows r h found =
      rw (find_row-update_rows k k f rows h, eq_refl, found) refl

  pub find_row-delete_rows :
      (k j : String) (rows : List A)
      → find_row j (delete_rows k rows) ≡ (if k == j then none else find_row j rows)
  unfolding find_row delete_rows
  find_row-delete_rows k j [] = ground arith
  find_row-delete_rows k j (x ∷ rows) =
      ground (arith, eq_iff k j, eq_iff (key x) j, eq_iff (key x) k, find_row-delete_rows k j rows)

  pub has_row-find_row :
      (k : String) (rows : List A)
      → has_row k rows ≡ (elim (find_row k rows) [ none ↦ false | some r ↦ true ])
  unfolding find_row has_row
  has_row-find_row k [] = refl
  has_row-find_row k (x ∷ rows) = ground (arith, has_row-find_row k rows)

  pub delete_rows-missing :
      (k : String) (rows : List A) → has_row k rows ≡ false → delete_rows k rows ≡ rows
  unfolding has_row delete_rows
  delete_rows-missing k [] h = refl
  delete_rows-missing k (x ∷ rows) h = ground (arith, eq_iff (key x) k, delete_rows-missing k rows)

  others_after :
      (r : A) (j : String) (rows : List A)
      → (key r == j) ≡ false
      → find_row j (update_rows (key r) (λ _. r) rows) ≡ find_row j rows
  unfolding find_row update_rows
  others_after r j [] h = refl
  others_after r j (x ∷ rows) h =
      ground
        (arith, eq_iff (key r) j, eq_iff (key x) j, eq_iff (key x) (key r), others_after r j rows h)

  found_after :
      (r : A) (j : String) (rows : List A)
      → (key r == j) ≡ true
      → has_row (key r) rows ≡ true
      → find_row j (update_rows (key r) (λ _. r) rows) ≡ some r
  unfolding find_row update_rows has_row
  found_after r j [] h there = cc
  found_after r j (x ∷ rows) h there =
      ground
        (arith, eq_iff (key r) j, eq_iff (key x) j, eq_iff (key x) (key r), found_after r j rows h)

  pub find_row-upsert_row :
      (r : A) (j : String) (rows : List A)
      → find_row j (upsert_row r rows) ≡ (if key r == j then some r else find_row j rows)
  unfolding upsert_row
  find_row-upsert_row r j rows = elim (Bool-cases (has_row (key r) rows)) [
    | inl there ↦ rw there (elim (Bool-cases (key r == j)) [
      | inl same ↦ rw same (found_after r j rows same there)
      | inr differs ↦ rw differs (others_after r j rows differs)
    ])
    | inr free ↦ rw free (find_row-append_new j rows r free)
  ]
