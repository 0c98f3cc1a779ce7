-- ===== src/Services/DataSources/Display.antt =====
-- That what backend/app/services shows of a data source does not depend on its credentials.
use app_scan_custom_dashboar.Base.{
  String, Bool, true, false, List, [], ◌∷◌, ◌≡◌, refl, ap, ◌∙◌, map, keep, sort, insert_sorted,
  if◌then◌else◌, Bool-cases, inl, inr,
}
use app_scan_custom_dashboar.Config.{Endpoint}
use app_scan_custom_dashboar.Errors.{ok}
use app_scan_custom_dashboar.Store.Exec.{DataSource, World, gets, pure, ◌>>=◌}
use app_scan_custom_dashboar.Store.DataSources.{listed, list_data_sources, by_label}
use app_scan_custom_dashboar.Services.DataSources.{
  source_of, or_env, list_all, restrict, load_sources, label_of, get_endpoint_labels, identity_of,
  get_identities,
}

-- Other keys and secrets in the same rows.
abbrev pub with_credentials :
    (DataSource → String) → (DataSource → String) → DataSource → DataSource
with_credentials key secret ds = record ds { api_key = key ds; api_secret = secret ds }

abbrev pub rekeyed : (DataSource → String) → (DataSource → String) → World → World
rekeyed key secret w = record w {
  db = record w.db { data_sources = map (with_credentials key secret) w.db.data_sources };
}

module _ (key secret : DataSource → String) where
  abbrev rekey : DataSource → DataSource
  rekey = with_credentials key secret

  insert_sorted-map :
      (ds : DataSource) (rows : List DataSource)
      → insert_sorted by_label (rekey ds) (map rekey rows)
        ≡ map rekey (insert_sorted by_label ds rows)
  unfolding insert_sorted
  insert_sorted-map ds [] = refl
  insert_sorted-map ds (r ∷ rows) = elim (Bool-cases (by_label ds r)) [
    | inl first ↦ rw first refl
    | inr later ↦ rw later (ap (λ rest. rekey r ∷ rest) (insert_sorted-map ds rows))
  ]

  sort-map :
      (rows : List DataSource) → sort by_label (map rekey rows) ≡ map rekey (sort by_label rows)
  unfolding sort
  sort-map [] = refl
  sort-map (r ∷ rows) =
      ap (insert_sorted by_label (rekey r)) (sort-map rows)
      ∙ insert_sorted-map r (sort by_label rows)

  kept_map :
      (b : Bool) (r : DataSource) (xs ys : List DataSource)
      → xs ≡ map rekey ys
      → (if b then rekey r ∷ xs else xs) ≡ map rekey (if b then r ∷ ys else ys)
  kept_map true r xs ys e = ap (λ rest. rekey r ∷ rest) e
  kept_map false r xs ys e = e

  keep-map :
      (rows : List DataSource)
      → keep (λ ds. ds.enabled) (map rekey rows) ≡ map rekey (keep (λ ds. ds.enabled) rows)
  unfolding keep
  keep-map [] = refl
  keep-map (r ∷ rows) = kept_map r.enabled r _ _ (keep-map rows)

  pub listed-map :
      (rows : List DataSource) → listed false (map rekey rows) ≡ map rekey (listed false rows)
  unfolding listed
  listed-map rows = ap (sort by_label) (keep-map rows) ∙ sort-map (keep (λ ds. ds.enabled) rows)

  identities-map :
      (rows : List DataSource) → map identity_of (map rekey rows) ≡ map identity_of rows
  unfolding identity_of
  identities-map [] = refl
  identities-map (r ∷ rows) = ap (λ rest. identity_of r ∷ rest) (identities-map rows)

  pub labels-map :
      (eps : List Endpoint) (rows : List DataSource)
      → map label_of (or_env eps (map rekey rows)) ≡ map label_of (or_env eps rows)
  unfolding or_env
  labels-map eps [] = refl
  labels-map eps (r ∷ rows) = ap (λ rest. label_of (source_of r) ∷ rest) (rest rows)
    where
      rest :
          (rows : List DataSource)
          → map label_of (map source_of (map rekey rows)) ≡ map label_of (map source_of rows)
      rest [] = refl
      rest (r ∷ rows) = ap (λ xs. label_of (source_of r) ∷ xs) (rest rows)

  -- Whatever keys and secrets the rows hold, the identities and the endpoint labels are the same: no
  -- credential reaches them.
  pub display-rekeyed :
      (eps : List Endpoint) (w : World)
      → ((get_identities (rekeyed key secret w)).0 ≡ (get_identities w).0)
        × ((get_endpoint_labels eps (rekeyed key secret w)).0 ≡ (get_endpoint_labels eps w).0)
  unfolding get_identities get_endpoint_labels load_sources restrict list_all list_data_sources gets
      pure ◌>>=◌
  display-rekeyed eps w =
      let rows = w.db.data_sources in
      (
        ap (λ xs. ok (map identity_of xs)) (listed-map rows)
            ∙ ap ok (identities-map (listed false rows)),
        ap (λ xs. ok (map label_of (or_env eps xs))) (listed-map rows)
            ∙ ap ok (labels-map eps (listed false rows)),
      )
