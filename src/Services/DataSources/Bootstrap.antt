-- ===== src/Services/DataSources/Bootstrap.antt =====
-- What `bootstrap_from_env` of backend/app/services/data_source_service.py imports.
use app_scan_custom_dashboar.Base.{
  ℕ, ◌+◌, ◌≤◌, ◌<◌, String, Bool, true, false, not, ◌||◌, ◌&&◌, none, some, List, [], ◌∷◌, ◌++◌,
  ◌≡◌, refl, ap, ◌==◌, eqb, eq_iff, eq_refl, arith, length, length-append, if◌then◌else◌,
  rstrip_slash, Bool-cases, Option-cases, inl, inr, All, one_if, count_where,
}
use app_scan_custom_dashboar.Config.{Endpoint}
use app_scan_custom_dashboar.Errors.{Result, ok, err}
use app_scan_custom_dashboar.Store.Table.{
  has_row, insert_row, has_row-find_row, find_row-append_new,
}
use app_scan_custom_dashboar.Store.Exec.{
  DataSource, World, Exec, pure, gets, write_new, utc_now, continue, ◌>>=◌,
}
use app_scan_custom_dashboar.Store.DataSources.{
  data_source_key, new_row, new_id, find_pair, insert_data_source, create_data_source,
  count_data_sources, get_data_source_by_url_and_key,
}
use app_scan_custom_dashboar.Services.DataSources.{
  import_unknown, import_endpoint, import_loop, bootstrap_from_env,
}

abbrev pub rows_of : World → List DataSource
rows_of w = w.db.data_sources

-- How many rows have this address and this key.
unfoldable pub pairs : String → String → List DataSource → ℕ
unfolding count_where
pairs url key rows = count_where (λ ds. ds.url == url && (ds.api_key == key)) rows

pairs-append :
    (u k : String) (ds : DataSource) (rows : List DataSource)
    → pairs u k (rows ++ (ds ∷ [])) ≡ pairs u k rows + one_if (ds.url == u && (ds.api_key == k))
unfolding pairs count_where
pairs-append u k ds [] = omega arith
pairs-append u k ds (r ∷ rows) = omega (arith, pairs-append u k ds rows)

pairs-missing :
    (u k : String) (rows : List DataSource) → find_pair u k rows ≡ none → pairs u k rows ≡ 0
unfolding pairs count_where find_pair
pairs-missing u k [] h = refl
pairs-missing u k (r ∷ rows) h = ground (arith, pairs-missing u k rows)

pairs-found :
    (u k : String) (rows : List DataSource) (ds : DataSource)
    → find_pair u k rows ≡ some ds
    → 0 < pairs u k rows
unfolding pairs count_where find_pair
pairs-found u k [] ds h = cc
pairs-found u k (r ∷ rows) ds h = ground (arith, pairs-found u k rows ds)

-- An endpoint with an address and a key.
abbrev pub is_usable : Endpoint → Bool
is_usable ep = not (rstrip_slash ep.url == "" || (ep.key == ""))

one_if-le : (b : Bool) → one_if b ≤ 1
one_if-le true = omega arith
one_if-le false = omega arith

-- Every usable endpoint has a row.
abbrev pub Reads : List Endpoint → World → Type 0
Reads eps w = All (λ ep. one_if (is_usable ep) ≤ pairs (rstrip_slash ep.url) ep.key (rows_of w)) eps

-- The ids that are still to be drawn are not in the table.
abbrev Fresh : (ℕ → String) → World → Type 0
Fresh uuid w = (i : ℕ) → w.drawn ≤ i → has_row data_source_key (uuid i) (rows_of w) ≡ false

abbrev Distinct : List DataSource → Type 0
Distinct rows = (u k : String) → pairs u k rows ≤ 1

-- The call returns, and its result and the world after it are as stated.
abbrev pub Ends : {A : Type 0} → (A → World → Type 0) → Result A × World → Type 0
Ends P (ok a, w) = P a w
Ends P (err e, w) = ⊥

Ends-continue :
    {A B : Type 0} (P : A → World → Type 0) (Q : B → World → Type 0) (r : Result A) (f : A → Exec B)
    (w : World)
    → Ends P (r, w)
    → ((a : A) (w' : World) → P a w' → Ends Q (f a w'))
    → Ends Q (continue r f w)
Ends-continue P Q (ok a) f w h step = step a w h
Ends-continue P Q (err e) f w h step = absurd h

record Grown (uuid : ℕ → String) (w : World) (n : ℕ) (w' : World) : Type 0 where
  pub size : length (rows_of w') ≡ length (rows_of w) + n
  pub grows : (u k : String) → pairs u k (rows_of w) ≤ pairs u k (rows_of w')
  pub distinct : Distinct (rows_of w')
  pub fresh : Fresh uuid w'

module _ (clock uuid : ℕ → String) (apart : (i j : ℕ) → uuid i ≡ uuid j → i ≡ j) where
  same : (w : World) → Distinct (rows_of w) → Fresh uuid w → Grown uuid w 0 w
  same w d f = record { size = omega arith; grows = λ u k. omega arith; distinct = d; fresh = f }

  abbrev Imported : Endpoint → World → ℕ → World → Type 0
  Imported ep w n w' =
      Grown uuid w n w' × (one_if (is_usable ep) ≤ pairs (rstrip_slash ep.url) ep.key (rows_of w'))

  pairs_added :
      (ds : DataSource) (rows : List DataSource) (u k : String)
      → pairs ds.url ds.api_key rows ≡ 0
      → pairs u k rows ≤ 1
      → pairs u k (rows ++ (ds ∷ [])) ≤ 1
  pairs_added ds rows u k absent d =
      ground (arith, pairs-append u k ds rows, eq_iff ds.url u, eq_iff ds.api_key k)

  added-Fresh :
      (ds : DataSource) (w : World) (i : ℕ)
      → ds.id ≡ uuid w.drawn
      → Fresh uuid w
      → w.drawn + 1 ≤ i
      → has_row data_source_key (uuid i) (rows_of w ++ (ds ∷ [])) ≡ false
  added-Fresh ds w i id f later = ground (
    arith,
    f i (omega arith),
    f w.drawn (omega arith),
    has_row-find_row data_source_key (uuid i) (rows_of w ++ (ds ∷ [])),
    has_row-find_row data_source_key (uuid i) (rows_of w),
    find_row-append_new data_source_key (uuid i) (rows_of w) ds,
    eq_iff ds.id (uuid i),
    apart w.drawn i,
    id,
  )

  added-Grown :
      (ds : DataSource) (w : World)
      → ds.id ≡ uuid w.drawn
      → pairs ds.url ds.api_key (rows_of w) ≡ 0
      → Distinct (rows_of w)
      → Fresh uuid w
      → Grown uuid w 1 (record {
        db = record w.db { data_sources = rows_of w ++ (ds ∷ []) };
        drawn = w.drawn + 1;
        ticks = w.ticks + 1;
      })
  added-Grown ds w id absent d f = record {
    size = length-append (rows_of w) (ds ∷ []);
    grows = λ u k. omega (arith, pairs-append u k ds (rows_of w));
    distinct = λ u k. pairs_added ds (rows_of w) u k absent (d u k);
    fresh = λ i later. added-Fresh ds w i id f later;
  }

  create-Ends :
      (ep : Endpoint) (w : World)
      → pairs (rstrip_slash ep.url) ep.key (rows_of w) ≡ 0
      → Distinct (rows_of w)
      → Fresh uuid w
      → Ends (Imported ep w) (import_unknown clock uuid ep none w)
  unfolding import_unknown create_data_source new_id utc_now write_new insert_data_source insert_row
      has_row ◌>>=◌ pure
  create-Ends ep w absent d f =
      let ds =
        new_row (uuid w.drawn) (clock w.ticks) ep.label (rstrip_slash ep.url) ep.key ep.secret
          ep.verify true in
      rw (f w.drawn (omega arith), Ends)
        (
          added-Grown ds w refl absent d f,
          rw
              (
                pairs-append (rstrip_slash ep.url) ep.key ds (rows_of w),
                eq_refl (rstrip_slash ep.url),
                eq_refl ep.key,
              )
              (omega (arith, one_if-le (is_usable ep))),
        )

  import_endpoint-Ends :
      (ep : Endpoint) (w : World)
      → Distinct (rows_of w)
      → Fresh uuid w
      → Ends (Imported ep w) (import_endpoint clock uuid ep w)
  unfolding import_endpoint import_unknown get_data_source_by_url_and_key gets pure ◌>>=◌
  import_endpoint-Ends ep w d f = elim (Bool-cases (rstrip_slash ep.url == "" || (ep.key == ""))) [
    | inl unusable ↦ rw (unusable, Ends) (same w d f, rw unusable (omega arith))
    | inr usable ↦ elim (Option-cases (find_pair (rstrip_slash ep.url) ep.key (rows_of w))) [
      | inl absent ↦
          rw (usable, absent)
            (create-Ends ep w (pairs-missing (rstrip_slash ep.url) ep.key (rows_of w) absent) d f)
      | inr (ds, found) ↦
          rw (usable, found, Ends)
            (same w d f, rw usable (pairs-found (rstrip_slash ep.url) ep.key (rows_of w) ds found))
    ]
  ]

  abbrev AllImported : List Endpoint → ℕ → World → ℕ → World → Type 0
  AllImported eps n w m w' = (l : ℕ) × (m ≡ n + l) × Grown uuid w l w' × Reads eps w'

  joined :
      (ep : Endpoint) (eps : List Endpoint) (n k m : ℕ) (w w' w'' : World)
      → Imported ep w k w'
      → AllImported eps (n + k) w' m w''
      → AllImported (ep ∷ eps) n w m w''
  joined ep eps n k m w w' w'' (g, here) (l, total, g', reads) = (
    k + l,
    omega arith,
    record {
      size = omega (arith, g.size, g'.size);
      grows = λ u j. omega (arith, g.grows u j, g'.grows u j);
      distinct = g'.distinct;
      fresh = g'.fresh;
    },
    (omega (arith, here, g'.grows (rstrip_slash ep.url) ep.key), reads),
  )

  Ends-imp :
      {A : Type 0} (P Q : A → World → Type 0) (x : Result A × World)
      → ((a : A) (w : World) → P a w → Q a w)
      → Ends P x
      → Ends Q x
  Ends-imp P Q (ok a, w) step h = step a w h
  Ends-imp P Q (err e, w) step h = h

  import_loop-Ends :
      (eps : List Endpoint) (n : ℕ) (w : World)
      → Distinct (rows_of w)
      → Fresh uuid w
      → Ends (λ m w'. AllImported eps n w m w') (import_loop clock uuid n eps w)
  unfolding import_loop ◌>>=◌ pure
  import_loop-Ends [] n w d f = (0, omega arith, same w d f, tt)
  import_loop-Ends (ep ∷ eps) n w d f =
      let (r, w₁) = import_endpoint clock uuid ep w in
      Ends-continue (Imported ep w) (λ m w'. AllImported (ep ∷ eps) n w m w') r
        (λ k. import_loop clock uuid (n + k) eps) w₁ (import_endpoint-Ends ep w d f)
        λ k w' h.
          Ends-imp _ _ (import_loop clock uuid (n + k) eps w')
            (λ m w''. joined ep eps n k m w w' w'' h)
            (import_loop-Ends eps (n + k) w' h.0.distinct h.0.fresh)

  counted :
      (eps : List Endpoint) (w : World) (m : ℕ) (w' : World)
      → rows_of w ≡ []
      → AllImported eps 0 w m w'
      → (length (rows_of w') ≡ m) × Reads eps w' × Distinct (rows_of w')
  counted eps w m w' empty (l, total, g, reads) =
      (omega (arith, g.size, ap length empty), reads, g.distinct)

  populated : (n : ℕ) (a b : Exec ℕ) → 0 < n → (if eqb n 0 then a else b) ≡ b
  populated n a b h = ground arith

  -- Where uuids never repeat, the start-up import of an empty table returns: its result is the number of
  -- rows that it has made, every endpoint of the environment with an address and a key has a row, and no
  -- address and key have two.
  pub bootstrap_from_env-imports :
      (eps : List Endpoint) (w : World)
      → rows_of w ≡ []
      → Ends
          (λ m w'.
            (length (rows_of w') ≡ m)
            × Reads eps w'
            × ((url key : String) → pairs url key (rows_of w') ≤ 1))
          (bootstrap_from_env clock uuid eps w)
  unfolding bootstrap_from_env count_data_sources gets pure ◌>>=◌ pairs has_row
  bootstrap_from_env-imports eps w empty = rw (ap length empty) (
      Ends-imp _ _ (import_loop clock uuid 0 eps w) (λ m w' h. counted eps w m w' empty h)
        (import_loop-Ends eps 0 w (λ u k. rw (empty, pairs, count_where) (omega arith))
          (λ i later. rw (empty, has_row) refl)))

  -- A table with rows is left alone.
  pub bootstrap_from_env-later :
      (eps : List Endpoint) (w : World)
      → 0 < length (rows_of w)
      → bootstrap_from_env clock uuid eps w ≡ (ok 0, w)
  unfolding bootstrap_from_env count_data_sources gets pure ◌>>=◌
  bootstrap_from_env-later eps w rows =
      ap (λ m. m w) (populated (length (rows_of w)) (import_loop clock uuid 0 eps) (pure 0) rows)
