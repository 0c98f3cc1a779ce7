-- ===== src/Store/DataSources/Refine.antt =====
-- That the table of backend/app/repositories/data_source_store.py behaves as a finite map.
use app_scan_custom_dashboar.Base.{
  ℕ, String, Bool, true, false, Option, none, some, List, [], ◌∷◌, ◌≡◌, refl, ap, keep, arith,
  eq_iff, eq_refl, ◌∙◌, Option-cases, inl, inr,
}
use app_scan_custom_dashboar.Errors.{ok}
use app_scan_custom_dashboar.Store.Table.{
  find_row, has_row, insert_row, update_rows, find_row-append_new, find_row-update_rows,
  find_row-delete_rows, has_row-find_row,
}
use app_scan_custom_dashboar.Store.Exec.{
  DataSource, World, ◌>>=◌, gets, pure, write, write_new, utc_now,
}
use app_scan_custom_dashboar.Store.DataSources.{
  data_source_key, new_id, Change, label_to, url_to, api_key_to, api_secret_to, verify_ssl_to,
  enabled_to, tenant_name_to, api_user_name_to, api_user_role_to, api_user_email_to,
  last_probed_at_to, last_probe_ok_to, another, is_allowed, set_column, set_columns,
  insert_data_source, get_data_source, create_data_source, update_data_source, delete_data_source,
  write_updates, new_row,
}
use app_scan_custom_dashboar.Store.DataSources.Spec.{
  Call, create, update, delete, get, Reply, created, found, deleted, Sources, is_some, applied, put,
}
use app_scan_custom_dashboar.Store.DataSources.Spec as Map

-- The map that a table stands for.
abbrev pub view : World → Sources
view w = record {
  at = λ k. find_row data_source_key k w.db.data_sources;
  drawn = w.drawn;
  ticks = w.ticks;
}

set_columns-key :
    (cs : List Change) (now : String) (ds : DataSource) → (set_columns cs now ds).id ≡ ds.id
unfolding set_columns set_column
set_columns-key [] now ds = refl
set_columns-key (label_to v ∷ cs) now ds = set_columns-key cs now _
set_columns-key (url_to v ∷ cs) now ds = set_columns-key cs now _
set_columns-key (api_key_to v ∷ cs) now ds = set_columns-key cs now _
set_columns-key (api_secret_to v ∷ cs) now ds = set_columns-key cs now _
set_columns-key (verify_ssl_to v ∷ cs) now ds = set_columns-key cs now _
set_columns-key (enabled_to v ∷ cs) now ds = set_columns-key cs now _
set_columns-key (tenant_name_to v ∷ cs) now ds = set_columns-key cs now _
set_columns-key (api_user_name_to v ∷ cs) now ds = set_columns-key cs now _
set_columns-key (api_user_role_to v ∷ cs) now ds = set_columns-key cs now _
set_columns-key (api_user_email_to v ∷ cs) now ds = set_columns-key cs now _
set_columns-key (last_probed_at_to v ∷ cs) now ds = set_columns-key cs now _
set_columns-key (last_probe_ok_to v ∷ cs) now ds = set_columns-key cs now _
set_columns-key (another v ∷ cs) now ds = set_columns-key cs now _

module _ (clock uuid : ℕ → String) where
  -- A call of the store, with its answer.
  unfoldable pub call : Call → World → Reply × World
  unfolding get_data_source create_data_source update_data_source delete_data_source
  call (create label url key secret verify enabled) w =
      let (r, w') = create_data_source clock uuid label url key secret verify enabled w in
      (created r, w')
  call (update k fields) w = let (r, w') = update_data_source clock k fields w in (found r, w')
  call (delete k) w = let (r, w') = delete_data_source k w in (deleted r, w')
  call (get k) w = let (r, w') = get_data_source k w in (found r, w')

  unfoldable pub calls : List Call → World → List Reply
  unfolding call
  calls [] w = []
  calls (c ∷ cs) w = let (r, w') = call c w in r ∷ calls cs w'

  abbrev Refines : Call → World → Type 0
  Refines c w = let (r, w') = call c w in (r, view w') ≡ Map.step clock uuid c (view w)

  same_map :
      (r r' : Reply) (m m' : String → Option DataSource) (drawn ticks : ℕ)
      → r ≡ r'
      → ((j : String) → m j ≡ m' j)
      → ◌≡◌ {A = Reply × Sources}
          (r, record { at = m; drawn = drawn; ticks = ticks })
          (r', record { at = m'; drawn = drawn; ticks = ticks })
  same_map r r' m m' drawn ticks p q i =
      (p i, record { at = λ j. q j i; drawn = drawn; ticks = ticks })

  create-Refines :
      (label url key secret : String) (verify enabled : Bool) (w : World)
      → Refines (create label url key secret verify enabled) w
  unfolding call create_data_source new_id utc_now write_new ◌>>=◌ pure insert_data_source
      insert_row has_row find_row
  create-Refines label url key secret verify enabled w =
      let ds = new_row (uuid w.drawn) (clock w.ticks) label url key secret verify enabled in
      elim (Option-cases (find_row data_source_key ds.id w.db.data_sources)) [
        | inl free ↦
            rw (has_row-find_row data_source_key ds.id w.db.data_sources, free)
              (same_map _ _ _ _ _ _ refl λ j.
                find_row-append_new data_source_key j w.db.data_sources ds
                  (rw (has_row-find_row data_source_key ds.id w.db.data_sources, free) refl))
        | inr (old, taken) ↦
            rw (has_row-find_row data_source_key ds.id w.db.data_sources, taken) refl
      ]

  get-Refines : (k : String) (w : World) → Refines (get k) w
  unfolding call get_data_source gets
  get-Refines k w = refl

  delete-Refines : (k : String) (w : World) → Refines (delete k) w
  unfolding call delete_data_source gets write ◌>>=◌ pure
  delete-Refines k w =
      same_map _ _ _ _ _ _
        (ap (λ b. deleted (ok b))
          (there (find_row data_source_key k w.db.data_sources)
            (has_row-find_row data_source_key k w.db.data_sources)))
        (λ j. find_row-delete_rows data_source_key k j w.db.data_sources)
    where
      there :
          (o : Option DataSource) {b : Bool}
          → b ≡ (elim o [ none ↦ false | some r ↦ true ])
          → b ≡ is_some o
      there none h = h
      there (some r) h = h

  changed :
      (f : DataSource → DataSource) (k j : String) (rows : List DataSource)
      → ((ds : DataSource) → (f ds).id ≡ ds.id)
      → find_row data_source_key j (update_rows data_source_key k f rows)
        ≡ put k
            (applied f (find_row data_source_key k rows))
            (λ i. find_row data_source_key i rows)
            j
  changed f k j rows h = ground (
    arith,
    find_row-update_rows data_source_key k j f rows h,
    eq_iff k j,
    Option-cases (find_row data_source_key k rows),
  )

  write_updates-Refines :
      (k : String) (cs : List Change) (w : World)
      → let (r, w') = write_updates clock k cs w in
        (found r, view w') ≡ Map.updated clock uuid k cs (view w)
  unfolding write_updates get_data_source gets write utc_now ◌>>=◌
  write_updates-Refines k [] w = refl
  write_updates-Refines k (c ∷ cs) w =
      let f = set_columns (c ∷ cs) (clock w.ticks) in
      let rows = w.db.data_sources in
      same_map _ _ _ _ _ _
        (ap (λ o. found (ok o))
          (changed f k k rows (set_columns-key (c ∷ cs) (clock w.ticks)) ∙ (rw eq_refl refl)))
        (λ j. changed f k j rows (set_columns-key (c ∷ cs) (clock w.ticks)))

  update-Refines : (k : String) (cs : List Change) (w : World) → Refines (update k cs) w
  unfolding call update_data_source
  update-Refines k cs w = write_updates-Refines k (keep is_allowed cs) w

  step-Refines : (c : Call) (w : World) → Refines c w
  step-Refines (create label url key secret verify enabled) w =
      create-Refines label url key secret verify enabled w
  step-Refines (update k cs) w = update-Refines k cs w
  step-Refines (delete k) w = delete-Refines k w
  step-Refines (get k) w = get-Refines k w

  -- No sequence of calls tells the table from the finite map of its rows: every create, update, delete
  -- and get answers as the map does.
  pub calls_refine : (cs : List Call) (w : World) → calls cs w ≡ Map.run clock uuid cs (view w)
  unfolding calls Map.run
  calls_refine [] w = refl
  calls_refine (c ∷ cs) w = rw (calls_refine cs (call c w).1, ← step-Refines c w) refl
