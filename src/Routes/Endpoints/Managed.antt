-- ===== src/Routes/Endpoints/Managed.antt =====
-- How the managing routes of backend/app/api/v1/routes/endpoints.py answer.
use app_scan_custom_dashboar.Base.{
  ℕ, String, true, not, Option, none, some, List, [], ◌∷◌, ◌++◌, ◌≡◌, refl, sym, ap, map, keep,
  rstrip_slash, Bool-cases, inl, inr, ◌==◌, eq_iff, arith, if◌then◌else◌, length, length-sort, sort,
  sort-perm,
}
use mathlib.Core.List.{Perm}
use mathlib.Core.List.Perm
use app_scan_custom_dashboar.Services.DataSources.Chosen.{or_env-rows}
use app_scan_custom_dashboar.Routes.Endpoints.Columns.{
  IsUpdated, written-IsUpdated, unwritten-IsUpdated,
}
use app_scan_custom_dashboar.Config.{Endpoint}
use app_scan_custom_dashboar.Errors.{Result, ok, err}
use app_scan_custom_dashboar.Security.Policy.{assert_action_allowed}
use app_scan_custom_dashboar.Security.Session.{UserContext}
use app_scan_custom_dashboar.Store.Exec.{
  DataSource, Database, World, Exec, pure, lift, gets, or_raise, write, write_new, utc_now,
  continue, ◌>>=◌, ◌>>◌,
}
use app_scan_custom_dashboar.Store.Table.{
  insert_row, has_row, find_row, update_rows, find_row-update_rows, find_row-delete_rows,
}
use app_scan_custom_dashboar.Store.DataSources.{
  by_label, set_columns, data_source_key, Change, is_allowed, listed, list_data_sources,
  get_data_source, new_id, new_row, insert_data_source, create_data_source, write_updates,
  update_data_source, delete_data_source,
}
use app_scan_custom_dashboar.Services.DataSources.{
  Source, source_of, env_sources, or_env, list_all, create,
}
use app_scan_custom_dashboar.Routes.Endpoints.{
  EndpointCreateRequest, EndpointUpdateRequest, ManagedEndpoint, Listing, managed_view, fields_of,
  no_data_source, managed, create_endpoint, update_fields, update_endpoint, delete_endpoint,
}

-- What a managing user is shown of a source: its key, and of its secret only whether there is one.
abbrev pub shown : Source → ManagedEndpoint
shown ds = record {
  id = ds.id;
  url = ds.url;
  label = ds.label;
  api_key = ds.api_key;
  has_secret = not (ds.api_secret == "");
  verify_ssl = ds.verify_ssl;
  enabled = ds.enabled;
}

-- Every row is shown, enabled or not; with an empty table, the endpoints of the environment.
abbrev pub Shows : List Endpoint → List DataSource → List ManagedEndpoint → Type 0
Shows env [] endpoints = endpoints ≡ map shown (env_sources 0 env)
Shows env (ds ∷ rows) endpoints =
    Perm endpoints (map (λ (r : DataSource). shown (source_of r)) (ds ∷ rows))

abbrev Table : Type 0
Table = List DataSource

-- One row more, of the request.
abbrev pub Added : EndpointCreateRequest → List DataSource → List DataSource → Type 0
Added body old new =
    (ds : DataSource) × (new ≡ old ++ (ds ∷ []))
    × (ds.label ≡ body.label)
    × (ds.url ≡ rstrip_slash body.url)
    × (ds.api_key ≡ body.api_key)
    × (ds.api_secret ≡ body.api_secret)
    × (ds.verify_ssl ≡ body.verify_ssl)
    × (ds.enabled ≡ true)

-- The row of the id has the values of the request, and the other rows are as they were.
abbrev pub Changed : String → EndpointUpdateRequest → List DataSource → List DataSource → Type 0
Changed ds_id body old new =
    (before : DataSource) × (after : DataSource) × (find_row data_source_key ds_id old
      ≡ some before)
    × IsUpdated body before after
    × ((j : String)
        → find_row data_source_key j new
          ≡ (if ds_id == j then some after else find_row data_source_key j old))

-- The row of the id was there and is gone, and the other rows are as they were.
abbrev pub Removed : String → List DataSource → List DataSource → Type 0
Removed ds_id old new =
    (before : DataSource) × (find_row data_source_key ds_id old ≡ some before)
    × ((j : String)
        → find_row data_source_key j new
          ≡ (if ds_id == j then none else find_row data_source_key j old))

shown-rows : (rows : Table) → map shown (map source_of rows) ≡ map (λ r. shown (source_of r)) rows
shown-rows [] = refl
shown-rows (r ∷ rows) = ap (λ rest. shown (source_of r) ∷ rest) (shown-rows rows)

managed_view-shown : managed_view ≡ shown
unfolding managed_view
managed_view-shown = refl

rows-Shows :
    (env : List Endpoint) (rows : Table)
    → Shows env rows (map managed_view (or_env env (listed true rows)))
unfolding listed sort or_env
rows-Shows env [] = rw managed_view-shown refl
rows-Shows env (ds ∷ rows) =
    let sorted = sort by_label (ds ∷ rows) in
    rw
      (
        managed_view-shown,
        or_env-rows env sorted (omega (arith, length-sort by_label (ds ∷ rows))),
        shown-rows sorted,
      )
      (Perm.map (λ (r : DataSource). shown (source_of r)) (sort-perm by_label (ds ∷ rows)))

keys_kept :
    (ds_id j : String) (f : DataSource → DataSource) (rows : Table) (before : DataSource)
    → ((r : DataSource) → (f r).id ≡ r.id)
    → find_row data_source_key ds_id rows ≡ some before
    → find_row data_source_key j (update_rows data_source_key ds_id f rows)
      ≡ (if ds_id == j then some (f before) else find_row data_source_key j rows)
keys_kept ds_id j f rows before h there =
    ground (arith, find_row-update_rows data_source_key ds_id j f rows h, eq_iff ds_id j, there)

same_rows :
    (ds_id j : String) (rows : Table) (before : DataSource)
    → find_row data_source_key ds_id rows ≡ some before
    → find_row data_source_key j rows
      ≡ (if ds_id == j then some before else find_row data_source_key j rows)
same_rows ds_id j rows before there = ground (arith, eq_iff ds_id j, there)

module _ (clock uuid : ℕ → String) (env : List Endpoint) (user : UserContext) where
  -- An answer shows the table as it is left, and the table has changed as stated; an error leaves the
  -- database as it was.
  abbrev End :
      (Table → Table → Type 0) → Database → Result (Listing ManagedEndpoint) × World → Type 0
  End Effect db (ok l, w) =
      (l.total ≡ length l.endpoints)
      × Shows env w.db.data_sources l.endpoints
      × Effect db.data_sources w.db.data_sources
  End Effect db (err e, w) = w.db ≡ db

  -- The same, and an answer means that the role manages endpoints.
  abbrev pub ManagedEnd :
      (List DataSource → List DataSource → Type 0)
      → Database
      → Result (Listing ManagedEndpoint) × World
      → Type 0
  ManagedEnd Effect db (ok l, w) =
      (assert_action_allowed "manage_endpoints" user.role ≡ ok tt)
      × (l.total ≡ length l.endpoints)
      × Shows env w.db.data_sources l.endpoints
      × Effect db.data_sources w.db.data_sources
  ManagedEnd Effect db (err e, w) = w.db ≡ db

  module _ (Effect : Table → Table → Type 0) where
    permitted :
        (db : Database) (x : Result (Listing ManagedEndpoint) × World)
        → assert_action_allowed "manage_endpoints" user.role ≡ ok tt
        → End Effect db x
        → ManagedEnd Effect db x
    permitted db (ok l, w) allowed (total, shows, effect) = (allowed, total, shows, effect)
    permitted db (err e, w) allowed h = h

    guarded :
        (r : Result (Unit {0})) (m : Exec (Listing ManagedEndpoint)) (w : World)
        → r ≡ assert_action_allowed "manage_endpoints" user.role
        → End Effect w.db (m w)
        → ManagedEnd Effect w.db (continue r (λ _. m) w)
    guarded (ok tt) m w e h = permitted w.db (m w) (sym e) h
    guarded (err x) m w e h = refl

    managed-End :
        (db : Database) (w : World)
        → Effect db.data_sources w.db.data_sources
        → End Effect db (managed clock uuid env user w)
    unfolding managed list_all list_data_sources gets pure ◌>>=◌
    managed-End db w h = (refl, rows-Shows env w.db.data_sources, h)

    write_updates-End :
        (ds_id : String) (cs : List Change) (w : World)
        → (cs ≡ [] → Effect w.db.data_sources w.db.data_sources)
        → ((now : String)
            → Effect w.db.data_sources
                (update_rows data_source_key ds_id (set_columns cs now) w.db.data_sources))
        → End Effect w.db ((write_updates clock ds_id cs >> managed clock uuid env user) w)
    unfolding write_updates get_data_source utc_now write gets ◌>>=◌
    write_updates-End ds_id [] w nothing something = managed-End w.db w (nothing refl)
    write_updates-End ds_id (c ∷ cs) w nothing something =
        managed-End w.db _ (something (clock w.ticks))

    update_fields-End :
        (ds_id : String) (cs : List Change) (w : World)
        → (keep is_allowed cs ≡ [] → Effect w.db.data_sources w.db.data_sources)
        → ((now : String)
            → Effect w.db.data_sources (
                update_rows data_source_key ds_id
                  (set_columns (keep is_allowed cs) now)
                  w.db.data_sources))
        → End Effect w.db
            ((update_fields clock uuid env user ds_id cs >> managed clock uuid env user) w)
    unfolding update_fields update_data_source pure keep ◌>>=◌
    update_fields-End ds_id [] w nothing something = managed-End w.db w (nothing refl)
    update_fields-End ds_id (c ∷ cs) w nothing something =
        write_updates-End ds_id (keep is_allowed (c ∷ cs)) w nothing something

    found-End :
        (ds_id : String) (found : Option DataSource) (m : Exec (Listing ManagedEndpoint))
        (w : World)
        → ((before : DataSource) → found ≡ some before → End Effect w.db (m w))
        → End Effect w.db ((or_raise 404 (no_data_source ds_id) found >> m) w)
    unfolding or_raise ◌>>=◌
    found-End ds_id none m w h = refl
    found-End ds_id (some ds) m w h = h ds refl

  create-End :
      (body : EndpointCreateRequest) (w : World)
      → End (Added body) w.db (
          (create clock uuid body.label body.url body.api_key body.api_secret body.verify_ssl
              >> managed clock uuid env user)
            w)
  unfolding create create_data_source new_id utc_now write_new insert_data_source pure ◌>>=◌
      insert_row has_row managed list_all
  create-End body w =
      let ds =
        new_row (uuid w.drawn) (clock w.ticks) body.label (rstrip_slash body.url) body.api_key
          body.api_secret body.verify_ssl true in
      elim (Bool-cases (has_row data_source_key ds.id w.db.data_sources)) [
        | inl taken ↦ rw taken refl
        | inr free ↦ rw free (
          refl,
          rows-Shows env (w.db.data_sources ++ (ds ∷ [])),
          (ds, refl, refl, refl, refl, refl, refl, refl),
        )
      ]

  update-End :
      (ds_id : String) (body : EndpointUpdateRequest) (w : World) (before : DataSource)
      → find_row data_source_key ds_id w.db.data_sources ≡ some before
      → End (Changed ds_id body) w.db (
          (update_fields clock uuid env user ds_id (fields_of body) >> managed clock uuid env user)
            w)
  update-End ds_id body w before there =
      let cs = keep is_allowed (fields_of body) in
      let rows = w.db.data_sources in
      update_fields-End (Changed ds_id body) ds_id (fields_of body) w
        (λ nothing. (
          before,
          before,
          there,
          unwritten-IsUpdated "" body before nothing,
          λ j. same_rows ds_id j rows before there,
        ))
        (λ now. (
          before,
          set_columns cs now before,
          there,
          written-IsUpdated now body before,
          λ j.
              keys_kept ds_id j (set_columns cs now) rows before
                (λ r. (written-IsUpdated now body r).0) there,
        ))

  delete-End :
      (ds_id : String) (w : World) (before : DataSource)
      → find_row data_source_key ds_id w.db.data_sources ≡ some before
      → End (Removed ds_id) w.db ((delete_data_source ds_id >> managed clock uuid env user) w)
  unfolding delete_data_source gets write pure ◌>>=◌
  delete-End ds_id w before there =
      managed-End (Removed ds_id) w.db _
        (before, there, λ j. find_row-delete_rows data_source_key ds_id j w.db.data_sources)

  -- The routes that create, change and delete a data source. One that answers was asked by a role that
  -- manages endpoints. The first has added one enabled row with the label, the address without slashes at
  -- its end, the key, the secret and the flag of the request; the second has given the row of the id,
  -- which was there, the values of the request; the third has removed that row; both have left the other
  -- rows alone. The answer has, in some order, every row of the table as it is left, with its key and
  -- whether it has a secret, but not the secret; if the table is left empty, it has the endpoints of the
  -- environment instead. One that raises has left the database as it was.
  pub managing_routes-End :
      (ds_id : String) (body : EndpointCreateRequest) (changes : EndpointUpdateRequest) (w : World)
      → ManagedEnd (Added body) w.db (create_endpoint clock uuid env user body w)
        × ManagedEnd
            (Changed ds_id changes)
            w.db
            (update_endpoint clock uuid env user ds_id changes w)
        × ManagedEnd (Removed ds_id) w.db (delete_endpoint clock uuid env user ds_id w)
  unfolding create_endpoint update_endpoint delete_endpoint lift get_data_source gets ◌>>=◌
  managing_routes-End ds_id body changes w =
      let r = assert_action_allowed "manage_endpoints" user.role in
      let there = find_row data_source_key ds_id w.db.data_sources in
      let update =
        update_fields clock uuid env user ds_id (fields_of changes)
        >> managed clock uuid env user in
      let delete = delete_data_source ds_id >> managed clock uuid env user in
      (
        guarded (Added body) r _ w refl (create-End body w),
        guarded (Changed ds_id changes) r _ w refl
            (found-End (Changed ds_id changes) ds_id there update w (update-End ds_id changes w)),
        guarded (Removed ds_id) r _ w refl
            (found-End (Removed ds_id) ds_id there delete w (delete-End ds_id w)),
      )
