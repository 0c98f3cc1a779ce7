-- ===== src/Services/MultiEndpoint/TopApps.antt =====
-- What `aggregate_top_apps` of backend/app/services/multi_endpoint.py ranks.
use app_scan_custom_dashboar.Base.{
  ℕ, ◌+◌, String, false, not, ◌&&◌, Option, none, some, List, [], ◌∷◌, ◌≡◌, refl, ap, ◌∙◌, ◌==◌,
  eq_iff, if◌then◌else◌, Dict, lookup, lookup_or, insert, lookup_or-insert, keys, sum_of, Unique,
  insert-Unique, All-insert, Unique-lookup, All, Best, take-sort-Best, higher, sort, drop, All-sort,
  All-take, Bool-cases, inl, inr, arith,
}
use app_scan_custom_dashboar.Json.{Fields}
use app_scan_custom_dashboar.Services.MultiEndpoint.{
  Service, AppCounts, no_counts, counts_or_none, add_counts, app_id_of, app_name_of, is_missing,
  add_app, add_apps, apps_of, app_map_of, merge_service, merge_services, merged_counts, entry_total,
  top_entries,
}

-- The map of names has each application once.
add_app-Unique : (app : Fields) (d : Dict String) → Unique d → Unique (add_app app d)
unfolding add_app
add_app-Unique app d u =
    elim (Bool-cases (not (app_id_of app == "") && is_missing (lookup (app_id_of app) d))) [
      | inl new ↦ rw new (insert-Unique (app_id_of app) (app_name_of app) d u)
      | inr old ↦ rw old u
    ]

add_apps-Unique : (apps : List Fields) (d : Dict String) → Unique d → Unique (add_apps apps d)
unfolding add_apps
add_apps-Unique [] d u = u
add_apps-Unique (app ∷ apps) d u = add_apps-Unique apps (add_app app d) (add_app-Unique app d u)

app_map_of-Unique :
    (services : List Service) (d : Dict String) → Unique d → Unique (app_map_of services d)
unfolding app_map_of
app_map_of-Unique [] d u = u
app_map_of-Unique (svc ∷ services) d u =
    app_map_of-Unique services (add_apps (apps_of svc.applications) d)
      (add_apps-Unique (apps_of svc.applications) d u)

abbrev only_for : String → (String → ℕ) → String → ℕ
only_for id f k = if k == id then f k else 0

abbrev if_there : ℕ → Option String → ℕ
if_there n none = 0
if_there n (some name) = n

-- The sum over the keys has one part for a key that is there.
sum_of-keys :
    (id : String) (f : String → ℕ) (d : Dict String)
    → Unique d
    → sum_of (only_for id f) (keys d) ≡ if_there (f id) (lookup id d)
unfolding sum_of keys lookup
sum_of-keys id f [] u = refl
sum_of-keys id f ((j, w) ∷ d) u = elim (Bool-cases (j == id)) [
  | inl found ↦
      let gone : lookup id d ≡ none = rw ((eq_iff j id).0 found) at u.0 in
      let nothing : sum_of (only_for id f) (keys d) ≡ 0 =
        sum_of-keys id f d u.1 ∙ ap (if_there (f id)) gone in
      let same : f j ≡ f id = ap f ((eq_iff j id).0 found) in rw found (omega arith)
  | inr other ↦ rw other (omega (arith, sum_of-keys id f d u.1))
]

app_total : Service → String → ℕ
app_total svc id = (counts_or_none (svc.count_app id)).total

total_at : String → Dict AppCounts → ℕ
total_at id merged = (lookup_or id no_counts merged).total

total_at-insert :
    (id k : String) (svc : Service) (merged : Dict AppCounts)
    → total_at id (
        insert k
          (add_counts (lookup_or k no_counts merged) (counts_or_none (svc.count_app k)))
          merged)
      ≡ only_for id (app_total svc) k + total_at id merged
unfolding total_at app_total add_counts
total_at-insert id k svc merged =
    let c = add_counts (lookup_or k no_counts merged) (counts_or_none (svc.count_app k)) in
    elim (Bool-cases (k == id)) [
      | inl same ↦
          rw (total_at, lookup_or-insert k id c no_counts merged, same)
            (rw ((eq_iff k id).0 same) (omega arith))
      | inr apart ↦ rw (total_at, lookup_or-insert k id c no_counts merged, apart) (omega arith)
    ]

if_there-zero : (o : Option String) → if_there 0 o ≡ 0
if_there-zero none = refl
if_there-zero (some name) = refl

if_there-add : (m n : ℕ) (o : Option String) → if_there (m + n) o ≡ if_there m o + if_there n o
if_there-add m n none = refl
if_there-add m n (some name) = refl

total_at-merge_service :
    (id : String) (svc : Service) (ids : List String) (merged : Dict AppCounts)
    → total_at id (merge_service svc ids merged)
      ≡ sum_of (only_for id (app_total svc)) ids + total_at id merged
unfolding merge_service sum_of
total_at-merge_service id svc [] merged = omega arith
total_at-merge_service id svc (k ∷ ids) merged =
    let c = add_counts (lookup_or k no_counts merged) (counts_or_none (svc.count_app k)) in
    omega (
      arith,
      total_at-merge_service id svc ids (insert k c merged),
      total_at-insert id k svc merged,
    )

-- The total of an application over all services.
unfoldable pub app_total_of : List Service → String → ℕ
unfolding sum_of app_total
app_total_of services id = sum_of (λ svc. app_total svc id) services

total_at-merge_services :
    (id : String) (services : List Service) (d : Dict String) (merged : Dict AppCounts)
    → Unique d
    → total_at id (merge_services services (keys d) merged)
      ≡ if_there (app_total_of services id) (lookup id d) + total_at id merged
unfolding merge_services app_total_of sum_of
total_at-merge_services id [] d merged u = omega (arith, if_there-zero (lookup id d))
total_at-merge_services id (svc ∷ services) d merged u = omega (
  arith,
  total_at-merge_services id services d (merge_service svc (keys d) merged) u,
  total_at-merge_service id svc (keys d) merged,
  sum_of-keys id (app_total svc) d u,
  if_there-add (app_total svc id) (sum_of (λ s. app_total s id) services) (lookup id d),
)

-- Only applications of the map of names have counts, and each once.
record IsMerged (d : Dict String) (merged : Dict AppCounts) : Type 0 where
  once : Unique merged
  listed : All (λ e. is_missing (lookup e.0 d) ≡ false) merged

merge_service-IsMerged :
    (d : Dict String) (svc : Service) (ids : List String) (merged : Dict AppCounts)
    → All (λ id. is_missing (lookup id d) ≡ false) ids
    → IsMerged d merged
    → IsMerged d (merge_service svc ids merged)
unfolding merge_service
merge_service-IsMerged d svc [] merged a m = m
merge_service-IsMerged d svc (id ∷ ids) merged a m =
    let c = add_counts (lookup_or id no_counts merged) (counts_or_none (svc.count_app id)) in
    merge_service-IsMerged d svc ids (insert id c merged) a.1 (record {
      once = insert-Unique id c merged m.once;
      listed =
          All-insert (λ e. is_missing (lookup e.0 d) ≡ false) id c merged (λ j e. rw e a.0)
            m.listed;
    })

merge_services-IsMerged :
    (d : Dict String) (services : List Service) (ids : List String) (merged : Dict AppCounts)
    → All (λ id. is_missing (lookup id d) ≡ false) ids
    → IsMerged d merged
    → IsMerged d (merge_services services ids merged)
unfolding merge_services
merge_services-IsMerged d [] ids merged a m = m
merge_services-IsMerged d (svc ∷ services) ids merged a m =
    merge_services-IsMerged d services ids (merge_service svc ids merged) a
      (merge_service-IsMerged d svc ids merged a m)

keys-there :
    (d es : Dict String)
    → All (λ e. lookup e.0 d ≡ some e.1) es
    → All (λ id. is_missing (lookup id d) ≡ false) (keys es)
unfolding keys
keys-there d [] a = tt
keys-there d ((k, w) ∷ es) a = (rw a.0 refl, keys-there d es a.1)

-- The total of an entry is what all services count for its application.
abbrev pub Counted : List Service → String × AppCounts → Type 0
Counted services e = e.1.total ≡ app_total_of services e.0

there_total : (n : ℕ) (o : Option String) → is_missing o ≡ false → if_there n o ≡ n
there_total n none h = cc
there_total n (some name) h = refl

total_at-nil : (id : String) → total_at id [] ≡ 0
unfolding total_at lookup_or lookup
total_at-nil id = refl

total_at-found :
    (id : String) (c : AppCounts) (merged : Dict AppCounts)
    → lookup id merged ≡ some c
    → total_at id merged ≡ c.total
unfolding lookup_or total_at
total_at-found id c merged found = rw (total_at, lookup_or, found) refl

entry-Counted :
    (services : List Service) (e : String × AppCounts)
    → lookup e.0 (merged_counts services) ≡ some e.1
    → is_missing (lookup e.0 (app_map_of services [])) ≡ false
    → Counted services e
unfolding merged_counts
entry-Counted services e found listed =
    let d = app_map_of services [] in
    omega (
      arith,
      total_at-found e.0 e.1 (merge_services services (keys d) []) found,
      total_at-merge_services e.0 services d [] (app_map_of-Unique services [] tt),
      there_total (app_total_of services e.0) (lookup e.0 d) listed,
      total_at-nil e.0,
    )

entries-Counted :
    (services : List Service) (es : Dict AppCounts)
    → All (λ e. lookup e.0 (merged_counts services) ≡ some e.1) es
    → All (λ e. is_missing (lookup e.0 (app_map_of services [])) ≡ false) es
    → All (Counted services) es
entries-Counted services [] a b = tt
entries-Counted services (e ∷ es) a b =
    (entry-Counted services e a.0 b.0, entries-Counted services es a.1 b.1)

merged_counts-IsMerged :
    (services : List Service) → IsMerged (app_map_of services []) (merged_counts services)
unfolding merged_counts
merged_counts-IsMerged services =
    let d = app_map_of services [] in
    merge_services-IsMerged d services (keys d) []
      (keys-there d d (Unique-lookup d (app_map_of-Unique services [] tt)))
      (record { once = tt; listed = tt })

-- The ranking of the applications: it has as many entries as the limit, or all the counted ones if they
-- are fewer, the total of each entry is the sum of what the services count for its application, where a call that fails counts nothing, the totals fall, and no
-- application that was counted and left out has a higher total than one that is ranked.
pub top_entries-Best :
    (limit : ℕ) (services : List Service)
    → All (Counted services) (top_entries limit services)
      × ((rest : List (String × AppCounts)) × Best entry_total limit
            (merged_counts services)
            (top_entries limit services)
            rest)
unfolding top_entries
top_entries-Best limit services =
    let m = merged_counts-IsMerged services in
    let merged = merged_counts services in
    (
      All-take (Counted services) limit (sort (higher entry_total) merged) (
          All-sort (Counted services) (higher entry_total) merged
            (entries-Counted services merged (Unique-lookup merged m.once) m.listed)),
      (drop limit (sort (higher entry_total) merged), take-sort-Best entry_total limit merged),
    )
