-- ===== src/Store/Snapshots.antt =====
-- The analytics cache in backend/app/repositories/postgres_store.py.
pub mod Cached
use app_scan_custom_dashboar.Base.{
  ℕ, ◌-◌, String, Bool, true, false, not, Option, none, some, List, [], ◌∷◌, ◌++◌, if◌then◌else◌,
  keep, length, sort, text_le,
}
use app_scan_custom_dashboar.Json.{Fields}
use app_scan_custom_dashboar.Store.Table.{find_row, upsert_row}
use app_scan_custom_dashboar.Store.Exec.{
  AnalyticsSnapshot, Database, World, Exec, pure, gets, write, ◌>>=◌, ◌>>◌,
}

abbrev pub snapshot_key : AnalyticsSnapshot → String
snapshot_key s = s.cache_key

unfoldable pub get_analytics_snapshot : String → Exec (Option AnalyticsSnapshot)
get_analytics_snapshot cache_key =
    gets (λ db. find_row snapshot_key cache_key db.analytics_snapshots)

head : List AnalyticsSnapshot → Option AnalyticsSnapshot
head [] = none
head (s ∷ rest) = some s

-- ORDER BY fetched_at DESC LIMIT 1.
unfoldable pub get_latest_analytics_snapshot : Exec (Option AnalyticsSnapshot)
unfolding head
get_latest_analytics_snapshot =
    gets (λ db. head (sort (λ a b. text_le b.fetched_at a.fetched_at) db.analytics_snapshots))

unfoldable pub upsert_analytics_snapshot :
    String → Fields → String → String → Exec AnalyticsSnapshot
upsert_analytics_snapshot cache_key payload fetched_at expires_at = do
  let s : AnalyticsSnapshot = record {
    cache_key = cache_key;
    payload = payload;
    fetched_at = fetched_at;
    expires_at = expires_at;
  }
  write (λ db. record db { analytics_snapshots = upsert_row snapshot_key s db.analytics_snapshots })
  pure s

-- DELETE … WHERE expires_at <= now, and the number of rows deleted.
unfoldable pub purge_expired_analytics_snapshots : String → Exec ℕ
purge_expired_analytics_snapshots now_iso = do
  before ← gets (λ db. length db.analytics_snapshots)
  write (λ db. record db {
    analytics_snapshots = keep (λ s. not (text_le s.expires_at now_iso)) db.analytics_snapshots;
  })
  after ← gets (λ db. length db.analytics_snapshots)
  pure (before - after)
