-- ===== src/Store/Snapshots/Cached.antt =====
-- What the analytics cache of backend/app/repositories/postgres_store.py gives back.
use app_scan_custom_dashboar.Base.{
  String, ◌≡◌, ap, ◌↔◌, Bool, false, not, some, if◌then◌else◌, ◌==◌, text_le, arith, Mem,
  mem-keep_of, mem-of_keep,
}
use app_scan_custom_dashboar.Json.{Fields}
use app_scan_custom_dashboar.Errors.{ok}
use app_scan_custom_dashboar.Store.Table.{find_row, find_row-upsert_row}
use app_scan_custom_dashboar.Store.Exec.{AnalyticsSnapshot, World, ◌>>=◌}
use app_scan_custom_dashboar.Store.Snapshots.{
  snapshot_key, get_analytics_snapshot, upsert_analytics_snapshot,
  purge_expired_analytics_snapshots,
}

-- After an upsert, the cache gives back the new snapshot under its key, and under every other key what
-- it gave before.
pub upsert-get :
    (cache_key : String) (payload : Fields) (fetched_at expires_at : String) (j : String)
    (w : World)
    → let (r, w') = upsert_analytics_snapshot cache_key payload fetched_at expires_at w in
      (get_analytics_snapshot j w').0
      ≡ ok (
          if cache_key == j
          then some (record {
            cache_key = cache_key;
            payload = payload;
            fetched_at = fetched_at;
            expires_at = expires_at;
          })
          else find_row snapshot_key j w.db.analytics_snapshots)
unfolding upsert_analytics_snapshot get_analytics_snapshot ◌>>=◌
upsert-get cache_key payload fetched_at expires_at j w =
    ap ok (find_row-upsert_row snapshot_key _ j w.db.analytics_snapshots)

-- A purge leaves exactly the snapshots that expire after now.
pub mem-purge :
    (now : String) (s : AnalyticsSnapshot) (w : World)
    → let (r, w') = purge_expired_analytics_snapshots now w in
      Mem s w'.db.analytics_snapshots
      ↔ (Mem s w.db.analytics_snapshots × (text_le s.expires_at now ≡ false))
unfolding purge_expired_analytics_snapshots ◌>>=◌
mem-purge now s w =
    let after : AnalyticsSnapshot → Bool = λ x. not (text_le x.expires_at now) in
    (
      λ m.
          let (isin, test) = mem-of_keep after s w.db.analytics_snapshots m in (isin, ground arith),
      λ (isin, later). mem-keep_of after s w.db.analytics_snapshots isin (ground arith),
    )
