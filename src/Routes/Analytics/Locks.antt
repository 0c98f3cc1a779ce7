-- ===== src/Routes/Analytics/Locks.antt =====
-- The table of locks of backend/app/api/v1/routes/analytics.py.
use app_scan_custom_dashboar.Base.{
  ℕ, zero, suc, ◌+◌, ◌-◌, ◌≤◌, ◌<◌, String, some, List, [], ◌∷◌, ◌≡◌, refl, ◌∙◌, ◌==◌, eq_refl,
  if◌then◌else◌, length, drop, leb, Dict, lookup, insert, lookup-insert, Bool-cases, Option-cases,
  inl, inr, arith,
}
use app_scan_custom_dashboar.Routes.Analytics.{LockTable, new_lock, get_lock}

-- A run of requests for locks.
unfoldable pub get_locks : ℕ → List String → LockTable → LockTable
unfolding get_lock
get_locks limit [] t = t
get_locks limit (cache_key ∷ cache_keys) t =
    get_locks limit cache_keys (get_lock limit cache_key t).0

length-drop : (n : ℕ) (d : Dict ℕ) → length (drop n d) ≡ length d - n
length-drop zero d = omega arith
length-drop (suc n) [] = omega arith
length-drop (suc n) (e ∷ d) = omega (arith, length-drop n d)

length-insert-le : (k : String) (v : ℕ) (d : Dict ℕ) → length (insert k v d) ≤ length d + 1
unfolding insert
length-insert-le k v [] = omega arith
length-insert-le k v ((j, w) ∷ d) = elim (Bool-cases (j == k)) [
  | inl found ↦ rw found (omega arith)
  | inr missing ↦ rw missing (omega (arith, length-insert-le k v d))
]

new_lock-length :
    (limit : ℕ) (k : String) (t : LockTable)
    → 0 < limit
    → length t.locks ≤ limit
    → length (new_lock limit k t).0.locks ≤ limit
unfolding new_lock
new_lock-length limit k t some_room h = elim (Bool-cases (leb limit (length t.locks))) [
  | inl full ↦
      rw full (omega (arith, length-insert-le k t.made (drop 100 t.locks), length-drop 100 t.locks))
  | inr room ↦
      let below : length t.locks < limit = ground arith in
      rw room (omega (arith, length-insert-le k t.made t.locks))
]

get_lock-length :
    (limit : ℕ) (k : String) (t : LockTable)
    → 0 < limit
    → length t.locks ≤ limit
    → length (get_lock limit k t).0.locks ≤ limit
unfolding get_lock
get_lock-length limit k t some_room h = elim (Option-cases (lookup k t.locks)) [
  | inl missing ↦ rw (get_lock, missing) (new_lock-length limit k t some_room h)
  | inr (lock, found) ↦ rw (get_lock, found) h
]

-- The lock of a cache key is the one that the table has under it from then on.
get_lock-found :
    (limit : ℕ) (k : String) (t : LockTable)
    → lookup k (get_lock limit k t).0.locks ≡ some (get_lock limit k t).1
unfolding get_lock new_lock
get_lock-found limit k t = elim (Option-cases (lookup k t.locks)) [
  | inl missing ↦
      rw (get_lock, missing)
        (lookup-insert k k t.made (if leb limit (length t.locks) then drop 100 t.locks else t.locks)
          ∙ rw (eq_refl k) refl)
  | inr (lock, found) ↦ rw (get_lock, found) found
]

get_lock-there :
    (limit : ℕ) (k : String) (t : LockTable) (lock : ℕ)
    → lookup k t.locks ≡ some lock
    → get_lock limit k t ≡ (t, lock)
unfolding get_lock
get_lock-there limit k t lock found = rw (get_lock, found) refl

get_lock-again :
    (limit : ℕ) (k : String) (t : LockTable)
    → get_lock limit k (get_lock limit k t).0 ≡ get_lock limit k t
get_lock-again limit k t =
    get_lock-there limit k (get_lock limit k t).0 (get_lock limit k t).1 (get_lock-found limit k t)

get_locks-length :
    (limit : ℕ) (cache_keys : List String) (t : LockTable)
    → 0 < limit
    → length t.locks ≤ limit
    → length (get_locks limit cache_keys t).locks ≤ limit
unfolding get_locks
get_locks-length limit [] t some_room h = h
get_locks-length limit (k ∷ cache_keys) t some_room h =
    get_locks-length limit cache_keys (get_lock limit k t).0 some_room
      (get_lock-length limit k t some_room h)

-- The table of locks stays within its limit over any run of requests, and a lock that was just given
-- for a cache key is given again by the next request for that key, which changes nothing.
pub get_locks-bounds :
    (limit : ℕ) (cache_keys : List String) (cache_key : String) (t : LockTable)
    → 0 < limit
    → length t.locks ≤ limit
    → (length (get_locks limit cache_keys t).locks ≤ limit)
      × (get_lock limit cache_key (get_lock limit cache_key t).0 ≡ get_lock limit cache_key t)
get_locks-bounds limit cache_keys cache_key t some_room h =
    (get_locks-length limit cache_keys t some_room h, get_lock-again limit cache_key t)
