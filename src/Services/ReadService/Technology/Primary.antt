-- ===== src/Services/ReadService/Technology/Primary.antt =====
-- The primary technology of an application, in backend/app/services/asoc_read_service.py.
use app_scan_custom_dashboar.Base.{
  ℕ, ◌+◌, ◌≤◌, ◌<◌, String, Bool, true, false, ◌&&◌, ◌||◌, none, some, List, [], ◌∷◌, ◌≡◌, refl,
  ◌∙◌, ◌⊎◌, ◌==◌, eq_iff, eqb, ltb, leb, member, Dict, lookup, lookup_or, insert, bump_key,
  lookup_or-bump_key, lookup_or-insert, count_where, one_if, sort, sort-Ranked, All, Unique,
  insert-Unique, All-insert, All-lookup, All-sort, All-of_sort, Unique-lookup, sort-cons,
  Bool-cases, Option-cases, inl, inr, arith, length,
}
use mathlib.Core.Option
use app_scan_custom_dashboar.Json.{Fields}
use app_scan_custom_dashboar.Services.ReadService.Technology.{
  technologies, app_of, type_of, is_counted, Maps, add_scan, scan_loop, before, priority, winner,
  primaries, build_app_technology_maps,
}

-- The scans of an application that are of one technology.
unfoldable pub is_of : String → String → Fields → Bool
unfolding is_counted app_of type_of
is_of a t scan = is_counted scan && app_of scan == a && type_of scan == t

unfoldable pub scans_of : String → String → List Fields → ℕ
unfolding count_where is_of
scans_of a t scans = count_where (is_of a t) scans

count_at : String → String → Maps → ℕ
count_at a t maps = lookup_or t 0 (lookup_or a [] maps.app_technology_counts)

count_at-add_scan :
    (a t : String) (scan : Fields) (maps : Maps)
    → count_at a t (add_scan scan maps) ≡ one_if (is_of a t scan) + count_at a t maps
unfolding count_at add_scan is_of
count_at-add_scan a t scan maps = elim (Bool-cases (is_counted scan)) [
  | inr passed ↦ rw passed (omega arith)
  | inl counted ↦ rw counted (elim (Bool-cases (app_of scan == a)) [
    | inl same ↦
        rw
          (
            lookup_or-insert (app_of scan) a
                (bump_key (type_of scan) (lookup_or (app_of scan) [] maps.app_technology_counts)) []
                maps.app_technology_counts,
            same,
            lookup_or-bump_key (type_of scan) t
                (lookup_or (app_of scan) [] maps.app_technology_counts),
            (eq_iff (app_of scan) a).0 same,
          )
          refl
    | inr apart ↦
        rw
          (
            lookup_or-insert (app_of scan) a
                (bump_key (type_of scan) (lookup_or (app_of scan) [] maps.app_technology_counts)) []
                maps.app_technology_counts,
            apart,
          )
          (omega arith)
  ])
]

count_at-scan_loop :
    (a t : String) (scans : List Fields) (maps : Maps)
    → count_at a t (scan_loop scans maps) ≡ scans_of a t scans + count_at a t maps
unfolding scan_loop scans_of count_where
count_at-scan_loop a t [] maps = omega arith
count_at-scan_loop a t (scan ∷ scans) maps =
    omega
      (arith, count_at-scan_loop a t scans (add_scan scan maps), count_at-add_scan a t scan maps)

-- What the counts of one application are: each technology once, and only those with a scan.
record IsTally (counts : Dict ℕ) : Type 0 where
  once : Unique counts
  known : All (λ e. (member e.0 technologies ≡ true) × (0 < e.1)) counts
  there : 0 < length counts

-- What the loop keeps: the applications once, and a tally for each.
record IsMaps (maps : Maps) : Type 0 where
  apps_once : Unique maps.app_technology_counts
  tallies : All (λ e. IsTally e.1) maps.app_technology_counts

abbrev Known : String × ℕ → Type 0
Known e = (member e.0 technologies ≡ true) × (0 < e.1)

-- The counts to which a scan is added: those of the application, or none.
record IsCounts (counts : Dict ℕ) : Type 0 where
  once : Unique counts
  known : All Known counts

lookup_or-IsCounts :
    (a : String) (d : Dict (Dict ℕ)) → All (λ e. IsTally e.1) d → IsCounts (lookup_or a [] d)
unfolding lookup_or
lookup_or-IsCounts a d tallies = elim (Option-cases (lookup a d)) [
  | inl missing ↦ rw (lookup_or, missing) (record { once = tt; known = tt })
  | inr (counts, found) ↦
      let tally : IsTally counts = All-lookup (λ e. IsTally e.1) a counts d tallies found in
      rw (lookup_or, found) (record { once = tally.once; known = tally.known })
]

0-lt-length-insert : (k : String) (n : ℕ) (d : Dict ℕ) → 0 < length (insert k n d)
unfolding insert
0-lt-length-insert k n [] = omega arith
0-lt-length-insert k n ((j, m) ∷ d) = elim (Bool-cases (j == k)) [
  | inl found ↦ rw found (omega arith)
  | inr missing ↦ rw missing (omega arith)
]

bump_key-IsTally :
    (t : String) (counts : Dict ℕ)
    → member t technologies ≡ true
    → IsCounts counts
    → IsTally (bump_key t counts)
unfolding bump_key
bump_key-IsTally t counts known c = record {
  once = insert-Unique t (lookup_or t 0 counts + 1) counts c.once;
  known =
      All-insert Known t (lookup_or t 0 counts + 1) counts (λ j e. (rw e known, omega arith))
        c.known;
  there = 0-lt-length-insert t (lookup_or t 0 counts + 1) counts;
}

is_counted-known :
    (scan : Fields) → is_counted scan ≡ true → member (type_of scan) technologies ≡ true
unfolding is_counted
is_counted-known scan h = ground arith

add_scan-IsMaps : (scan : Fields) (maps : Maps) → IsMaps maps → IsMaps (add_scan scan maps)
unfolding add_scan
add_scan-IsMaps scan maps m = elim (Bool-cases (is_counted scan)) [
  | inr passed ↦ rw passed m
  | inl counted ↦
      let before_it = lookup_or (app_of scan) [] maps.app_technology_counts in
      let tally : IsTally (bump_key (type_of scan) before_it) =
        bump_key-IsTally (type_of scan) before_it (is_counted-known scan counted)
          (lookup_or-IsCounts (app_of scan) maps.app_technology_counts m.tallies) in
      rw counted (record {
        apps_once =
            insert-Unique (app_of scan) (bump_key (type_of scan) before_it)
              maps.app_technology_counts m.apps_once;
        tallies =
            All-insert (λ e. IsTally e.1) (app_of scan) (bump_key (type_of scan) before_it)
              maps.app_technology_counts (λ j e. tally) m.tallies;
      })
]

scan_loop-IsMaps : (scans : List Fields) (maps : Maps) → IsMaps maps → IsMaps (scan_loop scans maps)
unfolding scan_loop
scan_loop-IsMaps [] maps m = m
scan_loop-IsMaps (scan ∷ scans) maps m =
    scan_loop-IsMaps scans (add_scan scan maps) (add_scan-IsMaps scan maps m)

-- More scans, or as many and no lower priority.
abbrev better : String × ℕ → String × ℕ → Bool
better x y = ltb y.1 x.1 || eqb x.1 y.1 && leb (priority y.0) (priority x.0)

better_refl : (x : String × ℕ) → better x x ≡ true
better_refl x = ground arith

better_trans : (x y z : String × ℕ) → better x y ≡ true → better y z ≡ true → better x z ≡ true
better_trans x y z h k = ground arith

before-better : (x y : String × ℕ) → before x y ≡ true → better x y ≡ true
unfolding before
before-better x y h = ground arith

behind-better : (x y : String × ℕ) → before x y ≡ false → better y x ≡ true
unfolding before
behind-better x y h = ground arith

better-most : (t u : String) (m n : ℕ) → better (t, m) (u, n) ≡ true → n ≤ m
better-most t u m n h = ground arith

better-tie :
    (t u : String) (m n : ℕ) → better (t, m) (u, n) ≡ true → n ≡ m → priority u ≤ priority t
better-tie t u m n h e = ground arith

-- What the counts of an application say of its first technology.
record IsWinner (counts : Dict ℕ) (t : String) : Type 0 where
  listed : member t technologies ≡ true
  seen : 0 < lookup_or t 0 counts
  best : (u : String) → better (t, lookup_or t 0 counts) (u, lookup_or u 0 counts) ≡ true

head-listed :
    (counts : Dict ℕ) (e : String × ℕ) (es : Dict ℕ)
    → IsTally counts
    → sort before counts ≡ e ∷ es
    → (lookup e.0 counts ≡ some e.1) × Known e
head-listed counts e es tally sorted = (
  (rw sorted at (
      All-sort (λ x. lookup x.0 counts ≡ some x.1) before counts
        (Unique-lookup counts tally.once))).0,
  (rw sorted at (All-sort Known before counts tally.known)).0,
)

head-best :
    (counts : Dict ℕ) (e : String × ℕ) (es : Dict ℕ)
    → sort before counts ≡ e ∷ es
    → 0 < e.1
    → (u : String) → better e (u, lookup_or u 0 counts) ≡ true
unfolding lookup_or
head-best counts e es sorted seen u = elim (Option-cases (lookup u counts)) [
  | inl missing ↦ rw (lookup_or, missing) (ground arith)
  | inr (n, found) ↦
      let ranked : All (λ y. better e y ≡ true) es =
        (rw sorted at
          (sort-Ranked before better better_trans before-better behind-better counts)).0 in
      let over : All (λ y. better e y ≡ true) counts =
        All-of_sort (λ y. better e y ≡ true) before counts (rw sorted (better_refl e, ranked)) in
      rw (lookup_or, found) (All-lookup (λ y. better e y ≡ true) u n counts over found)
]

winner-first :
    (counts : Dict ℕ) (e : String × ℕ) (es : Dict ℕ)
    → sort before counts ≡ e ∷ es
    → winner counts ≡ e.0
unfolding winner
winner-first counts e es sorted = rw (winner, sorted) refl

winner-IsWinner : (counts : Dict ℕ) → IsTally counts → IsWinner counts (winner counts)
unfolding lookup_or
winner-IsWinner counts tally =
    let (e, es, sorted) = sort-cons before counts tally.there in
    let (found, known) = head-listed counts e es tally sorted in
    rw (winner-first counts e es sorted) (record {
      listed = known.0;
      seen = rw (lookup_or, found) known.1;
      best = λ u. rw (lookup_or, found) (head-best counts e es sorted known.1 u);
    })

-- `t` is a technology of the application with a scan, no technology has more scans, and none that has
-- as many has a higher priority.
pub record IsPrimary (scans : List Fields) (a t : String) : Type 0 where
  pub listed : member t technologies ≡ true
  pub seen : 0 < scans_of a t scans
  pub most : (u : String) → scans_of a u scans ≤ scans_of a t scans
  pub tie : (u : String) → scans_of a u scans ≡ scans_of a t scans → priority u ≤ priority t

lookup-primaries :
    (a : String) (d : Dict (Dict ℕ)) → lookup a (primaries d) ≡ Option.map winner (lookup a d)
unfolding primaries lookup
lookup-primaries a [] = refl
lookup-primaries a ((k, counts) ∷ d) = elim (Bool-cases (k == a)) [
  | inl same ↦ rw same refl
  | inr apart ↦ rw apart (lookup-primaries a d)
]

abbrev no_maps : Maps
no_maps = record { app_technology_map = []; app_technology_counts = [] }

module _ (scans : List Fields) (a : String) where
  scans_of-count : (u : String) → scans_of a u scans ≡ count_at a u (scan_loop scans no_maps)
  unfolding count_at lookup_or lookup
  scans_of-count u = omega (arith, count_at-scan_loop a u scans no_maps)

  scans_of-found :
      (counts : Dict ℕ)
      → lookup a (scan_loop scans no_maps).app_technology_counts ≡ some counts
      → (u : String) → scans_of a u scans ≡ lookup_or u 0 counts
  unfolding count_at lookup_or
  scans_of-found counts found u = scans_of-count u ∙ rw (lookup_or, found) refl

  scans_of-missing :
      lookup a (scan_loop scans no_maps).app_technology_counts ≡ none
      → (u : String) → scans_of a u scans ≡ 0
  unfolding count_at lookup_or lookup
  scans_of-missing missing u = scans_of-count u ∙ rw (lookup_or, missing) refl

  winner-IsPrimary :
      (counts : Dict ℕ)
      → lookup a (scan_loop scans no_maps).app_technology_counts ≡ some counts
      → IsWinner counts (winner counts)
      → IsPrimary scans a (winner counts)
  winner-IsPrimary counts found w = record {
    listed = w.listed;
    seen = rw (scans_of-found counts found (winner counts)) w.seen;
    most = λ u.
        rw (scans_of-found counts found (winner counts), scans_of-found counts found u)
          (better-most (winner counts) u _ _ (w.best u));
    tie = λ u same.
        better-tie (winner counts) u _ _ (w.best u)
          (rw (scans_of-found counts found (winner counts), scans_of-found counts found u) at same);
  }

  -- An application has a primary technology exactly if one of its scans is counted, and then it is
  -- the technology of most of its scans: one of the four, with a scan, such that no other has more
  -- scans, and none that has as many has a higher priority.
  pub build_app_technology_maps-IsPrimary :
      ((lookup a (build_app_technology_maps scans).1 ≡ none)
        × ((u : String) → scans_of a u scans ≡ 0))
      ⊎ ((t : String) × (lookup a (build_app_technology_maps scans).1 ≡ some t)
          × IsPrimary scans a t)
  unfolding build_app_technology_maps
  build_app_technology_maps-IsPrimary =
      let counts_of = (scan_loop scans no_maps).app_technology_counts in
      let m : IsMaps (scan_loop scans no_maps) =
        scan_loop-IsMaps scans no_maps (record { apps_once = tt; tallies = tt }) in
      elim (Option-cases (lookup a counts_of)) [
        | inl missing ↦
            inl (rw (lookup-primaries a counts_of, missing) refl, scans_of-missing missing)
        | inr (counts, found) ↦ inr (
          winner counts,
          rw (lookup-primaries a counts_of, found) refl,
          winner-IsPrimary counts found (
              winner-IsWinner counts
                (All-lookup (λ e. IsTally e.1) a counts counts_of m.tallies found)),
        )
      ]
