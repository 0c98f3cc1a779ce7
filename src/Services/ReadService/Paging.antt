-- ===== src/Services/ReadService/Paging.antt =====
-- The calls of the ASoC client in backend/app/services/asoc_read_service.py: `_fetch_all_pages`, the
-- issue counts and the issues of several applications. `fetch path params` is the client's `get` and
-- `count path params` its `get_count`; `has_credentials` is the property of that name.
pub mod Pages
pub mod Counts
use app_scan_custom_dashboar.Base.{
  ℕ, zero, suc, ◌+◌, ◌-◌, String, ◌<>◌, Bool, true, false, not, Option, none, some, List, [], ◌∷◌,
  ◌++◌, ◌==◌, if◌then◌else◌, ltb, length, strip, map, keep, ℤ, pos, negsuc, pos_part, ◌-ℤ◌,
}
use app_scan_custom_dashboar.Json.{
  Value, Fields, null, bool, int, float, text, arr, obj, end, field, get, put,
}
use app_scan_custom_dashboar.Client.Http.{Action, Outcome, pure, ◌>>=◌, ◌>>◌, try_except}
use app_scan_custom_dashboar.Services.ReadService.Normalize.{extract_items}

-- The settings of these names, at their defaults.
abbrev pub asoc_page_size : ℕ
asoc_page_size = 1000

abbrev pub asoc_max_pages : ℕ
asoc_max_pages = 5000

abbrev number : ℕ → Value
number n = int (pos n)

-- `int(params.get(key) or default)`, where the parameter is missing or a number that is not negative.
number_of : ℕ → Value → ℕ
number_of default (int (pos (suc n))) = suc n
number_of default _ = default

unfoldable pub number_param : String → ℕ → Fields → ℕ
unfolding number_of get
number_param key default params = number_of default (get key params)

unfoldable pub page_params : Fields → ℕ → ℕ → Fields
unfolding put
page_params params top skip = put "$skip" (number skip) (put "$top" (number top) params)

abbrev none_there {ℓ} : {A : Type ℓ} → List A → Bool
none_there [] = true
none_there (x ∷ xs) = false

-- What follows a page: an empty one and one that is not full are the last.
after_page :
    {S : Type 0} → ℕ → List Fields → List Fields → Action S (List Fields) → Action S (List Fields)
after_page top results items more =
    if none_there items
    then pure results
    else if ltb (length items) top
    then pure (results ++ items)
    else more

module _ {S : Type 0} (fetch : String → Fields → Action S Fields) (path : String) where
  -- The `for`, by the pages that are left.
  page_loop : Fields → ℕ → ℕ → ℕ → List Fields → Action S (List Fields)
  unfolding extract_items page_params after_page
  page_loop params top zero skip results = pure results
  page_loop params top (suc pages) skip results = do
    payload ← fetch path (page_params params top skip)
    let items = extract_items (obj payload)
    after_page top results items (page_loop params top pages (skip + top) (results ++ items))

  unfoldable pub fetch_all_pages : Fields → Option ℕ → Action S (List Fields)
  unfolding page_loop number_param
  fetch_all_pages base_params none =
      page_loop base_params (number_param "$top" asoc_page_size base_params) asoc_max_pages
        (number_param "$skip" 0 base_params) []
  fetch_all_pages base_params (some max_pages) =
      page_loop base_params (number_param "$top" asoc_page_size base_params) max_pages
        (number_param "$skip" 0 base_params) []

-- The answer of `get_issue_counts`.
pub record IssueCounts : Type 0 where
  pub total : ℤ
  pub active : ℤ
  pub resolved : ℤ
  pub critical : ℤ
  pub high : ℤ
  pub medium : ℤ
  pub low : ℤ
  pub sast : ℤ
  pub dast : ℤ
  pub sca : ℤ
  pub iast : ℤ

abbrev pub zero_counts : IssueCounts
zero_counts = record {
  total = pos 0;
  active = pos 0;
  resolved = pos 0;
  critical = pos 0;
  high = pos 0;
  medium = pos 0;
  low = pos 0;
  sast = pos 0;
  dast = pos 0;
  sca = pos 0;
  iast = pos 0;
}

-- `" and ".join(filters)` of the texts that are not empty.
joined : List String → String
joined [] = ""
joined (f ∷ []) = f
joined (f ∷ g ∷ fs) = f <> " and " <> joined (g ∷ fs)

some_text : Option String → List String
some_text none = []
some_text (some t) = if t == "" then [] else t ∷ []

-- `{"$filter": f}`, or nothing where there is no filter.
filter_params : List String → Fields
unfolding joined
filter_params [] = end
filter_params (f ∷ fs) = field "$filter" (text (joined (f ∷ fs))) end

count_path : Option String → String
count_path none = "/api/v4/Issues/Count"
count_path (some id) =
    if id == "" then "/api/v4/Issues/Count" else "/api/v4/Issues/Application/" <> id <> "/Count"

abbrev is_zero : ℤ → Bool
is_zero (pos zero) = true
is_zero _ = false

named : String → Option String → List String
named column none = []
named column (some t) = if t == "" then [] else (column <> " eq '" <> t <> "'") ∷ []

module _ {S : Type 0} (count : String → Fields → Action S ℤ) where
  -- `except Exception: return 0`.
  count_or_zero : String → Fields → Action S ℤ
  unfolding try_except
  count_or_zero path params = try_except (count path params) (pure (pos 0))

  count_with : Option String → Option String → String → Action S ℤ
  unfolding count_or_zero count_path filter_params some_text
  count_with application_id odata_filter extra_filter =
      count_or_zero (count_path application_id)
        (filter_params (some_text (some extra_filter) ++ some_text odata_filter))

  -- The counts are taken one after the other here.
  unfoldable pub get_issue_counts : Bool → Option String → Option String → Action S IssueCounts
  unfolding count_with
  get_issue_counts false application_id odata_filter = pure zero_counts
  get_issue_counts true application_id odata_filter = do
    total ← count_with application_id odata_filter ""
    active ← count_with application_id odata_filter "Status eq 'Open'"
    fixed ← count_with application_id odata_filter "Status eq 'Fixed'"
    critical ← count_with application_id odata_filter "Severity eq 'Critical'"
    high ← count_with application_id odata_filter "Severity eq 'High'"
    medium ← count_with application_id odata_filter "Severity eq 'Medium'"
    low ← count_with application_id odata_filter "Severity eq 'Low'"
    sast ← count_with application_id odata_filter "Technology eq 'SAST'"
    dast ← count_with application_id odata_filter "Technology eq 'DAST'"
    sca ← count_with application_id odata_filter "Technology eq 'SCA'"
    iast ← count_with application_id odata_filter "Technology eq 'IAST'"
    pure (record {
      total = total;
      active = active;
      resolved = fixed;
      critical = critical;
      high = high;
      medium = medium;
      low = if is_zero low then pos (pos_part (total -ℤ critical -ℤ high -ℤ medium)) else low;
      sast = sast;
      dast = dast;
      sca = sca;
      iast = iast;
    })

  unfoldable pub get_filtered_count :
      Bool → Option String → Option String → Option String → Option String → Action S ℤ
  unfolding count_or_zero named count_path filter_params
  get_filtered_count false severity technology status application_id = pure (pos 0)
  get_filtered_count true severity technology status application_id =
      count_or_zero (count_path application_id) (
        filter_params
          (named "Severity" severity ++ named "Technology" technology ++ named "Status" status))

  counts_loop : List String → Action S (List (String × IssueCounts))
  unfolding get_issue_counts
  counts_loop [] = pure []
  counts_loop (id ∷ ids) = do
    counts ← try_except (get_issue_counts true (some id) none) (pure zero_counts)
    rest ← counts_loop ids
    pure ((id, counts) ∷ rest)

  -- One row for each id that is not blank.
  unfoldable pub get_issue_counts_per_app :
      Bool → List String → Action S (List (String × IssueCounts))
  unfolding counts_loop keep
  get_issue_counts_per_app false app_ids = pure []
  get_issue_counts_per_app true app_ids =
      counts_loop (map strip (keep (λ id. not (strip id == "")) app_ids))
