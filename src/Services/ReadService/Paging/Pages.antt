-- ===== src/Services/ReadService/Paging/Pages.antt =====
-- That `_fetch_all_pages` of backend/app/services/asoc_read_service.py gets every item.
use app_scan_custom_dashboar.Base.{
  ℕ, zero, suc, ◌+◌, ◌*◌, ◌≤◌, ◌<◌, String, Option, none, some, List, [], ◌∷◌, ◌++◌, ◌≡◌, refl, sym,
  ap, ◌∙◌, ltb, length, take, drop, arith, Bool-cases, pos, negsuc, inl, inr,
}
use mathlib.Core.List.{append_assoc, append-nil}
use app_scan_custom_dashboar.Json.{Value, Fields, null, bool, int, float, text, arr, obj, get}
use app_scan_custom_dashboar.Client.Http.{World, Action, done, pure, ◌>>=◌}
use app_scan_custom_dashboar.Services.ReadService.Normalize.{extract_items}
use app_scan_custom_dashboar.Services.ReadService.Paging.{
  number_of, page_params, page_loop, after_page, fetch_all_pages, number_param, asoc_page_size,
  asoc_max_pages,
}

-- `suc m + n` as a successor.
add_suc : (m n : ℕ) → suc m + n ≡ suc (m + n)
add_suc m n = omega arith

module _ {A : Type 0} where
  take-nil : (n : ℕ) → take {A = A} n [] ≡ []
  take-nil zero = refl
  take-nil (suc n) = refl

  drop-nil : (n : ℕ) → drop {A = A} n [] ≡ []
  drop-nil zero = refl
  drop-nil (suc n) = refl

  drop-drop : (m n : ℕ) (xs : List A) → drop n (drop m xs) ≡ drop (m + n) xs
  drop-drop zero n xs = ap (λ (k : ℕ). drop k xs) (omega arith)
  drop-drop (suc m) n [] = drop-nil n ∙ sym (drop-nil (suc m + n))
  drop-drop (suc m) n (x ∷ xs) = rw (add_suc m n) (drop-drop m n xs)

  take-take-drop : (m n : ℕ) (xs : List A) → take m xs ++ take n (drop m xs) ≡ take (m + n) xs
  take-take-drop zero n xs = ap (λ (k : ℕ). take k xs) (omega arith)
  take-take-drop (suc m) n [] = take-nil n ∙ sym (take-nil (suc m + n))
  take-take-drop (suc m) n (x ∷ xs) =
      rw (add_suc m n) (ap (λ (l : List A). x ∷ l) (take-take-drop m n xs))

  -- A page that is not full is the end of the list.
  take-short : (n m : ℕ) (xs : List A) → length (take n xs) < n → take n xs ≡ take (n + m) xs
  take-short zero m xs h = absurd (omega arith)
  take-short (suc n) m [] h = sym (take-nil (suc n + m))
  take-short (suc n) m (x ∷ xs) h =
      rw (add_suc n m) (ap (λ (l : List A). x ∷ l) (take-short n m xs (omega arith)))

  take-whole : (n : ℕ) (xs : List A) → length xs ≤ n → take n xs ≡ xs
  take-whole zero [] h = refl
  take-whole zero (x ∷ xs) h = absurd (omega arith)
  take-whole (suc n) [] h = refl
  take-whole (suc n) (x ∷ xs) h = ap (λ (l : List A). x ∷ l) (take-whole n xs (omega arith))

-- A service that answers each request for a page by that part of one list.
pub record Serves {S : Type 0} (fetch : String → Fields → Action S Fields) (path : String)
    (params : Fields) (top : ℕ) (items : List Fields) : Type 0 where
  pub answer : (skip : ℕ) (w : World S) → Fields
  pub after : (skip : ℕ) (w : World S) → World S
  pub answers :
      (skip : ℕ) (w : World S)
      → fetch path (page_params params top skip) w ≡ (done (answer skip w), after skip w)
  pub page :
      (skip : ℕ) (w : World S) → extract_items (obj (answer skip w)) ≡ take top (drop skip items)

module _ {S : Type 0} (fetch : String → Fields → Action S Fields) (path : String) (params : Fields)
    (top : ℕ) (items : List Fields) (serves : Serves fetch path params top items)
    (some_size : 0 < top) where
  zero_pages : (k : ℕ) → zero * k ≡ zero
  zero_pages k = omega arith

  suc_pages : (pages k : ℕ) → suc pages * k ≡ k + pages * k
  suc_pages pages k = grind arith

  -- What the last page adds.
  last_page :
      (pages skip : ℕ) (got : List Fields)
      → got ≡ take top (drop skip items)
      → length got < top
      → got ≡ take (suc pages * top) (drop skip items)
  last_page pages skip got same short =
      same
      ∙ take-short top (pages * top) (drop skip items) (rw (sym same) short)
      ∙ ap (λ (n : ℕ). take n (drop skip items)) (sym (suc_pages pages top))

  -- What a page and those behind it add.
  next_page :
      (pages skip : ℕ) (results got : List Fields)
      → got ≡ take top (drop skip items)
      → (results ++ got) ++ take (pages * top) (drop (skip + top) items)
        ≡ results ++ take (suc pages * top) (drop skip items)
  next_page pages skip results got same =
      append_assoc results got (take (pages * top) (drop (skip + top) items))
      ∙ ap (λ (l : List Fields). results ++ l)
          (ap (λ (l : List Fields). l ++ take (pages * top) (drop (skip + top) items)) same
            ∙ ap (λ (l : List Fields). take top (drop skip items) ++ take (pages * top) l)
                (sym (drop-drop skip top items))
            ∙ take-take-drop top (pages * top) (drop skip items)
            ∙ ap (λ (n : ℕ). take n (drop skip items)) (sym (suc_pages pages top)))

  after_page-reads :
      (pages skip : ℕ) (results got : List Fields) (w : World S)
      → got ≡ take top (drop skip items)
      → (page_loop fetch path params top pages (skip + top) (results ++ got) w).0
        ≡ done ((results ++ got) ++ take (pages * top) (drop (skip + top) items))
      → (after_page top results got
          (page_loop fetch path params top pages (skip + top) (results ++ got))
          w).0
        ≡ done (results ++ take (suc pages * top) (drop skip items))
  unfolding after_page pure
  after_page-reads pages skip results [] w same rest = ap done (
      sym (append-nil results)
      ∙ ap (λ (l : List Fields). results ++ l) (last_page pages skip [] same (omega arith)))
  after_page-reads pages skip results (x ∷ xs) w same rest =
      elim (Bool-cases (ltb (length (x ∷ xs)) top)) [
        | inl short ↦ rw short (
            ap (λ (l : List Fields). done (results ++ l))
              (last_page pages skip (x ∷ xs) same (ground arith)))
        | inr full ↦ rw full (rest ∙ ap done (next_page pages skip results (x ∷ xs) same))
      ]

  -- From a place in the list, with what was read before it.
  page_loop-reads :
      (pages skip : ℕ) (results : List Fields) (w : World S)
      → (page_loop fetch path params top pages skip results w).0
        ≡ done (results ++ take (pages * top) (drop skip items))
  unfolding page_loop ◌>>=◌ pure
  page_loop-reads zero skip results w = ap done (sym (rw (zero_pages top) (append-nil results)))
  page_loop-reads (suc pages) skip results w =
      let got = take top (drop skip items) in
      rw (serves.answers skip w) (
        rw (serves.page skip w) (
          after_page-reads pages skip results got (serves.after skip w) refl
            (page_loop-reads pages (skip + top) (results ++ got) (serves.after skip w))))

abbrev pub page_limit : Option ℕ → ℕ
page_limit none = asoc_max_pages
page_limit (some max_pages) = max_pages

number_of-pos : (default : ℕ) (v : Value) → 0 < default → 0 < number_of default v
unfolding number_of
number_of-pos default (int (pos (suc n))) h = omega arith
number_of-pos default (int (pos zero)) h = h
number_of-pos default (int (negsuc n)) h = h
number_of-pos default null h = h
number_of-pos default (bool b) h = h
number_of-pos default (float t) h = h
number_of-pos default (text t) h = h
number_of-pos default (arr vs) h = h
number_of-pos default (obj fs) h = h

number_param-pos :
    (key : String) (default : ℕ) (params : Fields)
    → 0 < default
    → 0 < number_param key default params
unfolding number_param
number_param-pos key default params h = number_of-pos default (get key params) h

-- From a service that answers each page by that part of one list, the loop ends by itself with the
-- items behind the first `$skip`, in their order and each once: all of them, if the page limit times
-- the page size is no less than their number, and otherwise that many.
pub fetch_all_pages-reads :
    {S : Type 0} (fetch : String → Fields → Action S Fields) (path : String) (params : Fields)
    (items : List Fields) (max_pages : Option ℕ) (w : World S)
    → Serves fetch path params (number_param "$top" asoc_page_size params) items
    → (fetch_all_pages fetch path params max_pages w).0
      ≡ done (
          take
            (page_limit max_pages * number_param "$top" asoc_page_size params)
            (drop (number_param "$skip" 0 params) items))
unfolding fetch_all_pages
fetch_all_pages-reads fetch path params items none w serves =
    page_loop-reads fetch path params (number_param "$top" asoc_page_size params) items serves
      (number_param-pos "$top" asoc_page_size params (omega arith)) asoc_max_pages
      (number_param "$skip" 0 params) [] w
fetch_all_pages-reads fetch path params items (some max_pages) w serves =
    page_loop-reads fetch path params (number_param "$top" asoc_page_size params) items serves
      (number_param-pos "$top" asoc_page_size params (omega arith)) max_pages
      (number_param "$skip" 0 params) [] w
