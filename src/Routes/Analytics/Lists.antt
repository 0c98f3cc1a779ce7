-- ===== src/Routes/Analytics/Lists.antt =====
-- What the list normalisers of backend/app/api/v1/routes/analytics.py answer.
use app_scan_custom_dashboar.Base.{
  String, Bool, true, false, not, ◌&&◌, ◌||◌, Option, List, [], ◌∷◌, ◌≡◌, refl, ap, ◌∙◌, map, ◌==◌,
  eq_iff, eq_refl, member, Bool-cases, inl, inr, arith,
}
use app_scan_custom_dashboar.Routes.Analytics.{
  collect, tokens, raw_values, normalize_id_list, normalize_list, is_text, is_technology,
  is_scan_type, is_scan_status, upper_form, lower_form, normalize_issue_technology_list,
  normalize_vulnerability_list, normalize_scan_type_list, normalize_scan_status_list,
}

-- No text twice.
abbrev pub Distinct : List String → Type 0
Distinct [] = Unit
Distinct (x ∷ xs) = (member x xs ≡ false) × Distinct xs

member-cons : (x y : String) (ys : List String) → member x (y ∷ ys) ≡ (x == y || member x ys)
unfolding member
member-cons x y ys = refl

module _ (accept : String → Bool) where
  collect-kept :
      (seen : List String) (item : String) (items : List String)
      → (accept item && not (member item seen)) ≡ true
      → collect accept seen (item ∷ items) ≡ item ∷ collect accept (item ∷ seen) items
  unfolding collect
  collect-kept seen item items h = rw (collect, h) refl

  collect-passed :
      (seen : List String) (item : String) (items : List String)
      → (accept item && not (member item seen)) ≡ false
      → collect accept seen (item ∷ items) ≡ collect accept seen items
  unfolding collect
  collect-passed seen item items h = rw (collect, h) refl

  -- The tests of one text against an element that is kept, and against one that is passed over.
  kept_test :
      (x item : String) (seen items : List String)
      → (accept item && not (member item seen)) ≡ true
      → (x == item || accept x && not (member x (item ∷ seen)) && member x items)
        ≡ (accept x && not (member x seen) && member x (item ∷ items))
  unfolding member
  kept_test x item seen items h = elim (Bool-cases (x == item)) [
    | inl same ↦ rw ((eq_iff x item).0 same, eq_refl item) (ground arith)
    | inr apart ↦ rw apart refl
  ]

  passed_test :
      (x item : String) (seen items : List String)
      → (accept item && not (member item seen)) ≡ false
      → (accept x && not (member x seen) && member x items)
        ≡ (accept x && not (member x seen) && member x (item ∷ items))
  unfolding member
  passed_test x item seen items h = elim (Bool-cases (x == item)) [
    | inl same ↦ rw ((eq_iff x item).0 same, eq_refl item) (ground arith)
    | inr apart ↦ rw apart refl
  ]

  member-collect :
      (x : String) (seen items : List String)
      → member x (collect accept seen items) ≡ (accept x && not (member x seen) && member x items)
  member-collect x seen [] = unfold collect member in (ground arith)
  member-collect x seen (item ∷ items) = elim (Bool-cases (accept item && not (member item seen))) [
    | inl kept ↦ rw (collect-kept seen item items kept) (
        member-cons x item (collect accept (item ∷ seen) items)
        ∙ ap (λ (b : Bool). x == item || b) (member-collect x (item ∷ seen) items)
        ∙ kept_test x item seen items kept)
    | inr passed ↦
        rw (collect-passed seen item items passed)
          (member-collect x seen items ∙ passed_test x item seen items passed)
  ]

  seen_first :
      (item : String) (seen items : List String)
      → (accept item && not (member item (item ∷ seen)) && member item items) ≡ false
  unfolding member
  seen_first item seen items = rw (eq_refl item) (ground arith)

  collect-Distinct : (seen items : List String) → Distinct (collect accept seen items)
  collect-Distinct seen [] = unfold collect in tt
  collect-Distinct seen (item ∷ items) = elim (Bool-cases (accept item && not (member item seen))) [
    | inl kept ↦ rw (collect-kept seen item items kept) (
      member-collect item (item ∷ seen) items ∙ seen_first item seen items,
      collect-Distinct (item ∷ seen) items,
    )
    | inr passed ↦ rw (collect-passed seen item items passed) (collect-Distinct seen items)
  ]

-- A list without repetitions that holds just the accepted ones among some texts.
pub record IsNormal (accept : String → Bool) (given out : List String) : Type 0 where
  pub distinct : Distinct out
  pub members : (x : String) → member x out ≡ (accept x && member x given)

nothing_seen :
    (a : Bool) (x : String) (items : List String)
    → (a && not (member x []) && member x items) ≡ (a && member x items)
unfolding member
nothing_seen true x items = refl
nothing_seen false x items = refl

collect-IsNormal :
    (accept : String → Bool) (items : List String) → IsNormal accept items (collect accept [] items)
unfolding member
collect-IsNormal accept items = record {
  distinct = collect-Distinct accept [] items;
  members = λ x. member-collect accept x [] items ∙ nothing_seen (accept x) x items;
}

-- The ids of a request: each once, none empty, and just the stripped parts between the commas of what is
-- given; and the technologies, vulnerabilities, scan types and scan states of a request, each once, and
-- just those among the ids that, in their upper or lower case, are allowed.
pub lists-IsNormal :
    (values : List String) (single : Option String)
    → IsNormal is_text (tokens (raw_values values single)) (normalize_id_list values single)
      × IsNormal is_technology
          (map upper_form (normalize_id_list values single))
          (normalize_issue_technology_list values single)
      × IsNormal is_text
          (map lower_form (normalize_id_list values single))
          (normalize_vulnerability_list values single)
      × IsNormal is_scan_type
          (map upper_form (normalize_id_list values single))
          (normalize_scan_type_list values single)
      × IsNormal is_scan_status
          (map lower_form (normalize_id_list values single))
          (normalize_scan_status_list values single)
unfolding normalize_id_list normalize_list normalize_issue_technology_list
    normalize_vulnerability_list normalize_scan_type_list normalize_scan_status_list
lists-IsNormal values single =
    let ids = collect is_text [] (tokens (raw_values values single)) in
    (
      collect-IsNormal is_text (tokens (raw_values values single)),
      collect-IsNormal is_technology (map upper_form ids),
      collect-IsNormal is_text (map lower_form ids),
      collect-IsNormal is_scan_type (map upper_form ids),
      collect-IsNormal is_scan_status (map lower_form ids),
    )
