-- ===== src/Services/ReadService/Paging/Counts.antt =====
-- That the issue counts of backend/app/services/asoc_read_service.py are always answered.
use app_scan_custom_dashboar.Base.{
  String, Bool, true, false, not, Option, none, some, List, [], ◌∷◌, ◌≡◌, refl, ap, ◌∙◌, map, keep,
  ◌==◌, strip, ℤ, pos,
}
use app_scan_custom_dashboar.Json.{Fields}
use app_scan_custom_dashboar.Client.Http.{
  World, Action, Outcome, done, raised, pure, ◌>>=◌, try_except, continue, recover,
}
use app_scan_custom_dashboar.Services.ReadService.Paging.{
  zero_counts, count_or_zero, count_with, get_issue_counts, get_filtered_count, counts_loop,
  get_issue_counts_per_app,
}

-- The action answers in every state, with a value of which `P` holds.
pub record Answers {S A : Type 0} (P : A → Type 0) (m : Action S A) : Type 0 where
  pub at : (w : World S) → (a : A) × ((m w).0 ≡ done a) × P a

module _ {S : Type 0} where
  Answers-pure : {A : Type 0} (P : A → Type 0) (a : A) → P a → Answers {S = S} P (pure a)
  unfolding pure
  Answers-pure P a p = record { at = λ w. (a, refl, p) }

  Answers-bind :
      {A B : Type 0} (P : A → Type 0) (Q : B → Type 0) (m : Action S A) (f : A → Action S B)
      → Answers P m
      → ((a : A) → P a → Answers Q (f a))
      → Answers Q (m >>= f)
  unfolding ◌>>=◌
  Answers-bind P Q m f first next = record {
    at = λ w.
        let (a, e, p) = first.at w in
        let (b, e', q) = (next a p).at (m w).1 in (b, ap (λ r. (continue r f (m w).1).0) e ∙ e', q);
  }

  recovered :
      {A : Type 0} (P : A → Type 0) (r : Outcome A) (w : World S) (handler : Action S A)
      → ((a : A) → P a)
      → Answers P handler
      → (a : A) × ((recover r handler w).0 ≡ done a) × P a
  recovered P (done a) w handler all h = (a, refl, all a)
  recovered P (raised e) w handler all h = h.at w

  -- What an exception is caught for answers.
  Answers-recover :
      {A : Type 0} (P : A → Type 0) (m handler : Action S A)
      → ((a : A) → P a)
      → Answers P handler
      → Answers P (try_except m handler)
  unfolding try_except
  Answers-recover P m handler all h = record { at = λ w. recovered P (m w).0 (m w).1 handler all h }

-- The applications that get a row.
abbrev pub counted_ids : Bool → List String → List String
counted_ids false app_ids = []
counted_ids true app_ids = map strip (keep (λ id. not (strip id == "")) app_ids)

abbrev pub Anything : {A : Type 0} → A → Type 0
Anything a = Unit

module _ {S : Type 0} (count : String → Fields → Action S ℤ) where
  count_or_zero-Answers :
      (path : String) (params : Fields) → Answers Anything (count_or_zero count path params)
  unfolding count_or_zero
  count_or_zero-Answers path params =
      Answers-recover Anything (count path params) (pure (pos 0)) (λ n. tt)
        (Answers-pure Anything (pos 0) tt)

  count_with-Answers :
      (application_id odata_filter : Option String) (extra : String)
      → Answers Anything (count_with count application_id odata_filter extra)
  unfolding count_with
  count_with-Answers application_id odata_filter extra = count_or_zero-Answers _ _

  then_count :
      {B : Type 0} (a o : Option String) (extra : String) (f : ℤ → Action S B)
      → ((n : ℤ) → Answers Anything (f n))
      → Answers Anything (count_with count a o extra >>= f)
  then_count a o extra f next =
      Answers-bind Anything Anything (count_with count a o extra) f (count_with-Answers a o extra)
        (λ n p. next n)

  get_issue_counts-Answers :
      (has_credentials : Bool) (a o : Option String)
      → Answers Anything (get_issue_counts count has_credentials a o)
  unfolding get_issue_counts
  get_issue_counts-Answers false a o = Answers-pure Anything zero_counts tt
  get_issue_counts-Answers true a o = then_count a o "" _ λ total.
      then_count a o "Status eq 'Open'" _ λ active. then_count a o "Status eq 'Fixed'" _ λ fixed.
        then_count a o "Severity eq 'Critical'" _ λ critical.
          then_count a o "Severity eq 'High'" _ λ high.
            then_count a o "Severity eq 'Medium'" _ λ medium.
              then_count a o "Severity eq 'Low'" _ λ low.
                then_count a o "Technology eq 'SAST'" _ λ sast.
                  then_count a o "Technology eq 'DAST'" _ λ dast.
                    then_count a o "Technology eq 'SCA'" _ λ sca.
                      then_count a o "Technology eq 'IAST'" _ λ iast. Answers-pure Anything _ tt

  counts_loop-Answers :
      (ids : List String) → Answers (λ rows. map (λ row. row.0) rows ≡ ids) (counts_loop count ids)
  unfolding counts_loop
  counts_loop-Answers [] = Answers-pure (λ rows. map (λ row. row.0) rows ≡ []) [] refl
  counts_loop-Answers (id ∷ ids) =
      Answers-bind Anything _ _ _
        (Answers-recover Anything (get_issue_counts count true (some id) none) (pure zero_counts)
          (λ c. tt) (Answers-pure Anything zero_counts tt))
        λ counts p.
          Answers-bind (λ rows. map (λ row. row.0) rows ≡ ids) _ (counts_loop count ids) _
            (counts_loop-Answers ids)
            λ rest e.
              Answers-pure (λ rows. map (λ row. row.0) rows ≡ id ∷ ids) ((id, counts) ∷ rest)
                (ap (λ (l : List String). id ∷ l) e)

  get_filtered_count-Answers :
      (severity technology status application_id : Option String) (has_credentials : Bool)
      → Answers Anything
          (get_filtered_count count has_credentials severity technology status application_id)
  unfolding get_filtered_count
  get_filtered_count-Answers severity technology status application_id false =
      Answers-pure Anything (pos 0) tt
  get_filtered_count-Answers severity technology status application_id true =
      count_or_zero-Answers _ _

  get_issue_counts_per_app-Answers :
      (has_credentials : Bool) (app_ids : List String)
      → Answers
          (λ rows. map (λ row. row.0) rows ≡ counted_ids has_credentials app_ids)
          (get_issue_counts_per_app count has_credentials app_ids)
  unfolding get_issue_counts_per_app
  get_issue_counts_per_app-Answers false app_ids =
      Answers-pure (λ rows. map (λ row. row.0) rows ≡ []) [] refl
  get_issue_counts_per_app-Answers true app_ids =
      counts_loop-Answers (map strip (keep (λ id. not (strip id == "")) app_ids))

  -- The issue counts are always answered, whatever the client raises: those of one application or of
  -- all, a filtered count, and those of several applications. These are, with credentials, one row for
  -- each id that is not blank, in their order, and without credentials no row.
  pub counts-Answers :
      (application_id odata_filter severity technology status : Option String)
      (has_credentials : Bool) (app_ids : List String)
      → Answers Anything (get_issue_counts count has_credentials application_id odata_filter)
        × Answers Anything
            (get_filtered_count count has_credentials severity technology status application_id)
        × Answers
            (λ rows. map (λ row. row.0) rows ≡ counted_ids has_credentials app_ids)
            (get_issue_counts_per_app count has_credentials app_ids)
  counts-Answers application_id odata_filter severity technology status has_credentials app_ids = (
    get_issue_counts-Answers has_credentials application_id odata_filter,
    get_filtered_count-Answers severity technology status application_id has_credentials,
    get_issue_counts_per_app-Answers has_credentials app_ids,
  )
