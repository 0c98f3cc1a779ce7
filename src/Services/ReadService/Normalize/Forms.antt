-- ===== src/Services/ReadService/Normalize/Forms.antt =====
-- What the normalisers of backend/app/services/asoc_read_service.py answer, for every item.
use app_scan_custom_dashboar.Base.{
  String, Bool, true, false, List, [], ◌∷◌, ◌≡◌, refl, if◌then◌else◌, member, contains, upper,
  lower, strip,
}
use app_scan_custom_dashboar.Json.{Value, Fields, text, or_text, text_at, get}
use app_scan_custom_dashboar.Services.ReadService.Normalize.{
  normalize_severity, severity_of_text, normalize_issue_technology, technology_of_text,
  normalize_scan_type, type_of_name, extract_native_scan_severity, first, severity_keys,
  latest_text,
}

-- A property of both results of a test.
if-both : (P : String → Type 0) (b : Bool) (x y : String) → P x → P y → P (if b then x else y)
if-both P true x y hx hy = hx
if-both P false x y hx hy = hy

-- A text that is one of a list, and that a normaliser leaves alone.
abbrev pub Fixed : List String → (Value → String) → String → Type 0
Fixed forms normalize t = (member t forms ≡ true) × (normalize (text t) ≡ t)

abbrev pub severities : List String
severities = "critical" ∷ "high" ∷ "medium" ∷ "low" ∷ "unknown" ∷ []

abbrev pub technologies : List String
technologies = "DAST" ∷ "SAST" ∷ "SCA" ∷ "IAST" ∷ "UNKNOWN" ∷ []

abbrev pub scan_types : List String
scan_types = "DAST" ∷ "SAST" ∷ "SCA" ∷ "IAST" ∷ "OTHER" ∷ []

severity_of_text-Fixed : (t : String) → Fixed severities normalize_severity (severity_of_text t)
unfolding severity_of_text normalize_severity member lower strip
severity_of_text-Fixed t =
    if-both (Fixed severities normalize_severity) _ "critical" _ (refl, refl)
      (if-both (Fixed severities normalize_severity) _ "high" _ (refl, refl)
        (if-both (Fixed severities normalize_severity) _ "medium" _ (refl, refl)
          (if-both (Fixed severities normalize_severity) _ "low" "unknown" (refl, refl)
            (refl, refl))))

pub normalize_severity-Fixed :
    (v : Value) → Fixed severities normalize_severity (normalize_severity v)
normalize_severity-Fixed v =
    unfold normalize_severity in severity_of_text-Fixed (lower (strip (or_text "" v)))

technology_of_text-Fixed :
    (t : String) → Fixed technologies normalize_issue_technology (technology_of_text t)
unfolding technology_of_text normalize_issue_technology member upper strip contains
technology_of_text-Fixed t =
    if-both (Fixed technologies normalize_issue_technology) _ "UNKNOWN" _ (refl, refl)
      (if-both (Fixed technologies normalize_issue_technology) _ "DAST" _ (refl, refl)
        (if-both (Fixed technologies normalize_issue_technology) _ "SAST" _ (refl, refl)
          (if-both (Fixed technologies normalize_issue_technology) _ "SCA" _ (refl, refl)
            (if-both (Fixed technologies normalize_issue_technology) _ "IAST" "UNKNOWN" (refl, refl)
              (refl, refl)))))

pub normalize_issue_technology-Fixed :
    (v : Value) → Fixed technologies normalize_issue_technology (normalize_issue_technology v)
normalize_issue_technology-Fixed v =
    unfold normalize_issue_technology in technology_of_text-Fixed (upper (strip (or_text "" v)))

abbrev IsScanType : String → Type 0
IsScanType t = (member t scan_types ≡ true) × (upper t ≡ t)

type_of_name-IsScanType : (t : String) → IsScanType (type_of_name t)
unfolding type_of_name member upper
type_of_name-IsScanType t =
    if-both IsScanType _ "DAST" _ (refl, refl)
      (if-both IsScanType _ "SAST" _ (refl, refl)
        (if-both IsScanType _ "SCA" _ (refl, refl)
          (if-both IsScanType _ "IAST" "OTHER" (refl, refl) (refl, refl))))

pub normalize_scan_type-IsScanType : (item : Fields) → IsScanType (normalize_scan_type item)
unfolding normalize_scan_type member upper
normalize_scan_type-IsScanType item =
    if-both IsScanType _ "DAST" _ (refl, refl)
      (if-both IsScanType _ "SAST" _ (refl, refl)
        (if-both IsScanType _ "SCA" _ (refl, refl)
          (if-both IsScanType _ "IAST" _ (refl, refl)
            (type_of_name-IsScanType (upper (text_at "Name" item))))))

extract_native_scan_severity-Fixed :
    (item : Fields) → Fixed severities normalize_severity (extract_native_scan_severity item)
unfolding extract_native_scan_severity
extract_native_scan_severity-Fixed item =
    normalize_severity-Fixed
      (text (first severity_keys (latest_text severity_keys (get "LatestExecution" item)) item))

-- For every item and every value: the scan type is one of five, in upper case, and the severity and the technology
-- each one of five, the native severity of a scan among them, and to normalise a severity or a
-- technology once more changes nothing.
pub normalize-forms :
    (item : Fields) (v : Value)
    → IsScanType (normalize_scan_type item)
      × Fixed severities normalize_severity (extract_native_scan_severity item)
      × Fixed severities normalize_severity (normalize_severity v)
      × Fixed technologies normalize_issue_technology (normalize_issue_technology v)
normalize-forms item v = (
  normalize_scan_type-IsScanType item,
  extract_native_scan_severity-Fixed item,
  normalize_severity-Fixed v,
  normalize_issue_technology-Fixed v,
)
