-- ===== src/Json.antt =====
-- JSON values as Python holds them, with the `dict` and `str` operations that the source uses on them.
-- A float is kept as the text that Python prints for it.
use app_scan_custom_dashboar.Base.{
  ℕ, String, ◌<>◌, ◌≡◌, refl, Bool, true, false, ◌&&◌, ◌||◌, not, Option, none, some, List, [], ◌∷◌,
  ◌==◌, eqb, ltb, if◌then◌else◌, contains, ℤ, pos, negsuc, decimal, decimal_ℤ, arith, eq_iff, ◌/◌,
  ◌%◌,
}
use Prim.Native.Char.{Char, code}

mutual
  pub data Value : Type 0 where
    null : Value
    bool : Bool → Value
    int : ℤ → Value
    float : String → Value
    text : String → Value
    arr : Items → Value
    obj : Fields → Value

  pub data Fields : Type 0 where
    end : Fields
    field : String → Value → Fields → Fields

  pub data Items : Type 0 where
    nil : Items
    cons : Value → Items → Items

hex_digit : ℕ → String
hex_digit n =
    if ltb n 10
    then decimal n
    else if eqb n 10
    then "a"
    else if eqb n 11
    then "b"
    else if eqb n 12
    then "c"
    else if eqb n 13
    then "d"
    else if eqb n 14
    then "e"
    else "f"

-- One character of `repr` of an ASCII text, between quotes `q`.
escape : ℕ → Char → String
unfolding hex_digit
escape q c =
    let n = code c in
    if eqb n 92 || eqb n q
    then String.◌∷◌ (Char.char 92 tt) (String.◌∷◌ c "")
    else if eqb n 10
    then "\\n"
    else if eqb n 13
    then "\\r"
    else if eqb n 9
    then "\\t"
    else if ltb n 32 || eqb n 127
    then "\\x" <> hex_digit (n / 16) <> hex_digit (n % 16)
    else String.◌∷◌ c ""

escape_all : ℕ → String → String
unfolding escape
escape_all q String.[] = ""
escape_all q (String.◌∷◌ c s) = escape q c <> escape_all q s

unfoldable pub repr_text : String → String
unfolding escape_all
repr_text s =
    if contains s "'" && not (contains s "\"")
    then "\"" <> escape_all 34 s <> "\""
    else "'" <> escape_all 39 s <> "'"

mutual
  unfolding repr_text

  repr : Value → String
  repr null = "None"
  repr (bool b) = if b then "True" else "False"
  repr (int i) = decimal_ℤ i
  repr (float t) = t
  repr (text t) = repr_text t
  repr (arr vs) = "[" <> repr_items vs <> "]"
  repr (obj fs) = "{" <> repr_fields fs <> "}"

  repr_items : Items → String
  repr_items nil = ""
  repr_items (cons v nil) = repr v
  repr_items (cons v (cons w vs)) = repr v <> ", " <> repr_items (cons w vs)

  repr_fields : Fields → String
  repr_fields end = ""
  repr_fields (field k v end) = repr_text k <> ": " <> repr v
  repr_fields (field k v (field j w fs)) =
      repr_text k <> ": " <> repr v <> ", " <> repr_fields (field j w fs)

-- `str(v)`.
unfoldable pub str : Value → String
unfolding repr repr_items repr_fields
str (text t) = t
str (arr vs) = repr (arr vs)
str v = repr v

-- `k in d` and `d[k]`.
unfoldable pub find : String → Fields → Option Value
find k end = none
find k (field j v fs) = let rest = find k fs in if j == k then some v else rest

-- `d.get(k)`: `None` where the key is missing.
unfoldable pub get : String → Fields → Value
unfolding find
get k fs = elim (find k fs) [ none ↦ null | some v ↦ v ]

-- `d.get(k, default)`.
unfoldable pub get_or : String → Value → Fields → Value
unfolding find
get_or k default fs = elim (find k fs) [ none ↦ default | some v ↦ v ]

-- `d[k] = v`.
unfoldable pub put : String → Value → Fields → Fields
put k v end = field k v end
put k v (field j w fs) = let rest = put k v fs in if j == k then field j v fs else field j w rest

-- `bool(d)`.
abbrev pub has_fields : Fields → Bool
has_fields end = false
has_fields (field k v fs) = true

-- The elements of a JSON list, and a list of texts as a JSON list.
abbrev pub elements : Items → List Value
elements nil = []
elements (cons v vs) = v ∷ elements vs

abbrev pub text_items : List String → Items
text_items [] = nil
text_items (t ∷ ts) = cons (text t) (text_items ts)

pub find-put :
    (k j : String) (v : Value) (fs : Fields)
    → find j (put k v fs) ≡ (if k == j then some v else find j fs)
unfolding find put
find-put k j v end = refl
find-put k j v (field i w fs) =
    ground (arith, eq_iff k j, eq_iff i k, eq_iff i j, find-put k j v fs)

printed :
    (str (arr (cons (text "it's") (cons (int (negsuc 11)) nil))) ≡ "[\"it's\", -12]")
    × (str (obj (field "a" null (field "b" (bool true) end))) ≡ "{'a': None, 'b': True}")
unfolding str decimal_ℤ contains
printed = (refl, refl)

-- `bool(v)`; Python prints a float that is zero as 0.0 or -0.0.
unfoldable pub truthy : Value → Bool
truthy null = false
truthy (bool b) = b
truthy (int (pos n)) = not (eqb n 0)
truthy (int (negsuc n)) = true
truthy (float t) = not (t == "0.0" || t == "-0.0")
truthy (text t) = not (t == "")
truthy (arr nil) = false
truthy (arr (cons v vs)) = true
truthy (obj end) = false
truthy (obj (field k v fs)) = true

-- `d.get(k1) or d.get(k2) or …`: the first value that is true, else the last one.
unfoldable pub first_truthy : List String → Fields → Value
unfolding truthy get
first_truthy [] d = null
first_truthy (k ∷ []) d = get k d
first_truthy (k ∷ j ∷ ks) d =
    let rest = first_truthy (j ∷ ks) d in if truthy (get k d) then get k d else rest

-- `str(v or default)`.
unfoldable pub or_text : String → Value → String
unfolding truthy str
or_text default v = if truthy v then str v else default

-- `str(d.get(k) or default)`.
unfoldable pub text_or : String → String → Fields → String
unfolding or_text get
text_or k default d = or_text default (get k d)

-- `str(d.get(k, ""))`.
unfoldable pub text_at : String → Fields → String
unfolding str get_or
text_at k d = str (get_or k (text "") d)
