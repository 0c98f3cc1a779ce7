-- ===== src/Base/Text.antt =====
-- Texts: membership, prefixes, and the `str` methods that the source calls, on ASCII texts.
use Prim.Native.Nat.{ℕ, zero, suc, ◌+◌, ◌-◌, ◌<◌}
use Prim.Native.Char.{Char, code, IsScalar}
use Prim.Native.String.{String, ◌++◌ as append}
use native.Mathlib.Decide.{dec_lt}
use mathlib.Core.Path.{◌≡◌, refl}
use mathlib.Core.Logic.{◌↔◌, ◌⊎◌, inl, inr, dite}
use mathlib.Core.Logic.Or
use mathlib.Core.Bool.{Bool, true, false, ◌&&◌, ◌||◌, false≢true}
use mathlib.Core.List.{List, [], ◌∷◌, Mem, mem-cons, mem-cons_of_mem, not-mem-nil}
use native.Mathlib.Omega.{arith}
use text.Mathlib.Text.{◌==◌}
use text.Mathlib.TextEquality.{eq_iff}
use app_scan_custom_dashboar.Base.Tests.{if◌then◌else◌, leb, eqb, Bool-cases}

-- `s + t`.
infixr 65 ◌<>◌
abbrev pub ◌<>◌ : String → String → String
s <> t = append s t

-- `x in xs`.
unfoldable pub member : String → List String → Bool
member x [] = false
member x (y ∷ ys) = x == y || member x ys

-- A property of one of four texts.
pub one_of_four :
    (P : String → Type 0) (a b c d x : String)
    → member x (a ∷ b ∷ c ∷ d ∷ []) ≡ true
    → P a
    → P b
    → P c
    → P d
    → P x
unfolding member
one_of_four P a b c d x h pa pb pc pd = elim (Bool-cases (x == a)) [
  | inl e ↦ rw ((eq_iff x a).0 e) pa
  | inr not_a ↦ elim (Bool-cases (x == b)) [
    | inl e ↦ rw ((eq_iff x b).0 e) pb
    | inr not_b ↦ elim (Bool-cases (x == c)) [
      | inl e ↦ rw ((eq_iff x c).0 e) pc
      | inr not_c ↦ let e : (x == d) ≡ true = ground arith in rw ((eq_iff x d).0 e) pd
    ]
  ]
]

-- `s.startswith(p)`.
unfoldable pub starts : String → String → Bool
starts s String.[] = true
starts String.[] (String.◌∷◌ d p) = false
starts (String.◌∷◌ c s) (String.◌∷◌ d p) = eqb (code c) (code d) && starts s p

-- `s.startswith(ps)` for a tuple of prefixes.
unfoldable pub starts_any : String → List String → Bool
starts_any s [] = false
starts_any s (p ∷ ps) = starts s p || starts_any s ps

-- `part in s`.
unfoldable pub contains : String → String → Bool
unfolding starts
contains String.[] part = starts String.[] part
contains (String.◌∷◌ c s) part = starts (String.◌∷◌ c s) part || contains s part

-- The first `n` characters, `s[:n]`.
unfoldable pub text_take : ℕ → String → String
text_take zero s = String.[]
text_take (suc n) String.[] = String.[]
text_take (suc n) (String.◌∷◌ c s) = String.◌∷◌ c (text_take n s)

or-true : (a b : Bool) → (a || b) ≡ true → (a ≡ true) ⊎ (b ≡ true)
or-true a b h = ground arith

-- The test decides the library's membership.
pub member_iff : (x : String) (xs : List String) → (member x xs ≡ true) ↔ Mem x xs
unfolding member
member_iff x [] = (λ h. absurd (false≢true h), λ h. absurd (not-mem-nil h))
member_iff x (y ∷ ys) = (
  λ h. elim (or-true (x == y) (member x ys) h) [
    | inl e ↦ mem-cons.1 (Or.inl ((eq_iff x y).0 e))
    | inr e ↦ mem-cons_of_mem y ((member_iff x ys).0 e)
  ],
  λ h.
      Or.elim (hlevel) (mem-cons.0 h) (λ e. ground (arith, eq_iff x y))
        (λ m. let e : member x ys ≡ true = (member_iff x ys).1 m in ground arith),
)

-- `c.lower()` and `c.upper()` of one ASCII character; any other is left alone.
pub IsScalar-small : (n : ℕ) → n < 128 → IsScalar n
IsScalar-small n h = ground arith

char_lower : Char → Char
char_lower c =
    dite (dec_lt 64 (code c))
      (λ above.
        dite (dec_lt (code c) 91)
          (λ h. Char.char (code c + 32) (IsScalar-small (code c + 32) (omega arith))) (λ _. c))
      (λ _. c)

char_upper : Char → Char
char_upper c =
    dite (dec_lt 96 (code c))
      (λ above.
        dite (dec_lt (code c) 123)
          (λ h. Char.char (code c - 32) (IsScalar-small (code c - 32) (omega arith))) (λ _. c))
      (λ _. c)

unfoldable pub lower : String → String
unfolding char_lower dec_lt
lower String.[] = String.[]
lower (String.◌∷◌ c s) = String.◌∷◌ (char_lower c) (lower s)

unfoldable pub upper : String → String
unfolding char_upper dec_lt
upper String.[] = String.[]
upper (String.◌∷◌ c s) = String.◌∷◌ (char_upper c) (upper s)

is_space : Char → Bool
is_space c =
    eqb (code c) 32 || leb 9 (code c) && leb (code c) 13 || leb 28 (code c) && leb (code c) 31

lstrip : String → String
unfolding is_space
lstrip String.[] = String.[]
lstrip (String.◌∷◌ c s) = if is_space c then lstrip s else String.◌∷◌ c s

rstrip_of : (Char → Bool) → String → String
rstrip_of drop String.[] = String.[]
rstrip_of drop (String.◌∷◌ c s) =
    let r = rstrip_of drop s in if r == "" && drop c then "" else String.◌∷◌ c r

-- `s.strip()`.
unfoldable pub strip : String → String
unfolding lstrip rstrip_of
strip s = rstrip_of is_space (lstrip s)

-- `s.rstrip("/")`.
unfoldable pub rstrip_slash : String → String
unfolding rstrip_of
rstrip_slash s = rstrip_of (λ c. eqb (code c) 47) s

texts :
    (strip (lower "  Sev-4\n") ≡ "sev-4")
    × (upper "dast" ≡ "DAST")
    × (contains "xxSCAy" "SCA" ≡ true)
    × (rstrip_slash "a//" ≡ "a")
unfolding strip lower upper contains rstrip_slash
texts = (refl, refl, refl, refl)
