-- ===== src/Base/Trim.antt =====
-- Trimming, letter case and prefixes of text.
use Prim.Native.Char.{Char, code}
use Prim.Native.Nat.{ℕ, ◌+◌, ◌-◌}
use Prim.Native.String.{String}
use mathlib.Core.Bool.{Bool, true, false, ◌&&◌, ◌||◌}
use mathlib.Core.List.{List, [], ◌∷◌}
use mathlib.Core.Option.{Option, none, some}
use ree0x_q.Base.Tests.{leb, eqb, if◌then◌else◌}
use ree0x_q.Base.Text.{codes, is_whitespace}
use ree0x_q.Base.Lists.{All}
use ree0x_q.Base.Split.{Bool-cases}
use mathlib.Core.Logic.{inl, inr}
use mathlib.Core.Path.{◌≡◌, subst}
use native.Mathlib.Omega.{arith}

abbrev pub trim_start_by : (ℕ → Bool) → String → String
trim_start_by p String.[] = String.[]
trim_start_by p (String.◌∷◌ c s) = if p (code c) then trim_start_by p s else String.◌∷◌ c s

abbrev pub cons_unless_end : (ℕ → Bool) → Char → String → String
cons_unless_end p c String.[] = if p (code c) then String.[] else String.◌∷◌ c String.[]
cons_unless_end p c (String.◌∷◌ d rest) = String.◌∷◌ c (String.◌∷◌ d rest)

-- `trim_end_matches`
abbrev pub trim_end_by : (ℕ → Bool) → String → String
trim_end_by p String.[] = String.[]
trim_end_by p (String.◌∷◌ c s) = cons_unless_end p c (trim_end_by p s)

-- `str::trim`
abbrev pub trim : String → String
trim s = trim_end_by is_whitespace (trim_start_by is_whitespace s)

-- `to_ascii_lowercase` and `to_ascii_uppercase`, on code points.
abbrev pub lower_code : ℕ → ℕ
lower_code c = if leb 65 c && leb c 90 then c + 32 else c

abbrev pub upper_code : ℕ → ℕ
upper_code c = if leb 97 c && leb c 122 then c - 32 else c

abbrev pub same_codes : List ℕ → List ℕ → Bool
same_codes [] [] = true
same_codes [] (d ∷ ds) = false
same_codes (c ∷ cs) [] = false
same_codes (c ∷ cs) (d ∷ ds) = eqb c d && same_codes cs ds

abbrev pub all_codes : (ℕ → Bool) → List ℕ → Bool
all_codes p [] = true
all_codes p (c ∷ cs) = p c && all_codes p cs

-- `char::is_ascii_hexdigit`
abbrev pub is_hexdigit : ℕ → Bool
is_hexdigit c = (leb 48 c && leb c 57) || (leb 65 c && leb c 70) || (leb 97 c && leb c 102)

-- A Rust `match` on a text given by its code points: the first arm that lists it.
abbrev pub any_codes : List ℕ → List String → Bool
any_codes name [] = false
any_codes name (x ∷ xs) = same_codes name (codes x) || any_codes name xs

abbrev pub match_text {ℓ} : {A : Type ℓ} → List ℕ → List (List String × A) → Option A
match_text name [] = none
match_text name ((names, a) ∷ arms) = if any_codes name names then some a else match_text name arms

pub match_text-All {ℓ κ} :
    {A : Type ℓ} (P : A → Type κ) (name : List ℕ) (arms : List (List String × A)) {a : A}
    → All (λ arm. P arm.1) arms
    → match_text name arms ≡ some a
    → P a
match_text-All P name [] h e = absurd (ground arith)
match_text-All P name ((names, b) ∷ arms) {a} h e = elim (Bool-cases (any_codes name names)) [
  | inl hit ↦ let same : b ≡ a = ground arith in subst P same h.0
  | inr miss ↦ match_text-All P name arms h.1 (rw miss at e)
]
