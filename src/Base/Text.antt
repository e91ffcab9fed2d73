-- ===== src/Base/Text.antt =====
-- Text as code points, for the code that searches inside names. Every literal of the model is
-- ASCII, so code points are bytes.
use Prim.Native.Char.{code}
use Prim.Native.Nat.{ℕ, ◌+◌, ◌/◌, ◌%◌}
use Prim.Native.String.{String}
use mathlib.Core.Bool.{Bool, true, false, ◌&&◌, ◌||◌}
use mathlib.Core.List.{List, [], ◌∷◌, ◌++◌, reverse}
use mathlib.Core.Option.{Option, none, some}
use mathlib.Core.Path.{◌≡◌, subst}
use mathlib.Core.Logic.{inl, inr}
use native.Mathlib.Omega.{arith}
use ree0x_q.Base.Lists.{All}
use ree0x_q.Base.Split.{Bool-cases}
use ree0x_q.Base.Tests.{eqb, leb, ltb, if◌then◌else◌, ◌==◌, string_eq}

abbrev pub codes : String → List ℕ
codes String.[] = []
codes (String.◌∷◌ c s) = code c ∷ codes s

-- `xs.starts_with(ys)`
abbrev pub begins : List ℕ → List ℕ → Bool
begins xs [] = true
begins [] (y ∷ ys) = false
begins (x ∷ xs) (y ∷ ys) = eqb x y && begins xs ys

abbrev pub occurs : List ℕ → List ℕ → Bool
occurs [] ys = begins [] ys
occurs (x ∷ xs) ys = begins (x ∷ xs) ys || occurs xs ys

-- `name.starts_with(part)`
abbrev pub starts_with : String → String → Bool
starts_with name part = begins (codes name) (codes part)

-- `name.contains(part)`
abbrev pub contains : String → String → Bool
contains name part = occurs (codes name) (codes part)

-- `name.ends_with(part)`
abbrev pub ends_with : String → String → Bool
ends_with name part = begins (reverse (codes name)) (reverse (codes part))

-- A Rust `match` on a text: the first arm that lists it.
abbrev pub any_eq : String → List String → Bool
any_eq name [] = false
any_eq name (x ∷ xs) = name == x || any_eq name xs

abbrev pub match_arm {ℓ} : {A : Type ℓ} → String → List (List String × A) → Option A
match_arm name [] = none
match_arm name ((names, a) ∷ arms) = if any_eq name names then some a else match_arm name arms

-- A Rust `match` on a number: the first arm with that number.
abbrev pub match_code {ℓ} : {A : Type ℓ} → ℕ → List (ℕ × A) → Option A
match_code n [] = none
match_code n ((m, a) ∷ arms) = if eqb n m then some a else match_code n arms

-- What holds of every arm holds of the arm that matches.
pub match_arm-All {ℓ} :
    {A : Type ℓ} (P : A → Type 0) (name : String) (arms : List (List String × A)) {a : A}
    → All (λ arm. P arm.1) arms
    → match_arm name arms ≡ some a
    → P a
match_arm-All P name [] h e = absurd (ground arith)
match_arm-All P name ((names, b) ∷ arms) {a} h e = elim (Bool-cases (any_eq name names)) [
  | inl hit ↦ let same : b ≡ a = ground arith in subst P same h.0
  | inr miss ↦ match_arm-All P name arms h.1 (rw miss at e)
]

pub match_code-All {ℓ} :
    {A : Type ℓ} (P : A → Type 0) (n : ℕ) (arms : List (ℕ × A)) {a : A}
    → All (λ arm. P arm.1) arms
    → match_code n arms ≡ some a
    → P a
match_code-All P n [] h e = absurd (ground arith)
match_code-All P n ((m, b) ∷ arms) {a} h e = elim (Bool-cases (eqb n m)) [
  | inl hit ↦ let same : b ≡ a = ground arith in subst P same h.0
  | inr miss ↦ match_code-All P n arms h.1 (rw miss at e)
]

-- The UTF-8 encoding of a code point.
abbrev pub utf8 : ℕ → List ℕ
utf8 c =
    if ltb c 128
    then c ∷ []
    else (if ltb c 2_048
        then (192 + c / 64) ∷ (128 + c % 64) ∷ []
        else (if ltb c 65_536
            then (224 + c / 4_096) ∷ (128 + c / 64 % 64) ∷ (128 + c % 64) ∷ []
            else (240 + c / 262_144)
              ∷ (128 + c / 4_096 % 64)
              ∷ (128 + c / 64 % 64)
              ∷ (128 + c % 64)
              ∷ []))

abbrev pub encode : List ℕ → List ℕ
encode [] = []
encode (c ∷ cs) = utf8 c ++ encode cs

abbrev pub as_bytes : String → List ℕ
as_bytes s = encode (codes s)

-- `char::is_whitespace`
abbrev pub is_whitespace : ℕ → Bool
is_whitespace c =
    (leb 9 c && leb c 13)
    || eqb c 32
    || eqb c 133
    || eqb c 160
    || eqb c 5_760
    || (leb 8_192 c && leb c 8_202)
    || eqb c 8_232
    || eqb c 8_233
    || eqb c 8_239
    || eqb c 8_287
    || eqb c 12_288

abbrev pub all_whitespace : List ℕ → Bool
all_whitespace [] = true
all_whitespace (c ∷ cs) = is_whitespace c && all_whitespace cs

-- `s.trim().is_empty()`
abbrev pub is_blank : String → Bool
is_blank s = all_whitespace (codes s)
