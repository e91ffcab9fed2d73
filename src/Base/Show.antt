-- ===== src/Base/Show.antt =====
-- Numbers as text.
use Prim.Native.Nat.{ℕ, zero, suc, ◌/◌, ◌%◌}
pub use Prim.Native.String.{◌++◌ as text_append}
use Prim.Native.String.{String}
use mathlib.Core.List.{List, [], ◌∷◌}
use mathlib.Core.Option.{Option, none, some}
use ree0x_q.Base.Tests.{ltb, if◌then◌else◌}
use ree0x_q.Base.Lists.{get_elem?}

-- `format!("{n:x}")` and `to_string`, with one digit for each unit of fuel.
abbrev pub digit_texts : List String
digit_texts =
    "0" ∷ "1" ∷ "2" ∷ "3" ∷ "4" ∷ "5" ∷ "6" ∷ "7" ∷ "8" ∷ "9" ∷ "a" ∷ "b" ∷ "c" ∷ "d" ∷ "e" ∷ "f"
    ∷ []

abbrev pub text_or_empty : Option String → String
text_or_empty none = ""
text_or_empty (some text) = text

abbrev pub digit : ℕ → String
digit n = text_or_empty (get_elem? digit_texts n)

-- The lowest digits, padded with zeros.
abbrev pub padded : ℕ → ℕ → ℕ → String
padded base zero n = ""
padded base (suc width) n = text_append (padded base width (n / base)) (digit (n % base))

abbrev pub decimal : ℕ → ℕ → String
decimal zero n = ""
decimal (suc width) n =
    let rest = decimal width (n / 10) in
    if ltb n 10 then digit n else text_append rest (digit (n % 10))

-- 20 digits are enough for 64 bits.
abbrev pub show : ℕ → String
show n = decimal 20 n
