-- ===== src/Qkd/Base64/RoundTrip.antt =====
-- Decoding of base64 by RFC 4648, and the round trip of the encoder.
use ree0x_q.Base.{
  ℕ, suc, ◌+◌, ◌-◌, ◌*◌, ◌/◌, ◌%◌, ◌<◌, Bool, true, not, ◌&&◌, String, Option, none, some, List, [],
  ◌∷◌, leb, eqb, if◌then◌else◌,
}
use Prim.Native.Char.{code}

-- The value of a symbol: A-Z, a-z, 0-9, + and /.
unfoldable pub value : ℕ → ℕ
value c =
    if leb 65 c && leb c 90
    then c - 65
    else (if leb 97 c && leb c 122
        then c - 71
        else (if leb 48 c && leb c 57 then c + 4 else (if eqb c 43 then 62 else 63)))

-- Four symbols are three bytes; one or two `=` (61) at the end leave out as many of the bytes.
unfoldable pub decode : List ℕ → Option (List ℕ)
decode [] = some []
decode (p ∷ q ∷ r ∷ s ∷ rest) =
    let tail = decode rest in
    let first = value p * 4 + value q / 16 in
    let second = value q % 16 * 16 + value r / 4 in
    let third = value r % 4 * 64 + value s in
    if eqb r 61
    then some (first ∷ [])
    else (if eqb s 61
        then some (first ∷ second ∷ [])
        else (elim tail [ none ↦ none | some bytes ↦ some (first ∷ second ∷ third ∷ bytes) ]))
decode cs = none

-- Every symbol has the value of its place, and is not the padding.
abbrev valued : ℕ → String → Bool
valued i String.[] = true
valued i (String.◌∷◌ c s) = eqb (value (code c)) i && not (eqb (code c) 61) && valued (suc i) s

abbrev chars : String → ℕ
chars String.[] = 0
chars (String.◌∷◌ c s) = suc (chars s)

abbrev IsByte : ℕ → Type 0
IsByte b = b < 256
