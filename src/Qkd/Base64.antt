-- ===== src/Qkd/Base64.antt =====
-- `base64_encode` of crates/ree0xq-qkd/src/emulator/mod.rs.
pub mod RoundTrip
use ree0x_q.Base.{ℕ, zero, suc, ◌+◌, ◌*◌, ◌/◌, ◌%◌, ◌^◌, String, List, [], ◌∷◌}
use Prim.Native.Char.{Char}

abbrev pub alphabet : String
alphabet = "ABCDEFGHIJKLMNOPQRSTUVWXYZabcdefghijklmnopqrstuvwxyz0123456789+/"

abbrev pub char_at : String → ℕ → Char
char_at String.[] i = "A"
char_at (String.◌∷◌ c s) zero = c
char_at (String.◌∷◌ c s) (suc i) = char_at s i

-- `ALPHA[((n >> shift) & 0x3F) as usize]`
unfoldable pub symbol : ℕ → ℕ → Char
symbol n shift = char_at alphabet (n / 2 ^ shift % 64)

-- The three bytes of a group as one number; their digits do not overlap.
abbrev pub group : ℕ → ℕ → ℕ → ℕ
group a b c = a * 2 ^ 16 + b * 2 ^ 8 + c

unfoldable pub base64_encode : List ℕ → String
unfolding symbol
base64_encode (a ∷ b ∷ c ∷ rest) =
    let n = group a b c in
    String.◌∷◌ (symbol n 18) (
      String.◌∷◌ (symbol n 12)
        (String.◌∷◌ (symbol n 6) (String.◌∷◌ (symbol n 0) (base64_encode rest))))
base64_encode (a ∷ b ∷ []) =
    let n = group a b 0 in
    String.◌∷◌ (symbol n 18)
      (String.◌∷◌ (symbol n 12) (String.◌∷◌ (symbol n 6) (String.◌∷◌ "=" String.[])))
base64_encode (a ∷ []) =
    let n = group a 0 0 in
    String.◌∷◌ (symbol n 18) (String.◌∷◌ (symbol n 12) (String.◌∷◌ "=" (String.◌∷◌ "=" String.[])))
base64_encode [] = String.[]
