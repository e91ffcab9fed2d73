-- ===== src/Agility/Recommend.antt =====
-- Replacement recommendations: crates/ree0xq-agility/src/recommend.rs.
pub mod Ranking
use ree0x_q.Base.{
  ℕ, zero, suc, ◌+◌, ◌*◌, ◌-◌, ◌^◌, ◌≤◌, Bool, true, false, not, ◌&&◌, ◌||◌, String, Option, none,
  some, List, [], ◌∷◌, ◌++◌, ltb, leb, eqb, if◌then◌else◌, string_eq, ◌==◌, codes, starts_with,
  sort_by_key,
}
use Prim.Native.String.{◌++◌ as text_append}
use ree0x_q.Core.{Primitive, PrimitiveRole, kex, sig, auth, encrypt, hash}

pub data Cost : Type 0 where
  trivial low medium high : Cost

-- The derived `Ord` compares by the order of the variants.
abbrev pub rank : Cost → ℕ
rank trivial = 0
rank low = 1
rank medium = 2
rank high = 3

pub record Recommendation : Type 0 where
  pub replaces : String
  pub replacement : String
  pub rationale : String
  pub cost : Cost
  pub caveats : List String

-- `s.rsplit('-').next()`: the text behind the last dash (45).
abbrev pub last_part : List ℕ → List ℕ → List ℕ
last_part part [] = part
last_part part (c ∷ cs) = if eqb c 45 then last_part [] cs else last_part (part ++ c ∷ []) cs

-- `str::parse::<u32>`: decimal digits (48 to 57), with an optional `+` (43) before them; too large
-- a number is an error.
abbrev pub parse_digits : ℕ → List ℕ → Option ℕ
parse_digits n [] = some n
parse_digits n (c ∷ cs) =
    let rest = parse_digits (n * 10 + (c - 48)) cs in
    if leb 48 c && leb c 57 && ltb (n * 10 + (c - 48)) (2 ^ 32) then rest else none

abbrev pub parse_unsigned : List ℕ → Option ℕ
parse_unsigned [] = none
parse_unsigned (c ∷ cs) = parse_digits 0 (c ∷ cs)

abbrev pub parse_u32 : List ℕ → Option ℕ
parse_u32 [] = none
parse_u32 (c ∷ cs) = if eqb c 43 then parse_unsigned cs else parse_digits 0 (c ∷ cs)

unfoldable pub parse_trailing_bits : String → Option ℕ
parse_trailing_bits s = parse_u32 (last_part [] (codes s))

pub data RsaLevel : Type 0 where
  rsa_l1 rsa_l3 rsa_l5 : RsaLevel

abbrev pub ml_dsa_id : RsaLevel → String
ml_dsa_id rsa_l1 = "44"
ml_dsa_id rsa_l3 = "65"
ml_dsa_id rsa_l5 = "87"

abbrev pub slh_dsa_size : RsaLevel → String
slh_dsa_size rsa_l1 = "128"
slh_dsa_size rsa_l3 = "192"
slh_dsa_size rsa_l5 = "192"

abbrev pub label : RsaLevel → String
label rsa_l1 = "1 (AES-128)"
label rsa_l3 = "3 (AES-192)"
label rsa_l5 = "5 (AES-256)"

abbrev pub nist_level_for_rsa : Option ℕ → RsaLevel
nist_level_for_rsa none = rsa_l3
nist_level_for_rsa (some b) =
    if leb b 2_048 then rsa_l1 else (if leb b 3_072 then rsa_l3 else rsa_l5)

-- `format!` with one argument between two literals.
abbrev pub between : String → String → String → String
between a b c = text_append a (text_append b c)

abbrev pub is_rsa : String → Bool
is_rsa algo = starts_with algo "RSA-PKCS1" || starts_with algo "RSA-PSS"

abbrev pub is_curve_sig : String → Bool
is_curve_sig algo = starts_with algo "ECDSA-" || algo == "Ed25519" || algo == "Ed448"

-- What `recommend_for_sig` pushes.
unfoldable pub recommend_for_sig : Primitive → List Recommendation
unfolding parse_trailing_bits
recommend_for_sig p =
    let algo = p.algorithm in
    let level = nist_level_for_rsa (parse_trailing_bits algo) in
    if is_rsa algo
    then record {
      replaces = algo;
      replacement = between "ML-DSA-" (ml_dsa_id level) "";
      rationale =
          text_append
            (between "FIPS 204 ML-DSA at NIST level " (label level)
              " matches the classical strength of ")
            algo;
      cost = medium;
      caveats =
          "Cert chain depth grows: ML-DSA signatures are 2-4 KB."
          ∷ "Client TLS stack must support `mldsa` certificate signature." ∷ [];
    }
      ∷ record {
        replaces = algo;
        replacement = between "SLH-DSA-SHA2-" (slh_dsa_size level) "s";
        rationale =
            "FIPS 205 SLH-DSA: hash-based fallback if ML-DSA lattice family proves unstable.";
        cost = high;
        caveats =
            "Signatures are 8-50 KB — non-trivial for TLS handshake size."
            ∷ "Stateless: safe for general-purpose code-signing." ∷ [];
      }
      ∷ []
    else (if is_curve_sig algo
        then record {
          replaces = algo;
          replacement = "ML-DSA-65";
          rationale = "ML-DSA-65 matches the security level of P-256 / Ed25519 with PQ guarantees.";
          cost = medium;
          caveats = "Signature ~3.3 KB vs 64 B for Ed25519 — measure cert-chain depth impact." ∷ [];
        }
          ∷ []
        else (if starts_with algo "Schnorr-secp256k1"
            then record {
              replaces = algo;
              replacement = "FROST-PQ (research)";
              rationale =
                  "Bitcoin Taproot's Schnorr family has no production PQ replacement yet — track BIP / IRTF CFRG work.";
              cost = high;
              caveats =
                  "Consensus-level chain change required; no operator-side migration path." ∷ [];
            }
              ∷ []
            else []))

abbrev pub is_short_aes : String → Bool
is_short_aes algo = algo == "AES-128" || algo == "AES-128-GCM"

abbrev pub is_broken_cipher : String → Bool
is_broken_cipher algo =
    algo == "DES" || algo == "3DES" || starts_with algo "RC4" || algo == "AES-CBC"

-- What `recommend_for_encrypt` pushes.
unfoldable pub recommend_for_encrypt : Primitive → List Recommendation
recommend_for_encrypt p =
    let algo = p.algorithm in
    if is_short_aes algo
    then record {
      replaces = algo;
      replacement = "AES-256";
      rationale =
          "Grover halves the effective key length: AES-128 → 64-bit PQ security; AES-256 → 128-bit.";
      cost = low;
      caveats = "Same cipher family, server-config-only change in most stacks." ∷ [];
    }
      ∷ []
    else (if is_broken_cipher algo
        then record {
          replaces = algo;
          replacement = "AES-256-GCM";
          rationale =
              "Modern AEAD cipher; the classical algorithm is broken or weak by today's standards.";
          cost = low;
          caveats = "Most TLS terminators already support AES-GCM; flip the negotiate-list." ∷ [];
        }
          ∷ []
        else [])

abbrev pub recommend_by_role : PrimitiveRole → Primitive → List Recommendation
recommend_by_role sig p = recommend_for_sig p
recommend_by_role encrypt p = recommend_for_encrypt p
recommend_by_role kex p = []
recommend_by_role auth p = []
recommend_by_role hash p = []

abbrev pub collect : List Primitive → List Recommendation
collect [] = []
collect (p ∷ ps) = recommend_by_role p.role p ++ collect ps

unfoldable pub recommend_for : List Primitive → List Recommendation
recommend_for ps = sort_by_key (λ r. rank r.cost) (collect ps)
