-- ===== src/Id/Algos.antt =====
-- The classification of keys: crates/ree0xq-id/src/algos.rs.
use ree0x_q.Base.{
  ℕ, Bool, true, false, String, Option, none, some, List, [], ◌∷◌, map, codes, leb, text_append,
  show, match_text, upper_code,
}
use ree0x_q.Core.{Primitive, PrimitiveRole, NistLevel, l1, l3, l5, plain, hash, encrypt}
use ree0x_q.Core

abbrev pub name_with_bits : String → Option ℕ → String
name_with_bits name none = name
name_with_bits name (some bits) = text_append name (text_append "-" (show bits))

abbrev pub sig : String → Bool → Option NistLevel → Option ℕ → Primitive
sig name pq level bits = record {
  role = Core.sig;
  algorithm = name_with_bits name bits;
  parameters = [];
  pq_resistant = some pq;
  nist_classification = level;
}

abbrev pub hash_sha : String → Primitive
hash_sha name = plain hash name (some true)

abbrev pub encrypt_with : String → Bool → Primitive
encrypt_with algorithm pq_safe = plain encrypt algorithm (some pq_safe)

-- `key_size_bits.unwrap_or(256)`
abbrev pub aes_bits : Option ℕ → ℕ
aes_bits none = 256
aes_bits (some bits) = bits

abbrev pub curve : String → String → List Primitive
curve name digest = sig name false none none ∷ hash_sha digest ∷ []

-- The arms, by the key type in upper case.
abbrev pub key_arms : Option ℕ → List (List String × List Primitive)
key_arms bits =
    ("RSA" ∷ [], sig "RSA-PKCS1" false none bits ∷ [])
    ∷ ("ECDSA-P256" ∷ "ECC-NIST-P256" ∷ "EC-P256" ∷ [], curve "ECDSA-P256" "SHA-256")
    ∷ ("ECDSA-P384" ∷ "ECC-NIST-P384" ∷ "EC-P384" ∷ [], curve "ECDSA-P384" "SHA-384")
    ∷ ("ECDSA-P521" ∷ "ECC-NIST-P521" ∷ "EC-P521" ∷ [], curve "ECDSA-P521" "SHA-512")
    ∷ ("ECDSA-SECP256K1" ∷ "ECC-SECG-P256K1" ∷ [], curve "ECDSA-secp256k1" "SHA-256")
    ∷ ("ED25519" ∷ [], sig "Ed25519" false none none ∷ [])
    ∷ ("ED448" ∷ [], sig "Ed448" false none none ∷ [])
    ∷ ("ML-DSA-44" ∷ [], sig "ML-DSA-44" true (some l1) none ∷ [])
    ∷ ("ML-DSA-65" ∷ [], sig "ML-DSA-65" true (some l3) none ∷ [])
    ∷ ("ML-DSA-87" ∷ [], sig "ML-DSA-87" true (some l5) none ∷ [])
    ∷ ("SLH-DSA-SHA2-128S" ∷ "SLH-DSA-128S" ∷ [], sig "SLH-DSA-SHA2-128s" true (some l1) none ∷ [])
    ∷ ("SLH-DSA-SHA2-192S" ∷ "SLH-DSA-192S" ∷ [], sig "SLH-DSA-SHA2-192s" true (some l3) none ∷ [])
    ∷ (
      "AES" ∷ [],
      encrypt_with (text_append "AES-" (show (aes_bits bits))) (leb 256 (aes_bits bits)) ∷ [],
    )
    ∷ ("HMAC-SHA256" ∷ "HMAC_SHA_256" ∷ [], hash_sha "SHA-256" ∷ [])
    ∷ ("HMAC-SHA384" ∷ "HMAC_SHA_384" ∷ [], hash_sha "SHA-384" ∷ [])
    ∷ ("HMAC-SHA512" ∷ "HMAC_SHA_512" ∷ [], hash_sha "SHA-512" ∷ [])
    ∷ []

abbrev pub known_or : String → Option (List Primitive) → List Primitive
known_or key_type (some prims) = prims
known_or key_type none = plain Core.sig (text_append "unknown:" key_type) none ∷ []

unfoldable pub primitives_for : String → Option ℕ → List Primitive
primitives_for key_type bits =
    known_or key_type (match_text (map upper_code (codes key_type)) (key_arms bits))
