-- ===== src/Net/Algos.antt =====
-- From wire names to primitives: crates/ree0xq-net/src/algos.rs.
pub mod Laws
use ree0x_q.Base.{
  ℕ, Bool, true, false, not, ◌&&◌, String, Option, some, none, List, [], ◌∷◌, ◌++◌, ◌==◌, string_eq,
  if◌then◌else◌, starts_with, contains, ends_with, match_arm, any_eq, map,
}
use ree0x_q.Core.{
  plain, Json, text, Primitive, PrimitiveRole, kex, sig, encrypt, hash, NistLevel, l1, l3, l5,
}

abbrev tls13_encrypt : List (List String × (String × Option Bool))
tls13_encrypt =
    ("TLS_AES_128_GCM_SHA256" ∷ [], ("AES-128-GCM", some false))
    ∷ ("TLS_AES_256_GCM_SHA384" ∷ [], ("AES-256-GCM", some true))
    ∷ ("TLS_CHACHA20_POLY1305_SHA256" ∷ [], ("ChaCha20-Poly1305", some true))
    ∷ ("TLS_AES_128_CCM_SHA256" ∷ [], ("AES-128-CCM", some false))
    ∷ ("TLS_AES_128_CCM_8_SHA256" ∷ [], ("AES-128-CCM-8", some false))
    ∷ []

-- The trailing hash of a TLS 1.3 name, as primitives.
tls13_hash : String → List Primitive
tls13_hash name =
    if ends_with name "SHA384"
    then plain hash "SHA-384" (some true) ∷ []
    else if ends_with name "SHA256"
    then plain hash "SHA-256" (some true) ∷ []
    else []

unfoldable pub primitives_from_tls13_ciphersuite : String → List Primitive
unfolding tls13_hash
primitives_from_tls13_ciphersuite name = elim (match_arm name tls13_encrypt) [
  | none ↦ []
  | some row ↦ plain encrypt row.0 row.1 ∷ tls13_hash name
]

tls12_kex : String → Option String
tls12_kex name =
    if contains name "_ECDHE_"
    then some "ECDHE"
    else if contains name "_DHE_"
    then some "DHE"
    else if contains name "_ECDH_"
    then some "ECDH"
    else if contains name "_RSA_" && not (contains name "_DHE_") && not (contains name "_ECDHE_")
    then some "RSA-KEX"
    else none

tls12_sig : String → Option String
tls12_sig name =
    if contains name "_ECDSA_"
    then some "ECDSA"
    else if contains name "_RSA_"
    then some "RSA"
    else if contains name "_DSS_"
    then some "DSA"
    else if contains name "_anon_"
    then some "anonymous"
    else none

tls12_encrypt : String → Option (String × Option Bool)
tls12_encrypt name =
    if contains name "_AES_256_GCM"
    then some ("AES-256-GCM", some true)
    else if contains name "_AES_128_GCM"
    then some ("AES-128-GCM", some false)
    else if contains name "_AES_256_CBC"
    then some ("AES-256-CBC", some false)
    else if contains name "_AES_128_CBC"
    then some ("AES-128-CBC", some false)
    else if contains name "_CHACHA20_POLY1305"
    then some ("ChaCha20-Poly1305", some true)
    else if contains name "_3DES_"
    then some ("3DES", some false)
    else if contains name "_RC4_"
    then some ("RC4", some false)
    else if contains name "_NULL_"
    then some ("NULL", some false)
    else none

tls12_hash : String → Option (String × Option Bool)
tls12_hash name =
    if ends_with name "_SHA384"
    then some ("SHA-384", some true)
    else if ends_with name "_SHA256"
    then some ("SHA-256", some true)
    else if ends_with name "_SHA"
    then some ("SHA-1", some false)
    else if ends_with name "_MD5"
    then some ("MD5", some false)
    else none

-- `pq.or(Some(false))`: the raw RSA key exchange and all others alike.
abbrev push_classical : PrimitiveRole → Option String → List Primitive
push_classical role none = []
push_classical role (some algorithm) = plain role algorithm (some false) ∷ []

abbrev push_rated : PrimitiveRole → Option (String × Option Bool) → List Primitive
push_rated role none = []
push_rated role (some row) = plain role row.0 row.1 ∷ []

unfoldable pub primitives_from_tls12_ciphersuite : String → List Primitive
unfolding tls12_kex tls12_sig tls12_encrypt tls12_hash
primitives_from_tls12_ciphersuite name =
    push_classical kex (tls12_kex name)
    ++ (push_classical sig (tls12_sig name)
        ++ (push_rated encrypt (tls12_encrypt name) ++ push_rated hash (tls12_hash name)))

-- An algorithm, whether it resists, and its NIST level.
abbrev pub Row : Type 0
Row = String × Option Bool × Option NistLevel

abbrev classical_row : List String → String → List String × Row
classical_row names algorithm = (names, (algorithm, some false, none))

abbrev resistant_row : List String → String → NistLevel → List String × Row
resistant_row names algorithm level = (names, (algorithm, some true, some level))

abbrev pub group_arms : List (List String × Row)
group_arms =
    classical_row ("secp256r1" ∷ "P-256" ∷ "prime256v1" ∷ []) "ECDHE-P256"
    ∷ classical_row ("secp384r1" ∷ "P-384" ∷ []) "ECDHE-P384"
    ∷ classical_row ("secp521r1" ∷ "P-521" ∷ []) "ECDHE-P521"
    ∷ classical_row ("x25519" ∷ "X25519" ∷ []) "X25519"
    ∷ classical_row ("x448" ∷ "X448" ∷ []) "X448"
    ∷ classical_row ("ffdhe2048" ∷ []) "DHE-2048"
    ∷ classical_row ("ffdhe3072" ∷ []) "DHE-3072"
    ∷ classical_row ("ffdhe4096" ∷ []) "DHE-4096"
    ∷ resistant_row ("MLKEM512" ∷ "mlkem512" ∷ "ML-KEM-512" ∷ []) "ML-KEM-512" l1
    ∷ resistant_row ("MLKEM768" ∷ "mlkem768" ∷ "ML-KEM-768" ∷ []) "ML-KEM-768" l3
    ∷ resistant_row ("MLKEM1024" ∷ "mlkem1024" ∷ "ML-KEM-1024" ∷ []) "ML-KEM-1024" l5
    ∷ resistant_row ("X25519MLKEM768" ∷ "x25519mlkem768" ∷ "X25519Kyber768Draft00" ∷ [])
        "X25519+ML-KEM-768" l3
    ∷ resistant_row ("SecP256r1MLKEM768" ∷ "secp256r1mlkem768" ∷ []) "ECDHE-P256+ML-KEM-768" l3
    ∷ resistant_row ("P384MLKEM1024" ∷ "secp384r1mlkem1024" ∷ []) "ECDHE-P384+ML-KEM-1024" l5
    ∷ []

-- The primitive of a row, with the wire name as its one parameter.
abbrev pub named : PrimitiveRole → String → String → Row → Primitive
named role key name row = record {
  role = role;
  algorithm = row.0;
  parameters = (key, text name) ∷ [];
  pq_resistant = row.1;
  nist_classification = row.2;
}

unfoldable pub primitive_from_supported_group : String → Option Primitive
primitive_from_supported_group name = elim (match_arm name group_arms) [
  | none ↦ none
  | some row ↦ some (named kex "named_group" name row)
]

abbrev pub scheme_arms : List (List String × Row)
scheme_arms =
    classical_row ("rsa_pss_rsae_sha256" ∷ "rsa_pss_pss_sha256" ∷ []) "RSA-PSS-SHA256"
    ∷ classical_row ("rsa_pss_rsae_sha384" ∷ "rsa_pss_pss_sha384" ∷ []) "RSA-PSS-SHA384"
    ∷ classical_row ("rsa_pss_rsae_sha512" ∷ "rsa_pss_pss_sha512" ∷ []) "RSA-PSS-SHA512"
    ∷ classical_row ("rsa_pkcs1_sha1" ∷ []) "RSA-PKCS1-SHA1"
    ∷ classical_row ("rsa_pkcs1_sha256" ∷ []) "RSA-PKCS1-SHA256"
    ∷ classical_row ("rsa_pkcs1_sha384" ∷ []) "RSA-PKCS1-SHA384"
    ∷ classical_row ("rsa_pkcs1_sha512" ∷ []) "RSA-PKCS1-SHA512"
    ∷ classical_row ("ecdsa_secp256r1_sha256" ∷ []) "ECDSA-P256"
    ∷ classical_row ("ecdsa_secp384r1_sha384" ∷ []) "ECDSA-P384"
    ∷ classical_row ("ecdsa_secp521r1_sha512" ∷ []) "ECDSA-P521"
    ∷ classical_row ("ed25519" ∷ []) "Ed25519"
    ∷ classical_row ("ed448" ∷ []) "Ed448"
    ∷ resistant_row ("mldsa44" ∷ "ML-DSA-44" ∷ "dilithium2" ∷ []) "ML-DSA-44" l1
    ∷ resistant_row ("mldsa65" ∷ "ML-DSA-65" ∷ "dilithium3" ∷ []) "ML-DSA-65" l3
    ∷ resistant_row ("mldsa87" ∷ "ML-DSA-87" ∷ "dilithium5" ∷ []) "ML-DSA-87" l5
    ∷ resistant_row ("slhdsa_sha2_128s" ∷ "SLH-DSA-SHA2-128S" ∷ "sphincs_sha2_128s" ∷ [])
        "SLH-DSA-SHA2-128s" l1
    ∷ resistant_row ("slhdsa_sha2_256s" ∷ "SLH-DSA-SHA2-256S" ∷ []) "SLH-DSA-SHA2-256s" l5
    ∷ classical_row ("sha1_dsa" ∷ "dsa_sha1" ∷ []) "DSA-SHA1"
    ∷ []

unfoldable pub primitive_from_signature_scheme : String → Option Primitive
primitive_from_signature_scheme name = elim (match_arm name scheme_arms) [
  | none ↦ none
  | some row ↦ some (record (named sig "" name row) { parameters = [] })
]
