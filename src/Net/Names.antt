-- ===== src/Net/Names.antt =====
-- The IANA tables and `primitives_from_summary` of crates/ree0xq-net/src/tls/mod.rs.
pub mod Coverage
use ree0x_q.Base.{
  ℕ, Bool, String, Option, some, none, List, [], ◌∷◌, ◌++◌, ◌||◌, if◌then◌else◌, starts_with,
  match_code,
}
use ree0x_q.Core.{Primitive}
use ree0x_q.Net.Algos.{
  primitives_from_tls13_ciphersuite, primitives_from_tls12_ciphersuite,
  primitive_from_supported_group, primitive_from_signature_scheme,
}
use ree0x_q.Net.Tls.{HandshakeSummary}

abbrev pub ciphersuite_table : List (ℕ × String)
ciphersuite_table =
    (0x1301, "TLS_AES_128_GCM_SHA256")
    ∷ (0x1302, "TLS_AES_256_GCM_SHA384")
    ∷ (0x1303, "TLS_CHACHA20_POLY1305_SHA256")
    ∷ (0x1304, "TLS_AES_128_CCM_SHA256")
    ∷ (0x1305, "TLS_AES_128_CCM_8_SHA256")
    ∷ (0xc02f, "TLS_ECDHE_RSA_WITH_AES_128_GCM_SHA256")
    ∷ (0xc030, "TLS_ECDHE_RSA_WITH_AES_256_GCM_SHA384")
    ∷ (0xc02b, "TLS_ECDHE_ECDSA_WITH_AES_128_GCM_SHA256")
    ∷ (0xc02c, "TLS_ECDHE_ECDSA_WITH_AES_256_GCM_SHA384")
    ∷ (0xcca8, "TLS_ECDHE_RSA_WITH_CHACHA20_POLY1305_SHA256")
    ∷ (0xcca9, "TLS_ECDHE_ECDSA_WITH_CHACHA20_POLY1305_SHA256")
    ∷ (0xc013, "TLS_ECDHE_RSA_WITH_AES_128_CBC_SHA")
    ∷ (0xc014, "TLS_ECDHE_RSA_WITH_AES_256_CBC_SHA")
    ∷ (0x009c, "TLS_RSA_WITH_AES_128_GCM_SHA256")
    ∷ (0x009d, "TLS_RSA_WITH_AES_256_GCM_SHA384")
    ∷ (0x002f, "TLS_RSA_WITH_AES_128_CBC_SHA")
    ∷ (0x0035, "TLS_RSA_WITH_AES_256_CBC_SHA")
    ∷ (0x000a, "TLS_RSA_WITH_3DES_EDE_CBC_SHA")
    ∷ (0x0005, "TLS_RSA_WITH_RC4_128_SHA")
    ∷ []

unfoldable pub ciphersuite_name : ℕ → Option String
ciphersuite_name code = match_code code ciphersuite_table

abbrev pub named_group_table : List (ℕ × String)
named_group_table =
    (0x0017, "secp256r1")
    ∷ (0x0018, "secp384r1")
    ∷ (0x0019, "secp521r1")
    ∷ (0x001d, "x25519")
    ∷ (0x001e, "x448")
    ∷ (0x0100, "ffdhe2048")
    ∷ (0x0101, "ffdhe3072")
    ∷ (0x0102, "ffdhe4096")
    ∷ (0x11ec, "X25519MLKEM768")
    ∷ (0x11eb, "SecP256r1MLKEM768")
    ∷ (0x11ed, "P384MLKEM1024")
    ∷ (0x0768, "MLKEM768")
    ∷ (0x0769, "MLKEM512")
    ∷ (0x076a, "MLKEM1024")
    ∷ []

unfoldable pub named_group_name : ℕ → Option String
named_group_name code = match_code code named_group_table

abbrev pub signature_scheme_table : List (ℕ × String)
signature_scheme_table =
    (0x0201, "rsa_pkcs1_sha1")
    ∷ (0x0401, "rsa_pkcs1_sha256")
    ∷ (0x0501, "rsa_pkcs1_sha384")
    ∷ (0x0601, "rsa_pkcs1_sha512")
    ∷ (0x0804, "rsa_pss_rsae_sha256")
    ∷ (0x0805, "rsa_pss_rsae_sha384")
    ∷ (0x0806, "rsa_pss_rsae_sha512")
    ∷ (0x0809, "rsa_pss_pss_sha256")
    ∷ (0x080a, "rsa_pss_pss_sha384")
    ∷ (0x080b, "rsa_pss_pss_sha512")
    ∷ (0x0403, "ecdsa_secp256r1_sha256")
    ∷ (0x0503, "ecdsa_secp384r1_sha384")
    ∷ (0x0603, "ecdsa_secp521r1_sha512")
    ∷ (0x0807, "ed25519")
    ∷ (0x0808, "ed448")
    ∷ (0x0904, "mldsa44")
    ∷ (0x0905, "mldsa65")
    ∷ (0x0906, "mldsa87")
    ∷ (0x0910, "slhdsa_sha2_128s")
    ∷ (0x0911, "slhdsa_sha2_256s")
    ∷ []

unfoldable pub signature_scheme_name : ℕ → Option String
signature_scheme_name code = match_code code signature_scheme_table

unfoldable pub is_tls13 : String → Bool
is_tls13 name = starts_with name "TLS_AES_" || starts_with name "TLS_CHACHA20_"

unfoldable pub suite_primitives : String → List Primitive
unfolding is_tls13
suite_primitives name =
    if is_tls13 name
    then primitives_from_tls13_ciphersuite name
    else primitives_from_tls12_ciphersuite name

-- The first loop: it stops at the first suite that has a name.
unfoldable pub first_suite : List ℕ → List Primitive
first_suite [] = []
first_suite (code ∷ codes) = elim (ciphersuite_name code) [
  | none ↦ first_suite codes
  | some name ↦ suite_primitives name
]

-- What one code of the other two loops pushes.
abbrev pub pushed : Option String → (String → Option Primitive) → List Primitive
pushed none resolve = []
pushed (some name) resolve = elim (resolve name) [ none ↦ [] | some p ↦ p ∷ [] ]

unfoldable pub group_primitives : List ℕ → List Primitive
group_primitives [] = []
group_primitives (g ∷ gs) =
    pushed (named_group_name g) primitive_from_supported_group ++ group_primitives gs

unfoldable pub scheme_primitives : List ℕ → List Primitive
scheme_primitives [] = []
scheme_primitives (s ∷ ss) =
    pushed (signature_scheme_name s) primitive_from_signature_scheme ++ scheme_primitives ss

unfoldable pub primitives_from_summary : HandshakeSummary → List Primitive
unfolding first_suite suite_primitives group_primitives scheme_primitives
primitives_from_summary s =
    first_suite s.ciphersuites
    ++ (group_primitives s.supported_groups ++ scheme_primitives s.signature_schemes)
