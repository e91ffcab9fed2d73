-- ===== src/Agility/Compat.antt =====
-- The compatibility matrix: crates/ree0xq-agility/src/compat.rs.
pub mod Lookup
use ree0x_q.Base.{
  ℕ, Bool, true, false, ◌&&◌, String, Option, none, some, List, [], ◌∷◌, map, codes, lower_code,
  same_codes, if◌then◌else◌,
}
use ree0x_q.Base.Dict
use mathlib.Core.Option
use ree0x_q.Agility.CompatKey.{CompatKey, compat_key_eq}

pub data SupportStatus : Type 0 where
  supported experimental not_implemented unknown : SupportStatus

pub record CompatEntry : Type 0 where
  pub stack : String
  pub algorithm : String
  pub status : SupportStatus
  pub min_version : Option String
  pub source : Option String

abbrev pub lower_codes : String → List ℕ
lower_codes s = map lower_code (codes s)

-- The key of a pair of names, in lower case.
abbrev pub key : String → String → CompatKey
key stack algorithm = record { stack = lower_codes stack; algorithm = lower_codes algorithm }

abbrev pub Matrix : Type 0
Matrix = List (CompatKey × CompatEntry)

-- The entries in the order in which they are added.
abbrev pub entries : List CompatEntry
entries =
    (record {
      stack = "openssl-3.x";
      algorithm = "ML-KEM-768";
      status = supported;
      min_version = some "3.4.0";
      source = some "https://github.com/openssl/openssl/blob/master/NEWS.md";
    })
    ∷ (record {
      stack = "openssl-3.x";
      algorithm = "X25519MLKEM768";
      status = supported;
      min_version = some "3.4.0";
      source = some "https://github.com/openssl/openssl/blob/master/NEWS.md";
    })
    ∷ (record {
      stack = "openssl-3.x";
      algorithm = "ML-DSA-65";
      status = experimental;
      min_version = some "3.5.0";
      source = some "https://github.com/open-quantum-safe/oqs-provider";
    })
    ∷ (record {
      stack = "openssl-3.x";
      algorithm = "SLH-DSA-SHA2-128s";
      status = experimental;
      min_version = some "3.5.0";
      source = some "https://github.com/open-quantum-safe/oqs-provider";
    })
    ∷ (record {
      stack = "boringssl";
      algorithm = "X25519MLKEM768";
      status = supported;
      min_version = none;
      source = some "https://chromestatus.com/feature/5119878464176128";
    })
    ∷ (record {
      stack = "boringssl";
      algorithm = "ML-DSA-65";
      status = not_implemented;
      min_version = none;
      source =
          some
            "https://boringssl.googlesource.com/boringssl/+/refs/heads/main/include/openssl/experimental";
    })
    ∷ (record {
      stack = "rustls-post-quantum";
      algorithm = "X25519MLKEM768";
      status = supported;
      min_version = some "0.2.0";
      source = some "https://crates.io/crates/rustls-post-quantum";
    })
    ∷ (record {
      stack = "rustls-post-quantum";
      algorithm = "ML-DSA-65";
      status = not_implemented;
      min_version = none;
      source = none;
    })
    ∷ (record {
      stack = "go-crypto-tls";
      algorithm = "X25519MLKEM768";
      status = supported;
      min_version = some "1.24";
      source = some "https://go.dev/doc/go1.24";
    })
    ∷ (record {
      stack = "go-crypto-tls";
      algorithm = "ML-DSA-65";
      status = not_implemented;
      min_version = none;
      source = none;
    })
    ∷ (record {
      stack = "bouncycastle";
      algorithm = "ML-DSA-65";
      status = supported;
      min_version = some "1.78";
      source = some "https://www.bouncycastle.org/releasenotes.html";
    })
    ∷ (record {
      stack = "bouncycastle";
      algorithm = "SLH-DSA-SHA2-128s";
      status = supported;
      min_version = some "1.78";
      source = some "https://www.bouncycastle.org/releasenotes.html";
    })
    ∷ (record {
      stack = "bouncycastle";
      algorithm = "ML-KEM-768";
      status = supported;
      min_version = some "1.78";
      source = some "https://www.bouncycastle.org/releasenotes.html";
    })
    ∷ (record {
      stack = "nss";
      algorithm = "X25519MLKEM768";
      status = supported;
      min_version = some "3.95";
      source = some "https://firefox-source-docs.mozilla.org/security/nss/releases/index.html";
    })
    ∷ (record {
      stack = "nss";
      algorithm = "ML-DSA-65";
      status = not_implemented;
      min_version = none;
      source = none;
    })
    ∷ []

abbrev pub add_all : Matrix → List CompatEntry → Matrix
add_all m [] = m
add_all m (e ∷ es) = add_all (Dict.insert (key e.stack e.algorithm) e m) es

unfoldable pub build_matrix : Matrix
build_matrix = add_all [] entries

unfoldable pub lookup : String → String → Option CompatEntry
unfolding build_matrix
lookup stack algorithm = Dict.lookup (key stack algorithm) build_matrix

abbrev pub status_or_unknown : Option CompatEntry → SupportStatus
status_or_unknown none = unknown
status_or_unknown (some e) = e.status

unfoldable pub stack_supports : String → String → SupportStatus
unfolding build_matrix
stack_supports stack algorithm = status_or_unknown (Dict.lookup (key stack algorithm) build_matrix)

-- The entries whose key has the stack.
abbrev pub with_stack : List ℕ → Matrix → List CompatEntry
with_stack stack [] = []
with_stack stack ((k, e) ∷ m) =
    if same_codes k.stack stack then e ∷ with_stack stack m else with_stack stack m

unfoldable pub list_stack : String → List CompatEntry
unfolding build_matrix
list_stack stack = with_stack (lower_codes stack) build_matrix
