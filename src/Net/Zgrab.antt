-- ===== src/Net/Zgrab.antt =====
-- Records of the zgrab2 scanner: crates/ree0xq-net/src/zgrab/mod.rs, and `build_tls_event` of src/lib.rs. The
-- JSON text is parsed already.
pub mod Agreement
use ree0x_q.Base.{
  ℕ, Bool, true, false, not, ◌||◌, String, Option, none, some, List, [], ◌∷◌, ◌++◌, map, length,
  codes, eqb, starts_with, string_eq, ◌==◌, if◌then◌else◌, as_bytes, text_append, padded, show,
  upper_code, match_text,
}
use ree0x_q.Core.{
  DateTime, Json, JsonObject, null, bool, number, text, array, object, end, field, Primitive, plain,
  sig, CryptoInventoryEvent, tls_session, schema_version, schema_minor,
}
use ree0x_q.Net.Algos.{
  primitives_from_tls13_ciphersuite, primitives_from_tls12_ciphersuite,
  primitive_from_supported_group,
}
use ree0x_q.Net.Live.{fnv, joined}

pub record NamedValue : Type 0 where
  pub name : Option String
  pub value : Option ℕ
  pub hex : Option String

pub record CertParsed : Type 0 where
  pub signature_algorithm : Option NamedValue

pub record Certificate : Type 0 where
  pub parsed : Option CertParsed

pub record ServerCertificates : Type 0 where
  pub certificate : Option Certificate

pub record ServerHello : Type 0 where
  pub version : Option NamedValue
  pub cipher_suite : Option NamedValue
  pub selected_group : Option Json

pub record HandshakeLog : Type 0 where
  pub server_hello : Option ServerHello
  pub server_certificates : Option ServerCertificates

pub record TlsResult : Type 0 where
  pub handshake_log : Option HandshakeLog

pub record TlsSection : Type 0 where
  pub result : Option TlsResult

pub record ZgrabData : Type 0 where
  pub tls : Option TlsSection

pub record ZgrabRecord : Type 0 where
  pub domain : Option String
  pub ip : Option String
  pub scan_data : ZgrabData

-- `if let Some(x) = …` in a row.
abbrev pub and_then {ℓ κ} : {A : Type ℓ} {B : Type κ} → Option A → (A → Option B) → Option B
and_then none f = none
and_then (some a) f = f a

abbrev pub list_of {ℓ} : {A : Type ℓ} → Option A → List A
list_of none = []
list_of (some a) = a ∷ []

-- The characters beyond ASCII whose capitals are ASCII letters: a sharp s (223) gives SS, a dotless i (305) I, a
-- long s (383) S, and the ligatures from 64256 on give FF, FI, FL, FFI, FFL, ST and ST. Every other
-- character beyond ASCII keeps one beyond ASCII in its capitals, and no name below has one.
abbrev pub special_capitals : List (ℕ × List ℕ)
special_capitals =
    (223, 83 ∷ 83 ∷ [])
    ∷ (305, 73 ∷ [])
    ∷ (383, 83 ∷ [])
    ∷ (64_256, 70 ∷ 70 ∷ [])
    ∷ (64_257, 70 ∷ 73 ∷ [])
    ∷ (64_258, 70 ∷ 76 ∷ [])
    ∷ (64_259, 70 ∷ 70 ∷ 73 ∷ [])
    ∷ (64_260, 70 ∷ 70 ∷ 76 ∷ [])
    ∷ (64_261, 83 ∷ 84 ∷ [])
    ∷ (64_262, 83 ∷ 84 ∷ [])
    ∷ []

abbrev pub capital_in : ℕ → List (ℕ × List ℕ) → List ℕ
capital_in c [] = upper_code c ∷ []
capital_in c ((special, capitals) ∷ rest) = if eqb c special then capitals else capital_in c rest

-- `to_uppercase`
abbrev pub capitals : List ℕ → List ℕ
capitals [] = []
capitals (c ∷ cs) = capital_in c special_capitals ++ capitals cs

-- `replace('_', "-")`: 95 becomes 45.
abbrev pub dashed : ℕ → ℕ
dashed c = if eqb c 95 then 45 else c

abbrev pub cert_arms : List (List String × (String × Bool))
cert_arms =
    ("SHA256-RSA" ∷ "SHA-256-RSA" ∷ [], ("RSA-PKCS1-SHA256", false))
    ∷ ("SHA384-RSA" ∷ [], ("RSA-PKCS1-SHA384", false))
    ∷ ("SHA512-RSA" ∷ [], ("RSA-PKCS1-SHA512", false))
    ∷ ("SHA256-RSA-PSS" ∷ [], ("RSA-PSS-SHA256", false))
    ∷ ("SHA384-RSA-PSS" ∷ [], ("RSA-PSS-SHA384", false))
    ∷ ("SHA512-RSA-PSS" ∷ [], ("RSA-PSS-SHA512", false))
    ∷ ("ECDSA-SHA256" ∷ [], ("ECDSA-P256", false))
    ∷ ("ECDSA-SHA384" ∷ [], ("ECDSA-P384", false))
    ∷ ("ECDSA-SHA512" ∷ [], ("ECDSA-P521", false))
    ∷ ("SHA1-RSA" ∷ "SHA-1-RSA" ∷ [], ("RSA-PKCS1-SHA1", false))
    ∷ ("MD5-RSA" ∷ [], ("RSA-MD5", false))
    ∷ ("ED25519" ∷ [], ("Ed25519", false))
    ∷ ("ML-DSA-44" ∷ "MLDSA44" ∷ "DILITHIUM2" ∷ [], ("ML-DSA-44", true))
    ∷ ("ML-DSA-65" ∷ "MLDSA65" ∷ "DILITHIUM3" ∷ [], ("ML-DSA-65", true))
    ∷ ("ML-DSA-87" ∷ "MLDSA87" ∷ "DILITHIUM5" ∷ [], ("ML-DSA-87", true))
    ∷ []

abbrev pub cert_primitive : Option (String × Bool) → Option Primitive
cert_primitive none = none
cert_primitive (some (algorithm, pq)) = some (plain sig algorithm (some pq))

unfoldable pub parse_cert_sig_algorithm : String → Option Primitive
parse_cert_sig_algorithm name =
    cert_primitive (match_text (capitals (map dashed (codes name))) cert_arms)

abbrev pub suite_primitives : String → List Primitive
suite_primitives name =
    if starts_with name "TLS_AES_" || starts_with name "TLS_CHACHA20_"
    then primitives_from_tls13_ciphersuite name
    else primitives_from_tls12_ciphersuite name

abbrev pub named_suite : Option String → List Primitive
named_suite none = []
named_suite (some name) = suite_primitives name

-- `Value::get` of an object.
abbrev pub get_field : String → JsonObject → Option Json
get_field key end = none
get_field key (field k v rest) = if k == key then some v else get_field key rest

abbrev pub text_of : Option Json → String
text_of (some (text s)) = s
text_of v = ""

-- A text, or the `name` of an object; empty for anything else.
abbrev pub group_name : Json → String
group_name (text s) = s
group_name (object o) = text_of (get_field "name" o)
group_name v = ""

abbrev pub group_primitives : String → List Primitive
group_primitives String.[] = []
group_primitives (String.◌∷◌ c s) = list_of (primitive_from_supported_group (String.◌∷◌ c s))

abbrev pub selected_primitives : Option Json → List Primitive
selected_primitives none = []
selected_primitives (some group) = group_primitives (group_name group)

abbrev pub hello_primitives : Option ServerHello → List Primitive
hello_primitives none = []
hello_primitives (some sh) =
    named_suite (and_then sh.cipher_suite (λ cs. cs.name)) ++ selected_primitives sh.selected_group

abbrev pub cert_name : Option ServerCertificates → Option String
cert_name block =
    and_then (and_then (and_then block (λ b. b.certificate)) (λ c. c.parsed))
      (λ p. and_then p.signature_algorithm (λ s. s.name))

unfoldable pub certificate_primitives : Option ServerCertificates → List Primitive
unfolding parse_cert_sig_algorithm
certificate_primitives block = list_of (and_then (cert_name block) parse_cert_sig_algorithm)

unfoldable pub log_primitives : Option HandshakeLog → List Primitive
unfolding certificate_primitives
log_primitives none = []
log_primitives (some hs) =
    hello_primitives hs.server_hello ++ certificate_primitives hs.server_certificates

unfoldable pub primitives_from_zgrab : ZgrabRecord → List Primitive
unfolding log_primitives
primitives_from_zgrab r =
    log_primitives
      (and_then (and_then r.scan_data.tls (λ tls. tls.result)) (λ result. result.handshake_log))

abbrev pub pushed_text : ℕ → Option String → ℕ
pushed_text h none = h
pushed_text h (some s) = fnv h (as_bytes s)

unfoldable pub synthetic_identity : ZgrabRecord → String
synthetic_identity r =
    let h₁ = pushed_text 0xcbf29ce484222325 r.domain in
    let h₂ = fnv h₁ (as_bytes "|") in text_append "zgrab-" (padded 16 16 (pushed_text h₂ r.ip))

abbrev pub tls_rationale : List Primitive → String
tls_rationale [] = "TLS handshake observed but no primitives extracted"
tls_rationale (p ∷ ps) =
    text_append (show (length (p ∷ ps))) (text_append " primitive(s) observed: " (joined (p ∷ ps)))

unfoldable pub build_tls_event : DateTime → String → String → List Primitive → CryptoInventoryEvent
build_tls_event now host identity primitives = record {
  schema_version = schema_version;
  schema_minor = schema_minor;
  source_module = "ree0xq-net";
  observed_at = now;
  asset = record { kind = tls_session; identity = identity; host = some host };
  primitives = primitives;
  channel_protection = none;
  agility = none;
  posture = record {
    score = 50;
    rationale = tls_rationale primitives;
    recommended_replacement = none;
  };
}

abbrev pub host_or_unknown : Option String → Option String → String
host_or_unknown (some domain) ip = domain
host_or_unknown none (some ip) = ip
host_or_unknown none none = "unknown"

unfoldable pub event_from_zgrab : DateTime → ZgrabRecord → CryptoInventoryEvent
unfolding build_tls_event synthetic_identity primitives_from_zgrab
event_from_zgrab now r =
    build_tls_event now (host_or_unknown r.domain r.ip) (synthetic_identity r)
      (primitives_from_zgrab r)
