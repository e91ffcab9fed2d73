-- ===== src/Cert/X509.antt =====
-- From a certificate to an event: crates/ree0xq-cert/src/cert.rs. The X.509 and PEM readers, the hash and
-- the clock are arguments.
use ree0x_q.Base.{
  ℕ, ◌+◌, Bool, true, false, String, Option, none, some, List, [], ◌∷◌, if◌then◌else◌, string_eq,
  ◌==◌, match_arm, text_append, show,
}
use mathlib.Core.Option
use ree0x_q.Core.{
  DateTime, CryptoInventoryEvent, Primitive, NistLevel, l1, l3, l5, plain, sig, hash, x509_cert,
  schema_version, schema_minor,
}

pub record ParsedCert : Type 0 where
  pub der : List ℕ
  pub source_path : Option String
  pub bundle_index : ℕ

-- One result of the PEM reader before it misses a header, which ends the input.
pub data PemRead : Type 0 where
  block : String → List ℕ → PemRead
  malformed : PemRead

pub data GeneralName : Type 0 where
  dns_name : String → GeneralName
  other_name : GeneralName

-- What the code reads of a certificate. A common name is none where it is no text; the alternative
-- names are none where the extension is absent or malformed; the times are in RFC 3339, if they are
-- in range.
pub record X509Certificate : Type 0 where
  pub signature_algorithm : String
  pub common_names : List (Option String)
  pub alternative_names : Option (List GeneralName)
  pub public_key_byte_len : ℕ
  pub not_before : Option String
  pub not_after : Option String

-- The library calls.
pub record Readers : Type 0 where
  pub pem_reads : List ℕ → List PemRead
  pub from_der : List ℕ → Option X509Certificate
  pub sha256_hex : List ℕ → String
  pub now : DateTime

abbrev pub push_cert : ParsedCert → Option (List ParsedCert) → Option (List ParsedCert)
push_cert cert rest = Option.map (λ certs. cert ∷ certs) rest

-- The loop over the blocks, with the index of the next certificate.
unfoldable pub parse_blocks : Option String → ℕ → List PemRead → Option (List ParsedCert)
parse_blocks path idx [] = some []
parse_blocks path idx (malformed ∷ reads) = none
parse_blocks path idx (block label contents ∷ reads) =
    let is_cert = label == "CERTIFICATE" in
    let rest = parse_blocks path (if is_cert then idx + 1 else idx) reads in
    if is_cert
    then push_cert (record { der = contents; source_path = path; bundle_index = idx }) rest
    else rest

unfoldable pub parse_pem_bundle : Readers → List ℕ → Option String → Option (List ParsedCert)
unfolding parse_blocks
parse_pem_bundle lib pem_bytes source_path = parse_blocks source_path 0 (lib.pem_reads pem_bytes)

abbrev pub first_text : List (Option String) → Option String
first_text [] = none
first_text (cn ∷ cns) = cn

abbrev pub subject_cn : X509Certificate → Option String
subject_cn cert = first_text cert.common_names

abbrev pub first_dns : List GeneralName → Option String
first_dns [] = none
first_dns (dns_name n ∷ names) = some n
first_dns (other_name ∷ names) = first_dns names

abbrev pub dns_of : Option (List GeneralName) → Option String
dns_of none = none
dns_of (some names) = first_dns names

abbrev pub first_san : X509Certificate → Option String
first_san cert = dns_of cert.alternative_names

abbrev pub oid_arms : List (List String × String)
oid_arms =
    ("1.2.840.113549.1.1.5" ∷ [], "RSA-PKCS1-SHA1")
    ∷ ("1.2.840.113549.1.1.11" ∷ [], "RSA-PKCS1-SHA256")
    ∷ ("1.2.840.113549.1.1.12" ∷ [], "RSA-PKCS1-SHA384")
    ∷ ("1.2.840.113549.1.1.13" ∷ [], "RSA-PKCS1-SHA512")
    ∷ ("1.2.840.113549.1.1.10" ∷ [], "RSA-PSS")
    ∷ ("1.2.840.10045.4.3.2" ∷ [], "ECDSA-SHA256")
    ∷ ("1.2.840.10045.4.3.3" ∷ [], "ECDSA-SHA384")
    ∷ ("1.2.840.10045.4.3.4" ∷ [], "ECDSA-SHA512")
    ∷ ("1.3.101.112" ∷ [], "Ed25519")
    ∷ ("1.3.101.113" ∷ [], "Ed448")
    ∷ ("2.16.840.1.101.3.4.3.17" ∷ [], "ML-DSA-44")
    ∷ ("2.16.840.1.101.3.4.3.18" ∷ [], "ML-DSA-65")
    ∷ ("2.16.840.1.101.3.4.3.19" ∷ [], "ML-DSA-87")
    ∷ []

abbrev pub or_else {ℓ} : {A : Type ℓ} → A → Option A → A
or_else default none = default
or_else default (some a) = a

abbrev pub sig_algo_name : X509Certificate → String
sig_algo_name cert = or_else "unknown" (match_arm cert.signature_algorithm oid_arms)

abbrev pub sig_arms : String → List (List String × (String × Bool × Option String))
sig_arms name =
    ("RSA-PKCS1-SHA1" ∷ [], ("RSA-PKCS1", false, some "SHA-1"))
    ∷ ("RSA-PKCS1-SHA256" ∷ [], ("RSA-PKCS1", false, some "SHA-256"))
    ∷ ("RSA-PKCS1-SHA384" ∷ [], ("RSA-PKCS1", false, some "SHA-384"))
    ∷ ("RSA-PKCS1-SHA512" ∷ [], ("RSA-PKCS1", false, some "SHA-512"))
    ∷ ("RSA-PSS" ∷ [], ("RSA-PSS", false, none))
    ∷ ("ECDSA-SHA256" ∷ [], ("ECDSA", false, some "SHA-256"))
    ∷ ("ECDSA-SHA384" ∷ [], ("ECDSA", false, some "SHA-384"))
    ∷ ("ECDSA-SHA512" ∷ [], ("ECDSA", false, some "SHA-512"))
    ∷ ("Ed25519" ∷ [], ("Ed25519", false, none))
    ∷ ("Ed448" ∷ [], ("Ed448", false, none))
    ∷ ("ML-DSA-44" ∷ "ML-DSA-65" ∷ "ML-DSA-87" ∷ [], (name, true, none))
    ∷ []

unfoldable pub decompose_sig : String → String × Bool × Option String
decompose_sig name = or_else (name, false, none) (match_arm name (sig_arms name))

abbrev pub level_arms : List (List String × NistLevel)
level_arms = ("ML-DSA-44" ∷ [], l1) ∷ ("ML-DSA-65" ∷ [], l3) ∷ ("ML-DSA-87" ∷ [], l5) ∷ []

unfoldable pub pq_nist_level : String → Option NistLevel
pq_nist_level name = match_arm name level_arms

abbrev pub hash_primitives : Option String → List Primitive
hash_primitives none = []
hash_primitives (some name) = plain hash name (some true) ∷ []

unfoldable pub primitives_for : X509Certificate → List Primitive
unfolding decompose_sig pq_nist_level
primitives_for cert =
    let sig_name = sig_algo_name cert in
    let parts = decompose_sig sig_name in
    (record {
      role = sig;
      algorithm = parts.0;
      parameters = [];
      pq_resistant = some parts.1;
      nist_classification = pq_nist_level sig_name;
    })
    ∷ hash_primitives parts.2

abbrev pub rationale_of : X509Certificate → String → String
rationale_of cert cn = text_append (text_append "X.509 cert CN=" cn) (
    text_append (text_append " sig=" (sig_algo_name cert)) (
      text_append (text_append " key=" (show cert.public_key_byte_len)) (
        text_append (text_append " bytes; valid " (or_else "?" cert.not_before))
          (text_append ".." (or_else "?" cert.not_after)))))

abbrev pub or_cn : Option String → Option String → Option String
or_cn none cn = cn
or_cn (some san) cn = some san

unfoldable pub event_of_parsed : DateTime → String → X509Certificate → CryptoInventoryEvent
unfolding primitives_for
event_of_parsed now fingerprint cert = record {
  schema_version = schema_version;
  schema_minor = schema_minor;
  source_module = "ree0xq-cert";
  observed_at = now;
  asset = record {
    kind = x509_cert;
    identity = text_append "sha256:" fingerprint;
    host = or_cn (first_san cert) (subject_cn cert);
  };
  primitives = primitives_for cert;
  channel_protection = none;
  agility = none;
  posture = record {
    score = 50;
    rationale = rationale_of cert (or_else fingerprint (subject_cn cert));
    recommended_replacement = none;
  };
}

-- None where the certificate does not parse.
unfoldable pub event_from_cert : Readers → ParsedCert → Option CryptoInventoryEvent
unfolding event_of_parsed
event_from_cert lib cert =
    Option.map (event_of_parsed lib.now (lib.sha256_hex cert.der)) (lib.from_der cert.der)

-- The match on a fetched or read PEM: its certificates, or none where there are none or it is no PEM.
unfoldable pub certs_of : Option (List ParsedCert) → Option (List ParsedCert)
certs_of none = none
certs_of (some []) = none
certs_of (some (cert ∷ certs)) = some (cert ∷ certs)

abbrev pub push_event :
    Option CryptoInventoryEvent → List CryptoInventoryEvent → List CryptoInventoryEvent
push_event none out = out
push_event (some ev) out = ev ∷ out

-- The events of the certificates that parse, in order.
unfoldable pub events_of : Readers → List ParsedCert → List CryptoInventoryEvent
unfolding event_from_cert
events_of lib [] = []
events_of lib (cert ∷ certs) = push_event (event_from_cert lib cert) (events_of lib certs)
