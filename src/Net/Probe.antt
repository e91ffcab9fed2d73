-- ===== src/Net/Probe.antt =====
-- The names that the post-quantum probe gives to what it observes: crates/ree0xq-net/src/pq_probe.rs. The
-- connection is an argument.
pub mod Verdict
use ree0x_q.Base.{
  ℕ, Bool, true, false, ◌&&◌, String, Option, none, some, List, [], ◌∷◌, map, any_eq, match_arm,
  match_code,
}
use mathlib.Core.Option

pub record PqProbeResult : Type 0 where
  pub host : String
  pub ok : Bool
  pub protocol_version : Option String
  pub cipher_suite : Option String
  pub kex_group : Option String
  pub kex_pq : Bool
  pub cert_sig_algo : Option String
  pub cert_subject : Option String
  pub error : Option String

abbrev pub fail : String → String → PqProbeResult
fail host e = record {
  host = host;
  ok = false;
  protocol_version = none;
  cipher_suite = none;
  kex_group = none;
  kex_pq = false;
  cert_sig_algo = none;
  cert_subject = none;
  error = some e;
}

abbrev pub group_table : List (ℕ × String)
group_table =
    (0x0017, "secp256r1")
    ∷ (0x0018, "secp384r1")
    ∷ (0x0019, "secp521r1")
    ∷ (0x001d, "x25519")
    ∷ (0x001e, "x448")
    ∷ (0x0100, "ffdhe2048")
    ∷ (0x0101, "ffdhe3072")
    ∷ (0x0102, "ffdhe4096")
    ∷ (0x11ec, "X25519MLKEM768")
    ∷ (0x11eb, "SecP256r1MLKEM768")
    ∷ (0x11ed, "P384MLKEM1024")
    ∷ (0x0768, "MLKEM768")
    ∷ (0x0769, "MLKEM512")
    ∷ (0x076a, "MLKEM1024")
    ∷ []

abbrev pub or_text : String → Option String → String
or_text default none = default
or_text default (some name) = name

unfoldable pub named_group_name : ℕ → String
named_group_name code = or_text "unknown" (match_code code group_table)

unfoldable pub is_pq_named_group : String → Bool
is_pq_named_group name = any_eq name (
    "X25519MLKEM768" ∷ "SecP256r1MLKEM768" ∷ "P384MLKEM1024" ∷ "MLKEM768" ∷ "MLKEM512" ∷ "MLKEM1024"
    ∷ [])

abbrev pub oid_names : List (List String × String)
oid_names =
    ("1.2.840.113549.1.1.5" ∷ [], "RSA-PKCS1-SHA1")
    ∷ ("1.2.840.113549.1.1.11" ∷ [], "RSA-PKCS1-SHA256")
    ∷ ("1.2.840.113549.1.1.12" ∷ [], "RSA-PKCS1-SHA384")
    ∷ ("1.2.840.113549.1.1.13" ∷ [], "RSA-PKCS1-SHA512")
    ∷ ("1.2.840.113549.1.1.10" ∷ [], "RSA-PSS")
    ∷ ("1.2.840.10045.4.3.2" ∷ [], "ECDSA-SHA256")
    ∷ ("1.2.840.10045.4.3.3" ∷ [], "ECDSA-SHA384")
    ∷ ("1.2.840.10045.4.3.4" ∷ [], "ECDSA-SHA512")
    ∷ ("1.3.101.112" ∷ [], "Ed25519")
    ∷ ("1.3.101.113" ∷ [], "Ed448")
    ∷ ("2.16.840.1.101.3.4.3.17" ∷ [], "ML-DSA-44")
    ∷ ("2.16.840.1.101.3.4.3.18" ∷ [], "ML-DSA-65")
    ∷ ("2.16.840.1.101.3.4.3.19" ∷ [], "ML-DSA-87")
    ∷ ("2.16.840.1.101.3.4.3.20" ∷ [], "SLH-DSA-SHA2-128s")
    ∷ []

unfoldable pub oid_to_sig_name : String → String
oid_to_sig_name oid = or_text oid (match_arm oid oid_names)

-- What the X.509 reader gives of the leaf: the signature's OID and the first common name, if it is text.
pub record Leaf : Type 0 where
  pub signature_oid : String
  pub subject_cn : Option String

unfoldable pub parse_cert_metadata : Option Leaf → Option String × Option String
unfolding oid_to_sig_name
parse_cert_metadata none = (none, none)
parse_cert_metadata (some leaf) = (some (oid_to_sig_name leaf.signature_oid), leaf.subject_cn)

-- An established connection; the leaf is none inside where it does not parse.
pub record Connection : Type 0 where
  pub protocol_version : Option String
  pub negotiated_cipher_suite : Option String
  pub negotiated_group : Option ℕ
  pub peer_certificate : Option (Option Leaf)

unfoldable pub pq_or_false : Option String → Bool
unfolding is_pq_named_group
pq_or_false none = false
pq_or_false (some name) = is_pq_named_group name

unfoldable pub metadata_of : Option (Option Leaf) → Option String × Option String
unfolding parse_cert_metadata
metadata_of none = (none, none)
metadata_of (some leaf) = parse_cert_metadata leaf

-- The result of a connection.
unfoldable pub observe : String → Connection → PqProbeResult
unfolding named_group_name pq_or_false metadata_of
observe host conn =
    let kex_name = Option.map named_group_name conn.negotiated_group in
    let meta = metadata_of conn.peer_certificate in
    record {
      host = host;
      ok = true;
      protocol_version = conn.protocol_version;
      cipher_suite = conn.negotiated_cipher_suite;
      kex_group = kex_name;
      kex_pq = pq_or_false kex_name;
      cert_sig_algo = meta.0;
      cert_subject = meta.1;
      error = none;
    }

-- The outcome of the connection attempts: an error, or a connection.
pub data Attempt : Type 0 where
  failed_with : String → Attempt
  connected : Connection → Attempt

unfoldable pub probe : String → Attempt → PqProbeResult
unfolding observe
probe host (failed_with e) = fail host e
probe host (connected conn) = observe host conn
