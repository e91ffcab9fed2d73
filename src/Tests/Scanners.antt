-- ===== src/Tests/Scanners.antt =====
-- The zgrab2 records and the probe on small inputs.
use ree0x_q.Base.{◌≡◌, refl, false, String, Option, none, some, [], ◌∷◌}
use ree0x_q.Core.{Primitive}
use ree0x_q.Net.Tls.{HandshakeSummary, server_hello}
use ree0x_q.Net.Names.{primitives_from_summary, named_group_name, ciphersuite_name}
use ree0x_q.Net.Zgrab.{primitives_from_zgrab, parse_cert_sig_algorithm}
use ree0x_q.Net.Zgrab.Agreement.{zgrab_of, primitives_from_zgrab-primitives_from_summary}
use ree0x_q.Net.Probe.{Connection, connected, failed_with, probe, or_text}
use ree0x_q.Net.Probe.Verdict.{rated_by_capture, probe-rated_by_capture}

abbrev no_summary : HandshakeSummary
no_summary = record {
  msg_kind = server_hello;
  legacy_version = 0x0303;
  ciphersuites = [];
  supported_groups = [];
  signature_schemes = [];
  supported_versions = [];
}

suite_named : ciphersuite_name 0x1302 ≡ some "TLS_AES_256_GCM_SHA384"
unfolding ciphersuite_name
suite_named = refl

group_named : named_group_name 0x11ec ≡ some "X25519MLKEM768"
unfolding named_group_name
group_named = refl

primitives_from_zgrab-primitives_from_summary_example :
    primitives_from_zgrab (zgrab_of "TLS_AES_256_GCM_SHA384" "X25519MLKEM768")
    ≡ primitives_from_summary (record no_summary {
      ciphersuites = 0x1302 ∷ [];
      supported_groups = 0x11ec ∷ [];
      signature_schemes = [];
    })
primitives_from_zgrab-primitives_from_summary_example =
    primitives_from_zgrab-primitives_from_summary no_summary 0x1302 0x11ec "TLS_AES_256_GCM_SHA384"
      "X25519MLKEM768" suite_named group_named

abbrev algorithm_of : Option Primitive → Option String
algorithm_of none = none
algorithm_of (some p) = some p.algorithm

cert_names :
    (algorithm_of (parse_cert_sig_algorithm "sha256_rsa") ≡ some "RSA-PKCS1-SHA256")
    × (algorithm_of (parse_cert_sig_algorithm "RSA") ≡ none)
unfolding parse_cert_sig_algorithm
cert_names = (refl, refl)

abbrev hybrid : Connection
hybrid = record {
  protocol_version = some "TLSv1_3";
  negotiated_cipher_suite = some "TLS13_AES_256_GCM_SHA384";
  negotiated_group = some 0x11ec;
  peer_certificate = none;
}

probe-rated_by_capture_example :
    ((probe "h" (connected hybrid)).kex_group ≡ some (or_text "unknown" (named_group_name 0x11ec)))
    × ((probe "h" (connected hybrid)).kex_pq ≡ rated_by_capture (named_group_name 0x11ec))
    × ((probe "h" (failed_with "connect timeout")).kex_pq ≡ false)
probe-rated_by_capture_example = probe-rated_by_capture "h" "connect timeout" hybrid 0x11ec refl
