-- ===== src/Cert/Host.antt =====
-- The scan of the file system: crates/ree0xq-cert/src/scan.rs. The walk of a root and the contents of its
-- files are an argument.
pub mod Counts
use ree0x_q.Base.{
  ℕ, ◌+◌, Bool, true, false, not, ◌||◌, String, Option, none, some, List, [], ◌∷◌, ◌++◌, map,
  length, codes, lower_code, any_codes, if◌then◌else◌,
}
use ree0x_q.Core.{CryptoInventoryEvent}
use ree0x_q.Cert.X509.{Readers, ParsedCert, parse_pem_bundle, event_from_cert, push_event}

abbrev pub default_roots : List String
default_roots =
    "/etc/ssl" ∷ "/etc/pki" ∷ "/usr/local/share/ca-certificates" ∷ "/etc/letsencrypt/live" ∷ []

abbrev pub cert_extensions : List String
cert_extensions = "pem" ∷ "crt" ∷ "cer" ∷ []

pub record ScanStats : Type 0 where
  pub roots_walked : ℕ
  pub files_inspected : ℕ
  pub files_skipped_io : ℕ
  pub files_skipped_no_certs : ℕ
  pub certs_parsed : ℕ
  pub events_emitted : ℕ

abbrev pub no_stats : ScanStats
no_stats = record {
  roots_walked = 0;
  files_inspected = 0;
  files_skipped_io = 0;
  files_skipped_no_certs = 0;
  certs_parsed = 0;
  events_emitted = 0;
}

-- An entry of the walk. The extension is none where there is none or it is not UTF-8, the contents
-- where the file cannot be read.
pub record File : Type 0 where
  pub path : String
  pub is_file : Bool
  pub extension : Option String
  pub contents : Option (List ℕ)

pub data WalkEntry : Type 0 where
  walk_error : WalkEntry
  found : File → WalkEntry

abbrev pub is_cert_extension : Option String → Bool
is_cert_extension none = false
is_cert_extension (some s) = any_codes (map lower_code (codes s)) cert_extensions

abbrev pub has_cert_extension : File → Bool
has_cert_extension file = is_cert_extension file.extension

abbrev pub count_cert : ScanStats → ScanStats
count_cert s = record s { certs_parsed = s.certs_parsed + 1 }

abbrev pub count_event : Option CryptoInventoryEvent → ScanStats → ScanStats
count_event none s = s
count_event (some ev) s = record s { events_emitted = s.events_emitted + 1 }

unfoldable pub emit_certs :
    Readers → List ParsedCert → ScanStats → ScanStats × List CryptoInventoryEvent
unfolding event_from_cert
emit_certs lib [] s = (s, [])
emit_certs lib (cert ∷ certs) s =
    let ev = event_from_cert lib cert in
    let rest = emit_certs lib certs (count_event ev (count_cert s)) in
    (rest.0, push_event ev rest.1)

abbrev pub skip_no_certs : ScanStats → ScanStats
skip_no_certs s = record s { files_skipped_no_certs = s.files_skipped_no_certs + 1 }

abbrev pub skip_io : ScanStats → ScanStats
skip_io s = record s { files_skipped_io = s.files_skipped_io + 1 }

unfoldable pub scan_bundle :
    Readers → Option (List ParsedCert) → ScanStats → ScanStats × List CryptoInventoryEvent
unfolding emit_certs
scan_bundle lib none s = (skip_no_certs s, [])
scan_bundle lib (some []) s = (skip_no_certs s, [])
scan_bundle lib (some (cert ∷ certs)) s = emit_certs lib (cert ∷ certs) s

unfoldable pub scan_contents :
    Readers → String → Option (List ℕ) → ScanStats → ScanStats × List CryptoInventoryEvent
unfolding scan_bundle parse_pem_bundle
scan_contents lib path none s = (skip_io s, [])
scan_contents lib path (some bytes) s = scan_bundle lib (parse_pem_bundle lib bytes (some path)) s

abbrev pub count_file : ScanStats → ScanStats
count_file s = record s { files_inspected = s.files_inspected + 1 }

unfoldable pub scan_entry : Readers → WalkEntry → ScanStats → ScanStats × List CryptoInventoryEvent
unfolding scan_contents
scan_entry lib walk_error s = (s, [])
scan_entry lib (found file) s =
    if not file.is_file || not (has_cert_extension file)
    then (s, [])
    else scan_contents lib file.path file.contents (count_file s)

unfoldable pub scan_entries :
    Readers → List WalkEntry → ScanStats → ScanStats × List CryptoInventoryEvent
unfolding scan_entry
scan_entries lib [] s = (s, [])
scan_entries lib (entry ∷ entries) s =
    let one = scan_entry lib entry s in
    let rest = scan_entries lib entries one.0 in (rest.0, one.1 ++ rest.1)

abbrev pub count_root : ScanStats → ScanStats
count_root s = record s { roots_walked = s.roots_walked + 1 }

-- A root with its walk, or none where it does not exist.
unfoldable pub scan_root :
    Readers → Option (List WalkEntry) → ScanStats → ScanStats × List CryptoInventoryEvent
unfolding scan_entries
scan_root lib none s = (count_root s, [])
scan_root lib (some entries) s = scan_entries lib entries (count_root s)

unfoldable pub scan_roots :
    Readers → List (Option (List WalkEntry)) → ScanStats → ScanStats × List CryptoInventoryEvent
unfolding scan_root
scan_roots lib [] s = (s, [])
scan_roots lib (root ∷ roots) s =
    let one = scan_root lib root s in
    let rest = scan_roots lib roots one.0 in (rest.0, one.1 ++ rest.1)

unfoldable pub host_scan :
    Readers → List (Option (List WalkEntry)) → ScanStats × List CryptoInventoryEvent
unfolding scan_roots
host_scan lib roots = scan_roots lib roots no_stats
