-- ===== src/Cert/Host/Counts.antt =====
-- The counters of a scan of files.
use ree0x_q.Base.{
  ℕ, ◌+◌, ◌≤◌, ◌≡◌, refl, not, ◌||◌, String, Option, none, some, List, [], ◌∷◌, ◌++◌, length,
  Bool-cases, inl, inr, length-append, suc, string_eq, arith,
}
use ree0x_q.Core.{CryptoInventoryEvent}
use ree0x_q.Cert.X509.{Readers, ParsedCert, parse_pem_bundle, event_from_cert, push_event}
use ree0x_q.Cert.Host.{ScanStats, WalkEntry, walk_error, found}
use ree0x_q.Cert.Host

-- From the counters `s` to the counters `t` of a scan of files: the events are at most the certificates, and a file without a
-- certificate is skipped.
abbrev pub HostScanned : ScanStats → ScanStats → List CryptoInventoryEvent → Type 0
HostScanned s t out =
    (t.events_emitted ≡ s.events_emitted + length out)
    × (s.certs_parsed + length out ≤ t.certs_parsed)
    × (t.files_skipped_io + t.files_skipped_no_certs + s.files_inspected
        ≤ s.files_skipped_io + s.files_skipped_no_certs + t.files_inspected)
    × (t.files_inspected + s.files_skipped_io + s.files_skipped_no_certs + s.certs_parsed
        ≤ s.files_inspected + t.files_skipped_io + t.files_skipped_no_certs + t.certs_parsed)

push_event-length :
    (ev : Option CryptoInventoryEvent) (out : List CryptoInventoryEvent) (s : ScanStats)
    → (length (push_event ev out) + s.events_emitted
        ≡ (Host.count_event ev s).events_emitted + length out)
      × (length (push_event ev out) ≤ suc (length out))
push_event-length none out s = (omega arith, omega arith)
push_event-length (some ev) out s = (omega arith, omega arith)

-- Emitting leaves the counters of files as they are, and counts each certificate.
abbrev Emitted : ℕ → ScanStats → ScanStats → List CryptoInventoryEvent → Type 0
Emitted n s t out =
    (t.events_emitted ≡ s.events_emitted + length out)
    × (length out ≤ n)
    × (t.certs_parsed ≡ s.certs_parsed + n)
    × (t.files_inspected ≡ s.files_inspected)
    × (t.files_skipped_io ≡ s.files_skipped_io)
    × (t.files_skipped_no_certs ≡ s.files_skipped_no_certs)

count_event-rest :
    (ev : Option CryptoInventoryEvent) (s : ScanStats)
    → ((Host.count_event ev s).certs_parsed ≡ s.certs_parsed)
      × ((Host.count_event ev s).files_inspected ≡ s.files_inspected)
      × ((Host.count_event ev s).files_skipped_io ≡ s.files_skipped_io)
      × ((Host.count_event ev s).files_skipped_no_certs ≡ s.files_skipped_no_certs)
count_event-rest none s = (refl, refl, refl, refl)
count_event-rest (some ev) s = (refl, refl, refl, refl)

host_certs :
    (lib : Readers) (certs : List ParsedCert) (s : ScanStats)
    → Emitted (length certs) s (Host.emit_certs lib certs s).0 (Host.emit_certs lib certs s).1
unfolding Host.emit_certs
host_certs lib [] s = (omega arith, omega arith, omega arith, refl, refl, refl)
host_certs lib (cert ∷ certs) s =
    let ev = event_from_cert lib cert in
    let next = Host.count_event ev (Host.count_cert s) in
    let rest = Host.emit_certs lib certs next in
    let k = host_certs lib certs next in
    let p = push_event-length ev rest.1 (Host.count_cert s) in
    let c = count_event-rest ev (Host.count_cert s) in
    (
      omega (arith, k.0, p.0),
      omega (arith, k.1, p.1),
      omega (arith, k.2, c.0),
      omega (arith, k.3, c.1),
      omega (arith, k.4, c.2),
      omega (arith, k.5, c.3),
    )

host_bundle :
    (lib : Readers) (certs : Option (List ParsedCert)) (s : ScanStats)
    → HostScanned s
        (Host.scan_bundle lib certs (Host.count_file s)).0
        (Host.scan_bundle lib certs (Host.count_file s)).1
unfolding Host.scan_bundle
host_bundle lib none s = (omega arith, omega arith, omega arith, omega arith)
host_bundle lib (some []) s = (omega arith, omega arith, omega arith, omega arith)
host_bundle lib (some (cert ∷ certs)) s =
    let k = host_certs lib (cert ∷ certs) (Host.count_file s) in
    (
      omega (arith, k.0),
      omega (arith, k.1, k.2),
      omega (arith, k.3, k.4, k.5),
      omega (arith, k.2, k.3, k.4, k.5),
    )

host_contents :
    (lib : Readers) (path : String) (contents : Option (List ℕ)) (s : ScanStats)
    → HostScanned s
        (Host.scan_contents lib path contents (Host.count_file s)).0
        (Host.scan_contents lib path contents (Host.count_file s)).1
unfolding Host.scan_contents
host_contents lib path none s = (omega arith, omega arith, omega arith, omega arith)
host_contents lib path (some bytes) s = host_bundle lib (parse_pem_bundle lib bytes (some path)) s

host_entry :
    (lib : Readers) (entry : WalkEntry) (s : ScanStats)
    → HostScanned s (Host.scan_entry lib entry s).0 (Host.scan_entry lib entry s).1
unfolding Host.scan_entry
host_entry lib walk_error s = (omega arith, omega arith, omega arith, omega arith)
host_entry lib (found file) s =
    elim (Bool-cases (not file.is_file || not (Host.has_cert_extension file))) [
      | inl other ↦ rw other (omega arith, omega arith, omega arith, omega arith)
      | inr cert ↦ rw cert (host_contents lib file.path file.contents s)
    ]

HostScanned-trans :
    (s t u : ScanStats) (xs ys : List CryptoInventoryEvent)
    → HostScanned s t xs
    → HostScanned t u ys
    → HostScanned s u (xs ++ ys)
HostScanned-trans s t u xs ys h k = (
  omega (arith, h.0, k.0, length-append xs ys),
  omega (arith, h.1, k.1, length-append xs ys),
  omega (arith, h.2, k.2),
  omega (arith, h.3, k.3),
)

host_entries :
    (lib : Readers) (entries : List WalkEntry) (s : ScanStats)
    → HostScanned s (Host.scan_entries lib entries s).0 (Host.scan_entries lib entries s).1
unfolding Host.scan_entries
host_entries lib [] s = (omega arith, omega arith, omega arith, omega arith)
host_entries lib (entry ∷ entries) s =
    let one = Host.scan_entry lib entry s in
    let rest = Host.scan_entries lib entries one.0 in
    HostScanned-trans s one.0 rest.0 one.1 rest.1 (host_entry lib entry s)
      (host_entries lib entries one.0)

host_root :
    (lib : Readers) (root : Option (List WalkEntry)) (s : ScanStats)
    → HostScanned s (Host.scan_root lib root s).0 (Host.scan_root lib root s).1
unfolding Host.scan_root
host_root lib none s = (omega arith, omega arith, omega arith, omega arith)
host_root lib (some entries) s = host_entries lib entries (Host.count_root s)

pub host_roots :
    (lib : Readers) (roots : List (Option (List WalkEntry))) (s : ScanStats)
    → HostScanned s (Host.scan_roots lib roots s).0 (Host.scan_roots lib roots s).1
unfolding Host.scan_roots
host_roots lib [] s = (omega arith, omega arith, omega arith, omega arith)
host_roots lib (root ∷ roots) s =
    let one = Host.scan_root lib root s in
    let rest = Host.scan_roots lib roots one.0 in
    HostScanned-trans s one.0 rest.0 one.1 rest.1 (host_root lib root s)
      (host_roots lib roots one.0)
