-- ===== src/Cert/Accounting.antt =====
-- What the three certificate scans count and emit.
use ree0x_q.Base.{
  ◌+◌, ◌≤◌, ◌≡◌, refl, ap, ◌⊎◌, inl, inr, Bool, true, false, Bool-cases, String, Option, none, some,
  Option-cases, List, [], length, string_eq, arith,
}
use ree0x_q.Base.Dict
use ree0x_q.Core.{CryptoInventoryEvent}
use ree0x_q.Cert.X509.{Readers}
use ree0x_q.Cert.Ct.{CtBackend, CtListEntry, CtScanStats, Seen, CursorFile, CtRun}
use ree0x_q.Cert.Ct
use ree0x_q.Cert.Ct.Counts.{ct_domains}
use ree0x_q.Cert.Ct.Mark.{scan_domains-rises}
use ree0x_q.Cert.Vault.Counts.{vault_mounts}
use ree0x_q.Cert.Host.Counts.{host_roots}
use ree0x_q.Cert.Vault.{VaultBackend, VaultScanStats}
use ree0x_q.Cert.Vault
use ree0x_q.Cert.Host.{ScanStats, WalkEntry, walk_error, found}
use ree0x_q.Cert.Host

-- The counters of a log scan: every listed entry is below the cursor, fetched or failed.
abbrev pub CtAccounts : List String → CtScanStats → List CryptoInventoryEvent → Type 0
CtAccounts domains s out =
    (s.entries_listed ≡ s.entries_below_cursor + s.certs_fetched + s.fetch_failures)
    × (s.domains_scanned ≡ length domains)
    × (s.events_emitted ≡ length out)

-- The counters of a scan of mounts: every listed serial is fetched or failed.
abbrev pub VaultAccounts : VaultScanStats → List CryptoInventoryEvent → Type 0
VaultAccounts s out =
    (s.serials_listed ≡ s.certs_fetched + s.fetch_failures) × (s.events_emitted ≡ length out)

-- The counters of a scan of files: an inspected file is skipped or has a certificate, and each
-- event is of one certificate.
abbrev pub HostAccounts : ScanStats → List CryptoInventoryEvent → Type 0
HostAccounts s out =
    (s.events_emitted ≡ length out)
    × (s.events_emitted ≤ s.certs_parsed)
    × (s.files_skipped_io + s.files_skipped_no_certs ≤ s.files_inspected)
    × (s.files_inspected ≤ s.files_skipped_io + s.files_skipped_no_certs + s.certs_parsed)

-- What a log scan that has handled its domains answers, with the counters `s` and the marks `marks`. Without a cursor
-- file it answers with the counters; with one it does so if it writes the marks, else it is an error.
abbrev pub CtAnswers : (Seen → Bool) → Option CursorFile → Seen → CtScanStats → CtRun → Type 0
CtAnswers write none marks s run = (run.answer ≡ some s) × (run.written ≡ none)
CtAnswers write (some file) marks s run =
    (write marks ≡ true) × (run.answer ≡ some s) × (run.written ≡ some marks)
    ⊎ (write marks ≡ false) × (run.answer ≡ none) × (run.written ≡ none)

-- A log scan that starts with a cursor: its counters account for what it listed and emitted, and no
-- mark is lowered.
pub record CtHandled (start : Option Seen) (write : Seen → Bool) (path : Option CursorFile)
    (domains : List String) (run : CtRun) : Type 0 where
  pub seen : Seen
  pub marks : Seen
  pub stats : CtScanStats
  pub started : start ≡ some seen
  pub accounts : CtAccounts domains stats run.events
  pub rises :
      (name : String) → Ct.mark_of (Dict.lookup name seen) ≤ Ct.mark_of (Dict.lookup name marks)
  pub answers : CtAnswers write path marks stats run

-- A log scan whose cursor cannot be read is an error without an event.
abbrev pub CtEnds : Option Seen → (Seen → Bool) → Option CursorFile → List String → CtRun → Type 0
CtEnds start write path domains run =
    (start ≡ none) × (run.answer ≡ none) × (run.written ≡ none) × (run.events ≡ [])
    ⊎ CtHandled start write path domains run

finish-CtAnswers :
    (write : Seen → Bool) (path : Option CursorFile) (marks : Seen) (s : CtScanStats)
    (out : List CryptoInventoryEvent)
    → ((Ct.finish write path (marks, s, out)).events ≡ out)
      × CtAnswers write path marks s (Ct.finish write path (marks, s, out))
unfolding Ct.finish Ct.save
finish-CtAnswers write none marks s out = (refl, (refl, refl))
finish-CtAnswers write (some file) marks s out = elim (Bool-cases (write marks)) [
  | inl kept ↦ rw kept (refl, inl (refl, refl, refl))
  | inr failed ↦ rw failed (refl, inr (refl, refl, refl))
]

ct_scan-CtEnds :
    (lib : Readers) (log : CtBackend) (parse : String → Option Seen) (write : Seen → Bool)
    (path : Option CursorFile) (domains : List String)
    → CtEnds
        (Ct.start_cursor parse path)
        write
        path
        domains
        (Ct.ct_scan lib log parse write path domains)
unfolding Ct.ct_scan
ct_scan-CtEnds lib log parse write path domains = elim (Option-cases (Ct.start_cursor parse path)) [
  | inl unread ↦ rw (unread, Ct.ct_scan) (inl (refl, refl, refl, refl))
  | inr (seen, loaded) ↦
      let done = Ct.scan_domains lib log domains (seen, Ct.no_stats) in
      let c = ct_domains lib log domains seen Ct.no_stats in
      let f = finish-CtAnswers write path done.0 done.1 done.2 in
      let out : (Ct.finish write path done).events ≡ done.2 = f.0 in
      rw (loaded, Ct.ct_scan)
        (inr (record {
          seen = seen;
          marks = done.0;
          stats = done.1;
          started = refl;
          accounts = (omega (arith, c.0), omega (arith, c.1), omega (arith, c.2, ap length out));
          rises = λ name. scan_domains-rises lib log domains name seen Ct.no_stats;
          answers = f.1;
        }))
]

-- The counters of each scan account for what it listed and emitted. A log scan whose cursor cannot be
-- read is an error without an event. Any other log scan splits the entries into those below the
-- cursor, fetched and failed, lowers no mark, and answers with its counters if it has no cursor file
-- or writes the marks there; where it cannot write them it is an error, after its events. A scan of
-- mounts splits the serials into fetched and failed; a scan of files inspects each file that it
-- skips, and no more besides than it has certificates.
pub ct_scan-vault_scan-host_scan :
    (lib : Readers) (log : CtBackend) (parse : String → Option Seen) (write : Seen → Bool)
    (path : Option CursorFile) (domains : List String) (vault : VaultBackend) (mounts : List String)
    (roots : List (Option (List WalkEntry)))
    → CtEnds
        (Ct.start_cursor parse path)
        write
        path
        domains
        (Ct.ct_scan lib log parse write path domains)
      × VaultAccounts (Vault.vault_scan lib vault mounts).0 (Vault.vault_scan lib vault mounts).1
      × HostAccounts (Host.host_scan lib roots).0 (Host.host_scan lib roots).1
unfolding Vault.vault_scan Host.host_scan
ct_scan-vault_scan-host_scan lib log parse write path domains vault mounts roots =
    let v = vault_mounts lib vault mounts Vault.no_stats in
    let h = host_roots lib roots Host.no_stats in
    (
      ct_scan-CtEnds lib log parse write path domains,
      (omega (arith, v.0), omega (arith, v.1)),
      (omega (arith, h.0), omega (arith, h.0, h.1), omega (arith, h.2), omega (arith, h.3)),
    )
