-- ===== src/Cert/Ct.antt =====
-- The scan of Certificate Transparency logs: crates/ree0xq-cert/src/ct.rs. The backend, the content of the cursor
-- file and the success of its writing are arguments; the pauses between the requests are left out.
pub mod Counts
pub mod Mark
use ree0x_q.Base.{
  ℕ, ◌+◌, Bool, true, false, String, Option, none, some, List, [], ◌∷◌, ◌++◌, map, length, leb,
  if◌then◌else◌, string_eq, is_blank, sort_by_key,
}
use ree0x_q.Base.Dict
use ree0x_q.Core.{CryptoInventoryEvent}
use ree0x_q.Cert.X509.{Readers, ParsedCert, parse_pem_bundle, certs_of, events_of}

pub record CtListEntry : Type 0 where
  pub id : ℕ
  pub common_name : Option String

-- `CtBackend`: none is an error.
pub record CtBackend : Type 0 where
  pub list : String → Option (List CtListEntry)
  pub fetch_pem : ℕ → Option (List ℕ)

pub record CtScanStats : Type 0 where
  pub domains_scanned : ℕ
  pub entries_listed : ℕ
  pub entries_below_cursor : ℕ
  pub certs_fetched : ℕ
  pub fetch_failures : ℕ
  pub events_emitted : ℕ

abbrev pub no_stats : CtScanStats
no_stats = record {
  domains_scanned = 0;
  entries_listed = 0;
  entries_below_cursor = 0;
  certs_fetched = 0;
  fetch_failures = 0;
  events_emitted = 0;
}

-- The cursor: the highest id of each domain.
abbrev pub Seen : Type 0
Seen = List (String × ℕ)

-- The cursor file at the start.
pub data CursorFile : Type 0 where
  missing : CursorFile
  unreadable : CursorFile
  readable : String → CursorFile

-- `Cursor::load`, with the JSON reader; none is an error.
unfoldable pub load : (String → Option Seen) → CursorFile → Option Seen
load parse missing = some []
load parse unreadable = none
load parse (readable raw) = if is_blank raw then some [] else parse raw

-- The certificates of one entry, if the fetch is usable.
unfoldable pub fetch_certs : Readers → CtBackend → ℕ → Option (List ParsedCert)
unfolding parse_pem_bundle certs_of
fetch_certs lib backend id = elim (backend.fetch_pem id) [
  | none ↦ none
  | some pem ↦ certs_of (parse_pem_bundle lib pem none)
]

-- The domain is the host of an event that has none.
abbrev pub or_domain : String → Option String → Option String
or_domain domain none = some domain
or_domain domain (some host) = some host

abbrev pub decorate : String → CryptoInventoryEvent → CryptoInventoryEvent
decorate domain ev = record ev { asset = record ev.asset { host = or_domain domain ev.asset.host } }

-- `max`
abbrev pub larger : ℕ → ℕ → ℕ
larger a b = if leb a b then b else a

abbrev pub below_cursor : CtScanStats → CtScanStats
below_cursor s = record s { entries_below_cursor = s.entries_below_cursor + 1 }

abbrev pub fetch_failed : CtScanStats → CtScanStats
fetch_failed s = record s { fetch_failures = s.fetch_failures + 1 }

abbrev pub fetched : ℕ → CtScanStats → CtScanStats
fetched emitted s = record s {
  certs_fetched = s.certs_fetched + 1;
  events_emitted = s.events_emitted + emitted;
}

-- One entry above the cursor: the high-water mark, the counters and the events after it.
unfoldable pub scan_fetched :
    Readers
    → String
    → ℕ
    → Option (List ParsedCert)
    → ℕ × CtScanStats
    → ℕ × CtScanStats × List CryptoInventoryEvent
unfolding events_of
scan_fetched lib domain id none (new_max, s) = (new_max, fetch_failed s, [])
scan_fetched lib domain id (some certs) (new_max, s) =
    let out = map (decorate domain) (events_of lib certs) in
    (larger new_max id, fetched (length out) s, out)

unfoldable pub scan_entry :
    Readers
    → CtBackend
    → String
    → ℕ
    → CtListEntry
    → ℕ × CtScanStats
    → ℕ × CtScanStats × List CryptoInventoryEvent
unfolding scan_fetched fetch_certs
scan_entry lib backend domain prev_max entry (new_max, s) =
    if leb entry.id prev_max
    then (new_max, below_cursor s, [])
    else scan_fetched lib domain entry.id (fetch_certs lib backend entry.id) (new_max, s)

unfoldable pub scan_entries :
    Readers
    → CtBackend
    → String
    → ℕ
    → List CtListEntry
    → ℕ × CtScanStats
    → ℕ × CtScanStats × List CryptoInventoryEvent
unfolding scan_entry
scan_entries lib backend domain prev_max [] (new_max, s) = (new_max, s, [])
scan_entries lib backend domain prev_max (entry ∷ entries) state =
    let one = scan_entry lib backend domain prev_max entry state in
    let rest = scan_entries lib backend domain prev_max entries (one.0, one.1) in
    (rest.0, rest.1, one.2 ++ rest.2)

abbrev pub mark_of : Option ℕ → ℕ
mark_of none = 0
mark_of (some id) = id

-- A domain whose list the backend gives.
unfoldable pub scan_listed :
    Readers
    → CtBackend
    → String
    → List CtListEntry
    → Seen × CtScanStats
    → Seen × CtScanStats × List CryptoInventoryEvent
unfolding scan_entries
scan_listed lib backend domain entries (seen, s) =
    let prev_max = mark_of (Dict.lookup domain seen) in
    let listed = record s { entries_listed = s.entries_listed + length entries } in
    let done =
      scan_entries lib backend domain prev_max (sort_by_key (λ e. e.id) entries)
        (prev_max, listed) in
    (Dict.insert domain done.0 seen, done.1, done.2)

abbrev pub count_domain : CtScanStats → CtScanStats
count_domain s = record s { domains_scanned = s.domains_scanned + 1 }

unfoldable pub scan_domain :
    Readers
    → CtBackend
    → String
    → Option (List CtListEntry)
    → Seen × CtScanStats
    → Seen × CtScanStats × List CryptoInventoryEvent
unfolding scan_listed
scan_domain lib backend domain none (seen, s) = (seen, count_domain s, [])
scan_domain lib backend domain (some entries) (seen, s) =
    scan_listed lib backend domain entries (seen, count_domain s)

unfoldable pub scan_domains :
    Readers
    → CtBackend
    → List String
    → Seen × CtScanStats
    → Seen × CtScanStats × List CryptoInventoryEvent
unfolding scan_domain
scan_domains lib backend [] (seen, s) = (seen, s, [])
scan_domains lib backend (domain ∷ domains) state =
    let one = scan_domain lib backend domain (backend.list domain) state in
    let rest = scan_domains lib backend domains (one.0, one.1) in (rest.0, rest.1, one.2 ++ rest.2)

-- The cursor at the start of a scan, which may have no file for it.
unfoldable pub start_cursor : (String → Option Seen) → Option CursorFile → Option Seen
unfolding load
start_cursor parse none = some []
start_cursor parse (some file) = load parse file

-- `Cursor::save`, where `write` tells of a cursor whether its file can be written.
unfoldable pub save : (Seen → Bool) → Seen → Option Seen
save write seen = if write seen then some seen else none

-- The answer of a scan: the counters, none where it is an error; the cursor that it wrote; and the events, which
-- the caller has got in any case.
pub record CtRun : Type 0 where
  pub answer : Option CtScanStats
  pub written : Option Seen
  pub events : List CryptoInventoryEvent

abbrev pub saved_run : CtScanStats → List CryptoInventoryEvent → Option Seen → CtRun
saved_run s out none = record { answer = none; written = none; events = out }
saved_run s out (some seen) = record { answer = some s; written = some seen; events = out }

-- The end of a scan.
unfoldable pub finish :
    (Seen → Bool) → Option CursorFile → Seen × CtScanStats × List CryptoInventoryEvent → CtRun
unfolding save
finish write none (seen, s, out) = record { answer = some s; written = none; events = out }
finish write (some file) (seen, s, out) = saved_run s out (save write seen)

-- The whole scan.
unfoldable pub ct_scan :
    Readers
    → CtBackend
    → (String → Option Seen)
    → (Seen → Bool)
    → Option CursorFile
    → List String
    → CtRun
unfolding start_cursor finish scan_domains
ct_scan lib backend parse write cursor_path domains = elim (start_cursor parse cursor_path) [
  | none ↦ record { answer = none; written = none; events = [] }
  | some seen ↦ finish write cursor_path (scan_domains lib backend domains (seen, no_stats))
]
