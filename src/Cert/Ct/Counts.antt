-- ===== src/Cert/Ct/Counts.antt =====
-- The counters of a log scan.
use ree0x_q.Base.{
  ℕ, ◌+◌, ◌≡◌, refl, String, Option, none, some, List, [], ◌∷◌, length, leb, Bool-cases, inl, inr,
  length-append, sort_by_key, insert_by, suc, string_eq, arith,
}
use ree0x_q.Base.Dict
use ree0x_q.Core.{CryptoInventoryEvent}
use ree0x_q.Cert.X509.{Readers, ParsedCert}
use ree0x_q.Cert.Ct.{CtBackend, CtListEntry, CtScanStats, Seen, CursorFile}
use ree0x_q.Cert.Ct

-- The entries that the counters of a log scan account for.
abbrev pub handled : CtScanStats → ℕ
handled s = s.entries_below_cursor + s.certs_fetched + s.fetch_failures

-- From the counters `s` to the counters `t`, with `n` entries handled and the events `out`.
abbrev CtTurns : ℕ → CtScanStats → CtScanStats → List CryptoInventoryEvent → Type 0
CtTurns n s t out =
    (handled t ≡ handled s + n)
    × (t.entries_listed ≡ s.entries_listed)
    × (t.domains_scanned ≡ s.domains_scanned)
    × (t.events_emitted ≡ s.events_emitted + length out)

ct_fetched :
    (lib : Readers) (domain : String) (id : ℕ) (certs : Option (List ParsedCert)) (m : ℕ)
    (s : CtScanStats)
    → CtTurns 1 s
        (Ct.scan_fetched lib domain id certs (m, s)).1
        (Ct.scan_fetched lib domain id certs (m, s)).2
unfolding Ct.scan_fetched
ct_fetched lib domain id none m s = (omega arith, refl, refl, omega arith)
ct_fetched lib domain id (some certs) m s = (omega arith, refl, refl, omega arith)

ct_entry :
    (lib : Readers) (backend : CtBackend) (domain : String) (prev : ℕ) (entry : CtListEntry) (m : ℕ)
    (s : CtScanStats)
    → CtTurns 1 s
        (Ct.scan_entry lib backend domain prev entry (m, s)).1
        (Ct.scan_entry lib backend domain prev entry (m, s)).2
unfolding Ct.scan_entry
ct_entry lib backend domain prev entry m s = elim (Bool-cases (leb entry.id prev)) [
  | inl seen ↦ rw seen (omega arith, refl, refl, omega arith)
  | inr fresh ↦ rw fresh (ct_fetched lib domain entry.id (Ct.fetch_certs lib backend entry.id) m s)
]

ct_entries :
    (lib : Readers) (backend : CtBackend) (domain : String) (prev : ℕ) (entries : List CtListEntry)
    (m : ℕ) (s : CtScanStats)
    → CtTurns
        (length entries)
        s
        (Ct.scan_entries lib backend domain prev entries (m, s)).1
        (Ct.scan_entries lib backend domain prev entries (m, s)).2
unfolding Ct.scan_entries
ct_entries lib backend domain prev [] m s = (omega arith, refl, refl, omega arith)
ct_entries lib backend domain prev (entry ∷ entries) m s =
    let one = Ct.scan_entry lib backend domain prev entry (m, s) in
    let rest = Ct.scan_entries lib backend domain prev entries (one.0, one.1) in
    let h = ct_entry lib backend domain prev entry m s in
    let k = ct_entries lib backend domain prev entries one.0 one.1 in
    (
      omega (arith, h.0, k.0),
      omega (arith, h.1, k.1),
      omega (arith, h.2, k.2),
      omega (arith, h.3, k.3, length-append one.2 rest.2),
    )

-- From `s` to `t`, with `n` domains scanned.
abbrev pub CtScanned : ℕ → CtScanStats → CtScanStats → List CryptoInventoryEvent → Type 0
CtScanned n s t out =
    (t.entries_listed + handled s ≡ s.entries_listed + handled t)
    × (t.domains_scanned ≡ s.domains_scanned + n)
    × (t.events_emitted ≡ s.events_emitted + length out)

length-insert_by :
    (key : CtListEntry → ℕ) (x : CtListEntry) (xs : List CtListEntry)
    → length (insert_by key x xs) ≡ suc (length xs)
length-insert_by key x [] = refl
length-insert_by key x (y ∷ ys) = ground (arith, length-insert_by key x ys)

length-sort_by_key :
    (key : CtListEntry → ℕ) (xs : List CtListEntry) → length (sort_by_key key xs) ≡ length xs
length-sort_by_key key [] = refl
length-sort_by_key key (x ∷ xs) =
    omega (arith, length-insert_by key x (sort_by_key key xs), length-sort_by_key key xs)

ct_domain :
    (lib : Readers) (backend : CtBackend) (domain : String) (entries : Option (List CtListEntry))
    (seen : Seen) (s : CtScanStats)
    → CtScanned 1 s
        (Ct.scan_domain lib backend domain entries (seen, s)).1
        (Ct.scan_domain lib backend domain entries (seen, s)).2
unfolding Ct.scan_domain Ct.scan_listed
ct_domain lib backend domain none seen s = (omega arith, refl, omega arith)
ct_domain lib backend domain (some entries) seen s =
    let prev = Ct.mark_of (Dict.lookup domain seen) in
    let listed = record (Ct.count_domain s) {
      entries_listed = s.entries_listed + length entries;
    } in
    let h = ct_entries lib backend domain prev (sort_by_key (λ e. e.id) entries) prev listed in
    (
      omega (arith, h.0, h.1, length-sort_by_key (λ e. e.id) entries),
      omega (arith, h.2),
      omega (arith, h.3),
    )

pub ct_domains :
    (lib : Readers) (backend : CtBackend) (domains : List String) (seen : Seen) (s : CtScanStats)
    → CtScanned
        (length domains)
        s
        (Ct.scan_domains lib backend domains (seen, s)).1
        (Ct.scan_domains lib backend domains (seen, s)).2
unfolding Ct.scan_domains
ct_domains lib backend [] seen s = (omega arith, omega arith, omega arith)
ct_domains lib backend (domain ∷ domains) seen s =
    let one = Ct.scan_domain lib backend domain (backend.list domain) (seen, s) in
    let rest = Ct.scan_domains lib backend domains (one.0, one.1) in
    let h = ct_domain lib backend domain (backend.list domain) seen s in
    let k = ct_domains lib backend domains one.0 one.1 in
    (
      omega (arith, h.0, k.0),
      omega (arith, h.1, k.1),
      omega (arith, h.2, k.2, length-append one.2 rest.2),
    )
