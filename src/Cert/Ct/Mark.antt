-- ===== src/Cert/Ct/Mark.antt =====
-- The high-water marks of a log scan.
use ree0x_q.Base.{
  ℕ, ◌+◌, ◌≤◌, ◌≡◌, ◌≢◌, ◌==◌, refl, ap, ◌∙◌, String, Option, none, some, List, [], ◌∷◌, length,
  leb, if◌then◌else◌, sym, Bool-cases, inl, inr, insert_by, sort_by_key, string_eq, arith,
}
use mathlib.Core.Path.{subst}
use mathlib.Core.Bool.{false≢true}
use ree0x_q.Base.Dict
use ree0x_q.Cert.X509.{Readers, ParsedCert}
use ree0x_q.Cert.Ct.{
  CtBackend, CtListEntry, CtScanStats, Seen, larger, below_cursor, mark_of, fetch_certs,
  scan_fetched, scan_entry, scan_entries, scan_listed, scan_domain, scan_domains, count_domain,
}

-- The id of an entry above the old mark whose fetch gives a certificate; 0 for another entry.
abbrev pub usable_id : ℕ → ℕ → Option (List ParsedCert) → ℕ
usable_id prev id none = 0
usable_id prev id (some certs) = if leb id prev then 0 else id

-- The highest of those.
unfoldable pub highest : Readers → CtBackend → ℕ → List CtListEntry → ℕ
highest lib backend prev [] = 0
highest lib backend prev (e ∷ es) =
    larger (usable_id prev e.id (fetch_certs lib backend e.id)) (highest lib backend prev es)

larger_left_comm : (a b c : ℕ) → larger a (larger b c) ≡ larger b (larger a c)
larger_left_comm a b c = ground arith

larger_assoc : (a b c : ℕ) → larger (larger a b) c ≡ larger a (larger b c)
larger_assoc a b c = ground arith

module _ (lib : Readers) (backend : CtBackend) (domain : String) (prev : ℕ) where
  -- The mark after one entry, with what was fetched.
  fetched_mark :
      (id : ℕ) (certs : Option (List ParsedCert)) (m : ℕ) (s : CtScanStats)
      → (if leb id prev then (m, below_cursor s, []) else scan_fetched lib domain id certs (m, s)).0
        ≡ larger m (usable_id prev id certs)
  unfolding scan_fetched
  fetched_mark id none m s = elim (Bool-cases (leb id prev)) [
    | inl seen ↦ rw seen (ground arith)
    | inr fresh ↦ rw fresh (ground arith)
  ]
  fetched_mark id (some certs) m s = elim (Bool-cases (leb id prev)) [
    | inl seen ↦ rw seen (ground arith)
    | inr fresh ↦ rw fresh refl
  ]

  scan_entry-larger :
      (e : CtListEntry) (m : ℕ) (s : CtScanStats)
      → (scan_entry lib backend domain prev e (m, s)).0
        ≡ larger m (usable_id prev e.id (fetch_certs lib backend e.id))
  unfolding scan_entry
  scan_entry-larger e m s = fetched_mark e.id (fetch_certs lib backend e.id) m s

  scan_entries-larger :
      (es : List CtListEntry) (m : ℕ) (s : CtScanStats)
      → (scan_entries lib backend domain prev es (m, s)).0 ≡ larger m (highest lib backend prev es)
  unfolding scan_entries highest
  scan_entries-larger [] m s = ground arith
  scan_entries-larger (e ∷ es) m s =
      let one = scan_entry lib backend domain prev e (m, s) in
      let id = usable_id prev e.id (fetch_certs lib backend e.id) in
      scan_entries-larger es one.0 one.1
      ∙ ap (λ x. larger x (highest lib backend prev es)) (scan_entry-larger e m s)
      ∙ larger_assoc m id (highest lib backend prev es)

  highest-insert_by :
      (e : CtListEntry) (es : List CtListEntry)
      → highest lib backend prev (insert_by (λ x. x.id) e es) ≡ highest lib backend prev (e ∷ es)
  unfolding highest
  highest-insert_by e [] = refl
  highest-insert_by e (d ∷ es) = elim (Bool-cases (leb e.id d.id)) [
    | inl le ↦ rw le refl
    | inr gt ↦
        rw (gt, highest-insert_by e es)
          (larger_left_comm (usable_id prev d.id (fetch_certs lib backend d.id))
            (usable_id prev e.id (fetch_certs lib backend e.id)) (highest lib backend prev es))
  ]

  highest-sort_by_key :
      (es : List CtListEntry)
      → highest lib backend prev (sort_by_key (λ x. x.id) es) ≡ highest lib backend prev es
  unfolding highest
  highest-sort_by_key [] = refl
  highest-sort_by_key (e ∷ es) =
      highest-insert_by e (sort_by_key (λ x. x.id) es)
      ∙ ap (larger (usable_id prev e.id (fetch_certs lib backend e.id))) (highest-sort_by_key es)

own_mark :
    (lib : Readers) (backend : CtBackend) (domain : String) (entries : List CtListEntry)
    (seen : Seen) (s : CtScanStats)
    → Dict.lookup domain (scan_domain lib backend domain (some entries) (seen, s)).0
      ≡ some (
          larger
            (mark_of (Dict.lookup domain seen))
            (highest lib backend (mark_of (Dict.lookup domain seen)) entries))
unfolding scan_domain scan_listed
own_mark lib backend domain entries seen s =
    let prev : ℕ = mark_of (Dict.lookup domain seen) in
    let sorted : List CtListEntry = sort_by_key (λ e. e.id) entries in
    let listed : CtScanStats = record (count_domain s) {
      entries_listed = s.entries_listed + length entries;
    } in
    let mark : ℕ = (scan_entries lib backend domain prev sorted (prev, listed)).0 in
    Dict.lookup-insert_self domain mark seen
    ∙ ap some (
        scan_entries-larger lib backend domain prev sorted prev listed
        ∙ ap (larger prev) (highest-sort_by_key lib backend domain prev entries))

-- The mark of a scanned domain becomes the highest of the old one and the ids above it that gave a
-- certificate, in whatever order they are listed, also where the fetch of a lower id failed; every
-- other mark stays.
pub scan_domain-mark :
    (lib : Readers) (backend : CtBackend) (domain other : String) (entries : List CtListEntry)
    (seen : Seen) (s : CtScanStats)
    → domain ≢ other
    → (Dict.lookup domain (scan_domain lib backend domain (some entries) (seen, s)).0
        ≡ some (
            larger
              (mark_of (Dict.lookup domain seen))
              (highest lib backend (mark_of (Dict.lookup domain seen)) entries)))
      × (Dict.lookup other (scan_domain lib backend domain (some entries) (seen, s)).0
          ≡ Dict.lookup other seen)
unfolding scan_domain scan_listed
scan_domain-mark lib backend domain other entries seen s distinct =
    let prev : ℕ = mark_of (Dict.lookup domain seen) in
    let sorted : List CtListEntry = sort_by_key (λ e. e.id) entries in
    let listed : CtScanStats = record (count_domain s) {
      entries_listed = s.entries_listed + length entries;
    } in
    let mark : ℕ = (scan_entries lib backend domain prev sorted (prev, listed)).0 in
    (
      own_mark lib backend domain entries seen s,
      ground (
        arith,
        distinct,
        string_eq.beq_iff domain other,
        Dict.lookup-insert domain other mark seen,
      ),
    )

mark-larger : (a b : ℕ) → a ≤ larger a b
mark-larger a b = ground arith

scan_domain-rises :
    (lib : Readers) (backend : CtBackend) (domain other : String)
    (entries : Option (List CtListEntry)) (seen : Seen) (s : CtScanStats)
    → mark_of (Dict.lookup other seen)
      ≤ mark_of (Dict.lookup other (scan_domain lib backend domain entries (seen, s)).0)
unfolding scan_domain
scan_domain-rises lib backend domain other none seen s = omega arith
scan_domain-rises lib backend domain other (some entries) seen s =
    elim (Bool-cases (domain == other)) [
      | inl same ↦
          let here : domain ≡ other = (string_eq.beq_iff domain other).0 same in
          subst
            (λ name.
              mark_of (Dict.lookup name seen)
              ≤ mark_of
                  (Dict.lookup name (scan_domain lib backend domain (some entries) (seen, s)).0))
            here
            (rw (own_mark lib backend domain entries seen s) (
              mark-larger (mark_of (Dict.lookup domain seen))
                (highest lib backend (mark_of (Dict.lookup domain seen)) entries)))
      | inr differ ↦
          let apart : domain ≢ other =
            λ e. false≢true (sym differ ∙ (string_eq.beq_iff domain other).1 e) in
          rw ((scan_domain-mark lib backend domain other entries seen s apart).1) (omega arith)
    ]

-- No mark is lowered by a scan.
pub scan_domains-rises :
    (lib : Readers) (backend : CtBackend) (domains : List String) (other : String) (seen : Seen)
    (s : CtScanStats)
    → mark_of (Dict.lookup other seen)
      ≤ mark_of (Dict.lookup other (scan_domains lib backend domains (seen, s)).0)
unfolding scan_domains
scan_domains-rises lib backend [] other seen s = ground arith
scan_domains-rises lib backend (domain ∷ domains) other seen s =
    let one = scan_domain lib backend domain (backend.list domain) (seen, s) in
    let h = scan_domain-rises lib backend domain other (backend.list domain) seen s in
    let k = scan_domains-rises lib backend domains other one.0 one.1 in omega (arith, h, k)
