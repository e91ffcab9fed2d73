-- ===== src/Cert/Vault.antt =====
-- The scan of Vault mounts: crates/ree0xq-cert/src/vault.rs. The backend is an argument, and the pauses
-- between the requests are left out.
pub mod Counts
use ree0x_q.Base.{
  ℕ, zero, suc, ◌+◌, Bool, String, Option, none, some, List, [], ◌∷◌, ◌++◌, drop, length, codes,
  begins, text_append, if◌then◌else◌,
}
use Prim.Native.Char.{Char, code}
use ree0x_q.Core.{CryptoInventoryEvent}
use ree0x_q.Cert.X509.{Readers, ParsedCert, parse_pem_bundle, certs_of, events_of}

-- `VaultBackend`: none is an error.
pub record VaultBackend : Type 0 where
  pub list_serials : String → Option (List String)
  pub fetch_cert_pem : String → String → Option (List ℕ)

pub record VaultScanStats : Type 0 where
  pub mounts_scanned : ℕ
  pub serials_listed : ℕ
  pub certs_fetched : ℕ
  pub fetch_failures : ℕ
  pub events_emitted : ℕ

abbrev pub no_stats : VaultScanStats
no_stats = record {
  mounts_scanned = 0;
  serials_listed = 0;
  certs_fetched = 0;
  fetch_failures = 0;
  events_emitted = 0;
}

unfoldable pub fetch_certs : Readers → VaultBackend → String → String → Option (List ParsedCert)
unfolding parse_pem_bundle certs_of
fetch_certs lib backend mount serial = elim (backend.fetch_cert_pem mount serial) [
  | none ↦ none
  | some pem ↦ certs_of (parse_pem_bundle lib pem none)
]

abbrev pub fetch_failed : VaultScanStats → VaultScanStats
fetch_failed s = record s { fetch_failures = s.fetch_failures + 1 }

abbrev pub fetched : ℕ → VaultScanStats → VaultScanStats
fetched emitted s = record s {
  certs_fetched = s.certs_fetched + 1;
  events_emitted = s.events_emitted + emitted;
}

unfoldable pub scan_fetched :
    Readers → Option (List ParsedCert) → VaultScanStats → VaultScanStats × List CryptoInventoryEvent
unfolding events_of
scan_fetched lib none s = (fetch_failed s, [])
scan_fetched lib (some certs) s = let out = events_of lib certs in (fetched (length out) s, out)

unfoldable pub scan_serials :
    Readers
    → VaultBackend
    → String
    → List String
    → VaultScanStats
    → VaultScanStats × List CryptoInventoryEvent
unfolding scan_fetched fetch_certs
scan_serials lib backend mount [] s = (s, [])
scan_serials lib backend mount (serial ∷ serials) s =
    let one = scan_fetched lib (fetch_certs lib backend mount serial) s in
    let rest = scan_serials lib backend mount serials one.0 in (rest.0, one.1 ++ rest.1)

abbrev pub count_mount : VaultScanStats → VaultScanStats
count_mount s = record s { mounts_scanned = s.mounts_scanned + 1 }

abbrev pub count_serials : ℕ → VaultScanStats → VaultScanStats
count_serials n s = record s { serials_listed = s.serials_listed + n }

unfoldable pub scan_mount :
    Readers
    → VaultBackend
    → String
    → Option (List String)
    → VaultScanStats
    → VaultScanStats × List CryptoInventoryEvent
unfolding scan_serials
scan_mount lib backend mount none s = (count_mount s, [])
scan_mount lib backend mount (some serials) s =
    scan_serials lib backend mount serials (count_serials (length serials) (count_mount s))

unfoldable pub scan_mounts :
    Readers
    → VaultBackend
    → List String
    → VaultScanStats
    → VaultScanStats × List CryptoInventoryEvent
unfolding scan_mount
scan_mounts lib backend [] s = (s, [])
scan_mounts lib backend (mount ∷ mounts) s =
    let one = scan_mount lib backend mount (backend.list_serials mount) s in
    let rest = scan_mounts lib backend mounts one.0 in (rest.0, one.1 ++ rest.1)

unfoldable pub vault_scan :
    Readers → VaultBackend → List String → VaultScanStats × List CryptoInventoryEvent
unfolding scan_mounts
vault_scan lib backend mounts = scan_mounts lib backend mounts no_stats

-- The text before the first occurrence of a part, and the text from there.
abbrev pub push_front : Char → Option (String × String) → Option (String × String)
push_front c none = none
push_front c (some (front, rest)) = some (String.◌∷◌ c front, rest)

unfoldable pub split_at : List ℕ → String → Option (String × String)
split_at part String.[] = if begins [] part then some (String.[], String.[]) else none
split_at part (String.◌∷◌ c s) =
    let behind = push_front c (split_at part s) in
    if begins (codes (String.◌∷◌ c s)) part then some (String.[], String.◌∷◌ c s) else behind

-- A text without its first characters.
abbrev pub skip : ℕ → String → String
skip zero s = s
skip (suc n) String.[] = String.[]
skip (suc n) (String.◌∷◌ c s) = skip n s

-- The authority with `user:password@` in it: the password goes.
unfoldable pub without_password : String → String → String → String
unfolding split_at
without_password url scheme rest = elim (split_at (codes "@") rest) [
  | none ↦ url
  | some (login, tail) ↦ elim (split_at (codes ":") login) [
    | none ↦ url
    | some (user, password) ↦ text_append scheme (text_append user tail)
  ]
]

unfoldable pub sanitised_url : String → String
unfolding split_at without_password
sanitised_url url = elim (split_at (codes "://") url) [
  | none ↦ url
  | some (scheme, rest) ↦ without_password url (text_append scheme "://") (skip 3 rest)
]
