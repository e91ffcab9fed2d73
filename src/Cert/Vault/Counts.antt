-- ===== src/Cert/Vault/Counts.antt =====
-- The counters of a scan of Vault mounts.
use ree0x_q.Base.{
  ℕ, ◌+◌, ◌≡◌, refl, String, Option, none, some, List, [], ◌∷◌, length, length-append, string_eq,
  arith,
}
use ree0x_q.Core.{CryptoInventoryEvent}
use ree0x_q.Cert.X509.{Readers, ParsedCert}
use ree0x_q.Cert.Vault.{VaultBackend, VaultScanStats}
use ree0x_q.Cert.Vault

-- From the counters `s` to the counters `t` of a scan of Vault mounts, with `n` serials handled.
abbrev VaultTurns : ℕ → VaultScanStats → VaultScanStats → List CryptoInventoryEvent → Type 0
VaultTurns n s t out =
    (t.certs_fetched + t.fetch_failures ≡ s.certs_fetched + s.fetch_failures + n)
    × (t.serials_listed ≡ s.serials_listed)
    × (t.events_emitted ≡ s.events_emitted + length out)

vault_fetched :
    (lib : Readers) (certs : Option (List ParsedCert)) (s : VaultScanStats)
    → VaultTurns 1 s (Vault.scan_fetched lib certs s).0 (Vault.scan_fetched lib certs s).1
unfolding Vault.scan_fetched
vault_fetched lib none s = (omega arith, refl, omega arith)
vault_fetched lib (some certs) s = (omega arith, refl, omega arith)

vault_serials :
    (lib : Readers) (backend : VaultBackend) (mount : String) (serials : List String)
    (s : VaultScanStats)
    → VaultTurns
        (length serials)
        s
        (Vault.scan_serials lib backend mount serials s).0
        (Vault.scan_serials lib backend mount serials s).1
unfolding Vault.scan_serials
vault_serials lib backend mount [] s = (omega arith, refl, omega arith)
vault_serials lib backend mount (serial ∷ serials) s =
    let certs = Vault.fetch_certs lib backend mount serial in
    let one = Vault.scan_fetched lib certs s in
    let rest = Vault.scan_serials lib backend mount serials one.0 in
    let h = vault_fetched lib certs s in
    let k = vault_serials lib backend mount serials one.0 in
    (
      omega (arith, h.0, k.0),
      omega (arith, h.1, k.1),
      omega (arith, h.2, k.2, length-append one.1 rest.1),
    )

-- Every listed serial is fetched or failed, beyond what the counters began with.
abbrev pub VaultScanned : VaultScanStats → VaultScanStats → List CryptoInventoryEvent → Type 0
VaultScanned s t out =
    (t.certs_fetched + t.fetch_failures + s.serials_listed
      ≡ s.certs_fetched + s.fetch_failures + t.serials_listed)
    × (t.events_emitted ≡ s.events_emitted + length out)

vault_mount :
    (lib : Readers) (backend : VaultBackend) (mount : String) (serials : Option (List String))
    (s : VaultScanStats)
    → VaultScanned s
        (Vault.scan_mount lib backend mount serials s).0
        (Vault.scan_mount lib backend mount serials s).1
unfolding Vault.scan_mount
vault_mount lib backend mount none s = (omega arith, omega arith)
vault_mount lib backend mount (some serials) s =
    let start = Vault.count_serials (length serials) (Vault.count_mount s) in
    let h = vault_serials lib backend mount serials start in
    (omega (arith, h.0, h.1), omega (arith, h.2))

pub vault_mounts :
    (lib : Readers) (backend : VaultBackend) (mounts : List String) (s : VaultScanStats)
    → VaultScanned s
        (Vault.scan_mounts lib backend mounts s).0
        (Vault.scan_mounts lib backend mounts s).1
unfolding Vault.scan_mounts
vault_mounts lib backend [] s = (omega arith, omega arith)
vault_mounts lib backend (mount ∷ mounts) s =
    let one = Vault.scan_mount lib backend mount (backend.list_serials mount) s in
    let rest = Vault.scan_mounts lib backend mounts one.0 in
    let h = vault_mount lib backend mount (backend.list_serials mount) s in
    let k = vault_mounts lib backend mounts one.0 in
    (omega (arith, h.0, k.0), omega (arith, h.1, k.1, length-append one.1 rest.1))
