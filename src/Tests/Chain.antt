-- ===== src/Tests/Chain.antt =====
-- Runs of the chain classifiers on small inputs.
use ree0x_q.Base.{◌+◌, ◌≤◌, ◌≡◌, refl, String, some, none, true, List, [], ◌∷◌, length}
use ree0x_q.Chain.Event.{load_addresses}
use ree0x_q.Chain.Bitcoin
use ree0x_q.Chain.Ethereum
use ree0x_q.Chain.Qrl
use ree0x_q.Chain.Accounting.{Accounts, scan_addresses-Accounts}

abbrev addresses : List String
addresses =
    "BC1QW508D6QEJXTDG4Y5R3ZARVARY0C5XW7KV8F3T4" ∷ "0xd8dA6BF26964aF9D7eEd9e03E53415D37aA96045"
    ∷ "not an address" ∷ []

classify_runs :
    (Bitcoin.classify " bc1qw508d6qejxtdg4y5r3zarvary0c5xw7kv8f3t4 " ≡ some Bitcoin.p2wpkh)
    × (Bitcoin.classify "1A1zP1eP5QGefi2DMPTfTL5SLmv7DivfNa" ≡ some Bitcoin.p2pkh)
    × (Bitcoin.classify "bc1q" ≡ none)
    × (Ethereum.is_valid "0xd8dA6BF26964aF9D7eEd9e03E53415D37aA96045" ≡ true)
unfolding Bitcoin.classify Bitcoin.classify_codes Bitcoin.classify_trimmed Ethereum.is_valid
classify_runs = (refl, refl, refl, refl)

load_addresses_run : load_addresses (" a " ∷ "# note" ∷ "" ∷ "b" ∷ []) ≡ "a" ∷ "b" ∷ []
unfolding load_addresses
load_addresses_run = refl

scan_addresses-Accounts_example :
    Accounts (Bitcoin.recognise 0) addresses (Bitcoin.scan_addresses 0 addresses)
    × Accounts (Ethereum.recognise 0) addresses (Ethereum.scan_addresses 0 addresses)
    × Accounts (Qrl.recognise 0) addresses (Qrl.scan_addresses 0 addresses)
    × ((Bitcoin.scan_addresses 0 addresses).0.events_emitted
          + (Ethereum.scan_addresses 0 addresses).0.events_emitted
          + (Qrl.scan_addresses 0 addresses).0.events_emitted
        ≤ length addresses)
scan_addresses-Accounts_example = scan_addresses-Accounts 0 addresses
