-- ===== src/Chain/Qrl.antt =====
-- The address classifier of crates/ree0xq-chain/src/qrl.rs.
use ree0x_q.Base.{
  ℕ, Bool, true, false, not, String, Option, none, some, List, [], ◌∷◌, codes, eqb, if◌then◌else◌,
  trim,
}
use ree0x_q.Core.{DateTime, CryptoInventoryEvent, Primitive, plain, sig, hash}
use ree0x_q.Chain.Event.{build_event}
use ree0x_q.Chain.Ethereum.{is_hex_of}
use ree0x_q.Chain.Scan.{ScanStats, scan_with}

abbrev pub hex_len : ℕ
hex_len = 78

-- The prefix `Q` (81).
abbrev pub is_valid_trimmed : List ℕ → Bool
is_valid_trimmed [] = false
is_valid_trimmed (c ∷ rest) = if eqb c 81 then is_hex_of hex_len rest else false

unfoldable pub is_valid : String → Bool
is_valid address = is_valid_trimmed (codes (trim address))

abbrev pub primitives : List Primitive
primitives = plain sig "XMSS" (some true) ∷ plain hash "SHA-256" (some true) ∷ []

abbrev pub rationale : String
rationale =
    "QRL address; XMSS hash-based PQ signature (stateful) + SHA-256 hash. Quantum-resistant under standard hash-collision assumptions."

unfoldable pub recognise : DateTime → String → Option CryptoInventoryEvent
unfolding is_valid build_event
recognise now addr =
    if not (is_valid addr)
    then none
    else some (build_event now "qrl" (trim addr) primitives rationale)

unfoldable pub scan_addresses : DateTime → List String → ScanStats × List CryptoInventoryEvent
unfolding scan_with recognise
scan_addresses now addresses = scan_with (recognise now) addresses
