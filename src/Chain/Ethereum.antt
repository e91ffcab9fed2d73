-- ===== src/Chain/Ethereum.antt =====
-- The address classifier of crates/ree0xq-chain/src/ethereum.rs.
use ree0x_q.Base.{
  ℕ, Bool, true, false, not, ◌&&◌, String, Option, none, some, List, [], ◌∷◌, length, drop, codes,
  begins, encode, eqb, if◌then◌else◌, trim, all_codes, is_hexdigit,
}
use ree0x_q.Core.{DateTime, CryptoInventoryEvent, Primitive, plain, sig, hash}
use ree0x_q.Chain.Event.{build_event}
use ree0x_q.Chain.Scan.{ScanStats, scan_with}

abbrev pub hex_len : ℕ
hex_len = 40

-- The rest has the length and only hexadecimal digits.
abbrev pub is_hex_of : ℕ → List ℕ → Bool
is_hex_of len rest = eqb (length (encode rest)) len && all_codes is_hexdigit rest

abbrev pub is_valid_trimmed : List ℕ → Bool
is_valid_trimmed s =
    if begins s (codes "0x")
    then is_hex_of hex_len (drop 2 s)
    else (if begins s (codes "0X") then is_hex_of hex_len (drop 2 s) else false)

unfoldable pub is_valid : String → Bool
is_valid address = is_valid_trimmed (codes (trim address))

abbrev pub primitives : List Primitive
primitives = plain sig "ECDSA-secp256k1" (some false) ∷ plain hash "Keccak-256" (some true) ∷ []

abbrev pub rationale : String
rationale =
    "Ethereum address; EOA classification — spends with ECDSA-secp256k1 + Keccak-256. Contract-vs-EOA disambiguation requires a live RPC and is V3.x scope."

unfoldable pub recognise : DateTime → String → Option CryptoInventoryEvent
unfolding is_valid build_event
recognise now addr =
    if not (is_valid addr)
    then none
    else some (build_event now "ethereum" (trim addr) primitives rationale)

unfoldable pub scan_addresses : DateTime → List String → ScanStats × List CryptoInventoryEvent
unfolding scan_with recognise
scan_addresses now addresses = scan_with (recognise now) addresses
