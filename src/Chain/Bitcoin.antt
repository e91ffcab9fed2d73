-- ===== src/Chain/Bitcoin.antt =====
-- The address classifier of crates/ree0xq-chain/src/bitcoin.rs. Lengths are of the UTF-8 bytes.
use ree0x_q.Base.{
  ℕ, true, false, ◌||◌, ◌&&◌, String, Option, none, some, List, [], ◌∷◌, map, length, codes, begins,
  encode, eqb, leb, if◌then◌else◌, text_append, trim, lower_code,
}
use mathlib.Core.Option
use ree0x_q.Core.{DateTime, CryptoInventoryEvent, Primitive, plain, sig, hash}
use ree0x_q.Chain.Event.{build_event}
use ree0x_q.Chain.Scan.{ScanStats, scan_with}

pub data ScriptType : Type 0 where
  p2pkh p2sh p2wpkh p2wsh p2tr : ScriptType

abbrev pub label : ScriptType → String
label p2pkh = "P2PKH"
label p2sh = "P2SH"
label p2wpkh = "P2WPKH"
label p2wsh = "P2WSH"
label p2tr = "P2TR (Taproot)"

abbrev pub signature : ScriptType → String
signature p2tr = "Schnorr-secp256k1"
signature st = "ECDSA-secp256k1"

abbrev pub primitives : ScriptType → List Primitive
primitives st = plain sig (signature st) (some false) ∷ plain hash "SHA-256" (some true) ∷ []

-- The match on the leading character: 1, m and n, or 3 and 2.
abbrev pub legacy_type : ℕ → Option ScriptType
legacy_type c =
    if eqb c 49 || eqb c 109 || eqb c 110
    then some p2pkh
    else (if eqb c 51 || eqb c 50 then some p2sh else none)

-- A trimmed address that is not empty.
unfoldable pub classify_trimmed : ℕ → List ℕ → Option ScriptType
classify_trimmed leading trimmed =
    let lower = map lower_code trimmed in
    let total = length (encode lower) in
    let len = length (encode trimmed) in
    if begins lower (codes "bc1q") || begins lower (codes "tb1q")
    then (if eqb total 42 then some p2wpkh else (if eqb total 62 then some p2wsh else none))
    else (if begins lower (codes "bc1p") || begins lower (codes "tb1p")
        then (if eqb total 62 then some p2tr else none)
        else (if leb 26 len && leb len 35 then legacy_type leading else none))

unfoldable pub classify_codes : List ℕ → Option ScriptType
unfolding classify_trimmed
classify_codes [] = none
classify_codes (c ∷ cs) = classify_trimmed c (c ∷ cs)

unfoldable pub classify : String → Option ScriptType
unfolding classify_codes
classify address = classify_codes (codes (trim address))

abbrev pub event_of : DateTime → String → ScriptType → CryptoInventoryEvent
unfolding build_event
event_of now addr st = build_event now "bitcoin" addr (primitives st) (
    text_append "Bitcoin " (
      text_append (label st)
        (text_append " address; spends with " (text_append (signature st) " + SHA-256"))))

unfoldable pub recognise : DateTime → String → Option CryptoInventoryEvent
unfolding classify
recognise now addr = Option.map (event_of now addr) (classify addr)

unfoldable pub scan_addresses : DateTime → List String → ScanStats × List CryptoInventoryEvent
unfolding scan_with recognise
scan_addresses now addresses = scan_with (recognise now) addresses
