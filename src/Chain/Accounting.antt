-- ===== src/Chain/Accounting.antt =====
-- What the scans of the three chains count and emit.
use ree0x_q.Base.{
  ℕ, ◌+◌, ◌≤◌, ◌≡◌, refl, sym, ap, Bool, true, false, not, String, Option, none, some, List, [],
  ◌∷◌, length, codes, if◌then◌else◌, trim, Bool-cases, Option-cases, inl, inr, ◌⊎◌, arith,
}
use mathlib.Core.Path.{subst}
use mathlib.Core.Option
use ree0x_q.Chain.Event.{build_event}
use ree0x_q.Core.{DateTime, CryptoInventoryEvent}
use ree0x_q.Chain.Scan.{ScanStats, no_stats, count_event, count_skipped, scan_from, scan_with}
use ree0x_q.Chain.Bitcoin
use ree0x_q.Chain.Ethereum
use ree0x_q.Chain.Qrl

abbrev Recogniser : Type 0
Recogniser = String → Option CryptoInventoryEvent

abbrev pub prepend :
    Option CryptoInventoryEvent → List CryptoInventoryEvent → List CryptoInventoryEvent
prepend none out = out
prepend (some ev) out = ev ∷ out

-- The events of the recognised addresses, in order.
unfoldable pub recognised : Recogniser → List String → List CryptoInventoryEvent
recognised f [] = []
recognised f (addr ∷ addrs) = prepend (f addr) (recognised f addrs)

-- What a scan emits and counts.
abbrev pub Accounts : Recogniser → List String → ScanStats × List CryptoInventoryEvent → Type 0
Accounts f addrs (s, out) =
    (out ≡ recognised f addrs)
    × (s.events_emitted ≡ length out)
    × (s.addresses_classified ≡ length out)
    × (s.addresses_seen ≡ length addrs)
    × (s.addresses_classified + s.addresses_skipped ≡ s.addresses_seen)

-- The same of a loop that begins with other counters.
abbrev Continues :
    Recogniser → List String → ScanStats → ScanStats × List CryptoInventoryEvent → Type 0
Continues f addrs start (s, out) =
    (out ≡ recognised f addrs)
    × (s.events_emitted ≡ start.events_emitted + length out)
    × (s.addresses_classified ≡ start.addresses_classified + length out)
    × (s.addresses_seen ≡ start.addresses_seen + length addrs)
    × (s.addresses_classified + s.addresses_skipped + start.addresses_seen
        ≡ s.addresses_seen + start.addresses_classified + start.addresses_skipped)

scan_from-Continues :
    (f : Recogniser) (addrs : List String) (start : ScanStats)
    → Continues f addrs start (scan_from f addrs start)
unfolding scan_from recognised
scan_from-Continues f [] start = (refl, omega arith, omega arith, omega arith, omega arith)
scan_from-Continues f (addr ∷ addrs) start = elim (Option-cases (f addr)) [
  | inl h ↦
      let rest = scan_from-Continues f addrs (count_skipped start) in
      rw h (rest.0, rest.1, rest.2, omega (arith, rest.3), omega (arith, rest.4))
  | inr h ↦
      let rest = scan_from-Continues f addrs (count_event start) in
      rw h.1 (
        ap (λ out. h.0 ∷ out) rest.0,
        omega (arith, rest.1),
        omega (arith, rest.2),
        omega (arith, rest.3),
        omega (arith, rest.4),
      )
]

scan_with-Accounts : (f : Recogniser) (addrs : List String) → Accounts f addrs (scan_with f addrs)
unfolding scan_with
scan_with-Accounts f addrs =
    let all = scan_from-Continues f addrs no_stats in
    (all.0, omega (arith, all.1), omega (arith, all.2), omega (arith, all.3), omega (arith, all.4))

-- 1 for an address that the chain recognises.
abbrev bit : Option CryptoInventoryEvent → ℕ
bit none = 0
bit (some ev) = 1

is_valid-ethereum_lem : (c : ℕ) (cs : List ℕ) → Ethereum.is_valid_trimmed (c ∷ cs) ≡ true → c ≡ 48
is_valid-ethereum_lem c cs h = ground (arith, h)

classify_trimmed_none :
    (c : ℕ) (cs : List ℕ) → (c ≡ 48) ⊎ (c ≡ 81) → Bitcoin.classify_codes (c ∷ cs) ≡ none
unfolding Bitcoin.classify_codes Bitcoin.classify_trimmed
classify_trimmed_none c cs (inl e) =
    subst (λ x. Bitcoin.classify_codes (x ∷ cs) ≡ none) (sym e) (ground arith)
classify_trimmed_none c cs (inr e) =
    subst (λ x. Bitcoin.classify_codes (x ∷ cs) ≡ none) (sym e) (ground arith)

abbrev bit_of : Option Bitcoin.ScriptType → ℕ
bit_of none = 0
bit_of (some st) = 1

abbrev truth : Bool → ℕ
truth true = 1
truth false = 0

is_valid-qrl_lem : (c : ℕ) (cs : List ℕ) → Qrl.is_valid_trimmed (c ∷ cs) ≡ true → c ≡ 81
is_valid-qrl_lem c cs h = ground (arith, h)

bit_of-le : (o : Option Bitcoin.ScriptType) → bit_of o ≤ 1
bit_of-le none = omega arith
bit_of-le (some st) = omega arith

codes_disjoint :
    (s : List ℕ)
    → bit_of (Bitcoin.classify_codes s)
        + truth (Ethereum.is_valid_trimmed s)
        + truth (Qrl.is_valid_trimmed s)
      ≤ 1
unfolding Bitcoin.classify_codes
codes_disjoint [] = omega arith
codes_disjoint (c ∷ cs) = elim (Bool-cases (Ethereum.is_valid_trimmed (c ∷ cs))) [
  | inl e ↦ elim (Bool-cases (Qrl.is_valid_trimmed (c ∷ cs))) [
    | inl q ↦ absurd (omega (arith, is_valid-ethereum_lem c cs e, is_valid-qrl_lem c cs q))
    | inr q ↦
        rw (classify_trimmed_none c cs (inl (is_valid-ethereum_lem c cs e)), e, q) (omega arith)
  ]
  | inr e ↦ elim (Bool-cases (Qrl.is_valid_trimmed (c ∷ cs))) [
    | inl q ↦ rw (classify_trimmed_none c cs (inr (is_valid-qrl_lem c cs q)), e, q) (omega arith)
    | inr q ↦ rw (e, q) (omega (arith, bit_of-le (Bitcoin.classify_codes (c ∷ cs))))
  ]
]

bit-map :
    (f : Bitcoin.ScriptType → CryptoInventoryEvent) (o : Option Bitcoin.ScriptType)
    → bit (Option.map f o) ≡ bit_of o
bit-map f none = refl
bit-map f (some st) = refl

bit-truth : (b : Bool) (ev : CryptoInventoryEvent) → bit (if not b then none else some ev) ≡ truth b
bit-truth true ev = refl
bit-truth false ev = refl

-- No text is an address of two chains.
recognisers_disjoint :
    (now : DateTime) (addr : String)
    → bit (Bitcoin.recognise now addr)
        + bit (Ethereum.recognise now addr)
        + bit (Qrl.recognise now addr)
      ≤ 1
unfolding Bitcoin.recognise Ethereum.recognise Qrl.recognise Bitcoin.classify Ethereum.is_valid
    Qrl.is_valid
recognisers_disjoint now addr =
    let s : List ℕ = codes (trim addr) in
    omega (
      arith,
      codes_disjoint s,
      bit-map (Bitcoin.event_of now addr) (Bitcoin.classify_codes s),
      bit-truth (Ethereum.is_valid_trimmed s)
          (build_event now "ethereum" (trim addr) Ethereum.primitives Ethereum.rationale),
      bit-truth (Qrl.is_valid_trimmed s)
          (build_event now "qrl" (trim addr) Qrl.primitives Qrl.rationale),
    )

length-prepend :
    (o : Option CryptoInventoryEvent) (out : List CryptoInventoryEvent)
    → length (prepend o out) ≡ bit o + length out
length-prepend none out = omega arith
length-prepend (some ev) out = omega arith

recognised-le :
    (now : DateTime) (addrs : List String)
    → length (recognised (Bitcoin.recognise now) addrs)
        + length (recognised (Ethereum.recognise now) addrs)
        + length (recognised (Qrl.recognise now) addrs)
      ≤ length addrs
unfolding recognised
recognised-le now [] = omega arith
recognised-le now (addr ∷ addrs) = omega (
  arith,
  recognisers_disjoint now addr,
  recognised-le now addrs,
  length-prepend (Bitcoin.recognise now addr) (recognised (Bitcoin.recognise now) addrs),
  length-prepend (Ethereum.recognise now addr) (recognised (Ethereum.recognise now) addrs),
  length-prepend (Qrl.recognise now addr) (recognised (Qrl.recognise now) addrs),
)

-- The scans of the three chains over one list each emit the events of the addresses that they
-- recognise, in order, classify or skip every address, and together emit at most one event for
-- each address.
pub scan_addresses-Accounts :
    (now : DateTime) (addrs : List String)
    → Accounts (Bitcoin.recognise now) addrs (Bitcoin.scan_addresses now addrs)
      × Accounts (Ethereum.recognise now) addrs (Ethereum.scan_addresses now addrs)
      × Accounts (Qrl.recognise now) addrs (Qrl.scan_addresses now addrs)
      × ((Bitcoin.scan_addresses now addrs).0.events_emitted
            + (Ethereum.scan_addresses now addrs).0.events_emitted
            + (Qrl.scan_addresses now addrs).0.events_emitted
          ≤ length addrs)
unfolding Bitcoin.scan_addresses Ethereum.scan_addresses Qrl.scan_addresses
scan_addresses-Accounts now addrs =
    let b = scan_with-Accounts (Bitcoin.recognise now) addrs in
    let e = scan_with-Accounts (Ethereum.recognise now) addrs in
    let q = scan_with-Accounts (Qrl.recognise now) addrs in
    (
      b,
      e,
      q,
      omega (
        arith,
        b.1,
        e.1,
        q.1,
        ap length b.0,
        ap length e.0,
        ap length q.0,
        recognised-le now addrs,
      ),
    )
