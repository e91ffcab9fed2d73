-- ===== src/Chain/Scan.antt =====
-- The loop of `scan_addresses`, in bitcoin.rs, ethereum.rs and qrl.rs of crates/ree0xq-chain/src, which differ
-- in the event that an address gives, if it is recognised.
use ree0x_q.Base.{ℕ, ◌+◌, String, Option, none, some, List, [], ◌∷◌}
use ree0x_q.Core.{CryptoInventoryEvent}

pub record ScanStats : Type 0 where
  pub addresses_seen : ℕ
  pub addresses_classified : ℕ
  pub addresses_skipped : ℕ
  pub events_emitted : ℕ

abbrev pub no_stats : ScanStats
no_stats = record {
  addresses_seen = 0;
  addresses_classified = 0;
  addresses_skipped = 0;
  events_emitted = 0;
}

abbrev pub count_event : ScanStats → ScanStats
count_event s = record s {
  addresses_seen = s.addresses_seen + 1;
  addresses_classified = s.addresses_classified + 1;
  events_emitted = s.events_emitted + 1;
}

abbrev pub count_skipped : ScanStats → ScanStats
count_skipped s = record s {
  addresses_seen = s.addresses_seen + 1;
  addresses_skipped = s.addresses_skipped + 1;
}

-- The counters after one turn, with what the address is recognised as.
abbrev pub scan_address : Option CryptoInventoryEvent → ScanStats → ScanStats
scan_address (some ev) s = count_event s
scan_address none s = count_skipped s

-- The event of one turn goes to the callback before those of the later turns.
abbrev pub emit :
    Option CryptoInventoryEvent → List CryptoInventoryEvent → List CryptoInventoryEvent
emit (some ev) out = ev ∷ out
emit none out = out

-- The loop over the addresses, with the counters so far; it gives the events of the callback.
unfoldable pub scan_from :
    (String → Option CryptoInventoryEvent)
    → List String
    → ScanStats
    → ScanStats × List CryptoInventoryEvent
scan_from recognise [] s = (s, [])
scan_from recognise (addr ∷ addrs) s =
    let rest = scan_from recognise addrs (scan_address (recognise addr) s) in
    (rest.0, emit (recognise addr) rest.1)

unfoldable pub scan_with :
    (String → Option CryptoInventoryEvent) → List String → ScanStats × List CryptoInventoryEvent
scan_with recognise addrs = scan_from recognise addrs no_stats
