-- ===== src/Server/Store.antt =====
-- The in-memory event store: crates/ree0xq-server/src/store.rs. The log is in arrival order.
pub mod Newest
pub mod Recent
pub mod Race
use ree0x_q.Base.{
  ℕ, ◌-◌, Bool, true, false, ◌&&◌, String, Option, none, some, List, [], ◌∷◌, ◌++◌, map, ◌≡◌, ◌↔◌,
  arith, length, drop, ltb, if◌then◌else◌, Eq, ◌==◌, string_eq,
}
use ree0x_q.Base.Dict
use ree0x_q.Core.{CryptoInventoryEvent, Asset, AssetKind, kind_eq}
use mathlib.Core.List.{reverse}

pub record DedupKey : Type 0 where
  pub source_module : String
  pub kind : AssetKind
  pub identity : String

-- The derived `PartialEq` compares the three fields.
abbrev pub key_beq : DedupKey → DedupKey → Bool
key_beq a b = a.source_module == b.source_module && a.kind == b.kind && a.identity == b.identity

pub key_beq_iff : (a b : DedupKey) → (key_beq a b ≡ true) ↔ (a ≡ b)
key_beq_iff a b = ground (
  arith,
  string_eq.beq_iff a.source_module b.source_module,
  kind_eq.beq_iff a.kind b.kind,
  string_eq.beq_iff a.identity b.identity,
)

instance abbrev pub key_eq : Eq DedupKey
key_eq = record { beq = key_beq; beq_iff = key_beq_iff }

unfoldable pub from_event : CryptoInventoryEvent → DedupKey
from_event ev = record {
  source_module = ev.source_module;
  kind = ev.asset.kind;
  identity = ev.asset.identity;
}

pub record InMemoryEventStore : Type 0 where
  pub log : List CryptoInventoryEvent
  pub latest : List (DedupKey × CryptoInventoryEvent)

abbrev pub new : InMemoryEventStore
new = record { log = []; latest = [] }

abbrev pub push_log : InMemoryEventStore → CryptoInventoryEvent → InMemoryEventStore
push_log s ev = record s { log = s.log ++ ev ∷ [] }

abbrev pub insert_latest : InMemoryEventStore → CryptoInventoryEvent → InMemoryEventStore
insert_latest s ev = record s { latest = Dict.insert (from_event ev) ev s.latest }

-- Whether the entry held for the key makes `ev` out of date.
unfoldable pub is_stale : Option CryptoInventoryEvent → CryptoInventoryEvent → Bool
is_stale none ev = false
is_stale (some prev) ev = ltb ev.observed_at prev.observed_at

unfoldable pub append : InMemoryEventStore → CryptoInventoryEvent → InMemoryEventStore
append s ev =
    if is_stale (Dict.lookup (from_event ev) s.latest) ev
    then push_log s ev
    else push_log (insert_latest s ev) ev

unfoldable pub len : InMemoryEventStore → ℕ
len s = length s.log

unfoldable pub recent : InMemoryEventStore → ℕ → List CryptoInventoryEvent
recent s limit = reverse (drop (length s.log - limit) s.log)

unfoldable pub latest_per_asset : InMemoryEventStore → List CryptoInventoryEvent
latest_per_asset s = map (λ e. e.1) s.latest

unfoldable pub latest_for : InMemoryEventStore → Asset → String → Option CryptoInventoryEvent
latest_for s asset source_module =
    Dict.lookup
      (record { source_module = source_module; kind = asset.kind; identity = asset.identity })
      s.latest

unfoldable pub append_all : InMemoryEventStore → List CryptoInventoryEvent → InMemoryEventStore
append_all s [] = s
append_all s (ev ∷ evs) = append_all (append s ev) evs
