-- ===== src/Net/Dedup.antt =====
-- The recent-session cache: crates/ree0xq-net/src/dedup.rs. Times and the TTL are nanoseconds of
-- a monotonic clock; `now.duration_since(t)` is 0 for a later `t`, as `-` on ℕ is.
pub mod Bounds
pub mod Window
use ree0x_q.Base.{
  ℕ, ◌+◌, ◌-◌, ◌^◌, Bool, true, false, String, Option, some, none, List, [], ◌∷◌, length, ltb, leb,
  min, if◌then◌else◌, string_eq,
}
use ree0x_q.Base.Dict

abbrev pub u64_max : ℕ
u64_max = 2 ^ 64 - 1

pub record DedupCache : Type 0 where
  pub ttl : ℕ
  pub capacity : ℕ
  pub entries : List (String × ℕ)
  pub forced_evictions : ℕ

abbrev pub default_ttl : ℕ
default_ttl = 300_000_000_000

abbrev pub default_capacity : ℕ
default_capacity = 65_536

-- `capacity.max(1)`
unfoldable pub new : ℕ → ℕ → DedupCache
new ttl capacity = record {
  ttl = ttl;
  capacity = if leb 1 capacity then capacity else 1;
  entries = [];
  forced_evictions = 0;
}

-- `min_by_key(|(_, t)| **t)`: the first entry with the least time.
pub oldest : List (String × ℕ) → Option (String × ℕ)
oldest [] = none
oldest ((k, t) ∷ m) = elim (oldest m) [
  | none ↦ some (k, t)
  | some best ↦ if leb t best.1 then some (k, t) else some best
]

abbrev pub is_fresh : ℕ → ℕ → ℕ → Bool
is_fresh ttl now t = ltb (now - t) ttl

-- Drops every entry older than the TTL.
abbrev pub prune : DedupCache → ℕ → DedupCache
prune c now = record c { entries = Dict.retain (λ _ t. is_fresh c.ttl now t) c.entries }

-- At capacity the oldest entry goes, and the counter (a saturating u64) goes up.
pub make_room : DedupCache → DedupCache
unfolding oldest
make_room c =
    if leb c.capacity (length c.entries)
    then (elim (oldest c.entries) [
      | none ↦ c
      | some old ↦ record c {
        entries = Dict.remove old.0 c.entries;
        forced_evictions = min (c.forced_evictions + 1) u64_max;
      }
    ])
    else c

abbrev pub record_seen : DedupCache → String → ℕ → DedupCache
record_seen c identity now = record c { entries = Dict.insert identity now c.entries }

-- The insert path, reached when the identity is unknown or its entry has expired.
pub admit : DedupCache → String → ℕ → DedupCache × Bool
unfolding make_room
admit c identity now = (record_seen (make_room (prune c now)) identity now, true)

unfoldable pub observe_at : DedupCache → String → ℕ → DedupCache × Bool
unfolding admit
observe_at c identity now = elim (Dict.lookup identity c.entries) [
  | some seen_at ↦ if is_fresh c.ttl now seen_at then (c, false) else admit c identity now
  | none ↦ admit c identity now
]
