-- ===== src/Net/Dedup/Bounds.antt =====
-- The cache never holds more entries than its capacity, nor an identity twice, and makes room by
-- evicting the oldest entry.
use ree0x_q.Base.{
  ℕ, ◌+◌, ◌≤◌, ◌<◌, String, some, List, [], ◌∷◌, length, leb, min, ◌≡◌, ◌⊎◌, refl, arith, All,
  All-map, if◌then◌else◌, string_eq, ◌==◌, Option-cases, Bool-cases, inl, inr,
}
use ree0x_q.Base.Dict
use mathlib.Core.Path.{subst}
use ree0x_q.Net.Dedup.{
  DedupCache, new, oldest, is_fresh, prune, make_room, admit, observe_at, u64_max,
}

pub record IsValid (c : DedupCache) : Type 0 where
  pub positive : 1 ≤ c.capacity
  pub bounded : length c.entries ≤ c.capacity
  pub distinct : Dict.Distinct c.entries
  pub counter : c.forced_evictions ≤ u64_max

pub new-IsValid : (ttl capacity : ℕ) → IsValid (new ttl capacity)
unfolding new
new-IsValid ttl capacity = record {
  positive = ground arith;
  bounded = ground arith;
  distinct = tt;
  counter = omega arith;
}

oldest-some :
    (e : String × ℕ) (m : List (String × ℕ)) → (old : String × ℕ) × (oldest (e ∷ m) ≡ some old)
unfolding oldest
oldest-some (k, t) m = elim (Option-cases (oldest m)) [
  | inl empty ↦ ((k, t), rw empty)
  | inr (best, found) ↦ (if leb t best.1 then (k, t) else best, ground arith)
]

nonempty_oldest :
    (m : List (String × ℕ)) → 1 ≤ length m → (old : String × ℕ) × (oldest m ≡ some old)
nonempty_oldest [] h = absurd (omega arith)
nonempty_oldest (e ∷ m) h = oldest-some e m

-- The oldest entry is in the map, and no entry is older.
pub oldest-le :
    (m : List (String × ℕ)) (old : String × ℕ) → oldest m ≡ some old → All (λ e. old.1 ≤ e.1) m
unfolding oldest
oldest-le [] old h = tt
oldest-le ((k, t) ∷ []) old h = (ground arith, tt)
oldest-le ((k, t) ∷ e ∷ m) old h =
    let (best, found) = oldest-some e m in
    let after = oldest-le (e ∷ m) best found in
    elim (Bool-cases (leb t best.1)) [
      | inl here ↦
          let same : (k, t) ≡ old = cc (rw (found, here, oldest) at h) in
          (ground arith, All-map (e ∷ m) (λ x le. ground arith) after)
      | inr later ↦
          let same : best ≡ old = cc (rw (found, later, oldest) at h) in
          (ground arith, All-map (e ∷ m) (λ x le. ground arith) after)
    ]

pub oldest-present :
    (m : List (String × ℕ)) (old : String × ℕ)
    → oldest m ≡ some old
    → (t : ℕ) × (Dict.lookup old.0 m ≡ some t)
unfolding oldest Dict.lookup
oldest-present [] old h = absurd (ground arith)
oldest-present ((k, t) ∷ m) old h = elim (Bool-cases (k == old.0)) [
  | inl here ↦ (t, rw here)
  | inr other ↦ elim (Option-cases (oldest m)) [
    | inl empty ↦ absurd (ground (arith, string_eq.beq_iff k old.0))
    | inr (best, found) ↦
        let same : best ≡ old = ground (arith, string_eq.beq_iff k old.0) in
        let (u, present) = oldest-present m best found in
        (u, rw other (subst (λ o. Dict.lookup o.0 m ≡ some u) same present))
  ]
]

-- What `make_room` does to a full cache: `old` is an entry of it, none is older, it alone goes,
-- and the counter ticks unless it is saturated.
pub record Evicts (c c' : DedupCache) (old : String × ℕ) : Type 0 where
  pub time : ℕ
  pub present : Dict.lookup old.0 c.entries ≡ some time
  pub is_oldest : All (λ e. old.1 ≤ e.1) c.entries
  pub entries_left : c'.entries ≡ Dict.remove old.0 c.entries
  pub counted : c'.forced_evictions ≡ min (c.forced_evictions + 1) u64_max
  pub same_ttl : c'.ttl ≡ c.ttl
  pub same_capacity : c'.capacity ≡ c.capacity

-- A full cache, of capacity at least 1, evicts exactly one entry, and none is older; any other
-- cache is left as it is.
pub make_room-Evicts_oldest :
    (c : DedupCache)
    → 1 ≤ c.capacity
    → ((c.capacity ≤ length c.entries) × ((old : String × ℕ) × Evicts c (make_room c) old))
      ⊎ ((length c.entries < c.capacity) × (make_room c ≡ c))
unfolding make_room
make_room-Evicts_oldest c positive = elim (Bool-cases (leb c.capacity (length c.entries))) [
  | inr room ↦ inr (ground arith, rw room)
  | inl full ↦
      let (old, found) = nonempty_oldest c.entries (ground arith) in
      let (t, there) = oldest-present c.entries old found in
      inl (
        ground arith,
        (
          old,
          rw full (
              rw (found) (record {
                time = t;
                present = there;
                is_oldest = oldest-le c.entries old found;
                entries_left = refl;
                counted = refl;
                same_ttl = refl;
                same_capacity = refl;
              })),
        ),
      )
]

pub prune-IsValid : (c : DedupCache) (now : ℕ) → IsValid c → IsValid (prune c now)
prune-IsValid c now v = record {
  positive = v.positive;
  bounded = omega (arith, Dict.length-retain-le (λ _ t. is_fresh c.ttl now t) c.entries, v.bounded);
  distinct = Dict.retain-Distinct (λ _ t. is_fresh c.ttl now t) c.entries v.distinct;
  counter = v.counter;
}

-- After `make_room` there is room for one more.
make_room-IsValid :
    (c : DedupCache)
    → IsValid c
    → IsValid (make_room c)
      × (length (make_room c).entries < c.capacity)
      × ((make_room c).capacity ≡ c.capacity)
make_room-IsValid c v = elim (make_room-Evicts_oldest c v.positive) [
  | inr (room, same) ↦ rw same (v, room, refl)
  | inl (full, (old, ev)) ↦
      let shrinks = Dict.length-remove-lt old.0 c.entries ev.time ev.present in
      let fewer : length (make_room c).entries < c.capacity =
        rw ev.entries_left (omega (arith, shrinks, v.bounded)) in
      (
        record {
          positive = rw ev.same_capacity v.positive;
          bounded = rw ev.same_capacity (omega (arith, fewer));
          distinct = rw ev.entries_left (Dict.remove-Distinct old.0 c.entries v.distinct);
          counter = rw ev.counted (omega arith);
        },
        fewer,
        ev.same_capacity,
      )
]

admit-IsValid :
    (c : DedupCache) (identity : String) (now : ℕ) → IsValid c → IsValid (admit c identity now).0
unfolding admit
admit-IsValid c identity now v =
    let p = prune-IsValid c now v in
    let (r, room, same) = make_room-IsValid (prune c now) p in
    record {
      positive = r.positive;
      bounded =
          omega
            (arith, Dict.length-insert identity now (make_room (prune c now)).entries, room, same);
      distinct = Dict.insert-Distinct identity now (make_room (prune c now)).entries r.distinct;
      counter = r.counter;
    }

-- Every observation keeps the cache within its capacity, with no identity twice, and its counter
-- within a u64.
pub observe_at-IsValid :
    (c : DedupCache) (identity : String) (now : ℕ)
    → IsValid c
    → IsValid (observe_at c identity now).0
unfolding observe_at
observe_at-IsValid c identity now v = elim (Option-cases (Dict.lookup identity c.entries)) [
  | inl new ↦ rw (new, observe_at) (admit-IsValid c identity now v)
  | inr (t, seen) ↦ elim (Bool-cases (is_fresh c.ttl now t)) [
    | inl dup ↦ rw (seen, dup, observe_at) v
    | inr expired ↦ rw (seen, expired, observe_at) (admit-IsValid c identity now v)
  ]
]
