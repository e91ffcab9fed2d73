-- ===== src/Net/Dedup/Window.antt =====
-- What the cache does over time: an identity that was let through is a duplicate for the TTL, and
-- is let through again once the TTL has passed.
use ree0x_q.Base.{
  ℕ, ◌-◌, ◌≤◌, ◌<◌, true, false, String, some, none, List, [], ◌∷◌, ◌≡◌, ◌⊎◌, refl, arith, All,
  string_eq, ◌==◌, Option-cases, Bool-cases, inl, inr, ◌∙◌, sym, ap, ltb_iff,
}
use ree0x_q.Base.Dict
use mathlib.Core.Bool.{false≢true}
use ree0x_q.Net.Dedup.{DedupCache, is_fresh, prune, make_room, admit, observe_at, u64_max}
use ree0x_q.Net.Dedup.Bounds.{IsValid, make_room-Evicts_oldest, prune-IsValid, observe_at-IsValid}

-- A sequence of observations, each an identity and its time.
unfoldable pub observe_all : DedupCache → List (String × ℕ) → DedupCache
observe_all c [] = c
observe_all c ((identity, now) ∷ rest) = observe_all (observe_at c identity now).0 rest

-- What an operation does to an entry `identity` seen at `t`: the TTL stays, and the entry stays
-- unless the counter ticks.
record Keeps (identity : String) (t : ℕ) (c c' : DedupCache) : Type 0 where
  ttl : c'.ttl ≡ c.ttl
  entry :
      c'.forced_evictions ≡ c.forced_evictions
      → c.forced_evictions < u64_max
      → Dict.lookup identity c'.entries ≡ some t

make_room-Keeps :
    (identity : String) (t : ℕ) (c : DedupCache)
    → 1 ≤ c.capacity
    → Dict.lookup identity c.entries ≡ some t
    → Keeps identity t c (make_room c)
make_room-Keeps identity t c positive seen = elim (make_room-Evicts_oldest c positive) [
  | inr (room, same) ↦ rw same (record { ttl = refl; entry = λ _ _. seen })
  | inl (full, (old, ev)) ↦ record {
    ttl = ev.same_ttl;
    entry = λ same below. absurd (omega (arith, ev.counted));
  }
]

admit-Keeps :
    (identity other : String) (t now : ℕ) (c : DedupCache)
    → IsValid c
    → Dict.lookup identity c.entries ≡ some t
    → is_fresh c.ttl now t ≡ true
    → (other == identity) ≡ false
    → Keeps identity t c (admit c other now).0
unfolding admit
admit-Keeps identity other t now c v seen fresh ne =
    let p = prune c now in
    let stays : Dict.lookup identity p.entries ≡ some t =
      Dict.lookup-retain (λ _ u. is_fresh c.ttl now u) identity c.entries v.distinct
      ∙ rw (seen) (rw fresh) in
    let m = make_room-Keeps identity t p v.positive stays in
    record {
      ttl = m.ttl;
      entry = λ same below.
          Dict.lookup-insert other identity now (make_room p).entries ∙ rw ne (m.entry same below);
    }

Keeps-refl :
    (identity : String) (t : ℕ) (c : DedupCache)
    → Dict.lookup identity c.entries ≡ some t
    → Keeps identity t c c
Keeps-refl identity t c seen = record { ttl = refl; entry = λ _ _. seen }

observe_at-duplicate :
    (c : DedupCache) (identity : String) (t now : ℕ)
    → Dict.lookup identity c.entries ≡ some t
    → is_fresh c.ttl now t ≡ true
    → observe_at c identity now ≡ (c, false)
unfolding observe_at
observe_at-duplicate c identity t now seen fresh = rw (seen, observe_at) (rw fresh)

-- An observation within the TTL of `t` keeps an entry seen at `t`.
observe_at-Keeps :
    (identity other : String) (t now : ℕ) (c : DedupCache)
    → IsValid c
    → Dict.lookup identity c.entries ≡ some t
    → is_fresh c.ttl now t ≡ true
    → Keeps identity t c (observe_at c other now).0
unfolding observe_at
observe_at-Keeps identity other t now c v seen fresh = elim (Bool-cases (other == identity)) [
  | inl same ↦
      let e : identity ≡ other = sym ((string_eq.beq_iff other identity).0 same) in
      rw (observe_at-duplicate c other t now (rw e at seen) fresh) (Keeps-refl identity t c seen)
  | inr ne ↦ elim (Option-cases (Dict.lookup other c.entries)) [
    | inl absent ↦ rw (absent, observe_at) (admit-Keeps identity other t now c v seen fresh ne)
    | inr (u, old) ↦ elim (Bool-cases (is_fresh c.ttl now u)) [
      | inl dup ↦ rw (observe_at-duplicate c other u now old dup) (Keeps-refl identity t c seen)
      | inr expired ↦
          rw (old, expired, observe_at) (admit-Keeps identity other t now c v seen fresh ne)
    ]
  ]
]

make_room-grows : (c : DedupCache) → IsValid c → c.forced_evictions ≤ (make_room c).forced_evictions
make_room-grows c v = elim (make_room-Evicts_oldest c v.positive) [
  | inr (room, same) ↦ rw same (omega arith)
  | inl (full, (old, ev)) ↦ omega (arith, ev.counted, v.counter)
]

observe_at-grows :
    (c : DedupCache) (identity : String) (now : ℕ)
    → IsValid c
    → c.forced_evictions ≤ (observe_at c identity now).0.forced_evictions
unfolding observe_at admit
observe_at-grows c identity now v =
    let grows = make_room-grows (prune c now) (prune-IsValid c now v) in
    elim (Option-cases (Dict.lookup identity c.entries)) [
      | inl absent ↦ rw (absent, observe_at) grows
      | inr (t, seen) ↦ elim (Bool-cases (is_fresh c.ttl now t)) [
        | inl dup ↦ rw (seen, dup, observe_at) (omega arith)
        | inr expired ↦ rw (seen, expired, observe_at) grows
      ]
    ]

observe_all-grows :
    (c : DedupCache) (events : List (String × ℕ))
    → IsValid c
    → c.forced_evictions ≤ (observe_all c events).forced_evictions
unfolding observe_all
observe_all-grows c [] v = omega arith
observe_all-grows c ((identity, now) ∷ rest) v = omega (
  arith,
  observe_at-grows c identity now v,
  observe_all-grows (observe_at c identity now).0 rest (observe_at-IsValid c identity now v),
)

observe_all-Keeps :
    (identity : String) (t : ℕ) (events : List (String × ℕ)) (c : DedupCache)
    → IsValid c
    → Dict.lookup identity c.entries ≡ some t
    → All (λ e. e.1 - t < c.ttl) events
    → (observe_all c events).forced_evictions ≡ c.forced_evictions
    → c.forced_evictions < u64_max
    → (Dict.lookup identity (observe_all c events).entries ≡ some t)
      × ((observe_all c events).ttl ≡ c.ttl)
unfolding observe_all
observe_all-Keeps identity t [] c v seen h same below = (seen, refl)
observe_all-Keeps identity t ((other, now) ∷ rest) c v seen h same below =
    let c' = (observe_at c other now).0 in
    let v' = observe_at-IsValid c other now v in
    let k = observe_at-Keeps identity other t now c v seen ((ltb_iff (now - t) c.ttl).1 h.0) in
    let first : c'.forced_evictions ≡ c.forced_evictions =
      omega (arith, observe_at-grows c other now v, observe_all-grows c' rest v', same) in
    let later : All (λ e. e.1 - t < c'.ttl) rest = rw k.ttl h.1 in
    let (kept, ttl) =
      observe_all-Keeps identity t rest c' v' (k.entry first below) later (same ∙ sym first)
        (rw first below) in
    (kept, ttl ∙ k.ttl)

make_room-ttl : (c : DedupCache) → (make_room c).ttl ≡ c.ttl
unfolding make_room
make_room-ttl c = ground arith

-- An observation is a duplicate exactly if the identity was seen less than a TTL ago, and then the
-- cache stays as it is; else the identity is let through, and seen now.
pub observe_at_cases :
    (c : DedupCache) (identity : String) (now : ℕ)
    → ((observe_at c identity now ≡ (c, false))
        × ((t : ℕ) × (Dict.lookup identity c.entries ≡ some t) × (now - t < c.ttl)))
      ⊎ (((observe_at c identity now).1 ≡ true)
          × (Dict.lookup identity (observe_at c identity now).0.entries ≡ some now)
          × ((observe_at c identity now).0.ttl ≡ c.ttl)
          × ((Dict.lookup identity c.entries ≡ none)
              ⊎ ((t : ℕ) × (Dict.lookup identity c.entries ≡ some t) × (c.ttl ≤ now - t))))
unfolding observe_at admit
observe_at_cases c identity now =
    let room = make_room (prune c now) in
    let stored = Dict.lookup-insert_self identity now room.entries in
    let ttl = make_room-ttl (prune c now) in
    elim (Option-cases (Dict.lookup identity c.entries)) [
      | inl absent ↦ inr (rw (absent, observe_at) (refl, stored, ttl, inl refl))
      | inr (t, seen) ↦ elim (Bool-cases (is_fresh c.ttl now t)) [
        | inl dup ↦
            inl (rw (seen, dup, observe_at) (refl, (t, refl, (ltb_iff (now - t) c.ttl).0 dup)))
        | inr expired ↦
            inr (rw (seen, expired, observe_at) (refl, stored, ttl, inr (t, refl, ground arith)))
      ]
    ]

observe_at-seen :
    (c : DedupCache) (identity : String) (now : ℕ)
    → (observe_at c identity now).1 ≡ true
    → (Dict.lookup identity (observe_at c identity now).0.entries ≡ some now)
      × ((observe_at c identity now).0.ttl ≡ c.ttl)
observe_at-seen c identity now let_through = elim (observe_at_cases c identity now) [
  | inl dup ↦ absurd (false≢true (sym (ap (λ r. r.1) dup.0) ∙ let_through))
  | inr seen ↦ (seen.1, seen.2)
]

-- Once an identity is let through at `t`, it is a duplicate at every time less than a TTL after
-- `t`, whatever was observed meanwhile (at times less than a TTL after `t`), if no entry was
-- evicted by force in between: the counter has not moved, and is not saturated.
pub observe_at_no_repeat :
    (c : DedupCache) (identity : String) (t : ℕ) (events : List (String × ℕ)) (now : ℕ)
    → IsValid c
    → (observe_at c identity t).1 ≡ true
    → All (λ e. e.1 - t < c.ttl) events
    → (observe_all (observe_at c identity t).0 events).forced_evictions
      ≡ (observe_at c identity t).0.forced_evictions
    → (observe_at c identity t).0.forced_evictions < u64_max
    → now - t < c.ttl
    → (observe_at (observe_all (observe_at c identity t).0 events) identity now).1 ≡ false
observe_at_no_repeat c identity t events now v let_through h same below soon =
    let (seen, ttl) = observe_at-seen c identity t let_through in
    let c' = (observe_at c identity t).0 in
    let (kept, ttl') =
      observe_all-Keeps identity t events c' (observe_at-IsValid c identity t v) seen (rw ttl h)
        same below in
    ap (λ r. r.1)
      (observe_at-duplicate (observe_all c' events) identity t now kept
        ((ltb_iff (now - t) (observe_all c' events).ttl).1 (rw (ttl', ttl) soon)))
