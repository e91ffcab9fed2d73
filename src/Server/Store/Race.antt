-- ===== src/Server/Store/Race.antt =====
-- `append` under concurrency. Its read of `latest`, its insert and its push onto the log are three
-- critical sections of crates/ree0xq-server/src/store.rs, and other calls may run between them.
use ree0x_q.Base.{
  ℕ, ◌<◌, false, List, [], ◌∷◌, ◌++◌, Option, none, some, ◌≡◌, refl, arith, if◌then◌else◌,
  get_elem?, set, Bool-cases, inl, inr,
}
use mathlib.Core.Path.{subst}
use ree0x_q.Base.Dict
use ree0x_q.Core.{CryptoInventoryEvent}
use ree0x_q.Server.Store.{
  key_eq, InMemoryEventStore, from_event, is_stale, push_log, insert_latest, append,
}

-- Where a call of `append` stands.
pub data Call : Type 0 where
  reading : CryptoInventoryEvent → Call
  inserting : CryptoInventoryEvent → Call
  pushing : CryptoInventoryEvent → Call
  returned : Call

-- One critical section of a call.
unfoldable pub advance_call : Call → InMemoryEventStore → Call × InMemoryEventStore
advance_call (reading ev) s =
    (if is_stale (Dict.lookup (from_event ev) s.latest) ev then pushing ev else inserting ev, s)
advance_call (inserting ev) s = (pushing ev, insert_latest s ev)
advance_call (pushing ev) s = (returned, push_log s ev)
advance_call returned s = (returned, s)

-- The calls in flight, and the store that they share.
pub record World : Type 0 where
  pub calls : List Call
  pub store : InMemoryEventStore

unfoldable pub step : ℕ → World → World
step i w = elim (get_elem? w.calls i) [
  | none ↦ w
  | some call ↦
      let (call', store') = advance_call call w.store in
      record { calls = set w.calls i call'; store = store' }
]

-- A schedule names the call that runs next.
pub run : List ℕ → World → World
run [] w = w
run (i ∷ is) w = run is (step i w)

-- A call that runs with no other in between is `append`.
pub run_alone-append :
    (s : InMemoryEventStore) (ev : CryptoInventoryEvent)
    → run (0 ∷ 0 ∷ 0 ∷ []) (record { calls = reading ev ∷ []; store = s })
      ≡ record { calls = returned ∷ []; store = append s ev }
unfolding run step advance_call append
run_alone-append s ev = elim (Bool-cases (is_stale (Dict.lookup (from_event ev) s.latest) ev)) [
  | inl stale ↦ rw stale
  | inr fresh ↦ rw fresh
]

is_stale_newer :
    (o : Option CryptoInventoryEvent) (older newer : CryptoInventoryEvent)
    → older.observed_at < newer.observed_at
    → is_stale o older ≡ false
    → is_stale o newer ≡ false
unfolding is_stale
is_stale_newer none older newer lt h = refl
is_stale_newer (some prev) older newer lt h = ground arith

-- Two concurrent appends of one key can lose the newer event: where neither is out of date for the
-- store, there is a schedule after which both calls have returned and both events are in the log,
-- and the map holds the older one.
pub run_loses_newest :
    (s : InMemoryEventStore) (older newer : CryptoInventoryEvent)
    → from_event older ≡ from_event newer
    → older.observed_at < newer.observed_at
    → is_stale (Dict.lookup (from_event older) s.latest) older ≡ false
    → (schedule : List ℕ) × (w : World) × (run schedule
          (record { calls = reading older ∷ reading newer ∷ []; store = s })
        ≡ w)
      × (w.calls ≡ returned ∷ returned ∷ [])
      × (w.store.log ≡ (s.log ++ newer ∷ []) ++ older ∷ [])
      × (Dict.lookup (from_event newer) w.store.latest ≡ some older)
unfolding run step advance_call
run_loses_newest s older newer same lt fresh =
    let fresh' : is_stale (Dict.lookup (from_event newer) s.latest) newer ≡ false =
      rw (← same) (is_stale_newer (Dict.lookup (from_event older) s.latest) older newer lt fresh) in
    (
      0 ∷ 1 ∷ 1 ∷ 1 ∷ 0 ∷ 0 ∷ [],
      record {
        calls = returned ∷ returned ∷ [];
        store = push_log (insert_latest (push_log (insert_latest s newer) newer) older) older;
      },
      rw fresh (rw fresh'),
      refl,
      refl,
      subst
          (λ k.
            Dict.lookup k (Dict.insert (from_event older) older (insert_latest s newer).latest)
            ≡ some older)
          same (Dict.lookup-insert_self (from_event older) older (insert_latest s newer).latest),
    )
