-- ===== src/Tests/Server.antt =====
-- The store, the limiter, ingestion and enrolment on small inputs.
use ree0x_q.Base.{
  ℕ, ◌≤◌, ◌≡◌, ◌≢◌, ◌↔◌, refl, ◌⊎◌, inr, ◌++◌, List, [], ◌∷◌, String, Option, some, none, true,
  false, count, ltb, if◌then◌else◌, string_eq, ◌==◌, ◌&&◌, All, ℤ, pos, arith,
}
use mathlib.Core.Bool.{false≢true}
use mathlib.Core.List.{reverse}
use ree0x_q.Base.Dict
use ree0x_q.Core.{CryptoInventoryEvent, tls_session}
use ree0x_q.Server.Store.{
  InMemoryEventStore, DedupKey, key_eq, from_event, append_all, latest_for, recent, is_stale,
}
use ree0x_q.Server.Store as Store
use ree0x_q.Server.Store.Newest.{IsLatest, latest_for-IsLatest}
use ree0x_q.Server.Store.Recent.{take, recent-append_all}
use ree0x_q.Server.Store.Race.{World, reading, returned, run, run_loses_newest}
use ree0x_q.Server.Ingest.{ok, err, ingest_batch, ingest_batch_atomic, version_mismatch}
use ree0x_q.Server.RateLimit.{check_at, is_live}
use ree0x_q.Server.RateLimit as RateLimit
use ree0x_q.Server.RateLimit.Window.{check_all, times, check_at_sliding_window}
use ree0x_q.Server.Enrol.{
  TokenEntry, BootstrapTokenStore, redeemed, refused, unknown_token, issue, consume, prune_expired,
  IssueTokenRequest, EnrolRequest, issue_bootstrap_token, enrol, constant_time_eq,
}
use ree0x_q.Server.Enrol.Tokens as Tokens
use ree0x_q.Server.Enrol.Tokens.{
  Op, consume_op, prune_op, burns, lookup-consume, consume_single_use, issue-consume,
  constant_time_eq_iff,
}
use ree0x_q.Server.Enrol.Handlers.{
  is_ok, Authorised, Admitted, issue_bootstrap_token-cases, enrol-ok_iff, enrol_spends,
}
use ree0x_q.Server.Inventory.{inventory, blocked_assets, org_posture}
use ree0x_q.Server.Inventory.Counts.{inventory-blocked_assets-org_posture}
use ree0x_q.Tests.Samples.{event_at, host, toy, settings}

abbrev three_events : List CryptoInventoryEvent
three_events = event_at 5 ∷ event_at 9 ∷ event_at 7 ∷ []

latest_for-IsLatest_example :
    IsLatest
      (record { source_module = "ree0xq-net"; kind = tls_session; identity = "10.0.0.1:443" })
      three_events
      (latest_for (append_all Store.new three_events) host "ree0xq-net")
latest_for-IsLatest_example = latest_for-IsLatest three_events host "ree0xq-net"

recent-append_all_example :
    recent (append_all Store.new three_events) 2 ≡ take 2 (reverse three_events)
recent-append_all_example = recent-append_all three_events 2

fresh_event : is_stale (Dict.lookup (from_event (event_at 5)) Store.new.latest) (event_at 5) ≡ false
unfolding is_stale Dict.lookup
fresh_event = refl

same_key : from_event (event_at 5) ≡ from_event (event_at 9)
unfolding from_event
same_key = refl

run_loses_newest_example :
    (schedule : List ℕ) × (w : World) × (run schedule
        (record { calls = reading (event_at 5) ∷ reading (event_at 9) ∷ []; store = Store.new })
      ≡ w)
    × (w.calls ≡ returned ∷ returned ∷ [])
    × (w.store.log ≡ event_at 9 ∷ event_at 5 ∷ [])
    × (Dict.lookup (from_event (event_at 9)) w.store.latest ≡ some (event_at 5))
run_loses_newest_example =
    run_loses_newest Store.new (event_at 5) (event_at 9) same_key (omega arith) fresh_event

ingest_batch_atomic_example :
    (All (λ ev. ev.schema_version ≡ 1) three_events
      × ((ingest_batch Store.new three_events).1 ≡ ok 3)
      × ((ingest_batch Store.new three_events).0.log ≡ [] ++ three_events))
    ⊎ ((¬ All (λ ev. ev.schema_version ≡ 1) three_events)
        × (ingest_batch Store.new three_events ≡ (Store.new, err version_mismatch)))
ingest_batch_atomic_example = ingest_batch_atomic Store.new three_events

abbrev requests : List (String × ℕ)
requests = ("a", 1) ∷ ("b", 2) ∷ ("a", 3) ∷ ("a", 4) ∷ []

check_at_sliding_window_example :
    ((check_at (check_all (RateLimit.new 2 10) [] requests).0 "a" 5).1
      ≡ ltb (count (is_live 10 5) (times "a" (check_all (RateLimit.new 2 10) [] requests).1)) 2)
    × (count (is_live 10 5) (times "a" (check_all (RateLimit.new 2 10) [] requests).1) ≤ 2)
unfolding RateLimit.Window.clock
check_at_sliding_window_example =
    check_at_sliding_window 2 10 requests "a" 5
      (omega arith, (omega arith, (omega arith, (omega arith, tt)))) (omega arith)

abbrev entry : TokenEntry
entry = record { agent_id = "agent-1"; expires_at = 100 }

abbrev t0 : String
t0 = "t-0"

abbrev t1 : String
t1 = "t-1"

t1_present : t1 ≢ ""
t1_present e = false≢true ((string_eq.beq_iff t1 "").1 e)

other_agent : ◌≢◌ {A = String} "agent-1" "agent-2"
other_agent e = false≢true ((string_eq.beq_iff "agent-1" "agent-2").1 e)

abbrev tokens : BootstrapTokenStore
tokens = record { tokens = ("t-0", entry) ∷ ("t-1", entry) ∷ [] }

t1_found : Dict.lookup "t-1" tokens.tokens ≡ some entry
unfolding Dict.lookup
t1_found = refl

t1_burnt : burns (consume tokens 50 "t-1" "agent-1").1 ≡ true
unfolding consume Dict.lookup
t1_burnt = refl

consume_single_use_example :
    (consume
      (Tokens.run (consume tokens 50 "t-1" "agent-1").0 (prune_op 60 ∷ []))
      70
      "t-1"
      "agent-1").1
    ≡ refused unknown_token
consume_single_use_example =
    consume_single_use tokens 50 "t-1" "agent-1" (prune_op 60 ∷ []) 70 "agent-1" t1_burnt (tt, tt)

lookup-consume_example : Dict.lookup "t-0" (consume tokens 50 "t-1" "agent-1").0.tokens ≡ (
    if t1 == t0 && burns (consume tokens 50 "t-1" "agent-1").1
    then none
    else Dict.lookup "t-0" tokens.tokens)
lookup-consume_example = lookup-consume tokens 50 "t-1" "agent-1" "t-0"

tokens-Distinct : Dict.Distinct tokens.tokens
unfolding Dict.lookup
tokens-Distinct = (refl, (refl, tt))

issue-consume_example :
    (consume
      (Tokens.run
        (issue tokens "t-2" 7 "agent-2" (pos 1)).0
        (consume_op 20 "t-2" "agent-1" ∷ prune_op 30 ∷ []))
      40
      "t-2"
      "agent-2").1
    ≡ redeemed (record { agent_id = "agent-2"; expires_at = 3_600_000_000_007 })
issue-consume_example =
    issue-consume tokens "t-2" "agent-2" 7 (pos 1)
      (consume_op 20 "t-2" "agent-1" ∷ prune_op 30 ∷ []) 40 tokens-Distinct
      (inr (omega arith, other_agent), (omega arith, tt)) (omega arith)

abbrev bytes : ℕ → List ℕ
bytes last = 7 ∷ last ∷ []

constant_time_eq_iff_example : (constant_time_eq (bytes 2) (bytes 3) ≡ true) ↔ (bytes 2 ≡ bytes 3)
constant_time_eq_iff_example = constant_time_eq_iff (bytes 2) (bytes 3)

abbrev ask : IssueTokenRequest
ask = record { agent_id = "agent-3"; ttl_hours = some (pos 2) }

issue_bootstrap_token-cases_example :
    ((issue_bootstrap_token (some "secret") tokens "t-3" 5 6 (some "secret") ask).0 ≡ tokens)
      × (is_ok (issue_bootstrap_token (some "secret") tokens "t-3" 5 6 (some "secret") ask).1
          ≡ false)
      × ¬ Authorised (some "secret") (some "secret") ask
    ⊎ Authorised (some "secret") (some "secret") ask
      × (issue_bootstrap_token (some "secret") tokens "t-3" 5 6 (some "secret") ask ≡ (
        (issue (prune_expired tokens 5) "t-3" 6 "agent-3" (pos 2)).0,
        ok (issue (prune_expired tokens 5) "t-3" 6 "agent-3" (pos 2)).1,
      ))
issue_bootstrap_token-cases_example =
    issue_bootstrap_token-cases (some "secret") tokens "t-3" 5 6 (some "secret") ask

-- A CA whose certificate is the agent's id.
abbrev sign : String → ℤ → Option String
sign agent days = some agent

abbrev joining : EnrolRequest
joining = record { agent_id = "agent-1"; validity_days = some (pos 30) }

enrol-ok_iff_example :
    ((enrol sign tokens 50 (some "t-1") joining).1 ≡ ok "agent-1")
    ↔ Admitted sign tokens 50 (some "t-1") joining "agent-1"
enrol-ok_iff_example = enrol-ok_iff sign tokens 50 (some "t-1") joining "agent-1"

-- A validity that is out of range.
abbrev too_long : EnrolRequest
too_long = record { agent_id = "agent-1"; validity_days = some (pos 4_000) }

enrol_spends_example :
    Dict.lookup "t-1" (enrol sign tokens 50 (some "t-1") too_long).0.tokens
    ≡ (if t1 == t1 then none else Dict.lookup "t-1" tokens.tokens)
enrol_spends_example =
    enrol_spends sign tokens 50 "t-1" "t-1" too_long entry t1_present t1_found (omega arith) refl

inventory-blocked_assets-org_posture_example :
    ((inventory toy settings (append_all Store.new three_events) 5).count
      ≡ (org_posture toy settings (append_all Store.new three_events) 5).assets)
    × ((blocked_assets toy settings (append_all Store.new three_events) 5).count
        ≡ (org_posture toy settings (append_all Store.new three_events) 5).blocked_count)
    × (count (λ i. i.blocked) (inventory toy settings (append_all Store.new three_events) 5).items
        ≡ (org_posture toy settings (append_all Store.new three_events) 5).blocked_count)
    × (count
          (λ i. i.blocked)
          (blocked_assets toy settings (append_all Store.new three_events) 5).items
        ≡ (blocked_assets toy settings (append_all Store.new three_events) 5).count)
inventory-blocked_assets-org_posture_example =
    inventory-blocked_assets-org_posture toy settings (append_all Store.new three_events) 5
