-- ===== src/Tests/Routes.antt =====
-- The read-only routes, the tables behind them and the client key on small inputs.
use ree0x_q.Base.{
  ℕ, ◌≡◌, ◌↔◌, refl, true, none, some, List, [], ◌∷◌, length, count, keep, with_key, All, IsSorted,
  arith,
}
use ree0x_q.Agility.Compat.{
  CompatEntry, lookup, list_stack, lower_codes, stack_supports, build_matrix, experimental, unknown,
}
use ree0x_q.Base.Dict
use ree0x_q.Agility.Compat.Lookup.{Lists, lookup-list_stack}
use ree0x_q.Agility.Deadlines.{d, entries, effective}
use ree0x_q.Agility.Roadmap.{Milestone}
use ree0x_q.Server.Store.{append_all, InMemoryEventStore}
use ree0x_q.Server.Store as Store
use ree0x_q.Server.Inventory.{org_posture}
use ree0x_q.Server.Routes.{DeadlinesQuery, DeadlinesResponse, agility_deadlines, agility_roadmap}
use ree0x_q.Server.Routes.Horizon.{matches, agility_deadlines-IsSorted}
use ree0x_q.Server.Routes.Plan.{StaysBelow, agility_roadmap-org_posture}
use ree0x_q.Server.ClientKey.{client_key}
use ree0x_q.Tests.Samples.{event_at, toy, settings}

abbrev ml_dsa : CompatEntry
ml_dsa = record {
  stack = "openssl-3.x";
  algorithm = "ML-DSA-65";
  status = experimental;
  min_version = some "3.5.0";
  source = some "https://github.com/open-quantum-safe/oqs-provider";
}

stack_supports_runs :
    (stack_supports "OpenSSL-3.x" "ml-dsa-65" ≡ experimental)
    × (stack_supports "openssl-3.x" "RSA" ≡ unknown)
unfolding stack_supports build_matrix Dict.lookup Dict.insert
stack_supports_runs = (refl, refl)

lookup-list_stack_example : (lookup "OpenSSL-3.x" "ml-dsa-65" ≡ some ml_dsa) ↔ (
    Lists ml_dsa (list_stack "OpenSSL-3.x") × (lower_codes "ml-dsa-65" ≡ lower_codes "ML-DSA-65"))
lookup-list_stack_example = lookup-list_stack "OpenSSL-3.x" "ml-dsa-65" ml_dsa

-- The deadlines of the US within ten years of 2026-01-01.
abbrev query : DeadlinesQuery
query = record { jurisdiction = some "us"; horizon_days = some 3_653 }

-- 262142-12-31, the last day of chrono.
abbrev max_utc : ℕ
max_utc = d 95_026_236

abbrev new_year : ℕ
new_year = d 20_454

agility_deadlines-IsSorted_example :
    (r : DeadlinesResponse) × (agility_deadlines max_utc new_year query ≡ some r)
    × IsSorted effective r.items
    × ((day : ℕ)
        → with_key effective day r.items
          ≡ with_key effective day (keep (matches new_year query) entries))
    × All (λ e. matches new_year query e ≡ true) r.items
    × (r.count ≡ count (matches new_year query) entries)
    × (r.count ≡ length r.items)
agility_deadlines-IsSorted_example = agility_deadlines-IsSorted max_utc new_year query (omega arith)

us_deadlines : count (matches new_year query) entries ≡ 5
us_deadlines = refl

abbrev sample_store : InMemoryEventStore
sample_store = append_all Store.new (event_at 5 ∷ event_at 9 ∷ [])

abbrev migration : List Milestone
migration =
    (record {
      label = "m1";
      date = 7;
      asset_ids = "10.0.0.1:443" ∷ [];
      target_primitives = "ML-DSA-65" ∷ [];
    })
    ∷ []

agility_roadmap-org_posture_example :
    ((agility_roadmap toy (λ qs. 0) (λ q n. q) settings sample_store 5 migration).total_assets
      ≡ (org_posture toy settings sample_store 5).assets)
    × ((agility_roadmap toy (λ qs. 0) (λ q n. q) settings sample_store 5 migration).today_blocked
        ≡ (org_posture toy settings sample_store 5).blocked_count)
    × StaysBelow
        (org_posture toy settings sample_store 5).blocked_count
        (agility_roadmap toy (λ qs. 0) (λ q n. q) settings sample_store 5 migration).projections
agility_roadmap-org_posture_example =
    agility_roadmap-org_posture toy (λ qs. 0) (λ q n. q) settings 5 sample_store migration

client_key_runs :
    (client_key (some " 1.2.3.4, 5.6.7.8") none (some "9.9.9.9") ≡ "1.2.3.4")
    × (client_key (some " , 5.6.7.8") (some " 7.7.7.7 ") none ≡ "7.7.7.7")
    × (client_key none none none ≡ "unknown")
unfolding client_key
client_key_runs = (refl, refl, refl)
