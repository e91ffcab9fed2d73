-- ===== src/Server/Routes/Plan.antt =====
-- The roadmap route against the posture route.
use ree0x_q.Base.{ℕ, ◌≤◌, ◌≡◌, refl, List, [], ◌∷◌, map, length, count, arith}
use ree0x_q.Core.{F32, DateTime, CryptoInventoryEvent}
use ree0x_q.Server.Store.{InMemoryEventStore, latest_per_asset}
use ree0x_q.Server.Posture.{Float}
use ree0x_q.Server.Inventory.{Settings, org_posture, event_is_blocked}
use ree0x_q.Agility.Roadmap.{
  AssetSnapshot, Milestone, MilestoneProjection, is_blocked, index, project_roadmap,
}
use ree0x_q.Agility.Roadmap.Trajectory.{Descends, blocked_count, project_roadmap-trajectory}
use ree0x_q.Server.Routes.{snapshot_of, agility_roadmap}

-- The blocked assets never rise above a bound.
abbrev pub StaysBelow : ℕ → List MilestoneProjection → Type 0
StaysBelow bound [] = Unit
StaysBelow bound (r ∷ rows) =
    (r.blocked_before ≤ bound) × (r.blocked_after ≤ bound) × StaysBelow bound rows

Descends-StaysBelow :
    (bound blocked : ℕ) (rows : List MilestoneProjection)
    → blocked ≤ bound
    → Descends blocked rows
    → StaysBelow bound rows
Descends-StaysBelow bound blocked [] le d = tt
Descends-StaysBelow bound blocked (r ∷ rows) le d =
    let ends : r.blocked_after ≤ bound = omega (arith, le, d.0, d.1) in
    (omega (arith, le, d.0), ends, Descends-StaysBelow bound r.blocked_after rows ends d.2)

module _ (f : Float) (sum : List F32 → F32) (div : F32 → ℕ → F32) (st : Settings)
    (now : DateTime) where
  count-map-snapshot_of :
      (evs : List CryptoInventoryEvent)
      → count is_blocked (map (snapshot_of f sum div st now) evs) ≡ count event_is_blocked evs
  count-map-snapshot_of [] = refl
  count-map-snapshot_of (ev ∷ evs) = ground (arith, count-map-snapshot_of evs)

  length-map-snapshot_of :
      (evs : List CryptoInventoryEvent)
      → length (map (snapshot_of f sum div st now) evs) ≡ length evs
  length-map-snapshot_of [] = refl
  length-map-snapshot_of (ev ∷ evs) = omega (arith, length-map-snapshot_of evs)

  -- On any store and at one time the roadmap and the posture agree on the number of assets and of
  -- blocked assets today, and no row of the roadmap has more blocked assets than the posture counts.
  pub agility_roadmap-org_posture :
      (s : InMemoryEventStore) (plan : List Milestone)
      → ((agility_roadmap f sum div st s now plan).total_assets ≡ (org_posture f st s now).assets)
        × ((agility_roadmap f sum div st s now plan).today_blocked
            ≡ (org_posture f st s now).blocked_count)
        × StaysBelow
            (org_posture f st s now).blocked_count
            (agility_roadmap f sum div st s now plan).projections
  unfolding agility_roadmap org_posture project_roadmap
  agility_roadmap-org_posture s plan =
      let evs : List CryptoInventoryEvent = latest_per_asset s in
      let snapshots : List AssetSnapshot = map (snapshot_of f sum div st now) evs in
      let shape = project_roadmap-trajectory sum div snapshots plan in
      (
        length-map-snapshot_of evs,
        count-map-snapshot_of evs,
        Descends-StaysBelow (count event_is_blocked evs) (blocked_count (index [] snapshots))
            (project_roadmap sum div snapshots plan).projections
            (omega (arith, shape.4, count-map-snapshot_of evs)) shape.3,
      )
