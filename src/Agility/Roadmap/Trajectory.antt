-- ===== src/Agility/Roadmap/Trajectory.antt =====
-- The shape of a projected trajectory.
use ree0x_q.Base.{
  ℕ, ◌+◌, ◌≤◌, String, Option, none, some, List, [], ◌∷◌, length, count, string_eq, ◌==◌,
  sort_by_key, IsSorted, with_key, sort_by_key-IsSorted, with_key-sort_by_key, ◌≡◌, refl, arith,
  Bool-cases, inl, inr,
}
use ree0x_q.Base.Dict
use ree0x_q.Core.{F32}
use ree0x_q.Agility.Roadmap.{
  AssetSnapshot, Milestone, MilestoneProjection, State, values, is_blocked, migrated_asset,
  migrate_found, migrate, index, project, date_of, project_roadmap,
}

abbrev pub blocked_count : State → ℕ
blocked_count state = count is_blocked (values state)

-- Replacing an asset by a migrated one blocks none.
blocked-insert :
    (target : List String) (id : String) (a : AssetSnapshot) (state : State)
    → Dict.lookup id state ≡ some a
    → (blocked_count (Dict.insert id (migrated_asset target a) state) ≤ blocked_count state)
      × (length (values (Dict.insert id (migrated_asset target a) state)) ≡ length (values state))
unfolding Dict.lookup Dict.insert
blocked-insert target id a [] found = absurd (ground arith)
blocked-insert target id a ((j, b) ∷ state) found = elim (Bool-cases (j == id)) [
  | inl same ↦ rw same (ground (arith, same), refl)
  | inr other ↦
      let rest = blocked-insert target id a state (rw other at found) in
      rw other (omega (arith, rest.0), omega (arith, rest.1))
]

migrate_found-bounds :
    (target : List String) (id : String) (state : State) (found : Option AssetSnapshot)
    → Dict.lookup id state ≡ found
    → (blocked_count (migrate_found target id state found).0 ≤ blocked_count state)
      × (length (values (migrate_found target id state found).0) ≡ length (values state))
      × ((migrate_found target id state found).1 ≤ 1)
migrate_found-bounds target id state none h = (omega arith, refl, omega arith)
migrate_found-bounds target id state (some a) h =
    let b = blocked-insert target id a state h in (b.0, b.1, omega arith)

migrate-bounds :
    (target : List String) (state : State) (ids : List String)
    → (blocked_count (migrate target state ids).0 ≤ blocked_count state)
      × (length (values (migrate target state ids).0) ≡ length (values state))
      × ((migrate target state ids).1 ≤ length ids)
unfolding migrate
migrate-bounds target state [] = (omega arith, refl, omega arith)
migrate-bounds target state (id ∷ ids) =
    let one = migrate_found-bounds target id state (Dict.lookup id state) refl in
    let rest = migrate-bounds target (migrate_found target id state (Dict.lookup id state)).0 ids in
    (omega (arith, one.0, rest.0), omega (arith, one.1, rest.1), omega (arith, one.2, rest.2))

-- Each row starts with the blocked count that the row before ended with, and ends with no more.
abbrev pub Descends : ℕ → List MilestoneProjection → Type 0
Descends blocked [] = Unit
Descends blocked (r ∷ rows) =
    (r.blocked_before ≡ blocked)
    × (r.blocked_after ≤ r.blocked_before)
    × Descends r.blocked_after rows

-- The rows are the milestones, in order, each with at most as many migrations as it lists.
abbrev pub Reports : List Milestone → List MilestoneProjection → Type 0
Reports [] [] = Unit
Reports [] (r ∷ rows) = ⊥
Reports (m ∷ plan) [] = ⊥
Reports (m ∷ plan) (r ∷ rows) =
    (r.milestone ≡ m.label)
    × (r.date ≡ m.date)
    × (r.assets_migrated ≤ length m.asset_ids)
    × Reports plan rows

abbrev pub row_date : MilestoneProjection → ℕ
row_date r = r.date

module _ (sum : List F32 → F32) (div : F32 → ℕ → F32) where
  project-Descends :
      (state : State) (plan : List Milestone)
      → Descends (blocked_count state) (project sum div state plan)
  unfolding project
  project-Descends state [] = tt
  project-Descends state (m ∷ plan) =
      let next = migrate m.target_primitives state m.asset_ids in
      (refl, (migrate-bounds m.target_primitives state m.asset_ids).0, project-Descends next.0 plan)

  project-Reports :
      (state : State) (plan : List Milestone) → Reports plan (project sum div state plan)
  unfolding project
  project-Reports state [] = tt
  project-Reports state (m ∷ plan) =
      let next = migrate m.target_primitives state m.asset_ids in
      (
        refl,
        refl,
        (migrate-bounds m.target_primitives state m.asset_ids).2,
        project-Reports next.0 plan,
      )

  blocked-index_insert :
      (a : AssetSnapshot) (state : State)
      → blocked_count (Dict.insert a.identity a state)
        ≤ blocked_count state + count is_blocked (a ∷ [])
  unfolding Dict.insert
  blocked-index_insert a [] = omega arith
  blocked-index_insert a ((j, b) ∷ state) = ground (arith, blocked-index_insert a state)

  blocked-index :
      (state : State) (inventory : List AssetSnapshot)
      → blocked_count (index state inventory) ≤ blocked_count state + count is_blocked inventory
  blocked-index state [] = omega arith
  blocked-index state (a ∷ inventory) = omega (
    arith,
    blocked-index_insert a state,
    blocked-index (Dict.insert a.identity a state) inventory,
  )

  -- The rows of a roadmap are the milestones in the order of their dates, milestones of one date
  -- as the plan has them. The first starts with at most today's blocked count, each other with
  -- the count the row before ended with, and none ends with more than it started with.
  pub project_roadmap-trajectory :
      (inventory : List AssetSnapshot) (plan : List Milestone)
      → Reports (sort_by_key date_of plan) (project_roadmap sum div inventory plan).projections
        × IsSorted date_of (sort_by_key date_of plan)
        × ((date : ℕ)
            → with_key date_of date (sort_by_key date_of plan) ≡ with_key date_of date plan)
        × Descends
            (blocked_count (index [] inventory))
            (project_roadmap sum div inventory plan).projections
        × (blocked_count (index [] inventory)
            ≤ (project_roadmap sum div inventory plan).today_blocked)
  unfolding project_roadmap
  project_roadmap-trajectory inventory plan = (
    project-Reports (index [] inventory) (sort_by_key date_of plan),
    sort_by_key-IsSorted date_of plan,
    λ date. with_key-sort_by_key date_of date plan,
    project-Descends (index [] inventory) (sort_by_key date_of plan),
    omega (arith, blocked-index [] inventory),
  )
