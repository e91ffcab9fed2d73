-- ===== src/Agility/Roadmap.antt =====
-- The migration-roadmap projector: crates/ree0xq-agility/src/roadmap.rs. A q is the bit pattern of
-- its f32; the sum of such numbers and the division by a count are arguments. The state is a map in
-- any order, so the sum sees its values in the map's order.
pub mod Trajectory
use ree0x_q.Base.{
  ℕ, zero, suc, ◌+◌, ◌≤◌, Bool, true, false, not, ◌&&◌, String, Option, none, some, List, [], ◌∷◌,
  ◌++◌, map, leb, length, count, if◌then◌else◌, string_eq, ◌==◌, sort_by_key,
}
use ree0x_q.Base.Dict
use ree0x_q.Core.{F32, DateTime}

pub record AssetSnapshot : Type 0 where
  pub identity : String
  pub q : F32
  pub blocked : Bool
  pub primitives : List String

pub record Milestone : Type 0 where
  pub label : String
  pub date : DateTime
  pub asset_ids : List String
  pub target_primitives : List String

pub record MilestoneProjection : Type 0 where
  pub milestone : String
  pub date : DateTime
  pub org_q_before : F32
  pub org_q_after : F32
  pub blocked_before : ℕ
  pub blocked_after : ℕ
  pub assets_migrated : ℕ
  pub assets_remaining_classical : ℕ

pub record RoadmapProjection : Type 0 where
  pub today_org_q : F32
  pub today_blocked : ℕ
  pub total_assets : ℕ
  pub projections : List MilestoneProjection

abbrev pub State : Type 0
State = List (String × AssetSnapshot)

abbrev pub values : State → List AssetSnapshot
values [] = []
values ((id, a) ∷ state) = a ∷ values state

abbrev pub is_blocked : AssetSnapshot → Bool
is_blocked a = a.blocked

-- The bit patterns of 0.10 and 0.30.
abbrev pub clean_q : F32
clean_q = 0x3dcccccd

abbrev pub classical_q : F32
classical_q = 0x3e99999a

-- `a.q >= 0.30`: between that number and infinity, so neither negative nor NaN.
abbrev pub is_classical : AssetSnapshot → Bool
is_classical a = leb classical_q a.q && leb a.q 0x7f800000

abbrev pub migrated_asset : List String → AssetSnapshot → AssetSnapshot
migrated_asset target a = record a { q = clean_q; blocked = false; primitives = target }

-- The body of the loop over a milestone's assets: the state and whether an asset was migrated.
abbrev pub migrate_found : List String → String → State → Option AssetSnapshot → State × ℕ
migrate_found target id state none = (state, 0)
migrate_found target id state (some a) = (Dict.insert id (migrated_asset target a) state, 1)

pub migrate : List String → State → List String → State × ℕ
migrate target state [] = (state, 0)
migrate target state (id ∷ ids) =
    let (state', one) = migrate_found target id state (Dict.lookup id state) in
    let (state'', n) = migrate target state' ids in (state'', one + n)

-- `collect` into a map: a later asset with the same identity replaces an earlier one.
abbrev pub index : State → List AssetSnapshot → State
index state [] = state
index state (a ∷ inventory) = index (Dict.insert a.identity a state) inventory

abbrev pub date_of : Milestone → ℕ
date_of m = m.date

module _ (sum : List F32 → F32) (div : F32 → ℕ → F32) where
  pub avg_q : List AssetSnapshot → F32
  avg_q [] = 0
  avg_q (a ∷ items) = div (sum (map (λ b. b.q) (a ∷ items))) (length (a ∷ items))

  pub avg_q_state : State → F32
  unfolding avg_q
  avg_q_state state = avg_q (values state)

  abbrev pub row : Milestone → State → State → ℕ → MilestoneProjection
  row m before after migrated = record {
    milestone = m.label;
    date = m.date;
    org_q_before = avg_q_state before;
    org_q_after = avg_q_state after;
    blocked_before = count is_blocked (values before);
    blocked_after = count is_blocked (values after);
    assets_migrated = migrated;
    assets_remaining_classical = count is_classical (values after);
  }

  pub project : State → List Milestone → List MilestoneProjection
  project state [] = []
  project state (m ∷ plan) =
      let (state', migrated) = migrate m.target_primitives state m.asset_ids in
      row m state state' migrated ∷ project state' plan

  unfoldable pub project_roadmap : List AssetSnapshot → List Milestone → RoadmapProjection
  unfolding avg_q project
  project_roadmap inventory plan = record {
    today_org_q = avg_q inventory;
    today_blocked = count is_blocked inventory;
    total_assets = length inventory;
    projections = project (index [] inventory) (sort_by_key date_of plan);
  }
