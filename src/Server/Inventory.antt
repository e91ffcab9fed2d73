-- ===== src/Server/Inventory.antt =====
-- `inventory`, `blocked_assets` and `org_posture` of crates/ree0xq-server/src/routes.rs, over the
-- in-memory store. The sort of the rows is the stable one wherever no q is NaN.
pub mod Counts
use ree0x_q.Base.{
  ℕ, Bool, true, false, String, Option, none, some, List, [], ◌∷◌, map, length, count,
  if◌then◌else◌,
}
use ree0x_q.Core.{F32, DateTime, AssetKind, CryptoInventoryEvent}
use ree0x_q.Server.Store.{InMemoryEventStore, latest_per_asset}
use ree0x_q.Server.Posture.{Float, q_for_event, is_blocked, org_score}

pub record InventoryItem : Type 0 where
  pub source_module : String
  pub asset_kind : AssetKind
  pub identity : String
  pub host : Option String
  pub q : F32
  pub blocked : Bool
  pub primitives : List String
  pub observed_at : DateTime

pub record InventoryResponse : Type 0 where
  pub count : ℕ
  pub items : List InventoryItem

pub record OrgPosture : Type 0 where
  pub org_q : F32
  pub deadline : DateTime
  pub horizon_years : F32
  pub assets : ℕ
  pub blocked_count : ℕ

-- The part of the server's state that the handlers read.
pub record Settings : Type 0 where
  pub default_deadline : DateTime
  pub horizon_years : F32

abbrev pub event_is_blocked : CryptoInventoryEvent → Bool
event_is_blocked ev = is_blocked ev.agility

module _ (f : Float) (st : Settings) (s : InMemoryEventStore) (now : DateTime) where
  abbrev pub item_of : Bool → CryptoInventoryEvent → InventoryItem
  item_of blocked ev = record {
    source_module = ev.source_module;
    asset_kind = ev.asset.kind;
    identity = ev.asset.identity;
    host = ev.asset.host;
    q = q_for_event f ev now st.default_deadline st.horizon_years;
    blocked = blocked;
    primitives = map (λ p. p.algorithm) ev.primitives;
    observed_at = ev.observed_at;
  }

  -- `sort_by` of `b.q` with `a.q`: the greatest q first.
  abbrev pub insert_item : InventoryItem → List InventoryItem → List InventoryItem
  insert_item i [] = i ∷ []
  insert_item i (j ∷ js) = if f.lt i.q j.q then j ∷ insert_item i js else i ∷ j ∷ js

  abbrev pub sort_items : List InventoryItem → List InventoryItem
  sort_items [] = []
  sort_items (i ∷ is) = insert_item i (sort_items is)

  abbrev pub response : List InventoryItem → InventoryResponse
  response items = record { count = length items; items = sort_items items }

  abbrev pub inventory_items : List CryptoInventoryEvent → List InventoryItem
  inventory_items [] = []
  inventory_items (ev ∷ evs) = item_of (is_blocked ev.agility) ev ∷ inventory_items evs

  unfoldable pub inventory : InventoryResponse
  inventory = response (inventory_items (latest_per_asset s))

  abbrev pub blocked_items : List CryptoInventoryEvent → List InventoryItem
  blocked_items [] = []
  blocked_items (ev ∷ evs) =
      if event_is_blocked ev then item_of true ev ∷ blocked_items evs else blocked_items evs

  unfoldable pub blocked_assets : InventoryResponse
  blocked_assets = response (blocked_items (latest_per_asset s))

  unfoldable pub org_posture : OrgPosture
  org_posture = record {
    org_q = org_score f (latest_per_asset s) now st.default_deadline st.horizon_years;
    deadline = st.default_deadline;
    horizon_years = st.horizon_years;
    assets = length (latest_per_asset s);
    blocked_count = count event_is_blocked (latest_per_asset s);
  }
