-- ===== src/Server/Routes.antt =====
-- The read-only routes of crates/ree0xq-server/src/routes.rs that apply other parts to the store, whose calls
-- return no error. `inventory`, `blocked_assets` and `org_posture` are in Server/Inventory.
pub mod Plan
pub mod Horizon
use ree0x_q.Base.{
  ℕ, ◌+◌, ◌*◌, Bool, true, false, ◌||◌, String, Option, none, some, List, [], ◌∷◌, ◌++◌, map,
  length, keep, leb, if◌then◌else◌, text_append,
}
use mathlib.Core.Option
use ree0x_q.Core.{
  F32, DateTime, AssetKind, tls_session, ssh_session, ipsec_sa, x509_cert, blockchain_key, hsm_slot,
  dns_dnssec, qkd_link, qkd_kme, CryptoInventoryEvent, Primitive, ChannelProtection, LinkHealth,
  degraded, failed,
}
use ree0x_q.Core
use ree0x_q.Server.Store.{InMemoryEventStore, recent, latest_per_asset}
use ree0x_q.Server.Ingest.{Response, ok, err, ApiError}
use ree0x_q.Server.Posture.{Float, q_for_event, is_blocked}
use ree0x_q.Server.Inventory.{Settings}
use ree0x_q.Agility.Recommend.{Recommendation, recommend_for}
use ree0x_q.Agility.Deadlines.{DeadlineEntry, all, for_jurisdiction, in_window}
use ree0x_q.Agility.Compat.{CompatEntry, lookup, list_stack}
use ree0x_q.Agility.Roadmap.{AssetSnapshot, Milestone, RoadmapProjection, project_roadmap}

pub record EventsQuery : Type 0 where
  pub limit : ℕ

abbrev pub default_limit : ℕ
default_limit = 100

pub record EventsResponse : Type 0 where
  pub count : ℕ
  pub events : List CryptoInventoryEvent

unfoldable pub list_events : InMemoryEventStore → EventsQuery → EventsResponse
list_events s q = let events = recent s q.limit in record { count = length events; events = events }

pub record QkdLinkSummary : Type 0 where
  pub identity : String
  pub kme_endpoint : Option String
  pub link_health : String
  pub link_qber : Option F32
  pub link_key_rate_bps : Option ℕ
  pub observed_at : DateTime

-- The name of the variant in lower case.
abbrev pub health_name : LinkHealth → String
health_name Core.ok = "ok"
health_name degraded = "degraded"
health_name failed = "failed"

abbrev pub and_then {ℓ κ} : {A : Type ℓ} {B : Type κ} → Option A → (A → Option B) → Option B
and_then none f = none
and_then (some a) f = f a

abbrev pub health_or_unknown : Option ChannelProtection → String
health_or_unknown none = "unknown"
health_or_unknown (some c) = health_name c.link_health

abbrev pub summary_of : CryptoInventoryEvent → QkdLinkSummary
summary_of ev = record {
  identity = ev.asset.identity;
  kme_endpoint = and_then ev.channel_protection (λ c. c.kme_endpoint);
  link_health = health_or_unknown ev.channel_protection;
  link_qber = and_then ev.channel_protection (λ c. c.link_qber);
  link_key_rate_bps = and_then ev.channel_protection (λ c. c.link_key_rate_bps);
  observed_at = ev.observed_at;
}

abbrev pub is_qkd_kind : AssetKind → Bool
is_qkd_kind qkd_link = true
is_qkd_kind qkd_kme = true
is_qkd_kind kind = false

abbrev pub is_qkd : CryptoInventoryEvent → Bool
is_qkd ev = is_qkd_kind ev.asset.kind

pub record QkdLinksResponse : Type 0 where
  pub count : ℕ
  pub links : List QkdLinkSummary

unfoldable pub qkd_links : InMemoryEventStore → QkdLinksResponse
qkd_links s =
    let links = map summary_of (keep is_qkd (latest_per_asset s)) in
    record { count = length links; links = links }

pub record RecommendationItem : Type 0 where
  pub source_module : String
  pub asset_kind : AssetKind
  pub identity : String
  pub host : Option String
  pub current_primitives : List String
  pub recommendations : List Recommendation

pub record RecommendationsResponse : Type 0 where
  pub count : ℕ
  pub items : List RecommendationItem

abbrev pub algorithms : List Primitive → List String
algorithms ps = map (λ p. p.algorithm) ps

-- The row of an asset, which has one if there is a recommendation.
abbrev pub push_item :
    CryptoInventoryEvent → List Recommendation → List RecommendationItem → List RecommendationItem
push_item ev [] items = items
push_item ev (rec ∷ recs) items =
    (record {
      source_module = ev.source_module;
      asset_kind = ev.asset.kind;
      identity = ev.asset.identity;
      host = ev.asset.host;
      current_primitives = algorithms ev.primitives;
      recommendations = rec ∷ recs;
    })
    ∷ items

unfoldable pub recommendation_items : List CryptoInventoryEvent → List RecommendationItem
unfolding recommend_for
recommendation_items [] = []
recommendation_items (ev ∷ evs) =
    push_item ev (recommend_for ev.primitives) (recommendation_items evs)

unfoldable pub recommendations : InMemoryEventStore → RecommendationsResponse
unfolding recommendation_items
recommendations s =
    let items = recommendation_items (latest_per_asset s) in
    record { count = length items; items = items }

pub record DeadlinesQuery : Type 0 where
  pub jurisdiction : Option String
  pub horizon_days : Option ℕ

pub record DeadlinesResponse : Type 0 where
  pub count : ℕ
  pub items : List DeadlineEntry

unfoldable pub listed_deadlines : Option String → List DeadlineEntry
unfolding all for_jurisdiction
listed_deadlines none = all
listed_deadlines (some prefix) = for_jurisdiction prefix

-- A day is 86,400 s. The sum with `now` panics (none) beyond the last date of the date library, which is
-- an argument.
abbrev pub retained :
    DateTime → DateTime → Option ℕ → List DeadlineEntry → Option (List DeadlineEntry)
retained max_utc now none items = some items
retained max_utc now (some days) items =
    let end = now + days * 86_400_000_000_000 in
    if leb end max_utc then some (keep (in_window now end) items) else none

abbrev pub deadlines_response : List DeadlineEntry → DeadlinesResponse
deadlines_response items = record { count = length items; items = items }

unfoldable pub agility_deadlines : DateTime → DateTime → DeadlinesQuery → Option DeadlinesResponse
unfolding listed_deadlines
agility_deadlines max_utc now q =
    Option.map deadlines_response
      (retained max_utc now q.horizon_days (listed_deadlines q.jurisdiction))

pub record CompatQuery : Type 0 where
  pub stack : Option String
  pub algorithm : Option String

pub record CompatResponse : Type 0 where
  pub count : ℕ
  pub items : List CompatEntry

abbrev pub compat_unknown : ApiError
compat_unknown = record { status = 404; code = "compat_unknown" }

abbrev pub compat_response : List CompatEntry → CompatResponse
compat_response items = record { count = length items; items = items }

abbrev pub pair_response : Option CompatEntry → Response CompatResponse
pair_response none = err compat_unknown
pair_response (some e) = ok (record { count = 1; items = e ∷ [] })

abbrev pub stacks : List String
stacks =
    "openssl-3.x" ∷ "boringssl" ∷ "rustls-post-quantum" ∷ "go-crypto-tls" ∷ "bouncycastle" ∷ "nss"
    ∷ []

unfoldable pub list_all : List String → List CompatEntry
list_all [] = []
list_all (stack ∷ rest) = list_stack stack ++ list_all rest

unfoldable pub compat_answer : Option String → Option String → Response CompatResponse
unfolding list_all
compat_answer (some stack) (some algorithm) = pair_response (lookup stack algorithm)
compat_answer (some stack) none = ok (compat_response (list_stack stack))
compat_answer none algorithm = ok (compat_response (list_all stacks))

unfoldable pub agility_compat : CompatQuery → Response CompatResponse
unfolding compat_answer
agility_compat q = compat_answer q.stack q.algorithm

module _ (f : Float) (sum : List F32 → F32) (div : F32 → ℕ → F32) (st : Settings) where
  abbrev pub snapshot_of : DateTime → CryptoInventoryEvent → AssetSnapshot
  snapshot_of now ev = record {
    identity = ev.asset.identity;
    q = q_for_event f ev now st.default_deadline st.horizon_years;
    blocked = is_blocked ev.agility;
    primitives = algorithms ev.primitives;
  }

  -- The body of the request is the plan.
  unfoldable pub agility_roadmap :
      InMemoryEventStore → DateTime → List Milestone → RoadmapProjection
  agility_roadmap s now milestones =
      project_roadmap sum div (map (snapshot_of now) (latest_per_asset s)) milestones
