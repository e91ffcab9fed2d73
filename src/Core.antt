-- ===== src/Core.antt =====
-- The event schema shared by every module: crates/ree0xq-core/src/lib.rs.
-- A `DateTime<Utc>` is the number of nanoseconds since the midnight of chrono's first day, -262143-01-01.
-- An `f32` is its bit pattern; the code that adds such numbers takes the sum as an argument.
use ree0x_q.Base.{ℕ, Bool, true, String, Option, none, List, [], ◌≡◌, ◌↔◌, arith, Eq, eqb}

abbrev pub schema_version : ℕ
schema_version = 1

abbrev pub schema_minor : ℕ
schema_minor = 1

abbrev pub DateTime : Type 0
DateTime = ℕ

-- The days from chrono's first day to 1970-01-01.
abbrev pub unix_epoch_day : ℕ
unix_epoch_day = 96_465_292

abbrev pub F32 : Type 0
F32 = ℕ

-- `serde_json::Value`; a number is kept as its text.
mutual
  pub data Json : Type 0 where
    null : Json
    bool : Bool → Json
    number : String → Json
    text : String → Json
    array : JsonArray → Json
    object : JsonObject → Json

  pub data JsonArray : Type 0 where
    nil : JsonArray
    cons : Json → JsonArray → JsonArray

  pub data JsonObject : Type 0 where
    end : JsonObject
    field : String → Json → JsonObject → JsonObject

pub data AssetKind : Type 0 where
  tls_session ssh_session ipsec_sa x509_cert blockchain_key : AssetKind
  hsm_slot dns_dnssec qkd_link qkd_kme : AssetKind

-- The derived `PartialEq` compares the variants.
abbrev discriminant : AssetKind → ℕ
discriminant tls_session = 0
discriminant ssh_session = 1
discriminant ipsec_sa = 2
discriminant x509_cert = 3
discriminant blockchain_key = 4
discriminant hsm_slot = 5
discriminant dns_dnssec = 6
discriminant qkd_link = 7
discriminant qkd_kme = 8

pub kind_beq_iff : (a b : AssetKind) → (eqb (discriminant a) (discriminant b) ≡ true) ↔ (a ≡ b)
kind_beq_iff a b = ground arith

instance abbrev pub kind_eq : Eq AssetKind
kind_eq = record { beq = λ a b. eqb (discriminant a) (discriminant b); beq_iff = kind_beq_iff }

pub record Asset : Type 0 where
  pub kind : AssetKind
  pub identity : String
  pub host : Option String

pub data PrimitiveRole : Type 0 where
  kex sig auth encrypt hash : PrimitiveRole

pub data NistLevel : Type 0 where
  l1 l3 l5 : NistLevel

pub record Primitive : Type 0 where
  pub role : PrimitiveRole
  pub algorithm : String
  pub parameters : List (String × Json)
  pub pq_resistant : Option Bool
  pub nist_classification : Option NistLevel

pub data ChannelState : Type 0 where
  classical qkd_hybrid_psk qkd_only : ChannelState

-- A primitive with no parameters and no NIST level.
abbrev pub plain : PrimitiveRole → String → Option Bool → Primitive
plain role algorithm pq = record {
  role = role;
  algorithm = algorithm;
  parameters = [];
  pq_resistant = pq;
  nist_classification = none;
}

pub data LinkHealth : Type 0 where
  ok degraded failed : LinkHealth

pub record ChannelProtection : Type 0 where
  pub state : ChannelState
  pub kme_endpoint : Option String
  pub key_id_observed : Option String
  pub psk_age_seconds : Option ℕ
  pub link_qber : Option F32
  pub link_key_rate_bps : Option ℕ
  pub link_health : LinkHealth
  pub degraded_reason : Option String

pub data AgilityLevel : Type 0 where
  negotiated configurable pinned locked frozen : AgilityLevel

-- `AgilityLevel::score`: the bit patterns of 1.00, 0.75, 0.50, 0.20 and 0.00.
abbrev pub score : AgilityLevel → F32
score negotiated = 0x3f800000
score configurable = 0x3f400000
score pinned = 0x3f000000
score locked = 0x3e4ccccd
score frozen = 0

pub data AgilityEvidence : Type 0 where
  protocol_negotiation : String → List String → AgilityEvidence
  config_pattern : String → ℕ → String → AgilityEvidence
  code_pattern : String → ℕ → String → String → AgilityEvidence
  firmware_string : String → String → AgilityEvidence
  fips_mode : Bool → AgilityEvidence
  vendor_declaration : String → AgilityEvidence

pub record AgilityBlock : Type 0 where
  pub level : AgilityLevel
  pub level_score : F32
  pub evidence : List AgilityEvidence
  pub scanner_version : String
  pub rubric_version : String

pub record Posture : Type 0 where
  pub score : ℕ
  pub rationale : String
  pub recommended_replacement : Option String

pub record CryptoInventoryEvent : Type 0 where
  pub schema_version : ℕ
  pub schema_minor : ℕ
  pub source_module : String
  pub observed_at : DateTime
  pub asset : Asset
  pub primitives : List Primitive
  pub channel_protection : Option ChannelProtection
  pub agility : Option AgilityBlock
  pub posture : Posture
