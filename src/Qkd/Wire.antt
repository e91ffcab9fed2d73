-- ===== src/Qkd/Wire.antt =====
-- The messages of ETSI GS QKD 014: crates/ree0xq-qkd/src/etsi014/mod.rs.
use ree0x_q.Base.{ℕ, String, Option, List}
use ree0x_q.Core.{F32}

pub record StatusResponse : Type 0 where
  pub source_kme_id : String
  pub target_kme_id : String
  pub master_sae_id : String
  pub slave_sae_id : String
  pub key_size : ℕ
  pub stored_key_count : ℕ
  pub max_key_count : ℕ
  pub max_key_per_request : ℕ
  pub max_key_size : ℕ
  pub min_key_size : ℕ
  pub max_sae_id_count : ℕ
  pub link_qber : Option F32
  pub link_key_rate_bps : Option ℕ

pub record Key : Type 0 where
  pub key_id : String
  pub key : String

pub record KeyContainer : Type 0 where
  pub keys : List Key

pub record EncKeysQuery : Type 0 where
  pub size : Option ℕ
  pub number : Option ℕ

pub record DecKeyId : Type 0 where
  pub key_id : String

pub record DecKeysRequest : Type 0 where
  pub key_ids : List DecKeyId

pub record ErrorResponse : Type 0 where
  pub message : String
  pub details : List String
