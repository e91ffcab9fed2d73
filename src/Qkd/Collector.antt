-- ===== src/Qkd/Collector.antt =====
-- The collector that polls the entities: crates/ree0xq-qkd/src/collector/mod.rs. The HTTP client, the
-- clock and the formatting of f32 numbers are arguments.
pub mod Health
use ree0x_q.Base.{
  ℕ, ◌*◌, Bool, true, false, String, Option, none, some, List, [], ◌∷◌, eqb, ends_with,
  if◌then◌else◌, text_append, show, trim_end_by, float_le,
}
use mathlib.Core.Option
use ree0x_q.Core.{
  F32, DateTime, CryptoInventoryEvent, qkd_kme, qkd_hybrid_psk, LinkHealth, ok, degraded, failed,
  schema_version, schema_minor,
}
use ree0x_q.Qkd.Wire.{StatusResponse}

pub record CollectorConfig : Type 0 where
  pub kme_endpoints : List String
  pub slave_sae_id : String
  pub status_interval : ℕ
  pub collector_endpoint : Option String
  pub qber_warn_threshold : F32
  pub qber_fail_threshold : F32

-- The interval is 5 s; the thresholds are the bit patterns of 0.05 and 0.11.
abbrev pub default_config : CollectorConfig
default_config = record {
  kme_endpoints = "http://127.0.0.1:11071/api/v1" ∷ [];
  slave_sae_id = "SAE-REE0XQ-COLLECTOR";
  status_interval = 5_000_000_000;
  collector_endpoint = none;
  qber_warn_threshold = 0x3d4ccccd;
  qber_fail_threshold = 0x3de147ae;
}

-- `unwrap_or(0.0)`
abbrev pub qber_of : StatusResponse → F32
qber_of status = elim status.link_qber [ none ↦ 0 | some qber ↦ qber ]

-- `format!("QBER {:.3} ≥ … threshold {:.3}")`
abbrev pub threshold_text : (F32 → String) → F32 → String → F32 → String
threshold_text fixed3 qber name threshold = text_append "QBER " (
    text_append (fixed3 qber)
      (text_append " ≥ " (text_append name (text_append " threshold " (fixed3 threshold)))))

unfoldable pub derive_link_health :
    (F32 → String) → StatusResponse → F32 → F32 → LinkHealth × Option String
derive_link_health fixed3 status warn_qber fail_qber =
    let qber = qber_of status in
    if float_le fail_qber qber
    then (failed, some (threshold_text fixed3 qber "fail" fail_qber))
    else (if float_le warn_qber qber
        then (degraded, some (threshold_text fixed3 qber "warn" warn_qber))
        else (if eqb status.stored_key_count 0
            then (degraded, some "KME reports zero stored keys")
            else (ok, none)))

abbrev pub health_score : LinkHealth → ℕ
health_score ok = 90
health_score degraded = 50
health_score failed = 10

-- `{:?}`
abbrev pub health_text : LinkHealth → String
health_text ok = "Ok"
health_text degraded = "Degraded"
health_text failed = "Failed"

unfoldable pub build_kme_event :
    DateTime → String → StatusResponse → LinkHealth → Option String → CryptoInventoryEvent
build_kme_event now kme_endpoint status health degraded_reason = record {
  schema_version = schema_version;
  schema_minor = schema_minor;
  source_module = "ree0xq-qkd";
  observed_at = now;
  asset = record { kind = qkd_kme; identity = status.source_kme_id; host = some kme_endpoint };
  primitives = [];
  channel_protection = some (record {
    state = qkd_hybrid_psk;
    kme_endpoint = some kme_endpoint;
    key_id_observed = none;
    psk_age_seconds = none;
    link_qber = status.link_qber;
    link_key_rate_bps = status.link_key_rate_bps;
    link_health = health;
    degraded_reason = degraded_reason;
  });
  agility = none;
  posture = record {
    score = health_score health;
    rationale = text_append "KME " (
        text_append status.source_kme_id (
          text_append " reported " (
            text_append (health_text health)
              (text_append "; stored_keys=" (show status.stored_key_count)))));
    recommended_replacement = none;
  };
}

unfoldable pub status_url : String → String → String
status_url endpoint slave_sae_id =
    let base = trim_end_by (eqb 47) endpoint in
    let suffix = text_append slave_sae_id (text_append "/" "status") in
    if ends_with base "/keys"
    then text_append base (text_append "/" suffix)
    else text_append base (text_append "/keys/" suffix)

-- What the HTTP client gives for a URL: nothing on a transport error, or the status, whether it is a
-- success, and the body if it is a status response.
pub record HttpReply : Type 0 where
  pub status_code : String
  pub is_success : Bool
  pub json : Option StatusResponse

abbrev pub stub : String → String → StatusResponse
stub endpoint slave_sae_id = record {
  source_kme_id = text_append "unreachable:" endpoint;
  target_kme_id = "unknown";
  master_sae_id = "unknown";
  slave_sae_id = slave_sae_id;
  key_size = 0;
  stored_key_count = 0;
  max_key_count = 0;
  max_key_per_request = 0;
  max_key_size = 0;
  min_key_size = 0;
  max_sae_id_count = 0;
  link_qber = none;
  link_key_rate_bps = none;
}

abbrev pub event_of_body :
    (F32 → String) → DateTime → String → CollectorConfig → StatusResponse → CryptoInventoryEvent
unfolding derive_link_health build_kme_event
event_of_body fixed3 now endpoint cfg body =
    let health = derive_link_health fixed3 body cfg.qber_warn_threshold cfg.qber_fail_threshold in
    build_kme_event now endpoint body health.0 health.1

-- None where the code returns an error.
unfoldable pub poll_once :
    (F32 → String)
    → DateTime
    → (String → Option HttpReply)
    → String
    → String
    → CollectorConfig
    → Option CryptoInventoryEvent
unfolding build_kme_event status_url
poll_once fixed3 now get endpoint slave_sae_id cfg = elim (get (status_url endpoint slave_sae_id)) [
  | none ↦ none
  | some reply ↦
      if reply.is_success
      then Option.map (event_of_body fixed3 now endpoint cfg) reply.json
      else some (
          build_kme_event now endpoint (stub endpoint slave_sae_id) failed
            (some (text_append "HTTP " (text_append reply.status_code " from /status"))))
]
