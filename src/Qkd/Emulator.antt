-- ===== src/Qkd/Emulator.antt =====
-- The reference key management entity: crates/ree0xq-qkd/src/emulator/mod.rs. The fresh UUIDs and the
-- random bytes of a call are arguments; the write lock makes each handler one step.
pub mod Delivery
pub mod Failure
use ree0x_q.Base.{
  ℕ, zero, suc, ◌+◌, ◌/◌, ◌%◌, ◌^◌, String, Option, none, some, List, [], ◌∷◌, length, ltb,
  if◌then◌else◌, string_eq, text_append, float_clamp,
}
use ree0x_q.Base.Dict
use ree0x_q.Core.{F32}
use ree0x_q.Qkd.Wire.{
  StatusResponse, Key, KeyContainer, EncKeysQuery, DecKeyId, DecKeysRequest, ErrorResponse,
}
use ree0x_q.Qkd.Base64.{base64_encode}

pub record EmulatorConfig : Type 0 where
  pub kme_id : String
  pub paired_kme_id : String
  pub key_size : ℕ
  pub initial_qber : F32
  pub initial_key_rate_bps : ℕ
  pub max_key_count : ℕ

-- The QBER is the bit pattern of 0.018.
abbrev pub default_config : EmulatorConfig
default_config = record {
  kme_id = "KME-A";
  paired_kme_id = "KME-B";
  key_size = 256;
  initial_qber = 0x3c9374bc;
  initial_key_rate_bps = 12_480;
  max_key_count = 100_000;
}

pub record EmulatorState : Type 0 where
  pub cfg : EmulatorConfig
  pub keys : List (String × List ℕ)
  pub qber : F32
  pub key_rate_bps : ℕ
  pub forced_failure : Option String

-- What one call draws: the i-th UUID, and the i-th buffer of a given length.
pub record Entropy : Type 0 where
  pub uuid : ℕ → String
  pub fill_bytes : ℕ → ℕ → List ℕ

-- `div_ceil(8)`
abbrev pub byte_length : ℕ → ℕ
byte_length bits = (bits + 7) / 8

-- The loop, from the i-th draw.
unfoldable pub generate_from :
    Entropy → ℕ → ℕ → ℕ → List (String × List ℕ) → List (String × List ℕ) × List Key
generate_from e len zero i keys = (keys, [])
generate_from e len (suc n) i keys =
    let buf = e.fill_bytes i len in
    let rest = generate_from e len n (suc i) (Dict.insert (e.uuid i) buf keys) in
    (rest.0, (record { key_id = e.uuid i; key = base64_encode buf }) ∷ rest.1)

unfoldable pub generate_keys : Entropy → EmulatorState → ℕ → ℕ → EmulatorState × List Key
generate_keys e s count size_bits =
    let made = generate_from e (byte_length size_bits) count 0 s.keys in
    (record s { keys = made.0 }, made.1)

unfoldable pub new : Entropy → EmulatorConfig → EmulatorState
unfolding generate_keys
new e cfg =
    (generate_keys e
      (record {
        cfg = cfg;
        keys = [];
        qber = cfg.initial_qber;
        key_rate_bps = cfg.initial_key_rate_bps;
        forced_failure = none;
      })
      32 cfg.key_size).0

unfoldable pub build_status : EmulatorState → String → String → StatusResponse
build_status s master_sae slave_sae = record {
  source_kme_id = s.cfg.kme_id;
  target_kme_id = s.cfg.paired_kme_id;
  master_sae_id = master_sae;
  slave_sae_id = slave_sae;
  key_size = s.cfg.key_size;
  stored_key_count = length s.keys % 2 ^ 32;
  max_key_count = s.cfg.max_key_count;
  max_key_per_request = 128;
  max_key_size = 4_096;
  min_key_size = 64;
  max_sae_id_count = 0;
  link_qber = some s.qber;
  link_key_rate_bps = some s.key_rate_bps;
}

-- A response: a body, or a status code with an error.
pub data Answer {ℓ} (A : Type ℓ) : Type ℓ where
  served : A → Answer A
  failed_with : ℕ → ErrorResponse → Answer A

abbrev pub kme_unavailable : String → ErrorResponse
kme_unavailable reason = record { message = "kme_unavailable"; details = reason ∷ [] }

abbrev pub key_not_available : String → ErrorResponse
key_not_available id = record {
  message = "key_not_available";
  details = text_append "unknown key_ID " id ∷ [];
}

-- The guard of the three handlers.
abbrev pub unless_failed {ℓ} : {A : Type ℓ} → Option String → Answer A → Answer A
unless_failed none answer = answer
unless_failed (some reason) answer = failed_with 503 (kme_unavailable reason)

unfoldable pub handle_status : EmulatorState → String → Answer StatusResponse
unfolding build_status
handle_status s slave_sae_id =
    unless_failed s.forced_failure (served (build_status s "SAE-MASTER" slave_sae_id))

abbrev pub or_default : Option ℕ → ℕ → ℕ
or_default none default = default
or_default (some n) default = n

-- `u32::clamp`
abbrev pub clamp_u32 : ℕ → ℕ → ℕ → ℕ
clamp_u32 low high n = if ltb n low then low else (if ltb high n then high else n)

abbrev pub issue_keys : Entropy → EmulatorState → EncKeysQuery → EmulatorState × List Key
unfolding generate_keys
issue_keys e s query =
    generate_keys e s (clamp_u32 1 128 (or_default query.number 1))
      (or_default query.size s.cfg.key_size)

abbrev pub enc_keys_unless :
    Option String → Entropy → EmulatorState → EncKeysQuery → EmulatorState × Answer KeyContainer
enc_keys_unless (some reason) e s query = (s, failed_with 503 (kme_unavailable reason))
enc_keys_unless none e s query =
    let made = issue_keys e s query in (made.0, served (record { keys = made.1 }))

unfoldable pub handle_enc_keys :
    Entropy → EmulatorState → EncKeysQuery → EmulatorState × Answer KeyContainer
handle_enc_keys e s query = enc_keys_unless s.forced_failure e s query

-- The loop over the requested ids: the first unknown one ends it.
unfoldable pub collect_keys : List (String × List ℕ) → List DecKeyId → Answer (List Key)
collect_keys keys [] = served []
collect_keys keys (entry ∷ entries) =
    let rest = collect_keys keys entries in
    elim (Dict.lookup entry.key_id keys) [
      | none ↦ failed_with 404 (key_not_available entry.key_id)
      | some buf ↦ elim rest [
        | served out ↦ served ((record { key_id = entry.key_id; key = base64_encode buf }) ∷ out)
        | failed_with status error ↦ failed_with status error
      ]
    ]

abbrev pub contained : Answer (List Key) → Answer KeyContainer
contained (served out) = served (record { keys = out })
contained (failed_with status error) = failed_with status error

unfoldable pub handle_dec_keys : EmulatorState → DecKeysRequest → Answer KeyContainer
unfolding collect_keys
handle_dec_keys s req = unless_failed s.forced_failure (contained (collect_keys s.keys req.key_ids))

pub data ControlOp : Type 0 where
  set_qber : F32 → ControlOp
  set_key_rate : ℕ → ControlOp
  force_failure : String → ControlOp
  clear_failure : ControlOp

unfoldable pub handle_control : EmulatorState → ControlOp → EmulatorState
handle_control s (set_qber qber) = record s { qber = float_clamp qber 0 0x3f800000 }
handle_control s (set_key_rate rate_bps) = record s { key_rate_bps = rate_bps }
handle_control s (force_failure reason) = record s { forced_failure = some reason }
handle_control s clear_failure = record s { forced_failure = none }
