-- ===== src/Tests/Qkd.antt =====
-- Runs of the quantum key distribution agent on small inputs.
use ree0x_q.Base.{
  ℕ, zero, suc, ◌+◌, ◌≤◌, ◌≡◌, refl, ap, String, Option, some, none, List, [], ◌∷◌, map, replicate,
  length, arith,
}
use ree0x_q.Core.{F32}
use ree0x_q.Qkd.Wire.{StatusResponse, Key, EncKeysQuery}
use ree0x_q.Qkd.Base64.{base64_encode}
use ree0x_q.Qkd.Emulator.{
  EmulatorState, Entropy, default_config, handle_enc_keys, handle_dec_keys, served, force_failure,
  set_key_rate, clear_failure, handle_control, generate_from, generate_keys, clamp_u32, or_default,
}
use ree0x_q.Qkd.Emulator.Delivery.{here, next, control, id_of, handle_enc_keys-handle_dec_keys}
use ree0x_q.Qkd.Emulator.Failure
use ree0x_q.Qkd.Emulator.Failure.{serve, serve-forced_failure}
use ree0x_q.Qkd.Collector.{derive_link_health, status_url}
use ree0x_q.Qkd.Collector.Health.{severity, derive_link_health-monotone}

-- The vectors of RFC 4648.
base64_vectors :
    (base64_encode (102 ∷ []) ≡ "Zg==")
    × (base64_encode (102 ∷ 111 ∷ []) ≡ "Zm8=")
    × (base64_encode (102 ∷ 111 ∷ 111 ∷ 98 ∷ 97 ∷ 114 ∷ []) ≡ "Zm9vYmFy")
unfolding base64_encode
base64_vectors = (refl, refl, refl)

-- Distinct names for the draws.
unary : ℕ → String
unary zero = ""
unary (suc n) = String.◌∷◌ "k" (unary n)

abbrev draws : Entropy
draws = record { uuid = unary; fill_bytes = λ i len. replicate len (i + 7) }

unary_length : String → ℕ
unary_length String.[] = 0
unary_length (String.◌∷◌ c s) = suc (unary_length s)

unary_length-unary : (n : ℕ) → unary_length (unary n) ≡ n
unfolding unary unary_length
unary_length-unary zero = refl
unary_length-unary (suc n) = omega (arith, unary_length-unary n)

unary_injective : (i j : ℕ) → unary i ≡ unary j → i ≡ j
unary_injective i j e = omega (arith, ap unary_length e, unary_length-unary i, unary_length-unary j)

abbrev idle : EmulatorState
idle = record {
  cfg = default_config;
  keys = [];
  qber = 0;
  key_rate_bps = 12_480;
  forced_failure = none;
}

abbrev two_keys : EncKeysQuery
two_keys = record { size = some 12; number = some 2 }

-- Two keys of 12 bits, which take two bytes each.
abbrev issued : List Key
issued = (record { key_id = ""; key = "Bwc=" }) ∷ (record { key_id = "k"; key = "CAg=" }) ∷ []

enc_keys_two : (handle_enc_keys draws idle two_keys).1 ≡ served (record { keys = issued })
unfolding handle_enc_keys generate_keys generate_from base64_encode unary
enc_keys_two = refl

-- A failure comes and goes between the issue of the keys and their delivery.
abbrev recovered : EmulatorState
recovered =
    handle_control
      (handle_control (handle_enc_keys draws idle two_keys).0 (force_failure "fibre cut"))
      clear_failure

recovered_clear : recovered.forced_failure ≡ none
unfolding handle_control
recovered_clear = refl

handle_enc_keys-handle_dec_keys_example :
    (length issued ≡ clamp_u32 1 128 (or_default two_keys.number 1))
    × (handle_dec_keys recovered (record { key_ids = map id_of issued })
        ≡ served (record { keys = issued }))
handle_enc_keys-handle_dec_keys_example =
    handle_enc_keys-handle_dec_keys draws idle recovered two_keys (record { keys = issued })
      unary_injective enc_keys_two
      (next (next here (control (force_failure "fibre cut") refl)) (control clear_failure refl))
      recovered_clear

abbrev broken : EmulatorState
broken = record idle { forced_failure = some "fibre cut" }

abbrev requests : List Failure.Request
requests =
    Failure.status "SAE-1" ∷ Failure.enc_keys draws two_keys ∷ Failure.control (set_key_rate 5) ∷ []

serve-forced_failure_example :
    ((serve broken requests).1 ≡ map (Failure.refusal "fibre cut") requests)
    × (handle_dec_keys
          (handle_control (serve broken requests).0 clear_failure)
          (record { key_ids = [] })
        ≡ handle_dec_keys (handle_control broken clear_failure) (record { key_ids = [] }))
serve-forced_failure_example =
    serve-forced_failure "fibre cut" broken requests (record { key_ids = [] }) refl
      (tt, (tt, (tt, tt)))

abbrev status_with : Option F32 → ℕ → StatusResponse
status_with qber stored = record {
  source_kme_id = "KME-A";
  target_kme_id = "KME-B";
  master_sae_id = "SAE-1";
  slave_sae_id = "SAE-2";
  key_size = 256;
  stored_key_count = stored;
  max_key_count = 100_000;
  max_key_per_request = 128;
  max_key_size = 4_096;
  min_key_size = 64;
  max_sae_id_count = 0;
  link_qber = qber;
  link_key_rate_bps = none;
}

-- 0.018 and 0.07 against the thresholds 0.05 and 0.11.
derive_link_health-monotone_example :
    severity
      (derive_link_health (λ x. "0") (status_with (some 0x3c9374bc) 32) 0x3d4ccccd 0x3de147ae).0
    ≤ severity
        (derive_link_health (λ x. "0") (status_with (some 0x3d8f5c29) 8) 0x3d4ccccd 0x3de147ae).0
derive_link_health-monotone_example =
    derive_link_health-monotone (λ x. "0") (status_with (some 0x3c9374bc) 32)
      (status_with (some 0x3d8f5c29) 8) 0x3d4ccccd 0x3de147ae refl (omega arith)

status_url_idempotent : status_url "http://h/api/v1/" "S" ≡ status_url "http://h/api/v1/keys" "S"
unfolding status_url
status_url_idempotent = refl
