-- ===== src/Id/Kms.antt =====
-- The cloud backend: crates/ree0xq-id/src/aws_kms.rs. The answers of the AWS client are arguments; its
-- pages are listed one by one, and the loop over the pages is left out.
use ree0x_q.Base.{
  ℕ, ◌+◌, String, Option, none, some, List, [], ◌∷◌, map, codes, text_append, match_text,
  upper_code,
}
use mathlib.Core.Option
use ree0x_q.Core.{DateTime, CryptoInventoryEvent}
use ree0x_q.Id.Algos.{primitives_for}
use ree0x_q.Id.Event.{build_event}
use ree0x_q.Id.Inventory.{bits_text}

pub record KmsKeyInfo : Type 0 where
  pub key_id : String
  pub key_spec : String
  pub key_size_bits : Option ℕ
  pub usage : Option String
  pub region : Option String

pub record KmsScanStats : Type 0 where
  pub keys_seen : ℕ
  pub events_emitted : ℕ

abbrev pub spec_arms : List (List String × String)
spec_arms =
    ("RSA_2048" ∷ "RSA_3072" ∷ "RSA_4096" ∷ [], "RSA")
    ∷ ("ECC_NIST_P256" ∷ [], "ECDSA-P256")
    ∷ ("ECC_NIST_P384" ∷ [], "ECDSA-P384")
    ∷ ("ECC_NIST_P521" ∷ [], "ECDSA-P521")
    ∷ ("ECC_SECG_P256K1" ∷ [], "ECDSA-secp256k1")
    ∷ ("SYMMETRIC_DEFAULT" ∷ [], "AES")
    ∷ ("HMAC_224" ∷ [], "HMAC-SHA256")
    ∷ ("HMAC_256" ∷ [], "HMAC-SHA256")
    ∷ ("HMAC_384" ∷ [], "HMAC-SHA384")
    ∷ ("HMAC_512" ∷ [], "HMAC-SHA512")
    ∷ ("ML_DSA_44" ∷ "ML-DSA-44" ∷ [], "ML-DSA-44")
    ∷ ("ML_DSA_65" ∷ "ML-DSA-65" ∷ [], "ML-DSA-65")
    ∷ ("ML_DSA_87" ∷ "ML-DSA-87" ∷ [], "ML-DSA-87")
    ∷ []

abbrev pub algo_or : String → Option String → String
algo_or spec none = spec
algo_or spec (some algo) = algo

unfoldable pub aws_keyspec_to_algo : String → String
aws_keyspec_to_algo spec = algo_or spec (match_text (map upper_code (codes spec)) spec_arms)

abbrev pub bits_arms : List (List String × ℕ)
bits_arms =
    ("RSA_2048" ∷ [], 2_048)
    ∷ ("RSA_3072" ∷ [], 3_072)
    ∷ ("RSA_4096" ∷ [], 4_096)
    ∷ ("SYMMETRIC_DEFAULT" ∷ [], 256)
    ∷ ("HMAC_224" ∷ [], 224)
    ∷ ("HMAC_256" ∷ [], 256)
    ∷ ("HMAC_384" ∷ [], 384)
    ∷ ("HMAC_512" ∷ [], 512)
    ∷ []

unfoldable pub aws_keyspec_bits : String → Option ℕ
aws_keyspec_bits spec = match_text (map upper_code (codes spec)) bits_arms

-- What DescribeKey tells of a key.
pub record KeyMetadata : Type 0 where
  pub arn : Option String
  pub key_spec : Option String
  pub key_usage : Option String

abbrev pub text_or : String → Option String → String
text_or default none = default
text_or default (some text) = text

abbrev pub bits_of : Option String → Option ℕ
unfolding aws_keyspec_bits
bits_of none = none
bits_of (some spec) = aws_keyspec_bits spec

unfoldable pub key_info : String → String → KeyMetadata → KmsKeyInfo
unfolding aws_keyspec_to_algo
key_info region key_id meta = record {
  key_id = text_or key_id meta.arn;
  key_spec = text_or "unknown" (Option.map aws_keyspec_to_algo meta.key_spec);
  key_size_bits = bits_of meta.key_spec;
  usage = meta.key_usage;
  region = some region;
}

-- One turn, with the answer of DescribeKey: none where the call fails, which ends the listing with
-- an error, and none inside where it has no metadata, which skips the key.
unfoldable pub push_key :
    String
    → String
    → Option (Option KeyMetadata)
    → Option (List KmsKeyInfo)
    → Option (List KmsKeyInfo)
unfolding key_info
push_key region key_id none rest = none
push_key region key_id (some none) rest = rest
push_key region key_id (some (some meta)) none = none
push_key region key_id (some (some meta)) (some keys) = some (key_info region key_id meta ∷ keys)

-- The keys of one page.
unfoldable pub page_keys :
    (String → Option (Option KeyMetadata))
    → String
    → List (Option String)
    → Option (List KmsKeyInfo)
unfolding push_key
page_keys describe region [] = some []
page_keys describe region (entry ∷ entries) =
    let key_id = text_or "" entry in
    push_key region key_id (describe key_id) (page_keys describe region entries)

abbrev pub usage_suffix : Option String → String
usage_suffix none = ""
usage_suffix (some usage) = text_append ", usage=" usage

abbrev pub rationale_of : KmsKeyInfo → String
rationale_of key = text_append (text_append "KMS key " key.key_id) (
    text_append (text_append " (" key.key_spec)
      (text_append (bits_text key.key_size_bits) (text_append (usage_suffix key.usage) ")")))

unfoldable pub event_of : DateTime → KmsKeyInfo → CryptoInventoryEvent
unfolding primitives_for build_event
event_of now key =
    build_event now key.key_id (Option.map (λ region. text_append "aws-kms:" region) key.region)
      (primitives_for key.key_spec key.key_size_bits) (rationale_of key)

abbrev pub count_key : KmsScanStats → KmsScanStats
count_key s = record s { keys_seen = s.keys_seen + 1; events_emitted = s.events_emitted + 1 }

unfoldable pub scan_keys :
    DateTime → List KmsKeyInfo → KmsScanStats → KmsScanStats × List CryptoInventoryEvent
unfolding event_of
scan_keys now [] s = (s, [])
scan_keys now (key ∷ keys) s =
    let rest = scan_keys now keys (count_key s) in (rest.0, event_of now key ∷ rest.1)

-- None where `list_keys` fails.
unfoldable pub kms_scan :
    DateTime → Option (List KmsKeyInfo) → Option (KmsScanStats × List CryptoInventoryEvent)
unfolding scan_keys
kms_scan now listed =
    Option.map (λ keys. scan_keys now keys (record { keys_seen = 0; events_emitted = 0 })) listed
