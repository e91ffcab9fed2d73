-- ===== src/Tests/Id.antt =====
-- Runs of the key classifiers on small inputs.
use ree0x_q.Base.{◌≡◌, refl, String, Option, some, none, List, [], ◌∷◌, map, length, arith}
use mathlib.Core.Path.{subst}
use ree0x_q.Core.{CryptoInventoryEvent, Primitive}
use ree0x_q.Id.Algos.{primitives_for}
use ree0x_q.Id.Kms.{
  KmsKeyInfo, KmsScanStats, KeyMetadata, page_keys, push_key, key_info, kms_scan,
  aws_keyspec_to_algo, aws_keyspec_bits,
}
use ree0x_q.Id.Coverage.{AllListed, AllTell, IsListed, kms_scan-page_keys}

abbrev algorithms : List Primitive → List String
algorithms prims = map (λ p. p.algorithm) prims

primitives_runs :
    (algorithms (primitives_for "rsa" (some 4_096)) ≡ "RSA-PKCS1-4096" ∷ [])
    × (algorithms (primitives_for "ec-p256" none) ≡ "ECDSA-P256" ∷ "SHA-256" ∷ [])
    × (algorithms (primitives_for "DSA" none) ≡ "unknown:DSA" ∷ [])
unfolding primitives_for
primitives_runs = (refl, refl, refl)

abbrev signing_key : KeyMetadata
signing_key = record {
  arn = some "arn:aws:kms:k1";
  key_spec = some "RSA_2048";
  key_usage = some "SIGN_VERIFY";
}

abbrev describe_all : String → Option (Option KeyMetadata)
describe_all key_id = some (some signing_key)

describe_all-AllListed : AllListed describe_all
describe_all-AllListed key_id meta e =
    let same : signing_key ≡ meta = ground (arith, e) in
    subst (λ m. IsListed m.key_spec) same ("RSA", refl)

abbrev listed_key : KmsKeyInfo
listed_key = record {
  key_id = "arn:aws:kms:k1";
  key_spec = "RSA";
  key_size_bits = some 2_048;
  usage = some "SIGN_VERIFY";
  region = some "eu-west-1";
}

page_keys_run : page_keys describe_all "eu-west-1" (some "k1" ∷ []) ≡ some (listed_key ∷ [])
unfolding page_keys push_key key_info aws_keyspec_to_algo aws_keyspec_bits
page_keys_run = refl

kms_scan-page_keys_example :
    (s : KmsScanStats) × (out : List CryptoInventoryEvent) × (kms_scan 0
        (page_keys describe_all "eu-west-1" (some "k1" ∷ []))
      ≡ some (s, out))
    × AllTell out (listed_key ∷ [])
    × (s.keys_seen ≡ 1)
    × (s.events_emitted ≡ length out)
kms_scan-page_keys_example =
    kms_scan-page_keys 0 describe_all "eu-west-1" (some "k1" ∷ []) (listed_key ∷ [])
      describe_all-AllListed page_keys_run
