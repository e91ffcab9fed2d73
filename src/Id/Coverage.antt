-- ===== src/Id/Coverage.antt =====
-- What the scans of keys emit, and that the key specs of AWS are classified.
use ree0x_q.Base.{
  ℕ, ◌+◌, ◌≡◌, refl, sym, ap, Bool, true, false, leb, String, Option, none, some, List, [], ◌∷◌,
  map, length, codes, All, match_text, match_text-All, upper_code, arith,
}
use mathlib.Core.Path.{subst}
use ree0x_q.Core.{DateTime, CryptoInventoryEvent, Primitive, NistLevel, l1, l3, l5}
use ree0x_q.Id.Algos.{primitives_for, aes_bits, sig, hash_sha, curve}
use ree0x_q.Id.Event.{build_event}
use ree0x_q.Id.Kms.{
  KmsKeyInfo, KmsScanStats, KeyMetadata, spec_arms, aws_keyspec_to_algo, key_info, page_keys,
  push_key, text_or, kms_scan, scan_keys, event_of, count_key, bits_of,
}

-- Rated post-quantum or not, which an unknown algorithm is not.
abbrev pub IsRated : Primitive → Type 0
IsRated p = (b : Bool) × (p.pq_resistant ≡ some b)

abbrev IsCovered : String → Type 0
IsCovered algo = (bits : Option ℕ) → All IsRated (primitives_for algo bits)

sig-IsRated :
    (name : String) (pq : Bool) (level : Option NistLevel) (bits : Option ℕ)
    → All IsRated (sig name pq level bits ∷ [])
sig-IsRated name pq level bits = ((pq, refl), tt)

hash_sha-IsRated : (name : String) → All IsRated (hash_sha name ∷ [])
hash_sha-IsRated name = ((true, refl), tt)

curve-IsRated : (name digest : String) → All IsRated (curve name digest)
curve-IsRated name digest = ((false, refl), hash_sha-IsRated digest)

spec_arms-IsCovered : All (λ arm. IsCovered arm.1) spec_arms
unfolding primitives_for
spec_arms-IsCovered = (
  (λ bits. sig-IsRated "RSA-PKCS1" false none bits),
  (
    (λ bits. curve-IsRated "ECDSA-P256" "SHA-256"),
    (
      (λ bits. curve-IsRated "ECDSA-P384" "SHA-384"),
      (
        (λ bits. curve-IsRated "ECDSA-P521" "SHA-512"),
        (
          (λ bits. curve-IsRated "ECDSA-secp256k1" "SHA-256"),
          (
            (λ bits. ((leb 256 (aes_bits bits), refl), tt)),
            (
              (λ bits. hash_sha-IsRated "SHA-256"),
              (
                (λ bits. hash_sha-IsRated "SHA-256"),
                (
                  (λ bits. hash_sha-IsRated "SHA-384"),
                  (
                    (λ bits. hash_sha-IsRated "SHA-512"),
                    (
                      (λ bits. sig-IsRated "ML-DSA-44" true (some l1) none),
                      (
                        (λ bits. sig-IsRated "ML-DSA-65" true (some l3) none),
                        ((λ bits. sig-IsRated "ML-DSA-87" true (some l5) none), tt),
                      ),
                    ),
                  ),
                ),
              ),
            ),
          ),
        ),
      ),
    ),
  ),
)

-- The spec is one that the code knows.
abbrev pub IsListed : Option String → Type 0
IsListed none = ⊥
IsListed (some spec) =
    (algo : String) × (match_text (map upper_code (codes spec)) spec_arms ≡ some algo)

aws_keyspec_to_algo-IsCovered :
    (spec : String) → IsListed (some spec) → IsCovered (aws_keyspec_to_algo spec)
unfolding aws_keyspec_to_algo
aws_keyspec_to_algo-IsCovered spec listed =
    rw listed.1 (
      match_text-All IsCovered (map upper_code (codes spec)) spec_arms spec_arms-IsCovered listed.1)

-- A key whose spec is covered.
abbrev HasCovered : KmsKeyInfo → Type 0
HasCovered key = All IsRated (primitives_for key.key_spec key.key_size_bits)

key_info-HasCovered :
    (region key_id : String) (meta : KeyMetadata) (spec : Option String)
    → meta.key_spec ≡ spec
    → IsListed spec
    → HasCovered (key_info region key_id meta)
unfolding key_info
key_info-HasCovered region key_id meta none e listed = absurd listed
key_info-HasCovered region key_id meta (some spec) e listed =
    rw e (aws_keyspec_to_algo-IsCovered spec listed (bits_of (some spec)))

-- Every key that the service describes has a spec that the code knows.
abbrev pub AllListed : (String → Option (Option KeyMetadata)) → Type 0
AllListed describe =
    (key_id : String) (meta : KeyMetadata)
    → describe key_id ≡ some (some meta)
    → IsListed meta.key_spec

push_key-HasCovered :
    (region key_id : String) (answer : Option (Option KeyMetadata))
    (rest : Option (List KmsKeyInfo)) (keys : List KmsKeyInfo)
    → ((meta : KeyMetadata) → answer ≡ some (some meta) → IsListed meta.key_spec)
    → ((ks : List KmsKeyInfo) → rest ≡ some ks → All HasCovered ks)
    → push_key region key_id answer rest ≡ some keys
    → All HasCovered keys
unfolding push_key
push_key-HasCovered region key_id none rest keys listed behind e = absurd (ground (arith, e))
push_key-HasCovered region key_id (some none) rest keys listed behind e = behind keys e
push_key-HasCovered region key_id (some (some meta)) none keys listed behind e =
    absurd (ground (arith, e))
push_key-HasCovered region key_id (some (some meta)) (some ks) keys listed behind e =
    let same : key_info region key_id meta ∷ ks ≡ keys = ground (arith, e) in
    subst (All HasCovered) same
      (key_info-HasCovered region key_id meta meta.key_spec refl (listed meta refl), behind ks refl)

page_keys-HasCovered :
    (describe : String → Option (Option KeyMetadata)) (region : String)
    (entries : List (Option String)) (keys : List KmsKeyInfo)
    → AllListed describe
    → page_keys describe region entries ≡ some keys
    → All HasCovered keys
unfolding page_keys
page_keys-HasCovered describe region [] keys listed e =
    let same : [] ≡ keys = ground (arith, e) in subst (All HasCovered) same tt
page_keys-HasCovered describe region (entry ∷ entries) keys listed e =
    push_key-HasCovered region (text_or "" entry) (describe (text_or "" entry))
      (page_keys describe region entries) keys (listed (text_or "" entry))
      (λ ks h. page_keys-HasCovered describe region entries ks listed h) e

length-map-event_of :
    (now : DateTime) (keys : List KmsKeyInfo) → length (map (event_of now) keys) ≡ length keys
length-map-event_of now [] = refl
length-map-event_of now (key ∷ keys) = omega (arith, length-map-event_of now keys)

-- The events of keys, in order, with their counters.
scan_keys-counts :
    (now : DateTime) (keys : List KmsKeyInfo) (s : KmsScanStats)
    → ((scan_keys now keys s).1 ≡ map (event_of now) keys)
      × ((scan_keys now keys s).0.keys_seen ≡ s.keys_seen + length keys)
      × ((scan_keys now keys s).0.events_emitted ≡ s.events_emitted + length keys)
unfolding scan_keys
scan_keys-counts now [] s = (refl, omega arith, omega arith)
scan_keys-counts now (key ∷ keys) s =
    let rest = scan_keys-counts now keys (count_key s) in
    (ap (λ out. event_of now key ∷ out) rest.0, omega (arith, rest.1), omega (arith, rest.2))

-- What an event tells of a key: its identity, and primitives that are rated.
abbrev pub Tells : CryptoInventoryEvent → KmsKeyInfo → Type 0
Tells ev key = (ev.asset.identity ≡ key.key_id) × All IsRated ev.primitives

abbrev pub AllTell : List CryptoInventoryEvent → List KmsKeyInfo → Type 0
AllTell [] [] = Unit
AllTell [] (key ∷ keys) = ⊥
AllTell (ev ∷ evs) [] = ⊥
AllTell (ev ∷ evs) (key ∷ keys) = Tells ev key × AllTell evs keys

map-event_of-AllTell :
    (now : DateTime) (keys : List KmsKeyInfo)
    → All HasCovered keys
    → AllTell (map (event_of now) keys) keys
unfolding build_event event_of
map-event_of-AllTell now [] h = tt
map-event_of-AllTell now (key ∷ keys) h = ((refl, h.0), map-event_of-AllTell now keys h.1)

-- A scan of the keys of a page whose specs are known emits one event for each key, in order, with
-- its identity and only rated primitives, and counts them.
pub kms_scan-page_keys :
    (now : DateTime) (describe : String → Option (Option KeyMetadata)) (region : String)
    (entries : List (Option String)) (keys : List KmsKeyInfo)
    → AllListed describe
    → page_keys describe region entries ≡ some keys
    → (s : KmsScanStats) × (out : List CryptoInventoryEvent) × (kms_scan now
          (page_keys describe region entries)
        ≡ some (s, out))
      × AllTell out keys
      × (s.keys_seen ≡ length keys)
      × (s.events_emitted ≡ length out)
unfolding kms_scan
kms_scan-page_keys now describe region entries keys listed e =
    let start : KmsScanStats = record { keys_seen = 0; events_emitted = 0 } in
    let done = scan_keys-counts now keys start in
    let told =
      map-event_of-AllTell now keys (page_keys-HasCovered describe region entries keys listed e) in
    (
      (scan_keys now keys start).0,
      (scan_keys now keys start).1,
      rw e refl,
      subst (λ out. AllTell out keys) (sym done.0) told,
      omega (arith, done.1),
      omega (arith, done.2, ap length done.0, length-map-event_of now keys),
    )
