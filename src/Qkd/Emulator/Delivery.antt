-- ===== src/Qkd/Emulator/Delivery.antt =====
-- The keys that enc_keys issues stay available to dec_keys.
use ree0x_q.Base.{
  ℕ, zero, suc, ◌≤◌, ◌≡◌, ◌≢◌, refl, sym, length, String, Option, none, some, List, [], ◌∷◌, map,
  All, arith, string_eq,
}
use ree0x_q.Base.Dict
use mathlib.Core.Path.{subst}
use ree0x_q.Qkd.Wire.{Key, KeyContainer, EncKeysQuery, DecKeyId}
use ree0x_q.Qkd.Base64.{base64_encode}
use ree0x_q.Qkd.Emulator.{
  EmulatorState, Entropy, generate_from, generate_keys, handle_enc_keys, handle_dec_keys,
  collect_keys, enc_keys_unless, unless_failed, ControlOp, set_qber, set_key_rate, force_failure,
  clear_failure, handle_control, served, contained, byte_length, clamp_u32, or_default,
}

-- The pool holds the key under its id.
abbrev pub IsHeld : List (String × List ℕ) → Key → Type 0
IsHeld keys k =
    (buf : List ℕ) × (Dict.lookup k.key_id keys ≡ some buf) × (base64_encode buf ≡ k.key)

-- The UUIDs of a call are none of the ids of these keys.
abbrev pub Avoids : Entropy → Key → Type 0
Avoids e k = (i : ℕ) → e.uuid i ≢ k.key_id

-- The UUIDs of a call are distinct.
abbrev pub IsFresh : Entropy → Type 0
IsFresh e = (i j : ℕ) → e.uuid i ≡ e.uuid j → i ≡ j

insert-IsHeld :
    (id : String) (bytes : List ℕ) (keys : List (String × List ℕ)) (k : Key)
    → id ≢ k.key_id
    → IsHeld keys k
    → IsHeld (Dict.insert id bytes keys) k
insert-IsHeld id bytes keys k other h = (
  h.0,
  ground
      (arith, other, Dict.lookup-insert id k.key_id bytes keys, string_eq.beq_iff id k.key_id, h.1),
  h.2,
)

generate_from-keeps :
    (e : Entropy) (len n i : ℕ) (keys : List (String × List ℕ)) (k : Key)
    → ((j : ℕ) → i ≤ j → e.uuid j ≢ k.key_id)
    → IsHeld keys k
    → IsHeld (generate_from e len n i keys).0 k
unfolding generate_from
generate_from-keeps e len zero i keys k fresh h = h
generate_from-keeps e len (suc n) i keys k fresh h =
    generate_from-keeps e len n (suc i) (Dict.insert (e.uuid i) (e.fill_bytes i len) keys) k
      (λ j le. fresh j (omega (arith, le)))
      (insert-IsHeld (e.uuid i) (e.fill_bytes i len) keys k (fresh i (omega arith)) h)

generate_from-IsHeld :
    (e : Entropy) (len n i : ℕ) (keys : List (String × List ℕ))
    → IsFresh e
    → All (IsHeld (generate_from e len n i keys).0) (generate_from e len n i keys).1
unfolding generate_from
generate_from-IsHeld e len zero i keys fresh = tt
generate_from-IsHeld e len (suc n) i keys fresh =
    let stored : List (String × List ℕ) = Dict.insert (e.uuid i) (e.fill_bytes i len) keys in
    let issued : Key = record { key_id = e.uuid i; key = base64_encode (e.fill_bytes i len) } in
    let first : IsHeld stored issued =
      (e.fill_bytes i len, Dict.lookup-insert_self (e.uuid i) (e.fill_bytes i len) keys, refl) in
    (
      generate_from-keeps e len n (suc i) stored issued
          (λ j le same. absurd (omega (arith, le, fresh j i same))) first,
      generate_from-IsHeld e len n (suc i) stored fresh,
    )

-- What the peer asks for.
abbrev pub id_of : Key → DecKeyId
id_of k = record { key_id = k.key_id }

collect_keys-IsHeld :
    (keys : List (String × List ℕ)) (ks : List Key)
    → All (IsHeld keys) ks
    → collect_keys keys (map id_of ks) ≡ served ks
unfolding collect_keys
collect_keys-IsHeld keys [] h = refl
collect_keys-IsHeld keys (k ∷ ks) h = ground (arith, h.0.1, h.0.2, collect_keys-IsHeld keys ks h.1)

-- The steps that do not issue an id of these keys: calls of enc_keys with other UUIDs, and control
-- operations. The other handlers do not write.
pub data Step (ks : List Key) (s : EmulatorState) (t : EmulatorState) : Type 0 where
  enc_keys :
      (e : Entropy) (query : EncKeysQuery)
      → All (Avoids e) ks
      → t ≡ (handle_enc_keys e s query).0
      → Step ks s t
  control : (op : ControlOp) → t ≡ handle_control s op → Step ks s t

pub data Reach (ks : List Key) (s : EmulatorState) : EmulatorState → Type 0 where
  here : Reach ks s s
  next : {t u : EmulatorState} → Reach ks s t → Step ks t u → Reach ks s u

generate_from-All :
    (e : Entropy) (len n i : ℕ) (keys : List (String × List ℕ)) (ks : List Key)
    → All (Avoids e) ks
    → All (IsHeld keys) ks
    → All (IsHeld (generate_from e len n i keys).0) ks
generate_from-All e len n i keys [] a h = tt
generate_from-All e len n i keys (k ∷ ks) a h = (
  generate_from-keeps e len n i keys k (λ j le. a.0 j) h.0,
  generate_from-All e len n i keys ks a.1 h.1,
)

abbrev pub AreHeld : List Key → EmulatorState → Type 0
AreHeld ks s = All (IsHeld s.keys) ks

enc_keys-AreHeld :
    (ks : List Key) (e : Entropy) (s : EmulatorState) (query : EncKeysQuery)
    (failure : Option String)
    → All (Avoids e) ks
    → AreHeld ks s
    → AreHeld ks (enc_keys_unless failure e s query).0
unfolding generate_keys
enc_keys-AreHeld ks e s query (some reason) a h = h
enc_keys-AreHeld ks e s query none a h =
    generate_from-All e (byte_length (or_default query.size s.cfg.key_size))
      (clamp_u32 1 128 (or_default query.number 1)) 0 s.keys ks a h

control-AreHeld :
    (ks : List Key) (s : EmulatorState) (op : ControlOp)
    → AreHeld ks s
    → AreHeld ks (handle_control s op)
unfolding handle_control
control-AreHeld ks s (set_qber qber) h = h
control-AreHeld ks s (set_key_rate rate) h = h
control-AreHeld ks s (force_failure reason) h = h
control-AreHeld ks s clear_failure h = h

Step-AreHeld : {ks : List Key} {s t : EmulatorState} → Step ks s t → AreHeld ks s → AreHeld ks t
unfolding handle_enc_keys
Step-AreHeld {ks} {s} (enc_keys e query a same) h =
    subst (AreHeld ks) (sym same) (enc_keys-AreHeld ks e s query s.forced_failure a h)
Step-AreHeld {ks} {s} (control op same) h =
    subst (AreHeld ks) (sym same) (control-AreHeld ks s op h)

Reach-AreHeld : {ks : List Key} {s t : EmulatorState} → AreHeld ks s → Reach ks s t → AreHeld ks t
Reach-AreHeld h here = h
Reach-AreHeld h (next r st) = Step-AreHeld st (Reach-AreHeld h r)

length-generate_from :
    (e : Entropy) (len n i : ℕ) (keys : List (String × List ℕ))
    → length (generate_from e len n i keys).1 ≡ n
unfolding generate_from
length-generate_from e len zero i keys = refl
length-generate_from e len (suc n) i keys =
    ground (
      arith,
      length-generate_from e len n (suc i) (Dict.insert (e.uuid i) (e.fill_bytes i len) keys),
    )

-- What a container that a call answers is.
issued_by :
    (e : Entropy) (s : EmulatorState) (query : EncKeysQuery) (container : KeyContainer)
    (failure : Option String)
    → IsFresh e
    → (enc_keys_unless failure e s query).1 ≡ served container
    → AreHeld container.keys (enc_keys_unless failure e s query).0
      × (length container.keys ≡ clamp_u32 1 128 (or_default query.number 1))
unfolding generate_keys
issued_by e s query container (some reason) fresh h = absurd (ground arith)
issued_by e s query container none fresh h =
    let len : ℕ = byte_length (or_default query.size s.cfg.key_size) in
    let number : ℕ = clamp_u32 1 128 (or_default query.number 1) in
    let made : List (String × List ℕ) × List Key = generate_from e len number 0 s.keys in
    let same : made.1 ≡ container.keys = ground (arith, h) in
    (
      subst (All (IsHeld made.0)) same (generate_from-IsHeld e len number 0 s.keys fresh),
      ground (arith, same, length-generate_from e len number 0 s.keys),
    )

dec_keys-served :
    (t : EmulatorState) (ks : List Key) (failure : Option String)
    → failure ≡ none
    → AreHeld ks t
    → unless_failed failure (contained (collect_keys t.keys (map id_of ks)))
      ≡ served (record { keys = ks })
dec_keys-served t ks failure clear h = rw (clear, collect_keys-IsHeld t.keys ks h) refl

-- The keys that enc_keys answers, as many as asked for within 1 and 128, are answered by dec_keys in
-- every later state without a forced failure, if the UUIDs drawn are distinct and no later call of
-- enc_keys draws one of them again.
pub handle_enc_keys-handle_dec_keys :
    (e : Entropy) (s t : EmulatorState) (query : EncKeysQuery) (container : KeyContainer)
    → IsFresh e
    → (handle_enc_keys e s query).1 ≡ served container
    → Reach container.keys (handle_enc_keys e s query).0 t
    → t.forced_failure ≡ none
    → (length container.keys ≡ clamp_u32 1 128 (or_default query.number 1))
      × (handle_dec_keys t (record { key_ids = map id_of container.keys }) ≡ served container)
unfolding handle_enc_keys handle_dec_keys
handle_enc_keys-handle_dec_keys e s t query container fresh answered reached clear =
    let issued = issued_by e s query container s.forced_failure fresh answered in
    (
      issued.1,
      dec_keys-served t container.keys t.forced_failure clear (Reach-AreHeld issued.0 reached),
    )
