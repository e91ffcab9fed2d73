-- ===== src/Server/Enrol/Tokens.antt =====
-- What the token store of crates/ree0xq-server/src/enrol.rs promises.
use ree0x_q.Base.{
  ℕ, ◌≤◌, Bool, true, false, ◌&&◌, String, none, some, List, [], ◌∷◌, length, eqb, if◌then◌else◌,
  string_eq, ◌==◌, ℤ, shift, ◌≡◌, ◌≢◌, ◌↔◌, ◌⊎◌, inl, inr, refl, ap, arith, All, Bool-cases,
  Option-cases, bit_xor_iff, bit_or_iff,
}
use Prim.Native.Nat.{bit_or, bit_xor}
use ree0x_q.Base.Dict
use ree0x_q.Server.Enrol.{
  TokenEntry, BootstrapTokenStore, unknown_token, expired, agent_mismatch, Consumed, redeemed,
  refused, issue, consume, prune_expired, is_current, differences, constant_time_eq, hour,
}

-- One call on the store.
pub data Op : Type 0 where
  issue_op : String → ℕ → String → ℤ → Op
  consume_op : ℕ → String → String → Op
  prune_op : ℕ → Op

abbrev pub step : BootstrapTokenStore → Op → BootstrapTokenStore
step s (issue_op token now agent ttl) = (issue s token now agent ttl).0
step s (consume_op now token agent) = (consume s now token agent).0
step s (prune_op now) = prune_expired s now

abbrev pub run : BootstrapTokenStore → List Op → BootstrapTokenStore
run s [] = s
run s (op ∷ ops) = run (step s op) ops

-- The call does not issue the token: each UUID is fresh.
abbrev pub IsOther : String → Op → Type 0
IsOther token (issue_op t now agent ttl) = t ≢ token
IsOther token (consume_op now t agent) = Unit
IsOther token (prune_op now) = Unit

-- A token is redeemed exactly if it is in the store, has not expired and was issued for the agent;
-- and then the entry is the one in the store.
pub consume-redeemed_iff :
    (s : BootstrapTokenStore) (now : ℕ) (token agent : String) (e : TokenEntry)
    → ((consume s now token agent).1 ≡ redeemed e)
      ↔ ((Dict.lookup token s.tokens ≡ some e) × (now ≤ e.expires_at) × (e.agent_id ≡ agent))
unfolding consume
consume-redeemed_iff s now token agent e = elim (Option-cases (Dict.lookup token s.tokens)) [
  | inl absent ↦ ground (arith, absent)
  | inr (f, found) ↦ ground (arith, found, string_eq.beq_iff f.agent_id agent)
]

-- Whether a consume takes its token out of the store.
abbrev pub burns : Consumed → Bool
burns (redeemed e) = true
burns (refused unknown_token) = false
burns (refused expired) = true
burns (refused agent_mismatch) = false

-- What a consume leaves of the tokens: a redeemed or an expired token is gone, the wrong agent and
-- an unknown token change no entry, and no other token is touched.
pub lookup-consume :
    (s : BootstrapTokenStore) (now : ℕ) (token agent k : String)
    → Dict.lookup k (consume s now token agent).0.tokens
      ≡ (if token == k && burns (consume s now token agent).1 then none else Dict.lookup k s.tokens)
unfolding consume
lookup-consume s now token agent k = elim (Option-cases (Dict.lookup token s.tokens)) [
  | inl absent ↦
      ground (arith, absent, string_eq.beq_iff token k, Dict.lookup-remove token k s.tokens)
  | inr (f, found) ↦ ground (
    arith,
    found,
    string_eq.beq_iff token k,
    Dict.lookup-remove token k s.tokens,
    Dict.lookup-insert token k f (Dict.remove token s.tokens),
  )
]

abbrev new_entry : ℕ → String → ℤ → TokenEntry
new_entry now agent ttl = record { agent_id = agent; expires_at = shift now ttl hour }

step-absent :
    (token : String) (s : BootstrapTokenStore) (op : Op)
    → IsOther token op
    → Dict.lookup token s.tokens ≡ none
    → Dict.lookup token (step s op).tokens ≡ none
unfolding issue prune_expired
step-absent token s (issue_op t now agent ttl) other absent = ground (
  arith,
  string_eq.beq_iff t token,
  absent,
  Dict.lookup-insert t token (new_entry now agent ttl) s.tokens,
)
step-absent token s (consume_op now t agent) other absent =
    ground (arith, absent, lookup-consume s now t agent token)
step-absent token s (prune_op now) other absent =
    Dict.lookup-retain_absent (λ _ e. is_current now e) token s.tokens absent

run-absent :
    (token : String) (s : BootstrapTokenStore) (ops : List Op)
    → All (IsOther token) ops
    → Dict.lookup token s.tokens ≡ none
    → Dict.lookup token (run s ops).tokens ≡ none
run-absent token s [] others absent = absent
run-absent token s (op ∷ ops) others absent =
    run-absent token (step s op) ops others.1 (step-absent token s op others.0 absent)

consume_burns_unknown :
    (s : BootstrapTokenStore) (now : ℕ) (token agent : String)
    → Dict.lookup token s.tokens ≡ none
    → consume s now token agent
      ≡ (record { tokens = Dict.remove token s.tokens }, refused unknown_token)
unfolding consume
consume_burns_unknown s now token agent absent = rw absent refl

-- A token is single-use: once a consume has redeemed it or found it expired, then after any calls
-- that do not issue the same token again, every consume of it, by any agent at any time, is
-- refused as unknown.
pub consume_single_use :
    (s : BootstrapTokenStore) (now : ℕ) (token agent : String) (ops : List Op) (later : ℕ)
    (other : String)
    → burns (consume s now token agent).1 ≡ true
    → All (IsOther token) ops
    → (consume (run (consume s now token agent).0 ops) later token other).1 ≡ refused unknown_token
consume_single_use s now token agent ops later other burnt others =
    let gone : Dict.lookup token (consume s now token agent).0.tokens ≡ none =
      ground
        (arith, burnt, string_eq.beq_iff token token, lookup-consume s now token agent token) in
    ap (λ x. x.1)
      (consume_burns_unknown (run (consume s now token agent).0 ops) later token other
        (run-absent token (consume s now token agent).0 ops others gone))

-- Until it expires or is consumed, pruning keeps a token.
prune_expired-lookup :
    (s : BootstrapTokenStore) (now : ℕ) (token : String) (e : TokenEntry)
    → Dict.Distinct s.tokens
    → Dict.lookup token s.tokens ≡ some e
    → now ≤ e.expires_at
    → Dict.lookup token (prune_expired s now).tokens ≡ some e
unfolding prune_expired
prune_expired-lookup s now token e d found le =
    ground (arith, found, Dict.lookup-retain (λ _ e. is_current now e) token s.tokens d)

abbrev pub IsValid : BootstrapTokenStore → Type 0
IsValid s = Dict.Distinct s.tokens

step-IsValid : (s : BootstrapTokenStore) (op : Op) → IsValid s → IsValid (step s op)
unfolding issue prune_expired consume
step-IsValid s (issue_op t now agent ttl) v = Dict.insert-Distinct t _ s.tokens v
step-IsValid s (prune_op now) v = Dict.retain-Distinct (λ _ e. is_current now e) s.tokens v
step-IsValid s (consume_op now t agent) v = elim (Option-cases (Dict.lookup t s.tokens)) [
  | inl absent ↦ ground (arith, absent, Dict.remove-Distinct t s.tokens v)
  | inr (f, found) ↦ ground (
    arith,
    found,
    Dict.remove-Distinct t s.tokens v,
    Dict.insert-Distinct t f (Dict.remove t s.tokens) (Dict.remove-Distinct t s.tokens v),
  )
]

-- The call is at most at the time `limit`, is not an issue of the token, and not a consume of the
-- token by its own agent.
abbrev pub Leaves : String → String → ℕ → Op → Type 0
Leaves token agent limit (issue_op t now a ttl) = t ≢ token
Leaves token agent limit (consume_op now t a) = (t ≢ token) ⊎ ((now ≤ limit) × (a ≢ agent))
Leaves token agent limit (prune_op now) = now ≤ limit

step-keeps :
    (token agent : String) (e : TokenEntry) (s : BootstrapTokenStore) (op : Op)
    → IsValid s
    → e.agent_id ≡ agent
    → Leaves token agent e.expires_at op
    → Dict.lookup token s.tokens ≡ some e
    → Dict.lookup token (step s op).tokens ≡ some e
unfolding issue consume
step-keeps token agent e s (issue_op t now a ttl) v mine other found = ground (
  arith,
  string_eq.beq_iff t token,
  found,
  Dict.lookup-insert t token (new_entry now a ttl) s.tokens,
)
step-keeps token agent e s (prune_op now) v mine le found =
    prune_expired-lookup s now token e v found le
step-keeps token agent e s (consume_op now t a) v mine (inl other) found =
    ground (arith, found, string_eq.beq_iff t token, lookup-consume s now t a token)
step-keeps token agent e s (consume_op now t a) v mine (inr (le, wrong)) found =
    elim (Bool-cases (t == token)) [
      | inr other ↦ ground (arith, found, other, lookup-consume s now t a token)
      | inl same ↦
          let t_is_token : t ≡ token = (string_eq.beq_iff t token).0 same in
          rw t_is_token (
            ground
              (arith, found, string_eq.beq_iff e.agent_id a, lookup-consume s now token a token))
    ]

run-keeps :
    (token agent : String) (e : TokenEntry) (s : BootstrapTokenStore) (ops : List Op)
    → IsValid s
    → e.agent_id ≡ agent
    → All (Leaves token agent e.expires_at) ops
    → Dict.lookup token s.tokens ≡ some e
    → Dict.lookup token (run s ops).tokens ≡ some e
run-keeps token agent e s [] v mine leaves found = found
run-keeps token agent e s (op ∷ ops) v mine leaves found =
    run-keeps token agent e (step s op) ops (step-IsValid s op v) mine leaves.1
      (step-keeps token agent e s op v mine leaves.0 found)

-- An issued token can be redeemed by its agent until it expires, whatever calls come between:
-- issues of other tokens, prunings before the expiry, consumes of other tokens, and consumes of
-- this token by other agents before the expiry.
pub issue-consume :
    (s : BootstrapTokenStore) (token agent : String) (now : ℕ) (ttl : ℤ) (ops : List Op) (later : ℕ)
    → IsValid s
    → All (Leaves token agent (shift now ttl hour)) ops
    → later ≤ shift now ttl hour
    → (consume (run (issue s token now agent ttl).0 ops) later token agent).1
      ≡ redeemed (record { agent_id = agent; expires_at = shift now ttl hour })
unfolding issue
issue-consume s token agent now ttl ops later v leaves le =
    let e : TokenEntry = record { agent_id = agent; expires_at = shift now ttl hour } in
    let s' = (issue s token now agent ttl).0 in
    (consume-redeemed_iff (run s' ops) later token agent e).1 (
      run-keeps token agent e s' ops (Dict.insert-Distinct token e s.tokens v) refl leaves
          (Dict.lookup-insert_self token e s.tokens),
      le,
      refl,
    )

differences-zero :
    (d : ℕ) (a b : List ℕ) → length a ≡ length b → (differences d a b ≡ 0) ↔ ((d ≡ 0) × (a ≡ b))
unfolding differences
differences-zero d [] [] h = (λ e. (e, refl), λ e. e.0)
differences-zero d [] (y ∷ ys) h = absurd (ground arith)
differences-zero d (x ∷ xs) [] h = absurd (ground arith)
differences-zero d (x ∷ xs) (y ∷ ys) h = ground (
  arith,
  differences-zero (bit_or d (bit_xor x y)) xs ys,
  bit_or_iff d (bit_xor x y),
  bit_xor_iff x y,
)

-- The constant-time comparison answers exactly whether the two byte strings are equal.
pub constant_time_eq_iff : (a b : List ℕ) → (constant_time_eq a b ≡ true) ↔ (a ≡ b)
unfolding constant_time_eq
constant_time_eq_iff a b = elim (Bool-cases (eqb (length a) (length b))) [
  | inl same ↦ ground (arith, same, differences-zero 0 a b)
  | inr other ↦
      (λ h. absurd (ground (arith, other)), λ h. absurd (ground (arith, other, ap length h)))
]
