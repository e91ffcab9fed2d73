-- ===== src/Server/Enrol/Handlers.antt =====
-- The two handlers of crates/ree0xq-server/src/enrol.rs, on every branch.
use ree0x_q.Base.{
  is_blank, ℕ, ◌≤◌, Bool, true, false, String, Option, none, some, if◌then◌else◌, string_eq, ◌==◌,
  ℤ, in_range, as_bytes, ◌≡◌, ◌≢◌, ◌↔◌, ◌⊎◌, inl, inr, refl, ap, sym, ◌∙◌, arith, Bool-cases,
  Option-cases,
}
use mathlib.Core.Bool.{false≢true}
use ree0x_q.Base.Dict
use ree0x_q.Server.Ingest.{Response, ok, err}
use ree0x_q.Server.Enrol.{
  TokenEntry, BootstrapTokenStore, ConsumeError, Consumed, redeemed, refused, issue, consume,
  prune_expired, constant_time_eq, IssueTokenRequest, EnrolRequest, unwrap_or,
  default_token_ttl_hours, default_agent_validity_days, issue_guarded, issue_bootstrap_token, mint,
  enrol,
}
use ree0x_q.Server.Enrol.Tokens.{consume-redeemed_iff, lookup-consume, constant_time_eq_iff}

abbrev pub is_ok {ℓ} : {A : Type ℓ} → Response A → Bool
is_ok (ok a) = true
is_ok (err e) = false

-- What has to hold for a token to be issued.
pub record Authorised (admin_token header : Option String) (req : IssueTokenRequest) : Type 0 where
  pub secret : String
  pub configured : admin_token ≡ some secret
  pub presented : as_bytes (unwrap_or "" header) ≡ as_bytes secret
  pub named : is_blank req.agent_id ≡ false
  pub bounded : in_range 1 720 (unwrap_or default_token_ttl_hours req.ttl_hours) ≡ true

not_presented :
    (secret : String) (header : Option String) (req : IssueTokenRequest)
    → constant_time_eq (as_bytes (unwrap_or "" header)) (as_bytes secret) ≡ false
    → ¬ Authorised (some secret) header req
not_presented secret header req wrong a =
    let same : a.secret ≡ secret = ap (unwrap_or "") (sym a.configured) in
    let bytes : as_bytes (unwrap_or "" header) ≡ as_bytes secret = a.presented ∙ ap as_bytes same in
    false≢true (sym wrong ∙ (constant_time_eq_iff _ _).1 bytes)

issue_guarded-cases :
    (secret : String) (s : BootstrapTokenStore) (fresh : String) (now later : ℕ)
    (header : Option String) (req : IssueTokenRequest)
    → ((issue_guarded secret s fresh now later header req).0 ≡ s)
        × (is_ok (issue_guarded secret s fresh now later header req).1 ≡ false)
        × ¬ Authorised (some secret) header req
      ⊎ Authorised (some secret) header req
        × (issue_guarded secret s fresh now later header req ≡ (
          (issue
              (prune_expired s now)
              fresh
              later
              req.agent_id
              (unwrap_or default_token_ttl_hours req.ttl_hours)).0,
          ok
              (issue
                (prune_expired s now)
                fresh
                later
                req.agent_id
                (unwrap_or default_token_ttl_hours req.ttl_hours)).1,
        ))
unfolding issue_guarded
issue_guarded-cases secret s fresh now later header req =
    elim (Bool-cases (constant_time_eq (as_bytes (unwrap_or "" header)) (as_bytes secret))) [
      | inr wrong ↦
          rw (wrong, issue_guarded) (inl (refl, refl, λ a. not_presented secret header req wrong a))
      | inl right ↦ elim (Bool-cases (is_blank req.agent_id)) [
        | inl blank ↦
            rw (right, blank, issue_guarded)
              (inl (refl, refl, λ a. false≢true (sym a.named ∙ blank)))
        | inr named ↦
            elim (Bool-cases (in_range 1 720 (unwrap_or default_token_ttl_hours req.ttl_hours))) [
              | inr out ↦
                  rw (right, named, out, issue_guarded)
                    (inl (refl, refl, λ a. false≢true (sym out ∙ a.bounded)))
              | inl bounded ↦
                  rw (right, named, bounded, issue_guarded)
                    (inr (
                      record {
                        secret = secret;
                        configured = refl;
                        presented = (constant_time_eq_iff _ _).0 right;
                        named = named;
                        bounded = bounded;
                      },
                      refl,
                    ))
            ]
      ]
    ]

-- `issue_bootstrap_token` has two outcomes. If the server has an admin token, the header's bytes
-- are that token's, the agent's id is not blank and the time to live is 1 to 720 hours, then the
-- expired tokens are pruned and the answer is the fresh token; if any of these fails, the answer is
-- an error and the store is as before.
pub issue_bootstrap_token-cases :
    (admin_token : Option String) (s : BootstrapTokenStore) (fresh : String) (now later : ℕ)
    (header : Option String) (req : IssueTokenRequest)
    → ((issue_bootstrap_token admin_token s fresh now later header req).0 ≡ s)
        × (is_ok (issue_bootstrap_token admin_token s fresh now later header req).1 ≡ false)
        × ¬ Authorised admin_token header req
      ⊎ Authorised admin_token header req
        × (issue_bootstrap_token admin_token s fresh now later header req ≡ (
          (issue
              (prune_expired s now)
              fresh
              later
              req.agent_id
              (unwrap_or default_token_ttl_hours req.ttl_hours)).0,
          ok
              (issue
                (prune_expired s now)
                fresh
                later
                req.agent_id
                (unwrap_or default_token_ttl_hours req.ttl_hours)).1,
        ))
unfolding issue_bootstrap_token
issue_bootstrap_token-cases none s fresh now later header req =
    inl (refl, refl, λ a. let e = a.configured in cc)
issue_bootstrap_token-cases (some secret) s fresh now later header req =
    issue_guarded-cases secret s fresh now later header req

Consumed-cases :
    (c : Consumed) → ((e : ConsumeError) × (c ≡ refused e)) ⊎ ((e : TokenEntry) × (c ≡ redeemed e))
Consumed-cases (refused e) = inl (e, refl)
Consumed-cases (redeemed e) = inr (e, refl)

module _ {ℓ} {Cert : Type ℓ} (sign_agent_cert : String → ℤ → Option Cert) where
  -- What has to hold for a certificate to be returned.
  pub record Admitted (s : BootstrapTokenStore) (now : ℕ) (header : Option String)
      (req : EnrolRequest) (cert : Cert) : Type ℓ where
    pub entry : TokenEntry
    pub presented : unwrap_or "" header ≢ ""
    pub found : Dict.lookup (unwrap_or "" header) s.tokens ≡ some entry
    pub current : now ≤ entry.expires_at
    pub mine : entry.agent_id ≡ req.agent_id
    pub bounded : in_range 1 1_825 (unwrap_or default_agent_validity_days req.validity_days) ≡ true
    pub signed :
        sign_agent_cert req.agent_id (unwrap_or default_agent_validity_days req.validity_days)
        ≡ some cert

  mint-ok_iff :
      (req : EnrolRequest) (e : TokenEntry) (cert : Cert)
      → (mint sign_agent_cert req (redeemed e) ≡ ok cert) ↔ (
          (in_range 1 1_825 (unwrap_or default_agent_validity_days req.validity_days) ≡ true)
          × (sign_agent_cert req.agent_id (unwrap_or default_agent_validity_days req.validity_days)
              ≡ some cert))
  unfolding mint
  mint-ok_iff req e cert =
      let v = unwrap_or default_agent_validity_days req.validity_days in
      elim (Bool-cases (in_range 1 1_825 v)) [
        | inr out ↦ ground (arith, out)
        | inl bounded ↦ elim (Option-cases (sign_agent_cert req.agent_id v)) [
          | inl failed ↦ ground (arith, bounded, failed)
          | inr (c, signed) ↦ ground (arith, bounded, signed)
        ]
      ]

  admit :
      (s : BootstrapTokenStore) (now : ℕ) (header : Option String) (req : EnrolRequest)
      (cert : Cert)
      → unwrap_or "" header ≢ ""
      → mint sign_agent_cert req (consume s now (unwrap_or "" header) req.agent_id).1 ≡ ok cert
      → Admitted s now header req cert
  unfolding mint
  admit s now header req cert presented answer =
      elim (Consumed-cases (consume s now (unwrap_or "" header) req.agent_id).1) [
        | inl (e, was_refused) ↦ absurd (ground (arith, rw was_refused at answer))
        | inr (e, was_redeemed) ↦
            let found =
              (consume-redeemed_iff s now (unwrap_or "" header) req.agent_id e).0 was_redeemed in
            let signed = (mint-ok_iff req e cert).0 (rw was_redeemed at answer) in
            record {
              entry = e;
              presented = presented;
              found = found.0;
              current = found.1;
              mine = found.2;
              bounded = signed.0;
              signed = signed.1;
            }
      ]

  -- `enrol` answers with a certificate exactly if the header carries a token that is in the store,
  -- has not expired and was issued for the agent, the validity is 1 to 1,825 days, and the CA
  -- signs that certificate for the agent and the validity.
  pub enrol-ok_iff :
      (s : BootstrapTokenStore) (now : ℕ) (header : Option String) (req : EnrolRequest)
      (cert : Cert)
      → ((enrol sign_agent_cert s now header req).1 ≡ ok cert) ↔ Admitted s now header req cert
  unfolding enrol
  enrol-ok_iff s now header req cert = elim (Bool-cases (unwrap_or "" header == "")) [
    | inl missing ↦
        rw (missing, enrol)
          (
            λ h. absurd (ground arith),
            λ a. absurd (a.presented ((string_eq.beq_iff (unwrap_or "" header) "").0 missing)),
          )
    | inr present ↦
        let presented : unwrap_or "" header ≢ "" =
          λ e. false≢true (sym present ∙ (string_eq.beq_iff (unwrap_or "" header) "").1 e) in
        rw (present, enrol)
          (
            λ h. admit s now header req cert presented h,
            λ a.
                rw
                  ((consume-redeemed_iff s now (unwrap_or "" header) req.agent_id a.entry).1
                    (a.found, a.current, a.mine))
                  ((mint-ok_iff req a.entry cert).1 (a.bounded, a.signed)),
          )
  ]

  -- An enrolment that presents a redeemable token takes it out of the store whatever the answer
  -- is, also where the validity is out of range or the CA fails to sign; every other token stays.
  pub enrol_spends :
      (s : BootstrapTokenStore) (now : ℕ) (token k : String) (req : EnrolRequest) (e : TokenEntry)
      → token ≢ ""
      → Dict.lookup token s.tokens ≡ some e
      → now ≤ e.expires_at
      → e.agent_id ≡ req.agent_id
      → Dict.lookup k (enrol sign_agent_cert s now (some token) req).0.tokens
        ≡ (if token == k then none else Dict.lookup k s.tokens)
  unfolding enrol
  enrol_spends s now token k req e presented found current mine =
      let was_redeemed =
        (consume-redeemed_iff s now token req.agent_id e).1 (found, current, mine) in
      let left = rw was_redeemed at (lookup-consume s now token req.agent_id k) in
      elim (Bool-cases (token == "")) [
        | inl missing ↦ absurd (presented ((string_eq.beq_iff token "").0 missing))
        | inr present ↦ rw (present, enrol) (ground (arith, left))
      ]
