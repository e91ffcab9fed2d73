-- ===== src/Server/Enrol.antt =====
-- Bootstrap tokens and enrolment: crates/ree0xq-server/src/enrol.rs. A fresh UUID and the time of
-- the clock are arguments; a header is the text it was sent with, if it was sent and is readable;
-- `sign_agent_cert`, which mints with the CA's key, is an argument that may fail.
pub mod Tokens
pub mod Handlers
use ree0x_q.Base.{
  ℕ, zero, ◌+◌, Bool, true, false, not, ◌&&◌, String, Option, none, some, List, [], ◌∷◌, length,
  eqb, leb, ltb, if◌then◌else◌, string_eq, ◌==◌, ℤ, pos, in_range, shift, codes, ◌||◌, as_bytes,
  is_blank,
}
use Prim.Native.Nat.{bit_or, bit_xor}
use ree0x_q.Base.Dict
use ree0x_q.Server.Ingest.{ApiError, Response, ok, err}

abbrev pub default_agent_validity_days : ℤ
default_agent_validity_days = pos 365

abbrev pub default_token_ttl_hours : ℤ
default_token_ttl_hours = pos 24

-- Nanoseconds.
abbrev pub hour : ℕ
hour = 3_600_000_000_000

pub record TokenEntry : Type 0 where
  pub agent_id : String
  pub expires_at : ℕ

pub record BootstrapTokenStore : Type 0 where
  pub tokens : List (String × TokenEntry)

pub record IssuedToken : Type 0 where
  pub token : String
  pub agent_id : String
  pub expires_at : ℕ

pub data ConsumeError : Type 0 where
  unknown_token : ConsumeError
  expired : ConsumeError
  agent_mismatch : ConsumeError

-- What `consume` returns.
pub data Consumed : Type 0 where
  redeemed : TokenEntry → Consumed
  refused : ConsumeError → Consumed

-- The times to live are those that `Duration::hours` takes; the handler below bounds them.
unfoldable pub issue :
    BootstrapTokenStore → String → ℕ → String → ℤ → BootstrapTokenStore × IssuedToken
issue s token now agent_id ttl_hours =
    let expires_at = shift now ttl_hours hour in
    let entry : TokenEntry = record { agent_id = agent_id; expires_at = expires_at } in
    (
      record { tokens = Dict.insert token entry s.tokens },
      record { token = token; agent_id = agent_id; expires_at = expires_at },
    )

-- The entry that `remove` returned, and the store without it.
abbrev pub consume_removed :
    BootstrapTokenStore → ℕ → String → String → Option TokenEntry → BootstrapTokenStore × Consumed
consume_removed s now token agent_id none = (s, refused unknown_token)
consume_removed s now token agent_id (some entry) =
    if ltb entry.expires_at now
    then (s, refused expired)
    else (if not (entry.agent_id == agent_id)
        then (record { tokens = Dict.insert token entry s.tokens }, refused agent_mismatch)
        else (s, redeemed entry))

unfoldable pub consume : BootstrapTokenStore → ℕ → String → String → BootstrapTokenStore × Consumed
consume s now token agent_id =
    consume_removed (record { tokens = Dict.remove token s.tokens }) now token agent_id
      (Dict.lookup token s.tokens)

abbrev pub is_current : ℕ → TokenEntry → Bool
is_current now e = leb now e.expires_at

unfoldable pub prune_expired : BootstrapTokenStore → ℕ → BootstrapTokenStore
prune_expired s now = record { tokens = Dict.retain (λ _ e. is_current now e) s.tokens }

-- The loop of `constant_time_eq`.
pub differences : ℕ → List ℕ → List ℕ → ℕ
differences d (x ∷ xs) (y ∷ ys) = differences (bit_or d (bit_xor x y)) xs ys
differences d [] ys = d
differences d (x ∷ xs) [] = d

unfoldable pub constant_time_eq : List ℕ → List ℕ → Bool
unfolding differences
constant_time_eq a b = if not (eqb (length a) (length b)) then false else eqb (differences 0 a b) 0

pub record IssueTokenRequest : Type 0 where
  pub agent_id : String
  pub ttl_hours : Option ℤ

pub record EnrolRequest : Type 0 where
  pub agent_id : String
  pub validity_days : Option ℤ

abbrev pub unwrap_or {ℓ} : {A : Type ℓ} → A → Option A → A
unwrap_or a none = a
unwrap_or a (some b) = b

abbrev pub admin_disabled : ApiError
admin_disabled = record { status = 503; code = "admin_disabled" }

abbrev pub admin_auth_failed : ApiError
admin_auth_failed = record { status = 401; code = "admin_auth_failed" }

abbrev pub agent_id_required : ApiError
agent_id_required = record { status = 422; code = "agent_id_required" }

abbrev pub ttl_out_of_range : ApiError
ttl_out_of_range = record { status = 422; code = "ttl_out_of_range" }

-- `issue_bootstrap_token`, once the server has an admin token. The clock is read twice, at the pruning and at
-- the issue.
unfoldable pub issue_guarded :
    String
    → BootstrapTokenStore
    → String
    → ℕ
    → ℕ
    → Option String
    → IssueTokenRequest
    → BootstrapTokenStore × Response IssuedToken
unfolding constant_time_eq
issue_guarded expected s fresh now later header req =
    let provided = unwrap_or "" header in
    let ttl = unwrap_or default_token_ttl_hours req.ttl_hours in
    if not (constant_time_eq (as_bytes provided) (as_bytes expected))
    then (s, err admin_auth_failed)
    else (if is_blank req.agent_id
        then (s, err agent_id_required)
        else (if not (in_range 1 720 ttl)
            then (s, err ttl_out_of_range)
            else (let (s', issued) = issue (prune_expired s now) fresh later req.agent_id ttl in
                (s', ok issued))))

unfoldable pub issue_bootstrap_token :
    Option String
    → BootstrapTokenStore
    → String
    → ℕ
    → ℕ
    → Option String
    → IssueTokenRequest
    → BootstrapTokenStore × Response IssuedToken
unfolding issue_guarded
issue_bootstrap_token none s fresh now later header req = (s, err admin_disabled)
issue_bootstrap_token (some expected) s fresh now later header req =
    issue_guarded expected s fresh now later header req

abbrev pub missing_bootstrap_token : ApiError
missing_bootstrap_token = record { status = 401; code = "missing_bootstrap_token" }

abbrev pub consume_refused : ConsumeError → ApiError
consume_refused unknown_token = record { status = 401; code = "bootstrap_token_invalid" }
consume_refused expired = record { status = 401; code = "bootstrap_token_expired" }
consume_refused agent_mismatch = record { status = 401; code = "agent_id_mismatch" }

abbrev pub validity_out_of_range : ApiError
validity_out_of_range = record { status = 422; code = "validity_out_of_range" }

abbrev pub cert_mint_failed : ApiError
cert_mint_failed = record { status = 500; code = "cert_mint_failed" }

module _ {ℓ} {Cert : Type ℓ} (sign_agent_cert : String → ℤ → Option Cert) where
  abbrev pub minted : Option Cert → Response Cert
  minted none = err cert_mint_failed
  minted (some cert) = ok cert

  -- The part of `enrol` behind the call of `consume`.
  unfoldable pub mint : EnrolRequest → Consumed → Response Cert
  mint req (refused e) = err (consume_refused e)
  mint req (redeemed _) =
      let validity = unwrap_or default_agent_validity_days req.validity_days in
      if not (in_range 1 1_825 validity)
      then err validity_out_of_range
      else minted (sign_agent_cert req.agent_id validity)

  unfoldable pub enrol :
      BootstrapTokenStore → ℕ → Option String → EnrolRequest → BootstrapTokenStore × Response Cert
  unfolding mint
  enrol s now header req =
      let token = unwrap_or "" header in
      if token == ""
      then (s, err missing_bootstrap_token)
      else (let (s', consumed) = consume s now token req.agent_id in (s', mint req consumed))
