-- ===== src/Server/Posture.antt =====
-- The quantum-risk rollup: crates/ree0xq-server/src/posture.rs. The arithmetic of f32 numbers, each
-- a bit pattern, is an interface.
use ree0x_q.Base.{
  ℕ, ◌-◌, ◌/◌, Bool, true, false, Option, none, some, List, [], ◌∷◌, ℤ, pos, negsuc, leb, eqb,
  if◌then◌else◌,
}
use ree0x_q.Core.{
  F32, DateTime, Primitive, PrimitiveRole, kex, sig, auth, encrypt, hash, ChannelProtection,
  ChannelState, classical, qkd_hybrid_psk, qkd_only, AgilityLevel, negotiated, configurable, pinned,
  locked, frozen, AgilityBlock, score, CryptoInventoryEvent, AssetKind, tls_session, ssh_session,
  ipsec_sa, x509_cert, blockchain_key, hsm_slot, dns_dnssec, qkd_link, qkd_kme,
}

-- The operations of f32 that the rollup uses; `lt` is false where an operand is NaN.
pub record Float : Type 0 where
  pub add : F32 → F32 → F32
  pub sub : F32 → F32 → F32
  pub mul : F32 → F32 → F32
  pub div : F32 → F32 → F32
  pub lt : F32 → F32 → Bool
  pub le : F32 → F32 → Bool
  pub is_zero : F32 → Bool
  pub from_i64 : ℤ → F32

-- The bit patterns of the constants.
abbrev pub one : F32
one = 0x3f800000

abbrev pub w_sig : F32
w_sig = 0x3ecccccd

abbrev pub w_kex : F32
w_kex = 0x3e99999a

abbrev pub w_enc : F32
w_enc = 0x3e4ccccd

abbrev pub w_hash : F32
w_hash = 0x3dcccccd

abbrev pub alpha : F32
alpha = 0x3f000000

abbrev pub beta : F32
beta = 0x3e4ccccd

abbrev pub gamma_max : F32
gamma_max = 0x3e99999a

-- 1.0, 0.3 and 0.4.
abbrev pub rated_score : Option Bool → F32
rated_score (some true) = one
rated_score (some false) = 0x3e99999a
rated_score none = 0x3ecccccd

abbrev pub primitive_a_score : Primitive → F32
primitive_a_score p = rated_score p.pq_resistant

abbrev pub role_weight : PrimitiveRole → F32
role_weight sig = w_sig
role_weight kex = w_kex
role_weight encrypt = w_enc
role_weight hash = w_hash
role_weight auth = w_hash

-- 0.0, 0.7 and 1.0.
abbrev pub state_score : ChannelState → F32
state_score classical = 0
state_score qkd_hybrid_psk = 0x3f333333
state_score qkd_only = one

abbrev pub axis_c : Option ChannelProtection → F32
axis_c none = 0
axis_c (some cp) = state_score cp.state

abbrev pub axis_g : Option AgilityBlock → F32
axis_g none = score pinned
axis_g (some a) = a.level_score

abbrev pub is_blocked_level : AgilityLevel → Bool
is_blocked_level negotiated = false
is_blocked_level configurable = false
is_blocked_level pinned = false
is_blocked_level locked = true
is_blocked_level frozen = true

abbrev pub is_blocked : Option AgilityBlock → Bool
is_blocked none = false
is_blocked (some a) = is_blocked_level a.level

-- 1.0, 0.7, 1.5, 0.5 and 0.4.
abbrev pub asset_kind_weight : AssetKind → F32
asset_kind_weight x509_cert = one
asset_kind_weight tls_session = 0x3f333333
asset_kind_weight ssh_session = 0x3f333333
asset_kind_weight ipsec_sa = 0x3f333333
asset_kind_weight blockchain_key = 0x3fc00000
asset_kind_weight hsm_slot = one
asset_kind_weight dns_dnssec = 0x3f000000
asset_kind_weight qkd_link = 0x3ecccccd
asset_kind_weight qkd_kme = 0x3ecccccd

-- Nanoseconds.
abbrev pub day : ℕ
day = 86_400_000_000_000

abbrev pub negated : ℕ → ℤ
negated n = if eqb n 0 then pos 0 else negsuc (n - 1)

-- `(deadline - now).num_days()`, which rounds to zero.
abbrev pub num_days : DateTime → DateTime → ℤ
num_days now deadline =
    if leb now deadline then pos ((deadline - now) / day) else negated ((now - deadline) / day)

module _ (f : Float) where
  -- `x.clamp(0.0, 1.0)`
  abbrev pub clamp : F32 → F32
  clamp x = if f.lt x 0 then 0 else (if f.lt one x then one else x)

  -- The two sums of a weighted mean.
  abbrev pub axis_a_sums : F32 → F32 → List Primitive → F32 × F32
  axis_a_sums weight_sum weighted [] = (weight_sum, weighted)
  axis_a_sums weight_sum weighted (p ∷ ps) =
      let w = role_weight p.role in
      axis_a_sums (f.add weight_sum w) (f.add weighted (f.mul w (primitive_a_score p))) ps

  abbrev pub mean_or : F32 → F32 × F32 → F32
  mean_or fallback (weight_sum, weighted) =
      if f.is_zero weight_sum then fallback else f.div weighted weight_sum

  unfoldable pub axis_a : List Primitive → F32
  axis_a [] = 0x3ecccccd
  axis_a (p ∷ ps) = mean_or 0x3ecccccd (axis_a_sums 0 0 (p ∷ ps))

  -- 365.25 days are a year.
  unfoldable pub deadline_tension : DateTime → DateTime → F32 → F32
  deadline_tension now deadline horizon_years =
      let years = f.div (f.from_i64 (num_days now deadline)) 0x43b6a000 in
      if f.le horizon_years 0 then one else clamp (f.sub one (f.div years horizon_years))

  unfoldable pub q_for_event : CryptoInventoryEvent → DateTime → DateTime → F32 → F32
  unfolding axis_a deadline_tension
  q_for_event ev now deadline horizon_years =
      let tau = deadline_tension now deadline horizon_years in
      let gamma = f.mul gamma_max (f.sub one tau) in
      let total = f.add (f.add alpha beta) gamma in
      let a = f.mul (f.div alpha total) (axis_a ev.primitives) in
      let b = f.mul (f.div beta total) (axis_c ev.channel_protection) in
      let g = f.mul (f.div gamma total) (axis_g ev.agility) in f.sub one (f.add (f.add a b) g)

  abbrev pub org_sums :
      DateTime → DateTime → F32 → F32 → F32 → List CryptoInventoryEvent → F32 × F32
  org_sums now deadline horizon_years weight_sum weighted [] = (weight_sum, weighted)
  org_sums now deadline horizon_years weight_sum weighted (ev ∷ evs) =
      let w = asset_kind_weight ev.asset.kind in
      org_sums now deadline horizon_years (f.add weight_sum w)
        (f.add weighted (f.mul w (q_for_event ev now deadline horizon_years))) evs

  unfoldable pub org_score : List CryptoInventoryEvent → DateTime → DateTime → F32 → F32
  org_score [] now deadline horizon_years = 0
  org_score (ev ∷ evs) now deadline horizon_years =
      mean_or 0 (org_sums now deadline horizon_years 0 0 (ev ∷ evs))
