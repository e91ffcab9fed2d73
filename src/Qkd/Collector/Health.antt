-- ===== src/Qkd/Collector/Health.antt =====
-- The health of a link against its bit error rate.
use ree0x_q.Base.{
  ℕ, ◌≤◌, ◌≡◌, refl, Bool, true, ◌||◌, eqb, if◌then◌else◌, Bool-cases, String, float_le, arith,
}
use mathlib.Core.Logic.{inl, inr}
use ree0x_q.Core.{F32, LinkHealth, ok, degraded, failed}
use ree0x_q.Qkd.Wire.{StatusResponse}
use ree0x_q.Qkd.Collector.{derive_link_health, qber_of}

abbrev pub severity : LinkHealth → ℕ
severity ok = 0
severity degraded = 1
severity failed = 2

float_le_trans : (x y z : F32) → float_le x y ≡ true → float_le y z ≡ true → float_le x z ≡ true
float_le_trans x y z p q = ground arith

-- The choice of the health, from the three tests.
abbrev chosen : Bool → Bool → Bool → LinkHealth
chosen fails warns empty = if fails then failed else (if warns || empty then degraded else ok)

derive_link_health-chosen :
    (fixed3 : F32 → String) (s : StatusResponse) (warn fail : F32)
    → (derive_link_health fixed3 s warn fail).0
      ≡ chosen (float_le fail (qber_of s)) (float_le warn (qber_of s)) (eqb s.stored_key_count 0)
unfolding derive_link_health
derive_link_health-chosen fixed3 s warn fail = elim (Bool-cases (float_le fail (qber_of s))) [
  | inl fails ↦ rw fails refl
  | inr holds ↦ elim (Bool-cases (float_le warn (qber_of s))) [
    | inl warns ↦ rw (holds, warns) refl
    | inr calm ↦ elim (Bool-cases (eqb s.stored_key_count 0)) [
      | inl empty ↦ rw (holds, calm, empty) refl
      | inr stocked ↦ rw (holds, calm, stocked) refl
    ]
  ]
]

chosen_monotone :
    (f f' w w' e e' : Bool)
    → (f ≡ true → f' ≡ true)
    → (w ≡ true → w' ≡ true)
    → (e ≡ true → e' ≡ true)
    → severity (chosen f w e) ≤ severity (chosen f' w' e')
chosen_monotone f f' w w' e e' p q r = ground arith

-- A link with a bit error rate at least as high, and at most as many stored keys, is not reported
-- healthier. No rate is NaN where one is at most the other.
pub derive_link_health-monotone :
    (fixed3 : F32 → String) (a b : StatusResponse) (warn fail : F32)
    → float_le (qber_of a) (qber_of b) ≡ true
    → b.stored_key_count ≤ a.stored_key_count
    → severity (derive_link_health fixed3 a warn fail).0
      ≤ severity (derive_link_health fixed3 b warn fail).0
derive_link_health-monotone fixed3 a b warn fail le fewer =
    rw (derive_link_health-chosen fixed3 a warn fail, derive_link_health-chosen fixed3 b warn fail)
      (chosen_monotone (float_le fail (qber_of a)) (float_le fail (qber_of b))
        (float_le warn (qber_of a)) (float_le warn (qber_of b)) (eqb a.stored_key_count 0)
        (eqb b.stored_key_count 0) (λ h. float_le_trans fail (qber_of a) (qber_of b) h le)
        (λ h. float_le_trans warn (qber_of a) (qber_of b) h le) (λ h. ground (arith, fewer, h)))
