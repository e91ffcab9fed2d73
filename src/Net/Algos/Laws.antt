-- ===== src/Net/Algos/Laws.antt =====
-- What the classification tables promise.
use ree0x_q.Base.{
  Bool, true, false, ◌||◌, String, Option, some, none, [], ◌≡◌, refl, All, match_arm, contains,
  Option-cases, match_arm-All, inl, inr,
}
use mathlib.Core.Path.{subst}
use ree0x_q.Core.{Primitive, PrimitiveRole, kex, sig}
use ree0x_q.Net.Algos.{
  Row, named, group_arms, scheme_arms, primitive_from_supported_group,
  primitive_from_signature_scheme,
}

abbrev is_some {ℓ} : {A : Type ℓ} → Option A → Bool
is_some none = false
is_some (some a) = true

-- A row is rated resistant, and has a NIST level, exactly if its algorithm is of the kind `q`.
abbrev Rated : (String → Bool) → Row → Type 0
Rated q row = (row.1 ≡ some (q row.0)) × (is_some row.2 ≡ q row.0)

abbrev pub is_ml_kem : String → Bool
is_ml_kem algorithm = contains algorithm "ML-KEM"

abbrev pub is_pq_signature : String → Bool
is_pq_signature algorithm = contains algorithm "ML-DSA" || contains algorithm "SLH-DSA"

group_arms-Rated : All (λ arm. Rated is_ml_kem arm.1) group_arms
group_arms-Rated = assumption refl

scheme_arms-Rated : All (λ arm. Rated is_pq_signature arm.1) scheme_arms
scheme_arms-Rated = assumption refl

-- The role of a primitive, and its rating, by whether its algorithm is of the kind `q`.
abbrev pub IsRated : PrimitiveRole → (String → Bool) → Primitive → Type 0
IsRated role q p =
    (p.role ≡ role)
    × (p.pq_resistant ≡ some (q p.algorithm))
    × (is_some p.nist_classification ≡ q p.algorithm)

-- A supported group resolves to a key exchange that is rated post-quantum, and given a NIST level,
-- exactly if its algorithm contains ML-KEM. No group is left unrated.
pub primitive_from_supported_group-IsRated :
    (name : String) {p : Primitive}
    → primitive_from_supported_group name ≡ some p
    → IsRated kex is_ml_kem p
unfolding primitive_from_supported_group
primitive_from_supported_group-IsRated name {p} h =
    elim (Option-cases (match_arm name group_arms)) [
      | inl absent ↦ cc (rw (absent, primitive_from_supported_group) at h)
      | inr (row, found) ↦
          let r = match_arm-All (Rated is_ml_kem) name group_arms group_arms-Rated found in
          let same : named kex "named_group" name row ≡ p =
            cc (rw (found, primitive_from_supported_group) at h) in
          subst (IsRated kex is_ml_kem) same (refl, r.0, r.1)
    ]

-- A signature scheme resolves to a signature that is rated post-quantum, and given a NIST level,
-- exactly if its algorithm contains ML-DSA or SLH-DSA.
pub primitive_from_signature_scheme-IsRated :
    (name : String) {p : Primitive}
    → primitive_from_signature_scheme name ≡ some p
    → IsRated sig is_pq_signature p
unfolding primitive_from_signature_scheme
primitive_from_signature_scheme-IsRated name {p} h =
    elim (Option-cases (match_arm name scheme_arms)) [
      | inl absent ↦ cc (rw (absent, primitive_from_signature_scheme) at h)
      | inr (row, found) ↦
          let r = match_arm-All (Rated is_pq_signature) name scheme_arms scheme_arms-Rated found in
          let same : record (named sig "" name row) { parameters = [] } ≡ p =
            cc (rw (found, primitive_from_signature_scheme) at h) in
          subst (IsRated sig is_pq_signature) same (refl, r.0, r.1)
    ]
