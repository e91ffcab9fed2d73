-- ===== src/Agility/Recommend/Ranking.antt =====
-- The order of the recommendations, and where they come from.
use ree0x_q.Base.{
  ℕ, String, List, [], ◌∷◌, starts_with, ◌≡◌, ◌⊎◌, inl, inr, refl, All, All-map, All-append,
  Bool-cases, sort_by_key-All,
}
use ree0x_q.Core.{Primitive, PrimitiveRole, kex, sig, auth, encrypt, hash}
use ree0x_q.Agility.Recommend.{
  rank, Recommendation, recommend_for_sig, recommend_for_encrypt, recommend_by_role, collect,
  recommend_for, is_rsa, is_curve_sig, is_short_aes, is_broken_cipher,
}

abbrev pub cost_rank : Recommendation → ℕ
cost_rank r = rank r.cost

-- Some primitive of the list signs or encrypts with the algorithm.
abbrev pub Uses : List Primitive → String → Type 0
Uses [] algo = ⊥
Uses (p ∷ ps) algo = (((p.role ≡ sig) ⊎ (p.role ≡ encrypt)) × (p.algorithm ≡ algo)) ⊎ Uses ps algo

recommend_for_sig-replaces :
    (p : Primitive) → All (λ r. p.algorithm ≡ r.replaces) (recommend_for_sig p)
unfolding recommend_for_sig
recommend_for_sig-replaces p = elim (Bool-cases (is_rsa p.algorithm)) [
  | inl rsa ↦ rw (rsa, recommend_for_sig) (refl, (refl, tt))
  | inr other ↦ elim (Bool-cases (is_curve_sig p.algorithm)) [
    | inl curve ↦ rw (other, curve, recommend_for_sig) (refl, tt)
    | inr no_curve ↦ elim (Bool-cases (starts_with p.algorithm "Schnorr-secp256k1")) [
      | inl schnorr ↦ rw (other, no_curve, schnorr, recommend_for_sig) (refl, tt)
      | inr unknown ↦ rw (other, no_curve, unknown, recommend_for_sig) tt
    ]
  ]
]

recommend_for_encrypt-replaces :
    (p : Primitive) → All (λ r. p.algorithm ≡ r.replaces) (recommend_for_encrypt p)
unfolding recommend_for_encrypt
recommend_for_encrypt-replaces p = elim (Bool-cases (is_short_aes p.algorithm)) [
  | inl short ↦ rw (short, recommend_for_encrypt) (refl, tt)
  | inr other ↦ elim (Bool-cases (is_broken_cipher p.algorithm)) [
    | inl broken ↦ rw (other, broken, recommend_for_encrypt) (refl, tt)
    | inr unknown ↦ rw (other, unknown, recommend_for_encrypt) tt
  ]
]

recommend_by_role-replaces :
    (p : Primitive) (role : PrimitiveRole)
    → All
        (λ r. ((role ≡ sig) ⊎ (role ≡ encrypt)) × (p.algorithm ≡ r.replaces))
        (recommend_by_role role p)
recommend_by_role-replaces p sig = All-map _ (λ r e. (inl refl, e)) (recommend_for_sig-replaces p)
recommend_by_role-replaces p encrypt =
    All-map _ (λ r e. (inr refl, e)) (recommend_for_encrypt-replaces p)
recommend_by_role-replaces p kex = tt
recommend_by_role-replaces p auth = tt
recommend_by_role-replaces p hash = tt

collect-replaces : (ps : List Primitive) → All (λ r. Uses ps r.replaces) (collect ps)
collect-replaces [] = tt
collect-replaces (p ∷ ps) =
    All-append (λ r. Uses (p ∷ ps) r.replaces) (recommend_by_role p.role p) (collect ps)
      (All-map (recommend_by_role p.role p) (λ r h. inl h) (recommend_by_role-replaces p p.role))
      (All-map (collect ps) (λ r h. inr h) (collect-replaces ps))

-- Every recommendation replaces the algorithm of one of the asset's signing or encrypting
-- primitives.
pub recommend_for-replaces :
    (ps : List Primitive) → All (λ r. Uses ps r.replaces) (recommend_for ps)
unfolding recommend_for
recommend_for-replaces ps =
    sort_by_key-All cost_rank (λ r. Uses ps r.replaces) (collect ps) (collect-replaces ps)
