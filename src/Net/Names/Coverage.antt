-- ===== src/Net/Names/Coverage.antt =====
-- The IANA tables and the classification tables fit together.
use ree0x_q.Base.{
  ℕ, Bool, true, false, ◌+◌, String, Option, some, none, List, [], ◌∷◌, ◌≡◌, refl, arith, All,
  match_code-All, if◌then◌else◌, length, count, map, length-append,
}
use mathlib.Core.Path.{◌∙◌, ap, ap₂}
use ree0x_q.Core.{Primitive, PrimitiveRole, kex, sig, encrypt, hash}
use ree0x_q.Net.Tls.{HandshakeSummary}
use ree0x_q.Net.Names.{
  ciphersuite_table, ciphersuite_name, named_group_table, named_group_name, signature_scheme_table,
  signature_scheme_name, is_tls13, suite_primitives, first_suite, pushed, group_primitives,
  scheme_primitives, primitives_from_summary,
}
use ree0x_q.Net.Algos.{
  primitives_from_tls13_ciphersuite, primitives_from_tls12_ciphersuite,
  primitive_from_supported_group, primitive_from_signature_scheme,
}

abbrev pub is_some {ℓ} : {A : Type ℓ} → Option A → Bool
is_some none = false
is_some (some a) = true

abbrev pub roles : List Primitive → List PrimitiveRole
roles = map (λ p. p.role)

-- The roles that a suite's name gives: both halves of a TLS 1.3 suite, all four of a TLS 1.2 one.
abbrev pub suite_roles : Bool → List PrimitiveRole
suite_roles true = encrypt ∷ hash ∷ []
suite_roles false = kex ∷ sig ∷ encrypt ∷ hash ∷ []

abbrev SuiteIsKnown : String → Type 0
SuiteIsKnown name = roles (suite_primitives name) ≡ suite_roles (is_tls13 name)

suites-known : All (λ arm. SuiteIsKnown arm.1) ciphersuite_table
unfolding suite_primitives primitives_from_tls13_ciphersuite primitives_from_tls12_ciphersuite
suites-known = assumption refl

groups-known : All (λ arm. is_some (primitive_from_supported_group arm.1) ≡ true) named_group_table
unfolding primitive_from_supported_group
groups-known = assumption refl

schemes-known :
    All (λ arm. is_some (primitive_from_signature_scheme arm.1) ≡ true) signature_scheme_table
unfolding primitive_from_signature_scheme
schemes-known = assumption refl

-- Every suite that has a name resolves to its full set of roles.
pub suite_primitives-roles :
    (code : ℕ) {name : String}
    → ciphersuite_name code ≡ some name
    → roles (suite_primitives name) ≡ suite_roles (is_tls13 name)
unfolding ciphersuite_name
suite_primitives-roles code h = match_code-All SuiteIsKnown code ciphersuite_table suites-known h

length-pushed :
    (o : Option String) (resolve : String → Option Primitive)
    → ((name : String) → o ≡ some name → is_some (resolve name) ≡ true)
    → length (pushed o resolve) ≡ (if is_some o then 1 else 0)
length-pushed none resolve k = refl
length-pushed (some name) resolve k = ground (arith, k name refl)

abbrev pub is_known_group : ℕ → Bool
is_known_group g = is_some (named_group_name g)

abbrev pub is_known_scheme : ℕ → Bool
is_known_scheme s = is_some (signature_scheme_name s)

length-group_primitives : (gs : List ℕ) → length (group_primitives gs) ≡ count is_known_group gs
unfolding group_primitives named_group_name
length-group_primitives [] = refl
length-group_primitives (g ∷ gs) =
    let one = length-pushed (named_group_name g) primitive_from_supported_group (λ name h.
      match_code-All (λ x. is_some (primitive_from_supported_group x) ≡ true) g named_group_table
        groups-known h) in
    length-append _ (group_primitives gs) ∙ ap₂ ◌+◌ one (length-group_primitives gs)

length-scheme_primitives : (ss : List ℕ) → length (scheme_primitives ss) ≡ count is_known_scheme ss
unfolding scheme_primitives signature_scheme_name
length-scheme_primitives [] = refl
length-scheme_primitives (s ∷ ss) =
    let one = length-pushed (signature_scheme_name s) primitive_from_signature_scheme (λ name h.
      match_code-All (λ x. is_some (primitive_from_signature_scheme x) ≡ true) s
        signature_scheme_table schemes-known h) in
    length-append _ (scheme_primitives ss) ∙ ap₂ ◌+◌ one (length-scheme_primitives ss)

-- Beside the one suite, each group and each scheme that has a name contributes exactly one
-- primitive: the classification tables drop none of the names that the IANA tables give.
pub length-primitives_from_summary :
    (s : HandshakeSummary)
    → length (primitives_from_summary s)
      ≡ length (first_suite s.ciphersuites)
        + (count is_known_group s.supported_groups + count is_known_scheme s.signature_schemes)
unfolding primitives_from_summary
length-primitives_from_summary s =
    length-append (first_suite s.ciphersuites) _
    ∙ ap (λ n. length (first_suite s.ciphersuites) + n)
        (length-append (group_primitives s.supported_groups) _
          ∙ ap₂ ◌+◌ (length-group_primitives s.supported_groups)
              (length-scheme_primitives s.signature_schemes))
