-- ===== src/Net/Zgrab/Agreement.antt =====
-- The scanner's records against the handshakes of the pcap path.
use ree0x_q.Base.{ℕ, ◌≡◌, refl, sym, ap, ◌∙◌, String, Option, none, some, List, [], ◌∷◌, ◌++◌}
use ree0x_q.Core.{Primitive, text}
use ree0x_q.Net.Algos.{primitive_from_supported_group}
use ree0x_q.Net.Tls.{HandshakeSummary}
use ree0x_q.Net.Names.{ciphersuite_name, named_group_name, primitives_from_summary, pushed}
use ree0x_q.Net.Names
use ree0x_q.Net.Zgrab.{
  ZgrabRecord, list_of, group_primitives, suite_primitives, primitives_from_zgrab, log_primitives,
  certificate_primitives,
}

-- A record with a suite and a group, and no certificate.
abbrev pub zgrab_of : String → String → ZgrabRecord
zgrab_of suite group = record {
  domain = none;
  ip = none;
  scan_data = record {
    tls = some (record {
      result = some (record {
        handshake_log = some (record {
          server_hello = some (record {
            version = none;
            cipher_suite = some (record { name = some suite; value = none; hex = none });
            selected_group = some (text group);
          });
          server_certificates = none;
        });
      });
    });
  };
}

list_of-pushed : (o : Option Primitive) → list_of o ≡ (elim o [ none ↦ [] | some p ↦ p ∷ [] ])
list_of-pushed none = refl
list_of-pushed (some p) = refl

group_primitives-pushed :
    (group : String) → group_primitives group ≡ pushed (some group) primitive_from_supported_group
unfolding primitive_from_supported_group
group_primitives-pushed String.[] = refl
group_primitives-pushed (String.◌∷◌ c s) =
    list_of-pushed (primitive_from_supported_group (String.◌∷◌ c s))

append_nil {ℓ} : {A : Type ℓ} (xs : List A) → xs ++ [] ≡ xs
append_nil [] = refl
append_nil (x ∷ xs) = ap (λ ys. x ∷ ys) (append_nil xs)

first_suite-named :
    (code : ℕ) (suite : String)
    → ciphersuite_name code ≡ some suite
    → Names.first_suite (code ∷ []) ≡ suite_primitives suite
unfolding Names.first_suite Names.suite_primitives Names.is_tls13
first_suite-named code suite h = rw (h, Names.first_suite) refl

group_primitives-named :
    (code : ℕ) (group : String)
    → named_group_name code ≡ some group
    → Names.group_primitives (code ∷ []) ≡ group_primitives group ++ []
unfolding Names.group_primitives
group_primitives-named code group h = rw (h, group_primitives-pushed group) refl

-- A scanner record and a captured handshake with one suite and one group that have IANA names resolve
-- to the same primitives.
pub primitives_from_zgrab-primitives_from_summary :
    (s : HandshakeSummary) (suite_code group_code : ℕ) (suite group : String)
    → ciphersuite_name suite_code ≡ some suite
    → named_group_name group_code ≡ some group
    → primitives_from_zgrab (zgrab_of suite group)
      ≡ primitives_from_summary (record s {
        ciphersuites = suite_code ∷ [];
        supported_groups = group_code ∷ [];
        signature_schemes = [];
      })
unfolding primitives_from_zgrab log_primitives certificate_primitives primitives_from_summary
    Names.first_suite Names.suite_primitives Names.is_tls13 Names.group_primitives
    Names.scheme_primitives
primitives_from_zgrab-primitives_from_summary s suite_code group_code suite group h k =
    let suites : List Primitive = suite_primitives suite in
    let groups : List Primitive = group_primitives group in
    append_nil (suites ++ groups)
    ∙ sym (
        ap (λ ps. ps ++ (Names.group_primitives (group_code ∷ []) ++ []))
          (first_suite-named suite_code suite h)
        ∙ ap (λ ps. suites ++ ps)
            (append_nil (Names.group_primitives (group_code ∷ []))
              ∙ group_primitives-named group_code group k
              ∙ append_nil groups))
