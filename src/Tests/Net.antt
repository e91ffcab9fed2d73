-- ===== src/Tests/Net.antt =====
-- The parser, the tables and the dedup cache on small inputs.
use ree0x_q.Base.{
  eqb, Bool, Option, ℕ, ◌-◌, ◌≤◌, ◌<◌, ◌≡◌, refl, ◌⊎◌, ◌++◌, List, [], ◌∷◌, String, some, none,
  true, false, arith, string_eq,
}
use ree0x_q.Base.Dict
use ree0x_q.Core.{CryptoInventoryEvent, Primitive, kex, sig, l3}
use ree0x_q.Net.Cursor.{ok, err, ParseError}
use ree0x_q.Net.Tls.{HandshakeSummary, client_hello, parse_handshake, empty_summary}
use ree0x_q.Net.Tls.Safety.{parse_handshake_total}
use ree0x_q.Net.Tls.RoundTrip.Hello.{
  client_hello_bytes, summary_of, parse_handshake-client_hello_bytes,
}
use ree0x_q.Net.Algos.{named, primitive_from_supported_group, primitive_from_signature_scheme}
use ree0x_q.Net.Names.{ciphersuite_name, suite_primitives, is_tls13}
use ree0x_q.Net.Names.Coverage.{roles, suite_roles, suite_primitives-roles}
use ree0x_q.Net.Dedup.{DedupCache, new, u64_max, make_room, observe_at}
use ree0x_q.Net.Dedup.Bounds.{
  IsValid, new-IsValid, Evicts, make_room-Evicts_oldest, observe_at-IsValid,
}
use ree0x_q.Net.Dedup.Window.{observe_all, observe_at_cases, observe_at_no_repeat}
use ree0x_q.Net.Spool.{Spool, drain}
use ree0x_q.Net.Spool.Delivery.{
  append_all, sent, unsent, remaining_file, append-drain, drain-unreadable,
}
use ree0x_q.Net.Live.{Sliced, observe_pcap_with_dedup}
use ree0x_q.Net.Live.Accounting.{Accounts, observe_pcap_with_dedup-Accounts}
use ree0x_q.Tests.Samples.{sample_hello, event_at}

abbrev truncated_hello : List ℕ
truncated_hello = 0x01 ∷ 0 ∷ 0 ∷ 4 ∷ 3 ∷ 3 ∷ []

parse_handshake_total_example :
    ((s : HandshakeSummary) × (parse_handshake truncated_hello ≡ ok s))
    ⊎ ((e : ParseError) × (parse_handshake truncated_hello ≡ err e))
parse_handshake_total_example = parse_handshake_total truncated_hello

parse_handshake-client_hello_bytes_example :
    parse_handshake (client_hello_bytes sample_hello ++ 9 ∷ []) ≡ ok (summary_of sample_hello)
parse_handshake-client_hello_bytes_example =
    parse_handshake-client_hello_bytes sample_hello (9 ∷ []) refl (
      tt,
      (
        tt,
        (
          (
            (λ e. absurd (ground arith)),
            (λ e. absurd (ground arith)),
            (λ e. absurd (ground arith)),
          ),
          (tt, tt),
        ),
      ),
    )

abbrev hybrid : Primitive
hybrid = named kex "named_group" "MLKEM768" ("ML-KEM-768", some true, some l3)

hybrid_group : primitive_from_supported_group "MLKEM768" ≡ some hybrid
unfolding primitive_from_supported_group
hybrid_group = refl

abbrev dilithium : Primitive
dilithium = record (named sig "" "dilithium3" ("ML-DSA-65", some true, some l3)) { parameters = [] }

dilithium_scheme : primitive_from_signature_scheme "dilithium3" ≡ some dilithium
unfolding primitive_from_signature_scheme
dilithium_scheme = refl

abbrev sample_summary : HandshakeSummary
sample_summary = record (empty_summary client_hello 0x0303) {
  ciphersuites = 0x1301 ∷ [];
  supported_groups = 0x001d ∷ 0xffff ∷ [];
  signature_schemes = 0x0403 ∷ [];
}

aes_name : ciphersuite_name 0x1301 ≡ some "TLS_AES_128_GCM_SHA256"
unfolding ciphersuite_name
aes_name = refl

suite_primitives-roles_example :
    roles (suite_primitives "TLS_AES_128_GCM_SHA256")
    ≡ suite_roles (is_tls13 "TLS_AES_128_GCM_SHA256")
suite_primitives-roles_example = suite_primitives-roles 0x1301 aes_name

abbrev full_cache : DedupCache
full_cache = record {
  ttl = 10;
  capacity = 2;
  entries = ("a", 1) ∷ ("b", 3) ∷ [];
  forced_evictions = 0;
}

full_cache-IsValid : IsValid full_cache
unfolding Dict.lookup
full_cache-IsValid = record {
  positive = omega arith;
  bounded = omega arith;
  distinct = (refl, (refl, tt));
  counter = omega arith;
}

observe_at-IsValid_example : IsValid (observe_at full_cache "c" 4).0
observe_at-IsValid_example = observe_at-IsValid full_cache "c" 4 full_cache-IsValid

make_room-Evicts_oldest_example :
    ((2 ≤ 2) × ((old : String × ℕ) × Evicts full_cache (make_room full_cache) old))
    ⊎ ((2 < 2) × (make_room full_cache ≡ full_cache))
make_room-Evicts_oldest_example = make_room-Evicts_oldest full_cache (omega arith)

observe_at_cases_example :
    ((observe_at full_cache "a" 5 ≡ (full_cache, false))
      × ((t : ℕ) × (Dict.lookup "a" full_cache.entries ≡ some t) × (5 - t < 10)))
    ⊎ (((observe_at full_cache "a" 5).1 ≡ true)
        × (Dict.lookup "a" (observe_at full_cache "a" 5).0.entries ≡ some 5)
        × ((observe_at full_cache "a" 5).0.ttl ≡ 10)
        × ((Dict.lookup "a" full_cache.entries ≡ none)
            ⊎ ((t : ℕ) × (Dict.lookup "a" full_cache.entries ≡ some t) × (10 ≤ 5 - t))))
observe_at_cases_example = observe_at_cases full_cache "a" 5

small_run :
    ((observe_at (new 10 4) "a" 1).1 ≡ true)
    × ((observe_all (observe_at (new 10 4) "a" 1).0 (("b", 2) ∷ [])).forced_evictions
        ≡ (observe_at (new 10 4) "a" 1).0.forced_evictions)
    × ((observe_at (new 10 4) "a" 1).0.forced_evictions < u64_max)
unfolding new observe_at observe_all Dict.lookup Dict.insert Dict.retain
small_run = (refl, refl, omega arith)

observe_at_no_repeat_example :
    (observe_at (observe_all (observe_at (new 10 4) "a" 1).0 (("b", 2) ∷ [])) "a" 5).1 ≡ false
unfolding new
observe_at_no_repeat_example =
    observe_at_no_repeat (new 10 4) "a" 1 (("b", 2) ∷ []) 5 (new-IsValid 10 4) small_run.0
      (omega arith, tt) small_run.1 small_run.2 (omega arith)

-- A JSON library that writes every event as one text.
abbrev write : CryptoInventoryEvent → String
write ev = "e"

abbrev read : String → Option CryptoInventoryEvent
read line = some (event_at 5)

-- Only the first call succeeds.
abbrev first_only : ℕ → CryptoInventoryEvent → Bool
first_only i ev = eqb i 0

abbrev two_lines : Spool
two_lines = record { file = some (some "e" ∷ some " " ∷ none ∷ some "e" ∷ []) }

append-drain_example :
    ((drain write read first_only (
        append_all write read first_only
          (record { file = some [] })
          (event_at 5 ∷ event_at 5 ∷ []))).1.taken
      ≡ sent write read first_only 0 (event_at 5 ∷ event_at 5 ∷ []))
    × ((drain write read first_only (
          append_all write read first_only
            (record { file = some [] })
            (event_at 5 ∷ event_at 5 ∷ []))).0.file
        ≡ remaining_file write read first_only
            (unsent write read first_only 0 (event_at 5 ∷ event_at 5 ∷ [])))
append-drain_example =
    append-drain write read first_only (event_at 5 ∷ event_at 5 ∷ [])
      ((refl, refl), ((refl, refl), tt))

drain-unreadable_example :
    drain write read first_only (record { file = some (some "e" ∷ none ∷ some "e" ∷ []) })
    ≡ drain write read first_only (record { file = some (some "e" ∷ []) })
drain-unreadable_example = drain-unreadable write read first_only (some "e" ∷ []) (some "e" ∷ [])

-- A slicer for which every frame is the payload of one TCP segment.
abbrev sliced_as_payload : List ℕ → Option Sliced
sliced_as_payload frame = some (record {
  src_ip = some "10.0.0.2";
  dst_ip = some "10.0.0.1";
  tcp = some (record { src_port = 50_000; dst_port = 443; payload = frame });
})

abbrev hello_frame : List ℕ
hello_frame = 0x16 ∷ 3 ∷ 1 ∷ 0 ∷ 0 ∷ client_hello_bytes sample_hello

observe_pcap_with_dedup-Accounts_example : Accounts (
    observe_pcap_with_dedup sliced_as_payload
      (some (new 10 4))
      ((1, 100, some hello_frame) ∷ (2, 101, some hello_frame) ∷ (3, 102, none) ∷ []))
observe_pcap_with_dedup-Accounts_example =
    observe_pcap_with_dedup-Accounts sliced_as_payload (some (new 10 4))
      ((1, 100, some hello_frame) ∷ (2, 101, some hello_frame) ∷ (3, 102, none) ∷ [])
