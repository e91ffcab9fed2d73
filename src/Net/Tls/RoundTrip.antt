-- ===== src/Net/Tls/RoundTrip.antt =====
-- The parser against an independent description of the wire format (RFC 8446 §4.1.2, as the test
-- `sample_client_hello` of crates/ree0xq-net/src/tls/mod.rs writes it).
pub mod Hello
use ree0x_q.Base.{
  ℕ, zero, suc, ◌+◌, ◌-◌, ◌*◌, ◌/◌, ◌%◌, ◌≤◌, ◌<◌, List, [], ◌∷◌, ◌++◌, length, ltb, eqb, ◌≡◌, ◌≢◌,
  refl, sym, ap, ◌∙◌, arith, ◌⊎◌, inl, inr, Bool-cases, length-append, true, false, All,
}
use mathlib.Core.List.{append_assoc, append-nil}
use ree0x_q.Net.Cursor.{
  Cursor, Outcome, ok, err, ParseError, M, read_u8, read_u16, read_u24, advance, remaining,
}
use ree0x_q.Net.Cursor.Reads.{
  At, moved, remaining-At, At-moved, read_u8-At, read_u16-At, read_u24-At, advance-At,
}
use ree0x_q.Net.Tls.{
  HandshakeKind, client_hello, server_hello, HandshakeSummary, read_times, read_until, kind_of,
  read_suites, read_codes, read_versions, read_extension, read_extensions, read_block, read_header,
  parse_with, parse_handshake, outcome_of, empty_summary,
}

-- A 16-bit and a 24-bit number, high byte first.
abbrev pub u16_bytes : ℕ → List ℕ
u16_bytes n = n / 256 ∷ n % 256 ∷ []

abbrev pub u24_bytes : ℕ → List ℕ
u24_bytes n = n / 65536 ∷ n / 256 % 256 ∷ n % 256 ∷ []

pub codes_bytes : List ℕ → List ℕ
codes_bytes [] = []
codes_bytes (n ∷ ns) = u16_bytes n ++ codes_bytes ns

pub length-codes_bytes : (ns : List ℕ) → length (codes_bytes ns) ≡ 2 * length ns
unfolding codes_bytes
length-codes_bytes [] = refl
length-codes_bytes (n ∷ ns) = omega (arith, length-codes_bytes ns)

pub read_u16-bytes :
    (n : ℕ) (c : Cursor) (rest : List ℕ)
    → At c (u16_bytes n ++ rest)
    → read_u16 c ≡ ok (n, moved c 2)
read_u16-bytes n c rest at = ground (arith, read_u16-At c (n / 256) (n % 256) at)

pub read_u24-bytes :
    (n : ℕ) (c : Cursor) (rest : List ℕ)
    → At c (u24_bytes n ++ rest)
    → read_u24 c ≡ ok (n, moved c 3)
read_u24-bytes n c rest at = ground (arith, read_u24-At c (n / 65536) (n / 256 % 256) (n % 256) at)

-- A run of codes is read back, by the counted loop and by the loop up to an end.
pub read_times-codes :
    (ns out : List ℕ) (c : Cursor) (rest : List ℕ)
    → At c (codes_bytes ns ++ rest)
    → read_times (length ns) out c ≡ ok (out ++ ns, moved c (2 * length ns))
unfolding read_times codes_bytes
read_times-codes [] out c rest at = ground (arith, append-nil out)
read_times-codes (n ∷ ns) out c rest at =
    let next = At-moved c (u16_bytes n) at in
    rw (read_u16-bytes n c (codes_bytes ns ++ rest) at) (
      ground (
        arith,
        read_times-codes ns (out ++ n ∷ []) (moved c 2) rest next,
        append_assoc out (n ∷ []) ns,
      ))

read_until-codes :
    (fuel : ℕ) (ns out : List ℕ) (end : ℕ) (c : Cursor) (rest : List ℕ)
    → At c (codes_bytes ns ++ rest)
    → end ≡ c.pos + 2 * length ns
    → length ns < fuel
    → read_until fuel end out c ≡ ok (out ++ ns, moved c (2 * length ns))
unfolding read_until codes_bytes
read_until-codes zero ns out end c rest at e h = absurd (omega arith)
read_until-codes (suc fuel) [] out end c rest at e h = ground (arith, append-nil out)
read_until-codes (suc fuel) (n ∷ ns) out end c rest at e h =
    let next = At-moved c (u16_bytes n) at in
    let more : ltb c.pos end ≡ true = ground arith in
    rw (more, read_until)
      (rw (read_u16-bytes n c (codes_bytes ns ++ rest) at) (
        ground (
          arith,
          read_until-codes fuel ns (out ++ n ∷ []) end (moved c 2) rest next (omega arith),
          append_assoc out (n ∷ []) ns,
        )))

-- The body of an extension; `pad` is what a server may put behind the vector.
pub data Extension : Type 0 where
  groups : List ℕ → List ℕ → Extension
  schemes : List ℕ → List ℕ → Extension
  versions : List ℕ → List ℕ → Extension
  other : ℕ → List ℕ → Extension

abbrev pub type_of : Extension → ℕ
type_of (groups gs pad) = 0x000a
type_of (schemes ss pad) = 0x000d
type_of (versions vs pad) = 0x002b
type_of (other ty body) = ty

-- `other` is none of the three types that the parser reads.
abbrev pub IsWellFormed : Extension → Type 0
IsWellFormed (other ty body) = (ty ≢ 0x000a) × (ty ≢ 0x000d) × (ty ≢ 0x002b)
IsWellFormed _ = Unit

pub body_bytes : Extension → List ℕ
body_bytes (groups gs pad) = u16_bytes (2 * length gs) ++ (codes_bytes gs ++ pad)
body_bytes (schemes ss pad) = u16_bytes (2 * length ss) ++ (codes_bytes ss ++ pad)
body_bytes (versions vs pad) = 2 * length vs ∷ (codes_bytes vs ++ pad)
body_bytes (other ty body) = body

pub extensions_bytes : List Extension → List ℕ
unfolding body_bytes codes_bytes
extensions_bytes [] = []
extensions_bytes (e ∷ es) =
    u16_bytes (type_of e)
    ++ (u16_bytes (length (body_bytes e)) ++ (body_bytes e ++ extensions_bytes es))

-- What an extension adds to the summary.
abbrev pub absorb : HandshakeSummary → Extension → HandshakeSummary
absorb s (groups gs pad) = record s { supported_groups = s.supported_groups ++ gs }
absorb s (schemes ss pad) = record s { signature_schemes = s.signature_schemes ++ ss }
absorb s (versions vs pad) = record s { supported_versions = s.supported_versions ++ vs }
absorb s (other ty body) = s

abbrev pub absorb_all : HandshakeSummary → List Extension → HandshakeSummary
absorb_all s [] = s
absorb_all s (e ∷ es) = absorb_all (absorb s e) es

read_codes-bytes :
    (fuel : ℕ) (ns pad out : List ℕ) (c : Cursor) (rest : List ℕ)
    → At c (u16_bytes (2 * length ns) ++ ((codes_bytes ns ++ pad) ++ rest))
    → length ns < fuel
    → read_codes fuel out c ≡ ok (out ++ ns, moved (moved c 2) (2 * length ns))
unfolding read_codes
read_codes-bytes fuel ns pad out c rest at h = rw (read_u16-bytes (2 * length ns) c _ at) (
    read_until-codes fuel ns out _ (moved c 2) (pad ++ rest)
      (rw (append_assoc (codes_bytes ns) pad rest) at (At-moved c (u16_bytes (2 * length ns)) at))
      refl h)

read_versions-bytes :
    (fuel : ℕ) (ns pad out : List ℕ) (c : Cursor) (rest : List ℕ)
    → At c (2 * length ns ∷ ((codes_bytes ns ++ pad) ++ rest))
    → length ns < fuel
    → read_versions fuel client_hello out c ≡ ok (out ++ ns, moved (moved c 1) (2 * length ns))
unfolding read_versions
read_versions-bytes fuel ns pad out c rest at h = rw (read_u8-At c (2 * length ns) at) (
    read_until-codes fuel ns out _ (moved c 1) (pad ++ rest)
      (rw (append_assoc (codes_bytes ns) pad rest) at (At-moved c (2 * length ns ∷ []) at)) refl h)

-- The position after the body is whatever the inner vector leaves.
read_extension-bytes :
    (fuel : ℕ) (e : Extension) (s : HandshakeSummary) (c : Cursor) (rest : List ℕ)
    → IsWellFormed e
    → At c (body_bytes e ++ rest)
    → length (body_bytes e) < fuel
    → (p : ℕ) × (read_extension fuel client_hello (type_of e) s c
        ≡ ok (absorb s e, record c { pos = p }))
unfolding read_extension body_bytes
read_extension-bytes fuel (groups gs pad) s c rest w at h = (
  c.pos + 2 + 2 * length gs,
  rw (
      read_codes-bytes fuel gs pad s.supported_groups c rest at
        (omega (arith, length-codes_bytes gs, length-append {0} (codes_bytes gs) pad))),
)
read_extension-bytes fuel (schemes ss pad) s c rest w at h = (
  c.pos + 2 + 2 * length ss,
  rw (
      read_codes-bytes fuel ss pad s.signature_schemes c rest at
        (omega (arith, length-codes_bytes ss, length-append {0} (codes_bytes ss) pad))),
)
read_extension-bytes fuel (versions vs pad) s c rest w at h = (
  c.pos + 1 + 2 * length vs,
  rw (
      read_versions-bytes fuel vs pad s.supported_versions c rest at
        (omega (arith, length-codes_bytes vs, length-append {0} (codes_bytes vs) pad))),
)
read_extension-bytes fuel (other ty body) s c rest w at h = (c.pos, ground arith)

length-extensions_bytes :
    (e : Extension) (es : List Extension)
    → length (extensions_bytes (e ∷ es)) ≡ 4 + length (body_bytes e) + length (extensions_bytes es)
unfolding extensions_bytes
length-extensions_bytes e es = omega (arith, length-append {0} (body_bytes e) (extensions_bytes es))

pub read_extensions-bytes :
    (fuel inner : ℕ) (es : List Extension) (end : ℕ) (s : HandshakeSummary) (c : Cursor)
    (rest : List ℕ)
    → All IsWellFormed es
    → At c (extensions_bytes es ++ rest)
    → end ≡ c.pos + length (extensions_bytes es)
    → length (extensions_bytes es) < fuel
    → length (extensions_bytes es) < inner
    → (p : ℕ) × (read_extensions fuel inner client_hello end s c
        ≡ ok (absorb_all s es, record c { pos = p }))
unfolding read_extensions
read_extensions-bytes zero inner es end s c rest w at e h k = absurd (omega arith)
read_extensions-bytes (suc fuel) inner [] end s c rest w at e h k =
    (c.pos, unfold extensions_bytes in ground arith)
read_extensions-bytes (suc fuel) inner (x ∷ es) end s c rest w at e h k =
    let size = length-extensions_bytes x es in
    let more : ltb c.pos end ≡ true = ground arith in
    let at₀ : At c (
        u16_bytes (type_of x)
        ++ (u16_bytes (length (body_bytes x)) ++ ((body_bytes x ++ extensions_bytes es) ++ rest))) =
      unfold extensions_bytes in at in
    let at₁ = At-moved c (u16_bytes (type_of x)) at₀ in
    let at₂ = At-moved (moved c 2) (u16_bytes (length (body_bytes x))) at₁ in
    let at₃ = rw (append_assoc (body_bytes x) (extensions_bytes es) rest) at at₂ in
    let (p, read) =
      read_extension-bytes inner x s (moved (moved c 2) 2) (extensions_bytes es ++ rest) w.0 at₃
        (omega arith) in
    let at₄ = At-moved (moved (moved c 2) 2) (body_bytes x) at₃ in
    let (q, rest_read) =
      read_extensions-bytes fuel inner es end (absorb s x)
        (moved (moved (moved c 2) 2) (length (body_bytes x))) rest w.1 at₄ (omega arith)
        (omega arith) (omega arith) in
    (
      q,
      rw (more, read_extensions)
          (rw (read_u16-bytes _ c _ at₀)
            (rw (read_u16-bytes _ (moved c 2) _ at₁) (rw read rest_read))),
    )
