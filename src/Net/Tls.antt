-- ===== src/Net/Tls.antt =====
-- The handshake parser: `HandshakeSummary` and `parse_handshake` of
-- crates/ree0xq-net/src/tls/mod.rs. Each loop takes fuel; `parse_handshake` gives one more than
-- the bytes of the buffer.
pub mod Safety
pub mod RoundTrip
use ree0x_q.Base.{
  ℕ, zero, suc, ◌+◌, ◌/◌, ◌%◌, true, false, List, [], ◌∷◌, ◌++◌, length, eqb, ltb, if◌then◌else◌,
}
use ree0x_q.Net.Cursor.{
  M, Outcome, ok, stalled, Cursor, ParseError, unsupported_kind, length_mismatch, ◌>>=◌, ◌>>◌, pure,
  throw, position, seek, get_remaining, remaining, read_u8, read_u16, read_u24, advance,
}

pub data HandshakeKind : Type 0 where
  client_hello server_hello : HandshakeKind

pub record HandshakeSummary : Type 0 where
  pub msg_kind : HandshakeKind
  pub legacy_version : ℕ
  pub ciphersuites : List ℕ
  pub supported_groups : List ℕ
  pub signature_schemes : List ℕ
  pub supported_versions : List ℕ

-- `for _ in 0..n { out.push(c.read_u16()?) }`
pub read_times : ℕ → List ℕ → M (List ℕ)
read_times zero out = pure out
read_times (suc n) out = do v ← read_u16; read_times n (out ++ v ∷ [])

-- `while c.pos < end { out.push(c.read_u16()?) }`
pub read_until : ℕ → ℕ → List ℕ → M (List ℕ)
read_until zero end out c = stalled
read_until (suc fuel) end out c = elim (ltb c.pos end) [
  | true ↦ (do v ← read_u16; read_until fuel end (out ++ v ∷ [])) c
  | false ↦ ok (out, c)
]

pub kind_of : ℕ → M HandshakeKind
kind_of b =
    if eqb b 0x01
    then pure client_hello
    else if eqb b 0x02
    then pure server_hello
    else throw (unsupported_kind b)

-- The ciphersuites, and past the compression methods.
pub read_suites : HandshakeKind → HandshakeSummary → M HandshakeSummary
unfolding read_times
read_suites client_hello s = do
  cs_bytes ← read_u16
  left ← get_remaining
  (if eqb (cs_bytes % 2) 0 then pure tt else throw (length_mismatch cs_bytes left))
  suites ← read_times (cs_bytes / 2) s.ciphersuites
  comp_len ← read_u8
  advance comp_len
  pure (record s { ciphersuites = suites })
read_suites server_hello s = do
  suite ← read_u16
  advance 1
  pure (record s { ciphersuites = s.ciphersuites ++ suite ∷ [] })

-- A vector of 16-bit codes behind a 16-bit length.
pub read_codes : ℕ → List ℕ → M (List ℕ)
unfolding read_until
read_codes fuel out = do
  inner_len ← read_u16
  here ← position
  read_until fuel (here + inner_len) out

pub read_versions : ℕ → HandshakeKind → List ℕ → M (List ℕ)
unfolding read_until
read_versions fuel client_hello out = do
  inner_len ← read_u8
  here ← position
  read_until fuel (here + inner_len) out
read_versions fuel server_hello out = do v ← read_u16; pure (out ++ v ∷ [])

-- The `match ext_type`.
unfoldable pub read_extension : ℕ → HandshakeKind → ℕ → HandshakeSummary → M HandshakeSummary
unfolding read_codes read_versions
read_extension fuel kind ext_type s =
    if eqb ext_type 0x000a
    then (do gs ← read_codes fuel s.supported_groups; pure (record s { supported_groups = gs }))
    else if eqb ext_type 0x000d
    then (do ss ← read_codes fuel s.signature_schemes; pure (record s { signature_schemes = ss }))
    else if eqb ext_type 0x002b
    then (do
      vs ← read_versions fuel kind s.supported_versions
      pure (record s { supported_versions = vs }))
    else pure s

-- The loop over the extensions; `inner` is the fuel of the loops inside one extension.
pub read_extensions : ℕ → ℕ → HandshakeKind → ℕ → HandshakeSummary → M HandshakeSummary
unfolding read_extension
read_extensions zero inner kind ext_end s c = stalled
read_extensions (suc fuel) inner kind ext_end s c = elim (ltb c.pos ext_end) [
  | true ↦
      (do
        ext_type ← read_u16
        ext_len ← read_u16
        here ← position
        s' ← read_extension inner kind ext_type s
        seek (here + ext_len)
        read_extensions fuel inner kind ext_end s')
        c
  | false ↦ ok (s, c)
]

-- The extension block, which some servers omit.
pub read_block : ℕ → HandshakeKind → HandshakeSummary → M HandshakeSummary
unfolding read_extensions
read_block fuel kind s = do
  before ← get_remaining
  (if ltb before 2 then pure s else (do
    ext_bytes ← read_u16
    left ← get_remaining
    (if ltb left ext_bytes then throw (length_mismatch ext_bytes left) else pure tt)
    here ← position
    read_extensions fuel fuel kind (here + ext_bytes) s))

abbrev pub empty_summary : HandshakeKind → ℕ → HandshakeSummary
empty_summary kind version = record {
  msg_kind = kind;
  legacy_version = version;
  ciphersuites = [];
  supported_groups = [];
  signature_schemes = [];
  supported_versions = [];
}

-- From the handshake header to the session id.
pub read_header : M HandshakeSummary
unfolding kind_of
read_header = do
  kind_byte ← read_u8
  kind ← kind_of kind_byte
  total_len ← read_u24
  left ← get_remaining
  (if ltb left total_len then throw (length_mismatch total_len left) else pure tt)
  legacy_version ← read_u16
  advance 32
  sid_len ← read_u8
  advance sid_len
  pure (empty_summary kind legacy_version)

pub parse_with : ℕ → M HandshakeSummary
unfolding read_header read_suites read_block
parse_with fuel = do s ← read_header; s' ← read_suites s.msg_kind s; read_block fuel s.msg_kind s'

abbrev pub outcome_of {ℓ} : {A : Type ℓ} → Outcome (A × Cursor) → Outcome A
outcome_of r = elim r [
  | ok a ↦ ok a.0
  | Outcome.err e ↦ Outcome.err e
  | Outcome.panic ↦ Outcome.panic
  | stalled ↦ stalled
]

unfoldable pub parse_handshake : List ℕ → Outcome HandshakeSummary
unfolding parse_with read_u8 read_u16 read_u24 advance remaining
parse_handshake buf = outcome_of (parse_with (length buf + 1) (record { buf = buf; pos = 0 }))
