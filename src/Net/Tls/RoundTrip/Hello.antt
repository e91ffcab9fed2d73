-- ===== src/Net/Tls/RoundTrip/Hello.antt =====
-- A whole ClientHello on the wire, and what `parse_handshake` reads back from it.
use mathlib.Core.List.{append_assoc}
use ree0x_q.Base.{
  ℕ, ◌+◌, ◌*◌, List, [], ◌∷◌, ◌++◌, length, All, ltb, eqb, ◌≡◌, refl, arith, length-append, true,
  false, ◌<◌, ◌%◌, ◌/◌,
}
use ree0x_q.Net.Cursor.{Cursor, ok, remaining}
use ree0x_q.Net.Cursor.Reads.{At, moved, remaining-At, At-moved, read_u8-At, advance-At}
use ree0x_q.Net.Tls.RoundTrip.{
  u16_bytes, u24_bytes, codes_bytes, read_u16-bytes, read_u24-bytes, read_times-codes,
  length-codes_bytes, Extension, extensions_bytes, IsWellFormed, absorb_all, read_extensions-bytes,
}
use ree0x_q.Net.Tls.{
  client_hello, HandshakeSummary, kind_of, read_suites, read_block, read_header, parse_handshake,
  empty_summary,
}

pub record Hello : Type 0 where
  pub version : ℕ
  pub random : List ℕ
  pub session_id : List ℕ
  pub suites : List ℕ
  pub compression : List ℕ
  pub extensions : List Extension

abbrev pub block_bytes : Hello → List ℕ
block_bytes h = u16_bytes (length (extensions_bytes h.extensions)) ++ extensions_bytes h.extensions

abbrev pub suites_bytes : Hello → List ℕ
suites_bytes h =
    u16_bytes (2 * length h.suites)
    ++ (codes_bytes h.suites ++ (length h.compression ∷ (h.compression ++ block_bytes h)))

abbrev pub hello_bytes : Hello → List ℕ
hello_bytes h =
    u16_bytes h.version ++ (h.random ++ (length h.session_id ∷ (h.session_id ++ suites_bytes h)))

-- The handshake message: type 1, a 24-bit length, and the body.
abbrev pub client_hello_bytes : Hello → List ℕ
client_hello_bytes h = 0x01 ∷ (u24_bytes (length (hello_bytes h)) ++ hello_bytes h)

module _ (h : Hello) (rest : List ℕ) where
  read_header-bytes :
      (c : Cursor)
      → length h.random ≡ 32
      → At c (client_hello_bytes h ++ rest)
      → (p : ℕ) × (read_header c ≡ ok (empty_summary client_hello h.version, record c { pos = p }))
        × At (record c { pos = p }) (suites_bytes h ++ rest)
  unfolding read_header kind_of
  read_header-bytes c len at =
      let at₁ = At-moved c (0x01 ∷ []) at in
      let c₁ = moved c 1 in
      let at₂ = At-moved c₁ (u24_bytes (length (hello_bytes h))) at₁ in
      let c₂ = moved c₁ 3 in
      let fits : ltb (remaining c₂) (length (hello_bytes h)) ≡ false =
        ground (arith, remaining-At c₂ at₂, length-append {0} (hello_bytes h) rest) in
      let at₃ = At-moved c₂ (u16_bytes h.version) at₂ in
      let c₃ = moved c₂ 2 in
      let at₃' = rw (append_assoc h.random _ rest) at at₃ in
      let skip_random = rw len at (advance-At c₃ h.random _ at₃') in
      let at₄ = rw len at (At-moved c₃ h.random at₃') in
      let c₄ = moved c₃ 32 in
      let at₅ = At-moved c₄ (length h.session_id ∷ []) at₄ in
      let c₅ = moved c₄ 1 in
      let at₅' = rw (append_assoc h.session_id _ rest) at at₅ in
      let at₆ = At-moved c₅ h.session_id at₅' in
      (
        c₅.pos + length h.session_id,
        rw (read_u8-At c 0x01 at) (
            rw (read_u24-bytes _ c₁ _ at₁) (
              rw fits (
                rw (read_u16-bytes _ c₂ _ at₂) (
                  rw skip_random
                    (rw (read_u8-At c₄ _ at₄) (rw (advance-At c₅ h.session_id _ at₅'))))))),
        at₆,
      )

  read_suites-bytes :
      (s : HandshakeSummary) (c : Cursor)
      → At c (suites_bytes h ++ rest)
      → (p : ℕ) × (read_suites client_hello s c
          ≡ ok (record s { ciphersuites = s.ciphersuites ++ h.suites }, record c { pos = p }))
        × At (record c { pos = p }) (block_bytes h ++ rest)
  unfolding read_suites
  read_suites-bytes s c at =
      let n = length h.suites in
      let c₁ = moved c 2 in
      let at₁ = At-moved c (u16_bytes (2 * n)) at in
      let at₁' = rw (append_assoc (codes_bytes h.suites) _ rest) at at₁ in
      let even : eqb (2 * n % 2) 0 ≡ true = ground arith in
      let half : 2 * n / 2 ≡ n = omega arith in
      let c₂ = moved c₁ (2 * n) in
      let at₂ = rw (length-codes_bytes h.suites) at (At-moved c₁ (codes_bytes h.suites) at₁') in
      let at₃ = At-moved c₂ (length h.compression ∷ []) at₂ in
      let c₃ = moved c₂ 1 in
      let at₃' = rw (append_assoc h.compression _ rest) at at₃ in
      let at₄ = At-moved c₃ h.compression at₃' in
      (
        c₃.pos + length h.compression,
        rw (read_u16-bytes _ c _ at) (
            rw even (
              rw half (
                rw (read_times-codes h.suites s.ciphersuites c₁ _ at₁')
                  (rw (read_u8-At c₂ _ at₂) (rw (advance-At c₃ h.compression _ at₃')))))),
        at₄,
      )

  read_block-bytes :
      (fuel : ℕ) (s : HandshakeSummary) (c : Cursor)
      → All IsWellFormed h.extensions
      → length (extensions_bytes h.extensions) < fuel
      → At c (block_bytes h ++ rest)
      → (p : ℕ) × (read_block fuel client_hello s c
          ≡ ok (absorb_all s h.extensions, record c { pos = p }))
  unfolding read_block
  read_block-bytes fuel s c w f at =
      let size = length (extensions_bytes h.extensions) in
      let c₁ = moved c 2 in
      let at₁ = At-moved c (u16_bytes size) at in
      let long : ltb (remaining c) 2 ≡ false = ground (arith, remaining-At c at) in
      let room : ltb (remaining c₁) size ≡ false =
        ground
          (arith, remaining-At c₁ at₁, length-append {0} (extensions_bytes h.extensions) rest) in
      let (p, read) =
        read_extensions-bytes fuel fuel h.extensions (c₁.pos + size) s c₁ rest w at₁ refl f f in
      (p, rw long (rw (read_u16-bytes size c _ at) (rw room read)))

abbrev pub summary_of : Hello → HandshakeSummary
summary_of h =
    absorb_all (record (empty_summary client_hello h.version) { ciphersuites = h.suites })
      h.extensions

-- A ClientHello with a 32-byte random is read back exactly, whatever follows it in the buffer: the
-- suites as listed, and the codes of each extension that the parser knows, in the order of the
-- extensions. Unknown extensions and padding behind a vector are skipped. (When a length does not
-- fit its field the first number of that field is no byte; the equation holds there too.)
pub parse_handshake-client_hello_bytes :
    (h : Hello) (rest : List ℕ)
    → length h.random ≡ 32
    → All IsWellFormed h.extensions
    → parse_handshake (client_hello_bytes h ++ rest) ≡ ok (summary_of h)
unfolding parse_handshake
parse_handshake-client_hello_bytes h rest len w =
    let buf = client_hello_bytes h ++ rest in
    let c : Cursor = record { buf = buf; pos = 0 } in
    let at : At c buf = record { inside = omega arith; unread = refl } in
    let (p, header, at₁) = read_header-bytes h rest c len at in
    let c₁ : Cursor = record { buf = buf; pos = p } in
    let s = empty_summary client_hello h.version in
    let (q, suites, at₂) = read_suites-bytes h rest s c₁ at₁ in
    let c₂ : Cursor = record { buf = buf; pos = q } in
    let fuel : length (extensions_bytes h.extensions) < length buf + 1 =
      omega (arith, remaining-At c₂ at₂, length-append {0} (extensions_bytes h.extensions) rest) in
    let (r, block) =
      read_block-bytes h rest (length buf + 1) (record s { ciphersuites = h.suites }) c₂ w fuel
        at₂ in
    rw header (rw suites (rw block))
