-- ===== src/Net/Tls/Safety.antt =====
-- The parser on arbitrary input.
use ree0x_q.Base.{
  ℕ, Bool, true, false, ◌%◌, ◌/◌, zero, suc, ◌+◌, if◌then◌else◌, ◌-◌, ◌≤◌, ◌<◌, List, [], ◌∷◌, ◌++◌,
  length, ltb, eqb, ◌≡◌, refl, arith, ◌⊎◌, inl, inr, Bool-cases,
}
use ree0x_q.Net.Cursor.{Cursor, Outcome, ok, err, ParseError, throw, pure, advance, remaining}
use ree0x_q.Net.Cursor.Safety.{
  Ensures, returns, fails, Ensures-bind, Ensures-weaken, Moved, read_u8-Ensures, read_u16-Ensures,
  read_u24-Ensures, advance-Ensures,
}
use ree0x_q.Net.Tls.{
  HandshakeKind, client_hello, server_hello, HandshakeSummary, read_times, read_until, kind_of,
  read_suites, read_codes, read_versions, read_extension, read_extensions, read_block, read_header,
  parse_with, parse_handshake, outcome_of,
}

-- The cursor reads the buffer `b` and stands inside it.
record Fits (b : List ℕ) (c : Cursor) : Type 0 where
  same_buf : c.buf ≡ b
  inside : c.pos ≤ length b

module _ (b : List ℕ) where
  abbrev Safe : {A : Type 0} → Outcome (A × Cursor) → Type 0
  Safe = Ensures (λ _ c. Fits b c)

  Moved-Fits : {n : ℕ} {c c' : Cursor} → Fits b c → Moved n c c' → Fits b c'
  Moved-Fits f m = ground arith

  read_times-Safe : (n : ℕ) (out : List ℕ) (c : Cursor) → Fits b c → Safe (read_times n out c)
  unfolding read_times
  read_times-Safe zero out c f = returns _ _ f
  read_times-Safe (suc n) out c f =
      Ensures-bind _ (read_u16-Ensures c)
        (λ v c' m. read_times-Safe n (out ++ v ∷ []) c' (Moved-Fits f m))

  -- Each round of the loop reads two bytes, or stops the parse.
  read_until-Safe :
      (fuel end : ℕ) (out : List ℕ) (c : Cursor)
      → Fits b c
      → length b - c.pos < fuel
      → Safe (read_until fuel end out c)
  unfolding read_until
  read_until-Safe zero end out c f h = absurd (omega arith)
  read_until-Safe (suc fuel) end out c f h = elim (Bool-cases (ltb c.pos end)) [
    | inl more ↦
        rw (more, read_until)
          (Ensures-bind _ (read_u16-Ensures c)
            (λ v c' m. read_until-Safe fuel end (out ++ v ∷ []) c' (Moved-Fits f m) (ground arith)))
    | inr done ↦ rw (done, read_until) (returns _ _ f)
  ]

  kind_of-Safe : (k : ℕ) (c : Cursor) → Fits b c → Safe (kind_of k c)
  unfolding kind_of
  kind_of-Safe k c f = elim (Bool-cases (eqb k 0x01)) [
    | inl client ↦ rw client (returns _ _ f)
    | inr other ↦ rw other (elim (Bool-cases (eqb k 0x02)) [
      | inl server ↦ rw server (returns _ _ f)
      | inr neither ↦ rw neither (fails _)
    ])
  ]

  -- An early return of an error under a test, either way round.
  reject-Safe :
      (t : Bool) (e : ParseError) (c : Cursor)
      → Fits b c
      → Safe ((if t then throw e else pure tt) c)
  reject-Safe true e c f = fails _
  reject-Safe false e c f = returns _ _ f

  require-Safe :
      (t : Bool) (e : ParseError) (c : Cursor)
      → Fits b c
      → Safe ((if t then pure tt else throw e) c)
  require-Safe true e c f = returns _ _ f
  require-Safe false e c f = fails _

  advance-Safe : (n : ℕ) (c : Cursor) → Fits b c → Safe (advance n c)
  advance-Safe n c f =
      Ensures-weaken (advance-Ensures n c (ground arith)) (λ _ c' m. Moved-Fits f m)

  read_suites-Safe :
      (kind : HandshakeKind) (s : HandshakeSummary) (c : Cursor)
      → Fits b c
      → Safe (read_suites kind s c)
  unfolding read_suites
  read_suites-Safe client_hello s c f = Ensures-bind _ (read_u16-Ensures c) λ cs_bytes c₁ m₁.
      let f₁ = Moved-Fits f m₁ in
      Ensures-bind _ (require-Safe (eqb (cs_bytes % 2) 0) _ c₁ f₁) λ _ c₂ f₂.
        Ensures-bind _ (read_times-Safe (cs_bytes / 2) s.ciphersuites c₂ f₂) λ suites c₃ f₃.
          Ensures-bind _ (read_u8-Ensures c₃) λ comp_len c₄ m₄.
            Ensures-bind _ (advance-Safe comp_len c₄ (Moved-Fits f₃ m₄)) λ _ c₅ f₅. returns _ _ f₅
  read_suites-Safe server_hello s c f =
      Ensures-bind _ (read_u16-Ensures c) λ suite c₁ m₁.
        Ensures-bind _ (advance-Safe 1 c₁ (Moved-Fits f m₁)) λ _ c₂ f₂. returns _ _ f₂

  read_codes-Safe :
      (fuel : ℕ) (out : List ℕ) (c : Cursor)
      → Fits b c
      → length b < fuel
      → Safe (read_codes fuel out c)
  unfolding read_codes
  read_codes-Safe fuel out c f h = Ensures-bind _ (read_u16-Ensures c) λ inner_len c₁ m₁.
      read_until-Safe fuel (c₁.pos + inner_len) out c₁ (Moved-Fits f m₁) (omega arith)

  read_versions-Safe :
      (fuel : ℕ) (kind : HandshakeKind) (out : List ℕ) (c : Cursor)
      → Fits b c
      → length b < fuel
      → Safe (read_versions fuel kind out c)
  unfolding read_versions
  read_versions-Safe fuel client_hello out c f h =
      Ensures-bind _ (read_u8-Ensures c) λ inner_len c₁ m₁.
        read_until-Safe fuel (c₁.pos + inner_len) out c₁ (Moved-Fits f m₁) (omega arith)
  read_versions-Safe fuel server_hello out c f h =
      Ensures-bind _ (read_u16-Ensures c) λ v c₁ m₁. returns _ _ (Moved-Fits f m₁)

  read_extension-Safe :
      (fuel : ℕ) (kind : HandshakeKind) (ext_type : ℕ) (s : HandshakeSummary) (c : Cursor)
      → Fits b c
      → length b < fuel
      → Safe (read_extension fuel kind ext_type s c)
  unfolding read_extension
  read_extension-Safe fuel kind ext_type s c f h = elim (Bool-cases (eqb ext_type 0x000a)) [
    | inl groups ↦
        rw groups
          (Ensures-bind _ (read_codes-Safe fuel s.supported_groups c f h) λ _ c' f'. returns _ _ f')
    | inr no_groups ↦ rw no_groups (elim (Bool-cases (eqb ext_type 0x000d)) [
      | inl schemes ↦ rw schemes (
          Ensures-bind _ (read_codes-Safe fuel s.signature_schemes c f h) λ _ c' f'. returns _ _ f')
      | inr no_schemes ↦ rw no_schemes (elim (Bool-cases (eqb ext_type 0x002b)) [
        | inl versions ↦ rw versions (
            Ensures-bind _ (read_versions-Safe fuel kind s.supported_versions c f h)
              λ _ c' f'. returns _ _ f')
        | inr unknown ↦ rw unknown (returns _ _ f)
      ])
    ])
  ]

  -- Each round moves the cursor four bytes or more: past the type and the length at least, to the
  -- declared end, wherever the body of the extension left it.
  read_extensions-Ensures :
      (fuel inner : ℕ) (kind : HandshakeKind) (ext_end : ℕ) (s : HandshakeSummary) (c : Cursor)
      → c.buf ≡ b
      → ext_end ≤ length b
      → ext_end - c.pos < fuel
      → length b < inner
      → Ensures (λ _ c'. c'.buf ≡ b) (read_extensions fuel inner kind ext_end s c)
  unfolding read_extensions
  read_extensions-Ensures zero inner kind ext_end s c f le h k = absurd (omega arith)
  read_extensions-Ensures (suc fuel) inner kind ext_end s c f le h k =
      elim (Bool-cases (ltb c.pos ext_end)) [
        | inr done ↦ rw (done, read_extensions) (returns _ _ f)
        | inl more ↦
            rw (more, read_extensions)
              (Ensures-bind _ (read_u16-Ensures c) λ ext_type c₁ m₁.
                Ensures-bind _ (read_u16-Ensures c₁) λ ext_len c₂ m₂.
                  let f₂ : Fits b c₂ = ground arith in
                  Ensures-bind _ (read_extension-Safe inner kind ext_type s c₂ f₂ k) λ s' c₃ f₃.
                    read_extensions-Ensures fuel inner kind ext_end s'
                      (record c₃ { pos = c₂.pos + ext_len }) f₃.same_buf le (ground arith) k)
      ]

  read_block-Ensures :
      (fuel : ℕ) (kind : HandshakeKind) (s : HandshakeSummary) (c : Cursor)
      → Fits b c
      → length b < fuel
      → Ensures (λ _ c'. c'.buf ≡ b) (read_block fuel kind s c)
  unfolding read_block remaining
  read_block-Ensures fuel kind s c f h = elim (Bool-cases (ltb (length c.buf - c.pos) 2)) [
    | inl short ↦ rw short (returns _ _ f.same_buf)
    | inr long ↦ rw long (
        Ensures-bind _ (read_u16-Ensures c) λ ext_bytes c₁ m₁.
          elim (Bool-cases (ltb (length c₁.buf - c₁.pos) ext_bytes)) [
            | inl over ↦ rw over (fails _)
            | inr room ↦ rw room (
                read_extensions-Ensures fuel fuel kind (c₁.pos + ext_bytes) s c₁ (ground arith)
                  (ground arith) (ground arith) h)
          ])
  ]

  read_header-Safe : (c : Cursor) → Fits b c → Safe (read_header c)
  unfolding read_header
  read_header-Safe c f = Ensures-bind _ (read_u8-Ensures c) λ kind_byte c₁ m₁.
      Ensures-bind _ (kind_of-Safe kind_byte c₁ (Moved-Fits f m₁)) λ kind c₂ f₂.
        Ensures-bind _ (read_u24-Ensures c₂) λ total_len c₃ m₃.
          Ensures-bind _ (reject-Safe (ltb (remaining c₃) total_len) _ c₃ (Moved-Fits f₂ m₃))
            λ _ c₄ f₄. Ensures-bind _ (read_u16-Ensures c₄) λ legacy_version c₅ m₅.
              Ensures-bind _ (advance-Safe 32 c₅ (Moved-Fits f₄ m₅)) λ _ c₆ f₆.
                Ensures-bind _ (read_u8-Ensures c₆) λ sid_len c₇ m₇.
                  Ensures-bind _ (advance-Safe sid_len c₇ (Moved-Fits f₆ m₇))
                    λ _ c₈ f₈. returns _ _ f₈

  parse_with-Ensures :
      (fuel : ℕ) (c : Cursor)
      → Fits b c
      → length b < fuel
      → Ensures (λ _ c'. c'.buf ≡ b) (parse_with fuel c)
  unfolding parse_with
  parse_with-Ensures fuel c f h = Ensures-bind _ (read_header-Safe c f) λ s c₁ f₁.
      Ensures-bind _ (read_suites-Safe s.msg_kind s c₁ f₁)
        λ s' c₂ f₂. read_block-Ensures fuel s.msg_kind s' c₂ f₂ h

outcome_of-cases :
    {P : HandshakeSummary → Cursor → Type 0} {r : Outcome (HandshakeSummary × Cursor)}
    → Ensures P r
    → ((s : HandshakeSummary) × (outcome_of r ≡ ok s)) ⊎ ((e : ParseError) × (outcome_of r ≡ err e))
outcome_of-cases (returns s c p) = inl (s, refl)
outcome_of-cases (fails e) = inr (e, refl)

-- On every buffer the parser returns a summary or one of its errors: it never indexes the buffer
-- out of range, and its loops end within the fuel that the length of the buffer gives.
pub parse_handshake_total :
    (buf : List ℕ)
    → ((s : HandshakeSummary) × (parse_handshake buf ≡ ok s))
      ⊎ ((e : ParseError) × (parse_handshake buf ≡ err e))
unfolding parse_handshake
parse_handshake_total buf = outcome_of-cases (
    parse_with-Ensures buf (length buf + 1) (record { buf = buf; pos = 0 })
      (record { same_buf = refl; inside = omega arith }) (omega arith))
