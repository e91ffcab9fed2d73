-- ===== src/Net/Cursor.antt =====
-- `Cursor` and `ParseError` of crates/ree0xq-net/src/tls/mod.rs. A read is a function of the
-- cursor. Indexing the buffer out of range is a panic, told apart from the errors that the parser
-- returns; `stalled` marks a loop that ran out of fuel.
pub mod Safety
pub mod Reads
use ree0x_q.Base.{ℕ, ◌+◌, ◌-◌, ◌*◌, Option, some, none, List, length, get_elem?, ltb, if◌then◌else◌}

pub data ParseError : Type 0 where
  truncated : ℕ → ℕ → ParseError
  unsupported_kind : ℕ → ParseError
  length_mismatch : ℕ → ℕ → ParseError

pub record Cursor : Type 0 where
  pub buf : List ℕ
  pub pos : ℕ

pub data Outcome {ℓ} (A : Type ℓ) : Type ℓ where
  ok : A → Outcome A
  err : ParseError → Outcome A
  panic : Outcome A
  stalled : Outcome A

abbrev pub M : Type 0 → Type 0
M A = Cursor → Outcome (A × Cursor)

abbrev pub bind : {A B : Type 0} → Outcome (A × Cursor) → (A → M B) → Outcome (B × Cursor)
bind (ok (a, c)) f = f a c
bind (err e) f = err e
bind panic f = panic
bind stalled f = stalled

infixl 5 ◌>>=◌ ◌>>◌
abbrev pub ◌>>=◌ : {A B : Type 0} → M A → (A → M B) → M B
◌>>=◌ m f c = bind (m c) f

abbrev pub ◌>>◌ : {B : Type 0} → M (Unit {0}) → M B → M B
m >> k = m >>= λ _. k

abbrev pub pure : {A : Type 0} → A → M A
pure a c = ok (a, c)

abbrev pub throw : {A : Type 0} → ParseError → M A
throw e c = err e

-- The cursor's position, and an assignment to it.
abbrev pub position : M ℕ
position c = ok (c.pos, c)

abbrev pub seek : ℕ → M (Unit {0})
seek p c = ok (tt, record c { pos = p })

unfoldable pub remaining : Cursor → ℕ
remaining c = length c.buf - c.pos

abbrev pub get_remaining : M ℕ
get_remaining c = ok (remaining c, c)

unfoldable pub need : ℕ → M (Unit {0})
unfolding remaining
need n c = if ltb (remaining c) n then err (truncated c.pos (n - remaining c)) else ok (tt, c)

abbrev pub found : Option ℕ → M ℕ
found none c = panic
found (some b) c = ok (b, c)

-- `self.buf[self.pos + k]`
unfoldable pub byte_at : ℕ → M ℕ
byte_at k c = found (get_elem? c.buf (c.pos + k)) c

unfoldable pub bump : ℕ → M (Unit {0})
bump n c = ok (tt, record c { pos = c.pos + n })

unfoldable pub read_u8 : M ℕ
unfolding need byte_at bump
read_u8 = do need 1; v ← byte_at 0; bump 1; pure v

unfoldable pub read_u16 : M ℕ
unfolding need byte_at bump
read_u16 = do need 2; hi ← byte_at 0; lo ← byte_at 1; bump 2; pure (hi * 256 + lo)

unfoldable pub read_u24 : M ℕ
unfolding need byte_at bump
read_u24 = do
  need 3
  a ← byte_at 0
  b ← byte_at 1
  c ← byte_at 2
  bump 3
  pure (a * 65536 + b * 256 + c)

unfoldable pub advance : ℕ → M (Unit {0})
unfolding need bump
advance n = do need n; bump n
