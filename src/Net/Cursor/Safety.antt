-- ===== src/Net/Cursor/Safety.antt =====
-- What a read does to the cursor, whatever the buffer holds: it returns an error or moves the
-- position inside the buffer, and never indexes out of range.
use ree0x_q.Base.{
  ℕ, zero, suc, ◌+◌, ◌-◌, ◌≤◌, ◌<◌, List, [], ◌∷◌, some, length, get_elem?, ◌≡◌, refl, arith,
  Bool-cases, inl, inr, ltb,
}
use ree0x_q.Net.Cursor.{
  Cursor, Outcome, ok, err, ParseError, M, bind, read_u8, read_u16, read_u24, advance,
}

-- The outcome is an error, or a result that satisfies `P`: no panic and no exhausted fuel.
pub data Ensures {A : Type 0} (P : A → Cursor → Type 0) : Outcome (A × Cursor) → Type 0 where
  returns : (a : A) (c : Cursor) → P a c → Ensures P (ok (a, c))
  fails : (e : ParseError) → Ensures P (err e)

pub Ensures-bind :
    {A B : Type 0} {P : A → Cursor → Type 0} {Q : B → Cursor → Type 0} {r : Outcome (A × Cursor)}
    (f : A → M B)
    → Ensures P r
    → ((a : A) (c : Cursor) → P a c → Ensures Q (f a c))
    → Ensures Q (bind r f)
Ensures-bind f (returns a c p) k = k a c p
Ensures-bind f (fails e) k = fails e

pub Ensures-weaken :
    {A : Type 0} {P Q : A → Cursor → Type 0} {r : Outcome (A × Cursor)}
    → Ensures P r
    → ((a : A) (c : Cursor) → P a c → Q a c)
    → Ensures Q r
Ensures-weaken (returns a c p) k = returns a c (k a c p)
Ensures-weaken (fails e) k = fails e

-- The cursor moved by `n`, inside the same buffer.
pub record Moved (n : ℕ) (c c' : Cursor) : Type 0 where
  pub same_buf : c'.buf ≡ c.buf
  pub moved_by : c'.pos ≡ c.pos + n
  pub inside : c'.pos ≤ length c.buf

pub get_elem?-lt : (xs : List ℕ) (i : ℕ) → i < length xs → (x : ℕ) × (get_elem? xs i ≡ some x)
get_elem?-lt [] i h = elim h [ ]
get_elem?-lt (x ∷ xs) zero h = (x, refl)
get_elem?-lt (x ∷ xs) (suc i) h = get_elem?-lt xs i (omega arith)

pub read_u8-Ensures : (c : Cursor) → Ensures (λ _ c'. Moved 1 c c') (read_u8 c)
unfolding read_u8
read_u8-Ensures c = elim (Bool-cases (ltb (length c.buf - c.pos) 1)) [
  | inl short ↦ rw short (fails _)
  | inr enough ↦
      let (b, eb) = get_elem?-lt c.buf (c.pos + 0) (ground arith) in
      rw (enough, eb) (returns _ _ (ground arith))
]

pub read_u16-Ensures : (c : Cursor) → Ensures (λ _ c'. Moved 2 c c') (read_u16 c)
unfolding read_u16
read_u16-Ensures c = elim (Bool-cases (ltb (length c.buf - c.pos) 2)) [
  | inl short ↦ rw short (fails _)
  | inr enough ↦
      let (a, ea) = get_elem?-lt c.buf (c.pos + 0) (ground arith) in
      let (b, eb) = get_elem?-lt c.buf (c.pos + 1) (ground arith) in
      rw (enough, ea, eb) (returns _ _ (ground arith))
]

pub read_u24-Ensures : (c : Cursor) → Ensures (λ _ c'. Moved 3 c c') (read_u24 c)
unfolding read_u24
read_u24-Ensures c = elim (Bool-cases (ltb (length c.buf - c.pos) 3)) [
  | inl short ↦ rw short (fails _)
  | inr enough ↦
      let (x, ex) = get_elem?-lt c.buf (c.pos + 0) (ground arith) in
      let (y, ey) = get_elem?-lt c.buf (c.pos + 1) (ground arith) in
      let (z, ez) = get_elem?-lt c.buf (c.pos + 2) (ground arith) in
      rw (enough, ex, ey, ez) (returns _ _ (ground arith))
]

pub advance-Ensures :
    (n : ℕ) (c : Cursor) → c.pos ≤ length c.buf → Ensures (λ _ c'. Moved n c c') (advance n c)
unfolding advance
advance-Ensures n c h = elim (Bool-cases (ltb (length c.buf - c.pos) n)) [
  | inl short ↦ rw short (fails _)
  | inr enough ↦ rw enough (returns _ _ (ground arith))
]
