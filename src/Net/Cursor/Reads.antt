-- ===== src/Net/Cursor/Reads.antt =====
-- What a read returns when the bytes it asks for stand at the cursor.
use ree0x_q.Base.{
  ℕ, zero, suc, ◌+◌, ◌-◌, ◌*◌, ◌≤◌, List, [], ◌∷◌, ◌++◌, length, get_elem?, drop, ◌≡◌, refl, arith,
  length-drop, length-append, ap, ◌∙◌, ltb, false,
}
use native.Mathlib.Nat.{zero-add, suc-add}
use ree0x_q.Net.Cursor.{Cursor, ok, read_u8, read_u16, read_u24, advance, remaining}

drop-append : (xs rest : List ℕ) → drop (length xs) (xs ++ rest) ≡ rest
drop-append [] rest = refl
drop-append (x ∷ xs) rest = drop-append xs rest

-- What stands at the cursor, up to the end of the buffer.
pub record At (c : Cursor) (rest : List ℕ) : Type 0 where
  pub inside : c.pos ≤ length c.buf
  pub unread : drop c.pos c.buf ≡ rest

abbrev pub moved : Cursor → ℕ → Cursor
moved c n = record c { pos = c.pos + n }

pub remaining-At : (c : Cursor) {rest : List ℕ} → At c rest → remaining c ≡ length rest
unfolding remaining
remaining-At c at = omega (arith, length-drop c.pos c.buf, ap length at.unread)

get_elem?-drop : (n : ℕ) (xs : List ℕ) (i : ℕ) → get_elem? xs (n + i) ≡ get_elem? (drop n xs) i
get_elem?-drop zero xs i = rw zero-add
get_elem?-drop (suc n) [] i = refl
get_elem?-drop (suc n) (x ∷ xs) i = rw suc-add (get_elem?-drop n xs i)

drop-drop : (n i : ℕ) (xs : List ℕ) → drop (n + i) xs ≡ drop i (drop n xs)
drop-drop zero i xs = rw zero-add
drop-drop (suc n) zero [] = rw suc-add refl
drop-drop (suc n) (suc i) [] = rw suc-add refl
drop-drop (suc n) i (x ∷ xs) = rw suc-add (drop-drop n i xs)

-- To skip the bytes of a prefix.
pub At-moved :
    (c : Cursor) (xs : List ℕ) {rest : List ℕ} → At c (xs ++ rest) → At (moved c (length xs)) rest
At-moved c xs {rest} at = record {
  inside = omega (arith, length-drop c.pos c.buf, ap length at.unread, length-append {0} xs rest);
  unread =
      drop-drop c.pos (length xs) c.buf ∙ ap (drop (length xs)) at.unread ∙ drop-append xs rest;
}

module _ (c : Cursor) where
  At-enough : (n : ℕ) {xs : List ℕ} → At c xs → n ≤ length xs → ltb (length c.buf - c.pos) n ≡ false
  At-enough n at h = ground (arith, length-drop c.pos c.buf, ap length at.unread)

  At-byte : (k : ℕ) {xs : List ℕ} → At c xs → get_elem? c.buf (c.pos + k) ≡ get_elem? xs k
  At-byte k at = get_elem?-drop c.pos c.buf k ∙ ap (λ l. get_elem? l k) at.unread

  module _ {rest : List ℕ} where
    pub read_u8-At : (b : ℕ) → At c (b ∷ rest) → read_u8 c ≡ ok (b, moved c 1)
    unfolding read_u8
    read_u8-At b at = rw (At-enough 1 at (omega arith), At-byte 0 at)

    pub read_u16-At :
        (hi lo : ℕ) → At c (hi ∷ lo ∷ rest) → read_u16 c ≡ ok (hi * 256 + lo, moved c 2)
    unfolding read_u16
    read_u16-At hi lo at = rw (At-enough 2 at (omega arith), At-byte 0 at, At-byte 1 at)

    pub read_u24-At :
        (x y z : ℕ) → At c (x ∷ y ∷ z ∷ rest) → read_u24 c ≡ ok (x * 65536 + y * 256 + z, moved c 3)
    unfolding read_u24
    read_u24-At x y z at =
        rw (At-enough 3 at (omega arith), At-byte 0 at, At-byte 1 at, At-byte 2 at)

  pub advance-At :
      (xs rest : List ℕ) → At c (xs ++ rest) → advance (length xs) c ≡ ok (tt, moved c (length xs))
  unfolding advance
  advance-At xs rest at = rw (At-enough (length xs) at (omega (arith, length-append {0} xs rest)))
