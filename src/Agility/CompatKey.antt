-- ===== src/Agility/CompatKey.antt =====
-- The keys of the compatibility matrix: two names in lower case, as code points.
use ree0x_q.Base.{ℕ, Bool, true, ◌&&◌, ◌≡◌, ◌↔◌, refl, List, [], ◌∷◌, same_codes, Eq, arith}

pub record CompatKey : Type 0 where
  pub stack : List ℕ
  pub algorithm : List ℕ

pub same_codes_refl : (xs : List ℕ) → same_codes xs xs ≡ true
same_codes_refl [] = refl
same_codes_refl (x ∷ xs) = ground (arith, same_codes_refl xs)

pub same_codes_sound : (xs ys : List ℕ) → same_codes xs ys ≡ true → xs ≡ ys
same_codes_sound [] [] h = refl
same_codes_sound [] (y ∷ ys) h = absurd (ground (arith, h))
same_codes_sound (x ∷ xs) [] h = absurd (ground (arith, h))
same_codes_sound (x ∷ xs) (y ∷ ys) h = ground (arith, h, same_codes_sound xs ys)

abbrev pub compat_key_beq : CompatKey → CompatKey → Bool
compat_key_beq a b = same_codes a.stack b.stack && same_codes a.algorithm b.algorithm

pub compat_key_beq_iff : (a b : CompatKey) → (compat_key_beq a b ≡ true) ↔ (a ≡ b)
compat_key_beq_iff a b = (
  λ h.
      ground (arith, h, same_codes_sound a.stack b.stack, same_codes_sound a.algorithm b.algorithm),
  λ e. rw e (ground (arith, same_codes_refl b.stack, same_codes_refl b.algorithm)),
)

instance abbrev pub compat_key_eq : Eq CompatKey
compat_key_eq = record { beq = compat_key_beq; beq_iff = compat_key_beq_iff }
