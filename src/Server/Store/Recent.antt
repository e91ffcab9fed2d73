-- ===== src/Server/Store/Recent.antt =====
-- `recent` returns the newest arrivals first.
use mathlib.Core.List.{reverse, reverse-append}
use ree0x_q.Base.{
  ℕ, zero, suc, ◌-◌, ◌≤◌, ◌<◌, List, [], ◌∷◌, ◌++◌, ◌≡◌, refl, sym, ap, ◌∙◌, arith, length, drop,
  length-append, length-drop, ◌⊎◌, inl, inr,
}
use ree0x_q.Core.{CryptoInventoryEvent}
use ree0x_q.Server.Store.{recent, new, append_all}
use ree0x_q.Server.Store.Newest.{log-append_all}

le-or-lt : (a b : ℕ) → (a ≤ b) ⊎ (b < a)
le-or-lt a b = omega arith

module _ {ℓ} {A : Type ℓ} where
  abbrev pub take : ℕ → List A → List A
  take zero xs = []
  take (suc n) [] = []
  take (suc n) (x ∷ xs) = x ∷ take n xs

  take-append-drop : (n : ℕ) (xs : List A) → take n xs ++ drop n xs ≡ xs
  take-append-drop zero xs = refl
  take-append-drop (suc n) [] = refl
  take-append-drop (suc n) (x ∷ xs) = rw (take-append-drop n xs)

  -- A take that stops exactly at the end of the first part, or that takes everything.
  take-append_exact : (n : ℕ) (xs ys : List A) → length xs ≡ n → take n (xs ++ ys) ≡ xs
  take-append_exact zero [] ys h = refl
  take-append_exact zero (x ∷ xs) ys h = absurd (omega arith)
  take-append_exact (suc n) [] ys h = absurd (omega arith)
  take-append_exact (suc n) (x ∷ xs) ys h = ap (◌∷◌ x) (take-append_exact n xs ys (omega arith))

  take_all : (n : ℕ) (xs : List A) → length xs ≤ n → take n xs ≡ xs
  take_all zero [] h = refl
  take_all zero (x ∷ xs) h = absurd (omega arith)
  take_all (suc n) [] h = refl
  take_all (suc n) (x ∷ xs) h = ap (◌∷◌ x) (take_all n xs (omega arith))

  length-reverse : (xs : List A) → length (reverse xs) ≡ length xs
  length-reverse [] = refl
  length-reverse (x ∷ xs) =
      ap length (reverse-append (x ∷ []) xs)
      ∙ length-append (reverse xs) (x ∷ [])
      ∙ omega (arith, length-reverse xs)

  drop_zero : (n : ℕ) (xs : List A) → n ≡ 0 → drop n xs ≡ xs
  drop_zero zero xs h = refl
  drop_zero (suc n) xs h = absurd (omega arith)

  reverse-drop : (n : ℕ) (xs : List A) → reverse (drop (length xs - n) xs) ≡ take n (reverse xs)
  reverse-drop n xs = elim (le-or-lt n (length xs)) [
    | inl le ↦
        let k = length xs - n in
        let whole : reverse xs ≡ reverse (drop k xs) ++ reverse (take k xs) =
          ap reverse (sym (take-append-drop k xs)) ∙ reverse-append (take k xs) (drop k xs) in
        rw whole (
          sym (
            take-append_exact n (reverse (drop k xs)) (reverse (take k xs))
              (length-reverse (drop k xs) ∙ length-drop k xs ∙ omega arith)))
    | inr lt ↦
        rw (drop_zero (length xs - n) xs (omega arith))
          (sym (take_all n (reverse xs) (omega (arith, length-reverse xs))))
  ]

-- `recent` gives the last `limit` events that were appended, the last one first, or all of them if
-- there are fewer.
pub recent-append_all :
    (evs : List CryptoInventoryEvent) (limit : ℕ)
    → recent (append_all new evs) limit ≡ take limit (reverse evs)
unfolding recent
recent-append_all evs limit = rw (log-append_all new evs) (reverse-drop limit evs)
