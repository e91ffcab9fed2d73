-- ===== src/Base/Sort.antt =====
-- The stable sort of `slice::sort_by_key`, by a key in ℕ, and what fixes its result.
use Prim.Native.Nat.{ℕ, ◌≤◌}
use mathlib.Core.Path.{◌≡◌, refl}
use mathlib.Core.Bool.{Bool}
use mathlib.Core.List.{List, [], ◌∷◌}
use mathlib.Core.Logic.{inl, inr}
use native.Mathlib.Omega.{arith}
use ree0x_q.Base.Tests.{leb, eqb, if◌then◌else◌}
use ree0x_q.Base.Lists.{keep, count, All}
use ree0x_q.Base.Split.{Bool-cases}

module _ {ℓ} {A : Type ℓ} (key : A → ℕ) where
  abbrev pub insert_by : A → List A → List A
  insert_by x [] = x ∷ []
  insert_by x (y ∷ ys) = if leb (key x) (key y) then x ∷ y ∷ ys else y ∷ insert_by x ys

  abbrev pub sort_by_key : List A → List A
  sort_by_key [] = []
  sort_by_key (x ∷ xs) = insert_by x (sort_by_key xs)

  -- Each key is at most all that follow.
  abbrev pub IsSorted : List A → Type ℓ
  IsSorted [] = Unit
  IsSorted (x ∷ xs) = All (λ y. key x ≤ key y) xs × IsSorted xs

  -- The elements with one key, in order.
  abbrev pub with_key : ℕ → List A → List A
  with_key k = keep (λ x. eqb (key x) k)

  insert_by-All {κ} :
      (P : A → Type κ) (x : A) (xs : List A) → P x → All P xs → All P (insert_by x xs)
  insert_by-All P x [] p h = (p, tt)
  insert_by-All P x (y ∷ ys) p h = elim (Bool-cases (leb (key x) (key y))) [
    | inl le ↦ rw le (p, h)
    | inr gt ↦ rw gt (h.0, insert_by-All P x ys p h.1)
  ]

  pub sort_by_key-All {κ} : (P : A → Type κ) (xs : List A) → All P xs → All P (sort_by_key xs)
  sort_by_key-All P [] h = tt
  sort_by_key-All P (x ∷ xs) h = insert_by-All P x (sort_by_key xs) h.0 (sort_by_key-All P xs h.1)

  All-le : (a b : ℕ) (xs : List A) → a ≤ b → All (λ y. b ≤ key y) xs → All (λ y. a ≤ key y) xs
  All-le a b [] le h = tt
  All-le a b (x ∷ xs) le h = (omega (arith, h.0), All-le a b xs le h.1)

  insert_by-IsSorted : (x : A) (xs : List A) → IsSorted xs → IsSorted (insert_by x xs)
  insert_by-IsSorted x [] h = (tt, tt)
  insert_by-IsSorted x (y ∷ ys) h = elim (Bool-cases (leb (key x) (key y))) [
    | inl le ↦
        let below : key x ≤ key y = ground arith in
        rw le ((below, All-le (key x) (key y) ys below h.0), h)
    | inr gt ↦
        let above : key y ≤ key x = ground arith in
        rw gt (insert_by-All (λ z. key y ≤ key z) x ys above h.0, insert_by-IsSorted x ys h.1)
  ]

  pub sort_by_key-IsSorted : (xs : List A) → IsSorted (sort_by_key xs)
  sort_by_key-IsSorted [] = tt
  sort_by_key-IsSorted (x ∷ xs) = insert_by-IsSorted x (sort_by_key xs) (sort_by_key-IsSorted xs)

  with_key-insert_by :
      (k : ℕ) (x : A) (xs : List A) → with_key k (insert_by x xs) ≡ with_key k (x ∷ xs)
  with_key-insert_by k x [] = refl
  with_key-insert_by k x (y ∷ ys) = ground (arith, with_key-insert_by k x ys)

  pub with_key-sort_by_key : (k : ℕ) (xs : List A) → with_key k (sort_by_key xs) ≡ with_key k xs
  with_key-sort_by_key k [] = refl
  with_key-sort_by_key k (x ∷ xs) =
      ground (arith, with_key-insert_by k x (sort_by_key xs), with_key-sort_by_key k xs)

  count-insert_by :
      (p : A → Bool) (x : A) (xs : List A) → count p (insert_by x xs) ≡ count p (x ∷ xs)
  count-insert_by p x [] = refl
  count-insert_by p x (y ∷ ys) = ground (arith, count-insert_by p x ys)

  pub count-sort_by_key : (p : A → Bool) (xs : List A) → count p (sort_by_key xs) ≡ count p xs
  count-sort_by_key p [] = refl
  count-sort_by_key p (x ∷ xs) =
      ground (arith, count-insert_by p x (sort_by_key xs), count-sort_by_key p xs)

  keep-All {κ} : (P : A → Type κ) (p : A → Bool) (xs : List A) → All P xs → All P (keep p xs)
  keep-All P p [] h = tt
  keep-All P p (x ∷ xs) h = elim (Bool-cases (p x)) [
    | inl stays ↦ rw stays (h.0, keep-All P p xs h.1)
    | inr goes ↦ rw goes (keep-All P p xs h.1)
  ]

  pub keep-IsSorted : (p : A → Bool) (xs : List A) → IsSorted xs → IsSorted (keep p xs)
  keep-IsSorted p [] h = tt
  keep-IsSorted p (x ∷ xs) h = elim (Bool-cases (p x)) [
    | inl stays ↦ rw stays (keep-All (λ y. key x ≤ key y) p xs h.0, keep-IsSorted p xs h.1)
    | inr goes ↦ rw goes (keep-IsSorted p xs h.1)
  ]
