-- ===== src/Base/Dict.antt =====
-- Hash maps as association lists. The order of the list stands for the map's iteration order.
use ree0x_q.Base.Tests.{Eq, ◌==◌, if◌then◌else◌}
use ree0x_q.Base.Lists.{length}
use ree0x_q.Base.Split.{Bool-cases}
use Prim.Native.Nat.{◌+◌, ◌≤◌}
use mathlib.Core.Path.{◌≡◌, refl}
use mathlib.Core.Logic.{inl, inr}
use mathlib.Core.Bool.{Bool}
use mathlib.Core.List.{List, [], ◌∷◌}
use mathlib.Core.Option.{Option, none, some}
use native.Mathlib.Omega.{arith}

abbrev pub keep_if {ℓ} : {V : Type ℓ} → Bool → V → Option V
keep_if b val = if b then some val else none

module _ {ℓ κ} {K : Type ℓ} {V : Type κ} ⦃e : Eq K⦄ where
  unfoldable pub lookup : K → List (K × V) → Option V
  lookup key [] = none
  lookup key ((j, val) ∷ rest) = if j == key then some val else lookup key rest

  unfoldable pub insert : K → V → List (K × V) → List (K × V)
  insert key val [] = (key, val) ∷ []
  insert key val ((j, w) ∷ rest) =
      if j == key then (key, val) ∷ rest else (j, w) ∷ insert key val rest

  unfoldable pub remove : K → List (K × V) → List (K × V)
  remove key [] = []
  remove key ((j, w) ∷ rest) = if j == key then remove key rest else (j, w) ∷ remove key rest

  unfoldable pub retain : (K → V → Bool) → List (K × V) → List (K × V)
  retain p [] = []
  retain p ((j, w) ∷ rest) = if p j w then (j, w) ∷ retain p rest else retain p rest

  -- No key twice.
  abbrev pub Distinct : List (K × V) → Type (ℓ ⊔ κ)
  Distinct [] = Unit
  Distinct ((key, val) ∷ rest) = (lookup key rest ≡ none) × Distinct rest

  pub lookup-insert :
      (key j : K) (val : V) (rest : List (K × V))
      → lookup j (insert key val rest) ≡ (if key == j then some val else lookup j rest)
  unfolding lookup insert
  lookup-insert key j val [] = refl
  lookup-insert key j val ((i, w) ∷ rest) =
      ground (arith, e.beq_iff key j, e.beq_iff i key, e.beq_iff i j, lookup-insert key j val rest)

  pub lookup-insert_self :
      (key : K) (val : V) (rest : List (K × V)) → lookup key (insert key val rest) ≡ some val
  lookup-insert_self key val rest =
      ground (arith, e.beq_iff key key, lookup-insert key key val rest)

  pub lookup-remove :
      (key j : K) (rest : List (K × V))
      → lookup j (remove key rest) ≡ (if key == j then none else lookup j rest)
  unfolding lookup remove
  lookup-remove key j [] = ground arith
  lookup-remove key j ((i, w) ∷ rest) =
      ground (arith, e.beq_iff key j, e.beq_iff i key, e.beq_iff i j, lookup-remove key j rest)

  -- What `retain` leaves of an entry.
  abbrev pub kept : (K → V → Bool) → K → Option V → Option V
  kept p key none = none
  kept p key (some val) = keep_if (p key val) val

  pub lookup-retain_absent :
      (p : K → V → Bool) (key : K) (rest : List (K × V))
      → lookup key rest ≡ none
      → lookup key (retain p rest) ≡ none
  unfolding lookup retain
  lookup-retain_absent p key [] h = refl
  lookup-retain_absent p key ((i, w) ∷ rest) h =
      ground (arith, e.beq_iff i key, lookup-retain_absent p key rest)

  pub lookup-retain :
      (p : K → V → Bool) (key : K) (rest : List (K × V))
      → Distinct rest
      → lookup key (retain p rest) ≡ kept p key (lookup key rest)
  unfolding lookup retain
  lookup-retain p key [] d = refl
  lookup-retain p key ((i, w) ∷ rest) d = elim (Bool-cases (i == key)) [
    | inl same ↦
        let i_is_k : i ≡ key = (e.beq_iff i key).0 same in
        ground
          (arith, same, i_is_k, lookup-retain_absent p i rest d.0, lookup-retain_absent p key rest)
    | inr other ↦ ground (arith, other, lookup-retain p key rest d.1)
  ]

  pub insert-Distinct :
      (key : K) (val : V) (rest : List (K × V)) → Distinct rest → Distinct (insert key val rest)
  unfolding lookup insert
  insert-Distinct key val [] d = (refl, tt)
  insert-Distinct key val ((i, w) ∷ rest) d = ground (
    arith,
    e.beq_iff i key,
    e.beq_iff key i,
    lookup-insert key i val rest,
    insert-Distinct key val rest d.1,
  )

  pub remove-Distinct : (key : K) (rest : List (K × V)) → Distinct rest → Distinct (remove key rest)
  unfolding lookup remove
  remove-Distinct key [] d = tt
  remove-Distinct key ((i, w) ∷ rest) d = ground (
    arith,
    e.beq_iff i key,
    e.beq_iff key i,
    lookup-remove key i rest,
    remove-Distinct key rest d.1,
  )

  pub retain-Distinct :
      (p : K → V → Bool) (rest : List (K × V)) → Distinct rest → Distinct (retain p rest)
  unfolding retain
  retain-Distinct p [] d = tt
  retain-Distinct p ((i, w) ∷ rest) d =
      ground (arith, lookup-retain_absent p i rest d.0, retain-Distinct p rest d.1)

  pub length-insert :
      (key : K) (val : V) (rest : List (K × V)) → length (insert key val rest) ≤ length rest + 1
  unfolding insert
  length-insert key val [] = omega arith
  length-insert key val ((i, w) ∷ rest) = ground (arith, length-insert key val rest)

  pub length-remove-le : (key : K) (rest : List (K × V)) → length (remove key rest) ≤ length rest
  unfolding remove
  length-remove-le key [] = omega arith
  length-remove-le key ((i, w) ∷ rest) = ground (arith, length-remove-le key rest)

  pub length-retain-le :
      (p : K → V → Bool) (rest : List (K × V)) → length (retain p rest) ≤ length rest
  unfolding retain
  length-retain-le p [] = omega arith
  length-retain-le p ((i, w) ∷ rest) = ground (arith, length-retain-le p rest)

  -- Removing a key that is present makes room.
  pub length-remove-lt :
      (key : K) (rest : List (K × V)) (val : V)
      → lookup key rest ≡ some val
      → length (remove key rest) + 1 ≤ length rest
  unfolding lookup remove
  length-remove-lt key [] val h = absurd (ground arith)
  length-remove-lt key ((i, w) ∷ rest) val h =
      ground (arith, length-remove-le key rest, length-remove-lt key rest val)
