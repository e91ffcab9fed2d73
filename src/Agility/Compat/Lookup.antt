-- ===== src/Agility/Compat/Lookup.antt =====
-- The lookup of a pair against the listing of a stack.
use ree0x_q.Base.{
  ℕ, ◌≡◌, ◌↔◌, ◌⊎◌, refl, sym, ap, ◌∙◌, true, String, none, some, List, [], ◌∷◌, inl, inr,
  Bool-cases, same_codes, All, arith, ◌==◌,
}
use ree0x_q.Base.Dict
use mathlib.Core.Path.{subst}
use ree0x_q.Agility.CompatKey.{CompatKey, compat_key_eq, same_codes_refl, same_codes_sound}
use ree0x_q.Agility.Compat.{
  CompatEntry, Matrix, key, lower_codes, entries, add_all, build_matrix, lookup, with_stack,
  list_stack,
}

abbrev pub Lists : CompatEntry → List CompatEntry → Type 0
Lists e [] = ⊥
Lists e (x ∷ xs) = (x ≡ e) ⊎ Lists e xs

-- Each entry stands under its own names.
abbrev IsKeyed : Matrix → Type 0
IsKeyed m = All (λ pair. pair.0 ≡ key pair.1.stack pair.1.algorithm) m

insert-IsKeyed :
    (e : CompatEntry) (m : Matrix) → IsKeyed m → IsKeyed (Dict.insert (key e.stack e.algorithm) e m)
unfolding Dict.insert
insert-IsKeyed e [] h = (refl, tt)
insert-IsKeyed e ((k, x) ∷ m) h = elim (Bool-cases (k == key e.stack e.algorithm)) [
  | inl same ↦ rw same (refl, h.1)
  | inr other ↦ rw other (h.0, insert-IsKeyed e m h.1)
]

add_all-IsKeyed :
    (m : Matrix) (es : List CompatEntry)
    → IsKeyed m
    → Dict.Distinct m
    → IsKeyed (add_all m es) × Dict.Distinct (add_all m es)
add_all-IsKeyed m [] h d = (h, d)
add_all-IsKeyed m (e ∷ es) h d =
    add_all-IsKeyed (Dict.insert (key e.stack e.algorithm) e m) es (insert-IsKeyed e m h)
      (Dict.insert-Distinct (key e.stack e.algorithm) e m d)

lookup-Lists :
    (k : CompatKey) (e : CompatEntry) (m : Matrix)
    → IsKeyed m
    → Dict.lookup k m ≡ some e
    → Lists e (with_stack k.stack m) × (k ≡ key e.stack e.algorithm)
unfolding Dict.lookup
lookup-Lists k e [] h found = absurd (ground (arith, found))
lookup-Lists k e ((j, x) ∷ m) h found = elim (Bool-cases (j == k)) [
  | inl same ↦
      let j_is_k : j ≡ k = (compat_key_eq.beq_iff j k).0 same in
      let x_is_e : x ≡ e = ground (arith, same, found) in
      let stack_same : same_codes j.stack k.stack ≡ true =
        subst (λ y. same_codes y.stack k.stack ≡ true) (sym j_is_k) (same_codes_refl k.stack) in
      (rw stack_same (inl x_is_e), sym j_is_k ∙ h.0 ∙ ap (λ y. key y.stack y.algorithm) x_is_e)
  | inr other ↦
      let rest = lookup-Lists k e m h.1 (rw other at found) in
      (
        elim (Bool-cases (same_codes j.stack k.stack)) [
          | inl near ↦ rw near (inr rest.0)
          | inr far ↦ rw far rest.0
        ],
        rest.1,
      )
]

-- An entry behind the head is found behind it, for the head has another key.
lookup_later :
    (stack : List ℕ) (e : CompatEntry) (j : CompatKey) (x : CompatEntry) (m : Matrix)
    → Dict.lookup j m ≡ none
    → Dict.lookup (record { stack = stack; algorithm = lower_codes e.algorithm }) m ≡ some e
    → Dict.lookup (record { stack = stack; algorithm = lower_codes e.algorithm }) ((j, x) ∷ m)
      ≡ some e
unfolding Dict.lookup
lookup_later stack e j x m absent rest =
    let k : CompatKey = record { stack = stack; algorithm = lower_codes e.algorithm } in
    elim (Bool-cases (j == k)) [
      | inl same ↦
          let j_is_k : j ≡ k = (compat_key_eq.beq_iff j k).0 same in
          let missing : Dict.lookup k m ≡ none =
            subst (λ y. Dict.lookup y m ≡ none) j_is_k absent in
          absurd (ground (arith, missing, rest))
      | inr other ↦ rw other rest
    ]

lookup_head :
    (stack : List ℕ) (e : CompatEntry) (j : CompatKey) (x : CompatEntry) (m : Matrix)
    → j ≡ key x.stack x.algorithm
    → j.stack ≡ stack
    → x ≡ e
    → Dict.lookup (record { stack = stack; algorithm = lower_codes e.algorithm }) ((j, x) ∷ m)
      ≡ some e
unfolding Dict.lookup
lookup_head stack e j x m keyed near x_is_e =
    let k : CompatKey = record { stack = stack; algorithm = lower_codes e.algorithm } in
    let algorithm_same : j.algorithm ≡ lower_codes e.algorithm =
      ap (λ y. y.algorithm) keyed ∙ ap (λ y. lower_codes y.algorithm) x_is_e in
    let j_is_k : j ≡ k = ground (arith, near, algorithm_same) in
    rw ((compat_key_eq.beq_iff j k).1 j_is_k) (ap some x_is_e)

Lists-lookup :
    (stack : List ℕ) (e : CompatEntry) (m : Matrix)
    → IsKeyed m
    → Dict.Distinct m
    → Lists e (with_stack stack m)
    → Dict.lookup (record { stack = stack; algorithm = lower_codes e.algorithm }) m ≡ some e
unfolding Dict.lookup
Lists-lookup stack e [] h d found = absurd found
Lists-lookup stack e ((j, x) ∷ m) h d found = elim (Bool-cases (same_codes j.stack stack)) [
  | inl near ↦
      let stack_same : j.stack ≡ stack = same_codes_sound j.stack stack near in
      let split : (x ≡ e) ⊎ Lists e (with_stack stack m) = rw near at found in
      elim split [
        | inl x_is_e ↦ lookup_head stack e j x m h.0 stack_same x_is_e
        | inr later ↦ lookup_later stack e j x m d.0 (Lists-lookup stack e m h.1 d.1 later)
      ]
  | inr far ↦
      let later : Lists e (with_stack stack m) = rw far at found in
      lookup_later stack e j x m d.0 (Lists-lookup stack e m h.1 d.1 later)
]

-- The lookup of a pair finds an entry exactly if the listing of the stack has it and its algorithm is
-- the one of the pair up to the case of its letters.
pub lookup-list_stack :
    (stack algorithm : String) (e : CompatEntry)
    → (lookup stack algorithm ≡ some e)
      ↔ (Lists e (list_stack stack) × (lower_codes algorithm ≡ lower_codes e.algorithm))
unfolding lookup list_stack build_matrix
lookup-list_stack stack algorithm e =
    let built = add_all-IsKeyed [] entries tt tt in
    (
      λ found.
          let all = lookup-Lists (key stack algorithm) e build_matrix built.0 found in
          (all.0, ap (λ k. k.algorithm) all.1),
      λ h.
          subst
            (λ a.
              Dict.lookup (record { stack = lower_codes stack; algorithm = a }) build_matrix
              ≡ some e)
            (sym h.1) (Lists-lookup (lower_codes stack) e build_matrix built.0 built.1 h.0),
    )
