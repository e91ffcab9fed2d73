-- ===== src/Server/Routes/Horizon.antt =====
-- What the deadlines route lists.
use ree0x_q.Base.{
  ℕ, ◌+◌, ◌*◌, ◌≤◌, ◌≡◌, refl, ap, ◌∙◌, Bool, true, ◌&&◌, String, Option, none, some, List, [], ◌∷◌,
  length, count, keep, All, leb_iff, IsSorted, sort_by_key, sort_by_key-IsSorted, count-sort_by_key,
  eqb, arith, with_key, with_key-sort_by_key, keep-IsSorted, keep-All_pass, keep-keep, length-keep,
}
use ree0x_q.Core.{DateTime}
use ree0x_q.Agility.Deadlines.{
  DeadlineEntry, entries, effective, build_table, all, for_jurisdiction, has_jurisdiction,
  in_window,
}
use ree0x_q.Server.Routes.{
  DeadlinesQuery, DeadlinesResponse, agility_deadlines, listed_deadlines, deadlines_response,
  retained,
}

abbrev pub in_jurisdiction : Option String → DeadlineEntry → Bool
in_jurisdiction none e = true
in_jurisdiction (some prefix) e = has_jurisdiction prefix e

-- The end of the window, in nanoseconds.
abbrev pub end_of : DateTime → ℕ → DateTime
end_of now days = now + days * 86_400_000_000_000

abbrev pub in_horizon : DateTime → Option ℕ → DeadlineEntry → Bool
in_horizon now none e = true
in_horizon now (some days) e = in_window now (end_of now days) e

-- The conditions of a query on an entry.
abbrev pub matches : DateTime → DeadlinesQuery → DeadlineEntry → Bool
matches now q e = in_jurisdiction q.jurisdiction e && in_horizon now q.horizon_days e

-- The end of the window is a date.
abbrev pub IsInRange : DateTime → DateTime → Option ℕ → Type 0
IsInRange max_utc now none = Unit
IsInRange max_utc now (some days) = end_of now days ≤ max_utc

keep_all {ℓ} : {A : Type ℓ} (xs : List A) → xs ≡ keep (λ x. true) xs
keep_all [] = refl
keep_all (x ∷ xs) = ap (λ ys. x ∷ ys) (keep_all xs)

listed_deadlines-keep :
    (jurisdiction : Option String)
    → listed_deadlines jurisdiction ≡ keep (in_jurisdiction jurisdiction) build_table
unfolding listed_deadlines all for_jurisdiction
listed_deadlines-keep none = keep_all build_table
listed_deadlines-keep (some prefix) = refl

retained-keep :
    (max_utc now : DateTime) (horizon : Option ℕ) (items : List DeadlineEntry)
    → IsInRange max_utc now horizon
    → retained max_utc now horizon items ≡ some (keep (in_horizon now horizon) items)
retained-keep max_utc now none items h = ap some (keep_all items)
retained-keep max_utc now (some days) items h = rw ((leb_iff (end_of now days) max_utc).1 h) refl

keep_comm {ℓ} :
    {A : Type ℓ} (p q : A → Bool) (xs : List A) → keep p (keep q xs) ≡ keep q (keep p xs)
keep_comm p q [] = refl
keep_comm p q (x ∷ xs) = ground (arith, keep_comm p q xs)

-- Those of one date among the kept entries of the sorted table.
with_key-keep :
    (p : DeadlineEntry → Bool) (xs : List DeadlineEntry) (day : DateTime)
    → with_key effective day (keep p (sort_by_key effective xs))
      ≡ with_key effective day (keep p xs)
with_key-keep p xs day =
    let on_day : DeadlineEntry → Bool = λ e. eqb (effective e) day in
    keep_comm on_day p (sort_by_key effective xs)
    ∙ ap (keep p) (with_key-sort_by_key effective day xs)
    ∙ keep_comm p on_day xs

-- Where the end of the window is a date, the route answers with the entries of the written table that
-- match the query, in the order of their dates, those of one date in the table's order; none is left
-- out, repeated or changed, and the count is their number.
pub agility_deadlines-IsSorted :
    (max_utc now : DateTime) (q : DeadlinesQuery)
    → IsInRange max_utc now q.horizon_days
    → (r : DeadlinesResponse) × (agility_deadlines max_utc now q ≡ some r)
      × IsSorted effective r.items
      × ((day : DateTime)
          → with_key effective day r.items ≡ with_key effective day (keep (matches now q) entries))
      × All (λ e. matches now q e ≡ true) r.items
      × (r.count ≡ count (matches now q) entries)
      × (r.count ≡ length r.items)
unfolding agility_deadlines build_table
agility_deadlines-IsSorted max_utc now q h =
    let table : List DeadlineEntry = sort_by_key effective entries in
    let items : List DeadlineEntry = keep (matches now q) table in
    let same : retained max_utc now q.horizon_days (listed_deadlines q.jurisdiction) ≡ some items =
      retained-keep max_utc now q.horizon_days (listed_deadlines q.jurisdiction) h
      ∙ ap (λ xs. some (keep (in_horizon now q.horizon_days) xs))
          (listed_deadlines-keep q.jurisdiction)
      ∙ ap some
          (keep-keep (in_horizon now q.horizon_days) (in_jurisdiction q.jurisdiction) table) in
    (
      deadlines_response items,
      rw same refl,
      keep-IsSorted effective (matches now q) table (sort_by_key-IsSorted effective entries),
      λ day. with_key-keep (matches now q) entries day,
      keep-All_pass (matches now q) table,
      length-keep (matches now q) table ∙ count-sort_by_key effective (matches now q) entries,
      refl,
    )
