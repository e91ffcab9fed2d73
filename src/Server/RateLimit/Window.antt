-- ===== src/Server/RateLimit/Window.antt =====
-- The limiter against the history of what it allowed.
use ree0x_q.Base.{
  ℕ, ◌≤◌, ◌<◌, Bool, false, String, List, [], ◌∷◌, ◌++◌, length, keep, count, length-keep,
  count-append, ltb, leb, ◌≡◌, refl, arith, if◌then◌else◌, string_eq, ◌==◌, Bool-cases,
  Option-cases, inl, inr, ◌∙◌, sym, ap, ltb_iff,
}
use mathlib.Core.List.{append-nil}
use ree0x_q.Base.Dict
use ree0x_q.Server.RateLimit.{
  RateLimiter, new, is_live, any_live, bound_keys, hits_of, live_hits, store, check_at,
  key_soft_cap,
}

-- The requests allowed so far, each a key and its time, the first first.
abbrev pub History : Type 0
History = List (String × ℕ)

-- The times at which the key was allowed.
pub times : String → History → List ℕ
times key [] = []
times key ((k, t) ∷ h) = if k == key then t ∷ times key h else times key h

-- A run of requests: the limiter and the history after it.
pub check_all : RateLimiter → History → List (String × ℕ) → RateLimiter × History
check_all l h [] = (l, h)
check_all l h ((key, now) ∷ rest) =
    let (l', allowed) = check_at l key now in
    check_all l' (if allowed then h ++ (key, now) ∷ [] else h) rest

-- The times do not go back, from `start` on.
abbrev pub Monotone : ℕ → List (String × ℕ) → Type 0
Monotone start [] = Unit
Monotone start ((key, now) ∷ rest) = (start ≤ now) × Monotone now rest

-- The clock after a run.
unfoldable pub clock : ℕ → List (String × ℕ) → ℕ
clock start [] = start
clock start ((key, now) ∷ rest) = clock now rest

-- At every time from `start` on, the bucket of each key has the live times of its history.
pub record Tracks (start : ℕ) (l : RateLimiter) (h : History) : Type 0 where
  pub distinct : Dict.Distinct l.buckets
  pub agrees :
      (key : String) (now : ℕ)
      → start ≤ now
      → keep (is_live l.window now) (hits_of (Dict.lookup key l.buckets))
        ≡ keep (is_live l.window now) (times key h)

-- What is live later is live now.
keep-keep_live :
    (window now later : ℕ) (ts : List ℕ)
    → now ≤ later
    → keep (is_live window later) (keep (is_live window now) ts) ≡ keep (is_live window later) ts
keep-keep_live window now later [] h = refl
keep-keep_live window now later (t ∷ ts) h = ground (arith, keep-keep_live window now later ts h)

keep_none_live :
    (window now later : ℕ) (ts : List ℕ)
    → now ≤ later
    → any_live window now ts ≡ false
    → keep (is_live window later) ts ≡ []
unfolding any_live
keep_none_live window now later [] h dead = refl
keep_none_live window now later (t ∷ ts) h dead =
    ground (arith, keep_none_live window now later ts h)

-- Dropping dead keys does not change what is live.
bound_keys-agrees :
    (l : RateLimiter) (key : String) (now later : ℕ)
    → Dict.Distinct l.buckets
    → now ≤ later
    → keep (is_live l.window later) (hits_of (Dict.lookup key (bound_keys l now)))
      ≡ keep (is_live l.window later) (hits_of (Dict.lookup key l.buckets))
unfolding bound_keys
bound_keys-agrees l key now later d h = elim (Bool-cases (leb key_soft_cap (length l.buckets))) [
  | inr few ↦ rw (few, bound_keys)
  | inl many ↦
      rw (many, bound_keys)
        (rw (Dict.lookup-retain (λ _ hits. any_live l.window now hits) key l.buckets d)
          (elim (Option-cases (Dict.lookup key l.buckets)) [
            | inl absent ↦ rw absent
            | inr (hits, found) ↦ rw found (elim (Bool-cases (any_live l.window now hits)) [
              | inl live ↦ rw live
              | inr dead ↦ rw dead (sym (keep_none_live l.window now later hits h dead))
            ])
          ]))
]

bound_keys-Distinct :
    (l : RateLimiter) (now : ℕ) → Dict.Distinct l.buckets → Dict.Distinct (bound_keys l now)
unfolding bound_keys
bound_keys-Distinct l now d =
    ground (arith, Dict.retain-Distinct (λ _ hits. any_live l.window now hits) l.buckets d)

times-append :
    (key : String) (h : History) (k : String) (t : ℕ)
    → times key (h ++ (k, t) ∷ []) ≡ times key h ++ (if k == key then t ∷ [] else [])
unfolding times
times-append key [] k t = ground arith
times-append key ((j, u) ∷ h) k t = ground (arith, times-append key h k t)

keep-append : (p : ℕ → Bool) (xs ys : List ℕ) → keep p (xs ++ ys) ≡ keep p xs ++ keep p ys
keep-append p [] ys = refl
keep-append p (x ∷ xs) ys = ground (arith, keep-append p xs ys)

count-live_le :
    (window now later : ℕ) (ts : List ℕ)
    → now ≤ later
    → count (is_live window later) ts ≤ count (is_live window now) ts
count-live_le window now later [] h = omega arith
count-live_le window now later (t ∷ ts) h = ground (arith, count-live_le window now later ts h)

module _ (start : ℕ) (l : RateLimiter) (h : History) (tracks : Tracks start l h) (now : ℕ)
    (le : start ≤ now) where
  live_hits-times : (key : String) → live_hits l key now ≡ keep (is_live l.window now) (times key h)
  unfolding live_hits
  live_hits-times key =
      bound_keys-agrees l key now now tracks.distinct (omega arith) ∙ tracks.agrees key now le

  -- A bucket is written back with some new times behind the live ones.
  store-Tracks :
      (key : String) (extra : List ℕ) (h' : History)
      → ((k : String) → times k h' ≡ times k h ++ (if key == k then extra else []))
      → Tracks now (store l now key (live_hits l key now ++ extra)) h'
  store-Tracks key extra h' grown = record {
    distinct =
        Dict.insert-Distinct key _ (bound_keys l now) (bound_keys-Distinct l now tracks.distinct);
    agrees = λ k later after.
        let live = is_live l.window later in
        let old : keep live (times k h) ≡ keep live (hits_of (Dict.lookup k (bound_keys l now))) =
          sym (
            bound_keys-agrees l k now later tracks.distinct after
            ∙ tracks.agrees k later (omega arith)) in
        rw
          (
            Dict.lookup-insert key k (live_hits l key now ++ extra) (bound_keys l now),
            grown k,
            keep-append live (times k h) (if key == k then extra else []),
          )
          (elim (Bool-cases (key == k)) [
            | inr other ↦ rw other (sym (append-nil _ ∙ old))
            | inl same ↦
                let e = (string_eq.beq_iff key k).0 same in
                rw same (
                  keep-append live (live_hits l key now) extra
                  ∙ ap (λ x. x ++ keep live extra)
                      (ap (keep live) (live_hits-times key)
                        ∙ keep-keep_live l.window now later (times key h) after
                        ∙ ap (λ x. keep live (times x h)) e))
          ]);
  }

  -- How many requests of the key were allowed in the window that ends now.
  abbrev recent_count : String → ℕ
  recent_count key = count (is_live l.window now) (times key h)

  length-live_hits : (key : String) → length (live_hits l key now) ≡ recent_count key
  length-live_hits key =
      ap length (live_hits-times key) ∙ length-keep (is_live l.window now) (times key h)

  check_at-answer : (key : String) → (check_at l key now).1 ≡ ltb (recent_count key) l.max_requests
  unfolding check_at
  check_at-answer key = ground (arith, length-live_hits key)

  abbrev extended : Bool → String → History
  extended allowed key = if allowed then h ++ (key, now) ∷ [] else h

  check_at-Tracks :
      (key : String) → Tracks now (check_at l key now).0 (extended (check_at l key now).1 key)
  unfolding check_at
  check_at-Tracks key = elim (Bool-cases (leb l.max_requests (length (live_hits l key now)))) [
    | inl full ↦
        rw (full, check_at)
          (rw append-nil at (store-Tracks key [] h (λ k. ground (arith, append-nil (times k h)))))
    | inr room ↦
        rw (room, check_at)
          (store-Tracks key (now ∷ []) (h ++ (key, now) ∷ []) (λ k. times-append k h key now))
  ]

check_at-config :
    (l : RateLimiter) (key : String) (now : ℕ)
    → ((check_at l key now).0.window ≡ l.window)
      × ((check_at l key now).0.max_requests ≡ l.max_requests)
unfolding check_at
check_at-config l key now = ground arith

-- No key ever has more than the limit in a window that ends now or later.
abbrev Limited : ℕ → RateLimiter → History → Type 0
Limited start l h =
    (key : String) (now : ℕ)
    → start ≤ now
    → count (is_live l.window now) (times key h) ≤ l.max_requests

check_at-Limited :
    (start : ℕ) (l : RateLimiter) (h : History) (now : ℕ) (key : String)
    → Tracks start l h
    → start ≤ now
    → Limited start l h
    → Limited now
        (check_at l key now).0
        (if (check_at l key now).1 then h ++ (key, now) ∷ [] else h)
check_at-Limited start l h now key t le lim k later after =
    let (same_window, same_max) = check_at-config l key now in
    let shrinks = count-live_le l.window now later (times k h) after in
    rw (same_window, same_max)
      (elim (Bool-cases (check_at l key now).1) [
        | inr rejected ↦ rw rejected (lim k later (omega arith))
        | inl allowed ↦
            rw (allowed, times-append k h key now, count-append (is_live l.window later))
              (elim (Bool-cases (key == k)) [
                | inr other ↦ rw other (omega (arith, lim k later (omega arith)))
                | inl same ↦
                    let e = (string_eq.beq_iff key k).0 same in
                    let below : count (is_live l.window now) (times k h) < l.max_requests =
                      (ltb_iff _ _).0
                        (rw e at (sym (check_at-answer start l h t now le key) ∙ allowed)) in
                    rw same (ground arith)
              ])
      ])

check_all-Tracks :
    (reqs : List (String × ℕ)) (start : ℕ) (l : RateLimiter) (h : History)
    → Monotone start reqs
    → Tracks start l h
    → Limited start l h
    → Tracks (clock start reqs) (check_all l h reqs).0 (check_all l h reqs).1
      × Limited (clock start reqs) (check_all l h reqs).0 (check_all l h reqs).1
      × ((check_all l h reqs).0.window ≡ l.window)
      × ((check_all l h reqs).0.max_requests ≡ l.max_requests)
unfolding check_all clock
check_all-Tracks [] start l h m t lim = (t, lim, refl, refl)
check_all-Tracks ((key, now) ∷ rest) start l h m t lim =
    let c = check_at-config l key now in
    let r =
      check_all-Tracks rest now (check_at l key now).0
        (if (check_at l key now).1 then h ++ (key, now) ∷ [] else h) m.1
        (check_at-Tracks start l h t now m.0 key) (check_at-Limited start l h now key t m.0 lim) in
    (r.0, r.1, r.2 ∙ c.0, r.3 ∙ c.1)

new-Tracks : (max_requests window : ℕ) → Tracks 0 (new max_requests window) []
unfolding new Dict.lookup times
new-Tracks max_requests window = record { distinct = tt; agrees = λ key now le. refl }

new-Limited : (max_requests window : ℕ) → Limited 0 (new max_requests window) []
unfolding times
new-Limited max_requests window key now le = omega arith

-- Whatever requests came before, at times that did not go back, a request is allowed exactly if
-- fewer than the limit (at least 1) of its key were allowed in the window that ends now; and no
-- key ever has more than the limit allowed in such a window. The soft cap on keys changes neither.
pub check_at_sliding_window :
    (max_requests window : ℕ) (reqs : List (String × ℕ)) (key : String) (now : ℕ)
    → Monotone 0 reqs
    → clock 0 reqs ≤ now
    → ((check_at (check_all (new max_requests window) [] reqs).0 key now).1
        ≡ ltb
            (count (is_live window now) (times key (check_all (new max_requests window) [] reqs).1))
            (if leb 1 max_requests then max_requests else 1))
      × (count (is_live window now) (times key (check_all (new max_requests window) [] reqs).1)
          ≤ (if leb 1 max_requests then max_requests else 1))
unfolding new
check_at_sliding_window max_requests window reqs key now m le =
    let l = new max_requests window in
    let r =
      check_all-Tracks reqs 0 l [] m (new-Tracks max_requests window)
        (new-Limited max_requests window) in
    let answer =
      check_at-answer (clock 0 reqs) (check_all l [] reqs).0 (check_all l [] reqs).1 r.0 now le
        key in
    let limited = r.1 key now le in (rw (r.2, r.3) at answer, rw (r.2, r.3) at limited)
