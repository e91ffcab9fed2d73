-- ===== src/Server/Store/Newest.antt =====
-- The `latest` map against the log: it holds the newest event of each key.
use ree0x_q.Base.{
  ◌≤◌, ◌<◌, true, false, String, Option, none, some, List, [], ◌∷◌, ◌++◌, ◌≡◌, refl, arith, ◌==◌,
  All, Bool-cases, inl, inr, All-append, All-map, ap, sym, ◌∙◌,
}
use mathlib.Core.List.{append_assoc, append-nil}
use ree0x_q.Base.Dict
use mathlib.Core.Bool.{false≢true}
use ree0x_q.Core.{CryptoInventoryEvent, Asset}
use ree0x_q.Server.Store.{
  DedupKey, key_eq, from_event, InMemoryEventStore, new, append, append_all, is_stale, latest_for,
  push_log, insert_latest,
}

-- An event of another key, or at most as new as `r` (older than `r`).
abbrev pub AtMost : DedupKey → CryptoInventoryEvent → CryptoInventoryEvent → Type 0
AtMost k r e = (from_event e == k) ≡ true → e.observed_at ≤ r.observed_at

abbrev pub Older : DedupKey → CryptoInventoryEvent → CryptoInventoryEvent → Type 0
Older k r e = (from_event e == k) ≡ true → e.observed_at < r.observed_at

-- `r` is the newest event of the key in the log; of several with its time, the last to arrive.
pub record IsNewest (k : DedupKey) (log : List CryptoInventoryEvent) (r : CryptoInventoryEvent)
    : Type 0 where
  pub before : List CryptoInventoryEvent
  pub after : List CryptoInventoryEvent
  pub splits : log ≡ before ++ (r ∷ after)
  pub of_key : (from_event r == k) ≡ true
  pub before_at_most : All (AtMost k r) before
  pub after_older : All (Older k r) after

abbrev pub IsLatest : DedupKey → List CryptoInventoryEvent → Option CryptoInventoryEvent → Type 0
IsLatest k log none = All (λ e. (from_event e == k) ≡ false) log
IsLatest k log (some r) = IsNewest k log r

-- The map agrees with the log at every key.
pub record Tracks (s : InMemoryEventStore) : Type 0 where
  pub agrees : (k : DedupKey) → IsLatest k s.log (Dict.lookup k s.latest)

pub new-Tracks : Tracks new
unfolding Dict.lookup
new-Tracks = record { agrees = λ k. tt }

-- A log that goes on with an event of another key, or an older one.
IsLatest-other :
    (k : DedupKey) (log : List CryptoInventoryEvent) (o : Option CryptoInventoryEvent)
    (ev : CryptoInventoryEvent)
    → (from_event ev == k) ≡ false
    → IsLatest k log o
    → IsLatest k (log ++ ev ∷ []) o
IsLatest-other k log none ev ne h =
    All-append (λ e. (from_event e == k) ≡ false) log (ev ∷ []) h (ne, tt)
IsLatest-other k log (some r) ev ne h = record {
  before = h.before;
  after = h.after ++ ev ∷ [];
  splits = ap (λ l. l ++ ev ∷ []) h.splits ∙ append_assoc h.before (r ∷ h.after) (ev ∷ []);
  of_key = h.of_key;
  before_at_most = h.before_at_most;
  after_older =
      All-append (Older k r) h.after (ev ∷ []) h.after_older
        ((λ same. absurd (false≢true (sym ne ∙ same))), tt);
}

IsNewest-older :
    (k : DedupKey) (log : List CryptoInventoryEvent) (r ev : CryptoInventoryEvent)
    → ev.observed_at < r.observed_at
    → IsNewest k log r
    → IsNewest k (log ++ ev ∷ []) r
IsNewest-older k log r ev older h = record {
  before = h.before;
  after = h.after ++ ev ∷ [];
  splits = ap (λ l. l ++ ev ∷ []) h.splits ∙ append_assoc h.before (r ∷ h.after) (ev ∷ []);
  of_key = h.of_key;
  before_at_most = h.before_at_most;
  after_older = All-append (Older k r) h.after (ev ∷ []) h.after_older ((λ _. older), tt);
}

-- Every event of the key is at most as new as a new event at the end.
IsLatest-at-most :
    (k : DedupKey) (log : List CryptoInventoryEvent) (o : Option CryptoInventoryEvent)
    (ev : CryptoInventoryEvent)
    → is_stale o ev ≡ false
    → IsLatest k log o
    → All (AtMost k ev) log
unfolding is_stale
IsLatest-at-most k log none ev h t =
    All-map log (λ e ne same. absurd (false≢true (sym ne ∙ same))) t
IsLatest-at-most k log (some r) ev h t = rw t.splits (
    All-append (AtMost k ev) t.before (r ∷ t.after)
      (All-map t.before (λ e le same. ground (arith, le same)) t.before_at_most)
      ((λ _. ground arith), All-map t.after (λ e lt same. ground (arith, lt same)) t.after_older))

-- An out-of-date event of the key leaves the newest as it is.
IsLatest-stale :
    (k : DedupKey) (log : List CryptoInventoryEvent) (o : Option CryptoInventoryEvent)
    (ev : CryptoInventoryEvent)
    → is_stale o ev ≡ true
    → IsLatest k log o
    → IsLatest k (log ++ ev ∷ []) o
unfolding is_stale
IsLatest-stale k log none ev stale t = absurd (false≢true stale)
IsLatest-stale k log (some r) ev stale t = IsNewest-older k log r ev (ground arith) t

-- Each append keeps the map in agreement with the log.
module _ (s : InMemoryEventStore) (ev : CryptoInventoryEvent) (t : Tracks s) where
  append_stale-Tracks :
      is_stale (Dict.lookup (from_event ev) s.latest) ev ≡ true → Tracks (push_log s ev)
  append_stale-Tracks stale = record {
    agrees = λ k. elim (Bool-cases (from_event ev == k)) [
      | inr ne ↦ IsLatest-other k s.log (Dict.lookup k s.latest) ev ne (t.agrees k)
      | inl same ↦
          let e = (key_eq.beq_iff (from_event ev) k).0 same in
          IsLatest-stale k s.log (Dict.lookup k s.latest) ev (rw e at stale) (t.agrees k)
    ];
  }

  append_fresh-Tracks :
      is_stale (Dict.lookup (from_event ev) s.latest) ev ≡ false
      → Tracks (push_log (insert_latest s ev) ev)
  append_fresh-Tracks fresh = record {
    agrees = λ k. elim (Bool-cases (from_event ev == k)) [
      | inr ne ↦
          rw (Dict.lookup-insert (from_event ev) k ev s.latest)
            (rw ne (IsLatest-other k s.log (Dict.lookup k s.latest) ev ne (t.agrees k)))
      | inl same ↦
          let e = (key_eq.beq_iff (from_event ev) k).0 same in
          rw (Dict.lookup-insert (from_event ev) k ev s.latest) (
            rw same (record {
              before = s.log;
              after = [];
              splits = refl;
              of_key = same;
              before_at_most =
                  IsLatest-at-most k s.log (Dict.lookup k s.latest) ev (rw e at fresh) (t.agrees k);
              after_older = tt;
            }))
    ];
  }

pub append-Tracks :
    (s : InMemoryEventStore) (ev : CryptoInventoryEvent) → Tracks s → Tracks (append s ev)
unfolding append
append-Tracks s ev t = elim (Bool-cases (is_stale (Dict.lookup (from_event ev) s.latest) ev)) [
  | inl stale ↦ rw (stale, append) (append_stale-Tracks s ev t stale)
  | inr fresh ↦ rw (fresh, append) (append_fresh-Tracks s ev t fresh)
]

append_all-Tracks :
    (s : InMemoryEventStore) (evs : List CryptoInventoryEvent)
    → Tracks s
    → Tracks (append_all s evs)
unfolding append_all
append_all-Tracks s [] t = t
append_all-Tracks s (ev ∷ evs) t = append_all-Tracks (append s ev) evs (append-Tracks s ev t)

log-append :
    (s : InMemoryEventStore) (ev : CryptoInventoryEvent) → (append s ev).log ≡ s.log ++ ev ∷ []
unfolding append
log-append s ev = elim (Bool-cases (is_stale (Dict.lookup (from_event ev) s.latest) ev)) [
  | inl stale ↦ rw (stale, append)
  | inr fresh ↦ rw (fresh, append)
]

pub log-append_all :
    (s : InMemoryEventStore) (evs : List CryptoInventoryEvent)
    → (append_all s evs).log ≡ s.log ++ evs
unfolding append_all
log-append_all s [] = sym (append-nil s.log)
log-append_all s (ev ∷ evs) =
    log-append_all (append s ev) evs
    ∙ ap (λ l. l ++ evs) (log-append s ev)
    ∙ append_assoc s.log (ev ∷ []) evs

-- After any sequence of appends to the empty store, `latest_for` answers with the newest event of
-- the asset in that sequence (the last to arrive of several with its time), and answers nothing
-- exactly if the sequence has no event of the asset from the module.
pub latest_for-IsLatest :
    (evs : List CryptoInventoryEvent) (asset : Asset) (source_module : String)
    → IsLatest
        (record { source_module = source_module; kind = asset.kind; identity = asset.identity })
        evs
        (latest_for (append_all new evs) asset source_module)
unfolding latest_for
latest_for-IsLatest evs asset source_module =
    let k : DedupKey = record {
      source_module = source_module;
      kind = asset.kind;
      identity = asset.identity;
    } in
    rw (log-append_all new evs) at ((append_all-Tracks new evs new-Tracks).agrees k)
