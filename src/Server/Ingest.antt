-- ===== src/Server/Ingest.antt =====
-- `ingest`, `ingest_one` and `ingest_batch` of crates/ree0xq-server/src/routes.rs, over the
-- in-memory store, whose `append` returns no error.
use ree0x_q.Base.{
  ℕ, Bool, true, ◌&&◌, String, List, [], ◌∷◌, ◌++◌, ◌≡◌, ◌⊎◌, inl, inr, refl, arith, length, eqb,
  if◌then◌else◌, All, Bool-cases, sym, ◌∙◌,
}
use mathlib.Core.Bool.{false≢true}
use ree0x_q.Core.{CryptoInventoryEvent, schema_version}
use ree0x_q.Server.Store.{InMemoryEventStore, append_all}
use ree0x_q.Server.Store.Newest.{log-append_all}

-- The status and the stable code of an `ApiError`; its message is for people.
pub record ApiError : Type 0 where
  pub status : ℕ
  pub code : String

pub data Response {ℓ} (A : Type ℓ) : Type ℓ where
  ok : A → Response A
  err : ApiError → Response A

abbrev pub version_mismatch : ApiError
version_mismatch = record { status = 422; code = "schema_version_mismatch" }

-- The first loop of `ingest`.
pub all_supported : List CryptoInventoryEvent → Bool
all_supported [] = true
all_supported (ev ∷ evs) = eqb ev.schema_version schema_version && all_supported evs

unfoldable pub ingest :
    InMemoryEventStore → List CryptoInventoryEvent → InMemoryEventStore × Response (Unit {0})
unfolding all_supported
ingest s evs = if all_supported evs then (append_all s evs, ok tt) else (s, err version_mismatch)

abbrev respond {ℓ} : {A : Type ℓ} → A → Response (Unit {0}) → Response A
respond a (ok _) = ok a
respond a (err e) = err e

-- 202 Accepted.
unfoldable pub ingest_one :
    InMemoryEventStore → CryptoInventoryEvent → InMemoryEventStore × Response ℕ
unfolding ingest
ingest_one s ev = let (s', r) = ingest s (ev ∷ []) in (s', respond 202 r)

-- The number of events ingested.
unfoldable pub ingest_batch :
    InMemoryEventStore → List CryptoInventoryEvent → InMemoryEventStore × Response ℕ
unfolding ingest
ingest_batch s evs = let (s', r) = ingest s evs in (s', respond (length evs) r)

all_supported-All :
    (evs : List CryptoInventoryEvent)
    → all_supported evs ≡ true
    → All (λ ev. ev.schema_version ≡ schema_version) evs
unfolding all_supported
all_supported-All [] h = tt
all_supported-All (ev ∷ evs) h = ground (arith, all_supported-All evs)

All-all_supported :
    (evs : List CryptoInventoryEvent)
    → All (λ ev. ev.schema_version ≡ schema_version) evs
    → all_supported evs ≡ true
unfolding all_supported
All-all_supported [] h = refl
All-all_supported (ev ∷ evs) h = ground (arith, All-all_supported evs)

-- A batch is all or nothing. Either every event has the supported major version, and all are in
-- the log, in order, behind what was there; or some event has another version, the answer is a 422
-- and the store is as before.
pub ingest_batch_atomic :
    (s : InMemoryEventStore) (evs : List CryptoInventoryEvent)
    → (All (λ ev. ev.schema_version ≡ schema_version) evs
        × ((ingest_batch s evs).1 ≡ ok (length evs))
        × ((ingest_batch s evs).0.log ≡ s.log ++ evs))
      ⊎ ((¬ All (λ ev. ev.schema_version ≡ schema_version) evs)
          × (ingest_batch s evs ≡ (s, err version_mismatch)))
unfolding ingest_batch
ingest_batch_atomic s evs = elim (Bool-cases (all_supported evs)) [
  | inl yes_all ↦ inl (
    all_supported-All evs yes_all,
    rw (yes_all, ingest_batch),
    rw (yes_all, ingest_batch) (log-append_all s evs),
  )
  | inr refused ↦
      inr (
        λ h. absurd (false≢true (sym refused ∙ All-all_supported evs h)),
        rw (refused, ingest_batch),
      )
]
