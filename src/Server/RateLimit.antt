-- ===== src/Server/RateLimit.antt =====
-- The sliding-window limiter: crates/ree0xq-server/src/ratelimit.rs. Times and the window are
-- nanoseconds of a monotonic clock; `now.duration_since(t)` is 0 for a later `t`, as `-` on ℕ is.
pub mod Window
use ree0x_q.Base.{
  ℕ, ◌-◌, ◌+◌, Bool, true, false, ◌||◌, String, Option, none, some, List, [], ◌∷◌, ◌++◌, length,
  keep, ltb, leb, if◌then◌else◌, string_eq,
}
use ree0x_q.Base.Dict

pub record RateLimiter : Type 0 where
  pub max_requests : ℕ
  pub window : ℕ
  pub buckets : List (String × List ℕ)

abbrev pub default_max_requests : ℕ
default_max_requests = 20

abbrev pub default_window : ℕ
default_window = 60_000_000_000

abbrev pub key_soft_cap : ℕ
key_soft_cap = 65_536

-- `max_requests.max(1)`
unfoldable pub new : ℕ → ℕ → RateLimiter
new max_requests window = record {
  max_requests = if leb 1 max_requests then max_requests else 1;
  window = window;
  buckets = [];
}

abbrev pub is_live : ℕ → ℕ → ℕ → Bool
is_live window now t = ltb (now - t) window

-- `hits.iter().any(…)`
pub any_live : ℕ → ℕ → List ℕ → Bool
any_live window now [] = false
any_live window now (t ∷ ts) = is_live window now t || any_live window now ts

-- Over the soft cap, drops every key whose whole window has expired.
pub bound_keys : RateLimiter → ℕ → List (String × List ℕ)
unfolding any_live
bound_keys l now =
    if leb key_soft_cap (length l.buckets)
    then Dict.retain (λ _ hits. any_live l.window now hits) l.buckets
    else l.buckets

-- `map.entry(key).or_default()`
abbrev pub hits_of : Option (List ℕ) → List ℕ
hits_of none = []
hits_of (some hits) = hits

-- The hits of the key that are still in the window.
pub live_hits : RateLimiter → String → ℕ → List ℕ
unfolding bound_keys
live_hits l key now = keep (is_live l.window now) (hits_of (Dict.lookup key (bound_keys l now)))

abbrev pub store : RateLimiter → ℕ → String → List ℕ → RateLimiter
store l now key hits = record l { buckets = Dict.insert key hits (bound_keys l now) }

unfoldable pub check_at : RateLimiter → String → ℕ → RateLimiter × Bool
unfolding live_hits
check_at l key now =
    let hits = live_hits l key now in
    if leb l.max_requests (length hits)
    then (store l now key hits, false)
    else (store l now key (hits ++ now ∷ []), true)
