-- ===== src/Qkd/Replay/Order.antt =====
-- What the validation of a scenario accepts.
use ree0x_q.Base.{ℕ, ◌≤◌, ◌≡◌, ◌↔◌, refl, List, [], ◌∷◌, All, arith}
use ree0x_q.Qkd.Replay.{ReplayEvent, ReplayScenario, accepted, validate_from, validate}

-- Each pair of events is in order, and each event is within the duration.
abbrev pub NotBefore : ReplayEvent → ReplayEvent → Type 0
NotBefore a b = a.at_seconds ≤ b.at_seconds

abbrev pub IsOrdered : List ReplayEvent → Type 0
IsOrdered [] = Unit
IsOrdered (ev ∷ evs) = All (NotBefore ev) evs × IsOrdered evs

abbrev pub IsWithin : ℕ → ReplayEvent → Type 0
IsWithin duration ev = ev.at_seconds ≤ duration

abbrev After : ℕ → ReplayEvent → Type 0
After t ev = t ≤ ev.at_seconds

All-After : (a b : ℕ) (evs : List ReplayEvent) → a ≤ b → All (After b) evs → All (After a) evs
All-After a b [] le h = tt
All-After a b (ev ∷ evs) le h = (omega (arith, le, h.0), All-After a b evs le h.1)

validate_from_sound :
    (duration prev : ℕ) (evs : List ReplayEvent)
    → validate_from duration prev evs ≡ accepted
    → All (After prev) evs × IsOrdered evs × All (IsWithin duration) evs
unfolding validate_from
validate_from_sound duration prev [] h = (tt, tt, tt)
validate_from_sound duration prev (ev ∷ evs) h =
    let behind = validate_from_sound duration ev.at_seconds evs (ground arith) in
    let late : prev ≤ ev.at_seconds = ground arith in
    (
      (late, All-After prev ev.at_seconds evs late behind.0),
      (behind.0, behind.1),
      (ground arith, behind.2),
    )

validate_from_complete :
    (duration prev : ℕ) (evs : List ReplayEvent)
    → All (After prev) evs
    → IsOrdered evs
    → All (IsWithin duration) evs
    → validate_from duration prev evs ≡ accepted
unfolding validate_from
validate_from_complete duration prev [] a o w = refl
validate_from_complete duration prev (ev ∷ evs) a o w =
    let behind = validate_from_complete duration ev.at_seconds evs o.0 o.1 w.1 in
    ground (arith, a.0, w.0, behind)

All-After_zero : (evs : List ReplayEvent) → All (After 0) evs
All-After_zero [] = tt
All-After_zero (ev ∷ evs) = (omega arith, All-After_zero evs)

-- A scenario is accepted exactly if no event is before an earlier one in its list, and none is past
-- the duration.
pub validate_iff :
    (s : ReplayScenario)
    → (validate s ≡ accepted) ↔ (IsOrdered s.events × All (IsWithin s.duration_seconds) s.events)
unfolding validate
validate_iff s = (
  λ h. let all = validate_from_sound s.duration_seconds 0 s.events h in (all.1, all.2),
  λ h. validate_from_complete s.duration_seconds 0 s.events (All-After_zero s.events) h.0 h.1,
)
