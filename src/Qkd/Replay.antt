-- ===== src/Qkd/Replay.antt =====
-- Replay scenarios: crates/ree0xq-qkd/src/replay/mod.rs. Times are u64 numbers of seconds.
pub mod Order
use ree0x_q.Base.{ℕ, String, Option, List, [], ◌∷◌, ltb, if◌then◌else◌}
use ree0x_q.Qkd.Emulator.{EmulatorState, ControlOp, handle_control}

pub record ReplayEvent : Type 0 where
  pub at_seconds : ℕ
  pub op : ControlOp
  pub label : Option String

pub record ReplayScenario : Type 0 where
  pub id : String
  pub description : String
  pub duration_seconds : ℕ
  pub events : List ReplayEvent

pub data ReplayError : Type 0 where
  out_of_order : ℕ → ℕ → ReplayError
  past_end : ℕ → ℕ → ReplayError

pub data Validation : Type 0 where
  accepted : Validation
  rejected : ReplayError → Validation

-- The loop, with the time of the event before.
unfoldable pub validate_from : ℕ → ℕ → List ReplayEvent → Validation
validate_from duration prev [] = accepted
validate_from duration prev (ev ∷ evs) =
    let rest = validate_from duration ev.at_seconds evs in
    if ltb ev.at_seconds prev
    then rejected (out_of_order ev.at_seconds prev)
    else (if ltb duration ev.at_seconds then rejected (past_end ev.at_seconds duration) else rest)

unfoldable pub validate : ReplayScenario → Validation
unfolding validate_from
validate s = validate_from s.duration_seconds 0 s.events
