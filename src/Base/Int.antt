-- ===== src/Base/Int.antt =====
-- Signed machine integers, as far as the code only compares them or adds them to a time.
use Prim.Native.Nat.{ℕ, ◌+◌, ◌-◌, ◌*◌}
use mathlib.Core.Bool.{Bool, false, ◌&&◌}
use ree0x_q.Base.Tests.{leb}

pub data ℤ : Type 0 where
  pos : ℕ → ℤ
  negsuc : ℕ → ℤ

-- `(first..=last).contains(&i)`
abbrev pub in_range : ℕ → ℕ → ℤ → Bool
in_range first last (pos n) = leb first n && leb n last
in_range first last (negsuc n) = false

-- A time moved by a number of units, each of the given length.
abbrev pub shift : ℕ → ℤ → ℕ → ℕ
shift time (pos n) unit = time + n * unit
shift time (negsuc n) unit = time - (n + 1) * unit
