-- ===== src/Net/Spool.antt =====
-- The offline spool: crates/ree0xq-net/src/spool.rs. The file is its list of lines; a line that the
-- reader cannot read (a read error, or bytes that are not UTF-8) is none. The JSON library is two
-- arguments, and the n-th call of `emit` succeeds or fails by a third. File operations succeed.
pub mod Delivery
use ree0x_q.Base.{
  ℕ, ◌+◌, Bool, true, false, String, Option, none, some, List, [], ◌∷◌, ◌++◌, length, eqb,
  if◌then◌else◌, is_blank,
}
use ree0x_q.Core.{CryptoInventoryEvent}

abbrev pub Lines : Type 0
Lines = List (Option String)

-- The file of the directory, if it exists.
pub record Spool : Type 0 where
  pub file : Option Lines

pub record DrainStats : Type 0 where
  pub seen : ℕ
  pub delivered : ℕ
  pub retained : ℕ
  pub corrupt_dropped : ℕ

abbrev pub no_stats : DrainStats
no_stats = record { seen = 0; delivered = 0; retained = 0; corrupt_dropped = 0 }

abbrev pub existing : Option Lines → Lines
existing none = []
existing (some ls) = ls

unfoldable pub len : Spool → ℕ
len s = length (existing s.file)

-- The loop's state: the statistics, the lines of the temporary file, and the events that `emit`
-- took, the first first.
pub record Draining : Type 0 where
  pub stats : DrainStats
  pub kept_lines : Lines
  pub taken : List CryptoInventoryEvent

abbrev pub start : Draining
start = record { stats = no_stats; kept_lines = []; taken = [] }

abbrev pub see : Draining → Draining
see d = record d { stats = record (d.stats) { seen = d.stats.seen + 1 } }

abbrev pub drop_corrupt : Draining → Draining
drop_corrupt d = record d {
  stats = record (d.stats) { corrupt_dropped = d.stats.corrupt_dropped + 1 };
}

abbrev pub deliver : Draining → CryptoInventoryEvent → Draining
deliver d ev = record d {
  stats = record (d.stats) { delivered = d.stats.delivered + 1 };
  taken = d.taken ++ ev ∷ [];
}

module _ (to_string : CryptoInventoryEvent → String)
    (from_str : String → Option CryptoInventoryEvent) (emit : ℕ → CryptoInventoryEvent → Bool) where
  unfoldable pub append : Spool → CryptoInventoryEvent → Spool
  append s ev = record { file = some (existing s.file ++ some (to_string ev) ∷ []) }

  abbrev pub retain : Draining → CryptoInventoryEvent → Draining
  retain d ev = record d {
    stats = record (d.stats) { retained = d.stats.retained + 1 };
    kept_lines = d.kept_lines ++ some (to_string ev) ∷ [];
  }

  -- The calls of `emit` so far are the events that were delivered and those that were retained.
  abbrev pub offer : Draining → CryptoInventoryEvent → Draining
  offer d ev = if emit (d.stats.delivered + d.stats.retained) ev then deliver d ev else retain d ev

  abbrev pub drain_parsed : Draining → Option CryptoInventoryEvent → Draining
  drain_parsed d none = drop_corrupt d
  drain_parsed d (some ev) = offer d ev

  abbrev pub drain_line : Draining → String → Draining
  drain_line d line = if is_blank line then d else drain_parsed (see d) (from_str line)

  -- The loop; a line that cannot be read ends it.
  pub drain_lines : Draining → Lines → Draining
  drain_lines d [] = d
  drain_lines d (none ∷ ls) = d
  drain_lines d (some line ∷ ls) = drain_lines (drain_line d line) ls

  -- What is left of the file.
  abbrev pub replaced : Draining → Spool
  replaced d = record { file = if eqb d.stats.retained 0 then none else some d.kept_lines }

  abbrev pub drain_file : Option Lines → Spool × Draining
  drain_file none = (record { file = none }, start)
  drain_file (some ls) = (replaced (drain_lines start ls), drain_lines start ls)

  unfoldable pub drain : Spool → Spool × Draining
  unfolding drain_lines
  drain s = drain_file s.file
