-- ===== src/Net/Probe/Verdict.antt =====
-- The verdict of the probe against the classification of captured handshakes.
use ree0x_q.Base.{
  ℕ, ◌≡◌, refl, Bool, false, String, Option, none, some, All, match_code, match_code-All,
}
use ree0x_q.Core.{Primitive}
use ree0x_q.Net.Algos.{primitive_from_supported_group}
use ree0x_q.Net.Names
use ree0x_q.Net.Probe.{
  Connection, connected, failed_with, probe, observe, named_group_name, is_pq_named_group,
  pq_or_false, group_table, or_text,
}

abbrev pub is_resistant : Option Primitive → Bool
is_resistant none = false
is_resistant (some p) = elim p.pq_resistant [ none ↦ false | some pq ↦ pq ]

-- Whether the capture path rates the group of a code post-quantum.
abbrev pub rated_by_capture : Option String → Bool
rated_by_capture none = false
rated_by_capture (some name) = is_resistant (primitive_from_supported_group name)

abbrev Agrees : String → Type 0
Agrees name = is_pq_named_group name ≡ rated_by_capture (some name)

group_table-Agrees : All (λ arm. Agrees arm.1) group_table
unfolding is_pq_named_group primitive_from_supported_group
group_table-Agrees = assumption refl

is_pq-rated :
    (name : Option String) (code : ℕ)
    → match_code code group_table ≡ name
    → is_pq_named_group (or_text "unknown" name) ≡ rated_by_capture name
unfolding is_pq_named_group
is_pq-rated none code h = refl
is_pq-rated (some name) code h = match_code-All Agrees code group_table group_table-Agrees h

-- A completed probe names the negotiated group as the capture path does, or "unknown", and calls it
-- post-quantum exactly if the capture path rates it so; a failed probe calls nothing post-quantum.
pub probe-rated_by_capture :
    (host e : String) (conn : Connection) (code : ℕ)
    → conn.negotiated_group ≡ some code
    → ((probe host (connected conn)).kex_group
        ≡ some (or_text "unknown" (Names.named_group_name code)))
      × ((probe host (connected conn)).kex_pq ≡ rated_by_capture (Names.named_group_name code))
      × ((probe host (failed_with e)).kex_pq ≡ false)
unfolding probe observe named_group_name pq_or_false Names.named_group_name
probe-rated_by_capture host e conn code h =
    rw h (refl, is_pq-rated (match_code code group_table) code refl, refl)
