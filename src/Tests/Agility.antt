-- ===== src/Tests/Agility.antt =====
-- The scanner, the recommendations and the roadmap on small inputs.
use ree0x_q.Base.{
  ℕ, ◌≤◌, ◌≡◌, refl, List, [], ◌∷◌, String, Option, some, none, true, false, All, length, IsSorted,
  with_key, sort_by_key, arith, codes,
}
use ree0x_q.Core.{F32, pinned, configurable, firmware_string}
use ree0x_q.Agility.Levels.{
  TaggedEvidence, aggregate_tagged_level, IsMostAgile, aggregate_tagged_level-IsMostAgile,
  config_kind,
}
use ree0x_q.Agility.Scan.{
  Rule, config, ScannedFile, default_target, Captures, lines, glob_regex, glob_match, classify_file,
  scan_target,
}
use ree0x_q.Agility.Scan.Bounds.{IsBounded, scan_target-IsBounded}
use ree0x_q.Agility.Roadmap.{AssetSnapshot, Milestone, index, date_of, project_roadmap}
use ree0x_q.Agility.Roadmap.Trajectory.{
  Reports, Descends, blocked_count, project_roadmap-trajectory,
}

abbrev tagged : TaggedEvidence
tagged = record {
  rule_id = "pinned-blob";
  emit_level = pinned;
  evidence = firmware_string "/lib/libssl.so" "RSA";
}

abbrev agile : TaggedEvidence
agile = record tagged { emit_level = configurable }

aggregate_tagged_level-IsMostAgile_example :
    IsMostAgile (aggregate_tagged_level (tagged ∷ agile ∷ [])) (tagged ∷ agile ∷ [])
aggregate_tagged_level-IsMostAgile_example = aggregate_tagged_level-IsMostAgile tagged (agile ∷ [])

abbrev rule : Rule
rule = record {
  id = "nginx-ssl-ciphers";
  description = "nginx";
  applies_to = record { kind = config; path_glob = some "**/nginx*.conf" } ∷ [];
  pattern = "ssl_ciphers";
  emit_level = configurable;
  evidence_kind = config_kind;
  algorithm_capture = none;
}

abbrev file : ScannedFile
file = record {
  path = "/etc/nginx.conf";
  file_name = "nginx.conf";
  extension = "conf";
  len = some 40;
  content = some "server {\n  ssl_ciphers HIGH;\n}\n";
}

-- A regex library in which everything matches.
abbrev all_captures : String → String → Option Captures
all_captures pattern line = some (λ i. none)

scan_target-IsBounded_example :
    All
      (IsBounded default_target)
      (scan_target all_captures
        (λ regex path. some true)
        default_target
        (rule ∷ [])
        (file ∷ [])).evidence
scan_target-IsBounded_example =
    scan_target-IsBounded all_captures (λ regex path. some true) default_target (omega arith)
      (rule ∷ []) (file ∷ [])

scan_nginx :
    length
      (scan_target all_captures
        (λ regex path. some true)
        default_target
        (rule ∷ [])
        (file ∷ [])).evidence
    ≡ 3
unfolding scan_target glob_match classify_file lines
scan_nginx = refl

glob_nginx : glob_regex "**/nginx*.conf" ≡ codes "^(?:.*/)?nginx[^/]*\\.conf$"
unfolding glob_regex
glob_nginx = refl

abbrev inventory : List AssetSnapshot
inventory =
    record { identity = "a"; q = 0x3f19999a; blocked = true; primitives = [] }
    ∷ record { identity = "b"; q = 0x3ecccccd; blocked = false; primitives = [] }
    ∷ []

abbrev plan : List Milestone
plan =
    record { label = "late"; date = 20; asset_ids = "b" ∷ []; target_primitives = [] }
    ∷ record { label = "soon"; date = 10; asset_ids = "a" ∷ "x" ∷ []; target_primitives = [] }
    ∷ []

-- Stand-ins for the sum and the division of f32 numbers.
abbrev no_sum : List F32 → F32
no_sum qs = 0

abbrev no_div : F32 → ℕ → F32
no_div q n = q

project_roadmap-trajectory_example :
    Reports (sort_by_key date_of plan) (project_roadmap no_sum no_div inventory plan).projections
    × IsSorted date_of (sort_by_key date_of plan)
    × ((date : ℕ) → with_key date_of date (sort_by_key date_of plan) ≡ with_key date_of date plan)
    × Descends
        (blocked_count (index [] inventory))
        (project_roadmap no_sum no_div inventory plan).projections
    × (blocked_count (index [] inventory)
        ≤ (project_roadmap no_sum no_div inventory plan).today_blocked)
project_roadmap-trajectory_example = project_roadmap-trajectory no_sum no_div inventory plan
