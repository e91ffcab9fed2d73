-- ===== src/Agility/Scan.antt =====
-- The scanner: crates/ree0xq-agility/src/scanner.rs and the rule types of
-- crates/ree0xq-agility/src/rules.rs. A file of the walk is an argument, as are the two calls of the
-- regex library: the captures of a rule's pattern in a line, and the match of a translated glob.
pub mod Bounds
use ree0x_q.Base.{
  ℕ, zero, suc, ◌+◌, ◌*◌, ◌%◌, ◌^◌, ◌≤◌, Bool, true, false, not, ◌&&◌, ◌||◌, String, Option, none,
  some, List, [], ◌∷◌, ◌++◌, map, ltb, leb, eqb, if◌then◌else◌, string_eq, ◌==◌, codes, as_bytes,
  Eq,
}
use ree0x_q.Core.{
  AgilityLevel, AgilityEvidence, config_pattern, code_pattern, firmware_string, AgilityBlock, score,
}
use ree0x_q.Agility.Levels.{
  TaggedEvidence, EvidenceKind, config_kind, code_kind, firmware_kind, aggregate_tagged_level,
}
use Prim.Native.Char.{Char, code}

pub data ScopeKind : Type 0 where
  config code_scope binary : ScopeKind

abbrev pub same_kind : ScopeKind → ScopeKind → Bool
same_kind config config = true
same_kind config code_scope = false
same_kind config binary = false
same_kind code_scope config = false
same_kind code_scope code_scope = true
same_kind code_scope binary = false
same_kind binary config = false
same_kind binary code_scope = false
same_kind binary binary = true

pub record RuleScope : Type 0 where
  pub kind : ScopeKind
  pub path_glob : Option String

pub record Rule : Type 0 where
  pub id : String
  pub description : String
  pub applies_to : List RuleScope
  pub pattern : String
  pub emit_level : AgilityLevel
  pub evidence_kind : EvidenceKind
  pub algorithm_capture : Option ℕ

pub record ScanTarget : Type 0 where
  pub root : String
  pub max_file_bytes : ℕ
  pub max_lines : ℕ

abbrev pub default_target : ScanTarget
default_target = record { root = "."; max_file_bytes = 5_242_880; max_lines = 50_000 }

-- A regular file of the walk. `len` is none where the metadata cannot be read, `content` where the
-- file cannot be read or is not UTF-8.
pub record ScannedFile : Type 0 where
  pub path : String
  pub file_name : String
  pub extension : String
  pub len : Option ℕ
  pub content : Option String

-- `str::lines`: an end of line is a line feed, with a carriage return before it or not, and the
-- last line needs none.
abbrev pub push_char : Char → List String → List String
push_char c [] = String.◌∷◌ c String.[] ∷ []
push_char c (l ∷ ls) = String.◌∷◌ c l ∷ ls

abbrev pub starts_line_feed : String → Bool
starts_line_feed String.[] = false
starts_line_feed (String.◌∷◌ c s) = eqb (code c) 10

unfoldable pub lines : String → List String
lines String.[] = []
lines (String.◌∷◌ c s) =
    let rest = lines s in
    if eqb (code c) 10
    then "" ∷ rest
    else (if eqb (code c) 13 && starts_line_feed s then rest else push_char c rest)

-- `line.chars().take(n).collect()`
abbrev pub take_chars : ℕ → String → String
take_chars zero s = ""
take_chars (suc n) String.[] = ""
take_chars (suc n) (String.◌∷◌ c s) = String.◌∷◌ c (take_chars n s)

-- `eq_ignore_ascii_case`
abbrev pub ascii_lower : ℕ → ℕ
ascii_lower c = if leb 65 c && leb c 90 then c + 32 else c

abbrev pub same_text : List ℕ → List ℕ → Bool
same_text [] [] = true
same_text [] (d ∷ ds) = false
same_text (c ∷ cs) [] = false
same_text (c ∷ cs) (d ∷ ds) = eqb (ascii_lower c) (ascii_lower d) && same_text cs ds

abbrev pub any_ignoring_case : String → List String → Bool
any_ignoring_case name [] = false
any_ignoring_case name (n ∷ ns) = same_text (codes name) (codes n) || any_ignoring_case name ns

abbrev pub elem : String → List String → Bool
elem x [] = false
elem x (y ∷ ys) = x == y || elem x ys

abbrev pub config_exts : List String
config_exts = "conf" ∷ "cnf" ∷ "ini" ∷ "yaml" ∷ "yml" ∷ "toml" ∷ "json" ∷ []

abbrev pub config_filenames : List String
config_filenames =
    "nginx.conf" ∷ "httpd.conf" ∷ "sshd_config" ∷ "ssh_config" ∷ "openssl.cnf" ∷ "strongswan.conf"
    ∷ "haproxy.cfg" ∷ "postfix" ∷ "main.cf" ∷ "smb.conf" ∷ []

unfoldable pub classify_file : ScannedFile → ScopeKind
classify_file f =
    if any_ignoring_case f.file_name config_filenames || elem f.extension config_exts
    then config
    else code_scope

abbrev pub contains_code : List ℕ → ℕ → Bool
contains_code [] c = false
contains_code (d ∷ ds) c = eqb d c || contains_code ds c

abbrev pub next_is : ℕ → List ℕ → Bool
next_is c [] = false
next_is c (d ∷ ds) = eqb d c

abbrev pub tail : List ℕ → List ℕ
tail [] = []
tail (c ∷ cs) = cs

-- How many bytes behind a `*` (42) belong to its wildcard: another `*`, and a `/` (47) behind that.
abbrev pub wildcard_rest : List ℕ → ℕ
wildcard_rest cs = if next_is 42 cs then (if next_is 47 (tail cs) then 2 else 1) else 0

abbrev pub wildcard_regex : ℕ → List ℕ
wildcard_regex zero = codes "[^/]*"
wildcard_regex (suc zero) = codes ".*"
wildcard_regex (suc (suc n)) = codes "(?:.*/)?"

abbrev pub escaped : ℕ → List ℕ
escaped c = if contains_code (codes "\\.+?()|[]{}^$") c then codes "\\" ++ c ∷ [] else c ∷ []

-- The loop of `glob_match`; the number is how many bytes of a wildcard are left to pass.
pub glob_from : ℕ → List ℕ → List ℕ
glob_from skip [] = []
glob_from (suc skip) (c ∷ cs) = glob_from skip cs
glob_from zero (c ∷ cs) =
    let is_star = eqb c 42 in
    let rest = glob_from (if is_star then wildcard_rest cs else 0) cs in
    (if is_star then wildcard_regex (wildcard_rest cs) else escaped c) ++ rest

unfoldable pub glob_regex : String → List ℕ
unfolding glob_from
glob_regex pattern = codes "^" ++ glob_from 0 (as_bytes pattern) ++ codes "$"

abbrev pub unwrap_bool : Option Bool → Bool
unwrap_bool none = false
unwrap_bool (some b) = b

abbrev pub unspecified : Option String → String
unspecified none = "<unspecified>"
unspecified (some algorithm) = algorithm

abbrev pub evidence_of : EvidenceKind → String → ℕ → String → Option String → AgilityEvidence
evidence_of config_kind path line snippet algorithm = config_pattern path line snippet
evidence_of code_kind path line snippet algorithm =
    code_pattern path line snippet (unspecified algorithm)
evidence_of firmware_kind path line snippet algorithm = firmware_string path (unspecified algorithm)

-- `(line_idx as u32) + 1`
abbrev pub line_number : ℕ → ℕ
line_number line_idx = (line_idx % 2 ^ 32 + 1) % 2 ^ 32

-- The groups of a match, by index.
abbrev pub Captures : Type 0
Captures = ℕ → Option String

abbrev pub captured : Option ℕ → Captures → Option String
captured none caps = none
captured (some i) caps = caps i

module _ (captures : String → String → Option Captures)
    (is_match : List ℕ → String → Option Bool) where
  unfoldable pub glob_match : String → String → Bool
  unfolding glob_regex
  glob_match pattern path = unwrap_bool (is_match (glob_regex pattern) path)

  abbrev pub globbed : Option String → String → Bool
  globbed none path = true
  globbed (some g) path = glob_match g path

  abbrev pub rule_applies : List RuleScope → ScopeKind → String → Bool
  rule_applies [] kind path = false
  rule_applies (s ∷ scopes) kind path =
      (same_kind s.kind kind && globbed s.path_glob path) || rule_applies scopes kind path

  abbrev pub tag : Rule → String → ℕ → String → Option Captures → List TaggedEvidence
  tag rule path line_idx line none = []
  tag rule path line_idx line (some caps) =
      record {
        rule_id = rule.id;
        emit_level = rule.emit_level;
        evidence =
            evidence_of rule.evidence_kind path (line_number line_idx) (take_chars 160 line)
              (captured rule.algorithm_capture caps);
      }
      ∷ []

  -- `content.lines().enumerate().take(left)`
  abbrev pub scan_lines : Rule → String → ℕ → ℕ → List String → List TaggedEvidence
  scan_lines rule path left line_idx [] = []
  scan_lines rule path zero line_idx (line ∷ rest) = []
  scan_lines rule path (suc left) line_idx (line ∷ rest) =
      tag rule path line_idx line (captures rule.pattern line)
      ++ scan_lines rule path left (line_idx + 1) rest

  abbrev pub scan_rules : ScanTarget → ScannedFile → List String → List Rule → List TaggedEvidence
  scan_rules target f content [] = []
  scan_rules target f content (rule ∷ rules) =
      (if not (rule_applies rule.applies_to (classify_file f) f.path)
        then []
        else scan_lines rule f.path target.max_lines 0 content)
      ++ scan_rules target f content rules

  abbrev pub scan_content :
      ScanTarget → List Rule → ScannedFile → Option String → List TaggedEvidence
  scan_content target rules f none = []
  scan_content target rules f (some content) = scan_rules target f (lines content) rules

  abbrev pub scan_file : ScanTarget → List Rule → ScannedFile → Option ℕ → List TaggedEvidence
  scan_file target rules f none = []
  scan_file target rules f (some len) =
      if ltb target.max_file_bytes len then [] else scan_content target rules f f.content

  abbrev pub scan_files : ScanTarget → List Rule → List ScannedFile → List TaggedEvidence
  scan_files target rules [] = []
  scan_files target rules (f ∷ fs) = scan_file target rules f f.len ++ scan_files target rules fs

  abbrev pub block_of : List TaggedEvidence → AgilityBlock
  block_of tagged = record {
    level = aggregate_tagged_level tagged;
    level_score = score (aggregate_tagged_level tagged);
    evidence = map (λ t. t.evidence) tagged;
    scanner_version = "ree0xq-agility/0.1.0";
    rubric_version = "qra-rubric/v1.0";
  }

  unfoldable pub scan_target : ScanTarget → List Rule → List ScannedFile → AgilityBlock
  scan_target target rules fs = block_of (scan_files target rules fs)
