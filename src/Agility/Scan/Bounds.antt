-- ===== src/Agility/Scan/Bounds.antt =====
-- What the scanner puts in a block, whatever the files and the regex library are.
use ree0x_q.Base.{
  ℕ, zero, suc, ◌+◌, ◌^◌, ◌≤◌, ◌<◌, Bool, String, Option, none, some, List, [], ◌∷◌, map, length,
  ltb, codes, arith, All, All-append, Bool-cases, inl, inr,
}
use ree0x_q.Core.{
  AgilityEvidence, protocol_negotiation, config_pattern, code_pattern, firmware_string, fips_mode,
  vendor_declaration,
}
use ree0x_q.Agility.Levels.{TaggedEvidence, EvidenceKind, config_kind, code_kind, firmware_kind}
use ree0x_q.Agility.Scan.{
  Rule, ScanTarget, ScannedFile, lines, take_chars, evidence_of, line_number, Captures, captured,
  tag, scan_lines, scan_rules, scan_content, scan_file, scan_files, scan_target, rule_applies,
  classify_file,
}

-- A line number of the file that the scanner looks at, and a snippet of bounded length; of the
-- other kinds of evidence the scanner makes only firmware strings.
abbrev pub IsBounded : ScanTarget → AgilityEvidence → Type 0
IsBounded target (protocol_negotiation protocol algorithms) = ⊥
IsBounded target (config_pattern file line snippet) =
    (1 ≤ line) × (line ≤ target.max_lines) × (length (codes snippet) ≤ 160)
IsBounded target (code_pattern file line snippet algorithm) =
    (1 ≤ line) × (line ≤ target.max_lines) × (length (codes snippet) ≤ 160)
IsBounded target (firmware_string path algorithm) = Unit
IsBounded target (fips_mode enabled) = ⊥
IsBounded target (vendor_declaration source) = ⊥

length-take_chars : (n : ℕ) (s : String) → length (codes (take_chars n s)) ≤ n
length-take_chars zero s = omega arith
length-take_chars (suc n) String.[] = omega arith
length-take_chars (suc n) (String.◌∷◌ c s) = omega (arith, length-take_chars n s)

line_number-le : (i m : ℕ) → i < m → m < 2 ^ 32 → (1 ≤ line_number i) × (line_number i ≤ m)
line_number-le i m lt small = (omega arith, omega arith)

evidence_of-IsBounded :
    (target : ScanTarget) (k : EvidenceKind) (path : String) (i : ℕ) (line : String)
    (a : Option String)
    → i < target.max_lines
    → target.max_lines < 2 ^ 32
    → IsBounded target (evidence_of k path (line_number i) (take_chars 160 line) a)
evidence_of-IsBounded target config_kind path i line a lt small =
    let n = line_number-le i target.max_lines lt small in (n.0, n.1, length-take_chars 160 line)
evidence_of-IsBounded target code_kind path i line a lt small =
    let n = line_number-le i target.max_lines lt small in (n.0, n.1, length-take_chars 160 line)
evidence_of-IsBounded target firmware_kind path i line a lt small = tt

module _ (captures : String → String → Option Captures) (is_match : List ℕ → String → Option Bool)
    (target : ScanTarget) (small : target.max_lines < 2 ^ 32) where
  abbrev Good : TaggedEvidence → Type 0
  Good t = IsBounded target t.evidence

  tag-Good :
      (rule : Rule) (path : String) (i : ℕ) (line : String) (caps : Option Captures)
      → i < target.max_lines
      → All Good (tag captures is_match rule path i line caps)
  tag-Good rule path i line none lt = tt
  tag-Good rule path i line (some caps) lt = (
    evidence_of-IsBounded target rule.evidence_kind path i line
        (captured rule.algorithm_capture caps) lt small,
    tt,
  )

  scan_lines-Good :
      (rule : Rule) (path : String) (left i : ℕ) (ls : List String)
      → left + i ≤ target.max_lines
      → All Good (scan_lines captures is_match rule path left i ls)
  scan_lines-Good rule path left i [] le = tt
  scan_lines-Good rule path zero i (line ∷ rest) le = tt
  scan_lines-Good rule path (suc left) i (line ∷ rest) le =
      All-append Good (tag captures is_match rule path i line (captures rule.pattern line)) _
        (tag-Good rule path i line (captures rule.pattern line) (omega arith))
        (scan_lines-Good rule path left (i + 1) rest (omega arith))

  scan_rules-Good :
      (f : ScannedFile) (content : List String) (rules : List Rule)
      → All Good (scan_rules captures is_match target f content rules)
  scan_rules-Good f content [] = tt
  scan_rules-Good f content (rule ∷ rules) =
      elim (Bool-cases (rule_applies captures is_match rule.applies_to (classify_file f) f.path)) [
        | inr other ↦ rw other (scan_rules-Good f content rules)
        | inl applies ↦ rw applies (
            All-append Good (scan_lines captures is_match rule f.path target.max_lines 0 content) _
              (scan_lines-Good rule f.path target.max_lines 0 content (omega arith))
              (scan_rules-Good f content rules))
      ]

  scan_content-Good :
      (rules : List Rule) (f : ScannedFile) (content : Option String)
      → All Good (scan_content captures is_match target rules f content)
  scan_content-Good rules f none = tt
  scan_content-Good rules f (some content) = scan_rules-Good f (lines content) rules

  scan_file-Good :
      (rules : List Rule) (f : ScannedFile) (len : Option ℕ)
      → All Good (scan_file captures is_match target rules f len)
  scan_file-Good rules f none = tt
  scan_file-Good rules f (some n) = elim (Bool-cases (ltb target.max_file_bytes n)) [
    | inl large ↦ rw large tt
    | inr fits ↦ rw fits (scan_content-Good rules f f.content)
  ]

  scan_files-Good :
      (rules : List Rule) (fs : List ScannedFile)
      → All Good (scan_files captures is_match target rules fs)
  scan_files-Good rules [] = tt
  scan_files-Good rules (f ∷ fs) =
      All-append Good (scan_file captures is_match target rules f f.len) _
        (scan_file-Good rules f f.len) (scan_files-Good rules fs)

  All-evidence :
      (ts : List TaggedEvidence) → All Good ts → All (IsBounded target) (map (λ t. t.evidence) ts)
  All-evidence [] h = tt
  All-evidence (t ∷ ts) h = (h.0, All-evidence ts h.1)

  -- Whatever the files hold and the regex library answers: every evidence of a scan is of a kind
  -- the scanner makes, its line number is 1 to the target's limit of lines (which has to be less
  -- than 2 ^ 32) and its snippet has at most 160 characters.
  pub scan_target-IsBounded :
      (rules : List Rule) (fs : List ScannedFile)
      → All (IsBounded target) (scan_target captures is_match target rules fs).evidence
  unfolding scan_target
  scan_target-IsBounded rules fs = All-evidence _ (scan_files-Good rules fs)
