-- ===== src/Agility/Levels.antt =====
-- The order of the agility levels and the scanner's aggregation over it:
-- crates/ree0xq-agility/src/scanner.rs and the fallback level of crates/ree0xq-agility/src/lib.rs.
use ree0x_q.Base.{
  ℕ, ◌≤◌, Bool, true, false, ◌||◌, String, Option, none, some, List, [], ◌∷◌, leb, if◌then◌else◌,
  ◌≡◌, ◌⊎◌, inl, inr, refl, sym, ap, arith, All, Bool-cases,
}
use mathlib.Core.Path.{subst}
use ree0x_q.Core.{
  AgilityLevel, negotiated, configurable, pinned, locked, frozen, AgilityEvidence, config_pattern,
  code_pattern, firmware_string, protocol_negotiation, fips_mode, vendor_declaration,
}

abbrev pub unknown_level_fallback : AgilityLevel
unknown_level_fallback = pinned

-- The closure `order` of `ord_max` and of `ord_min`.
abbrev pub order : AgilityLevel → ℕ
order negotiated = 4
order configurable = 3
order pinned = 2
order locked = 1
order frozen = 0

abbrev pub ord_max : AgilityLevel → AgilityLevel → AgilityLevel
ord_max a b = if leb (order b) (order a) then a else b

abbrev pub ord_min : AgilityLevel → AgilityLevel → AgilityLevel
ord_min a b = if leb (order a) (order b) then a else b

pub record TaggedEvidence : Type 0 where
  pub rule_id : String
  pub emit_level : AgilityLevel
  pub evidence : AgilityEvidence

abbrev pub pick :
    (AgilityLevel → AgilityLevel → AgilityLevel)
    → Option AgilityLevel
    → AgilityLevel
    → Option AgilityLevel
pick f none l = some l
pick f (some prev) l = some (f prev l)

abbrev pub unwrap_level : Option AgilityLevel → AgilityLevel
unwrap_level none = unknown_level_fallback
unwrap_level (some l) = l

abbrev pub best_of : Option AgilityLevel → List TaggedEvidence → Option AgilityLevel
best_of best [] = best
best_of best (t ∷ ts) = best_of (pick ord_max best t.emit_level) ts

unfoldable pub aggregate_tagged_level : List TaggedEvidence → AgilityLevel
aggregate_tagged_level [] = unknown_level_fallback
aggregate_tagged_level (t ∷ ts) = unwrap_level (best_of none (t ∷ ts))

pub data EvidenceKind : Type 0 where
  config_kind code_kind firmware_kind : EvidenceKind

-- `matches_rule_evidence_kind`
abbrev pub matches_kind : AgilityEvidence → EvidenceKind → Bool
matches_kind (config_pattern file line snippet) config_kind = true
matches_kind (config_pattern file line snippet) code_kind = false
matches_kind (config_pattern file line snippet) firmware_kind = false
matches_kind (code_pattern file line snippet algorithm) config_kind = false
matches_kind (code_pattern file line snippet algorithm) code_kind = true
matches_kind (code_pattern file line snippet algorithm) firmware_kind = false
matches_kind (firmware_string path algorithm) config_kind = false
matches_kind (firmware_string path algorithm) code_kind = false
matches_kind (firmware_string path algorithm) firmware_kind = true
matches_kind (protocol_negotiation protocol algorithms) k = false
matches_kind (fips_mode enabled) k = false
matches_kind (vendor_declaration source) k = false

abbrev pub contributed : List AgilityEvidence → EvidenceKind → Bool
contributed [] k = false
contributed (e ∷ es) k = matches_kind e k || contributed es k

abbrev pub lowest_of :
    List AgilityEvidence
    → Option AgilityLevel
    → List (EvidenceKind × AgilityLevel)
    → Option AgilityLevel
lowest_of evidence lowest [] = lowest
lowest_of evidence lowest ((kind, level) ∷ rules) =
    lowest_of evidence (if contributed evidence kind then pick ord_min lowest level else lowest)
      rules

-- `aggregate_level`, of which a rule's kind and level are all it reads.
unfoldable pub aggregate_level :
    List AgilityEvidence → List (EvidenceKind × AgilityLevel) → AgilityLevel
aggregate_level [] rules = unknown_level_fallback
aggregate_level (e ∷ es) rules = unwrap_level (lowest_of (e ∷ es) none rules)

-- The level is that of some item of the list.
abbrev pub Occurs : AgilityLevel → List TaggedEvidence → Type 0
Occurs l [] = ⊥
Occurs l (t ∷ ts) = (l ≡ t.emit_level) ⊎ Occurs l ts

best_of-max :
    (best : AgilityLevel) (ts : List TaggedEvidence)
    → (l : AgilityLevel) × (best_of (some best) ts ≡ some l)
      × (order best ≤ order l)
      × All (λ t. order t.emit_level ≤ order l) ts
      × ((l ≡ best) ⊎ Occurs l ts)
best_of-max best [] = (best, refl, omega arith, tt, inl refl)
best_of-max best (t ∷ ts) = elim (Bool-cases (leb (order t.emit_level) (order best))) [
  | inl keeps ↦
      let (l, e, above, all, from) = best_of-max best ts in
      (
        l,
        rw keeps e,
        above,
        (ground arith, all),
        elim from [ inl same ↦ inl same | inr later ↦ inr (inr later) ],
      )
  | inr changes ↦
      let (l, e, above, all, from) = best_of-max t.emit_level ts in
      (l, rw changes e, ground arith, (above, all), inr from)
]

-- The level of one of the items, and none of them is more agile.
abbrev pub IsMostAgile : AgilityLevel → List TaggedEvidence → Type 0
IsMostAgile l ts = Occurs l ts × All (λ t. order t.emit_level ≤ order l) ts

-- The level of a scan with evidence is the most agile level of the rules that matched: it is the
-- level of one of them, and no matched rule has a more agile one.
pub aggregate_tagged_level-IsMostAgile :
    (t : TaggedEvidence) (ts : List TaggedEvidence)
    → IsMostAgile (aggregate_tagged_level (t ∷ ts)) (t ∷ ts)
unfolding aggregate_tagged_level
aggregate_tagged_level-IsMostAgile t ts =
    let (l, e, above, all, from) = best_of-max t.emit_level ts in
    subst (λ l. IsMostAgile l (t ∷ ts)) (sym (ap unwrap_level e)) (from, (above, all))
