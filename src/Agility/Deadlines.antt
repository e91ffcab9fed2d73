-- ===== src/Agility/Deadlines.antt =====
-- The regulator deadlines: crates/ree0xq-agility/src/deadlines.rs. A date is given by its day since
-- 1970-01-01.
use ree0x_q.Base.{
  ℕ, ◌+◌, ◌*◌, Bool, ◌&&◌, String, List, [], ◌∷◌, map, codes, begins, leb, keep, sort_by_key,
  upper_code,
}
use ree0x_q.Core.{DateTime, unix_epoch_day}

pub record DeadlineEntry : Type 0 where
  pub jurisdiction : String
  pub label : String
  pub effective_date : DateTime
  pub asset_class : String
  pub source : String

-- Midnight of a day, in nanoseconds since the first.
abbrev pub d : ℕ → DateTime
d day = (unix_epoch_day + day) * 86_400_000_000_000

abbrev pub effective : DeadlineEntry → ℕ
effective e = e.effective_date

-- The entries as they are written down.
abbrev pub entries : List DeadlineEntry
entries =
    (record {
      jurisdiction = "US-NSA";
      label = "CNSA 2.0 — software / firmware signing in PQC";
      effective_date = d 20_089;
      asset_class = "code-signing";
      source = "https://media.defense.gov/2022/Sep/07/2003071836/-1/-1/0/CSI_CNSA_2.0_FAQ_.PDF";
    })
    ∷ (record {
      jurisdiction = "US-NSA";
      label = "CNSA 2.0 — browsers and servers";
      effective_date = d 21_915;
      asset_class = "browsers, servers";
      source = "https://media.defense.gov/2022/Sep/07/2003071836/-1/-1/0/CSI_CNSA_2.0_FAQ_.PDF";
    })
    ∷ (record {
      jurisdiction = "US-NSA";
      label = "CNSA 2.0 — network equipment";
      effective_date = d 21_915;
      asset_class = "network equipment";
      source = "https://media.defense.gov/2022/Sep/07/2003071836/-1/-1/0/CSI_CNSA_2.0_FAQ_.PDF";
    })
    ∷ (record {
      jurisdiction = "US-NSA";
      label = "CNSA 2.0 — operating systems and traditional networking";
      effective_date = d 23_011;
      asset_class = "operating systems";
      source = "https://media.defense.gov/2022/Sep/07/2003071836/-1/-1/0/CSI_CNSA_2.0_FAQ_.PDF";
    })
    ∷ (record {
      jurisdiction = "US-NIST";
      label = "NIST IR 8547 — deprecation of RSA-2048 / ECDSA-P256 for federal systems";
      effective_date = d 22_279;
      asset_class = "federal systems";
      source = "https://csrc.nist.gov/pubs/ir/8547/ipd";
    })
    ∷ (record {
      jurisdiction = "US-NIST";
      label = "NIST IR 8547 — disallowance of RSA / ECDSA / DH";
      effective_date = d 24_105;
      asset_class = "federal systems";
      source = "https://csrc.nist.gov/pubs/ir/8547/ipd";
    })
    ∷ (record {
      jurisdiction = "EU-ANSSI";
      label = "ANSSI Phase 2 — hybrid PQ in production for high-assurance";
      effective_date = d 21_915;
      asset_class = "high-assurance";
      source =
          "https://www.ssi.gouv.fr/uploads/2022/01/anssi-technical_position_papers-post_quantum_cryptography_transition.pdf";
    })
    ∷ (record {
      jurisdiction = "EU-ANSSI";
      label = "ANSSI Phase 3 — PQ-only requirement";
      effective_date = d 23_741;
      asset_class = "high-assurance";
      source =
          "https://www.ssi.gouv.fr/uploads/2022/01/anssi-technical_position_papers-post_quantum_cryptography_transition.pdf";
    })
    ∷ (record {
      jurisdiction = "DE-BSI";
      label = "BSI TR-02102-1 — hybrid PQ recommendation";
      effective_date = d 20_454;
      asset_class = "general";
      source =
          "https://www.bsi.bund.de/SharedDocs/Downloads/EN/BSI/Publications/TechGuidelines/TG02102/BSI-TR-02102-1.html";
    })
    ∷ (record {
      jurisdiction = "UK-NCSC";
      label = "NCSC — start of PQ deployment window for CNI operators";
      effective_date = d 21_184;
      asset_class = "critical national infrastructure";
      source =
          "https://www.ncsc.gov.uk/whitepaper/next-steps-preparing-for-post-quantum-cryptography";
    })
    ∷ (record {
      jurisdiction = "UK-NCSC";
      label = "NCSC — PQ-complete migration target for CNI";
      effective_date = d 23_741;
      asset_class = "critical national infrastructure";
      source =
          "https://www.ncsc.gov.uk/whitepaper/next-steps-preparing-for-post-quantum-cryptography";
    })
    ∷ []

unfoldable pub build_table : List DeadlineEntry
build_table = sort_by_key effective entries

unfoldable pub all : List DeadlineEntry
unfolding build_table
all = build_table

-- `e.effective_date >= now && e.effective_date <= end`
abbrev pub in_window : DateTime → DateTime → DeadlineEntry → Bool
in_window now end e = leb now e.effective_date && leb e.effective_date end

unfoldable pub within : DateTime → ℕ → List DeadlineEntry
unfolding build_table
within now horizon = keep (in_window now (now + horizon)) build_table

abbrev pub upper_codes : String → List ℕ
upper_codes s = map upper_code (codes s)

-- The prefix in any letter case.
abbrev pub has_jurisdiction : String → DeadlineEntry → Bool
has_jurisdiction prefix e = begins (upper_codes e.jurisdiction) (upper_codes prefix)

unfoldable pub for_jurisdiction : String → List DeadlineEntry
unfolding build_table
for_jurisdiction prefix = keep (has_jurisdiction prefix) build_table
