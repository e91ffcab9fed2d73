-- ===== src/Chain/Event.antt =====
-- `build_event` and `load_addresses` of crates/ree0xq-chain/src/event.rs. The lines of a file are an
-- argument.
use ree0x_q.Base.{
  ℕ, Bool, true, String, some, none, List, [], ◌∷◌, codes, eqb, if◌then◌else◌, text_append, trim,
}
use ree0x_q.Core.{
  DateTime, CryptoInventoryEvent, Primitive, blockchain_key, schema_version, schema_minor,
}

unfoldable pub build_event :
    DateTime → String → String → List Primitive → String → CryptoInventoryEvent
build_event now chain address primitives rationale = record {
  schema_version = schema_version;
  schema_minor = schema_minor;
  source_module = "ree0xq-chain";
  observed_at = now;
  asset = record {
    kind = blockchain_key;
    identity = text_append chain (text_append ":" address);
    host = some chain;
  };
  primitives = primitives;
  channel_protection = none;
  agility = none;
  posture = record { score = 50; rationale = rationale; recommended_replacement = none };
}

-- Blank, or it starts with `#` (35).
abbrev pub is_comment : List ℕ → Bool
is_comment [] = true
is_comment (c ∷ cs) = eqb c 35

unfoldable pub load_addresses : List String → List String
load_addresses [] = []
load_addresses (line ∷ rest) =
    let trimmed = trim line in
    let out = load_addresses rest in if is_comment (codes trimmed) then out else trimmed ∷ out
