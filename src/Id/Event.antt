-- ===== src/Id/Event.antt =====
-- `build_event` of crates/ree0xq-id/src/event.rs.
use ree0x_q.Base.{String, Option, none, List}
use ree0x_q.Core.{DateTime, CryptoInventoryEvent, Primitive, hsm_slot, schema_version, schema_minor}

unfoldable pub build_event :
    DateTime → String → Option String → List Primitive → String → CryptoInventoryEvent
build_event now identity host primitives rationale = record {
  schema_version = schema_version;
  schema_minor = schema_minor;
  source_module = "ree0xq-id";
  observed_at = now;
  asset = record { kind = hsm_slot; identity = identity; host = host };
  primitives = primitives;
  channel_protection = none;
  agility = none;
  posture = record { score = 50; rationale = rationale; recommended_replacement = none };
}
