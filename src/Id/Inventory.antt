-- ===== src/Id/Inventory.antt =====
-- The offline inventory: `scan` of crates/ree0xq-id/src/inventory.rs. The JSON file is parsed already.
use ree0x_q.Base.{ℕ, ◌+◌, String, Option, none, some, List, [], ◌∷◌, ◌++◌, text_append, show}
use ree0x_q.Core.{DateTime, CryptoInventoryEvent}
use ree0x_q.Id.Algos.{primitives_for}
use ree0x_q.Id.Event.{build_event}

pub record KeyInventory : Type 0 where
  pub key_id : String
  pub key_type : String
  pub key_size_bits : Option ℕ
  pub usage : List String

pub record SlotInventory : Type 0 where
  pub hsm_vendor : String
  pub hsm_model : Option String
  pub slot_id : String
  pub label : Option String
  pub keys : List KeyInventory

pub record ScanStats : Type 0 where
  pub slots_seen : ℕ
  pub keys_seen : ℕ
  pub events_emitted : ℕ

abbrev pub no_stats : ScanStats
no_stats = record { slots_seen = 0; keys_seen = 0; events_emitted = 0 }

-- `{} {}`
abbrev pub spaced : String → String → String
spaced a b = text_append a (text_append " " b)

abbrev pub host_of : SlotInventory → Option String
host_of slot = elim slot.hsm_model [
  | none ↦ some slot.hsm_vendor
  | some model ↦ some (spaced slot.hsm_vendor model)
]

-- `map(|b| format!(" {b}b")).unwrap_or_default()`
abbrev pub bits_text : Option ℕ → String
bits_text none = ""
bits_text (some bits) = text_append " " (text_append (show bits) "b")

-- `usage.join(",")`
abbrev pub comma_joined : List String → String
comma_joined [] = ""
comma_joined (u ∷ []) = u
comma_joined (u ∷ v ∷ us) = text_append u (text_append "," (comma_joined (v ∷ us)))

abbrev pub usage_text : List String → String
usage_text [] = "?"
usage_text (u ∷ us) = comma_joined (u ∷ us)

abbrev pub model_text : Option String → String
model_text none = "(unknown model)"
model_text (some model) = model

abbrev pub rationale_of : SlotInventory → KeyInventory → String
rationale_of slot key =
    text_append (spaced "HSM slot" (spaced slot.slot_id (spaced "on" slot.hsm_vendor))) (
      text_append (text_append " " (model_text slot.hsm_model)) (
        text_append (text_append ": key " (text_append key.key_id " (")) (
          text_append (text_append key.key_type (bits_text key.key_size_bits))
            (text_append "), usage=" (usage_text key.usage)))))

abbrev pub identity_of : SlotInventory → KeyInventory → String
identity_of slot key =
    text_append slot.hsm_vendor
      (text_append "/" (text_append slot.slot_id (text_append "/" key.key_id)))

unfoldable pub event_of : DateTime → SlotInventory → KeyInventory → CryptoInventoryEvent
unfolding primitives_for build_event
event_of now slot key =
    build_event now (identity_of slot key) (host_of slot)
      (primitives_for key.key_type key.key_size_bits) (rationale_of slot key)

abbrev pub count_key : ScanStats → ScanStats
count_key s = record s { keys_seen = s.keys_seen + 1; events_emitted = s.events_emitted + 1 }

-- The loop over the keys of a slot, with the counters so far; it gives the events of the callback.
unfoldable pub scan_keys :
    DateTime → SlotInventory → List KeyInventory → ScanStats → ScanStats × List CryptoInventoryEvent
unfolding event_of
scan_keys now slot [] s = (s, [])
scan_keys now slot (key ∷ keys) s =
    let rest = scan_keys now slot keys (count_key s) in (rest.0, event_of now slot key ∷ rest.1)

unfoldable pub scan_slots :
    DateTime → List SlotInventory → ScanStats → ScanStats × List CryptoInventoryEvent
unfolding scan_keys
scan_slots now [] s = (s, [])
scan_slots now (slot ∷ slots) s =
    let done = scan_keys now slot slot.keys (record s { slots_seen = s.slots_seen + 1 }) in
    let rest = scan_slots now slots done.0 in (rest.0, done.1 ++ rest.1)

unfoldable pub scan : DateTime → List SlotInventory → ScanStats × List CryptoInventoryEvent
unfolding scan_slots
scan now inventory = scan_slots now inventory no_stats
