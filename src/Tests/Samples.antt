-- ===== src/Tests/Samples.antt =====
-- Inputs that the tests share.
use ree0x_q.Base.{leb, eqb, ltb, ◌-◌, ◌+◌, ◌*◌, ◌/◌, ℕ, none, some, [], ◌∷◌, false, replicate}
use ree0x_q.Core.{Asset, tls_session, Primitive, sig, encrypt, CryptoInventoryEvent}
use ree0x_q.Server.Posture.{Float}
use ree0x_q.Server.Inventory.{Settings}
use ree0x_q.Net.Tls.RoundTrip.{groups, schemes, versions, other}
use ree0x_q.Net.Tls.RoundTrip.Hello.{Hello}

abbrev pub signing : Primitive
signing = record {
  role = sig;
  algorithm = "RSA-PKCS1-2048";
  parameters = [];
  pq_resistant = some false;
  nist_classification = none;
}

abbrev pub encrypting : Primitive
encrypting = record {
  role = encrypt;
  algorithm = "AES-128";
  parameters = [];
  pq_resistant = some false;
  nist_classification = none;
}

abbrev pub host : Asset
host = record { kind = tls_session; identity = "10.0.0.1:443"; host = none }

abbrev pub event_at : ℕ → CryptoInventoryEvent
event_at time = record {
  schema_version = 1;
  schema_minor = 1;
  source_module = "ree0xq-net";
  observed_at = time;
  asset = host;
  primitives = signing ∷ [];
  channel_protection = none;
  agility = none;
  posture = record { score = 4; rationale = "test"; recommended_replacement = none };
}

-- The ClientHello of the unit tests in crates/ree0xq-net/src/tls/mod.rs, with one unknown extension.
abbrev pub sample_hello : Hello
sample_hello = record {
  version = 0x0303;
  random = replicate 32 0;
  session_id = [];
  suites = 0x1301 ∷ 0x1302 ∷ [];
  compression = 0 ∷ [];
  extensions =
      groups (0x001d ∷ 0x11ec ∷ []) []
      ∷ schemes (0x0403 ∷ []) (7 ∷ [])
      ∷ other 0x0010 (1 ∷ 2 ∷ [])
      ∷ versions (0x0304 ∷ []) []
      ∷ [];
}

-- A stand-in for the arithmetic of f32 numbers.
abbrev pub toy : Float
toy = record {
  add = λ a b. a + b;
  sub = λ a b. a - b;
  mul = λ a b. a * b;
  div = λ a b. a / b;
  lt = ltb;
  le = leb;
  is_zero = λ a. eqb a 0;
  from_i64 = λ i. 0;
}

abbrev pub settings : Settings
settings = record { default_deadline = 100; horizon_years = 7 }
