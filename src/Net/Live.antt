-- ===== src/Net/Live.antt =====
-- The pcap observer: `observe_pcap_with_dedup` and `handle_frame` of crates/ree0xq-net/src/live.rs. The
-- packets are a list; slicing a frame into its layers, and the clocks, are arguments.
pub mod Accounting
use ree0x_q.Base.{
  ℕ, zero, suc, ◌+◌, ◌*◌, ◌/◌, ◌%◌, ◌^◌, Bool, true, false, not, ◌&&◌, String, Option, none, some,
  List, [], ◌∷◌, ◌++◌, length, drop, get_elem?, eqb, ltb, if◌then◌else◌, as_bytes, text_append,
  padded, show,
}
use Prim.Native.Nat.{bit_xor}
use ree0x_q.Core.{
  DateTime, CryptoInventoryEvent, Primitive, tls_session, schema_version, schema_minor,
}
use ree0x_q.Net.Cursor.{Outcome, ok, err, panic, stalled}
use ree0x_q.Net.Tls.{HandshakeKind, client_hello, server_hello, HandshakeSummary, parse_handshake}
use ree0x_q.Net.Names.{primitives_from_summary}
use ree0x_q.Net.Dedup.{DedupCache, observe_at}

pub record ObservationStats : Type 0 where
  pub packets_seen : ℕ
  pub packets_skipped_unparseable : ℕ
  pub packets_skipped_empty_payload : ℕ
  pub handshake_packets : ℕ
  pub handshakes_parsed : ℕ
  pub handshakes_parse_failed : ℕ
  pub handshakes_deduplicated : ℕ
  pub events_emitted : ℕ

abbrev pub no_stats : ObservationStats
no_stats = record {
  packets_seen = 0;
  packets_skipped_unparseable = 0;
  packets_skipped_empty_payload = 0;
  handshake_packets = 0;
  handshakes_parsed = 0;
  handshakes_parse_failed = 0;
  handshakes_deduplicated = 0;
  events_emitted = 0;
}

-- What slicing a frame gives: the addresses, and the ports and payload of TCP, if it is TCP.
pub record TcpSegment : Type 0 where
  pub src_port : ℕ
  pub dst_port : ℕ
  pub payload : List ℕ

pub record Sliced : Type 0 where
  pub src_ip : Option String
  pub dst_ip : Option String
  pub tcp : Option TcpSegment

-- A packet of the reader, or a read error.
abbrev pub Packet : Type 0
Packet = Option (List ℕ)

-- FNV-1a.
abbrev pub fnv : ℕ → List ℕ → ℕ
fnv h [] = h
fnv h (b ∷ bs) = fnv ((bit_xor h b * 0x100000001b3) % 2 ^ 64) bs

abbrev pub or_unknown : Option String → String
or_unknown none = "?"
or_unknown (some ip) = ip

unfoldable pub session_identity : Option String → ℕ → Option String → ℕ → String
session_identity src_ip src_port dst_ip dst_port =
    let h₁ = fnv 0xcbf29ce484222325 (as_bytes (or_unknown src_ip)) in
    let h₂ = fnv h₁ (as_bytes ":") in
    let h₃ = fnv h₂ (as_bytes (show src_port)) in
    let h₄ = fnv h₃ (as_bytes "|") in
    let h₅ = fnv h₄ (as_bytes (or_unknown dst_ip)) in
    let h₆ = fnv h₅ (as_bytes ":") in
    text_append "live-" (padded 16 16 (fnv h₆ (as_bytes (show dst_port))))

abbrev pub kind_text : HandshakeKind → String
kind_text client_hello = "ClientHello"
kind_text server_hello = "ServerHello"

abbrev pub joined : List Primitive → String
joined [] = ""
joined (p ∷ []) = p.algorithm
joined (p ∷ q ∷ ps) = text_append p.algorithm (text_append ", " (joined (q ∷ ps)))

abbrev pub rationale_of : HandshakeKind → List Primitive → String
rationale_of kind [] = text_append (kind_text kind) " observed but no primitives extracted"
rationale_of kind (p ∷ ps) = text_append (kind_text kind) (
    text_append ": " (
      text_append (show (length (p ∷ ps)))
        (text_append " primitive(s) [" (text_append (joined (p ∷ ps)) "]"))))

unfoldable pub build_live_event :
    DateTime → String → String → HandshakeKind → List Primitive → CryptoInventoryEvent
build_live_event now host identity kind primitives = record {
  schema_version = schema_version;
  schema_minor = schema_minor;
  source_module = "ree0xq-net";
  observed_at = now;
  asset = record { kind = tls_session; identity = identity; host = some host };
  primitives = primitives;
  channel_protection = none;
  agility = none;
  posture = record {
    score = 50;
    rationale = rationale_of kind primitives;
    recommended_replacement = none;
  };
}

abbrev pub host_of : Option String → ℕ → String
host_of none dst_port = text_append "port:" (show dst_port)
host_of (some ip) dst_port = text_append ip (text_append ":" (show dst_port))

-- The observer's state: the statistics, the cache if there is one, and the events so far.
pub record Observer : Type 0 where
  pub stats : ObservationStats
  pub dedup : Option DedupCache
  pub events : List CryptoInventoryEvent

abbrev pub skip_unparseable : Observer → Observer
skip_unparseable o = record o {
  stats = record (o.stats) {
    packets_skipped_unparseable = o.stats.packets_skipped_unparseable + 1;
  };
}

abbrev pub skip_empty : Observer → Observer
skip_empty o = record o {
  stats = record (o.stats) {
    packets_skipped_empty_payload = o.stats.packets_skipped_empty_payload + 1;
  };
}

abbrev pub count_handshake : Observer → Observer
count_handshake o = record o {
  stats = record (o.stats) { handshake_packets = o.stats.handshake_packets + 1 };
}

abbrev pub count_failed : Observer → Observer
count_failed o = record o {
  stats = record (o.stats) { handshakes_parse_failed = o.stats.handshakes_parse_failed + 1 };
}

abbrev pub count_parsed : Observer → Observer
count_parsed o = record o {
  stats = record (o.stats) { handshakes_parsed = o.stats.handshakes_parsed + 1 };
}

abbrev pub count_duplicate : Observer → Observer
count_duplicate o = record o {
  stats = record (o.stats) { handshakes_deduplicated = o.stats.handshakes_deduplicated + 1 };
}

abbrev pub emit : Observer → CryptoInventoryEvent → Observer
emit o ev = record o {
  stats = record (o.stats) { events_emitted = o.stats.events_emitted + 1 };
  events = o.events ++ ev ∷ [];
}

-- `cache.observe(&identity)`: the cache after it, and whether the session is new.
abbrev pub consult : Option DedupCache → String → ℕ → Option DedupCache × Bool
consult none identity instant = (none, true)
consult (some cache) identity instant =
    let (cache', is_new) = observe_at cache identity instant in (some cache', is_new)

abbrev pub is_handshake : Option ℕ → Option ℕ → Bool
is_handshake (some content) (some kind) =
    eqb content 0x16 && not (not (eqb kind 0x01) && not (eqb kind 0x02))
is_handshake none kind = false
is_handshake (some content) none = false

-- The part behind a successful parse.
abbrev pub report : Observer → ℕ → DateTime → Sliced → TcpSegment → HandshakeSummary → Observer
report o instant now parsed tcp summary =
    let identity = session_identity parsed.src_ip tcp.src_port parsed.dst_ip tcp.dst_port in
    let (dedup, is_new) = consult o.dedup identity instant in
    let o' : Observer = record o { dedup = dedup } in
    if not is_new
    then count_duplicate o'
    else emit o' (
        build_live_event now (host_of parsed.dst_ip tcp.dst_port) identity summary.msg_kind
          (primitives_from_summary summary))

-- A panic of the parser would end the observer; it is no outcome of `parse_handshake`.
abbrev pub parsed_body :
    Observer → ℕ → DateTime → Sliced → TcpSegment → Outcome HandshakeSummary → Observer
parsed_body o instant now parsed tcp (ok summary) =
    report (count_parsed o) instant now parsed tcp summary
parsed_body o instant now parsed tcp (err e) = count_failed o
parsed_body o instant now parsed tcp panic = o
parsed_body o instant now parsed tcp stalled = o

abbrev pub handle_payload : Observer → ℕ → DateTime → Sliced → TcpSegment → Observer
handle_payload o instant now parsed tcp =
    if eqb (length tcp.payload) 0
    then skip_empty o
    else (if not (is_handshake (get_elem? tcp.payload 0) (get_elem? tcp.payload 5))
        then o
        else parsed_body (count_handshake o) instant now parsed tcp
            (parse_handshake (drop 5 tcp.payload)))

abbrev pub handle_transport : Observer → ℕ → DateTime → Sliced → Option TcpSegment → Observer
handle_transport o instant now parsed none = o
handle_transport o instant now parsed (some tcp) = handle_payload o instant now parsed tcp

-- What the caller does with an unparseable frame is included.
abbrev pub handle_sliced : Observer → ℕ → DateTime → Option Sliced → Observer
handle_sliced o instant now none = skip_unparseable o
handle_sliced o instant now (some parsed) = handle_transport o instant now parsed parsed.tcp

abbrev pub see_packet : Observer → Observer
see_packet o = record o { stats = record (o.stats) { packets_seen = o.stats.packets_seen + 1 } }

module _ (from_ethernet : List ℕ → Option Sliced) where
  unfoldable pub handle_frame : Observer → ℕ → DateTime → List ℕ → Observer
  handle_frame o instant now frame = handle_sliced o instant now (from_ethernet frame)

  abbrev pub handle_packet : Observer → ℕ → DateTime → Packet → Observer
  handle_packet o instant now none = skip_unparseable o
  handle_packet o instant now (some frame) = handle_frame o instant now frame

  -- Each packet comes with the two clocks at its turn.
  abbrev pub observe_packets : Observer → List (ℕ × DateTime × Packet) → Observer
  observe_packets o [] = o
  observe_packets o ((instant, now, packet) ∷ packets) =
      observe_packets (handle_packet (see_packet o) instant now packet) packets

  unfoldable pub observe_pcap_with_dedup :
      Option DedupCache → List (ℕ × DateTime × Packet) → Observer
  observe_pcap_with_dedup dedup packets =
      observe_packets (record { stats = no_stats; dedup = dedup; events = [] }) packets
