-- ===== src/Net/Live/Accounting.antt =====
-- The observer's statistics account for every packet and every handshake.
use ree0x_q.Base.{
  ℕ, ◌+◌, Option, none, some, List, [], ◌∷◌, length, length-append, eqb, drop, get_elem?, ◌≡◌, refl,
  arith, Bool-cases, inl, inr,
}
use ree0x_q.Core.{DateTime}
use ree0x_q.Net.Tls.{HandshakeSummary}
use ree0x_q.Net.Tls.Safety.{parse_handshake_total}
use ree0x_q.Net.Dedup.{DedupCache}
use ree0x_q.Net.Live.{
  Observer, Sliced, TcpSegment, Packet, no_stats, count_handshake, count_parsed, session_identity,
  consult, report, is_handshake, handle_payload, handle_transport, handle_sliced, handle_frame,
  see_packet, handle_packet, observe_packets, observe_pcap_with_dedup,
}

-- Each handshake is parsed or fails, each parsed one is emitted or a duplicate, and the events are
-- those counted.
pub record Accounts (o : Observer) : Type 0 where
  pub handshakes :
      o.stats.handshake_packets ≡ o.stats.handshakes_parsed + o.stats.handshakes_parse_failed
  pub parsed : o.stats.handshakes_parsed ≡ o.stats.events_emitted + o.stats.handshakes_deduplicated
  pub emitted : length o.events ≡ o.stats.events_emitted

report-Accounts :
    (o : Observer) (instant : ℕ) (now : DateTime) (parsed : Sliced) (tcp : TcpSegment)
    (summary : HandshakeSummary)
    → Accounts o
    → Accounts (report (count_parsed (count_handshake o)) instant now parsed tcp summary)
report-Accounts o instant now parsed tcp summary a =
    let identity = session_identity parsed.src_ip tcp.src_port parsed.dst_ip tcp.dst_port in
    elim (Bool-cases (consult o.dedup identity instant).1) [
      | inl is_new ↦ rw is_new (record {
        handshakes = omega (arith, a.handshakes);
        parsed = omega (arith, a.parsed);
        emitted = omega (arith, a.emitted, length-append o.events _);
      })
      | inr seen ↦ rw seen (record {
        handshakes = omega (arith, a.handshakes);
        parsed = omega (arith, a.parsed);
        emitted = a.emitted;
      })
    ]

payload-Accounts :
    (o : Observer) (instant : ℕ) (now : DateTime) (parsed : Sliced) (tcp : TcpSegment)
    → Accounts o
    → Accounts (handle_payload o instant now parsed tcp)
payload-Accounts o instant now parsed tcp a =
    let body = drop 5 tcp.payload in
    elim (Bool-cases (eqb (length tcp.payload) 0)) [
      | inl empty ↦
          rw empty (record { handshakes = a.handshakes; parsed = a.parsed; emitted = a.emitted })
      | inr full ↦
          elim (Bool-cases (is_handshake (get_elem? tcp.payload 0) (get_elem? tcp.payload 5))) [
            | inr other ↦ rw (full, other) a
            | inl handshake ↦ elim (parse_handshake_total body) [
              | inl (summary, read) ↦
                  rw (full, handshake, read) (report-Accounts o instant now parsed tcp summary a)
              | inr (e, failed) ↦
                  rw (full, handshake, failed)
                    (record {
                      handshakes = omega (arith, a.handshakes);
                      parsed = a.parsed;
                      emitted = a.emitted;
                    })
            ]
          ]
    ]

transport-Accounts :
    (o : Observer) (instant : ℕ) (now : DateTime) (parsed : Sliced) (tcp : Option TcpSegment)
    → Accounts o
    → Accounts (handle_transport o instant now parsed tcp)
transport-Accounts o instant now parsed none a = a
transport-Accounts o instant now parsed (some tcp) a = payload-Accounts o instant now parsed tcp a

sliced-Accounts :
    (o : Observer) (instant : ℕ) (now : DateTime) (parsed : Option Sliced)
    → Accounts o
    → Accounts (handle_sliced o instant now parsed)
sliced-Accounts o instant now none a = record {
  handshakes = a.handshakes;
  parsed = a.parsed;
  emitted = a.emitted;
}
sliced-Accounts o instant now (some parsed) a = transport-Accounts o instant now parsed parsed.tcp a

module _ (from_ethernet : List ℕ → Option Sliced) where
  packet-Accounts :
      (o : Observer) (instant : ℕ) (now : DateTime) (packet : Packet)
      → Accounts o
      → Accounts (handle_packet from_ethernet (see_packet o) instant now packet)
  unfolding handle_frame
  packet-Accounts o instant now none a = record {
    handshakes = a.handshakes;
    parsed = a.parsed;
    emitted = a.emitted;
  }
  packet-Accounts o instant now (some frame) a =
      sliced-Accounts (see_packet o) instant now (from_ethernet frame)
        (record { handshakes = a.handshakes; parsed = a.parsed; emitted = a.emitted })

  packets-Accounts :
      (o : Observer) (packets : List (ℕ × DateTime × Packet))
      → Accounts o
      → Accounts (observe_packets from_ethernet o packets)
  packets-Accounts o [] a = a
  packets-Accounts o ((instant, now, packet) ∷ packets) a =
      packets-Accounts (handle_packet from_ethernet (see_packet o) instant now packet) packets
        (packet-Accounts o instant now packet a)

  -- Whatever packets a pcap holds, with a dedup cache or without: each handshake packet is counted
  -- as parsed or as failed, each parsed one as emitted or as a duplicate, and the events are
  -- as many as are counted.
  pub observe_pcap_with_dedup-Accounts :
      (dedup : Option DedupCache) (packets : List (ℕ × DateTime × Packet))
      → Accounts (observe_pcap_with_dedup from_ethernet dedup packets)
  unfolding observe_pcap_with_dedup
  observe_pcap_with_dedup-Accounts dedup packets =
      packets-Accounts (record { stats = no_stats; dedup = dedup; events = [] }) packets
        (record { handshakes = omega arith; parsed = omega arith; emitted = refl })
