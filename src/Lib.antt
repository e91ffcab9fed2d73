-- ===== src/Lib.antt =====
-- Verification library of ree0xQ.
--
-- ree0xQ in the model: agents observe the cryptography that is in use, normalise each observation to
-- one event schema, and post the events to a collector, which keeps the newest event of each asset;
-- agents enrol with one-time tokens; the agility tools scan configuration and plan migrations.
--
-- Parts and files. Paths are from the root of the repository.
--
-- - Core: the event schema, crates/ree0xq-core/src/lib.rs. Times are nanoseconds as natural numbers,
--   an f32 is its bit pattern.
-- - Net/Cursor, Net/Tls: `Cursor` and `parse_handshake` of crates/ree0xq-net/src/tls/mod.rs. Each read
--   is a function of the cursor into a summary, an error, a panic (an index out of range) or `stalled`
--   (a loop out of fuel). The fuel is one more than the length of the buffer, and each turn of a loop
--   consumes at least a byte of it. Net/Tls/RoundTrip writes the wire format independently of the parser.
-- - Net/Names, Net/Algos: the code tables and `primitives_from_summary` of the same file, and the
--   classification functions of crates/ree0xq-net/src/algos.rs. Net/Names calls Net/Algos, as the code does.
-- - Net/Dedup: `DedupCache` of crates/ree0xq-net/src/dedup.rs; its map is an association list, its
--   counter saturates at 2 ^ 64 - 1.
-- - Net/Live: the pcap path of crates/ree0xq-net/src/live.rs, from a frame to an event, over the parser, the
--   tables and the cache; slicing a frame into its layers is an argument.
-- - Net/Spool: `append`, `len` and `drain` of crates/ree0xq-net/src/spool.rs. The file is its list of lines;
--   the JSON library and the callback are arguments.
-- - Net/Zgrab: the records of an external scanner, crates/ree0xq-net/src/zgrab/mod.rs, and `build_tls_event` of
--   lib.rs. Net/Probe: the names and the result of crates/ree0xq-net/src/pq_probe.rs; the connection is an argument.
-- - Server/Store: `InMemoryEventStore` of crates/ree0xq-server/src/store.rs. Store/Race splits `append`
--   into its critical sections and runs several calls under any schedule.
-- - Server/Ingest: the ingestion handlers of crates/ree0xq-server/src/routes.rs over that store.
-- - Server/Posture, Server/Inventory: crates/ree0xq-server/src/posture.rs over an interface of f32 operations,
--   and the three routes of routes.rs that apply it to the store.
-- - Server/RateLimit: `RateLimiter` of crates/ree0xq-server/src/ratelimit.rs.
-- - Server/Enrol: the token store and the handlers of crates/ree0xq-server/src/enrol.rs. Fresh UUIDs, the
--   clock and the signing by the CA are arguments.
-- - Agility/Levels, Agility/Scan: crates/ree0xq-agility/src/scanner.rs with the rule types of rules.rs.
--   The files of the walk and the two calls of the regex library are arguments.
-- - Agility/Recommend, Agility/Roadmap: recommend.rs and roadmap.rs of the same crate. The sum and the
--   division of f32 numbers are arguments of the roadmap.
-- - Qkd/Wire, Qkd/Base64, Qkd/Emulator: the messages and the key management entity of crates/ree0xq-qkd/src/etsi014
--   and src/emulator. Each handler is one step under the write lock; UUIDs and random bytes are arguments.
-- - Qkd/Collector, Qkd/Replay: link health and one poll of crates/ree0xq-qkd/src/collector, and the scenarios of
--   src/replay. The HTTP client is a function from URLs to answers.
-- - Cert/X509: crates/ree0xq-cert/src/cert.rs over the readers of PEM and X.509. Cert/Ct, Cert/Vault and
--   Cert/Host are the scans of ct.rs, vault.rs and scan.rs over it, with their backends as arguments.
-- - Chain: the three address classifiers of crates/ree0xq-chain/src, which share the loop of Chain/Scan.
-- - Id/Algos, Id/Inventory, Id/Kms: the classification of keys, the offline inventory and the cloud backend of
--   crates/ree0xq-id/src.
-- - Agility/Compat, Agility/Deadlines: the two tables of the same crate, compat.rs and deadlines.rs, with
--   their lookups.
-- - Server/Routes: the other read-only routes of routes.rs over the store, the recommender, the two tables and
--   the roadmap. Server/ClientKey: `client_key` of ratelimit.rs.
-- - Base: shared tests, lists, text, maps (Base/Dict), the stable sort (Base/Sort), signed numbers and
--   binary digits. Tests: runs on small inputs.
--
-- Every map of the code is an association list whose order stands for the map's iteration order.
-- Line numbers of a scan keep the u32 cast of the code. The log macros and the pauses between requests are
-- left out. Not modelled: the interface loaders, the loop over the pages of the
-- cloud backend, the PKCS#11 sessions; and the I/O around the parts (sockets, files, eBPF, SQL and the command
-- lines), which only calls libraries.
pub mod Base
pub mod Core
pub mod Agility
pub mod Net
pub mod Server
pub mod Qkd
pub mod Chain
pub mod Id
pub mod Cert
pub mod Tests
