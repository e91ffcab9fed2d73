-- ===== src/Server/ClientKey.antt =====
-- `client_key` of crates/ree0xq-server/src/ratelimit.rs: whom a request is counted against. A header is none
-- where it is absent or no text.
use ree0x_q.Base.{String, Option, none, some, eqb, if◌then◌else◌, is_blank, trim}
use Prim.Native.Char.{code}

-- `split(',').next()`: the text before the first comma (44).
abbrev pub first_part : String → String
first_part String.[] = String.[]
first_part (String.◌∷◌ c s) = if eqb (code c) 44 then String.[] else String.◌∷◌ c (first_part s)

abbrev pub peer_key : Option String → String
peer_key (some ip) = ip
peer_key none = "unknown"

abbrev pub real_ip_key : Option String → Option String → String
real_ip_key (some xri) peer = if is_blank xri then peer_key peer else trim xri
real_ip_key none peer = peer_key peer

-- The first forwarded address, else the real address, else the peer.
unfoldable pub client_key : Option String → Option String → Option String → String
client_key none xri peer = real_ip_key xri peer
client_key (some xff) xri peer =
    let first = trim (first_part xff) in if is_blank first then real_ip_key xri peer else first
