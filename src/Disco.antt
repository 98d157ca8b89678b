-- ===== src/Disco.antt =====
-- crates/ts-disco: path discovery; here src/message.rs, its three messages. An address of
-- `core::net` is its octets; the flow and scope of an IPv6 socket address do not travel.
pub mod RoundTrip
mod Tests
use tailfeather.Common.{
  ℕ, zero, suc, ◌+◌, ◌-◌, ◌*◌, ◌%◌, ltb, leb, not, ◌==◌, if◌then◌else◌, bytes_eq,
}
use tailfeather.Common.{
  List, [], ◌∷◌, ◌++◌, length, take, drop, get_or, Option, none, some, Result, ok, err, ◌>>=◌,
}
use tailfeather.Common.Bytes.{be16, from_be16, put_front}

pub data Error : Type 0 where
  malformed decryption unsupported buffer_too_small : Error

abbrev pub type_ping : ℕ
type_ping = 0x01

abbrev pub type_pong : ℕ
type_pong = 0x02

abbrev pub type_call_me_maybe : ℕ
type_call_me_maybe = 0x03

abbrev pub version : ℕ
version = 0

abbrev pub header_len : ℕ
header_len = 2

abbrev pub address_len : ℕ
address_len = 18

abbrev pub max_endpoints : ℕ
max_endpoints = 8

pub data IpAddr : Type 0 where
  v4 : List ℕ → IpAddr
  v6 : List ℕ → IpAddr

pub record SocketAddr : Type 0 where
  pub ip : IpAddr
  pub port : ℕ

pub record Ping : Type 0 where
  pub tx_id : List ℕ
  pub node_key : Option (List ℕ)

pub record Pong : Type 0 where
  pub tx_id : List ℕ
  pub src : SocketAddr

pub data Message : Type 0 where
  ping : Ping → Message
  pong : Pong → Message
  call_me_maybe : List SocketAddr → Message

-- The front of an IPv4-mapped address.
abbrev pub mapped_prefix : List ℕ
mapped_prefix = 0 ∷ 0 ∷ 0 ∷ 0 ∷ 0 ∷ 0 ∷ 0 ∷ 0 ∷ 0 ∷ 0 ∷ 0xff ∷ 0xff ∷ []

unfoldable pub octets_of : IpAddr → List ℕ
octets_of (v4 octets) = mapped_prefix ++ octets
octets_of (v6 octets) = octets

-- `Ipv6Addr::to_ipv4_mapped`.
unfoldable pub to_ipv4_mapped : List ℕ → Option (List ℕ)
unfolding bytes_eq
to_ipv4_mapped octets =
    if bytes_eq (take 12 octets) mapped_prefix then some (drop 12 octets) else none

-- What `write_address` writes.
unfoldable pub address_bytes : SocketAddr → List ℕ
unfolding octets_of be16
address_bytes a = octets_of a.ip ++ be16 a.port

unfoldable pub read_address : List ℕ → Result Error SocketAddr
unfolding to_ipv4_mapped
read_address bytes =
    let octets = take 16 bytes in
    let port = from_be16 (get_or bytes 16 0) (get_or bytes 17 0) in
    if ltb (length bytes) 16
    then err malformed
    else ok (record {
      ip = elim (to_ipv4_mapped octets) [ some four ↦ v4 four | none ↦ v6 octets ];
      port = port;
    })

unfoldable pub key_bytes : Option (List ℕ) → List ℕ
key_bytes (some key) = key
key_bytes none = []

unfoldable pub endpoint_bytes : List SocketAddr → List ℕ
endpoint_bytes [] = []
endpoint_bytes (a ∷ as_) = address_bytes a ++ endpoint_bytes as_

-- The bytes of a message.
unfoldable pub message_bytes : Message → List ℕ
unfolding key_bytes endpoint_bytes address_bytes
message_bytes (ping p) = type_ping ∷ version ∷ (p.tx_id ++ key_bytes p.node_key)
message_bytes (pong p) = type_pong ∷ version ∷ (p.tx_id ++ address_bytes p.src)
message_bytes (call_me_maybe endpoints) = type_call_me_maybe ∷ version ∷ endpoint_bytes endpoints

unfoldable pub encode : Message → List ℕ → List ℕ × Result Error ℕ
unfolding message_bytes
encode m out = put_front buffer_too_small (message_bytes m) out

unfoldable pub decode_ping : List ℕ → Result Error Message
decode_ping body =
    if ltb (length body) 12
    then err malformed
    else ok (
        ping (record {
          tx_id = take 12 body;
          node_key = if leb (12 + 32) (length body) then some (take 32 (drop 12 body)) else none;
        }))

unfoldable pub decode_pong : List ℕ → Result Error Message
decode_pong body =
    if ltb (length body) (12 + address_len)
    then err malformed
    else (read_address (take address_len (drop 12 body)) >>= λ src.
        ok (pong (record { tx_id = take 12 body; src = src })))

-- The loop over `chunks_exact`, with room left for some endpoints; the chunk past them is read and
-- ends the loop.
unfoldable pub read_endpoints : ℕ → List ℕ → Result Error (List SocketAddr)
read_endpoints zero body =
    if ltb (length body) address_len
    then ok []
    else (read_address (take address_len body) >>= λ a. ok [])
read_endpoints (suc room) body =
    let more = read_endpoints room (drop address_len body) in
    if ltb (length body) address_len
    then ok []
    else (read_address (take address_len body) >>= λ a. more >>= λ as_. ok (a ∷ as_))

unfoldable pub decode_call_me_maybe : List ℕ → Result Error Message
decode_call_me_maybe body =
    read_endpoints max_endpoints body >>= λ endpoints. ok (call_me_maybe endpoints)

unfoldable pub decode : List ℕ → Result Error Message
decode bytes =
    let kind = get_or bytes 0 0 in
    let body = drop header_len bytes in
    if ltb (length bytes) header_len
    then err malformed
    else if not (get_or bytes 1 0 == version)
    then err unsupported
    else if kind == type_ping
    then decode_ping body
    else if kind == type_pong
    then decode_pong body
    else if kind == type_call_me_maybe
    then decode_call_me_maybe body
    else err unsupported
