-- ===== src/Disco/RoundTrip.antt =====
-- A message is read back, and more endpoints than fit are cut off.
use tailfeather.Common.{ℕ, zero, suc, ◌+◌, ◌^◌, ◌≤◌, ◌<◌, ◌≡◌, refl, ap, ap₂, ◌∙◌, arith}
use tailfeather.Common.{ltb, leb, ◌==◌, if◌then◌else◌, bytes_eq, true, false}
use tailfeather.Common.{
  List, [], ◌∷◌, ◌++◌, length, take, drop, get_or, take-append, take_short, take_front, drop_front,
  get_or_behind, length-append, All,
}
use tailfeather.Common.{Option, none, some, ok, err}
use tailfeather.Common.Bytes.{be16, from_be16, from_be16-be16, put_front_fits}
use tailfeather.Disco.{
  Error, address_len, max_endpoints, IpAddr, v4, v6, SocketAddr, Message, ping, pong, call_me_maybe,
  octets_of, to_ipv4_mapped, address_bytes, read_address, key_bytes, endpoint_bytes, message_bytes,
  encode, decode_ping, decode_pong, read_endpoints, decode_call_me_maybe, decode,
}

-- An address as the code keeps it: an IPv4-mapped one is an IPv4 address.
abbrev pub IsAddress : IpAddr → Type 0
IsAddress (v4 octets) = length octets ≡ 4
IsAddress (v6 octets) = (length octets ≡ 16) × (to_ipv4_mapped octets ≡ none)

abbrev pub IsEndpoint : SocketAddr → Type 0
IsEndpoint a = IsAddress a.ip × (a.port < 2 ^ 16)

abbrev pub IsKey : Option (List ℕ) → Type 0
IsKey (some key) = length key ≡ 32
IsKey none = Unit {0}

length-octets_of : (ip : IpAddr) → IsAddress ip → length (octets_of ip) ≡ 16
unfolding octets_of
length-octets_of (v4 octets) h = omega (arith, h)
length-octets_of (v6 octets) h = h.0

ip_of : List ℕ → IpAddr
ip_of octets = elim (to_ipv4_mapped octets) [ some four ↦ v4 four | none ↦ v6 octets ]

ip_of-octets_of : (ip : IpAddr) → IsAddress ip → ip_of (octets_of ip) ≡ ip
unfolding ip_of octets_of
ip_of-octets_of (v4 octets) h = unfold to_ipv4_mapped bytes_eq in refl
ip_of-octets_of (v6 octets) h = rw (ip_of, h.1) refl

length-address_bytes : (a : SocketAddr) → IsEndpoint a → length (address_bytes a) ≡ address_len
unfolding address_bytes be16
length-address_bytes a h =
    omega (arith, length-append (octets_of a.ip) (be16 a.port), length-octets_of a.ip h.0)

read_address_lem :
    (bytes : List ℕ)
    → 16 ≤ length bytes
    → read_address bytes
      ≡ ok (record {
        ip = ip_of (take 16 bytes);
        port = from_be16 (get_or bytes 16 0) (get_or bytes 17 0);
      })
unfolding read_address ip_of
read_address_lem bytes h = rw long refl
  where
    long : ltb (length bytes) 16 ≡ false
    long = ground arith

read_address-address_bytes : (a : SocketAddr) → IsEndpoint a → read_address (address_bytes a) ≡ ok a
unfolding address_bytes be16
read_address-address_bytes a (is_ip, small) =
    read_address_lem (address_bytes a) (omega (arith, length-address_bytes a (is_ip, small)))
    ∙ (λ i. ok (record { ip = ip_is i; port = port_is i }))
  where
    octets : List ℕ
    octets = octets_of a.ip

    ip_is : ip_of (take 16 (octets ++ be16 a.port)) ≡ a.ip
    ip_is =
        ap ip_of (take_front 16 octets (be16 a.port) (length-octets_of a.ip is_ip))
        ∙ ip_of-octets_of a.ip is_ip

    port_is :
        from_be16 (get_or (octets ++ be16 a.port) 16 0) (get_or (octets ++ be16 a.port) 17 0)
        ≡ a.port
    port_is =
        ap₂ from_be16 (get_or_behind 16 octets (be16 a.port) 0 0 (length-octets_of a.ip is_ip))
          (get_or_behind 16 octets (be16 a.port) 1 0 (length-octets_of a.ip is_ip))
        ∙ from_be16-be16 a.port small

-- The first chunk is an endpoint's bytes.
endpoint_first :
    (a : SocketAddr) (rest : List ℕ)
    → IsEndpoint a
    → (ltb (length (address_bytes a ++ rest)) address_len ≡ false)
      × (read_address (take address_len (address_bytes a ++ rest)) ≡ ok a)
      × (drop address_len (address_bytes a ++ rest) ≡ rest)
endpoint_first a rest good = (
  ground (arith, length-append (address_bytes a) rest, length-address_bytes a good),
  ap read_address (take_front address_len (address_bytes a) rest (length-address_bytes a good))
      ∙ read_address-address_bytes a good,
  drop_front address_len (address_bytes a) rest (length-address_bytes a good),
)

read_endpoints-endpoint_bytes :
    (room : ℕ) (endpoints : List SocketAddr)
    → All IsEndpoint endpoints
    → read_endpoints room (endpoint_bytes endpoints) ≡ ok (take room endpoints)
unfolding read_endpoints endpoint_bytes
read_endpoints-endpoint_bytes zero [] all = refl
read_endpoints-endpoint_bytes (suc room) [] all = refl
read_endpoints-endpoint_bytes zero (a ∷ as_) (good, all) =
    let (long, read, rest) = endpoint_first a (endpoint_bytes as_) good in rw (long, read) refl
read_endpoints-endpoint_bytes (suc room) (a ∷ as_) (good, all) =
    let (long, read, rest) = endpoint_first a (endpoint_bytes as_) good in
    rw (long, read, rest, read_endpoints-endpoint_bytes room as_ all) refl

-- A transaction and what it needs to be written.
abbrev pub IsMessage : Message → Type 0
IsMessage (ping p) = (length p.tx_id ≡ 12) × IsKey p.node_key
IsMessage (pong p) = (length p.tx_id ≡ 12) × IsEndpoint p.src
IsMessage (call_me_maybe endpoints) = All IsEndpoint endpoints

-- What is left of a message: at most eight endpoints.
abbrev pub kept : Message → Message
kept (call_me_maybe endpoints) = call_me_maybe (take max_endpoints endpoints)
kept m = m

decode_lem :
    (kind : ℕ) (body : List ℕ)
    → decode (kind ∷ 0 ∷ body) ≡ (
        if kind == 1
        then decode_ping body
        else if kind == 2
        then decode_pong body
        else if kind == 3
        then decode_call_me_maybe body
        else err Error.unsupported)
unfolding decode
decode_lem kind body = rw long refl
  where
    long : ltb (suc (suc (length body))) 2 ≡ false
    long = ground arith

decode_ping-key_bytes :
    (tx : List ℕ) (key : Option (List ℕ))
    → length tx ≡ 12
    → IsKey key
    → decode_ping (tx ++ key_bytes key) ≡ ok (ping (record { tx_id = tx; node_key = key }))
unfolding decode_ping key_bytes
decode_ping-key_bytes tx none t k = rw (long, short, take_front 12 tx [] t) refl
  where
    long : ltb (length (tx ++ [])) 12 ≡ false
    long = ground (arith, length-append tx [])

    short : leb 44 (length (tx ++ [])) ≡ false
    short = ground (arith, length-append tx [])
decode_ping-key_bytes tx (some key) t k =
    rw
      (
        long,
        full,
        take_front 12 tx key t,
        drop_front 12 tx key t,
        take_short 32 key (omega (arith, k)),
      )
      refl
  where
    long : ltb (length (tx ++ key)) 12 ≡ false
    long = ground (arith, length-append tx key)

    full : leb 44 (length (tx ++ key)) ≡ true
    full = ground (arith, length-append tx key)

decode_pong-address_bytes :
    (tx : List ℕ) (a : SocketAddr)
    → length tx ≡ 12
    → IsEndpoint a
    → decode_pong (tx ++ address_bytes a) ≡ ok (pong (record { tx_id = tx; src = a }))
unfolding decode_pong
decode_pong-address_bytes tx a t good =
    rw
      (
        long,
        take_front 12 tx (address_bytes a) t,
        drop_front 12 tx (address_bytes a) t,
        take_short 18 (address_bytes a) (omega (arith, length-address_bytes a good)),
        read_address-address_bytes a good,
      )
      refl
  where
    long : ltb (length (tx ++ address_bytes a)) (12 + address_len) ≡ false
    long = ground (arith, length-append tx (address_bytes a), length-address_bytes a good)

decode_call-endpoint_bytes :
    (endpoints : List SocketAddr)
    → All IsEndpoint endpoints
    → decode_call_me_maybe (endpoint_bytes endpoints)
      ≡ ok (call_me_maybe (take max_endpoints endpoints))
unfolding decode_call_me_maybe
decode_call-endpoint_bytes endpoints all =
    rw (read_endpoints-endpoint_bytes max_endpoints endpoints all) refl

decode-message_bytes : (m : Message) → IsMessage m → decode (message_bytes m) ≡ ok (kept m)
unfolding message_bytes
decode-message_bytes (ping p) (tx, key) =
    decode_lem 1 (p.tx_id ++ key_bytes p.node_key) ∙ decode_ping-key_bytes p.tx_id p.node_key tx key
decode-message_bytes (pong p) (tx, src) =
    decode_lem 2 (p.tx_id ++ address_bytes p.src) ∙ decode_pong-address_bytes p.tx_id p.src tx src
decode-message_bytes (call_me_maybe endpoints) all =
    decode_lem 3 (endpoint_bytes endpoints) ∙ decode_call-endpoint_bytes endpoints all

-- A message goes to the front of the buffer, which must have room for it, and is read back from
-- there; of a list of endpoints the first eight are read, and a longer one is no error.
pub decode-encode :
    (m : Message) (out : List ℕ)
    → IsMessage m
    → length (message_bytes m) ≤ length out
    → let (out', written) = encode m out in
      (written ≡ ok (length (message_bytes m)))
      × (decode (take (length (message_bytes m)) out') ≡ ok (kept m))
unfolding encode
decode-encode m out good room =
    rw
      (put_front_fits Error.buffer_too_small (message_bytes m) out (length (message_bytes m)) refl
        room)
      (
        refl,
        ap decode (take-append (message_bytes m) (drop (length (message_bytes m)) out))
            ∙ decode-message_bytes m good,
      )
