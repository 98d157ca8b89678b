-- ===== src/Nat/Udp.antt =====
-- `parse_udp4` and `build_udp4` of firmware/src/nat.rs: UDP datagrams in IPv4 packets.
use tailfeather.Common.{ℕ, ◌+◌, ◌-◌, ◌*◌, ◌/◌, ◌%◌, ◌^◌, Bool, not, ◌||◌, ltb, ◌==◌, if◌then◌else◌}
use tailfeather.Common.{
  List, [], ◌∷◌, ◌++◌, length, take, drop, get_or, get_from, Option, none, some,
}
use tailfeather.Common.Bytes.{be16, from_be16}
use tailfeather.Nat.Checksum.{checksum, checksum_with_carry, pseudo_header_sum}
use Prim.Native.Nat.{bit_and}
pub mod RoundTrip

abbrev pub proto_udp : ℕ
proto_udp = 17

abbrev pub ipv4_header_len : ℕ
ipv4_header_len = 20

abbrev pub udp_header_len : ℕ
udp_header_len = 8

pub record Udp4 : Type 0 where
  pub src_ip : List ℕ
  pub dst_ip : List ℕ
  pub src_port : ℕ
  pub dst_port : ℕ
  pub payload : List ℕ

-- The datagram behind the header of the packet.
unfoldable pub parse_datagram : List ℕ → List ℕ → Option Udp4
parse_datagram packet udp =
    let length_ = from_be16 (get_or udp 4 0) (get_or udp 5 0) in
    if ltb (length udp) udp_header_len
    then none
    else if ltb length_ udp_header_len || ltb (length udp) length_
    then none
    else some (record {
      src_ip = take 4 (drop 12 packet);
      dst_ip = take 4 (drop 16 packet);
      src_port = from_be16 (get_or udp 0 0) (get_or udp 1 0);
      dst_port = from_be16 (get_or udp 2 0) (get_or udp 3 0);
      payload = take (length_ - udp_header_len) (drop udp_header_len udp);
    })

unfoldable pub parse_udp4 : List ℕ → Option Udp4
unfolding parse_datagram
parse_udp4 packet =
    let header_len = get_or packet 0 0 % 16 * 4 in
    if ltb (length packet) ipv4_header_len
      || (not (get_or packet 0 0 / 16 == 4) || not (get_or packet 9 0 == proto_udp))
    then none
    else if not (bit_and (from_be16 (get_or packet 6 0) (get_or packet 7 0)) 0x3fff == 0)
    then none
    else elim (get_from header_len packet) [ none ↦ none | some udp ↦ parse_datagram packet udp ]

-- The header of a packet of this length, with this checksum.
unfoldable pub ip_header : List ℕ → List ℕ → ℕ → ℕ → List ℕ
unfolding be16
ip_header src_ip dst_ip total sum =
    0x45
    ∷ 0
    ∷ (be16 (total % 2 ^ 16)
        ++ (0 ∷ 0 ∷ (be16 0x4000 ++ (64 ∷ proto_udp ∷ (be16 sum ++ (src_ip ++ dst_ip))))))

-- The datagram with this checksum.
unfoldable pub udp_bytes : ℕ → ℕ → ℕ → List ℕ → List ℕ
unfolding be16
udp_bytes src_port dst_port sum payload =
    be16 src_port
    ++ (be16 dst_port
        ++ (be16 ((udp_header_len + length payload) % 2 ^ 16) ++ (be16 sum ++ payload)))

-- A checksum of 0 is sent as its complement.
abbrev pub never_zero : ℕ → ℕ
never_zero sum = if sum == 0 then 0xffff else sum

abbrev pub total_len : Udp4 → ℕ
total_len u = ipv4_header_len + udp_header_len + length u.payload

unfoldable pub ip_checksum : Udp4 → ℕ
unfolding ip_header checksum
ip_checksum u = checksum (ip_header u.src_ip u.dst_ip (total_len u) 0)

unfoldable pub udp_checksum : Udp4 → ℕ
unfolding udp_bytes checksum_with_carry pseudo_header_sum
udp_checksum u =
    let udp_len = (udp_header_len + length u.payload) % 2 ^ 16 in
    never_zero (
      checksum_with_carry (udp_bytes u.src_port u.dst_port 0 u.payload)
        (pseudo_header_sum u.src_ip u.dst_ip udp_len))

-- The whole packet.
unfoldable pub packet_bytes : Udp4 → List ℕ
unfolding ip_header udp_bytes ip_checksum udp_checksum
packet_bytes u =
    ip_header u.src_ip u.dst_ip (total_len u) (ip_checksum u)
    ++ udp_bytes u.src_port u.dst_port (udp_checksum u) u.payload

-- The buffer afterwards, and the length of the packet.
unfoldable pub build_udp4 : Udp4 → List ℕ → List ℕ × Option ℕ
unfolding packet_bytes
build_udp4 u out =
    let total = total_len u in
    if ltb (length out) total then (out, none) else (packet_bytes u ++ drop total out, some total)
