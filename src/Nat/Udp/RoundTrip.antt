-- ===== src/Nat/Udp/RoundTrip.antt =====
-- A datagram that is built is parsed.
use tailfeather.Common.{
  ℕ, ◌+◌, ◌-◌, ◌%◌, ◌^◌, ◌≤◌, ◌<◌, ◌≡◌, refl, sym, ap, ap₂, subst, ◌∙◌, arith, true, false, ltb,
  leb, ◌/◌,
}
use tailfeather.Common.{
  List, [], ◌∷◌, ◌++◌, length, take, drop, take_front, take_short, length-append, some,
}
use tailfeather.Common.Bytes.{be16, from_be16, from_be16-be16}
use tailfeather.Nat.Udp.{
  Udp4, parse_datagram, parse_udp4, ip_header, udp_bytes, total_len, ip_checksum, udp_checksum,
  packet_bytes, build_udp4,
}

parse_datagram-udp_bytes :
    (packet payload : List ℕ) (src_port dst_port sum : ℕ)
    → src_port < 2 ^ 16
    → dst_port < 2 ^ 16
    → 28 + length payload < 2 ^ 16
    → parse_datagram packet (udp_bytes src_port dst_port sum payload)
      ≡ some (record {
        src_ip = take 4 (drop 12 packet);
        dst_ip = take 4 (drop 16 packet);
        src_port = src_port;
        dst_port = dst_port;
        payload = payload;
      })
unfolding parse_datagram udp_bytes be16
parse_datagram-udp_bytes packet payload src_port dst_port sum is_src is_dst small =
    rw (long, says, enough, within)
      (λ i. some (record {
        src_ip = take 4 (drop 12 packet);
        dst_ip = take 4 (drop 16 packet);
        src_port = from_be16-be16 src_port is_src i;
        dst_port = from_be16-be16 dst_port is_dst i;
        payload = whole i;
      }))
  where
    n : ℕ
    n = length payload

    udp : List ℕ
    udp = udp_bytes src_port dst_port sum payload

    long : ltb (length udp) 8 ≡ false
    long = ground arith

    says : from_be16 ((8 + n) % 2 ^ 16 / 256 % 256) ((8 + n) % 2 ^ 16 % 256) ≡ 8 + n
    says = omega (arith, small)

    enough : ltb (8 + n) 8 ≡ false
    enough = ground arith

    within : ltb (length udp) (8 + n) ≡ false
    within = ground arith

    whole : take (8 + n - 8) payload ≡ payload
    whole = take_short (8 + n - 8) payload (omega arith)

parse_udp4-bytes :
    (a b c d e f g h src_port dst_port ip_sum udp_sum : ℕ) (payload : List ℕ)
    → src_port < 2 ^ 16
    → dst_port < 2 ^ 16
    → 28 + length payload < 2 ^ 16
    → let src_ip : List ℕ = a ∷ b ∷ c ∷ d ∷ [] in
      let dst_ip : List ℕ = e ∷ f ∷ g ∷ h ∷ [] in
      parse_udp4 (
        ip_header src_ip dst_ip (28 + length payload) ip_sum
        ++ udp_bytes src_port dst_port udp_sum payload)
      ≡ some (record {
        src_ip = src_ip;
        dst_ip = dst_ip;
        src_port = src_port;
        dst_port = dst_port;
        payload = payload;
      })
unfolding parse_udp4 ip_header be16
parse_udp4-bytes a b c d e f g h src_port dst_port ip_sum udp_sum payload is_src is_dst small =
    rw (long, tail)
      (parse_datagram-udp_bytes packet payload src_port dst_port udp_sum is_src is_dst small)
  where
    packet : List ℕ
    packet =
        ip_header (a ∷ b ∷ c ∷ d ∷ []) (e ∷ f ∷ g ∷ h ∷ []) (28 + length payload) ip_sum
        ++ udp_bytes src_port dst_port udp_sum payload

    long : ltb (length packet) 20 ≡ false
    long = ground arith

    tail : leb 20 (length packet) ≡ true
    tail = ground arith

four :
    (xs : List ℕ)
    → length xs ≡ 4
    → (a : ℕ) × (b : ℕ) × (c : ℕ) × (d : ℕ) × (xs ≡ a ∷ b ∷ c ∷ d ∷ [])
four [] h = absurd (omega (arith, h))
four (a ∷ []) h = absurd (omega (arith, h))
four (a ∷ b ∷ []) h = absurd (omega (arith, h))
four (a ∷ b ∷ c ∷ []) h = absurd (omega (arith, h))
four (a ∷ b ∷ c ∷ d ∷ []) h = (a, b, c, d, refl)
four (a ∷ b ∷ c ∷ d ∷ e ∷ xs) h = absurd (omega (arith, h))

Parsed : ℕ → ℕ → ℕ → ℕ → List ℕ → List ℕ → List ℕ → Type 0
Parsed src_port dst_port ip_sum udp_sum payload src_ip dst_ip =
    parse_udp4 (
      ip_header src_ip dst_ip (28 + length payload) ip_sum
      ++ udp_bytes src_port dst_port udp_sum payload)
    ≡ some (record {
      src_ip = src_ip;
      dst_ip = dst_ip;
      src_port = src_port;
      dst_port = dst_port;
      payload = payload;
    })

parse_udp4-addresses :
    (src_ip dst_ip : List ℕ) (src_port dst_port ip_sum udp_sum : ℕ) (payload : List ℕ)
    → length src_ip ≡ 4
    → length dst_ip ≡ 4
    → src_port < 2 ^ 16
    → dst_port < 2 ^ 16
    → 28 + length payload < 2 ^ 16
    → Parsed src_port dst_port ip_sum udp_sum payload src_ip dst_ip
unfolding Parsed
parse_udp4-addresses src_ip dst_ip src_port dst_port ip_sum udp_sum payload src_4 dst_4 is_src
      is_dst small =
    let (a, b, c, d, s) = four src_ip src_4 in
    let (e, f, g, h, t) = four dst_ip dst_4 in
    subst (λ x. Parsed src_port dst_port ip_sum udp_sum payload x dst_ip) (sym s)
      (subst (λ y. Parsed src_port dst_port ip_sum udp_sum payload (a ∷ b ∷ c ∷ d ∷ []) y) (sym t)
        (parse_udp4-bytes a b c d e f g h src_port dst_port ip_sum udp_sum payload is_src is_dst
          small))

length-ip_header :
    (src_ip dst_ip : List ℕ) (total sum : ℕ)
    → length src_ip ≡ 4
    → length dst_ip ≡ 4
    → length (ip_header src_ip dst_ip total sum) ≡ 20
unfolding ip_header be16
length-ip_header src_ip dst_ip total sum src_4 dst_4 =
    omega (arith, length-append src_ip dst_ip, src_4, dst_4)

length-udp_bytes :
    (src_port dst_port sum : ℕ) (payload : List ℕ)
    → length (udp_bytes src_port dst_port sum payload) ≡ 8 + length payload
unfolding udp_bytes be16
length-udp_bytes src_port dst_port sum payload = omega arith

regroup : (n : ℕ) → 20 + (8 + n) ≡ 28 + n
regroup n = omega arith

length-packet_bytes :
    (u : Udp4)
    → length u.src_ip ≡ 4
    → length u.dst_ip ≡ 4
    → length (packet_bytes u) ≡ 28 + length u.payload
unfolding packet_bytes
length-packet_bytes u src_4 dst_4 =
    length-append (ip_header u.src_ip u.dst_ip (total_len u) (ip_checksum u))
      (udp_bytes u.src_port u.dst_port (udp_checksum u) u.payload)
    ∙ ap₂ (λ (m n : ℕ). m + n)
        (length-ip_header u.src_ip u.dst_ip (total_len u) (ip_checksum u) src_4 dst_4)
        (length-udp_bytes u.src_port u.dst_port (udp_checksum u) u.payload)
    ∙ regroup (length u.payload)

-- A datagram with addresses of four bytes, ports of sixteen bits and a payload that a packet can
-- hold, built into a buffer with room for it, is parsed to the same addresses, ports and payload.
pub parse_udp4-build_udp4 :
    (u : Udp4) (out : List ℕ)
    → length u.src_ip ≡ 4
    → length u.dst_ip ≡ 4
    → u.src_port < 2 ^ 16
    → u.dst_port < 2 ^ 16
    → 28 + length u.payload < 2 ^ 16
    → 28 + length u.payload ≤ length out
    → let (out', written) = build_udp4 u out in
      (written ≡ some (28 + length u.payload))
      × (parse_udp4 (take (28 + length u.payload) out') ≡ some u)
unfolding build_udp4
parse_udp4-build_udp4 u out src_4 dst_4 is_src is_dst small room = rw roomy (
  refl,
  ap parse_udp4
        (take_front total (packet_bytes u) (drop total out) (length-packet_bytes u src_4 dst_4))
      ∙ parsed,
)
  where
    total : ℕ
    total = 28 + length u.payload

    roomy : ltb (length out) total ≡ false
    roomy = ground (arith, room)

    parsed : parse_udp4 (packet_bytes u) ≡ some u
    parsed =
        unfold packet_bytes Parsed in
        parse_udp4-addresses u.src_ip u.dst_ip u.src_port u.dst_port (ip_checksum u)
          (udp_checksum u) u.payload src_4 dst_4 is_src is_dst small
