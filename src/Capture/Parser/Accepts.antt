-- ===== src/Capture/Parser/Accepts.antt =====
-- src/capture/packet_parser.cpp: which buffers are refused, and what holds of every parsed packet.
use ips_with_ai.Prelude.{
  ℕ, zero, suc, ◌+◌, ◌-◌, ◌*◌, ◌/◌, ◌%◌, ◌≤◌, ◌<◌, ◌≡◌, refl, ◌≢◌, ◌↔◌, ◌⊎◌, true, false, Option,
  none, some, [], ◌∷◌, length, take, drop, arith, All,
}
use ips_with_ai.Flow.Types.{ParsedPacket}
use ips_with_ai.Capture.Parser.{
  Bytes, memcpy, read_byte, byte, net16, ip_header_len_of, ip_packet, with_ports, tcp_fields,
  udp_fields, parse_tcp, parse_udp, parse_transport, parse_ip, parse,
}
use ips_with_ai.Capture.Parser.Safety.{parse_transport_defined}

-- No readable IPv4 header: no buffer, fewer than 20 bytes, another version, or a header length below
-- 20 bytes.
abbrev pub IsUnreadable : Option Bytes → Type 0
IsUnreadable none = Unit
IsUnreadable (some b) = (length b < 20) ⊎ ((byte b 0 / 16 ≢ 4) ⊎ (byte b 0 % 16 < 5))

first_byte : (b : Bytes) → byte (take 20 (drop 0 b)) 0 ≡ byte b 0
first_byte [] = refl
first_byte (x ∷ b) = refl

parse_ip_refuses :
    (b h : Bytes) → (parse_ip b h ≡ some none) ↔ ((byte h 0 / 16 ≢ 4) ⊎ (byte h 0 % 16 < 5))
unfolding parse_ip
parse_ip_refuses b h =
    ground (arith, parse_transport_defined b (ip_header_len_of h) (net16 h 6) (ip_packet h))

-- The parser returns `nullopt` exactly where there is no readable IPv4 header.
pub parse_nullopt : (data_ptr : Option Bytes) → (parse data_ptr ≡ some none) ↔ IsUnreadable data_ptr
unfolding parse memcpy
parse_nullopt none = (λ e. tt, λ u. refl)
parse_nullopt (some b) = ground (arith, parse_ip_refuses b (take 20 (drop 0 b)), first_byte b)

-- A packet without ports has none of the fields of a transport header, and one with ports is TCP or
-- UDP; lengths, ports and flags keep to their widths, and the payload is no longer than the packet.
pub record IsWellFormed (p : ParsedPacket) : Type 0 where
  pub src_port : p.tuple.src_port < 65536
  pub dst_port : p.tuple.dst_port < 65536
  pub total : p.total_len < 65536
  pub payload : p.payload_len ≤ p.total_len
  pub flags : p.tcp_flags < 256
  pub portless :
      p.has_ports ≡ false
      → (p.tuple.src_port ≡ 0) × (p.tuple.dst_port ≡ 0) × (p.payload_len ≡ 0) × (p.tcp_flags ≡ 0)
  pub transport : p.has_ports ≡ true → (p.tuple.protocol ≡ 6) ⊎ (p.tuple.protocol ≡ 17)

abbrev pub IsBytes : Bytes → Type 0
IsBytes = All (λ x. x < 256)

byte-lt : (b : Bytes) (i : ℕ) → IsBytes b → byte b i < 256
byte-lt [] i h = omega arith
byte-lt (x ∷ b) zero h = h.0
byte-lt (x ∷ b) (suc i) h = byte-lt b i h.1

take-IsBytes : (n : ℕ) (b : Bytes) → IsBytes b → IsBytes (take n b)
take-IsBytes zero b h = tt
take-IsBytes (suc n) [] h = tt
take-IsBytes (suc n) (x ∷ b) h = (h.0, take-IsBytes n b h.1)

drop-IsBytes : (n : ℕ) (b : Bytes) → IsBytes b → IsBytes (drop n b)
drop-IsBytes zero b h = h
drop-IsBytes (suc n) [] h = tt
drop-IsBytes (suc n) (x ∷ b) h = drop-IsBytes n b h.1

net16-lt : (h : Bytes) (i : ℕ) → IsBytes h → net16 h i < 65536
net16-lt h i a = omega (arith, byte-lt h i a, byte-lt h (suc i) a)

ip_packet-IsWellFormed : (h : Bytes) → IsBytes h → IsWellFormed (ip_packet h)
unfolding ip_packet
ip_packet-IsWellFormed h a = ground (arith, net16-lt h 2 a)

with_ports-IsWellFormed :
    (p : ParsedPacket) (h : Bytes) (flags payload : ℕ)
    → IsWellFormed p
    → IsBytes h
    → flags < 256
    → payload ≤ p.total_len
    → (p.tuple.protocol ≡ 6) ⊎ (p.tuple.protocol ≡ 17)
    → IsWellFormed (with_ports p h flags payload)
unfolding with_ports
with_ports-IsWellFormed p h flags payload w a f l t = ground (arith, net16-lt h 0 a, net16-lt h 2 a)

tcp_fields-IsWellFormed :
    (b : Bytes) (l : ℕ) (p q : ParsedPacket) (h : Bytes)
    → IsBytes b
    → IsBytes h
    → IsWellFormed p
    → p.tuple.protocol ≡ 6
    → tcp_fields b l p h ≡ some q
    → IsWellFormed q
unfolding tcp_fields read_byte
tcp_fields-IsWellFormed b l p q h a a' w t e = ground (
  arith,
  with_ports-IsWellFormed p h (byte b (l + 13)) (p.total_len - l - byte h 12 / 16 * 4) w a'
      (byte-lt b (l + 13) a),
)

udp_fields-IsWellFormed :
    (l : ℕ) (p : ParsedPacket) (h : Bytes)
    → IsBytes h
    → IsWellFormed p
    → p.tuple.protocol ≡ 17
    → IsWellFormed (udp_fields l p h)
unfolding udp_fields
udp_fields-IsWellFormed l p h a w t =
    ground (arith, with_ports-IsWellFormed p h 0 (net16 h 4 - 8) w a)

parse_tcp-IsWellFormed :
    (b : Bytes) (l : ℕ) (p q : ParsedPacket)
    → IsBytes b
    → IsWellFormed p
    → p.tuple.protocol ≡ 6
    → parse_tcp b l p ≡ some q
    → IsWellFormed q
unfolding parse_tcp memcpy
parse_tcp-IsWellFormed b l p q a w t e = ground (
  arith,
  tcp_fields-IsWellFormed b l p q (take 20 (drop l b)) a
      (take-IsBytes 20 (drop l b) (drop-IsBytes l b a)) w t,
)

parse_udp-IsWellFormed :
    (b : Bytes) (l : ℕ) (p q : ParsedPacket)
    → IsBytes b
    → IsWellFormed p
    → p.tuple.protocol ≡ 17
    → parse_udp b l p ≡ some q
    → IsWellFormed q
unfolding parse_udp memcpy
parse_udp-IsWellFormed b l p q a w t e = ground (
  arith,
  udp_fields-IsWellFormed l p (take 8 (drop l b)) (take-IsBytes 8 (drop l b) (drop-IsBytes l b a)) w
      t,
)

parse_transport-IsWellFormed :
    (b : Bytes) (l f : ℕ) (p q : ParsedPacket)
    → IsBytes b
    → IsWellFormed p
    → parse_transport b l f p ≡ some q
    → IsWellFormed q
unfolding parse_transport
parse_transport-IsWellFormed b l f p q a w e =
    ground (arith, parse_tcp-IsWellFormed b l p q a w, parse_udp-IsWellFormed b l p q a w)

-- Every packet that is parsed from a buffer of bytes is well formed.
pub parse-IsWellFormed :
    (b : Bytes) (p : ParsedPacket) → IsBytes b → parse (some b) ≡ some (some p) → IsWellFormed p
unfolding parse parse_ip memcpy
parse-IsWellFormed b p a e =
    let h = take 20 (drop 0 b) in
    let a' = take-IsBytes 20 (drop 0 b) (drop-IsBytes 0 b a) in
    ground (
      arith,
      parse_transport-IsWellFormed b (ip_header_len_of h) (net16 h 6) (ip_packet h) p a
          (ip_packet-IsWellFormed h a'),
    )
