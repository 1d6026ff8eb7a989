-- ===== src/Capture/Parser/RoundTrip.antt =====
-- src/capture/packet_parser.cpp against a writer of IPv4, TCP and UDP packets in network byte order.
use ips_with_ai.Prelude.{ℕ, ◌+◌, ◌-◌, ◌*◌, ◌/◌, ◌%◌, ◌≤◌, ◌<◌, ◌≡◌, true, some, ◌∷◌, arith}
use ips_with_ai.Flow.Types.{ParsedPacket}
use ips_with_ai.Capture.Parser.{
  Bytes, memcpy, read_byte, ip_packet, with_ports, tcp_fields, udp_fields, parse_tcp, parse_udp,
  parse_transport, parse_ip, parse,
}

-- The fields of an IPv4 header of 20 bytes, the addresses byte by byte, as they are sent.
pub record Ip : Type 0 where
  pub total : ℕ
  pub s0 : ℕ
  pub s1 : ℕ
  pub s2 : ℕ
  pub s3 : ℕ
  pub d0 : ℕ
  pub d1 : ℕ
  pub d2 : ℕ
  pub d3 : ℕ

unfoldable pub write_ip : Ip → ℕ → Bytes → Bytes
write_ip ip protocol rest =
    0x45
    ∷ 0
    ∷ (ip.total / 256)
    ∷ (ip.total % 256)
    ∷ 0
    ∷ 0
    ∷ 0x40
    ∷ 0
    ∷ 64
    ∷ protocol
    ∷ 0
    ∷ 0
    ∷ ip.s0
    ∷ ip.s1
    ∷ ip.s2
    ∷ ip.s3
    ∷ ip.d0
    ∷ ip.d1
    ∷ ip.d2
    ∷ ip.d3
    ∷ rest

unfoldable pub write_udp : ℕ → ℕ → ℕ → Bytes → Bytes
write_udp src_port dst_port udp_len payload =
    (src_port / 256)
    ∷ (src_port % 256)
    ∷ (dst_port / 256)
    ∷ (dst_port % 256)
    ∷ (udp_len / 256)
    ∷ (udp_len % 256)
    ∷ 0
    ∷ 0
    ∷ payload

-- A TCP header of 20 bytes.
unfoldable pub write_tcp : ℕ → ℕ → ℕ → Bytes → Bytes
write_tcp src_port dst_port flags payload =
    (src_port / 256)
    ∷ (src_port % 256)
    ∷ (dst_port / 256)
    ∷ (dst_port % 256)
    ∷ 0
    ∷ 0
    ∷ 0
    ∷ 0
    ∷ 0
    ∷ 0
    ∷ 0
    ∷ 0
    ∷ 0x50
    ∷ flags
    ∷ 0
    ∷ 0
    ∷ 0
    ∷ 0
    ∷ 0
    ∷ 0
    ∷ payload

-- The packet that should come out.
abbrev pub read_back : Ip → ℕ → ℕ → ℕ → ℕ → ℕ → ParsedPacket
read_back ip protocol src_port dst_port payload_len flags = record {
  tuple = record {
    src_ip = ip.s0 + ip.s1 * 256 + ip.s2 * 65536 + ip.s3 * 16777216;
    dst_ip = ip.d0 + ip.d1 * 256 + ip.d2 * 65536 + ip.d3 * 16777216;
    src_port = src_port;
    dst_port = dst_port;
    protocol = protocol;
  };
  total_len = ip.total;
  payload_len = payload_len;
  has_ports = true;
  tcp_flags = flags;
}

-- A UDP packet is read back as it was written, wherever the ports and the total fit in 16 bits and
-- the lengths fit together: the UDP length counts its
-- header, and the IP total covers both headers and the payload. Of the payload any part may be cut
-- off, since only its announced length is used.
pub parse-write_udp :
    (ip : Ip) (src_port dst_port payload_len : ℕ) (captured : Bytes)
    → src_port < 65536
    → dst_port < 65536
    → ip.total < 65536
    → 28 + payload_len ≤ ip.total
    → parse (some (write_ip ip 17 (write_udp src_port dst_port (8 + payload_len) captured)))
      ≡ some (some (read_back ip 17 src_port dst_port payload_len 0))
unfolding parse parse_ip parse_transport parse_udp udp_fields memcpy read_byte ip_packet with_ports
    write_ip write_udp
parse-write_udp ip src_port dst_port payload_len captured a b c d = ground arith

-- A TCP packet without options is read back as it was written, flags included, wherever the IP total
-- covers both headers, and the ports and the total fit in 16 bits.
pub parse-write_tcp :
    (ip : Ip) (src_port dst_port flags : ℕ) (captured : Bytes)
    → src_port < 65536
    → dst_port < 65536
    → ip.total < 65536
    → 40 ≤ ip.total
    → parse (some (write_ip ip 6 (write_tcp src_port dst_port flags captured)))
      ≡ some (some (read_back ip 6 src_port dst_port (ip.total - 40) flags))
unfolding parse parse_ip parse_transport parse_tcp tcp_fields memcpy read_byte ip_packet with_ports
    write_ip write_tcp
parse-write_tcp ip src_port dst_port flags captured a b c d = ground arith
