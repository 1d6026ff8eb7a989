-- ===== src/Capture/Parser/Safety.antt =====
-- src/capture/packet_parser.cpp: the reads of the buffer.
use ips_with_ai.Prelude.{ℕ, ◌+◌, ◌≤◌, ◌≡◌, ◌≢◌, Option, none, some, length, take, drop, arith}
use ips_with_ai.Flow.Types.{ParsedPacket}
use ips_with_ai.Capture.Parser.{
  Bytes, memcpy, read_byte, net16, ip_header_len_of, ip_packet, tcp_fields, parse_tcp, parse_udp,
  parse_transport, parse_ip, parse,
}

memcpy_inside : (b : Bytes) (o n : ℕ) → o + n ≤ length b → memcpy b o n ≡ some (take n (drop o b))
unfolding memcpy
memcpy_inside b o n h = ground arith

parse_tcp_defined : (b : Bytes) (l : ℕ) (p : ParsedPacket) → l ≤ length b → parse_tcp b l p ≢ none
unfolding parse_tcp tcp_fields memcpy read_byte
parse_tcp_defined b l p h = ground arith

parse_udp_defined : (b : Bytes) (l : ℕ) (p : ParsedPacket) → l ≤ length b → parse_udp b l p ≢ none
unfolding parse_udp memcpy
parse_udp_defined b l p h = ground arith

pub parse_transport_defined :
    (b : Bytes) (l f : ℕ) (p : ParsedPacket) → parse_transport b l f p ≢ none
unfolding parse_transport
parse_transport_defined b l f p = ground (arith, parse_tcp_defined b l p, parse_udp_defined b l p)

pub parse_ip_defined : (b h : Bytes) → parse_ip b h ≢ none
unfolding parse_ip
parse_ip_defined b h =
    ground (arith, parse_transport_defined b (ip_header_len_of h) (net16 h 6) (ip_packet h))

-- No input makes the parser read outside of its buffer: the copies of the three headers and the read
-- of the flag octet stay inside, and a null pointer is not read.
pub parse_in_bounds : (data_ptr : Option Bytes) → parse data_ptr ≢ none
unfolding parse memcpy
parse_in_bounds none = λ e. cc
parse_in_bounds (some b) = ground (arith, parse_ip_defined b (take 20 (drop 0 b)))
