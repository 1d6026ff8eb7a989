-- ===== src/Capture/Parser.antt =====
-- src/capture/packet_parser.h and packet_parser.cpp, `PacketParser::parse`. A buffer is the list of
-- its bytes, and a null pointer is `none`. A read that leaves the buffer is a fault, the outer `none`
-- of the result; the inner `none` is the source's `std::nullopt`. The layouts of `struct iphdr`,
-- `tcphdr` and `udphdr` are those of the protocols; an address is loaded by a little-endian host, and
-- `ntohs` turns two bytes into the number that they are on the network.
pub mod Safety
pub mod Accepts
pub mod RoundTrip
use ips_with_ai.Prelude.{
  ◌>>=◌, ℕ, zero, suc, ◌+◌, ◌-◌, ◌*◌, ◌/◌, ◌%◌, ◌≡◌, Bool, true, false, ◌&&◌, ◌||◌, not, Option,
  none, some, List, [], ◌∷◌, ltb, leb, ◌==◌, if◌then◌else◌, length, get_or, take, drop, u16,
}
use ips_with_ai.Common.FiveTuple.{FiveTuple}
use ips_with_ai.Flow.Types.{ParsedPacket}

abbrev pub Bytes : Type 0
Bytes = List ℕ

abbrev pub sizeof_iphdr : ℕ
sizeof_iphdr = 20

abbrev pub sizeof_tcphdr : ℕ
sizeof_tcphdr = 20

abbrev pub sizeof_udphdr : ℕ
sizeof_udphdr = 8

abbrev pub ihl_unit_bytes : ℕ
ihl_unit_bytes = 4

abbrev pub tcp_data_offset_unit_bytes : ℕ
tcp_data_offset_unit_bytes = 4

-- `memcpy` of `n` bytes from `offset` on, and a read of one byte; a fault outside of the buffer.
unfoldable pub memcpy : Bytes → ℕ → ℕ → Option Bytes
memcpy buffer offset n =
    if leb (offset + n) (length buffer) then some (take n (drop offset buffer)) else none

unfoldable pub read_byte : Bytes → ℕ → Option ℕ
read_byte buffer i = if ltb i (length buffer) then some (get_or buffer i 0) else none

-- The byte, the `ntohs` of the two bytes, and the native 32-bit number at an offset of a header.
abbrev pub byte : Bytes → ℕ → ℕ
byte h i = get_or h i 0

abbrev pub net16 : Bytes → ℕ → ℕ
net16 h i = byte h i * 256 + byte h (suc i)

abbrev pub host32 : Bytes → ℕ → ℕ
host32 h i =
    byte h i
    + byte h (suc i) * 256
    + byte h (suc (suc i)) * 65536
    + byte h (suc (suc (suc i))) * 16777216

-- `packet` after the reading of the IP header.
unfoldable pub ip_packet : Bytes → ParsedPacket
ip_packet h = record {
  tuple = record {
    src_ip = host32 h 12;
    dst_ip = host32 h 16;
    src_port = 0;
    dst_port = 0;
    protocol = byte h 9;
  };
  total_len = net16 h 2;
  payload_len = 0;
  has_ports = false;
  tcp_flags = 0;
}

-- `packet` with what the transport header says.
unfoldable pub with_ports : ParsedPacket → Bytes → ℕ → ℕ → ParsedPacket
with_ports packet h flags payload = record packet {
  tuple = record tuple { src_port = net16 h 0; dst_port = net16 h 2 };
  tcp_flags = flags;
  payload_len = u16 payload;
  has_ports = true;
}
  where
    open packet use {tuple}

-- What follows the copy of the TCP header `h`, and of the UDP header.
unfoldable pub tcp_fields : Bytes → ℕ → ParsedPacket → Bytes → Option ParsedPacket
tcp_fields buffer ip_header_len packet h =
    let tcp_header_len = byte h 12 / 16 * tcp_data_offset_unit_bytes in
    if ltb tcp_header_len sizeof_tcphdr
      || ltb (length buffer - ip_header_len) tcp_header_len
      || ltb packet.total_len (ip_header_len + tcp_header_len)
    then some packet
    else (do
      flags ← read_byte buffer (ip_header_len + 13)
      some (with_ports packet h flags (packet.total_len - ip_header_len - tcp_header_len)))

unfoldable pub udp_fields : ℕ → ParsedPacket → Bytes → ParsedPacket
udp_fields ip_header_len packet h =
    let udp_len = net16 h 4 in
    if ltb udp_len sizeof_udphdr || ltb packet.total_len (ip_header_len + udp_len)
    then packet
    else with_ports packet h 0 (udp_len - sizeof_udphdr)

unfoldable pub parse_tcp : Bytes → ℕ → ParsedPacket → Option ParsedPacket
parse_tcp buffer ip_header_len packet =
    if ltb (length buffer - ip_header_len) sizeof_tcphdr then some packet else (do
      h ← memcpy buffer ip_header_len sizeof_tcphdr
      tcp_fields buffer ip_header_len packet h)

unfoldable pub parse_udp : Bytes → ℕ → ParsedPacket → Option ParsedPacket
parse_udp buffer ip_header_len packet =
    if ltb (length buffer - ip_header_len) sizeof_udphdr then some packet else (do
      h ← memcpy buffer ip_header_len sizeof_udphdr
      some (udp_fields ip_header_len packet h))

-- From the check of the total length on.
unfoldable pub parse_transport : Bytes → ℕ → ℕ → ParsedPacket → Option ParsedPacket
parse_transport buffer ip_header_len frag_off packet =
    if ltb packet.total_len ip_header_len
    then some packet
    else if not (frag_off % 0x2000 == 0)
    then some packet
    else if ltb (length buffer) ip_header_len
    then some packet
    else if packet.tuple.protocol == 6
    then parse_tcp buffer ip_header_len packet
    else if packet.tuple.protocol == 17
    then parse_udp buffer ip_header_len packet
    else some packet

abbrev pub ip_header_len_of : Bytes → ℕ
ip_header_len_of h = byte h 0 % 16 * ihl_unit_bytes

unfoldable pub parse_ip : Bytes → Bytes → Option (Option ParsedPacket)
parse_ip buffer h =
    if not (byte h 0 / 16 == 4)
    then some none
    else if ltb (ip_header_len_of h) sizeof_iphdr
    then some none
    else (do
      packet ← parse_transport buffer (ip_header_len_of h) (net16 h 6) (ip_packet h)
      some (some packet))

unfoldable pub parse : Option Bytes → Option (Option ParsedPacket)
parse none = some none
parse (some buffer) =
    if ltb (length buffer) sizeof_iphdr
    then some none
    else (do h ← memcpy buffer 0 sizeof_iphdr; parse_ip buffer h)
