-- ===== src/Flow/Types.antt =====
-- src/flow/flow.h: what is kept of a flow in each direction, of a flow, and of a source address.
-- src/capture/packet_parser.h and packet_direction.h: the parsed packet and its direction.
use ips_with_ai.Prelude.{ℕ, ◌/◌, ◌%◌, Bool, List, ◌==◌}
use ips_with_ai.Common.Clock.{TimePoint}
use ips_with_ai.Common.FiveTuple.{FiveTuple}
use ips_with_ai.Flow.Double.{Double}
use ips_with_ai.Flow.Stats.{RunningStats, empty}

pub data PacketDirection : Type 0 where
  inbound outbound unknown : PacketDirection

pub record ParsedPacket : Type 0 where
  pub tuple : FiveTuple
  pub total_len : ℕ
  pub payload_len : ℕ
  pub has_ports : Bool
  pub tcp_flags : ℕ

pub record DirectionStats (F : Type 0) : Type 0 where
  pub packet_len : RunningStats F
  pub payload_len : RunningStats F
  pub iat_us : RunningStats F
  pub last_seen : TimePoint
  pub syn : ℕ
  pub ack : ℕ
  pub fin : ℕ
  pub rst : ℕ
  pub psh : ℕ
  pub urg : ℕ

pub data FlowOrigin : Type 0 where
  remote_initiated local_initiated : FlowOrigin

pub record Flow (F : Type 0) : Type 0 where
  pub key : FiveTuple
  pub first_seen : TimePoint
  pub last_seen : TimePoint
  pub forward : DirectionStats F
  pub backward : DirectionStats F
  pub origin : FlowOrigin
  pub fin_handshake_complete : Bool

pub data FlowEndReason : Type 0 where
  tcp_fin tcp_reset timeout : FlowEndReason

pub record EndedFlow (F : Type 0) : Type 0 where
  pub flow : Flow F
  pub reason : FlowEndReason

pub record SourceStats : Type 0 where
  pub recent_dst_ports : List ℕ
  pub syn_count : ℕ
  pub window_start : TimePoint

-- The flag octet's masks of <netinet/tcp.h>, each a power of two.
abbrev pub th_fin : ℕ
th_fin = 0x01

abbrev pub th_syn : ℕ
th_syn = 0x02

abbrev pub th_rst : ℕ
th_rst = 0x04

abbrev pub th_push : ℕ
th_push = 0x08

abbrev pub th_ack : ℕ
th_ack = 0x10

abbrev pub th_urg : ℕ
th_urg = 0x20

-- `(f & mask) != 0` for a mask of one bit.
abbrev pub has_flag : ℕ → ℕ → Bool
has_flag f mask = f / mask % 2 == 1

module _ {F : Type 0} (d : Double F) where
  -- `DirectionStats{}`; the default time point is the clock's epoch.
  unfoldable pub no_packets : DirectionStats F
  no_packets = record {
    packet_len = empty d;
    payload_len = empty d;
    iat_us = empty d;
    last_seen = 0;
    syn = 0;
    ack = 0;
    fin = 0;
    rst = 0;
    psh = 0;
    urg = 0;
  }
