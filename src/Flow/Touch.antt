-- ===== src/Flow/Touch.antt =====
-- src/flow/flow_manager.cpp: what one packet changes in the statistics of a flow (`update_flow`) and
-- of a source (`update_source_stats`).
use ips_with_ai.Prelude.{
  ℕ, ◌+◌, ◌-◌, ◌/◌, Bool, true, false, ◌&&◌, not, [], ltb, if◌then◌else◌, leb, u32, ℕ_discrete,
}
use ips_with_ai.Prelude.Set.{insert}
use ips_with_ai.Common.Clock.{TimePoint}
use ips_with_ai.Common.FiveTuple.{FiveTuple}
use ips_with_ai.Flow.Double.{Double}
use ips_with_ai.Flow.Stats.{add}
use ips_with_ai.Flow.Types.{
  Flow, SourceStats, DirectionStats, ParsedPacket, PacketDirection, FlowOrigin, outbound,
  remote_initiated, local_initiated, no_packets, has_flag, th_fin, th_syn, th_rst, th_push, th_ack,
  th_urg,
}

-- A packet at `now` enters the statistics of its source; `true` starts the window anew.
unfoldable pub count_packet : Bool → SourceStats → ParsedPacket → TimePoint → SourceStats
count_packet fresh s packet now = record {
  recent_dst_ports = insert ℕ_discrete packet.tuple.dst_port start.recent_dst_ports;
  syn_count =
      if has_flag packet.tcp_flags th_syn then u32 (start.syn_count + 1) else start.syn_count;
  window_start = start.window_start;
}
  where
    start : SourceStats
    start = if fresh then record { recent_dst_ports = []; syn_count = 0; window_start = now } else s

module _ {F : Type 0} (d : Double F) where
  -- `static_cast<double>(duration_cast<microseconds>(now - start).count())`, on either side of zero.
  unfoldable pub micros_between : TimePoint → TimePoint → F
  micros_between now start =
      if leb start now
      then d.of_nat ((now - start) / 1000)
      else d.negate (d.of_nat ((start - now) / 1000))

  unfoldable pub touch_direction : DirectionStats F → ParsedPacket → TimePoint → DirectionStats F
  touch_direction dir packet now = record {
    packet_len = add d dir.packet_len (d.of_nat packet.total_len);
    payload_len = add d dir.payload_len (d.of_nat packet.payload_len);
    iat_us =
        if ltb 0 dir.packet_len.count
        then add d dir.iat_us (micros_between now dir.last_seen)
        else dir.iat_us;
    last_seen = now;
    syn = bump th_syn dir.syn;
    ack = bump th_ack dir.ack;
    fin = bump th_fin dir.fin;
    rst = bump th_rst dir.rst;
    psh = bump th_push dir.psh;
    urg = bump th_urg dir.urg;
  }
    where
      bump : ℕ → ℕ → ℕ
      bump mask n = if has_flag packet.tcp_flags mask then u32 (n + 1) else n

  -- The part of `update_flow` that works on the flow that was found or made.
  unfoldable pub touch_flow : Flow F → Bool → ParsedPacket → TimePoint → Flow F
  touch_flow f is_forward packet now = record f {
    forward = if is_forward then touch_direction f.forward packet now else f.forward;
    backward = if is_forward then f.backward else touch_direction f.backward packet now;
    fin_handshake_complete =
        if both_fin_seen
          && has_flag packet.tcp_flags th_ack
          && not (has_flag packet.tcp_flags th_fin)
        then true
        else f.fin_handshake_complete;
    last_seen = now;
  }
    where
      both_fin_seen : Bool
      both_fin_seen = ltb 0 f.forward.fin && ltb 0 f.backward.fin

  abbrev pub origin_of : PacketDirection → FlowOrigin
  origin_of outbound = local_initiated
  origin_of _ = remote_initiated

  unfoldable pub new_flow : FiveTuple → PacketDirection → TimePoint → Flow F
  new_flow key direction now = record {
    key = key;
    first_seen = now;
    last_seen = 0;
    forward = no_packets d;
    backward = no_packets d;
    origin = origin_of direction;
    fin_handshake_complete = false;
  }
