-- ===== src/Flow/Manager.antt =====
-- src/flow/flow_manager.h and flow_manager.cpp, `FlowManager`: the table of flows, the index of flow
-- keys by source address, and the statistics of each source. A pointer into a map is the key that
-- it stands at. The bucket that a key falls into, and the number of buckets, are the standard
-- library's and stand in `Layout`; the constructor reserves the maps' full size, so no insertion
-- changes the number of buckets.
pub mod Sweep
pub mod Index
pub mod Table
pub mod Invariant
pub mod Calls
pub mod Lookup
pub mod Observe
pub mod Window
pub mod Buckets
pub mod Cleanup
pub mod Rounds
use ips_with_ai.Prelude.{
  ℕ, suc, ◌+◌, ◌-◌, ◌/◌, ◌≡◌, Bool, true, false, ◌&&◌, ◌||◌, not, Option, none, some, List, [], ◌∷◌,
  ltb, ◌==◌, if◌then◌else◌, leb, u32, length, ℕ_discrete,
}
use ips_with_ai.Prelude.Map.{find, put, erase}
use ips_with_ai.Prelude.Set.{insert, remove}
use ips_with_ai.Common.Clock.{TimePoint, elapsed}
use ips_with_ai.Common.FiveTuple.{FiveTuple, reversed, tuple_discrete}
use ips_with_ai.Flow.Double.{Double}
use ips_with_ai.Flow.Stats.{RunningStats, add}
use ips_with_ai.Flow.Types.{
  Flow, EndedFlow, SourceStats, DirectionStats, ParsedPacket, PacketDirection, FlowOrigin,
  FlowEndReason, inbound, outbound, unknown, remote_initiated, local_initiated, tcp_fin, tcp_reset,
  timeout, no_packets, has_flag, th_fin, th_syn, th_rst, th_push, th_ack, th_urg,
}
use ips_with_ai.Flow.Touch.{count_packet, touch_flow, new_flow}
use Sweep.{Layout, doomed, next_cursor}

abbrev pub default_max_flows : ℕ
default_max_flows = 100000

abbrev pub default_max_sources : ℕ
default_max_sources = 100000

abbrev pub flow_timeout_sec : ℕ
flow_timeout_sec = 60

pub record FlowManager (F : Type 0) : Type 0 where
  pub flows : List (FiveTuple × Flow F)
  pub flow_keys_by_source : List (ℕ × List FiveTuple)
  pub source_stats : List (ℕ × SourceStats)
  pub flow_cursor : ℕ
  pub source_cursor : ℕ
  pub window_seconds : ℕ
  pub max_flows : ℕ
  pub max_sources : ℕ

-- The constructor.
unfoldable pub new_manager : {F : Type 0} → ℕ → ℕ → ℕ → FlowManager F
new_manager window_seconds max_flows max_sources = record {
  flows = [];
  flow_keys_by_source = [];
  source_stats = [];
  flow_cursor = 0;
  source_cursor = 0;
  window_seconds = window_seconds;
  max_flows = max_flows;
  max_sources = max_sources;
}

abbrev pub is_remote : FlowOrigin → Bool
is_remote remote_initiated = true
is_remote local_initiated = false

-- `map[key]` of the index: a missing entry reads as the empty set.
abbrev pub keys_of : ℕ → List (ℕ × List FiveTuple) → List FiveTuple
keys_of src_ip index = elim (find ℕ_discrete src_ip index) [ none ↦ [] | some keys ↦ keys ]

-- An empty set of keys leaves the index.
unfoldable pub store_keys :
    ℕ → List FiveTuple → List (ℕ × List FiveTuple) → List (ℕ × List FiveTuple)
store_keys src_ip [] index = erase ℕ_discrete src_ip index
store_keys src_ip (k ∷ ks) index = put ℕ_discrete src_ip (k ∷ ks) index

unfoldable pub erase_sources : List ℕ → List (ℕ × SourceStats) → List (ℕ × SourceStats)
erase_sources [] stats = stats
erase_sources (k ∷ ks) stats = erase_sources ks (erase ℕ_discrete k stats)

module _ {F : Type 0} where
  unfoldable pub update_source_stats :
      FlowManager F → ParsedPacket → TimePoint → FlowManager F × Option SourceStats
  update_source_stats m packet now = elim (find ℕ_discrete src_ip m.source_stats) [
    | none ↦
        if leb m.max_sources (length m.source_stats)
        then (m, none)
        else store (count_packet true new_stats packet now)
    | some s ↦ store (count_packet (elapsed now s.window_start m.window_seconds) s packet now)
  ]
    where
      src_ip : ℕ
      src_ip = packet.tuple.src_ip

      new_stats : SourceStats
      new_stats = record { recent_dst_ports = []; syn_count = 0; window_start = now }

      store : SourceStats → FlowManager F × Option SourceStats
      store s = (record m { source_stats = put ℕ_discrete src_ip s m.source_stats }, some s)

  unfoldable pub get_flow : FlowManager F → FiveTuple → Option (Flow F)
  get_flow m key = elim (find tuple_discrete key m.flows) [
    | some f ↦ some f
    | none ↦ find tuple_discrete (reversed key) m.flows
  ]

  -- `unindex_flow`: the key leaves its source's set, and an empty set leaves the index.
  unfoldable pub unindex_flow : FlowManager F → FiveTuple → FlowManager F
  unindex_flow m key = elim (find ℕ_discrete key.src_ip m.flow_keys_by_source) [
    | none ↦ m
    | some keys ↦ record m {
      flow_keys_by_source =
          store_keys key.src_ip (remove tuple_discrete key keys) m.flow_keys_by_source;
    }
  ]

  unfoldable pub erase_flow : FlowManager F → FiveTuple → FlowManager F
  erase_flow m key = record m { flows = erase tuple_discrete key m.flows }

  -- The end of `extract_completed`, for the flow that stands at `key`.
  unfoldable pub end_reason : Flow F → Option FlowEndReason
  end_reason f =
      if ltb 0 f.forward.rst || ltb 0 f.backward.rst
      then some tcp_reset
      else if f.fin_handshake_complete
      then some tcp_fin
      else none

  unfoldable pub extract_at :
      FlowManager F → FiveTuple → Flow F → FlowManager F × Option (EndedFlow F)
  extract_at m key f = elim (end_reason f) [
    | none ↦ (m, none)
    | some r ↦ (erase_flow (unindex_flow m key) key, some (record { flow = f; reason = r }))
  ]

  unfoldable pub extract_completed :
      FlowManager F → FiveTuple → FlowManager F × Option (EndedFlow F)
  extract_completed m key = elim (find tuple_discrete key m.flows) [
    | some f ↦ extract_at m key f
    | none ↦ elim (find tuple_discrete (reversed key) m.flows) [
      | some f ↦ extract_at m (reversed key) f
      | none ↦ (m, none)
    ]
  ]

  unfoldable pub erase_keys : List FiveTuple → List (FiveTuple × Flow F) → List (FiveTuple × Flow F)
  erase_keys [] flows = flows
  erase_keys (k ∷ ks) flows = erase_keys ks (erase tuple_discrete k flows)

  unfoldable pub discard_source_flows : FlowManager F → ℕ → FlowManager F
  discard_source_flows m src_ip = elim (find ℕ_discrete src_ip m.flow_keys_by_source) [
    | none ↦ m
    | some keys ↦ record m {
      flows = erase_keys keys m.flows;
      flow_keys_by_source = erase ℕ_discrete src_ip m.flow_keys_by_source;
    }
  ]

  -- The second loop of `sweep_expired` over the flows: each doomed flow that still stands in the map
  -- is unindexed, reported and erased.
  unfoldable pub expire_flows : FlowManager F → List FiveTuple → FlowManager F × List (EndedFlow F)
  expire_flows m [] = (m, [])
  expire_flows m (k ∷ ks) = elim (find tuple_discrete k m.flows) [
    | none ↦ expire_flows m ks
    | some f ↦
        let (m', rest) = expire_flows (erase_flow (unindex_flow m f.key) k) ks in
        (m', record { flow = f; reason = timeout } ∷ rest)
  ]

  unfoldable pub flow_expired : TimePoint → Flow F → Bool
  flow_expired now f = elapsed now f.last_seen flow_timeout_sec

  unfoldable pub index_flow : FlowManager F → FiveTuple → FlowManager F
  index_flow m key = record m {
    flow_keys_by_source =
        put ℕ_discrete key.src_ip
          (insert tuple_discrete key (keys_of key.src_ip m.flow_keys_by_source))
          m.flow_keys_by_source;
  }

  -- The two calls of `sweep_expired`.
  unfoldable pub sweep_flows :
      Layout → FlowManager F → TimePoint → FlowManager F × List (EndedFlow F)
  sweep_flows l m now =
      expire_flows (record m { flow_cursor = next_cursor l.flow_buckets m.flow_cursor })
        (doomed l.flow_bucket l.flow_buckets m.flow_cursor (flow_expired now) m.flows)

  unfoldable pub sweep_sources : Layout → FlowManager F → TimePoint → FlowManager F
  sweep_sources l m now = record m {
    source_stats =
        erase_sources
          (doomed l.source_bucket l.source_buckets m.source_cursor
            (λ s. elapsed now s.window_start m.window_seconds) m.source_stats)
          m.source_stats;
    source_cursor = next_cursor l.source_buckets m.source_cursor;
  }

  unfoldable pub cleanup_expired :
      Layout → FlowManager F → TimePoint → FlowManager F × List (EndedFlow F)
  cleanup_expired l m now =
      let (m', expired_flows) = sweep_flows l m now in (sweep_sources l m' now, expired_flows)

module _ {F : Type 0} (d : Double F) where
  -- `flow_it->second` after the packet, at the key where it stands.
  unfoldable pub update_at :
      FlowManager F
      → FiveTuple
      → Flow F
      → Bool
      → ParsedPacket
      → TimePoint
      → FlowManager F × Option (Flow F × Bool)
  update_at m key f is_forward packet now =
      let f' = touch_flow d f is_forward packet now in
      (record m { flows = put tuple_discrete key f' m.flows }, some (f', is_forward))

  unfoldable pub update_flow :
      FlowManager F
      → ParsedPacket
      → PacketDirection
      → TimePoint
      → FlowManager F × Option (Flow F × Bool)
  update_flow m packet direction now = elim (find tuple_discrete key m.flows) [
    | some f ↦ update_at m key f true packet now
    | none ↦ elim (find tuple_discrete (reversed key) m.flows) [
      | some f ↦ update_at m (reversed key) f false packet now
      | none ↦
          if ltb (length m.flows) m.max_flows
          then update_at (index_flow m key) key (new_flow d key direction now) true packet now
          else (m, none)
    ]
  ]
    where
      key : FiveTuple
      key = packet.tuple

  -- `observe_packet` once `update_flow` has returned.
  unfoldable pub observe_source :
      FlowManager F
      → Option (Flow F × Bool)
      → ParsedPacket
      → PacketDirection
      → TimePoint
      → FlowManager F × Option SourceStats
  observe_source m none packet inbound now = update_source_stats m packet now
  observe_source m (some (f, is_forward)) packet inbound now =
      if is_forward && is_remote f.origin then update_source_stats m packet now else (m, none)
  observe_source m _ packet _ now = (m, none)

  unfoldable pub observe_packet :
      FlowManager F
      → ParsedPacket
      → PacketDirection
      → TimePoint
      → FlowManager F × Option SourceStats
  observe_packet m packet unknown now = (m, none)
  observe_packet m packet direction now =
      let (m', updated) = update_flow m packet direction now in
      observe_source m' updated packet direction now

  unfoldable pub add_packet :
      FlowManager F → ParsedPacket → TimePoint → FlowManager F × Option SourceStats
  add_packet m packet now = observe_packet m packet inbound now
