-- ===== src/Capture/Pipeline.antt =====
-- src/capture/packet_capture.h and packet_capture.cpp, `PacketCapture`: the pipeline from a packet to
-- its verdict. The flow consumer is another component: what it is given is the trace `consumed`, and
-- the decisions that it hands back are an argument of the tick; so for the block handler and
-- `block_events`, where a handler is set. `now` is the clock's reading at the start of a call, and `later` are the readings
-- that `consume_flow` takes after it, in order.
pub mod Frame
pub mod Verdict
pub mod Blocking
pub mod Persist
pub mod Exports
pub mod Decisions
use ips_with_ai.Prelude.{
  ℕ, zero, suc, ◌+◌, ◌-◌, ◌/◌, ◌≡◌, Bool, true, false, ◌||◌, not, Option, none, some, List, [], ◌∷◌,
  ◌++◌, ltb, leb, ◌==◌, if◌then◌else◌, u64,
}
use ips_with_ai.Common.Clock.{TimePoint}
use ips_with_ai.Flow.Double.{Double}
use ips_with_ai.Flow.Types.{
  ParsedPacket, PacketDirection, inbound, outbound, unknown, EndedFlow, SourceStats,
}
use ips_with_ai.Flow.Manager.{
  FlowManager, new_manager, default_max_flows, default_max_sources, observe_packet,
  extract_completed, discard_source_flows, cleanup_expired, is_remote,
}
use ips_with_ai.Flow.Manager.Sweep.{Layout}
use ips_with_ai.Detect.{Rule, RuleEngine, port_scan, syn_flood, add_rule, check}
use ips_with_ai.Response.Whitelist.{Whitelist, is_whitelisted}
use ips_with_ai.Response.BlockList
use ips_with_ai.Response.BlockList.{BlockList, block, is_blocked}
use ips_with_ai.Ai.Types.{FlowId, FlowRecord, AiDecision, AiBlockEvent, flow_feature_schema_version}
use ips_with_ai.Ai.Features.{flow_to_features}
use ips_with_ai.Capture.Parser.{Bytes, parse}

pub record PacketCapture (F : Type 0) : Type 0 where
  pub block_ttl_seconds : ℕ
  pub whitelist : Whitelist
  pub block_list : BlockList
  pub flow_manager : FlowManager F
  pub rule_engine : RuleEngine
  pub rule_blocks : ℕ
  pub ai_new_blocks : ℕ
  pub ai_duplicates : ℕ
  pub ai_whitelisted : ℕ
  pub steady_anchor : TimePoint
  pub wall_anchor : ℕ
  pub sensor_instance_id : ℕ
  pub next_flow_sequence : ℕ
  pub has_block_handler : Bool
  pub consumed : List (FlowRecord F)
  pub block_events : List (AiBlockEvent F)

-- The constructor: the two anchors are the clocks' readings in nanoseconds, and the sensor's number
-- is the wall clock's in microseconds.
unfoldable pub new_capture :
    {F : Type 0} (block_ttl_seconds window_seconds distinct_port_threshold syn_threshold : ℕ)
    → Whitelist
    → (steady_anchor : TimePoint) (wall_anchor : ℕ) (has_block_handler : Bool) → PacketCapture F
new_capture ttl window ports syns whitelist steady wall has_block_handler = record {
  has_block_handler = has_block_handler;
  block_ttl_seconds = ttl;
  whitelist = whitelist;
  block_list = BlockList.empty;
  flow_manager = new_manager window default_max_flows default_max_sources;
  rule_engine = add_rule (add_rule (record { rules = [] }) (port_scan ports)) (syn_flood syns);
  rule_blocks = 0;
  ai_new_blocks = 0;
  ai_duplicates = 0;
  ai_whitelisted = 0;
  steady_anchor = steady;
  wall_anchor = wall;
  sensor_instance_id = wall / 1000;
  next_flow_sequence = 1;
  consumed = [];
  block_events = [];
}

module _ {F : Type 0} where
  -- A point of the steady clock after the anchor, on the wall clock in milliseconds.
  unfoldable pub to_epoch_ms : PacketCapture F → TimePoint → ℕ
  to_epoch_ms c point = (c.wall_anchor + point - c.steady_anchor) / 1000000

  unfoldable pub is_exempt : PacketCapture F → ℕ → TimePoint → Bool
  is_exempt c ip now = is_whitelisted c.whitelist ip || is_blocked c.block_list ip now

  -- One turn of the loop of `apply_ai_decisions`.
  unfoldable pub apply_decision : PacketCapture F → AiDecision F → TimePoint → PacketCapture F
  apply_decision c decision now =
      if not decision.anomaly
      then c
      else if is_whitelisted c.whitelist source_ip
      then record c { ai_whitelisted = u64 (c.ai_whitelisted + 1) }
      else if is_blocked c.block_list source_ip now
      then record c { ai_duplicates = u64 (c.ai_duplicates + 1) }
      else record c {
        flow_manager = discard_source_flows c.flow_manager source_ip;
        block_list = block c.block_list source_ip c.block_ttl_seconds now;
        ai_new_blocks = u64 (c.ai_new_blocks + 1);
        block_events = if c.has_block_handler then c.block_events ++ event ∷ [] else c.block_events;
      }
    where
      source_ip : ℕ
      source_ip = decision.flow_record.key.src_ip

      event : AiBlockEvent F
      event = record {
        flow_id = decision.flow_record.flow_id;
        source_ip = source_ip;
        score = decision.score;
        threshold = decision.threshold;
        ttl_seconds = c.block_ttl_seconds;
        model_version = decision.model_version;
      }

  unfoldable pub apply_ai_decisions :
      PacketCapture F → List (AiDecision F) → TimePoint → PacketCapture F
  apply_ai_decisions c [] now = c
  apply_ai_decisions c (decision ∷ decisions) now =
      apply_ai_decisions (apply_decision c decision now) decisions now

  abbrev pub rule_hit : PacketCapture F → Option SourceStats → Option Rule
  rule_hit c none = none
  rule_hit c (some stats) = check c.rule_engine stats

  -- The end of `on_tick`.
  unfoldable pub release_expired : PacketCapture F → TimePoint → PacketCapture F
  release_expired c now = record c { block_list = BlockList.cleanup_expired c.block_list now }

module _ {F : Type 0} (d : Double F) where
  unfoldable pub consume_flow : PacketCapture F → EndedFlow F → TimePoint → PacketCapture F
  consume_flow c ended now =
      if not (is_remote ended.flow.origin)
      then c
      else if leb
          (u64 (ended.flow.forward.payload_len.count + ended.flow.backward.payload_len.count)) 1
      then c
      else if is_exempt c ended.flow.key.src_ip now
      then c
      else record c {
        consumed = c.consumed ++ flow_record ∷ [];
        next_flow_sequence = u64 (c.next_flow_sequence + 1);
      }
    where
      flow_record : FlowRecord F
      flow_record = record {
        flow_id = record { sensor = c.sensor_instance_id; sequence = c.next_flow_sequence };
        key = ended.flow.key;
        first_seen_ms = to_epoch_ms c ended.flow.first_seen;
        last_seen_ms = to_epoch_ms c ended.flow.last_seen;
        end_reason = ended.reason;
        feature_schema_version = flow_feature_schema_version;
        features = flow_to_features d ended.flow;
      }

  unfoldable pub consume_option :
      PacketCapture F → Option (EndedFlow F) → TimePoint → PacketCapture F
  consume_option c none now = c
  consume_option c (some ended) now = consume_flow c ended now

  -- The flows that a tick expired, each with its own reading of the clock.
  unfoldable pub consume_flows :
      PacketCapture F → List (EndedFlow F) → (ℕ → TimePoint) → PacketCapture F
  consume_flows c [] later = c
  consume_flows c (ended ∷ rest) later =
      consume_flows (consume_flow c ended (later 0)) rest (λ n. later (suc n))

  -- The end of both handlers: `extract_completed`, and what it returned to the consumer.
  unfoldable pub complete_flow : PacketCapture F → ParsedPacket → TimePoint → PacketCapture F
  complete_flow c packet later =
      let (m, completed) = extract_completed c.flow_manager packet.tuple in
      consume_option (record c { flow_manager = m }) completed later

  -- `handle_inbound` once the packet was observed.
  unfoldable pub judge :
      PacketCapture F → Option Rule → ParsedPacket → TimePoint → TimePoint → PacketCapture F × Bool
  judge c none packet now later = (complete_flow c packet later, true)
  judge c (some hit) packet now later = (
    record c {
      flow_manager = discard_source_flows c.flow_manager packet.tuple.src_ip;
      rule_blocks = u64 (c.rule_blocks + 1);
      block_list = block c.block_list packet.tuple.src_ip c.block_ttl_seconds now;
    },
    false,
  )

  unfoldable pub handle_inbound :
      PacketCapture F → ParsedPacket → TimePoint → TimePoint → PacketCapture F × Bool
  handle_inbound c packet now later =
      if is_whitelisted c.whitelist packet.tuple.src_ip
      then (c, true)
      else if is_blocked c.block_list packet.tuple.src_ip now
      then (c, false)
      else if not packet.has_ports
      then (c, true)
      else (let (m, stats) = observe_packet d c.flow_manager packet inbound now in
          judge (record c { flow_manager = m }) (rule_hit c stats) packet now later)

  unfoldable pub handle_outbound :
      PacketCapture F → ParsedPacket → TimePoint → TimePoint → PacketCapture F × Bool
  handle_outbound c packet now later =
      if is_exempt c packet.tuple.dst_ip now || not packet.has_ports
      then (c, true)
      else (let (m, _) = observe_packet d c.flow_manager packet outbound now in
          (complete_flow (record c { flow_manager = m }) packet later, true))

  -- A packet that has been parsed, by its direction.
  unfoldable pub handle_packet :
      PacketCapture F
      → PacketDirection
      → ParsedPacket
      → TimePoint
      → TimePoint
      → PacketCapture F × Bool
  handle_packet c inbound packet now later = handle_inbound c packet now later
  handle_packet c outbound packet now later = handle_outbound c packet now later
  handle_packet c unknown packet now later = (c, true)

  abbrev pub handle_parsed :
      PacketCapture F
      → PacketDirection
      → Option ParsedPacket
      → TimePoint
      → TimePoint
      → PacketCapture F × Bool
  handle_parsed c direction none now later = (c, true)
  handle_parsed c direction (some packet) now later = handle_packet c direction packet now later

  -- `on_packet`; the outer `none` is a fault of the parser.
  unfoldable pub on_packet :
      PacketCapture F
      → PacketDirection
      → Option Bytes
      → TimePoint
      → TimePoint
      → Option (PacketCapture F × Bool)
  on_packet c unknown buffer now later = some (c, true)
  on_packet c direction buffer now later = elim (parse buffer) [
    | none ↦ none
    | some parsed ↦ some (handle_parsed c direction parsed now later)
  ]

  -- The middle of `on_tick`: the flows that time out go to the consumer.
  unfoldable pub export_expired :
      Layout → PacketCapture F → TimePoint → (ℕ → TimePoint) → PacketCapture F
  export_expired l c now later =
      let (m, expired) = cleanup_expired l c.flow_manager now in
      consume_flows (record c { flow_manager = m }) expired later

  unfoldable pub on_tick :
      Layout → PacketCapture F → List (AiDecision F) → TimePoint → (ℕ → TimePoint) → PacketCapture F
  on_tick l c decisions now later =
      release_expired (export_expired l (apply_ai_decisions c decisions now) now later) now
