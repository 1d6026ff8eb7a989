-- ===== src/Capture/Pipeline/Frame.antt =====
-- src/capture/packet_capture.cpp: what handing a flow to the consumer has to do with the judging.
use ips_with_ai.Prelude.{ℕ, suc, ◌≡◌, ◌∙◌, Option, none, some, List, [], ◌∷◌, arith}
use ips_with_ai.Common.Clock.{TimePoint}
use ips_with_ai.Flow.Double.{Double}
use ips_with_ai.Flow.Types.{ParsedPacket, EndedFlow}
use ips_with_ai.Flow.Manager.{extract_completed}
use ips_with_ai.Capture.Pipeline.{
  PacketCapture, consume_flow, consume_option, consume_flows, complete_flow,
}

-- What decides about packets, flows apart, is the same.
pub record SameJudging {F : Type 0} (c c' : PacketCapture F) : Type 0 where
  pub ttl : c'.block_ttl_seconds ≡ c.block_ttl_seconds
  pub whitelist : c'.whitelist ≡ c.whitelist
  pub block_list : c'.block_list ≡ c.block_list
  pub rule_engine : c'.rule_engine ≡ c.rule_engine
  pub rule_blocks : c'.rule_blocks ≡ c.rule_blocks

module _ {F : Type 0} (d : Double F) where
  pub consume_flow-SameJudging :
      (c : PacketCapture F) (e : EndedFlow F) (now : TimePoint)
      → SameJudging c (consume_flow d c e now)
        × ((consume_flow d c e now).flow_manager ≡ c.flow_manager)
  unfolding consume_flow
  consume_flow-SameJudging c e now = ground arith

  pub consume_option-SameJudging :
      (c : PacketCapture F) (e : Option (EndedFlow F)) (now : TimePoint)
      → SameJudging c (consume_option d c e now)
        × ((consume_option d c e now).flow_manager ≡ c.flow_manager)
  unfolding consume_option
  consume_option-SameJudging c none now = ground arith
  consume_option-SameJudging c (some e) now = consume_flow-SameJudging c e now

  pub consume_flows-SameJudging :
      (c : PacketCapture F) (es : List (EndedFlow F)) (later : ℕ → TimePoint)
      → SameJudging c (consume_flows d c es later)
        × ((consume_flows d c es later).flow_manager ≡ c.flow_manager)
  unfolding consume_flows
  consume_flows-SameJudging c [] later = ground arith
  consume_flows-SameJudging c (e ∷ es) later =
      let a = consume_flow-SameJudging c e (later 0) in
      let b = consume_flows-SameJudging (consume_flow d c e (later 0)) es (λ n. later (suc n)) in
      (
        record {
          ttl = b.0.ttl ∙ a.0.ttl;
          whitelist = b.0.whitelist ∙ a.0.whitelist;
          block_list = b.0.block_list ∙ a.0.block_list;
          rule_engine = b.0.rule_engine ∙ a.0.rule_engine;
          rule_blocks = b.0.rule_blocks ∙ a.0.rule_blocks;
        },
        b.1 ∙ a.1,
      )

  pub complete_flow-SameJudging :
      (c : PacketCapture F) (p : ParsedPacket) (later : TimePoint)
      → SameJudging c (complete_flow d c p later)
        × ((complete_flow d c p later).flow_manager ≡ (extract_completed c.flow_manager p.tuple).0)
  unfolding complete_flow
  complete_flow-SameJudging c p later =
      let (m, completed) = extract_completed c.flow_manager p.tuple in
      ground (arith, consume_option-SameJudging (record c { flow_manager = m }) completed later)
