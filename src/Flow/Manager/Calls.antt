-- ===== src/Flow/Manager/Calls.antt =====
-- src/flow/flow_manager.h: the public operations of `FlowManager` in any order.
use ips_with_ai.Prelude.{ℕ, List, [], ◌∷◌}
use ips_with_ai.Common.Clock.{TimePoint}
use ips_with_ai.Common.FiveTuple.{FiveTuple}
use ips_with_ai.Flow.Double.{Double}
use ips_with_ai.Flow.Types.{ParsedPacket, PacketDirection}
use ips_with_ai.Flow.Manager.{
  FlowManager, new_manager, extract_completed, discard_source_flows, cleanup_expired,
  observe_packet,
}
use ips_with_ai.Flow.Manager.Sweep.{Layout}
use ips_with_ai.Flow.Manager.Invariant.{
  Inv, new_manager-Inv, observe_packet-Inv, extract_completed-Inv, discard_source_flows-Inv,
  cleanup_expired-Inv,
}

-- The public operations that change the manager, in any order.
pub data Call : Type 0 where
  observe : ParsedPacket → PacketDirection → TimePoint → Call
  extract : FiveTuple → Call
  discard : ℕ → Call
  cleanup : Layout → TimePoint → Call

module _ {F : Type 0} (d : Double F) where
  unfoldable pub apply_call : FlowManager F → Call → FlowManager F
  apply_call m (observe p dir now) = (observe_packet d m p dir now).0
  apply_call m (extract k) = (extract_completed m k).0
  apply_call m (discard ip) = discard_source_flows m ip
  apply_call m (cleanup l now) = (cleanup_expired l m now).0

  unfoldable pub apply_calls : FlowManager F → List Call → FlowManager F
  apply_calls m [] = m
  apply_calls m (c ∷ cs) = apply_calls (apply_call m c) cs

  pub apply_call-Inv : (m : FlowManager F) (c : Call) → Inv m → Inv (apply_call m c)
  unfolding apply_call
  apply_call-Inv m (observe p dir now) h = observe_packet-Inv d m p dir now h
  apply_call-Inv m (extract k) h = extract_completed-Inv m k h
  apply_call-Inv m (discard ip) h = discard_source_flows-Inv m ip h
  apply_call-Inv m (cleanup l now) h = cleanup_expired-Inv l m now h

  apply_calls-Inv_from : (m : FlowManager F) (cs : List Call) → Inv m → Inv (apply_calls m cs)
  unfolding apply_calls
  apply_calls-Inv_from m [] h = h
  apply_calls-Inv_from m (c ∷ cs) h =
      apply_calls-Inv_from (apply_call m c) cs (apply_call-Inv m c h)

  -- From a new manager, any sequence of packets, extractions, discards and clean-ups keeps the
  -- invariant: the index lists exactly the stored flows, each under its source, no conversation is
  -- stored in both directions, and neither map outgrows its limit.
  pub apply_calls-Inv :
      (window flows_limit sources_limit : ℕ) (cs : List Call)
      → Inv (apply_calls (new_manager window flows_limit sources_limit) cs)
  apply_calls-Inv w f s cs = apply_calls-Inv_from (new_manager w f s) cs (new_manager-Inv w f s)
