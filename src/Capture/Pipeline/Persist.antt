-- ===== src/Capture/Pipeline/Persist.antt =====
-- src/capture/packet_capture.cpp: how long a block stands.
use ips_with_ai.Prelude.{ℕ, ◌≤◌, ◌≡◌, ◌∙◌, true, false, List, [], ◌∷◌, arith, All}
use ips_with_ai.Common.Clock.{TimePoint}
use ips_with_ai.Flow.Double.{Double}
use ips_with_ai.Flow.Types.{ParsedPacket, inbound, outbound, unknown}
use ips_with_ai.Flow.Manager.{observe_packet, cleanup_expired}
use ips_with_ai.Flow.Manager.Sweep.{Layout}
use ips_with_ai.Response.BlockList.{BlockList, is_blocked, block}
use ips_with_ai.Response.BlockList.Blocked.{is_blocked-block, is_blocked-cleanup_expired}
use ips_with_ai.Ai.Types.{AiDecision}
use ips_with_ai.Capture.Pipeline.{
  PacketCapture, judge, handle_inbound, handle_packet, apply_decision, apply_ai_decisions, on_tick,
  release_expired, export_expired,
}
use ips_with_ai.Capture.Pipeline.Frame.{complete_flow-SameJudging, consume_flows-SameJudging}
use ips_with_ai.Capture.Pipeline.Verdict.{handle_outbound_verdict}
use ips_with_ai.Capture.Pipeline.Blocking.{
  Inv, Event, packet, tick, handle_event, handle_events, handle_event-Inv, apply_ai_decisions-Inv,
}

-- Whoever is blocked at `t` is blocked before it.
is_blocked_earlier :
    (b : BlockList) (ip : ℕ) (now t : TimePoint)
    → now ≤ t
    → is_blocked b ip t ≡ true
    → is_blocked b ip now ≡ true
unfolding is_blocked
is_blocked_earlier b ip now t l h = ground arith

-- A block is only set where none stands, so it shortens no other.
block_keeps :
    (b : BlockList) (ip other ttl : ℕ) (now t : TimePoint)
    → is_blocked b other now ≡ false
    → now ≤ t
    → is_blocked b ip t ≡ true
    → is_blocked (block b other ttl now) ip t ≡ true
block_keeps b ip other ttl now t free l h =
    ground (arith, is_blocked-block b other ttl now ip t, is_blocked_earlier b ip now t l h)

module _ {F : Type 0} where
  pub apply_ai_decisions-blocked :
      (c : PacketCapture F) (ds : List (AiDecision F)) (ip : ℕ) (now t : TimePoint)
      → now ≤ t
      → is_blocked c.block_list ip t ≡ true
      → is_blocked (apply_ai_decisions c ds now).block_list ip t ≡ true
  unfolding apply_ai_decisions apply_decision
  apply_ai_decisions-blocked c [] ip now t l h = h
  apply_ai_decisions-blocked c (a ∷ ds) ip now t l h =
      apply_ai_decisions-blocked (apply_decision c a now) ds ip now t l (
        ground
          (arith, block_keeps c.block_list ip a.flow_record.key.src_ip c.block_ttl_seconds now t))

-- The time at which the pipeline handles the event.
abbrev pub NotAfter : {F : Type 0} → TimePoint → Event F → Type 0
NotAfter t (packet direction p now later) = now ≤ t
NotAfter t (tick l ds now later) = now ≤ t

module _ {F : Type 0} (d : Double F) where
  handle_inbound-blocked :
      (c : PacketCapture F) (p : ParsedPacket) (now later : TimePoint) (ip : ℕ) (t : TimePoint)
      → now ≤ t
      → is_blocked c.block_list ip t ≡ true
      → is_blocked (handle_inbound d c p now later).0.block_list ip t ≡ true
  unfolding handle_inbound judge
  handle_inbound-blocked c p now later ip t l h =
      let (m, stats) = observe_packet d c.flow_manager p inbound now in
      ground (
        arith,
        complete_flow-SameJudging d (record c { flow_manager = m }) p later,
        block_keeps c.block_list ip p.tuple.src_ip c.block_ttl_seconds now t,
      )

  export_expired-block_list :
      (l : Layout) (c : PacketCapture F) (now : TimePoint) (later : ℕ → TimePoint)
      → (export_expired d l c now later).block_list ≡ c.block_list
  unfolding export_expired
  export_expired-block_list l c now later =
      let (m, expired) = cleanup_expired l c.flow_manager now in
      (consume_flows-SameJudging d (record c { flow_manager = m }) expired later).0.block_list

  on_tick-blocked :
      (l : Layout) (c : PacketCapture F) (ds : List (AiDecision F)) (now : TimePoint)
      (later : ℕ → TimePoint) (ip : ℕ) (t : TimePoint)
      → Inv c
      → now ≤ t
      → is_blocked c.block_list ip t ≡ true
      → is_blocked (on_tick d l c ds now later).block_list ip t ≡ true
  unfolding on_tick release_expired
  on_tick-blocked l c ds now later ip t v o h =
      let c' = apply_ai_decisions c ds now in
      let same = export_expired-block_list l c' now later in
      rw same (
        is_blocked-cleanup_expired c'.block_list now ip t
          (apply_ai_decisions-Inv c ds now v).blocks.unique o
        ∙ apply_ai_decisions-blocked c ds ip now t o h)

  handle_event-blocked :
      (c : PacketCapture F) (e : Event F) (ip : ℕ) (t : TimePoint)
      → Inv c
      → NotAfter t e
      → is_blocked c.block_list ip t ≡ true
      → is_blocked (handle_event d c e).block_list ip t ≡ true
  unfolding handle_event handle_packet
  handle_event-blocked c (packet inbound p now later) ip t v o h =
      handle_inbound-blocked c p now later ip t o h
  handle_event-blocked c (packet outbound p now later) ip t v o h =
      rw ((handle_outbound_verdict d c p now later).1) h
  handle_event-blocked c (packet unknown p now later) ip t v o h = h
  handle_event-blocked c (tick l ds now later) ip t v o h =
      on_tick-blocked l c ds now later ip t v o h

  -- Where the pipeline's invariant holds, an address that is blocked at `t` stays blocked at `t`,
  -- whatever packets, decisions and ticks the pipeline handles up to then: no event lifts or shortens
  -- a block.
  pub handle_events-blocked :
      (c : PacketCapture F) (es : List (Event F)) (ip : ℕ) (t : TimePoint)
      → Inv c
      → All (NotAfter t) es
      → is_blocked c.block_list ip t ≡ true
      → is_blocked (handle_events d c es).block_list ip t ≡ true
  unfolding handle_events
  handle_events-blocked c [] ip t v o h = h
  handle_events-blocked c (e ∷ es) ip t v o h =
      handle_events-blocked (handle_event d c e) es ip t (handle_event-Inv d c e v) o.1
        (handle_event-blocked c e ip t v o.0 h)
