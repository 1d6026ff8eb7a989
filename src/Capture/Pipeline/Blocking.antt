-- ===== src/Capture/Pipeline/Blocking.antt =====
-- src/capture/packet_capture.cpp: what holds of the pipeline after any packets and ticks.
use ips_with_ai.Prelude.{
  Bool, ℕ, ◌≡◌, refl, true, false, ◌||◌, not, Option, none, some, List, [], ◌∷◌, arith, Bool-cases,
  inl, inr,
}
use ips_with_ai.Prelude.Map.{find}
use ips_with_ai.Common.Clock.{TimePoint}
use ips_with_ai.Flow.Double.{Double}
use ips_with_ai.Flow.Types.{ParsedPacket, PacketDirection, inbound, outbound, unknown}
use ips_with_ai.Flow.Manager.{observe_packet, extract_completed, discard_source_flows}
use ips_with_ai.Flow.Manager
use ips_with_ai.Flow.Manager.Invariant
use ips_with_ai.Flow.Manager.Sweep.{Layout}
use ips_with_ai.Detect.{Rule}
use ips_with_ai.Response.Whitelist.{Whitelist, is_whitelisted}
use ips_with_ai.Response.BlockList
use ips_with_ai.Response.BlockList.{BlockList, is_blocked, block}
use ips_with_ai.Response.BlockList.Blocked.{is_blocked-block, cleanup_expired-unblocked}
use ips_with_ai.Response.BlockList.Pending.{
  IsValid, empty-IsValid, block-IsValid, cleanup_expired-IsValid,
}
use ips_with_ai.Ai.Types.{AiDecision}
use ips_with_ai.Capture.Pipeline.{
  PacketCapture, new_capture, complete_flow, judge, rule_hit, handle_inbound, handle_outbound,
  handle_packet, is_exempt, apply_decision, apply_ai_decisions, on_tick, consume_flows,
  release_expired, export_expired,
}
use ips_with_ai.Capture.Pipeline.Frame.{
  SameJudging, complete_flow-SameJudging, consume_flows-SameJudging,
}

-- Nobody on the whitelist is ever blocked, at any time.
abbrev pub Spares : Whitelist → BlockList → Type 0
Spares w b = (ip : ℕ) → is_whitelisted w ip ≡ true → (t : TimePoint) → is_blocked b ip t ≡ false

-- The block list's map and heap, the flow manager's tables, and the whitelist's protection.
pub record Inv {F : Type 0} (c : PacketCapture F) : Type 0 where
  pub blocks : IsValid c.block_list
  pub flows : Invariant.Inv c.flow_manager
  pub spares : Spares c.whitelist c.block_list

-- What reaches the pipeline: a parsed packet with its direction, or a tick with the decisions that
-- are drained in it.
pub data Event (F : Type 0) : Type 0 where
  packet : PacketDirection → ParsedPacket → (now later : TimePoint) → Event F
  tick : Layout → List (AiDecision F) → (now : TimePoint) → (ℕ → TimePoint) → Event F

block-Spares :
    (w : Whitelist) (b : BlockList) (ip ttl : ℕ) (now : TimePoint)
    → is_whitelisted w ip ≡ false
    → Spares w b
    → Spares w (block b ip ttl now)
block-Spares w b ip ttl now n s other h t =
    ground (arith, is_blocked-block b ip ttl now other t, s other h t)

module _ {F : Type 0} where
  apply_decision-Inv :
      (c : PacketCapture F) (a : AiDecision F) (now : TimePoint)
      → Inv c
      → Inv (apply_decision c a now)
  unfolding apply_decision
  apply_decision-Inv c a now v =
      let ip = a.flow_record.key.src_ip in
      let f = Invariant.discard_source_flows-Inv c.flow_manager ip v.flows in
      let b = block-IsValid c.block_list ip c.block_ttl_seconds now v.blocks in
      elim (Bool-cases a.anomaly) [
        | inr normal ↦ rw (normal, apply_decision) v
        | inl odd ↦ elim (Bool-cases (is_whitelisted c.whitelist ip)) [
          | inl spared ↦
              rw (odd, spared, apply_decision)
                (record { blocks = v.blocks; flows = v.flows; spares = v.spares })
          | inr open_to ↦ elim (Bool-cases (is_blocked c.block_list ip now)) [
            | inl twice ↦
                rw (odd, open_to, twice, apply_decision)
                  (record { blocks = v.blocks; flows = v.flows; spares = v.spares })
            | inr fresh ↦
                rw (odd, open_to, fresh, apply_decision)
                  (record {
                    blocks = b;
                    flows = f;
                    spares =
                        block-Spares c.whitelist c.block_list ip c.block_ttl_seconds now open_to
                          v.spares;
                  })
          ]
        ]
      ]

  pub apply_ai_decisions-Inv :
      (c : PacketCapture F) (ds : List (AiDecision F)) (now : TimePoint)
      → Inv c
      → Inv (apply_ai_decisions c ds now)
  unfolding apply_ai_decisions
  apply_ai_decisions-Inv c [] now v = v
  apply_ai_decisions-Inv c (a ∷ ds) now v =
      apply_ai_decisions-Inv (apply_decision c a now) ds now (apply_decision-Inv c a now v)

  SameJudging-Inv :
      (c c' : PacketCapture F) → SameJudging c c' → Invariant.Inv c'.flow_manager → Inv c → Inv c'
  SameJudging-Inv c c' same f v = record {
    blocks = rw same.block_list v.blocks;
    flows = f;
    spares = rw (same.block_list, same.whitelist) v.spares;
  }

  -- A whitelisted address stays unblocked in a clean-up, at any time: it has no entry.
  release_expired-Inv :
      (c : PacketCapture F) (now : TimePoint) → Inv c → Inv (release_expired c now)
  unfolding release_expired
  release_expired-Inv c now v = record {
    blocks = cleanup_expired-IsValid c.block_list now v.blocks;
    flows = v.flows;
    spares =
        λ ip h t. cleanup_expired-unblocked c.block_list now ip t v.blocks.unique (v.spares ip h t);
  }

module _ {F : Type 0} (d : Double F) where
  complete_flow-Inv :
      (c : PacketCapture F) (p : ParsedPacket) (later : TimePoint)
      → Inv c
      → Inv (complete_flow d c p later)
  complete_flow-Inv c p later v =
      let same = complete_flow-SameJudging d c p later in
      SameJudging-Inv c (complete_flow d c p later) same.0
        (rw same.1 (Invariant.extract_completed-Inv c.flow_manager p.tuple v.flows)) v

  judge-Inv :
      (c : PacketCapture F) (hit : Option Rule) (p : ParsedPacket) (now later : TimePoint)
      → is_whitelisted c.whitelist p.tuple.src_ip ≡ false
      → Inv c
      → Inv (judge d c hit p now later).0
  unfolding judge
  judge-Inv c none p now later n v = complete_flow-Inv c p later v
  judge-Inv c (some hit) p now later n v = record {
    blocks = block-IsValid c.block_list p.tuple.src_ip c.block_ttl_seconds now v.blocks;
    flows = Invariant.discard_source_flows-Inv c.flow_manager p.tuple.src_ip v.flows;
    spares =
        block-Spares c.whitelist c.block_list p.tuple.src_ip c.block_ttl_seconds now n v.spares;
  }

  handle_inbound-Inv :
      (c : PacketCapture F) (p : ParsedPacket) (now later : TimePoint)
      → Inv c
      → Inv (handle_inbound d c p now later).0
  unfolding handle_inbound
  handle_inbound-Inv c p now later v =
      let (m, stats) = observe_packet d c.flow_manager p inbound now in
      let f = Invariant.observe_packet-Inv d c.flow_manager p inbound now v.flows in
      let v' : Inv (record c { flow_manager = m }) = record {
        blocks = v.blocks;
        flows = f;
        spares = v.spares;
      } in
      elim (Bool-cases (is_whitelisted c.whitelist p.tuple.src_ip)) [
        | inl spared ↦ rw (spared, handle_inbound) v
        | inr open_to ↦ elim (Bool-cases (is_blocked c.block_list p.tuple.src_ip now)) [
          | inl held ↦ rw (open_to, held, handle_inbound) v
          | inr free ↦ elim (Bool-cases p.has_ports) [
            | inr bare ↦ rw (open_to, free, bare, handle_inbound) v
            | inl ported ↦
                let e : not p.has_ports ≡ false = ground arith in
                rw (open_to, free, e, handle_inbound)
                  (judge-Inv (record c { flow_manager = m }) (rule_hit c stats) p now later open_to
                    v')
          ]
        ]
      ]

  handle_outbound-Inv :
      (c : PacketCapture F) (p : ParsedPacket) (now later : TimePoint)
      → Inv c
      → Inv (handle_outbound d c p now later).0
  unfolding handle_outbound
  handle_outbound-Inv c p now later v =
      let (m, stats) = observe_packet d c.flow_manager p outbound now in
      let f = Invariant.observe_packet-Inv d c.flow_manager p outbound now v.flows in
      let v' : Inv (record c { flow_manager = m }) = record {
        blocks = v.blocks;
        flows = f;
        spares = v.spares;
      } in
      elim (Bool-cases (is_exempt c p.tuple.dst_ip now || not p.has_ports)) [
        | inl skipped ↦ rw (skipped, handle_outbound) v
        | inr seen ↦
            rw (seen, handle_outbound)
              (complete_flow-Inv (record c { flow_manager = m }) p later v')
      ]

  export_expired-Inv :
      (l : Layout) (c : PacketCapture F) (now : TimePoint) (later : ℕ → TimePoint)
      → Inv c
      → Inv (export_expired d l c now later)
  unfolding export_expired
  export_expired-Inv l c now later v =
      let (m, expired) = Manager.cleanup_expired l c.flow_manager now in
      let f = Invariant.cleanup_expired-Inv l c.flow_manager now v.flows in
      let c' : PacketCapture F = record c { flow_manager = m } in
      let same = consume_flows-SameJudging d c' expired later in
      SameJudging-Inv c' (consume_flows d c' expired later) same.0 (rw same.1 f)
        (record { blocks = v.blocks; flows = f; spares = v.spares })

  on_tick-Inv :
      (l : Layout) (c : PacketCapture F) (ds : List (AiDecision F)) (now : TimePoint)
      (later : ℕ → TimePoint)
      → Inv c
      → Inv (on_tick d l c ds now later)
  unfolding on_tick
  on_tick-Inv l c ds now later v =
      release_expired-Inv (export_expired d l (apply_ai_decisions c ds now) now later) now (
        export_expired-Inv l (apply_ai_decisions c ds now) now later
          (apply_ai_decisions-Inv c ds now v))

  unfoldable pub handle_event : PacketCapture F → Event F → PacketCapture F
  handle_event c (packet direction p now later) = (handle_packet d c direction p now later).0
  handle_event c (tick l ds now later) = on_tick d l c ds now later

  unfoldable pub handle_events : PacketCapture F → List (Event F) → PacketCapture F
  handle_events c [] = c
  handle_events c (e ∷ es) = handle_events (handle_event c e) es

  pub handle_event-Inv : (c : PacketCapture F) (e : Event F) → Inv c → Inv (handle_event c e)
  unfolding handle_event handle_packet
  handle_event-Inv c (packet inbound p now later) v = handle_inbound-Inv c p now later v
  handle_event-Inv c (packet outbound p now later) v = handle_outbound-Inv c p now later v
  handle_event-Inv c (packet unknown p now later) v = v
  handle_event-Inv c (tick l ds now later) v = on_tick-Inv l c ds now later v

  handle_events-Inv_from :
      (c : PacketCapture F) (es : List (Event F)) → Inv c → Inv (handle_events c es)
  unfolding handle_events
  handle_events-Inv_from c [] v = v
  handle_events-Inv_from c (e ∷ es) v =
      handle_events-Inv_from (handle_event c e) es (handle_event-Inv c e v)

  new_capture-Inv :
      (ttl window ports syns : ℕ) (w : Whitelist) (steady wall : TimePoint) (handler : Bool)
      → Inv (new_capture {F = F} ttl window ports syns w steady wall handler)
  unfolding new_capture BlockList.empty is_blocked find
  new_capture-Inv ttl window ports syns w steady wall handler = record {
    blocks = unfold new_capture in empty-IsValid;
    flows = Invariant.new_manager-Inv window Manager.default_max_flows Manager.default_max_sources;
    spares = λ ip h t. refl;
  }

  -- From the constructor on, whatever packets, decisions and ticks arrive: the flow manager and the
  -- block list keep their invariants, and no whitelisted address is ever blocked, neither by a rule
  -- nor by a decision of the inference process.
  pub handle_events-Inv :
      (ttl window ports syns : ℕ) (w : Whitelist) (steady wall : TimePoint) (handler : Bool)
      (es : List (Event F))
      → Inv (handle_events (new_capture ttl window ports syns w steady wall handler) es)
  handle_events-Inv ttl window ports syns w steady wall handler es =
      handle_events-Inv_from (new_capture ttl window ports syns w steady wall handler) es
        (new_capture-Inv ttl window ports syns w steady wall handler)
