-- ===== src/Capture/Pipeline/Verdict.antt =====
-- src/capture/packet_capture.cpp: the verdict on a packet.
use ips_with_ai.Prelude.{
  u64, ◌+◌, ◌<◌, ◌≡◌, ◌↔◌, ◌⊎◌, inl, inr, refl, subst, sym, ◌∙◌, ◌&&◌, Bool, true, false, ◌||◌, not,
  Option, none, some, is_some, Option-cases, arith, ltb,
}
use mathlib.Core.Option.{some-injective}
use ips_with_ai.Detect.{Matches, check-Matches}
use ips_with_ai.Prelude.Map.{find}
use ips_with_ai.Common.Clock.{TimePoint, seconds}
use ips_with_ai.Common.FiveTuple.{FiveTuple, tuple_discrete}
use ips_with_ai.Flow.Double.{Double}
use ips_with_ai.Flow.Types.{ParsedPacket, SourceStats, inbound, outbound}
use ips_with_ai.Flow.Manager.{observe_packet}
use ips_with_ai.Flow.Manager.Invariant
use ips_with_ai.Flow.Manager.Lookup.{find-discard_source_flows}
use ips_with_ai.Response.Whitelist.{is_whitelisted}
use ips_with_ai.Response.BlockList.{is_blocked}
use ips_with_ai.Response.BlockList.Blocked.{is_blocked-block}
use ips_with_ai.Capture.Pipeline.{PacketCapture, rule_hit, judge, handle_inbound, handle_outbound}
use ips_with_ai.Capture.Pipeline.Frame.{complete_flow-SameJudging}

drop_test :
    (listed blocked ports hit : Bool)
    → ((listed || not (blocked || (ports && hit))) ≡ false)
      ↔ ((listed ≡ false) × ((blocked ≡ true) ⊎ ((ports ≡ true) × (hit ≡ true))))
drop_test listed blocked ports hit = ground arith

rule_hit-Matches :
    {F : Type 0} (c : PacketCapture F) (o : Option SourceStats)
    → (is_some (rule_hit c o) ≡ true)
      ↔ ((stats : SourceStats) × (o ≡ some stats) × Matches c.rule_engine stats)
rule_hit-Matches c none = (λ h. ground arith, λ (stats, e, m). ground arith)
rule_hit-Matches c (some stats) = (
  λ h. (stats, refl, (check-Matches c.rule_engine stats).0 h),
  λ (stats', e, m).
      (check-Matches c.rule_engine stats).1
        (subst (Matches c.rule_engine) (sym (some-injective stats stats' e)) m),
)

module _ {F : Type 0} (d : Double F) where
  -- The packet, once observed, gives its source statistics that a rule of the engine matches.
  abbrev pub BreaksRule : PacketCapture F → ParsedPacket → TimePoint → Type 0
  BreaksRule c p now =
      (stats : SourceStats) × ((observe_packet d c.flow_manager p inbound now).1 ≡ some stats)
      × Matches c.rule_engine stats

  verdict_test :
      (c : PacketCapture F) (p : ParsedPacket) (now later : TimePoint)
      → (handle_inbound d c p now later).1 ≡ (
          is_whitelisted c.whitelist p.tuple.src_ip
          || not (
              is_blocked c.block_list p.tuple.src_ip now
              || (p.has_ports
                  && is_some (rule_hit c (observe_packet d c.flow_manager p inbound now).1))))
  unfolding handle_inbound judge
  verdict_test c p now later =
      elim (Option-cases (rule_hit c (observe_packet d c.flow_manager p inbound now).1)) [
        | inl e ↦ ground arith
        | inr (hit, e) ↦ ground arith
      ]

  -- An inbound packet is dropped exactly when its source is not whitelisted and either is blocked or,
  -- where the packet has ports, breaks a rule.
  handle_inbound-dropped :
      (c : PacketCapture F) (p : ParsedPacket) (now later : TimePoint)
      → ((handle_inbound d c p now later).1 ≡ false) ↔ (
          (is_whitelisted c.whitelist p.tuple.src_ip ≡ false)
          × ((is_blocked c.block_list p.tuple.src_ip now ≡ true)
              ⊎ ((p.has_ports ≡ true) × BreaksRule c p now)))
  handle_inbound-dropped c p now later =
      let m = observe_packet d c.flow_manager p inbound now in
      let hit = rule_hit-Matches c m.1 in
      let same = verdict_test c p now later in
      (
        (λ e.
            let (listed, why) =
              (drop_test (is_whitelisted c.whitelist p.tuple.src_ip)
                  (is_blocked c.block_list p.tuple.src_ip now) p.has_ports
                  (is_some (rule_hit c m.1))).0
                (sym same ∙ e) in
            (
              listed,
              elim why [ inl blocked ↦ inl blocked | inr (ports, h) ↦ inr (ports, hit.0 h) ],
            )),
        (λ (listed, why).
            same
            ∙ (drop_test (is_whitelisted c.whitelist p.tuple.src_ip)
                  (is_blocked c.block_list p.tuple.src_ip now) p.has_ports
                  (is_some (rule_hit c m.1))).1
                (
                  listed,
                  elim why [ inl blocked ↦ inl blocked | inr (ports, b) ↦ inr (ports, hit.1 b) ],
                )),
      )

  blocked_once_judged :
      (c : PacketCapture F) (p : ParsedPacket) (now later : TimePoint)
      → 0 < c.block_ttl_seconds
      → let r = handle_inbound d c p now later in
        r.1 ≡ (
          is_whitelisted c.whitelist p.tuple.src_ip
          || not (is_blocked r.0.block_list p.tuple.src_ip now))
  unfolding handle_inbound judge
  blocked_once_judged c p now later h =
      let m = observe_packet d c.flow_manager p inbound now in
      ground (
        arith,
        complete_flow-SameJudging d (record c { flow_manager = m.0 }) p later,
        is_blocked-block c.block_list p.tuple.src_ip c.block_ttl_seconds now p.tuple.src_ip now,
      )

  -- Where a block lasts at least a second, an inbound packet is dropped exactly when its source is not
  -- whitelisted and either is blocked already or, where the packet has ports, breaks a rule: a rule of
  -- the engine matches the statistics of its source that observing the packet gives. It passes exactly
  -- when its source is whitelisted or is not blocked at `now` once the packet has been judged.
  pub handle_inbound_verdict :
      (c : PacketCapture F) (p : ParsedPacket) (now later : TimePoint)
      → 0 < c.block_ttl_seconds
      → let r = handle_inbound d c p now later in
        ((r.1 ≡ false) ↔ (
          (is_whitelisted c.whitelist p.tuple.src_ip ≡ false)
          × ((is_blocked c.block_list p.tuple.src_ip now ≡ true)
              ⊎ ((p.has_ports ≡ true) × BreaksRule c p now))))
        × (r.1 ≡ (
            is_whitelisted c.whitelist p.tuple.src_ip
            || not (is_blocked r.0.block_list p.tuple.src_ip now)))
  handle_inbound_verdict c p now later h =
      (handle_inbound-dropped c p now later, blocked_once_judged c p now later h)

  -- An outbound packet always passes, and neither blocks anyone nor counts against a rule.
  pub handle_outbound_verdict :
      (c : PacketCapture F) (p : ParsedPacket) (now later : TimePoint)
      → let r = handle_outbound d c p now later in
        (r.1 ≡ true) × (r.0.block_list ≡ c.block_list) × (r.0.rule_blocks ≡ c.rule_blocks)
  unfolding handle_outbound
  handle_outbound_verdict c p now later =
      let m = observe_packet d c.flow_manager p outbound now in
      ground (arith, complete_flow-SameJudging d (record c { flow_manager = m.0 }) p later)

  unblocked_drop :
      (c : PacketCapture F) (p : ParsedPacket) (now later : TimePoint)
      → is_blocked c.block_list p.tuple.src_ip now ≡ false
      → (handle_inbound d c p now later).1 ≡ false
      → (p.has_ports ≡ true) × BreaksRule c p now
  unblocked_drop c p now later free dropped =
      elim ((handle_inbound-dropped c p now later).0 dropped).1 [
        | inl blocked ↦ absurd (ground (arith, blocked, free))
        | inr broken ↦ broken
      ]

  -- Where the flow manager's invariant holds, a packet that is dropped although its source was not
  -- blocked has ports and breaks a rule: a rule of the engine matches the statistics of its source that
  -- observing the packet gives. One more rule block is then counted, the source is blocked for the
  -- configured time from `now` on, and none of the flows that it opened is stored any more.
  pub handle_inbound_blocks :
      (c : PacketCapture F) (p : ParsedPacket) (now later : TimePoint)
      → Invariant.Inv c.flow_manager
      → is_blocked c.block_list p.tuple.src_ip now ≡ false
      → (handle_inbound d c p now later).1 ≡ false
      → let r = (handle_inbound d c p now later).0 in
        (p.has_ports ≡ true)
        × BreaksRule c p now
        × (r.rule_blocks ≡ u64 (c.rule_blocks + 1))
        × ((t : TimePoint)
            → is_blocked r.block_list p.tuple.src_ip t ≡ ltb t (now + seconds c.block_ttl_seconds))
        × ((k : FiveTuple)
            → k.src_ip ≡ p.tuple.src_ip
            → find tuple_discrete k r.flow_manager.flows ≡ none)
  unfolding handle_inbound judge
  handle_inbound_blocks c p now later v free dropped =
      let m = observe_packet d c.flow_manager p inbound now in
      let v' = Invariant.observe_packet-Inv d c.flow_manager p inbound now v in
      let (ports, broken) = unblocked_drop c p now later free dropped in
      (
        ports,
        broken,
        ground arith,
        λ t. ground (
          arith,
          is_blocked-block c.block_list p.tuple.src_ip c.block_ttl_seconds now p.tuple.src_ip t,
        ),
        λ k e. ground (arith, find-discard_source_flows m.0 p.tuple.src_ip k v'),
      )
