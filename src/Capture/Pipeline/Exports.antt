-- ===== src/Capture/Pipeline/Exports.antt =====
-- src/capture/packet_capture.cpp, `consume_flow`: the records that reach the flow consumer.
use ips_with_ai.Prelude.{
  Bool, ℕ, suc, ◌+◌, ◌/◌, ◌≡◌, refl, ◌∙◌, ap, false, not, Option, none, some, List, [], ◌∷◌, ◌++◌,
  arith, leb, Bool-cases, inl, inr, ◌⊎◌, length, length-append, u64,
}
use ips_with_ai.Common.Clock.{TimePoint}
use ips_with_ai.Flow.Double.{Double}
use ips_with_ai.Flow.Types.{ParsedPacket, inbound, outbound, unknown, EndedFlow}
use ips_with_ai.Flow.Manager.{is_remote, observe_packet, extract_completed, cleanup_expired}
use ips_with_ai.Flow.Manager.Sweep.{Layout}
use ips_with_ai.Response.Whitelist.{Whitelist, is_whitelisted}
use ips_with_ai.Ai.Types.{AiDecision, FlowRecord}
use ips_with_ai.Capture.Pipeline.{
  PacketCapture, new_capture, complete_flow, judge, handle_inbound, handle_outbound, handle_packet,
  is_exempt, apply_decision, apply_ai_decisions, on_tick, consume_flow, consume_option,
  consume_flows, release_expired, export_expired,
}
use ips_with_ai.Capture.Pipeline.Blocking.{Event, packet, tick, handle_event, handle_events}

-- What the consumer got, with what the next record depends on.
record Issue (F : Type 0) : Type 0 where
  whitelist : Whitelist
  sensor : ℕ
  next : ℕ
  records : List (FlowRecord F)

module _ {F : Type 0} where
  abbrev issue : PacketCapture F → Issue F
  issue c = record {
    whitelist = c.whitelist;
    sensor = c.sensor_instance_id;
    next = c.next_flow_sequence;
    records = c.consumed;
  }

  -- The records in order: numbered from `n` on, of one sensor, and of no whitelisted source.
  abbrev pub Numbered : Whitelist → ℕ → ℕ → List (FlowRecord F) → Type 0
  Numbered w sensor n [] = Unit
  Numbered w sensor n (r ∷ rs) =
      ((r.flow_id.sequence ≡ u64 n)
        × (r.flow_id.sensor ≡ sensor)
        × (is_whitelisted w r.key.src_ip ≡ false))
      × Numbered w sensor (suc n) rs

  Numbered-append :
      (w : Whitelist) (sensor n : ℕ) (rs : List (FlowRecord F)) (r : FlowRecord F)
      → Numbered w sensor n rs
      → r.flow_id.sequence ≡ u64 (n + length rs)
      → r.flow_id.sensor ≡ sensor
      → is_whitelisted w r.key.src_ip ≡ false
      → Numbered w sensor n (rs ++ r ∷ [])
  Numbered-append w sensor n [] r h e s o = ((e ∙ ap u64 (omega arith), s, o), tt)
  Numbered-append w sensor n (x ∷ rs) r h e s o =
      (h.0, Numbered-append w sensor (suc n) rs r h.1 (e ∙ ap u64 (omega arith)) s o)

  record Exported (w : Whitelist) (sensor : ℕ) (i : Issue F) : Type 0 where
    same_whitelist : i.whitelist ≡ w
    same_sensor : i.sensor ≡ sensor
    numbered : Numbered w sensor 1 i.records
    next_number : i.next ≡ u64 (1 + length i.records)

  apply_decision-issue :
      (c : PacketCapture F) (a : AiDecision F) (now : TimePoint)
      → issue (apply_decision c a now) ≡ issue c
  unfolding apply_decision
  apply_decision-issue c a now = ground arith

  apply_ai_decisions-issue :
      (c : PacketCapture F) (ds : List (AiDecision F)) (now : TimePoint)
      → issue (apply_ai_decisions c ds now) ≡ issue c
  unfolding apply_ai_decisions
  apply_ai_decisions-issue c [] now = refl
  apply_ai_decisions-issue c (a ∷ ds) now =
      apply_ai_decisions-issue (apply_decision c a now) ds now ∙ apply_decision-issue c a now

module _ {F : Type 0} (d : Double F) (w : Whitelist) (s : ℕ) where
  consume_flow-Exported :
      (c : PacketCapture F) (ended : EndedFlow F) (now : TimePoint)
      → Exported w s (issue c)
      → Exported w s (issue (consume_flow d c ended now))
  unfolding consume_flow is_exempt
  consume_flow-Exported c ended now x =
      let ip = ended.flow.key.src_ip in
      let rounds =
        leb (u64 (ended.flow.forward.payload_len.count + ended.flow.backward.payload_len.count))
          1 in
      elim (Bool-cases (not (is_remote ended.flow.origin))) [
        | inl e ↦ rw (e, consume_flow) x
        | inr e ↦ elim (Bool-cases rounds) [
          | inl short ↦ rw (e, short, consume_flow) x
          | inr long ↦ elim (Bool-cases (is_exempt c ip now)) [
            | inl spared ↦ rw (e, long, spared, consume_flow) x
            | inr free ↦
                rw (e, long, free, consume_flow)
                  (record {
                    same_whitelist = x.same_whitelist;
                    same_sensor = x.same_sensor;
                    numbered =
                        Numbered-append w s 1 c.consumed _ x.numbered x.next_number x.same_sensor
                          (rw⁻¹ x.same_whitelist ground arith);
                    next_number = rw length-append omega (arith, x.next_number);
                  })
          ]
        ]
      ]

  consume_option-Exported :
      (c : PacketCapture F) (o : Option (EndedFlow F)) (now : TimePoint)
      → Exported w s (issue c)
      → Exported w s (issue (consume_option d c o now))
  unfolding consume_option
  consume_option-Exported c none now x = x
  consume_option-Exported c (some ended) now x = consume_flow-Exported c ended now x

  consume_flows-Exported :
      (c : PacketCapture F) (es : List (EndedFlow F)) (later : ℕ → TimePoint)
      → Exported w s (issue c)
      → Exported w s (issue (consume_flows d c es later))
  unfolding consume_flows
  consume_flows-Exported c [] later x = x
  consume_flows-Exported c (ended ∷ es) later x =
      consume_flows-Exported (consume_flow d c ended (later 0)) es (λ n. later (suc n))
        (consume_flow-Exported c ended (later 0) x)

  complete_flow-Exported :
      (c : PacketCapture F) (p : ParsedPacket) (later : TimePoint)
      → Exported w s (issue c)
      → Exported w s (issue (complete_flow d c p later))
  unfolding complete_flow
  complete_flow-Exported c p later x =
      let (m, completed) = extract_completed c.flow_manager p.tuple in
      consume_option-Exported (record c { flow_manager = m }) completed later x

  -- An inbound packet leaves what was issued as it was, or ends with `complete_flow`.
  handle_inbound-issue :
      (c : PacketCapture F) (p : ParsedPacket) (now later : TimePoint)
      → let m = (observe_packet d c.flow_manager p inbound now).0 in
        (issue (handle_inbound d c p now later).0 ≡ issue c)
        ⊎ (issue (handle_inbound d c p now later).0
            ≡ issue (complete_flow d (record c { flow_manager = m }) p later))
  unfolding handle_inbound judge
  handle_inbound-issue c p now later = ground arith

  handle_outbound-issue :
      (c : PacketCapture F) (p : ParsedPacket) (now later : TimePoint)
      → let m = (observe_packet d c.flow_manager p outbound now).0 in
        (issue (handle_outbound d c p now later).0 ≡ issue c)
        ⊎ (issue (handle_outbound d c p now later).0
            ≡ issue (complete_flow d (record c { flow_manager = m }) p later))
  unfolding handle_outbound
  handle_outbound-issue c p now later = ground arith

  on_tick-Exported :
      (l : Layout) (c : PacketCapture F) (ds : List (AiDecision F)) (now : TimePoint)
      (later : ℕ → TimePoint)
      → Exported w s (issue c)
      → Exported w s (issue (on_tick d l c ds now later))
  unfolding on_tick release_expired export_expired
  on_tick-Exported l c ds now later x =
      let c' = apply_ai_decisions c ds now in
      let (m, expired) = cleanup_expired l c'.flow_manager now in
      consume_flows-Exported (record c' { flow_manager = m }) expired later
        (rw (apply_ai_decisions-issue c ds now) x)

  handle_event-Exported :
      (c : PacketCapture F) (e : Event F)
      → Exported w s (issue c)
      → Exported w s (issue (handle_event d c e))
  unfolding handle_event handle_packet
  handle_event-Exported c (packet inbound p now later) x =
      let m = (observe_packet d c.flow_manager p inbound now).0 in
      elim (handle_inbound-issue c p now later) [
        | inl e ↦ rw e x
        | inr e ↦ rw e (complete_flow-Exported (record c { flow_manager = m }) p later x)
      ]
  handle_event-Exported c (packet outbound p now later) x =
      let m = (observe_packet d c.flow_manager p outbound now).0 in
      elim (handle_outbound-issue c p now later) [
        | inl e ↦ rw e x
        | inr e ↦ rw e (complete_flow-Exported (record c { flow_manager = m }) p later x)
      ]
  handle_event-Exported c (packet unknown p now later) x = x
  handle_event-Exported c (tick l ds now later) x = on_tick-Exported l c ds now later x

  handle_events-Exported :
      (c : PacketCapture F) (es : List (Event F))
      → Exported w s (issue c)
      → Exported w s (issue (handle_events d c es))
  unfolding handle_events
  handle_events-Exported c [] x = x
  handle_events-Exported c (e ∷ es) x =
      handle_events-Exported (handle_event d c e) es (handle_event-Exported c e x)

module _ {F : Type 0} (d : Double F) where
  -- Whatever packets, decisions and ticks arrive, the records that the consumer has got since the
  -- constructor carry the numbers 1, 2, 3 and so on modulo 2^64 in the order of their arrival, all of
  -- them the sensor's own number, and none of them is of a whitelisted source.
  pub handle_events-Numbered :
      (ttl window ports syns : ℕ) (w : Whitelist) (steady wall : TimePoint) (handler : Bool)
      (es : List (Event F))
      → Numbered w
          (wall / 1000)
          1
          (handle_events d (new_capture ttl window ports syns w steady wall handler) es).consumed
  unfolding new_capture
  handle_events-Numbered ttl window ports syns w steady wall handler es =
      (handle_events-Exported d w (wall / 1000)
        (new_capture ttl window ports syns w steady wall handler) es
        (record {
          same_whitelist = refl;
          same_sensor = refl;
          numbered = tt;
          next_number = refl;
        })).numbered
