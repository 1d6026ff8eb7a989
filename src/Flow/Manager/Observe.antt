-- ===== src/Flow/Manager/Observe.antt =====
-- src/flow/flow_manager.cpp: what `observe_packet` does to the flow table.
use ips_with_ai.Prelude.{
  ◌≡◌, refl, ap, Bool, true, false, Option, none, some, arith, ltb, if◌then◌else◌, length,
  Option-cases, Bool-cases, inl, inr, ◌≢◌, sym, ◌∙◌,
}
use ips_with_ai.Prelude.Map
use ips_with_ai.Prelude.Map.{find, put, erase, IsUnique}
use ips_with_ai.Common.Clock.{TimePoint}
use ips_with_ai.Common.FiveTuple.{
  FiveTuple, reversed, tuple_discrete, tuple_eq, tuple_eq_iff, reversed-reversed,
}
use ips_with_ai.Flow.Double.{Double}
use ips_with_ai.Flow.Types.{Flow, ParsedPacket, PacketDirection, inbound, outbound, unknown}
use ips_with_ai.Flow.Touch.{touch_flow, new_flow}
use ips_with_ai.Flow.Manager.{
  FlowManager, get_flow, update_source_stats, update_at, index_flow, update_flow, observe_source,
  observe_packet,
}
use ips_with_ai.Flow.Manager.Invariant.{Inv}

module _ {F : Type 0} (d : Double F) (m : FlowManager F) (p : ParsedPacket) (now : TimePoint) where
  -- What a lookup of the packet's own tuple should find after the packet.
  abbrev pub after_packet : PacketDirection → Option (Flow F) → Option (Flow F)
  after_packet dir (some f) = some (touch_flow d f (tuple_eq f.key p.tuple) p now)
  after_packet dir none =
      if ltb (length m.flows) m.max_flows
      then some (touch_flow d (new_flow d p.tuple dir now) true p now)
      else none

  flows-update_source_stats : (update_source_stats m p now).0.flows ≡ m.flows
  unfolding update_source_stats
  flows-update_source_stats = ground arith

get_flow_same :
    {F : Type 0} (a b : FlowManager F) (k : FiveTuple)
    → a.flows ≡ b.flows
    → get_flow a k ≡ get_flow b k
unfolding get_flow
get_flow_same a b k e = ground arith

module _ {F : Type 0} (d : Double F) where
  flows-observe_packet :
      (m : FlowManager F) (p : ParsedPacket) (dir : PacketDirection) (now : TimePoint)
      → dir ≢ unknown
      → (observe_packet d m p dir now).0.flows ≡ (update_flow d m p dir now).0.flows
  unfolding observe_packet observe_source
  flows-observe_packet m p unknown now known = absurd (known refl)
  flows-observe_packet m p outbound now known = ground arith
  flows-observe_packet m p inbound now known =
      ground (arith, flows-update_source_stats d (update_flow d m p inbound now).0 p now)

  get_flow-update_flow :
      (m : FlowManager F) (p : ParsedPacket) (dir : PacketDirection) (now : TimePoint)
      → Inv m
      → get_flow (update_flow d m p dir now).0 p.tuple
        ≡ after_packet d m p now dir (get_flow m p.tuple)
  unfolding get_flow update_flow update_at index_flow
  get_flow-update_flow m p dir now h = elim (Option-cases (find tuple_discrete k m.flows)) [
    | inr (f, held) ↦ ground (
      arith,
      h.table.keyed k f held,
      tuple_eq_iff f.key k,
      Map.find-put tuple_discrete k k (touch_flow d f true p now) m.flows,
    )
    | inl absent ↦ elim (Option-cases (find tuple_discrete (reversed k) m.flows)) [
      | inr (f, held) ↦ ground (
        arith,
        h.table.keyed (reversed k) f held,
        tuple_eq_iff f.key k,
        Map.find-put tuple_discrete (reversed k) k (touch_flow d f false p now) m.flows,
        Map.find-put tuple_discrete (reversed k) (reversed k) (touch_flow d f false p now) m.flows,
      )
      | inl neither ↦ ground (
        arith,
        Map.find-put tuple_discrete k k (touch_flow d (new_flow d k dir now) true p now) m.flows,
      )
    ]
  ]
    where
      k : FiveTuple
      k = p.tuple

  -- Where the invariant holds, after an inbound or outbound packet a lookup of its tuple finds the flow found before, touched by
  -- the packet in the direction in which the flow's own key runs; or, if there was none, a new flow
  -- keyed by the packet and touched by it, unless the table is full, and then still none.
  pub get_flow-observe_packet :
      (m : FlowManager F) (p : ParsedPacket) (dir : PacketDirection) (now : TimePoint)
      → Inv m
      → dir ≢ unknown
      → get_flow (observe_packet d m p dir now).0 p.tuple
        ≡ after_packet d m p now dir (get_flow m p.tuple)
  get_flow-observe_packet m p dir now h known =
      get_flow_same (observe_packet d m p dir now).0 (update_flow d m p dir now).0 p.tuple
        (flows-observe_packet m p dir now known)
      ∙ get_flow-update_flow m p dir now h

  get_flow-update_at_other :
      (m : FlowManager F) (k : FiveTuple) (f : Flow F) (forward : Bool) (p : ParsedPacket)
      (now : TimePoint) (j : FiveTuple)
      → j ≢ k
      → reversed j ≢ k
      → get_flow (update_at d m k f forward p now).0 j ≡ get_flow m j
  unfolding get_flow update_at
  get_flow-update_at_other m k f forward p now j n n' = ground (
    arith,
    Map.find-put tuple_discrete k j (touch_flow d f forward p now) m.flows,
    Map.find-put tuple_discrete k (reversed j) (touch_flow d f forward p now) m.flows,
  )

  get_flow-update_flow_other :
      (m : FlowManager F) (p : ParsedPacket) (dir : PacketDirection) (now : TimePoint)
      (j : FiveTuple)
      → j ≢ p.tuple
      → reversed j ≢ p.tuple
      → get_flow (update_flow d m p dir now).0 j ≡ get_flow m j
  unfolding update_flow
  get_flow-update_flow_other m p dir now j n n' =
      elim (Option-cases (find tuple_discrete k m.flows)) [
        | inr (f, held) ↦ rw (held, update_flow) (get_flow-update_at_other m k f true p now j n n')
        | inl absent ↦ elim (Option-cases (find tuple_discrete (reversed k) m.flows)) [
          | inr (f, held) ↦
              rw (absent, held, update_flow)
                (get_flow-update_at_other m (reversed k) f false p now j
                  (λ e. n' (ap reversed e ∙ reversed-reversed k))
                  (λ e. n (sym (reversed-reversed j) ∙ ap reversed e ∙ reversed-reversed k)))
          | inl neither ↦ elim (Bool-cases (ltb (length m.flows) m.max_flows)) [
            | inl room ↦
                rw (absent, neither, room, update_flow)
                  (get_flow-update_at_other (index_flow m k) k (new_flow d k dir now) true p now j n
                      n'
                    ∙ unfold index_flow in get_flow_same (index_flow m k) m j refl)
            | inr full ↦ rw (absent, neither, full, update_flow) refl
          ]
        ]
      ]
    where
      k : FiveTuple
      k = p.tuple

  -- A packet leaves every other conversation alone: a key that is neither the packet's tuple nor its
  -- reverse finds what it found before.
  pub get_flow-observe_packet_other :
      (m : FlowManager F) (p : ParsedPacket) (dir : PacketDirection) (now : TimePoint)
      (j : FiveTuple)
      → j ≢ p.tuple
      → reversed j ≢ p.tuple
      → get_flow (observe_packet d m p dir now).0 j ≡ get_flow m j
  unfolding observe_packet
  get_flow-observe_packet_other m p unknown now j n n' = refl
  get_flow-observe_packet_other m p dir now j n n' =
      get_flow_same (observe_packet d m p dir now).0 (update_flow d m p dir now).0 j
        (flows-observe_packet m p dir now (λ e. cc))
      ∙ get_flow-update_flow_other m p dir now j n n'
