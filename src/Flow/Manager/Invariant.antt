-- ===== src/Flow/Manager/Invariant.antt =====
-- src/flow/flow_manager.cpp: the invariant of the flow manager, operation by operation.
use ips_with_ai.Prelude.{
  ℕ, ◌≤◌, ◌<◌, ◌≡◌, refl, Bool, true, false, none, some, List, [], ◌∷◌, arith, ltb, length, leb,
  ℕ_discrete, Option-cases, Bool-cases, inl, inr, ◌⊎◌, ◌≢◌,
}
use ips_with_ai.Prelude.Map
use ips_with_ai.Prelude.Set
use ips_with_ai.Prelude.Map.{find, put, erase, IsUnique}
use ips_with_ai.Common.Clock.{TimePoint, elapsed}
use ips_with_ai.Common.FiveTuple.{FiveTuple, reversed, tuple_discrete}
use ips_with_ai.Flow.Double.{Double}
use ips_with_ai.Flow.Touch.{touch_flow, new_flow}
use ips_with_ai.Flow.Types.{
  Flow, SourceStats, ParsedPacket, PacketDirection, inbound, outbound, unknown,
}
use ips_with_ai.Flow.Manager.{
  FlowManager, new_manager, update_source_stats, unindex_flow, erase_flow, extract_at,
  extract_completed, discard_source_flows, expire_flows, erase_sources, sweep_flows, sweep_sources,
  flow_expired, cleanup_expired, update_at, index_flow, update_flow, observe_source, observe_packet,
  end_reason, erase_keys,
}
use ips_with_ai.Flow.Manager.Sweep.{Layout, doomed, next_cursor}
use ips_with_ai.Flow.Manager.Table.{
  IsTable, put_old-IsTable, insert-IsTable, remove-IsTable, discard-IsTable,
}

-- The flow table and its index agree, each source has one entry, and neither map outgrows its limit.
pub record Inv {F : Type 0} (m : FlowManager F) : Type 0 where
  pub table : IsTable m.flows m.flow_keys_by_source
  pub flows_bounded : length m.flows ≤ m.max_flows
  pub sources_unique : IsUnique ℕ_discrete m.source_stats
  pub sources_bounded : length m.source_stats ≤ m.max_sources

erase_sources-keeps :
    (ks : List ℕ) (st : List (ℕ × SourceStats))
    → IsUnique ℕ_discrete st
    → IsUnique ℕ_discrete (erase_sources ks st) × (length (erase_sources ks st) ≤ length st)
unfolding erase_sources
erase_sources-keeps [] st u = (u, omega arith)
erase_sources-keeps (k ∷ ks) st u =
    let r = erase_sources-keeps ks (erase ℕ_discrete k st) (Map.erase-IsUnique ℕ_discrete k st u) in
    (r.0, omega (arith, r.1, Map.length-erase-le ℕ_discrete k st))

module _ {F : Type 0} where
  pub new_manager-Inv : (w f s : ℕ) → Inv (new_manager {F = F} w f s)
  unfolding new_manager find Set.contains
  new_manager-Inv w f s = record {
    table = record {
      unique = tt;
      keyed = λ k x p. cc;
      one_way = λ k p. cc;
      indexed = record { unique = tt; nonempty = λ r p. cc; distinct = λ r. tt };
      exact = λ r k. ground arith;
    };
    flows_bounded = omega arith;
    sources_unique = tt;
    sources_bounded = omega arith;
  }

  put_source-Inv :
      (m : FlowManager F) (ip : ℕ) (st : SourceStats)
      → Inv m
      → (length m.source_stats < m.max_sources) ⊎ (find ℕ_discrete ip m.source_stats ≢ none)
      → Inv (record m { source_stats = put ℕ_discrete ip st m.source_stats })
  put_source-Inv m ip st h room = record {
    table = h.table;
    flows_bounded = h.flows_bounded;
    sources_unique = Map.put-IsUnique ℕ_discrete ip st m.source_stats h.sources_unique;
    sources_bounded = elim (Option-cases (find ℕ_discrete ip m.source_stats)) [
      | inl new ↦ ground (arith, Map.length-put_new ℕ_discrete ip st m.source_stats new)
      | inr (old, held) ↦ omega (arith, Map.length-put_old ℕ_discrete ip st old m.source_stats held)
    ];
  }

  pub update_source_stats-Inv :
      (m : FlowManager F) (p : ParsedPacket) (now : TimePoint)
      → Inv m
      → Inv (update_source_stats m p now).0
  unfolding update_source_stats
  update_source_stats-Inv m p now h =
      elim (Option-cases (find ℕ_discrete p.tuple.src_ip m.source_stats)) [
        | inl new ↦ elim (Bool-cases (leb m.max_sources (length m.source_stats))) [
          | inl full ↦ rw (new, full, update_source_stats) h
          | inr room ↦
              rw (new, room, update_source_stats) (put_source-Inv m _ _ h (inl (ground arith)))
        ]
        | inr (old, held) ↦
            rw (held, update_source_stats) (put_source-Inv m _ _ h (inr (λ e. ground arith)))
      ]

  -- A stored flow's key is in the index, so taking the flow out keeps the table.
  pub remove-Inv :
      (m : FlowManager F) (k : FiveTuple) (f : Flow F)
      → Inv m
      → find tuple_discrete k m.flows ≡ some f
      → Inv (erase_flow (unindex_flow m k) k)
  unfolding erase_flow unindex_flow Set.contains
  remove-Inv m k f h e = elim (Option-cases (find ℕ_discrete k.src_ip m.flow_keys_by_source)) [
    | inl missing ↦ absurd (ground (arith, h.table.exact k.src_ip k))
    | inr (keys, held) ↦
        rw (held, unindex_flow)
          (record {
            table = remove-IsTable k keys m.flows m.flow_keys_by_source h.table held;
            flows_bounded =
                omega (arith, Map.length-erase-le tuple_discrete k m.flows, h.flows_bounded);
            sources_unique = h.sources_unique;
            sources_bounded = h.sources_bounded;
          })
  ]

  length-erase_keys-le :
      (ks : List FiveTuple) (flows : List (FiveTuple × Flow F))
      → length (erase_keys ks flows) ≤ length flows
  unfolding erase_keys
  length-erase_keys-le [] flows = omega arith
  length-erase_keys-le (k ∷ ks) flows = omega (
    arith,
    length-erase_keys-le ks (erase tuple_discrete k flows),
    Map.length-erase-le tuple_discrete k flows,
  )

  pub discard_source_flows-Inv :
      (m : FlowManager F) (s : ℕ) → Inv m → Inv (discard_source_flows m s)
  unfolding discard_source_flows
  discard_source_flows-Inv m s h = elim (Option-cases (find ℕ_discrete s m.flow_keys_by_source)) [
    | inl missing ↦ rw (missing, discard_source_flows) h
    | inr (keys, held) ↦
        rw (held, discard_source_flows)
          (record {
            table = discard-IsTable s keys m.flows m.flow_keys_by_source h.table held;
            flows_bounded = omega (arith, length-erase_keys-le keys m.flows, h.flows_bounded);
            sources_unique = h.sources_unique;
            sources_bounded = h.sources_bounded;
          })
  ]

  pub extract_at-Inv :
      (m : FlowManager F) (k : FiveTuple) (f : Flow F)
      → Inv m
      → find tuple_discrete k m.flows ≡ some f
      → Inv (extract_at m k f).0
  unfolding extract_at
  extract_at-Inv m k f h e = elim (Option-cases (end_reason f)) [
    | inl going ↦ rw (going, extract_at) h
    | inr (r, over) ↦ rw (over, extract_at) (remove-Inv m k f h e)
  ]

  pub extract_completed-Inv :
      (m : FlowManager F) (k : FiveTuple) → Inv m → Inv (extract_completed m k).0
  unfolding extract_completed
  extract_completed-Inv m k h = elim (Option-cases (find tuple_discrete k m.flows)) [
    | inr (f, held) ↦ rw (held, extract_completed) (extract_at-Inv m k f h held)
    | inl absent ↦ elim (Option-cases (find tuple_discrete (reversed k) m.flows)) [
      | inr (f, held) ↦
          rw (absent, held, extract_completed) (extract_at-Inv m (reversed k) f h held)
      | inl none_either ↦ rw (absent, none_either, extract_completed) h
    ]
  ]

  -- The sweep erases at `k` and unindexes the flow's own key, which is `k`.
  pub expire_flows-Inv :
      (m : FlowManager F) (ks : List FiveTuple) → Inv m → Inv (expire_flows m ks).0
  unfolding expire_flows
  expire_flows-Inv m [] h = h
  expire_flows-Inv m (k ∷ ks) h = elim (Option-cases (find tuple_discrete k m.flows)) [
    | inl gone ↦ rw (gone, expire_flows) (expire_flows-Inv m ks h)
    | inr (f, held) ↦
        rw (held, expire_flows)
          (expire_flows-Inv (erase_flow (unindex_flow m f.key) k) ks
            (rw (h.table.keyed k f held) (remove-Inv m k f h held)))
  ]

  sweep_sources-Inv :
      (l : Layout) (m : FlowManager F) (now : TimePoint) → Inv m → Inv (sweep_sources l m now)
  unfolding sweep_sources
  sweep_sources-Inv l m now h =
      let r =
        erase_sources-keeps
          (doomed l.source_bucket l.source_buckets m.source_cursor
            (λ s. elapsed now s.window_start m.window_seconds) m.source_stats)
          m.source_stats h.sources_unique in
      record {
        table = h.table;
        flows_bounded = h.flows_bounded;
        sources_unique = r.0;
        sources_bounded = omega (arith, r.1);
      }

  pub cleanup_expired-Inv :
      (l : Layout) (m : FlowManager F) (now : TimePoint) → Inv m → Inv (cleanup_expired l m now).0
  unfolding cleanup_expired sweep_flows
  cleanup_expired-Inv l m now h = sweep_sources-Inv l _ now (
      expire_flows-Inv (record m { flow_cursor = next_cursor l.flow_buckets m.flow_cursor })
        (doomed l.flow_bucket l.flow_buckets m.flow_cursor (flow_expired now) m.flows)
        (record {
          table = h.table;
          flows_bounded = h.flows_bounded;
          sources_unique = h.sources_unique;
          sources_bounded = h.sources_bounded;
        }))

module _ {F : Type 0} (d : Double F) where
  touch_flow-key :
      (f : Flow F) (fwd : Bool) (p : ParsedPacket) (now : TimePoint)
      → (touch_flow d f fwd p now).key ≡ f.key
  unfolding touch_flow
  touch_flow-key f fwd p now = refl

  update_at-Inv :
      (m : FlowManager F) (k : FiveTuple) (f : Flow F) (fwd : Bool) (p : ParsedPacket)
      (now : TimePoint)
      → Inv m
      → find tuple_discrete k m.flows ≡ some f
      → Inv (update_at d m k f fwd p now).0
  unfolding update_at
  update_at-Inv m k f fwd p now h e = record {
    table =
        put_old-IsTable k f (touch_flow d f fwd p now) m.flows m.flow_keys_by_source h.table e
          (touch_flow-key f fwd p now);
    flows_bounded =
        omega (arith, Map.length-put_old tuple_discrete k (touch_flow d f fwd p now) f m.flows e);
    sources_unique = h.sources_unique;
    sources_bounded = h.sources_bounded;
  }

  insert_at-Inv :
      (m : FlowManager F) (p : ParsedPacket) (dir : PacketDirection) (now : TimePoint)
      → Inv m
      → length m.flows < m.max_flows
      → find tuple_discrete p.tuple m.flows ≡ none
      → find tuple_discrete (reversed p.tuple) m.flows ≡ none
      → Inv (update_at d (index_flow m p.tuple) p.tuple (new_flow d p.tuple dir now) true p now).0
  unfolding update_at index_flow
  insert_at-Inv m p dir now h room e e' =
      let f = touch_flow d (new_flow d p.tuple dir now) true p now in
      record {
        table =
            insert-IsTable p.tuple f m.flows m.flow_keys_by_source h.table e e'
              (unfold new_flow in touch_flow-key (new_flow d p.tuple dir now) true p now);
        flows_bounded = omega (arith, Map.length-put_new tuple_discrete p.tuple f m.flows e);
        sources_unique = h.sources_unique;
        sources_bounded = h.sources_bounded;
      }

  pub update_flow-Inv :
      (m : FlowManager F) (p : ParsedPacket) (dir : PacketDirection) (now : TimePoint)
      → Inv m
      → Inv (update_flow d m p dir now).0
  unfolding update_flow
  update_flow-Inv m p dir now h = elim (Option-cases (find tuple_discrete p.tuple m.flows)) [
    | inr (f, held) ↦ rw (held, update_flow) (update_at-Inv m p.tuple f true p now h held)
    | inl absent ↦ elim (Option-cases (find tuple_discrete (reversed p.tuple) m.flows)) [
      | inr (f, held) ↦
          rw (absent, held, update_flow) (update_at-Inv m (reversed p.tuple) f false p now h held)
      | inl neither ↦ elim (Bool-cases (ltb (length m.flows) m.max_flows)) [
        | inl room ↦
            rw (absent, neither, room, update_flow)
              (insert_at-Inv m p dir now h (ground arith) absent neither)
        | inr full ↦ rw (absent, neither, full, update_flow) h
      ]
    ]
  ]

  pub observe_packet-Inv :
      (m : FlowManager F) (p : ParsedPacket) (dir : PacketDirection) (now : TimePoint)
      → Inv m
      → Inv (observe_packet d m p dir now).0
  unfolding observe_packet observe_source
  observe_packet-Inv m p unknown now h = h
  observe_packet-Inv m p inbound now h =
      let m' = update_flow d m p inbound now in
      let h' = update_flow-Inv m p inbound now h in
      ground (arith, h', update_source_stats-Inv m'.0 p now h')
  observe_packet-Inv m p outbound now h =
      let h' = update_flow-Inv m p outbound now h in ground (arith, h')
