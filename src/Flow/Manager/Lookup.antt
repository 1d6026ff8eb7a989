-- ===== src/Flow/Manager/Lookup.antt =====
-- src/flow/flow_manager.cpp: what a lookup finds after each operation.
use ips_with_ai.Prelude.{
  ℕ, ◌+◌, ◌<◌, ◌≡◌, true, false, none, some, arith, ◌==◌, if◌then◌else◌, ℕ_discrete, Option-cases,
  inl, inr, ◌⊎◌,
}
use ips_with_ai.Prelude.Map
use ips_with_ai.Prelude.Set
use ips_with_ai.Prelude.Map.{find, put, erase, IsUnique}
use ips_with_ai.Common.FiveTuple.{FiveTuple, reversed, tuple_discrete, reversed-reversed}
use ips_with_ai.Flow.Types.{Flow, EndedFlow, FlowEndReason, tcp_reset, tcp_fin}
use ips_with_ai.Flow.Manager.{
  FlowManager, get_flow, unindex_flow, erase_flow, extract_at, extract_completed,
  discard_source_flows, end_reason,
}
use ips_with_ai.Flow.Manager.Table.{find-discard}
use ips_with_ai.Flow.Manager.Invariant.{Inv, extract_at-Inv, extract_completed-Inv}

module _ {F : Type 0} where
  -- The flow found for a key is the flow found for the reversed key, in a table where the invariant
  -- holds: both directions of a conversation reach one record.
  pub get_flow-reversed :
      (m : FlowManager F) (k : FiveTuple) → Inv m → get_flow m (reversed k) ≡ get_flow m k
  unfolding get_flow
  get_flow-reversed m k h =
      ground (arith, h.table.one_way k, h.table.one_way (reversed k), reversed-reversed k)

  -- Where the invariant holds, discarding a source removes exactly the flows that this source opened:
  -- a key with that source address finds nothing, any other key finds what it found before.
  pub find-discard_source_flows :
      (m : FlowManager F) (ip : ℕ) (k : FiveTuple)
      → Inv m
      → find tuple_discrete k (discard_source_flows m ip).flows
        ≡ (if k.src_ip == ip then none else find tuple_discrete k m.flows)
  unfolding discard_source_flows Set.contains
  find-discard_source_flows m ip k h =
      elim (Option-cases (find ℕ_discrete ip m.flow_keys_by_source)) [
        | inl missing ↦ rw (missing, discard_source_flows) (ground (arith, h.table.exact ip k))
        | inr (keys, held) ↦
            rw (held, discard_source_flows)
              (find-discard ip keys k m.flows m.flow_keys_by_source h.table held)
      ]

  -- Why a flow has ended: a reset in either direction, or else a finished FIN handshake.
  abbrev pub EndedBy : Flow F → FlowEndReason → Type 0
  EndedBy f r =
      ((r ≡ tcp_reset) × (0 < f.forward.rst + f.backward.rst))
      ⊎ ((r ≡ tcp_fin) × (f.forward.rst + f.backward.rst ≡ 0) × (f.fin_handshake_complete ≡ true))

  end_reason-EndedBy : (f : Flow F) (r : FlowEndReason) → end_reason f ≡ some r → EndedBy f r
  unfolding end_reason
  end_reason-EndedBy f r h = ground arith

  pub flows-unindex_flow : (m : FlowManager F) (k : FiveTuple) → (unindex_flow m k).flows ≡ m.flows
  unfolding unindex_flow
  flows-unindex_flow m k = ground arith

  get_flow-erase :
      (m : FlowManager F) (k : FiveTuple) (f : Flow F)
      → Inv m
      → find tuple_discrete k m.flows ≡ some f
      → get_flow (erase_flow (unindex_flow m k) k) k ≡ none
  unfolding get_flow erase_flow
  get_flow-erase m k f h e = rw (flows-unindex_flow m k) (
      ground (
        arith,
        Map.find-erase tuple_discrete k k m.flows h.table.unique,
        Map.find-erase tuple_discrete k (reversed k) m.flows h.table.unique,
        h.table.one_way k,
      ))

  extract_at-some :
      (m : FlowManager F) (k : FiveTuple) (f : Flow F) (e : EndedFlow F)
      → Inv m
      → find tuple_discrete k m.flows ≡ some f
      → (extract_at m k f).1 ≡ some e
      → (e.flow ≡ f) × EndedBy e.flow e.reason × (get_flow (extract_at m k f).0 k ≡ none)
  unfolding extract_at
  extract_at-some m k f e h held p = elim (Option-cases (end_reason f)) [
    | inl going ↦ absurd (ground arith)
    | inr (r, over) ↦ (
      ground arith,
      ground (arith, end_reason-EndedBy f r over),
      rw (over, extract_at) (get_flow-erase m k f h held),
    )
  ]

  -- Where the invariant holds, what `extract_completed` hands out for a key is the flow that a lookup found for it, ended by the
  -- reason that is reported, and the flow is no longer found afterwards, in either direction.
  pub extract_completed-some :
      (m : FlowManager F) (k : FiveTuple) (e : EndedFlow F)
      → Inv m
      → (extract_completed m k).1 ≡ some e
      → (get_flow m k ≡ some e.flow)
        × EndedBy e.flow e.reason
        × (get_flow (extract_completed m k).0 k ≡ none)
        × (get_flow (extract_completed m k).0 (reversed k) ≡ none)
  unfolding extract_completed get_flow
  extract_completed-some m k e h p =
      let (found, ended, gone) = first in
      (found, ended, gone, rw (get_flow-reversed _ k (extract_completed-Inv m k h)) gone)
    where
      first :
          (get_flow m k ≡ some e.flow)
          × EndedBy e.flow e.reason
          × (get_flow (extract_completed m k).0 k ≡ none)
      first = elim (Option-cases (find tuple_discrete k m.flows)) [
        | inr (f, held) ↦ ground (arith, extract_at-some m k f e h held)
        | inl absent ↦ elim (Option-cases (find tuple_discrete (reversed k) m.flows)) [
          | inr (f, held) ↦ ground (
            arith,
            extract_at-some m (reversed k) f e h held,
            get_flow-reversed (extract_at m (reversed k) f).0 k,
            extract_at-Inv m (reversed k) f h held,
          )
          | inl neither ↦ ground arith
        ]
      ]

  -- Where nothing is handed out nothing changes, and the flow found for the key, if there is one, has
  -- neither a reset nor a finished FIN handshake.
  pub extract_completed-none :
      (m : FlowManager F) (k : FiveTuple)
      → (extract_completed m k).1 ≡ none
      → ((extract_completed m k).0 ≡ m)
        × ((f : Flow F)
            → get_flow m k ≡ some f
            → (f.forward.rst + f.backward.rst ≡ 0) × (f.fin_handshake_complete ≡ false))
  unfolding extract_completed extract_at get_flow end_reason
  extract_completed-none m k p = (ground arith, λ f e. ground arith)
