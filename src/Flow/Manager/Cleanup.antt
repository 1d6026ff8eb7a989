-- ===== src/Flow/Manager/Cleanup.antt =====
-- src/flow/flow_manager.cpp, `cleanup_expired`: what a tick removes and reports.
use ips_with_ai.Prelude.{
  ◌+◌, ◌*◌, ◌≤◌, ◌<◌, ◌≡◌, refl, ap, true, none, some, List, [], ◌∷◌, arith, if◌then◌else◌,
  Option-cases, inl, inr,
}
use ips_with_ai.Prelude.Map
use ips_with_ai.Prelude.Map.{find, erase, IsUnique}
use ips_with_ai.Prelude.Set.{contains}
use ips_with_ai.Common.Clock.{TimePoint}
use ips_with_ai.Common.FiveTuple.{FiveTuple, tuple_discrete}
use ips_with_ai.Flow.Types.{Flow, EndedFlow, timeout}
use ips_with_ai.Flow.Manager.{
  FlowManager, unindex_flow, erase_flow, expire_flows, sweep_flows, sweep_sources, cleanup_expired,
  flow_expired,
}
use ips_with_ai.Flow.Manager.Sweep.{Layout, doomed, next_cursor}
use ips_with_ai.Flow.Manager.Invariant.{Inv, remove-Inv}
use ips_with_ai.Flow.Manager.Lookup.{flows-unindex_flow}
use ips_with_ai.Flow.Manager.Buckets.{doomed_sound}

module _ {F : Type 0} where
  -- Taking the flow at `k` out, as the sweep does it.
  remove_at-Inv :
      (m : FlowManager F) (k : FiveTuple) (f : Flow F)
      → Inv m
      → find tuple_discrete k m.flows ≡ some f
      → Inv (erase_flow (unindex_flow m f.key) k)
  remove_at-Inv m k f h held = rw (h.table.keyed k f held) (remove-Inv m k f h held)

  flows-remove_at :
      (m : FlowManager F) (j k : FiveTuple)
      → (erase_flow (unindex_flow m j) k).flows ≡ erase tuple_discrete k m.flows
  unfolding erase_flow
  flows-remove_at m j k = ap (erase tuple_discrete k) (flows-unindex_flow m j)

  find-expire_flows :
      (m : FlowManager F) (ks : List FiveTuple) (j : FiveTuple)
      → Inv m
      → find tuple_discrete j (expire_flows m ks).0.flows
        ≡ (if contains tuple_discrete j ks then none else find tuple_discrete j m.flows)
  unfolding expire_flows contains
  find-expire_flows m [] j h = refl
  find-expire_flows m (k ∷ ks) j h = elim (Option-cases (find tuple_discrete k m.flows)) [
    | inl gone ↦ rw (gone, expire_flows) (ground (arith, find-expire_flows m ks j h))
    | inr (f, held) ↦
        rw (held, expire_flows)
          (ground (
            arith,
            find-expire_flows (erase_flow (unindex_flow m f.key) k) ks j
                (remove_at-Inv m k f h held),
            flows-remove_at m f.key k,
            Map.find-erase tuple_discrete k j m.flows h.table.unique,
          ))
  ]

  -- A report of the sweep over `ks`: a stored flow, under its own key, that timed out.
  record Reported (m : FlowManager F) (ks : List FiveTuple) (e : EndedFlow F) : Type 0 where
    reason : e.reason ≡ timeout
    listed : contains tuple_discrete e.flow.key ks ≡ true
    stored : find tuple_discrete e.flow.key m.flows ≡ some e.flow

  -- The keys that one tick dooms, and the manager it starts from.
  abbrev pub flow_keys : Layout → FlowManager F → TimePoint → List FiveTuple
  flow_keys l m now = doomed l.flow_bucket l.flow_buckets m.flow_cursor (flow_expired now) m.flows

  abbrev pub advance : Layout → FlowManager F → FlowManager F
  advance l m = record m { flow_cursor = next_cursor l.flow_buckets m.flow_cursor }

  advance-Inv : (l : Layout) (m : FlowManager F) → Inv m → Inv (advance l m)
  advance-Inv l m h = record {
    table = h.table;
    flows_bounded = h.flows_bounded;
    sources_unique = h.sources_unique;
    sources_bounded = h.sources_bounded;
  }

  pub find-cleanup_expired :
      (l : Layout) (m : FlowManager F) (now : TimePoint) (k : FiveTuple)
      → Inv m
      → find tuple_discrete k (cleanup_expired l m now).0.flows ≡ (
          if contains tuple_discrete k (flow_keys l m now)
          then none
          else find tuple_discrete k m.flows)
  unfolding cleanup_expired sweep_flows sweep_sources
  find-cleanup_expired l m now k h =
      find-expire_flows (advance l m) (flow_keys l m now) k (advance-Inv l m h)

  -- Where the invariant holds, a stored flow that is not idle for 60 seconds yet survives a tick as it
  -- is.
  pub cleanup_expired-survivor :
      (l : Layout) (m : FlowManager F) (now : TimePoint) (k : FiveTuple) (f : Flow F)
      → Inv m
      → find tuple_discrete k m.flows ≡ some f
      → now < f.last_seen + 60 * 1000000000
      → find tuple_discrete k (cleanup_expired l m now).0.flows ≡ some f
  unfolding flow_expired
  cleanup_expired-survivor l m now k f h held young = ground (
    arith,
    find-cleanup_expired l m now k h,
    doomed_sound tuple_discrete l.flow_bucket (flow_expired now) l.flow_buckets m.flow_cursor k
        m.flows h.table.unique,
  )

  -- A flow that a tick reports: it was stored under its own key, was idle for at least 60 seconds,
  -- is reported as timed out, and is stored no more.
  pub record Expired (l : Layout) (m : FlowManager F) (now : TimePoint) (e : EndedFlow F)
      : Type 0 where
    pub reason : e.reason ≡ timeout
    pub stored : find tuple_discrete e.flow.key m.flows ≡ some e.flow
    pub idle : e.flow.last_seen + 60 * 1000000000 ≤ now
    pub removed : find tuple_discrete e.flow.key (cleanup_expired l m now).0.flows ≡ none
