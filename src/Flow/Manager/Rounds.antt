-- ===== src/Flow/Manager/Rounds.antt =====
-- src/flow/flow_manager.cpp, `cleanup_expired`: ticks in a row.
use ips_with_ai.Prelude.{
  ℕ, ◌+◌, ◌-◌, ◌*◌, ◌%◌, ◌≤◌, ◌<◌, ◌≡◌, refl, ap, ◌∙◌, sym, true, none, some, List, [], ◌∷◌, arith,
  Bool-cases, Option-cases, inl, inr, length, All, dec_lt,
}
use ips_with_ai.Prelude.Map.{find}
use ips_with_ai.Prelude.Set.{contains}
use ips_with_ai.Common.Clock.{TimePoint}
use ips_with_ai.Common.FiveTuple.{FiveTuple, tuple_discrete}
use ips_with_ai.Flow.Types.{Flow}
use ips_with_ai.Flow.Manager.{
  FlowManager, unindex_flow, erase_flow, expire_flows, sweep_flows, sweep_sources, cleanup_expired,
  flow_expired,
}
use ips_with_ai.Flow.Manager.Sweep.{Layout, quota, next_cursor}
use ips_with_ai.Flow.Manager.Invariant.{Inv, cleanup_expired-Inv}
use native.Mathlib.Nat.{mod-add-mod, add-mod-mod, add-mod_right, mod-eq_of_lt}
use ips_with_ai.Flow.Manager.Cleanup.{flow_keys, advance, find-cleanup_expired}
use ips_with_ai.Flow.Manager.Buckets.{doomed_complete, next_cursor_nearer, holds}

-- The buckets are numbered below their count.
pub record IsLayout (l : Layout) : Type 0 where
  pub some_bucket : 0 < l.flow_buckets
  pub in_range : (k : FiveTuple) → l.flow_bucket k < l.flow_buckets

offset : (b cursor β : ℕ) → β < b → (cursor + (β + (b - cursor % b)) % b) % b ≡ β
offset b cursor β h =
    add-mod-mod cursor (β + (b - cursor % b)) b
    ∙ sym (mod-add-mod cursor b (β + (b - cursor % b)))
    ∙ ap (λ (x : ℕ). x % b) regroup
    ∙ add-mod_right β b
    ∙ mod-eq_of_lt h
  where
    regroup : cursor % b + (β + (b - cursor % b)) ≡ β + b
    regroup = grind arith

module _ {F : Type 0} where
  -- Ticks in a row.
  unfoldable pub cleanup_all : Layout → FlowManager F → List TimePoint → FlowManager F
  cleanup_all l m [] = m
  cleanup_all l m (now ∷ nows) = cleanup_all l (cleanup_expired l m now).0 nows

  cursor-expire_flows :
      (m : FlowManager F) (ks : List FiveTuple) → (expire_flows m ks).0.flow_cursor ≡ m.flow_cursor
  unfolding expire_flows erase_flow unindex_flow
  cursor-expire_flows m [] = refl
  cursor-expire_flows m (k ∷ ks) = elim (Option-cases (find tuple_discrete k m.flows)) [
    | inl gone ↦ rw (gone, expire_flows) (cursor-expire_flows m ks)
    | inr (f, held) ↦
        rw (held, expire_flows)
          (cursor-expire_flows (erase_flow (unindex_flow m f.key) k) ks ∙ ground arith)
  ]

  cursor-cleanup_expired :
      (l : Layout) (m : FlowManager F) (now : TimePoint)
      → (cleanup_expired l m now).0.flow_cursor ≡ next_cursor l.flow_buckets m.flow_cursor
  unfolding cleanup_expired sweep_flows sweep_sources
  cursor-cleanup_expired l m now = cursor-expire_flows (advance l m) (flow_keys l m now)

  gone-cleanup_all :
      (l : Layout) (m : FlowManager F) (nows : List TimePoint) (k : FiveTuple)
      → Inv m
      → find tuple_discrete k m.flows ≡ none
      → find tuple_discrete k (cleanup_all l m nows).flows ≡ none
  unfolding cleanup_all
  gone-cleanup_all l m [] k h e = e
  gone-cleanup_all l m (now ∷ nows) k h e =
      gone-cleanup_all l (cleanup_expired l m now).0 nows k (cleanup_expired-Inv l m now h)
        (ground (arith, find-cleanup_expired l m now k h))

  -- The flow's bucket is `j` on from the cursor, and the ticks to come get that far.
  cleanup_all-removes_from :
      (l : Layout) (nows : List TimePoint) (m : FlowManager F) (k : FiveTuple) (f : Flow F) (j : ℕ)
      → Inv m
      → find tuple_discrete k m.flows ≡ some f
      → All (λ now. f.last_seen + 60 * 1000000000 ≤ now) nows
      → j < l.flow_buckets
      → l.flow_bucket k ≡ (m.flow_cursor + j) % l.flow_buckets
      → j < length nows * quota l.flow_buckets
      → find tuple_discrete k (cleanup_all l m nows).flows ≡ none
  unfolding cleanup_all
  cleanup_all-removes_from l [] m k f j h held w r e n = absurd (omega arith)
  cleanup_all-removes_from l (now ∷ nows) m k f j h held w r e n =
      elim (dec_lt j (quota l.flow_buckets)) [
        | yes near ↦
            gone-cleanup_all l (cleanup_expired l m now).0 nows k (cleanup_expired-Inv l m now h) (
              ground (
                arith,
                find-cleanup_expired l m now k h,
                doomed_complete tuple_discrete l.flow_bucket (flow_expired now) l.flow_buckets
                    m.flow_cursor j k m.flows h.table.unique near r e (idle now w.0),
              ))
        | no far ↦ elim (Bool-cases (contains tuple_discrete k (flow_keys l m now))) [
          | inl early ↦
              gone-cleanup_all l (cleanup_expired l m now).0 nows k (cleanup_expired-Inv l m now h)
                (ground (arith, find-cleanup_expired l m now k h))
          | inr later ↦
              cleanup_all-removes_from l nows (cleanup_expired l m now).0 k f
                (j - quota l.flow_buckets) (cleanup_expired-Inv l m now h)
                (ground (arith, find-cleanup_expired l m now k h)) w.1 (omega arith)
                (e
                  ∙ sym (next_cursor_nearer l.flow_buckets m.flow_cursor j (omega arith))
                  ∙ ap (λ (c : ℕ). (c + (j - quota l.flow_buckets)) % l.flow_buckets)
                      (sym (cursor-cleanup_expired l m now)))
                (omega arith)
        ]
      ]
    where
      idle :
          (t : ℕ)
          → f.last_seen + 60 * 1000000000 ≤ t
          → holds (flow_expired t) (find tuple_discrete k m.flows) ≡ true
      idle t o = unfold flow_expired in ground arith

  -- A flow that gets no more packets is gone after enough ticks: where the invariant holds and each
  -- bucket has a number below their count, ticks in a row at which the flow is idle for at least 60
  -- seconds remove it as soon as they cover all buckets, each tick a quota of them, whatever the
  -- cursor.
  pub cleanup_all-removes :
      (l : Layout) (nows : List TimePoint) (m : FlowManager F) (k : FiveTuple) (f : Flow F)
      → IsLayout l
      → Inv m
      → find tuple_discrete k m.flows ≡ some f
      → All (λ now. f.last_seen + 60 * 1000000000 ≤ now) nows
      → l.flow_buckets ≤ length nows * quota l.flow_buckets
      → find tuple_discrete k (cleanup_all l m nows).flows ≡ none
  cleanup_all-removes l nows m k f i h held w n =
      cleanup_all-removes_from l nows m k f
        ((l.flow_bucket k + (l.flow_buckets - m.flow_cursor % l.flow_buckets)) % l.flow_buckets) h
        held w (omega (arith, i.some_bucket))
        (sym (offset l.flow_buckets m.flow_cursor (l.flow_bucket k) (i.in_range k)))
        (omega (arith, i.some_bucket))
