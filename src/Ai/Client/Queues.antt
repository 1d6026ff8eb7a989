-- ===== src/Ai/Client/Queues.antt =====
-- src/ai/async_ai_client.cpp: what holds of the client's queues in every interleaving.
use ips_with_ai.Prelude.{
  ℕ, ◌≤◌, ◌≡◌, refl, Bool, true, false, Option, List, [], ◌∷◌, arith, length, length-append,
  List-cases, inl, inr,
}
use Prim.Native.String.{String}
use ips_with_ai.Ai.Types.{AiResponse, FlowRecord, AiDecision}
use ips_with_ai.Ai.Client.Sections.{work-sections}
use ips_with_ai.Ai.Client.{
  AsyncAiClient, new_client, Worker, absent, Input, start, set_online, set_offline, stop, consume,
  drain_decisions, fail_transport, take_flow, count_error, settle, push_decision, work, Action,
  starts, goes_offline, stops, drains, goes_online, consumes, works, act, act_all,
}

-- Neither queue outgrows the capacity, both are empty while the client is offline, and a client that
-- is to stop is offline.
pub record Inv {F : Type 0} (c : AsyncAiClient F) : Type 0 where
  pub flows_bounded : length c.pending_flows ≤ c.queue_capacity
  pub decisions_bounded : length c.pending_decisions ≤ c.queue_capacity
  pub offline_empty : c.online ≡ false → (c.pending_flows ≡ []) × (c.pending_decisions ≡ [])
  pub stopped_offline : c.stop_requested ≡ true → c.online ≡ false

module _ {F : Type 0} where
  consume-Inv : (c : AsyncAiClient F) (r : FlowRecord F) (now : ℕ) → Inv c → Inv (consume c r now).0
  unfolding consume
  consume-Inv c r now v = record {
    flows_bounded = grind (arith, v.flows_bounded, length-append);
    decisions_bounded = ground (arith, v.decisions_bounded);
    offline_empty = λ h. ground (arith, v.offline_empty);
    stopped_offline = λ h. ground (arith, v.stopped_offline);
  }

  fail_transport-Inv :
      (c : AsyncAiClient F) (reason : String) (t : Bool) (g : ℕ)
      → Inv c
      → Inv (fail_transport c reason t g)
  unfolding fail_transport
  fail_transport-Inv c reason t g v = record {
    flows_bounded = ground (arith, v.flows_bounded);
    decisions_bounded = ground (arith, v.decisions_bounded);
    offline_empty = λ h. ground (arith, v.offline_empty);
    stopped_offline = λ h. ground (arith, v.stopped_offline);
  }

  take_flow-Inv : (c : AsyncAiClient F) → Inv c → Inv (take_flow c).0
  unfolding take_flow
  take_flow-Inv c v = elim (List-cases c.pending_flows) [
    | inl e ↦ record {
      flows_bounded = ground (arith, v.flows_bounded);
      decisions_bounded = ground (arith, v.decisions_bounded);
      offline_empty = λ h. ground (arith, v.offline_empty);
      stopped_offline = λ h. ground (arith, v.stopped_offline);
    }
    | inr (f, rest, e) ↦ record {
      flows_bounded = ground (arith, v.flows_bounded);
      decisions_bounded = ground (arith, v.decisions_bounded);
      offline_empty = λ h. ground (arith, v.offline_empty);
      stopped_offline = λ h. ground (arith, v.stopped_offline);
    }
  ]

  settle-Inv :
      (c : AsyncAiClient F) (f : FlowRecord F) (g : ℕ) (r : Option (AiResponse F))
      → Inv c
      → Inv (settle c f g r).0
  unfolding settle count_error
  settle-Inv c f g r v = record {
    flows_bounded = ground (arith, v.flows_bounded);
    decisions_bounded = ground (arith, v.decisions_bounded);
    offline_empty = λ h. ground (arith, v.offline_empty);
    stopped_offline = λ h. ground (arith, v.stopped_offline);
  }

  push_decision-Inv :
      (c : AsyncAiClient F) (a : AiDecision F) (g : ℕ) → Inv c → Inv (push_decision c a g).0
  unfolding push_decision
  push_decision-Inv c a g v = record {
    flows_bounded = ground (arith, v.flows_bounded);
    decisions_bounded = grind (arith, v.decisions_bounded, length-append);
    offline_empty = λ h. ground (arith, v.offline_empty);
    stopped_offline = λ h. ground (arith, v.stopped_offline);
  }

  work-Inv : (c : AsyncAiClient F) (w : Worker F) (i : Input F) → Inv c → Inv (work c w i).0
  work-Inv c w i v =
      work-sections Inv c w i v (take_flow-Inv c v)
        (λ reason t g. fail_transport-Inv c reason t g v) (λ f g r. settle-Inv c f g r v)
        (λ a g. push_decision-Inv c a g v)

  start-Inv : (c : AsyncAiClient F) (w : Worker F) → Inv c → Inv (start c w).0
  unfolding start
  start-Inv c w v = record {
    flows_bounded = ground (arith, v.flows_bounded);
    decisions_bounded = ground (arith, v.decisions_bounded);
    offline_empty = λ h. ground (arith, v.offline_empty);
    stopped_offline = λ h. ground (arith, v.stopped_offline);
  }

  set_online-Inv : (c : AsyncAiClient F) (e m : String) → Inv c → Inv (set_online c e m)
  unfolding set_online
  set_online-Inv c e m v = record {
    flows_bounded = ground (arith, v.flows_bounded);
    decisions_bounded = ground (arith, v.decisions_bounded);
    offline_empty = λ h. ground (arith, v.offline_empty);
    stopped_offline = λ h. ground (arith, v.stopped_offline);
  }

  pub act-Inv : (s : AsyncAiClient F × Worker F) (a : Action F) → Inv s.0 → Inv (act s a).0
  unfolding act set_offline stop drain_decisions
  act-Inv (c, w) starts v = start-Inv c w v
  act-Inv (c, w) goes_offline v = record {
    flows_bounded = omega arith;
    decisions_bounded = omega arith;
    offline_empty = λ h. (refl, refl);
    stopped_offline = λ h. refl;
  }
  act-Inv (c, w) stops v = record {
    flows_bounded = omega arith;
    decisions_bounded = omega arith;
    offline_empty = λ h. (refl, refl);
    stopped_offline = λ h. refl;
  }
  act-Inv (c, w) drains v = record {
    flows_bounded = v.flows_bounded;
    decisions_bounded = omega arith;
    offline_empty = λ h. ((v.offline_empty h).0, refl);
    stopped_offline = v.stopped_offline;
  }
  act-Inv (c, w) (goes_online e m) v = set_online-Inv c e m v
  act-Inv (c, w) (consumes r now) v = consume-Inv c r now v
  act-Inv (c, w) (works i) v = work-Inv c w i v

  act_all-Inv_from :
      (s : AsyncAiClient F × Worker F) (actions : List (Action F))
      → Inv s.0
      → Inv (act_all s actions).0
  unfolding act_all
  act_all-Inv_from s [] v = v
  act_all-Inv_from s (a ∷ rest) v = act_all-Inv_from (act s a) rest (act-Inv s a v)

  -- In every interleaving of the threads from the constructor on, neither queue outgrows the
  -- capacity, both queues are empty while the client is offline, and a client that is to stop is
  -- offline.
  pub act_all-Inv :
      (queue_capacity : ℕ) (actions : List (Action F))
      → Inv (act_all (new_client queue_capacity, absent) actions).0
  unfolding new_client
  act_all-Inv queue_capacity actions =
      act_all-Inv_from (new_client queue_capacity, absent) actions
        (record {
          flows_bounded = omega arith;
          decisions_bounded = omega arith;
          offline_empty = λ h. (refl, refl);
          stopped_offline = λ h. refl;
        })
