-- ===== src/Ai/Client/Counts.antt =====
-- src/ai/async_ai_client.cpp: the counters of `consume`, and what a stop brings about.
use Prim.Native.String.{String}
use ips_with_ai.Prelude.{
  Option, none, some, ℕ, ◌+◌, ◌≡◌, refl, Bool, true, false, List, [], ◌∷◌, ◌++◌, arith, u64,
  List-cases, inl, inr,
}
use ips_with_ai.Ai.Types.{AiResponse, FlowRecord, AiDecision}
use ips_with_ai.Ai.Client.Sections.{work-sections}
use ips_with_ai.Ai.Client.{
  AsyncAiClient, new_client, Worker, absent, Input, start, set_online, set_offline, stop, consume,
  drain_decisions, fail_transport, take_flow, count_error, settle, push_decision, work, Action,
  starts, goes_offline, stops, drains, goes_online, consumes, works, act, act_all,
}
use ips_with_ai.Ai.Client.Queues.{act_all-Inv}

module _ {F : Type 0} where
  -- The records offered to the client.
  unfoldable pub offers : List (Action F) → ℕ
  offers [] = 0
  offers (consumes r now ∷ rest) = offers rest + 1
  offers (_ ∷ rest) = offers rest

  -- The three outcomes of `consume` together.
  abbrev pub answered : AsyncAiClient F → ℕ
  answered c = c.submitted + c.unavailable_dropped + c.queue_full_dropped

  consume-answered :
      (c : AsyncAiClient F) (r : FlowRecord F) (now : ℕ)
      → u64 (answered (consume c r now).0) ≡ u64 (answered c + 1)
  unfolding consume
  consume-answered c r now = ground arith

  -- What a section other than that of `consume` leaves alone: its counters, and a stop.
  abbrev Keeps : AsyncAiClient F → AsyncAiClient F → Type 0
  Keeps c c' =
      (c'.submitted ≡ c.submitted)
      × (c'.unavailable_dropped ≡ c.unavailable_dropped)
      × (c'.queue_full_dropped ≡ c.queue_full_dropped)
      × (c'.stop_requested ≡ c.stop_requested)

  take_flow-Keeps : (c : AsyncAiClient F) → Keeps c (take_flow c).0
  unfolding take_flow
  take_flow-Keeps c = elim (List-cases c.pending_flows) [
    | inl e ↦ ground arith
    | inr (f, rest, e) ↦ ground arith
  ]

  fail_transport-Keeps :
      (c : AsyncAiClient F) (reason : String) (t : Bool) (g : ℕ)
      → Keeps c (fail_transport c reason t g)
  unfolding fail_transport
  fail_transport-Keeps c reason t g = ground arith

  settle-Keeps :
      (c : AsyncAiClient F) (f : FlowRecord F) (g : ℕ) (r : Option (AiResponse F))
      → Keeps c (settle c f g r).0
  unfolding settle count_error
  settle-Keeps c f g none = ground arith
  settle-Keeps c f g (some r) = ground arith

  push_decision-Keeps :
      (c : AsyncAiClient F) (a : AiDecision F) (g : ℕ) → Keeps c (push_decision c a g).0
  unfolding push_decision
  push_decision-Keeps c a g = ground arith

  work-Keeps : (c : AsyncAiClient F) (w : Worker F) (i : Input F) → Keeps c (work c w i).0
  work-Keeps c w i =
      work-sections (Keeps c) c w i (refl, refl, refl, refl) (take_flow-Keeps c)
        (fail_transport-Keeps c) (settle-Keeps c) (push_decision-Keeps c)

  act-answered :
      (s : AsyncAiClient F × Worker F) (a : Action F)
      → u64 (answered (act s a).0) ≡ u64 (answered s.0 + offers (a ∷ []))
  unfolding act start set_offline stop set_online drain_decisions offers
  act-answered (c, w) starts = ground arith
  act-answered (c, w) goes_offline = omega arith
  act-answered (c, w) stops = omega arith
  act-answered (c, w) drains = omega arith
  act-answered (c, w) (goes_online e m) = ground arith
  act-answered (c, w) (consumes r now) = consume-answered c r now
  act-answered (c, w) (works i) = ground (arith, work-Keeps c w i)

  offers-cons :
      (a : Action F) (rest : List (Action F)) → offers (a ∷ rest) ≡ offers (a ∷ []) + offers rest
  unfolding offers
  offers-cons starts rest = omega arith
  offers-cons goes_offline rest = omega arith
  offers-cons stops rest = omega arith
  offers-cons drains rest = omega arith
  offers-cons (goes_online e m) rest = omega arith
  offers-cons (consumes r now) rest = omega arith
  offers-cons (works i) rest = omega arith

  -- In every interleaving each record that is offered is counted once, as submitted, as dropped
  -- because the process is unavailable, or as dropped because the queue is full; the counters are
  -- taken modulo 2^64.
  pub act_all-answered :
      (s : AsyncAiClient F × Worker F) (actions : List (Action F))
      → u64 (answered (act_all s actions).0) ≡ u64 (answered s.0 + offers actions)
  unfolding act_all offers
  act_all-answered s [] = omega arith
  act_all-answered s (a ∷ rest) =
      omega (arith, act_all-answered (act s a) rest, act-answered s a, offers-cons a rest)

  pub act-stopped :
      (s : AsyncAiClient F × Worker F) (a : Action F)
      → s.0.stop_requested ≡ true
      → (act s a).0.stop_requested ≡ true
  unfolding act start set_offline stop set_online drain_decisions consume
  act-stopped (c, w) starts h = ground arith
  act-stopped (c, w) goes_offline h = h
  act-stopped (c, w) stops h = refl
  act-stopped (c, w) drains h = h
  act-stopped (c, w) (goes_online e m) h = ground arith
  act-stopped (c, w) (consumes r now) h = ground arith
  act-stopped (c, w) (works i) h = ground (arith, work-Keeps c w i)

  pub act_all-stopped :
      (s : AsyncAiClient F × Worker F) (actions : List (Action F))
      → s.0.stop_requested ≡ true
      → (act_all s actions).0.stop_requested ≡ true
  unfolding act_all
  act_all-stopped s [] h = h
  act_all-stopped s (a ∷ rest) h = act_all-stopped (act s a) rest (act-stopped s a h)

  act_all-append :
      (s : AsyncAiClient F × Worker F) (before after : List (Action F))
      → act_all s (before ++ after) ≡ act_all (act_all s before) after
  unfolding act_all
  act_all-append s [] after = refl
  act_all-append s (a ∷ before) after = act_all-append (act s a) before after

  stop-requested : (s : AsyncAiClient F × Worker F) → (act s stops).0.stop_requested ≡ true
  unfolding act stop
  stop-requested s = refl

  -- A stop is final: whatever the threads do before and after it, the client stays offline with both
  -- queues empty, and every record that is offered is refused.
  pub act_all-final :
      (queue_capacity : ℕ) (before after : List (Action F)) (r : FlowRecord F) (now : ℕ)
      → let c = (act_all (new_client queue_capacity, absent) (before ++ stops ∷ after)).0 in
        (c.online ≡ false)
        × (c.pending_flows ≡ [])
        × (c.pending_decisions ≡ [])
        × ((consume c r now).1 ≡ false)
  unfolding consume act_all
  act_all-final queue_capacity before after r now =
      let s = act_all (new_client queue_capacity, absent) before in
      let all = before ++ stops ∷ after in
      let c = (act_all (new_client queue_capacity, absent) all).0 in
      let stopped : c.stop_requested ≡ true =
        rw act_all-append (act_all-stopped (act s stops) after (stop-requested s)) in
      let v = act_all-Inv queue_capacity all in
      let off = v.stopped_offline stopped in
      (off, (v.offline_empty off).0, (v.offline_empty off).1, ground arith)
