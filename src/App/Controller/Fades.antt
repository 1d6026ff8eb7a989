-- ===== src/App/Controller/Fades.antt =====
-- src/ai/async_ai_client.cpp as the controller sees it: what the threads other than the main one do to
-- the client.
use Prim.Native.String.{String}
use ips_with_ai.Prelude.{ℕ, ◌≡◌, refl, Bool, true, Option, none, some, arith, List-cases, inl, inr}
use ips_with_ai.Ai.Types.{AiResponse, FlowRecord, AiDecision}
use ips_with_ai.Ai.Client
use ips_with_ai.Ai.Client.Sections.{work-sections}
use ips_with_ai.Ai.Client.{
  AsyncAiClient, Worker, Input, runs, arrives, reads, gives_out, idle, absent, ended, requesting,
  received, deciding, new_client, set_online, set_offline, consume, drain_decisions, work,
  take_flow, fail_transport, settle, count_error, push_decision,
}
use ips_with_ai.App.Controller.{is_over}

module _ {F : Type 0} where
  pub client_start-online :
      (c : AsyncAiClient F) (w : Worker F) → (Client.start c w).0.online ≡ true → c.online ≡ true
  unfolding Client.start
  client_start-online c w h = ground arith

  -- What the other threads do to the client: it goes offline or stays, and a stop stays.
  abbrev pub Fades : AsyncAiClient F → AsyncAiClient F → Type 0
  Fades c c' = (c'.online ≡ true → c.online ≡ true) × (c'.stop_requested ≡ c.stop_requested)

  take_flow-Fades : (c : AsyncAiClient F) → Fades c (take_flow c).0
  unfolding take_flow
  take_flow-Fades c = elim (List-cases c.pending_flows) [
    | inl e ↦ ground arith
    | inr (f, rest, e) ↦ ground arith
  ]

  fail_transport-Fades :
      (c : AsyncAiClient F) (r : String) (t : Bool) (g : ℕ) → Fades c (fail_transport c r t g)
  unfolding fail_transport
  fail_transport-Fades c r t g = ground arith

  settle-Fades :
      (c : AsyncAiClient F) (f : FlowRecord F) (g : ℕ) (r : Option (AiResponse F))
      → Fades c (settle c f g r).0
  unfolding settle count_error
  settle-Fades c f g none = ground arith
  settle-Fades c f g (some r) = ground arith

  push_decision-Fades :
      (c : AsyncAiClient F) (a : AiDecision F) (g : ℕ) → Fades c (push_decision c a g).0
  unfolding push_decision
  push_decision-Fades c a g = ground arith

  pub work-Fades : (c : AsyncAiClient F) (w : Worker F) (i : Input F) → Fades c (work c w i).0
  work-Fades c w i =
      work-sections (Fades c) c w i (λ h. h, refl) (take_flow-Fades c) (fail_transport-Fades c)
        (settle-Fades c) (push_decision-Fades c)

  pub consume-Fades :
      (c : AsyncAiClient F) (r : FlowRecord F) (now : ℕ) → Fades c (consume c r now).0
  unfolding consume
  consume-Fades c r now = ground arith

pub work-over :
    {F : Type 0} (c : AsyncAiClient F) (w : Worker F) (i : Input F)
    → is_over w ≡ true
    → is_over (work c w i).1 ≡ true
unfolding work
work-over c absent i h = ground arith
work-over c ended i h = ground arith
work-over c idle i h = ground arith
work-over c (requesting f g) i h = ground arith
work-over c (received f g) i h = ground arith
work-over c (deciding a g) i h = ground arith
