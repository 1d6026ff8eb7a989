-- ===== src/Ai/Client/Sections.antt =====
-- src/ai/async_ai_client.cpp, `run`: a property of the client by the sections of the worker.
use Prim.Native.String.{String}
use ips_with_ai.Prelude.{ℕ, Bool, Option}
use ips_with_ai.Ai.Types.{AiResponse, FlowRecord, AiDecision}
use ips_with_ai.Ai.Client.{
  AsyncAiClient, Worker, absent, idle, ended, requesting, received, deciding, Input, runs, arrives,
  reads, gives_out, fail_transport, take_flow, settle, push_decision, work,
}

module _ {F : Type 0} (P : AsyncAiClient F → Type 0) (c : AsyncAiClient F) where
  -- What holds of the client as it is and after each section holds after whatever the worker does.
  pub work-sections :
      (w : Worker F) (i : Input F)
      → P c
      → P (take_flow c).0
      → ((reason : String) (timed_out : Bool) (g : ℕ) → P (fail_transport c reason timed_out g))
      → ((f : FlowRecord F) (g : ℕ) (r : Option (AiResponse F)) → P (settle c f g r).0)
      → ((a : AiDecision F) (g : ℕ) → P (push_decision c a g).0)
      → P (work c w i).0
  unfolding work
  work-sections absent i p t f s d = p
  work-sections ended i p t f s d = p
  work-sections idle runs p t f s d = t
  work-sections idle arrives p t f s d = p
  work-sections idle (reads r) p t f s d = p
  work-sections idle (gives_out reason b) p t f s d = p
  work-sections (requesting r g) runs p t f s d = p
  work-sections (requesting r g) arrives p t f s d = p
  work-sections (requesting r g) (reads m) p t f s d = p
  work-sections (requesting r g) (gives_out reason b) p t f s d = f reason b g
  work-sections (received r g) runs p t f s d = p
  work-sections (received r g) arrives p t f s d = p
  work-sections (received r g) (reads m) p t f s d = s r g m
  work-sections (received r g) (gives_out reason b) p t f s d = f reason b g
  work-sections (deciding a g) runs p t f s d = d a g
  work-sections (deciding a g) arrives p t f s d = p
  work-sections (deciding a g) (reads m) p t f s d = p
  work-sections (deciding a g) (gives_out reason b) p t f s d = p
