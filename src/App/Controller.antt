-- ===== src/App/Controller.antt =====
-- src/app/application_controller.h and application_controller.cpp, `ApplicationController`: the
-- supervisor, the client, the tray and the capture, wired together. The main thread runs the Qt events
-- one at a time; the supervisor's calls of its two handlers wait in its trace and are delivered one by
-- one, since the threads of the client and of the capture act in between. `QueuedConnection` is the
-- queue `posted`. The capture is the pipeline of Capture/Pipeline: here it stands for its thread, its
-- request to stop, what it posts and its end. The main thread takes no event while it joins a thread.
pub mod Fades
pub mod Wiring
use Prim.Native.String.{String}
use ips_with_ai.Prelude.{
  ℕ, ◌+◌, ◌≡◌, Bool, true, false, ◌&&◌, ◌||◌, not, Option, none, some, List, [], ◌∷◌, ◌++◌,
  if◌then◌else◌, length, drop, map,
}
use ips_with_ai.Common.Clock.{TimePoint}
use ips_with_ai.Json.{JsonLibrary}
use ips_with_ai.Config.{Config}
use ips_with_ai.Ai.Types.{
  AiState, AiBlockEvent, FlowRecord, disabled, starting, online, restart_wait, offline, stopping,
}
use ips_with_ai.Ai.Client
use ips_with_ai.Ai.Client.{
  AsyncAiClient, Worker, Input, new_client, set_online, set_offline, consume, drain_decisions, work,
}
use ips_with_ai.Ui.Tray.{Tray, new_tray, set_ai_state, show_ai_block, show_ai_offline}
use ips_with_ai.App.Supervisor
use ips_with_ai.App.Supervisor.{
  Supervisor, World, Call, Detail, ready, changed, new_supervisor, report_transport_failure, handle,
}

-- What the tray says of a state: the model's version, or the supervisor's detail.
pub data Said : Type 0 where
  not_started : Said
  version : String → Said
  detail : Detail → Said

pub data Posted (F : Type 0) : Type 0 where
  transport_failure : String → Posted F
  ai_block : AiBlockEvent F → Posted F
  capture_result : Bool → Posted F

-- Where `begin_shutdown` is: before it, at the join of the worker that the client's stop ends with, at
-- that of the capture thread, or at its end; with the exit code that it was given.
pub data Join : Type 0 where
  not_joining joined : Join
  joining_worker joining_capture : ℕ → Join

abbrev pub is_joining : Join → Bool
is_joining (joining_worker code) = true
is_joining (joining_capture code) = true
is_joining _ = false

-- A worker that was never started is not joined.
abbrev pub is_over : {F : Type 0} → Worker F → Bool
is_over Worker.absent = true
is_over Worker.ended = true
is_over _ = false

pub record Controller (F : Type 0) : Type 0 where
  pub endpoint : String
  pub client : AsyncAiClient F
  pub worker : Worker F
  pub supervisor : Supervisor
  pub tray : Tray F Said (Unit {0})
  pub posted : List (Posted F)
  pub capture_started : Bool
  pub capture_stopped : Bool
  pub capture_ended : Bool
  pub started : Bool
  pub is_stopping : Bool
  pub join : Join
  pub exit_code : Option ℕ

module _ {F : Type 0} where
  unfoldable pub new_controller :
      Config → (endpoint : String) (tray_available : Bool) → Controller F
  new_controller config endpoint tray_available = record {
    endpoint = endpoint;
    client = new_client config.ai.queue_capacity;
    worker = Worker.absent;
    supervisor = new_supervisor config.ai;
    tray = new_tray tray_available not_started;
    posted = [];
    capture_started = false;
    capture_stopped = false;
    capture_ended = false;
    started = false;
    is_stopping = false;
    join = not_joining;
    exit_code = none;
  }

  -- The lambdas that the constructor gives to the supervisor.
  unfoldable pub on_ready : Controller F → String → Controller F
  on_ready k model_version = record k {
    client = set_online k.client k.endpoint model_version;
    tray = set_ai_state k.tray online (version model_version);
  }

  unfoldable pub tell_state : Controller F → AiState → Detail → Controller F
  tell_state k state d = record k {
    client = set_offline k.client;
    tray = set_ai_state k.tray state (detail d);
  }

  unfoldable pub on_state : Controller F → AiState → Detail → Controller F
  on_state k online d = k
  on_state k offline d =
      let k' = tell_state k offline d in record k' { tray = show_ai_offline k'.tray (detail d) }
  on_state k state d = tell_state k state d

  -- The next call of a handler.
  unfoldable pub on_call : Controller F → Call → Controller F
  on_call k (ready model_version) = on_ready k model_version
  on_call k (changed state d) = on_state k state d

  unfoldable pub deliver_call : Controller F → List Call → Controller F
  deliver_call k [] = k
  deliver_call k (call ∷ rest) =
      on_call (record k { supervisor = record (k.supervisor) { calls = rest } }) call

  -- `start` from the client's start on, as the capture thread starts or does not.
  -- Where it does not, the join of the worker in the client's stop is left out.
  unfoldable pub start_threads : Controller F → Bool → World → Controller F × Bool
  start_threads k false w = (
    record k {
      client = Client.stop (Client.start k.client k.worker).0;
      worker = (Client.start k.client k.worker).1;
      started = false;
    },
    false,
  )
  start_threads k true w = (
    record k {
      client = (Client.start k.client k.worker).0;
      worker = (Client.start k.client k.worker).1;
      started = true;
      capture_started = true;
      supervisor = Supervisor.start k.supervisor w;
    },
    true,
  )

  unfoldable pub start : Controller F → Bool → World → Controller F × Bool
  start k thread_starts w =
      if k.started || k.is_stopping then (k, false) else start_threads k thread_starts w

  -- `begin_shutdown` from the flag on, up to the join of the worker.
  unfoldable pub shut_down : Controller F → ℕ → Controller F
  shut_down k exit_code = record k {
    is_stopping = true;
    tray = set_ai_state k.tray stopping (detail Detail.shutting_down);
    capture_stopped = true;
    client = Client.stop k.client;
    join = joining_worker exit_code;
  }

  unfoldable pub begin_shutdown : Controller F → ℕ → Controller F
  begin_shutdown k exit_code = if k.is_stopping then k else shut_down k exit_code

  -- The capture thread runs.
  abbrev pub is_capturing : Controller F → Bool
  is_capturing k = k.capture_started && not k.capture_ended

  -- What follows a join in `begin_shutdown`, once the thread has ended.
  unfoldable pub after_join : Controller F → Join → Bool → Controller F
  after_join k (joining_worker code) ends =
      if is_over k.worker
      then record k { supervisor = Supervisor.stop k.supervisor ends; join = joining_capture code }
      else k
  after_join k (joining_capture code) ends =
      if is_capturing k then k else record k { join = joined; exit_code = some code }
  after_join k _ ends = k

  -- The functions that `post_transport_failure`, `post_ai_block` and `post_capture_result` queue.
  unfoldable pub run_posted : Controller F → Posted F → Bool → Controller F
  run_posted k (transport_failure reason) ends =
      if not k.is_stopping
      then record k { supervisor = report_transport_failure k.supervisor reason ends }
      else k
  run_posted k (ai_block event) ends =
      if not k.is_stopping then record k { tray = show_ai_block k.tray event } else k
  run_posted k (capture_result ok) ends =
      if not k.is_stopping && not ok then begin_shutdown k 1 else k

  unfoldable pub next_posted : Controller F → List (Posted F) → Bool → Controller F
  next_posted k [] ends = k
  next_posted k (p ∷ rest) ends = run_posted (record k { posted = rest }) p ends

  -- A section of the worker; what it reports to its failure handler is posted.
  unfoldable pub run_worker : Controller F → Input F → Controller F
  run_worker k i =
      let (client, worker) = work k.client k.worker i in
      record k {
        client = client;
        worker = worker;
        posted =
            k.posted ++ map transport_failure (drop (length k.client.failures) client.failures);
      }

-- The main thread's events: a call of a handler, a posted function, an event of the supervisor, the
-- start, the end that the user or a signal asks for, and the end of a join. Then the other threads: a
-- section of the worker, a record and a drain of the packet thread, and what the capture posts, with
-- its result at its end.
pub data Step (F : Type 0) : Type 0 where
  delivers shuts_down : Step F
  runs_posted joins : Bool → Step F
  supervises : World → Supervisor.Event → Step F
  launches : Bool → World → Step F
  works : Input F → Step F
  consumes : FlowRecord F → TimePoint → Step F
  drains : Step F
  posts_block : AiBlockEvent F → Step F
  posts_result : Bool → Step F

module _ {F J : Type 0} (json : JsonLibrary J) where
  -- A call of a handler is left.
  unfoldable pub has_calls : Controller F → Bool
  has_calls k = elim k.supervisor.calls [ [] ↦ false | call ∷ rest ↦ true ]

  -- The main thread takes an event only when no call of a handler is left and it joins no thread.
  unfoldable pub is_busy : Controller F → Bool
  is_busy k = has_calls k || is_joining k.join

  unfoldable pub step : Controller F → Step F → Controller F
  step k delivers = deliver_call k k.supervisor.calls
  step k (runs_posted ends) = if is_busy k then k else next_posted k k.posted ends
  step k shuts_down = if is_busy k then k else begin_shutdown k 0
  step k (joins ends) = if has_calls k then k else after_join k k.join ends
  step k (supervises w e) =
      if is_busy k then k else record k { supervisor = handle json k.supervisor w e }
  step k (launches thread_starts w) = if is_busy k then k else (start k thread_starts w).0
  step k (works i) = run_worker k i
  step k (consumes flow_record now) = record k { client = (consume k.client flow_record now).0 }
  step k drains = record k { client = (drain_decisions k.client).0 }
  step k (posts_block event) = record k { posted = k.posted ++ ai_block event ∷ [] }
  step k (posts_result ok) = record k {
    posted = k.posted ++ capture_result ok ∷ [];
    capture_ended = true;
  }

  unfoldable pub steps : Controller F → List (Step F) → Controller F
  steps k [] = k
  steps k (s ∷ rest) = steps (step k s) rest
