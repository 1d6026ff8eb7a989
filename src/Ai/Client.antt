-- ===== src/Ai/Client.antt =====
-- src/ai/async_ai_client.h and async_ai_client.cpp, `AsyncAiClient`: the queue of flows, the queue of
-- decisions, and the worker that takes a flow, asks the inference process and queues its answer. Each
-- function is one section under the mutex, so that a list of actions is an interleaving of the
-- threads. The ZeroMQ socket is not modelled: what a request comes to is an input of the
-- worker, and so is the response as `parse_ai_response` reads it. A wait that is not over
-- is an action without effect. The failure handler is a trace of the reasons it is given.
pub mod Queues
pub mod Counts
pub mod Sections
pub mod Ending
use Prim.Native.String.{String}
use ips_with_ai.Prelude.{
  ℕ, zero, suc, ◌+◌, ◌≡◌, Bool, true, false, ◌&&◌, ◌||◌, not, Option, none, some, List, [], ◌∷◌,
  ◌++◌, ltb, leb, ◌==◌, if◌then◌else◌, u64, length,
}
use ips_with_ai.Common.Clock.{TimePoint, elapsed}
use ips_with_ai.Ai.Types.{FlowRecord, AiDecision, AiResponse}

abbrev pub log_interval : ℕ
log_interval = 60

pub record AsyncAiClient (F : Type 0) : Type 0 where
  pub queue_capacity : ℕ
  pub pending_flows : List (FlowRecord F)
  pub pending_decisions : List (AiDecision F)
  pub started : Bool
  pub stop_requested : Bool
  pub online : Bool
  pub connection_generation : ℕ
  pub endpoint : String
  pub model_version : String
  pub unavailable_logged : Bool
  pub queue_full_logged : Bool
  pub last_unavailable_log : TimePoint
  pub last_queue_full_log : TimePoint
  pub submitted : ℕ
  pub unavailable_dropped : ℕ
  pub queue_full_dropped : ℕ
  pub normal_responses : ℕ
  pub anomaly_responses : ℕ
  pub protocol_errors : ℕ
  pub timeouts : ℕ
  pub failures : List String

unfoldable pub new_client : {F : Type 0} → ℕ → AsyncAiClient F
new_client queue_capacity = record {
  queue_capacity = queue_capacity;
  pending_flows = [];
  pending_decisions = [];
  started = false;
  stop_requested = false;
  online = false;
  connection_generation = 0;
  endpoint = "";
  model_version = "";
  unavailable_logged = false;
  queue_full_logged = false;
  last_unavailable_log = 0;
  last_queue_full_log = 0;
  submitted = 0;
  unavailable_dropped = 0;
  queue_full_dropped = 0;
  normal_responses = 0;
  anomaly_responses = 0;
  protocol_errors = 0;
  timeouts = 0;
  failures = [];
}

-- Where the worker stands: waiting for a flow, with a request under way in a generation, with a reply
-- that passed the first check, with a decision to queue, at its end, or not started.
pub data Worker (F : Type 0) : Type 0 where
  absent idle ended : Worker F
  requesting received : FlowRecord F → ℕ → Worker F
  deciding : AiDecision F → ℕ → Worker F

-- What moves the worker on: the end of a wait, a message, its text once parsed (`none` where that
-- failed), or a time-out or error with its reason.
pub data Input (F : Type 0) : Type 0 where
  runs arrives : Input F
  reads : Option (AiResponse F) → Input F
  gives_out : String → Bool → Input F

module _ {F : Type 0} where
  unfoldable pub start : AsyncAiClient F → Worker F → AsyncAiClient F × Worker F
  start c w = if c.started || c.stop_requested then (c, w) else (record c { started = true }, idle)

  unfoldable pub set_online : AsyncAiClient F → String → String → AsyncAiClient F
  set_online c endpoint model_version = if c.stop_requested then c else record c {
    endpoint = endpoint;
    model_version = model_version;
    connection_generation = u64 (c.connection_generation + 1);
    pending_flows = [];
    pending_decisions = [];
    online = true;
  }

  unfoldable pub set_offline : AsyncAiClient F → AsyncAiClient F
  set_offline c = record c {
    online = false;
    connection_generation = u64 (c.connection_generation + 1);
    pending_flows = [];
    pending_decisions = [];
  }

  -- Up to the join of the worker.
  unfoldable pub stop : AsyncAiClient F → AsyncAiClient F
  stop c = record c {
    stop_requested = true;
    online = false;
    connection_generation = u64 (c.connection_generation + 1);
    pending_flows = [];
    pending_decisions = [];
    started = false;
  }

  unfoldable pub consume : AsyncAiClient F → FlowRecord F → TimePoint → AsyncAiClient F × Bool
  consume c flow_record now =
      if not c.online || c.stop_requested
      then (
        record c {
          unavailable_dropped = u64 (c.unavailable_dropped + 1);
          unavailable_logged = true;
          last_unavailable_log = if unavailable then now else c.last_unavailable_log;
        },
        false,
      )
      else if leb c.queue_capacity (length c.pending_flows)
      then (
        record c {
          queue_full_dropped = u64 (c.queue_full_dropped + 1);
          queue_full_logged = true;
          last_queue_full_log = if queue_full then now else c.last_queue_full_log;
        },
        false,
      )
      else (
        record c {
          pending_flows = c.pending_flows ++ flow_record ∷ [];
          submitted = u64 (c.submitted + 1);
        },
        true,
      )
    where
      unavailable : Bool
      unavailable = not c.unavailable_logged || elapsed now c.last_unavailable_log log_interval

      queue_full : Bool
      queue_full = not c.queue_full_logged || elapsed now c.last_queue_full_log log_interval

  -- All pending decisions, in their order.
  unfoldable pub drain_decisions : AsyncAiClient F → AsyncAiClient F × List (AiDecision F)
  drain_decisions c = (record c { pending_decisions = [] }, c.pending_decisions)

  -- `!online_ || connection_generation_ != generation`.
  abbrev pub is_stale : AsyncAiClient F → ℕ → Bool
  is_stale c generation = not c.online || not (c.connection_generation == generation)

  unfoldable pub fail_transport : AsyncAiClient F → String → Bool → ℕ → AsyncAiClient F
  fail_transport c reason timed_out failed_generation =
      if is_stale c failed_generation then c else record c {
        online = false;
        connection_generation = u64 (c.connection_generation + 1);
        pending_flows = [];
        pending_decisions = [];
        timeouts = if timed_out then u64 (c.timeouts + 1) else c.timeouts;
        failures = c.failures ++ reason ∷ [];
      }

  -- The sections of `run`, in order. The first wait, and what follows it:
  unfoldable pub take_flow : AsyncAiClient F → AsyncAiClient F × Worker F
  take_flow c =
      if c.stop_requested
      then (c, ended)
      else if c.online
      then elim c.pending_flows [
        | [] ↦ (c, idle)
        | in_flight ∷ rest ↦
            (record c { pending_flows = rest }, requesting in_flight c.connection_generation)
      ]
      else (c, idle)

  unfoldable pub check_reply : AsyncAiClient F → FlowRecord F → ℕ → Worker F
  check_reply c in_flight generation =
      if is_stale c generation then idle else received in_flight generation

  unfoldable pub count_error : AsyncAiClient F → ℕ → AsyncAiClient F × Worker F
  count_error c generation =
      if is_stale c generation
      then (c, idle)
      else (record c { protocol_errors = u64 (c.protocol_errors + 1) }, idle)

  unfoldable pub settle :
      AsyncAiClient F → FlowRecord F → ℕ → Option (AiResponse F) → AsyncAiClient F × Worker F
  settle c in_flight generation none = count_error c generation
  settle c in_flight generation (some parsed) =
      if not parsed.ok
      then count_error c generation
      else if not parsed.anomaly
      then (
        if not (is_stale c generation)
            then record c { normal_responses = u64 (c.normal_responses + 1) }
            else c,
        idle,
      )
      else (c, deciding decision generation)
    where
      decision : AiDecision F
      decision = record {
        flow_record = in_flight;
        anomaly = true;
        score = parsed.score;
        threshold = parsed.threshold;
        model_version = parsed.model_version;
      }

  unfoldable pub push_decision : AsyncAiClient F → AiDecision F → ℕ → AsyncAiClient F × Worker F
  push_decision c decision generation =
      if c.stop_requested || is_stale c generation
      then (c, idle)
      else if ltb (length c.pending_decisions) c.queue_capacity
      then (
        record c {
          pending_decisions = c.pending_decisions ++ decision ∷ [];
          anomaly_responses = u64 (c.anomaly_responses + 1);
        },
        idle,
      )
      else (c, deciding decision generation)

  -- The worker's next section; an input that does not fit is none for it.
  unfoldable pub work : AsyncAiClient F → Worker F → Input F → AsyncAiClient F × Worker F
  work c idle runs = take_flow c
  work c (requesting in_flight generation) arrives = (c, check_reply c in_flight generation)
  work c (requesting in_flight generation) (gives_out reason timed_out) =
      (fail_transport c reason timed_out generation, idle)
  work c (received in_flight generation) (reads parsed) = settle c in_flight generation parsed
  work c (received in_flight generation) (gives_out reason timed_out) =
      (fail_transport c reason timed_out generation, idle)
  work c (deciding decision generation) runs = push_decision c decision generation
  work c w i = (c, w)

-- What the threads do, one section at a time.
pub data Action (F : Type 0) : Type 0 where
  starts goes_offline stops drains : Action F
  goes_online : (endpoint model_version : String) → Action F
  consumes : FlowRecord F → TimePoint → Action F
  works : Input F → Action F

module _ {F : Type 0} where
  unfoldable pub act : AsyncAiClient F × Worker F → Action F → AsyncAiClient F × Worker F
  act (c, w) starts = start c w
  act (c, w) goes_offline = (set_offline c, w)
  act (c, w) stops = (stop c, w)
  act (c, w) drains = ((drain_decisions c).0, w)
  act (c, w) (goes_online endpoint model_version) = (set_online c endpoint model_version, w)
  act (c, w) (consumes flow_record now) = ((consume c flow_record now).0, w)
  act (c, w) (works i) = work c w i

  unfoldable pub act_all : AsyncAiClient F × Worker F → List (Action F) → AsyncAiClient F × Worker F
  act_all s [] = s
  act_all s (a ∷ rest) = act_all (act s a) rest
