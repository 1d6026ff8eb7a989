-- ===== src/App/Supervisor.antt =====
-- src/app/ai_process_supervisor.h and ai_process_supervisor.cpp, `AiProcessSupervisor`: a state
-- machine that the timers and the signals of a QProcess drive, all on one thread. A single-shot timer
-- is the time that it was started with, `none` once it is over or stopped. What Qt, the file system
-- and the handlers do in an event is its `World`; what the supervisor calls is the trace `calls`. The
-- texts of the state's detail stand as the constructors of `Reason` and `Detail`.
pub mod Invariant
pub mod Restarts
pub mod Lines
pub mod Calls
use Prim.Native.String.{String}
use ips_with_ai.Prelude.{
  ◌>>=◌, ℕ, zero, suc, ◌+◌, ◌*◌, ◌^◌, ◌≡◌, Bool, true, false, ◌&&◌, ◌||◌, not, Option, none, some,
  List, [], ◌∷◌, ◌++◌, ltb, leb, ◌==◌, if◌then◌else◌, u64, length, min, text_eq, is_some,
}
use ips_with_ai.Json.{JsonLibrary, ℤ, pos, negsuc, holds}
use ips_with_ai.Config.{AiConfig}
use ips_with_ai.Ai.Types.{AiState, disabled, starting, online, restart_wait, offline, stopping}

abbrev pub Bytes : Type 0
Bytes = List ℕ

-- Why an attempt failed.
pub data Reason : Type 0 where
  startup_timeout stale_socket : Reason
  unsafe_path ready_handler_failed transport : String → Reason
  process_error : ℕ → String → Reason
  process_exit : (code : ℤ) → ℕ → Reason

pub data Detail : Type 0 where
  nothing disabled_by_config starting_up restarting came_online shutting_down : Detail
  failed : Reason → Detail
  exhausted : Reason → ℕ → Detail

-- The calls of `ready_handler_` and of `state_handler_`.
pub data Call : Type 0 where
  ready : (model_version : String) → Call
  changed : AiState → Detail → Call

pub record Supervisor : Type 0 where
  pub config : AiConfig
  pub startup_timer : Option ℕ
  pub restart_timer : Option ℕ
  pub stable_timer : Option ℕ
  pub process_running : Bool
  pub stdout_buffer : Bytes
  pub stderr_buffer : Bytes
  pub state : AiState
  pub model_version : String
  pub detail : Detail
  pub restart_count : ℕ
  pub restart_attempts : ℕ
  pub failure_handled_for_attempt : Bool
  pub stop_requested : Bool
  pub calls : List Call

-- What happens outside in an event: the error that `validate_python_paths` finds, whether
-- `remove_socket` succeeds, the text of what the ready handler throws, and whether the process ends
-- within the two waits of `stop_process`.
pub record World : Type 0 where
  pub path_error : Option String
  pub socket_removed : Bool
  pub ready_error : Option String
  pub ends : Bool

unfoldable pub new_supervisor : AiConfig → Supervisor
new_supervisor config = record {
  config = config;
  startup_timer = none;
  restart_timer = none;
  stable_timer = none;
  process_running = false;
  stdout_buffer = [];
  stderr_buffer = [];
  state = disabled;
  model_version = "";
  detail = nothing;
  restart_count = 0;
  restart_attempts = 0;
  failure_handled_for_attempt = false;
  stop_requested = false;
  calls = [];
}

abbrev pub is_starting : AiState → Bool
is_starting starting = true
is_starting _ = false

abbrev pub is_online : AiState → Bool
is_online online = true
is_online _ = false

abbrev pub is_waiting : AiState → Bool
is_waiting restart_wait = true
is_waiting _ = false

abbrev pub is_stopping : AiState → Bool
is_stopping stopping = true
is_stopping _ = false

abbrev pub max_restart_delay_ms : ℕ
max_restart_delay_ms = 4000

unfoldable pub restart_delay_ms : ℕ → ℕ
restart_delay_ms attempt_index = min (1000 * 2 ^ min attempt_index 2) max_restart_delay_ms

-- An exception of the handler is caught there.
unfoldable pub set_state : Supervisor → AiState → Detail → Supervisor
set_state s state detail = record s {
  state = state;
  detail = detail;
  calls = s.calls ++ changed state detail ∷ [];
}

-- `waitForFinished` emits `finished` before it returns. Its handler reads and flushes what is left of
-- the output, which it only logs, since the state is no longer STARTING, and does not handle a
-- failure, since one is being handled or a stop is requested.
unfoldable pub stop_process : Supervisor → Bool → Supervisor
stop_process s ends =
    if not s.process_running
    then s
    else if ends
    then record s { process_running = false; stdout_buffer = []; stderr_buffer = [] }
    else s

-- The end of `handle_failure`, after the process was stopped.
unfoldable pub await_restart : Supervisor → Bool → Supervisor
await_restart s can_restart =
    if can_restart && not s.stop_requested
    then record s { restart_timer = some (restart_delay_ms s.restart_attempts) }
    else s

unfoldable pub handle_failure : Supervisor → Reason → Bool → Supervisor
unfolding set_state stop_process await_restart
handle_failure s reason ends =
    if s.stop_requested || is_stopping s.state || s.failure_handled_for_attempt
    then s
    else (let can_restart = ltb s.restart_attempts s.config.max_restarts in
        let failing = record s {
          failure_handled_for_attempt = true;
          startup_timer = none;
          stable_timer = none;
          model_version = "";
        } in
        let told =
          if can_restart
          then set_state failing restart_wait (failed reason)
          else set_state failing offline (exhausted reason s.config.max_restarts) in
        await_restart (stop_process told ends) can_restart)

-- `start_attempt` from the setting of the state on.
unfoldable pub launch : Supervisor → World → Supervisor
launch s w = elim w.path_error [
  | some error ↦ handle_failure s (unsafe_path error) w.ends
  | none ↦
      if not w.socket_removed
      then handle_failure s stale_socket w.ends
      else record s { startup_timer = some s.config.startup_timeout_ms; process_running = true }
]

unfoldable pub start_attempt : Supervisor → World → Supervisor
start_attempt s w = if s.stop_requested then s else launch (set_state fresh starting detail) w
  where
    fresh : Supervisor
    fresh = record s {
      failure_handled_for_attempt = false;
      stdout_buffer = [];
      stderr_buffer = [];
      model_version = "";
    }

    detail : Detail
    detail = if s.restart_attempts == 0 then starting_up else restarting

unfoldable pub start : Supervisor → World → Supervisor
start s w =
    if s.stop_requested || is_starting s.state || is_online s.state || is_waiting s.state
    then s
    else if not s.config.enabled
    then set_state s disabled disabled_by_config
    else start_attempt (record s { restart_attempts = 0 }) w

unfoldable pub stop : Supervisor → Bool → Supervisor
unfolding set_state stop_process
stop s ends =
    if s.stop_requested
    then s
    else (let told = set_state (record s { stop_requested = true }) stopping shutting_down in
        stop_process
          (record told { startup_timer = none; restart_timer = none; stable_timer = none }) ends)

unfoldable pub report_transport_failure : Supervisor → String → Bool → Supervisor
report_transport_failure s reason ends =
    if is_online s.state then handle_failure s (transport reason) ends else s

-- The slot of `restart_timer_`.
unfoldable pub restart : Supervisor → World → Supervisor
restart s w =
    start_attempt
      (record s {
        restart_timer = none;
        restart_attempts = s.restart_attempts + 1;
        restart_count = u64 (s.restart_count + 1);
      })
      w

-- The line up to the first line feed, and what follows it; `none` without a line feed.
unfoldable pub cut_line : Bytes → Option (Bytes × Bytes)
cut_line [] = none
cut_line (c ∷ rest) =
    if c == 10
    then some ([], rest)
    else elim (cut_line rest) [ none ↦ none | some (line, after) ↦ some (c ∷ line, after) ]

-- `if (line.endsWith('\r')) line.chop(1)`
unfoldable pub chop_cr : Bytes → Bytes
chop_cr [] = []
chop_cr (c ∷ []) = if c == 13 then [] else c ∷ []
chop_cr (c ∷ d ∷ rest) = c ∷ chop_cr (d ∷ rest)

-- The loop of `handle_stderr`, which logs each line; what is left of the buffer.
unfoldable pub stderr_rest : ℕ → Bytes → Bytes
stderr_rest zero buffer = buffer
stderr_rest (suc n) buffer = elim (cut_line buffer) [
  | none ↦ buffer
  | some (line, rest) ↦ stderr_rest n rest
]

unfoldable pub handle_stderr : Supervisor → Bytes → Supervisor
unfolding stderr_rest
handle_stderr s bytes =
    let buffer = s.stderr_buffer ++ bytes in
    record s { stderr_buffer = stderr_rest (length buffer) buffer }

unfoldable pub flush_partial_output : Supervisor → Supervisor
flush_partial_output s = record s { stdout_buffer = []; stderr_buffer = [] }

-- What reaches the supervisor: its public calls, the time-outs of its timers, and the signals of the
-- process, which emits none while it does not run. `errored` says whether the process is still there.
pub data Event : Type 0 where
  starts startup_due restart_due stable_due stops : Event
  reports : String → Event
  prints prints_errors : Bytes → Event
  errored : (still_running : Bool) → (code : ℕ) → String → Event
  finished : (code : ℤ) → (status : ℕ) → (output errors : Bytes) → Event

module _ {J : Type 0} (json : JsonLibrary J) where
  abbrev is_one : ℤ → Bool
  is_one (pos n) = n == 1
  is_one (negsuc n) = false

  -- The version that a line announces; an exception counts as none.
  unfoldable pub ready_version : Bytes → Option String
  ready_version line = do
    message ← json.parse_bytes line
    event ←
        holds json message "event" (λ v. json.is_string v && text_eq (json.get_string v) "AI_READY")
    schema ←
        holds json message "schema_version"
          (λ v. json.is_number_integer v && is_one (json.get_int v))
    model ← holds json message "model_version" json.is_string
    if json.is_object message && event && schema && model
        then (do
          version ← json.at message "model_version"
          if json.is_empty (json.get_string version) then none else some (json.get_string version))
        else none

  -- What an announced version brings about.
  unfoldable pub become_ready : Supervisor → String → World → Supervisor
  become_ready s version w =
      let told = record s {
        startup_timer = none;
        model_version = version;
        calls = s.calls ++ ready version ∷ [];
      } in
      elim w.ready_error [
        | some error ↦ handle_failure told (ready_handler_failed error) w.ends
        | none ↦ record (set_state told online came_online) {
          stable_timer = some (s.config.restart_reset_seconds * 1000);
        }
      ]

  unfoldable pub handle_stdout_line : Supervisor → Bytes → World → Supervisor
  handle_stdout_line s line w =
      if is_starting s.state
      then elim (ready_version line) [ none ↦ s | some version ↦ become_ready s version w ]
      else s

  -- The loop of `handle_stdout`, for `n` rounds at most.
  unfoldable pub stdout_lines : ℕ → Supervisor → World → Supervisor
  stdout_lines zero s w = s
  stdout_lines (suc n) s w = elim (cut_line s.stdout_buffer) [
    | none ↦ s
    | some (line, rest) ↦
        stdout_lines n (handle_stdout_line (record s { stdout_buffer = rest }) (chop_cr line) w) w
  ]

  -- Each round takes a line feed off the buffer, so its length is enough.
  unfoldable pub handle_stdout : Supervisor → Bytes → World → Supervisor
  handle_stdout s bytes w =
      let buffer = s.stdout_buffer ++ bytes in
      stdout_lines (length buffer) (record s { stdout_buffer = buffer }) w

  -- The slot of `finished`.
  unfoldable pub handle_finished :
      Supervisor → (code : ℤ) (status : ℕ) (output errors : Bytes) → World → Supervisor
  handle_finished s code status output errors w =
      let s' =
        flush_partial_output
          (handle_stderr (handle_stdout (record s { process_running = false }) output w) errors) in
      if not (is_stopping s'.state) then handle_failure s' (process_exit code status) w.ends else s'

  unfoldable pub handle : Supervisor → World → Event → Supervisor
  handle s w starts = start s w
  handle s w stops = stop s w.ends
  handle s w (reports reason) = report_transport_failure s reason w.ends
  handle s w startup_due =
      if is_some s.startup_timer
      then handle_failure (record s { startup_timer = none }) startup_timeout w.ends
      else s
  handle s w restart_due = if is_some s.restart_timer then restart s w else s
  handle s w stable_due =
      if is_some s.stable_timer then record s { stable_timer = none; restart_attempts = 0 } else s
  handle s w (prints bytes) = if s.process_running then handle_stdout s bytes w else s
  handle s w (prints_errors bytes) = if s.process_running then handle_stderr s bytes else s
  handle s w (errored still_running code message) =
      if s.process_running
      then handle_failure (record s { process_running = still_running })
          (process_error code message) w.ends
      else s
  handle s w (finished code status output errors) =
      if s.process_running then handle_finished s code status output errors w else s

  unfoldable pub handle_all : Supervisor → List (World × Event) → Supervisor
  handle_all s [] = s
  handle_all s ((w, e) ∷ rest) = handle_all (handle s w e) rest
