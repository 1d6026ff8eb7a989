-- ===== src/App/Supervisor/Invariant.antt =====
-- src/app/ai_process_supervisor.cpp: the invariant of the supervisor between two events.
use Prim.Native.String.{String}
use ips_with_ai.Prelude.{
  ℕ, zero, suc, ◌≤◌, ◌<◌, ◌≡◌, refl, Bool, true, false, ◌||◌, none, List, [], ◌∷◌, ◌++◌, arith,
  is_some, if-branches, Bool-cases, Option-cases, inl, inr, length,
}
use ips_with_ai.Json.{JsonLibrary, ℤ}
use ips_with_ai.Config.{AiConfig}
use ips_with_ai.Ai.Types.{starting}
use ips_with_ai.App.Supervisor.{
  Bytes, Reason, Supervisor, World, new_supervisor, is_starting, is_online, is_waiting, is_stopping,
  set_state, handle_failure, launch, start_attempt, start, stop, report_transport_failure, cut_line,
  chop_cr, stderr_rest, handle_stderr, flush_partial_output, become_ready, ready_version,
  handle_stdout_line, stdout_lines, handle_stdout, restart, handle_finished, Event, starts,
  startup_due, restart_due, stable_due, stops, reports, prints, prints_errors, errored, finished,
  handle, handle_all,
}

-- The timers run exactly in the states that they belong to, an attempt that may still fail is not
-- marked as failed, the attempts keep to the limit, and a requested stop is the last state.
pub record Inv (s : Supervisor) : Type 0 where
  pub startup : is_some s.startup_timer ≡ is_starting s.state
  pub waiting : is_some s.restart_timer ≡ is_waiting s.state
  pub stable : is_some s.stable_timer ≡ true → is_online s.state ≡ true
  pub attempts : s.restart_attempts ≤ s.config.max_restarts
  pub another : is_waiting s.state ≡ true → s.restart_attempts < s.config.max_restarts
  pub alive :
      (is_starting s.state || is_online s.state) ≡ true → s.failure_handled_for_attempt ≡ false
  pub failed : is_waiting s.state ≡ true → s.failure_handled_for_attempt ≡ true
  pub stopped : s.stop_requested ≡ is_stopping s.state

-- An attempt under way, whatever its state and its startup timer.
record Attempt (s : Supervisor) : Type 0 where
  running : s.stop_requested ≡ false
  unstopped : is_stopping s.state ≡ false
  unhandled : s.failure_handled_for_attempt ≡ false
  attempts : s.restart_attempts ≤ s.config.max_restarts
  no_restart : s.restart_timer ≡ none

-- A failure ends the attempt, and the invariant holds again.
handle_failure-Attempt :
    (s : Supervisor) (r : Reason) (ends : Bool) → Attempt s → Inv (handle_failure s r ends)
unfolding handle_failure
handle_failure-Attempt s r ends v = ground (arith, v)

handle_failure-Inv :
    (s : Supervisor) (r : Reason) (ends : Bool) → Inv s → Inv (handle_failure s r ends)
unfolding handle_failure
handle_failure-Inv s r ends v =
    elim (Bool-cases (s.stop_requested || is_stopping s.state || s.failure_handled_for_attempt)) [
      | inl e ↦ rw (e, handle_failure) v
      | inr e ↦ handle_failure-Attempt s r ends (ground (arith, v))
    ]

launch-Attempt :
    (s : Supervisor) (w : World)
    → s.state ≡ starting
    → s.stable_timer ≡ none
    → Attempt s
    → Inv (launch s w)
unfolding launch
launch-Attempt s w e q v = elim (Option-cases w.path_error) [
  | inr (error, h) ↦ ground (arith, handle_failure-Attempt s (Reason.unsafe_path error) w.ends v)
  | inl h ↦ ground (arith, v, handle_failure-Attempt s Reason.stale_socket w.ends v)
]

start_attempt-Inv :
    (s : Supervisor) (w : World)
    → s.stop_requested ≡ false
    → s.restart_attempts ≤ s.config.max_restarts
    → s.restart_timer ≡ none
    → s.stable_timer ≡ none
    → Inv (start_attempt s w)
unfolding start_attempt set_state
start_attempt-Inv s w h k r q = rw (h, start_attempt) (launch-Attempt _ w refl q (ground arith))

pub start-Inv : (s : Supervisor) (w : World) → Inv s → Inv (start s w)
unfolding start set_state
start-Inv s w v =
    elim (Bool-cases
      (s.stop_requested || is_starting s.state || is_online s.state || is_waiting s.state)) [
        | inl e ↦ rw (e, start) v
        | inr e ↦ elim (Bool-cases s.config.enabled) [
          | inr off ↦ ground (arith, v)
          | inl on ↦ ground (arith, v, start_attempt-Inv (record s { restart_attempts = 0 }) w)
        ]
      ]

pub stop-Inv : (s : Supervisor) (ends : Bool) → Inv s → Inv (stop s ends)
unfolding stop
stop-Inv s ends v = ground (arith, v)

pub report-Inv :
    (s : Supervisor) (reason : String) (ends : Bool)
    → Inv s
    → Inv (report_transport_failure s reason ends)
unfolding report_transport_failure
report-Inv s reason ends v =
    if-branches Inv (is_online s.state) (λ e. handle_failure-Inv s (Reason.transport reason) ends v)
      (λ e. v)

restart-Inv :
    (s : Supervisor) (w : World) → is_some s.restart_timer ≡ true → Inv s → Inv (restart s w)
unfolding restart
restart-Inv s w h v =
    start_attempt-Inv _ w (ground (arith, v)) (ground (arith, v)) refl (ground (arith, v))

-- The invariant does not speak of the buffers and of the process.
pub with_output :
    (s : Supervisor) (b b' : Bytes) (r : Bool)
    → Inv s
    → Inv (record s { stdout_buffer = b; stderr_buffer = b'; process_running = r })
with_output s b b' r v = ground (arith, v)

module _ {J : Type 0} (json : JsonLibrary J) where
  become_ready-Inv :
      (s : Supervisor) (version : String) (w : World)
      → is_starting s.state ≡ true
      → Inv s
      → Inv (become_ready json s version w)
  unfolding become_ready set_state
  become_ready-Inv s version w h v = elim (Option-cases w.ready_error) [
    | inr (error, e) ↦ rw (e, become_ready) (handle_failure-Attempt _ _ w.ends (ground (arith, v)))
    | inl e ↦ ground (arith, v)
  ]

  pub handle_stdout_line-Inv :
      (s : Supervisor) (line : Bytes) (w : World) → Inv s → Inv (handle_stdout_line json s line w)
  unfolding handle_stdout_line
  handle_stdout_line-Inv s line w v = elim (Option-cases (ready_version json line)) [
    | inl e ↦ ground (arith, v)
    | inr (version, e) ↦ ground (arith, v, become_ready-Inv s version w)
  ]

  stdout_lines-Inv : (n : ℕ) (s : Supervisor) (w : World) → Inv s → Inv (stdout_lines json n s w)
  unfolding stdout_lines
  stdout_lines-Inv zero s w v = v
  stdout_lines-Inv (suc n) s w v = elim (Option-cases (cut_line s.stdout_buffer)) [
    | inl e ↦ rw (e, stdout_lines) v
    | inr (cut, e) ↦
        rw (e, stdout_lines)
          (stdout_lines-Inv n
            (handle_stdout_line json (record s { stdout_buffer = cut.1 }) (chop_cr cut.0) w) w
            (handle_stdout_line-Inv (record s { stdout_buffer = cut.1 }) (chop_cr cut.0) w
              (with_output s cut.1 s.stderr_buffer s.process_running v)))
  ]

  handle_finished-Inv :
      (s : Supervisor) (code : ℤ) (status : ℕ) (output errors : Bytes) (w : World)
      → Inv s
      → Inv (handle_finished json s code status output errors w)
  unfolding handle_finished handle_stdout handle_stderr flush_partial_output
  handle_finished-Inv s code status output errors w v =
      let b = s.stdout_buffer ++ output in
      let s0 = record s { process_running = false; stdout_buffer = b } in
      let s1 = stdout_lines json (length b) s0 w in
      let v1 : Inv (flush_partial_output s1) =
        with_output s1 [] [] s1.process_running
          (stdout_lines-Inv (length b) s0 w (with_output s b s.stderr_buffer false v)) in
      elim (Bool-cases (is_stopping s1.state)) [
        | inl e ↦ rw (e, handle_finished) v1
        | inr e ↦ rw (e, handle_finished) (handle_failure-Inv (flush_partial_output s1) _ w.ends v1)
      ]

  pub handle-Inv : (s : Supervisor) (w : World) (e : Event) → Inv s → Inv (handle json s w e)
  unfolding handle report_transport_failure handle_stdout handle_stderr
  handle-Inv s w starts v = start-Inv s w v
  handle-Inv s w stops v = stop-Inv s w.ends v
  handle-Inv s w (reports reason) v = report-Inv s reason w.ends v
  handle-Inv s w startup_due v = ground (
    arith,
    v,
    handle_failure-Attempt (record s { startup_timer = none }) Reason.startup_timeout w.ends,
  )
  handle-Inv s w restart_due v = ground (arith, v, restart-Inv s w)
  handle-Inv s w stable_due v = ground (arith, v)
  handle-Inv s w (prints bytes) v =
      let b = s.stdout_buffer ++ bytes in
      ground (
        arith,
        v,
        stdout_lines-Inv (length b) (record s { stdout_buffer = b }) w
            (with_output s b s.stderr_buffer s.process_running v),
      )
  handle-Inv s w (prints_errors bytes) v = ground (
    arith,
    v,
    with_output s s.stdout_buffer
        (stderr_rest (length (s.stderr_buffer ++ bytes)) (s.stderr_buffer ++ bytes))
        s.process_running v,
  )
  handle-Inv s w (errored r code message) v = ground (
    arith,
    v,
    handle_failure-Inv (record s { process_running = r }) (Reason.process_error code message) w.ends
        (with_output s s.stdout_buffer s.stderr_buffer r v),
  )
  handle-Inv s w (finished code status output errors) v =
      ground (arith, v, handle_finished-Inv s code status output errors w v)

  pub handle_all-Inv_from :
      (s : Supervisor) (es : List (World × Event)) → Inv s → Inv (handle_all json s es)
  unfolding handle_all
  handle_all-Inv_from s [] v = v
  handle_all-Inv_from s ((w, e) ∷ rest) v =
      handle_all-Inv_from (handle json s w e) rest (handle-Inv s w e v)

  -- From the constructor on, after any calls, time-outs and signals of the process: the startup timer
  -- runs exactly while the process is starting and the restart timer exactly while a restart is
  -- awaited, so that the supervisor is stuck in neither; the stable timer runs only online; the
  -- attempts keep to the limit, with another one left while a restart is awaited; an attempt under way
  -- is not marked as failed; and the state is STOPPING exactly once a stop is requested.
  pub handle_all-Inv :
      (config : AiConfig) (es : List (World × Event))
      → Inv (handle_all json (new_supervisor config) es)
  unfolding new_supervisor
  handle_all-Inv config es = handle_all-Inv_from (new_supervisor config) es (ground arith)
