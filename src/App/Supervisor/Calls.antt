-- ===== src/App/Supervisor/Calls.antt =====
-- src/app/ai_process_supervisor.cpp: the calls of the two handlers against the state.
use Prim.Native.String.{String}
use ips_with_ai.Prelude.{
  ℕ, zero, suc, ◌+◌, ◌≡◌, refl, Bool, true, false, ◌&&◌, ◌||◌, none, List, [], ◌∷◌, ◌++◌, arith,
  Bool-cases, Option-cases, inl, inr, length, u64,
}
use ips_with_ai.Json.{JsonLibrary, ℤ}
use ips_with_ai.Ai.Types.{AiState, disabled, starting, restart_wait, offline, stopping}
use ips_with_ai.App.Supervisor.{
  Bytes, Reason, Detail, Supervisor, World, is_starting, is_online, is_stopping, set_state,
  handle_failure, launch, start_attempt, start, stop, report_transport_failure, cut_line, chop_cr,
  handle_stderr, flush_partial_output, become_ready, ready_version, handle_stdout_line,
  stdout_lines, handle_stdout, restart, handle_finished, Event, starts, startup_due, restart_due,
  stable_due, stops, reports, prints, prints_errors, errored, finished, handle,
}
use ips_with_ai.App.Supervisor.Invariant.{Inv, handle_stdout_line-Inv, with_output}
use ips_with_ai.App.Supervisor.{Call, ready, changed}

-- Whether a client is online after the calls: a ready call sets it online, a state other than ONLINE
-- offline.
abbrev pub after_call : Bool → Call → Bool
after_call b (ready version) = true
after_call b (changed state d) = is_online state && b

abbrev pub after_calls : Bool → List Call → Bool
after_calls b [] = b
after_calls b (c ∷ cs) = after_calls (after_call b c) cs

after_calls-append :
    (b : Bool) (cs : List Call) (c : Call)
    → after_calls b (cs ++ c ∷ []) ≡ after_call (after_calls b cs) c
after_calls-append b [] c = refl
after_calls-append b (x ∷ cs) c = after_calls-append (after_call b x) cs c

pub after_calls_mono :
    (b : Bool) (cs : List Call) → after_calls b cs ≡ true → after_calls true cs ≡ true
after_calls_mono true cs h = h
after_calls_mono false [] h = refl
after_calls_mono false (ready v ∷ cs) h = h
after_calls_mono false (changed state d ∷ cs) h = elim (Bool-cases (is_online state)) [
  | inl e ↦ rw e (after_calls_mono false cs (ground (arith, h)))
  | inr e ↦ ground (arith, h)
]

-- A client that the calls leave online belongs to an online supervisor.
abbrev pub Agrees : Bool → Supervisor → Type 0
Agrees b s = after_calls b s.calls ≡ true → is_online s.state ≡ true

module _ (b : Bool) where
  set_state-Agrees :
      (s : Supervisor) (state : AiState) (d : Detail)
      → is_online state ≡ false
      → Agrees b (set_state s state d)
  unfolding set_state
  set_state-Agrees s state d e h = ground (arith, after_calls-append b s.calls (changed state d))

  handle_failure-Agrees :
      (s : Supervisor) (r : Reason) (ends : Bool) → Agrees b s → Agrees b (handle_failure s r ends)
  unfolding handle_failure
  handle_failure-Agrees s r ends a h = ground (
    arith,
    after_calls-append b s.calls (changed restart_wait (Detail.failed r)),
    after_calls-append b s.calls (changed offline (Detail.exhausted r s.config.max_restarts)),
  )

  launch-Agrees : (s : Supervisor) (w : World) → Agrees b s → Agrees b (launch s w)
  unfolding launch
  launch-Agrees s w a h = elim (Option-cases w.path_error) [
    | inl e ↦ ground (arith, handle_failure-Agrees s Reason.stale_socket w.ends a)
    | inr (error, e) ↦ ground (arith, handle_failure-Agrees s (Reason.unsafe_path error) w.ends a)
  ]

  start_attempt-Agrees : (s : Supervisor) (w : World) → Agrees b s → Agrees b (start_attempt s w)
  unfolding start_attempt
  start_attempt-Agrees s w a = elim (Bool-cases s.stop_requested) [
    | inl e ↦ rw (e, start_attempt) a
    | inr e ↦ rw (e, start_attempt) (launch-Agrees _ w (set_state-Agrees _ starting _ refl))
  ]

  pub start-Agrees : (s : Supervisor) (w : World) → Agrees b s → Agrees b (start s w)
  unfolding start
  start-Agrees s w a h = ground (
    arith,
    set_state-Agrees s disabled Detail.disabled_by_config refl,
    start_attempt-Agrees (record s { restart_attempts = 0 }) w a,
  )

  pub stop-Agrees : (s : Supervisor) (ends : Bool) → Agrees b s → Agrees b (stop s ends)
  unfolding stop
  stop-Agrees s ends a h =
      ground (arith, after_calls-append b s.calls (changed stopping Detail.shutting_down))

  pub report_transport_failure-Agrees :
      (s : Supervisor) (reason : String) (ends : Bool)
      → Agrees b s
      → Agrees b (report_transport_failure s reason ends)
  unfolding report_transport_failure
  report_transport_failure-Agrees s reason ends a h =
      ground (arith, handle_failure-Agrees s (Reason.transport reason) ends a)

  -- A failure that is handled takes the client offline, whatever was called before.
  handle_failure-fresh :
      (s : Supervisor) (r : Reason) (ends : Bool)
      → (s.stop_requested || is_stopping s.state || s.failure_handled_for_attempt) ≡ false
      → Agrees b (handle_failure s r ends)
  unfolding handle_failure
  handle_failure-fresh s r ends e h = ground (
    arith,
    after_calls-append b s.calls (changed restart_wait (Detail.failed r)),
    after_calls-append b s.calls (changed offline (Detail.exhausted r s.config.max_restarts)),
  )

  module _ {J : Type 0} (json : JsonLibrary J) where
    become_ready-Agrees :
        (s : Supervisor) (version : String) (w : World)
        → Inv s
        → is_starting s.state ≡ true
        → Agrees b (become_ready json s version w)
    unfolding become_ready set_state
    become_ready-Agrees s version w v e = elim (Option-cases w.ready_error) [
      | inl n ↦ λ h. ground arith
      | inr (error, n) ↦ rw (n, become_ready) (handle_failure-fresh _ _ w.ends (ground (arith, v)))
    ]

    handle_stdout_line-Agrees :
        (s : Supervisor) (line : Bytes) (w : World)
        → Inv s
        → Agrees b s
        → Agrees b (handle_stdout_line json s line w)
    unfolding handle_stdout_line
    handle_stdout_line-Agrees s line w v a h = elim (Option-cases (ready_version json line)) [
      | inl e ↦ ground arith
      | inr (version, e) ↦ ground (arith, become_ready-Agrees s version w v)
    ]

    stdout_lines-Agrees :
        (n : ℕ) (s : Supervisor) (w : World)
        → Inv s
        → Agrees b s
        → Agrees b (stdout_lines json n s w)
    unfolding stdout_lines
    stdout_lines-Agrees zero s w v a = a
    stdout_lines-Agrees (suc n) s w v a = elim (Option-cases (cut_line s.stdout_buffer)) [
      | inl e ↦ rw (e, stdout_lines) a
      | inr (cut, e) ↦
          let s' = record s { stdout_buffer = cut.1 } in
          let v' = with_output s cut.1 s.stderr_buffer s.process_running v in
          rw (e, stdout_lines)
            (stdout_lines-Agrees n (handle_stdout_line json s' (chop_cr cut.0) w) w
              (handle_stdout_line-Inv json s' (chop_cr cut.0) w v')
              (handle_stdout_line-Agrees s' (chop_cr cut.0) w v' a))
    ]

    handle_stdout-Agrees :
        (s : Supervisor) (bytes : Bytes) (w : World)
        → Inv s
        → Agrees b s
        → Agrees b (handle_stdout json s bytes w)
    unfolding handle_stdout
    handle_stdout-Agrees s bytes w v a =
        let c = s.stdout_buffer ++ bytes in
        stdout_lines-Agrees (length c) (record s { stdout_buffer = c }) w
          (with_output s c s.stderr_buffer s.process_running v) a

    handle_finished-Agrees :
        (s : Supervisor) (code : ℤ) (status : ℕ) (output errors : Bytes) (w : World)
        → Inv s
        → Agrees b s
        → Agrees b (handle_finished json s code status output errors w)
    unfolding handle_finished handle_stderr flush_partial_output
    handle_finished-Agrees s code status output errors w v a =
        let s0 = record s { process_running = false } in
        let s1 = handle_stdout json s0 output w in
        let a1 =
          handle_stdout-Agrees s0 output w (with_output s s.stdout_buffer s.stderr_buffer false v)
            a in
        elim (Bool-cases (is_stopping s1.state)) [
          | inl e ↦ rw (e, handle_finished) a1
          | inr e ↦
              rw (e, handle_finished)
                (handle_failure-Agrees (flush_partial_output s1) (Reason.process_exit code status)
                  w.ends a1)
        ]

    -- No event leaves a client online that the state does not call for.
    pub handle-Agrees :
        (s : Supervisor) (w : World) (e : Event) → Inv s → Agrees b s → Agrees b (handle json s w e)
    unfolding handle restart handle_stderr
    handle-Agrees s w starts v a = start-Agrees s w a
    handle-Agrees s w stops v a = stop-Agrees s w.ends a
    handle-Agrees s w (reports reason) v a = report_transport_failure-Agrees s reason w.ends a
    handle-Agrees s w startup_due v a = λ h. ground (
      arith,
      handle_failure-Agrees (record s { startup_timer = none }) Reason.startup_timeout w.ends a,
    )
    handle-Agrees s w restart_due v a =
        let s' = record s {
          restart_timer = none;
          restart_attempts = s.restart_attempts + 1;
          restart_count = u64 (s.restart_count + 1);
        } in
        λ h. ground (arith, start_attempt-Agrees s' w a)
    handle-Agrees s w stable_due v a = λ h. ground arith
    handle-Agrees s w (prints bytes) v a = λ h. ground (arith, handle_stdout-Agrees s bytes w v a)
    handle-Agrees s w (prints_errors bytes) v a = λ h. ground arith
    handle-Agrees s w (errored r code message) v a = λ h. ground (
      arith,
      handle_failure-Agrees (record s { process_running = r }) (Reason.process_error code message)
          w.ends a,
    )
    handle-Agrees s w (finished code status output errors) v a =
        λ h. ground (arith, handle_finished-Agrees s code status output errors w v a)
