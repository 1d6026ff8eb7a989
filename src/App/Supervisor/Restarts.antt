-- ===== src/App/Supervisor/Restarts.antt =====
-- src/app/ai_process_supervisor.cpp: how often the process is restarted by itself, and what is left
-- to happen after `stop`.
use ips_with_ai.Prelude.{
  ℕ, zero, suc, ◌+◌, ◌≤◌, ◌<◌, ◌≡◌, refl, ◌∙◌, ap, sym, Bool, true, false, not, none, List, [], ◌∷◌,
  ◌++◌, arith, if◌then◌else◌, is_some, Bool-cases, Option-cases, inl, inr, length, u64, All,
}
use ips_with_ai.Json.{JsonLibrary, ℤ}
use ips_with_ai.Config.{AiConfig}
use ips_with_ai.Ai.Types.{AiState, stopping}
use ips_with_ai.App.Supervisor.{
  Bytes, Reason, Supervisor, World, is_starting, is_stopping, set_state, handle_failure, launch,
  start_attempt, start, stop, report_transport_failure, cut_line, chop_cr, handle_stderr,
  flush_partial_output, become_ready, ready_version, handle_stdout_line, stdout_lines,
  handle_stdout, restart, handle_finished, Event, starts, startup_due, restart_due, stable_due,
  stops, reports, prints, prints_errors, errored, finished, handle, handle_all,
}
use ips_with_ai.App.Supervisor.Invariant.{Inv, handle-Inv, handle_all-Inv_from}

-- What most of the code leaves alone.
abbrev Same : Supervisor → Supervisor → Type 0
Same s s' =
    (s'.restart_attempts ≡ s.restart_attempts)
    × (s'.restart_count ≡ s.restart_count)
    × (s'.config ≡ s.config)
    × (s'.stop_requested ≡ s.stop_requested)

handle_failure-Same : (s : Supervisor) (r : Reason) (ends : Bool) → Same s (handle_failure s r ends)
unfolding handle_failure
handle_failure-Same s r ends = ground arith

start_attempt-Same : (s : Supervisor) (w : World) → Same s (start_attempt s w)
unfolding start_attempt launch set_state handle_failure
start_attempt-Same s w = elim (Option-cases w.path_error) [
  | inl e ↦ ground arith
  | inr (error, e) ↦ ground arith
]

-- Whether the event is a restart that takes place.
abbrev restarts_now : Supervisor → Event → ℕ
restarts_now s restart_due = if is_some s.restart_timer then 1 else 0
restarts_now s _ = 0

-- A restart by hand and a stable stretch give all attempts back.
abbrev pub IsUnaided : Event → Type 0
IsUnaided starts = ⊥
IsUnaided stable_due = ⊥
IsUnaided _ = Unit

pub is_stopping-eq : (state : AiState) → is_stopping state ≡ true → state ≡ stopping
is_stopping-eq state h = ground arith

module _ {J : Type 0} (json : JsonLibrary J) where
  handle_stdout_line-Same :
      (s : Supervisor) (line : Bytes) (w : World) → Same s (handle_stdout_line json s line w)
  unfolding handle_stdout_line become_ready set_state handle_failure
  handle_stdout_line-Same s line w = elim (Option-cases (ready_version json line)) [
    | inl e ↦ ground arith
    | inr (version, e) ↦ elim (Option-cases w.ready_error) [
      | inl h ↦ ground arith
      | inr (error, h) ↦ ground arith
    ]
  ]

  stdout_lines-Same : (n : ℕ) (s : Supervisor) (w : World) → Same s (stdout_lines json n s w)
  unfolding stdout_lines
  stdout_lines-Same zero s w = (refl, refl, refl, refl)
  stdout_lines-Same (suc n) s w = elim (Option-cases (cut_line s.stdout_buffer)) [
    | inl e ↦ ground arith
    | inr (cut, e) ↦ ground (
      arith,
      handle_stdout_line-Same (record s { stdout_buffer = cut.1 }) (chop_cr cut.0) w,
      stdout_lines-Same n
          (handle_stdout_line json (record s { stdout_buffer = cut.1 }) (chop_cr cut.0) w) w,
    )
  ]

  handle_stdout-Same :
      (s : Supervisor) (bytes : Bytes) (w : World) → Same s (handle_stdout json s bytes w)
  unfolding handle_stdout
  handle_stdout-Same s bytes w =
      let b = s.stdout_buffer ++ bytes in
      stdout_lines-Same (length b) (record s { stdout_buffer = b }) w

  handle_finished-Same :
      (s : Supervisor) (code : ℤ) (status : ℕ) (output errors : Bytes) (w : World)
      → Same s (handle_finished json s code status output errors w)
  unfolding handle_finished handle_stderr flush_partial_output
  handle_finished-Same s code status output errors w =
      let s1 = handle_stdout json (record s { process_running = false }) output w in
      let same = handle_stdout-Same (record s { process_running = false }) output w in
      elim (Bool-cases (is_stopping s1.state)) [
        | inl e ↦ rw (e, handle_finished) same
        | inr e ↦
            let h =
              handle_failure-Same (flush_partial_output s1) (Reason.process_exit code status)
                w.ends in
            rw (e, handle_finished) (h.0 ∙ same.0, h.1 ∙ same.1, h.2 ∙ same.2, h.3 ∙ same.3)
      ]

  -- One event: the attempts and the count grow by the restart that it is.
  abbrev Counts : Supervisor → Supervisor → ℕ → Type 0
  Counts s s' n =
      (s'.restart_attempts ≡ s.restart_attempts + n)
      × (s'.restart_count ≡ u64 (s.restart_count + n))
      × (s'.config ≡ s.config)

  abbrev Word : Supervisor → Type 0
  Word s = s.restart_count < 18446744073709551616

  Same-Counts : (s s' : Supervisor) → Word s → Same s s' → Counts s s' 0
  Same-Counts s s' b h = ground (arith, h)

  handle-Counts :
      (s : Supervisor) (w : World) (e : Event)
      → IsUnaided e
      → Word s
      → Counts s (handle json s w e) (restarts_now s e)
  unfolding handle restart report_transport_failure handle_stderr stop
  handle-Counts s w starts u b = elim u [ ]
  handle-Counts s w stable_due u b = elim u [ ]
  handle-Counts s w stops u b = ground arith
  handle-Counts s w (reports reason) u b =
      ground (arith, handle_failure-Same s (Reason.transport reason) w.ends)
  handle-Counts s w startup_due u b =
      ground (
        arith,
        handle_failure-Same (record s { startup_timer = none }) Reason.startup_timeout w.ends,
      )
  handle-Counts s w restart_due u b =
      let s' = record s {
        restart_timer = none;
        restart_attempts = s.restart_attempts + 1;
        restart_count = u64 (s.restart_count + 1);
      } in
      ground (arith, start_attempt-Same s' w)
  handle-Counts s w (prints bytes) u b = ground (arith, handle_stdout-Same s bytes w)
  handle-Counts s w (prints_errors bytes) u b = ground arith
  handle-Counts s w (errored r code message) u b = ground (
    arith,
    handle_failure-Same (record s { process_running = r }) (Reason.process_error code message)
        w.ends,
  )
  handle-Counts s w (finished code status output errors) u b =
      ground (arith, handle_finished-Same s code status output errors w)

  -- The restarts that take place in a run.
  unfoldable pub restarts_in : Supervisor → List (World × Event) → ℕ
  restarts_in s [] = 0
  restarts_in s ((w, e) ∷ rest) = restarts_now s e + restarts_in (handle json s w e) rest

  handle_all-Counts :
      (s : Supervisor) (es : List (World × Event))
      → All (λ we. IsUnaided we.1) es
      → Word s
      → Counts s (handle_all json s es) (restarts_in s es)
  unfolding handle_all restarts_in
  handle_all-Counts s [] u b = ground arith
  handle_all-Counts s ((w, e) ∷ rest) u b =
      let step = handle-Counts s w e u.0 b in
      let ih = handle_all-Counts (handle json s w e) rest u.1 (ground (arith, step)) in
      (omega (arith, step.0, ih.0), omega (arith, step.1, ih.1), ih.2 ∙ step.2)

  -- Where the invariant holds, a run without a start by hand and without a stable stretch restarts the
  -- process at most as often as attempts are left, and the counter of restarts grows by just as many,
  -- modulo 2^64.
  pub restarts_in-bounded :
      (s : Supervisor) (es : List (World × Event))
      → Inv s
      → All (λ we. IsUnaided we.1) es
      → s.restart_count < 18446744073709551616
      → (s.restart_attempts + restarts_in s es ≤ s.config.max_restarts)
        × ((handle_all json s es).restart_count ≡ u64 (s.restart_count + restarts_in s es))
  restarts_in-bounded s es v u b =
      let c = handle_all-Counts s es u b in
      let v' = handle_all-Inv_from json s es v in
      (omega (arith, c.0, v'.attempts, ap (λ (k : AiConfig). k.max_restarts) c.2), c.1)

  -- What a requested stop keeps.
  abbrev Silent : Supervisor → Supervisor → Type 0
  Silent s s' = (s'.state ≡ s.state) × (s'.calls ≡ s.calls) × (s'.stop_requested ≡ s.stop_requested)

  stdout_lines-Silent :
      (n : ℕ) (s : Supervisor) (w : World)
      → is_starting s.state ≡ false
      → Silent s (stdout_lines json n s w)
  unfolding stdout_lines handle_stdout_line
  stdout_lines-Silent zero s w h = (refl, refl, refl)
  stdout_lines-Silent (suc n) s w h = elim (Option-cases (cut_line s.stdout_buffer)) [
    | inl e ↦ rw (e, stdout_lines) (refl, refl, refl)
    | inr (cut, e) ↦
        rw (e, h, stdout_lines, handle_stdout_line)
          (stdout_lines-Silent n (record s { stdout_buffer = cut.1 }) w h)
  ]

  handle-Silent :
      (s : Supervisor) (w : World) (e : Event)
      → Inv s
      → s.stop_requested ≡ true
      → Silent s (handle json s w e)
  unfolding handle restart report_transport_failure handle_stderr stop start handle_failure
      handle_stdout handle_finished flush_partial_output
  handle-Silent s w starts v h = ground (arith, v)
  handle-Silent s w stops v h = ground (arith, v)
  handle-Silent s w (reports reason) v h = ground (arith, v)
  handle-Silent s w startup_due v h = ground (arith, v)
  handle-Silent s w restart_due v h = ground (arith, v)
  handle-Silent s w stable_due v h = ground (arith, v)
  handle-Silent s w (prints bytes) v h =
      let b = s.stdout_buffer ++ bytes in
      ground (arith, v, stdout_lines-Silent (length b) (record s { stdout_buffer = b }) w)
  handle-Silent s w (prints_errors bytes) v h = ground (arith, v)
  handle-Silent s w (errored r code message) v h = ground (arith, v)
  handle-Silent s w (finished code status output errors) v h =
      let b = s.stdout_buffer ++ output in
      let s0 = record s { process_running = false; stdout_buffer = b } in
      let quiet = stdout_lines-Silent (length b) s0 w (ground (arith, v)) in
      let e : not (is_stopping (stdout_lines json (length b) s0 w).state) ≡ false =
        ground (arith, v, quiet) in
      ground (arith, quiet, e)

  -- A stop is final: where the invariant holds and a stop was requested, no later call, time-out or
  -- signal changes the state, and neither handler is called any more.
  pub handle_all-Silent :
      (s : Supervisor) (es : List (World × Event))
      → Inv s
      → s.stop_requested ≡ true
      → let s' = handle_all json s es in (s'.state ≡ stopping) × (s'.calls ≡ s.calls)
  unfolding handle_all
  handle_all-Silent s [] v h = (is_stopping-eq s.state (sym v.stopped ∙ h), refl)
  handle_all-Silent s ((w, e) ∷ rest) v h =
      let step = handle-Silent s w e v h in
      let ih = handle_all-Silent (handle json s w e) rest (handle-Inv json s w e v) (step.2 ∙ h) in
      (ih.0, ih.1 ∙ step.1)

  -- A requested stop stays requested.
  pub handle-stops :
      (s : Supervisor) (w : World) (e : Event)
      → Inv s
      → s.stop_requested ≡ true
      → (handle json s w e).stop_requested ≡ true
  handle-stops s w e v h = (handle-Silent s w e v h).2 ∙ h
