-- ===== src/App/Tests.antt =====
-- Runs of the supervisor, of its check of paths and of the controller of src/app, with a small JSON
-- library.
use ips_with_ai.Prelude.{
  some, text_eq, ltb, ==_iff, ◌↔◌, ◌≢◌, ◌⊎◌, if◌then◌else◌, ℕ, ◌+◌, ◌≤◌, ◌<◌, ◌≡◌, refl, true,
  false, none, List, [], ◌∷◌, ◌==◌, arith, u64, is_some, All,
}
use ips_with_ai.Json.{holds}
use ips_with_ai.Json.Small.{announcing}
use ips_with_ai.Config.{AiConfig, default_config}
use ips_with_ai.Ai.Types.{online, stopping}
use ips_with_ai.Ai.Client
use ips_with_ai.Ai.Client.{new_client, set_online, set_offline}
use ips_with_ai.App.Supervisor
use ips_with_ai.App.Supervisor.{
  Bytes, Supervisor, World, Event, starts, stops, startup_due, restart_due, prints, new_supervisor,
  handle_all, handle, handle_stdout,
}
use ips_with_ai.App.Supervisor.Invariant
use ips_with_ai.App.Supervisor.Invariant.{handle_all-Inv}
use ips_with_ai.App.Supervisor.Restarts.{restarts_in, restarts_in-bounded, handle_all-Silent}
use ips_with_ai.App.Supervisor.Lines.{feed, handle_stdout-feed}
use ips_with_ai.App.Paths.{
  Files, directory, regular_file, valid, out_of_fuel, check_stat, validate_root_owned_path, walk,
  validate_secure_directory_tree, required_modules, validate_modules, validate_python_paths,
}
use ips_with_ai.App.Paths.Secure.{IsSecure, IsSecureTree, validate_python_paths-valid}
use ips_with_ai.App.Controller
use ips_with_ai.App.Controller.{
  Controller, Step, delivers, launches, supervises, shuts_down, joins, joined, joining_worker,
  joining_capture, is_over, is_capturing, new_controller, step, steps,
}
use ips_with_ai.App.Controller.Wiring.{is_joined, steps-online, steps-shutdown}

-- Nothing fails outside, and a process that is told to end does.
abbrev fine : World
fine = record { path_error = none; socket_removed = true; ready_error = none; ends = true }

abbrev config : AiConfig
config = default_config.ai

-- The first attempt takes too long.
abbrev late : Supervisor
late = handle_all announcing (new_supervisor config) ((fine, starts) ∷ (fine, startup_due) ∷ [])

late_count : late.restart_count < 18446744073709551616
unfolding handle_all handle Supervisor.start Supervisor.start_attempt Supervisor.launch
    Supervisor.set_state Supervisor.handle_failure new_supervisor
late_count = omega arith

abbrev stopped : Supervisor
stopped = handle_all announcing (new_supervisor config) ((fine, starts) ∷ (fine, stops) ∷ [])

stopped_requested : stopped.stop_requested ≡ true
unfolding handle_all handle Supervisor.start Supervisor.start_attempt Supervisor.launch
    Supervisor.set_state Supervisor.stop new_supervisor
stopped_requested = refl

empty_buffer : All (λ c. (c == 10) ≡ false) (new_supervisor config).stdout_buffer
unfolding new_supervisor
empty_buffer = tt

abbrev tail_of_line : Bytes
tail_of_line = 10 ∷ 79 ∷ []

-- The process starts, announces itself, and the client is told.
abbrev coming_up : List (Step ℕ)
coming_up =
    launches true fine
    ∷ delivers
    ∷ supervises fine (prints (123 ∷ 10 ∷ []))
    ∷ delivers
    ∷ delivers
    ∷ []

abbrev up : Controller ℕ
up = steps announcing (new_controller default_config "ipc" true) coming_up

-- No thread was started, so that both joins are over at once.
abbrev going_down : List (Step ℕ)
going_down = shuts_down ∷ joins true ∷ delivers ∷ joins true ∷ []

abbrev down : Controller ℕ
down = steps announcing (new_controller default_config "ipc" true) going_down

down_stopping : down.is_stopping ≡ true
unfolding steps step Controller.begin_shutdown Controller.shut_down Controller.is_busy
    Controller.has_calls Controller.after_join Controller.deliver_call Controller.on_call
    Controller.on_state Controller.tell_state Supervisor.stop Supervisor.set_state new_controller
    new_supervisor
down_stopping = refl

down_joined : (down.join ≡ joined) × (down.exit_code ≡ some 0)
unfolding steps step Controller.begin_shutdown Controller.shut_down Controller.is_busy
    Controller.has_calls Controller.after_join Controller.deliver_call Controller.on_call
    Controller.on_state Controller.tell_state Supervisor.stop Supervisor.set_state new_controller
    new_supervisor
down_joined = (refl, refl)

up_runs : (up.supervisor.calls ≡ []) × (up.client.online ≡ true)
unfolding steps step Controller.deliver_call Controller.is_busy Controller.has_calls new_controller
    new_supervisor Controller.start Controller.start_threads Supervisor.start
    Supervisor.start_attempt Supervisor.launch Supervisor.set_state Controller.on_call
    Controller.on_state Controller.on_ready Controller.tell_state handle handle_stdout
    Supervisor.stdout_lines Supervisor.handle_stdout_line Supervisor.ready_version
    Supervisor.become_ready Supervisor.cut_line Supervisor.chop_cr holds new_client set_offline
    set_online Client.start
up_runs = (refl, refl)

handle_all-Inv_example : Invariant.Inv (
    handle_all announcing
      (new_supervisor config)
      ((fine, starts) ∷ (fine, startup_due) ∷ (fine, restart_due) ∷ []))
handle_all-Inv_example =
    handle_all-Inv announcing config
      ((fine, starts) ∷ (fine, startup_due) ∷ (fine, restart_due) ∷ [])

restarts_in-bounded_example :
    (late.restart_attempts + restarts_in announcing late ((fine, restart_due) ∷ [])
      ≤ late.config.max_restarts)
    × ((handle_all announcing late ((fine, restart_due) ∷ [])).restart_count
        ≡ u64 (late.restart_count + restarts_in announcing late ((fine, restart_due) ∷ [])))
restarts_in-bounded_example =
    restarts_in-bounded announcing late ((fine, restart_due) ∷ [])
      (handle_all-Inv announcing config ((fine, starts) ∷ (fine, startup_due) ∷ [])) (tt, tt)
      late_count

handle_all-Silent_example :
    ((handle_all announcing stopped ((fine, starts) ∷ [])).state ≡ stopping)
    × ((handle_all announcing stopped ((fine, starts) ∷ [])).calls ≡ stopped.calls)
handle_all-Silent_example =
    handle_all-Silent announcing stopped ((fine, starts) ∷ [])
      (handle_all-Inv announcing config ((fine, starts) ∷ (fine, stops) ∷ [])) stopped_requested

handle_stdout-feed_example :
    handle_stdout announcing (new_supervisor config) (123 ∷ 10 ∷ 79 ∷ []) fine
    ≡ feed announcing fine (new_supervisor config) (123 ∷ 10 ∷ 79 ∷ [])
handle_stdout-feed_example =
    handle_stdout-feed announcing fine refl (new_supervisor config) (123 ∷ 10 ∷ 79 ∷ [])
      empty_buffer

steps-online_example : up.supervisor.state ≡ online
steps-online_example =
    steps-online announcing default_config "ipc" true coming_up up_runs.0 up_runs.1

steps-shutdown_example :
    (down.client.stop_requested ≡ true)
    × (down.capture_stopped ≡ true)
    × (is_some down.exit_code ≡ is_joined down.join)
    × (((code : ℕ) × (down.join ≡ joining_worker code))
        ⊎ ((is_over down.worker ≡ true)
            × (down.supervisor.stop_requested ≡ true)
            × (down.supervisor.state ≡ stopping)
            × (((code : ℕ) × (down.join ≡ joining_capture code))
                ⊎ ((down.join ≡ joined) × (is_capturing down ≡ false)))))
steps-shutdown_example =
    steps-shutdown announcing default_config "ipc" true going_down down_stopping

-- Paths are numbers: the root is 0, above every other.
abbrev numbered : Files ℕ
numbered = record {
  lstat = λ p. some (record {
    file_type = if ltb p 5 then directory else regular_file;
    st_uid = 0;
    group_writable = false;
    other_writable = false;
  });
  canonical = λ p. p;
  parent = λ p. 0;
  file_path = λ p name. if text_eq name "ml" then 2 else 7;
  same = λ p q. p == q;
  runtime_directory = 3;
}

validate_python_paths-valid_example :
    (validate_python_paths numbered 2 1 ≢ out_of_fuel)
    × ((validate_python_paths numbered 2 1 ≡ valid) ↔ (
        IsSecureTree numbered 1
        × IsSecureTree numbered 2
        × IsSecureTree numbered 3
        × All (λ m. IsSecure numbered false (numbered.file_path 1 m)) required_modules))
validate_python_paths-valid_example =
    validate_python_paths-valid numbered ==_iff 2 1 (1, omega arith, refl) (1, omega arith, refl)
      (1, omega arith, refl)

numbered-valid : validate_python_paths numbered 2 1 ≡ valid
unfolding validate_python_paths validate_secure_directory_tree walk validate_root_owned_path
    check_stat validate_modules
numbered-valid = refl
