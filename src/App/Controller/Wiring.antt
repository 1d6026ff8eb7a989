-- ===== src/App/Controller/Wiring.antt =====
-- src/app/application_controller.cpp: the client, the supervisor and the end of the program together,
-- in every interleaving of the threads.
use Prim.Native.String.{String}
use ips_with_ai.Prelude.{
  ℕ, ◌≡◌, refl, ◌∙◌, sym, Bool, true, false, ◌&&◌, ◌||◌, not, List, [], ◌∷◌, arith, if-branches,
  inl, inr, ◌⊎◌, is_some,
}
use ips_with_ai.Json.{JsonLibrary}
use ips_with_ai.Config.{Config}
use ips_with_ai.Ai.Types.{AiState, disabled, starting, online, restart_wait, offline, stopping}
use ips_with_ai.Ai.Client
use ips_with_ai.Ai.Client.{
  AsyncAiClient, Worker, Input, runs, arrives, reads, gives_out, idle, absent, ended, requesting,
  received, deciding, new_client, set_online, set_offline, consume, drain_decisions, work,
  take_flow, fail_transport, settle, count_error, push_decision,
}
use ips_with_ai.App.Supervisor
use ips_with_ai.App.Supervisor.{
  Supervisor, World, Call, Detail, ready, changed, is_online, new_supervisor,
  report_transport_failure, handle,
}
use ips_with_ai.App.Supervisor.Invariant
use ips_with_ai.App.Supervisor.Restarts.{is_stopping-eq}
use ips_with_ai.App.Supervisor.Restarts
use ips_with_ai.App.Supervisor.Calls.{
  Agrees, after_call, after_calls_mono, start-Agrees, stop-Agrees, report_transport_failure-Agrees,
  handle-Agrees,
}
use ips_with_ai.App.Controller.{
  Join, not_joining, joined, joining_worker, joining_capture, is_over, is_capturing, after_join,
  has_calls, joins, Controller, Posted, Step, transport_failure, ai_block, capture_result,
  new_controller, on_ready, tell_state, on_state, on_call, deliver_call, start, start_threads,
  shut_down, begin_shutdown, run_posted, next_posted, run_worker, delivers, runs_posted, shuts_down,
  supervises, launches, works, consumes, drains, posts_block, posts_result, is_busy, step, steps,
}
use ips_with_ai.App.Controller.Fades.{
  client_start-online, Fades, work-Fades, consume-Fades, work-over,
}

is_online-eq : (state : AiState) → is_online state ≡ true → state ≡ online
is_online-eq state h = ground arith

stop-stops : (s : Supervisor) (ends : Bool) → (Supervisor.stop s ends).stop_requested ≡ true
unfolding Supervisor.stop
stop-stops s ends = ground arith

report-stops :
    (s : Supervisor) (reason : String) (ends : Bool)
    → (report_transport_failure s reason ends).stop_requested ≡ s.stop_requested
unfolding report_transport_failure Supervisor.handle_failure
report-stops s reason ends = ground arith

-- The worker's end, which is before the supervisor's stop.
abbrev pub is_late : Join → Bool
is_late (joining_capture code) = true
is_late joined = true
is_late _ = false

abbrev pub is_joined : Join → Bool
is_joined joined = true
is_joined _ = false

abbrev pub is_begun : Join → Bool
is_begun not_joining = false
is_begun _ = true

-- The supervisor's invariant; a client that is online, or will be after the calls under way, has a
-- supervisor in state ONLINE; once the end has begun the client and the capture were told to stop, after
-- the first join the worker is over and the supervisor was told to stop, and the exit code is set after
-- the second, when the capture has ended.
record Inv {F : Type 0} (k : Controller F) : Type 0 where
  supervised : Invariant.Inv k.supervisor
  agrees : Agrees k.client.online k.supervisor
  client_stops : k.is_stopping ≡ true → k.client.stop_requested ≡ true
  capture_stops : k.is_stopping ≡ true → k.capture_stopped ≡ true
  begun : is_begun k.join ≡ k.is_stopping
  supervisor_stops : is_late k.join ≡ true → k.supervisor.stop_requested ≡ true
  worker_ends : is_late k.join ≡ true → is_over k.worker ≡ true
  exits : is_some k.exit_code ≡ is_joined k.join
  capture_ends : is_joined k.join ≡ true → is_capturing k ≡ false

Join-cases :
    (j : Join)
    → is_begun j ≡ true
    → ((code : ℕ) × (j ≡ joining_worker code))
      ⊎ (((code : ℕ) × (j ≡ joining_capture code)) ⊎ (j ≡ joined))
Join-cases not_joining h = ground arith
Join-cases (joining_worker code) h = inl (code, refl)
Join-cases (joining_capture code) h = inr (inl (code, refl))
Join-cases joined h = inr (inr refl)

with_calls :
    (s : Supervisor) (cs : List Call) → Invariant.Inv s → Invariant.Inv (record s { calls = cs })
with_calls s cs v = ground (arith, v)

-- A client that is not more often online agrees as well.
Agrees-fade : (b b' : Bool) (s : Supervisor) → (b' ≡ true → b ≡ true) → Agrees b s → Agrees b' s
Agrees-fade b true s f a h = a (rw (f refl) h)
Agrees-fade true false s f a h = a (after_calls_mono false s.calls h)
Agrees-fade false false s f a h = a h

module _ {F : Type 0} where
  with_client :
      (k : Controller F) (c : AsyncAiClient F) (w : Worker F) (p : List (Posted F))
      → Fades k.client c
      → (is_over k.worker ≡ true → is_over w ≡ true)
      → Inv k
      → Inv (record k { client = c; worker = w; posted = p })
  with_client k c w p f o v = record {
    supervised = v.supervised;
    agrees = Agrees-fade k.client.online c.online k.supervisor f.0 v.agrees;
    client_stops = λ h. f.1 ∙ v.client_stops h;
    supervisor_stops = v.supervisor_stops;
    capture_stops = v.capture_stops;
    begun = v.begun;
    worker_ends = λ h. o (v.worker_ends h);
    exits = v.exits;
    capture_ends = v.capture_ends;
  }

  on_call-client :
      (k : Controller F) (c : Call)
      → let k' = on_call k c in
        (k'.supervisor ≡ k.supervisor)
        × (k'.is_stopping ≡ k.is_stopping)
        × (k'.client.stop_requested ≡ k.client.stop_requested)
        × (k'.capture_stopped ≡ k.capture_stopped)
        × (k'.exit_code ≡ k.exit_code)
        × (k'.join ≡ k.join)
        × (k'.worker ≡ k.worker)
        × (is_capturing k' ≡ is_capturing k)
        × (k'.client.online ≡ true → after_call k.client.online c ≡ true)
  unfolding on_call on_ready on_state tell_state set_online set_offline
  on_call-client k (ready version) = ground arith
  on_call-client k (changed disabled d) = ground arith
  on_call-client k (changed starting d) = ground arith
  on_call-client k (changed online d) = ground arith
  on_call-client k (changed restart_wait d) = ground arith
  on_call-client k (changed offline d) = ground arith
  on_call-client k (changed stopping d) = ground arith

  deliver_call-Inv :
      (k : Controller F) (cs : List Call)
      → k.supervisor.calls ≡ cs
      → Inv k
      → Inv (deliver_call k cs)
  unfolding deliver_call
  deliver_call-Inv k [] e v = v
  deliver_call-Inv k (c ∷ rest) e v =
      let s = record (k.supervisor) { calls = rest } in
      let k1 = record k { supervisor = s } in
      let r = on_call-client k1 c in
      let a : Agrees (after_call k.client.online c) s = λ h. v.agrees (rw e h) in
      record {
        supervised = rw r.0 (with_calls k.supervisor rest v.supervised);
        agrees =
            rw r.0
              (Agrees-fade (after_call k.client.online c) (on_call k1 c).client.online s r.8 a);
        client_stops = ground (arith, r, v);
        supervisor_stops = ground (arith, r, v);
        capture_stops = ground (arith, r, v);
        begun = ground (arith, r, v);
        worker_ends = ground (arith, r, v);
        exits = ground (arith, r, v);
        capture_ends = ground (arith, r, v);
      }

  -- An event of the main thread changes the supervisor alone.
  with_supervisor :
      (k : Controller F) (s : Supervisor)
      → Invariant.Inv s
      → (k.supervisor.stop_requested ≡ true → s.stop_requested ≡ true)
      → Agrees k.client.online s
      → Inv k
      → Inv (record k { supervisor = s })
  with_supervisor k s i stays a v = record {
    supervised = i;
    agrees = a;
    client_stops = v.client_stops;
    supervisor_stops = λ h. stays (v.supervisor_stops h);
    capture_stops = v.capture_stops;
    begun = v.begun;
    worker_ends = v.worker_ends;
    exits = v.exits;
    capture_ends = v.capture_ends;
  }

  shut_down-Inv :
      (k : Controller F) (code : ℕ) → k.is_stopping ≡ false → Inv k → Inv (shut_down k code)
  unfolding shut_down Client.stop
  shut_down-Inv k code e v = record {
    supervised = v.supervised;
    agrees = Agrees-fade k.client.online false k.supervisor (λ h. cc) v.agrees;
    client_stops = λ h. refl;
    capture_stops = λ h. refl;
    begun = refl;
    supervisor_stops = λ h. cc;
    worker_ends = λ h. cc;
    exits = ground (arith, v, e);
    capture_ends = λ h. cc;
  }

  begin_shutdown-Inv : (k : Controller F) (code : ℕ) → Inv k → Inv (begin_shutdown k code)
  unfolding begin_shutdown
  begin_shutdown-Inv k code v =
      if-branches Inv k.is_stopping (λ e. v) (λ e. shut_down-Inv k code e v)

  after_join-Inv :
      (k : Controller F) (j : Join) (ends : Bool) → k.join ≡ j → Inv k → Inv (after_join k j ends)
  unfolding after_join
  after_join-Inv k not_joining ends e v = v
  after_join-Inv k joined ends e v = v
  after_join-Inv k (joining_worker code) ends e v =
      if-branches Inv (is_over k.worker)
        (λ o. record {
          supervised = Invariant.stop-Inv k.supervisor ends v.supervised;
          agrees = stop-Agrees k.client.online k.supervisor ends v.agrees;
          client_stops = v.client_stops;
          capture_stops = v.capture_stops;
          begun = ground (arith, v, e);
          supervisor_stops = λ h. stop-stops k.supervisor ends;
          worker_ends = λ h. o;
          exits = ground (arith, v, e);
          capture_ends = λ h. cc;
        })
        (λ o. v)
  after_join-Inv k (joining_capture code) ends e v =
      if-branches Inv (is_capturing k) (λ o. v)
        (λ o. record {
          supervised = v.supervised;
          agrees = v.agrees;
          client_stops = v.client_stops;
          capture_stops = v.capture_stops;
          begun = ground (arith, v, e);
          supervisor_stops = λ h. v.supervisor_stops (rw e refl);
          worker_ends = λ h. v.worker_ends (rw e refl);
          exits = refl;
          capture_ends = λ h. o;
        })

  start_threads-Inv :
      (k : Controller F) (b : Bool) (w : World)
      → k.is_stopping ≡ false
      → Inv k
      → Inv (start_threads k b w).0
  unfolding start_threads Client.stop
  start_threads-Inv k false w e v = record {
    supervised = v.supervised;
    agrees = Agrees-fade k.client.online false k.supervisor (λ h. cc) v.agrees;
    client_stops = λ h. refl;
    supervisor_stops = v.supervisor_stops;
    capture_stops = v.capture_stops;
    begun = v.begun;
    worker_ends = λ h. ground (arith, v, e);
    exits = v.exits;
    capture_ends = v.capture_ends;
  }
  start_threads-Inv k true w e v = record {
    supervised = Invariant.start-Inv k.supervisor w v.supervised;
    agrees =
        Agrees-fade k.client.online (Client.start k.client k.worker).0.online
          (Supervisor.start k.supervisor w) (client_start-online k.client k.worker)
          (start-Agrees k.client.online k.supervisor w v.agrees);
    client_stops = λ h. ground (arith, e);
    supervisor_stops = λ h. ground (arith, e, v);
    capture_stops = v.capture_stops;
    begun = v.begun;
    worker_ends = λ h. ground (arith, v, e);
    exits = v.exits;
    capture_ends = λ h. ground (arith, v, e);
  }

  start-Inv : (k : Controller F) (b : Bool) (w : World) → Inv k → Inv (start k b w).0
  unfolding start
  start-Inv k b w v =
      if-branches (λ (r : Controller F × Bool). Inv r.0) (k.started || k.is_stopping) (λ e. v)
        (λ e. start_threads-Inv k b w (ground (arith, e)) v)

  run_posted-Inv :
      (k : Controller F) (p : Posted F) (ends : Bool) → Inv k → Inv (run_posted k p ends)
  unfolding run_posted
  run_posted-Inv k (transport_failure reason) ends v =
      let s = k.supervisor in
      if-branches Inv (not k.is_stopping)
        (λ e.
          with_supervisor k (report_transport_failure s reason ends)
            (Invariant.report-Inv s reason ends v.supervised) (λ h. report-stops s reason ends ∙ h)
            (report_transport_failure-Agrees k.client.online s reason ends v.agrees) v)
        (λ e. v)
  run_posted-Inv k (ai_block event) ends v =
      if-branches Inv (not k.is_stopping)
        (λ e. record {
          supervised = v.supervised;
          agrees = v.agrees;
          client_stops = v.client_stops;
          supervisor_stops = v.supervisor_stops;
          capture_stops = v.capture_stops;
          begun = v.begun;
          worker_ends = v.worker_ends;
          exits = v.exits;
          capture_ends = v.capture_ends;
        })
        (λ e. v)
  run_posted-Inv k (capture_result ok) ends v =
      if-branches Inv (not k.is_stopping && not ok) (λ e. begin_shutdown-Inv k 1 v) (λ e. v)

  next_posted-Inv :
      (k : Controller F) (ps : List (Posted F)) (ends : Bool) → Inv k → Inv (next_posted k ps ends)
  unfolding next_posted
  next_posted-Inv k [] ends v = v
  next_posted-Inv k (p ∷ rest) ends v =
      run_posted-Inv (record k { posted = rest }) p ends
        (with_client k k.client k.worker rest (λ h. h, refl) (λ h. h) v)

  run_worker-Inv : (k : Controller F) (i : Input F) → Inv k → Inv (run_worker k i)
  unfolding run_worker
  run_worker-Inv k i v =
      with_client k _ _ _ (work-Fades k.client k.worker i) (work-over k.client k.worker i) v

module _ {F J : Type 0} (json : JsonLibrary J) where
  step-Inv : (k : Controller F) (s : Step F) → Inv k → Inv (step json k s)
  unfolding step drain_decisions
  step-Inv k delivers v = deliver_call-Inv k k.supervisor.calls refl v
  step-Inv k (runs_posted ends) v =
      if-branches Inv (is_busy json k) (λ e. v) (λ e. next_posted-Inv k k.posted ends v)
  step-Inv k shuts_down v =
      if-branches Inv (is_busy json k) (λ e. v) (λ e. begin_shutdown-Inv k 0 v)
  step-Inv k (supervises w e) v =
      if-branches Inv (is_busy json k) (λ b. v)
        (λ b.
          with_supervisor k (handle json k.supervisor w e)
            (Invariant.handle-Inv json k.supervisor w e v.supervised)
            (Restarts.handle-stops json k.supervisor w e v.supervised)
            (handle-Agrees k.client.online json k.supervisor w e v.supervised v.agrees) v)
  step-Inv k (launches b w) v = if-branches Inv (is_busy json k) (λ e. v) (λ e. start-Inv k b w v)
  step-Inv k (works i) v = run_worker-Inv k i v
  step-Inv k (consumes r now) v =
      with_client k _ k.worker k.posted (consume-Fades k.client r now) (λ h. h) v
  step-Inv k drains v = with_client k _ k.worker k.posted (λ h. h, refl) (λ h. h) v
  step-Inv k (posts_block event) v = with_client k k.client k.worker _ (λ h. h, refl) (λ h. h) v
  step-Inv k (posts_result ok) v = record {
    supervised = v.supervised;
    agrees = v.agrees;
    client_stops = v.client_stops;
    supervisor_stops = v.supervisor_stops;
    capture_stops = v.capture_stops;
    begun = v.begun;
    worker_ends = v.worker_ends;
    exits = v.exits;
    capture_ends = λ h. ground arith;
  }
  step-Inv k (joins ends) v =
      if-branches Inv (has_calls json k) (λ e. v) (λ e. after_join-Inv k k.join ends refl v)

  steps-Inv_from : (k : Controller F) (ss : List (Step F)) → Inv k → Inv (steps json k ss)
  unfolding steps
  steps-Inv_from k [] v = v
  steps-Inv_from k (s ∷ rest) v = steps-Inv_from (step json k s) rest (step-Inv k s v)

  new_controller-Inv :
      (config : Config) (endpoint : String) (b : Bool)
      → Inv (new_controller {F = F} config endpoint b)
  unfolding new_controller new_client new_supervisor Supervisor.handle_all
  new_controller-Inv config endpoint b = record {
    supervised = Invariant.handle_all-Inv json config.ai [];
    agrees = λ h. cc;
    client_stops = λ h. cc;
    supervisor_stops = λ h. cc;
    capture_stops = λ h. cc;
    begun = refl;
    worker_ends = λ h. cc;
    exits = refl;
    capture_ends = λ h. cc;
  }

  -- In every interleaving from the constructor on: whenever the client is online and the supervisor's
  -- calls are all delivered, the supervisor is in state ONLINE.
  pub steps-online :
      (config : Config) (endpoint : String) (b : Bool) (ss : List (Step F))
      → let k = steps json (new_controller config endpoint b) ss in
        k.supervisor.calls ≡ [] → k.client.online ≡ true → k.supervisor.state ≡ online
  steps-online config endpoint b ss e h =
      let k = steps json (new_controller config endpoint b) ss in
      let v =
        steps-Inv_from (new_controller config endpoint b) ss
          (new_controller-Inv config endpoint b) in
      is_online-eq k.supervisor.state (v.agrees (rw e h))

  -- In every interleaving from the constructor on, once the end has begun, the client and the capture
  -- are told to stop for good, and the main thread joins the worker, or the worker is over, the supervisor
  -- was told to stop for good and is in state STOPPING, and the main thread joins the capture thread or
  -- that has ended too; the exit code is set exactly from then on.
  pub steps-shutdown :
      (config : Config) (endpoint : String) (b : Bool) (ss : List (Step F))
      → let k = steps json (new_controller config endpoint b) ss in
        k.is_stopping ≡ true
        → (k.client.stop_requested ≡ true)
          × (k.capture_stopped ≡ true)
          × (is_some k.exit_code ≡ is_joined k.join)
          × (((code : ℕ) × (k.join ≡ joining_worker code))
              ⊎ ((is_over k.worker ≡ true)
                  × (k.supervisor.stop_requested ≡ true)
                  × (k.supervisor.state ≡ stopping)
                  × (((code : ℕ) × (k.join ≡ joining_capture code))
                      ⊎ ((k.join ≡ joined) × (is_capturing k ≡ false)))))
  steps-shutdown config endpoint b ss h =
      let k = steps json (new_controller config endpoint b) ss in
      let v =
        steps-Inv_from (new_controller config endpoint b) ss
          (new_controller-Inv config endpoint b) in
      let late = λ (l : is_late k.join ≡ true).
        is_stopping-eq k.supervisor.state (sym v.supervised.stopped ∙ v.supervisor_stops l) in
      (
        v.client_stops h,
        v.capture_stops h,
        v.exits,
        elim (Join-cases k.join (v.begun ∙ h)) [
          | inl waits ↦ inl waits
          | inr (inl (code, e)) ↦
              let l : is_late k.join ≡ true = rw e refl in
              inr (v.worker_ends l, v.supervisor_stops l, late l, inl (code, e))
          | inr (inr e) ↦
              let l : is_late k.join ≡ true = rw e refl in
              inr
                (v.worker_ends l, v.supervisor_stops l, late l, inr (e, v.capture_ends (rw e refl)))
        ],
      )
