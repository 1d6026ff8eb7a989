-- ===== src/Capture/Start/Tidy.antt =====
-- src/capture/packet_capture.cpp, `PacketCapture::start`: what it leaves behind.
use ips_with_ai.Prelude.{
  ℕ, ◌<◌, ◌≡◌, refl, Bool, true, false, ◌&&◌, not, none, some, List, if◌then◌else◌, arith,
  if-branches, sym, ap, ◌∙◌,
}
use ips_with_ai.Capture.Firewall.{pure, Command, Exit, Guard, new_guard, install, uninstall}
use ips_with_ai.Capture.Firewall.Rules.{
  Rules, no_rules, installed_rules, Documented, Ensures, Ensures-bind, exec-Ensures, Ends,
}
use ips_with_ai.Capture.Firewall.Outcomes.{Installs, after_install, install_clean-Installs}
use ips_with_ai.Capture.Source.{
  PacketSource, new_source, open_source, close, loop, Turn, Outcome, ended, blocked,
}
use ips_with_ai.Capture.Source.Handles.{
  after_calls, nothing, new_source-Inv, open_source-Inv, open_source-failed,
  open_source-stop_requested, turns-Inv, close-freed, Inv, Inv-freed,
}
use ips_with_ai.Capture.Source.Turns.{ended_with, first_end, loop-first_end}
use ips_with_ai.Capture.Start.{Surroundings, Started, finish_capture, start_capture}

all_three : (a b c : Bool) → some (a && (b && c)) ≡ some true → (a ≡ true) × (b ≡ true)
all_three a b c e = ground arith

not-true : (b : Bool) → not b ≡ true → b ≡ false
not-true b e = ground arith

fresh_handle : (n : ℕ) → (new_source n).handle ≡ false
unfolding new_source
fresh_handle n = refl

fresh_stop : (n : ℕ) → (new_source n).stop_requested ≡ false
unfolding new_source
fresh_stop n = refl

-- With a result, all that was made of the library's is freed; with true, a stop ended the loop and no
-- rules are left; without, no stop and no failure came, and the rules are there.
pub record Tidy (n : ℕ) (turns : List Turn) (x : Started) (r : Rules) : Type 0 where
  pub freed :
      (b : Bool) → x.result ≡ some b → after_calls (some nothing) x.source.calls ≡ some nothing
  pub succeeded : x.result ≡ some true → (first_end turns ≡ some true) × (r ≡ no_rules)
  pub waiting : x.result ≡ none → (first_end turns ≡ none) × (r ≡ installed_rules n)

module _ (fuel n : ℕ) (h : 1 < fuel) (x : Surroundings) where
  failed-Tidy :
      (s : PacketSource) (g : Guard) (r : Rules)
      → after_calls (some nothing) s.calls ≡ some nothing
      → Tidy n x.turns (record { source = s; firewall = g; result = some false }) r
  failed-Tidy s g r freed = record {
    freed = λ b e. freed;
    succeeded = λ e. ground arith;
    waiting = λ e. ground arith;
  }

  finish_capture-Tidy :
      (s : PacketSource) (g : Guard) (outcome : Outcome) (r : Rules)
      → Inv s
      → ended_with outcome ≡ first_end x.turns
      → r ≡ installed_rules n
      → Ensures (uninstall fuel g) (λ y r'. y.1 ≡ true → r' ≡ no_rules) r
      → Ensures (finish_capture fuel x s g outcome) (Tidy n x.turns) r
  unfolding finish_capture
  finish_capture-Tidy s g (blocked l) r i ends rules undo = record {
    freed = λ b e. ground arith;
    succeeded = λ e. ground arith;
    waiting = λ e. (sym ends, rules);
  }
  finish_capture-Tidy s g (ended ok) r i ends rules undo =
      Ensures-bind (uninstall fuel g) _ (λ y r'. y.1 ≡ true → r' ≡ no_rules) (Tidy n x.turns) r undo
        λ y r' gone. record {
          freed = λ b e. close-freed s x.closing i;
          succeeded = λ e.
              let p = all_three ok y.1 (close s x.closing).1 e in
              (sym ends ∙ ap some p.0, gone p.1);
          waiting = λ e. ground arith;
        }

  installed-Tidy :
      (s : PacketSource) (i : Guard × Bool) (r : Rules)
      → Inv s
      → s.stop_requested ≡ false
      → Installs fuel (λ r'. r' ≡ no_rules) (new_guard n) i r
      → Ensures
          (if not i.1
            then pure
                (record { source = (close s x.closing).0; firewall = i.0; result = some false })
            else finish_capture fuel x
                (loop true s x.start x.log_start x.turns).0
                i.0
                (loop true s x.start x.log_start x.turns).2)
          (Tidy n x.turns)
          r
  unfolding loop
  installed-Tidy s (g, false) r inv going undone =
      failed-Tidy (close s x.closing).0 g r (close-freed s x.closing inv)
  installed-Tidy s (g, true) r inv going done =
      finish_capture-Tidy (loop true s x.start x.log_start x.turns).0 g
        (loop true s x.start x.log_start x.turns).2 r
        (turns-Inv true _ _ x.turns (record { traced = inv.traced; nested = inv.nested }))
        (loop-first_end true s x.start x.log_start x.turns going).0 done.1
        (after_install fuel (new_guard n) (g, true) r h done)

  start_capture-Ensures :
      Ensures (start_capture fuel x (new_source n) (new_guard n)) (Tidy n x.turns) no_rules
  unfolding start_capture
  start_capture-Ensures =
      let o = open_source (new_source n) x.opening x.failed_closing in
      let inv =
        open_source-Inv (new_source n) x.opening x.failed_closing (fresh_handle n)
          (new_source-Inv n) in
      if-branches (λ p. Ensures p (Tidy n x.turns) no_rules) (not o.1)
        (λ e. failed-Tidy o.0 (new_guard n) no_rules (
          Inv-freed o.0
            (open_source-failed (new_source n) x.opening x.failed_closing (not-true o.1 e)) inv))
        (λ e.
          Ensures-bind (install fuel (new_guard n)) _
            (Installs fuel (λ r. r ≡ no_rules) (new_guard n)) (Tidy n x.turns) no_rules
            (install_clean-Installs fuel n h)
            (λ i r done.
              installed-Tidy o.0 i r inv
                (open_source-stop_requested (new_source n) x.opening x.failed_closing
                  ∙ fresh_stop n)
                done))

-- A new source and a new guard for the queue `n`, from no rules, with fuel for two jumps and an iptables
-- that keeps to its documentation and may fail at any run: `start` comes to an end or waits in the
-- loop. With a result, each handle and queue that was made was freed once; with the result true, the
-- loop was ended by a stop and no rules are left; while it waits, no stop and no failure has come and
-- the rules are those of the queue.
pub start_capture-Tidy :
    {W : Type 0} {iptables : W → Command → W × Exit} {view : W → Rules}
    → Documented iptables view
    → (fuel n : ℕ) → 1 < fuel
    → (x : Surroundings) (w : W) → view w ≡ no_rules
    → Ends iptables view (start_capture fuel x (new_source n) (new_guard n)) (Tidy n x.turns) w
start_capture-Tidy documented fuel n h x w clean =
    exec-Ensures documented (start_capture fuel x (new_source n) (new_guard n)) (Tidy n x.turns) w
      (rw (clean) (start_capture-Ensures fuel n h x))
