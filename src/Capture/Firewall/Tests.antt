-- ===== src/Capture/Firewall/Tests.antt =====
-- Runs of src/capture/firewall_queue_guard.cpp on an iptables that keeps the rules in its state, and one
-- run of which fails.
use ips_with_ai.Prelude.{ℕ, zero, suc, ◌≡◌, refl, true, false, [], ◌∷◌, inl, inr, ◌⊎◌, arith}
use ips_with_ai.Capture.Firewall.{Command, Exit, exited, Guard, new_guard, install}
use ips_with_ai.Capture.Firewall.Rules.{
  Rules, no_rules, foreign, apply_command, Documented, Ends, IsFault, is_query,
}
use ips_with_ai.Capture.Firewall.Removal.{Bounded, with_chain}
use ips_with_ai.Capture.Firewall.Outcomes.{Installs}
use ips_with_ai.Capture.Firewall.Guarantees.{install-Ends, install-foreign}

-- The number is that of the run that fails, counted down.
abbrev pub iptables : Rules × ℕ → Command → (Rules × ℕ) × Exit
iptables (r, zero) c = (((apply_command c r).0, 0), (apply_command c r).1)
iptables (r, suc zero) c = ((r, 0), exited 4)
iptables (r, suc (suc n)) c = (((apply_command c r).0, suc n), (apply_command c r).1)

abbrev pub view : Rules × ℕ → Rules
view w = w.0

iptables-Documented_run :
    (w : Rules × ℕ) (c : Command)
    → (IsFault (is_query c) (iptables w c).1 × (view (iptables w c).0 ≡ view w))
      ⊎ ((view (iptables w c).0, (iptables w c).1) ≡ apply_command c (view w))
iptables-Documented_run (r, zero) c = inr refl
iptables-Documented_run (r, suc zero) c = inl (tt, refl)
iptables-Documented_run (r, suc (suc n)) c = inr refl

pub iptables-Documented : Documented iptables view
iptables-Documented = record { runs = iptables-Documented_run }

-- The sixth run is the one that inserts the jump from OUTPUT.
install-Ends_example :
    Ends iptables view
      (install 2 (new_guard 5))
      (Installs 2 (Bounded 2) (new_guard 5))
      (no_rules, 6)
install-Ends_example =
    install-Ends iptables-Documented 2 (new_guard 5) (no_rules, 6) refl (omega arith)
      (omega arith, omega arith, λ e. refl)

abbrev others : Rules
others = with_chain (foreign ∷ []) 0 1 2

install-foreign_example :
    Ends iptables view
      (install 2 (new_guard 5))
      (λ x r. (x ≡ (new_guard 5, false)) × (r ≡ others))
      (others, 0)
install-foreign_example =
    install-foreign iptables-Documented 2 (new_guard 5) (others, 0) refl refl
      (foreign ∷ [], refl, refl)

abbrev holder : Guard
holder = record { queue_num = 5; installed = true; owns_chain = true }
