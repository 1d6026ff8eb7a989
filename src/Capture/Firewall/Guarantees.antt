-- ===== src/Capture/Firewall/Guarantees.antt =====
-- src/capture/firewall_queue_guard.cpp: the methods, run by an iptables that keeps to its documentation
-- and may fail at any run.
use ips_with_ai.Prelude.{ℕ, ◌<◌, ◌≡◌, true, false, some, List}
use ips_with_ai.Capture.Firewall.{Command, Exit, ◌>>=◌, Guard, new_guard, install, uninstall}
use ips_with_ai.Capture.Firewall.Rules.{
  ChainRule, Rules, no_rules, has_owner, Documented, Ensures-bind, exec-Ensures, Ends,
}
use ips_with_ai.Capture.Firewall.Removal.{Bounded}
use ips_with_ai.Capture.Firewall.Outcomes.{
  Cleared, Installs, after_install, install-Installs, uninstall-Cleared, install-foreign_lem,
  install_clean-Installs,
}

-- The rules of another user's chain: no owner's rule is among them.
abbrev IsForeign : Rules → Type 0
IsForeign r = (rules : List ChainRule) × (r.chain ≡ some rules) × (has_owner rules ≡ false)

module _ {W : Type 0} {iptables : W → Command → W × Exit} {view : W → Rules}
    (documented : Documented iptables view) (fuel : ℕ) where
  -- With an iptables that keeps to its documentation and may fail at any run, from a guard that has not
  -- installed and from rules in which nothing jumps to a chain that is not there: `install` comes to an
  -- end, with fuel for two jumps and for those there are. If it returns true, then the guard has
  -- installed and owns the chain, the chain is the queue's rule and the owner's mark, and INPUT and
  -- OUTPUT jump to it once each and nothing else does. If not, then the guard has not installed, and
  -- still nothing jumps to a chain that is not there.
  pub install-Ends :
      (g : Guard) (w : W)
      → g.installed ≡ false
      → 1 < fuel
      → Bounded fuel (view w)
      → Ends iptables view (install fuel g) (Installs fuel (Bounded fuel) g) w
  install-Ends g w off h bounded =
      exec-Ensures documented (install fuel g) (Installs fuel (Bounded fuel) g) w
        (install-Installs fuel g (view w) off h bounded)

  -- With an iptables that keeps to its documentation and may fail at any run, a guard that has not
  -- installed and owns no chain leaves a chain without the owner's mark as it is:
  -- `install` comes to an end, returns false and changes neither the rules nor the guard.
  pub install-foreign :
      (g : Guard) (w : W)
      → g.installed ≡ false
      → g.owns_chain ≡ false
      → IsForeign (view w)
      → Ends iptables view (install fuel g) (λ x r. (x ≡ (g, false)) × (r ≡ view w)) w
  install-foreign g w off alone (rules, chain, other) =
      exec-Ensures documented (install fuel g) (λ x r. (x ≡ (g, false)) × (r ≡ view w)) w
        (install-foreign_lem fuel g (view w) rules off alone chain other)

  -- With such an iptables, and rules in which nothing jumps to a chain that is not there, a guard that
  -- owns the chain has `uninstall` come to an end, with fuel for the jumps there are. If it
  -- returns true, then no chain and no jump is left and the guard is as if new; if not, then the guard is
  -- as it was, and a chain that is not there is jumped to by nothing.
  pub uninstall-Ends :
      (g : Guard) (w : W)
      → g.owns_chain ≡ true
      → Bounded fuel (view w)
      → Ends iptables view (uninstall fuel g) (Cleared fuel g) w
  uninstall-Ends g w owns bounded =
      exec-Ensures documented (uninstall fuel g) (Cleared fuel g) w
        (uninstall-Cleared fuel g (view w) owns bounded)

  -- With an iptables that keeps to its documentation and may fail at any run, from no rules and with
  -- fuel for two jumps, a new guard's `install` and then `uninstall` come to an end,
  -- and when `uninstall` returns true no rules are left, whatever `install` returned and whichever of the
  -- runs failed.
  pub install-uninstall :
      (n : ℕ) (w : W)
      → 1 < fuel
      → view w ≡ no_rules
      → Ends iptables view
          (install fuel (new_guard n) >>= λ x. uninstall fuel x.0)
          (λ x r. x.1 ≡ true → r ≡ no_rules)
          w
  install-uninstall n w h clean =
      exec-Ensures documented (install fuel (new_guard n) >>= λ x. uninstall fuel x.0)
        (λ x r. x.1 ≡ true → r ≡ no_rules) w
        (rw (clean) (
          Ensures-bind (install fuel (new_guard n)) (λ x. uninstall fuel x.0)
            (Installs fuel (λ r. r ≡ no_rules) (new_guard n)) _ no_rules
            (install_clean-Installs fuel n h) (λ x r i. after_install fuel (new_guard n) x r h i)))
