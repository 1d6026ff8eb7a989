-- ===== src/Capture/Firewall/Outcomes.antt =====
-- src/capture/firewall_queue_guard.cpp: what the chain and the jumps are after each method.
use ips_with_ai.Prelude.{
  ℕ, ◌<◌, ◌≡◌, refl, ap, Bool, true, false, not, some, List, [], ◌∷◌, arith, if◌then◌else◌, inl,
  inr, ◌⊎◌, Bool-cases, if-branches,
}
use ips_with_ai.Capture.Firewall.{
  pure, ◌>>=◌, Guard, new_guard, remove_chain, remove_current_chain, rollback, set_up,
  install_fresh, install, uninstall,
}
use ips_with_ai.Capture.Firewall.Rules.{
  ChainRule, queue_to, owner, Rules, no_rules, installed_rules, has_owner, Ensures, Ensures-weaken,
  Ensures-bind,
}
use ips_with_ai.Capture.Firewall.Removal.{
  Bounded, Removed, with_chain, with_chain-Bounded, asks, faults, remove_chain-Removed,
}

module _ (fuel : ℕ) where
  abbrev pub Cleared : Guard → Guard × Bool → Rules → Type 0
  Cleared g (g', true) r =
      (g' ≡ record g { installed = false; owns_chain = false }) × (r ≡ no_rules)
  Cleared g (g', false) r = (g' ≡ g) × Bounded fuel r

  cleared :
      (g : Guard) (ok : Bool) (r : Rules)
      → Removed fuel ok r
      → Ensures
          (if ok
            then pure (record g { owns_chain = false; installed = false }, true)
            else pure (g, false))
          (Cleared g)
          r
  cleared g true r h = (refl, h)
  cleared g false r h = (refl, h)

  remove_current_chain-Cleared :
      (g : Guard) (r : Rules) → Bounded fuel r → Ensures (remove_current_chain fuel g) (Cleared g) r
  unfolding remove_current_chain
  remove_current_chain-Cleared g r h =
      Ensures-bind (remove_chain fuel false) _ (Removed fuel) (Cleared g) r
        (remove_chain-Removed fuel false r h) (cleared g)

  -- What `install` comes to, where `Left` holds of the rules if the guard does not own the chain.
  abbrev pub Installs : (Rules → Type 0) → Guard → Guard × Bool → Rules → Type 0
  Installs Left g (g', true) r =
      (g' ≡ record g { installed = true; owns_chain = true }) × (r ≡ installed_rules g.queue_num)
  Installs Left g (g', false) r =
      (g'.installed ≡ false)
      × (((g'.owns_chain ≡ true) × Bounded fuel r) ⊎ ((g'.owns_chain ≡ false) × Left r))

  rolled_back :
      (g : Guard)
      → g.installed ≡ false
      → g.owns_chain ≡ true
      → (x : Guard × Bool) (r : Rules) → Cleared g x r
      → Ensures (pure (x.0, false)) (Installs (λ r. r ≡ no_rules) g) r
  rolled_back g off owns (g', true) r h = ground arith
  rolled_back g off owns (g', false) r h = ground arith

  rollback-Installs :
      (g : Guard) (rules : List ChainRule) (i o : ℕ)
      → g.installed ≡ false
      → g.owns_chain ≡ true
      → i < fuel
      → o < fuel
      → Ensures (rollback fuel g) (Installs (λ r. r ≡ no_rules) g) (with_chain rules i o 0)
  unfolding rollback
  rollback-Installs g rules i o off owns hi ho =
      Ensures-bind (remove_current_chain fuel g) _ (Cleared g) (Installs (λ r. r ≡ no_rules) g)
        (with_chain rules i o 0)
        (remove_current_chain-Cleared g (with_chain rules i o 0)
          (with_chain-Bounded fuel rules i o 0 hi ho))
        (rolled_back g off owns)

  set_up-Installs :
      (g : Guard)
      → g.installed ≡ false
      → g.owns_chain ≡ false
      → 1 < fuel
      → Ensures (set_up fuel g) (Installs (λ r. r ≡ no_rules) g) no_rules
  unfolding set_up ◌>>=◌
  set_up-Installs g off alone h =
      let undo = λ (rules : List ChainRule) (i o : ℕ) (hi : i < fuel) (ho : o < fuel).
        rollback-Installs (record g { owns_chain = true }) rules i o off refl hi ho in
      let marked = queue_to g.queue_num ∷ owner ∷ [] in
      faults (off, inr (alone, refl))
        (faults (undo [] 0 0 (omega arith) (omega arith)) (
          faults (undo (queue_to g.queue_num ∷ []) 0 0 (omega arith) (omega arith)) (
            faults (undo marked 0 0 (omega arith) (omega arith))
              (faults (undo marked 1 0 h (omega arith)) (refl, refl)))))

  no_rules-Bounded : (r : Rules) → 1 < fuel → r ≡ no_rules → Bounded fuel r
  no_rules-Bounded r h e = rw (e) (omega arith, omega arith, λ _. refl)

  Installs-weaken :
      (g : Guard) (x : Guard × Bool) (r : Rules)
      → 1 < fuel
      → Installs (λ r'. r' ≡ no_rules) g x r
      → Installs (Bounded fuel) g x r
  Installs-weaken g (g', true) r lt h = h
  Installs-weaken g (g', false) r lt h = (
    h.0,
    elim h.1 [
      | inl owned ↦ inl owned
      | inr (alone, gone) ↦ inr (alone, no_rules-Bounded r lt gone)
    ],
  )

  fresh :
      (g : Guard) (ok : Bool) (r : Rules)
      → g.installed ≡ false
      → g.owns_chain ≡ false
      → 1 < fuel
      → Removed fuel ok r
      → Ensures (if not ok then pure (g, false) else set_up fuel g) (Installs (Bounded fuel) g) r
  fresh g false r off alone h kept = (off, inr (alone, kept))
  fresh g true r off alone h gone = rw (gone) (
      Ensures-weaken (set_up fuel g) no_rules (λ x r' i. Installs-weaken g x r' h i)
        (set_up-Installs g off alone h))

  install_fresh-Installs :
      (g : Guard) (r : Rules)
      → g.installed ≡ false
      → g.owns_chain ≡ false
      → 1 < fuel
      → Bounded fuel r
      → Ensures (install_fresh fuel g) (Installs (Bounded fuel) g) r
  unfolding install_fresh
  install_fresh-Installs g r off alone h bounded =
      Ensures-bind (remove_chain fuel true) _ (Removed fuel) (Installs (Bounded fuel) g) r
        (remove_chain-Removed fuel true r bounded) (λ ok r' gone. fresh g ok r' off alone h gone)

  -- `install` once `remove_current_chain` came back.
  after_own :
      (g : Guard) (x : Guard × Bool) (r : Rules)
      → g.installed ≡ false
      → g.owns_chain ≡ true
      → 1 < fuel
      → Cleared g x r
      → Ensures
          (if not x.1 then pure (x.0, false) else install_fresh fuel x.0)
          (Installs (Bounded fuel) g)
          r
  after_own g (g', false) r off owns h kept = ground arith
  after_own g (g', true) r off owns h gone = rw (gone.0) (
      install_fresh-Installs (record g { installed = false; owns_chain = false }) r refl refl h
        (no_rules-Bounded r h gone.1))

  pub install-Installs :
      (g : Guard) (r : Rules)
      → g.installed ≡ false
      → 1 < fuel
      → Bounded fuel r
      → Ensures (install fuel g) (Installs (Bounded fuel) g) r
  unfolding install
  install-Installs g r off h bounded = elim (Bool-cases g.owns_chain) [
    | inl owns ↦
        rw (off, owns)
          (let g' = record g { installed = false; owns_chain = true } in
            Ensures-bind (remove_current_chain fuel g') _ (Cleared g') (Installs (Bounded fuel) g')
              r (remove_current_chain-Cleared g' r bounded)
              (λ x r' c. after_own g' x r' refl refl h c))
    | inr alone ↦
        rw (off, alone)
          (install_fresh-Installs (record g { installed = false; owns_chain = false }) r refl refl h
            bounded)
  ]

  pub uninstall-Cleared :
      (g : Guard) (r : Rules)
      → g.owns_chain ≡ true
      → Bounded fuel r
      → Ensures (uninstall fuel g) (Cleared g) r
  unfolding uninstall
  uninstall-Cleared g r owns bounded =
      if-branches (λ p. Ensures p (Cleared g) r) (not g.owns_chain) (λ e. ground arith)
        (λ e. remove_current_chain-Cleared g r bounded)

  -- A chain of another's.
  pub install-foreign_lem :
      (g : Guard) (r : Rules) (rules : List ChainRule)
      → g.installed ≡ false
      → g.owns_chain ≡ false
      → r.chain ≡ some rules
      → has_owner rules ≡ false
      → Ensures (install fuel g) (λ x r'. (x ≡ (g, false)) × (r' ≡ r)) r
  unfolding install install_fresh remove_chain ◌>>=◌
  install-foreign_lem g r rules off alone chain other =
      rw (off, alone, chain) (asks (refl, refl) (asks (refl, refl) (rw (other) (refl, refl))))

  gone : (g : Guard) (x : Guard × Bool) (r : Rules) → Cleared g x r → x.1 ≡ true → r ≡ no_rules
  gone g (g', true) r h e = h.1
  gone g (g', false) r h e = ground arith

  uninstalled :
      (g : Guard) (r : Rules)
      → g.owns_chain ≡ true
      → Bounded fuel r
      → Ensures (uninstall fuel g) (λ x r'. x.1 ≡ true → r' ≡ no_rules) r
  uninstalled g r owns bounded =
      Ensures-weaken (uninstall fuel g) r (gone g) (uninstall-Cleared g r owns bounded)

  uninstall-nothing :
      (g : Guard) (r : Rules)
      → g.owns_chain ≡ false
      → r ≡ no_rules
      → Ensures (uninstall fuel g) (λ x r'. x.1 ≡ true → r' ≡ no_rules) r
  unfolding uninstall
  uninstall-nothing g r alone none_left = rw (alone) (λ e. none_left)

  pub after_install :
      (g : Guard) (x : Guard × Bool) (r : Rules)
      → 1 < fuel
      → Installs (λ r'. r' ≡ no_rules) g x r
      → Ensures (uninstall fuel x.0) (λ y r'. y.1 ≡ true → r' ≡ no_rules) r
  after_install g (g', true) r h (owned, rules) =
      uninstalled g' r (ap (λ y. y.owns_chain) owned)
        (rw (rules) (with_chain-Bounded fuel (queue_to g.queue_num ∷ owner ∷ []) 1 1 0 h h))
  after_install g (g', false) r h (off, left) = elim left [
    | inl (owns, bounded) ↦ uninstalled g' r owns bounded
    | inr (alone, none_left) ↦ uninstall-nothing g' r alone none_left
  ]

  pub install_clean-Installs :
      (n : ℕ)
      → 1 < fuel
      → Ensures (install fuel (new_guard n)) (Installs (λ r. r ≡ no_rules) (new_guard n)) no_rules
  unfolding install install_fresh remove_chain ◌>>=◌
  install_clean-Installs n h =
      asks (refl, inr (refl, refl)) (set_up-Installs (new_guard n) refl refl h)
