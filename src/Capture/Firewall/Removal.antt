-- ===== src/Capture/Firewall/Removal.antt =====
-- src/capture/firewall_queue_guard.cpp: what the removal of the chain leaves.
use ips_with_ai.Prelude.{
  ℕ, zero, suc, ◌≤◌, ◌<◌, ◌≡◌, refl, Bool, true, false, Option, none, some, List, [], ◌∷◌, arith,
  inl, inr, ◌≢◌, Bool-cases,
}
use ips_with_ai.Capture.Firewall.{
  input, output, ◌>>=◌, remove_managed_jumps, restore_owner, take_down, flush_and_delete,
  remove_chain,
}
use ips_with_ai.Capture.Firewall.Rules.{
  ChainRule, owner, Rules, no_rules, has_owner, Ensures, Ensures->>=,
}

-- Nothing jumps to a chain that is not there, and the fuel is enough for the jumps.
abbrev pub Bounded : ℕ → Rules → Type 0
Bounded fuel r =
    (r.input_jumps < fuel) × (r.output_jumps < fuel) × ((r.chain ≡ none) → r ≡ no_rules)

abbrev pub Removed : ℕ → Bool → Rules → Type 0
Removed fuel true r = r ≡ no_rules
Removed fuel false r = Bounded fuel r

-- The rules of a chain that is there.
abbrev pub with_chain : List ChainRule → ℕ → ℕ → ℕ → Rules
with_chain rules i o others = record {
  chain = some rules;
  input_jumps = i;
  output_jumps = o;
  other_jumps = others;
}

pub with_chain-Bounded :
    (fuel : ℕ) (rules : List ChainRule) (i o others : ℕ)
    → i < fuel
    → o < fuel
    → Bounded fuel (with_chain rules i o others)
with_chain-Bounded fuel rules i o others hi ho = (hi, ho, λ e. ground arith)

true≢false : true ≢ false
true≢false e = ground arith

-- What holds after every fault and after the run that does not fail, of a run that asks and of one that
-- changes something.
pub asks : {P X R : Type 0} → P → R → P × (ℕ → P) × ((true ≡ false) → X) × R
asks p r = (p, λ _. p, λ e. elim (true≢false e) [ ], r)

pub faults : {P R : Type 0} → P → R → P × (ℕ → P) × ((false ≡ false) → P) × R
faults p r = (p, λ _. p, λ _. p, r)

module _ (rules : List ChainRule) (others : ℕ) (Q : Bool → Rules → Type 0) where
  remove_managed_jumps-input :
      (fuel i o : ℕ)
      → i < fuel
      → Q true (with_chain rules 0 o others)
      → ((j : ℕ) → j ≤ i → Q false (with_chain rules j o others))
      → Ensures (remove_managed_jumps fuel input) Q (with_chain rules i o others)
  unfolding remove_managed_jumps
  remove_managed_jumps-input zero i o h t q = ground arith
  remove_managed_jumps-input (suc n) zero o h t q = asks (q 0 (omega arith)) t
  remove_managed_jumps-input (suc n) (suc i) o h t q =
      let stuck = q (suc i) (omega arith) in
      asks stuck (
        faults stuck (remove_managed_jumps-input n i o (omega arith) t (λ j le. q j (omega arith))))

  remove_managed_jumps-output :
      (fuel i o : ℕ)
      → o < fuel
      → Q true (with_chain rules i 0 others)
      → ((j : ℕ) → j ≤ o → Q false (with_chain rules i j others))
      → Ensures (remove_managed_jumps fuel output) Q (with_chain rules i o others)
  unfolding remove_managed_jumps
  remove_managed_jumps-output zero i o h t q = ground arith
  remove_managed_jumps-output (suc n) i zero h t q = asks (q 0 (omega arith)) t
  remove_managed_jumps-output (suc n) i (suc o) h t q =
      let stuck = q (suc o) (omega arith) in
      asks stuck (
        faults stuck
          (remove_managed_jumps-output n i o (omega arith) t (λ j le. q j (omega arith))))

module _ (fuel : ℕ) where
  kept :
      (rules : List ChainRule) (others : ℕ) → 0 < fuel → Bounded fuel (with_chain rules 0 0 others)
  kept rules others h = with_chain-Bounded fuel rules 0 0 others h h

  flush_and_delete-Removed :
      (rules : List ChainRule) (others : ℕ)
      → 0 < fuel
      → Ensures flush_and_delete (Removed fuel) (with_chain rules 0 0 others)
  unfolding ◌>>=◌ flush_and_delete restore_owner
  flush_and_delete-Removed rules zero h =
      faults (kept rules 0 h)
        (faults (asks (kept [] 0 h) (faults (kept [] 0 h) (kept (owner ∷ []) 0 h))) refl)
  flush_and_delete-Removed rules (suc n) h =
      let restored =
        asks (kept [] (suc n) h) (faults (kept [] (suc n) h) (kept (owner ∷ []) (suc n) h)) in
      faults (kept rules (suc n) h) (faults restored restored)

  take_down-Removed :
      (rules : List ChainRule) (i o others : ℕ)
      → i < fuel
      → o < fuel
      → Ensures (take_down fuel) (Removed fuel) (with_chain rules i o others)
  unfolding take_down
  take_down-Removed rules i o others hi ho =
      Ensures->>= (remove_managed_jumps fuel input) _ (Removed fuel) (with_chain rules i o others) (
        remove_managed_jumps-input rules others _ fuel i o hi
          (Ensures->>= (remove_managed_jumps fuel output) _ (Removed fuel)
            (with_chain rules 0 o others)
            (remove_managed_jumps-output rules others _ fuel 0 o ho
              (flush_and_delete-Removed rules others (omega arith))
              (λ j le. with_chain-Bounded fuel rules 0 j others (omega arith) (omega arith))))
          (λ j le. with_chain-Bounded fuel rules j o others (omega arith) ho))

  remove_chain-Removed_at :
      (marked : Bool) (chain : Option (List ChainRule)) (i o others : ℕ)
      → Bounded fuel
          (record { chain = chain; input_jumps = i; output_jumps = o; other_jumps = others })
      → Ensures
          (remove_chain fuel marked)
          (Removed fuel)
          (record { chain = chain; input_jumps = i; output_jumps = o; other_jumps = others })
  unfolding remove_chain
  remove_chain-Removed_at marked none i o others h = asks h (h.2 refl)
  remove_chain-Removed_at false (some rules) i o others h =
      asks h (take_down-Removed rules i o others h.0 h.1)
  remove_chain-Removed_at true (some rules) i o others h = elim (Bool-cases (has_owner rules)) [
    | inl e ↦ asks h (asks h (rw (e) (take_down-Removed rules i o others h.0 h.1)))
    | inr e ↦ asks h (asks h (rw (e) h))
  ]

  pub remove_chain-Removed :
      (marked : Bool) (r : Rules)
      → Bounded fuel r
      → Ensures (remove_chain fuel marked) (Removed fuel) r
  remove_chain-Removed marked r h =
      remove_chain-Removed_at marked r.chain r.input_jumps r.output_jumps r.other_jumps h
