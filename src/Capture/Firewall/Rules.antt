-- ===== src/Capture/Firewall/Rules.antt =====
-- The rules that src/capture/firewall_queue_guard.cpp has iptables change, what iptables documents of
-- the runs, and a logic of programs of such runs: `Ensures p Q r` says that `p` comes to an end from the
-- rules `r` with `Q`, however many of its runs fail.
use ips_with_ai.Prelude.{
  ℕ, zero, suc, ◌≡◌, refl, sym, subst, Bool, true, false, Option, none, some, List, [], ◌∷◌, ◌++◌,
  is_some, inl, inr, ◌⊎◌,
}
use ips_with_ai.Capture.Firewall.{
  BuiltinChain, input, output, Command, list_chain, check_owner, append_owner, new_chain,
  flush_chain, delete_chain, append_queue, check_jump, delete_jump, insert_jump, Exit, exited,
  failed, Program, pure, run, out_of_fuel, ◌>>=◌, exec,
}

pub data ChainRule : Type 0 where
  queue_to : ℕ → ChainRule
  owner : ChainRule
  foreign : ChainRule

-- The chain, if there is one, and how many rules jump to it: from INPUT and OUTPUT with the comment,
-- and any others.
pub record Rules : Type 0 where
  pub chain : Option (List ChainRule)
  pub input_jumps : ℕ
  pub output_jumps : ℕ
  pub other_jumps : ℕ

abbrev pub no_rules : Rules
no_rules = record { chain = none; input_jumps = 0; output_jumps = 0; other_jumps = 0 }

abbrev pub installed_rules : ℕ → Rules
installed_rules n = record {
  chain = some (queue_to n ∷ owner ∷ []);
  input_jumps = 1;
  output_jumps = 1;
  other_jumps = 0;
}

abbrev pub has_owner : List ChainRule → Bool
has_owner [] = false
has_owner (owner ∷ rules) = true
has_owner (queue_to n ∷ rules) = has_owner rules
has_owner (foreign ∷ rules) = has_owner rules

abbrev pub jumps : BuiltinChain → Rules → ℕ
jumps input r = r.input_jumps
jumps output r = r.output_jumps

abbrev pub set_jumps : BuiltinChain → ℕ → Rules → Rules
set_jumps input n r = record r { input_jumps = n }
set_jumps output n r = record r { output_jumps = n }

abbrev exit_if : Bool → Exit
exit_if true = exited 0
exit_if false = exited 1

abbrev append : ChainRule → Rules → Option (List ChainRule) → Rules × Exit
append rule r none = (r, exited 1)
append rule r (some rules) = (record r { chain = some (rules ++ rule ∷ []) }, exited 0)

abbrev check_owner_in : Rules → Option (List ChainRule) → Rules × Exit
check_owner_in r none = (r, exited 1)
check_owner_in r (some rules) = (r, exit_if (has_owner rules))

abbrev make : Rules → Option (List ChainRule) → Rules × Exit
make r none = (record r { chain = some [] }, exited 0)
make r (some rules) = (r, exited 1)

abbrev flush : Rules → Option (List ChainRule) → Rules × Exit
flush r none = (r, exited 1)
flush r (some rules) = (record r { chain = some [] }, exited 0)

-- A chain goes only when it is empty and nothing jumps to it.
abbrev drop_chain : Rules → Option (List ChainRule) → ℕ → ℕ → ℕ → Rules × Exit
drop_chain r (some []) zero zero zero = (record r { chain = none }, exited 0)
drop_chain r _ _ _ _ = (r, exited 1)

-- A jump to a chain that is not there is an error of its own.
abbrev check_count : Rules → Option (List ChainRule) → ℕ → Rules × Exit
check_count r none n = (r, exited 2)
check_count r (some rules) zero = (r, exited 1)
check_count r (some rules) (suc n) = (r, exited 0)

abbrev remove_one : BuiltinChain → Rules → Option (List ChainRule) → ℕ → Rules × Exit
remove_one b r none n = (r, exited 2)
remove_one b r (some rules) zero = (r, exited 1)
remove_one b r (some rules) (suc n) = (set_jumps b n r, exited 0)

abbrev insert_one : BuiltinChain → Rules → Option (List ChainRule) → Rules × Exit
insert_one b r none = (r, exited 2)
insert_one b r (some rules) = (set_jumps b (suc (jumps b r)) r, exited 0)

-- A run that does not fail.
abbrev pub apply_command : Command → Rules → Rules × Exit
apply_command list_chain r = (r, exit_if (is_some r.chain))
apply_command check_owner r = check_owner_in r r.chain
apply_command append_owner r = append owner r r.chain
apply_command new_chain r = make r r.chain
apply_command flush_chain r = flush r r.chain
apply_command delete_chain r = drop_chain r r.chain r.input_jumps r.output_jumps r.other_jumps
apply_command (append_queue n) r = append (queue_to n) r r.chain
apply_command (check_jump b) r = check_count r r.chain (jumps b r)
apply_command (delete_jump b) r = remove_one b r r.chain (jumps b r)
apply_command (insert_jump b) r = insert_one b r r.chain

-- The runs that only ask: their exit status 1 is an answer.
abbrev pub is_query : Command → Bool
is_query list_chain = true
is_query check_owner = true
is_query (check_jump b) = true
is_query _ = false

-- An error: a status of 2 or more, a run that came to none, and for a run that changes something also 1.
abbrev pub IsFault : Bool → Exit → Type 0
IsFault query failed = Unit
IsFault query (exited (suc (suc n))) = Unit
IsFault true (exited (suc zero)) = ⊥
IsFault false (exited (suc zero)) = Unit
IsFault query (exited zero) = ⊥

-- A run changes and answers as documented, or ends with an error and changes nothing.
pub record Documented {W : Type 0} (iptables : W → Command → W × Exit) (view : W → Rules)
    : Type 0 where
  pub runs :
      (w : W) (c : Command)
      → (IsFault (is_query c) (iptables w c).1 × (view (iptables w c).0 ≡ view w))
        ⊎ ((view (iptables w c).0, (iptables w c).1) ≡ apply_command c (view w))

abbrev pub Ensures : {A : Type 0} → Program A → (A → Rules → Type 0) → Rules → Type 0
Ensures (pure a) Q r = Q a r
Ensures (run c k) Q r =
    Ensures (k failed) Q r
    × ((n : ℕ) → Ensures (k (exited (suc (suc n)))) Q r)
    × ((is_query c ≡ false) → Ensures (k (exited 1)) Q r)
    × Ensures (k (apply_command c r).1) Q (apply_command c r).0
Ensures out_of_fuel Q r = ⊥

pub Ensures->>= :
    {A B : Type 0} (p : Program A) (f : A → Program B) (Q : B → Rules → Type 0) (r : Rules)
    → Ensures p (λ a r'. Ensures (f a) Q r') r
    → Ensures (p >>= f) Q r
unfolding ◌>>=◌
Ensures->>= (pure a) f Q r h = h
Ensures->>= (run c k) f Q r (h1, h2, h3, h4) = (
  Ensures->>= (k failed) f Q r h1,
  λ n. Ensures->>= (k (exited (suc (suc n)))) f Q r (h2 n),
  λ e. Ensures->>= (k (exited 1)) f Q r (h3 e),
  Ensures->>= (k (apply_command c r).1) f Q (apply_command c r).0 h4,
)
Ensures->>= out_of_fuel f Q r h = h

pub Ensures-weaken :
    {A : Type 0} (p : Program A) {Q Q' : A → Rules → Type 0} (r : Rules)
    → ((a : A) (r' : Rules) → Q a r' → Q' a r')
    → Ensures p Q r
    → Ensures p Q' r
Ensures-weaken (pure a) r f h = f a r h
Ensures-weaken (run c k) r f (h1, h2, h3, h4) = (
  Ensures-weaken (k failed) r f h1,
  λ n. Ensures-weaken (k (exited (suc (suc n)))) r f (h2 n),
  λ e. Ensures-weaken (k (exited 1)) r f (h3 e),
  Ensures-weaken (k (apply_command c r).1) (apply_command c r).0 f h4,
)
Ensures-weaken out_of_fuel r f h = h

-- What a program goes on with holds of all that its first part may end with.
pub Ensures-bind :
    {A B : Type 0} (p : Program A) (f : A → Program B) (P : A → Rules → Type 0)
    (Q : B → Rules → Type 0) (r : Rules)
    → Ensures p P r
    → ((a : A) (r' : Rules) → P a r' → Ensures (f a) Q r')
    → Ensures (p >>= f) Q r
Ensures-bind p f P Q r h k = Ensures->>= p f Q r (Ensures-weaken p r k h)

-- The same of a program that an iptables runs.
abbrev pub Ends :
    {W A : Type 0}
    → (W → Command → W × Exit)
    → (W → Rules)
    → Program A
    → (A → Rules → Type 0)
    → W
    → Type 0
Ends {W} {A} iptables view p Q w =
    (a : A) × (w' : W) × (exec iptables p w ≡ some (a, w')) × Q a (view w')

-- What follows a run whose exit status is a fault.
abbrev after_fault :
    {A : Type 0} (Q : A → Rules → Type 0) (r : Rules) (k : Exit → Program A) (query : Bool)
    (e : Exit)
    → IsFault query e
    → Ensures (k failed) Q r
    → ((n : ℕ) → Ensures (k (exited (suc (suc n)))) Q r)
    → ((query ≡ false) → Ensures (k (exited 1)) Q r)
    → Ensures (k e) Q r
after_fault Q r k query failed h h1 h2 h3 = h1
after_fault Q r k query (exited (suc (suc n))) h h1 h2 h3 = h2 n
after_fault Q r k query (exited zero) h h1 h2 h3 = elim h [ ]
after_fault Q r k true (exited (suc zero)) h h1 h2 h3 = elim h [ ]
after_fault Q r k false (exited (suc zero)) h h1 h2 h3 = h3 refl

pub exec-Ensures :
    {W A : Type 0} {iptables : W → Command → W × Exit} {view : W → Rules}
    → Documented iptables view
    → (p : Program A) (Q : A → Rules → Type 0) (w : W) → Ensures p Q (view w)
    → Ends iptables view p Q w
unfolding exec
exec-Ensures documented (pure a) Q w h = (a, w, refl, h)
exec-Ensures {iptables} {view} documented (run c k) Q w (h1, h2, h3, h4) =
    let e = (iptables w c).1 in
    let w' = (iptables w c).0 in
    exec-Ensures documented (k e) Q w' (elim (documented.runs w c) [
      | inl (fault, same) ↦
          subst (λ r. Ensures (k e) Q r) (sym same)
            (after_fault Q (view w) k (is_query c) e fault h1 h2 h3)
      | inr same ↦ subst (λ x. Ensures (k x.1) Q x.0) (sym same) h4
    ])
exec-Ensures documented out_of_fuel Q w h = elim h [ ]
