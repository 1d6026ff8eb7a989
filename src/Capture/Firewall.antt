-- ===== src/Capture/Firewall.antt =====
-- src/capture/firewall_queue_guard.h and firewall_queue_guard.cpp, `FirewallQueueGuard`: the chain of
-- rules that sends packets to the queue, set up and taken down by runs of iptables. A function is a
-- program of such runs: `run` hands a command out and goes on with its exit status, and `exec` runs a
-- program against an iptables, which is a parameter, as are fork and exec. The loop over the jumps has
-- fuel, and `out_of_fuel` where that is used up. The log is left out.
pub mod Rules
pub mod Removal
pub mod Outcomes
pub mod Guarantees
pub mod Tests
use Prim.Native.String.{String}
use ips_with_ai.Prelude.{
  ℕ, zero, suc, ◌≡◌, Bool, true, false, ◌&&◌, ◌||◌, not, Option, none, some, ◌==◌, if◌then◌else◌,
}

pub data BuiltinChain : Type 0 where
  input output : BuiltinChain

-- The arguments of the runs. The jump and the owner's rule are told by their comments.
pub data Command : Type 0 where
  list_chain check_owner append_owner new_chain flush_chain delete_chain : Command
  append_queue : (queue_num : ℕ) → Command
  check_jump delete_jump insert_jump : BuiltinChain → Command

-- What `run_iptables` returns: `failed` is -1.
pub data Exit : Type 0 where
  exited : ℕ → Exit
  failed : Exit

abbrev pub is_zero : Exit → Bool
is_zero (exited zero) = true
is_zero (exited (suc n)) = false
is_zero failed = false

abbrev pub is_one : Exit → Bool
is_one (exited zero) = false
is_one (exited (suc zero)) = true
is_one (exited (suc (suc n))) = false
is_one failed = false

pub data Program (A : Type 0) : Type 0 where
  pure : A → Program A
  run : Command → (Exit → Program A) → Program A
  out_of_fuel : Program A

infixl 5 ◌>>=◌
unfoldable pub ◌>>=◌ : {A B : Type 0} → Program A → (A → Program B) → Program B
pure a >>= f = f a
run c k >>= f = run c (λ e. k e >>= f)
out_of_fuel >>= f = out_of_fuel

unfoldable pub exec : {W A : Type 0} → (W → Command → W × Exit) → Program A → W → Option (A × W)
exec iptables (pure a) w = some (a, w)
exec iptables (run c k) w = let (w', e) = iptables w c in exec iptables (k e) w'
exec iptables out_of_fuel w = none

pub record Guard : Type 0 where
  pub queue_num : ℕ
  pub installed : Bool
  pub owns_chain : Bool

abbrev pub new_guard : ℕ → Guard
new_guard queue_num = record { queue_num = queue_num; installed = false; owns_chain = false }

-- A run that has to exit with 0.
abbrev pub succeeds : Command → Program Bool
succeeds c = run c (λ e. pure (is_zero e))

unfoldable pub remove_managed_jumps : ℕ → BuiltinChain → Program Bool
remove_managed_jumps zero b = out_of_fuel
remove_managed_jumps (suc fuel) b = run (check_jump b) λ check_status.
    if is_one check_status
    then pure true
    else if not (is_zero check_status)
    then pure false
    else run (delete_jump b)
        λ status. elim (is_zero status) [ true ↦ remove_managed_jumps fuel b | false ↦ pure false ]

-- `remove_chain` where `-X` failed.
unfoldable pub restore_owner : Program Bool
restore_owner = run list_chain λ remaining_status.
    if is_one remaining_status
    then pure true
    else if not (is_zero remaining_status)
    then pure false
    else run append_owner (λ status. pure false)

-- `remove_chain` from the flush on.
unfoldable pub flush_and_delete : Program Bool
flush_and_delete = do
  flushed ← succeeds flush_chain
  if not flushed
      then pure false
      else (do deleted ← succeeds delete_chain; if deleted then pure true else restore_owner)

-- `remove_chain` from the removal of the jumps on.
unfoldable pub take_down : ℕ → Program Bool
take_down fuel = do
  from_input ← remove_managed_jumps fuel input
  if not from_input then pure false else (do
    from_output ← remove_managed_jumps fuel output
    if not from_output then pure false else flush_and_delete)

unfoldable pub remove_chain : ℕ → Bool → Program Bool
remove_chain fuel require_owner_marker = run list_chain λ chain_status.
    if is_one chain_status
    then pure true
    else if not (is_zero chain_status)
    then pure false
    else if require_owner_marker
    then run check_owner
        (λ owner_status. if is_zero owner_status then take_down fuel else pure false)
    else take_down fuel

-- Each method gives the guard back, with its result.
unfoldable pub remove_current_chain : ℕ → Guard → Program (Guard × Bool)
remove_current_chain fuel g = do
  removed ← remove_chain fuel false
  if removed
      then pure (record g { owns_chain = false; installed = false }, true)
      else pure (g, false)

-- The end of `install` on an error once the chain is made.
unfoldable pub rollback : ℕ → Guard → Program (Guard × Bool)
rollback fuel g = do r ← remove_current_chain fuel g; pure (r.0, false)

-- `install` from the creation of the chain on.
unfoldable pub set_up : ℕ → Guard → Program (Guard × Bool)
set_up fuel g = do
  made ← succeeds new_chain
  if not made then pure (g, false) else (do
    let owner = record g { owns_chain = true }
    queued ← succeeds (append_queue g.queue_num)
    if not queued then rollback fuel owner else (do
      marked ← succeeds append_owner
      if not marked then rollback fuel owner else (do
        jumped_in ← succeeds (insert_jump input)
        if not jumped_in then rollback fuel owner else (do
          jumped_out ← succeeds (insert_jump output)
          if not jumped_out
              then rollback fuel owner
              else pure (record owner { installed = true }, true)))))

-- `install` once an own chain of before is gone.
unfoldable pub install_fresh : ℕ → Guard → Program (Guard × Bool)
install_fresh fuel g = do
  removed ← remove_chain fuel true
  if not removed then pure (g, false) else set_up fuel g

unfoldable pub install : ℕ → Guard → Program (Guard × Bool)
install fuel g =
    if g.installed
    then pure (g, true)
    else if g.owns_chain
    then (do
      r ← remove_current_chain fuel g
      if not r.1 then pure (r.0, false) else install_fresh fuel r.0)
    else install_fresh fuel g

unfoldable pub uninstall : ℕ → Guard → Program (Guard × Bool)
uninstall fuel g = if not g.owns_chain then pure (g, true) else remove_current_chain fuel g
