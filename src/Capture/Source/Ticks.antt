-- ===== src/Capture/Source/Ticks.antt =====
-- src/capture/packet_source.cpp: when the loop ticks, and what it logs of overflows.
use ips_with_ai.Prelude.{
  ℕ, suc, ◌+◌, ◌≤◌, ◌≡◌, refl, Bool, true, ◌&&◌, not, List, [], ◌∷◌, ◌++◌, arith, Bool-cases,
  if-branches, inl, inr, u64, leb→le,
}
use ips_with_ai.Common.Clock.{TimePoint, seconds, elapsed}
use ips_with_ai.Capture.Source.{
  PacketSource, stop, message, socket_closed, interrupted, no_buffers, receive_failed, Turn, turn,
  stopped, Action, hand_on, tick, warn_overflows, Loop, count_overflow, receive, tick_if_due,
  Outcome, blocked, turns, loop,
}
use ips_with_ai.Capture.Source.Turns.{turns-stopped}

-- Each tick is a second or more after the one before, and the first after the start.
abbrev pub Spaced : TimePoint → List Action → Type 0
Spaced last [] = Unit
Spaced last (tick now ∷ acts) = (last + seconds 1 ≤ now) × Spaced now acts
Spaced last (hand_on bytes ∷ acts) = Spaced last acts
Spaced last (warn_overflows n ∷ acts) = Spaced last acts

tick_if_due-Spaced :
    (l : Loop) (now : TimePoint) (acts : List Action)
    → Spaced (tick_if_due true l now).0.last_cleanup acts
    → Spaced l.last_cleanup ((tick_if_due true l now).1 ++ acts)
unfolding tick_if_due
tick_if_due-Spaced l now acts = elim (Bool-cases (elapsed now l.last_cleanup 1)) [
  | inl e ↦ rw (e) (λ h. (leb→le (l.last_cleanup + seconds 1) now e, h))
  | inr e ↦ rw (e) (λ h. h)
]

count_overflow-Spaced :
    (l : Loop) (now : TimePoint) (acts : List Action)
    → Spaced (count_overflow l now).0.last_cleanup acts
    → Spaced l.last_cleanup ((count_overflow l now).1 ++ acts)
unfolding count_overflow
count_overflow-Spaced l now acts = elim (Bool-cases (elapsed now l.last_enobufs_log 5)) [
  | inl e ↦ rw (e) (λ h. h)
  | inr e ↦ rw (e) (λ h. h)
]

abbrev IsSpacedFrom : Loop → PacketSource × List Action × Outcome → Type 0
IsSpacedFrom l r = Spaced l.last_cleanup r.1

turns-Spaced : (s : PacketSource) (l : Loop) (ts : List Turn) → IsSpacedFrom l (turns true s l ts)
unfolding turns receive
turns-Spaced s l [] =
    if-branches (IsSpacedFrom l) (s.running && not s.stop_requested) (λ e. tt) (λ e. tt)
turns-Spaced s l (stopped ∷ ts) = turns-Spaced (stop s) l ts
turns-Spaced s l (turn (message bytes) o n ∷ ts) =
    if-branches (IsSpacedFrom l) (not (s.running && not s.stop_requested)) (λ e. tt)
      (λ e.
        tick_if_due-Spaced l n (turns true s (tick_if_due true l n).0 ts).1
          (turns-Spaced s (tick_if_due true l n).0 ts))
turns-Spaced s l (turn socket_closed o n ∷ ts) =
    if-branches (IsSpacedFrom l) (not (s.running && not s.stop_requested)) (λ e. tt) (λ e. tt)
turns-Spaced s l (turn interrupted o n ∷ ts) =
    if-branches (IsSpacedFrom l) (not (s.running && not s.stop_requested)) (λ e. tt)
      (λ e.
        tick_if_due-Spaced l n (turns true s (tick_if_due true l n).0 ts).1
          (turns-Spaced s (tick_if_due true l n).0 ts))
turns-Spaced s l (turn receive_failed o n ∷ ts) =
    if-branches (IsSpacedFrom l) (not (s.running && not s.stop_requested)) (λ e. tt) (λ e. tt)
turns-Spaced s l (turn no_buffers o n ∷ ts) =
    let l' = (count_overflow l o).0 in
    let rest = turns true s (tick_if_due true l' n).0 ts in
    if-branches (IsSpacedFrom l) (not (s.running && not s.stop_requested)) (λ e. tt)
      (λ e.
        count_overflow-Spaced l o ((tick_if_due true l' n).1 ++ rest.1)
          (tick_if_due-Spaced l' n rest.1 (turns-Spaced s (tick_if_due true l' n).0 ts)))

-- With a tick handler, the ticks of a loop are a second apart or more, the first from the reading at the
-- loop's start.
pub loop-Spaced :
    (s : PacketSource) (start log_start : TimePoint) (ts : List Turn)
    → Spaced start (loop true s start log_start ts).1
unfolding loop
loop-Spaced s start log_start ts =
    turns-Spaced (record s { running = true })
      (record { last_cleanup = start; last_enobufs_log = log_start; enobufs_since_log = 0 }) ts

abbrev pub warned : List Action → ℕ
warned [] = 0
warned (warn_overflows n ∷ acts) = n + warned acts
warned (hand_on bytes ∷ acts) = warned acts
warned (tick now ∷ acts) = warned acts

abbrev pub overflows : List Turn → ℕ
overflows [] = 0
overflows (turn no_buffers o n ∷ ts) = suc (overflows ts)
overflows (turn (message bytes) o n ∷ ts) = overflows ts
overflows (turn socket_closed o n ∷ ts) = overflows ts
overflows (turn interrupted o n ∷ ts) = overflows ts
overflows (turn receive_failed o n ∷ ts) = overflows ts
overflows (stopped ∷ ts) = overflows ts

warned-++ : (a b : List Action) → warned (a ++ b) ≡ warned a + warned b
warned-++ [] b = omega arith
warned-++ (warn_overflows n ∷ a) b = grind (arith, warned-++ a b)
warned-++ (hand_on bytes ∷ a) b = warned-++ a b
warned-++ (tick now ∷ a) b = warned-++ a b

warned-tick_if_due :
    (has_tick : Bool) (l : Loop) (now : TimePoint)
    → (warned (tick_if_due has_tick l now).1 ≡ 0)
      × ((tick_if_due has_tick l now).0.enobufs_since_log ≡ l.enobufs_since_log)
unfolding tick_if_due
warned-tick_if_due has_tick l now = ground arith

warned-count_overflow :
    (l : Loop) (now : TimePoint)
    → warned (count_overflow l now).1 + (count_overflow l now).0.enobufs_since_log
      ≡ u64 (l.enobufs_since_log + 1)
unfolding count_overflow
warned-count_overflow l now = ground arith

-- Every overflow is in a summary or still counted.
abbrev Counts : Loop → ℕ → PacketSource × List Action × Outcome → Type 0
Counts l n r =
    (l' : Loop)
    → r.2 ≡ blocked l'
    → u64 (warned r.1 + l'.enobufs_since_log) ≡ u64 (l.enobufs_since_log + n)

warned_rest :
    (has_tick : Bool) (l : Loop) (now : TimePoint) (n : ℕ)
    (r : PacketSource × List Action × Outcome)
    → Counts (tick_if_due has_tick l now).0 n r
    → Counts l n (r.0, (tick_if_due has_tick l now).1 ++ r.1, r.2)
warned_rest has_tick l now n r h l' b =
    ground (
      arith,
      warned-++ (tick_if_due has_tick l now).1 r.1,
      warned-tick_if_due has_tick l now,
      h l' b,
    )

warned_overflow :
    (l : Loop) (now : TimePoint) (n : ℕ) (r : PacketSource × List Action × Outcome)
    → Counts (count_overflow l now).0 n r
    → Counts l (suc n) (r.0, (count_overflow l now).1 ++ r.1, r.2)
warned_overflow l now n r h l' b =
    ground (arith, warned-++ (count_overflow l now).1 r.1, warned-count_overflow l now, h l' b)

turns-Counts :
    (has_tick : Bool) (s : PacketSource) (l : Loop) (ts : List Turn)
    → Counts l (overflows ts) (turns has_tick s l ts)
unfolding turns receive stop
turns-Counts has_tick s l [] =
    if-branches (Counts l 0) (s.running && not s.stop_requested) (λ e l' b. ground arith)
      (λ e l' b. ground arith)
turns-Counts has_tick s l (stopped ∷ ts) =
    λ l' b. ground (arith, turns-stopped has_tick (stop s) l ts refl, b)
turns-Counts has_tick s l (turn (message bytes) o n ∷ ts) =
    if-branches (Counts l (overflows ts)) (not (s.running && not s.stop_requested))
      (λ e l' b. ground arith)
      (λ e.
        warned_rest has_tick l n (overflows ts) (turns has_tick s (tick_if_due has_tick l n).0 ts)
          (turns-Counts has_tick s (tick_if_due has_tick l n).0 ts))
turns-Counts has_tick s l (turn socket_closed o n ∷ ts) =
    if-branches (Counts l (overflows ts)) (not (s.running && not s.stop_requested))
      (λ e l' b. ground arith) (λ e l' b. ground arith)
turns-Counts has_tick s l (turn interrupted o n ∷ ts) =
    if-branches (Counts l (overflows ts)) (not (s.running && not s.stop_requested))
      (λ e l' b. ground arith)
      (λ e.
        warned_rest has_tick l n (overflows ts) (turns has_tick s (tick_if_due has_tick l n).0 ts)
          (turns-Counts has_tick s (tick_if_due has_tick l n).0 ts))
turns-Counts has_tick s l (turn receive_failed o n ∷ ts) =
    if-branches (Counts l (overflows ts)) (not (s.running && not s.stop_requested))
      (λ e l' b. ground arith) (λ e l' b. ground arith)
turns-Counts has_tick s l (turn no_buffers o n ∷ ts) =
    if-branches (Counts l (suc (overflows ts))) (not (s.running && not s.stop_requested))
      (λ e l' b. ground arith)
      (λ e.
        let c = (count_overflow l o).0 in
        let rest = turns has_tick s (tick_if_due has_tick c n).0 ts in
        warned_overflow l o (overflows ts) (rest.0, (tick_if_due has_tick c n).1 ++ rest.1, rest.2)
          (warned_rest has_tick c n (overflows ts) rest
            (turns-Counts has_tick s (tick_if_due has_tick c n).0 ts)))

-- While the loop waits, every overflow that it met is in a logged summary or still counted, once, by
-- 64-bit counts.
pub loop-overflows :
    (has_tick : Bool) (s : PacketSource) (start log_start : TimePoint) (ts : List Turn) (l : Loop)
    → (loop has_tick s start log_start ts).2 ≡ blocked l
    → u64 (warned (loop has_tick s start log_start ts).1 + l.enobufs_since_log) ≡ u64 (overflows ts)
unfolding loop
loop-overflows has_tick s start log_start ts l h =
    ground (arith, turns-Counts has_tick (record s { running = true }) _ ts l h)
