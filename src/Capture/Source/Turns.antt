-- ===== src/Capture/Source/Turns.antt =====
-- src/capture/packet_source.cpp: what the loop hands on and how it ends.
use ips_with_ai.Prelude.{
  ℕ, ◌≡◌, refl, Bool, true, false, Option, none, some, List, [], ◌∷◌, ◌++◌, arith, ◌∙◌, ap,
}
use ips_with_ai.Common.Clock.{TimePoint}
use ips_with_ai.Capture.Source.{
  PacketSource, stop, message, socket_closed, interrupted, no_buffers, receive_failed, Turn, turn,
  stopped, Action, hand_on, tick, warn_overflows, Loop, count_overflow, receive, tick_if_due,
  Outcome, ended, blocked, turns, loop,
}

-- The loop's result by the turns alone: the first stop or failure decides.
abbrev pub first_end : List Turn → Option Bool
first_end [] = none
first_end (stopped ∷ ts) = some true
first_end (turn socket_closed o n ∷ ts) = some false
first_end (turn receive_failed o n ∷ ts) = some false
first_end (turn (message bytes) o n ∷ ts) = first_end ts
first_end (turn interrupted o n ∷ ts) = first_end ts
first_end (turn no_buffers o n ∷ ts) = first_end ts

-- The messages before it, in order.
abbrev pub messages_before_end : List Turn → List (List ℕ)
messages_before_end [] = []
messages_before_end (stopped ∷ ts) = []
messages_before_end (turn socket_closed o n ∷ ts) = []
messages_before_end (turn receive_failed o n ∷ ts) = []
messages_before_end (turn (message bytes) o n ∷ ts) = bytes ∷ messages_before_end ts
messages_before_end (turn interrupted o n ∷ ts) = messages_before_end ts
messages_before_end (turn no_buffers o n ∷ ts) = messages_before_end ts

abbrev pub handled : List Action → List (List ℕ)
handled [] = []
handled (hand_on bytes ∷ acts) = bytes ∷ handled acts
handled (tick now ∷ acts) = handled acts
handled (warn_overflows n ∷ acts) = handled acts

abbrev pub ended_with : Outcome → Option Bool
ended_with (ended ok) = some ok
ended_with (blocked l) = none

handled-++ : (a b : List Action) → handled (a ++ b) ≡ handled a ++ handled b
handled-++ [] b = refl
handled-++ (hand_on bytes ∷ a) b = ap (λ x. bytes ∷ x) (handled-++ a b)
handled-++ (tick now ∷ a) b = handled-++ a b
handled-++ (warn_overflows n ∷ a) b = handled-++ a b

handled-quiet : (a b : List Action) → handled a ≡ [] → handled (a ++ b) ≡ handled b
handled-quiet a b e = handled-++ a b ∙ ap (λ x. x ++ handled b) e

handled-tick_if_due :
    (has_tick : Bool) (l : Loop) (now : TimePoint) (acts : List Action)
    → handled ((tick_if_due has_tick l now).1 ++ acts) ≡ handled acts
unfolding tick_if_due
handled-tick_if_due has_tick l now acts =
    handled-quiet (tick_if_due has_tick l now).1 acts (ground arith)

handled-count_overflow :
    (l : Loop) (now : TimePoint) (acts : List Action)
    → handled ((count_overflow l now).1 ++ acts) ≡ handled acts
unfolding count_overflow
handled-count_overflow l now acts = handled-quiet (count_overflow l now).1 acts (ground arith)

pub turns-stopped :
    (has_tick : Bool) (s : PacketSource) (l : Loop) (ts : List Turn)
    → s.stop_requested ≡ true
    → ((turns has_tick s l ts).1 ≡ []) × (ended_with (turns has_tick s l ts).2 ≡ some true)
unfolding turns stop
turns-stopped has_tick s l [] e = ground arith
turns-stopped has_tick s l (stopped ∷ ts) e = turns-stopped has_tick (stop s) l ts refl
turns-stopped has_tick s l (turn r o n ∷ ts) e = ground arith

abbrev IsRunning : PacketSource → Type 0
IsRunning s = (s.running ≡ true) × (s.stop_requested ≡ false)

turns-first_end :
    (has_tick : Bool) (s : PacketSource) (l : Loop) (ts : List Turn)
    → IsRunning s
    → (ended_with (turns has_tick s l ts).2 ≡ first_end ts)
      × (handled (turns has_tick s l ts).1 ≡ messages_before_end ts)
unfolding turns receive stop
turns-first_end has_tick s l [] h = ground arith
turns-first_end has_tick s l (stopped ∷ ts) h =
    let r = turns-stopped has_tick (stop s) l ts refl in (r.1, ap handled r.0)
turns-first_end has_tick s l (turn socket_closed o n ∷ ts) h = ground arith
turns-first_end has_tick s l (turn receive_failed o n ∷ ts) h = ground arith
turns-first_end has_tick s l (turn (message bytes) o n ∷ ts) h =
    let ih =
      turns-first_end has_tick (record s { running = true; stop_requested = false })
        (tick_if_due has_tick l n).0 ts (refl, refl) in
    rw (h.0, h.1)
      (
        ih.0,
        ap (λ x. bytes ∷ x)
            (handled-tick_if_due has_tick l n
                (turns has_tick (record s { running = true; stop_requested = false })
                  (tick_if_due has_tick l n).0 ts).1
              ∙ ih.1),
      )
turns-first_end has_tick s l (turn interrupted o n ∷ ts) h =
    let ih =
      turns-first_end has_tick (record s { running = true; stop_requested = false })
        (tick_if_due has_tick l n).0 ts (refl, refl) in
    rw (h.0, h.1)
      (
        ih.0,
        handled-tick_if_due has_tick l n
              (turns has_tick (record s { running = true; stop_requested = false })
                (tick_if_due has_tick l n).0 ts).1
            ∙ ih.1,
      )
turns-first_end has_tick s l (turn no_buffers o n ∷ ts) h =
    let l' = (count_overflow l o).0 in
    let ih =
      turns-first_end has_tick (record s { running = true; stop_requested = false })
        (tick_if_due has_tick l' n).0 ts (refl, refl) in
    rw (h.0, h.1)
      (
        ih.0,
        handled-count_overflow l o _
            ∙ handled-tick_if_due has_tick l' n
                (turns has_tick (record s { running = true; stop_requested = false })
                  (tick_if_due has_tick l' n).0 ts).1
            ∙ ih.1,
      )

-- A loop that no stop was requested for before ends as its first stop or failure has it, with true for
-- a stop and false for a failure, and waits on where there is none; and it hands on the messages
-- received before that, each once and in order.
pub loop-first_end :
    (has_tick : Bool) (s : PacketSource) (start log_start : TimePoint) (ts : List Turn)
    → s.stop_requested ≡ false
    → (ended_with (loop has_tick s start log_start ts).2 ≡ first_end ts)
      × (handled (loop has_tick s start log_start ts).1 ≡ messages_before_end ts)
unfolding loop
loop-first_end has_tick s start log_start ts h =
    turns-first_end has_tick (record s { running = true }) _ ts (refl, h)
