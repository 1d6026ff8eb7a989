-- ===== src/Capture/Start/Tests.antt =====
-- Runs of src/capture/packet_source.cpp and of `PacketCapture::start`.
use ips_with_ai.Prelude.{
  ℕ, zero, suc, ◌≡◌, ◌↔◌, ◌++◌, Bool, refl, true, false, none, some, List, [], ◌∷◌, arith,
}
use ips_with_ai.Capture.Firewall.{new_guard}
use ips_with_ai.Capture.Firewall.Rules.{no_rules, Ends}
use ips_with_ai.Capture.Firewall.Tests.{iptables, view, iptables-Documented}
use ips_with_ai.Capture.Source.{
  new_source, Method, opens, closes, stops, Turn, turn, stopped, message, interrupted, no_buffers,
  loop, turns, receive, count_overflow, tick_if_due, Loop, blocked, Handler, PacketData,
  on_packet_received, hook_direction, Opening, Closing,
}
use ips_with_ai.Capture.Source.Callback.{on_packet_received_verdict}
use ips_with_ai.Capture.Source.Turns.{
  first_end, messages_before_end, handled, ended_with, loop-first_end,
}
use ips_with_ai.Capture.Start.{Surroundings, start_capture}
use ips_with_ai.Capture.Start.Tidy.{Tidy, start_capture-Tidy}

abbrev all_made : Opening
all_made = record { opened = true; queue_created = true; mode_set = true }

abbrev half_made : Opening
half_made = record { opened = true; queue_created = true; mode_set = false }

abbrev freed : Closing
freed = record { queue_destroyed = true; closed = true }

abbrev methods : List Method
methods =
    opens half_made freed ∷ opens all_made freed ∷ stops ∷ closes freed ∷ opens all_made freed ∷ []

-- Two seconds of messages and overflows, and then a stop.
abbrev some_turns : List Turn
some_turns =
    turn (message (1 ∷ [])) 0 1000000000
    ∷ turn no_buffers 1500000000 1500000000
    ∷ turn interrupted 0 6000000000
    ∷ turn no_buffers 7000000000 7000000000
    ∷ turn (message (2 ∷ [])) 0 7000000001
    ∷ []

abbrev all_turns : List Turn
all_turns = some_turns ++ stopped ∷ turn (message (3 ∷ [])) 0 9000000000 ∷ []

loop-first_end_example :
    (ended_with (loop true (new_source 5) 0 0 all_turns).2 ≡ first_end all_turns)
    × (handled (loop true (new_source 5) 0 0 all_turns).1 ≡ messages_before_end all_turns)
unfolding new_source
loop-first_end_example = loop-first_end true (new_source 5) 0 0 all_turns refl

abbrev left_over : Loop
left_over = record {
  last_cleanup = 7000000000;
  last_enobufs_log = 7000000000;
  enobufs_since_log = 0;
}

some_turns-blocked : (loop true (new_source 5) 0 0 some_turns).2 ≡ blocked left_over
unfolding loop turns receive count_overflow tick_if_due new_source
some_turns-blocked = refl

-- A handler that counts its calls and drops a packet whose payload starts with zero.
abbrev strict_handler : Handler ℕ
strict_handler n [] direction = (suc n, none)
strict_handler n (zero ∷ bytes) direction = (suc n, some false)
strict_handler n (suc b ∷ bytes) direction = (suc n, some true)

abbrev dropped_data : PacketData
dropped_data = record { header = some (9, 1); payload = some (0 ∷ 4 ∷ []) }

on_packet_received_verdict_example :
    ((dropped_data.header ≡ none) → on_packet_received strict_handler 0 dropped_data ≡ (0, none))
    × ((packet_id hook : ℕ)
        → dropped_data.header ≡ some (packet_id, hook)
        → (accept : Bool) × ((on_packet_received strict_handler 0 dropped_data).1
            ≡ some (record { packet_id = packet_id; accept = accept }))
          × ((accept ≡ false) ↔ (
              (bytes : List ℕ) × (dropped_data.payload ≡ some bytes)
              × ((strict_handler 0 bytes (hook_direction hook)).1 ≡ some false))))
on_packet_received_verdict_example = on_packet_received_verdict strict_handler 0 dropped_data

abbrev surroundings : Surroundings
surroundings = record {
  opening = all_made;
  failed_closing = freed;
  closing = freed;
  start = 0;
  log_start = 0;
  turns = all_turns;
}

start_capture-Tidy_example :
    Ends iptables view
      (start_capture 2 surroundings (new_source 5) (new_guard 5))
      (Tidy 5 all_turns)
      (no_rules, 0)
start_capture-Tidy_example =
    start_capture-Tidy iptables-Documented 2 5 (omega arith) surroundings (no_rules, 0) refl
