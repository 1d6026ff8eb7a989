-- ===== src/Capture/Source/Callback.antt =====
-- src/capture/packet_source.cpp: the verdict of the callback.
use ips_with_ai.Prelude.{ℕ, ◌≡◌, ◌↔◌, refl, Bool, false, Option, none, some, List, arith, ap}
use ips_with_ai.Flow.Types.{PacketDirection}
use ips_with_ai.Capture.Source.{
  PacketData, Handler, hook_direction, judge_payload, accept_unless_thrown, on_packet_received,
}

thrown : (answer : Option Bool) → accept_unless_thrown answer ≡ false → answer ≡ some false
thrown none e = ground arith
thrown (some accept) e = ap some e

judge_payload-false :
    {S : Type 0} (handler : Handler S) (s : S) (payload : Option (List ℕ))
    (direction : PacketDirection)
    → ((judge_payload handler s payload direction).1 ≡ false)
      ↔ ((bytes : List ℕ) × (payload ≡ some bytes) × ((handler s bytes direction).1 ≡ some false))
judge_payload-false handler s none direction = ((λ e. ground arith), λ (bytes, e, h). ground arith)
judge_payload-false handler s (some bytes) direction =
    ((λ e. (bytes, refl, thrown (handler s bytes direction).1 e)), λ (bytes', e, h). ground arith)

-- The verdict names the packet, and drops it only where its payload could be read and the handler threw
-- nothing and answered false; without a header there is no verdict and the handler is not called.
pub on_packet_received_verdict :
    {S : Type 0} (handler : Handler S) (s : S) (packet_data : PacketData)
    → ((packet_data.header ≡ none) → on_packet_received handler s packet_data ≡ (s, none))
      × ((packet_id hook : ℕ)
          → packet_data.header ≡ some (packet_id, hook)
          → (accept : Bool) × ((on_packet_received handler s packet_data).1
              ≡ some (record { packet_id = packet_id; accept = accept }))
            × ((accept ≡ false) ↔ (
                (bytes : List ℕ) × (packet_data.payload ≡ some bytes)
                × ((handler s bytes (hook_direction hook)).1 ≡ some false))))
unfolding on_packet_received
on_packet_received_verdict handler s packet_data = (
  λ e. rw (e) refl,
  λ packet_id hook e. rw (e) (
    (judge_payload handler s packet_data.payload (hook_direction hook)).1,
    refl,
    judge_payload-false handler s packet_data.payload (hook_direction hook),
  ),
)
