-- ===== src/Capture/Source/Handles.antt =====
-- src/capture/packet_source.cpp: each handle that `open` makes is freed once.
use ips_with_ai.Prelude.{
  ℕ, ◌≡◌, refl, Bool, true, false, ◌&&◌, not, Option, none, some, List, [], ◌∷◌, ◌++◌,
  if◌then◌else◌, arith, Bool-cases, Option-cases, if-branches, ◌∙◌, ap, inl, inr,
}
use ips_with_ai.Capture.Source.{
  NfqCall, nfq_open, nfq_create_queue, nfq_destroy_queue, nfq_close, PacketSource, new_source,
  Opening, Closing, close_queue, close_handle, close, open_source, stop, Method, opens, closes,
  stops, call_method, call_methods, Loop, Turn, turn, stopped, Action, Outcome, turns, receive,
  tick_if_due,
}

pub data Held : Type 0 where
  nothing handle_only handle_and_queue : Held

-- What the library holds after a call, or none where a call makes a handle twice, frees one that is not
-- there, or frees the handle before the queue.
abbrev pub after_call : Held → NfqCall → Option Held
after_call nothing (nfq_open made) = some (if made then handle_only else nothing)
after_call handle_only (nfq_create_queue made) =
    some (if made then handle_and_queue else handle_only)
after_call handle_and_queue nfq_destroy_queue = some handle_only
after_call handle_only nfq_close = some nothing
after_call _ _ = none

abbrev pub after_calls : Option Held → List NfqCall → Option Held
after_calls h [] = h
after_calls none (c ∷ cs) = none
after_calls (some h) (c ∷ cs) = after_calls (after_call h c) cs

after_calls-++ :
    (h : Option Held) (cs ds : List NfqCall)
    → after_calls h (cs ++ ds) ≡ after_calls (after_calls h cs) ds
after_calls-++ h [] ds = refl
after_calls-++ none (c ∷ cs) [] = refl
after_calls-++ none (c ∷ cs) (d ∷ ds) = refl
after_calls-++ (some h) (c ∷ cs) ds = after_calls-++ (after_call h c) cs ds

abbrev pub held : PacketSource → Held
held s = if s.handle then (if s.queue then handle_and_queue else handle_only) else nothing

pub record Inv (s : PacketSource) : Type 0 where
  pub traced : after_calls (some nothing) s.calls ≡ some (held s)
  pub nested : s.handle ≡ false → s.queue ≡ false

-- `open` is called only where there is no handle.
abbrev pub IsOrderly : PacketSource → List Method → Type 0
IsOrderly s [] = Unit
IsOrderly s (opens o c ∷ ms) = (s.handle ≡ false) × IsOrderly (call_method s (opens o c)) ms
IsOrderly s (closes c ∷ ms) = IsOrderly (call_method s (closes c)) ms
IsOrderly s (stops ∷ ms) = IsOrderly (call_method s stops) ms

pub new_source-Inv : (n : ℕ) → Inv (new_source n)
unfolding new_source
new_source-Inv n = record { traced = refl; nested = λ e. refl }

-- The invariant of what a field update leaves, from the calls of before and the one that is new.
extend :
    {s : PacketSource} (i : Inv s) (c : NfqCall) (h : Held)
    → after_call (held s) c ≡ some h
    → after_calls (some nothing) (s.calls ++ c ∷ []) ≡ some h
extend {s} i c h e =
    after_calls-++ (some nothing) s.calls (c ∷ []) ∙ ap (λ o. after_calls o (c ∷ [])) i.traced ∙ e

close_queue-Inv : (s : PacketSource) → Inv s → Inv (close_queue s)
close_queue-Inv s i =
    if-branches Inv s.queue
      (λ q. elim (Bool-cases s.handle) [
        | inl e ↦ record {
          traced = extend i nfq_destroy_queue handle_only (rw (e, q) refl) ∙ (rw (e) refl);
          nested = λ _. refl;
        }
        | inr e ↦ ground (arith, i.nested)
      ])
      (λ q. i)

close_queue-queue : (s : PacketSource) → (close_queue s).queue ≡ false
close_queue-queue s = ground arith

close_handle-Inv : (s : PacketSource) → s.queue ≡ false → Inv s → Inv (close_handle s)
close_handle-Inv s q i =
    if-branches Inv s.handle
      (λ e. record { traced = extend i nfq_close nothing (rw (e, q) refl); nested = λ _. q })
      (λ e. i)

pub close-Inv : (s : PacketSource) (c : Closing) → Inv s → Inv (close s c).0
unfolding close
close-Inv s c i = close_handle-Inv (close_queue s) (close_queue-queue s) (close_queue-Inv s i)

pub close-handle : (s : PacketSource) (c : Closing) → (close s c).0.handle ≡ false
unfolding close
close-handle s c = ground arith

pub Inv-freed :
    (s : PacketSource)
    → s.handle ≡ false
    → Inv s
    → after_calls (some nothing) s.calls ≡ some nothing
Inv-freed s e i = i.traced ∙ rw (e) refl

pub close-freed :
    (s : PacketSource) (c : Closing)
    → Inv s
    → after_calls (some nothing) (close s c).0.calls ≡ some nothing
close-freed s c i = Inv-freed (close s c).0 (close-handle s c) (close-Inv s c i)

opened-Inv :
    (s : PacketSource) (made : Bool)
    → s.handle ≡ false
    → Inv s
    → Inv (record s { handle = made; calls = s.calls ++ nfq_open made ∷ [] })
opened-Inv s true e i = record {
  traced = extend i (nfq_open true) handle_only (rw (e) refl) ∙ (rw (i.nested e) refl);
  nested = λ _. i.nested e;
}
opened-Inv s false e i = record {
  traced = extend i (nfq_open false) nothing (rw (e) refl);
  nested = λ _. i.nested e;
}

created-Inv :
    (s : PacketSource) (made : Bool)
    → s.handle ≡ true
    → s.queue ≡ false
    → Inv s
    → Inv (record s { queue = made; calls = s.calls ++ nfq_create_queue made ∷ [] })
created-Inv s true e q i = record {
  traced = extend i (nfq_create_queue true) handle_and_queue (rw (e, q) refl) ∙ (rw (e) refl);
  nested = λ h. ground arith;
}
created-Inv s false e q i = record {
  traced = extend i (nfq_create_queue false) handle_only (rw (e, q) refl) ∙ (rw (e) refl);
  nested = λ h. refl;
}

pub open_source-Inv :
    (s : PacketSource) (o : Opening) (c : Closing)
    → s.handle ≡ false
    → Inv s
    → Inv (open_source s o c).0
unfolding open_source
open_source-Inv s o c e i =
    let made = record s { handle = true; calls = s.calls ++ nfq_open true ∷ [] } in
    let made-Inv = opened-Inv s true e i in
    elim (Bool-cases o.opened) [
      | inr x ↦ rw (x) (opened-Inv s false e i)
      | inl x ↦ elim (Bool-cases o.queue_created) [
        | inr y ↦ rw (x, y) (close-Inv _ c (created-Inv made false refl (i.nested e) made-Inv))
        | inl y ↦ elim (Bool-cases o.mode_set) [
          | inr z ↦ rw (x, y, z) (close-Inv _ c (created-Inv made true refl (i.nested e) made-Inv))
          | inl z ↦ rw (x, y, z) (created-Inv made true refl (i.nested e) made-Inv)
        ]
      ]
    ]

pub open_source-failed :
    (s : PacketSource) (o : Opening) (c : Closing)
    → (open_source s o c).1 ≡ false
    → (open_source s o c).0.handle ≡ false
unfolding open_source close
open_source-failed s o c e = ground arith

pub open_source-stop_requested :
    (s : PacketSource) (o : Opening) (c : Closing)
    → (open_source s o c).0.stop_requested ≡ s.stop_requested
unfolding open_source close
open_source-stop_requested s o c = ground arith

pub turns-Inv :
    (has_tick : Bool) (s : PacketSource) (l : Loop) (ts : List Turn)
    → Inv s
    → Inv (turns has_tick s l ts).0
unfolding turns stop
turns-Inv has_tick s l [] i =
    if-branches (λ (r : PacketSource × List Action × Outcome). Inv r.0)
      (s.running && not s.stop_requested) (λ e. i)
      (λ e. record { traced = i.traced; nested = i.nested })
turns-Inv has_tick s l (stopped ∷ ts) i =
    turns-Inv has_tick (stop s) l ts (record { traced = i.traced; nested = i.nested })
turns-Inv has_tick s l (turn r o n ∷ ts) i =
    if-branches (λ (x : PacketSource × List Action × Outcome). Inv x.0)
      (not (s.running && not s.stop_requested))
      (λ e. record { traced = i.traced; nested = i.nested })
      (λ e. elim (Option-cases (receive l r o)) [
        | inl e ↦ rw (e) (record { traced = i.traced; nested = i.nested })
        | inr ((l', acted), e) ↦ rw (e) (turns-Inv has_tick s (tick_if_due has_tick l' n).0 ts i)
      ])

call_method-Inv :
    (s : PacketSource) (m : Method) (ms : List Method)
    → IsOrderly s (m ∷ ms)
    → Inv s
    → Inv (call_method s m)
unfolding call_method stop
call_method-Inv s (opens o c) ms h i = open_source-Inv s o c h.0 i
call_method-Inv s (closes c) ms h i = close-Inv s c i
call_method-Inv s stops ms h i = record { traced = i.traced; nested = i.nested }

IsOrderly-rest :
    (s : PacketSource) (m : Method) (ms : List Method)
    → IsOrderly s (m ∷ ms)
    → IsOrderly (call_method s m) ms
IsOrderly-rest s (opens o c) ms h = h.1
IsOrderly-rest s (closes c) ms h = h
IsOrderly-rest s stops ms h = h

call_methods-Inv :
    (s : PacketSource) (ms : List Method) → IsOrderly s ms → Inv s → Inv (call_methods s ms)
call_methods-Inv s [] h i = i
call_methods-Inv s (m ∷ ms) h i =
    call_methods-Inv (call_method s m) ms (IsOrderly-rest s m ms h) (call_method-Inv s m ms h i)

-- Whatever the calls of a new source are, among them opens that fail half-way, if it is opened only
-- where it has no handle, then after the destructor's `close` each handle and queue that was made was
-- freed once, the queue before the handle.
pub close-call_methods :
    (n : ℕ) (ms : List Method) (c : Closing)
    → IsOrderly (new_source n) ms
    → after_calls (some nothing) (close (call_methods (new_source n) ms) c).0.calls ≡ some nothing
close-call_methods n ms c h =
    close-freed (call_methods (new_source n) ms) c
      (call_methods-Inv (new_source n) ms h (new_source-Inv n))
