-- ===== src/Capture/Source.antt =====
-- src/capture/packet_source.h and packet_source.cpp, `PacketSource`: opening and closing the queue, the
-- callback that gives a packet its verdict, and the loop that receives. What libnetfilter_queue and the
-- socket answer is an input, and the calls of the library that make and free a handle are a trace. A
-- handle is there or not. The loop is run on the turns that it takes, among which are the requests to
-- stop; what it calls is its result, in order. The log is left out but for the summary of overflows.
pub mod Handles
pub mod Turns
pub mod Ticks
pub mod Callback
use ips_with_ai.Prelude.{
  ℕ, ◌+◌, ◌==◌, Bool, true, false, ◌&&◌, ◌||◌, not, Option, none, some, List, [], ◌∷◌, ◌++◌,
  if◌then◌else◌, u64,
}
use ips_with_ai.Common.Clock.{TimePoint, elapsed}
use ips_with_ai.Flow.Types.{PacketDirection, inbound, outbound, unknown}

pub data NfqCall : Type 0 where
  nfq_open nfq_create_queue : (made : Bool) → NfqCall
  nfq_destroy_queue nfq_close : NfqCall

pub record PacketSource : Type 0 where
  pub queue_num : ℕ
  pub handle : Bool
  pub queue : Bool
  pub running : Bool
  pub stop_requested : Bool
  pub calls : List NfqCall

unfoldable pub new_source : ℕ → PacketSource
new_source queue_num = record {
  queue_num = queue_num;
  handle = false;
  queue = false;
  running = false;
  stop_requested = false;
  calls = [];
}

-- The calls of the library that can fail: those that make a handle and the one that sets the mode.
pub record Opening : Type 0 where
  pub opened : Bool
  pub queue_created : Bool
  pub mode_set : Bool

pub record Closing : Type 0 where
  pub queue_destroyed : Bool
  pub closed : Bool

abbrev pub close_queue : PacketSource → PacketSource
close_queue s =
    if s.queue then record s { queue = false; calls = s.calls ++ nfq_destroy_queue ∷ [] } else s

abbrev pub close_handle : PacketSource → PacketSource
close_handle s =
    if s.handle then record s { handle = false; calls = s.calls ++ nfq_close ∷ [] } else s

unfoldable pub close : PacketSource → Closing → PacketSource × Bool
close s c =
    (close_handle (close_queue s), (not s.queue || c.queue_destroyed) && (not s.handle || c.closed))

-- `close` on the way out of `open`, whose result is not read.
unfoldable pub open_source : PacketSource → Opening → Closing → PacketSource × Bool
open_source s o c =
    let s = record s { calls = s.calls ++ nfq_open o.opened ∷ []; handle = o.opened } in
    if not o.opened
    then (s, false)
    else let s = record s {
      calls = s.calls ++ nfq_create_queue o.queue_created ∷ [];
      queue = o.queue_created;
    } in
      if not o.queue_created
      then ((close s c).0, false)
      else if not o.mode_set
      then ((close s c).0, false)
      else (s, true)

unfoldable pub stop : PacketSource → PacketSource
stop s = record s { stop_requested = true; running = false }

pub data Method : Type 0 where
  opens : Opening → Closing → Method
  closes : Closing → Method
  stops : Method

unfoldable pub call_method : PacketSource → Method → PacketSource
call_method s (opens o c) = (open_source s o c).0
call_method s (closes c) = (close s c).0
call_method s stops = stop s

abbrev pub call_methods : PacketSource → List Method → PacketSource
call_methods s [] = s
call_methods s (m ∷ ms) = call_methods (call_method s m) ms

-- The kernel's numbers of the hooks `NF_INET_LOCAL_IN` and `NF_INET_LOCAL_OUT`.
abbrev pub nf_inet_local_in : ℕ
nf_inet_local_in = 1

abbrev pub nf_inet_local_out : ℕ
nf_inet_local_out = 3

abbrev pub hook_direction : ℕ → PacketDirection
hook_direction hook =
    if hook == nf_inet_local_in
    then inbound
    else if hook == nf_inet_local_out
    then outbound
    else unknown

-- What the library tells of a packet: its number and hook, and its payload, if each can be read.
pub record PacketData : Type 0 where
  pub header : Option (ℕ × ℕ)
  pub payload : Option (List ℕ)

pub record Verdict : Type 0 where
  pub packet_id : ℕ
  pub accept : Bool

-- The handler's state, and its answer if it throws nothing.
abbrev pub Handler : Type 0 → Type 0
Handler S = S → List ℕ → PacketDirection → S × Option Bool

abbrev pub accept_unless_thrown : Option Bool → Bool
accept_unless_thrown none = true
accept_unless_thrown (some accept) = accept

abbrev pub judge_payload :
    {S : Type 0} → Handler S → S → Option (List ℕ) → PacketDirection → S × Bool
judge_payload handler s none direction = (s, true)
judge_payload handler s (some bytes) direction =
    let r = handler s bytes direction in (r.0, accept_unless_thrown r.1)

unfoldable pub on_packet_received : {S : Type 0} → Handler S → S → PacketData → S × Option Verdict
on_packet_received handler s packet_data = elim packet_data.header [
  | none ↦ (s, none)
  | some (packet_id, hook) ↦
      let r = judge_payload handler s packet_data.payload (hook_direction hook) in
      (r.0, some (record { packet_id = packet_id; accept = r.1 }))
]

-- `recv`, by its result and errno.
pub data Received : Type 0 where
  message : List ℕ → Received
  socket_closed interrupted no_buffers receive_failed : Received

-- One run of the loop's body, with the clock's readings in the branch for ENOBUFS and at the end, or a
-- call of `stop` between two.
pub data Turn : Type 0 where
  turn : Received → (overflowed_at now : TimePoint) → Turn
  stopped : Turn

-- What the loop does to the outside: it hands a message on, calls the tick handler, and logs how many
-- overflows there were.
pub data Action : Type 0 where
  hand_on : List ℕ → Action
  tick : TimePoint → Action
  warn_overflows : ℕ → Action

pub record Loop : Type 0 where
  pub last_cleanup : TimePoint
  pub last_enobufs_log : TimePoint
  pub enobufs_since_log : ℕ

unfoldable pub count_overflow : Loop → TimePoint → Loop × List Action
count_overflow l now =
    let n = u64 (l.enobufs_since_log + 1) in
    if elapsed now l.last_enobufs_log 5
    then (record l { enobufs_since_log = 0; last_enobufs_log = now }, warn_overflows n ∷ [])
    else (record l { enobufs_since_log = n }, [])

-- What `recv` comes to: the loop goes on, or none.
unfoldable pub receive : Loop → Received → TimePoint → Option (Loop × List Action)
receive l (message bytes) now = some (l, hand_on bytes ∷ [])
receive l socket_closed now = none
receive l interrupted now = some (l, [])
receive l no_buffers now = some (count_overflow l now)
receive l receive_failed now = none

unfoldable pub tick_if_due : Bool → Loop → TimePoint → Loop × List Action
tick_if_due has_tick_handler l now =
    if elapsed now l.last_cleanup 1
    then (record l { last_cleanup = now }, if has_tick_handler then tick now ∷ [] else [])
    else (l, [])

-- The loop's end, with its result, or `blocked` where the turns are used up and it waits for the next.
pub data Outcome : Type 0 where
  ended : Bool → Outcome
  blocked : Loop → Outcome

unfoldable pub turns : Bool → PacketSource → Loop → List Turn → PacketSource × List Action × Outcome
turns has_tick s l [] =
    if s.running && not s.stop_requested
    then (s, [], blocked l)
    else (record s { running = false }, [], ended true)
turns has_tick s l (stopped ∷ ts) = turns has_tick (stop s) l ts
turns has_tick s l (turn received overflowed_at now ∷ ts) =
    if not (s.running && not s.stop_requested)
    then (record s { running = false }, [], ended true)
    else elim (receive l received overflowed_at) [
      | none ↦ (record s { running = false }, [], ended false)
      | some (l', acted) ↦
          let c = tick_if_due has_tick l' now in
          let rest = turns has_tick s c.0 ts in (rest.0, acted ++ (c.1 ++ rest.1), rest.2)
    ]

-- The two readings of the clock at the start.
unfoldable pub loop :
    Bool
    → PacketSource
    → (start log_start : TimePoint) → List Turn
    → PacketSource × List Action × Outcome
loop has_tick s start log_start ts =
    turns has_tick (record s { running = true })
      (record { last_cleanup = start; last_enobufs_log = log_start; enobufs_since_log = 0 }) ts
