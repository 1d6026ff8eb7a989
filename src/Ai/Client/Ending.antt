-- ===== src/Ai/Client/Ending.antt =====
-- src/ai/async_ai_client.cpp: the end of the worker that `stop` joins.
use Prim.Native.String.{String}
use ips_with_ai.Prelude.{
  ℕ, ◌-◌, ◌≤◌, ◌≡◌, ◌≢◌, refl, Bool, true, Option, List, [], ◌∷◌, arith, length, All, inl, inr, ◌⊎◌,
  Option-cases,
}
use ips_with_ai.Ai.Types.{AiResponse}
use ips_with_ai.Ai.Client.Counts.{act-stopped, act_all-stopped}
use ips_with_ai.Ai.Client.{
  AsyncAiClient, Worker, absent, idle, ended, requesting, received, deciding, Input, runs, arrives,
  reads, gives_out, Action, starts, goes_offline, stops, drains, goes_online, consumes, works,
  start, take_flow, check_reply, count_error, settle, push_decision, fail_transport, work, act,
  act_all,
}

-- What the worker can meet where it stands: a request gets a reply, a time-out or an error, and a reply
-- is read, with any result, or gives an error.
abbrev pub Meets : {F : Type 0} → Worker F → Input F → Type 0
Meets absent i = Unit
Meets ended i = Unit
Meets idle i = i ≡ runs
Meets (deciding decision generation) i = i ≡ runs
Meets (requesting in_flight generation) i =
    (i ≡ arrives) ⊎ ((reason : String) × (timed_out : Bool) × (i ≡ gives_out reason timed_out))
Meets (received in_flight generation) i =
    ((parsed : Option (AiResponse _)) × (i ≡ reads parsed))
    ⊎ ((reason : String) × (timed_out : Bool) × (i ≡ gives_out reason timed_out))

-- What other threads do, and then one section of the worker with what it meets.
pub record Round (F : Type 0) : Type 0 where
  pub others : List (Action F)
  pub meets : Worker F → Input F

abbrev pub IsMet : {F : Type 0} → Round F → Type 0
IsMet {F} r = (w : Worker F) → Meets w (r.meets w)

module _ {F : Type 0} where
  unfoldable pub run_round : AsyncAiClient F × Worker F → Round F → AsyncAiClient F × Worker F
  run_round s r = let s' = act_all s r.others in act s' (works (r.meets s'.1))

  unfoldable pub run_rounds :
      AsyncAiClient F × Worker F → List (Round F) → AsyncAiClient F × Worker F
  run_rounds s [] = s
  run_rounds s (r ∷ rest) = run_rounds (run_round s r) rest

  -- How many sections are left at most.
  left : Worker F → ℕ
  left ended = 0
  left idle = 1
  left (deciding decision generation) = 2
  left (received in_flight generation) = 3
  left (requesting in_flight generation) = 4
  left absent = 5

  work-left :
      (c : AsyncAiClient F) (w : Worker F) (i : Input F)
      → c.stop_requested ≡ true
      → left (work c w i).1 ≤ left w
  unfolding work left take_flow push_decision fail_transport check_reply settle count_error
  work-left c absent i h = ground arith
  work-left c idle i h = ground arith
  work-left c ended i h = ground arith
  work-left c (requesting f g) i h = ground arith
  work-left c (received f g) i h = ground arith
  work-left c (deciding a g) i h = ground arith

  meet-left :
      (c : AsyncAiClient F) (w : Worker F) (i : Input F)
      → c.stop_requested ≡ true
      → Meets w i
      → w ≢ absent
      → left (work c w i).1 ≤ left w - 1
  unfolding work left take_flow push_decision fail_transport check_reply settle count_error
  meet-left c absent i h m n = elim (n refl) [ ]
  meet-left c idle i h m n = rw m (ground arith)
  meet-left c ended i h m n = ground arith
  meet-left c (requesting f g) i h m n = elim m [
    | inl e ↦ rw e (ground arith)
    | inr (reason, timed_out, e) ↦ rw e (ground arith)
  ]
  meet-left c (received f g) i h m n = elim m [
    | inl (parsed, e) ↦ rw e (elim (Option-cases parsed) [
      | inl x ↦ rw x (ground arith)
      | inr (r, x) ↦ rw x (ground arith)
    ])
    | inr (reason, timed_out, e) ↦ rw e (ground arith)
  ]
  meet-left c (deciding a g) i h m n = rw m (ground arith)

  left-ended : (w : Worker F) → w ≢ absent → left w ≤ 0 → w ≡ ended
  unfolding left
  left-ended w n h = ground arith

  left_bound : (w : Worker F) → w ≢ absent → left w ≤ 4
  unfolding left
  left_bound w n = ground arith

  left_present : (w : Worker F) → left w ≤ 4 → w ≢ absent
  unfolding left
  left_present w h e = ground arith

  act-left :
      (s : AsyncAiClient F × Worker F) (a : Action F)
      → s.0.stop_requested ≡ true
      → s.1 ≢ absent
      → (left (act s a).1 ≤ left s.1) × ((act s a).1 ≢ absent)
  unfolding act start
  act-left (c, w) starts h n = ground arith
  act-left (c, w) goes_offline h n = (omega arith, n)
  act-left (c, w) stops h n = (omega arith, n)
  act-left (c, w) drains h n = (omega arith, n)
  act-left (c, w) (goes_online endpoint model_version) h n = (omega arith, n)
  act-left (c, w) (consumes r now) h n = (omega arith, n)
  act-left (c, w) (works i) h n =
      let less = work-left c w i h in
      (less, left_present (work c w i).1 (omega (arith, less, left_bound w n)))

  act_all-left :
      (s : AsyncAiClient F × Worker F) (actions : List (Action F))
      → s.0.stop_requested ≡ true
      → s.1 ≢ absent
      → (left (act_all s actions).1 ≤ left s.1) × ((act_all s actions).1 ≢ absent)
  unfolding act_all
  act_all-left s [] h n = (omega arith, n)
  act_all-left s (a ∷ rest) h n =
      let (less, there) = act-left s a h n in
      let (less', there') = act_all-left (act s a) rest (act-stopped s a h) there in
      (omega (arith, less, less'), there')

  run_round-left :
      (s : AsyncAiClient F × Worker F) (r : Round F)
      → s.0.stop_requested ≡ true
      → s.1 ≢ absent
      → IsMet r
      → (left (run_round s r).1 ≤ left s.1 - 1)
        × ((run_round s r).1 ≢ absent)
        × ((run_round s r).0.stop_requested ≡ true)
  unfolding run_round act
  run_round-left s r h n met =
      let s' = act_all s r.others in
      let (less, there) = act_all-left s r.others h n in
      let stopped = act_all-stopped s r.others h in
      (
        omega (arith, less, meet-left s'.0 s'.1 (r.meets s'.1) stopped (met s'.1) there),
        (act-left s' (works (r.meets s'.1)) stopped there).1,
        act-stopped s' (works (r.meets s'.1)) stopped,
      )

  run_rounds-left :
      (s : AsyncAiClient F × Worker F) (rounds : List (Round F))
      → s.0.stop_requested ≡ true
      → s.1 ≢ absent
      → All IsMet rounds
      → (left (run_rounds s rounds).1 ≤ left s.1 - length rounds)
        × ((run_rounds s rounds).1 ≢ absent)
  unfolding run_rounds
  run_rounds-left s [] h n met = (omega arith, n)
  run_rounds-left s (r ∷ rest) h n (met, met') =
      let (less, there, stopped) = run_round-left s r h n met in
      let (less', there') = run_rounds-left (run_round s r) rest stopped there met' in
      (omega (arith, less, less'), there')

  -- Once a stop is requested, a worker that was started has come to its end after any four rounds or
  -- more, so that the join of `stop` returns. In a round the other threads do whatever they do, and
  -- then the worker does the next section with what it meets: a wait is over, a reply, time-out or error
  -- comes to a request, and a reply is read with any result or gives an error.
  pub run_rounds-ended :
      (c : AsyncAiClient F) (w : Worker F) (rounds : List (Round F))
      → c.stop_requested ≡ true
      → w ≢ absent
      → All IsMet rounds
      → 4 ≤ length rounds
      → (run_rounds (c, w) rounds).1 ≡ ended
  run_rounds-ended c w rounds h n met enough =
      let (less, there) = run_rounds-left (c, w) rounds h n met in
      left-ended (run_rounds (c, w) rounds).1 there (omega (arith, less, left_bound w n))
