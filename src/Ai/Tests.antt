-- ===== src/Ai/Tests.antt =====
-- Runs of the client of src/ai/async_ai_client.cpp on concrete interleavings.
use ips_with_ai.Prelude.{
  ℕ, ◌+◌, ◌≡◌, ◌≢◌, refl, true, false, some, arith, inl, List, [], ◌∷◌, ◌++◌, u64,
}
use ips_with_ai.Flow.Types.{timeout}
use ips_with_ai.Json.{JsonLibrary, holds}
use ips_with_ai.Json.Small.{Value, announcing}
use ips_with_ai.Flow.Double.{whole}
use ips_with_ai.Ai.Types.{FlowRecord, AiResponse}
use ips_with_ai.Ai.Protocol.{Doubles, accepted, parse_ai_response, parse_body, parse_scores}
use ips_with_ai.Ai.Protocol.Answers.{IsAnswerFor, parse_ai_response-accepted}
use ips_with_ai.Ai.Client.{
  AsyncAiClient, Worker, new_client, absent, idle, deciding, received, ended, requesting, Input,
  goes_offline, runs, arrives, reads, consume, Action, starts, stops, goes_online, consumes, works,
  act_all, act, stop,
}
use ips_with_ai.Ai.Client.Queues.{Inv, act_all-Inv}
use ips_with_ai.Ai.Client.Counts.{offers, answered, act_all-answered, act_all-final}
use ips_with_ai.Ai.Client.Ending.{Round, Meets, run_rounds, run_rounds-ended}

abbrev a_record : FlowRecord ℕ
a_record = record {
  flow_id = record { sensor = 1000; sequence = 1 };
  key = record { src_ip = 7; dst_ip = 9; src_port = 4000; dst_port = 22; protocol = 6 };
  first_seen_ms = 1;
  last_seen_ms = 1;
  end_reason = timeout;
  feature_schema_version = 1;
  features = [];
}

abbrev decided_anomaly : Input ℕ
decided_anomaly = reads (
    some (record {
      ok = true;
      flow_id = "f";
      model_version = "m";
      anomaly = true;
      score = 2;
      threshold = 1;
      error_code = "";
    }))

-- A client of one place that is offered two records and gets one answer.
abbrev session : List (Action ℕ)
session =
    consumes a_record 0
    ∷ starts
    ∷ goes_online "ipc" "m"
    ∷ consumes a_record 1
    ∷ consumes a_record 2
    ∷ works runs
    ∷ works arrives
    ∷ works decided_anomaly
    ∷ works runs
    ∷ []

abbrev stopped : AsyncAiClient ℕ
stopped = (act_all (new_client 1, absent) (stops ∷ [])).0

stopped_requested : stopped.stop_requested ≡ true
unfolding new_client act_all act stop
stopped_requested = refl

not_absent : requesting a_record 1 ≢ absent
not_absent e = cc

act_all-Inv_example : Inv (act_all (new_client 1, absent) session).0
act_all-Inv_example = act_all-Inv 1 session

act_all-answered_example :
    u64 (answered (act_all (new_client {F = ℕ} 1, absent) session).0)
    ≡ u64 (answered (new_client {F = ℕ} 1) + offers session)
act_all-answered_example = act_all-answered (new_client 1, absent) session

act_all-final_example :
    let c = (act_all (new_client 1, absent) (session ++ stops ∷ goes_online "ipc" "m" ∷ [])).0 in
    (c.online ≡ false)
    × (c.pending_flows ≡ [])
    × (c.pending_decisions ≡ [])
    × ((consume c a_record 5).1 ≡ false)
act_all-final_example = act_all-final 1 session (goes_online "ipc" "m" ∷ []) a_record 5

-- Whatever is asked of it gets an answer, which is read as an anomaly; in between a flow is offered and
-- the connection lost.
abbrev answers_all : Worker ℕ → Input ℕ
answers_all (requesting f g) = arrives
answers_all (received f g) = reads (
    some (record {
      ok = true;
      flow_id = "f";
      model_version = "m";
      anomaly = true;
      score = 2;
      threshold = 1;
      error_code = "";
    }))
answers_all w = runs

answers_all-Meets : (w : Worker ℕ) → Meets w (answers_all w)
answers_all-Meets absent = tt
answers_all-Meets ended = tt
answers_all-Meets idle = refl
answers_all-Meets (deciding a g) = refl
answers_all-Meets (requesting f g) = inl refl
answers_all-Meets (received f g) = inl (_, refl)

abbrev a_round : Round ℕ
a_round = record { others = consumes a_record 5 ∷ goes_offline ∷ []; meets = answers_all }

abbrev four_rounds : List (Round ℕ)
four_rounds = a_round ∷ a_round ∷ a_round ∷ a_round ∷ []

run_rounds-ended_example : (run_rounds (stopped, requesting a_record 1) four_rounds).1 ≡ ended
run_rounds-ended_example =
    run_rounds-ended stopped (requesting a_record 1) four_rounds stopped_requested not_absent
      (answers_all-Meets, (answers_all-Meets, (answers_all-Meets, (answers_all-Meets, tt))))
      (omega arith)

-- Every text answers with an anomaly of score 3.
abbrev answering : JsonLibrary Value
answering = record announcing {
  is_boolean = λ v. true;
  is_number = λ v. true;
  get_bool = λ v. true;
}

abbrev small_doubles : Doubles Value ℕ
small_doubles = record { arithmetic = whole; get_double = λ v. 3; is_finite = λ x. true }

abbrev an_answer : AiResponse ℕ
an_answer = record {
  ok = true;
  flow_id = "AI_READY";
  model_version = "AI_READY";
  anomaly = true;
  score = 3;
  threshold = 3;
  error_code = "";
}

an_answer-accepted :
    parse_ai_response answering small_doubles "{}" "AI_READY" "AI_READY" ≡ accepted an_answer
unfolding parse_ai_response parse_body parse_scores holds
an_answer-accepted = refl

parse_ai_response-accepted_example :
    (object : Value) × (answering.parse "{}" ≡ some object)
    × (answering.is_object object ≡ true)
    × IsAnswerFor answering small_doubles object "AI_READY" "AI_READY" an_answer
parse_ai_response-accepted_example =
    parse_ai_response-accepted answering small_doubles "{}" "AI_READY" "AI_READY" an_answer
      an_answer-accepted
