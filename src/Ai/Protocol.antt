-- ===== src/Ai/Protocol.antt =====
-- src/ai/ai_protocol.h and ai_protocol.cpp, `parse_ai_response`: what is taken from the inference
-- process. A refusal is told by its message, and `json_error` is an exception. The conversion to a
-- double and the test for a finite one are parameters.
pub mod Answers
use Prim.Native.String.{String}
use ips_with_ai.Prelude.{
  ℕ, ◌>>=◌, Bool, true, false, not, ◌&&◌, ◌||◌, Option, none, some, if◌then◌else◌, ◌==◌, text_eq,
}
use ips_with_ai.Json.{JsonLibrary, ℤ, pos, negsuc, holds}
use ips_with_ai.Flow.Double.{Double}
use ips_with_ai.Ai.Types.{AiResponse}

pub data Refusal : Type 0 where
  not_an_object schema_version_wrong flow_id_differs model_version_differs ok_mistyped : Refusal
  error_code_wrong anomaly_mistyped score_mistyped score_out_of_range json_error : Refusal

pub data Parsed (F : Type 0) : Type 0 where
  refused : Refusal → Parsed F
  accepted : AiResponse F → Parsed F

pub record Doubles (J F : Type 0) : Type 0 where
  pub arithmetic : Double F
  pub get_double : J → F
  pub is_finite : F → Bool

abbrev pub is_schema_one : ℤ → Bool
is_schema_one (pos n) = n == 1
is_schema_one (negsuc n) = false

module _ {J F : Type 0} (json : JsonLibrary J) (doubles : Doubles J F) where
  abbrev pub zero_double : F
  zero_double = doubles.arithmetic.of_nat 0

  -- Whether a number can be a score or a threshold.
  abbrev pub is_in_range : F → Bool
  is_in_range x = doubles.is_finite x && not (doubles.arithmetic.less x zero_double)

  -- `AiResponse parsed` with its version and its flow.
  abbrev pub blank : String → String → Bool → AiResponse F
  blank flow_id model_version ok = record {
    ok = ok;
    flow_id = flow_id;
    model_version = model_version;
    anomaly = false;
    score = zero_double;
    threshold = zero_double;
    error_code = "";
  }

  unfoldable pub parse_failure : J → AiResponse F → Option (Parsed F)
  parse_failure response parsed = do
    coded ←
        holds json response "error_code"
          (λ v. json.is_string v && not (json.is_empty (json.get_string v)))
    if not coded then some (refused error_code_wrong) else (do
      code ← json.at response "error_code"
      some (accepted (record parsed { error_code = json.get_string code })))

  unfoldable pub parse_scores : J → AiResponse F → Option (Parsed F)
  parse_scores response parsed = do
    judged ← holds json response "anomaly" json.is_boolean
    if not judged then some (refused anomaly_mistyped) else (do
      scored ← holds json response "score" json.is_number
      limited ← if scored then holds json response "threshold" json.is_number else some false
      if not limited then some (refused score_mistyped) else (do
        score ← json.at response "score"
        threshold ← json.at response "threshold"
        if not
              (is_in_range (doubles.get_double score) && is_in_range (doubles.get_double threshold))
            then some (refused score_out_of_range)
            else (do
              anomaly ← json.at response "anomaly"
              some (
                  accepted (record parsed {
                    anomaly = json.get_bool anomaly;
                    score = doubles.get_double score;
                    threshold = doubles.get_double threshold;
                  })))))

  unfoldable pub parse_body : J → String → String → Option (Parsed F)
  parse_body response expected_flow_id expected_model_version = do
    versioned ←
        holds json response "schema_version"
          (λ v. json.is_number_integer v && is_schema_one (json.get_int v))
    if not versioned then some (refused schema_version_wrong) else (do
      same_flow ←
          holds json response "flow_id"
            (λ v. json.is_string v && text_eq (json.get_string v) expected_flow_id)
      if not same_flow then some (refused flow_id_differs) else (do
        same_model ←
            holds json response "model_version"
              (λ v. json.is_string v && text_eq (json.get_string v) expected_model_version)
        if not same_model then some (refused model_version_differs) else (do
          typed ← holds json response "ok" json.is_boolean
          if not typed then some (refused ok_mistyped) else (do
            ok ← json.at response "ok"
            let parsed = blank expected_flow_id expected_model_version (json.get_bool ok)
            if not (json.get_bool ok)
                then parse_failure response parsed
                else parse_scores response parsed))))

  abbrev pub or_json_error : Option (Parsed F) → Parsed F
  or_json_error none = refused json_error
  or_json_error (some parsed) = parsed

  unfoldable pub parse_ai_response : String → String → String → Parsed F
  parse_ai_response json_text expected_flow_id expected_model_version = or_json_error (do
    response ← json.parse json_text
    if not (json.is_object response)
        then some (refused not_an_object)
        else parse_body response expected_flow_id expected_model_version)
