-- ===== src/Ai/Protocol/Answers.antt =====
-- src/ai/ai_protocol.cpp: what a response that is accepted says.
use Prim.Native.String.{String}
use ips_with_ai.Prelude.{
  ◌>>=◌, bind-some, Bool, true, false, not, ◌&&◌, Option, none, some, if◌then◌else◌, ◌≡◌, refl,
  arith, text_eq, ap, subst, sym, ◌∙◌,
}
use ips_with_ai.Json.{JsonLibrary, holds}
use ips_with_ai.Ai.Types.{AiResponse}
use ips_with_ai.Ai.Protocol.{
  Refusal, not_an_object, schema_version_wrong, flow_id_differs, model_version_differs, ok_mistyped,
  error_code_wrong, anomaly_mistyped, score_mistyped, score_out_of_range, Parsed, refused, accepted,
  Doubles, is_in_range, blank, is_schema_one, parse_failure, parse_scores, parse_body,
  or_json_error, parse_ai_response,
}

-- Checks that a result has passed.
passed_test :
    {F : Type 0} (b : Bool) (x : Refusal) {rest : Option (Parsed F)} {r : AiResponse F}
    → (if not b then some (refused x) else rest) ≡ some (accepted r)
    → (b ≡ true) × (rest ≡ some (accepted r))
passed_test true x h = (refl, h)
passed_test false x h = ground arith

tested :
    {J : Type 0} (b : Bool) (o : Option J) (p : J → Bool)
    → (if b then (o >>= λ v. some (p v)) else some false) ≡ some true
    → (v : J) × (o ≡ some v) × (p v ≡ true)
tested false o p h = ground arith
tested true none p h = ground arith
tested true (some v) p h = (v, refl, ground arith)

only_if_true :
    (b : Bool) (o : Option Bool)
    → (if b then o else some false) ≡ some true
    → (b ≡ true) × (o ≡ some true)
only_if_true true o h = (refl, h)
only_if_true false o h = ground arith

both : (a b : Bool) → (a && b) ≡ true → (a ≡ true) × (b ≡ true)
both a b h = ground arith

some-injective : {J : Type 0} (v w : J) → some v ≡ some w → v ≡ w
some-injective v w h = ground arith

named :
    {J : Type 0} (o : Option J) (p : J → Bool) (v w : J)
    → o ≡ some v
    → o ≡ some w
    → p v ≡ true
    → p w ≡ true
named o p v w hv hw h = subst (λ x. p x ≡ true) (some-injective v w (sym hv ∙ hw)) h

not-false : (b : Bool) → not b ≡ true → b ≡ false
not-false b h = ground arith

abbrev accepted_at : {F : Type 0} → AiResponse F → Option (Parsed F) → AiResponse F
accepted_at d (some (accepted r)) = r
accepted_at d _ = d

accepted-injective :
    {F : Type 0} (a r : AiResponse F) → some (accepted a) ≡ some (accepted r) → r ≡ a
accepted-injective a r h = sym (ap (accepted_at a) h)

passed :
    {F : Type 0} (o : Option Bool) (x : Refusal) {rest : Option (Parsed F)} {r : AiResponse F}
    → (o >>= λ b. if not b then some (refused x) else rest) ≡ some (accepted r)
    → (o ≡ some true) × (rest ≡ some (accepted r))
passed none x h = ground arith
passed (some true) x h = (refl, h)
passed (some false) x h = ground arith

module _ {J F : Type 0} (json : JsonLibrary J) (doubles : Doubles J F) where
  -- The object has the key with a value that passes the test.
  abbrev pub Has : J → String → (J → Bool) → Type 0
  Has object key p = (v : J) × (json.at object key ≡ some v) × (p v ≡ true)

  holds-Has :
      (object : J) (key : String) (p : J → Bool)
      → holds json object key p ≡ some true
      → Has object key p
  unfolding holds
  holds-Has object key p h = tested (json.contains object key) (json.at object key) p h

  -- What an accepted response says, after the object it is read from.
  pub record IsAnswer (object : J) (r : AiResponse F) : Type 0 where
    pub failure :
        r.ok ≡ false
        → (code : J) × (json.at object "error_code" ≡ some code)
          × (json.is_empty r.error_code ≡ false)
          × (r ≡ record (blank json doubles r.flow_id r.model_version false) {
            error_code = json.get_string code;
          })
    pub success :
        r.ok ≡ true
        → (a s t : J) × (json.at object "anomaly" ≡ some a)
          × (json.at object "score" ≡ some s)
          × (json.at object "threshold" ≡ some t)
          × (is_in_range json doubles r.score ≡ true)
          × (is_in_range json doubles r.threshold ≡ true)
          × (r ≡ record (blank json doubles r.flow_id r.model_version true) {
            anomaly = json.get_bool a;
            score = doubles.get_double s;
            threshold = doubles.get_double t;
          })

  parse_failure-accepted :
      (object : J) (parsed r : AiResponse F)
      → parse_failure json doubles object parsed ≡ some (accepted r)
      → (code : J) × (json.at object "error_code" ≡ some code)
        × (json.is_empty (json.get_string code) ≡ false)
        × (r ≡ record parsed { error_code = json.get_string code })
  unfolding parse_failure
  parse_failure-accepted object parsed r h =
      let (coded, h1) =
        passed
          (holds json object "error_code"
            (λ v. json.is_string v && not (json.is_empty (json.get_string v))))
          error_code_wrong h in
      let (v, at_v, is_named) =
        holds-Has object "error_code"
          (λ v. json.is_string v && not (json.is_empty (json.get_string v))) coded in
      let (code, at_code, h2) = bind-some (json.at object "error_code") h1 in
      (
        code,
        at_code,
        not-false _
            (both (json.is_string code) (not (json.is_empty (json.get_string code))) (
              named (json.at object "error_code")
                (λ x. json.is_string x && not (json.is_empty (json.get_string x))) v code at_v
                at_code is_named)).1,
        accepted-injective _ r h2,
      )

  parse_scores-accepted :
      (object : J) (parsed r : AiResponse F)
      → parse_scores json doubles object parsed ≡ some (accepted r)
      → (a s t : J) × (json.at object "anomaly" ≡ some a)
        × (json.at object "score" ≡ some s)
        × (json.at object "threshold" ≡ some t)
        × (is_in_range json doubles (doubles.get_double s) ≡ true)
        × (is_in_range json doubles (doubles.get_double t) ≡ true)
        × (r ≡ record parsed {
          anomaly = json.get_bool a;
          score = doubles.get_double s;
          threshold = doubles.get_double t;
        })
  unfolding parse_scores
  parse_scores-accepted object parsed r h =
      let (judged, h1) = passed (holds json object "anomaly" json.is_boolean) anomaly_mistyped h in
      let (scored, told, h2) = bind-some (holds json object "score" json.is_number) h1 in
      let (limited, h3) =
        passed (if scored then holds json object "threshold" json.is_number else some false)
          score_mistyped h2 in
      let (score, at_score, h4) = bind-some (json.at object "score") h3 in
      let (threshold, at_threshold, h5) = bind-some (json.at object "threshold") h4 in
      let (ranged, h6) =
        passed_test
          (is_in_range json doubles (doubles.get_double score)
            && is_in_range json doubles (doubles.get_double threshold))
          score_out_of_range h5 in
      let (anomaly, at_anomaly, h7) = bind-some (json.at object "anomaly") h6 in
      (
        anomaly,
        score,
        threshold,
        at_anomaly,
        at_score,
        at_threshold,
        (both (is_in_range json doubles (doubles.get_double score))
            (is_in_range json doubles (doubles.get_double threshold)) ranged).0,
        (both (is_in_range json doubles (doubles.get_double score))
            (is_in_range json doubles (doubles.get_double threshold)) ranged).1,
        accepted-injective _ r h7,
      )

  answer :
      (object : J) (flow model : String) (r : AiResponse F) (ok : Bool)
      → (if not ok
          then parse_failure json doubles object (blank json doubles flow model ok)
          else parse_scores json doubles object (blank json doubles flow model ok))
        ≡ some (accepted r)
      → (r.ok ≡ ok) × (r.flow_id ≡ flow) × (r.model_version ≡ model) × IsAnswer object r
  answer object flow model r true h =
      let (a, s, t, at_a, at_s, at_t, score, threshold, e) =
        parse_scores-accepted object (blank json doubles flow model true) r h in
      rw (e) (
        refl,
        refl,
        refl,
        record {
          failure = λ f. ground arith;
          success = λ _. (a, s, t, at_a, at_s, at_t, score, threshold, refl);
        },
      )
  answer object flow model r false h =
      let (code, at_code, filled, e) =
        parse_failure-accepted object (blank json doubles flow model false) r h in
      rw (e) (
        refl,
        refl,
        refl,
        record { failure = λ _. (code, at_code, filled, refl); success = λ f. ground arith },
      )

  -- What an object that is accepted for a flow and a model says: the schema is 1, both are named, and
  -- the response names them and holds the object's answer.
  abbrev pub IsAnswerFor : J → String → String → AiResponse F → Type 0
  IsAnswerFor object flow model r =
      Has object "schema_version" (λ v. json.is_number_integer v && is_schema_one (json.get_int v))
      × Has object "flow_id" (λ v. json.is_string v && text_eq (json.get_string v) flow)
      × Has object "model_version" (λ v. json.is_string v && text_eq (json.get_string v) model)
      × ((v : J) × (json.at object "ok" ≡ some v) × (r.ok ≡ json.get_bool v))
      × (r.flow_id ≡ flow)
      × (r.model_version ≡ model)
      × IsAnswer object r

  parse_body-accepted :
      (object : J) (flow model : String) (r : AiResponse F)
      → parse_body json doubles object flow model ≡ some (accepted r)
      → IsAnswerFor object flow model r
  unfolding parse_body
  parse_body-accepted object flow model r h =
      let (versioned, h1) =
        passed
          (holds json object "schema_version"
            (λ v. json.is_number_integer v && is_schema_one (json.get_int v)))
          schema_version_wrong h in
      let (same_flow, h2) =
        passed
          (holds json object "flow_id" (λ v. json.is_string v && text_eq (json.get_string v) flow))
          flow_id_differs h1 in
      let (same_model, h3) =
        passed
          (holds json object "model_version"
            (λ v. json.is_string v && text_eq (json.get_string v) model))
          model_version_differs h2 in
      let (typed, h4) = passed (holds json object "ok" json.is_boolean) ok_mistyped h3 in
      let (ok, at_ok, h5) = bind-some (json.at object "ok") h4 in
      let a = answer object flow model r (json.get_bool ok) h5 in
      (
        holds-Has object "schema_version" _ versioned,
        holds-Has object "flow_id" _ same_flow,
        holds-Has object "model_version" _ same_model,
        (ok, at_ok, a.0),
        a.1,
        a.2,
        a.3,
      )

  result_of :
      (o : Option (Parsed F)) (r : AiResponse F)
      → or_json_error json doubles o ≡ accepted r
      → o ≡ some (accepted r)
  result_of none r h = ground arith
  result_of (some parsed) r h = ap some h

  -- An accepted response was read from a text that is a JSON object of schema 1 that names the flow and
  -- the model that were asked for, names these itself, and is a success or a failure as the object's ok
  -- says. If it is a failure, then it has an error code
  -- that is not empty, and nothing else; if not, then the anomaly, the score and the threshold are the
  -- object's, no error code is given, and the score and the threshold are finite and not less than 0.
  pub parse_ai_response-accepted :
      (text flow model : String) (r : AiResponse F)
      → parse_ai_response json doubles text flow model ≡ accepted r
      → (object : J) × (json.parse text ≡ some object)
        × (json.is_object object ≡ true)
        × IsAnswerFor object flow model r
  unfolding parse_ai_response
  parse_ai_response-accepted text flow model r h =
      let (object, parsed, h1) = bind-some (json.parse text) (result_of _ r h) in
      let (is_object, h2) = passed_test (json.is_object object) not_an_object h1 in
      (object, parsed, is_object, parse_body-accepted object flow model r h2)
