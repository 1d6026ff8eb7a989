-- ===== src/Ai/Types.antt =====
-- src/ai/flow_record.h and ai_types.h. A flow id is the text of the sensor's instance number and of a
-- sequence number with a dash between them, and stands here as the two numbers.
use Prim.Native.String.{String}
use ips_with_ai.Prelude.{ℕ, Bool, List}
use ips_with_ai.Common.FiveTuple.{FiveTuple}
use ips_with_ai.Flow.Types.{FlowEndReason}

abbrev pub flow_feature_count : ℕ
flow_feature_count = 27

abbrev pub flow_feature_schema_version : ℕ
flow_feature_schema_version = 1

pub record FlowId : Type 0 where
  pub sensor : ℕ
  pub sequence : ℕ

pub record FlowRecord (F : Type 0) : Type 0 where
  pub flow_id : FlowId
  pub key : FiveTuple
  pub first_seen_ms : ℕ
  pub last_seen_ms : ℕ
  pub end_reason : FlowEndReason
  pub feature_schema_version : ℕ
  pub features : List F

-- The states of the inference process.
pub data AiState : Type 0 where
  disabled starting online restart_wait offline stopping : AiState

pub record AiResponse (F : Type 0) : Type 0 where
  pub ok : Bool
  pub flow_id : String
  pub model_version : String
  pub anomaly : Bool
  pub score : F
  pub threshold : F
  pub error_code : String

pub record AiDecision (F : Type 0) : Type 0 where
  pub flow_record : FlowRecord F
  pub anomaly : Bool
  pub score : F
  pub threshold : F
  pub model_version : String

pub record AiBlockEvent (F : Type 0) : Type 0 where
  pub flow_id : FlowId
  pub source_ip : ℕ
  pub score : F
  pub threshold : F
  pub ttl_seconds : ℕ
  pub model_version : String
