-- ===== src/Ai.antt =====
-- src/ai: the records that pass between the capture pipeline and the inference process (flow_record.h,
-- ai_types.h), the features of a flow (flow_features.h, flow_features.cpp) and the client of the
-- inference process (async_ai_client.h, async_ai_client.cpp), with the reader of its responses
-- (ai_protocol.h, ai_protocol.cpp).
pub mod Types
pub mod Features
pub mod Client
pub mod Protocol
mod Tests
