-- ===== src/Flow.antt =====
-- src/flow: the statistics of a flow (flow.h) and the flow table (flow_manager.h,
-- flow_manager.cpp).
pub mod Double
pub mod Stats
pub mod Types
pub mod Touch
pub mod Manager
mod Tests
