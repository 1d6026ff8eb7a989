-- ===== src/Capture.antt =====
-- src/capture: parsing a packet (packet_parser.h, packet_parser.cpp), the pipeline that judges it
-- (packet_capture.h, packet_capture.cpp), the queue that packets come from (packet_source.h,
-- packet_source.cpp) and the rules that fill it (firewall_queue_guard.h, firewall_queue_guard.cpp).
pub mod Parser
pub mod Pipeline
pub mod Firewall
pub mod Source
pub mod Start
mod Tests
