-- ===== src/App.antt =====
-- src/app: the supervisor of the inference process and its check of paths (ai_process_supervisor.h,
-- ai_process_supervisor.cpp), and the controller that wires the parts together
-- (application_controller.h, application_controller.cpp).
pub mod Supervisor
pub mod Controller
pub mod Paths
mod Tests
