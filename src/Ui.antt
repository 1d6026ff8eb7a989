-- ===== src/Ui.antt =====
-- src/ui: the icon in the system tray (tray_controller.h, tray_controller.cpp).
pub mod Tray
