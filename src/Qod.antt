-- ===== src/Qod.antt =====
-- The quality-on-demand sessions: af_core/src/qod/qod_state_manager.cpp and
-- af_core/src/qod/qod_session_manager.cpp.
pub mod Types
pub mod Profiles
pub mod Store
pub mod Requests
pub mod Sessions
pub mod Pcf
pub mod Lifecycle
pub mod Notifications
pub mod Handler
