-- ===== src/Ue.antt =====
-- af_core/include/models/ue_state.h, af_core/src/models/ue_key.cpp and
-- af_core/src/ue_state_manager.cpp: what the application function knows of each UE.
pub mod Common
pub mod Key
pub mod Data
pub mod State
pub mod Manager
pub mod Core
pub mod Search
pub mod Invariant
pub mod Update
pub mod PduSession
pub mod Run
