-- ===== src/Qod/Lifecycle/Termination.antt =====
-- What the end of a PCF session leaves in the session store.
use phine_af.Prelude.{ℕ, String, Bool, ◌≡◌, ◌⊎◌, false, ◌&&◌, none, ◌==◌, if◌then◌else◌}
use phine_af.Map.{find}
use phine_af.Ue.Common.{Common}
use phine_af.Qod.Types.{QodSession}
use phine_af.Qod.Store.{get_session_by_id}
use phine_af.Qod.Store.Invariant.{Inv}
use phine_af.Qod.Sessions.{QodSessionManager}
use phine_af.Qod.Pcf.Termination.{end_if_available}
use phine_af.Qod.Lifecycle.Deletion.{succeeded}
use phine_af.Qod.Lifecycle.Frame.{Keeps}

module _ {C : Common} {Credential : Type 0} where
  -- Whether the calls before the removal went through.
  abbrev pub goes_on : QodSession Credential → ℕ → QodSessionManager C Credential → Bool
  goes_on s now m = succeeded (end_if_available s now m).0

  -- A PCF session is mapped to nothing, unless the calls before ended it.
  abbrev pub Unmaps : Bool → String → QodSessionManager C Credential → Type 0
  Unmaps go pcf n = (go ≡ false) ⊎ (find pcf n.qod_state_manager.pcf_session_mapping ≡ none)

  abbrev Removes :
      Bool → String → QodSessionManager C Credential → QodSessionManager C Credential → Type 0
  Removes go i m n =
      ((j : String)
        → get_session_by_id j n.qod_state_manager
          ≡ (if go && (i == j) then none else get_session_by_id j m.qod_state_manager))
      × (Inv m.qod_state_manager → Inv n.qod_state_manager)
