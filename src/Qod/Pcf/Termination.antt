-- ===== src/Qod/Pcf/Termination.antt =====
-- The end of a PCF session, and the keys of UE states that the session manager forms, in
-- af_core/src/qod/qod_session_manager.cpp.
use phine_af.Prelude.{ℕ, String, Bool, true, false, Option, none, some, if◌then◌else◌}
use phine_af.Outcome.{Method, returns, pure, ◌>>=◌, ◌>>◌}
use phine_af.Ue.Common.{Common}
use phine_af.Ue.Key.{UeKey}
use phine_af.Ue.Manager.{UeStateManager}
use phine_af.Ue.Update.{remove_non_primary_ue_identifier}
use phine_af.Ue.PduSession.{remove_qod_session_from_pdu_session}
use phine_af.Qod.Types.{
  QodDevice, QodSession, StatusInfo, available, unavailable, network_terminated,
}
use phine_af.Qod.Store.{
  get_session_by_pcf_session_id, remove_session, remove_pcf_to_qod_session_mapping, same_status,
}
use phine_af.Qod.Sessions.{QodSessionManager, with_store}
use phine_af.Qod.Pcf.{session_key, notify_if}

-- The session that the end makes of one.
abbrev pub ended :
    {Credential : Type 0} → StatusInfo → ℕ → QodSession Credential → QodSession Credential
ended info now s = record s {
  qos_status = unavailable;
  status_info = some info;
  expires_at = some now;
}

abbrev pub public_of : QodDevice → Option String
public_of d = elim d.ipv4_address [ none ↦ none | some a ↦ some a.public_address ]

module _ {C : Common} {Credential : Type 0} where
  -- A call of the UE state manager, if there is one.
  abbrev pub on_ue :
      {A : Type 0} → A → Method (UeStateManager C) A → Method (QodSessionManager C Credential) A
  on_ue a method m = elim m.ue_state_manager [
    | none ↦ (returns a, m)
    | some u ↦ let r = method u in (r.0, record m { ue_state_manager = some r.1 })
  ]

  -- Without a UE state manager or a device there is no key; an ill-formed identifier throws.
  unfoldable pub create_or_get_ue_key :
      QodSession Credential → Method (QodSessionManager C Credential) (Option UeKey)
  unfolding session_key
  create_or_get_ue_key s m = elim m.ue_state_manager [
    | none ↦ (returns none, m)
    | some u ↦ elim s.device [ none ↦ (returns none, m) | some d ↦ (session_key s.ue_supi d, m) ]
  ]

  unfoldable pub unlink_by :
      QodSession Credential
      → String
      → ℕ
      → Option UeKey
      → Method (QodSessionManager C Credential) Bool
  unlink_by s i now none = pure false
  unlink_by s i now (some key) =
      on_ue false (remove_qod_session_from_pdu_session key i s.session_id now) >> pure true

  -- The session leaves its PDU session; false if there is no key. Without a PDU session or a UE
  -- state manager nothing is done.
  unfoldable pub unlink_session :
      QodSession Credential → ℕ → Method (QodSessionManager C Credential) Bool
  unfolding create_or_get_ue_key unlink_by
  unlink_session s now m = elim s.pdu_session_id [
    | none ↦ (returns true, m)
    | some i ↦ elim m.ue_state_manager [
      | none ↦ (returns true, m)
      | some u ↦ (create_or_get_ue_key s >>= unlink_by s i now) m
    ]
  ]

  unfoldable pub forget_address :
      Option String → String → UeKey → ℕ → Method (QodSessionManager C Credential) (Unit {0})
  forget_address none type key now = pure tt
  forget_address (some v) type key now =
      on_ue false (remove_non_primary_ue_identifier key type v now) >> pure tt

  unfoldable pub forget_by :
      QodDevice → ℕ → Option UeKey → Method (QodSessionManager C Credential) (Unit {0})
  unfolding forget_address
  forget_by d now none = pure tt
  forget_by d now (some key) =
      forget_address (public_of d) "ipv4" key now >> forget_address d.ipv6_address "ipv6" key now

  -- The addresses of the device are no longer known of the UE.
  unfoldable pub forget_addresses :
      QodSession Credential → ℕ → Method (QodSessionManager C Credential) (Unit {0})
  unfolding create_or_get_ue_key forget_by
  forget_addresses s now m = elim s.device [
    | none ↦ (returns tt, m)
    | some d ↦ (create_or_get_ue_key s >>= forget_by d now) m
  ]

  unfoldable pub tell_end : QodSession Credential → ℕ → Method (QodSessionManager C Credential) Bool
  unfolding forget_addresses notify_if
  tell_end s now =
      forget_addresses s now >> λ m. (returns true, notify_if s (some network_terminated) m)

  unfoldable pub tell_if :
      QodSession Credential → ℕ → Bool → Method (QodSessionManager C Credential) Bool
  unfolding tell_end
  tell_if s now unlinked m = if unlinked then tell_end s now m else (returns false, m)

  -- What is done for an available session before it is removed; false if the call ends here.
  unfoldable pub end_available :
      QodSession Credential → ℕ → Method (QodSessionManager C Credential) Bool
  unfolding unlink_session tell_if
  end_available s now = unlink_session s now >>= tell_if s now

  unfoldable pub end_if_available :
      QodSession Credential → ℕ → Method (QodSessionManager C Credential) Bool
  unfolding end_available
  end_if_available s now m =
      if same_status s.qos_status available
      then end_available (ended network_terminated now s) now m
      else (returns true, m)

  unfoldable pub remove_terminated :
      String → String → QodSessionManager C Credential → QodSessionManager C Credential
  remove_terminated i pcf m =
      with_store (remove_pcf_to_qod_session_mapping pcf (remove_session i m.qod_state_manager).1).1
        m

  unfoldable pub remove_if :
      String → String → Bool → Method (QodSessionManager C Credential) (Unit {0})
  unfolding remove_terminated
  remove_if i pcf go m = (returns tt, if go then remove_terminated i pcf m else m)

  -- The reason is only logged.
  unfoldable pub handle_pcf_session_terminated :
      String → ℕ → Method (QodSessionManager C Credential) (Unit {0})
  unfolding end_if_available remove_if
  handle_pcf_session_terminated pcf now m =
      elim (get_session_by_pcf_session_id pcf m.qod_state_manager) [
        | none ↦ (returns tt, m)
        | some s ↦ (end_if_available s now >>= remove_if s.session_id pcf) m
      ]
