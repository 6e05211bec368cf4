-- ===== src/Qod/Pcf.antt =====
-- The answers of the PCF in af_core/src/qod/qod_session_manager.cpp, and what they write to the UE
-- states. A call of the UE state manager can throw, and the exception is caught here, or be undefined.
pub mod Responses
pub mod Filters
pub mod Request
pub mod Termination
pub mod Exchange
use phine_af.Prelude.{
  ℕ, ◌+◌, String, Bool, true, false, ◌&&◌, Option, none, some, ◌==◌, is_some, if◌then◌else◌,
}
use phine_af.Outcome.{
  Outcome, Method, returns, throws, undefined, pure, lift, continue, ◌>>=◌, ◌>>◌,
}
use phine_af.Ue.Common.{Common}
use phine_af.Ue.Key.{
  UeKey, supi_based, gpsi_based, ipv4_based, ipv6_based, make_key, get_primary_key,
}
use phine_af.Ue.Manager.{UeStateManager}
use phine_af.Ue.Core.{promote_ue_state_to_resolved, merge_ue_states}
use phine_af.Ue.Search.{get_ue_state_by_supi}
use phine_af.Ue.PduSession.{add_qod_session_to_pdu_session}
use phine_af.Qod.Types.{
  QodDevice, QodSession, StatusInfo, available, unavailable, network_terminated,
}
use phine_af.Qod.Store.{get_session_by_id, update_session, update_pcf_session_map}
use phine_af.Qod.Sessions.{QodSessionManager, send_status_change_notification, with_store}

abbrev optional_key : Outcome UeKey → Outcome (Option UeKey)
optional_key (returns k) = returns (some k)
optional_key (throws e) = throws e
optional_key undefined = undefined

-- The key of a device: phone number, then IPv4, then IPv6.
unfoldable pub device_key : QodDevice → Outcome (Option UeKey)
device_key d = elim d.phone_number [
  | some v ↦ optional_key (make_key v gpsi_based)
  | none ↦ elim d.ipv4_address [
    | some a ↦ optional_key (make_key a.public_address ipv4_based)
    | none ↦ elim d.ipv6_address [
      | some v ↦ optional_key (make_key v ipv6_based)
      | none ↦ returns none
    ]
  ]
]

-- The key of a session: its SUPI, then its device.
unfoldable pub session_key : Option String → QodDevice → Outcome (Option UeKey)
unfolding device_key
session_key (some v) d = optional_key (make_key v supi_based)
session_key none d = device_key d

module _ {C : Common} where
  merge_existing : UeKey → UeKey → String → ℕ → Method (UeStateManager C) (Unit {0})
  merge_existing current supi_key v now = do
    existing ← get_ue_state_by_supi v
    if is_some existing then (merge_ue_states supi_key current now >> pure tt) else pure tt

  -- When the promotion returns false, a state of the SUPI is merged with that of the device.
  unfoldable pub promote_or_merge :
      UeKey → UeKey → String → ℕ → Method (UeStateManager C) (Unit {0})
  unfolding merge_existing
  promote_or_merge current supi_key v now = do
    promoted ← promote_ue_state_to_resolved current v now
    if promoted then pure tt else merge_existing current supi_key v now

  promote_unless : Bool → UeKey → UeKey → String → ℕ → Method (UeStateManager C) (Unit {0})
  unfolding promote_or_merge
  promote_unless same current supi_key v now =
      if same then pure tt else promote_or_merge current supi_key v now

  unfoldable pub promote_device :
      Option String → QodDevice → ℕ → Method (UeStateManager C) (Unit {0})
  unfolding promote_unless device_key
  promote_device none d now = pure tt
  promote_device (some v) d now = do
    found ← lift (device_key d)
    elim found [
      | none ↦ pure tt
      | some current ↦ (do
        supi_key ← lift (make_key v supi_based)
        promote_unless (get_primary_key current == get_primary_key supi_key) current supi_key v now)
    ]

  unfoldable pub link_session :
      Option String → Option String → QodDevice → String → ℕ → Method (UeStateManager C) (Unit {0})
  unfolding session_key
  link_session none supi d q now = pure tt
  link_session (some i) supi d q now = do
    found ← lift (session_key supi d)
    elim found [
      | none ↦ pure tt
      | some key ↦ (add_qod_session_to_pdu_session key i q now >> pure tt)
    ]

  abbrev pub caught : Outcome (Unit {0}) × UeStateManager C → Outcome (Unit {0}) × UeStateManager C
  caught (throws e, m) = (returns tt, m)
  caught r = r

  unfoldable pub update_ue_state_from_pcf_response :
      {Credential : Type 0}
      → QodSession Credential
      → ℕ
      → Option (UeStateManager C)
      → Outcome (Unit {0}) × Option (UeStateManager C)
  unfolding promote_device link_session
  update_ue_state_from_pcf_response s now none = (returns tt, none)
  update_ue_state_from_pcf_response s now (some m) = elim s.device [
    | none ↦ (returns tt, some m)
    | some d ↦
        let r = caught (
          (promote_device s.ue_supi d now
              >> link_session s.pdu_session_id s.ue_supi d s.session_id now)
            m) in
        (r.0, some r.1)
  ]

-- The session that a positive answer makes of one, and that a negative one makes.
abbrev pub confirmed :
    {Credential : Type 0} → String → ℕ → QodSession Credential → QodSession Credential
confirmed pcf now s = record s {
  qos_status = available;
  pcf_session_id = some pcf;
  started_at = some now;
  expires_at = some (now + s.duration);
}

abbrev pub refused : {Credential : Type 0} → String → QodSession Credential → QodSession Credential
refused message s = record s {
  qos_status = unavailable;
  status_info = some network_terminated;
  error_message = some message;
}

module _ {C : Common} {Credential : Type 0} where
  unfoldable pub notify_if :
      QodSession Credential
      → Option StatusInfo
      → QodSessionManager C Credential
      → QodSessionManager C Credential
  unfolding send_status_change_notification
  notify_if s info m =
      if is_some s.sink && m.config.enable_notifications
      then send_status_change_notification s info m
      else m

  abbrev pub stored :
      QodSession Credential → QodSessionManager C Credential → QodSessionManager C Credential
  stored s m = with_store (update_session s m.qod_state_manager).1 m

  -- The UE state is written before the answer is stored, whatever the status of the session was.
  unfoldable pub confirm :
      String
      → String
      → ℕ
      → QodSession Credential
      → Method (QodSessionManager C Credential) (Unit {0})
  unfolding update_ue_state_from_pcf_response notify_if
  confirm i pcf now s m =
      let s' = confirmed pcf now s in
      let r = update_ue_state_from_pcf_response s' now m.ue_state_manager in
      let written = record m { ue_state_manager = r.1 } in
      let mapped = with_store (update_pcf_session_map pcf i m.qod_state_manager) written in
      continue r.0 (λ _ n. (returns tt, stored s' (notify_if s' none mapped))) written

  unfoldable pub handle_pcf_session_response :
      String → String → Bool → String → ℕ → Method (QodSessionManager C Credential) (Unit {0})
  unfolding confirm
  handle_pcf_session_response i pcf success message now m =
      elim (get_session_by_id i m.qod_state_manager) [
        | none ↦ (returns tt, m)
        | some s ↦
            let s' = refused message s in
            if success
            then confirm i pcf now s m
            else (returns tt, stored s' (notify_if s' (some network_terminated) m))
      ]
