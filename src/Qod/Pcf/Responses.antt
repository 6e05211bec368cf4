-- ===== src/Qod/Pcf/Responses.antt =====
-- What the answers of the PCF leave in the session store.
use phine_af.Prelude.{
  ℕ, ◌+◌, String, ◌≡◌, refl, ◌∙◌, ap, true, false, ◌&&◌, Option, none, some, ◌==◌, eq_refl, is_some,
  Bool-cases, inl, inr, if◌then◌else◌,
}
use phine_af.Map.{find-put_self}
use phine_af.Outcome.{returns}
use phine_af.Ue.Common.{Common}
use phine_af.Qod.Types.{QodSession, StatusInfo, available, network_terminated}
use phine_af.Qod.Store.{
  get_session_by_id, get_session_by_pcf_session_id, update_session, update_pcf_session_map,
}
use phine_af.Qod.Store.Finds.{find-update_session}
use phine_af.Qod.Sessions.{QodSessionManager, with_store}
use phine_af.Qod.Sessions.Cleanup.{send-keep}
use phine_af.Qod.Pcf.{
  confirmed, refused, notify_if, confirm, handle_pcf_session_response,
  update_ue_state_from_pcf_response,
}

-- A session that is available from now on for its duration.
abbrev pub available_from :
    {Credential : Type 0} → String → ℕ → QodSession Credential → QodSession Credential
available_from pcf now s = record s {
  qos_status = available;
  pcf_session_id = some pcf;
  started_at = some now;
  expires_at = some (now + s.duration);
}

module _ {C : Common} {Credential : Type 0} where
  pub notify-keep :
      (s : QodSession Credential) (info : Option StatusInfo) (m : QodSessionManager C Credential)
      → (notify_if s info m).qod_state_manager ≡ m.qod_state_manager
  unfolding notify_if
  notify-keep s info m = elim (Bool-cases (is_some s.sink && m.config.enable_notifications)) [
    | inl e ↦ rw (notify_if, e) (send-keep s info m)
    | inr e ↦ rw (notify_if, e) refl
  ]

  -- A negative answer for a stored session returns and leaves it unavailable, terminated by the
  -- network and with the message, whatever its status was; its expiry is as it was, and so is every
  -- other session.
  response-refused :
      (s : QodSession Credential) (pcf message : String) (now : ℕ)
      (m : QodSessionManager C Credential)
      → get_session_by_id s.session_id m.qod_state_manager ≡ some s
      → ((handle_pcf_session_response s.session_id pcf false message now m).0 ≡ returns tt)
        × ((j : String)
            → get_session_by_id j
                (handle_pcf_session_response s.session_id pcf false message now
                  m).1.qod_state_manager
              ≡ (if s.session_id == j
                  then some (refused message s)
                  else get_session_by_id j m.qod_state_manager))
        × ((refused message s).expires_at ≡ s.expires_at)
  unfolding handle_pcf_session_response
  response-refused s pcf message now m e = (
    rw (handle_pcf_session_response, e) refl,
    (λ j.
        rw (handle_pcf_session_response, e)
          (ap (λ st. get_session_by_id j (update_session (refused message s) st).1)
              (notify-keep (refused message s) (some network_terminated) m)
            ∙ find-update_session (refused message s) s j m.qod_state_manager e)),
    refl,
  )

  confirmed-store :
      (s : QodSession Credential) (pcf message : String) (now : ℕ)
      (m : QodSessionManager C Credential)
      → get_session_by_id s.session_id m.qod_state_manager ≡ some s
      → (update_ue_state_from_pcf_response (confirmed pcf now s) now m.ue_state_manager).0
        ≡ returns tt
      → ((handle_pcf_session_response s.session_id pcf true message now m).0 ≡ returns tt)
        × ((handle_pcf_session_response s.session_id pcf true message now m).1.qod_state_manager
            ≡ (update_session
                (confirmed pcf now s)
                (update_pcf_session_map pcf s.session_id m.qod_state_manager)).1)
  unfolding handle_pcf_session_response confirm
  confirmed-store s pcf message now m e w =
      let s' = confirmed pcf now s in
      let r = update_ue_state_from_pcf_response s' now m.ue_state_manager in
      let mapped =
        with_store (update_pcf_session_map pcf s.session_id m.qod_state_manager)
          (record m { ue_state_manager = r.1 }) in
      (
        rw (handle_pcf_session_response, e, confirm, w) refl,
        rw (handle_pcf_session_response, e, confirm, w)
            (ap (λ st. (update_session s' st).1) (notify-keep s' none mapped)),
      )

  -- A positive answer for a stored session, whatever its status was, when the UE state can be
  -- written: the call returns, the session is available, started at the time of the call and expires
  -- its duration later, it is found by its own and by the PCF's identifier, and every other session
  -- is as it was.
  pub response-confirmed :
      (s : QodSession Credential) (pcf message : String) (now : ℕ)
      (m : QodSessionManager C Credential)
      → get_session_by_id s.session_id m.qod_state_manager ≡ some s
      → (update_ue_state_from_pcf_response (confirmed pcf now s) now m.ue_state_manager).0
        ≡ returns tt
      → ((handle_pcf_session_response s.session_id pcf true message now m).0 ≡ returns tt)
        × ((j : String)
            → get_session_by_id j
                (handle_pcf_session_response s.session_id pcf true message now
                  m).1.qod_state_manager
              ≡ (if s.session_id == j
                  then some (available_from pcf now s)
                  else get_session_by_id j m.qod_state_manager))
        × (get_session_by_pcf_session_id pcf
              (handle_pcf_session_response s.session_id pcf true message now m).1.qod_state_manager
            ≡ some (available_from pcf now s))
  unfolding update_pcf_session_map get_session_by_pcf_session_id update_session
  response-confirmed s pcf message now m e w =
      let done = confirmed-store s pcf message now m e w in
      let mapped = update_pcf_session_map pcf s.session_id m.qod_state_manager in
      (
        done.0,
        (λ j. rw done.1 (find-update_session (confirmed pcf now s) s j mapped e)),
        rw done.1 (
            rw (get_session_by_pcf_session_id, update_session, e, find-put_self)
              (find-update_session (confirmed pcf now s) s s.session_id mapped e
                ∙ rw (eq_refl s.session_id) refl)),
      )
