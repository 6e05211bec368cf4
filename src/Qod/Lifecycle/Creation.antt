-- ===== src/Qod/Lifecycle/Creation.antt =====
-- What the creation of a session leaves in the session store, for the answers of the PCF.
use phine_af.Prelude.{
  ℕ, String, ◌≡◌, refl, ◌∙◌, ap, true, false, Option, none, some, arith, ◌==◌, eq_refl,
  Option-cases, inl, inr, if◌then◌else◌,
}
use phine_af.Map.{find-put}
use phine_af.Outcome.{returns}
use phine_af.Json.{JsonLib, Message, Answer}
use phine_af.Ue.Common.{Common}
use phine_af.Ue.Manager.{UeStateManager}
use phine_af.Qod.Types.{QodSession, QosProfileMapping, unavailable, network_terminated}
use phine_af.Qod.Store.{
  QodStateManager, get_session_by_id, get_session_by_pcf_session_id, add_session,
  update_session_status, has_expired,
}
use phine_af.Qod.Store.Finds.{find-add_session}
use phine_af.Qod.Sessions.{QodSessionManager, with_store}
use phine_af.Qod.Pcf.{
  confirmed, notify_if, handle_pcf_session_response, update_ue_state_from_pcf_response,
}
use phine_af.Qod.Pcf.Responses.{available_from, response-confirmed, notify-keep}
use phine_af.Qod.Pcf.Exchange.{
  is_connected, failed, create_message, process_answer, confirmed_answer, apply_session_to_pcf,
}
use phine_af.Qod.Lifecycle.{start_session, started_or_failed, report_failure}
use phine_af.Qod.Lifecycle.Ue.{create_or_update_ue_state}

-- What a creation makes of a session for which the PCF could not be asked.
abbrev pub unconnected : {Credential : Type 0} → QodSession Credential → QodSession Credential
unconnected s = record s { qos_status = unavailable; status_info = some network_terminated }

module _ {C : Common} {Credential : Type 0} where
  abbrev with_ue :
      Option (UeStateManager C) → QodSessionManager C Credential → QodSessionManager C Credential
  with_ue u m = record m { ue_state_manager = u }

  abbrev pub added :
      QodSession Credential → QodSessionManager C Credential → QodSessionManager C Credential
  added s m = with_store (add_session s m.qod_state_manager) m

  -- The manager after the session is stored and its UE state is written.
  abbrev pub prepared :
      QodSession Credential → ℕ → QodSessionManager C Credential → QodSessionManager C Credential
  prepared s now m = (create_or_update_ue_state s now (added s m)).1

  ue-written :
      (s : QodSession Credential) (now : ℕ) (m : QodSessionManager C Credential)
      → (create_or_update_ue_state s now m).1
        ≡ with_ue (create_or_update_ue_state s now m).1.ue_state_manager m
  unfolding create_or_update_ue_state
  ue-written s now m = elim (Option-cases s.device) [
    | inl e ↦ rw (create_or_update_ue_state, e) refl
    | inr (d, e) ↦ elim (Option-cases m.ue_state_manager) [
      | inl f ↦ rw (create_or_update_ue_state, e, f) refl
      | inr (u, f) ↦ rw (create_or_update_ue_state, e, f) refl
    ]
  ]

  abbrev failing : String → QodSessionManager C Credential → QodStateManager Credential
  failing i m =
      (update_session_status i unavailable (some network_terminated) m.qod_state_manager).1

  reported :
      (i : String) (s : QodSession Credential) (m : QodSessionManager C Credential)
      → get_session_by_id i (failing i m) ≡ some s
      → report_failure i m
        ≡ (returns (some s), notify_if s (some network_terminated) (with_store (failing i m) m))
  unfolding report_failure
  reported i s m e = rw (report_failure, e) refl

module _ (J : JsonLib) {C : Common} {Credential : Type 0} where
  open J use {Json, parse, text_or}

  confirmed-answered :
      (r : Message) (i pcf : String) (j : Json) (now : ℕ) (m : QodSessionManager C Credential)
      → r.message_type ≡ "pcf_qod_session_created"
      → parse r.payload ≡ returns j
      → text_or "pcf_session_id" "" j ≡ returns pcf
      → (handle_pcf_session_response i pcf true "" now m).0 ≡ returns tt
      → process_answer J i (some r) now m
        ≡ (returns true, (handle_pcf_session_response i pcf true "" now m).1)
  unfolding process_answer confirmed_answer
  confirmed-answered r i pcf j now m e f g h =
      rw (process_answer, e, f, confirmed_answer, g, h) refl

  applied-confirmed :
      (serialize : QosProfileMapping → Json) (answer : Answer) (s : QodSession Credential) (now : ℕ)
      (m : QodSessionManager C Credential) (r : Message) (pcf : String) (j : Json)
      → is_connected m ≡ true
      → answer m.pcf_destination (create_message J serialize s) ≡ returns (some r)
      → r.message_type ≡ "pcf_qod_session_created"
      → parse r.payload ≡ returns j
      → text_or "pcf_session_id" "" j ≡ returns pcf
      → (handle_pcf_session_response s.session_id pcf true "" now m).0 ≡ returns tt
      → apply_session_to_pcf J serialize answer s now m
        ≡ (returns true, (handle_pcf_session_response s.session_id pcf true "" now m).1)
  unfolding apply_session_to_pcf
  applied-confirmed serialize answer s now m r pcf j c a e f g h =
      rw (apply_session_to_pcf, c, a)
        (ap failed (confirmed-answered r s.session_id pcf j now m e f g h))

  -- If the PCF is connected and confirms the session that is being created, and the UE state can be
  -- written before and after, the creation returns: the copy that it returns is as it was requested
  -- but for the transaction identifier, and has not started, while the stored session is available,
  -- expires its duration after the call, and is found by the identifiers of the session and of the
  -- PCF; every other session is as it was.
  pub start-confirmed :
      (serialize : QosProfileMapping → Json) (answer : Answer) (s : QodSession Credential) (now : ℕ)
      (m : QodSessionManager C Credential) (r : Message) (pcf : String) (j : Json)
      → is_connected m ≡ true
      → answer m.pcf_destination (create_message J serialize s) ≡ returns (some r)
      → r.message_type ≡ "pcf_qod_session_created"
      → parse r.payload ≡ returns j
      → text_or "pcf_session_id" "" j ≡ returns pcf
      → (create_or_update_ue_state s now (added s m)).0 ≡ returns tt
      → (update_ue_state_from_pcf_response
          (confirmed pcf now s)
          now
          (prepared s now m).ue_state_manager).0
        ≡ returns tt
      → ((start_session J serialize answer s now m).0
          ≡ returns (some (record s { pcf_transaction_id = some s.session_id })))
        × ((i : String)
            → get_session_by_id i (start_session J serialize answer s now m).1.qod_state_manager ≡ (
                if s.session_id == i
                then some (available_from pcf now s)
                else get_session_by_id i m.qod_state_manager))
        × (get_session_by_pcf_session_id pcf
              (start_session J serialize answer s now m).1.qod_state_manager
            ≡ some (available_from pcf now s))
  unfolding start_session started_or_failed
  start-confirmed serialize answer s now m r pcf j c a e f g w v =
      let n = with_ue (prepared s now m).ue_state_manager (added s m) in
      let stored : get_session_by_id s.session_id (add_session s m.qod_state_manager) ≡ some s =
        find-add_session s s.session_id m.qod_state_manager ∙ rw (eq_refl s.session_id) refl in
      let done = response-confirmed s pcf "" now n stored v in
      let applied = applied-confirmed serialize answer s now n r pcf j c a e f g done.0 in
      let all : start_session J serialize answer s now m ≡ (
        returns (some (record s { pcf_transaction_id = some s.session_id })),
        (handle_pcf_session_response s.session_id pcf true "" now n).1,
      ) =
        rw (start_session, w, ue-written s now (added s m), applied) refl in
      (
        ap (λ x. x.0) all,
        (λ i.
            ap (λ x. get_session_by_id i x.1.qod_state_manager) all
            ∙ done.1 i
            ∙ ap (λ x. if s.session_id == i then some (confirmed pcf now s) else x)
                (find-add_session s i m.qod_state_manager)
            ∙ ground arith),
        ap (λ x. get_session_by_pcf_session_id pcf x.1.qod_state_manager) all ∙ done.2,
      )

  -- If the PCF is not connected and the UE state can be written, the creation returns the session as
  -- it is stored: unavailable and terminated by the network, with the expiry it had; every other
  -- session is as it was. A new session has no expiry, so that it is not counted as expired at any
  -- time.
  start-unconnected :
      (serialize : QosProfileMapping → Json) (answer : Answer) (s : QodSession Credential) (now : ℕ)
      (m : QodSessionManager C Credential)
      → is_connected m ≡ false
      → s.expires_at ≡ none
      → (create_or_update_ue_state s now (added s m)).0 ≡ returns tt
      → ((start_session J serialize answer s now m).0 ≡ returns (some (unconnected s)))
        × ((i : String)
            → get_session_by_id i (start_session J serialize answer s now m).1.qod_state_manager ≡ (
                if s.session_id == i
                then some (unconnected s)
                else get_session_by_id i m.qod_state_manager))
        × ((later grace : ℕ) → has_expired later grace (unconnected s) ≡ false)
  unfolding start_session started_or_failed apply_session_to_pcf update_session_status
  start-unconnected serialize answer s now m c e w =
      let n = with_ue (prepared s now m).ue_state_manager (added s m) in
      let stored : get_session_by_id s.session_id (add_session s m.qod_state_manager) ≡ some s =
        find-add_session s s.session_id m.qod_state_manager ∙ rw (eq_refl s.session_id) refl in
      let store' = failing s.session_id n in
      let found : (i : String)
          → get_session_by_id i store' ≡ (
              if s.session_id == i
              then some (unconnected s)
              else get_session_by_id i m.qod_state_manager) =
        λ i.
          rw (failing, update_session_status, stored)
            (find-put s.session_id i (unconnected s)
                (add_session s m.qod_state_manager).sessions_by_id
              ∙ ap (λ x. if s.session_id == i then some (unconnected s) else x)
                  (find-add_session s i m.qod_state_manager)
              ∙ ground arith) in
      let all : start_session J serialize answer s now m ≡ (
        returns (some (unconnected s)),
        notify_if (unconnected s) (some network_terminated) (with_store store' n),
      ) =
        rw (start_session, w, ue-written s now (added s m), apply_session_to_pcf, c)
          (reported s.session_id (unconnected s) n
            (found s.session_id ∙ rw (eq_refl s.session_id) refl)) in
      (
        ap (λ x. x.0) all,
        (λ i.
            ap (λ x. get_session_by_id i x.1.qod_state_manager) all
            ∙ ap (get_session_by_id i)
                (notify-keep (unconnected s) (some network_terminated) (with_store store' n))
            ∙ found i),
        λ later grace. rw e refl,
      )
