-- ===== src/Qod/Sessions/Cleanup.antt =====
-- The sessions that the cleanup and the end of a PDU session remove.
use phine_af.Prelude.{
  ℕ, ◌+◌, ◌≤◌, ◌<◌, leb, subst, sym, ◌⊎◌, true, ◌++◌, Bool, String, ◌≡◌, refl, ◌∙◌, ◌&&◌, Option,
  none, some, List, [], ◌∷◌, arith, ◌==◌, contains, is_some, Option-cases, Bool-cases, inl, inr,
  if◌then◌else◌,
}
use phine_af.Map.Unique.{holds}
use phine_af.Ue.Common.{Common}
use phine_af.Ue.Manager.{PduSessionTerminatedEvent}
use phine_af.Qod.Types.{
  QodSession, QosStatus, StatusInfo, requested, available, unavailable, network_terminated,
}
use phine_af.Qod.Store.{
  QodStateManager, get_session_by_id, get_session_by_pdu_session, get_expired_sessions, has_expired,
  remove_session, same_status,
}
use phine_af.Qod.Store.Invariant.{Inv}
use phine_af.Qod.Store.Keeps.{remove_session-Inv}
use phine_af.Qod.Store.Lookups.{ids, listed-exactly}
use phine_af.Qod.Store.Finds.{find-remove_session}
use phine_af.Qod.Sessions.{
  QodSessionManager, cleanup_expired_sessions, remove_each, handle_pdu_session_terminated_event,
  send_status_change_notification, with_store, Notification,
}

same-available : (x : QosStatus) → same_status x available ≡ true → x ≡ available
same-available requested e = cc e
same-available available e = refl
same-available unavailable e = cc e

-- No expiry, or one that is later than the time to live before now.
unfoldable pub IsLive : ℕ → ℕ → Option ℕ → Type 0
IsLive now ttl none = Unit
IsLive now ttl (some t) = now < t + ttl

module _ {Credential : Type 0} where
  find-remove_each :
      (l : List (QodSession Credential)) (j : String) (m : QodStateManager Credential)
      → get_session_by_id j (remove_each l m)
        ≡ (if contains j (ids l) then none else get_session_by_id j m)
  unfolding remove_each
  find-remove_each [] j m = refl
  find-remove_each (s ∷ l) j m = ground (
    arith,
    find-remove_each l j (remove_session s.session_id m).1,
    find-remove_session s.session_id j m,
  )

  remove_each-Inv :
      (l : List (QodSession Credential)) (m : QodStateManager Credential)
      → Inv m
      → Inv (remove_each l m)
  unfolding remove_each
  remove_each-Inv [] m c = c
  remove_each-Inv (s ∷ l) m c =
      remove_each-Inv l (remove_session s.session_id m).1 (remove_session-Inv s.session_id m c)

module _ {Credential : Type 0} where
  -- What the cleanup makes of the session that an identifier has.
  unfoldable pub IsSwept :
      ℕ → ℕ → Option (QodSession Credential) → Option (QodSession Credential) → Type 0
  unfolding IsLive
  IsSwept now ttl none after = after ≡ none
  IsSwept now ttl (some s) after =
      ((t : ℕ) × (s.expires_at ≡ some t) × (t + ttl ≤ now) × (after ≡ none))
      ⊎ (IsLive now ttl s.expires_at × (after ≡ some s))

  removed-IsSwept :
      (now ttl : ℕ) (o : Option (QodSession Credential))
      → IsSwept now ttl o (if holds (has_expired now ttl) o then none else o)
  unfolding IsSwept
  removed-IsSwept now ttl none = refl
  removed-IsSwept now ttl (some s) = elim (Option-cases s.expires_at) [
    | inl e ↦ rw e (inr (tt, refl))
    | inr (t, e) ↦ elim (Bool-cases (leb (t + ttl) now)) [
      | inl f ↦ rw (e, f) (inl (t, refl, ground (arith, f), refl))
      | inr f ↦ rw (e, f) (inr (ground (arith, f), refl))
    ]
  ]

module _ {C : Common} {Credential : Type 0} where
  pub send-keep :
      (s : QodSession Credential) (info : Option StatusInfo) (m : QodSessionManager C Credential)
      → (send_status_change_notification s info m).qod_state_manager ≡ m.qod_state_manager
  unfolding send_status_change_notification
  send-keep s info m = elim (Option-cases s.sink) [
    | inl e ↦ rw (send_status_change_notification, e) refl
    | inr (t, e) ↦ elim (Option-cases m.notification_handler) [
      | inl f ↦ rw (send_status_change_notification, e, f) refl
      | inr (l, f) ↦ rw (send_status_change_notification, e, f) refl
    ]
  ]

  -- The deliveries do not depend on the store.
  send-handler :
      (s : QodSession Credential) (info : Option StatusInfo) (store : QodStateManager Credential)
      (m : QodSessionManager C Credential)
      → (send_status_change_notification s info (with_store store m)).notification_handler
        ≡ (send_status_change_notification s info m).notification_handler
  unfolding send_status_change_notification
  send-handler s info store m = elim (Option-cases s.sink) [
    | inl e ↦ rw (send_status_change_notification, e) refl
    | inr (t, e) ↦ elim (Option-cases m.notification_handler) [
      | inl f ↦ rw (send_status_change_notification, e, f) refl
      | inr (l, f) ↦ rw (send_status_change_notification, e, f) refl
    ]
  ]

  abbrev pub is_told : QodSession Credential → QodSessionManager C Credential → Bool
  is_told s m =
      is_some s.sink && m.config.enable_notifications && same_status s.qos_status available

  -- The deliveries and one more, for the sink of the session, with the status that it had and the
  -- detail that the network terminated it.
  abbrev told_of :
      QodSession Credential
      → QodSessionManager C Credential
      → String
      → List (Notification Credential)
      → List (Notification Credential)
  told_of s m target sent =
      sent
      ++ record {
        session_id = s.session_id;
        qos_status = available;
        status_info = some network_terminated;
        base_url = m.config.api_base_url;
        sink = target;
        sink_credential = s.sink_credential;
      }
        ∷ []

  -- Nothing is delivered without a handler or a sink, when notifications are disabled, or for a
  -- session that is not available.
  abbrev pub notified :
      QodSession Credential
      → QodSessionManager C Credential
      → Option (List (Notification Credential))
  notified s m = elim m.notification_handler [
    | none ↦ none
    | some sent ↦ elim s.sink [
      | none ↦ some sent
      | some target ↦
          if m.config.enable_notifications && same_status s.qos_status available
          then some (told_of s m target sent)
          else some sent
    ]
  ]

  sent-notified :
      (s : QodSession Credential) (m : QodSessionManager C Credential)
      → (if is_told s m
          then (send_status_change_notification s (some network_terminated) m).notification_handler
          else m.notification_handler)
        ≡ notified s m
  unfolding send_status_change_notification
  sent-notified s m = elim (Option-cases m.notification_handler) [
    | inl h ↦ elim (Option-cases s.sink) [
      | inl e ↦ rw (e, h) refl
      | inr (t, e) ↦
          elim (Bool-cases (m.config.enable_notifications && same_status s.qos_status available)) [
            | inl f ↦ rw (e, h, f) refl
            | inr f ↦ rw (e, h, f) refl
          ]
    ]
    | inr (l, h) ↦ elim (Option-cases s.sink) [
      | inl e ↦ rw (e, h) refl
      | inr (t, e) ↦ elim (Bool-cases m.config.enable_notifications) [
        | inl f ↦ elim (Bool-cases (same_status s.qos_status available)) [
          | inl g ↦ rw (e, h, f, g, same-available s.qos_status g) refl
          | inr g ↦ rw (e, h, f, g) refl
        ]
        | inr f ↦ rw (e, h, f) refl
      ]
    ]
  ]

  terminated-store :
      (e : PduSessionTerminatedEvent) (s : QodSession Credential)
      (m : QodSessionManager C Credential)
      → get_session_by_pdu_session e.supi e.pdu_session_id m.qod_state_manager ≡ some s
      → (handle_pdu_session_terminated_event e m).qod_state_manager
        ≡ (remove_session s.session_id m.qod_state_manager).1
  unfolding handle_pdu_session_terminated_event
  terminated-store e s m f = elim (Bool-cases (is_told s m)) [
    | inl g ↦
        rw (handle_pdu_session_terminated_event, f, g)
          (send-keep s (some network_terminated)
            (with_store (remove_session s.session_id m.qod_state_manager).1 m))
    | inr g ↦ rw (handle_pdu_session_terminated_event, f, g) refl
  ]

  terminated-handler :
      (e : PduSessionTerminatedEvent) (s : QodSession Credential)
      (m : QodSessionManager C Credential)
      → get_session_by_pdu_session e.supi e.pdu_session_id m.qod_state_manager ≡ some s
      → (handle_pdu_session_terminated_event e m).notification_handler ≡ (
          if is_told s m
          then (send_status_change_notification s (some network_terminated) m).notification_handler
          else m.notification_handler)
  unfolding handle_pdu_session_terminated_event
  terminated-handler e s m f = elim (Bool-cases (is_told s m)) [
    | inl g ↦
        rw (handle_pdu_session_terminated_event, f, g)
          (send-handler s (some network_terminated)
            (remove_session s.session_id m.qod_state_manager).1 m)
    | inr g ↦ rw (handle_pdu_session_terminated_event, f, g) refl
  ]

  pub cleanup-eq :
      (now : ℕ) (m : QodSessionManager C Credential)
      → Inv m.qod_state_manager
      → ((i : String)
          → get_session_by_id i (cleanup_expired_sessions now m).qod_state_manager ≡ (
              if holds
                (has_expired now m.config.unavailable_session_ttl)
                (get_session_by_id i m.qod_state_manager)
              then none
              else get_session_by_id i m.qod_state_manager))
        × Inv (cleanup_expired_sessions now m).qod_state_manager
  unfolding cleanup_expired_sessions
  cleanup-eq now m c =
      let ttl = m.config.unavailable_session_ttl in
      let expired = get_expired_sessions now ttl m.qod_state_manager in
      (
        (λ i.
            find-remove_each expired i m.qod_state_manager
            ∙ rw ((listed-exactly m.qod_state_manager c).1 now ttl i) refl),
        remove_each-Inv expired m.qod_state_manager c,
      )

  -- Under the invariant of the store, the cleanup removes a session exactly when its expiry and the
  -- time to live of unavailable sessions together are not after the time of the call, leaves every
  -- other session as it was, and keeps the invariant.
  pub cleanup-exact :
      (now : ℕ) (m : QodSessionManager C Credential)
      → Inv m.qod_state_manager
      → ((i : String)
          → IsSwept now m.config.unavailable_session_ttl
              (get_session_by_id i m.qod_state_manager)
              (get_session_by_id i (cleanup_expired_sessions now m).qod_state_manager))
        × Inv (cleanup_expired_sessions now m).qod_state_manager
  cleanup-exact now m c =
      let ttl = m.config.unavailable_session_ttl in
      let r = cleanup-eq now m c in
      (
        (λ i.
            subst (IsSwept now ttl (get_session_by_id i m.qod_state_manager)) (sym (r.0 i))
              (removed-IsSwept now ttl (get_session_by_id i m.qod_state_manager))),
        r.1,
      )

  -- Under the invariant of the store, the event that the PDU session of a stored session ended
  -- removes the one session that the search by PDU session finds and no other, keeps the invariant,
  -- and delivers one notification for it, that the network terminated it, exactly if notifications
  -- are enabled, the session has a sink, it was available and there is a handler.
  pub pdu_terminated-removes :
      (e : PduSessionTerminatedEvent) (m : QodSessionManager C Credential)
      (s : QodSession Credential)
      → Inv m.qod_state_manager
      → get_session_by_pdu_session e.supi e.pdu_session_id m.qod_state_manager ≡ some s
      → ((i : String)
          → get_session_by_id i (handle_pdu_session_terminated_event e m).qod_state_manager
            ≡ (if s.session_id == i then none else get_session_by_id i m.qod_state_manager))
        × Inv (handle_pdu_session_terminated_event e m).qod_state_manager
        × ((handle_pdu_session_terminated_event e m).notification_handler ≡ notified s m)
  unfolding handle_pdu_session_terminated_event
  pdu_terminated-removes e m s c f =
      let gone = terminated-store e s m f in
      (
        (λ i. rw gone (find-remove_session s.session_id i m.qod_state_manager)),
        rw gone (remove_session-Inv s.session_id m.qod_state_manager c),
        terminated-handler e s m f ∙ sent-notified s m,
      )
