-- ===== src/Qod/Sessions/Extension.antt =====
-- The extension of a session's duration.
use phine_af.Prelude.{
  ◌==◌, if◌then◌else◌, ℕ, ◌+◌, ◌≤◌, min, String, ◌≡◌, refl, ◌∙◌, ap, false, none, some, arith,
  eq_refl,
}
use phine_af.Map.{put, find-put}
use phine_af.Outcome.{returns, undefined}
use phine_af.Ue.Common.{Common}
use phine_af.Qod.Types.{QodSession}
use phine_af.Qod.Store.{get_session_by_id, add_session, update_session}
use phine_af.Qod.Sessions.{
  QodSessionManager, get_session, extend_session_duration, extend_found, extend_to, with_store,
}
use phine_af.Qod.Requests.{
  QodSessionConfig, extend_by, get_max_duration_for_profile, is_unavailable,
}

abbrev extended :
    {Credential : Type 0} → ℕ → ℕ → QodSession Credential → QodSessionConfig → QodSession Credential
extended extra start s c =
    let total = min (s.duration + extra) (get_max_duration_for_profile s.qos_profile c) in
    record s { duration = total; expires_at = some (start + total) }

module _ {C : Common} {Credential : Type 0} where
  -- A session that is added before it has started, and is not unavailable, cannot be extended by its
  -- consumer: the call reads the start time that is not there.
  extend-not_started :
      (extra : ℕ) (s : QodSession Credential) (m : QodSessionManager C Credential)
      → s.started_at ≡ none
      → is_unavailable s ≡ false
      → (extend_session_duration
          (extend_by s.session_id extra)
          s.api_consumer_id
          (with_store (add_session s m.qod_state_manager) m)).0
        ≡ undefined
  unfolding extend_session_duration extend_found extend_to add_session
  extend-not_started extra s m fresh live =
      rw
        (
          extend_session_duration,
          add_session,
          find-put,
          eq_refl s.session_id,
          eq_refl s.api_consumer_id,
          live,
          fresh,
        )
        refl

  extend-stores :
      (extra : ℕ) (s : QodSession Credential) (start : ℕ) (m : QodSessionManager C Credential)
      → get_session_by_id s.session_id m.qod_state_manager ≡ some s
      → s.started_at ≡ some start
      → is_unavailable s ≡ false
      → extend_session_duration (extend_by s.session_id extra) s.api_consumer_id m ≡ (
        returns (some (extended extra start s m.config)),
        with_store
            (record m.qod_state_manager {
              sessions_by_id =
                  put s.session_id
                    (extended extra start s m.config)
                    m.qod_state_manager.sessions_by_id;
            })
            m,
      )
  unfolding extend_session_duration extend_found extend_to update_session
  extend-stores extra s start m e begun live =
      let total = min (s.duration + extra) (get_max_duration_for_profile s.qos_profile m.config) in
      rw (extend_session_duration, e, eq_refl, live)
        (ap (λ o. extend_to o total s m) begun ∙ rw (extend_to, update_session, e) refl)

  -- An authorised extension of a stored session that has started and is not unavailable returns the
  -- session with its new duration, which is the sum of the old one and the additional one, capped at
  -- the maximum of the profile; it expires that long after its start; the consumer then gets this
  -- session by its identifier, and every other identifier has the session that it had.
  pub extend-started :
      (extra : ℕ) (s : QodSession Credential) (start : ℕ) (m : QodSessionManager C Credential)
      → get_session_by_id s.session_id m.qod_state_manager ≡ some s
      → s.started_at ≡ some start
      → is_unavailable s ≡ false
      → (s' : QodSession Credential) × ((extend_session_duration
            (extend_by s.session_id extra)
            s.api_consumer_id
            m).0
          ≡ returns (some s'))
        × (s'.duration
            ≡ min (s.duration + extra) (get_max_duration_for_profile s.qos_profile m.config))
        × (s'.duration ≤ get_max_duration_for_profile s'.qos_profile m.config)
        × (s'.expires_at ≡ some (start + s'.duration))
        × (get_session s.session_id s.api_consumer_id
              (extend_session_duration (extend_by s.session_id extra) s.api_consumer_id m).1
            ≡ some s')
        × ((j : String)
            → get_session_by_id j
                (extend_session_duration
                  (extend_by s.session_id extra)
                  s.api_consumer_id
                  m).1.qod_state_manager
              ≡ (if s.session_id == j then some s' else get_session_by_id j m.qod_state_manager))
  unfolding get_session
  extend-started extra s start m e begun live =
      let done = extend-stores extra s start m e begun live in
      (
        extended extra start s m.config,
        ap (λ r. r.0) done,
        refl,
        omega arith,
        refl,
        rw (done, get_session, find-put, eq_refl, eq_refl) refl,
        (λ j. rw done (
            find-put s.session_id j (extended extra start s m.config)
              m.qod_state_manager.sessions_by_id)),
      )
