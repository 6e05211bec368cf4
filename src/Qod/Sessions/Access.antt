-- ===== src/Qod/Sessions/Access.antt =====
-- Which sessions an API consumer reaches.
use phine_af.Prelude.{
  ℕ, String, ◌≡◌, ◌≢◌, ◌↔◌, refl, ◌∙◌, sym, true, false, Option, none, some, List, [], ◌∷◌, arith,
  contains, any, keep, is_empty, eq-false,
}
use phine_af.Map.Unique.{holds, holds_iff, contains-selected}
use phine_af.Outcome.{returns}
use phine_af.Ue.Common.{Common}
use phine_af.Qod.Types.{QodSession, QodDevice, ApplicationServer}
use phine_af.Qod.Store.{get_session_by_id, get_all_sessions}
use phine_af.Qod.Store.Invariant.{Inv}
use phine_af.Qod.Store.Lookups.{ids}
use phine_af.Qod.Sessions.{
  QodSessionManager, get_session, extend_session_duration, retrieve_sessions_by_device,
  check_session_conflict,
}
use phine_af.Qod.Sessions.Listed.{IsListed, is_retrieved_iff}
use phine_af.Qod.Requests.{extend_by, RetrieveSessionsRequest, is_retrieved}

module _ {Credential : Type 0} where
  keep_if-none :
      (d : QodDevice) (server : ApplicationServer) (l : List (QodSession Credential))
      → any (λ s. is_empty s.api_consumer_id) l ≡ false
      → keep (is_retrieved (record { device = some d; api_consumer_id = "" })) l ≡ []
  unfolding is_retrieved
  keep_if-none d server [] h = refl
  keep_if-none d server (s ∷ l) h = ground (arith, h, keep_if-none d server l)

module _ {C : Common} {Credential : Type 0} where
  retrieve-selected :
      (r : RetrieveSessionsRequest) (m : QodSessionManager C Credential)
      → Inv m.qod_state_manager
      → (i : String)
      → contains i (ids (retrieve_sessions_by_device r m))
        ≡ holds (is_retrieved r) (get_session_by_id i m.qod_state_manager)
  unfolding retrieve_sessions_by_device
  retrieve-selected r m c i =
      contains-selected (λ s. s.session_id) (is_retrieved r) m.qod_state_manager.sessions_by_id
        c.unique c.named i

  -- Under the invariant of the store, a retrieval lists an identifier exactly when the session
  -- stored under it is one of the consumer of the request, is requested or available, and, if the
  -- request names a device, is on one with the same phone number, IPv6 address, or public or
  -- private IPv4 address.
  pub retrieve-exact :
      (r : RetrieveSessionsRequest) (m : QodSessionManager C Credential)
      → Inv m.qod_state_manager
      → (i : String)
      → (contains i (ids (retrieve_sessions_by_device r m)) ≡ true) ↔ (
          (s : QodSession Credential) × (get_session_by_id i m.qod_state_manager ≡ some s)
          × IsListed r s)
  retrieve-exact r m c i =
      let o = get_session_by_id i m.qod_state_manager in
      (
        λ h.
            let (s, e, f) =
              (holds_iff (is_retrieved r) o).0 (sym (retrieve-selected r m c i) ∙ h) in
            (s, e, (is_retrieved_iff r s).0 f),
        λ (s, e, f).
            retrieve-selected r m c i
            ∙ (holds_iff (is_retrieved r) o).1 (s, e, (is_retrieved_iff r s).1 f),
      )

  -- Under the invariant of the store, a consumer does not reach a stored session of another
  -- consumer: it is not returned, it cannot be extended and the attempt changes nothing, and it is
  -- in no list that is retrieved for the consumer, whatever the device.
  pub other_consumer-excluded :
      (i consumer : String) (s : QodSession Credential) (m : QodSessionManager C Credential)
      → Inv m.qod_state_manager
      → get_session_by_id i m.qod_state_manager ≡ some s
      → s.api_consumer_id ≢ consumer
      → (get_session i consumer m ≡ none)
        × ((extra : ℕ) → extend_session_duration (extend_by i extra) consumer m ≡ (returns none, m))
        × ((d : Option QodDevice)
            → contains i (
                ids (
                  retrieve_sessions_by_device
                    (record { device = d; api_consumer_id = consumer })
                    m))
              ≡ false)
  unfolding get_session extend_session_duration is_retrieved
  other_consumer-excluded i consumer s m c e other = (
    rw (get_session, e, eq-false s.api_consumer_id consumer other) refl,
    (λ extra. rw (extend_session_duration, e, eq-false s.api_consumer_id consumer other) refl),
    (λ d.
        retrieve-selected (record { device = d; api_consumer_id = consumer }) m c i
        ∙ rw (is_retrieved, e, eq-false s.api_consumer_id consumer other) refl),
  )

  -- If no stored session has the empty text for its API consumer, the conflict check finds no
  -- conflict, for every device and every application server.
  pub check_session_conflict-none :
      (d : QodDevice) (server : ApplicationServer) (m : QodSessionManager C Credential)
      → any (λ s. is_empty s.api_consumer_id) (get_all_sessions m.qod_state_manager) ≡ false
      → check_session_conflict d server m ≡ none
  unfolding check_session_conflict retrieve_sessions_by_device
  check_session_conflict-none d server m h =
      rw (check_session_conflict, keep_if-none d server (get_all_sessions m.qod_state_manager) h)
        refl
