-- ===== src/Ue/PduSession/Events.antt =====
-- The events that the removal of a PDU session publishes.
use phine_af.Prelude.{
  Option-cases, inl, inr, arith, Bool, Option, ℕ, String, ◌≡◌, refl, ◌∙◌, ap, true, false, none,
  some, List, [], ◌∷◌, ◌++◌, find_if,
}
use phine_af.Outcome.{Outcome, returns, undefined}
use phine_af.Ue.Common.{Common}
use phine_af.Ue.Key.{UeKey, get_primary_key}
use phine_af.Ue.Data.{PduSessionData, AfUeSubscriptionState}
use phine_af.Ue.State.{same_pdu, record_activity, erase_first}
use phine_af.Ue.Manager.{
  UeStateManager, PduSessionTerminatedEvent, find_state, put_state, remove_pdu_session_indices,
}
use phine_af.Ue.Core.Effects.{locked-free}
use phine_af.Ue.PduSession.{remove_pdu_session, publish}

-- How a removal ends, and the events after it.
abbrev pub ends : Option String → Option (List PduSessionTerminatedEvent) → Outcome Bool
ends none d = returns true
ends (some v) none = undefined
ends (some v) (some l) = returns true

abbrev pub published :
    Option String
    → String
    → Option (List PduSessionTerminatedEvent)
    → Option (List PduSessionTerminatedEvent)
published none i d = d
published (some v) i none = none
published (some v) i (some l) = some (l ++ record { supi = v; pdu_session_id = i } ∷ [])

module _ {C : Common} where
  publish-ends :
      (o : Option String) (i : String) (m : UeStateManager C)
      → ((publish o i m).0 ≡ ends o m.event_dispatcher)
        × ((publish o i m).1.event_dispatcher ≡ published o i m.event_dispatcher)
  unfolding publish
  publish-ends none i m = (refl, refl)
  publish-ends (some v) i m = elim (Option-cases m.event_dispatcher) [
    | inl e ↦ (rw (publish, e) refl, rw (publish, e) (ground (arith, e)))
    | inr (l, e) ↦ (rw (publish, e) refl, rw (publish, e) refl)
  ]

  -- The manager before the event is published, with the mutex held.
  without_pdu :
      UeKey
      → String
      → ℕ
      → AfUeSubscriptionState C
      → PduSessionData C
      → UeStateManager C
      → UeStateManager C
  without_pdu key i now s p m =
      put_state (get_primary_key key)
        (record_activity now (record s { pdu_sessions = erase_first (same_pdu i) s.pdu_sessions }))
        (remove_pdu_session_indices (get_primary_key key) p (record m { rw_mtx = true }))

  abbrev unlock : {A : Type 0} → Outcome A × UeStateManager C → Outcome A × UeStateManager C
  unlock (r, m) = (r, record m { rw_mtx = false })

  removed-publish :
      (key : UeKey) (i : String) (now : ℕ) (s : AfUeSubscriptionState C) (p : PduSessionData C)
      (m : UeStateManager C)
      → m.rw_mtx ≡ false
      → find_state (get_primary_key key) m ≡ some s
      → find_if (same_pdu i) s.pdu_sessions ≡ some p
      → remove_pdu_session key i now m ≡ unlock (publish s.supi i (without_pdu key i now s p m))
  unfolding remove_pdu_session without_pdu
  removed-publish key i now s p m h e g = locked-free _ m h ∙ rw (e, g) refl

  -- On a manager that the thread has not locked, the removal of a PDU session of a stored state
  -- publishes one event with the SUPI and the session, after those before it, if the state has a
  -- SUPI and there is a dispatcher, is undefined if there is none, and publishes nothing if the
  -- state has no SUPI; in the first and in the last case it returns true.
  pub remove_pdu-publishes :
      (key : UeKey) (i : String) (now : ℕ) (s : AfUeSubscriptionState C) (p : PduSessionData C)
      (m : UeStateManager C)
      → m.rw_mtx ≡ false
      → find_state (get_primary_key key) m ≡ some s
      → find_if (same_pdu i) s.pdu_sessions ≡ some p
      → ((remove_pdu_session key i now m).0 ≡ ends s.supi m.event_dispatcher)
        × ((remove_pdu_session key i now m).1.event_dispatcher
            ≡ published s.supi i m.event_dispatcher)
  unfolding without_pdu remove_pdu_session_indices
  remove_pdu-publishes key i now s p m h e g =
      let done = removed-publish key i now s p m h e g in
      let ended = publish-ends s.supi i (without_pdu key i now s p m) in
      (ap (λ r. r.0) done ∙ ended.0, ap (λ r. r.1.event_dispatcher) done ∙ ended.1)
