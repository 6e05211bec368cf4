-- ===== src/Ue/Invariant/Sessions.antt =====
-- The methods on PDU sessions and on their QoD sessions keep the invariant of the UE states.
use phine_af.Prelude.{
  ℕ, String, refl, true, Option, none, some, [], map, any, contains, find_if, Option-cases,
  Bool-cases, inl, inr,
}
use phine_af.Map.{find-put_self}
use phine_af.Ue.Common.{Common}
use phine_af.Ue.Key.{UeKey, get_primary_key}
use phine_af.Ue.Data.{PduSessionData, provisional_state}
use phine_af.Ue.State.{record_activity, same_pdu, upsert, erase_first}
use phine_af.Ue.Manager.{
  UeStateManager, find_state, put_state, add_ue_indices, remove_pdu_session_indices,
  add_pdu_session_indices,
}
use phine_af.Ue.Manager.Frame.{add-Same}
use phine_af.Ue.Invariant.{IsOwned, Inv, locked-Inv}
use phine_af.Ue.Invariant.Core.{add_put-Inv}
use phine_af.Ue.Invariant.Updates.{keep-Inv}
use phine_af.Ue.PduSession.{
  add_or_update_pdu_session, forget_pdu, publish, remove_pdu_session, change_pdu, in_first,
  add_to_some_pdu, change_first, erase_qod, remove_qod_session_from_ue,
}

module _ {C : Common} where
  forget-Inv :
      (k : String) (o : Option (PduSessionData C)) (m : UeStateManager C)
      → Inv m
      → Inv (forget_pdu k o m)
  unfolding forget_pdu remove_pdu_session_indices
  forget-Inv k none m c = c
  forget-Inv k (some p) m c = c

  add_indices-Inv :
      (k : String) (p : PduSessionData C) (m : UeStateManager C)
      → Inv m
      → Inv (add_pdu_session_indices k p m)
  unfolding add_pdu_session_indices
  add_indices-Inv k p m c = c

  pub add_or_update_pdu-Inv :
      (key : UeKey) (p : PduSessionData C) (now : ℕ) (m : UeStateManager C)
      → Inv m
      → Inv (add_or_update_pdu_session key p now m).1
  unfolding add_or_update_pdu_session
  add_or_update_pdu-Inv key p now m c =
      locked-Inv _ m c (elim (Option-cases (find_state (get_primary_key key) m)) [
        | inl e ↦ rw e c
        | inr (s, e) ↦ rw e (
            add_indices-Inv _ p _ (
              forget-Inv _ (find_if (same_pdu p.pdu_session_id) s.pdu_sessions) _ (
                keep-Inv _ s
                  (record_activity now (record s { pdu_sessions = upsert p s.pdu_sessions }))
                  (record m { rw_mtx = true }) c e refl refl)))
      ])

  publish-Inv :
      (o : Option String) (i : String) (m : UeStateManager C) → Inv m → Inv (publish o i m).1
  unfolding publish
  publish-Inv none i m c = c
  publish-Inv (some v) i m c = elim (Option-cases m.event_dispatcher) [
    | inl e ↦ rw e c
    | inr (l, e) ↦ rw e c
  ]

  pub remove_pdu-Inv :
      (key : UeKey) (i : String) (now : ℕ) (m : UeStateManager C)
      → Inv m
      → Inv (remove_pdu_session key i now m).1
  unfolding remove_pdu_session remove_pdu_session_indices
  remove_pdu-Inv key i now m c =
      locked-Inv _ m c (elim (Option-cases (find_state (get_primary_key key) m)) [
        | inl e ↦ rw e c
        | inr (s, e) ↦ elim (Option-cases (find_if (same_pdu i) s.pdu_sessions)) [
          | inl f ↦ rw (e, f) c
          | inr (p, f) ↦
              rw (e, f)
                (publish-Inv s.supi i _ (
                  keep-Inv _ s
                    (record_activity now
                      (record s { pdu_sessions = erase_first (same_pdu i) s.pdu_sessions }))
                    (remove_pdu_session_indices (get_primary_key key) p
                      (record m { rw_mtx = true }))
                    c e refl refl))
        ]
      ])

  pub change_pdu-Inv :
      (key : UeKey) (i : String) (f : PduSessionData C → PduSessionData C) (now : ℕ)
      (m : UeStateManager C)
      → Inv m
      → Inv (change_pdu key i f now m).1
  unfolding change_pdu
  change_pdu-Inv key i f now m c =
      locked-Inv _ m c (elim (Option-cases (find_state (get_primary_key key) m)) [
        | inl e ↦ rw e c
        | inr (s, e) ↦ elim (Bool-cases (any (same_pdu i) s.pdu_sessions)) [
          | inl h ↦
              rw (e, h)
                (keep-Inv _ s
                  (record_activity now
                    (record s { pdu_sessions = change_first i f s.pdu_sessions }))
                  (record m { rw_mtx = true }) c e refl refl)
          | inr h ↦ rw (e, h) c
        ]
      ])

  -- Every branch stores a state that owns the key.
  pub add_to_some_pdu-Inv :
      (key : UeKey) (q : String) (now : ℕ) (m : UeStateManager C)
      → Inv m
      → IsOwned (get_primary_key key) (provisional_state {C = C} key now)
      → Inv (add_to_some_pdu key q now m).1
  unfolding add_to_some_pdu
  add_to_some_pdu-Inv key q now m c own =
      locked-Inv _ m c (elim (Option-cases (find_state (get_primary_key key) m)) [
        | inr (s, e) ↦ rw e (
            keep-Inv _ s
              (record_activity now
                (record s { pdu_sessions = in_first (get_primary_key key) q s.pdu_sessions }))
              (record m { rw_mtx = true }) c e refl refl)
        | inl e ↦
            let held = record m { rw_mtx = true } in
            let new = provisional_state key now in
            let stored = add_put-Inv _ new held held c own refl (λ v. rw e) in
            rw e (
              keep-Inv _ new
                (record_activity now
                  (record new { pdu_sessions = in_first (get_primary_key key) q [] }))
                (add_ue_indices new (put_state (get_primary_key key) new held)) stored
                (rw (add-Same new (put_state (get_primary_key key) new held)).states
                  (find-put_self (get_primary_key key) new m.ue_states_by_key))
                refl refl)
      ])

  pub remove_qod-Inv :
      (key : UeKey) (q : String) (now : ℕ) (m : UeStateManager C)
      → Inv m
      → Inv (remove_qod_session_from_ue key q now m).1
  unfolding remove_qod_session_from_ue
  remove_qod-Inv key q now m c =
      locked-Inv _ m c (elim (Option-cases (find_state (get_primary_key key) m)) [
        | inl e ↦ rw e c
        | inr (s, e) ↦
            let s' = record s { pdu_sessions = map (erase_qod q) s.pdu_sessions } in
            elim (Bool-cases (any (λ p. contains q p.active_qod_session_ids) s.pdu_sessions)) [
              | inl h ↦
                  rw (e, h)
                    (keep-Inv _ s (record_activity now s') (record m { rw_mtx = true }) c e refl
                      refl)
              | inr h ↦ rw (e, h) (keep-Inv _ s s' (record m { rw_mtx = true }) c e refl refl)
            ]
      ])
