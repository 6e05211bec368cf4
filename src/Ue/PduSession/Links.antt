-- ===== src/Ue/PduSession/Links.antt =====
-- The QoD sessions that a PDU session is linked to.
use phine_af.Prelude.{
  ℕ, String, ◌≡◌, refl, sym, ◌∙◌, ap, true, false, some, List, [], ◌∷◌, arith, any, find_if,
  set_insert, set_erase, Bool-cases, inl, inr,
}
use phine_af.Map.{find-put_self}
use phine_af.Outcome.{returns}
use phine_af.Ue.Common.{Common}
use phine_af.Ue.Key.{UeKey, get_primary_key}
use phine_af.Ue.Data.{PduSessionData, AfUeSubscriptionState}
use phine_af.Ue.State.{same_pdu, record_activity}
use phine_af.Ue.Manager.{UeStateManager, find_state, put_state}
use phine_af.Ue.Core.Effects.{locked-free}
use phine_af.Ue.Search.{get_qod_sessions_for_pdu_session}
use phine_af.Ue.PduSession.{
  change_first, change_pdu, insert_qod, erase_qod, add_qod_session_to_pdu_session,
  remove_qod_session_from_pdu_session,
}

module _ {C : Common} where
  change_first-find :
      (i : String) (f : PduSessionData C → PduSessionData C) (l : List (PduSessionData C))
      (p : PduSessionData C)
      → ((q : PduSessionData C) → same_pdu i (f q) ≡ same_pdu i q)
      → find_if (same_pdu i) l ≡ some p
      → (find_if (same_pdu i) (change_first i f l) ≡ some (f p)) × (any (same_pdu i) l ≡ true)
  unfolding change_first
  change_first-find i f [] p same e = cc
  change_first-find i f (q ∷ l) p same e = elim (Bool-cases (same_pdu i q)) [
    | inl g ↦
        let here : q ≡ p = ground (arith, e, g) in
        (rw (g, same q, g) (ap (λ r. some (f r)) here), rw g refl)
    | inr g ↦ let ih = change_first-find i f l p same (rw g at e) in (rw (g, g) ih.0, rw g ih.1)
  ]

  -- The session that a change by identifier leaves under its key.
  change_pdu-find :
      (key : UeKey) (i : String) (f : PduSessionData C → PduSessionData C) (now : ℕ)
      (s : AfUeSubscriptionState C) (p : PduSessionData C) (m : UeStateManager C)
      → m.rw_mtx ≡ false
      → ((q : PduSessionData C) → same_pdu i (f q) ≡ same_pdu i q)
      → find_state (get_primary_key key) m ≡ some s
      → find_if (same_pdu i) s.pdu_sessions ≡ some p
      → (s' : AfUeSubscriptionState C) × (change_pdu key i f now m
          ≡ (returns true, put_state (get_primary_key key) s' m))
        × (find_if (same_pdu i) s'.pdu_sessions ≡ some (f p))
  unfolding change_pdu
  change_pdu-find key i f now s p m h same e g =
      let changed = change_first-find i f s.pdu_sessions p same g in
      let s' = record_activity now (record s { pdu_sessions = change_first i f s.pdu_sessions }) in
      (
        s',
        locked-free _ m h
            ∙ rw (e, changed.1)
                (ap
                  (λ b.
                    (returns true, record (put_state (get_primary_key key) s' m) { rw_mtx = b }))
                  (sym h)),
        changed.0,
      )

  links-free :
      (key : UeKey) (i : String) (s : AfUeSubscriptionState C) (p : PduSessionData C)
      (m : UeStateManager C)
      → m.rw_mtx ≡ false
      → find_if (same_pdu i) s.pdu_sessions ≡ some p
      → (get_qod_sessions_for_pdu_session key i (put_state (get_primary_key key) s m)).0
        ≡ returns (some p.active_qod_session_ids)
  unfolding get_qod_sessions_for_pdu_session
  links-free key i s p m h g =
      ap (λ r. r.0) (locked-free _ (put_state (get_primary_key key) s m) h)
      ∙ rw (find-put_self (get_primary_key key) s m.ue_states_by_key, g) refl

  -- On a manager that the thread has not locked, with a stored state that has the PDU session: adding
  -- a QoD session to it returns true, and the QoD sessions then read are the old ones with it;
  -- removing one returns true, and the QoD sessions then read are the old ones without it.
  pub links-change :
      (key : UeKey) (i q : String) (now : ℕ) (s : AfUeSubscriptionState C) (p : PduSessionData C)
      (m : UeStateManager C)
      → m.rw_mtx ≡ false
      → find_state (get_primary_key key) m ≡ some s
      → find_if (same_pdu i) s.pdu_sessions ≡ some p
      → ((add_qod_session_to_pdu_session key i q now m).0 ≡ returns true)
        × ((get_qod_sessions_for_pdu_session key i
              (add_qod_session_to_pdu_session key i q now m).1).0
            ≡ returns (some (set_insert q p.active_qod_session_ids)))
        × ((remove_qod_session_from_pdu_session key i q now m).0 ≡ returns true)
        × ((get_qod_sessions_for_pdu_session key i
              (remove_qod_session_from_pdu_session key i q now m).1).0
            ≡ returns (some (set_erase q p.active_qod_session_ids)))
  unfolding add_qod_session_to_pdu_session remove_qod_session_from_pdu_session
  links-change key i q now s p m h e g =
      let (s', done, there) = change_pdu-find key i (insert_qod q) now s p m h (λ r. refl) e g in
      let (t, undone, gone) = change_pdu-find key i (erase_qod q) now s p m h (λ r. refl) e g in
      (
        ap (λ r. r.0) done,
        ap (λ r. (get_qod_sessions_for_pdu_session key i r.1).0) done
            ∙ links-free key i s' (insert_qod q p) m h there,
        ap (λ r. r.0) undone,
        ap (λ r. (get_qod_sessions_for_pdu_session key i r.1).0) undone
            ∙ links-free key i t (erase_qod q p) m h gone,
      )
