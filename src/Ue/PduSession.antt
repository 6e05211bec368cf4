-- ===== src/Ue/PduSession.antt =====
-- The PDU sessions of af_core/src/ue_state_manager.cpp and the QoD sessions that use them.
pub mod Links
pub mod Events
use Prim.Native.String
use phine_af.Prelude.{
  ℕ, String, Bool, true, false, Option, none, some, List, [], ◌∷◌, ◌++◌, map, any, contains,
  find_if, set_insert, set_erase, if◌then◌else◌,
}
use phine_af.Outcome.{Method, returns, undefined, lift, ◌>>=◌, ◌>>◌}
use phine_af.Ue.Common.{Common}
use phine_af.Ue.Key.{UeKey, supi_based, make_key, get_primary_key}
use phine_af.Ue.Data.{PduSessionData, AfUeSubscriptionState, default_pdu, provisional_state}
use phine_af.Ue.State.{record_activity, same_pdu, upsert, erase_first}
use phine_af.Ue.Manager.{
  UeStateManager, locked, find_state, put_state, add_pdu_session_indices,
  remove_pdu_session_indices, add_ue_indices,
}

module _ {C : Common} where
  -- The entries of the session that is replaced go first.
  unfoldable pub forget_pdu :
      String → Option (PduSessionData C) → UeStateManager C → UeStateManager C
  forget_pdu k none m = m
  forget_pdu k (some old) m = remove_pdu_session_indices k old m

  unfoldable pub add_or_update_pdu_session :
      UeKey → PduSessionData C → ℕ → Method (UeStateManager C) Bool
  unfolding forget_pdu
  add_or_update_pdu_session key p now = locked λ m.
      let k = get_primary_key key in
      elim (find_state k m) [
        | none ↦ (returns false, m)
        | some s ↦
            let old = find_if (same_pdu p.pdu_session_id) s.pdu_sessions in
            let s' = record_activity now (record s { pdu_sessions = upsert p s.pdu_sessions }) in
            (returns true, add_pdu_session_indices k p (forget_pdu k old (put_state k s' m)))
      ]

  -- An event for a UE with a SUPI; without a dispatcher the call goes through a null pointer.
  unfoldable pub publish : Option String → String → Method (UeStateManager C) Bool
  publish none i m = (returns true, m)
  publish (some v) i m = elim m.event_dispatcher [
    | none ↦ (undefined, m)
    | some events ↦ (
      returns true,
      record m { event_dispatcher = some (events ++ record { supi = v; pdu_session_id = i } ∷ []) },
    )
  ]

  unfoldable pub remove_pdu_session : UeKey → String → ℕ → Method (UeStateManager C) Bool
  unfolding publish
  remove_pdu_session key i now = locked λ m.
      let k = get_primary_key key in
      elim (find_state k m) [
        | none ↦ (returns false, m)
        | some s ↦ elim (find_if (same_pdu i) s.pdu_sessions) [
          | none ↦ (returns false, m)
          | some p ↦
              let s' =
                record_activity now
                  (record s { pdu_sessions = erase_first (same_pdu i) s.pdu_sessions }) in
              publish s.supi i (put_state k s' (remove_pdu_session_indices k p m))
        ]
      ]

  unfoldable pub remove_pdu_session_by_supi : String → String → ℕ → Method (UeStateManager C) Bool
  remove_pdu_session_by_supi v i now = do
    key ← lift (make_key v supi_based)
    remove_pdu_session key i now

  -- The first session with the identifier changes.
  unfoldable pub change_first :
      String
      → (PduSessionData C → PduSessionData C)
      → List (PduSessionData C)
      → List (PduSessionData C)
  change_first i f [] = []
  change_first i f (p ∷ l) =
      let rest = change_first i f l in if same_pdu i p then f p ∷ l else p ∷ rest

  abbrev pub insert_qod : String → PduSessionData C → PduSessionData C
  insert_qod q p = record p { active_qod_session_ids = set_insert q p.active_qod_session_ids }

  abbrev pub erase_qod : String → PduSessionData C → PduSessionData C
  erase_qod q p = record p { active_qod_session_ids = set_erase q p.active_qod_session_ids }

  unfoldable pub change_pdu :
      UeKey → String → (PduSessionData C → PduSessionData C) → ℕ → Method (UeStateManager C) Bool
  unfolding change_first
  change_pdu key i f now = locked λ m.
      let k = get_primary_key key in
      elim (find_state k m) [
        | none ↦ (returns false, m)
        | some s ↦
            let s' =
              record_activity now (record s { pdu_sessions = change_first i f s.pdu_sessions }) in
            if any (same_pdu i) s.pdu_sessions
            then (returns true, put_state k s' m)
            else (returns false, m)
      ]

  unfoldable pub add_qod_session_to_pdu_session :
      UeKey → String → String → ℕ → Method (UeStateManager C) Bool
  unfolding change_pdu
  add_qod_session_to_pdu_session key i q now = change_pdu key i (insert_qod q) now

  unfoldable pub remove_qod_session_from_pdu_session :
      UeKey → String → String → ℕ → Method (UeStateManager C) Bool
  unfolding change_pdu
  remove_qod_session_from_pdu_session key i q now = change_pdu key i (erase_qod q) now

  -- The first session of a UE, made if there is none.
  unfoldable pub in_first : String → String → List (PduSessionData C) → List (PduSessionData C)
  in_first k q [] =
      insert_qod q (record default_pdu {
        pdu_session_id = String.◌++◌ "provisional-" k;
        status = "PROVISIONAL";
      })
      ∷ []
  in_first k q (p ∷ l) = insert_qod q p ∷ l

  unfoldable pub add_to_first :
      String → String → ℕ → AfUeSubscriptionState C → UeStateManager C → UeStateManager C
  unfolding in_first
  add_to_first k q now s m =
      put_state k (record_activity now (record s { pdu_sessions = in_first k q s.pdu_sessions })) m

  unfoldable pub add_to_some_pdu : UeKey → String → ℕ → Method (UeStateManager C) Bool
  unfolding add_to_first
  add_to_some_pdu key q now = locked λ m.
      let k = get_primary_key key in
      elim (find_state k m) [
        | some s ↦ (returns true, add_to_first k q now s m)
        | none ↦
            let s = provisional_state key now in
            (returns true, add_to_first k q now s (add_ue_indices s (put_state k s m)))
      ]

  -- With a PDU session the lock is released before the other method is called.
  unfoldable pub add_qod_session_to_ue :
      UeKey → Option String → String → ℕ → Method (UeStateManager C) Bool
  unfolding add_to_some_pdu add_qod_session_to_pdu_session
  add_qod_session_to_ue key none q now = add_to_some_pdu key q now
  add_qod_session_to_ue key (some i) q now = do
    locked (λ m. (returns tt, m))
    add_qod_session_to_pdu_session key i q now

  unfoldable pub remove_qod_session_from_ue : UeKey → String → ℕ → Method (UeStateManager C) Bool
  remove_qod_session_from_ue key q now = locked λ m.
      let k = get_primary_key key in
      elim (find_state k m) [
        | none ↦ (returns false, m)
        | some s ↦
            let s' = record s { pdu_sessions = map (erase_qod q) s.pdu_sessions } in
            if any (λ p. contains q p.active_qod_session_ids) s.pdu_sessions
            then (returns true, put_state k (record_activity now s') m)
            else (returns false, put_state k s' m)
      ]
