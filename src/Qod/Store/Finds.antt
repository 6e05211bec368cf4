-- ===== src/Qod/Store/Finds.antt =====
-- Which session an identifier finds after a method of the session store.
use phine_af.Prelude.{
  String, ◌≡◌, refl, Option, none, some, arith, ◌==◌, eq_iff, Option-cases, inl, inr, if◌then◌else◌,
}
use phine_af.Map.{find, find-put, find-erase}
use phine_af.Qod.Types.{QodSession, QosStatus, StatusInfo}
use phine_af.Qod.Store.{
  QodStateManager, get_session_by_id, add_session, remove_session, update_session,
  update_session_status, set_info, remove_pcf_to_qod_session_mapping,
}

module _ {Credential : Type 0} where
  pub find-add_session :
      (s : QodSession Credential) (j : String) (store : QodStateManager Credential)
      → get_session_by_id j (add_session s store)
        ≡ (if s.session_id == j then some s else get_session_by_id j store)
  unfolding add_session
  find-add_session s j store = find-put s.session_id j s store.sessions_by_id

  pub find-remove_session :
      (i j : String) (m : QodStateManager Credential)
      → get_session_by_id j (remove_session i m).1
        ≡ (if i == j then none else get_session_by_id j m)
  unfolding remove_session
  find-remove_session i j m = elim (Option-cases (find i m.sessions_by_id)) [
    | inl e ↦ rw (remove_session, e) (ground (arith, e, eq_iff i j))
    | inr (s, e) ↦ rw (remove_session, e) (find-erase i j m.sessions_by_id)
  ]

  -- An overwritten session in the store.
  pub find-update_session :
      (s old : QodSession Credential) (j : String) (store : QodStateManager Credential)
      → get_session_by_id s.session_id store ≡ some old
      → get_session_by_id j (update_session s store).1
        ≡ (if s.session_id == j then some s else get_session_by_id j store)
  unfolding update_session
  find-update_session s old j store e =
      rw (update_session, e) (find-put s.session_id j s store.sessions_by_id)

  pub find-update_session_status :
      (i j : String) (x : QosStatus) (info : Option StatusInfo) (s : QodSession Credential)
      (store : QodStateManager Credential)
      → get_session_by_id i store ≡ some s
      → get_session_by_id j (update_session_status i x info store).1 ≡ (
          if i == j
          then some (set_info info (record s { qos_status = x }))
          else get_session_by_id j store)
  unfolding update_session_status
  find-update_session_status i j x info s store e =
      rw (update_session_status, e)
        (find-put i j (set_info info (record s { qos_status = x })) store.sessions_by_id)

  pub find-remove_pcf :
      (p j : String) (store : QodStateManager Credential)
      → get_session_by_id j (remove_pcf_to_qod_session_mapping p store).1
        ≡ get_session_by_id j store
  unfolding remove_pcf_to_qod_session_mapping
  find-remove_pcf p j store = elim (Option-cases (find p store.pcf_session_mapping)) [
    | inl e ↦ rw (remove_pcf_to_qod_session_mapping, e) refl
    | inr (i, e) ↦ rw (remove_pcf_to_qod_session_mapping, e) refl
  ]
