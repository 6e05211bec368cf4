-- ===== src/Qod/Store/Run.antt =====
-- Histories of calls of the methods of the session store, and the invariant after them.
use phine_af.Prelude.{String, ◌≡◌, Option, none, some, List, [], ◌∷◌, Option-cases, inl, inr}
use phine_af.Map.{find}
use phine_af.Qod.Types.{QodSession, QosStatus, StatusInfo, QosProfileMapping}
use phine_af.Qod.Store.{
  QodStateManager, init, add_session, remove_session, update_session, update_session_status,
  clear_all_sessions, update_pcf_session_map, remove_pcf_to_qod_session_mapping,
  register_qos_profile,
}
use phine_af.Qod.Store.Invariant.{Inv}
use phine_af.Qod.Store.Keeps.{
  init-Inv, clear-Inv, add_session-Inv, remove_session-Inv, update_session-Inv,
  update_session_status-Inv,
}

pub data Call (Credential : Type 0) : Type 0 where
  adds : QodSession Credential → Call Credential
  removes : String → Call Credential
  updates : QodSession Credential → Call Credential
  sets_status : String → QosStatus → Option StatusInfo → Call Credential
  maps_pcf : String → String → Call Credential
  forgets_pcf : String → Call Credential
  registers : String → QosProfileMapping → Call Credential
  clears : Call Credential

module _ {Credential : Type 0} where
  unfoldable pub step : Call Credential → QodStateManager Credential → QodStateManager Credential
  step (adds s) m = add_session s m
  step (removes i) m = (remove_session i m).1
  step (updates s) m = (update_session s m).1
  step (sets_status i x info) m = (update_session_status i x info m).1
  step (maps_pcf p i) m = update_pcf_session_map p i m
  step (forgets_pcf p) m = (remove_pcf_to_qod_session_mapping p m).1
  step (registers n x) m = register_qos_profile n x m
  step clears m = clear_all_sessions m

  unfoldable pub run :
      List (Call Credential) → QodStateManager Credential → QodStateManager Credential
  unfolding step
  run [] m = m
  run (c ∷ cs) m = run cs (step c m)

  -- An added session has a new identifier, and an update keeps the SUPI of the session, as the
  -- comment of `update_session` assumes.
  abbrev pub IsAllowed : Call Credential → QodStateManager Credential → Type 0
  IsAllowed (adds s) m = find s.session_id m.sessions_by_id ≡ none
  IsAllowed (updates s) m =
      (old : QodSession Credential)
      → find s.session_id m.sessions_by_id ≡ some old
      → s.ue_supi ≡ old.ue_supi
  IsAllowed _ m = Unit

  unfoldable pub AreAllowed : List (Call Credential) → QodStateManager Credential → Type 0
  unfolding step
  AreAllowed [] m = Unit
  AreAllowed (c ∷ cs) m = IsAllowed c m × AreAllowed cs (step c m)

  pub pcf-Inv :
      (p : String) (m : QodStateManager Credential)
      → Inv m
      → Inv (remove_pcf_to_qod_session_mapping p m).1
  unfolding remove_pcf_to_qod_session_mapping
  pcf-Inv p m c = elim (Option-cases (find p m.pcf_session_mapping)) [
    | inl e ↦ rw (remove_pcf_to_qod_session_mapping, e) c
    | inr (i, e) ↦ rw (remove_pcf_to_qod_session_mapping, e) c
  ]

  step-Inv :
      (c : Call Credential) (m : QodStateManager Credential)
      → IsAllowed c m
      → Inv m
      → Inv (step c m)
  unfolding step update_pcf_session_map register_qos_profile
  step-Inv (adds s) m h c = add_session-Inv s m c (λ v e. cc (h, e))
  step-Inv (removes i) m h c = remove_session-Inv i m c
  step-Inv (updates s) m h c = update_session-Inv s m c h
  step-Inv (sets_status i x info) m h c = update_session_status-Inv i x info m c
  step-Inv (maps_pcf p i) m h c = c
  step-Inv (forgets_pcf p) m h c = pcf-Inv p m c
  step-Inv (registers n x) m h c = c
  step-Inv clears m h c = clear-Inv m

  run-Inv :
      (cs : List (Call Credential)) (m : QodStateManager Credential)
      → AreAllowed cs m
      → Inv m
      → Inv (run cs m)
  unfolding run AreAllowed
  run-Inv [] m h c = c
  run-Inv (x ∷ cs) m h c = run-Inv cs (step x m) h.1 (step-Inv x m h.0 c)

  -- After any history of calls on a new store, in which an added session has a new identifier and an
  -- update keeps the SUPI of the session, each session stands once and under its own
  -- identifier, and the index by SUPI has, for each SUPI, exactly the identifiers of the stored
  -- sessions with this SUPI, and no empty set.
  pub store_run-Inv :
      (cs : List (Call Credential))
      → AreAllowed cs init
      → Inv (run cs (init {Credential = Credential}))
  store_run-Inv cs h = run-Inv cs init h init-Inv
