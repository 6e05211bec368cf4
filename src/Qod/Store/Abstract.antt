-- ===== src/Qod/Store/Abstract.antt =====
-- What the session store promises: it is a function from identifiers to sessions. The map, its
-- order and the index by SUPI are forgotten.
use mathlib.Core.Path.{fun_ext}
use phine_af.Prelude.{
  String, ◌≡◌, refl, ◌∙◌, ap, Option, none, some, List, [], ◌∷◌, arith, ◌==◌, contains,
  Option-cases, inl, inr, eq_iff, if◌then◌else◌,
}
use phine_af.Map.{find-empty}
use phine_af.Map.Unique.{holds}
use phine_af.Ue.Manager.Frame.{owns}
use phine_af.Qod.Types.{QodSession, QosStatus}
use phine_af.Qod.Store.{
  QodStateManager, init, get_session_by_id, set_info, same_status, get_sessions_by_supi,
  get_sessions_by_status, update_session, update_session_status, clear_all_sessions,
  update_pcf_session_map, remove_pcf_to_qod_session_mapping, register_qos_profile,
}
use phine_af.Qod.Store.Invariant.{supi_of}
use phine_af.Qod.Store.Lookups.{ids, listed-exactly}
use phine_af.Qod.Store.Finds.{
  find-add_session, find-remove_session, find-update_session, find-update_session_status,
  find-remove_pcf,
}
use phine_af.Qod.Store.Run.{
  Call, adds, removes, updates, sets_status, maps_pcf, forgets_pcf, registers, clears, step, run,
  AreAllowed, store_run-Inv,
}

-- The sessions by their identifiers.
abbrev pub Sessions : Type 0 → Type 0
Sessions Credential = String → Option (QodSession Credential)

module _ {Credential : Type 0} where
  abbrev pub set_session :
      String → Option (QodSession Credential) → Sessions Credential → Sessions Credential
  set_session i o f j = if i == j then o else f j

  -- A change of the session that is there.
  abbrev pub change_session :
      String
      → (QodSession Credential → QodSession Credential)
      → Sessions Credential
      → Sessions Credential
  change_session i g f = set_session i (elim (f i) [ none ↦ none | some s ↦ some (g s) ]) f

  unfoldable pub abstract_step : Call Credential → Sessions Credential → Sessions Credential
  abstract_step (adds s) f = set_session s.session_id (some s) f
  abstract_step (removes i) f = set_session i none f
  abstract_step (updates s) f = change_session s.session_id (λ _. s) f
  abstract_step (sets_status i x info) f =
      change_session i (λ s. set_info info (record s { qos_status = x })) f
  abstract_step (maps_pcf p i) f = f
  abstract_step (forgets_pcf p) f = f
  abstract_step (registers n x) f = f
  abstract_step clears f = λ _. none

  unfoldable pub abstract_run : List (Call Credential) → Sessions Credential → Sessions Credential
  unfolding abstract_step
  abstract_run [] f = f
  abstract_run (c ∷ cs) f = abstract_run cs (abstract_step c f)

  abbrev pub abstraction : QodStateManager Credential → Sessions Credential
  abstraction m i = get_session_by_id i m

  step-refines :
      (c : Call Credential) (m : QodStateManager Credential) (j : String)
      → abstraction (step c m) j ≡ abstract_step c (abstraction m) j
  unfolding step abstract_step update_session update_session_status clear_all_sessions
      update_pcf_session_map remove_pcf_to_qod_session_mapping register_qos_profile
  step-refines (adds s) m j = find-add_session s j m
  step-refines (removes i) m j = find-remove_session i j m
  step-refines (updates s) m j = elim (Option-cases (get_session_by_id s.session_id m)) [
    | inl e ↦ rw (update_session, e) (ground (arith, e, eq_iff s.session_id j))
    | inr (old, e) ↦ find-update_session s old j m e ∙ rw e refl
  ]
  step-refines (sets_status i x info) m j = elim (Option-cases (get_session_by_id i m)) [
    | inl e ↦ rw (update_session_status, e) (ground (arith, e, eq_iff i j))
    | inr (s, e) ↦ find-update_session_status i j x info s m e ∙ rw e refl
  ]
  step-refines (maps_pcf p i) m j = refl
  step-refines (forgets_pcf p) m j = find-remove_pcf p j m
  step-refines (registers n x) m j = refl
  step-refines clears m j = find-empty j

  run-refines :
      (cs : List (Call Credential)) (m : QodStateManager Credential)
      → abstraction (run cs m) ≡ abstract_run cs (abstraction m)
  unfolding run abstract_run
  run-refines [] m = refl
  run-refines (c ∷ cs) m =
      run-refines cs (step c m) ∙ ap (abstract_run cs) (fun_ext (step-refines c m))

  -- After any history of calls on a new store, in which an added session has a new identifier and an
  -- update keeps the SUPI of the session, the stored sessions are those of the abstract store, a
  -- function from identifiers to sessions that the same calls change; the search by SUPI and the
  -- list by status answer with exactly the identifiers whose abstract session has this SUPI and
  -- this status.
  pub store-refines :
      (cs : List (Call Credential))
      → AreAllowed cs init
      → (abstraction (run cs init) ≡ abstract_run cs (λ _. none))
        × ((v i : String)
            → contains i (get_sessions_by_supi v (run cs init))
              ≡ owns v (supi_of (abstract_run cs (λ _. none) i)))
        × ((x : QosStatus) (i : String)
            → contains i (ids (get_sessions_by_status x (run cs init)))
              ≡ holds (λ s. same_status s.qos_status x) (abstract_run cs (λ _. none) i))
  unfolding init get_sessions_by_supi
  store-refines cs h =
      let start : abstraction (init {Credential = Credential}) ≡ (λ _. none) =
        fun_ext (λ i. find-empty i) in
      let same = run-refines cs init ∙ ap (abstract_run cs) start in
      let c = store_run-Inv cs h in
      (
        same,
        (λ v i. c.exact v i ∙ ap (λ f. owns v (supi_of (f i))) same),
        (λ x i.
            (listed-exactly (run cs init) c).0 x i
            ∙ ap (λ f. holds (λ s. same_status s.qos_status x) (f i)) same),
      )
