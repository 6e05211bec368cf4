-- ===== src/Qod/Lifecycle/Frame.antt =====
-- The steps of a deletion that leave the stored sessions as they are.
use phine_af.Prelude.{
  ℕ, String, Bool, ◌≡◌, refl, ◌∙◌, true, false, Option, none, some, ◌==◌, Option-cases, Bool-cases,
  inl, inr,
}
use phine_af.Map.{find}
use phine_af.Outcome.{Outcome, Method, returns, throws, undefined, pure, lift, ◌>>=◌, Outcome-cases}
use phine_af.Json.{JsonLib, Message, Answer}
use phine_af.Ue.Common.{Common}
use phine_af.Ue.Key.{UeKey}
use phine_af.Ue.PduSession.{remove_qod_session_from_pdu_session}
use phine_af.Ue.Manager.{UeStateManager}
use phine_af.Qod.Types.{QodSession, available}
use phine_af.Qod.Store.{QodStateManager, remove_pcf_to_qod_session_mapping, same_status}
use phine_af.Qod.Store.Invariant.{Inv}
use phine_af.Qod.Store.Run.{pcf-Inv}
use phine_af.Qod.Sessions.{QodSessionManager}
use phine_af.Qod.Pcf.Termination.{on_ue, unlink_session, unlink_by, create_or_get_ue_key}
use phine_af.Qod.Pcf.Exchange.{
  process_removal, ask_removal, removed_answer, forget_mapping, remove_session_from_pcf,
  is_connected, failed, delete_message,
}
use phine_af.Qod.Lifecycle.{remove_if_available, unlink_deleted}

module _ {Credential : Type 0} where
  -- The sessions are the same, and the invariant of the store is kept.
  abbrev pub Keeps : QodStateManager Credential → QodStateManager Credential → Type 0
  Keeps a b = (b.sessions_by_id ≡ a.sessions_by_id) × (Inv a → Inv b)

  pub Keeps-refl : (a : QodStateManager Credential) → Keeps a a
  Keeps-refl a = (refl, λ c. c)

  Keeps-trans : (a b c : QodStateManager Credential) → Keeps a b → Keeps b c → Keeps a c
  Keeps-trans a b c h k = (k.0 ∙ h.0, λ i. k.1 (h.1 i))

  Keeps-forget :
      (p : String) (a : QodStateManager Credential)
      → Keeps a (remove_pcf_to_qod_session_mapping p a).1
  unfolding remove_pcf_to_qod_session_mapping
  Keeps-forget p a = (
    elim (Option-cases (find p a.pcf_session_mapping)) [
      | inl e ↦ rw (remove_pcf_to_qod_session_mapping, e) refl
      | inr (i, e) ↦ rw (remove_pcf_to_qod_session_mapping, e) refl
    ],
    pcf-Inv p a,
  )

failed-state {ℓ} : {S : Type ℓ} (r : Outcome Bool × S) → (failed r).1 ≡ r.1
failed-state (returns b, m) = refl
failed-state (throws e, m) = refl
failed-state (undefined, m) = refl

module _ {C : Common} {Credential : Type 0} where
  abbrev pub IsSteady : {A : Type 0} → Method (QodSessionManager C Credential) A → Type 0
  IsSteady f =
      (m : QodSessionManager C Credential) → Keeps m.qod_state_manager (f m).1.qod_state_manager

  pub lift-IsSteady : {A : Type 0} (r : Outcome A) → IsSteady (lift r)
  lift-IsSteady r m = Keeps-refl m.qod_state_manager

  pub bind-IsSteady :
      {A B : Type 0} (f : Method (QodSessionManager C Credential) A)
      (g : A → Method (QodSessionManager C Credential) B)
      → IsSteady f
      → ((a : A) → IsSteady (g a))
      → IsSteady (f >>= g)
  bind-IsSteady f g h k m = elim (Outcome-cases (f m).0) [
    | inl (a, e) ↦ rw e (
        Keeps-trans m.qod_state_manager (f m).1.qod_state_manager (g a (f m).1).1.qod_state_manager
          (h m) (k a (f m).1))
    | inr (inl (x, e)) ↦ rw e (h m)
    | inr (inr e) ↦ rw e (h m)
  ]

  lift_bind-IsSteady :
      {A B : Type 0} (r : Outcome A) (g : A → Method (QodSessionManager C Credential) B)
      → ((a : A) → IsSteady (g a))
      → IsSteady (lift r >>= g)
  lift_bind-IsSteady r g h = bind-IsSteady (lift r) g (lift-IsSteady r) h

  failed-IsSteady :
      (f : Method (QodSessionManager C Credential) Bool) → IsSteady f → IsSteady (λ m. failed (f m))
  failed-IsSteady f h m = rw (failed-state (f m)) (h m)

  pub on_ue-IsSteady : {A : Type 0} (a : A) (f : Method (UeStateManager C) A) → IsSteady (on_ue a f)
  on_ue-IsSteady a f m = elim (Option-cases m.ue_state_manager) [
    | inl e ↦ rw e (Keeps-refl m.qod_state_manager)
    | inr (u, e) ↦ rw e (Keeps-refl m.qod_state_manager)
  ]

  pub key-IsSteady : (s : QodSession Credential) → IsSteady (create_or_get_ue_key s)
  unfolding create_or_get_ue_key
  key-IsSteady s m = elim (Option-cases m.ue_state_manager) [
    | inl e ↦ rw (create_or_get_ue_key, e) (Keeps-refl m.qod_state_manager)
    | inr (u, e) ↦ elim (Option-cases s.device) [
      | inl f ↦ rw (create_or_get_ue_key, e, f) (Keeps-refl m.qod_state_manager)
      | inr (d, f) ↦ rw (create_or_get_ue_key, e, f) (Keeps-refl m.qod_state_manager)
    ]
  ]

  unlink_by-IsSteady :
      (s : QodSession Credential) (i : String) (now : ℕ) (found : Option UeKey)
      → IsSteady (unlink_by s i now found)
  unfolding unlink_by
  unlink_by-IsSteady s i now none = lift-IsSteady (returns false)
  unlink_by-IsSteady s i now (some key) =
      bind-IsSteady (on_ue false (remove_qod_session_from_pdu_session key i s.session_id now))
        (λ _. pure true) (on_ue-IsSteady false _) (λ _. lift-IsSteady (returns true))

  pub unlink-IsSteady : (s : QodSession Credential) (now : ℕ) → IsSteady (unlink_session s now)
  unfolding unlink_session
  unlink-IsSteady s now m = elim (Option-cases s.pdu_session_id) [
    | inl e ↦ rw (unlink_session, e) (Keeps-refl m.qod_state_manager)
    | inr (i, e) ↦ elim (Option-cases m.ue_state_manager) [
      | inl f ↦ rw (unlink_session, e, f) (Keeps-refl m.qod_state_manager)
      | inr (u, f) ↦
          rw (unlink_session, e, f)
            (bind-IsSteady (create_or_get_ue_key s) (unlink_by s i now) (key-IsSteady s)
              (unlink_by-IsSteady s i now) m)
    ]
  ]

  pub unlink_deleted-IsSteady :
      (s : QodSession Credential) (now : ℕ) (b : Bool) → IsSteady (unlink_deleted s now b)
  unfolding unlink_deleted
  unlink_deleted-IsSteady s now true m = unlink-IsSteady s now m
  unlink_deleted-IsSteady s now false m = Keeps-refl m.qod_state_manager

module _ (J : JsonLib) {C : Common} {Credential : Type 0} where
  open J use {Json, parse, text_or}

  removed_answer-IsSteady :
      (j : Json) → IsSteady {C = C} {Credential = Credential} (removed_answer J j)
  unfolding removed_answer forget_mapping
  removed_answer-IsSteady j = lift_bind-IsSteady (text_or "pcf_session_id" "" j) _ (λ pcf.
      lift_bind-IsSteady (text_or "reason" "Requested by user" j) (λ _. forget_mapping pcf)
        (λ _ m. Keeps-forget pcf m.qod_state_manager))

  process_removal-IsSteady :
      (r : Option Message) → IsSteady {C = C} {Credential = Credential} (process_removal J r)
  unfolding process_removal
  process_removal-IsSteady none m = Keeps-refl m.qod_state_manager
  process_removal-IsSteady (some r) m =
      elim (Bool-cases (r.message_type == "pcf_delete_app_session")) [
        | inl e ↦
            rw e (lift_bind-IsSteady (parse r.payload) (removed_answer J) removed_answer-IsSteady m)
        | inr e ↦ rw e (Keeps-refl m.qod_state_manager)
      ]

  ask_removal-IsSteady :
      (r : Outcome (Option Message)) → IsSteady {C = C} {Credential = Credential} (ask_removal J r)
  unfolding ask_removal
  ask_removal-IsSteady r = lift_bind-IsSteady r (process_removal J) process_removal-IsSteady

  remove_session-IsSteady :
      (answer : Answer) (s : QodSession Credential)
      → IsSteady {C = C} (remove_session_from_pcf J answer s)
  unfolding remove_session_from_pcf
  remove_session-IsSteady answer s m = elim (Option-cases s.pcf_session_id) [
    | inl e ↦ rw (remove_session_from_pcf, e) (Keeps-refl m.qod_state_manager)
    | inr (p, e) ↦ elim (Bool-cases (is_connected m)) [
      | inl f ↦
          rw (remove_session_from_pcf, e, f)
            (failed-IsSteady
              (ask_removal J (answer m.pcf_destination (delete_message J s.session_id p)))
              (ask_removal-IsSteady (answer m.pcf_destination (delete_message J s.session_id p))) m)
      | inr f ↦ rw (remove_session_from_pcf, e, f) (Keeps-refl m.qod_state_manager)
    ]
  ]

  pub remove_if_available-IsSteady :
      (answer : Answer) (s : QodSession Credential)
      → IsSteady {C = C} (remove_if_available J answer s)
  unfolding remove_if_available
  remove_if_available-IsSteady answer s m = elim (Bool-cases (same_status s.qos_status available)) [
    | inl e ↦ rw (remove_if_available, e) (remove_session-IsSteady answer s m)
    | inr e ↦ rw (remove_if_available, e) (Keeps-refl m.qod_state_manager)
  ]
