-- ===== src/Qod/Lifecycle/Deletion.antt =====
-- What the deletion of a session leaves in the session store, and when the cleanup removes it.
use phine_af.Prelude.{
  ℕ, String, Bool, ◌≡◌, refl, sym, ◌∙◌, ap, subst, true, false, ◌&&◌, Option, none, some, arith,
  ◌==◌, ◌+◌, ◌≤◌, eq_refl, is_some, Option-cases, Bool-cases, inl, inr, if◌then◌else◌,
}
use phine_af.Outcome.{Outcome, Method, returns, throws, undefined, ◌>>=◌, Outcome-cases}
use phine_af.Json.{JsonLib, Answer}
use phine_af.Ue.Common.{Common}
use phine_af.Qod.Types.{QodSession, available, unavailable, delete_requested}
use phine_af.Qod.Store.{QodStateManager, get_session_by_id, update_session, same_status}
use phine_af.Qod.Store.Invariant.{Inv}
use phine_af.Qod.Store.Keeps.{update_session-Inv}
use phine_af.Qod.Sessions.{QodSessionManager, get_session, cleanup_expired_sessions}
use phine_af.Qod.Sessions.Cleanup.{cleanup-eq}
use phine_af.Qod.Store.Finds.{find-update_session}
use phine_af.Qod.Pcf.Responses.{notify-keep}
use phine_af.Qod.Pcf.Termination.{ended, unlink_session}
use phine_af.Qod.Lifecycle.{
  remove_if_available, store_deleted, store_unlinked, unlink_deleted, delete_found, delete_session,
}
use phine_af.Qod.Lifecycle.Frame.{
  Keeps, IsSteady, remove_if_available-IsSteady, unlink_deleted-IsSteady,
}

-- A call that returned true.
abbrev pub succeeded : Outcome Bool → Bool
succeeded (returns b) = b
succeeded _ = false

-- The session that is found, marked as deleted.
abbrev pub deleted :
    {Credential : Type 0} → ℕ → Option (QodSession Credential) → Option (QodSession Credential)
deleted now none = none
deleted now (some s) = some (record s {
  qos_status = unavailable;
  status_info = some delete_requested;
  expires_at = some now;
})

module _ {C : Common} {Credential : Type 0} where
  abbrev sessions : QodSessionManager C Credential → QodStateManager Credential
  sessions m = m.qod_state_manager

  -- The session is overwritten if the call succeeds, and nothing else is.
  abbrev Overwrites :
      QodSession Credential
      → QodSessionManager C Credential
      → Outcome Bool × QodSessionManager C Credential
      → Type 0
  Overwrites s m r =
      ((j : String)
        → get_session_by_id j (sessions r.1) ≡ (
            if succeeded r.0 && (s.session_id == j)
            then some s
            else get_session_by_id j (sessions m)))
      × (Inv (sessions m) → Inv (sessions r.1))

  nothing-Overwrites :
      (s : QodSession Credential) (r : Outcome Bool) (m n : QodSessionManager C Credential)
      → succeeded r ≡ false
      → Keeps (sessions m) (sessions n)
      → Overwrites s m (r, n)
  nothing-Overwrites s r m n e k = ((λ j. rw e (ap (λ x. phine_af.Map.find j x) k.0)), k.1)

  overwritten-Inv :
      (s old : QodSession Credential) (m : QodSessionManager C Credential)
      → get_session_by_id s.session_id (sessions m) ≡ some old
      → s.ue_supi ≡ old.ue_supi
      → Inv (sessions m)
      → Inv (update_session s (sessions m)).1
  overwritten-Inv s old m e v c = update_session-Inv s (sessions m) c (λ x f. v ∙ cc (e, f))

  store-Overwrites :
      (s old : QodSession Credential) (told b : Bool) (m : QodSessionManager C Credential)
      → get_session_by_id s.session_id (sessions m) ≡ some old
      → s.ue_supi ≡ old.ue_supi
      → Overwrites s m (store_unlinked s told b m)
  unfolding store_unlinked store_deleted
  store-Overwrites s old told false m e v =
      nothing-Overwrites s (returns false) m m refl (refl, λ c. c)
  store-Overwrites s old true true m e v =
      let told = notify-keep s (some delete_requested) m in
      (
        (λ j.
            ap (λ st. get_session_by_id j (update_session s st).1) told
            ∙ find-update_session s old j (sessions m) e),
        λ c. subst (λ st. Inv (update_session s st).1) (sym told) (overwritten-Inv s old m e v c),
      )
  store-Overwrites s old false true m e v =
      (λ j. find-update_session s old j (sessions m) e, overwritten-Inv s old m e v)

  bind-Overwrites :
      {A : Type 0} (s : QodSession Credential) (f : Method (QodSessionManager C Credential) A)
      (g : A → Method (QodSessionManager C Credential) Bool) (m : QodSessionManager C Credential)
      → IsSteady f
      → ((a : A) → Keeps (sessions m) (sessions (f m).1) → Overwrites s (f m).1 (g a (f m).1))
      → Overwrites s m ((f >>= g) m)
  bind-Overwrites s f g m h k = elim (Outcome-cases (f m).0) [
    | inl (a, e) ↦ let r = k a (h m) in rw e ((λ j. r.0 j ∙ rw (h m).0 refl), λ c. r.1 ((h m).1 c))
    | inr (inl (x, e)) ↦ rw e (nothing-Overwrites s (throws x) m (f m).1 refl (h m))
    | inr (inr e) ↦ rw e (nothing-Overwrites s undefined m (f m).1 refl (h m))
  ]

module _ (J : JsonLib) {C : Common} {Credential : Type 0} where
  found-Overwrites :
      (answer : Answer) (s : QodSession Credential) (now : ℕ) (m : QodSessionManager C Credential)
      → get_session_by_id s.session_id (sessions m) ≡ some s
      → Overwrites (ended delete_requested now s) m (delete_found J answer s now m)
  unfolding delete_found
  found-Overwrites answer s now m e =
      let s' = ended delete_requested now s in
      let told = same_status s.qos_status available in
      bind-Overwrites s' (remove_if_available J answer s)
        (λ deleted. unlink_deleted s' now deleted >>= store_unlinked s' told) m
        (remove_if_available-IsSteady J answer s)
        (λ deleted k.
          let n = (remove_if_available J answer s m).1 in
          bind-Overwrites s' (unlink_deleted s' now deleted) (store_unlinked s' told) n
            (unlink_deleted-IsSteady s' now deleted)
            (λ unlinked l.
              store-Overwrites s' s told unlinked (unlink_deleted s' now deleted n).1
                (ap (phine_af.Map.find s.session_id) (l.0 ∙ k.0) ∙ e) refl))

  -- A deletion that returns true is one by the consumer of a stored session, which is then
  -- unavailable with the detail that its deletion was requested and expires at the time of the call.
  -- Any other outcome leaves this session as it was, whatever the answers of the PCF are, and no
  -- outcome changes another session. The invariant of the store, which is assumed, is kept.
  pub delete-exact :
      (answer : Answer) (i consumer : String) (now : ℕ) (m : QodSessionManager C Credential)
      → Inv m.qod_state_manager
      → ((j : String)
          → get_session_by_id j (delete_session J answer i consumer now m).1.qod_state_manager ≡ (
              if succeeded (delete_session J answer i consumer now m).0 && (i == j)
              then deleted now (get_session i consumer m)
              else get_session_by_id j m.qod_state_manager))
        × (succeeded (delete_session J answer i consumer now m).0 ≡ (
            succeeded (delete_session J answer i consumer now m).0
            && is_some (get_session i consumer m)))
        × Inv (delete_session J answer i consumer now m).1.qod_state_manager
  unfolding delete_session get_session
  delete-exact answer i consumer now m c =
      elim (Option-cases (get_session_by_id i m.qod_state_manager)) [
        | inl e ↦ rw (delete_session, e) ((λ j. refl), refl, c)
        | inr (s, e) ↦ elim (Bool-cases (s.api_consumer_id == consumer)) [
          | inl f ↦
              let named = c.named i s e in
              let r =
                found-Overwrites answer s now m
                  (ap (λ k. get_session_by_id k m.qod_state_manager) named ∙ e) in
              rw (delete_session, get_session, e, f)
                (
                  (λ j.
                      r.0 j
                      ∙ ap
                          (λ k.
                            if succeeded (delete_found J answer s now m).0 && (k == j)
                            then some (ended delete_requested now s)
                            else get_session_by_id j m.qod_state_manager)
                          named),
                  ground arith,
                  r.1 c,
                )
          | inr f ↦ rw (delete_session, e, f) ((λ j. refl), refl, c)
        ]
      ]

  -- When nothing happens between a deletion that returned true and a cleanup at least the time to
  -- live of unavailable sessions later, this cleanup removes the session, under the invariant of
  -- the store.
  pub deleted-cleaned :
      (answer : Answer) (i consumer : String) (now later : ℕ) (m : QodSessionManager C Credential)
      → Inv m.qod_state_manager
      → succeeded (delete_session J answer i consumer now m).0 ≡ true
      → now + (delete_session J answer i consumer now m).1.config.unavailable_session_ttl ≤ later
      → get_session_by_id i
          (cleanup_expired_sessions later
            (delete_session J answer i consumer now m).1).qod_state_manager
        ≡ none
  deleted-cleaned answer i consumer now later m c h t =
      let r = delete_session J answer i consumer now m in
      let d = delete-exact answer i consumer now m c in
      let found : get_session_by_id i r.1.qod_state_manager
          ≡ deleted now (get_session i consumer m) =
        d.0 i ∙ rw (h, eq_refl i) refl in
      elim (Option-cases (get_session i consumer m)) [
        | inl e ↦ ground (arith, h, e, d.1)
        | inr (s, e) ↦ (cleanup-eq later r.1 d.2).0 i ∙ rw (found, e) (ground (arith, t))
      ]

  found-returns :
      (answer : Answer) (s : QodSession Credential) (now : ℕ) (m : QodSessionManager C Credential)
      → same_status s.qos_status available ≡ false
      → is_some s.pdu_session_id && is_some m.ue_state_manager ≡ false
      → (delete_found J answer s now m).0 ≡ returns true
  unfolding delete_found remove_if_available unlink_deleted unlink_session store_unlinked
      store_deleted
  found-returns answer s now m f p = elim (Option-cases s.pdu_session_id) [
    | inl e ↦ rw (delete_found, remove_if_available, f, unlink_deleted, unlink_session, e) refl
    | inr (i, e) ↦ elim (Option-cases m.ue_state_manager) [
      | inl g ↦ rw (delete_found, remove_if_available, f, unlink_deleted, unlink_session, e, g) refl
      | inr (u, g) ↦ ground (arith, p, e, g)
    ]
  ]

  -- The deletion of a session by its consumer returns true if the session is not available, so that
  -- the PCF is not asked, and is on no PDU session or there is no UE state manager.
  pub delete-returns :
      (answer : Answer) (i consumer : String) (now : ℕ) (m : QodSessionManager C Credential)
      (s : QodSession Credential)
      → get_session i consumer m ≡ some s
      → same_status s.qos_status available ≡ false
      → is_some s.pdu_session_id && is_some m.ue_state_manager ≡ false
      → (delete_session J answer i consumer now m).0 ≡ returns true
  unfolding get_session delete_session
  delete-returns answer i consumer now m s e f p =
      elim (Option-cases (get_session_by_id i m.qod_state_manager)) [
        | inl g ↦ ground (arith, e, g)
        | inr (t, g) ↦ elim (Bool-cases (t.api_consumer_id == consumer)) [
          | inl h ↦
              let same : t ≡ s = ground (arith, e, g, h) in
              rw (delete_session, g, h)
                (found-returns answer t now m
                  (ap (λ x. same_status x.qos_status available) same ∙ f)
                  (ap (λ x. is_some x.pdu_session_id && is_some m.ue_state_manager) same ∙ p))
          | inr h ↦ ground (arith, e, g, h)
        ]
      ]
