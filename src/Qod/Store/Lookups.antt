-- ===== src/Qod/Store/Lookups.antt =====
-- What the searches of the session store find.
use phine_af.Prelude.{
  ℕ, String, ◌≡◌, ◌∙◌, ap, sym, true, false, Option, none, some, List, [], ◌∷◌, arith, eq_iff,
  contains, map, Option-cases, Bool-cases, inl, inr,
}
use phine_af.Map.{Map, find}
use phine_af.Map.Unique.{holds, contains-selected}
use phine_af.Ue.Manager.Frame.{owns}
use phine_af.Qod.Types.{QodSession, QosStatus}
use phine_af.Qod.Store.{
  QodStateManager, set_at, on_pdu, first_on_pdu, get_session_by_pdu_session, get_sessions_by_status,
  get_expired_sessions, has_expired, same_status,
}
use phine_af.Qod.Store.Invariant.{Inv}

owns-some : (v : String) (o : Option String) → owns v o ≡ true → o ≡ some v
owns-some v none e = cc
owns-some v (some w) e = ap some ((eq_iff w v).0 e)

module _ {Credential : Type 0} where
  owns-on_pdu : (p : String) (s : QodSession Credential) → owns p s.pdu_session_id ≡ on_pdu p s
  owns-on_pdu p s = elim (Option-cases s.pdu_session_id) [
    | inl e ↦ ground (arith, e)
    | inr (q, e) ↦ ground (arith, e)
  ]

  abbrev pub ids : List (QodSession Credential) → List String
  ids = map (λ s. s.session_id)

  -- Under the invariant, a session is listed by status exactly when it is stored under its
  -- identifier with this status, and listed as expired exactly when it is stored and its expiry and
  -- the grace period together are not after the given time.
  pub listed-exactly :
      (m : QodStateManager Credential)
      → Inv m
      → ((x : QosStatus) (i : String)
          → contains i (ids (get_sessions_by_status x m))
            ≡ holds (λ s. same_status s.qos_status x) (find i m.sessions_by_id))
        × ((now grace : ℕ) (i : String)
            → contains i (ids (get_expired_sessions now grace m))
              ≡ holds (has_expired now grace) (find i m.sessions_by_id))
  unfolding get_sessions_by_status get_expired_sessions
  listed-exactly m c = (
    λ x i.
        contains-selected (λ s. s.session_id) (λ s. same_status s.qos_status x) m.sessions_by_id
          c.unique c.named i,
    λ now grace i.
        contains-selected (λ s. s.session_id) (has_expired now grace) m.sessions_by_id c.unique
          c.named i,
  )

  -- The search by PDU session, in the list of identifiers that it goes through.
  first_on_pdu_sound :
      (p : String) (m : Map (QodSession Credential)) (l : List String) (s : QodSession Credential)
      → first_on_pdu p m l ≡ some s
      → (i : String) × (find i m ≡ some s) × (contains i l ≡ true) × (on_pdu p s ≡ true)
  unfolding first_on_pdu
  first_on_pdu_sound p m [] s e = cc
  first_on_pdu_sound p m (j ∷ l) s e =
      let later : first_on_pdu p m l ≡ some s
          → (i : String) × (find i m ≡ some s) × (contains i (j ∷ l) ≡ true) × (on_pdu p s ≡ true) =
        λ e'. let (i, f, h, g) = first_on_pdu_sound p m l s e' in (i, f, ground (arith, h), g) in
      elim (Option-cases (find j m)) [
        | inl f ↦ later (ground (arith, e, f))
        | inr (t, f) ↦ elim (Bool-cases (on_pdu p t)) [
          | inl g ↦
              let same : t ≡ s = ground (arith, e, f, g) in
              (j, f ∙ ap some same, ground (arith, eq_iff j j), ap (on_pdu p) (sym same) ∙ g)
          | inr g ↦ later (ground (arith, e, f, g))
        ]
      ]

  first_on_pdu_complete :
      (p : String) (m : Map (QodSession Credential)) (l : List String) (i : String)
      (s : QodSession Credential)
      → first_on_pdu p m l ≡ none
      → find i m ≡ some s
      → contains i l ≡ true
      → on_pdu p s ≡ false
  unfolding first_on_pdu
  first_on_pdu_complete p m [] i s e f h = cc
  first_on_pdu_complete p m (j ∷ l) i s e f h =
      ground (arith, e, f, h, first_on_pdu_complete p m l i s, eq_iff j i)

  -- Under the invariant, what the search by SUPI and PDU session finds is stored under its
  -- identifier and has this SUPI and this PDU session.
  pub get_session_by_pdu_session_sound :
      (v p : String) (m : QodStateManager Credential) (s : QodSession Credential)
      → Inv m
      → get_session_by_pdu_session v p m ≡ some s
      → (find s.session_id m.sessions_by_id ≡ some s)
        × (s.ue_supi ≡ some v)
        × (s.pdu_session_id ≡ some p)
  unfolding get_session_by_pdu_session
  get_session_by_pdu_session_sound v p m s c e =
      let (i, f, h, g) = first_on_pdu_sound p m.sessions_by_id (set_at v m.sessions_by_supi) s e in
      (
        ap (λ j. find j m.sessions_by_id) (c.named i s f) ∙ f,
        owns-some v s.ue_supi (ground (arith, c.exact v i, h, f)),
        owns-some p s.pdu_session_id (owns-on_pdu p s ∙ g),
      )

  -- Under the invariant, if the search by SUPI and PDU session finds nothing, no stored session of
  -- the SUPI is on the PDU session.
  pub get_session_by_pdu_session_complete :
      (v p : String) (m : QodStateManager Credential) (i : String) (s : QodSession Credential)
      → Inv m
      → get_session_by_pdu_session v p m ≡ none
      → find i m.sessions_by_id ≡ some s
      → s.ue_supi ≡ some v
      → on_pdu p s ≡ false
  unfolding get_session_by_pdu_session
  get_session_by_pdu_session_complete v p m i s c e f supi =
      first_on_pdu_complete p m.sessions_by_id (set_at v m.sessions_by_supi) i s e f
        (c.exact v i ∙ ground (arith, f, supi, eq_iff v v))
