-- ===== src/Qod/Store/Keeps.antt =====
-- The methods of the session store keep its invariant.
use phine_af.Prelude.{
  String, ◌≡◌, refl, true, false, not, ◌&&◌, ◌||◌, Option, none, some, List, arith, ◌==◌, eq_iff,
  eq_refl, ◌∙◌, contains, set_insert, set_erase, Option-cases, inl, inr,
}
use phine_af.Map.{Map, find, put, find-put, find-erase, find-empty}
use phine_af.Map.Unique.{empty-IsUnique, put-IsUnique, erase-IsUnique}
use phine_af.Ue.State.{is_nil}
use phine_af.Ue.Manager.Frame.{owns}
use phine_af.Qod.Types.{QodSession, QosStatus, StatusInfo}
use phine_af.Qod.Store.{
  QodStateManager, set_at, insert_session, forget_session, init, add_session, remove_session,
  update_session, update_session_status, clear_all_sessions, set_info,
}
use phine_af.Qod.Store.Invariant.{
  Inv, supi_of, contains-set_erase, contains-set_insert, contains-is_nil,
}

contains-insert_session :
    (i : String) (o : Option String) (m : Map (List String)) (v j : String)
    → contains j (set_at v (insert_session i o m))
      ≡ ((owns v o && (i == j)) || contains j (set_at v m))
contains-insert_session i none m v j = refl
contains-insert_session i (some w) m v j = ground (
  arith,
  find-put w v (set_insert i (set_at w m)) m,
  contains-set_insert i j (set_at w m),
  eq_iff w v,
)

filled-insert_session :
    (i : String) (o : Option String) (m : Map (List String))
    → ((v : String) (l : List String) → find v m ≡ some l → is_nil l ≡ false)
    → (v : String) (l : List String) → find v (insert_session i o m) ≡ some l
    → is_nil l ≡ false
filled-insert_session i none m h v l e = h v l e
filled-insert_session i (some w) m h v l e = ground (
  arith,
  find-put w v (set_insert i (set_at w m)) m,
  h v l,
  contains-set_insert i i (set_at w m),
  eq_refl i,
  contains-is_nil i l,
)

contains-forget_session :
    (i : String) (o : Option String) (m : Map (List String)) (v j : String)
    → contains j (set_at v (forget_session i o m))
      ≡ (not (owns v o && (i == j)) && contains j (set_at v m))
unfolding forget_session
contains-forget_session i none m v j = refl
contains-forget_session i (some w) m v j = elim (Option-cases (find w m)) [
  | inl e ↦ ground (arith, e, eq_iff w v)
  | inr (l, e) ↦ ground (
    arith,
    e,
    eq_iff w v,
    find-put w v (set_erase i l) m,
    find-erase w v m,
    contains-set_erase i j l,
    contains-is_nil j (set_erase i l),
  )
]

filled-forget_session :
    (i : String) (o : Option String) (m : Map (List String))
    → ((v : String) (l : List String) → find v m ≡ some l → is_nil l ≡ false)
    → (v : String) (l : List String) → find v (forget_session i o m) ≡ some l
    → is_nil l ≡ false
unfolding forget_session
filled-forget_session i none m h v l e = h v l e
filled-forget_session i (some w) m h v l e = elim (Option-cases (find w m)) [
  | inl f ↦ ground (arith, f, e, h v l)
  | inr (k, f) ↦ ground (arith, f, e, h v l, find-put w v (set_erase i k) m, find-erase w v m)
]

module _ {Credential : Type 0} where
  pub init-Inv : Inv (init {Credential = Credential})
  unfolding init
  init-Inv = record {
    unique = empty-IsUnique;
    named = λ i s e. cc (find-empty i, e);
    exact = λ v i.
        ground (arith, find-empty {V = List String} v, find-empty {V = QodSession Credential} i);
    filled = λ v l e. cc (find-empty v, e);
  }

  pub clear-Inv : (m : QodStateManager Credential) → Inv (clear_all_sessions m)
  unfolding clear_all_sessions
  clear-Inv m = record {
    unique = empty-IsUnique;
    named = λ i s e. cc (find-empty i, e);
    exact = λ v i.
        ground (arith, find-empty {V = List String} v, find-empty {V = QodSession Credential} i);
    filled = λ v l e. cc (find-empty v, e);
  }

  -- A session is added that is new, or whose identifier stood for a session of the same SUPI.
  pub add_session-Inv :
      (s : QodSession Credential) (m : QodStateManager Credential)
      → Inv m
      → ((v : String)
          → owns v (supi_of (find s.session_id m.sessions_by_id)) ≡ true
          → owns v s.ue_supi ≡ true)
      → Inv (add_session s m)
  unfolding add_session
  add_session-Inv s m c h = record {
    unique = put-IsUnique s.session_id s m.sessions_by_id c.unique;
    named = λ i t e.
        ground (
          arith,
          find-put s.session_id i s m.sessions_by_id,
          e,
          c.named i t,
          eq_iff s.session_id i,
        );
    exact = λ v i. ground (
      arith,
      contains-insert_session s.session_id s.ue_supi m.sessions_by_supi v i,
      c.exact v i,
      find-put s.session_id i s m.sessions_by_id,
      eq_iff s.session_id i,
      h v,
    );
    filled = filled-insert_session s.session_id s.ue_supi m.sessions_by_supi c.filled;
  }

  pub remove_session-Inv :
      (i : String) (m : QodStateManager Credential) → Inv m → Inv (remove_session i m).1
  unfolding remove_session
  remove_session-Inv i m c = elim (Option-cases (find i m.sessions_by_id)) [
    | inl e ↦ rw (remove_session, e) c
    | inr (s, e) ↦
        rw (remove_session, e)
          (record {
            unique = erase-IsUnique i m.sessions_by_id c.unique;
            named = λ j t f. ground (arith, find-erase i j m.sessions_by_id, f, c.named j t);
            exact = λ v j. ground (
              arith,
              contains-forget_session i s.ue_supi m.sessions_by_supi v j,
              c.exact v j,
              find-erase i j m.sessions_by_id,
              eq_iff i j,
              e,
            );
            filled = filled-forget_session i s.ue_supi m.sessions_by_supi c.filled;
          })
  ]

  -- A session is overwritten by one of the same SUPI.
  overwrite-Inv :
      (i : String) (old s : QodSession Credential) (m : QodStateManager Credential)
      → Inv m
      → find i m.sessions_by_id ≡ some old
      → s.session_id ≡ i
      → s.ue_supi ≡ old.ue_supi
      → Inv (record m { sessions_by_id = put i s m.sessions_by_id })
  overwrite-Inv i old s m c e same supi = record {
    unique = put-IsUnique i s m.sessions_by_id c.unique;
    named =
        λ j t f. ground (arith, find-put i j s m.sessions_by_id, f, c.named j t, eq_iff i j, same);
    exact =
        λ v j. ground (arith, c.exact v j, find-put i j s m.sessions_by_id, eq_iff i j, e, supi);
    filled = c.filled;
  }

  pub update_session-Inv :
      (s : QodSession Credential) (m : QodStateManager Credential)
      → Inv m
      → ((old : QodSession Credential)
          → find s.session_id m.sessions_by_id ≡ some old
          → s.ue_supi ≡ old.ue_supi)
      → Inv (update_session s m).1
  unfolding update_session
  update_session-Inv s m c h = elim (Option-cases (find s.session_id m.sessions_by_id)) [
    | inl e ↦ rw (update_session, e) c
    | inr (old, e) ↦ rw (update_session, e) (overwrite-Inv s.session_id old s m c e refl (h old e))
  ]

  set_info-keep :
      (info : Option StatusInfo) (s : QodSession Credential)
      → ((set_info info s).session_id ≡ s.session_id) × ((set_info info s).ue_supi ≡ s.ue_supi)
  set_info-keep none s = (refl, refl)
  set_info-keep (some i) s = (refl, refl)

  pub update_session_status-Inv :
      (i : String) (x : QosStatus) (info : Option StatusInfo) (m : QodStateManager Credential)
      → Inv m
      → Inv (update_session_status i x info m).1
  unfolding update_session_status
  update_session_status-Inv i x info m c = elim (Option-cases (find i m.sessions_by_id)) [
    | inl e ↦ rw (update_session_status, e) c
    | inr (s, e) ↦
        let kept = set_info-keep info (record s { qos_status = x }) in
        rw (update_session_status, e) (overwrite-Inv i s _ m c e (kept.0 ∙ c.named i s e) kept.1)
  ]
