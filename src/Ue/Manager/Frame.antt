-- ===== src/Ue/Manager/Frame.antt =====
-- What the index helpers leave alone, and what they do to the index by SUPI.
use phine_af.Prelude.{
  String, ◌≡◌, refl, Bool, false, Option, none, some, List, [], ◌∷◌, ◌==◌, each, if◌then◌else◌,
}
use phine_af.Map.{Map, find, map_laws}
use phine_af.Ue.Common.{Common}
use phine_af.Ue.Key.{get_primary_key}
use phine_af.Ue.Data.{PduSessionData, AfUeSubscriptionState}
use phine_af.Ue.Manager.{
  UeStateManager, put_if, erase_if, add_pdu_session_indices, remove_pdu_session_indices,
  erase_pdu_session_indices, add_ue_indices, remove_ue_indices,
}

module _ {C : Common} where
  -- The members that the indices by address do not concern.
  pub record Same (m n : UeStateManager C) : Type 0 where
    pub states : m.ue_states_by_key ≡ n.ue_states_by_key
    pub supis : m.key_by_supi ≡ n.key_by_supi
    pub gpsis : m.key_by_gpsi ≡ n.key_by_gpsi
    pub events : m.event_dispatcher ≡ n.event_dispatcher
    pub mutex : m.rw_mtx ≡ n.rw_mtx

  each_add-Same :
      (k : String) (ps : List (PduSessionData C)) (m : UeStateManager C)
      → Same (each (add_pdu_session_indices k) ps m) m
  unfolding add_pdu_session_indices
  each_add-Same k [] m = record {
    states = refl;
    supis = refl;
    gpsis = refl;
    events = refl;
    mutex = refl;
  }
  each_add-Same k (p ∷ ps) m =
      let ih = each_add-Same k ps (add_pdu_session_indices k p m) in
      record {
        states = ih.states;
        supis = ih.supis;
        gpsis = ih.gpsis;
        events = ih.events;
        mutex = ih.mutex;
      }

  each_erase-Same :
      (ps : List (PduSessionData C)) (m : UeStateManager C)
      → Same (each erase_pdu_session_indices ps m) m
  unfolding erase_pdu_session_indices
  each_erase-Same [] m = record {
    states = refl;
    supis = refl;
    gpsis = refl;
    events = refl;
    mutex = refl;
  }
  each_erase-Same (p ∷ ps) m =
      let ih = each_erase-Same ps (erase_pdu_session_indices p m) in
      record {
        states = ih.states;
        supis = ih.supis;
        gpsis = ih.gpsis;
        events = ih.events;
        mutex = ih.mutex;
      }

  pub add_pdu-Same :
      (k : String) (p : PduSessionData C) (m : UeStateManager C)
      → Same (add_pdu_session_indices k p m) m
  add_pdu-Same k p m = each_add-Same k (p ∷ []) m

  pub remove_pdu-Same :
      (k : String) (p : PduSessionData C) (m : UeStateManager C)
      → Same (remove_pdu_session_indices k p m) m
  unfolding remove_pdu_session_indices
  remove_pdu-Same k p m = record {
    states = refl;
    supis = refl;
    gpsis = refl;
    events = refl;
    mutex = refl;
  }

  pub add-Same :
      (s : AfUeSubscriptionState C) (m : UeStateManager C)
      → Same (add_ue_indices s m) (record m {
        key_by_supi = put_if s.supi (get_primary_key s.ue_key) m.key_by_supi;
        key_by_gpsi = put_if s.gpsi (get_primary_key s.ue_key) m.key_by_gpsi;
      })
  unfolding add_ue_indices
  add-Same s m = each_add-Same _ s.pdu_sessions _

  pub remove-Same :
      (s : AfUeSubscriptionState C) (m : UeStateManager C)
      → Same (remove_ue_indices s m) (record m {
        key_by_supi = erase_if s.supi m.key_by_supi;
        key_by_gpsi = erase_if s.gpsi m.key_by_gpsi;
      })
  unfolding remove_ue_indices
  remove-Same s m = each_erase-Same s.pdu_sessions _

-- Whether an optional identifier is the text.
abbrev pub owns : String → Option String → Bool
owns v none = false
owns v (some w) = w == v

pub find-put_if :
    (v : String) (o : Option String) (k : String) (i : Map String)
    → find v (put_if o k i) ≡ (if owns v o then some k else find v i)
find-put_if v none k i = refl
find-put_if v (some w) k i = simp map_laws

pub find-erase_if :
    (v : String) (o : Option String) (i : Map String)
    → find v (erase_if o i) ≡ (if owns v o then none else find v i)
find-erase_if v none i = refl
find-erase_if v (some w) i = simp map_laws
