-- ===== src/Qod/Store.antt =====
-- The class `QodStateManager` of af_core/src/qod/qod_state_manager.cpp. Each method locks the mutex
-- of what it reads, calls no method that locks it again, and is a function on the state here.
pub mod Invariant
pub mod Keeps
pub mod Lookups
pub mod Finds
pub mod Run
pub mod Abstract
use phine_af.Prelude.{
  ℕ, ◌+◌, String, Bool, true, false, not, ◌&&◌, Option, none, some, List, [], ◌∷◌, ◌==◌, map, keep,
  leb, set_insert, set_erase, if◌then◌else◌,
}
use phine_af.Map.{Map, empty, find, put, erase}
use phine_af.Ue.State.{is_nil}
use phine_af.Qod.Types.{
  QodSession, QosProfileMapping, QosStatus, StatusInfo, requested, available, unavailable,
}
use phine_af.Qod.Profiles.{default_mappings}

abbrev pub same_status : QosStatus → QosStatus → Bool
same_status requested requested = true
same_status available available = true
same_status unavailable unavailable = true
same_status _ _ = false

pub record QodStateManager (Credential : Type 0) : Type 0 where
  pub sessions_by_id : Map (QodSession Credential)
  pub sessions_by_supi : Map (List String)
  pub pcf_session_mapping : Map String
  pub qos_profile_mappings : Map QosProfileMapping

-- `index[key]` of a map of sets, which makes an empty set of a key that is missing.
abbrev pub set_at : String → Map (List String) → List String
set_at v m = elim (find v m) [ some l ↦ l | none ↦ [] ]

-- The session leaves the set of its SUPI, and a set that is empty then leaves the index.
unfoldable pub forget_session : String → Option String → Map (List String) → Map (List String)
forget_session i none m = m
forget_session i (some v) m = elim (find v m) [
  | none ↦ m
  | some l ↦ let rest = set_erase i l in if is_nil rest then erase v m else put v rest m
]

abbrev pub insert_session : String → Option String → Map (List String) → Map (List String)
insert_session i none m = m
insert_session i (some v) m = put v (set_insert i (set_at v m)) m

module _ {Credential : Type 0} where
  unfoldable pub init : QodStateManager Credential
  init = record {
    sessions_by_id = empty;
    sessions_by_supi = empty;
    pcf_session_mapping = empty;
    qos_profile_mappings = default_mappings;
  }

  unfoldable pub add_session :
      QodSession Credential → QodStateManager Credential → QodStateManager Credential
  add_session s m = record m {
    sessions_by_id = put s.session_id s m.sessions_by_id;
    sessions_by_supi = insert_session s.session_id s.ue_supi m.sessions_by_supi;
  }

  abbrev pub get_session_by_id :
      String → QodStateManager Credential → Option (QodSession Credential)
  get_session_by_id i m = find i m.sessions_by_id

  -- Whether the session was there.
  unfoldable pub remove_session :
      String → QodStateManager Credential → Bool × QodStateManager Credential
  unfolding forget_session
  remove_session i m = elim (get_session_by_id i m) [
    | none ↦ (false, m)
    | some s ↦ (
      true,
      record m {
        sessions_by_id = erase i m.sessions_by_id;
        sessions_by_supi = forget_session i s.ue_supi m.sessions_by_supi;
      },
    )
  ]

  unfoldable pub update_session :
      QodSession Credential → QodStateManager Credential → Bool × QodStateManager Credential
  update_session s m = elim (get_session_by_id s.session_id m) [
    | none ↦ (false, m)
    | some old ↦ (true, record m { sessions_by_id = put s.session_id s m.sessions_by_id })
  ]

  unfoldable pub get_sessions_by_supi : String → QodStateManager Credential → List String
  get_sessions_by_supi v m = set_at v m.sessions_by_supi

  -- The sessions in the order of the map.
  abbrev pub get_all_sessions : QodStateManager Credential → List (QodSession Credential)
  get_all_sessions m = map (λ e. e.1) m.sessions_by_id.entries

  unfoldable pub get_sessions_by_status :
      QosStatus → QodStateManager Credential → List (QodSession Credential)
  get_sessions_by_status x m = keep (λ s. same_status s.qos_status x) (get_all_sessions m)

  unfoldable pub clear_all_sessions : QodStateManager Credential → QodStateManager Credential
  clear_all_sessions m = record m { sessions_by_id = empty; sessions_by_supi = empty }

  abbrev pub set_info : Option StatusInfo → QodSession Credential → QodSession Credential
  set_info none s = s
  set_info (some i) s = record s { status_info = some i }

  -- The old detail stays if there is no new one.
  unfoldable pub update_session_status :
      String
      → QosStatus
      → Option StatusInfo
      → QodStateManager Credential
      → Bool × QodStateManager Credential
  update_session_status i x info m = elim (get_session_by_id i m) [
    | none ↦ (false, m)
    | some s ↦ (
      true,
      record m {
        sessions_by_id = put i (set_info info (record s { qos_status = x })) m.sessions_by_id;
      },
    )
  ]

  abbrev pub on_pdu : String → QodSession Credential → Bool
  on_pdu p s = elim s.pdu_session_id [ none ↦ false | some q ↦ q == p ]

  unfoldable pub first_on_pdu :
      String → Map (QodSession Credential) → List String → Option (QodSession Credential)
  first_on_pdu p m [] = none
  first_on_pdu p m (i ∷ l) =
      let rest = first_on_pdu p m l in
      elim (find i m) [ none ↦ rest | some s ↦ if on_pdu p s then some s else rest ]

  unfoldable pub get_session_by_pdu_session :
      String → String → QodStateManager Credential → Option (QodSession Credential)
  unfolding first_on_pdu
  get_session_by_pdu_session v p m = first_on_pdu p m.sessions_by_id (set_at v m.sessions_by_supi)

  abbrev pub has_expired : ℕ → ℕ → QodSession Credential → Bool
  has_expired now grace s = elim s.expires_at [ none ↦ false | some t ↦ leb (t + grace) now ]

  unfoldable pub get_expired_sessions :
      ℕ → ℕ → QodStateManager Credential → List (QodSession Credential)
  get_expired_sessions now grace m = keep (has_expired now grace) (get_all_sessions m)

  unfoldable pub update_pcf_session_map :
      String → String → QodStateManager Credential → QodStateManager Credential
  update_pcf_session_map p i m = record m { pcf_session_mapping = put p i m.pcf_session_mapping }

  unfoldable pub get_session_by_pcf_session_id :
      String → QodStateManager Credential → Option (QodSession Credential)
  get_session_by_pcf_session_id p m = elim (find p m.pcf_session_mapping) [
    | none ↦ none
    | some i ↦ get_session_by_id i m
  ]

  unfoldable pub remove_pcf_to_qod_session_mapping :
      String → QodStateManager Credential → Bool × QodStateManager Credential
  remove_pcf_to_qod_session_mapping p m = elim (find p m.pcf_session_mapping) [
    | none ↦ (false, m)
    | some i ↦ (true, record m { pcf_session_mapping = erase p m.pcf_session_mapping })
  ]

  unfoldable pub get_qos_profile_mapping :
      String → QodStateManager Credential → Option QosProfileMapping
  get_qos_profile_mapping n m = find n m.qos_profile_mappings

  unfoldable pub register_qos_profile :
      String → QosProfileMapping → QodStateManager Credential → QodStateManager Credential
  register_qos_profile n x m = record m { qos_profile_mappings = put n x m.qos_profile_mappings }
