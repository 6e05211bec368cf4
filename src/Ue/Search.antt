-- ===== src/Ue/Search.antt =====
-- The searches of af_core/src/ue_state_manager.cpp.
pub mod Results
pub mod Promotion
use phine_af.Prelude.{
  ℕ, ◌+◌, String, Bool, true, false, not, ◌&&◌, Option, none, some, List, [], ◌∷◌, ◌++◌, ◌==◌, any,
  map, keep, find_if, length, contains,
}
use phine_af.Map.{find}
use phine_af.Outcome.{Method, returns, pure, lift, ◌>>=◌}
use phine_af.Ue.Common.{Common}
use phine_af.Ue.Key.{
  UeKey, KeyType, supi_based, gpsi_based, ipv4_based, ipv6_based, ipv6_prefix_based, make_key,
  get_primary_key,
}
use phine_af.Ue.Data.{
  PduSessionData, AfUeSubscriptionState, ResolutionState, provisional, partial, resolved,
}
use phine_af.Ue.State.{same_pdu, is_nil}
use phine_af.Ue.Manager.{UeStateManager, locked, find_state}

abbrev pub same_state : ResolutionState → ResolutionState → Bool
same_state provisional provisional = true
same_state partial partial = true
same_state resolved resolved = true
same_state _ _ = false

abbrev pub same_bool : Bool → Bool → Bool
same_bool true b = b
same_bool false b = not b

abbrev pub allows {ℓ} : {A : Type ℓ} → Option A → (A → Bool) → Bool
allows none p = true
allows (some a) p = p a

module _ {C : Common} where
  -- The states in the order of the map.
  abbrev pub states : UeStateManager C → List (AfUeSubscriptionState C)
  states m = map (λ e. e.1) m.ue_states_by_key.entries

  unfoldable pub get_all_ue_states : Method (UeStateManager C) (List (AfUeSubscriptionState C))
  get_all_ue_states = locked λ m. (returns (states m), m)

  unfoldable pub get_ue_state_by_key :
      UeKey → Method (UeStateManager C) (Option (AfUeSubscriptionState C))
  get_ue_state_by_key key = locked λ m. (returns (find_state (get_primary_key key) m), m)

  -- Through the index, to the state under the key that it holds.
  unfoldable pub get_ue_state_by_supi :
      String → Method (UeStateManager C) (Option (AfUeSubscriptionState C))
  get_ue_state_by_supi v = locked λ m. elim (find v m.key_by_supi) [
    | some k ↦ (returns (find_state k m), m)
    | none ↦ (returns none, m)
  ]

  -- The other four ask the index whether the identifier is known, and then, with the mutex still
  -- held, call `get_ue_state_by_key` with the key that the identifier itself makes.
  unfoldable pub search_by :
      KeyType
      → String
      → Option String
      → Method (UeStateManager C) (Option (AfUeSubscriptionState C))
  search_by t v none = pure none
  search_by t v (some k) = do key ← lift (make_key v t); get_ue_state_by_key key

  unfoldable pub get_ue_state_by_gpsi :
      String → Method (UeStateManager C) (Option (AfUeSubscriptionState C))
  unfolding search_by
  get_ue_state_by_gpsi v = locked λ m. search_by gpsi_based v (find v m.key_by_gpsi) m

  unfoldable pub get_ue_state_by_ipv4 :
      String → Method (UeStateManager C) (Option (AfUeSubscriptionState C))
  unfolding search_by
  get_ue_state_by_ipv4 v = locked λ m. search_by ipv4_based v (find v m.key_by_ipv4_addr) m

  unfoldable pub get_ue_state_by_ipv6_addr :
      String → Method (UeStateManager C) (Option (AfUeSubscriptionState C))
  unfolding search_by
  get_ue_state_by_ipv6_addr v = locked λ m. search_by ipv6_based v (find v m.key_by_ipv6_addr) m

  unfoldable pub get_ue_state_by_ipv6_prefix :
      String → Method (UeStateManager C) (Option (AfUeSubscriptionState C))
  unfolding search_by
  get_ue_state_by_ipv6_prefix v =
      locked λ m. search_by ipv6_prefix_based v (find v m.key_by_ipv6_prefix) m

  abbrev pub has_mac : String → PduSessionData C → Bool
  has_mac v p = elim p.ue_mac_address [ some w ↦ w == v | none ↦ false ]

  unfoldable pub get_ue_state_by_mac_addr :
      String → Method (UeStateManager C) (Option (AfUeSubscriptionState C))
  get_ue_state_by_mac_addr v =
      locked λ m. (returns (find_if (λ s. any (has_mac v) s.pdu_sessions) (states m)), m)

  unfoldable pub get_ue_state_by_pdu_session_id :
      String → Method (UeStateManager C) (Option (AfUeSubscriptionState C))
  get_ue_state_by_pdu_session_id i =
      locked λ m. (returns (find_if (λ s. any (same_pdu i) s.pdu_sessions) (states m)), m)

  abbrev pub has_sessions : AfUeSubscriptionState C → Bool
  has_sessions s = any (λ p. not (is_nil p.active_qod_session_ids)) s.pdu_sessions

  matches : Option ResolutionState → Option Bool → AfUeSubscriptionState C → Bool
  matches r a s =
      allows r (same_state s.resolution_state) && allows a (λ b. same_bool b (has_sessions s))

  unfoldable pub find_ue_states :
      Option ResolutionState
      → Option Bool
      → Method (UeStateManager C) (List (AfUeSubscriptionState C))
  unfolding matches
  find_ue_states r a = locked λ m. (returns (keep (matches r a) (states m)), m)

  unfoldable pub get_qod_sessions_for_pdu_session :
      UeKey → String → Method (UeStateManager C) (Option (List String))
  get_qod_sessions_for_pdu_session key i = locked λ m. elim (find_state (get_primary_key key) m) [
    | none ↦ (returns none, m)
    | some s ↦ elim (find_if (same_pdu i) s.pdu_sessions) [
      | none ↦ (returns none, m)
      | some p ↦ (returns (some p.active_qod_session_ids), m)
    ]
  ]

  unfoldable pub get_qod_sessions_for_pdu_session_by_supi :
      String → String → Method (UeStateManager C) (Option (List String))
  get_qod_sessions_for_pdu_session_by_supi v i = do
    key ← lift (make_key v supi_based)
    get_qod_sessions_for_pdu_session key i

  pdus_with : String → List (AfUeSubscriptionState C) → List String
  pdus_with q [] = []
  pdus_with q (s ∷ l) =
      map (λ p. p.pdu_session_id) (keep (λ p. contains q p.active_qod_session_ids) s.pdu_sessions)
      ++ pdus_with q l

  unfoldable pub get_pdu_sessions_for_qod_session : String → Method (UeStateManager C) (List String)
  unfolding pdus_with
  get_pdu_sessions_for_qod_session q = locked λ m. (returns (pdus_with q (states m)), m)

-- The counters of `get_state_statistics`, by their names in its result.
pub record Statistics : Type 0 where
  pub total_states : ℕ
  pub resolved_count : ℕ
  pub provisional_count : ℕ
  pub partial_count : ℕ
  pub active_qod_sessions : ℕ

abbrev pub count_state : ResolutionState → Statistics → Statistics
count_state resolved t = record t { resolved_count = t.resolved_count + 1 }
count_state provisional t = record t { provisional_count = t.provisional_count + 1 }
count_state partial t = record t { partial_count = t.partial_count + 1 }

module _ {C : Common} where
  unfoldable pub count_sessions : List (PduSessionData C) → ℕ
  count_sessions [] = 0
  count_sessions (p ∷ l) = length p.active_qod_session_ids + count_sessions l

  unfoldable pub count_states : List (AfUeSubscriptionState C) → Statistics → Statistics
  unfolding count_sessions
  count_states [] t = t
  count_states (s ∷ l) t =
      let t' = count_state s.resolution_state t in
      count_states l
        (record t' { active_qod_sessions = t'.active_qod_sessions + count_sessions s.pdu_sessions })

  unfoldable pub get_state_statistics : Method (UeStateManager C) Statistics
  unfolding count_states
  get_state_statistics = locked λ m. (
    returns (
        count_states (states m) (record {
          total_states = length m.ue_states_by_key.entries;
          resolved_count = 0;
          provisional_count = 0;
          partial_count = 0;
          active_qod_sessions = 0;
        })),
    m,
  )
