-- ===== src/Ue/State.antt =====
-- The methods of the class `AfUeSubscriptionState` of af_core/include/models/ue_state.h.
pub mod Laws
use phine_af.Prelude.{
  ℕ, String, Bool, true, false, ◌&&◌, ◌||◌, Option, none, some, List, [], ◌∷◌, ◌++◌, ◌==◌, any,
  contains, if◌then◌else◌,
}
use phine_af.Outcome.{Outcome, Method, returns, throws, undefined}
use phine_af.Ue.Common.{Common}
use phine_af.Ue.Key.{
  KeyType, UeKey, supi_based, gpsi_based, ipv4_based, ipv6_based, ipv6_prefix_based, mac_addr_based,
  composite, make_key, can_promote_to_supi, promote_to_supi, demote_to_composite,
}
use phine_af.Ue.Data.{PduSessionData, UeAccessMobilityData, AfUeSubscriptionState, resolved}

-- `std::vector::erase` of the first element that the test finds.
abbrev pub erase_first {ℓ} : {A : Type ℓ} → (A → Bool) → List A → List A
erase_first p [] = []
erase_first p (x ∷ xs) = let rest = erase_first p xs in if p x then xs else x ∷ rest

abbrev pub is_nil {ℓ} : {A : Type ℓ} → List A → Bool
is_nil [] = true
is_nil (x ∷ xs) = false

-- The alternative identifiers that the state knows.
pub data IdentifierType : Type 0 where
  ipv4 ipv6 gpsi ipv6_prefix mac other : IdentifierType

abbrev pub is_other : IdentifierType → Bool
is_other other = true
is_other _ = false

unfoldable pub identifier_type : String → IdentifierType
identifier_type t =
    if t == "ipv4"
    then ipv4
    else if t == "ipv6"
    then ipv6
    else if t == "gpsi"
    then gpsi
    else if t == "ipv6_prefix"
    then ipv6_prefix
    else if t == "mac"
    then mac
    else other

-- The key type that loses its value with the last identifier of a kind.
unfoldable pub key_type_of : IdentifierType → KeyType
key_type_of ipv4 = ipv4_based
key_type_of ipv6 = ipv6_based
key_type_of gpsi = gpsi_based
key_type_of ipv6_prefix = ipv6_prefix_based
key_type_of mac = mac_addr_based
key_type_of other = composite

abbrev pub same_type : KeyType → KeyType → Bool
same_type supi_based supi_based = true
same_type gpsi_based gpsi_based = true
same_type ipv4_based ipv4_based = true
same_type ipv6_based ipv6_based = true
same_type ipv6_prefix_based ipv6_prefix_based = true
same_type mac_addr_based mac_addr_based = true
same_type composite composite = true
same_type _ _ = false

unfoldable pub known : {C : Common} → IdentifierType → AfUeSubscriptionState C → List String
known ipv4 s = s.known_ipv4_addresses
known ipv6 s = s.known_ipv6_addresses
known gpsi s = s.known_gpsi_values
known ipv6_prefix s = s.known_ipv6_prefixes
known mac s = s.known_mac_addresses
known other s = []

unfoldable pub set_known :
    {C : Common} → IdentifierType → List String → AfUeSubscriptionState C → AfUeSubscriptionState C
set_known ipv4 l s = record s { known_ipv4_addresses = l }
set_known ipv6 l s = record s { known_ipv6_addresses = l }
set_known gpsi l s = record s { known_gpsi_values = l }
set_known ipv6_prefix l s = record s { known_ipv6_prefixes = l }
set_known mac l s = record s { known_mac_addresses = l }
set_known other l s = s

-- The key of a state that now has a SUPI.
unfoldable pub resolved_key : String → UeKey → Outcome UeKey
resolved_key v k =
    if can_promote_to_supi k then returns (promote_to_supi k) else make_key v supi_based

module _ {C : Common} where
  open C use {UeLocationInfo, PduidInformation, ServiceAreaCoverageInfo}

  abbrev pub touch : ℕ → AfUeSubscriptionState C → AfUeSubscriptionState C
  touch now s = record s { last_updated = now }

  abbrev pub set_gpsi : String → ℕ → AfUeSubscriptionState C → AfUeSubscriptionState C
  set_gpsi v now s = touch now (record s { gpsi = some v })

  abbrev pub set_location_info :
      UeLocationInfo → ℕ → AfUeSubscriptionState C → AfUeSubscriptionState C
  set_location_info info now s =
      touch now (record s { location_info = some info; location_timestamp = some now })

  abbrev pub set_access_mobility_data :
      UeAccessMobilityData C → ℕ → AfUeSubscriptionState C → AfUeSubscriptionState C
  set_access_mobility_data d now s = touch now (record s { access_mobility_data = some d })

  abbrev pub set_ue_policy_data_info :
      String → ℕ → AfUeSubscriptionState C → AfUeSubscriptionState C
  set_ue_policy_data_info info now s = touch now (record s { ue_policy_data_info = some info })

  abbrev pub set_prose_pduid_information :
      PduidInformation → ℕ → AfUeSubscriptionState C → AfUeSubscriptionState C
  set_prose_pduid_information info now s =
      touch now (record s { prose_pduid_information = some info })

  abbrev pub set_time_sync_service_available_and_capable :
      Bool → ℕ → AfUeSubscriptionState C → AfUeSubscriptionState C
  set_time_sync_service_available_and_capable b now s =
      touch now (record s { time_sync_service_available_and_capable = some b })

  abbrev pub set_service_area_coverage_allowed :
      List ServiceAreaCoverageInfo → ℕ → AfUeSubscriptionState C → AfUeSubscriptionState C
  set_service_area_coverage_allowed l now s =
      touch now (record s { service_area_coverage_allowed = l })

  abbrev pub set_high_throughput_desired_for_ue_traffic :
      Bool → ℕ → AfUeSubscriptionState C → AfUeSubscriptionState C
  set_high_throughput_desired_for_ue_traffic b now s =
      touch now (record s { high_throughput_desired_for_ue_traffic = some b })

  abbrev pub record_activity : ℕ → AfUeSubscriptionState C → AfUeSubscriptionState C
  record_activity now s = touch now (record s { last_activity = some now })

  -- `resolve_supi` ends by the key of the state; `from_supi` may throw.
  unfoldable pub with_key :
      Outcome UeKey → ℕ → AfUeSubscriptionState C → Outcome (Unit {0}) × AfUeSubscriptionState C
  with_key (returns k) now s = (returns tt, touch now (record s { ue_key = k }))
  with_key (throws e) now s = (throws e, s)
  with_key undefined now s = (undefined, s)

  -- A throw leaves the SUPI and the resolution written and the key as it was.
  unfoldable pub resolve_supi : String → ℕ → Method (AfUeSubscriptionState C) (Unit {0})
  unfolding resolved_key with_key
  resolve_supi v now s = elim s.supi [
    | some w ↦ (returns tt, s)
    | none ↦
        with_key (resolved_key v s.ue_key) now
          (record s { supi = some v; resolution_state = resolved; supi_resolved_at = some now })
  ]

  -- Whether the value was new.
  unfoldable pub add_known_identifier :
      String → String → ℕ → AfUeSubscriptionState C → Bool × AfUeSubscriptionState C
  unfolding identifier_type known set_known
  add_known_identifier type value now s =
      let kind = identifier_type type in
      if is_other kind || contains value (known kind s)
      then (false, s)
      else (true, touch now (set_known kind (known kind s ++ value ∷ []) s))

  -- With the last identifier of the key's kind the key is demoted.
  unfoldable pub demote : IdentifierType → AfUeSubscriptionState C → AfUeSubscriptionState C
  unfolding key_type_of known demote_to_composite
  demote kind s =
      if same_type s.ue_key.type (key_type_of kind) && is_nil (known kind s)
      then record s { ue_key = demote_to_composite s.ue_key }
      else s

  -- Whether the value was known.
  unfoldable pub remove_known_identifier :
      String → String → ℕ → AfUeSubscriptionState C → Bool × AfUeSubscriptionState C
  unfolding identifier_type known set_known demote
  remove_known_identifier type value now s =
      let kind = identifier_type type in
      if contains value (known kind s)
      then (
        true,
        touch now (demote kind (set_known kind (erase_first (λ v. v == value) (known kind s)) s)),
      )
      else (false, s)

  abbrev pub same_pdu : String → PduSessionData C → Bool
  same_pdu i p = p.pdu_session_id == i

  -- The first session with the identifier is overwritten; without one the session goes last.
  unfoldable pub upsert : PduSessionData C → List (PduSessionData C) → List (PduSessionData C)
  upsert p [] = p ∷ []
  upsert p (q ∷ l) =
      let rest = upsert p l in if same_pdu p.pdu_session_id q then p ∷ l else q ∷ rest

  abbrev pub add_or_update_pdu_session :
      PduSessionData C → ℕ → AfUeSubscriptionState C → AfUeSubscriptionState C
  add_or_update_pdu_session p now s =
      touch now (record s { pdu_sessions = upsert p s.pdu_sessions })

  unfoldable pub remove_pdu_session :
      String → ℕ → AfUeSubscriptionState C → Bool × AfUeSubscriptionState C
  remove_pdu_session i now s =
      if any (same_pdu i) s.pdu_sessions
      then (true, touch now (record s { pdu_sessions = erase_first (same_pdu i) s.pdu_sessions }))
      else (false, s)
