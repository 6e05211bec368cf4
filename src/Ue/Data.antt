-- ===== src/Ue/Data.antt =====
-- The structs `PduSessionData` and `UeAccessMobilityData` and the members and constructors of the
-- class `AfUeSubscriptionState` of af_core/include/models/ue_state.h. A time point is a number of
-- clock ticks; `now` is the clock's reading in a call.
use phine_af.Prelude.{ℕ, String, Bool, Option, none, some, List, []}
use phine_af.Outcome.{Outcome, returns, throws, undefined}
use phine_af.Ue.Common.{Common}
use phine_af.Ue.Key.{UeKey, supi_based, make_key}

pub data ResolutionState : Type 0 where
  provisional partial resolved : ResolutionState

module _ (C : Common) where
  open C use {
    Dnn, Snssai, DateTime, RouteToLocation, AccessType, RatType, PlmnIdNid, UeLocationInfo,
    PduidInformation, ServiceAreaCoverageInfo,
  }

  pub record PduSessionData : Type 0 where
    pub pdu_session_id : String
    pub dnn : Dnn
    pub snssai : Option Snssai
    pub pdu_session_type : String
    pub status : String
    pub status_timestamp : Option DateTime
    pub ue_ipv4_address : Option String
    pub ue_ipv6_prefixes : List String
    pub ue_ipv6_addresses : List String
    pub ue_mac_address : Option String
    pub ip_address_timestamp : Option DateTime
    pub public_port_number : Option ℕ
    pub dnai : Option String
    pub dnai_timestamp : Option DateTime
    pub n6_traffic_routing_info : List RouteToLocation
    pub n6_traffic_routing_info_timestamp : Option DateTime
    pub active_qod_session_ids : List String

  pub record UeAccessMobilityData : Type 0 where
    pub access_type : Option AccessType
    pub access_types_list : List AccessType
    pub rat_type : Option RatType
    pub rat_types_list : List RatType
    pub serving_plmn : Option PlmnIdNid
    pub current_plmn_timestamp : Option DateTime
    pub roaming_status : Option Bool
    pub roaming_status_timestamp : Option DateTime
    pub connectivity_management_state : Option String
    pub cm_state_timestamp : Option DateTime
    pub registration_management_state : Option String
    pub ue_reachability_status : Option String
    pub reachability_status_timestamp : Option DateTime
    pub sms_support : Option String
    pub sms_support_timestamp : Option DateTime
    pub satellite_backhaul_category : Option String

  pub record AfUeSubscriptionState : Type 0 where
    pub ue_key : UeKey
    pub supi : Option String
    pub gpsi : Option String
    pub resolution_state : ResolutionState
    pub supi_resolved_at : Option ℕ
    pub known_ipv4_addresses : List String
    pub known_ipv6_addresses : List String
    pub known_gpsi_values : List String
    pub known_ipv6_prefixes : List String
    pub known_mac_addresses : List String
    pub location_info : Option UeLocationInfo
    pub location_timestamp : Option ℕ
    pub access_mobility_data : Option UeAccessMobilityData
    pub pdu_sessions : List PduSessionData
    pub ue_policy_data_info : Option String
    pub prose_pduid_information : Option PduidInformation
    pub time_sync_service_available_and_capable : Option Bool
    pub service_area_coverage_allowed : List ServiceAreaCoverageInfo
    pub high_throughput_desired_for_ue_traffic : Option Bool
    pub created_at : ℕ
    pub last_updated : ℕ
    pub last_activity : Option ℕ

-- A default-constructed `PduSessionData`.
abbrev pub default_pdu : {C : Common} → PduSessionData C
default_pdu {C} = record {
  pdu_session_id = "";
  dnn = C.default_dnn;
  snssai = none;
  pdu_session_type = "";
  status = "";
  status_timestamp = none;
  ue_ipv4_address = none;
  ue_ipv6_prefixes = [];
  ue_ipv6_addresses = [];
  ue_mac_address = none;
  ip_address_timestamp = none;
  public_port_number = none;
  dnai = none;
  dnai_timestamp = none;
  n6_traffic_routing_info = [];
  n6_traffic_routing_info_timestamp = none;
  active_qod_session_ids = [];
}

-- `AfUeSubscriptionState(const UeKey&)`.
abbrev pub provisional_state : {C : Common} → UeKey → ℕ → AfUeSubscriptionState C
provisional_state key now = record {
  ue_key = key;
  supi = none;
  gpsi = none;
  resolution_state = provisional;
  supi_resolved_at = none;
  known_ipv4_addresses = [];
  known_ipv6_addresses = [];
  known_gpsi_values = [];
  known_ipv6_prefixes = [];
  known_mac_addresses = [];
  location_info = none;
  location_timestamp = none;
  access_mobility_data = none;
  pdu_sessions = [];
  ue_policy_data_info = none;
  prose_pduid_information = none;
  time_sync_service_available_and_capable = none;
  service_area_coverage_allowed = [];
  high_throughput_desired_for_ue_traffic = none;
  created_at = now;
  last_updated = now;
  last_activity = none;
}

-- `AfUeSubscriptionState(const Supi&)`; the key's constructor may throw.
unfoldable pub resolved_state : {C : Common} → String → ℕ → Outcome (AfUeSubscriptionState C)
resolved_state v now = elim (make_key v supi_based) [
  | returns key ↦ returns (record (provisional_state key now) {
    supi = some v;
    resolution_state = resolved;
    supi_resolved_at = some now;
  })
  | throws e ↦ throws e
  | undefined ↦ undefined
]
