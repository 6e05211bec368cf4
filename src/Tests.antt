-- ===== src/Tests.antt =====
-- Runs of the model at concrete inputs.
pub mod Ues
pub mod Qods
pub mod Lifecycles
pub mod Notifications
pub mod Trees
pub mod Rules
pub mod Policies
pub mod Subscriptions
pub mod Handlers
use phine_af.Prelude.{false, none, some, ◌∷◌, []}
use phine_af.Ue.Common.{Common}
use phine_af.Ue.Key.{UeKey, gpsi_based, supi_based, single}
use phine_af.Ue.Data.{
  PduSessionData, AfUeSubscriptionState, provisional_state, default_pdu, resolved,
}

-- Every opaque type has one value.
abbrev pub plain : Common
plain = record {
  Dnn = Unit;
  Snssai = Unit;
  DateTime = Unit;
  RouteToLocation = Unit;
  AccessType = Unit;
  RatType = Unit;
  PlmnIdNid = Unit;
  UeLocationInfo = Unit;
  PduidInformation = Unit;
  ServiceAreaCoverageInfo = Unit;
  default_dnn = tt;
}

abbrev pub gpsi_key : UeKey
gpsi_key = single gpsi_based "+4912345678"

abbrev pub supi_key : UeKey
supi_key = single supi_based "imsi-001010000000001"

abbrev pub pdu : PduSessionData plain
pdu = record default_pdu {
  pdu_session_id = "pdu-1";
  ue_ipv4_address = some "10.0.0.1";
  active_qod_session_ids = "qod-1" ∷ [];
}

-- A state that only a GPSI identifies, created at time 5, with a PDU session.
abbrev pub by_gpsi : AfUeSubscriptionState plain
by_gpsi = record (provisional_state gpsi_key 5) { pdu_sessions = pdu ∷ [] }

-- A state with a SUPI.
abbrev pub by_supi : AfUeSubscriptionState plain
by_supi = record (provisional_state supi_key 7) {
  supi = some "imsi-001010000000001";
  resolution_state = resolved;
  pdu_sessions = pdu ∷ [];
}
