-- ===== src/Qod/Types.antt =====
-- The types of the `common` submodule (common/models/qod) that the session manager and the session
-- store work on, with the members that those files read or write. Texts that are wrapped in a
-- struct (`Supi`, `Ipv4Addr`, `Ipv6Addr`) stand for themselves, durations are seconds and time
-- points are seconds since the epoch. The sink's credential is handed on and never looked into.
use phine_af.Prelude.{ℕ, String, Bool, Option, List}

-- The statuses and the status details that the sources name.
pub data QosStatus : Type 0 where
  requested available unavailable : QosStatus

pub data StatusInfo : Type 0 where
  network_terminated delete_requested duration_expired : StatusInfo

pub record DeviceIpv4 : Type 0 where
  pub public_address : String
  pub private_address : Option String
  pub public_port : Option ℕ

pub record QodDevice : Type 0 where
  pub phone_number : Option String
  pub network_access_identifier : Option String
  pub ipv4_address : Option DeviceIpv4
  pub ipv6_address : Option String

pub record ApplicationServer : Type 0 where
  pub ipv4_address : Option String
  pub ipv6_address : Option String

pub record PortRange : Type 0 where
  pub from : ℕ
  pub to : ℕ

pub record PortsSpec : Type 0 where
  pub ports : List ℕ
  pub ranges : List PortRange

-- The packet error rate is a count of millionths.
pub record QosProfileMapping : Type 0 where
  pub fiveqi : ℕ
  pub priority : ℕ
  pub packet_delay_budget : ℕ
  pub packet_error_rate : ℕ
  pub max_data_burst : Option ℕ
  pub is_gbr : Bool
  pub guaranteed_uplink_rate : Option String
  pub guaranteed_downlink_rate : Option String
  pub max_uplink_rate : Option String
  pub max_downlink_rate : Option String

pub record QodSession (Credential : Type 0) : Type 0 where
  pub session_id : String
  pub api_consumer_id : String
  pub device : Option QodDevice
  pub application_server : ApplicationServer
  pub device_ports : Option PortsSpec
  pub application_server_ports : Option PortsSpec
  pub qos_profile : String
  pub qos_profile_mapping : Option QosProfileMapping
  pub duration : ℕ
  pub sink : Option String
  pub sink_credential : Option Credential
  pub created_at : ℕ
  pub started_at : Option ℕ
  pub expires_at : Option ℕ
  pub qos_status : QosStatus
  pub status_info : Option StatusInfo
  pub ue_supi : Option String
  pub pdu_session_id : Option String
  pub device_response : Option QodDevice
  pub pcf_session_id : Option String
  pub pcf_transaction_id : Option String
  pub error_message : Option String
