-- ===== src/Qod/Handler.antt =====
-- What af_core/src/qod/qod_handler.cpp takes from the `common` submodule and the libraries, and its
-- validation of requests.
pub mod Parse
pub mod Read
pub mod Show
pub mod Handle
use phine_af.Prelude.{
  ℕ, String, Bool, true, false, not, ◌&&◌, ◌||◌, ◌==◌, Option, none, some, List, [], ◌∷◌, is_some,
  is_empty, ltb, if◌then◌else◌,
}
use phine_af.Regex.{seq, within, char, between, regex_match}
use phine_af.Outcome.{Outcome}
use phine_af.Json.{JsonLib, Message}
use phine_af.Qod.Types.{
  QosStatus, StatusInfo, QodDevice, DeviceIpv4, ApplicationServer, PortRange, PortsSpec,
}
use phine_af.Qod.Notifications.Client.{validate_sink}

pub record QodRequestContext : Type 0 where
  pub api_consumer_id : String
  pub correlation_id : String
  pub is_three_legged : Bool
  pub device_from_token : Option String

pub data CredentialType : Type 0 where
  plain access_token refresh_token other : CredentialType

pub record SinkCredential : Type 0 where
  pub credential_type : CredentialType
  pub access_token_text : Option String
  pub access_token_expires_utc : Option ℕ
  pub access_token_type : String
  pub identifier : String
  pub secret : String
  pub refresh_token_text : String
  pub refresh_token_endpoint : String

-- The helpers of the submodule, which may throw, the texts that it gives to codes, statuses and details, and the
-- conversions of the libraries.
pub record HandlerLib (J : JsonLib) : Type 0 where
  pub extract_context : Message → Outcome QodRequestContext
  pub extract_path_param : Message → String → Outcome String
  pub create_error_response : ℕ → String → String → String → Outcome Message
  pub create_success_response : J.Json → ℕ → String → Outcome Message
  pub invalid_argument : String
  pub out_of_range : String
  pub not_found : String
  pub missing_identifier : String
  pub unnecessary_identifier : String
  pub invalid_sink : String
  pub is_server_empty : ApplicationServer → Bool
  pub status_text : QosStatus → String
  pub info_text : StatusInfo → String
  pub default_credential : SinkCredential
  -- `is_null`, `get<Port>`, `std::get_time` with `mktime`, and `strftime`.
  pub is_null : J.Json → Bool
  pub as_port : J.Json → Outcome ℕ
  pub time_of : String → ℕ
  pub iso_time : ℕ → String

-- `^\+[1-9][0-9]{4,14}$`.
unfoldable pub is_phone_number : String → Bool
unfolding regex_match
is_phone_number s =
    regex_match s (seq (char b'+') (seq (within b'1' b'9') (between 4 14 (within b'0' b'9'))))

abbrev check_ipv4 : DeviceIpv4 → Option String
check_ipv4 a =
    if is_empty a.public_address
    then some "Public IPv4 address is required when using IPv4 identification"
    else if not (is_some a.private_address) && not (is_some a.public_port)
    then some "Either private address or public port must be provided with public IPv4 address"
    else none

-- The first of two errors.
abbrev pub or_else : Option String → Option String → Option String
or_else none e = e
or_else (some x) e = some x

abbrev pub check_phone : Option String → Option String
check_phone none = none
check_phone (some s) =
    if is_phone_number s
    then none
    else some "Invalid phone number format - must be E.164 format with + prefix"

abbrev pub check_address : Option DeviceIpv4 → Option String
check_address none = none
check_address (some a) = check_ipv4 a

abbrev has_identifier : QodDevice → Bool
has_identifier d =
    is_some d.phone_number
    || (is_some d.ipv4_address || (is_some d.ipv6_address || is_some d.network_access_identifier))

abbrev pub check_identifier : QodDevice → Option String
check_identifier d =
    if has_identifier d then none else some "At least one device identifier must be provided"

unfoldable pub check_device : QodDevice → Option String
unfolding is_phone_number
check_device d =
    or_else (check_phone d.phone_number)
      (or_else (check_address d.ipv4_address) (check_identifier d))

unfoldable pub validate_device : Bool → Option QodDevice → Option String
unfolding check_device
validate_device true (some d) = some "Device must not be provided with 3-legged authentication"
validate_device true none = none
validate_device false none = some "Device is required for 2-legged authentication"
validate_device false (some d) = check_device d

unfoldable pub check_ranges : List PortRange → Option String
check_ranges [] = none
check_ranges (r ∷ l) =
    let rest = check_ranges l in
    if ltb r.to r.from
    then some "Invalid port range - 'from' must be less than or equal to 'to'"
    else if ltb 65535 r.from || ltb 65535 r.to
    then some "Port numbers must be between 0 and 65535"
    else rest

unfoldable pub check_ports : List ℕ → Option String
check_ports [] = none
check_ports (p ∷ l) =
    let rest = check_ports l in
    if ltb 65535 p then some "Port numbers must be between 0 and 65535" else rest

unfoldable pub validate_ports : Option PortsSpec → Option String
unfolding check_ranges check_ports
validate_ports none = none
validate_ports (some s) = or_else (check_ranges s.ranges) (check_ports s.ports)

abbrev is_access_token : CredentialType → Bool
is_access_token access_token = true
is_access_token _ = false

abbrev no_text : Option String → Bool
no_text none = true
no_text (some s) = is_empty s

unfoldable pub check_credential : SinkCredential → ℕ → Option String
check_credential c now =
    if not (is_access_token c.credential_type)
    then some "Only ACCESSTOKEN credential type is supported"
    else if no_text c.access_token_text
    then some "Access token is required for ACCESSTOKEN credential type"
    else elim c.access_token_expires_utc [
      | none ↦ some "Access token expiry time is required"
      | some t ↦
          if not (c.access_token_type == "bearer")
          then some "Access token type must be 'bearer'"
          else if ltb t now
          then some "Access token has already expired"
          else none
    ]

-- The expression of the sink is that of the notification manager.
unfoldable pub check_sink : String → Option SinkCredential → ℕ → Option String
unfolding check_credential validate_sink
check_sink s none now = if validate_sink s then none else some "Sink must be a valid HTTPS URL"
check_sink s (some c) now =
    if validate_sink s then check_credential c now else some "Sink must be a valid HTTPS URL"
