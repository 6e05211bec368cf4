-- ===== src/Qod/Requests.antt =====
-- The configuration of the class `QodSessionManager`, its limits, and which sessions a request
-- selects: af_core/include/qod/qod_session_manager.h and af_core/src/qod/qod_session_manager.cpp.
use phine_af.Prelude.{
  ℕ, String, Bool, true, false, not, ◌&&◌, ◌||◌, Option, none, some, ◌==◌, contains, if◌then◌else◌,
}
use phine_af.Map.{Map, find}
use phine_af.Ue.State.{is_nil}
use phine_af.Qod.Types.{QodDevice, DeviceIpv4, ApplicationServer, QodSession, unavailable}
use phine_af.Qod.Profiles.{default_max_durations, supported_profiles}
use phine_af.Qod.Store.{same_status}

pub record QodSessionConfig : Type 0 where
  pub max_session_duration : ℕ
  pub min_session_duration : ℕ
  pub session_cleanup_interval : ℕ
  pub unavailable_session_ttl : ℕ
  pub enable_notifications : Bool
  pub api_base_url : String
  pub qos_profile_max_durations : Map ℕ

-- The constructor fills in the maximal durations if the configuration has none.
unfoldable pub with_max_durations : QodSessionConfig → QodSessionConfig
with_max_durations c =
    if is_nil c.qos_profile_max_durations.entries
    then record c { qos_profile_max_durations = default_max_durations }
    else c

pub record ExtendSessionDurationRequest : Type 0 where
  pub session_id : String
  pub requested_additional_duration : ℕ

-- A request for a session by its identifier.
abbrev pub extend_by : String → ℕ → ExtendSessionDurationRequest
extend_by i extra = record { session_id = i; requested_additional_duration = extra }

pub record RetrieveSessionsRequest : Type 0 where
  pub device : Option QodDevice
  pub api_consumer_id : String

unfoldable pub get_max_duration_for_profile : String → QodSessionConfig → ℕ
get_max_duration_for_profile p c = elim (find p c.qos_profile_max_durations) [
  | some d ↦ d
  | none ↦ c.max_session_duration
]

unfoldable pub validate_qos_profile : String → Bool
validate_qos_profile p = contains p supported_profiles

-- Two optional texts that are both there and equal.
abbrev pub both_equal : Option String → Option String → Bool
both_equal none o = false
both_equal (some s) none = false
both_equal (some s) (some t) = s == t

unfoldable pub same_ipv4 : Option DeviceIpv4 → Option DeviceIpv4 → Bool
same_ipv4 none o = false
same_ipv4 (some a) none = false
same_ipv4 (some a) (some b) =
    (a.public_address == b.public_address) || both_equal a.private_address b.private_address

unfoldable pub device_matches : QodDevice → QodDevice → Bool
unfolding same_ipv4
device_matches d e =
    both_equal d.phone_number e.phone_number
    || same_ipv4 d.ipv4_address e.ipv4_address
    || both_equal d.ipv6_address e.ipv6_address

-- The second test is not made when both IPv4 addresses are there.
unfoldable pub same_server : ApplicationServer → ApplicationServer → Bool
same_server a b = elim a.ipv4_address [
  | none ↦ both_equal a.ipv6_address b.ipv6_address
  | some x ↦ elim b.ipv4_address [
    | none ↦ both_equal a.ipv6_address b.ipv6_address
    | some y ↦ x == y
  ]
]

module _ {Credential : Type 0} where
  abbrev pub is_unavailable : QodSession Credential → Bool
  is_unavailable s = same_status s.qos_status unavailable

  abbrev pub on_device : Option QodDevice → QodSession Credential → Bool
  on_device none s = true
  on_device (some d) s = elim s.device [ none ↦ false | some e ↦ device_matches d e ]

  unfoldable pub is_retrieved : RetrieveSessionsRequest → QodSession Credential → Bool
  unfolding device_matches
  is_retrieved r s =
      (s.api_consumer_id == r.api_consumer_id) && not (is_unavailable s) && on_device r.device s
