-- ===== src/Qod/Handler/Show.antt =====
-- The JSON of sessions and devices in the responses of af_core/src/qod/qod_handler.cpp.
use phine_af.Prelude.{ℕ, String, Bool, Option, none, some, [], ◌∷◌, map, if◌then◌else◌}
use phine_af.Ue.State.{is_nil}
use phine_af.Json.{JsonLib, object}
use phine_af.Qod.Types.{
  QodDevice, DeviceIpv4, ApplicationServer, PortRange, PortsSpec, QodSession, requested,
  unavailable,
}
use phine_af.Qod.Store.{same_status}
use phine_af.Qod.Handler.{HandlerLib}

module _ (J : JsonLib) where
  open J use {Json, null, text, number, array, set}

  abbrev set_text : String → Option String → Json → Json
  set_text k none j = j
  set_text k (some s) j = set k (text s) j

  abbrev set_port : Option ℕ → Json → Json
  set_port none j = j
  set_port (some p) j = set "publicPort" (number p) j

  abbrev set_ipv4 : Option DeviceIpv4 → Json → Json
  set_ipv4 none j = j
  set_ipv4 (some a) j =
      set "ipv4Address"
        (set_port a.public_port (
          set_text "privateAddress" a.private_address
            (set "publicAddress" (text a.public_address) null)))
        j

  unfoldable pub device_to_json : QodDevice → Json
  device_to_json d = set_text "ipv6Address" d.ipv6_address (
      set_ipv4 d.ipv4_address (
        set_text "networkAccessIdentifier" d.network_access_identifier
          (set_text "phoneNumber" d.phone_number null)))

  abbrev range_to_json : PortRange → Json
  range_to_json r = object J (("to", number r.to) ∷ ("from", number r.from) ∷ [])

  unfoldable pub ports_to_json : PortsSpec → Json
  ports_to_json p =
      let ranged =
        if is_nil p.ranges then null else set "ranges" (array (map range_to_json p.ranges)) null in
      if is_nil p.ports then ranged else set "ports" (array (map number p.ports)) ranged

  abbrev set_ports : String → Option PortsSpec → Json → Json
  set_ports k none j = j
  set_ports k (some p) j = set k (ports_to_json p) j

  abbrev server_to_json : ApplicationServer → Json
  server_to_json s =
      set_text "ipv6Address" s.ipv6_address (set_text "ipv4Address" s.ipv4_address null)

  abbrev set_device : Option QodDevice → Json → Json
  set_device none j = j
  set_device (some d) j = set "device" (device_to_json d) j

module _ (J : JsonLib) (L : HandlerLib J) where
  open J use {Json, null, text, number, set}

  abbrev set_time : String → Option ℕ → Json → Json
  set_time k none j = j
  set_time k (some t) j = set k (text (L.iso_time t)) j

  -- The times of a session that is no longer requested.
  unfoldable pub set_times : {Credential : Type 0} → QodSession Credential → Json → Json
  set_times s j =
      if same_status s.qos_status requested
      then j
      else set_time "expiresAt" s.expires_at (set_time "startedAt" s.started_at j)

  unfoldable pub set_info : {Credential : Type 0} → QodSession Credential → Json → Json
  set_info s j =
      if same_status s.qos_status unavailable
      then elim s.status_info [ none ↦ j | some i ↦ set "statusInfo" (text (L.info_text i)) j ]
      else j

  unfoldable pub session_to_json : {Credential : Type 0} → QodSession Credential → Bool → Json
  unfolding device_to_json ports_to_json set_times set_info
  session_to_json s include_device =
      let basic = set "duration" (number s.duration) (
        set "qosProfile" (text s.qos_profile) (
          set "qosStatus" (text (L.status_text s.qos_status))
            (set "sessionId" (text s.session_id) null))) in
      let served = set "applicationServer" (server_to_json J s.application_server) basic in
      let placed = if include_device then set_device J s.device_response served else served in
      let ported =
        set_ports J "applicationServerPorts" s.application_server_ports
          (set_ports J "devicePorts" s.device_ports placed) in
      set_info s (set_times s (set_text J "sink" s.sink ported))
