-- ===== src/Qod/Pcf/Request.antt =====
-- The request that asks the PCF for a session, in af_core/src/qod/qod_session_manager.cpp.
use phine_af.Prelude.{ℕ, String, ◌||◌, Option, none, some, ◌==◌, map, if◌then◌else◌}
use phine_af.Ue.State.{is_nil}
use phine_af.Json.{JsonLib}
use phine_af.Qod.Types.{QodDevice, DeviceIpv4, PortsSpec, PortRange, QosProfileMapping, QodSession}

module _ (J : JsonLib) where
  open J use {Json, null, text, number, array, field, set}

  -- `j[a][b] = value`.
  abbrev set_in : String → String → Json → Json → Json
  set_in a b value j = set a (set b value (field a j)) j

  abbrev set_if {ℓ} : {A : Type ℓ} → Option A → (A → Json → Json) → Json → Json
  set_if none f j = j
  set_if (some a) f j = f a j

  unfoldable pub convert_ipv4 : DeviceIpv4 → Json → Json
  convert_ipv4 a j =
      set_if a.public_port (λ p. set_in "ipv4Address" "publicPort" (number p))
        (set_if a.private_address (λ v. set_in "ipv4Address" "privateAddress" (text v))
          (set_in "ipv4Address" "publicAddress" (text a.public_address) (set "ipv4Address" null j)))

  unfoldable pub convert_device_to_pcf : QodDevice → Option String → Json
  unfolding convert_ipv4
  convert_device_to_pcf d supi =
      set_if d.ipv6_address (λ v. set "ipv6Address" (text v))
        (set_if d.ipv4_address convert_ipv4 (
          set_if d.phone_number (λ v. set "gpsi" (text v))
            (set_if supi (λ v. set "supi" (text v)) null)))

  unfoldable pub convert_range : PortRange → Json
  convert_range r = set "to" (number r.to) (set "from" (number r.from) null)

  unfoldable pub set_ports : PortsSpec → Json → Json
  unfolding convert_range
  set_ports p j =
      let ranged =
        if is_nil p.ranges
        then j
        else set_in "device_ports" "port_ranges" (array (map convert_range p.ranges)) j in
      if is_nil p.ports
      then ranged
      else set_in "device_ports" "ports" (array (map number p.ports)) ranged

  -- The 5QI of a session without a mapping.
  unfoldable pub fallback_fiveqi : String → ℕ
  fallback_fiveqi p =
      if (p == "QOS_E") || (p == "voice")
      then 1
      else if (p == "QOS_S") || (p == "video")
      then 2
      else if (p == "QOS_M") || (p == "game")
      then 3
      else if p == "QOS_L"
      then 4
      else 9

  unfoldable pub set_device : Option QodDevice → Option String → Json → Json
  unfolding convert_device_to_pcf
  set_device (some d) supi j = set "device" (convert_device_to_pcf d supi) j
  set_device none (some v) j = set "ue_supi" (text v) j
  set_device none none j = j

  -- `serialize` stands for `QosProfileMapper::serialize_qos_mapping` of the submodule.
  unfoldable pub build_pcf_request :
      {Credential : Type 0} → (QosProfileMapping → Json) → QodSession Credential → Json
  unfolding set_device set_ports fallback_fiveqi
  build_pcf_request serialize s =
      let basic =
        set "duration" (number s.duration)
          (set "qos_profile" (text s.qos_profile) (set "session_id" (text s.session_id) null)) in
      let addressed =
        set_if s.application_server.ipv6_address
          (λ v. set_in "application_server" "ipv6Address" (text v))
          (set_if s.application_server.ipv4_address
            (λ v. set_in "application_server" "ipv4Address" (text v))
            (set_device s.device s.ue_supi basic)) in
      let ported = set_if s.device_ports set_ports addressed in
      elim s.qos_profile_mapping [
        | some x ↦ set "qos_profile_mapping" (serialize x) ported
        | none ↦ set "5qi" (number (fallback_fiveqi s.qos_profile)) ported
      ]
