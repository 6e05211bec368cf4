-- ===== src/Qod/Handler/Read.antt =====
-- The reading and the validation of requests in af_core/src/qod/qod_handler.cpp.
pub mod Valid
use phine_af.Prelude.{
  ℕ, zero, suc, String, Bool, true, false, ◌==◌, Option, none, some, List, [], ◌∷◌, if◌then◌else◌,
}
use phine_af.Int.{ℤ, pos, negsuc}
use phine_af.Outcome.{Outcome, returns, throws, undefined, and_use}
use phine_af.Json.{JsonLib, JsonReader, JsonItems}
use phine_af.Qod.Types.{QodDevice, DeviceIpv4, ApplicationServer, PortRange, PortsSpec}
use phine_af.Qod.Lifecycle.{CreateSessionRequest}
use phine_af.Qod.Handler.Parse.{
  parse_device, parse_application_server, parse_ports, parse_sink_credential,
}
use phine_af.Qod.Handler.{
  HandlerLib, QodRequestContext, SinkCredential, plain, access_token, refresh_token,
  validate_device, validate_ports, check_sink,
}

-- A part of a handler: it goes on with a value, returns an error response, throws, or is undefined.
pub data Checked (A : Type 0) : Type 0 where
  done : A → Checked A
  refused : ℕ → String → String → Checked A
  failed : String → Checked A
  faulty : Checked A

module _ {A B : Type 0} where
  infixl 5 ◌>>=◌
  abbrev pub ◌>>=◌ : Checked A → (A → Checked B) → Checked B
  done a >>= f = f a
  refused status code text >>= f = refused status code text
  failed e >>= f = failed e
  faulty >>= f = faulty

abbrev pub attempt : {A : Type 0} → Outcome A → Checked A
attempt (returns a) = done a
attempt (throws e) = failed e
attempt undefined = faulty

-- A value that a validation without an error lets through.
abbrev pub unless : {A : Type 0} → Option String → ℕ → String → A → Checked A
unless none status code a = done a
unless (some text) status code a = refused status code text

module _ (J : JsonLib) (R : JsonReader J) (I : JsonItems J) (L : HandlerLib J) where
  open J use {Json, field, text_or}
  open R use {contains, elements, as_text, as_integer}

  -- The code of an error of the device.
  abbrev pub device_code : Bool → String
  device_code true = L.unnecessary_identifier
  device_code false = L.missing_identifier

  abbrev pub no_device : Checked (Option QodDevice)
  no_device =
      refused 422 L.missing_identifier "Device identifier is required for 2-legged authentication"

  abbrev pub valid_device : Bool → Option QodDevice → Checked (Option QodDevice)
  valid_device three_legged d =
      unless (validate_device three_legged d) 422 (device_code three_legged) d

  unfoldable pub read_device : Bool → Json → Checked (Option QodDevice)
  unfolding parse_device validate_device
  read_device three_legged j =
      if contains "device" j
      then (attempt (parse_device J R I L (field "device" j)) >>= valid_device three_legged)
      else if three_legged
      then done none
      else no_device

  abbrev pub valid_server : ApplicationServer → Checked ApplicationServer
  valid_server s =
      if L.is_server_empty s
      then refused 400 L.invalid_argument "Application server must have at least one IP address"
      else done s

  unfoldable pub read_server : Json → Checked ApplicationServer
  unfolding parse_application_server
  read_server j =
      if contains "applicationServer" j
      then (attempt (parse_application_server J R I L (field "applicationServer" j))
          >>= valid_server)
      else refused 400 L.invalid_argument "applicationServer is required"

  abbrev pub valid_ports : Option PortsSpec → Checked (Option PortsSpec)
  valid_ports p = unless (validate_ports p) 400 L.out_of_range p

  unfoldable pub read_ports : String → Json → Checked (Option PortsSpec)
  unfolding parse_ports validate_ports
  read_ports k j =
      if contains k j
      then (attempt (parse_ports J R I L (field k j)) >>= valid_ports)
      else done none

  unfoldable pub read_profile : Json → Checked String
  read_profile j =
      if contains "qosProfile" j
      then attempt (as_text (field "qosProfile" j))
      else refused 400 L.invalid_argument "qosProfile is required"

  -- A duration of at least one second, as a number of seconds.
  unfoldable pub positive : String → String → ℤ → Checked ℕ
  positive code text (pos zero) = refused 400 code text
  positive code text (pos (suc n)) = done (suc n)
  positive code text (negsuc n) = refused 400 code text

  unfoldable pub read_duration : Json → Checked ℕ
  unfolding positive
  read_duration j =
      if contains "duration" j
      then (attempt (as_integer (field "duration" j))
          >>= positive "QUALITY_ON_DEMAND.DURATION_OUT_OF_RANGE"
              "Duration must be at least 1 second")
      else refused 400 L.invalid_argument "duration is required"

  unfoldable pub read_credential : Json → Checked (Option SinkCredential)
  unfolding parse_sink_credential
  read_credential j =
      if contains "sinkCredential" j
      then attempt (parse_sink_credential J R I L (field "sinkCredential" j))
      else done none

  abbrev pub valid_sink :
      ℕ → String → Option SinkCredential → Checked (Option String × Option SinkCredential)
  valid_sink now s c = unless (check_sink s c now) 400 L.invalid_sink (some s, c)

  unfoldable pub read_sink : ℕ → Json → Checked (Option String × Option SinkCredential)
  unfolding read_credential check_sink
  read_sink now j =
      if contains "sink" j
      then (attempt (as_text (field "sink" j)) >>= λ s. read_credential j >>= valid_sink now s)
      else done (none, none)

  unfoldable pub read_create_request :
      QodRequestContext → ℕ → Json → Checked (CreateSessionRequest SinkCredential)
  unfolding read_device read_server read_ports read_profile read_duration read_sink
  read_create_request context now j = do
    device ← read_device context.is_three_legged j
    server ← read_server j
    ports ← read_ports "devicePorts" j
    server_ports ← read_ports "applicationServerPorts" j
    profile ← read_profile j
    duration ← read_duration j
    sink ← read_sink now j
    done (record {
      api_consumer_id = context.api_consumer_id;
      device = device;
      application_server = server;
      device_ports = ports;
      application_server_ports = server_ports;
      qos_profile = profile;
      duration = duration;
      sink = sink.0;
      sink_credential = sink.1;
    })

  unfoldable pub read_extension : Json → Checked ℕ
  unfolding positive
  read_extension j =
      if contains "requestedAdditionalDuration" j
      then (attempt (as_integer (field "requestedAdditionalDuration" j))
          >>= positive L.out_of_range "requestedAdditionalDuration must be at least 1 second")
      else refused 400 L.invalid_argument "requestedAdditionalDuration is required"
