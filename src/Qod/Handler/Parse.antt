-- ===== src/Qod/Handler/Parse.antt =====
-- The parsing of devices, ports and credentials in af_core/src/qod/qod_handler.cpp.
use phine_af.Prelude.{ℕ, String, ◌==◌, Option, none, some, List, [], ◌∷◌, if◌then◌else◌}
use phine_af.Outcome.{Outcome, returns, throws, undefined, and_use}
use phine_af.Json.{JsonLib, JsonReader, JsonItems}
use phine_af.Qod.Types.{QodDevice, DeviceIpv4, ApplicationServer, PortRange, PortsSpec}
use phine_af.Qod.Handler.{HandlerLib, SinkCredential, plain, access_token, refresh_token}

module _ (J : JsonLib) (R : JsonReader J) (I : JsonItems J) (L : HandlerLib J) where
  open J use {Json, field, text_or}
  open R use {contains, elements, as_text, as_integer}

  -- `json[k]` of a constant value: a key that an object does not have is undefined.
  unfoldable pub const_field : String → Json → Outcome Json
  const_field k j =
      if contains k j
      then returns (field k j)
      else elim (I.items j) [ none ↦ throws "type_error" | some l ↦ undefined ]

  unfoldable pub optional_text : String → Json → Outcome (Option String)
  optional_text k j =
      if contains k j then and_use (as_text (field k j)) (λ s. returns (some s)) else returns none

  unfoldable pub optional_port : String → Json → Outcome (Option ℕ)
  optional_port k j =
      if contains k j then and_use (L.as_port (field k j)) (λ n. returns (some n)) else returns none

  abbrev or_none_text : Option String → String
  or_none_text none = ""
  or_none_text (some s) = s

  unfoldable pub parse_ipv4 : Json → Outcome (Option DeviceIpv4)
  unfolding optional_text optional_port
  parse_ipv4 j = and_use (optional_text "publicAddress" j) (λ a.
      and_use (optional_text "privateAddress" j) (λ b. and_use (optional_port "publicPort" j) (λ p.
        returns (
          some
            (record { public_address = or_none_text a; private_address = b; public_port = p })))))

  unfoldable pub parse_device : Json → Outcome (Option QodDevice)
  unfolding optional_text parse_ipv4
  parse_device j =
      if L.is_null j
      then returns none
      else and_use (optional_text "phoneNumber" j) (λ phone.
        and_use (optional_text "networkAccessIdentifier" j) (λ identifier.
          and_use
            (if contains "ipv4Address" j then parse_ipv4 (field "ipv4Address" j) else returns none)
            (λ ipv4. and_use (optional_text "ipv6Address" j) (λ ipv6. returns (
              some (record {
                phone_number = phone;
                network_access_identifier = identifier;
                ipv4_address = ipv4;
                ipv6_address = ipv6;
              }))))))

  unfoldable pub parse_application_server : Json → Outcome ApplicationServer
  unfolding optional_text
  parse_application_server j = and_use (optional_text "ipv4Address" j) (λ a.
      and_use (optional_text "ipv6Address" j)
        (λ b. returns (record { ipv4_address = a; ipv6_address = b })))

  unfoldable pub parse_ranges : List Json → Outcome (List PortRange)
  unfolding const_field
  parse_ranges [] = returns []
  parse_ranges (j ∷ l) =
      let rest = parse_ranges l in
      and_use (and_use (const_field "from" j) L.as_port) (λ a.
        and_use (and_use (const_field "to" j) L.as_port)
          (λ b. and_use rest (λ rs. returns (record { from = a; to = b } ∷ rs))))

  unfoldable pub parse_port_list : List Json → Outcome (List ℕ)
  parse_port_list [] = returns []
  parse_port_list (j ∷ l) =
      let rest = parse_port_list l in
      and_use (L.as_port j) (λ n. and_use rest (λ ns. returns (n ∷ ns)))

  -- The elements of an array under the key; none for a value that is no array.
  abbrev items_under : String → Json → List Json
  items_under k j =
      if contains k j then elim (elements (field k j)) [ none ↦ [] | some l ↦ l ] else []

  unfoldable pub parse_ports : Json → Outcome (Option PortsSpec)
  unfolding parse_ranges parse_port_list
  parse_ports j =
      if L.is_null j
      then returns none
      else and_use (parse_ranges (items_under "ranges" j)) (λ rs.
        and_use (parse_port_list (items_under "ports" j))
          (λ ns. returns (some (record { ports = ns; ranges = rs }))))

  -- A member keeps its default when there is no value.
  abbrev text_or_default : Option String → Option String
  text_or_default none = L.default_credential.access_token_text
  text_or_default (some s) = some s

  abbrev time_or_default : Option String → Option ℕ
  time_or_default none = L.default_credential.access_token_expires_utc
  time_or_default (some s) = some (L.time_of s)

  abbrev type_or_default : Option String → String
  type_or_default none = L.default_credential.access_token_type
  type_or_default (some s) = s

  unfoldable pub parse_access_token : Json → Outcome SinkCredential
  unfolding optional_text
  parse_access_token j = and_use (optional_text "accessToken" j) (λ t.
      and_use (optional_text "accessTokenExpiresUtc" j) (λ e.
        and_use (optional_text "accessTokenType" j) (λ y. returns (record L.default_credential {
          credential_type = access_token;
          access_token_text = text_or_default t;
          access_token_expires_utc = time_or_default e;
          access_token_type = type_or_default y;
        }))))

  unfoldable pub parse_plain : Json → Outcome SinkCredential
  parse_plain j = and_use (text_or "identifier" "" j) (λ i. and_use (text_or "secret" "" j) (λ s.
      returns
        (record L.default_credential { credential_type = plain; identifier = i; secret = s })))

  unfoldable pub parse_refresh_token : Json → Outcome SinkCredential
  parse_refresh_token j = and_use (text_or "accessToken" "" j) (λ t.
      and_use (text_or "refreshToken" "" j) (λ r.
        and_use (text_or "refreshTokenEndpoint" "" j) (λ e. returns (record L.default_credential {
          credential_type = refresh_token;
          access_token_text = some t;
          refresh_token_text = r;
          refresh_token_endpoint = e;
        }))))

  unfoldable pub parse_typed : Json → String → Outcome SinkCredential
  unfolding parse_access_token parse_plain parse_refresh_token
  parse_typed j type =
      if type == "ACCESSTOKEN"
      then parse_access_token j
      else if type == "PLAIN"
      then parse_plain j
      else if type == "REFRESHTOKEN"
      then parse_refresh_token j
      else returns L.default_credential

  unfoldable pub parse_sink_credential : Json → Outcome (Option SinkCredential)
  unfolding const_field parse_typed
  parse_sink_credential j =
      if L.is_null j
      then returns none
      else and_use (and_use (const_field "credentialType" j) as_text)
          (λ type. and_use (parse_typed j type) (λ c. returns (some c)))
