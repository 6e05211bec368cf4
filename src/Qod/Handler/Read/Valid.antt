-- ===== src/Qod/Handler/Read/Valid.antt =====
-- What a request satisfies that af_core/src/qod/qod_handler.cpp hands to the session manager.
use phine_af.Prelude.{
  ℕ, zero, suc, ◌≤◌, String, ◌≡◌, refl, ◌⊎◌, inl, inr, Bool, true, false, Option, none, some, List,
  [], ◌∷◌, All, arith, is_empty, is_some, Bool-cases,
}
use phine_af.Int.{ℤ, pos, negsuc}
use phine_af.Outcome.{Outcome, returns, throws, undefined}
use phine_af.Json.{JsonLib, JsonReader, JsonItems}
use phine_af.Qod.Types.{QodDevice, DeviceIpv4, PortRange, PortsSpec}
use phine_af.Qod.Lifecycle.{CreateSessionRequest}
use phine_af.Qod.Notifications.Client.{validate_sink}
use phine_af.Qod.Handler.{
  HandlerLib, QodRequestContext, SinkCredential, check_device, check_phone, check_address,
  check_identifier, is_phone_number, validate_device, check_ranges, check_ports, validate_ports,
  check_sink, or_else,
}
use phine_af.Qod.Handler.Read.{
  Checked, done, refused, failed, faulty, ◌>>=◌, attempt, unless, valid_device, valid_server,
  valid_ports, valid_sink, read_device, read_server, read_ports, read_profile, positive,
  read_duration, read_credential, read_sink, read_create_request,
}
use phine_af.Qod.Handler.Parse.{parse_device, parse_application_server, parse_ports}

unfoldable pub IsPhone : Option String → Type 0
IsPhone none = Unit
IsPhone (some s) = is_phone_number s ≡ true

-- A public address, with a private one or a port.
unfoldable pub IsAddress : Option DeviceIpv4 → Type 0
IsAddress none = Unit
IsAddress (some a) =
    (is_empty a.public_address ≡ false)
    × ((is_some a.private_address ≡ true) ⊎ (is_some a.public_port ≡ true))

unfoldable pub IsWellFormed : QodDevice → Type 0
unfolding IsPhone IsAddress
IsWellFormed d =
    IsPhone d.phone_number
    × IsAddress d.ipv4_address
    × ((is_some d.phone_number ≡ true)
        ⊎ (is_some d.ipv4_address ≡ true)
        ⊎ (is_some d.ipv6_address ≡ true)
        ⊎ (is_some d.network_access_identifier ≡ true))

-- A device that the kind of authentication allows: none, or one that is well-formed.
unfoldable pub IsDevice : Bool → Option QodDevice → Type 0
unfolding IsWellFormed
IsDevice three_legged d =
    ((three_legged ≡ true) × (d ≡ none))
    ⊎ ((three_legged ≡ false) × ((x : QodDevice) × (d ≡ some x) × IsWellFormed x))

-- The ranges are in order, and no port is above 65535.
unfoldable pub ArePorts : Option PortsSpec → Type 0
ArePorts none = Unit
ArePorts (some s) =
    All (λ r. (r.from ≤ r.to) × (r.to ≤ 65535)) s.ranges × All (λ p. p ≤ 65535) s.ports

-- A sink is an HTTPS URL.
unfoldable pub IsSink : Option String → Type 0
IsSink none = Unit
IsSink (some s) = validate_sink s ≡ true

-- Whatever goes on has the property.
unfoldable pub Grants : {A : Type 0} → (A → Type 0) → Checked A → Type 0
Grants P (done a) = P a
Grants P _ = Unit

bind-Grants :
    {A B : Type 0} (Q : A → Type 0) (P : B → Type 0) (c : Checked A) (f : A → Checked B)
    → Grants Q c
    → ((a : A) → Q a → Grants P (f a))
    → Grants P (c >>= f)
unfolding Grants
bind-Grants Q P (done a) f q h = h a q
bind-Grants Q P (refused s c t) f q h = tt
bind-Grants Q P (failed e) f q h = tt
bind-Grants Q P faulty f q h = tt

attempt-Grants :
    {A B : Type 0} (P : B → Type 0) (o : Outcome A) (f : A → Checked B)
    → ((a : A) → Grants P (f a))
    → Grants P (attempt o >>= f)
unfolding Grants
attempt-Grants P (returns a) f h = h a
attempt-Grants P (throws e) f h = tt
attempt-Grants P undefined f h = tt

unless-Grants :
    {A : Type 0} (P : A → Type 0) (e : Option String) (status : ℕ) (code : String) (a : A)
    → (e ≡ none → P a)
    → Grants P (unless e status code a)
unfolding Grants
unless-Grants P none status code a h = h refl
unless-Grants P (some text) status code a h = tt

anything-Grants : {A : Type 0} (c : Checked A) → Grants (λ x. Unit) c
unfolding Grants
anything-Grants (done a) = tt
anything-Grants (refused status code text) = tt
anything-Grants (failed e) = tt
anything-Grants faulty = tt

or_else-none : (a b : Option String) → or_else a b ≡ none → (a ≡ none) × (b ≡ none)
or_else-none none b e = (refl, e)
or_else-none (some x) b e = cc

check_phone-IsPhone : (o : Option String) → check_phone o ≡ none → IsPhone o
unfolding IsPhone
check_phone-IsPhone none e = tt
check_phone-IsPhone (some s) e = ground (arith, e)

check_address-IsAddress : (o : Option DeviceIpv4) → check_address o ≡ none → IsAddress o
unfolding IsAddress
check_address-IsAddress none e = tt
check_address-IsAddress (some a) e = ground (arith, e)

check_device-IsWellFormed : (d : QodDevice) → check_device d ≡ none → IsWellFormed d
unfolding check_device IsWellFormed
check_device-IsWellFormed d e =
    let (a, rest) =
      or_else-none (check_phone d.phone_number)
        (or_else (check_address d.ipv4_address) (check_identifier d)) e in
    let (b, c) = or_else-none (check_address d.ipv4_address) (check_identifier d) rest in
    (
      check_phone-IsPhone d.phone_number a,
      check_address-IsAddress d.ipv4_address b,
      ground (arith, c),
    )

validate-IsDevice :
    (three_legged : Bool) (d : Option QodDevice)
    → validate_device three_legged d ≡ none
    → IsDevice three_legged d
unfolding validate_device IsDevice
validate-IsDevice true none e = inl (refl, refl)
validate-IsDevice true (some x) e = cc
validate-IsDevice false none e = cc
validate-IsDevice false (some x) e = inr (refl, (x, refl, check_device-IsWellFormed x e))

ranges-in_order :
    (l : List PortRange) → check_ranges l ≡ none → All (λ r. (r.from ≤ r.to) × (r.to ≤ 65535)) l
unfolding check_ranges
ranges-in_order [] e = tt
ranges-in_order (r ∷ l) e = ground (arith, e, ranges-in_order l)

ports-in_range : (l : List ℕ) → check_ports l ≡ none → All (λ p. p ≤ 65535) l
unfolding check_ports
ports-in_range [] e = tt
ports-in_range (p ∷ l) e = ground (arith, e, ports-in_range l)

validate-ArePorts : (p : Option PortsSpec) → validate_ports p ≡ none → ArePorts p
unfolding validate_ports ArePorts
validate-ArePorts none e = tt
validate-ArePorts (some s) e =
    let (a, b) = or_else-none (check_ranges s.ranges) (check_ports s.ports) e in
    (ranges-in_order s.ranges a, ports-in_range s.ports b)

check-IsSink :
    (s : String) (c : Option SinkCredential) (now : ℕ)
    → check_sink s c now ≡ none
    → validate_sink s ≡ true
unfolding check_sink
check-IsSink s none now e = ground (arith, e)
check-IsSink s (some c) now e = ground (arith, e)

module _ (J : JsonLib) (R : JsonReader J) (I : JsonItems J) (L : HandlerLib J) where
  read_device-Grants :
      (three_legged : Bool) (j : J.Json)
      → Grants (IsDevice three_legged) (read_device J R I L three_legged j)
  unfolding read_device IsDevice Grants
  read_device-Grants true j = elim (Bool-cases (R.contains "device" j)) [
    | inl e ↦ rw e (
        attempt-Grants _ (parse_device J R I L (J.field "device" j)) (valid_device J R I L true)
          (λ d. unless-Grants (IsDevice true) _ _ _ d (validate-IsDevice true d)))
    | inr e ↦ rw e (inl (refl, refl))
  ]
  read_device-Grants false j = elim (Bool-cases (R.contains "device" j)) [
    | inl e ↦ rw e (
        attempt-Grants _ (parse_device J R I L (J.field "device" j)) (valid_device J R I L false)
          (λ d. unless-Grants (IsDevice false) _ _ _ d (validate-IsDevice false d)))
    | inr e ↦ rw e tt
  ]

  server-Grants : (j : J.Json) → Grants (λ s. L.is_server_empty s ≡ false) (read_server J R I L j)
  unfolding read_server Grants
  server-Grants j = elim (Bool-cases (R.contains "applicationServer" j)) [
    | inl e ↦ rw e (
        attempt-Grants _ (parse_application_server J R I L (J.field "applicationServer" j))
          (valid_server J R I L)
          (λ s. elim (Bool-cases (L.is_server_empty s)) [ inl f ↦ rw f tt | inr f ↦ rw f f ]))
    | inr e ↦ rw e tt
  ]

  ports-Grants : (k : String) (j : J.Json) → Grants ArePorts (read_ports J R I L k j)
  unfolding read_ports Grants ArePorts
  ports-Grants k j = elim (Bool-cases (R.contains k j)) [
    | inl e ↦ rw e (
        attempt-Grants _ (parse_ports J R I L (J.field k j)) (valid_ports J R I L)
          (λ p. unless-Grants ArePorts _ _ _ p (validate-ArePorts p)))
    | inr e ↦ rw e tt
  ]

  positive-Grants :
      (code text : String) (n : ℤ) → Grants (λ d. 1 ≤ d) (positive J R I L code text n)
  unfolding positive Grants
  positive-Grants code text (pos zero) = tt
  positive-Grants code text (pos (suc n)) = omega arith
  positive-Grants code text (negsuc n) = tt

  duration-Grants : (j : J.Json) → Grants (λ d. 1 ≤ d) (read_duration J R I L j)
  unfolding read_duration Grants
  duration-Grants j = elim (Bool-cases (R.contains "duration" j)) [
    | inl e ↦ rw e (attempt-Grants _ (R.as_integer (J.field "duration" j)) _ (positive-Grants _ _))
    | inr e ↦ rw e tt
  ]

  credential-Grants :
      (now : ℕ) (s : String) (j : J.Json)
      → Grants (λ x. IsSink x.0) (read_credential J R I L j >>= valid_sink J R I L now s)
  unfolding IsSink
  credential-Grants now s j =
      bind-Grants (λ c. Unit) _ (read_credential J R I L j) (valid_sink J R I L now s)
        (anything-Grants (read_credential J R I L j))
        (λ c _. unless-Grants _ _ _ _ (some s, c) (check-IsSink s c now))

  read_sink-Grants : (now : ℕ) (j : J.Json) → Grants (λ x. IsSink x.0) (read_sink J R I L now j)
  unfolding read_sink Grants IsSink
  read_sink-Grants now j = elim (Bool-cases (R.contains "sink" j)) [
    | inl e ↦
        rw e (attempt-Grants _ (R.as_text (J.field "sink" j)) _ (λ s. credential-Grants now s j))
    | inr e ↦ rw e tt
  ]

  -- A request with the consumer of the context, an allowed device, a server with an address, ports
  -- in range, a duration of at least a second, and an HTTPS URL for its sink if it has one.
  unfoldable pub IsAcceptable : QodRequestContext → CreateSessionRequest SinkCredential → Type 0
  unfolding IsDevice ArePorts IsSink
  IsAcceptable c r =
      (r.api_consumer_id ≡ c.api_consumer_id)
      × IsDevice c.is_three_legged r.device
      × (L.is_server_empty r.application_server ≡ false)
      × ArePorts r.device_ports
      × ArePorts r.application_server_ports
      × (1 ≤ r.duration)
      × IsSink r.sink

  pub request-IsAcceptable :
      (c : QodRequestContext) (now : ℕ) (j : J.Json)
      → Grants (IsAcceptable c) (read_create_request J R I L c now j)
  unfolding read_create_request IsAcceptable Grants
  request-IsAcceptable c now j =
      bind-Grants _ _ (read_device J R I L c.is_three_legged j) _
        (read_device-Grants c.is_three_legged j)
        (λ d hd. bind-Grants _ _ (read_server J R I L j) _ (server-Grants j) (λ s hs.
          bind-Grants _ _ (read_ports J R I L "devicePorts" j) _ (ports-Grants "devicePorts" j)
            (λ p hp.
              bind-Grants _ _ (read_ports J R I L "applicationServerPorts" j) _
                (ports-Grants "applicationServerPorts" j)
                (λ q hq.
                  bind-Grants _ _ (read_profile J R I L j) _
                    (anything-Grants (read_profile J R I L j))
                    (λ o _. bind-Grants _ _ (read_duration J R I L j) _ (duration-Grants j) (λ n hn.
                      bind-Grants _ _ (read_sink J R I L now j) _ (read_sink-Grants now j)
                        (λ x hx. (refl, hd, hs, hp, hq, hn, hx))))))))
