-- ===== src/Qod/Pcf/Filters.antt =====
-- The flow filters of a session, in af_core/src/qod/qod_session_manager.cpp.
use Prim.Native.String.{◌++◌}
use phine_af.Prelude.{
  String, ◌≡◌, refl, sym, ap, Option, none, some, List, [], ◌∷◌, map, eqb, is_empty, if◌then◌else◌,
}
use phine_af.Prelude.{◌++◌ as joined}
use phine_af.Decimal.{to_string}
use phine_af.Json.{JsonLib}
use phine_af.Qod.Types.{QodDevice, ApplicationServer, PortsSpec, PortRange, QodSession}

abbrev device_address : Option QodDevice → String
device_address none = "any"
device_address (some d) = elim d.ipv4_address [
  | some a ↦ a.public_address
  | none ↦ elim d.ipv6_address [ some v ↦ v | none ↦ "any" ]
]

abbrev server_address : ApplicationServer → String
server_address s = elim s.ipv4_address [
  | some v ↦ v
  | none ↦ elim s.ipv6_address [ some v ↦ v | none ↦ "any" ]
]

abbrev range_spec : PortRange → String
range_spec r =
    if eqb r.from r.to then to_string r.from else to_string r.from ++ "-" ++ to_string r.to

-- The ports, then the ranges.
abbrev port_specs : Option PortsSpec → List String
port_specs none = []
port_specs (some p) = joined (map to_string p.ports) (map range_spec p.ranges)

abbrev after_blank : String → String
after_blank s = if is_empty s then "" else " " ++ s

abbrev pub build_desc : String → String → String → String → String → String
build_desc dir src sp dst dp =
    "permit " ++ dir ++ " ip from " ++ src ++ after_blank sp ++ " to " ++ dst ++ after_blank dp

-- For each source port the descriptions for the destination ports.
abbrev pub for_each : (String → List String) → List String → List String
for_each f [] = []
for_each f (p ∷ ps) = joined (f p) (for_each f ps)

-- The descriptions for the ports of both sides, of one side, or of none.
unfoldable pub flow_descriptions : String → String → List String → List String → List String
flow_descriptions src dst [] [] = build_desc "out" src "" dst "" ∷ []
flow_descriptions src dst [] (dp ∷ dps) = map (λ p. build_desc "out" src "" dst p) (dp ∷ dps)
flow_descriptions src dst (sp ∷ sps) [] = map (λ p. build_desc "out" src p dst "") (sp ∷ sps)
flow_descriptions src dst (sp ∷ sps) (dp ∷ dps) =
    for_each (λ p. map (λ q. build_desc "out" src p dst q) (dp ∷ dps)) (sp ∷ sps)

unfoldable pub build_flow_filters :
    (J : JsonLib) {Credential : Type 0} → QodSession Credential → J.Json
unfolding flow_descriptions
build_flow_filters J s =
    let descriptions =
      flow_descriptions (device_address s.device) (server_address s.application_server)
        (port_specs s.device_ports) (port_specs s.application_server_ports) in
    J.array (
      J.set "flow_descriptions" (J.array (map J.text descriptions))
        (J.set "flow_direction" (J.text "BIDIRECTIONAL") (J.set "flow_id" (J.number 1) J.null))
      ∷ [])

-- The blank stands for a side without ports.
abbrev pub or_blank : List String → List String
or_blank [] = "" ∷ []
or_blank (p ∷ ps) = p ∷ ps

for_each-single : (f : String → String) (l : List String) → for_each (λ p. f p ∷ []) l ≡ map f l
for_each-single f [] = refl
for_each-single f (p ∷ ps) = ap (λ x. f p ∷ x) (for_each-single f ps)

append_nil : (l : List String) → joined l [] ≡ l
append_nil [] = refl
append_nil (x ∷ l) = ap (λ y. x ∷ y) (append_nil l)

-- The flow descriptions are, in this order, one for each pair of a source port and a destination
-- port, where a side without ports counts as one blank port.
pub flow_descriptions-pairs :
    (src dst : String) (sps dps : List String)
    → flow_descriptions src dst sps dps
      ≡ for_each (λ p. map (λ q. build_desc "out" src p dst q) (or_blank dps)) (or_blank sps)
unfolding flow_descriptions
flow_descriptions-pairs src dst [] [] = refl
flow_descriptions-pairs src dst [] (dp ∷ dps) =
    sym (append_nil (map (λ q. build_desc "out" src "" dst q) (dp ∷ dps)))
flow_descriptions-pairs src dst (sp ∷ sps) [] =
    sym (for_each-single (λ p. build_desc "out" src p dst "") (sp ∷ sps))
flow_descriptions-pairs src dst (sp ∷ sps) (dp ∷ dps) = refl
