-- ===== src/Ue/Key.antt =====
-- The class `UeKey` of af_core/include/models/ue_state.h and af_core/src/models/ue_key.cpp.
pub mod Format
pub mod Laws
use Prim.Native.String.{◌++◌}
use phine_af.Prelude.{
  String, Bool, true, false, not, ◌&&◌, Option, none, some, ◌==◌, is_some, if◌then◌else◌,
}
use phine_af.Outcome.{Outcome, returns, throws, and_then}
use Format.{
  validate_supi_format, validate_gpsi_format, validate_ipv4_format, validate_ipv6_format,
  validate_ipv6_prefix_format, validate_mac_format,
}

pub data KeyType : Type 0 where
  supi_based gpsi_based ipv4_based ipv6_based ipv6_prefix_based mac_addr_based composite : KeyType

pub record UeKey : Type 0 where
  pub type : KeyType
  pub supi_value : Option String
  pub gpsi_value : Option String
  pub ipv4_value : Option String
  pub ipv6_value : Option String
  pub ipv6_prefix_value : Option String
  pub mac_addr_value : Option String

-- The key of one identifier: the others are absent.
abbrev pub single : KeyType → String → UeKey
single t v = record {
  type = t;
  supi_value = elim t [ supi_based ↦ some v | _ ↦ none ];
  gpsi_value = elim t [ gpsi_based ↦ some v | _ ↦ none ];
  ipv4_value = elim t [ ipv4_based ↦ some v | _ ↦ none ];
  ipv6_value = elim t [ ipv6_based ↦ some v | _ ↦ none ];
  ipv6_prefix_value = elim t [ ipv6_prefix_based ↦ some v | _ ↦ none ];
  mac_addr_value = elim t [ mac_addr_based ↦ some v | _ ↦ none ];
}

-- The format that a constructor checks.
unfoldable pub validate : KeyType → String → Outcome (Unit {0})
validate supi_based v = validate_supi_format v
validate gpsi_based v = validate_gpsi_format v
validate ipv4_based v = validate_ipv4_format v
validate ipv6_based v = validate_ipv6_format v
validate ipv6_prefix_based v = validate_ipv6_prefix_format v
validate mac_addr_based v = validate_mac_format v
validate composite v =
    throws "COMPOSITE key type requires explicit construction with multiple identifiers"

-- `UeKey(key, key_type)`. `UeKey(Supi)` and `from_supi` are the case `supi_based`, and so for the
-- other five identifiers.
unfoldable pub make_key : String → KeyType → Outcome UeKey
make_key v t = and_then (validate t v) (returns (single t v))

value_or_empty : Option String → String
value_or_empty none = ""
value_or_empty (some v) = v

first_of_values : UeKey → String
first_of_values k = elim k.supi_value [
  | some v ↦ "supi:" ++ v
  | none ↦ elim k.gpsi_value [
    | some v ↦ "gpsi:" ++ v
    | none ↦ elim k.ipv4_value [
      | some v ↦ "ipv4:" ++ v
      | none ↦ elim k.ipv6_value [
        | some v ↦ "ipv6:" ++ v
        | none ↦ elim k.ipv6_prefix_value [
          | some v ↦ "ipv6_prefix:" ++ v
          | none ↦ elim k.mac_addr_value [ some v ↦ "mac:" ++ v | none ↦ "unknown" ]
        ]
      ]
    ]
  ]
]

key_of_type : KeyType → UeKey → String
unfolding value_or_empty first_of_values
key_of_type supi_based k = "supi:" ++ value_or_empty k.supi_value
key_of_type gpsi_based k = "gpsi:" ++ value_or_empty k.gpsi_value
key_of_type ipv4_based k = "ipv4:" ++ value_or_empty k.ipv4_value
key_of_type ipv6_based k = "ipv6:" ++ value_or_empty k.ipv6_value
key_of_type ipv6_prefix_based k = "ipv6_prefix:" ++ value_or_empty k.ipv6_prefix_value
key_of_type mac_addr_based k = "mac:" ++ value_or_empty k.mac_addr_value
key_of_type composite k = first_of_values k

unfoldable pub get_primary_key : UeKey → String
unfolding key_of_type
get_primary_key k = key_of_type k.type k

abbrev pub is_supi_based : KeyType → Bool
is_supi_based supi_based = true
is_supi_based _ = false

unfoldable pub can_promote_to_supi : UeKey → Bool
can_promote_to_supi k = not (is_supi_based k.type) && is_some k.supi_value

unfoldable pub is_resolved : UeKey → Bool
is_resolved k = is_supi_based k.type

unfoldable pub is_provisional : UeKey → Bool
is_provisional k = not (is_supi_based k.type)

unfoldable pub promote_to_supi : UeKey → UeKey
unfolding can_promote_to_supi
promote_to_supi k = if can_promote_to_supi k then record k { type = supi_based } else k

-- Assigning `COMPOSITE` to a composite key changes nothing.
unfoldable pub demote_to_composite : UeKey → UeKey
demote_to_composite k = record k { type = composite }

-- `operator==`.
unfoldable pub key_eq : UeKey → UeKey → Bool
unfolding get_primary_key
key_eq a b = get_primary_key a == get_primary_key b
