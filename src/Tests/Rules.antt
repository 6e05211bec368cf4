-- ===== src/Tests/Rules.antt =====
-- Rules in the format of the PCF, with trees for the values of the JSON library.
use phine_af.Prelude.{String, ◌≡◌, refl, some, List, [], ◌∷◌, arith, is_some}
use phine_af.Map.{empty, find, put, value_at}
use phine_af.Int.{pos}
use phine_af.Outcome.{returns}
use phine_af.Json.{JsonLib, JsonReader, JsonLaws, object}
use phine_af.Tests.Trees.{
  Tree, nothing, word, whole, entry, has_field, get_field, all_items, items_of, trees_of, reader_of,
}
use phine_af.Pcc.{PccRule, validate_rule}
use phine_af.Pcc.Create.{create_rule_from_app_session}
use phine_af.Pcc.Valid.{IsReadFrom, IsValidRule, created-valid}
use phine_af.Pcc.Format.{convert_rule_to_pcf_format, parse_rule_from_pcf_format}
use phine_af.Pcc.Roundtrip.{simple_rule, parse-convert}

abbrev trees : JsonLib
trees = trees_of (λ s. returns nothing)

abbrev reader : JsonReader trees
reader = reader_of (λ s. returns nothing)

has_field-object :
    (k : String) (l : List (String × Tree)) → has_field k (object trees l) ≡ is_some (value_at k l)
unfolding has_field value_at
has_field-object k [] = refl
has_field-object k ((j, v) ∷ l) = ground (arith, has_field-object k l)

get_field-object :
    (k : String) (l : List (String × Tree)) (v : Tree)
    → value_at k l ≡ some v
    → get_field k (object trees l) ≡ v
unfolding get_field value_at
get_field-object k [] v e = cc
get_field-object k ((j, w) ∷ l) v e = ground (arith, e, get_field-object k l v)

items_of-all : (l : List Tree) → items_of (all_items l) ≡ some l
unfolding items_of all_items
items_of-all [] = refl
items_of-all (t ∷ l) = rw (items_of-all l) refl

laws : JsonLaws trees reader
laws = record {
  contains-object = has_field-object;
  field-object = get_field-object;
  elements-array = items_of-all;
  as_text-text = λ s. refl;
  as_integer-integer = λ n. refl;
}

abbrev flow : String
flow = "permit out ip from 198.51.100.1 to assigned"

parse-convert_example :
    parse_rule_from_pcf_format trees reader "pcc-rule-0"
      (convert_rule_to_pcf_format trees reader
        (simple_rule "uplink" "pcc-rule-1" (flow ∷ []) (pos 1) 64 128 256 0))
      empty
    ≡ (
      returns (some (simple_rule "bidirectional" "pcc-rule-1" (flow ∷ []) (pos 1) 64 128 256 0)),
      put "pcc-rule-1"
          (simple_rule "bidirectional" "pcc-rule-1" (flow ∷ []) (pos 1) 64 128 256 0)
          empty,
    )
parse-convert_example =
    parse-convert trees reader laws "pcc-rule-0" "uplink" "pcc-rule-1" (flow ∷ []) (pos 1) 64 128
      256 0 empty (omega arith) (omega arith) (omega arith) (omega arith)

-- An application session for video.
abbrev session : Tree
session = entry "flow_direction" (word "downlink") (
    entry "qos_reference" (whole (pos 2)) (entry "maximum_bandwidth_dl" (whole (pos 4096)) nothing))

abbrev video : PccRule
video = simple_rule "downlink" "pcc-rule-2" [] (pos 2) 0 0 0 4096

video-created :
    (create_rule_from_app_session trees reader "pcc-rule-2" session empty).0 ≡ returns (some video)
unfolding create_rule_from_app_session has_field get_field empty phine_af.Pcc.new_rule
video-created = refl

created-valid_example :
    IsReadFrom trees reader "pcc-rule-2" session video
    × IsValidRule video
    × (find "pcc-rule-2" (create_rule_from_app_session trees reader "pcc-rule-2" session empty).1
        ≡ some video)
created-valid_example = created-valid trees reader "pcc-rule-2" session empty video video-created
