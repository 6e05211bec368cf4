-- ===== src/Pcc/Format.antt =====
-- The rules in the format of the PCF, in southbound/pcf_handler/src/pcc_rule_manager.cpp.
use Prim.Native.String.{◌++◌, slice}
use text.Mathlib.Text.{find?}
use phine_af.Prelude.{String, Bool, ◌||◌, Option, none, some, List, [], ◌∷◌, map, if◌then◌else◌}
use phine_af.Map.{put}
use phine_af.Int.{ℤ, pos, less}
use phine_af.Decimal.{to_string_int, stoi}
use phine_af.Json.{JsonLib, JsonReader}
use phine_af.Outcome.{and_use, Outcome, returns, throws, undefined}
use phine_af.Ue.State.{is_nil}
use phine_af.Pcc.{PccRule, Cache, new_rule}

abbrev pub kbps : ℤ → String
kbps n = to_string_int n ++ " Kbps"

-- The number before the unit.
abbrev pub number_part : String → String
number_part s = elim (find? s " Kbps") [
  | some i ↦ slice s 0 i
  | none ↦ elim (find? s " kbps") [ some i ↦ slice s 0 i | none ↦ s ]
]

unfoldable pub parse_bandwidth : String → ℤ
parse_bandwidth s = elim (stoi (number_part s)) [ none ↦ pos 0 | some n ↦ n ]

-- Either of the two is set.
abbrev pub is_set : ℤ → ℤ → Bool
is_set ul dl = less (pos 0) ul || less (pos 0) dl

-- Every exception is caught; the rule goes into the cache without a validation.
unfoldable pub cached : Outcome PccRule → Cache → Outcome (Option PccRule) × Cache
cached (returns r) cache = (returns (some r), put r.rule_id r cache)
cached (throws e) cache = (returns none, cache)
cached undefined cache = (undefined, cache)

module _ (J : JsonLib) (R : JsonReader J) where
  open J use {Json, null, text, array, field, set}
  open R use {contains, elements, integer, as_text, as_integer}

  unfoldable pub flow_info : String → Json
  flow_info description = set "flowDescription" (text description) null

  unfoldable pub set_flows : List String → Json → Json
  unfolding flow_info
  set_flows l j = if is_nil l then j else set "flowInfos" (array (map flow_info l)) j

  -- The objects `gbr` and `mbr` of the source are not used.
  unfoldable pub set_bandwidths : String → String → ℤ → ℤ → Json → Json
  set_bandwidths up down ul dl j =
      if is_set ul dl then set down (text (kbps dl)) (set up (text (kbps ul)) j) else j

  unfoldable pub qos_data : PccRule → Json
  unfolding set_bandwidths
  qos_data r = set_bandwidths "mbrUl" "mbrDl" r.maximum_bandwidth_ul r.maximum_bandwidth_dl (
      set_bandwidths "gbrUl" "gbrDl" r.guaranteed_bandwidth_ul r.guaranteed_bandwidth_dl
        (set "5qi" (integer r.qos_reference) null))

  abbrev pub set_params : List (String × String) → Json → Json
  set_params [] j = j
  set_params ((k, v) ∷ l) j = set_params l (set k (text v) j)

  unfoldable pub convert_rule_to_pcf_format : PccRule → Json
  unfolding qos_data set_flows
  convert_rule_to_pcf_format r = set_params r.additional_params.entries (
      set "qosData" (qos_data r)
        (set_flows r.flow_descriptions (set "pccRuleId" (text r.rule_id) null)))

  unfoldable pub read_id : String → Json → Outcome String
  read_id generated j =
      if contains "pccRuleId" j then as_text (field "pccRuleId" j) else returns generated

  unfoldable pub read_infos : List Json → Outcome (List String)
  read_infos [] = returns []
  read_infos (j ∷ l) =
      let rest = read_infos l in
      if contains "flowDescription" j
      then and_use (as_text (field "flowDescription" j))
          (λ d. and_use rest (λ ds. returns (d ∷ ds)))
      else rest

  unfoldable pub read_flows : Json → Outcome (List String)
  unfolding read_infos
  read_flows j =
      if contains "flowInfos" j
      then elim (elements (field "flowInfos" j)) [ none ↦ returns [] | some l ↦ read_infos l ]
      else returns []

  unfoldable pub read_reference : Json → Outcome ℤ
  read_reference q = if contains "5qi" q then as_integer (field "5qi" q) else returns (pos 0)

  unfoldable pub read_bandwidth : String → Json → Outcome ℤ
  unfolding parse_bandwidth
  read_bandwidth k q =
      if contains k q
      then and_use (as_text (field k q)) (λ s. returns (parse_bandwidth s))
      else returns (pos 0)

  unfoldable pub read_qos : PccRule → Json → Outcome PccRule
  unfolding read_reference read_bandwidth
  read_qos r q = and_use (read_reference q) (λ n. and_use (read_bandwidth "gbrUl" q) (λ gu.
      and_use (read_bandwidth "gbrDl" q) (λ gd. and_use (read_bandwidth "mbrUl" q) (λ mu.
        and_use (read_bandwidth "mbrDl" q) (λ md. returns (record r {
          qos_reference = n;
          guaranteed_bandwidth_ul = gu;
          guaranteed_bandwidth_dl = gd;
          maximum_bandwidth_ul = mu;
          maximum_bandwidth_dl = md;
        }))))))

  unfoldable pub read_rule : String → Json → Outcome PccRule
  unfolding read_id read_flows read_qos
  read_rule generated j = and_use (read_id generated j) (λ i. and_use (read_flows j) (λ flows.
      let r = record new_rule {
        rule_id = i;
        flow_descriptions = flows;
        flow_direction = "bidirectional";
      } in
      if contains "qosData" j then read_qos r (field "qosData" j) else returns r))

  unfoldable pub parse_rule_from_pcf_format :
      String → Json → Cache → Outcome (Option PccRule) × Cache
  unfolding read_rule cached
  parse_rule_from_pcf_format generated j = cached (read_rule generated j)
