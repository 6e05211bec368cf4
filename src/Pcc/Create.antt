-- ===== src/Pcc/Create.antt =====
-- The rules that are created from media components and application sessions, in
-- southbound/pcf_handler/src/pcc_rule_manager.cpp.
use phine_af.Prelude.{ℕ, String, Option, none, some, List, [], ◌∷◌, if◌then◌else◌}
use phine_af.Prelude.{◌++◌ as joined}
use Prim.Native.String.{◌++◌}
use phine_af.Map.{put}
use phine_af.Int.{ℤ, pos}
use phine_af.Json.{JsonLib, JsonReader}
use phine_af.Outcome.{and_use, Outcome, returns, throws, undefined}
use phine_af.Pcc.{PccRule, Cache, new_rule, validate_rule}

-- A rule that passes the validation is cached; an exception is caught.
unfoldable pub store_valid : Outcome PccRule → Cache → Outcome (Option PccRule) × Cache
unfolding validate_rule
store_valid (returns r) cache =
    if validate_rule r then (returns (some r), put r.rule_id r cache) else (returns none, cache)
store_valid (throws e) cache = (returns none, cache)
store_valid undefined cache = (undefined, cache)

-- The hexadecimal digits that are drawn, after the prefix.
unfoldable pub generate_rule_id : (ℕ → String) → String
generate_rule_id dis =
    "pcc-rule-"
    ++ (dis 0 ++ (dis 1 ++ (dis 2 ++ (dis 3 ++ (dis 4 ++ (dis 5 ++ (dis 6 ++ dis 7)))))))

module _ (J : JsonLib) (R : JsonReader J) where
  open J use {Json, field}
  open R use {contains, elements, as_text, as_integer}

  unfoldable pub read_texts : List Json → Outcome (List String)
  read_texts [] = returns []
  read_texts (j ∷ l) =
      let rest = read_texts l in and_use (as_text j) (λ s. and_use rest (λ ss. returns (s ∷ ss)))

  -- The texts of an array, if there is one under the key.
  unfoldable pub read_descriptions : String → Json → Outcome (List String)
  unfolding read_texts
  read_descriptions k j =
      if contains k j
      then elim (elements (field k j)) [ none ↦ returns [] | some l ↦ read_texts l ]
      else returns []

  unfoldable pub read_components : List Json → Outcome (List String)
  unfolding read_descriptions
  read_components [] = returns []
  read_components (j ∷ l) =
      let rest = read_components l in
      and_use (read_descriptions "flowDescriptions" j)
        (λ s. and_use rest (λ ss. returns (joined s ss)))

  unfoldable pub read_int : String → ℤ → Json → Outcome ℤ
  read_int k n j = if contains k j then as_integer (field k j) else returns n

  unfoldable pub read_direction : Json → Outcome String
  read_direction j =
      if contains "flow_direction" j
      then as_text (field "flow_direction" j)
      else returns "bidirectional"

  -- The keys of the guaranteed and of the maximal bandwidths, up and down.
  unfoldable pub read_bandwidths :
      String → String → String → String → Json → PccRule → Outcome PccRule
  unfolding read_int
  read_bandwidths gu gd mu md j r = and_use (read_int gu (pos 0) j) (λ a.
      and_use (read_int gd (pos 0) j) (λ b. and_use (read_int mu (pos 0) j) (λ c.
        and_use (read_int md (pos 0) j) (λ d. returns (record r {
          guaranteed_bandwidth_ul = a;
          guaranteed_bandwidth_dl = b;
          maximum_bandwidth_ul = c;
          maximum_bandwidth_dl = d;
        })))))

  unfoldable pub read_app_session : String → Json → Outcome PccRule
  unfolding read_direction read_descriptions read_bandwidths
  read_app_session generated j = and_use (read_direction j) (λ direction.
      and_use (read_descriptions "flow_descriptions" j) (λ flows.
        and_use (read_int "qos_reference" (pos 9) j) (λ q.
          read_bandwidths "guaranteed_bandwidth_ul" "guaranteed_bandwidth_dl" "maximum_bandwidth_ul"
            "maximum_bandwidth_dl" j
            (record new_rule {
              rule_id = generated;
              flow_direction = direction;
              flow_descriptions = flows;
              qos_reference = q;
            }))))

  unfoldable pub read_media_flows : Json → Outcome (List String)
  unfolding read_components
  read_media_flows j =
      if contains "fDescs" j
      then elim (elements (field "fDescs" j)) [ none ↦ returns [] | some l ↦ read_components l ]
      else returns []

  unfoldable pub read_media_component : String → Json → Outcome PccRule
  unfolding read_media_flows read_bandwidths
  read_media_component generated j = and_use (read_media_flows j) (λ flows.
      let r = record new_rule {
        rule_id = generated;
        flow_direction = "bidirectional";
        flow_descriptions = flows;
        qos_reference = pos 9;
      } in
      if contains "medQoS" j
      then read_bandwidths "minbrUl" "minbrDl" "maxbrUl" "maxbrDl" (field "medQoS" j) r
      else returns r)

  unfoldable pub create_rule_from_app_session :
      String → Json → Cache → Outcome (Option PccRule) × Cache
  unfolding read_app_session store_valid
  create_rule_from_app_session generated j = store_valid (read_app_session generated j)

  unfoldable pub create_rule_from_media_component :
      String → Json → Cache → Outcome (Option PccRule) × Cache
  unfolding read_media_component store_valid
  create_rule_from_media_component generated j = store_valid (read_media_component generated j)
