-- ===== src/Policies.antt =====
-- The QoS policies of af_core/src/policy_manager.cpp: the manager's state, the reading of their data
-- and the validation.
pub mod Fields
pub mod Apply
pub mod Answers
pub mod Manager
use Prim.Native.String.{◌++◌}
use phine_af.Prelude.{
  ℕ, String, Bool, true, false, not, ◌&&◌, ◌||◌, ◌==◌, Option, is_empty, if◌then◌else◌,
}
use phine_af.Map.{Map, empty}
use phine_af.Int.{ℤ, pos, is_negative, less}
use phine_af.Outcome.{Outcome, Method, returns, throws, undefined, ◌>>=◌, ◌>>◌}
use phine_af.Json.{JsonLib, JsonReader, JsonItems}
use phine_af.Json.Read.{read_params}
use phine_af.Services.{AfOrchestrator}

pub record QoSPolicy : Type 0 where
  pub id : String
  pub app_id : String
  pub ue_ipv4 : String
  pub ue_ipv6 : String
  pub flow_direction : String
  pub qos_reference : ℤ
  pub guaranteed_bandwidth : ℤ
  pub maximum_bandwidth : ℤ
  pub additional_params : Map String
  pub state : String
  pub error_reason : String
  pub pcf_transaction_id : String

-- The orchestrator is none for a null pointer.
pub record PolicyManager : Type 0 where
  pub orchestrator : Option AfOrchestrator
  pub policies : Map QoSPolicy

-- A policy with its identifier and the defaults of the fields that a creation may leave out.
abbrev pub new_policy : String → QoSPolicy
new_policy generated = record {
  id = generated;
  app_id = "";
  ue_ipv4 = "";
  ue_ipv6 = "";
  flow_direction = "bidirectional";
  qos_reference = pos 9;
  guaranteed_bandwidth = pos 0;
  maximum_bandwidth = pos 0;
  additional_params = empty;
  state = "";
  error_reason = "";
  pcf_transaction_id = "";
}

-- The hexadecimal digits that are drawn, after the prefix.
unfoldable pub generate_policy_id : (ℕ → String) → String
generate_policy_id dis =
    "policy-"
    ++ (dis 0
        ++ (dis 1
            ++ (dis 2
                ++ (dis 3
                    ++ (dis 4
                        ++ (dis 5
                            ++ (dis 6
                                ++ (dis 7
                                    ++ (dis 8
                                        ++ (dis 9
                                            ++ (dis 10
                                                ++ (dis 11
                                                    ++ (dis 12
                                                        ++ (dis 13
                                                            ++ (dis 14 ++ dis 15)))))))))))))))

unfoldable pub validate_policy : QoSPolicy → Bool
validate_policy p =
    if is_empty p.app_id && (is_empty p.ue_ipv4 && is_empty p.ue_ipv6)
    then false
    else if not (p.flow_direction == "uplink")
        && (not (p.flow_direction == "downlink") && not (p.flow_direction == "bidirectional"))
    then false
    else if less p.qos_reference (pos 1) || less (pos 79) p.qos_reference
    then false
    else if is_negative p.guaranteed_bandwidth
    then false
    else if is_negative p.maximum_bandwidth
    then false
    else if less (pos 0) p.maximum_bandwidth && less p.maximum_bandwidth p.guaranteed_bandwidth
    then false
    else true

abbrev pub assigned :
    {A : Type 0} → (A → QoSPolicy → QoSPolicy) → Outcome A → Method QoSPolicy (Unit {0})
assigned f (returns a) p = (returns tt, f a p)
assigned f (throws e) p = (throws e, p)
assigned f undefined p = (undefined, p)

module _ (J : JsonLib) (R : JsonReader J) where
  open J use {Json, field}
  open R use {contains, as_text, as_integer}

  -- `if (j.contains(k)) policy.member = j[k];`.
  unfoldable pub assign_text :
      String → (String → QoSPolicy → QoSPolicy) → Json → Method QoSPolicy (Unit {0})
  assign_text k f j p = if contains k j then assigned f (as_text (field k j)) p else (returns tt, p)

  unfoldable pub assign_integer :
      String → (ℤ → QoSPolicy → QoSPolicy) → Json → Method QoSPolicy (Unit {0})
  assign_integer k f j p =
      if contains k j then assigned f (as_integer (field k j)) p else (returns tt, p)

  unfoldable pub assign_params : JsonItems J → Json → Method QoSPolicy (Unit {0})
  assign_params I j p = (
    returns tt,
    record p { additional_params = read_params J R I "additional_params" j p.additional_params },
  )

  -- The fields that the data have, one after another; what is written before an exception stays.
  unfoldable pub assign_fields : JsonItems J → Json → Method QoSPolicy (Unit {0})
  unfolding assign_text assign_integer assign_params
  assign_fields I j =
      assign_text "app_id" (λ s p. record p { app_id = s }) j
      >> (assign_text "ue_ipv4" (λ s p. record p { ue_ipv4 = s }) j
          >> (assign_text "ue_ipv6" (λ s p. record p { ue_ipv6 = s }) j
              >> (assign_text "flow_direction" (λ s p. record p { flow_direction = s }) j
                  >> (assign_integer "qos_reference" (λ n p. record p { qos_reference = n }) j
                      >> (assign_integer "guaranteed_bandwidth"
                            (λ n p. record p { guaranteed_bandwidth = n }) j
                          >> (assign_integer "maximum_bandwidth"
                                (λ n p. record p { maximum_bandwidth = n }) j
                              >> assign_params I j))))))
