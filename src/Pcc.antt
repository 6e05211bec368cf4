-- ===== src/Pcc.antt =====
-- The class `PccRuleManager` of southbound/pcf_handler/src/pcc_rule_manager.cpp. The members of a new
-- rule are zero and empty.
pub mod Format
pub mod Create
pub mod Valid
pub mod Roundtrip
use phine_af.Prelude.{
  ℕ, String, Bool, true, false, not, ◌&&◌, ◌||◌, Option, none, some, List, [], ◌∷◌, ◌==◌, is_empty,
  if◌then◌else◌,
}
use phine_af.Map.{Map, empty, put}
use phine_af.Int.{ℤ, pos, is_negative, less}

pub record PccRule : Type 0 where
  pub rule_id : String
  pub flow_direction : String
  pub flow_descriptions : List String
  pub qos_reference : ℤ
  pub guaranteed_bandwidth_ul : ℤ
  pub guaranteed_bandwidth_dl : ℤ
  pub maximum_bandwidth_ul : ℤ
  pub maximum_bandwidth_dl : ℤ
  pub additional_params : Map String

unfoldable pub new_rule : PccRule
new_rule = record {
  rule_id = "";
  flow_direction = "";
  flow_descriptions = [];
  qos_reference = pos 0;
  guaranteed_bandwidth_ul = pos 0;
  guaranteed_bandwidth_dl = pos 0;
  maximum_bandwidth_ul = pos 0;
  maximum_bandwidth_dl = pos 0;
  additional_params = empty;
}

-- Only the cache of the manager is changed.
abbrev pub Cache : Type 0
Cache = Map PccRule

-- A guaranteed bandwidth above a maximum that is set.
abbrev pub exceeds : ℤ → ℤ → Bool
exceeds guaranteed maximum = less (pos 0) maximum && less maximum guaranteed

unfoldable pub validate_rule : PccRule → Bool
validate_rule r =
    not (is_empty r.rule_id)
    && (r.flow_direction == "uplink"
        || r.flow_direction == "downlink"
        || r.flow_direction == "bidirectional")
    && not (less r.qos_reference (pos 1) || less (pos 79) r.qos_reference)
    && not (is_negative r.guaranteed_bandwidth_ul)
    && not (is_negative r.guaranteed_bandwidth_dl)
    && not (is_negative r.maximum_bandwidth_ul)
    && not (is_negative r.maximum_bandwidth_dl)
    && not (exceeds r.guaranteed_bandwidth_ul r.maximum_bandwidth_ul)
    && not (exceeds r.guaranteed_bandwidth_dl r.maximum_bandwidth_dl)
