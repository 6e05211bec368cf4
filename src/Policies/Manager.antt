-- ===== src/Policies/Manager.antt =====
-- The creation, update and deletion of policies and the requests for them, in
-- af_core/src/policy_manager.cpp.
pub mod Valid
pub mod Effects
pub mod Changes
pub mod Sound
pub mod Requests
pub mod Reachable
use Prim.Native.String.{◌++◌}
use phine_af.Prelude.{
  String, Bool, true, false, ◌==◌, Option, none, some, List, [], ◌∷◌, map, if◌then◌else◌,
}
use phine_af.Map.{Map, find, put, erase, empty}
use phine_af.Outcome.{
  Outcome, Method, returns, throws, undefined, and_use, pure, throw, lift, continue, ◌>>=◌, ◌>>◌,
}
use phine_af.Json.{JsonLib, JsonReader, JsonItems, Message, object, dumped}
use phine_af.Json.Read.{read_text, require_text, error_payload, caught_payload}
use phine_af.Policies.{QoSPolicy, PolicyManager, new_policy, validate_policy, assign_fields}
use phine_af.Policies.Apply.{apply_policy, remove_policy}

unfoldable pub get_policy : String → PolicyManager → Option QoSPolicy
get_policy i m = find i m.policies

unfoldable pub get_all_policies : PolicyManager → List QoSPolicy
get_all_policies m = map (λ e. e.1) m.policies.entries

abbrev pub store : String → QoSPolicy → PolicyManager → PolicyManager
store i p m = record m { policies = put i p m.policies }

abbrev pub inactive : QoSPolicy → QoSPolicy
inactive p = record p { state = "inactive" }

-- The policy as it is stored when the network refused it.
abbrev pub unapplied : QoSPolicy → QoSPolicy
unapplied p = record p { state = "error"; error_reason = "Failed to apply policy to network" }

module _ (J : JsonLib) (R : JsonReader J) (I : JsonItems J) where
  open J use {Json, parse, text, set}

  unfoldable pub store_applied : Outcome Bool × QoSPolicy → Method PolicyManager QoSPolicy
  store_applied (returns true, p) m = (returns p, store p.id p m)
  store_applied (returns false, p) m =
      (throws "Failed to apply policy to network", store p.id (unapplied p) m)
  store_applied (throws e, p) m = (throws e, m)
  store_applied (undefined, p) m = (undefined, m)

  unfoldable pub create_read : Outcome (Unit {0}) × QoSPolicy → Method PolicyManager QoSPolicy
  unfolding store_applied validate_policy apply_policy
  create_read (returns _, p) m =
      if validate_policy p
      then store_applied (apply_policy J R m.orchestrator (inactive p)) m
      else (throws "Invalid policy configuration", m)
  create_read (throws e, p) m = (throws ("Invalid policy data: " ++ e), m)
  create_read (undefined, p) m = (undefined, m)

  unfoldable pub create_policy : String → Json → Method PolicyManager QoSPolicy
  unfolding create_read assign_fields
  create_policy generated j = create_read (assign_fields J R I j (new_policy generated))

  -- `policy` is a reference into the map; only the last two branches write the old one back.
  unfoldable pub store_updated :
      String → QoSPolicy → Outcome Bool × QoSPolicy → Method PolicyManager Bool
  store_updated i old (returns true, p) m = (returns true, store i p m)
  store_updated i old (returns false, p) m = (returns false, store i old m)
  store_updated i old (throws e, p) m = (throws e, store i p m)
  store_updated i old (undefined, p) m = (undefined, store i p m)

  unfoldable pub update_read :
      String → QoSPolicy → Outcome (Unit {0}) × QoSPolicy → Method PolicyManager Bool
  unfolding store_updated validate_policy apply_policy
  update_read i old (returns _, p) m =
      if validate_policy p
      then store_updated i old (apply_policy J R m.orchestrator p) m
      else (returns false, store i old m)
  update_read i old (throws e, p) m = (returns false, store i p m)
  update_read i old (undefined, p) m = (undefined, store i p m)

  unfoldable pub update_found : String → Json → Option QoSPolicy → Method PolicyManager Bool
  unfolding update_read assign_fields
  update_found i j none m = (returns false, m)
  update_found i j (some old) m = update_read i old (assign_fields J R I j old) m

  unfoldable pub update_policy : String → Json → Method PolicyManager Bool
  unfolding update_found
  update_policy i j m = update_found i j (find i m.policies) m

  unfoldable pub erase_removed : String → Outcome Bool → Method PolicyManager Bool
  erase_removed i (returns true) m = (returns true, record m { policies = erase i m.policies })
  erase_removed i r m = (r, m)

  unfoldable pub delete_found : String → Option QoSPolicy → Method PolicyManager Bool
  unfolding erase_removed remove_policy
  delete_found i none m = (returns false, m)
  delete_found i (some p) m = erase_removed i (remove_policy J R m.orchestrator p) m

  unfoldable pub delete_policy : String → Method PolicyManager Bool
  unfolding delete_found
  delete_policy i m = delete_found i (find i m.policies) m

  abbrev respond : Message → String → String → Message
  respond message type payload = record {
    message_type = type;
    correlation_id = message.correlation_id;
    payload = payload;
    metadata = empty;
  }

  unfoldable pub success : Message → String → String → Message
  success message i state =
      respond message "qos_success"
        (dumped J (object J (("state", text state) ∷ ("policy_id", text i) ∷ [])))

  unfoldable pub failure : Message → String → String → Message
  failure message kind e = respond message "qos_error" (error_payload J kind e)

  abbrev state_or_unknown : Option QoSPolicy → String
  state_or_unknown none = "unknown"
  state_or_unknown (some p) = p.state

  unfoldable pub updated_response : Message → String → Bool → Method PolicyManager Message
  unfolding success failure
  updated_response message i true m =
      (returns (success message i (state_or_unknown (find i m.policies))), m)
  updated_response message i false m =
      (returns (failure message "update_failed" "Failed to update policy"), m)

  unfoldable pub deleted_response : Message → String → Bool → Method PolicyManager Message
  unfolding success failure
  deleted_response message i true = pure (success message i "deleted")
  deleted_response message i false =
      pure (failure message "delete_failed" "Failed to delete policy")

  unfoldable pub handle_create : Message → String → Json → Method PolicyManager Message
  unfolding create_policy success
  handle_create message generated j =
      create_policy generated j >>= λ p. pure (success message p.id p.state)

  unfoldable pub handle_update : Message → Json → Method PolicyManager Message
  unfolding update_policy updated_response
  handle_update message j =
      lift (require_text J R "policy_id" "Missing policy_id for update operation" j) >>= λ i.
      update_policy i j >>= updated_response message i

  unfoldable pub handle_delete : Message → Json → Method PolicyManager Message
  unfolding delete_policy deleted_response
  handle_delete message j =
      lift (require_text J R "policy_id" "Missing policy_id for delete operation" j) >>= λ i.
      delete_policy i >>= deleted_response message i

  unfoldable pub handle_operation : Message → String → Json → String → Method PolicyManager Message
  unfolding handle_create handle_update handle_delete
  handle_operation message generated j operation =
      if operation == "create"
      then handle_create message generated j
      else if operation == "update"
      then handle_update message j
      else if operation == "delete"
      then handle_delete message j
      else throw ("Unknown operation: " ++ operation)

  unfoldable pub handle_data : Message → String → Json → Method PolicyManager Message
  unfolding handle_operation
  handle_data message generated j =
      lift (read_text J R "operation" "create" j) >>= handle_operation message generated j

  -- The `catch` block, whose dump may throw.
  unfoldable pub rejected : Message → String → Outcome Message
  rejected message e = and_use (caught_payload J e) (λ s. returns (respond message "qos_error" s))

  abbrev pub caught : Message → Outcome Message × PolicyManager → Outcome Message × PolicyManager
  caught message (throws e, m) = (rejected message e, m)
  caught message r = r

  unfoldable pub handle_qos_request : String → Message → Method PolicyManager Message
  unfolding handle_data rejected
  handle_qos_request generated message m =
      caught message ((lift (parse message.payload) >>= handle_data message generated) m)
