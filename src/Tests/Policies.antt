-- ===== src/Tests/Policies.antt =====
-- Policies at concrete inputs.
use phine_af.Prelude.{String, ◌≡◌, refl, ap, subst, true, Option, some, ◌==◌, if◌then◌else◌}
use phine_af.Map.{find, put, empty, value_at, replace}
use phine_af.Int.{pos}
use phine_af.Outcome.{Outcome, returns, throws}
use phine_af.Json.{JsonLib, JsonReader, JsonItems, Message}
use phine_af.Services.{AfOrchestrator}
use phine_af.Policies.{QoSPolicy, PolicyManager, new_policy, validate_policy, assign_fields}
use phine_af.Policies.Manager.{create_policy, update_policy, delete_policy, handle_qos_request}
use phine_af.Policies.Manager.Valid.{IsValidPolicy, validate_policy_iff}
use phine_af.Policies.Manager.Effects.{Creates, create_policy-exact}
use phine_af.Policies.Manager.Changes.{Updates, Deletes, update_policy-exact, delete_policy-exact}
use phine_af.Policies.Manager.Sound.{IsKept, IsTyped}
use phine_af.Policies.Manager.Reachable.{
  started, handled, new_manager, policies-IsKept, handle_qos_request-answers, EndsWell,
}
use phine_af.Tests.Trees.{
  Tree, nothing, word, whole, entry, has_field, get_field, entries_of, trees_of, reader_of,
  items_in,
}

-- A video policy, and the PCF's identifier of its session.
abbrev video : Tree
video =
    entry "app_id" (word "camera")
      (entry "qos_reference" (whole (pos 2)) (entry "maximum_bandwidth" (whole (pos 4096)) nothing))

abbrev session : Tree
session = entry "app_session_id" (word "app-1") nothing

abbrev parser : String → Outcome Tree
parser s =
    if s == "video"
    then returns video
    else if s == "session"
    then returns session
    else throws "syntax"

abbrev trees : JsonLib
trees = trees_of parser

abbrev reader : JsonReader trees
reader = reader_of parser

abbrev items : JsonItems trees
items = items_in parser

abbrev reply : String → Message → Outcome (Option Message)
reply destination message = returns (
    some (record {
      message_type =
          if message.message_type == "pcf_create_app_session"
          then "pcf_app_session_created"
          else "pcf_app_session_deleted";
      correlation_id = message.correlation_id;
      payload = "session";
      metadata = empty;
    }))

-- An orchestrator whose PCF handler confirms everything.
abbrev connected : AfOrchestrator
connected = record {
  communication_services =
      put "pcf" (some (record { send_request = reply; send_async = λ d message. returns tt }))
        empty;
  pcf_destination = "pcf_handler:50055";
}

abbrev idle : PolicyManager
idle = new_manager (some connected)

abbrev camera : QoSPolicy
camera = record (new_policy "policy-1") {
  app_id = "camera";
  qos_reference = pos 2;
  maximum_bandwidth = pos 4096;
  state = "active";
  pcf_transaction_id = "app-1";
}

abbrev holding : PolicyManager
holding = record idle { policies = put "policy-1" camera empty }

created : create_policy trees reader items "policy-1" video idle ≡ (returns camera, holding)
unfolding create_policy has_field get_field entries_of find put empty value_at replace
created = refl

validate_policy_iff_example : (validate_policy camera ≡ true) × IsValidPolicy camera
unfolding validate_policy
validate_policy_iff_example = (refl, (validate_policy_iff camera).0 refl)

create_policy-exact_example :
    Creates trees reader items "policy-1" idle
      (create_policy trees reader items "policy-1" video idle)
create_policy-exact_example = create_policy-exact trees reader items "policy-1" video idle

video_typed : (p : QoSPolicy) → (assign_fields trees reader items video p).0 ≡ returns tt
unfolding assign_fields has_field get_field entries_of
video_typed p = refl

camera_held : find "policy-1" holding.policies ≡ some camera
unfolding find put empty value_at replace
camera_held = refl

update_policy-exact_example :
    Updates trees reader items "policy-1" holding
      (update_policy trees reader items "policy-1" video holding)
update_policy-exact_example =
    update_policy-exact trees reader items "policy-1" video camera holding camera_held refl
      (video_typed camera)

delete_policy-exact_example :
    Deletes trees reader items "policy-1" holding
      (delete_policy trees reader items "policy-1" holding)
delete_policy-exact_example = delete_policy-exact trees reader items "policy-1" holding

abbrev request : Message
request = record {
  message_type = "qos_request";
  correlation_id = "request-1";
  payload = "video";
  metadata = empty;
}

abbrev answer : Message
answer = record {
  message_type = "qos_success";
  correlation_id = "request-1";
  payload = "{}";
  metadata = empty;
}

answered : handle_qos_request trees reader items "policy-1" request idle ≡ (returns answer, holding)
unfolding handle_qos_request has_field get_field entries_of find put empty value_at replace
answered = refl

abbrev parsed : Outcome Tree → Tree
parsed (returns t) = t
parsed _ = nothing

typed : IsTyped trees reader items request
unfolding IsTyped has_field get_field
typed j e f p =
    subst (λ t. (assign_fields trees reader items t p).0 ≡ returns tt) (ap parsed e) (video_typed p)

policies-IsKept_example : IsKept "policy-1" camera
policies-IsKept_example =
    policies-IsKept trees reader items (some connected) holding "policy-1" camera
      (handled "policy-1" request answer idle holding started typed answered) camera_held

handle_qos_request-answers_example :
    EndsWell trees reader items request
      (handle_qos_request trees reader items "policy-1" request idle).0
handle_qos_request-answers_example =
    handle_qos_request-answers trees reader items "policy-1" request idle
