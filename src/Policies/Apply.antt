-- ===== src/Policies/Apply.antt =====
-- The request that applies a policy to the network and the one that removes it, with the answers of
-- the PCF handler, in af_core/src/policy_manager.cpp.
use Prim.Native.String.{◌++◌}
use phine_af.Prelude.{
  String, Bool, true, false, not, ◌||◌, ◌==◌, Option, none, some, [], ◌∷◌, keep, each, is_empty,
  if◌then◌else◌,
}
use phine_af.Ue.State.{is_nil}
use phine_af.Map.{find, empty}
use phine_af.Int.{ℤ, pos, less}
use phine_af.Outcome.{Outcome, Method, returns, throws, undefined, and_use, lift, ◌>>=◌, ◌>>◌}
use phine_af.Json.{JsonLib, JsonReader, Message, object, dumped}
use phine_af.Json.Read.{read_text, set_filled}
use phine_af.Services.{CommunicationService, AfOrchestrator}
use phine_af.Policies.{QoSPolicy, assign_text}

-- The service of the PCF and its destination: none if the orchestrator, the service or the
-- destination is missing.
abbrev connected_to :
    String → Option (Option CommunicationService) → Option (CommunicationService × String)
connected_to destination (some (some service)) =
    if is_empty destination then none else some (service, destination)
connected_to destination _ = none

unfoldable pub pcf_of : Option AfOrchestrator → Option (CommunicationService × String)
pcf_of none = none
pcf_of (some o) = connected_to o.pcf_destination (find "pcf" o.communication_services)

abbrev pub failed_with : String → QoSPolicy → QoSPolicy
failed_with reason p = record p { state = "error"; error_reason = reason }

-- `catch (const std::exception&)` around the exchange.
abbrev pub catch_apply : Outcome Bool × QoSPolicy → Outcome Bool × QoSPolicy
catch_apply (throws e, p) = (returns false, failed_with ("Exception: " ++ e) p)
catch_apply r = r

abbrev pub catch_remove : Outcome Bool → Outcome Bool
catch_remove (throws e) = returns false
catch_remove r = r

abbrev has_direction : String → QoSPolicy → Bool
has_direction d p = (p.flow_direction == d) || (p.flow_direction == "bidirectional")

module _ (J : JsonLib) (R : JsonReader J) where
  open J use {Json, parse, null, text, array, set}

  -- A bandwidth above 0, for the directions of the policy.
  unfoldable pub set_bandwidth : String → String → ℤ → QoSPolicy → Json → Json
  set_bandwidth up down n p j =
      let upward = if has_direction "uplink" p then set up (R.integer n) j else j in
      let both = if has_direction "downlink" p then set down (R.integer n) upward else upward in
      if less (pos 0) n then both else j

  unfoldable pub qos_info : QoSPolicy → Json
  unfolding set_bandwidth
  qos_info p = set "5qi" (R.integer p.qos_reference) (
      set_bandwidth "min_bw_ul" "min_bw_dl" p.guaranteed_bandwidth p
        (set_bandwidth "max_bw_ul" "max_bw_dl" p.maximum_bandwidth p null))

  -- The flow descriptions are a text that is JSON, or else one description.
  unfoldable pub flow_value : String → Outcome Json → Outcome Json
  flow_value t (returns j) = returns j
  flow_value t (throws e) = returns (array (text t ∷ []))
  flow_value t undefined = undefined

  unfoldable pub set_flows : Option String → Json → Outcome Json
  unfolding flow_value
  set_flows none j = returns j
  set_flows (some t) j = and_use (flow_value t (parse t)) (λ v. returns (
      set "flows" (array (object J (("flow_descriptions", v) ∷ ("flow_id", text "1") ∷ []) ∷ []))
        j))

  unfoldable pub media_component : QoSPolicy → Outcome Json
  unfolding qos_info set_flows
  media_component p = set_flows (find "flow_descriptions" p.additional_params) (
      set "qos_info" (qos_info p)
        (object J (("media_type", text "APPLICATION") ∷ ("media_component_id", text "1") ∷ [])))

  abbrev subscription_info : Json
  subscription_info = object J (
      (
        "events",
        array (
            object J
              (("notification_method", text "EVENT_DETECTION") ∷ ("event", text "QOS_NOTIF") ∷ [])
            ∷ []),
      )
      ∷ ("notification_uri", text "http://phine.af-core:50051/notifications")
      ∷ [])

  -- The other parameters, if there are any.
  unfoldable pub set_others : QoSPolicy → Json → Json
  set_others p j =
      let others = keep (λ e. not (e.0 == "flow_descriptions")) p.additional_params.entries in
      if is_nil others
      then j
      else set "additional_params" (each (λ e f. set e.0 (text e.1) f) others null) j

  unfoldable pub app_session_request : QoSPolicy → Outcome Json
  unfolding media_component set_others
  app_session_request p = and_use (media_component p) (λ component. returns (
      set_others p (
        set "subscription_info" subscription_info (
          set "media_components" (array (component ∷ [])) (
            set_filled J "ue_ipv6" p.ue_ipv6 (
              set_filled J "ue_ipv4" p.ue_ipv4 (
                object J (
                  ("operation", text "create")
                  ∷ ("af_app_id", text (if is_empty p.app_id then "default_app" else p.app_id))
                  ∷ []))))))))

  abbrev pub pcf_message : String → QoSPolicy → Json → Message
  pcf_message type p j = record {
    message_type = type;
    correlation_id = p.id;
    payload = dumped J j;
    metadata = empty;
  }

  unfoldable pub activate : Method QoSPolicy Bool
  activate p = (returns true, record p { state = "active" })

  unfoldable pub fail_with : String → Method QoSPolicy Bool
  fail_with reason p = (returns false, failed_with reason p)

  unfoldable pub created_answer : Json → Method QoSPolicy Bool
  unfolding activate
  created_answer j =
      assign_text J R "app_session_id" (λ s p. record p { pcf_transaction_id = s }) j >> activate

  unfoldable pub error_answer : Json → Method QoSPolicy Bool
  unfolding fail_with
  error_answer j = lift (read_text J R "message" "Unknown error" j) >>= λ message.
      fail_with ("PCF error: " ++ message)

  unfoldable pub process_answer : Option Message → Method QoSPolicy Bool
  unfolding created_answer error_answer fail_with
  process_answer none = fail_with "No response from PCF Handler"
  process_answer (some r) =
      if r.message_type == "pcf_app_session_created"
      then (lift (parse r.payload) >>= created_answer)
      else if r.message_type == "pcf_error"
      then (lift (parse r.payload) >>= error_answer)
      else fail_with "Unexpected response from PCF Handler"

  unfoldable pub request_policy :
      CommunicationService × String → QoSPolicy → Outcome (Option Message)
  unfolding app_session_request
  request_policy (service, destination) p =
      and_use (app_session_request p)
        (λ j. service.send_request destination (pcf_message "pcf_create_app_session" p j))

  unfoldable pub apply_by : Option (CommunicationService × String) → Method QoSPolicy Bool
  unfolding request_policy process_answer
  apply_by none p = (returns false, p)
  apply_by (some pcf) p = catch_apply ((lift (request_policy pcf p) >>= process_answer) p)

  unfoldable pub apply_policy : Option AfOrchestrator → Method QoSPolicy Bool
  unfolding pcf_of apply_by
  apply_policy o = apply_by (pcf_of o)

  -- The message of the error is read for the log.
  unfoldable pub refused_removal : Outcome Json → Outcome Bool
  refused_removal o =
      and_use o
        (λ j. and_use (read_text J R "message" "Unknown error" j) (λ message. returns false))

  unfoldable pub is_removed : Option Message → Outcome Bool
  unfolding refused_removal
  is_removed none = returns false
  is_removed (some r) =
      if r.message_type == "pcf_app_session_deleted"
      then returns true
      else if r.message_type == "pcf_error"
      then refused_removal (parse r.payload)
      else returns false

  unfoldable pub request_removal :
      CommunicationService × String → QoSPolicy → Outcome (Option Message)
  request_removal (service, destination) p = service.send_request destination (
      pcf_message "pcf_delete_app_session" p
        (set "app_session_id" (text p.pcf_transaction_id) null))

  unfoldable pub remove_by : Option (CommunicationService × String) → QoSPolicy → Outcome Bool
  unfolding request_removal is_removed
  remove_by none p = returns false
  remove_by (some pcf) p = catch_remove (and_use (request_removal pcf p) is_removed)

  -- A policy that was not applied to the network has no transaction identifier.
  unfoldable pub remove_policy : Option AfOrchestrator → QoSPolicy → Outcome Bool
  unfolding pcf_of remove_by
  remove_policy o p = if is_empty p.pcf_transaction_id then returns true else remove_by (pcf_of o) p
