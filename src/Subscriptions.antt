-- ===== src/Subscriptions.antt =====
-- The subscriptions to events, in af_core/src/subscription_manager.cpp: the manager's state, the
-- creation of a subscription and what is shown of it.
pub mod Access
pub mod Notify
pub mod Stored
pub mod Reachable
pub mod Creation
use Prim.Native.String.{◌++◌}
use phine_af.Prelude.{
  ℕ, String, Bool, true, false, not, ◌&&◌, Option, List, [], ◌∷◌, each, is_empty, if◌then◌else◌,
}
use phine_af.Ue.State.{is_nil}
use phine_af.Map.{Map, empty, put}
use phine_af.Int.{ℤ, pos, later}
use phine_af.Outcome.{Outcome, Method, returns, throws, undefined, and_use}
use phine_af.Json.{JsonLib, JsonReader, JsonItems, Message, object, dumped}
use phine_af.Json.Read.{
  metadata_or, read_text, read_integer, require_text, read_params, set_filled, caught_payload,
}
use phine_af.Services.{AfOrchestrator}

pub record Subscription : Type 0 where
  pub id : String
  pub client_id : String
  pub event_type : String
  pub notification_url : String
  pub filter_criteria : Map String
  pub expiry_time : ℤ
  pub active : Bool
  pub callback_service : String

-- The orchestrator is there once the manager is initialised; `sent` has the calls of `send_async`.
pub record SubscriptionManager : Type 0 where
  pub orchestrator : Option AfOrchestrator
  pub subscriptions : Map Subscription
  pub sent : List (String × Message)

abbrev pub has_target : Subscription → Bool
has_target s = not (is_empty s.notification_url && is_empty s.callback_service)

unfoldable pub validate_subscription : Subscription → Bool
validate_subscription s =
    if is_empty s.event_type then false else if has_target s then true else false

-- The hexadecimal digits that are drawn, after the prefix.
unfoldable pub generate_subscription_id : (ℕ → String) → String
generate_subscription_id dis =
    "sub-"
    ++ (dis 0
        ++ (dis 1
            ++ (dis 2
                ++ (dis 3
                    ++ (dis 4
                        ++ (dis 5
                            ++ (dis 6
                                ++ (dis 7
                                    ++ (dis 8
                                        ++ (dis 9
                                            ++ (dis 10
                                                ++ (dis 11
                                                    ++ (dis 12
                                                        ++ (dis 13
                                                            ++ (dis 14 ++ dis 15)))))))))))))))

-- A response to a message.
abbrev pub respond : Message → String → String → Message
respond message type payload = record {
  message_type = type;
  correlation_id = message.correlation_id;
  payload = payload;
  metadata = empty;
}

module _ (J : JsonLib) (R : JsonReader J) (I : JsonItems J) where
  open J use {Json, parse, null, text, set, field}

  unfoldable pub read_client : String → Message → Json → Outcome String
  read_client d message j = read_text J R "client_id" (metadata_or "source_service" d message) j

  -- The rest of the reading, once the texts are read.
  unfoldable pub read_targeted :
      String → ℕ → String → String → String → String → Json → Outcome Subscription
  read_targeted generated now client event url callback j =
      if is_empty url && is_empty callback
      then throws "Either notification_url or callback_service must be specified"
      else and_use (read_integer J R "expiry_seconds" (pos 3600) j) (λ seconds. returns (record {
        id = generated;
        client_id = client;
        event_type = event;
        notification_url = url;
        filter_criteria = read_params J R I "filter_criteria" j empty;
        expiry_time = later now seconds;
        active = true;
        callback_service = callback;
      }))

  -- The fields in the order in which they are read; the first that fails throws.
  unfoldable pub read_subscription : String → ℕ → Message → Json → Outcome Subscription
  unfolding read_client read_targeted
  read_subscription generated now message j = and_use (read_client "unknown" message j) (λ client.
      and_use (require_text J R "event_type" "Missing required field: event_type" j) (λ event.
        and_use (read_text J R "notification_url" "" j) (λ url.
          and_use (read_text J R "callback_service" "" j)
            (λ callback. read_targeted generated now client event url callback j))))

  -- The subscription that a request describes, if it is valid.
  unfoldable pub if_valid : Subscription → Outcome Subscription
  unfolding validate_subscription
  if_valid s =
      if validate_subscription s then returns s else throws "Invalid subscription configuration"

  unfoldable pub requested : String → ℕ → Message → Outcome Subscription
  unfolding read_subscription if_valid
  requested generated now message =
      and_use (parse message.payload)
        (λ j. and_use (read_subscription generated now message j) if_valid)

  abbrev pub set_targets : Subscription → Json → Json
  set_targets s j =
      set_filled J "callback_service" s.callback_service
        (set_filled J "notification_url" s.notification_url j)

  abbrev set_filter : Subscription → Json → Json
  set_filter s j =
      if is_nil s.filter_criteria.entries
      then j
      else set "filter_criteria" (each (λ e f. set e.0 (text e.1) f) s.filter_criteria.entries null)
          j

  -- What a response shows; the time is written by `gmtime` and `strftime`.
  unfoldable pub show_subscription :
      (ℤ → String) → Bool → Subscription → List (String × Json) → Json
  show_subscription iso filtered s more =
      let basic = object J (
        ("client_id", text s.client_id)
        ∷ ("event_type", text s.event_type)
        ∷ ("id", text s.id)
        ∷ more) in
      let targeted = set_targets s basic in
      set "expiry_time" (text (iso s.expiry_time))
        (if filtered then set_filter s targeted else targeted)

  unfoldable pub created : (ℤ → String) → Message → Subscription → Message
  unfolding show_subscription
  created iso message s =
      respond message "subscription_created" (dumped J (show_subscription iso true s []))

  -- The `catch` block, whose dump may throw.
  unfoldable pub rejected : Message → String → Outcome Message
  rejected message e =
      and_use (caught_payload J e) (λ s. returns (respond message "subscription_error" s))

  unfoldable pub store_requested :
      (ℤ → String) → Message → Outcome Subscription → Method SubscriptionManager Message
  unfolding created rejected
  store_requested iso message (returns s) m =
      (returns (created iso message s), record m { subscriptions = put s.id s m.subscriptions })
  store_requested iso message (throws e) m = (rejected message e, m)
  store_requested iso message undefined m = (undefined, m)

  unfoldable pub create_subscription :
      (ℤ → String) → String → ℕ → Message → Method SubscriptionManager Message
  unfolding requested store_requested
  create_subscription iso generated now message =
      store_requested iso message (requested generated now message)
