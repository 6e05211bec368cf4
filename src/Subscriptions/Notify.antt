-- ===== src/Subscriptions/Notify.antt =====
-- The notifications of subscribers, in af_core/src/subscription_manager.cpp.
pub mod Exact
use phine_af.Prelude.{
  ℕ, suc, String, Bool, true, false, not, ◌&&◌, ◌==◌, Option, none, some, List, [], ◌∷◌, ◌++◌, map,
  keep, all, is_empty, if◌then◌else◌,
}
use phine_af.Map.{Map, find, put, empty}
use phine_af.Outcome.{
  Outcome, Method, returns, throws, undefined, pure, fault, continue, ◌>>=◌, ◌>>◌,
}
use phine_af.Json.{JsonLib, JsonReader, Message, object, dumped}
use phine_af.Services.{CommunicationService, AfOrchestrator}
use phine_af.Subscriptions.{Subscription, SubscriptionManager}
use phine_af.Subscriptions.Access.{is_expired}

-- What the `try` block of `send_notification` makes of a call of `send_async`.
abbrev pub accepted : Outcome (Unit {0}) → Outcome Bool
accepted (returns _) = returns true
accepted (throws e) = returns false
accepted undefined = undefined

unfoldable pub send_to :
    String → Message → Option (Option CommunicationService) → Method SubscriptionManager Bool
send_to callback message none m = (returns false, m)
send_to callback message (some none) m = (undefined, m)
send_to callback message (some (some service)) m = (
  accepted (service.send_async callback message),
  record m { sent = m.sent ++ (callback, message) ∷ [] },
)

module _ (J : JsonLib) (R : JsonReader J) where
  open J use {Json, text, number, field}
  open R use {contains}

  -- Every entry of the filter has its text for the value that the event has under the key.
  unfoldable pub matches_filters : Json → Subscription → Bool
  matches_filters event s =
      all (λ e. contains e.0 event && (dumped J (field e.0 event) == e.1)) s.filter_criteria.entries

  -- The clock, which the loop reads for every subscription, is read once.
  unfoldable pub is_matching : String → Json → ℕ → Subscription → Bool
  unfolding matches_filters
  is_matching type event now s =
      s.active && (s.event_type == type) && not (is_expired now s) && matches_filters event s

  unfoldable pub notification : Json → ℕ → Subscription → Message
  notification event now s = record {
    message_type = "event_notification";
    correlation_id = "";
    payload = dumped J (
        object J (
          ("data", event)
          ∷ ("timestamp", number now)
          ∷ ("subscription_id", text s.id)
          ∷ ("event_type", text s.event_type)
          ∷ []));
    metadata = put "subscription_id" s.id (put "event_type" s.event_type empty);
  }

  unfoldable pub send_callback :
      Json → ℕ → Subscription → Option AfOrchestrator → Method SubscriptionManager Bool
  unfolding send_to notification
  send_callback event now s none m = (undefined, m)
  send_callback event now s (some o) m =
      send_to s.callback_service (notification event now s)
        (find s.callback_service o.communication_services) m

  unfoldable pub send_notification : Json → ℕ → Subscription → Method SubscriptionManager Bool
  unfolding send_callback
  send_notification event now s m =
      if not (is_empty s.callback_service)
      then send_callback event now s m.orchestrator m
      else (returns (not (is_empty s.notification_url)), m)

  unfoldable pub counted : Bool → ℕ → Method SubscriptionManager ℕ
  counted b n = pure (if b then suc n else n)

  -- The loop over the matching subscriptions, and how many of the calls return true.
  unfoldable pub send_all : Json → ℕ → List Subscription → Method SubscriptionManager ℕ
  unfolding send_notification counted
  send_all event now [] = pure 0
  send_all event now (s ∷ l) =
      send_notification event now s >>= λ b. send_all event now l >>= counted b

  unfoldable pub matching : String → Json → ℕ → SubscriptionManager → List Subscription
  unfolding is_matching
  matching type event now m =
      keep (is_matching type event now) (map (λ e. e.1) m.subscriptions.entries)

  unfoldable pub notify_event : String → Json → ℕ → Method SubscriptionManager ℕ
  unfolding matching send_all
  notify_event type event now m = send_all event now (matching type event now m) m
