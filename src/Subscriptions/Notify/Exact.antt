-- ===== src/Subscriptions/Notify/Exact.antt =====
-- Which subscribers an event reaches, in af_core/src/subscription_manager.cpp.
use phine_af.Prelude.{
  ℕ, String, ◌≡◌, ◌↔◌, refl, sym, ◌∙◌, ap, ◌⊎◌, false, ◌&&◌, ◌==◌, eq_iff, all, arith, inl, inr,
  true, false, some, List, [], ◌∷◌, ◌++◌, map, length, All, is_empty, contains, each, Bool-cases,
  if◌then◌else◌,
}
use phine_af.Map.{find, put, empty}
use phine_af.Int.{pos, less}
use phine_af.Map.Unique.{IsUnique, holds, holds_iff, contains-selected}
use phine_af.Outcome.{returns}
use phine_af.Json.{JsonLib, JsonReader, Message, object, dumped}
use phine_af.Services.{CommunicationService, AfOrchestrator}
use phine_af.Subscriptions.{Subscription, SubscriptionManager}
use phine_af.Subscriptions.Notify.{
  notification, send_to, send_callback, send_notification, counted, send_all, is_matching, matching,
  notify_event, matches_filters,
}

-- The callback service of a subscription is there and takes every message, or there is none and a
-- URL stands for it.
unfoldable pub IsDeliverable : AfOrchestrator → Subscription → Type 0
IsDeliverable o s =
    ((is_empty s.callback_service ≡ true) × (is_empty s.notification_url ≡ false))
    ⊎ ((is_empty s.callback_service ≡ false)
        × ((service : CommunicationService) × (find s.callback_service o.communication_services
              ≡ some (some service))
            × ((message : Message) → service.send_async s.callback_service message ≡ returns tt)))

module _ (J : JsonLib) (R : JsonReader J) where
  -- The event has a value under the key, which is dumped as the text.
  unfoldable pub HasText : J.Json → String × String → Type 0
  HasText event (k, v) = (R.contains k event ≡ true) × (dumped J (J.field k event) ≡ v)

  -- A subscription to the type of the event that is active, does not expire before now, and has a
  -- filter that the event passes.
  unfoldable pub IsMatch : String → J.Json → ℕ → Subscription → Type 0
  unfolding HasText
  IsMatch type event now s =
      (s.active ≡ true)
      × (s.event_type ≡ type)
      × (less s.expiry_time (pos now) ≡ false)
      × All (HasText event) s.filter_criteria.entries

  filters_iff :
      (event : J.Json) (l : List (String × String))
      → (all (λ e. R.contains e.0 event && (dumped J (J.field e.0 event) == e.1)) l ≡ true)
        ↔ All (HasText event) l
  unfolding HasText
  filters_iff event [] = (λ h. tt, λ h. refl)
  filters_iff event ((k, v) ∷ l) =
      ground (arith, filters_iff event l, eq_iff (dumped J (J.field k event)) v)

  is_matching_iff :
      (type : String) (event : J.Json) (now : ℕ) (s : Subscription)
      → (is_matching J R type event now s ≡ true) ↔ IsMatch type event now s
  unfolding is_matching matches_filters IsMatch
  is_matching_iff type event now s =
      ground (arith, eq_iff s.event_type type, filters_iff event s.filter_criteria.entries)

  -- The message to a callback service.
  abbrev pub message_of : J.Json → ℕ → Subscription → Message
  message_of event now s = record {
    message_type = "event_notification";
    correlation_id = "";
    payload = dumped J (
        object J (
          ("data", event)
          ∷ ("timestamp", J.number now)
          ∷ ("subscription_id", J.text s.id)
          ∷ ("event_type", J.text s.event_type)
          ∷ []));
    metadata = put "subscription_id" s.id (put "event_type" s.event_type empty);
  }

  -- The messages for the callback services, in order.
  abbrev pub messages : J.Json → ℕ → List Subscription → List (String × Message)
  messages event now [] = []
  messages event now (s ∷ l) =
      let rest = messages event now l in
      if is_empty s.callback_service
      then rest
      else (s.callback_service, message_of event now s) ∷ rest

  abbrev pub log : String × Message → SubscriptionManager → SubscriptionManager
  log x m = record m { sent = m.sent ++ x ∷ [] }

  sent_to :
      (event : J.Json) (now : ℕ) (s : Subscription) (o : AfOrchestrator) (m : SubscriptionManager)
      → m.orchestrator ≡ some o
      → IsDeliverable o s
      → send_notification J R event now s m
        ≡ (returns true, each log (messages event now (s ∷ [])) m)
  unfolding send_notification send_callback send_to notification IsDeliverable
  sent_to event now s o m e (inl (f, g)) = rw (f, g) refl
  sent_to event now s o m e (inr (f, (service, g, accepts))) =
      rw f (ap (λ x. send_callback J R event now s x m) e ∙ rw (g, accepts) refl)

  all_sent :
      (event : J.Json) (now : ℕ) (l : List Subscription) (o : AfOrchestrator)
      (m : SubscriptionManager)
      → m.orchestrator ≡ some o
      → All (IsDeliverable o) l
      → send_all J R event now l m ≡ (returns (length l), each log (messages event now l) m)
  unfolding send_all counted notification
  all_sent event now [] o m e h = refl
  all_sent event now (s ∷ l) o m e h = elim (Bool-cases (is_empty s.callback_service)) [
    | inl f ↦ rw (sent_to event now s o m e h.0, f, all_sent event now l o m e h.1) refl
    | inr f ↦
        rw
          (
            sent_to event now s o m e h.0,
            f,
            all_sent event now l o (log (s.callback_service, message_of event now s) m) e h.1,
          )
          refl
  ]

  matching-selected :
      (type : String) (event : J.Json) (now : ℕ) (m : SubscriptionManager)
      → IsUnique m.subscriptions
      → ((k : String) (s : Subscription) → find k m.subscriptions ≡ some s → s.id ≡ k)
      → (k : String)
      → contains k (map (λ s. s.id) (matching J R type event now m))
        ≡ holds (is_matching J R type event now) (find k m.subscriptions)
  unfolding matching
  matching-selected type event now m once named =
      contains-selected (λ s. s.id) (is_matching J R type event now) m.subscriptions once named

  -- An event is sent to the matching subscriptions and to no others, one message for each callback
  -- service, in order, and the count of the matching ones is returned; the subscriptions stay. A
  -- subscription matches when it is stored under its identifier, is active, has the event's type,
  -- is not expired, and its filter has the text of the event's value under each key. The stored
  -- subscriptions stand once and under their own identifier, and the matching ones can be
  -- delivered.
  pub notify_event-exact :
      (type : String) (event : J.Json) (now : ℕ) (o : AfOrchestrator) (m : SubscriptionManager)
      → IsUnique m.subscriptions
      → ((k : String) (s : Subscription) → find k m.subscriptions ≡ some s → s.id ≡ k)
      → m.orchestrator ≡ some o
      → All (IsDeliverable o) (matching J R type event now m)
      → (notify_event J R type event now m ≡ (
        returns (length (matching J R type event now m)),
        each log (messages event now (matching J R type event now m)) m,
      ))
        × ((k : String)
            → (contains k (map (λ s. s.id) (matching J R type event now m)) ≡ true)
              ↔ ((s : Subscription) × (find k m.subscriptions ≡ some s) × IsMatch type event now s))
  unfolding notify_event
  notify_event-exact type event now o m once named e h = (
    all_sent event now (matching J R type event now m) o m e h,
    λ k.
        let selected = matching-selected type event now m once named k in
        let iff = holds_iff (is_matching J R type event now) (find k m.subscriptions) in
        (
          λ g.
              let (s, f, t) = iff.0 (sym selected ∙ g) in
              (s, f, (is_matching_iff type event now s).0 t),
          λ (s, f, t). selected ∙ iff.1 (s, f, (is_matching_iff type event now s).1 t),
        ),
  )
