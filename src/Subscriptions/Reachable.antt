-- ===== src/Subscriptions/Reachable.antt =====
-- Histories of calls of the subscription manager, af_core/src/subscription_manager.cpp, from a new
-- one, and what holds of the subscriptions after them.
use phine_af.Prelude.{
  ℕ, String, ◌≡◌, refl, sym, ◌∙◌, inl, inr, Option, none, some, List, [], ◌∷◌, is_empty, each,
  Bool-cases, subst,
}
use phine_af.Map.{empty}
use phine_af.Int.{ℤ}
use phine_af.Outcome.{Outcome, returns, throws, undefined, Outcome-cases}
use phine_af.Json.{JsonLib, JsonReader, JsonItems, Message}
use phine_af.Services.{CommunicationService, AfOrchestrator}
use phine_af.Subscriptions.{Subscription, SubscriptionManager, requested, create_subscription}
use phine_af.Subscriptions.Access.{
  cleanup_expired_subscriptions, delete_subscription, get_found, get_subscription,
  get_all_subscriptions, read_target,
}
use phine_af.Subscriptions.Notify.{
  send_to, send_callback, send_notification, send_all, counted, notify_event, matching,
}
use phine_af.Subscriptions.Stored.{
  IsSound, empty-IsSound, cleanup-IsSound, requested-IsStored, store-IsSound, delete_found-IsSound,
}

abbrev pub new_manager : Option AfOrchestrator → SubscriptionManager
new_manager o = record { orchestrator = o; subscriptions = empty; sent = [] }

module _ (J : JsonLib) (R : JsonReader J) (I : JsonItems J) where
  get_found-same :
      (iso : ℤ → String) (message : Message) (o : Outcome (String × String))
      (m : SubscriptionManager)
      → (get_found J R I iso message o m).1 ≡ m
  unfolding get_found
  get_found-same iso message (returns (i, client)) m = refl
  get_found-same iso message (throws e) m = refl
  get_found-same iso message undefined m = refl

  send_to-same :
      (callback : String) (message : Message) (o : Option (Option CommunicationService))
      (m : SubscriptionManager)
      → (send_to callback message o m).1.subscriptions ≡ m.subscriptions
  unfolding send_to
  send_to-same callback message none m = refl
  send_to-same callback message (some none) m = refl
  send_to-same callback message (some (some service)) m = refl

  send_callback-same :
      (event : J.Json) (now : ℕ) (s : Subscription) (o : Option AfOrchestrator)
      (m : SubscriptionManager)
      → (send_callback J R event now s o m).1.subscriptions ≡ m.subscriptions
  unfolding send_callback
  send_callback-same event now s none m = refl
  send_callback-same event now s (some o) m = send_to-same _ _ _ m

  send-same :
      (event : J.Json) (now : ℕ) (s : Subscription) (m : SubscriptionManager)
      → (send_notification J R event now s m).1.subscriptions ≡ m.subscriptions
  unfolding send_notification
  send-same event now s m = elim (Bool-cases (is_empty s.callback_service)) [
    | inl e ↦ rw e refl
    | inr e ↦ rw e (send_callback-same event now s m.orchestrator m)
  ]

  send_all-same :
      (event : J.Json) (now : ℕ) (l : List Subscription) (m : SubscriptionManager)
      → (send_all J R event now l m).1.subscriptions ≡ m.subscriptions
  unfolding send_all counted
  send_all-same event now [] m = refl
  send_all-same event now (s ∷ l) m =
      let first = send_notification J R event now s m in
      let same = send_all-same event now l first.1 ∙ send-same event now s m in
      elim (Outcome-cases first.0) [
        | inl (b, e) ↦ elim (Outcome-cases (send_all J R event now l first.1).0) [
          | inl (n, f) ↦ rw (e, f) same
          | inr (inl (x, f)) ↦ rw (e, f) same
          | inr (inr f) ↦ rw (e, f) same
        ]
        | inr (inl (x, e)) ↦ rw e (send-same event now s m)
        | inr (inr e) ↦ rw e (send-same event now s m)
      ]

  -- The calls, with the identifier that is generated and the time at which they are made.
  pub data Call : Type 0 where
    create : (ℤ → String) → String → ℕ → Message → Call
    list : (ℤ → String) → Message → Call
    get : (ℤ → String) → Message → Call
    delete : Message → Call
    notify : String → J.Json → ℕ → Call
    cleanup : ℕ → Call

  -- The manager after a call, however the call ends.
  unfoldable pub run_call : Call → SubscriptionManager → SubscriptionManager
  run_call (create iso generated now message) m =
      (create_subscription J R I iso generated now message m).1
  run_call (list iso message) m = (get_all_subscriptions J R I iso message m).1
  run_call (get iso message) m = (get_subscription J R I iso message m).1
  run_call (delete message) m = (delete_subscription J R I message m).1
  run_call (notify type event now) m = (notify_event J R type event now m).1
  run_call (cleanup now) m = (cleanup_expired_subscriptions now m).1

  run_call-IsSound :
      (c : Call) (m : SubscriptionManager)
      → IsSound m.subscriptions
      → IsSound (run_call c m).subscriptions
  unfolding run_call create_subscription get_all_subscriptions get_subscription delete_subscription
      notify_event
  run_call-IsSound (create iso generated now message) m h =
      store-IsSound J R I iso message (requested J R I generated now message) m
        (requested-IsStored J R I generated now message) h
  run_call-IsSound (list iso message) m h = h
  run_call-IsSound (get iso message) m h =
      subst (λ x. IsSound x.subscriptions)
        (sym (get_found-same iso message (read_target J R I message) m)) h
  run_call-IsSound (delete message) m h =
      delete_found-IsSound J R I message (read_target J R I message) m h
  run_call-IsSound (notify type event now) m h =
      subst IsSound (sym (send_all-same event now (matching J R type event now m) m)) h
  run_call-IsSound (cleanup now) m h = cleanup-IsSound now m h

  run-IsSound :
      (calls : List Call) (m : SubscriptionManager)
      → IsSound m.subscriptions
      → IsSound (each run_call calls m).subscriptions
  run-IsSound [] m h = h
  run-IsSound (c ∷ calls) m h = run-IsSound calls (run_call c m) (run_call-IsSound c m h)

  -- After any history of calls on a new manager, whatever they are and however they end, each
  -- subscription stands once and under its own identifier, is active, and passes the validation:
  -- it has an event type, and a URL or a callback service.
  pub subscriptions-IsSound :
      (calls : List Call) (o : Option AfOrchestrator)
      → IsSound (each run_call calls (new_manager o)).subscriptions
  subscriptions-IsSound calls o = run-IsSound calls (new_manager o) empty-IsSound
