-- ===== src/Tests/Subscriptions.antt =====
-- Subscriptions at concrete inputs.
use phine_af.Prelude.{
  String, ◌≡◌, ◌↔◌, refl, inr, true, false, none, some, [], ◌∷◌, ◌==◌, ◌+◌, each, length, contains,
  All, if◌then◌else◌,
}
use phine_af.Map.{find, put, empty, value_at, replace}
use phine_af.Map.Unique.{IsUnique}
use phine_af.Int.{ℤ, pos}
use phine_af.Outcome.{Outcome, returns, throws}
use phine_af.Json.{JsonLib, JsonReader, JsonItems, Message}
use phine_af.Services.{CommunicationService, AfOrchestrator}
use phine_af.Subscriptions.{
  Subscription, SubscriptionManager, validate_subscription, requested, created, create_subscription,
}
use phine_af.Subscriptions.Access.{
  is_foreign, unauthorized, read_target, get_subscription, delete_subscription, listed_for,
  cleanup_expired_subscriptions,
}
use phine_af.Subscriptions.Access.Owner.{
  left_by, left_after, foreign-refused, delete_subscription-exact, cleanup_expired-exact,
}
use phine_af.Subscriptions.Notify.{matching, is_matching, notify_event}
use phine_af.Subscriptions.Notify.Exact.{IsDeliverable, IsMatch, log, messages, notify_event-exact}
use phine_af.Subscriptions.Stored.{IsSound, put-IsSound, empty-IsSound}
use phine_af.Subscriptions.Reachable.{
  create, delete, cleanup, run_call, new_manager, subscriptions-IsSound,
}
use phine_af.Subscriptions.Creation.{details, created-found}
use phine_af.Tests.Trees.{
  Tree, nothing, word, entry, has_field, get_field, entries_of, trees_of, reader_of, items_in,
}

-- A subscription of a camera to lost sessions, and requests for it by the camera and by another.
abbrev wanted : Tree
wanted = entry "client_id" (word "camera") (
    entry "event_type" (word "session_lost") (
      entry "callback_service" (word "hooks")
        (entry "filter_criteria" (entry "cell" (word "7") nothing) nothing)))

abbrev by_camera : Tree
by_camera = entry "id" (word "sub-1") (entry "client_id" (word "camera") nothing)

abbrev by_other : Tree
by_other = entry "id" (word "sub-1") (entry "client_id" (word "meter") nothing)

abbrev parser : String → Outcome Tree
parser s =
    if s == "wanted"
    then returns wanted
    else if s == "by_camera"
    then returns by_camera
    else if s == "by_other"
    then returns by_other
    else throws "syntax"

abbrev trees : JsonLib
trees = trees_of parser

abbrev reader : JsonReader trees
reader = reader_of parser

abbrev items : JsonItems trees
items = items_in parser

abbrev iso : ℤ → String
iso time = "2025-01-01T00:00:00Z"

abbrev asking : String → Message
asking payload = record {
  message_type = "subscription_request";
  correlation_id = "request-1";
  payload = payload;
  metadata = empty;
}

abbrev hooks : CommunicationService
hooks = record { send_request = λ d message. returns none; send_async = λ d message. returns tt }

abbrev connected : AfOrchestrator
connected = record {
  communication_services = put "hooks" (some hooks) empty;
  pcf_destination = "pcf_handler:50055";
}

abbrev first : Subscription
first = record {
  id = "sub-1";
  client_id = "camera";
  event_type = "session_lost";
  notification_url = "";
  filter_criteria = put "cell" "7" empty;
  expiry_time = pos 3700;
  active = true;
  callback_service = "hooks";
}

abbrev fresh : SubscriptionManager
fresh = new_manager (some connected)

abbrev holding : SubscriptionManager
holding = record fresh { subscriptions = put "sub-1" first empty }

requested-first : requested trees reader items "sub-1" 100 (asking "wanted") ≡ returns first
unfolding requested has_field get_field entries_of empty put replace
requested-first = refl

camera_named : read_target trees reader items (asking "by_camera") ≡ returns ("sub-1", "camera")
unfolding read_target has_field get_field
camera_named = refl

other_named : read_target trees reader items (asking "by_other") ≡ returns ("sub-1", "meter")
unfolding read_target has_field get_field
other_named = refl

first_held : find "sub-1" holding.subscriptions ≡ some first
unfolding find put empty value_at replace
first_held = refl

created-found_example :
    let (answer, after) =
      create_subscription trees reader items iso "sub-1" 100 (asking "wanted") fresh in
    (answer ≡ returns (created trees reader items iso (asking "wanted") first))
    × ((k : String)
        → find k after.subscriptions
          ≡ (if "sub-1" == k then some first else find k fresh.subscriptions))
    × (get_subscription trees reader items iso (asking "by_camera") after ≡ (
      returns (
          phine_af.Subscriptions.respond
            (asking "by_camera")
            "subscription"
            (details trees reader items iso first)),
      after,
    ))
created-found_example =
    created-found trees reader items iso "sub-1" 100 (asking "wanted") (asking "by_camera") "camera"
      first fresh requested-first camera_named refl

foreign-refused_example :
    (get_subscription trees reader items iso (asking "by_other") holding
      ≡ (returns (unauthorized trees reader items (asking "by_other") "access"), holding))
    × (delete_subscription trees reader items (asking "by_other") holding
        ≡ (returns (unauthorized trees reader items (asking "by_other") "delete"), holding))
    × All (λ t. is_foreign "meter" t ≡ false) (listed_for trees reader items "meter" holding)
foreign-refused_example =
    foreign-refused trees reader items iso (asking "by_other") "sub-1" "meter" first holding
      other_named first_held refl

delete_subscription-exact_example :
    find "sub-1"
      (delete_subscription trees reader items (asking "by_camera") holding).1.subscriptions
    ≡ left_after
        (read_target trees reader items (asking "by_camera"))
        "sub-1"
        (find "sub-1" holding.subscriptions)
delete_subscription-exact_example =
    delete_subscription-exact trees reader items (asking "by_camera") "sub-1" holding

sound : IsSound holding.subscriptions
unfolding validate_subscription
sound = put-IsSound first empty (refl, refl, refl) empty-IsSound

first_once : IsUnique holding.subscriptions
first_once = sound.unique

cleanup_expired-exact_example :
    let (count, after) = cleanup_expired_subscriptions 4000 holding in
    (find "sub-1" after.subscriptions ≡ left_by 4000 (find "sub-1" holding.subscriptions))
    × (count + length after.subscriptions.entries ≡ length holding.subscriptions.entries)
cleanup_expired-exact_example = cleanup_expired-exact 4000 "sub-1" holding first_once

abbrev event : Tree
event = entry "cell" (word "7") nothing

named : (k : String) (s : Subscription) → find k holding.subscriptions ≡ some s → s.id ≡ k
named k s e = (sound.stored k s e).0

deliverable : All (IsDeliverable connected) (matching trees reader "session_lost" event 200 holding)
unfolding matching is_matching IsDeliverable find put empty value_at replace has_field get_field
deliverable = (inr (refl, (hooks, refl, λ message. refl)), tt)

notify_event-exact_example :
    (notify_event trees reader "session_lost" event 200 holding
      ≡ (returns 1, each (log trees reader) (messages trees reader event 200 (first ∷ [])) holding))
    × ((k : String)
        → (contains k ("sub-1" ∷ []) ≡ true) ↔ (
            (s : Subscription) × (find k holding.subscriptions ≡ some s)
            × IsMatch trees reader "session_lost" event 200 s))
unfolding matching is_matching find put empty value_at replace has_field get_field
notify_event-exact_example =
    notify_event-exact trees reader "session_lost" event 200 connected holding first_once named refl
      deliverable

subscriptions-IsSound_example :
    IsSound
      (each
        (run_call trees reader items)
        (create iso "sub-1" 100 (asking "wanted") ∷ delete (asking "by_other") ∷ cleanup 200 ∷ [])
        fresh).subscriptions
subscriptions-IsSound_example =
    subscriptions-IsSound trees reader items
      (create iso "sub-1" 100 (asking "wanted") ∷ delete (asking "by_other") ∷ cleanup 200 ∷ [])
      (some connected)
