-- ===== src/Subscriptions/Access.antt =====
-- The subscriptions that a client lists, reads and deletes, in
-- af_core/src/subscription_manager.cpp.
pub mod Owner
use Prim.Native.String.{◌++◌}
use phine_af.Prelude.{
  ℕ, suc, String, Bool, true, false, not, ◌&&◌, ◌==◌, Option, none, some, List, [], ◌∷◌, map, keep,
  is_empty, if◌then◌else◌,
}
use phine_af.Map.{Map, find, erase}
use phine_af.Int.{ℤ, pos, less}
use phine_af.Outcome.{Outcome, Method, returns, throws, undefined, and_use, lift, continue}
use phine_af.Json.{JsonLib, JsonReader, JsonItems, Message, dumped}
use phine_af.Json.Read.{metadata_or, read_text, require_text, error_payload}
use phine_af.Subscriptions.{
  Subscription, SubscriptionManager, respond, read_client, show_subscription, rejected,
}

-- A client that is named, and is not the subscription's.
abbrev pub is_foreign : String → Subscription → Bool
is_foreign client s = not (is_empty client) && not (s.client_id == client)

abbrev pub is_expired : ℕ → Subscription → Bool
is_expired now s = less s.expiry_time (pos now)

-- The entries that the loop leaves, and how many it erases.
unfoldable pub sweep : ℕ → List (String × Subscription) → List (String × Subscription) × ℕ
sweep now [] = ([], 0)
sweep now ((k, s) ∷ l) =
    let rest = sweep now l in
    if is_expired now s then (rest.0, suc rest.1) else ((k, s) ∷ rest.0, rest.1)

unfoldable pub cleanup_expired_subscriptions : ℕ → SubscriptionManager → ℕ × SubscriptionManager
unfolding sweep
cleanup_expired_subscriptions now m =
    let r = sweep now m.subscriptions.entries in
    (r.1, record m { subscriptions = record { entries = r.0 } })

-- `catch (const std::exception&)` around the reading of the client.
abbrev none_on_error : Outcome String → Outcome String
none_on_error (throws e) = returns ""
none_on_error r = r

module _ (J : JsonLib) (R : JsonReader J) (I : JsonItems J) where
  open J use {Json, parse, text, array, set}

  unfoldable pub listing_client : Message → Outcome String
  listing_client message =
      and_use
        (if is_empty message.payload
          then returns ""
          else none_on_error (and_use (parse message.payload) (read_text J R "client_id" "")))
        (λ client.
          returns (if is_empty client then metadata_or "source_service" "" message else client))

  -- The subscriptions that a client lists; all of them if none is named.
  unfoldable pub listed_for : String → SubscriptionManager → List Subscription
  listed_for client m =
      keep (λ s. not (is_foreign client s)) (map (λ e. e.1) m.subscriptions.entries)

  unfoldable pub list_response : (ℤ → String) → Message → List Subscription → Message
  unfolding show_subscription
  list_response iso message l = respond message "subscriptions_list" (
      dumped J (
        array
          (map (λ s. show_subscription J R I iso false s (("active", I.boolean s.active) ∷ [])) l)))

  unfoldable pub get_all_subscriptions : (ℤ → String) → Message → Method SubscriptionManager Message
  unfolding listing_client listed_for list_response
  get_all_subscriptions iso message m = (
    and_use (listing_client message)
        (λ client. returns (list_response iso message (listed_for client m))),
    m,
  )

  -- The identifier and the client that a request names.
  unfoldable pub read_target : Message → Outcome (String × String)
  unfolding read_client
  read_target message = and_use (parse message.payload) (λ j.
      and_use (require_text J R "id" "Missing required field: id" j)
        (λ i. and_use (read_client J R I "" message j) (λ client. returns (i, client))))

  unfoldable pub not_found : Message → String → Message
  not_found message i =
      respond message "subscription_not_found"
        (error_payload J "not_found" ("Subscription not found: " ++ i))

  unfoldable pub unauthorized : Message → String → Message
  unauthorized message action =
      respond message "subscription_unauthorized"
        (error_payload J "unauthorized" ("Not authorized to " ++ (action ++ " this subscription")))

  unfoldable pub shown_to : (ℤ → String) → Message → String → Option Subscription → String → Message
  unfolding not_found unauthorized show_subscription
  shown_to iso message i none client = not_found message i
  shown_to iso message i (some s) client =
      if is_foreign client s
      then unauthorized message "access"
      else respond message "subscription"
          (dumped J (show_subscription J R I iso true s (("active", I.boolean s.active) ∷ [])))

  unfoldable pub get_found :
      (ℤ → String) → Message → Outcome (String × String) → Method SubscriptionManager Message
  unfolding shown_to rejected
  get_found iso message (returns (i, client)) m =
      (returns (shown_to iso message i (find i m.subscriptions) client), m)
  get_found iso message (throws e) m = (rejected J R I message e, m)
  get_found iso message undefined m = (undefined, m)

  unfoldable pub get_subscription : (ℤ → String) → Message → Method SubscriptionManager Message
  unfolding read_target get_found
  get_subscription iso message = get_found iso message (read_target message)

  unfoldable pub deleted : Message → String → Message
  deleted message i =
      respond message "subscription_deleted"
        (dumped J (set "status" (text "deleted") (set "id" (text i) J.null)))

  unfoldable pub delete_from :
      Message → String → String → Option Subscription → Method SubscriptionManager Message
  unfolding not_found unauthorized deleted
  delete_from message i client none m = (returns (not_found message i), m)
  delete_from message i client (some s) m =
      if is_foreign client s
      then (returns (unauthorized message "delete"), m)
      else (returns (deleted message i), record m { subscriptions = erase i m.subscriptions })

  unfoldable pub delete_found :
      Message → Outcome (String × String) → Method SubscriptionManager Message
  unfolding delete_from rejected
  delete_found message (returns (i, client)) m =
      delete_from message i client (find i m.subscriptions) m
  delete_found message (throws e) m = (rejected J R I message e, m)
  delete_found message undefined m = (undefined, m)

  unfoldable pub delete_subscription : Message → Method SubscriptionManager Message
  unfolding read_target delete_found
  delete_subscription message = delete_found message (read_target message)
