-- ===== src/Lib.antt =====
-- A model of the application function's core (af_core) and its PCC rules, and what holds of them.
--
-- Parts and files. `Ue` models the UE states: the identifier keys (af_core/src/models/ue_key.cpp
-- and the class `UeKey` of af_core/include/models/ue_state.h) in Ue/Key.antt with their format
-- checks in Ue/Key/Format.antt, the state of a UE (the rest of af_core/include/models/ue_state.h)
-- in Ue/Data.antt and Ue/State.antt, and the manager (af_core/src/ue_state_manager.cpp,
-- af_core/include/ue_state_manager.h) in Ue/Manager.antt (members, mutex, index helpers),
-- Ue/Core.antt (update, creation, promotion, merge, removal), Ue/Search.antt, Ue/Update.antt
-- (granular updates, cleanup) and Ue/PduSession.antt (PDU sessions and the QoD sessions on them).
-- `Qod` models the quality-on-demand sessions: the types of the `common` submodule that they use
-- in Qod/Types.antt, the default profiles and durations in Qod/Profiles.antt, the session store
-- (af_core/src/qod/qod_state_manager.cpp) in Qod/Store.antt and the session manager
-- (af_core/src/qod/qod_session_manager.cpp) in Qod/Requests.antt, Qod/Sessions.antt, for the
-- answers of the PCF and what they write to the UE states in Qod/Pcf.antt, for the requests to the
-- PCF in Qod/Pcf/Request.antt, for the flow filters in Qod/Pcf/Filters.antt, for the exchange of
-- messages in Qod/Pcf/Exchange.antt, for the end of a PCF session in Qod/Pcf/Termination.antt, and
-- for the creation and the deletion of sessions in Qod/Lifecycle.antt and Qod/Lifecycle/Ue.antt
-- (the UE states that they read and write). What the session store promises, without its maps and
-- its index, is the abstract store of Qod/Store/Abstract.antt. The notification manager
-- (af_core/src/qod/qod_notification_manager.cpp) is in Qod/Notifications.antt (queues,
-- statistics), Qod/Notifications/Client.antt (checks, client) and Qod/Notifications/Worker.antt
-- (worker threads, delivery). The functions keep their names. The UE state manager publishes the
-- end of a PDU session; the session manager handles that event on the store, and hands its
-- notifications to a delivery, of which the notification manager is one. The REST handler of the
-- sessions (af_core/src/qod/qod_handler.cpp) is in Qod/Handler.antt (validation),
-- Qod/Handler/Parse.antt and Qod/Handler/Read.antt (reading of requests), Qod/Handler/Show.antt
-- (JSON of sessions) and Qod/Handler/Handle.antt (the five handlers). Rest.antt has the conversion
-- between HTTP and messages (af_core/src/rest_router.cpp), the routing of messages
-- (af_core/src/request_router.cpp) and the endpoint of af_core/src/qod/qod_rest_adapter.cpp that
-- joins them. `Pcc` models the rules of the class PccRuleManager
-- (southbound/pcf_handler/src/pcc_rule_manager.cpp): the rule and its validation in Pcc.antt, the
-- format of the PCF in Pcc/Format.antt and the creation in Pcc/Create.antt. `Subscriptions` models
-- the class SubscriptionManager (af_core/src/subscription_manager.cpp): the creation in
-- Subscriptions.antt, listing, reading, deletion and cleanup in Subscriptions/Access.antt and the
-- notifications in Subscriptions/Notify.antt. `Policies` models the class PolicyManager
-- (af_core/src/policy_manager.cpp): the policy, its fields and its validation in Policies.antt,
-- the exchange with the PCF handler in Policies/Apply.antt, and the operations and requests in
-- Policies/Manager.antt. Both reach the services that the orchestrator holds (Services.antt) and
-- read optional fields in the same way (Json/Read.antt). Prelude.antt, All.antt, Map.antt
-- (unordered maps), Outcome.antt (returns, exceptions, undefined behaviour), Json.antt (the JSON
-- library), Int.antt, Decimal.antt (numbers as texts) and Regex.antt are shared. The files below
-- Tests hold runs at concrete inputs.
--
-- Conventions. A method is a function of the object's state to an outcome and the new state, which
-- is kept when an exception is thrown. `undefined` is behaviour that the standard leaves
-- undefined: a mutex locked again by its owner, `*` of an empty optional, a call through a null
-- pointer. The owner of `rw_mtx_` is tracked; each method of the session store locks once and
-- calls nothing that locks again, so its mutexes are left out. The time of a call is an argument.
-- A map is a list of entries whose order stands for the order of iteration, which is left open;
-- sets are lists without repetition. Numbers are natural where the code has durations, time points
-- and ports, which are never negative in it; the numbers of a PCC rule and of a policy and the
-- expiry of a subscription, which a request gives, are integers. A loop that reads the clock for
-- each element reads it once. Every loop runs over a list or a count; the digits of a number take
-- its successor as fuel, which is more than it has digits. A pass of a worker thread's loop is two
-- steps, since the queues are unlocked while a notification is sent; steps of several threads come
-- in any order. The opaque types of the submodule are the parameter `Common` (Ue/Common.antt) and
-- the credential type of a sink, which the REST handler fixes. The JSON library, the answers of
-- the PCF and the HTTP client are parameters too: `JsonLib` with its readers, `Answer`,
-- `CommunicationService` and `HttpClient`; `EventLib` has the events and the credentials;
-- `HandlerLib` has the helpers for requests and responses of the submodule and the conversions of
-- times, `UrlLib` the parsing of URLs and the patterns of paths. The random digits of an
-- identifier and the jitter of a retry are arguments; a priority queue is a list in the order of
-- its times. `dump` of the JSON library throws for a text that is not UTF-8: the texts of a parsed
-- value and the metadata of a message are taken to be UTF-8, so that only the dump of the text of
-- an exception, which may quote the bytes of a payload, is taken to throw.
--
-- Not modelled: logging; the threads themselves, whose passes are functions; the event dispatcher,
-- the orchestrator, the demonstration adapter and the handlers of the PCF, which are separate
-- parts of the program; and the indices by MAC address and by PDU session of the UE state manager,
-- which no method reads or writes.
pub mod Prelude
pub mod Map
pub mod Outcome
pub mod Regex
pub mod All
pub mod Decimal
pub mod Int
pub mod Json
pub mod Services
pub mod Rest
pub mod Subscriptions
pub mod Policies
pub mod Ue
pub mod Qod
pub mod Pcc
pub mod Tests
