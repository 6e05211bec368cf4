-- ===== src/Tests/Handlers.antt =====
-- Requests of the QoD API at concrete inputs.
use phine_af.Prelude.{ℕ, String, ◌≡◌, refl, Bool, true, false, none, some, ◌==◌, if◌then◌else◌}
use phine_af.Map.{empty, put, find, value_at, replace}
use phine_af.Int.{pos}
use phine_af.Outcome.{Outcome, returns, throws}
use phine_af.Json.{JsonLib, JsonReader, JsonItems, Message, Answer}
use phine_af.Json.Read.{metadata_or}
use phine_af.Qod.Types.{QosProfileMapping}
use phine_af.Qod.Store.{init, add_session}
use phine_af.Qod.Handler.{HandlerLib, QodRequestContext, SinkCredential, other}
use phine_af.Qod.Handler.Read.{done, read_create_request}
use phine_af.Qod.Handler.Handle.{
  Manager, extract_session_id, handle_create_session, handle_get_session, handle_delete_session,
  handle_extend_session, handle_retrieve_sessions,
}
use phine_af.Qod.Handler.Handle.Answers.{IsAnswered, handlers-answer}
use phine_af.Qod.Handler.Handle.Access.{
  CreatesAcceptable, handle_create-acceptable, foreign-unreached,
}
use phine_af.Map.Unique.{IsUnique, put-IsUnique, empty-IsUnique}
use phine_af.Qod.Lifecycle.{delete_session}
use phine_af.Rest.{message_to_http_response}
use phine_af.Rest.Status.{headers-exact, deleted-status, public_of}
use phine_af.Tests.{plain}
use phine_af.Tests.Qods.{running_of, waiting_of, manager_of}
use phine_af.Tests.Trees.{
  Tree, nothing, word, whole, entry, has_field, get_field, trees_of, reader_of, items_in,
}

-- A request for a video session without a device.
abbrev video : Tree
video =
    entry "applicationServer" (entry "ipv4Address" (word "198.51.100.1") nothing)
      (entry "qosProfile" (word "QOS_E") (entry "duration" (whole (pos 600)) nothing))

abbrev parser : String → Outcome Tree
parser s = if s == "video" then returns video else throws "syntax"

abbrev trees : JsonLib
trees = trees_of parser

abbrev reader : JsonReader trees
reader = reader_of parser

abbrev items : JsonItems trees
items = items_in parser

abbrev is_nothing : Tree → Bool
is_nothing nothing = true
is_nothing _ = false

abbrev port_of : Tree → Outcome ℕ
port_of (whole (pos n)) = returns n
port_of _ = throws "type_error"

-- The consumer is in the metadata, and the authentication is 3-legged.
abbrev context_of : Message → QodRequestContext
context_of message = record {
  api_consumer_id = metadata_or "consumer" "" message;
  correlation_id = message.correlation_id;
  is_three_legged = true;
  device_from_token = none;
}

abbrev library : HandlerLib trees
library = record {
  extract_context = λ message. returns (context_of message);
  extract_path_param = λ message k. returns (metadata_or k "" message);
  create_error_response = λ status code text correlation. returns (record {
    message_type = code;
    correlation_id = correlation;
    payload = text;
    metadata = empty;
  });
  create_success_response = λ body status correlation. returns (record {
    message_type = "success";
    correlation_id = correlation;
    payload = "";
    metadata = empty;
  });
  invalid_argument = "INVALID_ARGUMENT";
  out_of_range = "OUT_OF_RANGE";
  not_found = "NOT_FOUND";
  missing_identifier = "MISSING_IDENTIFIER";
  unnecessary_identifier = "UNNECESSARY_IDENTIFIER";
  invalid_sink = "INVALID_SINK";
  is_server_empty = λ server. false;
  status_text = λ status. "";
  info_text = λ info. "";
  default_credential = record {
    credential_type = other;
    access_token_text = none;
    access_token_expires_utc = none;
    access_token_type = "";
    identifier = "";
    secret = "";
    refresh_token_text = "";
    refresh_token_endpoint = "";
  };
  is_null = is_nothing;
  as_port = port_of;
  time_of = λ s. 0;
  iso_time = λ t. "";
}

abbrev asking : String → Message
asking consumer = record {
  message_type = "qod_request";
  correlation_id = "request-1";
  payload = "video";
  metadata = put "consumer" consumer (put "sessionId" "qod-2" empty);
}

abbrev holding : Manager plain
holding = manager_of (add_session (running_of SinkCredential) init)

abbrev silent : Answer
silent destination message = returns none

abbrev serialize : QosProfileMapping → Tree
serialize mapping = nothing

handlers-answer_example :
    IsAnswered trees reader items library
      (asking "shop")
      (handle_create_session trees reader items library serialize silent
        (λ n. "0")
        900
        (asking "shop")
        holding).0
    × IsAnswered trees reader items library
        (asking "shop")
        (handle_get_session trees reader items library (asking "shop") holding).0
    × IsAnswered trees reader items library
        (asking "shop")
        (handle_delete_session trees reader items library silent 900 (asking "shop") holding).0
    × IsAnswered trees reader items library
        (asking "shop")
        (handle_extend_session trees reader items library (asking "shop") holding).0
    × IsAnswered trees reader items library
        (asking "shop")
        (handle_retrieve_sessions trees reader items library (asking "shop") holding).0
handlers-answer_example =
    handlers-answer trees reader items library serialize silent (λ n. "0") 900 (asking "shop")
      holding

-- The request is read without a device, ports or a sink.
video-read :
    read_create_request trees reader items library (context_of (asking "shop")) 900 video
    ≡ done (record {
      api_consumer_id = "shop";
      device = none;
      application_server = record { ipv4_address = some "198.51.100.1"; ipv6_address = none };
      device_ports = none;
      application_server_ports = none;
      qos_profile = "QOS_E";
      duration = 600;
      sink = none;
      sink_credential = none;
    })
unfolding read_create_request has_field get_field find put empty value_at replace
video-read = refl

handle_create-acceptable_example :
    CreatesAcceptable trees reader items library serialize silent
      (λ n. "0")
      900
      (asking "shop")
      holding
      (handle_create_session trees reader items library serialize silent
        (λ n. "0")
        900
        (asking "shop")
        holding).1
handle_create-acceptable_example =
    handle_create-acceptable trees reader items library serialize silent (λ n. "0") 900
      (asking "shop") holding

foreign-unreached_example :
    (handle_get_session trees reader items library (asking "farm") holding ≡ (
      returns (record {
        message_type = "NOT_FOUND";
        correlation_id = "request-1";
        payload = "Session not found";
        metadata = empty;
      }),
      holding,
    ))
    × (handle_delete_session trees reader items library silent 900 (asking "farm") holding ≡ (
      returns (record {
        message_type = "NOT_FOUND";
        correlation_id = "request-1";
        payload = "Session deletion failed";
        metadata = empty;
      }),
      holding,
    ))
    × ((handle_extend_session trees reader items library (asking "farm") holding).1 ≡ holding)
unfolding extract_session_id find put empty value_at replace init add_session
foreign-unreached_example =
    foreign-unreached trees reader items library silent 900 (asking "farm")
      (context_of (asking "farm")) "qod-2" (running_of SinkCredential) holding refl refl refl refl
      refl

-- A session that has not started, and the request to delete it.
abbrev pending : Manager plain
pending = manager_of (add_session (waiting_of SinkCredential) init)

abbrev deleting : Message
deleting = record (asking "shop") {
  metadata = put "consumer" "shop" (put "sessionId" "qod-1" empty);
}

deletes : (delete_session trees silent "qod-1" "shop" 900 pending).0 ≡ returns true
unfolding delete_session init add_session find put empty value_at replace
deletes = refl

deleted-status_example :
    (a : Message) × ((handle_delete_session trees reader items library silent 900 deleting
        pending).0
      ≡ returns a)
    × (find "http_status" a.metadata ≡ some "204")
    × ((message_to_http_response (some a)).status_code ≡ pos 200)
unfolding extract_session_id find put empty value_at replace
deleted-status_example =
    deleted-status trees reader items library silent 900 deleting (context_of deleting) "qod-1"
      pending refl refl refl deletes

asking-IsUnique : IsUnique (asking "shop").metadata
asking-IsUnique =
    put-IsUnique "consumer" "shop" _ (put-IsUnique "sessionId" "qod-2" _ empty-IsUnique)

headers-exact_example :
    find "sessionId" (message_to_http_response (some (asking "shop"))).headers
    ≡ public_of "sessionId" (find "sessionId" (asking "shop").metadata)
headers-exact_example = headers-exact (asking "shop") "sessionId" asking-IsUnique refl refl
