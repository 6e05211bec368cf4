-- ===== src/Rest.antt =====
-- The conversion between HTTP and messages in af_core/src/rest_router.cpp, the routing of messages in
-- af_core/src/request_router.cpp, and the endpoints of af_core/src/qod/qod_rest_adapter.cpp.
pub mod Status
use Prim.Native.String.{◌++◌}
use phine_af.Prelude.{
  ℕ, String, Bool, true, false, ◌||◌, ◌==◌, Option, none, some, List, [], ◌∷◌, each, is_empty,
  is_some, if◌then◌else◌,
}
use phine_af.Map.{Map, empty, find, put}
use phine_af.Int.{ℤ, pos}
use phine_af.Decimal.{stoi}
use phine_af.Outcome.{Outcome, Method, returns, throws, undefined, and_use, continue, lift, ◌>>=◌}
use phine_af.Json.{Message}

-- `HttpRequest` and `HttpServerResponse` of the `common` submodule.
pub record HttpRequest : Type 0 where
  pub method : String
  pub path : String
  pub headers : Map String
  pub body : String

pub record HttpServerResponse : Type 0 where
  pub status_code : ℤ
  pub body : String
  pub headers : Map String

-- The libraries: `tolower` on a text, the path and the decoded query parameters of a relative
-- reference, the groups that a path has for a pattern and the names in the pattern, and the
-- decoding of a group, which throws for a text that is not percent-encoded.
pub record UrlLib : Type 0 where
  pub lowercase : String → String
  pub parse_relative_ref : String → Option (String × List (String × String))
  pub match_groups : String → String → Option (List String)
  pub names_of : String → List String
  pub decode : String → Outcome String

abbrev pub put_entry : String × String → Map String → Map String
put_entry e = put e.0 e.1

-- A header that is there and not empty.
abbrev filled : Option String → Option String
filled none = none
filled (some s) = if is_empty s then none else some s

abbrev first_filled : Option String → Option String → String → String
first_filled (some s) b generated = s
first_filled none (some s) generated = s
first_filled none none generated = generated

unfoldable pub get_correlation_id : String → HttpRequest → String
get_correlation_id generated r =
    first_filled (filled (find "x-correlator" r.headers)) (filled (find "X-Correlator" r.headers))
      generated

module _ (U : UrlLib) where
  abbrev pair_up : List String → List String → Map String → Outcome (Map String)
  pair_up [] groups m = returns m
  pair_up (n ∷ names) [] m = returns m
  pair_up (n ∷ names) (g ∷ groups) m = and_use (U.decode g) (λ s. pair_up names groups (put n s m))

  unfoldable pub extract_path_params : String → String → Outcome (Map String)
  extract_path_params pattern_ path = elim (U.match_groups pattern_ path) [
    | none ↦ returns empty
    | some groups ↦ pair_up (U.names_of pattern_) groups empty
  ]

  unfoldable pub extract_query_params : String → Map String
  extract_query_params path = elim (U.parse_relative_ref path) [
    | none ↦ empty
    | some r ↦ each (λ e. put ("query." ++ e.0) e.1) r.1 empty
  ]

  abbrev path_only : String → String
  path_only path = elim (U.parse_relative_ref path) [ none ↦ path | some r ↦ r.0 ]

  unfoldable pub path_metadata : String → String → Map String → Outcome (Map String)
  unfolding extract_path_params
  path_metadata pattern_ path m =
      if is_empty pattern_
      then returns m
      else and_use (extract_path_params pattern_ (path_only path))
          (λ params. returns (each put_entry params.entries m))

  unfoldable pub http_request_to_message : String → HttpRequest → String → String → Outcome Message
  unfolding get_correlation_id path_metadata extract_query_params
  http_request_to_message generated r type pattern_ =
      and_use
        (path_metadata pattern_ r.path
          (each (λ e. put (U.lowercase e.0) e.1) r.headers.entries empty))
        (λ m. returns (record {
          message_type = type;
          correlation_id = get_correlation_id generated r;
          payload = r.body;
          metadata =
              put "http_path" r.path (
                put "http_method" r.method
                  (each put_entry (extract_query_params r.path).entries m));
        }))

unfoldable pub is_internal : String → Bool
is_internal k = (k == "status") || ((k == "http_method") || (k == "http_path"))

abbrev pub header : String × String → Map String → Map String
header e m = if is_internal e.0 then m else put e.0 e.1 m

abbrev pub with_type : Map String → Map String
with_type m = if is_some (find "content-type" m) then m else put "content-type" "application/json" m

abbrev number_or : ℤ → Option ℤ → ℤ
number_or n none = n
number_or n (some k) = k

abbrev status_of : Option String → ℤ
status_of none = pos 200
status_of (some s) = number_or (pos 200) (stoi s)

abbrev internal_error : String → HttpServerResponse
internal_error body = record {
  status_code = pos 500;
  body = body;
  headers = put "content-type" "application/json" empty;
}

abbrev pub with_correlator : String → Map String → Map String
with_correlator c m = if is_empty c then m else put "x-correlator" c m

-- A null pointer is an internal error.
unfoldable pub message_to_http_response : Option Message → HttpServerResponse
unfolding is_internal
message_to_http_response none = internal_error "{\"error\": \"Internal server error\"}"
message_to_http_response (some a) = record {
  status_code = status_of (find "status" a.metadata);
  body = a.payload;
  headers = with_correlator a.correlation_id (with_type (each header a.metadata.entries empty));
}

-- A handler of messages on a state, which may answer with a null pointer.
abbrev pub Handler : Type 0 → Type 0
Handler S = Message → Method S (Option Message)

module _ {S : Type 0} where
  -- A null handler is refused.
  unfoldable pub register_handler : String → Option (Handler S) → Map (Handler S) → Map (Handler S)
  register_handler type none m = m
  register_handler type (some f) m = put type f m

  unfoldable pub default_handler : Handler S
  default_handler message s = (
    returns (
        some (record {
          message_type = "error.unhandled_message_type";
          correlation_id = message.correlation_id;
          payload = "No handler registered for message type: " ++ message.message_type;
          metadata = empty;
        })),
    s,
  )

  unfoldable pub route_message : Map (Handler S) → Option Message → Method S (Option Message)
  unfolding default_handler
  route_message handlers none s = (returns none, s)
  route_message handlers (some message) s = elim (find message.message_type handlers) [
    | some f ↦ f message s
    | none ↦ default_handler message s
  ]

  abbrev adapted : Option Message → Method S HttpServerResponse
  adapted none s = (returns (internal_error "{\"error\": \"Handler returned no response\"}"), s)
  adapted (some a) s = (returns (message_to_http_response (some a)), s)

  -- The endpoint for a type of messages and a pattern of paths.
  unfoldable pub endpoint :
      UrlLib
      → Map (Handler S)
      → String
      → String
      → String
      → HttpRequest
      → Method S HttpServerResponse
  unfolding http_request_to_message route_message message_to_http_response
  endpoint U handlers generated type pattern_ r =
      lift (http_request_to_message U generated r type pattern_)
      >>= (λ message. route_message handlers (some message) >>= adapted)
