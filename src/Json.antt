-- ===== src/Json.antt =====
-- The operations of the JSON library (nlohmann/json) that the sources use, and the messages of
-- common/communication. Both are code of other projects, and parameters here.
pub mod Read
use phine_af.Prelude.{ℕ, String, ◌≡◌, Bool, Option, some, List, [], ◌∷◌, is_some}
use phine_af.Int.{ℤ}
use phine_af.Map.{Map, value_at}
use phine_af.Outcome.{Outcome, returns, throws, undefined}

pub record JsonLib : Type 1 where
  pub Json : Type 0
  -- `json::parse`, and `dump`, which throws for a text that is not UTF-8.
  pub parse : String → Outcome Json
  pub dump : Json → Outcome String
  -- A default-constructed value, and values of texts, numbers and arrays.
  pub null : Json
  pub text : String → Json
  pub number : ℕ → Json
  pub array : List Json → Json
  -- `j[key]`, and `j[key] = value`.
  pub field : String → Json → Json
  pub set : String → Json → Json → Json
  -- `j.value(key, default)`, which throws for a value of another type.
  pub text_or : String → String → Json → Outcome String
  pub number_or : String → ℕ → Json → Outcome ℕ

abbrev or_nothing : Outcome String → String
or_nothing (returns s) = s
or_nothing _ = ""

-- The dump of a value whose texts are UTF-8, as those are that `parse` has read and the identifiers
-- that the program makes: it does not throw.
abbrev pub dumped : (J : JsonLib) → J.Json → String
dumped J j = or_nothing (J.dump j)

-- What the library reads of a value.
pub record JsonReader (J : JsonLib) : Type 0 where
  -- `j.contains(key)`.
  pub contains : String → J.Json → Bool
  -- The elements, of an array.
  pub elements : J.Json → Option (List J.Json)
  -- The value of an `int`, and the conversions to a text and an `int`, which throw.
  pub integer : ℤ → J.Json
  pub as_text : J.Json → Outcome String
  pub as_integer : J.Json → Outcome ℤ

-- What the library reads of objects and of texts: `is_object` with `items`, `is_string` with
-- `get<std::string>`, and a Boolean value.
pub record JsonItems (J : JsonLib) : Type 0 where
  pub items : J.Json → Option (List (String × J.Json))
  pub string_of : J.Json → Option String
  pub boolean : Bool → J.Json

-- The object that assignments of fields make of a null value, the last of them first.
abbrev pub object : (J : JsonLib) → List (String × J.Json) → J.Json
object J [] = J.null
object J ((k, v) ∷ l) = J.set k v (object J l)

-- The documented behaviour of these operations.
pub record JsonLaws (J : JsonLib) (R : JsonReader J) : Type 0 where
  pub contains-object :
      (k : String) (l : List (String × J.Json)) → R.contains k (object J l) ≡ is_some (value_at k l)
  pub field-object :
      (k : String) (l : List (String × J.Json)) (v : J.Json)
      → value_at k l ≡ some v
      → J.field k (object J l) ≡ v
  pub elements-array : (l : List J.Json) → R.elements (J.array l) ≡ some l
  pub as_text-text : (s : String) → R.as_text (J.text s) ≡ returns s
  pub as_integer-integer : (n : ℤ) → R.as_integer (R.integer n) ≡ returns n

-- `af::communication::Message`; the payload's bytes are a text.
pub record Message : Type 0 where
  pub message_type : String
  pub correlation_id : String
  pub payload : String
  pub metadata : Map String

-- What `CommunicationService::send_request` answers to a message for a destination: none for a null
-- pointer.
abbrev pub Answer : Type 0
Answer = String → Message → Outcome (Option Message)
