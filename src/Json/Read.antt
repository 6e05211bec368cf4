-- ===== src/Json/Read.antt =====
-- How the managers read the optional fields of a JSON object: `if (j.contains(k)) v = j[k];`.
use phine_af.Prelude.{String, none, some, [], ◌∷◌, each, is_empty, if◌then◌else◌}
use phine_af.Map.{Map, put, find}
use phine_af.Int.{ℤ}
use phine_af.Outcome.{Outcome, returns, throws}
use phine_af.Json.{JsonLib, JsonReader, JsonItems, Message, object, dumped}

-- `metadata.count(k) ? metadata.at(k) : d`.
abbrev pub metadata_or : String → String → Message → String
metadata_or k d message = elim (find k message.metadata) [ none ↦ d | some v ↦ v ]

module _ (J : JsonLib) (R : JsonReader J) where
  open J use {Json, field}
  open R use {contains, as_text, as_integer}

  abbrev pub read_text : String → String → Json → Outcome String
  read_text k d j = if contains k j then as_text (field k j) else returns d

  abbrev pub read_integer : String → ℤ → Json → Outcome ℤ
  read_integer k d j = if contains k j then as_integer (field k j) else returns d

  -- A field that must be there.
  abbrev pub require_text : String → String → Json → Outcome String
  require_text k message j = if contains k j then as_text (field k j) else throws message

module _ (J : JsonLib) (I : JsonItems J) where
  -- A text as it is, any other value as it is dumped.
  abbrev pub shown : J.Json → String
  shown v = elim (I.string_of v) [ none ↦ dumped J v | some s ↦ s ]

  abbrev pub put_shown : String × J.Json → Map String → Map String
  put_shown e = put e.0 (shown e.1)

-- The entries of an object, if there is one under the key, put into a map.
abbrev pub read_params :
    (J : JsonLib) → JsonReader J → JsonItems J → String → J.Json → Map String → Map String
read_params J R I k j m =
    if R.contains k j
    then elim (I.items (J.field k j)) [ none ↦ m | some l ↦ each (put_shown J I) l m ]
    else m

-- `{{"error", kind}, {"message", text}}`, dumped.
abbrev pub error_payload : (J : JsonLib) → String → String → String
error_payload J kind message =
    dumped J (object J (("message", J.text message) ∷ ("error", J.text kind) ∷ []))

-- The same for the text of an exception, which may have bytes of the payload.
abbrev pub caught_payload : (J : JsonLib) → String → Outcome String
caught_payload J e =
    J.dump (object J (("message", J.text e) ∷ ("error", J.text "bad_request") ∷ []))

-- A field for a text that is not empty.
abbrev pub set_filled : (J : JsonLib) → String → String → J.Json → J.Json
set_filled J k s j = if is_empty s then j else J.set k (J.text s) j
