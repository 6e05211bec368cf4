-- ===== src/Tests/Trees.antt =====
-- Trees for the values of the JSON library.
use phine_af.Prelude.{
  String, Bool, true, false, Option, none, some, List, [], ◌∷◌, ◌==◌, if◌then◌else◌,
}
use phine_af.Int.{ℤ, pos}
use phine_af.Outcome.{Outcome, returns, throws}
use phine_af.Json.{JsonLib, JsonReader, JsonItems}

-- An object is a chain of entries, and an array one of items.
pub data Tree : Type 0 where
  nothing : Tree
  word : String → Tree
  whole : ℤ → Tree
  entry : String → Tree → Tree → Tree
  item : Tree → Tree → Tree
  last : Tree

unfoldable pub has_field : String → Tree → Bool
has_field k (entry j v rest) = let more = has_field k rest in if j == k then true else more
has_field k _ = false

unfoldable pub get_field : String → Tree → Tree
get_field k (entry j v rest) = let more = get_field k rest in if j == k then v else more
get_field k _ = nothing

unfoldable pub all_items : List Tree → Tree
all_items [] = last
all_items (t ∷ l) = item t (all_items l)

unfoldable pub items_of : Tree → Option (List Tree)
items_of last = some []
items_of (item t rest) = elim (items_of rest) [ none ↦ none | some l ↦ some (t ∷ l) ]
items_of _ = none

abbrev pub read_word : Tree → Outcome String
read_word (word s) = returns s
read_word _ = throws "type_error"

abbrev pub read_whole : Tree → Outcome ℤ
read_whole (whole n) = returns n
read_whole _ = throws "type_error"

abbrev pub shown : Tree → String
shown (word s) = s
shown _ = "{}"

abbrev pub text_of : Tree → Option String
text_of (word s) = some s
text_of _ = none

unfoldable pub entries_of : Tree → Option (List (String × Tree))
entries_of (entry k v nothing) = some ((k, v) ∷ [])
entries_of (entry k v rest) = elim (entries_of rest) [ none ↦ none | some l ↦ some ((k, v) ∷ l) ]
entries_of _ = none

-- The library with a parser of the payloads that a test has; a text is dumped as it is.
abbrev pub trees_of : (String → Outcome Tree) → JsonLib
trees_of parser = record {
  Json = Tree;
  parse = parser;
  dump = λ j. returns (shown j);
  null = nothing;
  text = word;
  number = λ n. whole (pos n);
  array = all_items;
  field = get_field;
  set = entry;
  text_or = λ k d j. returns d;
  number_or = λ k d j. returns d;
}

abbrev pub reader_of : (parser : String → Outcome Tree) → JsonReader (trees_of parser)
reader_of parser = record {
  contains = has_field;
  elements = items_of;
  integer = whole;
  as_text = read_word;
  as_integer = read_whole;
}

abbrev pub items_in : (parser : String → Outcome Tree) → JsonItems (trees_of parser)
items_in parser = record {
  items = entries_of;
  string_of = text_of;
  boolean = λ b. if b then word "true" else word "false";
}
