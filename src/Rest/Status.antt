-- ===== src/Rest/Status.antt =====
-- What a client of the REST interface sees of a message: af_core/src/rest_router.cpp on the answers of
-- af_core/src/qod/qod_handler.cpp.
use phine_af.Prelude.{
  ℕ, String, ◌≡◌, refl, ◌∙◌, subst, true, false, ◌==◌, eq_iff, Option, none, some, List, [], ◌∷◌,
  any, each, is_empty, is_some, arith, Bool-cases, inl, inr, if◌then◌else◌,
}
use phine_af.Map.{Map, empty, find, put, find-put, find-empty, value_at, replace}
use phine_af.Map.Unique.{HasOnce, IsUnique}
use phine_af.Int.{pos}
use phine_af.Outcome.{returns}
use phine_af.Json.{JsonLib, JsonReader, JsonItems, Message, Answer}
use phine_af.Ue.Common.{Common}
use phine_af.Qod.Lifecycle.{delete_session}
use phine_af.Qod.Handler.{HandlerLib, QodRequestContext}
use phine_af.Qod.Handler.Handle.{
  Manager, extract_session_id, handle_delete_session, delete_requested, deleted_response,
  no_content,
}
use phine_af.Rest.{message_to_http_response, is_internal, header, with_type, with_correlator}

-- What the HTTP headers have of the metadata.
abbrev pub public_of : String → Option String → Option String
public_of k o = if any (λ x. k == x) ("status" ∷ "http_method" ∷ "http_path" ∷ []) then none else o

abbrev shown_of : String → Option String → Option String
shown_of k o = if is_internal k then none else o

shown_of-public : (k : String) (o : Option String) → shown_of k o ≡ public_of k o
unfolding is_internal
shown_of-public k o = elim (Bool-cases (k == "status")) [
  | inl e ↦ rw e refl
  | inr e ↦ elim (Bool-cases (k == "http_method")) [
    | inl f ↦ rw (e, f) refl
    | inr f ↦ elim (Bool-cases (k == "http_path")) [
      | inl g ↦ rw (e, f, g) refl
      | inr g ↦ rw (e, f, g) refl
    ]
  ]
]

abbrev or_found : Option String → Option String → Option String
or_found none o = o
or_found (some s) o = some s

find-header :
    (k j w : String) (m : Map String)
    → find k (header (j, w) m)
      ≡ (if j == k then or_found (shown_of j (some w)) (find k m) else find k m)
find-header k j w m = elim (Bool-cases (is_internal j)) [
  | inl e ↦ elim (Bool-cases (j == k)) [ inl f ↦ rw (e, f) refl | inr f ↦ rw (e, f) refl ]
  | inr e ↦ elim (Bool-cases (j == k)) [
    | inl f ↦ rw (e, f, find-put j k w m, f) refl
    | inr f ↦ rw (e, f, find-put j k w m, f) refl
  ]
]

-- The loop over the metadata, whose keys are distinct.
find-headers :
    (k : String) (l : List (String × String)) (m : Map String)
    → HasOnce l
    → find k (each header l m) ≡ or_found (shown_of k (value_at k l)) (find k m)
unfolding HasOnce value_at
find-headers k [] m h = ground arith
find-headers k ((j, w) ∷ l) m h = elim (Bool-cases (j == k)) [
  | inl f ↦
      let same : j ≡ k = (eq_iff j k).0 f in
      let absent : value_at k l ≡ none = subst (λ x. value_at x l ≡ none) same h.0 in
      let rest = find-headers k l (header (j, w) m) h.1 in
      elim (Bool-cases (is_internal k)) [
        | inl g ↦ rw (f, rest, absent, find-header k j w m, f, same, g) refl
        | inr g ↦ rw (f, rest, absent, find-header k j w m, f, same, g) refl
      ]
  | inr f ↦ rw (f, find-headers k l (header (j, w) m) h.1, find-header k j w m, f) refl
]

or_found-none : (o : Option String) → or_found o none ≡ o
or_found-none none = refl
or_found-none (some s) = refl

with_correlator-find :
    (k c : String) (m : Map String)
    → ("x-correlator" == k) ≡ false
    → find k (with_correlator c m) ≡ find k m
with_correlator-find k c m e = elim (Bool-cases (is_empty c)) [
  | inl f ↦ rw f refl
  | inr f ↦ rw (f, find-put "x-correlator" k c m, e) refl
]

with_type-find :
    (k : String) (m : Map String) → ("content-type" == k) ≡ false → find k (with_type m) ≡ find k m
with_type-find k m e = elim (Bool-cases (is_some (find "content-type" m))) [
  | inl f ↦ rw f refl
  | inr f ↦ rw (f, find-put "content-type" k "application/json" m, e) refl
]

-- A header other than the content type and the correlator is in the HTTP response exactly when it is
-- in the metadata of the message, with its value, and is not one of the internal fields: the
-- status, the method and the path stay inside. The metadata hold each key once.
pub headers-exact :
    (a : Message) (k : String)
    → IsUnique a.metadata
    → ("content-type" == k) ≡ false
    → ("x-correlator" == k) ≡ false
    → find k (message_to_http_response (some a)).headers ≡ public_of k (find k a.metadata)
unfolding message_to_http_response find
headers-exact a k h other more =
    with_correlator-find k a.correlation_id (with_type (each header a.metadata.entries empty)) more
    ∙ with_type-find k (each header a.metadata.entries empty) other
    ∙ find-headers k a.metadata.entries empty h.once
    ∙ rw (find-empty k, or_found-none (shown_of k (value_at k a.metadata.entries))) refl
    ∙ shown_of-public k (find k a.metadata)

module _ (J : JsonLib) (R : JsonReader J) (I : JsonItems J) (L : HandlerLib J) {C : Common} where
  -- When the helpers read a context and an identifier of a message and the deletion succeeds for
  -- them, the HTTP status of the answer is 200
  -- and not the 204 that the handler writes: the conversion reads the status under another key.
  pub deleted-status :
      (answer : Answer) (now : ℕ) (message : Message) (c : QodRequestContext) (i : String)
      (m : Manager C)
      → L.extract_context message ≡ returns c
      → extract_session_id J R I L message ≡ returns i
      → is_empty i ≡ false
      → (delete_session J answer i c.api_consumer_id now m).0 ≡ returns true
      → (a : Message) × ((handle_delete_session J R I L answer now message m).0 ≡ returns a)
        × (find "http_status" a.metadata ≡ some "204")
        × ((message_to_http_response (some a)).status_code ≡ pos 200)
  unfolding handle_delete_session delete_requested deleted_response no_content
      message_to_http_response find put value_at replace empty
  deleted-status answer now message c i m known named filled e =
      (no_content J R I L c, rw (known, named, filled, e) refl, refl, refl)
