-- ===== src/Policies/Manager/Requests.antt =====
-- The requests for policies keep the stored policies sound, in af_core/src/policy_manager.cpp.
use phine_af.Prelude.{
  String, ◌≡◌, refl, ◌∙◌, ap, inl, inr, Bool, true, false, ◌==◌, eq_iff, Bool-cases, Option-cases,
}
use phine_af.Map.{find}
use phine_af.Outcome.{Outcome, Method, returns, throws, undefined, lift, ◌>>=◌, Outcome-cases}
use phine_af.Json.{JsonLib, JsonReader, JsonItems, Message}
use phine_af.Json.Read.{read_text, require_text, caught_payload}
use phine_af.Policies.{QoSPolicy, PolicyManager, assign_fields}
use phine_af.Policies.Manager.{
  create_policy, update_found, update_policy, delete_policy, updated_response, deleted_response,
  handle_create, handle_update, handle_delete, handle_operation, handle_data, caught, rejected,
  handle_qos_request,
}
use phine_af.Policies.Manager.Effects.{create_policy-exact}
use phine_af.Policies.Manager.Changes.{update_policy-exact, delete_policy-exact}
use phine_af.Policies.Manager.Sound.{
  IsSound, IsSafe, IsTyped, bind-IsSafe, Creates-IsSafe, Updates-IsSafe, Deletes-IsSafe,
}

module _ (J : JsonLib) (R : JsonReader J) (I : JsonItems J) where
  update-IsSafe :
      (i : String) (j : J.Json) (m : PolicyManager)
      → ((p : QoSPolicy) → (assign_fields J R I j p).0 ≡ returns tt)
      → IsSound m
      → IsSafe (update_policy J R I i j m)
  unfolding update_policy update_found IsSafe IsSound
  update-IsSafe i j m typed h = elim (Option-cases (find i m.policies)) [
    | inl e ↦ rw e h
    | inr (old, e) ↦
        Updates-IsSafe J R I i m (update_policy J R I i j m)
          (update_policy-exact J R I i j old m e (h i old e).0 (typed old)) h
  ]

  handle_create-IsSafe :
      (message : Message) (generated : String) (j : J.Json) (m : PolicyManager)
      → IsSound m
      → IsSafe (handle_create J R I message generated j m)
  unfolding handle_create IsSafe
  handle_create-IsSafe message generated j m h =
      bind-IsSafe (create_policy J R I generated j m) _
        (Creates-IsSafe J R I generated m (create_policy J R I generated j m)
          (create_policy-exact J R I generated j m) h)
        (λ p s g. g)

  updated_response-IsSafe :
      (message : Message) (i : String) (b : Bool) (m : PolicyManager)
      → IsSound m
      → IsSafe (updated_response J R I message i b m)
  unfolding updated_response IsSafe
  updated_response-IsSafe message i true m h = h
  updated_response-IsSafe message i false m h = h

  deleted_response-IsSafe :
      (message : Message) (i : String) (b : Bool) (m : PolicyManager)
      → IsSound m
      → IsSafe (deleted_response J R I message i b m)
  unfolding deleted_response IsSafe
  deleted_response-IsSafe message i true m h = h
  deleted_response-IsSafe message i false m h = h

  lift-IsSafe :
      {A B : Type 0} (o : Outcome A) (f : A → Method PolicyManager B) (m : PolicyManager)
      → IsSound m
      → ((a : A) → o ≡ returns a → IsSafe (f a m))
      → IsSafe ((lift o >>= f) m)
  unfolding IsSafe
  lift-IsSafe (returns a) f m h k = k a refl
  lift-IsSafe (throws e) f m h k = h
  lift-IsSafe undefined f m h k = tt

  handle_update-IsSafe :
      (message : Message) (j : J.Json) (m : PolicyManager)
      → ((p : QoSPolicy) → (assign_fields J R I j p).0 ≡ returns tt)
      → IsSound m
      → IsSafe (handle_update J R I message j m)
  unfolding handle_update
  handle_update-IsSafe message j m typed h =
      lift-IsSafe (require_text J R "policy_id" "Missing policy_id for update operation" j)
        (λ i. update_policy J R I i j >>= updated_response J R I message i) m h
        (λ i e.
          bind-IsSafe (update_policy J R I i j m) (updated_response J R I message i)
            (update-IsSafe i j m typed h) (updated_response-IsSafe message i))

  handle_delete-IsSafe :
      (message : Message) (j : J.Json) (m : PolicyManager)
      → IsSound m
      → IsSafe (handle_delete J R I message j m)
  unfolding handle_delete
  handle_delete-IsSafe message j m h =
      lift-IsSafe (require_text J R "policy_id" "Missing policy_id for delete operation" j)
        (λ i. delete_policy J R I i >>= deleted_response J R I message i) m h
        (λ i e.
          bind-IsSafe (delete_policy J R I i m) (deleted_response J R I message i)
            (Deletes-IsSafe J R I i m (delete_policy J R I i m) (delete_policy-exact J R I i m) h)
            (deleted_response-IsSafe message i))

  handle_operation-IsSafe :
      (message : Message) (generated : String) (j : J.Json) (operation : String) (m : PolicyManager)
      → (operation ≡ "update" → (p : QoSPolicy) → (assign_fields J R I j p).0 ≡ returns tt)
      → IsSound m
      → IsSafe (handle_operation J R I message generated j operation m)
  unfolding handle_operation IsSafe
  handle_operation-IsSafe message generated j operation m typed h =
      elim (Bool-cases (operation == "create")) [
        | inl e ↦ rw e (handle_create-IsSafe message generated j m h)
        | inr e ↦ elim (Bool-cases (operation == "update")) [
          | inl f ↦ rw (e, f) (handle_update-IsSafe message j m (typed ((eq_iff _ _).0 f)) h)
          | inr f ↦ elim (Bool-cases (operation == "delete")) [
            | inl g ↦ rw (e, f, g) (handle_delete-IsSafe message j m h)
            | inr g ↦ rw (e, f, g) h
          ]
        ]
      ]

  caught-IsSafe :
      (message : Message) (x : Outcome Message × PolicyManager)
      → IsSafe x
      → IsSafe (caught J R I message x)
  unfolding IsSafe rejected
  caught-IsSafe message (returns a, m) h = h
  caught-IsSafe message (throws e, m) h = elim (Outcome-cases (caught_payload J e)) [
    | inl (s, f) ↦ rw f h
    | inr (inl (x, f)) ↦ rw f h
    | inr (inr f) ↦ rw f tt
  ]
  caught-IsSafe message (undefined, m) h = tt

  pub handle-IsSafe :
      (generated : String) (message : Message) (m : PolicyManager)
      → IsTyped J R I message
      → IsSound m
      → IsSafe (handle_qos_request J R I generated message m)
  unfolding handle_qos_request handle_data IsTyped
  handle-IsSafe generated message m typed h = caught-IsSafe message _ (
      lift-IsSafe (J.parse message.payload) (handle_data J R I message generated) m h (λ j e.
        lift-IsSafe (read_text J R "operation" "create" j)
          (handle_operation J R I message generated j) m h
          (λ operation f.
            handle_operation-IsSafe message generated j operation m
              (λ g. typed j e (f ∙ ap returns g)) h)))
