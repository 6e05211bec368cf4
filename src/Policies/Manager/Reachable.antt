-- ===== src/Policies/Manager/Reachable.antt =====
-- Histories of the policy manager of af_core/src/policy_manager.cpp, and what it answers.
use phine_af.Prelude.{
  String, ◌≡◌, refl, subst, ◌⊎◌, inl, inr, Bool, true, false, ◌==◌, Option, some, [], ◌∷◌,
  Bool-cases,
}
use phine_af.Map.{find, empty, find-empty}
use phine_af.Outcome.{Outcome, Method, returns, throws, undefined, continue, Outcome-cases}
use phine_af.Json.{JsonLib, JsonReader, JsonItems, Message, object}
use phine_af.Json.Read.{read_text, require_text, caught_payload}
use phine_af.Services.{AfOrchestrator}
use phine_af.Policies.{QoSPolicy, PolicyManager}
use phine_af.Policies.Manager.{
  create_policy, update_policy, delete_policy, success, failure, updated_response, deleted_response,
  handle_create, handle_update, handle_delete, handle_operation, handle_data, caught, rejected,
  handle_qos_request,
}
use phine_af.Policies.Manager.Sound.{IsKept, IsSound, IsSafe, IsTyped}
use phine_af.Policies.Manager.Requests.{handle-IsSafe}

abbrev pub new_manager : Option AfOrchestrator → PolicyManager
new_manager o = record { orchestrator = o; policies = empty }

module _ (J : JsonLib) (R : JsonReader J) (I : JsonItems J) where
  -- The managers that requests reach from a new one; each request comes with the identifier that
  -- is generated for it.
  pub data Reaches (o : Option AfOrchestrator) : PolicyManager → Type 0 where
    started : Reaches o (new_manager o)
    handled :
        (generated : String) (message answer : Message) (m after : PolicyManager)
        → Reaches o m
        → IsTyped J R I message
        → handle_qos_request J R I generated message m ≡ (returns answer, after)
        → Reaches o after
    escaped :
        (generated : String) (message : Message) (e : String) (m after : PolicyManager)
        → Reaches o m
        → IsTyped J R I message
        → handle_qos_request J R I generated message m ≡ (throws e, after)
        → Reaches o after

  Reaches-IsSound : (o : Option AfOrchestrator) (m : PolicyManager) → Reaches o m → IsSound m
  unfolding IsSound IsSafe
  Reaches-IsSound o m started = λ k p e. cc (find-empty k, e)
  Reaches-IsSound o m (handled generated message answer before _ r typed e) =
      subst IsSafe e
        (handle-IsSafe J R I generated message before typed (Reaches-IsSound o before r))
  Reaches-IsSound o m (escaped generated message x before _ r typed e) =
      subst IsSafe e
        (handle-IsSafe J R I generated message before typed (Reaches-IsSound o before r))

  -- After any history of requests, in which the data of an update have the right types, each stored
  -- policy stands under its own identifier, passes the validation, and is active or marked with an
  -- error.
  pub policies-IsKept :
      (o : Option AfOrchestrator) (m : PolicyManager) (k : String) (p : QoSPolicy)
      → Reaches o m
      → find k m.policies ≡ some p
      → IsKept k p
  unfolding IsSound
  policies-IsKept o m k p r e = Reaches-IsSound o m r k p e

  -- A response to the message, with one of the two types.
  unfoldable pub IsAnswer : Message → Outcome Message → Type 0
  IsAnswer message (returns a) =
      (a.correlation_id ≡ message.correlation_id)
      × ((a.message_type ≡ "qos_success") ⊎ (a.message_type ≡ "qos_error"))
  IsAnswer message (throws e) = Unit
  IsAnswer message undefined = Unit

  bind-IsAnswer :
      {A : Type 0} (message : Message) (x : Outcome A × PolicyManager)
      (f : A → Method PolicyManager Message)
      → ((a : A) (m : PolicyManager) → IsAnswer message (f a m).0)
      → IsAnswer message (continue x.0 f x.1).0
  unfolding IsAnswer
  bind-IsAnswer message (returns a, m) f h = h a m
  bind-IsAnswer message (throws e, m) f h = tt
  bind-IsAnswer message (undefined, m) f h = tt

  updated-IsAnswer :
      (message : Message) (i : String) (b : Bool) (m : PolicyManager)
      → IsAnswer message (updated_response J R I message i b m).0
  unfolding updated_response success failure IsAnswer
  updated-IsAnswer message i true m = (refl, inl refl)
  updated-IsAnswer message i false m = (refl, inr refl)

  deleted-IsAnswer :
      (message : Message) (i : String) (b : Bool) (m : PolicyManager)
      → IsAnswer message (deleted_response J R I message i b m).0
  unfolding deleted_response success failure IsAnswer
  deleted-IsAnswer message i true m = (refl, inl refl)
  deleted-IsAnswer message i false m = (refl, inr refl)

  operation-IsAnswer :
      (message : Message) (generated : String) (j : J.Json) (operation : String) (m : PolicyManager)
      → IsAnswer message (handle_operation J R I message generated j operation m).0
  unfolding handle_operation handle_create handle_update handle_delete updated_response
      deleted_response success failure IsAnswer
  operation-IsAnswer message generated j operation m = elim (Bool-cases (operation == "create")) [
    | inl e ↦
        rw e (bind-IsAnswer message (create_policy J R I generated j m) _ (λ p s. (refl, inl refl)))
    | inr e ↦ elim (Bool-cases (operation == "update")) [
      | inl f ↦
          rw (e, f)
            (bind-IsAnswer message
              (require_text J R "policy_id" "Missing policy_id for update operation" j, m) _
              (λ i s.
                bind-IsAnswer message (update_policy J R I i j s) (updated_response J R I message i)
                  (updated-IsAnswer message i)))
      | inr f ↦ elim (Bool-cases (operation == "delete")) [
        | inl g ↦
            rw (e, f, g)
              (bind-IsAnswer message
                (require_text J R "policy_id" "Missing policy_id for delete operation" j, m) _
                (λ i s.
                  bind-IsAnswer message (delete_policy J R I i s) (deleted_response J R I message i)
                    (deleted-IsAnswer message i)))
        | inr g ↦ rw (e, f, g) tt
      ]
    ]
  ]

  -- The outcome is undefined, or a success or an error with the correlation identifier of the
  -- request, or the exception that the dump of the text of an exception throws.
  unfoldable pub EndsWell : Message → Outcome Message → Type 0
  EndsWell message r =
      (r ≡ undefined)
      ⊎ (((a : Message) × (r ≡ returns a)
            × (a.correlation_id ≡ message.correlation_id)
            × ((a.message_type ≡ "qos_success") ⊎ (a.message_type ≡ "qos_error")))
          ⊎ ((e : String) × (x : String) × (r ≡ throws x)
              × (J.dump (object J (("message", J.text e) ∷ ("error", J.text "bad_request") ∷ []))
                  ≡ throws x)))

  caught-answers :
      (message : Message) (x : Outcome Message × PolicyManager)
      → IsAnswer message x.0
      → EndsWell message (caught J R I message x).0
  unfolding IsAnswer EndsWell rejected
  caught-answers message (returns a, m) h = inr (inl (a, refl, h.0, h.1))
  caught-answers message (throws e, m) h = elim (Outcome-cases (caught_payload J e)) [
    | inl (s, f) ↦ rw f (inr (inl (_, refl, refl, inr refl)))
    | inr (inl (x, f)) ↦ rw f (inr (inr (e, x, refl, f)))
    | inr (inr f) ↦ rw f (inl refl)
  ]
  caught-answers message (undefined, m) h = inl refl

  -- A request for policies, with any payload, is answered by a success or an error with its
  -- correlation identifier, unless it ends in undefined behaviour or in the one exception that is
  -- not caught: that of the dump of an error whose text is not UTF-8.
  pub handle_qos_request-answers :
      (generated : String) (message : Message) (m : PolicyManager)
      → EndsWell message (handle_qos_request J R I generated message m).0
  unfolding handle_qos_request handle_data
  handle_qos_request-answers generated message m = caught-answers message _ (
      bind-IsAnswer message (J.parse message.payload, m) _
        (λ j s.
          bind-IsAnswer message (read_text J R "operation" "create" j, s) _
            (λ operation t. operation-IsAnswer message generated j operation t)))
