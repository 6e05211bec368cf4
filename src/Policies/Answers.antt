-- ===== src/Policies/Answers.antt =====
-- What the answers of the PCF handler make of a policy, in af_core/src/policy_manager.cpp.
use Prim.Native.String.{◌++◌}
use phine_af.Prelude.{
  String, ◌≡◌, refl, ap, ◌⊎◌, inl, inr, Bool, true, false, ◌==◌, eq_iff, Option, none, some,
  is_empty, Bool-cases, Option-cases,
}
use phine_af.Outcome.{Outcome, Method, returns, throws, undefined, Outcome-cases, lift, ◌>>=◌}
use phine_af.Json.{JsonLib, JsonReader, Message}
use phine_af.Json.Read.{read_text}
use phine_af.Services.{CommunicationService, AfOrchestrator}
use phine_af.Policies.{QoSPolicy, assign_text}
use phine_af.Policies.Apply.{
  pcf_of, failed_with, catch_apply, catch_remove, activate, fail_with, created_answer, error_answer,
  process_answer, request_policy, apply_by, apply_policy, request_removal, is_removed,
  refused_removal, remove_by, remove_policy,
}

-- How a policy differs after it was applied, and after the attempt.
abbrev pub activated : String → QoSPolicy → QoSPolicy
activated transaction p = record p { state = "active"; pcf_transaction_id = transaction }

abbrev pub marked : String → String → QoSPolicy → QoSPolicy
marked state reason p = record p { state = state; error_reason = reason }

-- The answer is of the type.
unfoldable pub IsOfType : String → Option Message → Type 0
IsOfType type a = (r : Message) × (a ≡ some r) × (r.message_type ≡ type)

-- What the processing of an answer has done to a policy, by how it ended.
Processed : Option Message → QoSPolicy → Outcome Bool × QoSPolicy → Type 0
Processed a p (returns true, q) =
    IsOfType "pcf_app_session_created" a × ((t : String) × (q ≡ activated t p))
Processed a p (returns false, q) = (s : String) × (e : String) × (q ≡ marked s e p)
Processed a p (throws e, q) = q ≡ p
Processed a p (undefined, q) = Unit

module _ (J : JsonLib) (R : JsonReader J) where
  created-Processed :
      (j : J.Json) (a : Option Message) (p : QoSPolicy)
      → IsOfType "pcf_app_session_created" a
      → Processed a p (created_answer J R j p)
  unfolding created_answer assign_text activate Processed
  created-Processed j a p h = elim (Bool-cases (R.contains "app_session_id" j)) [
    | inl e ↦ elim (Outcome-cases (R.as_text (J.field "app_session_id" j))) [
      | inl (t, f) ↦ rw (e, f) (h, (t, refl))
      | inr (inl (x, f)) ↦ rw (e, f) refl
      | inr (inr f) ↦ rw (e, f) tt
    ]
    | inr e ↦ rw e (h, (p.pcf_transaction_id, refl))
  ]

  error-Processed :
      (j : J.Json) (a : Option Message) (p : QoSPolicy) → Processed a p (error_answer J R j p)
  unfolding error_answer fail_with Processed
  error-Processed j a p = elim (Outcome-cases (read_text J R "message" "Unknown error" j)) [
    | inl (t, f) ↦ rw f ("error", "PCF error: " ++ t, refl)
    | inr (inl (x, f)) ↦ rw f refl
    | inr (inr f) ↦ rw f tt
  ]

  parsed-Processed :
      (o : Outcome J.Json) (f : J.Json → Method QoSPolicy Bool) (a : Option Message) (p : QoSPolicy)
      → ((j : J.Json) → Processed a p (f j p))
      → Processed a p ((lift o >>= f) p)
  unfolding Processed
  parsed-Processed (returns j) f a p h = h j
  parsed-Processed (throws e) f a p h = refl
  parsed-Processed undefined f a p h = tt

  process-Processed : (a : Option Message) (p : QoSPolicy) → Processed a p (process_answer J R a p)
  unfolding process_answer fail_with Processed IsOfType
  process-Processed none p = ("error", "No response from PCF Handler", refl)
  process-Processed (some r) p = elim (Bool-cases (r.message_type == "pcf_app_session_created")) [
    | inl e ↦ rw e (
        parsed-Processed (J.parse r.payload) (created_answer J R) (some r) p
          (λ j. created-Processed j (some r) p (r, refl, (eq_iff _ _).0 e)))
    | inr e ↦ elim (Bool-cases (r.message_type == "pcf_error")) [
      | inl f ↦
          rw (e, f)
            (parsed-Processed (J.parse r.payload) (error_answer J R) (some r) p
              (λ j. error-Processed j (some r) p))
      | inr f ↦ rw (e, f) ("error", "Unexpected response from PCF Handler", refl)
    ]
  ]

  -- The PCF handler was reached and confirmed the session of the policy.
  unfoldable pub IsConfirmed : Option AfOrchestrator → QoSPolicy → Type 0
  unfolding IsOfType
  IsConfirmed o p =
      (pcf : CommunicationService × String) × (a : Option Message) × (pcf_of o ≡ some pcf)
      × (request_policy J R pcf p ≡ returns a)
      × IsOfType "pcf_app_session_created" a

  -- What an application has done to a policy: nothing is thrown, only a confirmation makes it
  -- active, and a failure is written to its state and its reason.
  unfoldable pub Applied : Option AfOrchestrator → QoSPolicy → Outcome Bool × QoSPolicy → Type 0
  unfolding IsConfirmed
  Applied o p (returns true, q) = IsConfirmed o p × ((t : String) × (q ≡ activated t p))
  Applied o p (returns false, q) = (s : String) × (e : String) × (q ≡ marked s e p)
  Applied o p (throws e, q) = ⊥
  Applied o p (undefined, q) = Unit

  caught-Applied :
      (o : Option AfOrchestrator) (pcf : CommunicationService × String) (a : Option Message)
      (p : QoSPolicy) (x : Outcome Bool × QoSPolicy)
      → pcf_of o ≡ some pcf
      → request_policy J R pcf p ≡ returns a
      → Processed a p x
      → Applied o p (catch_apply x)
  unfolding Applied Processed
  caught-Applied o pcf a p (returns true, q) e f h = ((pcf, a, e, f, h.0), h.1)
  caught-Applied o pcf a p (returns false, q) e f h = h
  caught-Applied o pcf a p (throws x, q) e f h =
      ("error", "Exception: " ++ x, ap (failed_with ("Exception: " ++ x)) h)
  caught-Applied o pcf a p (undefined, q) e f h = tt

  pub apply-Applied :
      (o : Option AfOrchestrator) (p : QoSPolicy) → Applied o p (apply_policy J R o p)
  unfolding apply_policy apply_by Applied
  apply-Applied o p = elim (Option-cases (pcf_of o)) [
    | inl e ↦ rw e (p.state, p.error_reason, refl)
    | inr (pcf, e) ↦ elim (Outcome-cases (request_policy J R pcf p)) [
      | inl (a, f) ↦
          rw (e, f) (caught-Applied o pcf a p (process_answer J R a p) e f (process-Processed a p))
      | inr (inl (x, f)) ↦ rw (e, f) ("error", "Exception: " ++ x, refl)
      | inr (inr f) ↦ rw (e, f) tt
    ]
  ]

  -- What a removal rests on: the policy was not applied, or the PCF handler confirmed.
  unfoldable pub IsReleased : Option AfOrchestrator → QoSPolicy → Type 0
  unfolding IsOfType
  IsReleased o p =
      (p.pcf_transaction_id ≡ "")
      ⊎ ((pcf : CommunicationService × String) × (a : Option Message) × (pcf_of o ≡ some pcf)
          × (request_removal J R pcf p ≡ returns a)
          × IsOfType "pcf_app_session_deleted" a)

  -- A removal throws nothing, and tells truly that it succeeded.
  unfoldable pub Removed : Option AfOrchestrator → QoSPolicy → Outcome Bool → Type 0
  unfolding IsReleased
  Removed o p (returns true) = IsReleased o p
  Removed o p (returns false) = Unit
  Removed o p (throws e) = ⊥
  Removed o p undefined = Unit

  refused-Removed :
      (o : Option AfOrchestrator) (p : QoSPolicy) (x : Outcome J.Json)
      → Removed o p (catch_remove (refused_removal J R x))
  unfolding refused_removal Removed
  refused-Removed o p (returns j) =
      elim (Outcome-cases (read_text J R "message" "Unknown error" j)) [
        | inl (t, e) ↦ rw e tt
        | inr (inl (t, e)) ↦ rw e tt
        | inr (inr e) ↦ rw e tt
      ]
  refused-Removed o p (throws e) = tt
  refused-Removed o p undefined = tt

  is_removed-Removed :
      (o : Option AfOrchestrator) (p : QoSPolicy) (pcf : CommunicationService × String)
      (a : Option Message)
      → pcf_of o ≡ some pcf
      → request_removal J R pcf p ≡ returns a
      → Removed o p (catch_remove (is_removed J R a))
  unfolding Removed IsReleased IsOfType is_removed
  is_removed-Removed o p pcf none e f = tt
  is_removed-Removed o p pcf (some r) e f =
      elim (Bool-cases (r.message_type == "pcf_app_session_deleted")) [
        | inl g ↦ rw g (inr (pcf, some r, e, f, (r, refl, (eq_iff _ _).0 g)))
        | inr g ↦ elim (Bool-cases (r.message_type == "pcf_error")) [
          | inl h ↦ rw (g, h) (refused-Removed o p (J.parse r.payload))
          | inr h ↦ rw (g, h) tt
        ]
      ]

  pub remove-Removed :
      (o : Option AfOrchestrator) (p : QoSPolicy) → Removed o p (remove_policy J R o p)
  unfolding remove_policy remove_by is_removed Removed IsReleased
  remove-Removed o p = elim (Bool-cases (is_empty p.pcf_transaction_id)) [
    | inl e ↦ rw e (inl ((eq_iff _ _).0 e))
    | inr e ↦ elim (Option-cases (pcf_of o)) [
      | inl f ↦ rw (e, f) tt
      | inr (pcf, f) ↦ elim (Outcome-cases (request_removal J R pcf p)) [
        | inl (a, g) ↦ rw (e, f, g) (is_removed-Removed o p pcf a f g)
        | inr (inl (x, g)) ↦ rw (e, f, g) tt
        | inr (inr g) ↦ rw (e, f, g) tt
      ]
    ]
  ]
