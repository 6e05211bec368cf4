-- ===== src/Subscriptions/Creation.antt =====
-- A created subscription, as its client reads it, in af_core/src/subscription_manager.cpp.
use phine_af.Prelude.{
  ℕ, String, ◌≡◌, refl, ◌∙◌, ap, subst, true, false, ◌==◌, some, [], ◌∷◌, if◌then◌else◌,
}
use phine_af.Map.{find, put, find-put, find-put_self}
use phine_af.Int.{ℤ}
use phine_af.Outcome.{returns, Ensures}
use phine_af.Json.{JsonLib, JsonReader, JsonItems, Message, dumped}
use phine_af.Subscriptions.{
  Subscription, SubscriptionManager, respond, show_subscription, created, requested,
  store_requested, create_subscription,
}
use phine_af.Subscriptions.Access.{is_foreign, read_target, get_found, get_subscription, shown_to}
use phine_af.Subscriptions.Stored.{IsNew, requested-IsNew}

module _ (J : JsonLib) (R : JsonReader J) (I : JsonItems J) where
  -- What a client is shown of a subscription that it reads.
  abbrev pub details : (ℤ → String) → Subscription → String
  details iso s =
      dumped J (show_subscription J R I iso true s (("active", I.boolean s.active) ∷ []))

  -- A request that describes a valid subscription stores it under the identifier that is generated
  -- and answers with it, and no other subscription changes; a later request for this identifier by
  -- its client, or without one, is answered with the stored subscription.
  pub created-found :
      (iso : ℤ → String) (generated : String) (now : ℕ) (message request : Message)
      (client : String) (s : Subscription) (m : SubscriptionManager)
      → requested J R I generated now message ≡ returns s
      → read_target J R I request ≡ returns (generated, client)
      → is_foreign client s ≡ false
      → let (answer, after) = create_subscription J R I iso generated now message m in
        (answer ≡ returns (created J R I iso message s))
        × ((k : String)
            → find k after.subscriptions
              ≡ (if generated == k then some s else find k m.subscriptions))
        × (get_subscription J R I iso request after
            ≡ (returns (respond request "subscription" (details iso s)), after))
  unfolding create_subscription store_requested get_subscription get_found shown_to Ensures IsNew
  created-found iso generated now message request client s m made target own =
      let named : s.id ≡ generated =
        (subst (Ensures (IsNew generated)) made (requested-IsNew J R I generated now message)).0 in
      let found : find generated (put s.id s m.subscriptions) ≡ some s =
        subst (λ x. find x (put s.id s m.subscriptions) ≡ some s) named
          (find-put_self s.id s m.subscriptions) in
      (
        rw made refl,
        λ k. rw made (
            find-put s.id k s m.subscriptions
            ∙ ap (λ x. if x == k then some s else find k m.subscriptions) named),
        rw (made, target, found, own) refl,
      )
