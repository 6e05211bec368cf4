-- ===== src/Subscriptions/Access/Owner.antt =====
-- Who reaches a subscription, and which of them a deletion and a cleanup remove, in
-- af_core/src/subscription_manager.cpp.
use phine_af.Prelude.{
  ℕ, ◌+◌, String, ◌≡◌, refl, ◌∙◌, ◌&&◌, ◌||◌, eq_refl, is_empty, inl, inr, Bool, true, false, not,
  ◌==◌, eq_iff, Option, none, some, List, [], ◌∷◌, map, keep, length, All, arith, Bool-cases,
  Option-cases, if◌then◌else◌,
}
use phine_af.Map.{find, value_at, find-erase}
use phine_af.Map.Unique.{IsUnique, HasOnce}
use phine_af.Int.{ℤ, pos, less}
use phine_af.Outcome.{Outcome, returns, throws, undefined, Outcome-cases}
use phine_af.Json.{JsonLib, JsonReader, JsonItems, Message}
use phine_af.Subscriptions.{Subscription, SubscriptionManager}
use phine_af.Subscriptions.Access.{
  is_foreign, sweep, cleanup_expired_subscriptions, listed_for, read_target, unauthorized,
  get_found, get_subscription, shown_to, delete_from, delete_found, delete_subscription,
}

abbrev pub left_by : ℕ → Option Subscription → Option Subscription
left_by now none = none
left_by now (some s) = if less s.expiry_time (pos now) then none else some s

-- What a request for the identifier, by the client if it names one, leaves under a key.
abbrev pub left_after :
    Outcome (String × String) → String → Option Subscription → Option Subscription
left_after (returns (i, client)) k none = none
left_after (returns (i, client)) k (some s) =
    if (i == k) && (is_empty client || (s.client_id == client)) then none else some s
left_after (throws e) k o = o
left_after undefined k o = o

keep-false :
    {A : Type 0} (p : A → Bool) (l : List A) → All (λ x. p x ≡ false) (keep (λ x. not (p x)) l)
keep-false p [] = tt
keep-false p (x ∷ l) = elim (Bool-cases (p x)) [
  | inl e ↦ rw e (keep-false p l)
  | inr e ↦ rw e (e, keep-false p l)
]

kept :
    (i client k : String) (o : Option Subscription)
    → (i == k) ≡ false
    → o ≡ left_after (returns (i, client)) k o
kept i client k none g = refl
kept i client k (some s) g = rw g refl

module _ (J : JsonLib) (R : JsonReader J) (I : JsonItems J) where
  -- A client that a request names neither reads nor deletes the subscription of another client: the
  -- answer is that it is not authorised, and the manager is as it was. No list for this client has
  -- a subscription of another one.
  pub foreign-refused :
      (iso : ℤ → String) (message : Message) (i client : String) (s : Subscription)
      (m : SubscriptionManager)
      → read_target J R I message ≡ returns (i, client)
      → find i m.subscriptions ≡ some s
      → is_foreign client s ≡ true
      → (get_subscription J R I iso message m ≡ (returns (unauthorized J R I message "access"), m))
        × (delete_subscription J R I message m ≡ (returns (unauthorized J R I message "delete"), m))
        × All (λ t. is_foreign client t ≡ false) (listed_for J R I client m)
  unfolding get_subscription delete_subscription get_found delete_found delete_from shown_to
      listed_for
  foreign-refused iso message i client s m target stored foreign = (
    rw (target, stored, foreign) refl,
    rw (target, stored, foreign) refl,
    keep-false (is_foreign client) (map (λ e. e.1) m.subscriptions.entries),
  )

  same_kept :
      (message : Message) (k i client : String) (o : Option Subscription) (m : SubscriptionManager)
      → (i == k) ≡ false
      → find k (delete_from J R I message i client o m).1.subscriptions ≡ find k m.subscriptions
  unfolding delete_from
  same_kept message k i client none m g = refl
  same_kept message k i client (some s) m g = elim (Bool-cases (is_foreign client s)) [
    | inl f ↦ rw f refl
    | inr f ↦ rw (f, find-erase i k m.subscriptions, g) refl
  ]

  other-left :
      (message : Message) (k i client : String) (m : SubscriptionManager)
      → (i == k) ≡ false
      → find k (delete_from J R I message i client (find i m.subscriptions) m).1.subscriptions
        ≡ left_after (returns (i, client)) k (find k m.subscriptions)
  unfolding delete_from
  other-left message k i client m g =
      same_kept message k i client (find i m.subscriptions) m g
      ∙ kept i client k (find k m.subscriptions) g

  found-left :
      (message : Message) (k i client : String) (m : SubscriptionManager)
      → find k (delete_from J R I message i client (find i m.subscriptions) m).1.subscriptions
        ≡ left_after (returns (i, client)) k (find k m.subscriptions)
  unfolding delete_from
  found-left message k i client m = elim (Bool-cases (i == k)) [
    | inl g ↦
        let same : i ≡ k = (eq_iff i k).0 g in
        elim (Option-cases (find k m.subscriptions)) [
          | inl e ↦ rw (same, e) e
          | inr (s, e) ↦ elim (Bool-cases (is_empty client)) [
            | inl f ↦ rw (same, e, f, find-erase k k m.subscriptions, eq_refl k) refl
            | inr f ↦ elim (Bool-cases (s.client_id == client)) [
              | inl h ↦ rw (same, e, f, h, find-erase k k m.subscriptions, eq_refl k) refl
              | inr h ↦ rw (same, e, f, h, eq_refl k) e
            ]
          ]
        ]
    | inr g ↦ other-left message k i client m g
  ]

  -- A request to delete removes the subscription that it names if it names no client but the
  -- subscription's own. Every other subscription is as it was, and every one for a request that
  -- cannot be read.
  pub delete_subscription-exact :
      (message : Message) (k : String) (m : SubscriptionManager)
      → find k (delete_subscription J R I message m).1.subscriptions
        ≡ left_after (read_target J R I message) k (find k m.subscriptions)
  unfolding delete_subscription delete_found
  delete_subscription-exact message k m = elim (Outcome-cases (read_target J R I message)) [
    | inl ((i, client), e) ↦ rw e (found-left message k i client m)
    | inr (inl (x, e)) ↦ rw e refl
    | inr (inr e) ↦ rw e refl
  ]

pub sweep-value_at :
    (now : ℕ) (k : String) (l : List (String × Subscription))
    → HasOnce l
    → value_at k (sweep now l).0 ≡ left_by now (value_at k l)
unfolding sweep value_at HasOnce
sweep-value_at now k [] h = refl
sweep-value_at now k ((j, s) ∷ l) h = ground (arith, sweep-value_at now k l h.1, eq_iff j k, h.0)

sweep-length :
    (now : ℕ) (l : List (String × Subscription))
    → (sweep now l).1 + length (sweep now l).0 ≡ length l
unfolding sweep
sweep-length now [] = refl
sweep-length now ((j, s) ∷ l) = ground (arith, sweep-length now l)

-- The cleanup removes a subscription exactly when its expiry is before the time of the call, leaves
-- every other one as it was, and returns how many it removed. The map holds each key once.
pub cleanup_expired-exact :
    (now : ℕ) (k : String) (m : SubscriptionManager)
    → IsUnique m.subscriptions
    → let (count, after) = cleanup_expired_subscriptions now m in
      (find k after.subscriptions ≡ left_by now (find k m.subscriptions))
      × (count + length after.subscriptions.entries ≡ length m.subscriptions.entries)
unfolding cleanup_expired_subscriptions find
cleanup_expired-exact now k m h =
    (sweep-value_at now k m.subscriptions.entries h.once, sweep-length now m.subscriptions.entries)
