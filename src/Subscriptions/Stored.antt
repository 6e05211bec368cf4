-- ===== src/Subscriptions/Stored.antt =====
-- What holds of every stored subscription, and how creation, deletion and cleanup in
-- af_core/src/subscription_manager.cpp keep it.
use phine_af.Prelude.{
  ℕ, String, ◌≡◌, refl, sym, ◌∙◌, inl, inr, true, ◌&&◌, ◌==◌, eq_iff, Option, none, some, List, [],
  ◌∷◌, is_empty, arith, Bool-cases, subst,
}
use phine_af.Map.{Map, find, find-put, find-erase, find-empty, put, erase, empty}
use phine_af.Map.Unique.{HasOnce, IsUnique, put-IsUnique, erase-IsUnique, empty-IsUnique}
use phine_af.Int.{ℤ}
use phine_af.Outcome.{
  Outcome, returns, throws, undefined, and_use, and_use-Ensures, chain-Ensures, Ensures,
}
use phine_af.Json.{JsonLib, JsonReader, JsonItems, Message}
use phine_af.Subscriptions.{
  Subscription, SubscriptionManager, validate_subscription, read_subscription, read_targeted,
  if_valid, requested, store_requested,
}
use phine_af.Subscriptions.Access.{
  sweep, is_foreign, cleanup_expired_subscriptions, delete_from, delete_found,
}
use phine_af.Subscriptions.Access.Owner.{sweep-value_at, left_by, cleanup_expired-exact}

-- A subscription under its own identifier, valid and active.
abbrev pub IsStored : String → Subscription → Type 0
IsStored k s = (s.id ≡ k) × (validate_subscription s ≡ true) × (s.active ≡ true)

pub record IsSound (m : Map Subscription) : Type 0 where
  pub unique : IsUnique m
  pub stored : (k : String) (s : Subscription) → find k m ≡ some s → IsStored k s

pub empty-IsSound : IsSound empty
empty-IsSound = record { unique = empty-IsUnique; stored = λ k s e. cc (find-empty k, e) }

pub put-IsSound :
    (s : Subscription) (m : Map Subscription) → IsStored s.id s → IsSound m → IsSound (put s.id s m)
put-IsSound s m p h = record {
  unique = put-IsUnique s.id s m h.unique;
  stored = λ k t e. elim (Bool-cases (s.id == k)) [
    | inl f ↦
        let same : s ≡ t = ground (arith, find-put s.id k s m, f, e) in
        subst (IsStored k) same ((eq_iff s.id k).0 f, p.1, p.2)
    | inr f ↦ h.stored k t (ground (arith, find-put s.id k s m, f, e))
  ];
}

erase-IsSound : (i : String) (m : Map Subscription) → IsSound m → IsSound (erase i m)
erase-IsSound i m h = record {
  unique = erase-IsUnique i m h.unique;
  stored = λ k t e. h.stored k t (ground (arith, find-erase i k m, e));
}

sweep-HasOnce : (now : ℕ) (l : List (String × Subscription)) → HasOnce l → HasOnce (sweep now l).0
unfolding sweep HasOnce
sweep-HasOnce now [] h = tt
sweep-HasOnce now ((k, s) ∷ l) h =
    ground (arith, sweep-value_at now k l h.1, sweep-HasOnce now l h.1, h.0)

left_by-some :
    (now : ℕ) (o : Option Subscription) (s : Subscription) → left_by now o ≡ some s → o ≡ some s
left_by-some now none s e = e
left_by-some now (some t) s e = ground (arith, e)

pub cleanup-IsSound :
    (now : ℕ) (m : SubscriptionManager)
    → IsSound m.subscriptions
    → IsSound (cleanup_expired_subscriptions now m).1.subscriptions
unfolding cleanup_expired_subscriptions
cleanup-IsSound now m h = record {
  unique = record { once = sweep-HasOnce now m.subscriptions.entries h.unique.once };
  stored = λ k s e. h.stored k s (
      left_by-some now (find k m.subscriptions) s
        (sym (cleanup_expired-exact now k m h.unique).0 ∙ e));
}

-- It has the identifier that was generated for it.
unfoldable pub IsNew : String → Subscription → Type 0
IsNew generated s = (s.id ≡ generated) × (s.active ≡ true)

module _ (J : JsonLib) (R : JsonReader J) (I : JsonItems J) where
  targeted-IsNew :
      (generated : String) (now : ℕ) (client event url callback : String) (j : J.Json)
      → Ensures (IsNew generated) (read_targeted J R I generated now client event url callback j)
  unfolding read_targeted IsNew Ensures
  targeted-IsNew generated now client event url callback j =
      elim (Bool-cases (is_empty url && is_empty callback)) [
        | inl f ↦ rw f tt
        | inr f ↦ rw f (search and_use-Ensures)
      ]

  pub read-IsNew :
      (generated : String) (now : ℕ) (message : Message) (j : J.Json)
      → Ensures (IsNew generated) (read_subscription J R I generated now message j)
  unfolding read_subscription
  read-IsNew generated now message j = search (and_use-Ensures, targeted-IsNew)

  if_valid-IsNew :
      (generated : String) (s : Subscription)
      → IsNew generated s
      → Ensures (IsNew generated) (if_valid J R I s)
  unfolding if_valid Ensures
  if_valid-IsNew generated s h = elim (Bool-cases (validate_subscription s)) [
    | inl e ↦ rw e h
    | inr e ↦ rw e tt
  ]

  if_valid-IsStored :
      (generated : String) (s : Subscription)
      → IsNew generated s
      → Ensures (λ t. IsStored t.id t) (if_valid J R I s)
  unfolding if_valid IsNew Ensures
  if_valid-IsStored generated s h = elim (Bool-cases (validate_subscription s)) [
    | inl e ↦ rw e (refl, e, h.1)
    | inr e ↦ rw e tt
  ]

  requested-Ensures :
      (P : Subscription → Type 0) (generated : String) (now : ℕ) (message : Message)
      → ((s : Subscription) → IsNew generated s → Ensures P (if_valid J R I s))
      → Ensures P (requested J R I generated now message)
  unfolding requested
  requested-Ensures P generated now message h =
      and_use-Ensures P (J.parse message.payload)
        (λ j. and_use (read_subscription J R I generated now message j) (if_valid J R I))
        (λ j _.
          chain-Ensures (IsNew generated) P (read_subscription J R I generated now message j)
            (if_valid J R I) (read-IsNew generated now message j) h)

  pub requested-IsNew :
      (generated : String) (now : ℕ) (message : Message)
      → Ensures (IsNew generated) (requested J R I generated now message)
  requested-IsNew generated now message =
      requested-Ensures (IsNew generated) generated now message (if_valid-IsNew generated)

  pub requested-IsStored :
      (generated : String) (now : ℕ) (message : Message)
      → Ensures (λ s. IsStored s.id s) (requested J R I generated now message)
  requested-IsStored generated now message =
      requested-Ensures _ generated now message (if_valid-IsStored generated)

  pub store-IsSound :
      (iso : ℤ → String) (message : Message) (o : Outcome Subscription) (m : SubscriptionManager)
      → Ensures (λ s. IsStored s.id s) o
      → IsSound m.subscriptions
      → IsSound (store_requested J R I iso message o m).1.subscriptions
  unfolding store_requested Ensures
  store-IsSound iso message (returns s) m p h = put-IsSound s m.subscriptions p h
  store-IsSound iso message (throws e) m p h = h
  store-IsSound iso message undefined m p h = h

  delete_from-IsSound :
      (message : Message) (i client : String) (o : Option Subscription) (m : SubscriptionManager)
      → IsSound m.subscriptions
      → IsSound (delete_from J R I message i client o m).1.subscriptions
  unfolding delete_from
  delete_from-IsSound message i client none m h = h
  delete_from-IsSound message i client (some s) m h = elim (Bool-cases (is_foreign client s)) [
    | inl e ↦ rw e h
    | inr e ↦ rw e (erase-IsSound i m.subscriptions h)
  ]

  pub delete_found-IsSound :
      (message : Message) (o : Outcome (String × String)) (m : SubscriptionManager)
      → IsSound m.subscriptions
      → IsSound (delete_found J R I message o m).1.subscriptions
  unfolding delete_found
  delete_found-IsSound message (returns (i, client)) m h =
      delete_from-IsSound message i client (find i m.subscriptions) m h
  delete_found-IsSound message (throws e) m h = h
  delete_found-IsSound message undefined m h = h
