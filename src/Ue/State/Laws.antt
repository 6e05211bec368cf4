-- ===== src/Ue/State/Laws.antt =====
-- How the methods of a state treat its key, its SUPI and its sessions.
use phine_af.Prelude.{
  ℕ, String, subst, ◌≡◌, refl, ◌∙◌, true, false, none, some, List, arith, contains, ◌==◌, ◌⊎◌, inl,
  inr, Bool-cases, ◌&&◌,
}
use phine_af.Outcome.{returns}
use phine_af.Ue.Common.{Common}
use phine_af.Ue.Key.{
  UeKey, KeyType, supi_based, is_supi_based, single, make_key, can_promote_to_supi,
  demote_to_composite,
}
use phine_af.Ue.Data.{AfUeSubscriptionState, resolved}
use phine_af.Ue.State.{
  touch, resolve_supi, add_known_identifier, remove_known_identifier, set_known, known,
  identifier_type, IdentifierType, same_type, key_type_of, is_nil, demote, erase_first,
}

pub make_key-single :
    (v : String) (key : UeKey) → make_key v supi_based ≡ returns key → key ≡ single supi_based v
unfolding make_key
make_key-single v key h = ground arith

-- Either nothing of the key changes, or a key that is no SUPI's becomes a composite one.
abbrev pub Demotes : UeKey → UeKey → Type 0
Demotes k l = (l ≡ k) ⊎ ((is_supi_based k.type ≡ false) × (l ≡ demote_to_composite k))

not-is_supi_based :
    (kind : IdentifierType) (t : KeyType)
    → same_type t (key_type_of kind) ≡ true
    → is_supi_based t ≡ false
unfolding key_type_of
not-is_supi_based kind t h = ground arith

module _ {C : Common} where
  -- The state of a UE whose SUPI becomes known.
  abbrev pub resolved_as : String → UeKey → ℕ → AfUeSubscriptionState C → AfUeSubscriptionState C
  resolved_as v key now s = touch now (record s {
    ue_key = key;
    supi = some v;
    resolution_state = resolved;
    supi_resolved_at = some now;
  })

  pub resolve_supi-new :
      (v : String) (key : UeKey) (now : ℕ) (s : AfUeSubscriptionState C)
      → s.supi ≡ none
      → can_promote_to_supi s.ue_key ≡ false
      → make_key v supi_based ≡ returns key
      → resolve_supi v now s ≡ (returns tt, resolved_as v key now s)
  unfolding resolve_supi
  resolve_supi-new v key now s h settled made = rw (h, settled, made)

  -- A known identifier is added without touching the key, the SUPI or the sessions.
  pub add_known-keep :
      (type v : String) (now : ℕ) (s : AfUeSubscriptionState C)
      → ((add_known_identifier type v now s).1.ue_key ≡ s.ue_key)
        × ((add_known_identifier type v now s).1.supi ≡ s.supi)
        × ((add_known_identifier type v now s).1.pdu_sessions ≡ s.pdu_sessions)
  unfolding add_known_identifier
  add_known-keep type v now s = ground arith

  set_known-keep :
      (kind : IdentifierType) (l : List String) (s : AfUeSubscriptionState C)
      → ((set_known kind l s).ue_key ≡ s.ue_key)
        × ((set_known kind l s).supi ≡ s.supi)
        × ((set_known kind l s).pdu_sessions ≡ s.pdu_sessions)
  unfolding set_known
  set_known-keep kind l s = ground arith

  demote-keep :
      (kind : IdentifierType) (s : AfUeSubscriptionState C)
      → Demotes s.ue_key (demote kind s).ue_key
        × ((demote kind s).supi ≡ s.supi)
        × ((demote kind s).pdu_sessions ≡ s.pdu_sessions)
  unfolding demote
  demote-keep kind s =
      elim (Bool-cases (same_type s.ue_key.type (key_type_of kind) && is_nil (known kind s))) [
        | inl e ↦ rw e (inr (not-is_supi_based kind s.ue_key.type (ground arith), refl), refl, refl)
        | inr e ↦ rw e (inl refl, refl, refl)
      ]

  change-keep :
      (kind : IdentifierType) (l : List String) (s : AfUeSubscriptionState C)
      → Demotes s.ue_key (demote kind (set_known kind l s)).ue_key
        × ((demote kind (set_known kind l s)).supi ≡ s.supi)
        × ((demote kind (set_known kind l s)).pdu_sessions ≡ s.pdu_sessions)
  change-keep kind l s =
      let a = set_known-keep kind l s in
      let b = demote-keep kind (set_known kind l s) in
      (
        subst (λ k. Demotes k (demote kind (set_known kind l s)).ue_key) a.0 b.0,
        b.1 ∙ a.1,
        b.2 ∙ a.2,
      )

  -- Removing a known identifier keeps the SUPI and the sessions.
  pub remove_known-keep :
      (type v : String) (now : ℕ) (s : AfUeSubscriptionState C)
      → Demotes s.ue_key (remove_known_identifier type v now s).1.ue_key
        × ((remove_known_identifier type v now s).1.supi ≡ s.supi)
        × ((remove_known_identifier type v now s).1.pdu_sessions ≡ s.pdu_sessions)
  unfolding remove_known_identifier
  remove_known-keep type v now s =
      let kind = identifier_type type in
      elim (Bool-cases (contains v (known kind s))) [
        | inl e ↦ rw e (change-keep kind (erase_first (λ w. w == v) (known kind s)) s)
        | inr e ↦ rw e (inl refl, refl, refl)
      ]

-- A composite key without a SUPI cannot be promoted.
pub demote-settled :
    (k : UeKey)
    → can_promote_to_supi k ≡ false
    → is_supi_based k.type ≡ false
    → can_promote_to_supi (demote_to_composite k) ≡ false
unfolding can_promote_to_supi demote_to_composite
demote-settled k h e = ground arith

pub demote_twice : (k : UeKey) → demote_to_composite (demote_to_composite k) ≡ demote_to_composite k
unfolding demote_to_composite
demote_twice k = refl
