-- ===== src/Ue/Invariant.antt =====
-- The invariant of the UE states: each state stands under its own key, a state with a SUPI under
-- that of the SUPI, and the index by SUPI holds those states and no others.
pub mod Core
pub mod Promote
pub mod Updates
pub mod Sessions
use phine_af.Prelude.{
  String, ◌≡◌, refl, true, false, Option, none, some, arith, ◌==◌, eq_iff, Bool-cases, Option-cases,
  inl, inr, if◌then◌else◌,
}
use phine_af.Map.{Map, find}
use phine_af.Ue.Common.{Common}
use phine_af.Ue.Key.{supi_based, single, get_primary_key, can_promote_to_supi, demote_to_composite}
use phine_af.Ue.Data.{AfUeSubscriptionState}
use phine_af.Ue.Manager.{UeStateManager, locked}
use phine_af.Outcome.{Method}
use phine_af.Ue.Manager.Frame.{owns}

-- The key of the states of a SUPI.
abbrev pub primary : String → String
primary v = get_primary_key (single supi_based v)

module _ {C : Common} where
  abbrev pub supi_of : Option (AfUeSubscriptionState C) → Option String
  supi_of none = none
  supi_of (some s) = s.supi

  pub record IsOwned (k : String) (s : AfUeSubscriptionState C) : Type 0 where
    pub keyed : get_primary_key s.ue_key ≡ k
    pub named : (v : String) → s.supi ≡ some v → k ≡ primary v
    pub settled : can_promote_to_supi s.ue_key ≡ false
    pub stable : get_primary_key (demote_to_composite s.ue_key) ≡ k

  -- A change of the other members.
  pub IsOwned-keep :
      {k : String} {s : AfUeSubscriptionState C} (t : AfUeSubscriptionState C)
      → IsOwned k s
      → t.ue_key ≡ s.ue_key
      → t.supi ≡ s.supi
      → IsOwned k t
  IsOwned-keep t own key supi = record {
    keyed = rw key own.keyed;
    named = λ v e. own.named v (cc (e, supi));
    settled = rw key own.settled;
    stable = rw key own.stable;
  }

  -- What the index holds for a SUPI whose key has this state.
  abbrev pub indexed : String → Option (AfUeSubscriptionState C) → Option String
  indexed v o = if owns v (supi_of o) then some (primary v) else none

  pub record IsConsistent (states : Map (AfUeSubscriptionState C)) (supis : Map String)
      : Type 0 where
    pub owned : (k : String) (s : AfUeSubscriptionState C) → find k states ≡ some s → IsOwned k s
    pub index : (v : String) → find v supis ≡ indexed v (find (primary v) states)

  -- The invariant of a manager.
  abbrev pub Inv : UeStateManager C → Type 0
  Inv m = IsConsistent m.ue_states_by_key m.key_by_supi

  pub owns-named :
      (k v : String) (o : Option (AfUeSubscriptionState C))
      → ((s : AfUeSubscriptionState C) → o ≡ some s → IsOwned k s)
      → owns v (supi_of o) ≡ true
      → k ≡ primary v
  owns-named k v none h e = cc
  owns-named k v (some s) h e = elim (Option-cases s.supi) [
    | inl f ↦ ground (arith, f)
    | inr (w, f) ↦ (h s refl).named v (ground (arith, f, eq_iff w v))
  ]

  -- One entry of the states changes, and the index follows.
  module _ (k : String) (o : Option (AfUeSubscriptionState C))
      (states states' : Map (AfUeSubscriptionState C)) (supis supis' : Map String) where
    pub assign-IsConsistent :
        IsConsistent states supis
        → ((s : AfUeSubscriptionState C) → o ≡ some s → IsOwned k s)
        → ((j : String) → find j states' ≡ (if k == j then o else find j states))
        → ((v : String)
            → find v supis' ≡ (
                if owns v (supi_of o)
                then some k
                else if owns v (supi_of (find k states))
                then none
                else find v supis))
        → IsConsistent states' supis'
    assign-IsConsistent c h at_states at_supis = record {
      owned = λ j s e. ground (arith, at_states j, c.owned j s, h s, eq_iff k j);
      index = λ v. ground (
        arith,
        at_supis v,
        at_states (primary v),
        c.index v,
        eq_iff k (primary v),
        owns-named k v o h,
        owns-named k v (find k states) (c.owned k),
      );
    }

module _ {C : Common} {A : Type 0} where
  -- The lock is no concern of the invariant.
  pub locked-Inv :
      (body : Method (UeStateManager C) A) (m : UeStateManager C)
      → Inv m
      → Inv (body (record m { rw_mtx = true })).1
      → Inv (locked body m).1
  unfolding locked
  locked-Inv body m c h = elim (Bool-cases m.rw_mtx) [ inl e ↦ rw e c | inr e ↦ rw e h ]
