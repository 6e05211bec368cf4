-- ===== src/Ue/Search/Results.antt =====
-- What the searches find.
use phine_af.Prelude.{
  ℕ, ◌+◌, String, ◌≡◌, refl, ◌∙◌, true, false, Option, none, some, List, [], ◌∷◌, arith, length,
  map, suc, ap, Bool-cases, inl, inr, if◌then◌else◌,
}
use phine_af.Map.{find}
use phine_af.Outcome.{Outcome, returns, undefined, and_then, Outcome-cases}
use phine_af.Ue.Common.{Common}
use phine_af.Ue.Key.{KeyType, gpsi_based, ipv4_based, ipv6_based, ipv6_prefix_based, make_key}
use phine_af.Ue.Data.{AfUeSubscriptionState, ResolutionState, provisional, partial, resolved}
use phine_af.Ue.Manager.{UeStateManager, locked, find_state}
use phine_af.Ue.Manager.Frame.{owns}
use phine_af.Ue.Invariant.{Inv, primary, supi_of}
use phine_af.Ue.Search.{
  Statistics, search_by, count_state, count_sessions, count_states, get_ue_state_by_supi,
  get_ue_state_by_gpsi, get_ue_state_by_ipv4, get_ue_state_by_ipv6_addr,
  get_ue_state_by_ipv6_prefix, get_ue_state_by_key, get_state_statistics, states,
}

module _ {C : Common} where
  -- A search that asks the index and then locks the mutex again.
  abbrev pub relocks : KeyType → String → Option String → Outcome (Option (AfUeSubscriptionState C))
  relocks t v none = returns none
  relocks t v (some k) = and_then (make_key v t) undefined

  search_by-relocks :
      (t : KeyType) (v : String) (o : Option String) (m : UeStateManager C)
      → m.rw_mtx ≡ true
      → (search_by t v o m).0 ≡ relocks t v o
  unfolding search_by get_ue_state_by_key locked
  search_by-relocks t v none m h = refl
  search_by-relocks t v (some k) m h = elim (Outcome-cases (make_key v t)) [
    | inl (a, e) ↦ rw (e, h)
    | inr (inl (x, e)) ↦ rw e
    | inr (inr e) ↦ rw e
  ]

  -- On a manager that the thread has not locked, the searches by GPSI, IPv4 address, IPv6 address
  -- and IPv6 prefix return no state when the identifier is not indexed; when it is, they throw if it
  -- is ill-formed, and otherwise lock the mutex that they hold, which is undefined behaviour.
  pub searches_relock :
      (v : String) (m : UeStateManager C)
      → m.rw_mtx ≡ false
      → ((get_ue_state_by_gpsi v m).0 ≡ relocks gpsi_based v (find v m.key_by_gpsi))
        × ((get_ue_state_by_ipv4 v m).0 ≡ relocks ipv4_based v (find v m.key_by_ipv4_addr))
        × ((get_ue_state_by_ipv6_addr v m).0 ≡ relocks ipv6_based v (find v m.key_by_ipv6_addr))
        × ((get_ue_state_by_ipv6_prefix v m).0
            ≡ relocks ipv6_prefix_based v (find v m.key_by_ipv6_prefix))
  unfolding get_ue_state_by_gpsi get_ue_state_by_ipv4 get_ue_state_by_ipv6_addr
      get_ue_state_by_ipv6_prefix locked
  searches_relock v m h = (
    rw h (search_by-relocks gpsi_based v (find v m.key_by_gpsi) (record m { rw_mtx = true }) refl),
    rw h (
        search_by-relocks ipv4_based v (find v m.key_by_ipv4_addr) (record m { rw_mtx = true })
          refl),
    rw h (
        search_by-relocks ipv6_based v (find v m.key_by_ipv6_addr) (record m { rw_mtx = true })
          refl),
    rw h (
        search_by-relocks ipv6_prefix_based v (find v m.key_by_ipv6_prefix)
          (record m { rw_mtx = true }) refl),
  )

  abbrev pub if_owned : String → Option (AfUeSubscriptionState C) → Option (AfUeSubscriptionState C)
  if_owned v o = if owns v (supi_of o) then o else none

  -- Under the invariant, and on a manager that the thread has not locked, the search by SUPI agrees
  -- with the map of states: it returns the state under the key of the SUPI if that state has this
  -- SUPI, and no state otherwise.
  pub get_ue_state_by_supi-eq-find :
      (v : String) (m : UeStateManager C)
      → m.rw_mtx ≡ false
      → Inv m
      → (get_ue_state_by_supi v m).0 ≡ returns (if_owned v (find_state (primary v) m))
  unfolding get_ue_state_by_supi locked
  get_ue_state_by_supi-eq-find v m h c =
      elim (Bool-cases (owns v (supi_of (find_state (primary v) m)))) [
        | inl e ↦ rw (h, c.index v, e) refl
        | inr e ↦ rw (h, c.index v, e) refl
      ]

abbrev pub resolution_total : Statistics → ℕ
resolution_total t = t.resolved_count + t.provisional_count + t.partial_count

count_state-total :
    (r : ResolutionState) (t : Statistics)
    → resolution_total (count_state r t) ≡ suc (resolution_total t)
count_state-total provisional t = omega arith
count_state-total partial t = omega arith
count_state-total resolved t = omega arith

count_state-keep :
    (r : ResolutionState) (t : Statistics) → (count_state r t).total_states ≡ t.total_states
count_state-keep provisional t = refl
count_state-keep partial t = refl
count_state-keep resolved t = refl

length-map {ℓ κ} : {A : Type ℓ} {B : Type κ} (f : A → B) (l : List A) → length (map f l) ≡ length l
length-map f [] = refl
length-map f (a ∷ l) = ap suc (length-map f l)

module _ {C : Common} where
  count_states-total :
      (l : List (AfUeSubscriptionState C)) (t : Statistics)
      → (resolution_total (count_states l t) ≡ resolution_total t + length l)
        × ((count_states l t).total_states ≡ t.total_states)
  unfolding count_states
  count_states-total [] t = (omega arith, refl)
  count_states-total (s ∷ l) t =
      let t' = count_state s.resolution_state t in
      let ih = count_states-total l (record t' {
        active_qod_sessions = t'.active_qod_sessions + count_sessions s.pdu_sessions;
      }) in
      (
        ground (arith, ih.0, count_state-total s.resolution_state t),
        ih.1 ∙ count_state-keep s.resolution_state t,
      )

  -- On a manager that the thread has not locked, the statistics count each state once: the resolved,
  -- the provisional and the partial states together are all the states that are stored.
  pub statistics_add_up :
      (m : UeStateManager C)
      → m.rw_mtx ≡ false
      → (t : Statistics) × ((get_state_statistics m).0 ≡ returns t)
        × (t.total_states ≡ length m.ue_states_by_key.entries)
        × (resolution_total t ≡ t.total_states)
  unfolding get_state_statistics locked
  statistics_add_up m h =
      let start : Statistics = record {
        total_states = length m.ue_states_by_key.entries;
        resolved_count = 0;
        provisional_count = 0;
        partial_count = 0;
        active_qod_sessions = 0;
      } in
      let counted = count_states-total (states m) start in
      let measured = length-map (λ e. e.1) m.ue_states_by_key.entries in
      (
        count_states (states m) start,
        rw h refl,
        counted.1,
        ground (arith, counted.0, counted.1, measured),
      )
