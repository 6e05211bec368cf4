-- ===== src/Tests/Ues.antt =====
-- The theorems on the UE states at concrete managers.
use phine_af.Prelude.{ℕ, String, ◌≡◌, refl, true, false, none, some, List, [], ◌∷◌}
use phine_af.Map.{find, value_at, put, replace, empty}
use phine_af.Map.Unique.{HasOnce, IsUnique}
use phine_af.Outcome.{returns, undefined}
use phine_af.Ue.Key.{
  gpsi_based, supi_based, ipv4_based, ipv6_based, ipv6_prefix_based, make_key, validate,
  get_primary_key,
}
use phine_af.Ue.Key.Format.{validate_supi_format}
use phine_af.Ue.Key.Laws.{single-not_supi, single-settled, get_primary_key-demote}
use phine_af.Ue.State.Laws.{resolved_as}
use phine_af.Ue.Manager.{
  UeStateManager, init, find_state, locked, add_ue_indices, remove_ue_indices,
  add_pdu_session_indices,
}
use phine_af.Ue.Invariant.{Inv, IsOwned, IsOwned-keep, primary}
use phine_af.Ue.Invariant.Core.{provisional-IsOwned}
use phine_af.Ue.Run.{Call, run, step, updates, creates, sets_gpsi, adds_qod_to_pdu, removes, cleans}
use phine_af.Ue.Run.Theorems.{run-init-Inv}
use phine_af.Ue.Core.{
  initial_or, update_ue_state, update_ue_state_internal, promote_ue_state_to_resolved,
}
use phine_af.Ue.Core.Effects.{promote-conflict}
use phine_af.Ue.Search.{
  get_ue_state_by_key, get_ue_state_by_supi, get_ue_state_by_gpsi, get_ue_state_by_ipv4,
  get_ue_state_by_ipv6_addr, get_ue_state_by_ipv6_prefix,
}
use phine_af.Ue.Search.Results.{searches_relock, relocks, get_ue_state_by_supi-eq-find, if_owned}
use phine_af.Ue.Search.Promotion.{promote-search}
use phine_af.Ue.PduSession.{remove_pdu_session}
use phine_af.Ue.PduSession.Events.{remove_pdu-publishes, ends, published}
use phine_af.Tests.{plain, gpsi_key, supi_key, pdu, by_gpsi, by_supi}

abbrev v : String
v = "imsi-001010000000001"

abbrev start : UeStateManager plain
start = init (some [])

-- One state, without a SUPI.
abbrev one : UeStateManager plain
one = (update_ue_state by_gpsi start).1

-- And one with the SUPI.
abbrev two : UeStateManager plain
two = (update_ue_state by_supi one).1

by_gpsi-IsOwned : IsOwned (get_primary_key gpsi_key) by_gpsi
by_gpsi-IsOwned =
    IsOwned-keep by_gpsi (provisional-IsOwned gpsi_based "+4912345678" 5 (λ e. cc e)) refl refl

history : List (ℕ × Call plain)
history =
    (5, updates by_gpsi)
    ∷ (6, creates supi_key none)
    ∷ (7, sets_gpsi supi_key "+4987654321")
    ∷ (8, adds_qod_to_pdu gpsi_key "pdu-1" "qod-2")
    ∷ (9, removes supi_key)
    ∷ (90, cleans 1 60)
    ∷ []

run-init-Inv_example : Inv (run history (init (some [])))
unfolding history initial_or
run-init-Inv_example =
    run-init-Inv (some []) history (
      by_gpsi-IsOwned,
      (provisional-IsOwned supi_based v 6 (λ e. cc e), (tt, (tt, (tt, (tt, tt))))),
    )

one-Inv : Inv one
unfolding run step
one-Inv = run-init-Inv (some []) ((5, updates by_gpsi) ∷ []) (by_gpsi-IsOwned, tt)

one-free : one.rw_mtx ≡ false
unfolding find value_at update_ue_state update_ue_state_internal locked init add_ue_indices
    remove_ue_indices add_pdu_session_indices put replace empty get_primary_key
one-free = refl

two-free : two.rw_mtx ≡ false
unfolding find value_at update_ue_state update_ue_state_internal locked init add_ue_indices
    remove_ue_indices add_pdu_session_indices put replace empty get_primary_key
two-free = refl

two-Inv : Inv two
unfolding run step
two-Inv = run-init-Inv (some []) ((5, updates by_gpsi) ∷ (7, updates by_supi) ∷ []) (
  by_gpsi-IsOwned,
  (
    record {
      keyed = refl;
      named = λ w e. cc e;
      settled = single-settled supi_based v (λ e. cc e);
      stable = get_primary_key-demote supi_based v (λ e. cc e);
    },
    tt,
  ),
)

one-by_gpsi : find_state (get_primary_key gpsi_key) one ≡ some by_gpsi
unfolding find value_at update_ue_state update_ue_state_internal locked init add_ue_indices
    remove_ue_indices add_pdu_session_indices put replace empty get_primary_key
one-by_gpsi = refl

two-by_gpsi : find_state (get_primary_key gpsi_key) two ≡ some by_gpsi
unfolding find value_at update_ue_state update_ue_state_internal locked init add_ue_indices
    remove_ue_indices add_pdu_session_indices put replace empty get_primary_key
two-by_gpsi = refl

two-by_supi : find_state (primary v) two ≡ some by_supi
unfolding find value_at update_ue_state update_ue_state_internal locked init add_ue_indices
    remove_ue_indices add_pdu_session_indices put replace empty get_primary_key
two-by_supi = refl

one-unresolved : find_state (primary v) one ≡ none
unfolding find value_at update_ue_state update_ue_state_internal locked init add_ue_indices
    remove_ue_indices add_pdu_session_indices put replace empty get_primary_key
one-unresolved = refl

well_formed : make_key v supi_based ≡ returns supi_key
unfolding make_key validate validate_supi_format
well_formed = refl

-- The search by SUPI finds the state that has it.
get_ue_state_by_supi-eq-find_example :
    (get_ue_state_by_supi v two).0 ≡ returns (if_owned v (find_state (primary v) two))
get_ue_state_by_supi-eq-find_example = get_ue_state_by_supi-eq-find v two two-free two-Inv

promote-search_example :
    ((promote_ue_state_to_resolved gpsi_key v 9 one).0 ≡ returns true)
    × ((get_ue_state_by_supi v (promote_ue_state_to_resolved gpsi_key v 9 one).1).0
        ≡ returns (some (resolved_as v supi_key 9 by_gpsi)))
    × ((get_ue_state_by_key gpsi_key (promote_ue_state_to_resolved gpsi_key v 9 one).1).0
        ≡ returns none)
promote-search_example =
    promote-search gpsi_key v 9 by_gpsi one one-free one-Inv one-by_gpsi well_formed one-unresolved
      (λ w. single-not_supi gpsi_based "+4912345678" w (λ e. cc e) (λ e. cc e))

promote-conflict_example : promote_ue_state_to_resolved gpsi_key v 9 two ≡ (undefined, two)
promote-conflict_example =
    promote-conflict gpsi_key v 9 by_gpsi by_supi two two-free two-by_gpsi well_formed two-by_supi
      (single-not_supi gpsi_based "+4912345678" v (λ e. cc e) (λ e. cc e))

-- The address of the PDU session is in the index.
searches_relock_example :
    ((get_ue_state_by_gpsi "10.0.0.1" one).0
      ≡ relocks gpsi_based "10.0.0.1" (find "10.0.0.1" one.key_by_gpsi))
    × ((get_ue_state_by_ipv4 "10.0.0.1" one).0
        ≡ relocks ipv4_based "10.0.0.1" (find "10.0.0.1" one.key_by_ipv4_addr))
    × ((get_ue_state_by_ipv6_addr "10.0.0.1" one).0
        ≡ relocks ipv6_based "10.0.0.1" (find "10.0.0.1" one.key_by_ipv6_addr))
    × ((get_ue_state_by_ipv6_prefix "10.0.0.1" one).0
        ≡ relocks ipv6_prefix_based "10.0.0.1" (find "10.0.0.1" one.key_by_ipv6_prefix))
searches_relock_example = searches_relock "10.0.0.1" one one-free

remove_pdu-publishes_example :
    ((remove_pdu_session supi_key "pdu-1" 9 two).0 ≡ ends (some v) two.event_dispatcher)
    × ((remove_pdu_session supi_key "pdu-1" 9 two).1.event_dispatcher
        ≡ published (some v) "pdu-1" two.event_dispatcher)
remove_pdu-publishes_example =
    remove_pdu-publishes supi_key "pdu-1" 9 by_supi pdu two two-free two-by_supi refl

two-IsUnique : IsUnique two.ue_states_by_key
unfolding find value_at update_ue_state update_ue_state_internal locked init add_ue_indices
    remove_ue_indices add_pdu_session_indices put replace empty get_primary_key HasOnce
two-IsUnique = record { once = (refl, (refl, tt)) }
