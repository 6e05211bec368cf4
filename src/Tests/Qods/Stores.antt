-- ===== src/Tests/Qods/Stores.antt =====
-- Runs of the session store.
use phine_af.Prelude.{String, ◌≡◌, refl, none, List, [], ◌∷◌, contains}
use phine_af.Map.{empty, find, value_at, put, replace}
use phine_af.Map.Unique.{holds}
use phine_af.Qod.Types.{QosStatus, unavailable}
use phine_af.Qod.Store.{init, add_session, get_sessions_by_status, same_status}
use phine_af.Qod.Store.Invariant.{Inv}
use phine_af.Qod.Store.Run.{Call, run, step, AreAllowed, adds, removes, sets_status, maps_pcf}
use phine_af.Qod.Store.Run.{store_run-Inv}
use phine_af.Qod.Store.Lookups.{ids}
use phine_af.Ue.Manager.Frame.{owns}
use phine_af.Qod.Store.Invariant.{supi_of}
use phine_af.Qod.Store.{get_sessions_by_supi}
use phine_af.Qod.Store.Abstract.{abstraction, abstract_run, store-refines}
use phine_af.Tests.Qods.{waiting, running}

history : List (Call Unit)
history =
    adds waiting
    ∷ adds running
    ∷ sets_status "qod-1" unavailable none
    ∷ maps_pcf "pcf-1" "qod-2"
    ∷ removes "qod-1"
    ∷ []

history-AreAllowed : AreAllowed history init
unfolding history AreAllowed step init add_session find value_at put replace empty
history-AreAllowed = (refl, (refl, (tt, (tt, (tt, tt)))))

store_run-Inv_example : Inv (run history init)
store_run-Inv_example = store_run-Inv history history-AreAllowed

store-refines_example :
    (abstraction (run history init) ≡ abstract_run history (λ _. none))
    × ((v i : String)
        → contains i (get_sessions_by_supi v (run history init))
          ≡ owns v (supi_of (abstract_run history (λ _. none) i)))
    × ((x : QosStatus) (i : String)
        → contains i (ids (get_sessions_by_status x (run history init)))
          ≡ holds (λ s. same_status s.qos_status x) (abstract_run history (λ _. none) i))
store-refines_example = store-refines history history-AreAllowed
