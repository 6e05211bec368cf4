-- ===== src/Qod/Store/Invariant.antt =====
-- The invariant of the session store: each session stands under its identifier, and the index by
-- SUPI has exactly the sessions of the SUPI and no empty set.
use phine_af.Prelude.{
  String, ◌≡◌, refl, true, false, not, ◌&&◌, ◌||◌, Option, none, some, List, [], ◌∷◌, arith, ◌==◌,
  eq_iff, contains, set_insert, set_erase,
}
use phine_af.Map.{Map, find}
use phine_af.Map.Unique.{IsUnique}
use phine_af.Ue.State.{is_nil}
use phine_af.Ue.Manager.Frame.{owns}
use phine_af.Qod.Types.{QodSession}
use phine_af.Qod.Store.{QodStateManager, set_at}

pub contains-set_erase :
    (i j : String) (l : List String) → contains j (set_erase i l) ≡ (not (i == j) && contains j l)
contains-set_erase i j [] = ground arith
contains-set_erase i j (k ∷ l) =
    ground (arith, contains-set_erase i j l, eq_iff k i, eq_iff k j, eq_iff i j)

pub contains-set_insert :
    (i j : String) (l : List String) → contains j (set_insert i l) ≡ ((i == j) || contains j l)
contains-set_insert i j l = ground (arith, eq_iff i j)

pub contains-is_nil : (j : String) (l : List String) → is_nil l ≡ true → contains j l ≡ false
contains-is_nil j [] h = refl
contains-is_nil j (k ∷ l) h = cc

module _ {Credential : Type 0} where
  abbrev pub supi_of : Option (QodSession Credential) → Option String
  supi_of none = none
  supi_of (some s) = s.ue_supi

  pub record IsIndexed (sessions : Map (QodSession Credential)) (supis : Map (List String))
      : Type 0 where
    pub unique : IsUnique sessions
    pub named :
        (i : String) (s : QodSession Credential) → find i sessions ≡ some s → s.session_id ≡ i
    pub exact : (v i : String) → contains i (set_at v supis) ≡ owns v (supi_of (find i sessions))
    pub filled : (v : String) (l : List String) → find v supis ≡ some l → is_nil l ≡ false

  abbrev pub Inv : QodStateManager Credential → Type 0
  Inv m = IsIndexed m.sessions_by_id m.sessions_by_supi
