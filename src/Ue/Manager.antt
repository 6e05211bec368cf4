-- ===== src/Ue/Manager.antt =====
-- The members of the class `UeStateManager` of af_core/include/ue_state_manager.h, its mutex, and
-- the helpers of af_core/src/ue_state_manager.cpp that keep the secondary indices.
pub mod Frame
use phine_af.Prelude.{
  String, Bool, true, false, Option, none, some, List, ◌==◌, each, if◌then◌else◌,
}
use phine_af.Map.{Map, empty, find, put, erase}
use phine_af.Outcome.{Method, undefined}
use phine_af.Ue.Common.{Common}
use phine_af.Ue.Key.{get_primary_key}
use phine_af.Ue.Data.{PduSessionData, AfUeSubscriptionState}

-- `af::core::events::PduSessionTerminatedEvent` of af_core/include/events/events.h.
pub record PduSessionTerminatedEvent : Type 0 where
  pub supi : String
  pub pdu_session_id : String

-- `rw_mtx` says whether the calling thread owns the mutex, in either mode. `event_dispatcher` is
-- absent for the null pointer of the default constructor, and else the events published so far.
-- The indices by MAC address and by PDU session are never read or written, and are left out.
pub record UeStateManager (C : Common) : Type 0 where
  pub ue_states_by_key : Map (AfUeSubscriptionState C)
  pub key_by_supi : Map String
  pub key_by_gpsi : Map String
  pub key_by_ipv4_addr : Map String
  pub key_by_ipv6_addr : Map String
  pub key_by_ipv6_prefix : Map String
  pub event_dispatcher : Option (List PduSessionTerminatedEvent)
  pub rw_mtx : Bool

unfoldable pub init : {C : Common} → Option (List PduSessionTerminatedEvent) → UeStateManager C
init dispatcher = record {
  ue_states_by_key = empty;
  key_by_supi = empty;
  key_by_gpsi = empty;
  key_by_ipv4_addr = empty;
  key_by_ipv6_addr = empty;
  key_by_ipv6_prefix = empty;
  event_dispatcher = dispatcher;
  rw_mtx = false;
}

-- `if (value) index[*value] = key;` and `if (value) index.erase(*value);`
abbrev pub put_if : Option String → String → Map String → Map String
put_if none k i = i
put_if (some v) k i = put v k i

abbrev pub erase_if : Option String → Map String → Map String
erase_if none i = i
erase_if (some v) i = erase v i

-- Only an entry that points to the key is erased.
unfoldable pub erase_own : String → String → Map String → Map String
erase_own k v i = elim (find v i) [ some j ↦ if j == k then erase v i else i | none ↦ i ]

abbrev pub erase_own_if : Option String → String → Map String → Map String
erase_own_if none k i = i
erase_own_if (some v) k i = erase_own k v i

module _ {C : Common} where
  -- A method under a lock of `rw_mtx_`, which is released however the method ends. The standard
  -- leaves a lock by the owner of the mutex undefined, in the shared mode too.
  unfoldable pub locked : {A : Type 0} → Method (UeStateManager C) A → Method (UeStateManager C) A
  locked body m =
      if m.rw_mtx
      then (undefined, m)
      else (let r = body (record m { rw_mtx = true }) in (r.0, record (r.1) { rw_mtx = false }))

  abbrev pub find_state : String → UeStateManager C → Option (AfUeSubscriptionState C)
  find_state k m = find k m.ue_states_by_key

  abbrev pub put_state : String → AfUeSubscriptionState C → UeStateManager C → UeStateManager C
  put_state k s m = record m { ue_states_by_key = put k s m.ue_states_by_key }

  abbrev pub erase_state : String → UeStateManager C → UeStateManager C
  erase_state k m = record m { ue_states_by_key = erase k m.ue_states_by_key }

  unfoldable pub add_pdu_session_indices :
      String → PduSessionData C → UeStateManager C → UeStateManager C
  add_pdu_session_indices k p m = record m {
    key_by_ipv4_addr = put_if p.ue_ipv4_address k m.key_by_ipv4_addr;
    key_by_ipv6_prefix = each (λ v. put v k) p.ue_ipv6_prefixes m.key_by_ipv6_prefix;
    key_by_ipv6_addr = each (λ v. put v k) p.ue_ipv6_addresses m.key_by_ipv6_addr;
  }

  unfoldable pub remove_pdu_session_indices :
      String → PduSessionData C → UeStateManager C → UeStateManager C
  remove_pdu_session_indices k p m = record m {
    key_by_ipv4_addr = erase_own_if p.ue_ipv4_address k m.key_by_ipv4_addr;
    key_by_ipv6_prefix = each (erase_own k) p.ue_ipv6_prefixes m.key_by_ipv6_prefix;
    key_by_ipv6_addr = each (erase_own k) p.ue_ipv6_addresses m.key_by_ipv6_addr;
  }

  -- The loop body of `remove_ue_indices`: the entries go, whatever key they point to.
  erase_pdu_session_indices : PduSessionData C → UeStateManager C → UeStateManager C
  erase_pdu_session_indices p m = record m {
    key_by_ipv4_addr = erase_if p.ue_ipv4_address m.key_by_ipv4_addr;
    key_by_ipv6_prefix = each erase p.ue_ipv6_prefixes m.key_by_ipv6_prefix;
    key_by_ipv6_addr = each erase p.ue_ipv6_addresses m.key_by_ipv6_addr;
  }

  unfoldable pub add_ue_indices : AfUeSubscriptionState C → UeStateManager C → UeStateManager C
  unfolding add_pdu_session_indices
  add_ue_indices s m =
      let k = get_primary_key s.ue_key in
      each (add_pdu_session_indices k) s.pdu_sessions (record m {
        key_by_supi = put_if s.supi k m.key_by_supi;
        key_by_gpsi = put_if s.gpsi k m.key_by_gpsi;
      })

  unfoldable pub remove_ue_indices : AfUeSubscriptionState C → UeStateManager C → UeStateManager C
  unfolding erase_pdu_session_indices
  remove_ue_indices s m = each erase_pdu_session_indices s.pdu_sessions (record m {
    key_by_supi = erase_if s.supi m.key_by_supi;
    key_by_gpsi = erase_if s.gpsi m.key_by_gpsi;
  })

-- An entry that points to the old key is made to point to the new one.
abbrev move_own : String → String → String → Map String → Map String
move_own k l v i = elim (find v i) [ some j ↦ if j == k then put v l i else i | none ↦ i ]

abbrev move_own_if : Option String → String → String → Map String → Map String
move_own_if none k l i = i
move_own_if (some v) k l i = move_own k l v i

module _ {C : Common} where
  move_pdu_session_indices :
      String → String → PduSessionData C → UeStateManager C → UeStateManager C
  move_pdu_session_indices k l p m = record m {
    key_by_ipv4_addr = move_own_if p.ue_ipv4_address k l m.key_by_ipv4_addr;
    key_by_ipv6_addr = each (move_own k l) p.ue_ipv6_addresses m.key_by_ipv6_addr;
    key_by_ipv6_prefix = each (move_own k l) p.ue_ipv6_prefixes m.key_by_ipv6_prefix;
  }

  -- No method calls it.
  unfoldable pub update_indices_for_key_change :
      String → String → AfUeSubscriptionState C → UeStateManager C → UeStateManager C
  unfolding move_pdu_session_indices
  update_indices_for_key_change k l s m =
      each (move_pdu_session_indices k l) s.pdu_sessions (record m {
        key_by_supi = move_own_if s.supi k l m.key_by_supi;
        key_by_gpsi = move_own_if s.gpsi k l m.key_by_gpsi;
      })
