-- ===== src/Qod/Lifecycle/Ue.antt =====
-- The UE states that a QoD session is resolved to and writes, in
-- af_core/src/qod/qod_session_manager.cpp.
use phine_af.Prelude.{
  ℕ, String, Bool, ◌||◌, Option, none, some, [], ◌∷◌, ◌==◌, find_if, is_some, is_empty,
  if◌then◌else◌,
}
use phine_af.Outcome.{Outcome, Method, returns, pure, lift, ◌>>=◌, ◌>>◌}
use phine_af.Ue.Common.{Common}
use phine_af.Ue.Key.{UeKey}
use phine_af.Ue.Data.{
  PduSessionData, AfUeSubscriptionState, default_pdu, provisional_state, resolved_state,
}
use phine_af.Ue.State.{set_gpsi, add_known_identifier}
use phine_af.Ue.Manager.{UeStateManager}
use phine_af.Ue.Core.{create_or_update_provisional_ue_state}
use phine_af.Ue.Search.{get_ue_state_by_gpsi, get_ue_state_by_ipv4, get_ue_state_by_ipv6_addr}
use phine_af.Ue.PduSession.{add_or_update_pdu_session}
use phine_af.Qod.Types.{DeviceIpv4, QodDevice, QodSession}
use phine_af.Qod.Sessions.{QodSessionManager}
use phine_af.Qod.Pcf.{session_key, caught}
use phine_af.Qod.Pcf.Termination.{on_ue, public_of}

abbrev private_of : QodDevice → Option String
private_of d = elim d.ipv4_address [ none ↦ none | some a ↦ a.private_address ]

abbrev pdu_type : QodDevice → String
pdu_type d =
    if is_some d.ipv6_address then (if is_some d.ipv4_address then "IPV4V6" else "IPV6") else "IPV4"

module _ {C : Common} where
  -- A search that is made only while no state is found.
  abbrev or_else :
      Option (AfUeSubscriptionState C)
      → Method (UeStateManager C) (Option (AfUeSubscriptionState C))
      → Method (UeStateManager C) (Option (AfUeSubscriptionState C))
  or_else none search = search
  or_else (some s) search = pure (some s)

  unfoldable pub search_public :
      String → Method (UeStateManager C) (Option (AfUeSubscriptionState C))
  search_public v = if is_empty v then pure none else get_ue_state_by_ipv4 v

  abbrev search_if :
      (String → Method (UeStateManager C) (Option (AfUeSubscriptionState C)))
      → Option String
      → Method (UeStateManager C) (Option (AfUeSubscriptionState C))
  search_if search none = pure none
  search_if search (some v) = search v

  unfoldable pub search_ipv4 :
      Option DeviceIpv4 → Method (UeStateManager C) (Option (AfUeSubscriptionState C))
  unfolding search_public
  search_ipv4 none = pure none
  search_ipv4 (some a) = do
    found ← search_public a.public_address
    or_else found (search_if get_ue_state_by_ipv4 a.private_address)

  -- Phone number, then the IPv4 addresses, then IPv6.
  unfoldable pub search_device :
      QodDevice → Method (UeStateManager C) (Option (AfUeSubscriptionState C))
  unfolding search_ipv4
  search_device d = do
    by_phone ← search_if get_ue_state_by_gpsi d.phone_number
    by_ipv4 ← or_else by_phone (search_ipv4 d.ipv4_address)
    or_else by_ipv4 (search_if get_ue_state_by_ipv6_addr d.ipv6_address)

  abbrev is_active : PduSessionData C → Bool
  is_active p = p.status == "ACTIVE"

  -- The SUPI of a state, and its first active PDU session.
  abbrev resolution : Option (AfUeSubscriptionState C) → Option String × Option String
  resolution none = (none, none)
  resolution (some s) = (
    s.supi,
    elim (find_if is_active s.pdu_sessions) [ none ↦ none | some p ↦ some p.pdu_session_id ],
  )

  abbrev add_known : String → ℕ → String → AfUeSubscriptionState C → AfUeSubscriptionState C
  add_known type now v s = (add_known_identifier type v now s).1

  abbrev known_if : String → ℕ → Option String → AfUeSubscriptionState C → AfUeSubscriptionState C
  known_if type now none s = s
  known_if type now (some v) s = add_known type now v s

  abbrev gpsi_if : ℕ → Option String → AfUeSubscriptionState C → AfUeSubscriptionState C
  gpsi_if now none s = s
  gpsi_if now (some v) s = set_gpsi v now s

  -- The identifiers of the device, in the order of the source.
  unfoldable pub with_device : QodDevice → ℕ → AfUeSubscriptionState C → AfUeSubscriptionState C
  with_device d now s =
      let named = gpsi_if now d.phone_number s in
      known_if "gpsi" now d.phone_number (
        known_if "ipv6" now d.ipv6_address
          (known_if "ipv4" now (private_of d) (known_if "ipv4" now (public_of d) named)))

  -- With a SUPI the state is resolved from the start, so that it need not be resolved later.
  unfoldable pub initial_state : Option String → UeKey → ℕ → Outcome (AfUeSubscriptionState C)
  initial_state (some v) key now = resolved_state v now
  initial_state none key now = returns (provisional_state key now)

  unfoldable pub device_pdu : String → QodDevice → String → PduSessionData C
  device_pdu i d q = record default_pdu {
    pdu_session_id = i;
    status = "ACTIVE";
    pdu_session_type = pdu_type d;
    ue_ipv4_address = public_of d;
    ue_ipv6_addresses = elim d.ipv6_address [ none ↦ [] | some v ↦ v ∷ [] ];
    active_qod_session_ids = q ∷ [];
  }

  unfoldable pub add_device_pdu :
      UeKey → Option String → QodDevice → String → ℕ → Method (UeStateManager C) (Unit {0})
  unfolding device_pdu
  add_device_pdu key none d q now = pure tt
  add_device_pdu key (some i) d q now =
      if is_some d.ipv4_address || is_some d.ipv6_address
      then (add_or_update_pdu_session key (device_pdu i d q) now >> pure tt)
      else pure tt

  unfoldable pub write_session :
      UeKey
      → Option String
      → Option String
      → QodDevice
      → String
      → ℕ
      → Method (UeStateManager C) (Unit {0})
  unfolding initial_state with_device add_device_pdu
  write_session key supi i d q now = do
    s ← lift (initial_state supi key now)
    create_or_update_provisional_ue_state key (some (with_device d now s)) now
    add_device_pdu key i d q now

  unfoldable pub write_ue_state :
      Option String → Option String → QodDevice → String → ℕ → Method (UeStateManager C) (Unit {0})
  unfolding session_key write_session
  write_ue_state supi i d q now = do
    found ← lift (session_key supi d)
    elim found [ none ↦ pure tt | some key ↦ write_session key supi i d q now ]

module _ {C : Common} {Credential : Type 0} where
  unfoldable pub resolve_device :
      QodDevice → Method (QodSessionManager C Credential) (Option String × Option String)
  unfolding search_device
  resolve_device d = on_ue (none, none) (search_device d >>= λ found. pure (resolution found))

  -- An exception is caught here.
  unfoldable pub create_or_update_ue_state :
      QodSession Credential → ℕ → Method (QodSessionManager C Credential) (Unit {0})
  unfolding write_ue_state
  create_or_update_ue_state s now = elim s.device [
    | none ↦ pure tt
    | some d ↦
        on_ue tt (λ u. caught (write_ue_state s.ue_supi s.pdu_session_id d s.session_id now u))
  ]
