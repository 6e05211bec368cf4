-- ===== src/Qod/Sessions/Listed.antt =====
-- Which sessions a request of af_core/src/qod/qod_session_manager.cpp for those of a device means.
use phine_af.Prelude.{
  String, ◌≡◌, ◌↔◌, ◌⊎◌, inl, inr, refl, ap, subst, sym, eq_iff, true, false, Option, none, some,
  arith,
}
use phine_af.Qod.Types.{
  QodSession, QodDevice, DeviceIpv4, QosStatus, requested, available, unavailable,
}
use phine_af.Qod.Store.{same_status}
use phine_af.Qod.Requests.{
  RetrieveSessionsRequest, is_retrieved, both_equal, same_ipv4, device_matches, on_device,
}

-- Two optional texts are there and the same.
unfoldable pub SharesText : Option String → Option String → Type 0
SharesText a b = (v : String) × (a ≡ some v) × (b ≡ some v)

-- Two optional addresses are there, with the same public or private part.
unfoldable pub SharesIpv4 : Option DeviceIpv4 → Option DeviceIpv4 → Type 0
unfolding SharesText
SharesIpv4 a b =
    (x : DeviceIpv4) × (y : DeviceIpv4) × (a ≡ some x)
    × (b ≡ some y)
    × ((x.public_address ≡ y.public_address) ⊎ SharesText x.private_address y.private_address)

-- A device of a request, if it names one, shares an identifier with that of a session.
unfoldable pub IsOn : Option QodDevice → Option QodDevice → Type 0
unfolding SharesText SharesIpv4
IsOn none o = Unit
IsOn (some d) o =
    (e : QodDevice) × (o ≡ some e)
    × (SharesText d.phone_number e.phone_number
        ⊎ (SharesIpv4 d.ipv4_address e.ipv4_address ⊎ SharesText d.ipv6_address e.ipv6_address))

-- A session of the consumer that is requested or available, on the device.
unfoldable pub IsListed :
    {Credential : Type 0} → RetrieveSessionsRequest → QodSession Credential → Type 0
unfolding IsOn
IsListed r s =
    (s.api_consumer_id ≡ r.api_consumer_id)
    × ((s.qos_status ≡ requested) ⊎ (s.qos_status ≡ available))
    × IsOn r.device s.device

both_equal_iff : (a b : Option String) → (both_equal a b ≡ true) ↔ SharesText a b
unfolding SharesText
both_equal_iff none b = (λ h. cc, λ (v, e, f). cc)
both_equal_iff (some s) none = (λ h. cc, λ (v, e, f). cc)
both_equal_iff (some s) (some t) =
    (λ h. (t, ap some ((eq_iff s t).0 h), refl), λ (v, e, f). (eq_iff s t).1 cc)

same_ipv4_iff : (a b : Option DeviceIpv4) → (same_ipv4 a b ≡ true) ↔ SharesIpv4 a b
unfolding same_ipv4 SharesIpv4
same_ipv4_iff none b = (λ h. cc, λ (x, y, e, f, g). cc)
same_ipv4_iff (some s) none = (λ h. cc, λ (x, y, e, f, g). cc)
same_ipv4_iff (some s) (some t) = (
  λ h. (
    s,
    t,
    refl,
    refl,
    ground (
      arith,
      h,
      eq_iff s.public_address t.public_address,
      both_equal_iff s.private_address t.private_address,
    ),
  ),
  λ (x, y, e, f, g).
      let same_s : s ≡ x = cc e in
      let same_t : t ≡ y = cc f in
      ground (
        arith,
        g,
        ap (λ d. d.public_address) same_s,
        ap (λ d. d.public_address) same_t,
        ap (λ d. d.private_address) same_s,
        ap (λ d. d.private_address) same_t,
        eq_iff s.public_address t.public_address,
        both_equal_iff s.private_address t.private_address,
      ),
)

device_matches_iff :
    (d e : QodDevice)
    → (device_matches d e ≡ true) ↔ (
        SharesText d.phone_number e.phone_number
        ⊎ (SharesIpv4 d.ipv4_address e.ipv4_address ⊎ SharesText d.ipv6_address e.ipv6_address))
unfolding device_matches
device_matches_iff d e = ground (
  arith,
  both_equal_iff d.phone_number e.phone_number,
  same_ipv4_iff d.ipv4_address e.ipv4_address,
  both_equal_iff d.ipv6_address e.ipv6_address,
)

placed_iff :
    (o p : Option QodDevice)
    → ((elim o [ none ↦ true | some d ↦ elim p [ none ↦ false | some e ↦ device_matches d e ] ])
        ≡ true)
      ↔ IsOn o p
unfolding IsOn
placed_iff none p = (λ h. tt, λ h. refl)
placed_iff (some d) none = (λ h. cc, λ (e, f, g). cc)
placed_iff (some d) (some x) = (
  λ h. (x, refl, (device_matches_iff d x).0 h),
  λ (e, f, g).
      let same : x ≡ e = cc f in
      subst (λ y. device_matches d y ≡ true) (sym same) ((device_matches_iff d e).1 g),
)

live_iff :
    (x : QosStatus) → (same_status x unavailable ≡ false) ↔ ((x ≡ requested) ⊎ (x ≡ available))
live_iff requested = (λ h. inl refl, λ h. refl)
live_iff available = (λ h. inr refl, λ h. refl)
live_iff unavailable = (λ h. cc, λ h. ground (arith, h))

on_device-placed :
    {Credential : Type 0} (o : Option QodDevice) (s : QodSession Credential)
    → on_device o s ≡ (elim o [
      | none ↦ true
      | some d ↦ elim s.device [ none ↦ false | some e ↦ device_matches d e ]
    ])
on_device-placed none s = refl
on_device-placed (some d) s = refl

pub is_retrieved_iff :
    {Credential : Type 0} (r : RetrieveSessionsRequest) (s : QodSession Credential)
    → (is_retrieved r s ≡ true) ↔ IsListed r s
unfolding is_retrieved IsListed
is_retrieved_iff r s = ground (
  arith,
  eq_iff s.api_consumer_id r.api_consumer_id,
  live_iff s.qos_status,
  placed_iff r.device s.device,
  on_device-placed r.device s,
)
