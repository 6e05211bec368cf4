-- ===== src/Policies/Manager/Valid.antt =====
-- What the validation of af_core/src/policy_manager.cpp accepts.
use phine_af.Prelude.{
  ℕ, ◌≤◌, String, ◌≡◌, refl, ◌≢◌, ◌⊎◌, Bool, true, false, ◌↔◌, not, ◌&&◌, ◌||◌, ◌==◌, eq_iff, arith,
  is_empty, if◌then◌else◌,
}
use phine_af.Int.{ℤ, pos, negsuc, less, is_negative}
use phine_af.Policies.{QoSPolicy, validate_policy}

-- The bandwidths of a policy: none is negative, and the guaranteed one is not above a maximum that
-- is set.
unfoldable pub AreBandwidths : ℤ → ℤ → Type 0
AreBandwidths g x = (a : ℕ) × (b : ℕ) × (g ≡ pos a) × (x ≡ pos b) × ((b ≡ 0) ⊎ (a ≤ b))

-- A policy names an application or a UE, has a known direction, a 5QI from 1 to 79, and bandwidths
-- as above.
unfoldable pub IsValidPolicy : QoSPolicy → Type 0
unfolding AreBandwidths
IsValidPolicy p =
    ((p.app_id ≢ "") ⊎ ((p.ue_ipv4 ≢ "") ⊎ (p.ue_ipv6 ≢ "")))
    × ((p.flow_direction ≡ "uplink")
        ⊎ ((p.flow_direction ≡ "downlink") ⊎ (p.flow_direction ≡ "bidirectional")))
    × ((n : ℕ) × (p.qos_reference ≡ pos n) × (1 ≤ n) × (n ≤ 79))
    × AreBandwidths p.guaranteed_bandwidth p.maximum_bandwidth

named_iff :
    (a b c : String)
    → ((is_empty a && (is_empty b && is_empty c)) ≡ false) ↔ ((a ≢ "") ⊎ ((b ≢ "") ⊎ (c ≢ "")))
named_iff a b c = ground (arith, eq_iff a "", eq_iff b "", eq_iff c "")

direction_iff :
    (d : String)
    → ((not (d == "uplink") && (not (d == "downlink") && not (d == "bidirectional"))) ≡ false)
      ↔ ((d ≡ "uplink") ⊎ ((d ≡ "downlink") ⊎ (d ≡ "bidirectional")))
direction_iff d = ground (arith, eq_iff d "uplink", eq_iff d "downlink", eq_iff d "bidirectional")

reference_iff :
    (q : ℤ)
    → ((less q (pos 1) || less (pos 79) q) ≡ false) ↔ ((n : ℕ) × (q ≡ pos n) × (1 ≤ n) × (n ≤ 79))
reference_iff (pos n) =
    (λ h. (n, refl, ground (arith, h), ground (arith, h)), λ (x, e, l, u). ground (arith, e, l, u))
reference_iff (negsuc n) = (λ h. cc, λ (x, e, l, u). cc)

bandwidths_iff :
    (g x : ℤ)
    → ((is_negative g ≡ false) × (is_negative x ≡ false) × ((less (pos 0) x && less x g) ≡ false))
      ↔ AreBandwidths g x
unfolding AreBandwidths
bandwidths_iff (pos a) (pos b) =
    (λ h. (a, b, refl, refl, ground (arith, h)), λ (c, d, e, f, h). ground (arith, e, f, h))
bandwidths_iff (negsuc a) x = (λ h. cc, λ (c, d, e, f, h). cc)
bandwidths_iff (pos a) (negsuc b) = (λ h. cc, λ (c, d, e, f, h). cc)

guards :
    (a b c d e f : Bool)
    → ((if a
          then false
          else if b
          then false
          else if c
          then false
          else if d
          then false
          else if e
          then false
          else if f
          then false
          else true)
        ≡ true)
      ↔ ((a ≡ false) × (b ≡ false) × (c ≡ false) × (d ≡ false) × (e ≡ false) × (f ≡ false))
guards a b c d e f = ground arith

-- The validation accepts a policy exactly when it names an application or a UE, its direction is
-- known, its 5QI is from 1 to 79, and its bandwidths are not negative and the guaranteed one is not
-- above a maximum that is set.
pub validate_policy_iff : (p : QoSPolicy) → (validate_policy p ≡ true) ↔ IsValidPolicy p
unfolding validate_policy IsValidPolicy
validate_policy_iff p =
    let named = named_iff p.app_id p.ue_ipv4 p.ue_ipv6 in
    let directed = direction_iff p.flow_direction in
    let referred = reference_iff p.qos_reference in
    let bounded = bandwidths_iff p.guaranteed_bandwidth p.maximum_bandwidth in
    let all = guards _ _ _ _ _ _ in
    (
      λ h.
          let (a, b, c, d, e, f) = all.0 h in
          (named.0 a, directed.0 b, referred.0 c, bounded.0 (d, e, f)),
      λ (a, b, c, d).
          let (x, y, z) = bounded.1 d in all.1 (named.1 a, directed.1 b, referred.1 c, x, y, z),
    )
