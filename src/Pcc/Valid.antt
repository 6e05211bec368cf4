-- ===== src/Pcc/Valid.antt =====
-- What is true of a rule that southbound/pcf_handler/src/pcc_rule_manager.cpp creates from an
-- application session.
use phine_af.Prelude.{
  ℕ, ◌≤◌, String, ◌≡◌, ◌≢◌, refl, sym, ◌∙◌, ap, subst, Bool, true, false, not, ◌&&◌, ◌||◌, ◌==◌,
  ◌⊎◌, inl, inr, eq_iff, arith, is_empty, Option, none, some, Bool-cases,
}
use phine_af.Map.{find, put, find-put_self}
use phine_af.Int.{ℤ, pos, negsuc, less, is_negative}
use phine_af.Json.{JsonLib, JsonReader}
use phine_af.Outcome.{Outcome, returns, throws, undefined, and_use}
use phine_af.Pcc.{PccRule, Cache, validate_rule, exceeds}
use phine_af.Pcc.Create.{
  store_valid, read_int, read_direction, read_descriptions, read_bandwidths, read_app_session,
  create_rule_from_app_session,
}

-- Bandwidths that are not negative; the guaranteed one is not above a maximum that is set.
unfoldable pub AreBandwidths : ℤ → ℤ → Type 0
AreBandwidths g x = (a : ℕ) × (b : ℕ) × (g ≡ pos a) × (x ≡ pos b) × ((b ≡ 0) ⊎ (a ≤ b))

-- An identifier, a known direction, a 5QI from 1 to 79, and bandwidths as above.
unfoldable pub IsValidRule : PccRule → Type 0
unfolding AreBandwidths
IsValidRule r =
    (r.rule_id ≢ "")
    × ((r.flow_direction ≡ "uplink")
        ⊎ ((r.flow_direction ≡ "downlink") ⊎ (r.flow_direction ≡ "bidirectional")))
    × ((n : ℕ) × (r.qos_reference ≡ pos n) × (1 ≤ n) × (n ≤ 79))
    × AreBandwidths r.guaranteed_bandwidth_ul r.maximum_bandwidth_ul
    × AreBandwidths r.guaranteed_bandwidth_dl r.maximum_bandwidth_dl

named : (s : String) → is_empty s ≡ false → s ≢ ""
named s e = ground (arith, e, eq_iff s "")

known :
    (d : String)
    → (d == "uplink" || d == "downlink" || d == "bidirectional") ≡ true
    → (d ≡ "uplink") ⊎ ((d ≡ "downlink") ⊎ (d ≡ "bidirectional"))
known d e = ground (arith, e, eq_iff d "uplink", eq_iff d "downlink", eq_iff d "bidirectional")

reference :
    (q : ℤ)
    → (less q (pos 1) || less (pos 79) q) ≡ false
    → (n : ℕ) × (q ≡ pos n) × (1 ≤ n) × (n ≤ 79)
reference (pos n) e = (n, refl, ground (arith, e), ground (arith, e))
reference (negsuc n) e = cc e

bandwidths :
    (g x : ℤ)
    → is_negative g ≡ false
    → is_negative x ≡ false
    → exceeds g x ≡ false
    → AreBandwidths g x
unfolding AreBandwidths
bandwidths (pos a) (pos b) e f h = (a, b, refl, refl, ground (arith, h))
bandwidths (pos a) (negsuc b) e f h = cc f
bandwidths (negsuc a) x e f h = cc e

-- The tests of the validation, one by one.
guards :
    (a b c d e f g h i : Bool)
    → (not a && b && not c && not d && not e && not f && not g && not h && not i) ≡ true
    → (a ≡ false)
      × (b ≡ true)
      × (c ≡ false)
      × (d ≡ false)
      × (e ≡ false)
      × (f ≡ false)
      × (g ≡ false)
      × (h ≡ false)
      × (i ≡ false)
guards a b c d e f g h i t = ground (arith, t)

validate-IsValidRule : (r : PccRule) → validate_rule r ≡ true → IsValidRule r
unfolding validate_rule IsValidRule
validate-IsValidRule r t =
    let (a, b, c, d, e, f, g, h, i) = guards _ _ _ _ _ _ _ _ _ t in
    (
      named r.rule_id a,
      known r.flow_direction b,
      reference r.qos_reference c,
      bandwidths r.guaranteed_bandwidth_ul r.maximum_bandwidth_ul d f h,
      bandwidths r.guaranteed_bandwidth_dl r.maximum_bandwidth_dl e g i,
    )

and_use-returns :
    {A B : Type 0} (o : Outcome A) (f : A → Outcome B) (b : B)
    → and_use o f ≡ returns b
    → (a : A) × (o ≡ returns a) × (f a ≡ returns b)
and_use-returns (returns a) f b e = (a, refl, e)
and_use-returns (throws x) f b e = cc e
and_use-returns undefined f b e = cc e

abbrev value_or : {A : Type 0} → A → Outcome A → A
value_or a (returns b) = b
value_or a _ = a

abbrev rule_or : PccRule → Outcome (Option PccRule) → PccRule
rule_or r (returns (some s)) = s
rule_or r _ = r

stored-valid :
    (o : Outcome PccRule) (cache : Cache) (r : PccRule)
    → (store_valid o cache).0 ≡ returns (some r)
    → (o ≡ returns r) × (validate_rule r ≡ true) × (find r.rule_id (store_valid o cache).1 ≡ some r)
unfolding store_valid
stored-valid (returns s) cache r e = elim (Bool-cases (validate_rule s)) [
  | inl f ↦
      let done : store_valid (returns s) cache ≡ (returns (some s), put s.rule_id s cache) =
        rw (store_valid, f) refl in
      let same : s ≡ r = ap (rule_or s) (sym (ap (λ x. x.0) done) ∙ e) in
      (
        ap returns same,
        ap validate_rule (sym same) ∙ f,
        ap (λ x. find r.rule_id x.1) done
            ∙ subst (λ x. find x.rule_id (put s.rule_id s cache) ≡ some x) same
                (find-put_self s.rule_id s cache),
      )
  | inr f ↦
      let nothing : (store_valid (returns s) cache).0 ≡ returns none = rw (store_valid, f) refl in
      cc (nothing, e)
]
stored-valid (throws x) cache r e = cc e
stored-valid undefined cache r e = cc e

module _ (J : JsonLib) (R : JsonReader J) where
  -- The number under a key, or a default.
  unfoldable pub HasInt : String → ℤ → J.Json → ℤ → Type 0
  HasInt k d j n =
      ((R.contains k j ≡ true) × (R.as_integer (J.field k j) ≡ returns n))
      ⊎ ((R.contains k j ≡ false) × (n ≡ d))

  read-HasInt :
      (k : String) (d : ℤ) (j : J.Json) (n : ℤ) → read_int J R k d j ≡ returns n → HasInt k d j n
  unfolding read_int HasInt
  read-HasInt k d j n h = elim (Bool-cases (R.contains k j)) [
    | inl e ↦ inl (e, ground (arith, e, h))
    | inr e ↦
        let known : returns d ≡ returns n = ground (arith, e, h) in
        inr (e, sym (ap (value_or d) known))
  ]

  -- The direction that is given, or both.
  unfoldable pub HasDirection : J.Json → String → Type 0
  HasDirection j d =
      ((R.contains "flow_direction" j ≡ true)
        × (R.as_text (J.field "flow_direction" j) ≡ returns d))
      ⊎ ((R.contains "flow_direction" j ≡ false) × (d ≡ "bidirectional"))

  read-HasDirection :
      (j : J.Json) (d : String) → read_direction J R j ≡ returns d → HasDirection j d
  unfolding read_direction HasDirection
  read-HasDirection j d h = elim (Bool-cases (R.contains "flow_direction" j)) [
    | inl e ↦ inl (e, ground (arith, e, h))
    | inr e ↦
        let known : returns "bidirectional" ≡ returns d = ground (arith, e, h) in
        inr (e, sym (ap (value_or "bidirectional") known))
  ]

  -- The members of a rule that are read from an application session: an identifier that is
  -- generated, and a bidirectional flow, no descriptions, a 5QI of 9 and bandwidths of 0 where the
  -- session has no value.
  unfoldable pub IsReadFrom : String → J.Json → PccRule → Type 0
  unfolding HasInt HasDirection
  IsReadFrom generated j r =
      (r.rule_id ≡ generated)
      × HasDirection j r.flow_direction
      × (read_descriptions J R "flow_descriptions" j ≡ returns r.flow_descriptions)
      × HasInt "qos_reference" (pos 9) j r.qos_reference
      × HasInt "guaranteed_bandwidth_ul" (pos 0) j r.guaranteed_bandwidth_ul
      × HasInt "guaranteed_bandwidth_dl" (pos 0) j r.guaranteed_bandwidth_dl
      × HasInt "maximum_bandwidth_ul" (pos 0) j r.maximum_bandwidth_ul
      × HasInt "maximum_bandwidth_dl" (pos 0) j r.maximum_bandwidth_dl

  session-IsReadFrom :
      (generated : String) (j : J.Json) (r : PccRule)
      → read_app_session J R generated j ≡ returns r
      → IsReadFrom generated j r
  unfolding read_app_session read_bandwidths IsReadFrom
  session-IsReadFrom generated j r h =
      let (d, hd, h1) = and_use-returns (read_direction J R j) _ r h in
      let (l, hl, h2) = and_use-returns (read_descriptions J R "flow_descriptions" j) _ r h1 in
      let (q, hq, h3) = and_use-returns (read_int J R "qos_reference" (pos 9) j) _ r h2 in
      let (a, ha, h4) = and_use-returns (read_int J R "guaranteed_bandwidth_ul" (pos 0) j) _ r h3 in
      let (b, hb, h5) = and_use-returns (read_int J R "guaranteed_bandwidth_dl" (pos 0) j) _ r h4 in
      let (u, hu, h6) = and_use-returns (read_int J R "maximum_bandwidth_ul" (pos 0) j) _ r h5 in
      let (v, hv, h7) = and_use-returns (read_int J R "maximum_bandwidth_dl" (pos 0) j) _ r h6 in
      subst (IsReadFrom generated j) (ap (value_or r) h7) (
        refl,
        read-HasDirection j d hd,
        hl,
        read-HasInt "qos_reference" (pos 9) j q hq,
        read-HasInt "guaranteed_bandwidth_ul" (pos 0) j a ha,
        read-HasInt "guaranteed_bandwidth_dl" (pos 0) j b hb,
        read-HasInt "maximum_bandwidth_ul" (pos 0) j u hu,
        read-HasInt "maximum_bandwidth_dl" (pos 0) j v hv,
      )

  -- A rule that is created from an application session has the values of the session under the keys
  -- of its members, or their defaults, and is valid: it has an identifier, which was generated, a
  -- known direction and a 5QI from 1 to 79, and no bandwidth is negative and no guaranteed one
  -- exceeds a maximum that is set. It is the cached rule under its identifier.
  pub created-valid :
      (generated : String) (j : J.Json) (cache : Cache) (r : PccRule)
      → (create_rule_from_app_session J R generated j cache).0 ≡ returns (some r)
      → IsReadFrom generated j r
        × IsValidRule r
        × (find generated (create_rule_from_app_session J R generated j cache).1 ≡ some r)
  unfolding create_rule_from_app_session IsReadFrom
  created-valid generated j cache r e =
      let (read, valid, cached) = stored-valid (read_app_session J R generated j) cache r e in
      let from = session-IsReadFrom generated j r read in
      (
        from,
        validate-IsValidRule r valid,
        subst (λ i. find i (create_rule_from_app_session J R generated j cache).1 ≡ some r) from.0
            cached,
      )
