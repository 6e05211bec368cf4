-- ===== src/Pcc/Roundtrip.antt =====
-- A rule that is converted to the format of the PCF and parsed again.
use Prim.Native.String.{◌++◌, len}
use text.Mathlib.Text.{find?}
use text.Mathlib.TextPositions.{slice-append_left, len-append}
use phine_af.Prelude.{
  ℕ, ◌≤◌, String, ◌≡◌, refl, sym, ◌∙◌, ap, Bool, true, false, Option, none, some, List, [], ◌∷◌,
  map, arith, Bool-cases, inl, inr, if◌then◌else◌,
}
use phine_af.Map.{empty, put, value_at}
use phine_af.Int.{ℤ, pos}
use phine_af.Decimal.{to_string}
use phine_af.Decimal.Laws.{find-unit, stoi-to_string, to_string-IsNumeral}
use phine_af.Json.{JsonLib, JsonReader, JsonLaws, object}
use phine_af.Outcome.{returns}
use phine_af.Ue.State.{is_nil}
use phine_af.Pcc.{PccRule, Cache, new_rule}
use phine_af.Pcc.Format.{
  kbps, number_part, parse_bandwidth, is_set, flow_info, set_flows, set_bandwidths, qos_data,
  convert_rule_to_pcf_format, read_id, read_infos, read_flows, read_reference, read_bandwidth,
  read_qos, read_rule, cached, parse_rule_from_pcf_format,
}

number_part-kbps : (n : ℕ) → number_part (kbps (pos n)) ≡ to_string n
number_part-kbps n =
    let s = to_string n in
    let found : find? (s ++ " Kbps") " Kbps" ≡ some (len s) =
      ground (arith, find-unit s (to_string-IsNumeral n), len-append s " Kbps") in
    rw (number_part, found) (slice-append_left s " Kbps")

-- The bandwidths of a rule that passed the validation are not negative.
parse-kbps : (n : ℕ) → n ≤ 2147483647 → parse_bandwidth (kbps (pos n)) ≡ pos n
unfolding parse_bandwidth
parse-kbps n h = rw (parse_bandwidth, number_part-kbps n, stoi-to_string n h) refl

unset : (a b : ℕ) → is_set (pos a) (pos b) ≡ false → (a ≡ 0) × (b ≡ 0)
unset a b h = (ground (arith, h), ground (arith, h))

-- A rule without additional parameters, whose bandwidths are not negative.
abbrev pub simple_rule : String → String → List String → ℤ → ℕ → ℕ → ℕ → ℕ → PccRule
simple_rule direction i l q a b c d = record {
  rule_id = i;
  flow_direction = direction;
  flow_descriptions = l;
  qos_reference = q;
  guaranteed_bandwidth_ul = pos a;
  guaranteed_bandwidth_dl = pos b;
  maximum_bandwidth_ul = pos c;
  maximum_bandwidth_dl = pos d;
  additional_params = empty;
}

module _ (J : JsonLib) (R : JsonReader J) (W : JsonLaws J R) where
  open J use {Json, text}
  open R use {integer}

  read-bandwidth :
      (k : String) (l : List (String × Json)) (n : ℕ) (b : Bool)
      → value_at k l ≡ (if b then some (text (kbps (pos n))) else none)
      → (b ≡ false → n ≡ 0)
      → n ≤ 2147483647
      → read_bandwidth J R k (object J l) ≡ returns (pos n)
  unfolding read_bandwidth
  read-bandwidth k l n true e z h =
      rw
        (
          read_bandwidth,
          W.contains-object k l,
          e,
          W.field-object k l (text (kbps (pos n))) e,
          W.as_text-text (kbps (pos n)),
          parse-kbps n h,
        )
        refl
  read-bandwidth k l n false e z h =
      rw (read_bandwidth, W.contains-object k l, e) (ap (λ x. returns (pos x)) (sym (z refl)))

  -- The fields of two bandwidths, if they are written.
  abbrev band_fields : String → String → ℕ → ℕ → Bool → List (String × Json) → List (String × Json)
  band_fields up down a b true l = (down, text (kbps (pos b))) ∷ (up, text (kbps (pos a))) ∷ l
  band_fields up down a b false l = l

  set-object :
      (up down : String) (a b : ℕ) (l : List (String × Json))
      → set_bandwidths J R up down (pos a) (pos b) (object J l)
        ≡ object J (band_fields up down a b (is_set (pos a) (pos b)) l)
  unfolding set_bandwidths
  set-object up down a b l = elim (Bool-cases (is_set (pos a) (pos b))) [
    | inl e ↦ rw (set_bandwidths, e) refl
    | inr e ↦ rw (set_bandwidths, e) refl
  ]

  abbrev qos_fields : ℤ → ℕ → ℕ → ℕ → ℕ → Bool → Bool → List (String × Json)
  qos_fields q a b c d g m =
      band_fields "mbrUl" "mbrDl" c d m
        (band_fields "gbrUl" "gbrDl" a b g (("5qi", integer q) ∷ []))

  abbrev if_written : Bool → ℕ → Option Json
  if_written b n = if b then some (text (kbps (pos n))) else none

  fields-found :
      (q : ℤ) (a b c d : ℕ) (g m : Bool)
      → (value_at "5qi" (qos_fields q a b c d g m) ≡ some (integer q))
        × (value_at "gbrUl" (qos_fields q a b c d g m) ≡ if_written g a)
        × (value_at "gbrDl" (qos_fields q a b c d g m) ≡ if_written g b)
        × (value_at "mbrUl" (qos_fields q a b c d g m) ≡ if_written m c)
        × (value_at "mbrDl" (qos_fields q a b c d g m) ≡ if_written m d)
  unfolding value_at
  fields-found q a b c d true true = (refl, refl, refl, refl, refl)
  fields-found q a b c d true false = (refl, refl, refl, refl, refl)
  fields-found q a b c d false true = (refl, refl, refl, refl, refl)
  fields-found q a b c d false false = (refl, refl, refl, refl, refl)

  read_qos-fields :
      (r : PccRule) (q : ℤ) (a b c d : ℕ) (g m : Bool)
      → (g ≡ false → (a ≡ 0) × (b ≡ 0))
      → (m ≡ false → (c ≡ 0) × (d ≡ 0))
      → a ≤ 2147483647
      → b ≤ 2147483647
      → c ≤ 2147483647
      → d ≤ 2147483647
      → read_qos J R r (object J (qos_fields q a b c d g m))
        ≡ returns (record r {
          qos_reference = q;
          guaranteed_bandwidth_ul = pos a;
          guaranteed_bandwidth_dl = pos b;
          maximum_bandwidth_ul = pos c;
          maximum_bandwidth_dl = pos d;
        })
  unfolding read_qos read_reference
  read_qos-fields r q a b c d g m zg zm ha hb hc hd =
      let l = qos_fields q a b c d g m in
      let (reference, gu, gd, mu, md) = fields-found q a b c d g m in
      rw
        (
          read_qos,
          read_reference,
          W.contains-object "5qi" l,
          reference,
          W.field-object "5qi" l (integer q) reference,
          W.as_integer-integer q,
          read-bandwidth "gbrUl" l a g gu (λ e. (zg e).0) ha,
          read-bandwidth "gbrDl" l b g gd (λ e. (zg e).1) hb,
          read-bandwidth "mbrUl" l c m mu (λ e. (zm e).0) hc,
          read-bandwidth "mbrDl" l d m md (λ e. (zm e).1) hd,
        )
        refl

  infos-found : (l : List String) → read_infos J R (map (flow_info J R) l) ≡ returns l
  unfolding read_infos flow_info value_at
  infos-found [] = refl
  infos-found (d ∷ l) =
      let one : List (String × Json) = ("flowDescription", text d) ∷ [] in
      let there : R.contains "flowDescription" (flow_info J R d) ≡ true =
        W.contains-object "flowDescription" one in
      let value : J.field "flowDescription" (flow_info J R d) ≡ text d =
        W.field-object "flowDescription" one (text d) refl in
      rw (there, value, W.as_text-text d, infos-found l) refl

  abbrev flow_fields : List String → Bool → List (String × Json) → List (String × Json)
  flow_fields l true j = j
  flow_fields l false j = ("flowInfos", J.array (map (flow_info J R) l)) ∷ j

  flows-object :
      (l : List String) (j : List (String × Json))
      → set_flows J R l (object J j) ≡ object J (flow_fields l (is_nil l) j)
  unfolding set_flows
  flows-object l j = elim (Bool-cases (is_nil l)) [
    | inl e ↦ rw (set_flows, e) refl
    | inr e ↦ rw (set_flows, e) refl
  ]

  -- The fields of a rule in the format of the PCF.
  abbrev rule_fields : String → List String → Bool → Json → List (String × Json)
  rule_fields i l b q = ("qosData", q) ∷ flow_fields l b (("pccRuleId", text i) ∷ [])

  read-parts :
      (generated i : String) (l : List String) (b : Bool) (q : Json)
      → (b ≡ true → l ≡ [])
      → (read_id J R generated (object J (rule_fields i l b q)) ≡ returns i)
        × (read_flows J R (object J (rule_fields i l b q)) ≡ returns l)
        × (R.contains "qosData" (object J (rule_fields i l b q)) ≡ true)
        × (J.field "qosData" (object J (rule_fields i l b q)) ≡ q)
  unfolding read_id read_flows value_at
  read-parts generated i l true q h =
      let f = rule_fields i l true q in
      (
        rw (read_id, W.contains-object "pccRuleId" f, W.field-object "pccRuleId" f (text i) refl)
            (W.as_text-text i),
        rw (read_flows, W.contains-object "flowInfos" f) (ap returns (sym (h refl))),
        W.contains-object "qosData" f,
        W.field-object "qosData" f q refl,
      )
  read-parts generated i l false q h =
      let f = rule_fields i l false q in
      let infos = J.array (map (flow_info J R) l) in
      (
        rw (read_id, W.contains-object "pccRuleId" f, W.field-object "pccRuleId" f (text i) refl)
            (W.as_text-text i),
        rw
            (
              read_flows,
              W.contains-object "flowInfos" f,
              W.field-object "flowInfos" f infos refl,
              W.elements-array (map (flow_info J R) l),
            )
            (infos-found l),
        W.contains-object "qosData" f,
        W.field-object "qosData" f q refl,
      )

  qos-object :
      (direction i : String) (l : List String) (q : ℤ) (a b c d : ℕ)
      → qos_data J R (simple_rule direction i l q a b c d)
        ≡ object J (qos_fields q a b c d (is_set (pos a) (pos b)) (is_set (pos c) (pos d)))
  unfolding qos_data
  qos-object direction i l q a b c d =
      ap (set_bandwidths J R "mbrUl" "mbrDl" (pos c) (pos d))
        (set-object "gbrUl" "gbrDl" a b (("5qi", integer q) ∷ []))
      ∙ set-object "mbrUl" "mbrDl" c d
          (band_fields "gbrUl" "gbrDl" a b (is_set (pos a) (pos b)) (("5qi", integer q) ∷ []))

  rule-object :
      (direction i : String) (l : List String) (q : ℤ) (a b c d : ℕ)
      → convert_rule_to_pcf_format J R (simple_rule direction i l q a b c d)
        ≡ object J (rule_fields i l (is_nil l) (qos_data J R (simple_rule direction i l q a b c d)))
  unfolding convert_rule_to_pcf_format empty
  rule-object direction i l q a b c d =
      ap (J.set "qosData" (qos_data J R (simple_rule direction i l q a b c d)))
        (flows-object l (("pccRuleId", text i) ∷ []))

  nil-is_nil : (l : List String) → is_nil l ≡ true → l ≡ []
  nil-is_nil [] e = refl
  nil-is_nil (x ∷ l) e = cc

  -- A rule that is converted to the format of the PCF and parsed again is the same rule, but for its
  -- flow direction, which is then bidirectional, and it is cached under its identifier. The rule has
  -- no additional parameters, and its bandwidths are not negative and within the range of an `int`;
  -- the JSON library behaves as documented.
  pub parse-convert :
      (generated direction i : String) (l : List String) (q : ℤ) (a b c d : ℕ) (cache : Cache)
      → a ≤ 2147483647
      → b ≤ 2147483647
      → c ≤ 2147483647
      → d ≤ 2147483647
      → parse_rule_from_pcf_format J R generated
          (convert_rule_to_pcf_format J R (simple_rule direction i l q a b c d))
          cache
        ≡ (
          returns (some (simple_rule "bidirectional" i l q a b c d)),
          put i (simple_rule "bidirectional" i l q a b c d) cache,
        )
  unfolding parse_rule_from_pcf_format cached read_rule new_rule
  parse-convert generated direction i l q a b c d cache ha hb hc hd =
      let qos = qos_data J R (simple_rule direction i l q a b c d) in
      let (id, flows, there, value) = read-parts generated i l (is_nil l) qos (nil-is_nil l) in
      let back =
        read_qos-fields
          (record new_rule { rule_id = i; flow_descriptions = l; flow_direction = "bidirectional" })
          q a b c d (is_set (pos a) (pos b)) (is_set (pos c) (pos d)) (unset a b) (unset c d) ha hb
          hc hd in
      let read : read_rule J R generated (object J (rule_fields i l (is_nil l) qos))
          ≡ returns (simple_rule "bidirectional" i l q a b c d) =
        rw (read_rule, id, flows, there, value, qos-object direction i l q a b c d) back in
      ap (λ j. cached (read_rule J R generated j) cache) (rule-object direction i l q a b c d)
      ∙ ap (λ o. cached o cache) read
