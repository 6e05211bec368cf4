-- ===== src/Ue/Key/Laws.antt =====
-- The laws of `get_primary_key`, which orders, compares and stores the keys.
use Prim.Native.String.{◌++◌, slice, len}
use text.Mathlib.TextPositions.{slice-append_left}
use text.Mathlib.TextLemmas.{append_assoc, append_cancel_left}
use phine_af.Prelude.{
  String, ◌≡◌, refl, sym, ap, ◌∙◌, ◌≢◌, ◌↔◌, true, false, ◌||◌, some, is_some, arith, ◌==◌, eq_iff,
  if◌then◌else◌,
}
use phine_af.Ue.Key.{
  KeyType, supi_based, gpsi_based, ipv4_based, ipv6_based, ipv6_prefix_based, mac_addr_based,
  composite, UeKey, single, get_primary_key, key_eq, demote_to_composite, promote_to_supi,
  is_resolved, can_promote_to_supi,
}

tag : KeyType → String
tag supi_based = "supi:"
tag gpsi_based = "gpsi:"
tag ipv4_based = "ipv4:"
tag ipv6_based = "ipv6:"
tag ipv6_prefix_based = "ipv6_prefix:"
tag mac_addr_based = "mac:"
tag composite = ""

primary_of_single :
    (t : KeyType) (v : String) → t ≢ composite → get_primary_key (single t v) ≡ tag t ++ v
unfolding get_primary_key tag
primary_of_single supi_based v h = refl
primary_of_single gpsi_based v h = refl
primary_of_single ipv4_based v h = refl
primary_of_single ipv6_based v h = refl
primary_of_single ipv6_prefix_based v h = refl
primary_of_single mac_addr_based v h = refl
primary_of_single composite v h = absurd (h refl)

-- The kind of identifier that a stored key names.
kind : String → KeyType
kind s =
    if slice s 0 4 == "supi"
    then supi_based
    else if slice s 0 4 == "gpsi"
    then gpsi_based
    else if slice s 0 4 == "ipv4"
    then ipv4_based
    else if slice s 0 4 == "mac:"
    then mac_addr_based
    else if slice s 0 5 == "ipv6:"
    then ipv6_based
    else ipv6_prefix_based

start : (p q v : String) → slice ((p ++ q) ++ v) 0 (len p) ≡ p
start p q v = rw (append_assoc p q v) (slice-append_left p (q ++ v))

kind-tag : (t : KeyType) (v : String) → t ≢ composite → kind (tag t ++ v) ≡ t
unfolding kind tag
kind-tag supi_based v h = rw (start "supi" ":" v)
kind-tag gpsi_based v h = rw (start "gpsi" ":" v)
kind-tag ipv4_based v h = rw (start "ipv4" ":" v)
kind-tag ipv6_based v h = rw (start "ipv6" ":" v, start "ipv6:" "" v)
kind-tag ipv6_prefix_based v h = rw (start "ipv6" "_prefix:" v, start "ipv6_" "prefix:" v)
kind-tag mac_addr_based v h = rw (start "mac:" "" v)
kind-tag composite v h = absurd (h refl)

tags_agree :
    (t u : KeyType) (v w : String)
    → t ≢ composite
    → u ≢ composite
    → tag t ++ v ≡ tag u ++ w
    → (t ≡ u) × (v ≡ w)
tags_agree t u v w ht hu e = (same, append_cancel_left (tag u) v w (rw same at e))
  where
    same : t ≡ u
    same = sym (kind-tag t v ht) ∙ ap kind e ∙ kind-tag u w hu

-- Two keys of one identifier each are equal (`operator==`, and so the map of UE states) exactly when
-- they name the same identifier: neither two kinds nor two values of one kind share an entry.
pub key_eq-single :
    (t u : KeyType) (v w : String)
    → t ≢ composite
    → u ≢ composite
    → (key_eq (single t v) (single u w) ≡ true) ↔ ((t ≡ u) × (v ≡ w))
unfolding key_eq
key_eq-single t u v w ht hu = (
  λ h. tags_agree t u v w ht hu (
      sym (primary_of_single t v ht)
      ∙ (eq_iff (get_primary_key (single t v)) (get_primary_key (single u w))).0 h
      ∙ primary_of_single u w hu),
  λ p. (eq_iff (get_primary_key (single t v)) (get_primary_key (single u w))).1 (cc (p.0, p.1)),
)

-- Demotion to a composite key keeps the primary key of a key of one identifier, so that a state
-- whose identifiers are forgotten is still found.
pub get_primary_key-demote :
    (t : KeyType) (v : String)
    → t ≢ composite
    → get_primary_key (demote_to_composite (single t v)) ≡ get_primary_key (single t v)
unfolding get_primary_key demote_to_composite
get_primary_key-demote supi_based v h = refl
get_primary_key-demote gpsi_based v h = refl
get_primary_key-demote ipv4_based v h = refl
get_primary_key-demote ipv6_based v h = refl
get_primary_key-demote ipv6_prefix_based v h = refl
get_primary_key-demote mac_addr_based v h = refl
get_primary_key-demote composite v h = absurd (h refl)

-- Promotion to the SUPI leaves a key resolved exactly when it was, or holds a SUPI.
pub promote-is_resolved :
    (k : UeKey) → is_resolved (promote_to_supi k) ≡ (is_resolved k || is_some k.supi_value)
unfolding is_resolved promote_to_supi
promote-is_resolved k = ground arith

get_primary_key-promote_lem :
    (k : UeKey) (v : String)
    → k.supi_value ≡ some v
    → get_primary_key (promote_to_supi k) ≡ get_primary_key (single supi_based v)
unfolding get_primary_key promote_to_supi
get_primary_key-promote_lem k v h = ground arith

pub single-settled :
    (t : KeyType) (v : String) → t ≢ composite → can_promote_to_supi (single t v) ≡ false
unfolding can_promote_to_supi
single-settled t v h = ground arith

-- A key of another kind is not the key of a SUPI.
pub single-not_supi :
    (t : KeyType) (v w : String)
    → t ≢ composite
    → t ≢ supi_based
    → get_primary_key (single t v) ≢ get_primary_key (single supi_based w)
single-not_supi t v w h other e =
    other
      ((key_eq-single t supi_based v w h (λ g. cc g)).0 (
        unfold key_eq in
        (eq_iff (get_primary_key (single t v)) (get_primary_key (single supi_based w))).1 e)).0
