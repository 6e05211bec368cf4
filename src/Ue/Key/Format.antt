-- ===== src/Ue/Key/Format.antt =====
-- The format checks of af_core/src/models/ue_key.cpp. Each throws `std::invalid_argument`, here
-- with its message. Texts are ASCII, so that a character is a byte.
use Prim.Native.String.{◌++◌, len, slice}
use text.Mathlib.Text.{starts_with, find?}
use phine_af.Prelude.{
  ℕ, ◌+◌, ◌-◌, ◌*◌, String, Bool, true, false, not, ◌&&◌, ◌||◌, Option, none, some, List, [], ◌∷◌,
  eqb, ltb, leb, is_empty, is_some, if◌then◌else◌,
}
use phine_af.Outcome.{Outcome, returns, throws}
use phine_af.Regex.{Regex, within, seq, alt, opt, times, up_to, between, char, codes, regex_match}

is_digit : ℕ → Bool
is_digit c = leb b'0' c && leb c b'9'

-- `std::all_of(begin, end, ::isdigit)`.
all_digits : List ℕ → Bool
unfolding is_digit
all_digits [] = true
all_digits (c ∷ s) = is_digit c && all_digits s

-- `value.substr(n)`, within the text.
abbrev from : ℕ → String → String
from n s = slice s n (len s)

unfoldable pub validate_supi_format : String → Outcome (Unit {0})
unfolding all_digits
validate_supi_format value =
    if is_empty value
    then throws "SUPI value cannot be empty"
    else if starts_with value "imsi-"
    then (let imsi_digits = from 5 value in
        if is_empty imsi_digits || ltb 15 (len imsi_digits)
        then throws "Invalid IMSI format in SUPI: must be imsi-<5-15 digits>"
        else if all_digits (codes imsi_digits)
        then returns tt
        else throws "Invalid IMSI format in SUPI: digits only after imsi-")
    else if starts_with value "nai-"
    then (let nai_part = from 4 value in
        if is_empty nai_part || not (is_some (find? nai_part "@"))
        then throws "Invalid NAI format in SUPI: must be nai-<username>@<domain>"
        else returns tt)
    else throws "Invalid SUPI format: must start with 'imsi-' or 'nai-'"

-- `user@domain`: the first `@` is neither the first nor the last character.
check_at : String → Option ℕ → Outcome (Unit {0})
check_at value (some at_pos) =
    if eqb at_pos 0 || eqb at_pos (len value - 1)
    then throws "Invalid user@domain format in GPSI: must be <user>@<domain>"
    else returns tt
check_at value none =
    throws "Invalid GPSI format: must start with 'e164-' or be in user@domain format"

unfoldable pub validate_gpsi_format : String → Outcome (Unit {0})
unfolding all_digits check_at
validate_gpsi_format value =
    if is_empty value
    then throws "GPSI value cannot be empty"
    else if starts_with value "+"
    then (let e164 = from 1 value in
        if is_empty e164 || ltb 15 (len e164)
        then throws "Invalid E.164 format in GPSI: must be +<digits>"
        else if all_digits (codes e164)
        then returns tt
        else throws "Invalid E.164 format in GPSI: digits only after +")
    else check_at value (find? value "@")

abbrev digit : Regex
digit = within b'0' b'9'

-- (25[0-5]|2[0-4][0-9]|1[0-9]{2}|[1-9]?[0-9])
abbrev octet : Regex
octet = alt (seq (char b'2') (seq (char b'5') (within b'0' b'5'))) (
    alt (seq (char b'2') (seq (within b'0' b'4') digit))
      (alt (seq (char b'1') (times 2 digit)) (seq (opt (within b'1' b'9')) digit)))

-- ^(octet\.){3}octet$
abbrev ipv4_pattern : Regex
ipv4_pattern = seq (times 3 (seq octet (char b'.'))) octet

unfoldable pub validate_ipv4_format : String → Outcome (Unit {0})
unfolding regex_match
validate_ipv4_format value =
    if is_empty value
    then throws "IPv4 address cannot be empty"
    else if regex_match value ipv4_pattern
    then returns tt
    else throws ("Invalid IPv4 address format: " ++ value)

-- [0-9a-fA-F]
abbrev hex : Regex
hex = alt digit (alt (within b'a' b'f') (within b'A' b'F'))

-- ^([0-9a-fA-F]{0,4}:){2,7}([0-9a-fA-F]{0,4}|(octet\.){3}octet)$
abbrev ipv6_pattern : Regex
ipv6_pattern = seq (between 2 7 (seq (up_to 4 hex) (char b':'))) (alt (up_to 4 hex) ipv4_pattern)

unfoldable pub validate_ipv6_format : String → Outcome (Unit {0})
unfolding regex_match
validate_ipv6_format value =
    if is_empty value
    then throws "IPv6 address cannot be empty"
    else if not (is_some (find? value ":"))
    then throws "Invalid IPv6 address format: must contain colons"
    else if regex_match value ipv6_pattern
    then returns tt
    else throws ("Invalid IPv6 address format: " ++ value)

-- `isspace` of the C locale.
abbrev is_space : ℕ → Bool
is_space c = leb 9 c && leb c 13 || eqb c 32

skip_space : List ℕ → List ℕ
skip_space [] = []
skip_space (c ∷ s) = let rest = skip_space s in if is_space c then rest else c ∷ s

-- The longest run of digits, and `none` if there is none.
digits_from : ℕ → List ℕ → ℕ
unfolding is_digit
digits_from n [] = n
digits_from n (c ∷ s) =
    let rest = digits_from (n * 10 + (c - b'0')) s in if is_digit c then rest else n

digits : List ℕ → Option ℕ
unfolding digits_from
digits [] = none
digits (c ∷ s) = if is_digit c then some (digits_from 0 (c ∷ s)) else none

-- An `int` as its sign and its magnitude; `none` where `std::stoi` throws.
in_int : Bool → Option ℕ → Option (Bool × ℕ)
in_int negative none = none
in_int negative (some n) =
    if leb n (if negative then 2147483648 else 2147483647) then some (negative, n) else none

signed : List ℕ → Option (Bool × ℕ)
unfolding in_int digits
signed [] = none
signed (c ∷ s) =
    if eqb c b'-'
    then in_int true (digits s)
    else if eqb c b'+'
    then in_int false (digits s)
    else in_int false (digits (c ∷ s))

unfoldable pub stoi : String → Option (Bool × ℕ)
unfolding skip_space signed
stoi s = signed (skip_space (codes s))

-- The `try` block: its `catch` gives every refusal the message of the last line.
abbrev is_prefix_length : Option (Bool × ℕ) → Bool
is_prefix_length none = false
is_prefix_length (some (negative, n)) = (not negative || eqb n 0) && leb n 128

check_prefix : String → Option ℕ → Outcome (Unit {0})
unfolding stoi validate_ipv6_format
check_prefix value none = throws "Invalid IPv6 prefix format: must contain '/' for CIDR notation"
check_prefix value (some slash_pos) =
    let address_part = slice value 0 slash_pos in
    let prefix_length = from (slash_pos + 1) value in
    if is_empty address_part || is_empty prefix_length
    then throws "Invalid IPv6 prefix format: empty address or prefix length"
    else if is_prefix_length (stoi prefix_length)
    then validate_ipv6_format address_part
    else throws ("Invalid IPv6 prefix length: " ++ prefix_length)

unfoldable pub validate_ipv6_prefix_format : String → Outcome (Unit {0})
unfolding check_prefix
validate_ipv6_prefix_format value =
    if is_empty value
    then throws "IPv6 prefix cannot be empty"
    else check_prefix value (find? value "/")

-- ^([0-9A-Fa-f]{2}c){5}[0-9A-Fa-f]{2}$, for c a colon or a dash
abbrev mac_pattern : ℕ → Regex
mac_pattern c = seq (times 5 (seq (times 2 hex) (char c))) (times 2 hex)

unfoldable pub validate_mac_format : String → Outcome (Unit {0})
unfolding regex_match
validate_mac_format value =
    if is_empty value
    then throws "MAC address cannot be empty"
    else if not (regex_match value (mac_pattern b':')) && not (regex_match value (mac_pattern b'-'))
    then throws (
        "Invalid MAC address format: "
        ++ (value ++ " (expected XX:XX:XX:XX:XX:XX or XX-XX-XX-XX-XX-XX)"))
    else returns tt
