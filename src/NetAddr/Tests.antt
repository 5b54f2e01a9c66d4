-- ===== src/NetAddr/Tests.antt =====
-- Addresses, and the theorems at them.
use rocket_rpc.Common.{
  ℕ, ◌≡◌, refl, true, false, ◌&&◌, Option, none, some, List, [], ◌∷◌, ◌==◌, if◌then◌else◌, codes,
}
use rocket_rpc.NetAddr.{
  is_digit, digits, digits_on, up_to, from_chars_int, from_chars_uint16, split_colon, at_colon,
  is_empty, is_port, is_some, port_of, address_of, valid_parts, check_valid, make, from_parts,
  parse, is_valid,
}
use rocket_rpc.NetAddr.Ports.{ip_accepted, AllDigits, check_valid-parse}

-- Only the text `1.2.3.4` is an address.
abbrev inet_pton : List ℕ → Option ℕ
inet_pton [] = none
inet_pton (c ∷ cs) = if c == 49 then some 0x01020304 else none

check_valid_test : check_valid inet_pton (codes "1.2.3.4:8080") ≡ true
unfolding check_valid valid_parts split_colon at_colon from_chars_int digits digits_on is_digit
    up_to is_port is_some is_empty
check_valid_test = refl

negative_test : check_valid inet_pton (codes "1.2.3.4:-80") ≡ false
unfolding check_valid valid_parts split_colon at_colon from_chars_int digits digits_on is_digit
    up_to is_port is_some is_empty
negative_test = refl

too_large_test : check_valid inet_pton (codes "1.2.3.4:65536") ≡ false
unfolding check_valid valid_parts split_colon at_colon from_chars_int digits digits_on is_digit
    up_to is_port is_some is_empty
too_large_test = refl

behind_test : check_valid inet_pton (codes "1.2.3.4:80abc") ≡ true
unfolding check_valid valid_parts split_colon at_colon from_chars_int digits digits_on is_digit
    up_to is_port is_some is_empty
behind_test = refl

parse_test : (parse inet_pton (codes "1.2.3.4:8080")).port ≡ 8080
unfolding parse from_parts make split_colon at_colon from_chars_uint16 digits digits_on is_digit
    up_to port_of address_of
parse_test = refl

check_valid-parse_example : check_valid inet_pton (codes "1.2.3.4:8080") ≡ (
    is_valid (parse inet_pton (codes "1.2.3.4:8080"))
    && ip_accepted inet_pton (split_colon (codes "1.2.3.4:8080")))
check_valid-parse_example = check_valid-parse inet_pton (codes "1.2.3.4:8080") refl

no_colon : split_colon (codes "1.2.3.4") ≡ none
unfolding split_colon at_colon
no_colon = refl

port_digits : AllDigits (56 ∷ 48 ∷ [])
unfolding AllDigits is_digit
port_digits = (refl, (refl, tt))

letter : is_digit 97 ≡ false
unfolding is_digit
letter = refl
