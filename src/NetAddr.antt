-- ===== src/NetAddr.antt =====
-- src/rocket/net/tcp/net_addr.{h,cc}: addresses of the form `ip:port`. `inet_pton` is outside: it
-- refuses a text or gives the four bytes as a number. `htons` and `ntohs` cancel and are left out.
pub mod Ports
pub mod Tests
use rocket_rpc.Common.{
  ℕ, zero, suc, ◌+◌, ◌-◌, ◌*◌, ◌^◌, ◌≤◌, Bool, true, false, not, ◌&&◌, ◌||◌, Option, none, some,
  List, [], ◌∷◌, ◌==◌, ltb, leb, if◌then◌else◌,
}

abbrev pub max_port : ℕ
max_port = 65535

-- The address family; a new storage has none.
pub data Family : Type 0 where
  unspecified inet : Family

pub record IpNetAddr : Type 0 where
  pub family : Family
  pub ip : ℕ
  pub port : ℕ

abbrev pub inaddr_any : ℕ
inaddr_any = 0

pub is_digit : ℕ → Bool
is_digit c = leb 48 c && leb c 57

-- The digits at the front of a text, as a number with what was read before; `none` without a digit.
pub digits_on : ℕ → List ℕ → ℕ
digits_on n [] = n
digits_on n (c ∷ cs) = let rest = digits_on (n * 10 + (c - 48)) cs in if is_digit c then rest else n

pub digits : List ℕ → Option ℕ
digits [] = none
digits (c ∷ cs) = if is_digit c then some (digits_on 0 (c ∷ cs)) else none

-- What `std::from_chars` says: a number, a number below zero, no number, or one that does not fit.
pub data Parsed : Type 0 where
  number : ℕ → Parsed
  negative : ℕ → Parsed
  invalid out_of_range : Parsed

up_to : ℕ → (ℕ → Parsed) → Option ℕ → Parsed
up_to limit f none = invalid
up_to limit f (some n) = if leb n limit then f n else out_of_range

-- `from_chars` into an `int`.
pub from_chars_int : List ℕ → Parsed
from_chars_int [] = invalid
from_chars_int (c ∷ cs) =
    if c == 45
    then up_to (2 ^ 31) negative (digits cs)
    else up_to (2 ^ 31 - 1) number (digits (c ∷ cs))

-- `from_chars` into a `uint16_t`, which knows no sign.
pub from_chars_uint16 : List ℕ → Parsed
from_chars_uint16 cs = up_to (2 ^ 16 - 1) number (digits cs)

-- The text before and behind the first `:`.
at_colon : ℕ → Option (List ℕ × List ℕ) → Option (List ℕ × List ℕ)
at_colon c none = none
at_colon c (some (a, b)) = some (c ∷ a, b)

pub split_colon : List ℕ → Option (List ℕ × List ℕ)
split_colon [] = none
split_colon (c ∷ cs) =
    let rest = split_colon cs in if c == 58 then some ([], cs) else at_colon c rest

is_empty : List ℕ → Bool
is_empty [] = true
is_empty (c ∷ cs) = false

-- `ec != errc{} || port <= 0 || port > kMaxPort`, denied.
pub is_port : Parsed → Bool
is_port (number n) = ltb 0 n && leb n max_port
is_port (negative n) = false
is_port invalid = false
is_port out_of_range = false

is_some : Option ℕ → Bool
is_some none = false
is_some (some a) = true

-- `std::from_chars` leaves the port, which is 0, as it is where it fails.
pub port_of : Parsed → ℕ
port_of (number n) = n
port_of (negative n) = 0
port_of invalid = 0
port_of out_of_range = 0

pub address_of : Option ℕ → ℕ
address_of none = inaddr_any
address_of (some a) = a

module _ (inet_pton : List ℕ → Option ℕ) where
  valid_parts : Option (List ℕ × List ℕ) → Bool
  valid_parts none = false
  valid_parts (some (ip, port_str)) =
      if is_empty ip || is_empty port_str
      then false
      else is_port (from_chars_int port_str) && is_some (inet_pton ip)

  -- The static `checkValid`.
  pub check_valid : List ℕ → Bool
  check_valid addr = valid_parts (split_colon addr)

  -- The constructor from an ip and a port.
  pub make : List ℕ → ℕ → IpNetAddr
  make ip port = record { family = inet; ip = address_of (inet_pton ip); port = port }

  from_parts : Option (List ℕ × List ℕ) → IpNetAddr
  from_parts none = record { family = inet; ip = inaddr_any; port = 0 }
  from_parts (some (ip, port_str)) = make ip (port_of (from_chars_uint16 port_str))

  -- The constructor from a text.
  pub parse : List ℕ → IpNetAddr
  parse addr = from_parts (split_colon addr)

is_inet : Family → Bool
is_inet unspecified = false
is_inet inet = true

-- `checkValid` of an address.
pub is_valid : IpNetAddr → Bool
is_valid a = is_inet a.family && not (a.port == 0)
