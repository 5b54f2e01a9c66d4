-- ===== src/NetAddr/Ports.antt =====
-- Which texts are addresses, and what is made of them.
use rocket_rpc.Common.{
  ℕ, ◌+◌, ◌-◌, ◌*◌, ◌^◌, ◌≡◌, refl, sym, ap, ◌∙◌, Bool, true, false, not, ◌&&◌, ◌||◌, Option, none,
  some, List, [], ◌∷◌, ◌++◌, ◌==◌, leb, arith, if◌then◌else◌, Bool-cases, inl, inr,
}
use rocket_rpc.NetAddr.{
  number, negative, is_digit, digits, digits_on, up_to, from_chars_int, from_chars_uint16,
  split_colon, at_colon, is_empty, is_port, is_some, port_of, valid_parts, check_valid, make,
  from_parts, parse, is_inet, is_valid,
}

-- The text before the first `:`, if `inet_pton` accepts it.
pub ip_accepted : (List ℕ → Option ℕ) → Option (List ℕ × List ℕ) → Bool
ip_accepted inet_pton none = false
ip_accepted inet_pton (some (ip, port_str)) = is_some (inet_pton ip)

ranges :
    (o : Option ℕ)
    → is_port (up_to (2 ^ 31 - 1) number o) ≡ not (port_of (up_to (2 ^ 16 - 1) number o) == 0)
unfolding is_port up_to port_of
ranges none = refl
ranges (some n) = ground arith

no_negative : (limit : ℕ) (o : Option ℕ) → is_port (up_to limit negative o) ≡ false
unfolding is_port up_to
no_negative limit none = refl
no_negative limit (some n) = elim (Bool-cases (leb n limit)) [
  | inl h ↦ rw h refl
  | inr h ↦ rw h refl
]

no_sign : (c : ℕ) (cs : List ℕ) → (c == 45) ≡ true → digits (c ∷ cs) ≡ none
unfolding digits
no_sign c cs h =
    let other : is_digit c ≡ false = unfold is_digit in ground arith in
    ap (λ b. if b then some (digits_on 0 (c ∷ cs)) else none) other

-- Both ways to read a port agree on which texts are one.
ports :
    (port_str : List ℕ)
    → is_port (from_chars_int port_str) ≡ not (port_of (from_chars_uint16 port_str) == 0)
unfolding from_chars_int from_chars_uint16
ports [] = unfold digits up_to is_port port_of in refl
ports (c ∷ cs) = elim (Bool-cases (c == 45)) [
  | inl minus ↦
      rw (minus, no_negative (2 ^ 31) (digits cs), no_sign c cs minus)
        (unfold up_to port_of in refl)
  | inr other ↦ rw other (ranges (digits (c ∷ cs)))
]

and_false : (b : Bool) → b && false ≡ false
and_false true = refl
and_false false = refl

parts :
    (inet_pton : List ℕ → Option ℕ) (o : Option (List ℕ × List ℕ))
    → inet_pton [] ≡ none
    → valid_parts inet_pton o ≡ (is_valid (from_parts inet_pton o) && ip_accepted inet_pton o)
unfolding valid_parts from_parts is_valid make is_inet ip_accepted is_empty
parts inet_pton none h = refl
parts inet_pton (some ([], p)) h = sym (
    ap (λ o. not (port_of (from_chars_uint16 p) == 0) && is_some o) h
    ∙ unfold is_some in and_false (not (port_of (from_chars_uint16 p) == 0)))
parts inet_pton (some (x ∷ ip, [])) h = unfold from_chars_uint16 digits up_to port_of in refl
parts inet_pton (some (x ∷ ip, y ∷ p)) h =
    ap (λ b. b && is_some (inet_pton (x ∷ ip))) (ports (y ∷ p))

-- The static `checkValid` accepts a text exactly when the constructor makes an address of it that is
-- valid, with a port from 1 on, and `inet_pton` accepts what is before the first colon. `inet_pton`
-- is any that refuses the empty text.
pub check_valid-parse :
    (inet_pton : List ℕ → Option ℕ) (addr : List ℕ)
    → inet_pton [] ≡ none
    → check_valid inet_pton addr
      ≡ (is_valid (parse inet_pton addr) && ip_accepted inet_pton (split_colon addr))
unfolding check_valid parse
check_valid-parse inet_pton addr h = parts inet_pton (split_colon addr) h

unfoldable pub AllDigits : List ℕ → Type 0
AllDigits [] = Unit
AllDigits (c ∷ cs) = (is_digit c ≡ true) × AllDigits cs

digits_on-behind :
    (n : ℕ) (ds : List ℕ) (g : ℕ) (r : List ℕ)
    → AllDigits ds
    → is_digit g ≡ false
    → digits_on n (ds ++ g ∷ r) ≡ digits_on n ds
unfolding digits_on AllDigits
digits_on-behind n [] g r a h = rw h refl
digits_on-behind n (d ∷ ds) g r a h =
    rw (a.0, digits_on-behind (n * 10 + (d - 48)) ds g r a.1 h) refl

digits-behind :
    (d : ℕ) (ds : List ℕ) (g : ℕ) (r : List ℕ)
    → AllDigits (d ∷ ds)
    → is_digit g ≡ false
    → digits (d ∷ (ds ++ g ∷ r)) ≡ digits (d ∷ ds)
unfolding digits AllDigits
digits-behind d ds g r a h =
    ap (λ n. if is_digit d then some n else none) (digits_on-behind 0 (d ∷ ds) g r a h)

some≢none : {p : List ℕ × List ℕ} → some p ≡ none → ⊥
some≢none f = cc

split_colon-at :
    (ip port_str : List ℕ)
    → split_colon ip ≡ none
    → split_colon (ip ++ 58 ∷ port_str) ≡ some (ip, port_str)
unfolding split_colon at_colon
split_colon-at [] port_str h = refl
split_colon-at (c ∷ ip) port_str h = elim (Bool-cases (c == 58)) [
  | inl colon ↦ absurd (found c ip colon h)
  | inr other ↦
      rw
        (
          other,
          split_colon-at ip port_str (not_found (split_colon ip) c (sym (cut c ip other) ∙ h)),
        )
        refl
]
  where
    cut :
        (x : ℕ) (l : List ℕ) → (x == 58) ≡ false → split_colon (x ∷ l) ≡ at_colon x (split_colon l)
    cut x l e = rw e refl

    found : (x : ℕ) (l : List ℕ) → (x == 58) ≡ true → split_colon (x ∷ l) ≡ none → ⊥
    found x l e f =
        some≢none (sym (ap (λ b. if b then some ([], l) else at_colon x (split_colon l)) e) ∙ f)

    not_found : (o : Option (List ℕ × List ℕ)) (x : ℕ) → at_colon x o ≡ none → o ≡ none
    not_found none x f = refl
    not_found (some (a, b)) x f = absurd (some≢none f)

from_chars_int-behind :
    (d : ℕ) (ds : List ℕ) (g : ℕ) (r : List ℕ)
    → AllDigits (d ∷ ds)
    → is_digit g ≡ false
    → from_chars_int (d ∷ (ds ++ g ∷ r)) ≡ from_chars_int (d ∷ ds)
unfolding from_chars_int
from_chars_int-behind d ds g r a h =
    rw (not_minus d (unfold AllDigits in a.0))
      (ap (up_to (2 ^ 31 - 1) number) (digits-behind d ds g r a h))
  where
    not_minus : (c : ℕ) → is_digit c ≡ true → (c == 45) ≡ false
    not_minus c e = unfold is_digit in ground arith

-- Whatever follows the digits of the port, from a character on that is no digit, is ignored: the
-- static `checkValid` says of such a text what it says of the one that ends with the digits.
pub check_valid-behind :
    (inet_pton : List ℕ → Option ℕ) (ip : List ℕ) (d : ℕ) (ds : List ℕ) (g : ℕ) (r : List ℕ)
    → split_colon ip ≡ none
    → AllDigits (d ∷ ds)
    → is_digit g ≡ false
    → check_valid inet_pton (ip ++ 58 ∷ d ∷ (ds ++ g ∷ r))
      ≡ check_valid inet_pton (ip ++ 58 ∷ d ∷ ds)
unfolding check_valid
check_valid-behind inet_pton ip d ds g r n a h =
    ap (valid_parts inet_pton) (split_colon-at ip (d ∷ (ds ++ g ∷ r)) n)
    ∙ unfold valid_parts is_empty in
      ap (λ p. if is_empty ip || false then false else is_port p && is_some (inet_pton ip))
        (from_chars_int-behind d ds g r a h)
      ∙ sym (ap (valid_parts inet_pton) (split_colon-at ip (d ∷ ds) n))
