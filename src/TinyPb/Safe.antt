-- ===== src/TinyPb/Safe.antt =====
-- The reads of the packet parser stay inside the readable bytes, whatever these are.
use rocket_rpc.Common.{
  ℕ, ◌+◌, ◌^◌, ◌≤◌, ◌<◌, ◌≡◌, refl, Bool, true, false, not, ◌||◌, List, arith, ltb, ◌==◌, length,
}
use rocket_rpc.Common.Words.{add_size, sub_size, slt32}
use rocket_rpc.TcpBuffer.{load}
use rocket_rpc.TcpBuffer.Valid.{load-some}
use rocket_rpc.TinyPb.Parse.{
  Parse, fault, rejected, parsed, ◌>>=◌, ◌>>◌, access, require, Reason, read_int32, check_remaining,
  read_length, read_string, read_err_code, read_payload, read_checksum, parse_packet,
}

-- No fault, and what holds of the value if there is one.
abbrev pub Safe : {A : Type 0} → (A → Type 0) → Parse A → Type 0
Safe P fault = ⊥
Safe P (rejected r) = Unit
Safe P (parsed a) = P a

-- A value, of which the predicate holds.
abbrev pub Sure : {A : Type 0} → (A → Type 0) → Parse A → Type 0
Sure P fault = ⊥
Sure P (rejected r) = ⊥
Sure P (parsed a) = P a

bind-Safe :
    {A B : Type 0} (P : A → Type 0) (Q : B → Type 0) (m : Parse A) (f : A → Parse B)
    → Safe P m
    → ((a : A) → P a → Safe Q (f a))
    → Safe Q (m >>= f)
bind-Safe P Q fault f h k = absurd h
bind-Safe P Q (rejected r) f h k = tt
bind-Safe P Q (parsed a) f h k = k a h

require-Safe :
    {B : Type 0} (Q : B → Type 0) (test : Bool) (r : Reason) (k : Parse B)
    → (test ≡ true → Safe Q k)
    → Safe Q (require test r >> k)
require-Safe Q true r k h = h refl
require-Safe Q false r k h = tt

module _ (bytes : List ℕ) where
  -- A read inside the bytes hands over to what follows.
  pub load_inside :
      {B : Type 0} (Q : Parse B → Type 0) (i n : ℕ) (f : List ℕ → Parse B)
      → i + n ≤ length bytes
      → ((ds : List ℕ) → Q (f ds))
      → Q (access (load bytes i n) >>= f)
  load_inside Q i n f h k = rw (load-some bytes i n h) (k _)

  pub read_int32_inside :
      {B : Type 0} (Q : Parse B → Type 0) (i : ℕ) (f : ℕ → Parse B)
      → i + 4 ≤ length bytes
      → ((x : ℕ) → Q (f x))
      → Q (read_int32 bytes i >>= f)
  unfolding read_int32
  read_int32_inside Q i f h k = rw (load-some bytes i 4 h) (k _)

  load-Safe :
      {B : Type 0} (Q : B → Type 0) (i n : ℕ) (f : List ℕ → Parse B)
      → i + n ≤ length bytes
      → ((ds : List ℕ) → Safe Q (f ds))
      → Safe Q (access (load bytes i n) >>= f)
  load-Safe Q i n f h k = load_inside (Safe Q) i n f h k

  read_int32-Safe :
      {B : Type 0} (Q : B → Type 0) (i : ℕ) (f : ℕ → Parse B)
      → i + 4 ≤ length bytes
      → ((x : ℕ) → Safe Q (f x))
      → Safe Q (read_int32 bytes i >>= f)
  read_int32-Safe Q i f h k = read_int32_inside (Safe Q) i f h k

  module _ (end : ℕ) (inside : end < length bytes) (limit : length bytes < 2 ^ 63) where
    remaining : (i need : ℕ) → check_remaining i end need ≡ true → i + need ≤ end
    unfolding check_remaining
    remaining i need h = ground arith

    -- The index behind what has been read lies between the old one and the end byte.
    abbrev pub Next : ℕ → ℕ → Type 0
    Next i j = (i ≤ j) × (j ≤ end)

    read_length-Safe :
        (i : ℕ) → Safe (λ r. (r.1 ≡ i + 4) × (r.1 + r.0 ≤ end)) (read_length bytes end i)
    unfolding read_length
    read_length-Safe i = require-Safe _ (check_remaining i end 4) _ _ λ h₁.
        read_int32-Safe _ i _ (omega (arith, remaining i 4 h₁)) λ value.
          require-Safe _ (not (slt32 value 0)) _ _ λ h₂.
            require-Safe _ (check_remaining (add_size i 4) end value) _ _
              λ h₃. omega (arith, remaining i 4 h₁, remaining (add_size i 4) value h₃)

    read_string-Safe : (i : ℕ) → Safe (λ r. Next i r.2) (read_string bytes end i)
    unfolding read_string
    read_string-Safe i =
        bind-Safe _ _ (read_length bytes end i) _ (read_length-Safe i)
          λ r h. load-Safe _ r.1 r.0 _ (omega arith) λ ds. omega arith

    read_err_code-Safe : (i : ℕ) → Safe (λ r. Next i r.1) (read_err_code bytes end i)
    unfolding read_err_code
    read_err_code-Safe i = require-Safe _ (check_remaining i end 4) _ _ λ h₁.
        read_int32-Safe _ i _ (omega (arith, remaining i 4 h₁))
          λ value. omega (arith, remaining i 4 h₁)

    read_payload-Safe : (i : ℕ) → Safe (λ r. (i ≤ r.1) × (r.1 + 4 ≡ end)) (read_payload bytes end i)
    unfolding read_payload
    read_payload-Safe i = require-Safe _ (not (ltb end i || ltb (sub_size end i) 4)) _ _ λ h₁.
        let room : (i ≤ end) × (i + 4 ≤ end) = ground arith in
        require-Safe _ (not (ltb (sub_size end 4) i)) _ _
          λ h₂. load-Safe _ i (sub_size (sub_size end 4) i) _ (omega arith) λ ds. omega arith

    module _ (crc : List ℕ → ℕ) (start : ℕ) where
      read_checksum-Safe :
          (index : ℕ)
          → start ≤ index
          → index + 4 ≡ end
          → Safe (λ _. Unit) (read_checksum crc bytes start end index)
      unfolding read_checksum
      read_checksum-Safe index h e = require-Safe _ (check_remaining index end 4) _ _ λ _.
          read_int32-Safe _ index _ (omega arith) λ value.
            load-Safe _ start (sub_size index start) _ (omega arith)
              λ covered. require-Safe _ (crc covered == value) _ _ λ _. tt

      -- The parse of a packet reads inside the readable bytes, whatever they are.
      pub parse_packet-Safe :
          (pk_len : ℕ)
          → start + 5 < 2 ^ 64
          → Safe (λ _. Unit) (parse_packet crc bytes start end pk_len)
      unfolding parse_packet
      parse_packet-Safe pk_len h =
          let first : add_size start 5 ≡ start + 5 = omega arith in
          rw first (
            bind-Safe _ _ (read_string bytes end (start + 5)) _ (read_string-Safe (start + 5))
              λ r₁ h₁. bind-Safe _ _ (read_string bytes end r₁.2) _ (read_string-Safe r₁.2) λ r₂ h₂.
                bind-Safe _ _ (read_err_code bytes end r₂.2) _ (read_err_code-Safe r₂.2) λ r₃ h₃.
                  bind-Safe _ _ (read_string bytes end r₃.1) _ (read_string-Safe r₃.1) λ r₄ h₄.
                    bind-Safe _ _ (read_payload bytes end r₄.2) _ (read_payload-Safe r₄.2) λ r₅ h₅.
                      bind-Safe _ _ (read_checksum crc bytes start end r₅.1) _
                        (read_checksum-Safe r₅.1 (omega arith) h₅.1) λ value _. tt)
