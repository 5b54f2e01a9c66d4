-- ===== src/TinyPb/Parse.antt =====
-- src/rocket/net/coder/tinypb_coder.cc: the fields of one packet in the readable bytes.
use rocket_rpc.Common.{ℕ, Bool, true, false, not, ◌||◌, Option, none, some, List, ltb, ◌==◌}
use rocket_rpc.Common.Words.{add_size, sub_size, slt32, of_le_bytes, bswap}
use rocket_rpc.TcpBuffer.{load}
use rocket_rpc.Protocol.{TinyPb}

-- Why a packet is rejected: the texts given to `rejectPacket`.
pub data Reason : Type 0 where
  missing_length negative_length oversized_length missing_error_code : Reason
  missing_checksum invalid_payload_length checksum_mismatch : Reason

-- `fault` is a read outside the readable bytes.
pub data Parse {ℓ} (A : Type ℓ) : Type ℓ where
  fault : Parse A
  rejected : Reason → Parse A
  parsed : A → Parse A

infixl 5 ◌>>=◌ ◌>>◌
abbrev pub ◌>>=◌ {ℓ κ} : {A : Type ℓ} {B : Type κ} → Parse A → (A → Parse B) → Parse B
fault >>= f = fault
rejected r >>= f = rejected r
parsed a >>= f = f a

abbrev pub ◌>>◌ {ℓ} : {B : Type ℓ} → Parse (Unit {0}) → Parse B → Parse B
m >> k = m >>= λ _. k

abbrev pub access {ℓ} : {A : Type ℓ} → Option A → Parse A
access none = fault
access (some a) = parsed a

-- A `return` with `rejectPacket` unless the test holds.
abbrev pub require : Bool → Reason → Parse (Unit {0})
require true r = parsed tt
require false r = rejected r

-- `readInt32`: `ntohl` of four bytes.
unfoldable pub read_int32 : List ℕ → ℕ → Parse ℕ
read_int32 bytes i = do ds ← access (load bytes i 4); parsed (bswap 4 (of_le_bytes ds))

-- The lambda `checkRemaining`: `need` bytes between the index and the end byte of the packet.
unfoldable pub check_remaining : ℕ → ℕ → ℕ → Bool
check_remaining i end need = not (ltb end i || ltb (sub_size end i) need)

-- The lambda `readLength`, which returns the length and the index behind it.
unfoldable pub read_length : List ℕ → ℕ → ℕ → Parse (ℕ × ℕ)
read_length bytes end i = do
  require (check_remaining i end 4) missing_length
  value ← read_int32 bytes i
  require (not (slt32 value 0)) negative_length
  require (check_remaining (add_size i 4) end value) oversized_length
  parsed (value, add_size i 4)

-- A length and so many bytes: the length, the bytes, and the index behind them.
unfoldable pub read_string : List ℕ → ℕ → ℕ → Parse (ℕ × List ℕ × ℕ)
read_string bytes end i = do
  (n, j) ← read_length bytes end i
  ds ← access (load bytes j n)
  parsed (n, ds, add_size j n)

unfoldable pub read_err_code : List ℕ → ℕ → ℕ → Parse (ℕ × ℕ)
read_err_code bytes end i = do
  require (check_remaining i end 4) missing_error_code
  value ← read_int32 bytes i
  parsed (value, add_size i 4)

-- The payload, up to the four bytes before the end byte: the bytes and the index of the checksum.
unfoldable pub read_payload : List ℕ → ℕ → ℕ → Parse (List ℕ × ℕ)
read_payload bytes end i = do
  require (not (ltb end i || ltb (sub_size end i) 4)) missing_checksum
  let checksum_index = sub_size end 4
  require (not (ltb checksum_index i)) invalid_payload_length
  ds ← access (load bytes i (sub_size checksum_index i))
  parsed (ds, checksum_index)

module _ (crc : List ℕ → ℕ) where
  -- The checksum of the packet from its start byte on, against the one that it carries.
  unfoldable pub read_checksum : List ℕ → ℕ → ℕ → ℕ → Parse ℕ
  read_checksum bytes start end checksum_index = do
    require (check_remaining checksum_index end 4) missing_checksum
    value ← read_int32 bytes checksum_index
    covered ← access (load bytes start (sub_size checksum_index start))
    require (crc covered == value) checksum_mismatch
    parsed value

  -- The packet between the start byte at `start` and the end byte at `end`.
  unfoldable pub parse_packet : List ℕ → ℕ → ℕ → ℕ → Parse TinyPb
  parse_packet bytes start end pk_len = do
    (msg_id_len, msg_id, i₁) ← read_string bytes end (add_size start 5)
    (method_name_len, method_name, i₂) ← read_string bytes end i₁
    (err_code, i₃) ← read_err_code bytes end i₂
    (err_info_len, err_info, i₄) ← read_string bytes end i₃
    (pb_data, checksum_index) ← read_payload bytes end i₄
    check_sum ← read_checksum bytes start end checksum_index
    parsed (record {
      msg_id = msg_id;
      pk_len = pk_len;
      msg_id_len = msg_id_len;
      method_name_len = method_name_len;
      method_name = method_name;
      err_code = err_code;
      err_info_len = err_info_len;
      err_info = err_info;
      pb_data = pb_data;
      check_sum = check_sum;
      parse_success = true;
    })
