-- ===== src/Protocol.antt =====
-- The messages of src/rocket/net/coder: abstract_protocol.h, tinypb_protocol.h and the protocol
-- class of string_coder.h. A string is the list of its bytes, an `int32_t` its bit pattern.
use rocket_rpc.Common.{ℕ, Bool, List}

pub record TinyPb : Type 0 where
  pub msg_id : List ℕ
  pub pk_len : ℕ
  pub msg_id_len : ℕ
  pub method_name_len : ℕ
  pub method_name : List ℕ
  pub err_code : ℕ
  pub err_info_len : ℕ
  pub err_info : List ℕ
  pub pb_data : List ℕ
  pub check_sum : ℕ
  pub parse_success : Bool

pub record Text : Type 0 where
  pub msg_id : List ℕ
  pub info : List ℕ

-- What an `AbstractProtocol::s_ptr` points to, if anything.
pub data Protocol : Type 0 where
  null : Protocol
  tiny_pb : TinyPb → Protocol
  text : Text → Protocol

-- The result of `decode` (abstract_coder.h).
pub record DecodeResult : Type 0 where
  pub messages : List Protocol
  pub fatal : Bool

abbrev pub pb_start : ℕ
pb_start = 0x02

abbrev pub pb_end : ℕ
pb_end = 0x03

abbrev pub header_size : ℕ
header_size = 26
