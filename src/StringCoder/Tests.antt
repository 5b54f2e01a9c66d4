-- ===== src/StringCoder/Tests.antt =====
-- Two texts through `StringCoder`.
use rocket_rpc.Common.{List, [], ◌∷◌, arith, replicate, codes}
use rocket_rpc.TcpBuffer.{TcpBuffer}
use rocket_rpc.TcpBuffer.Valid.{IsValid}
use rocket_rpc.Protocol.{Protocol, text}

abbrev texts : List Protocol
texts =
    text (record { msg_id = []; info = codes "ab" })
    ∷ text (record { msg_id = []; info = codes "c" })
    ∷ []

abbrev start : TcpBuffer
start = record { mem = replicate 16 0; read_index = 8; write_index = 8 }

start-IsValid : IsValid start
start-IsValid = record {
  behind = omega arith;
  order = omega arith;
  inside = omega arith;
  small = omega arith;
}
