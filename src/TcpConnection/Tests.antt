-- ===== src/TcpConnection/Tests.antt =====
-- A connection with three bytes to send.
use rocket_rpc.Common.{◌≡◌, refl, true, false, Bool, Option, some, List, [], ◌∷◌, arith}
use rocket_rpc.TcpBuffer.{TcpBuffer}
use rocket_rpc.TcpBuffer.Valid.{IsValid}
use rocket_rpc.TcpBuffer.Io.{WriteReply, blocked, sent}
use rocket_rpc.Protocol.{Protocol, null, DecodeResult}
use rocket_rpc.TcpConnection.{
  TcpConnection, TcpState, is_open, connected, closed, flush_loop, send, send_across,
  shutdown_in_loop, handle_close,
}
use rocket_rpc.TcpConnection.Flush.{Sends, flush_loop_lem}
use rocket_rpc.TcpConnection.Closed.{fails, closed_lem, shutdown_drops_lem}

abbrev buffer : TcpBuffer
buffer = record {
  mem = 0 ∷ 0 ∷ 0 ∷ 0 ∷ 0 ∷ 0 ∷ 0 ∷ 0 ∷ 5 ∷ 6 ∷ 7 ∷ 0 ∷ [];
  read_index = 8;
  write_index = 11;
}

buffer-IsValid : IsValid buffer
buffer-IsValid = record {
  behind = omega arith;
  order = omega arith;
  inside = omega arith;
  small = omega arith;
}

abbrev connection : TcpState → TcpConnection
connection state = record {
  state = state;
  in_buffer = record buffer { write_index = 8 };
  out_buffer = buffer;
  high_water_mark = 0;
  sending_above_hwm = false;
  in_flight = 1;
  listening_out = false;
  write_queue = [];
  write_queued = false;
  flush_queued = false;
  defer_output_flush = false;
  direct_output_flush = false;
  drains = 0;
  flushes = 0;
  log = [];
}

abbrev no_encode : List Protocol → TcpBuffer → Option (Bool × TcpBuffer)
no_encode ms b = some (true, b)

abbrev no_decode : TcpBuffer → Option (DecodeResult × TcpBuffer)
no_decode b = some (record { messages = []; fatal = false }, b)

abbrev no_callback : TcpConnection → List Protocol → Option TcpConnection
no_callback c ms = some c

abbrev kernel : List WriteReply
kernel = sent 2 ∷ blocked 4 ∷ sent 1 ∷ blocked 11 ∷ []

flush_loop_lem_example : Sends buffer kernel (flush_loop buffer kernel)
flush_loop_lem_example = flush_loop_lem buffer kernel buffer-IsValid

closed_lem_example :
    ((handle_close (connection closed)).state ≡ closed)
    × ((handle_close (connection closed)).log ≡ [])
closed_lem_example =
    closed_lem no_encode no_decode no_callback (connection closed)
      (handle_close (connection closed)) refl fails

shutdown_drops_lem_example :
    let c' = shutdown_in_loop (connection connected) in
    (send no_encode c' null [] ≡ some c') × (send_across c' null ≡ c') × (c'.in_flight ≡ 1)
unfolding is_open
shutdown_drops_lem_example =
    shutdown_drops_lem no_encode no_decode no_callback (connection connected) null [] refl
