-- ===== src/TcpConnection.antt =====
-- src/rocket/net/tcp/tcp_connection.{h,cc}: the states of a connection, its reads and its writes.
-- The operations run on the loop thread, one after the other. The socket, the poller and the
-- callbacks are outside: `log` records what the connection does to them, the answers of the kernel
-- are arguments, and the message callback is a parameter. When the answers that it is given are used
-- up, the loop of reads finds EAGAIN and the loop of writes is still running; an operation that
-- flushes ends the answers with EAGAIN.
pub mod Flush
pub mod Closed
pub mod Tests
use rocket_rpc.Common.{
  ℕ, zero, suc, ◌+◌, ◌-◌, ◌*◌, min, Bool, true, false, not, ◌&&◌, ◌||◌, Option, none, some, List,
  [], ◌∷◌, ◌++◌, ◌>>=◌, ltb, leb, ◌==◌, if◌then◌else◌, length, take, drop,
}
use rocket_rpc.TcpBuffer.{TcpBuffer, readable, writable, capacity, max_buffer_size}
use rocket_rpc.TcpBuffer.Storage.{resize_buffer}
use rocket_rpc.TcpBuffer.Io.{
  ReadReply, WriteReply, blocked, IoResult, done, failed, read_from_fd, write_to_fd,
}
use rocket_rpc.Protocol.{Protocol, DecodeResult}

pub data TcpState : Type 0 where
  not_connected connected half_closing closed : TcpState

-- The callbacks that are called, bytes that the socket has taken, and the half-close of it.
pub data Output : Type 0 where
  on_connection on_close on_write_complete shut_wr : Output
  on_high_water_mark : ℕ → Output
  written : List ℕ → Output

-- `drains` and `flushes` are the tasks of this connection that the loop has been given.
pub record TcpConnection : Type 0 where
  pub state : TcpState
  pub in_buffer : TcpBuffer
  pub out_buffer : TcpBuffer
  pub high_water_mark : ℕ
  pub sending_above_hwm : Bool
  pub in_flight : ℕ
  pub listening_out : Bool
  pub write_queue : List Protocol
  pub write_queued : Bool
  pub flush_queued : Bool
  pub defer_output_flush : Bool
  pub direct_output_flush : Bool
  pub drains : ℕ
  pub flushes : ℕ
  pub log : List Output

abbrev pub interrupted : ℕ
interrupted = 4

abbrev pub would_block : ℕ
would_block = 11

abbrev pub max_read_per_round : ℕ
max_read_per_round = 64 * 1024

pub is_closed : TcpState → Bool
is_closed closed = true
is_closed _ = false

-- The test of `send` and of `sendInLoopBatch`.
pub refuses : TcpState → Bool
refuses half_closing = true
refuses closed = true
refuses _ = false

-- The test of the handlers of reads, writes and flushes.
pub is_open : TcpState → Bool
is_open connected = true
is_open half_closing = true
is_open _ = false

pub is_new : TcpState → Bool
is_new not_connected = true
is_new _ = false

unfoldable pub is_connected : TcpState → Bool
is_connected connected = true
is_connected _ = false

pub is_half_closing : TcpState → Bool
is_half_closing half_closing = true
is_half_closing _ = false

pub emit : Output → TcpConnection → TcpConnection
emit o c = record c { log = c.log ++ o ∷ [] }

pub connect_established : TcpConnection → TcpConnection
connect_established c =
    if is_new c.state then emit on_connection (record c { state = connected }) else c

pub connect_destroyed : TcpConnection → TcpConnection
connect_destroyed c = record c { state = closed; listening_out = false }

-- `handleClose` and `handleError`.
pub handle_close : TcpConnection → TcpConnection
handle_close c =
    if is_closed c.state
    then c
    else emit on_close (record c { state = closed; listening_out = false })

-- The loop of `flushOutputInLoop` has been left, after an error (`broken`) or without one, or it is
-- `running`: there are bytes to write, and the next answer is not known.
pub data FlushEnd : Type 0 where
  stopped broken running : FlushEnd

-- What the loop does with the answer to a `writev` of `ds`.
after_write :
    (TcpBuffer → Option (FlushEnd × List ℕ × TcpBuffer))
    → IoResult × List ℕ × TcpBuffer
    → Option (FlushEnd × List ℕ × TcpBuffer)
after_write next (done zero, ds, b) = some (stopped, [], b)
after_write next (done (suc n), ds, b) = do
  (end, rest, b') ← next b
  some (end, take (suc n) ds ++ rest, b')
after_write next (failed e, ds, b) =
    if e == interrupted then next b else some (if e == would_block then stopped else broken, [], b)

-- The loop: how it ends, the bytes that the socket has taken, and the rest.
pub flush_loop : TcpBuffer → List WriteReply → Option (FlushEnd × List ℕ × TcpBuffer)
flush_loop b [] = some (if readable b == 0 then stopped else running, [], b)
flush_loop b (reply ∷ replies) =
    if readable b == 0
    then some (stopped, [], b)
    else write_to_fd b reply >>= after_write (λ b'. flush_loop b' replies)

flushed : TcpConnection → FlushEnd × List ℕ × TcpBuffer → Bool × TcpConnection
flushed c (stopped, ds, b) = (readable b == 0, emit (written ds) (record c { out_buffer = b }))
flushed c (running, ds, b) = (false, emit (written ds) (record c { out_buffer = b }))
flushed c (broken, ds, b) = (false, handle_close (emit (written ds) (record c { out_buffer = b })))

pub flush_output : TcpConnection → List WriteReply → Option (Bool × TcpConnection)
flush_output c replies = do
  r ← flush_loop c.out_buffer (replies ++ blocked would_block ∷ [])
  some (flushed c r)

-- The first part of `updateWriteInterest`: whether EPOLLOUT is asked for.
write_interest : Bool → TcpConnection → TcpConnection
write_interest true c = emit on_write_complete (record c { listening_out = false })
write_interest false c = record c { listening_out = true }

below_mark : TcpConnection → TcpConnection
below_mark c = record c {
  sending_above_hwm = c.sending_above_hwm && not (ltb (readable c.out_buffer) c.high_water_mark);
}

pub update_write_interest : Bool → TcpConnection → TcpConnection
update_write_interest all_written c =
    let c' = below_mark (write_interest all_written c) in
    if all_written && is_half_closing c'.state && (c'.in_flight == 0) then handle_close c' else c'

-- A flush, and the interest in the next one unless the connection has been closed.
after_flush : Bool × TcpConnection → TcpConnection
after_flush (all_written, c) = if is_closed c.state then c else update_write_interest all_written c

pub handle_write : TcpConnection → List WriteReply → Option TcpConnection
handle_write c replies =
    if is_open c.state then (do r ← flush_output c replies; some (after_flush r)) else some c

pub schedule_output_flush : TcpConnection → TcpConnection
schedule_output_flush c =
    if c.flush_queued || c.listening_out
    then c
    else record c { flush_queued = true; flushes = c.flushes + 1 }

-- The task that `scheduleOutputFlush` gives to the loop.
pub flush_task : TcpConnection → List WriteReply → Option TcpConnection
flush_task c replies =
    handle_write (record c { flush_queued = false; flushes = c.flushes - 1 }) replies

-- The edge trigger of the high-water mark.
above_mark : TcpConnection → TcpConnection
above_mark c =
    if ltb 0 c.high_water_mark
      && leb c.high_water_mark (readable c.out_buffer)
      && not c.sending_above_hwm
    then emit (on_high_water_mark (readable c.out_buffer)) (record c { sending_above_hwm = true })
    else c

flush_now_or_later : TcpConnection → List WriteReply → Option TcpConnection
flush_now_or_later c replies =
    if c.direct_output_flush
      && not c.defer_output_flush
      && not c.flush_queued
      && not c.listening_out
    then (do r ← flush_output c replies; some (after_flush r))
    else some (schedule_output_flush c)

module _ (encode : List Protocol → TcpBuffer → Option (Bool × TcpBuffer)) where
  -- The rest of `sendInLoopBatch`, after the coder has answered.
  encoded : TcpConnection → List WriteReply → Bool × TcpBuffer → Option TcpConnection
  encoded c replies (true, b) =
      flush_now_or_later (above_mark (record c { out_buffer = b })) replies
  encoded c replies (false, b) = some (handle_close (record c { out_buffer = b }))

  pub send_in_loop_batch : TcpConnection → List Protocol → List WriteReply → Option TcpConnection
  send_in_loop_batch c [] replies = some c
  send_in_loop_batch c (m ∷ ms) replies =
      if refuses c.state then some c else (do r ← encode (m ∷ ms) c.out_buffer; encoded c replies r)

  -- `send` on the loop thread.
  pub send : TcpConnection → Protocol → List WriteReply → Option TcpConnection
  send c m replies = if refuses c.state then some c else send_in_loop_batch c (m ∷ []) replies

  -- Up to 256 messages from the queue; those of a connection that is not connected are dropped.
  take_batch : TcpConnection → List Protocol × TcpConnection
  take_batch c = (
    if is_connected c.state then take 256 c.write_queue else [],
    record c { write_queue = drop 256 c.write_queue },
  )

  -- `replies` has the answers of the kernel in each round.
  drain_rounds : ℕ → TcpConnection → (ℕ → List WriteReply) → Option TcpConnection
  drain_rounds zero c replies = some c
  drain_rounds (suc rounds) c replies =
      let (ms, c₁) = take_batch c in
      do c₂ ← send_in_loop_batch c₁ ms (replies rounds); drain_rounds rounds c₂ replies

  rearm : TcpConnection → TcpConnection
  rearm c = record c {
    write_queued = not (length c.write_queue == 0);
    drains = c.drains + (if length c.write_queue == 0 then 0 else 1);
  }

  -- The task that a `send` from another thread gives to the loop.
  pub drain_write_queue : TcpConnection → (ℕ → List WriteReply) → Option TcpConnection
  drain_write_queue c replies = do
    c' ← drain_rounds 3 (record c { drains = c.drains - 1 }) replies
    some (rearm c')

-- `send` on another thread.
pub send_across : TcpConnection → Protocol → TcpConnection
send_across c m = if refuses c.state then c else record c {
  write_queue = c.write_queue ++ m ∷ [];
  write_queued = true;
  drains = c.drains + (if c.write_queued then 0 else 1);
}

pub data ReadEnd : Type 0 where
  drained peer_closed read_error : ReadEnd

room_to_read : TcpBuffer → Option TcpBuffer
room_to_read b =
    if writable b == 0 then resize_buffer b (min (capacity b * 2) max_buffer_size) else some b

after_read :
    (TcpBuffer → Option (ReadEnd × TcpBuffer)) → IoResult × TcpBuffer → Option (ReadEnd × TcpBuffer)
after_read next (done zero, b) = some (peer_closed, b)
after_read next (done (suc n), b) =
    if ltb (suc n) max_read_per_round then some (drained, b) else next b
after_read next (failed e, b) =
    if e == interrupted then next b else some (if e == would_block then drained else read_error, b)

pub read_loop : TcpBuffer → List ReadReply → Option (ReadEnd × TcpBuffer)
read_loop b [] = do b' ← room_to_read b; some (drained, b')
read_loop b (reply ∷ replies) = do
  b' ← room_to_read b
  r ← read_from_fd b' reply
  after_read (λ b''. read_loop b'' replies) r

module _ (decode : TcpBuffer → Option (DecodeResult × TcpBuffer))
    (on_message : TcpConnection → List Protocol → Option TcpConnection) where
  -- The message callback, with the flush of its answers deferred if there are several messages.
  deliver : TcpConnection → List Protocol → Option TcpConnection
  deliver c [] = some c
  deliver c (m ∷ ms) =
      if c.direct_output_flush
      then (do
        c' ← on_message (record c { defer_output_flush = ltb 1 (length (m ∷ ms)) }) (m ∷ ms)
        some (record c' { defer_output_flush = c.defer_output_flush }))
      else on_message c (m ∷ ms)

  decoded : TcpConnection → DecodeResult × TcpBuffer → Option TcpConnection
  decoded c (r, b) =
      let c' = record c { in_buffer = b } in
      if r.fatal then some (handle_close c') else deliver c' r.messages

  after_reads : TcpConnection → ReadEnd × TcpBuffer → Option TcpConnection
  after_reads c (drained, b) = do r ← decode b; decoded c r
  after_reads c (peer_closed, b) = some (handle_close (record c { in_buffer = b }))
  after_reads c (read_error, b) = some (handle_close (record c { in_buffer = b }))

  pub handle_read : TcpConnection → List ReadReply → Option TcpConnection
  handle_read c replies =
      if is_open c.state then (do r ← read_loop c.in_buffer replies; after_reads c r) else some c

pub shutdown_in_loop : TcpConnection → TcpConnection
shutdown_in_loop c =
    if is_closed c.state
    then c
    else (let c' = record c { state = half_closing } in
        if readable c.out_buffer == 0 then emit shut_wr c' else c')
