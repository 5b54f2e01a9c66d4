-- ===== src/TcpClient.antt =====
-- src/rocket/net/tcp/tcp_client.{h,cc}: connecting, and the callbacks that wait for a response.
-- A callback is a number. The answers of the kernel to `socket` and `connect` are arguments; what
-- the loop thread is given to do is in `queued`. `none` for a connection is a null pointer.
pub mod Reads
pub mod Connects
pub mod Tests
use rocket_rpc.Common.{
  ℕ, Bool, true, false, ◌&&◌, ◌||◌, Option, none, some, List, [], ◌∷◌, ◌++◌, ◌==◌, if◌then◌else◌,
  codes,
}
use rocket_rpc.RpcDispatcher.{same, lookup, assign}
use rocket_rpc.TcpConnection.{TcpState, not_connected, connected, closed, is_connected, is_new}

-- The tasks that the client gives to its loop: to establish the connection, to wait until it is
-- writable, and to drop it.
pub data LoopTask : Type 0 where
  establish wait_writable destroy : LoopTask

pub record TcpClient : Type 0 where
  pub connection : Option TcpState
  pub connect_error_code : ℕ
  pub connect_error_info : List ℕ
  pub read_callbacks : List (List ℕ × ℕ)
  pub is_stopped : Bool
  pub queued : List LoopTask

unfoldable pub create : TcpClient
create = record {
  connection = none;
  connect_error_code = 0;
  connect_error_info = [];
  read_callbacks = [];
  is_stopped = false;
  queued = [];
}

-- `std::map::erase` by key.
pub erase_key {ℓ} : {A : Type ℓ} → List ℕ → List (List ℕ × A) → List (List ℕ × A)
erase_key k [] = []
erase_key k ((j, a) ∷ m) = let rest = erase_key k m in if same j k then rest else (j, a) ∷ rest

pub read_message : TcpClient → List ℕ → ℕ → TcpClient
read_message c id callback = record c { read_callbacks = assign id callback c.read_callbacks }

pub cancel_read : TcpClient → List ℕ → TcpClient
cancel_read c id = record c { read_callbacks = erase_key id c.read_callbacks }

-- One round of `onMessage`: the callback of the message, which is taken out of the map.
pub take_callback : TcpClient → List ℕ → Option ℕ × TcpClient
take_callback c id = (lookup id c.read_callbacks, cancel_read c id)

-- The calls of callbacks that `onMessage` makes, for messages given by their ids.
called_with : List ℕ → Option ℕ → List (ℕ × List ℕ)
called_with id none = []
called_with id (some callback) = (callback, id) ∷ []

-- `run` is what a callback, called with a message, does to the client before it returns: it may
-- register callbacks and cancel them, also for the messages that come next.
module _ (run : ℕ → List ℕ → TcpClient → TcpClient) where
  run_callback : Option ℕ → List ℕ → TcpClient → TcpClient
  run_callback none id c = c
  run_callback (some callback) id c = run callback id c

  pub on_message : TcpClient → List (List ℕ) → List (ℕ × List ℕ) × TcpClient
  on_message c [] = ([], c)
  on_message c (id ∷ ids) =
      let (callback, c₁) = take_callback c id in
      let (calls, c₂) = on_message (run_callback callback id c₁) ids in
      (called_with id callback ++ calls, c₂)

pub set_connect_error : ℕ → List ℕ → TcpClient → TcpClient
set_connect_error code info c = record c { connect_error_code = code; connect_error_info = info }

abbrev pub in_progress : ℕ
in_progress = 115

abbrev pub timed_out : ℕ
timed_out = 110

-- The client's connection, if it has one, in another state.
now_in : TcpState → Option TcpState → Option TcpState
now_in s none = none
now_in s (some old) = some s

-- `strerror` is outside: the texts that it makes are an argument.
module _ (strerror : ℕ → List ℕ) where
  -- `connect`, up to the task for the loop: whether `done` has been called already. `some e` is an
  -- error of the system call; without one, the connection is there or in progress.
  after_connect : TcpClient → Option ℕ → Bool × TcpClient
  after_connect c none =
      (false, record c { connection = some not_connected; queued = c.queued ++ establish ∷ [] })
  after_connect c (some e) =
      if e == in_progress
      then (
        false,
        record c { connection = some not_connected; queued = c.queued ++ wait_writable ∷ [] },
      )
      else (true, set_connect_error e (codes "connect() failed: " ++ strerror e) c)

  pub connect : TcpClient → Option ℕ → Option ℕ → Bool × TcpClient
  connect c (some e) connect_error = (
    true,
    set_connect_error e (codes "socket() failed: " ++ strerror e)
        (set_connect_error 0 [] (record c { is_stopped = false })),
  )
  connect c none connect_error =
      after_connect (set_connect_error 0 [] (record c { is_stopped = false })) connect_error

  -- The loop runs the task `establish`, or it learns that the socket is writable, with SO_ERROR
  -- (`connectInProgress` of tcp_connection.cc). The state is that of the connection, which the
  -- client has let go of when it was stopped in between.
  pub finish_connect : TcpClient → ℕ → TcpClient
  finish_connect c e =
      if e == 0
      then set_connect_error 0 [] (record c { connection = now_in connected c.connection })
      else set_connect_error e (codes "connect() failed: " ++ strerror e)
          (record c { connection = now_in closed c.connection })

pub is_connected_now : TcpClient → Bool
is_connected_now c = elim c.connection [ none ↦ false | some s ↦ is_connected s ]

stop_connection : Bool → TcpClient → Option TcpState → TcpClient
stop_connection runs c none = c
stop_connection runs c (some s) = if runs then record c { queued = c.queued ++ destroy ∷ [] } else c

-- `stop`. Where the loop runs, the task `destroy` is given to it and awaited, or run at once when
-- this is the loop's own thread.
pub stop : Bool → TcpClient → TcpClient
stop runs c =
    if c.is_stopped
    then c
    else record (stop_connection runs (record c { is_stopped = true }) c.connection) {
      connection = none;
      read_callbacks = [];
    }

-- The end of `connectSync`: the result, once `done` has been called or the time is over.
pub connect_sync_end : Bool → TcpClient → Bool → Option ℕ × TcpClient
connect_sync_end runs c true = (some c.connect_error_code, c)
connect_sync_end runs c false =
    (none, stop runs (set_connect_error timed_out (codes "connect() timed out") c))

-- The test at the start of `requestSync`, and what it leaves when the time is over: no result, and
-- nobody waits for the id.
pub request_sync : TcpClient → List ℕ → ℕ → Option TcpClient
request_sync c id callback = if is_connected_now c then some (read_message c id callback) else none

pub request_sync_end : TcpClient → List ℕ → Option (List ℕ) → Option (List ℕ) × TcpClient
request_sync_end c id (some response) = (some response, c)
request_sync_end c id none = (none, cancel_read c id)
