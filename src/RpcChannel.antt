-- ===== src/RpcChannel.antt =====
-- src/rocket/net/rpc/rpc_channel.{h,cc}: one call, from the caller's thread to its completion.
-- The completion (`finishRpc`) is cut where other threads can come in between: `claim` is the
-- compare-and-swap, `clean` ends the timer and the wait for the response, `complete` does what the
-- winner asked for and runs the closure. Parsing a response is outside: it fails or gives a message.
pub mod Runs
pub mod Kept
pub mod Start
use rocket_rpc.Common.{
  ℕ, zero, suc, ◌+◌, ◌/◌, ◌%◌, Bool, true, false, not, ◌&&◌, Option, none, some, List, [], ◌∷◌,
  ◌++◌, ltb, ◌==◌, if◌then◌else◌, codes,
}
use rocket_rpc.RpcDispatcher.{failed_deserialize}
use rocket_rpc.RpcController.{RpcController, start_cancel, set_error}
use rocket_rpc.TcpClient.{TcpClient, read_message, cancel_read}

-- The codes of src/rocket/common/ecode.h that a channel sets.
abbrev pub rpc_call_timeout : ℕ
rpc_call_timeout = 10000007

abbrev pub rpc_channel_init : ℕ
rpc_channel_init = 10000011

abbrev pub rpc_peer_addr : ℕ
rpc_peer_addr = 10000012

abbrev pub rpc_pool_exhausted : ℕ
rpc_pool_exhausted = 10000014

-- `std::to_string` of a number with at most `fuel` digits.
pub to_string_in : ℕ → ℕ → List ℕ
to_string_in zero n = []
to_string_in (suc fuel) n =
    let front = to_string_in fuel (n / 10) in
    if ltb n 10 then (48 + n) ∷ [] else front ++ (48 + n % 10) ∷ []

-- An `int` has at most ten digits.
pub to_string : ℕ → List ℕ
to_string n = to_string_in 10 n

-- The fields of a response that a call reads.
pub record Response : Type 0 where
  pub err_code : ℕ
  pub err_info : List ℕ
  pub pb_data : List ℕ

-- What the winner does before the closure runs: an error of the connection or of the start of the
-- call, the timer, the timeout of a blocking call, and a response; `none` is one of another protocol.
pub data Outcome : Type 0 where
  error : ℕ → List ℕ → Outcome
  time_out : Outcome
  cancel : Outcome
  answer : Option Response → Outcome

pub record RequestState : Type 0 where
  pub finished : Bool
  pub controller : RpcController
  pub response : List ℕ
  pub has_done : Bool
  pub has_timer : Bool
  pub has_client : Bool
  pub msg_id : List ℕ
  -- how often the closure has run
  pub runs : ℕ

pub begin : RpcController → List ℕ → Bool → RequestState
begin controller response has_done = record {
  finished = false;
  controller = controller;
  response = response;
  has_done = has_done;
  has_timer = false;
  has_client = false;
  msg_id = [];
  runs = 0;
}

-- `finishRpc`, up to the compare-and-swap: whether this thread completes the call.
pub claim : RequestState → Bool × RequestState
claim r = if r.finished then (false, r) else (true, record r { finished = true })

pub is_empty : List ℕ → Bool
is_empty [] = true
is_empty (x ∷ xs) = false

-- The timer is ended, and nobody waits for the response any more.
pub clean : RequestState → TcpClient → RequestState × TcpClient
clean r client = (
  record r { has_timer = false },
  (if r.has_client && not (is_empty r.msg_id) then cancel_read client r.msg_id else client),
)

-- `ParseFromString`: `none` where it fails, and what the message then holds is not looked at.
module _ (parse : List ℕ → Option (List ℕ)) where
  store : Option (List ℕ) → RequestState → RequestState
  store none r = record r {
    controller = set_error failed_deserialize (codes "response deserialize error") r.controller;
  }
  store (some message) r = record r { response = message }

  pub before_done : Outcome → RequestState → RequestState
  before_done (error code info) r = record r { controller = set_error code info r.controller }
  before_done time_out r = record r {
    controller =
        set_error rpc_call_timeout (codes "rpc call timeout " ++ to_string r.controller.timeout)
          (start_cancel r.controller);
  }
  before_done cancel r = record r {
    controller =
        set_error rpc_call_timeout (codes "CallMethodBlocking timeout") (start_cancel r.controller);
  }
  before_done (answer none) r = record r {
    controller = set_error failed_deserialize (codes "invalid RPC response protocol") r.controller;
  }
  before_done (answer (some a)) r =
      if a.err_code == 0
      then store (parse a.pb_data) r
      else record r { controller = set_error a.err_code a.err_info r.controller }

  run_done : RequestState → RequestState
  run_done r = if r.has_done then record r { runs = r.runs + 1 } else r

  pub complete : Outcome → RequestState → RequestState
  complete o r = run_done (before_done o r)

  finish_claimed : Outcome → Bool × RequestState → TcpClient → Bool × (RequestState × TcpClient)
  finish_claimed o (false, r) client = (false, (r, client))
  finish_claimed o (true, r) client =
      let (r₁, client₁) = clean r client in (true, (complete o r₁, client₁))

  -- `finishRpc` with no other thread in between.
  pub finish_rpc : Outcome → RequestState → TcpClient → Bool × (RequestState × TcpClient)
  finish_rpc o r client = finish_claimed o (claim r) client

-- The caller's thread in `doSendRead`: each look at `finished`, the registration of the callback
-- `own`, and the message handed to the connection. `queued` counts these messages.
pub data Caller : Type 0 where
  looking registering looking_again withdrawing sending returned : Caller

pub record Call : Type 0 where
  pub request : RequestState
  pub client : TcpClient
  pub caller : Caller
  pub queued : ℕ

pub look : Call → Call
look c = record c { caller = if c.request.finished then returned else registering }

pub register : ℕ → Call → Call
register own c = record c {
  client = read_message c.client c.request.msg_id own;
  caller = looking_again;
}

pub look_again : Call → Call
look_again c = record c { caller = if c.request.finished then withdrawing else sending }

pub withdraw : Call → Call
withdraw c = record c { client = cancel_read c.client c.request.msg_id; caller = returned }

pub send : Call → Call
send c = record c { queued = c.queued + 1; caller = returned }

-- The next statement of `doSendRead`.
pub advance : ℕ → Call → Caller → Call
advance own c looking = look c
advance own c registering = register own c
advance own c looking_again = look_again c
advance own c withdrawing = withdraw c
advance own c sending = send c
advance own c returned = c
