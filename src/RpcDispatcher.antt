-- ===== src/RpcDispatcher.antt =====
-- src/rocket/net/rpc/rpc_dispatcher.{h,cc}: from a request to the method of a service, and back.
-- Services and messages are those of the protobuf library and of the code that it generates: a
-- `Service` here is what the dispatcher asks of one. The connection of the request is a counter and
-- the messages that it has been given to send.
pub mod Names
pub mod Answers
pub mod Once
pub mod Tests
use rocket_rpc.Common.{
  ℕ, zero, suc, ◌+◌, ◌-◌, ◌%◌, Bool, true, false, ◌&&◌, Option, none, some, List, [], ◌∷◌, ◌++◌,
  ◌==◌, if◌then◌else◌, length, take, drop, codes,
}
use rocket_rpc.Protocol.{TinyPb, Protocol, tiny_pb}
use rocket_rpc.TinyPb.{to_int32}
use rocket_rpc.ThreadPool.{ThreadPool, pending_count, try_execute, request_stop}

pub data RpcExecutionMode : Type 0 where
  inline worker_pool : RpcExecutionMode

-- `parse_request` is `ParseFromString` into a message of the method, kept as its bytes.
pub record Method : Type 0 where
  pub full_name : List ℕ
  pub parse_request : List ℕ → Option (List ℕ)

pub record Service : Type 0 where
  pub full_name : List ℕ
  pub find_method : List ℕ → Option Method

-- A call that waits for its closure to be run.
pub record Call : Type 0 where
  pub request : TinyPb
  pub response : TinyPb
  pub message : List ℕ

-- The dispatcher, and what a dispatch does to the connection (`in_flight`, `sent`), to the services
-- (`invoked`), and to the worker pool, whose tasks are numbers of `queued`.
pub record RpcDispatcher : Type 0 where
  pub service_map : List (List ℕ × Service)
  pub method_execution_modes : List (List ℕ × RpcExecutionMode)
  pub default_execution_mode : RpcExecutionMode
  pub worker_pool : ThreadPool
  pub stopping : Bool
  pub in_flight : ℕ
  pub sent : List TinyPb
  pub invoked : List Call
  pub queued : List Call

-- The equality of strings.
unfoldable pub same : List ℕ → List ℕ → Bool
same [] [] = true
same (x ∷ xs) (y ∷ ys) = (x == y) && same xs ys
same [] (y ∷ ys) = false
same (x ∷ xs) [] = false

-- `find` and `insert_or_assign` of a map.
unfoldable pub lookup {ℓ} : {A : Type ℓ} → List ℕ → List (List ℕ × A) → Option A
lookup k [] = none
lookup k ((j, a) ∷ m) = if same j k then some a else lookup k m

unfoldable pub assign {ℓ} : {A : Type ℓ} → List ℕ → A → List (List ℕ × A) → List (List ℕ × A)
assign k a [] = (k, a) ∷ []
assign k a ((j, b) ∷ m) = if same j k then (j, a) ∷ m else (j, b) ∷ assign k a m

pub register_service : RpcDispatcher → Service → RpcDispatcher
register_service d s = record d { service_map = assign s.full_name s d.service_map }

pub set_default_execution_mode : RpcDispatcher → RpcExecutionMode → RpcDispatcher
set_default_execution_mode d mode = record d { default_execution_mode = mode }

pub set_method_execution_mode : RpcDispatcher → List ℕ → RpcExecutionMode → Bool × RpcDispatcher
set_method_execution_mode d [] mode = (false, d)
set_method_execution_mode d (x ∷ name) mode =
    (true, record d { method_execution_modes = assign (x ∷ name) mode d.method_execution_modes })

or_default : RpcExecutionMode → Option RpcExecutionMode → RpcExecutionMode
or_default mode none = mode
or_default mode (some m) = m

pub execution_mode_for : RpcDispatcher → List ℕ → RpcExecutionMode
execution_mode_for d name =
    or_default d.default_execution_mode (lookup name d.method_execution_modes)

-- `rfind('.')`.
pub after_head : ℕ → Option ℕ → Option ℕ
after_head x (some i) = some (suc i)
after_head x none = if x == 46 then some 0 else none

pub rfind_dot : List ℕ → Option ℕ
rfind_dot [] = none
rfind_dot (x ∷ xs) = after_head x (rfind_dot xs)

-- The names of the service and of the method, or no result.
split_at : List ℕ → Option ℕ → Option (List ℕ × List ℕ)
split_at name none = none
split_at name (some i) = some (take i name, take (length name - i - 1) (drop (i + 1) name))

pub parse_service_full_name : List ℕ → Option (List ℕ × List ℕ)
parse_service_full_name [] = none
parse_service_full_name (x ∷ name) = split_at (x ∷ name) (rfind_dot (x ∷ name))

-- ecode.h
abbrev pub failed_deserialize : ℕ
failed_deserialize = 10000003

abbrev pub failed_serialize : ℕ
failed_serialize = 10000004

abbrev pub service_not_found : ℕ
service_not_found = 10000008

abbrev pub method_not_found : ℕ
method_not_found = 10000009

abbrev pub bad_service_name : ℕ
bad_service_name = 10000010

abbrev pub rpc_shutdown : ℕ
rpc_shutdown = 10000015

abbrev pub server_overloaded : ℕ
server_overloaded = 10000016

-- `setTinyPBError`.
pub set_error : TinyPb → ℕ → List ℕ → TinyPb
set_error m code info = record m {
  err_code = code;
  err_info = info;
  err_info_len = to_int32 (length info);
}

-- The lambda `sendError`.
send_error : RpcDispatcher → TinyPb → ℕ → List ℕ → RpcDispatcher
send_error d rsp code info = record d { sent = d.sent ++ set_error rsp code info ∷ [] }

-- `invokeService`: the call is with the service, until its closure is run.
pub invoke : RpcDispatcher → Call → RpcDispatcher
invoke d c = record d { invoked = d.invoked ++ c ∷ [] }

-- The answer of the worker pool.
hand_over : RpcDispatcher → Call → Bool × ThreadPool → RpcDispatcher
hand_over d c (true, pool) = record d { worker_pool = pool; queued = d.queued ++ c ∷ [] }
hand_over d c (false, pool) =
    let d' = record d { worker_pool = pool; in_flight = d.in_flight - 1 } in
    if d.stopping
    then send_error d' c.response rpc_shutdown (codes "server is shutting down")
    else send_error d' c.response server_overloaded (codes "server worker queue is full")

start : RpcExecutionMode → RpcDispatcher → Call → RpcDispatcher
start inline d c = invoke d c
start worker_pool d c = hand_over d c (try_execute d.worker_pool (length d.queued))

-- The stages of `dispatch`, each with the result of the test or search before it.
with_message : RpcDispatcher → TinyPb → TinyPb → Method → Option (List ℕ) → RpcDispatcher
with_message d req rsp method none = send_error d rsp failed_deserialize (codes "deserialize error")
with_message d req rsp method (some message) =
    start (execution_mode_for d method.full_name) (record d { in_flight = d.in_flight + 1 })
      (record { request = req; response = rsp; message = message })

with_method : RpcDispatcher → TinyPb → TinyPb → Option Method → RpcDispatcher
with_method d req rsp none = send_error d rsp method_not_found (codes "method not found")
with_method d req rsp (some method) =
    with_message d req rsp method (method.parse_request req.pb_data)

with_service : RpcDispatcher → TinyPb → TinyPb → List ℕ → Option Service → RpcDispatcher
with_service d req rsp name none = send_error d rsp service_not_found (codes "service not found")
with_service d req rsp name (some service) = with_method d req rsp (service.find_method name)

with_names : RpcDispatcher → TinyPb → TinyPb → Option (List ℕ × List ℕ) → RpcDispatcher
with_names d req rsp none = send_error d rsp bad_service_name (codes "parse service name error")
with_names d req rsp (some (service, method)) =
    with_service d req rsp method (lookup service d.service_map)

-- The response with the id and the method name of the request.
pub addressed : TinyPb → TinyPb → TinyPb
addressed req rsp = record rsp { msg_id = req.msg_id; method_name = req.method_name }

dispatch_message : RpcDispatcher → TinyPb → TinyPb → RpcDispatcher
dispatch_message d req rsp =
    if d.stopping
    then send_error d (addressed req rsp) rpc_shutdown (codes "server is shutting down")
    else with_names d req (addressed req rsp) (parse_service_full_name req.method_name)

-- Anything but two TinyPB messages is not handled.
pub dispatch : RpcDispatcher → Protocol → Protocol → RpcDispatcher
dispatch d (tiny_pb req) (tiny_pb rsp) = dispatch_message d req rsp
dispatch d _ _ = d

-- What the closure puts into the response: `SerializeToString` answers, and leaves bytes.
pub finish_response : TinyPb → Bool × List ℕ → TinyPb
finish_response m (true, bytes) = record m { pb_data = bytes; err_code = 0; err_info = [] }
finish_response m (false, bytes) =
    set_error (record m { pb_data = bytes }) failed_serialize (codes "serialize error")

-- The closure of a call is run.
pub complete : RpcDispatcher → Call → Bool × List ℕ → RpcDispatcher
complete d c serialized = record d {
  in_flight = d.in_flight - 1;
  sent = d.sent ++ finish_response c.response serialized ∷ [];
}

pub pending_worker_tasks : RpcDispatcher → ℕ
pending_worker_tasks d = pending_count d.worker_pool

pub stop : RpcDispatcher → RpcDispatcher
stop d = record d { stopping = true; worker_pool = request_stop d.worker_pool }
