-- ===== src/RpcDispatcher/Tests.antt =====
-- A dispatcher with one service of one method.
use rocket_rpc.Common.{
  ◌+◌, ◌≡◌, refl, true, false, none, some, [], ◌∷◌, ◌++◌, codes, length, if◌then◌else◌,
}
use rocket_rpc.Protocol.{TinyPb, null, tiny_pb}
use rocket_rpc.ThreadPool
use rocket_rpc.RpcDispatcher.{
  RpcDispatcher, inline, worker_pool, Method, Service, Call, same, lookup, assign, or_default,
  rfind_dot, after_head, register_service, set_default_execution_mode, execution_mode_for, dispatch,
  complete, parse_service_full_name, dispatch_message, with_names, with_service, with_method,
  with_message, start, invoke, addressed, split_at, stop, pending_worker_tasks,
}
use rocket_rpc.RpcDispatcher.Names.{parse_service_full_name_lem}
use rocket_rpc.RpcDispatcher.Answers.{Dispatched, dispatch_lem}
use rocket_rpc.RpcDispatcher.Once.{
  System, receive, new_calls, dispatches, completes, Reach, new, later, count, requests,
  answered_once,
}

abbrev make_order : Method
make_order = record { full_name = codes "Order.make"; parse_request = λ bytes. some bytes }

abbrev order : Service
order = record {
  full_name = codes "Order";
  find_method = λ name. if same name (codes "make") then some make_order else none;
}

abbrev dispatcher : RpcDispatcher
dispatcher = record {
  service_map = [];
  method_execution_modes = [];
  default_execution_mode = worker_pool;
  worker_pool = ThreadPool.create 4 4096;
  stopping = false;
  in_flight = 0;
  sent = [];
  invoked = [];
  queued = [];
}

abbrev message : TinyPb
message = record {
  msg_id = codes "1";
  pk_len = 0;
  msg_id_len = 0;
  method_name_len = 0;
  method_name = codes "Order.make";
  err_code = 0;
  err_info_len = 0;
  err_info = [];
  pb_data = 1 ∷ [];
  check_sum = 0;
  parse_success = false;
}

abbrev serving : RpcDispatcher
serving = register_service dispatcher order

dispatch_lem_example :
    Dispatched serving message (dispatch serving (tiny_pb message) (tiny_pb message))
dispatch_lem_example = dispatch_lem serving message message

abbrev call : Call
call = record { request = message; response = message; message = 1 ∷ [] }

-- The message is received, and its closure is run.
abbrev fresh : System
fresh = record {
  dispatcher = set_default_execution_mode serving inline;
  received = [];
  open_calls = [];
}

abbrev received_1 : System
received_1 = receive message message fresh

abbrev answered_1 : System
answered_1 = record received_1 {
  dispatcher = complete received_1.dispatcher call (true, 5 ∷ []);
  open_calls = [];
}

no_answers : (fresh.dispatcher.sent ≡ []) × (fresh.dispatcher.in_flight ≡ 0)
unfolding register_service set_default_execution_mode
no_answers = (refl, refl)

is_open : received_1.open_calls ≡ [] ++ call ∷ []
unfolding receive new_calls dispatch dispatch_message with_names with_service with_method
    with_message start invoke addressed register_service set_default_execution_mode
    parse_service_full_name rfind_dot after_head split_at lookup assign same execution_mode_for
    or_default
is_open = refl

answered_1-Reach : Reach answered_1
answered_1-Reach =
    later (later (new fresh.dispatcher no_answers.0 no_answers.1) (dispatches message message))
      (completes [] call [] (true, 5 ∷ []) is_open)

answered_once_example :
    (count (codes "1") (codes "Order.make") answered_1.received
      ≡ count (codes "1") (codes "Order.make") answered_1.dispatcher.sent
        + count (codes "1") (codes "Order.make") (requests answered_1.open_calls))
    × (answered_1.dispatcher.in_flight ≡ length answered_1.open_calls)
answered_once_example = answered_once (codes "1") (codes "Order.make") answered_1 answered_1-Reach

parse_service_full_name_lem_example :
    parse_service_full_name (codes "a.b.make") ≡ some (codes "a.b", codes "make")
unfolding rfind_dot after_head
parse_service_full_name_lem_example = parse_service_full_name_lem (codes "a.b") (codes "make") refl

modes_run :
    (execution_mode_for (set_default_execution_mode dispatcher inline) (codes "b") ≡ inline)
    × (pending_worker_tasks dispatcher ≡ ThreadPool.pending_count dispatcher.worker_pool)
    × ((stop dispatcher).stopping ≡ true)
    × (dispatch dispatcher null (tiny_pb message) ≡ dispatcher)
    × (lookup (codes "Order") serving.service_map ≡ some order)
unfolding set_default_execution_mode execution_mode_for or_default lookup stop pending_worker_tasks
    dispatch register_service assign same
modes_run = (refl, refl, refl, refl, refl)
