-- ===== src/RpcDispatcher/Answers.antt =====
-- What a dispatch does with a request.
use rocket_rpc.Common.{
  ℕ, ◌+◌, ◌<◌, ◌≡◌, refl, ap, Bool, true, false, Option, none, some, List, [], ◌∷◌, ◌++◌, arith,
  if◌then◌else◌, length, Bool-cases, inl, inr, codes,
}
use rocket_rpc.Protocol.{TinyPb, tiny_pb}
use rocket_rpc.ThreadPool.{ThreadPool, try_execute}
use rocket_rpc.RpcDispatcher.{
  RpcDispatcher, RpcExecutionMode, inline, worker_pool, Method, Service, Call, lookup,
  execution_mode_for, set_error, send_error, invoke, hand_over, start, with_message, with_method,
  with_service, with_names, addressed, dispatch_message, dispatch, parse_service_full_name,
  server_overloaded, rpc_shutdown,
}

-- What a dispatch has done with a request: an error has been sent in answer, with the id and the
-- method name of the request, and nothing else has changed but the worker pool; or a call has been
-- started, counted, and is with the service or in the queue of the pool.
pub data Dispatched (d : RpcDispatcher) (req : TinyPb) (d' : RpcDispatcher) : Type 0 where
  refused :
      (rsp : TinyPb)
      → rsp.msg_id ≡ req.msg_id
      → rsp.method_name ≡ req.method_name
      → 0 < rsp.err_code
      → d'.sent ≡ d.sent ++ rsp ∷ []
      → d'.in_flight ≡ d.in_flight
      → d'.invoked ≡ d.invoked
      → d'.queued ≡ d.queued
      → Dispatched d req d'
  called :
      (c : Call)
      → c.request ≡ req
      → c.response.msg_id ≡ req.msg_id
      → c.response.method_name ≡ req.method_name
      → d'.sent ≡ d.sent
      → d'.in_flight ≡ d.in_flight + 1
      → d'.invoked ≡ d.invoked ++ c ∷ []
      → d'.queued ≡ d.queued
      → Dispatched d req d'
  enqueued :
      (c : Call)
      → c.request ≡ req
      → c.response.msg_id ≡ req.msg_id
      → c.response.method_name ≡ req.method_name
      → d'.sent ≡ d.sent
      → d'.in_flight ≡ d.in_flight + 1
      → d'.invoked ≡ d.invoked
      → d'.queued ≡ d.queued ++ c ∷ []
      → (try_execute d.worker_pool (length d.queued)).0 ≡ true
      → Dispatched d req d'

module _ (d : RpcDispatcher) (req rsp : TinyPb) where
  out : TinyPb
  out = addressed req rsp

  error_lem : (code : ℕ) (info : List ℕ) → 0 < code → Dispatched d req (send_error d out code info)
  unfolding send_error set_error addressed out
  error_lem code info h = refused (set_error out code info) refl refl h refl refl refl refl

  hand_over_lem :
      (message : List ℕ) (a : Bool × ThreadPool)
      → try_execute d.worker_pool (length d.queued) ≡ a
      → Dispatched d req (
          hand_over
            (record d { in_flight = d.in_flight + 1 })
            (record { request = req; response = out; message = message })
            a)
  unfolding hand_over addressed out send_error set_error
  hand_over_lem message (true, pool) e =
      enqueued _ refl refl refl refl refl refl refl (ap (λ a. a.0) e)
  hand_over_lem message (false, pool) e = elim (Bool-cases d.stopping) [
    | inl over ↦ rw over (
        refused (set_error (addressed req rsp) rpc_shutdown (codes "server is shutting down")) refl
          refl (omega arith) refl (omega arith) refl refl)
    | inr on ↦ rw on (
        refused
          (set_error (addressed req rsp) server_overloaded (codes "server worker queue is full"))
          refl refl (omega arith) refl (omega arith) refl refl)
  ]

  start_lem :
      (mode : RpcExecutionMode) (message : List ℕ)
      → Dispatched d req (
          start mode
            (record d { in_flight = d.in_flight + 1 })
            (record { request = req; response = out; message = message }))
  unfolding start invoke addressed out
  start_lem inline message = called _ refl refl refl refl refl refl refl
  start_lem worker_pool message =
      hand_over_lem message (try_execute d.worker_pool (length d.queued)) refl

  with_message_lem :
      (method : Method) (o : Option (List ℕ)) → Dispatched d req (with_message d req out method o)
  unfolding with_message out
  with_message_lem method none = error_lem _ _ (omega arith)
  with_message_lem method (some message) = start_lem (execution_mode_for d method.full_name) message

  with_method_lem : (o : Option Method) → Dispatched d req (with_method d req out o)
  unfolding with_method out
  with_method_lem none = error_lem _ _ (omega arith)
  with_method_lem (some method) = with_message_lem method (method.parse_request req.pb_data)

  with_service_lem :
      (name : List ℕ) (o : Option Service) → Dispatched d req (with_service d req out name o)
  unfolding with_service out
  with_service_lem name none = error_lem _ _ (omega arith)
  with_service_lem name (some service) = with_method_lem (service.find_method name)

  with_names_lem : (o : Option (List ℕ × List ℕ)) → Dispatched d req (with_names d req out o)
  unfolding with_names out
  with_names_lem none = error_lem _ _ (omega arith)
  with_names_lem (some (service, method)) = with_service_lem method (lookup service d.service_map)

  either :
      {x y : RpcDispatcher} (b : Bool)
      → Dispatched d req x
      → Dispatched d req y
      → Dispatched d req (if b then x else y)
  either true h k = h
  either false h k = k

  -- On every branch of `dispatch` a TinyPB request is either refused, with one error response that
  -- carries its id and method name and a positive code, or started as one call, which is counted
  -- in flight and is with the service or in the queue of the worker pool, which has accepted it.
  pub dispatch_lem : Dispatched d req (dispatch d (tiny_pb req) (tiny_pb rsp))
  unfolding dispatch dispatch_message out
  dispatch_lem =
      either d.stopping (error_lem _ _ (omega arith))
        (with_names_lem (parse_service_full_name req.method_name))
