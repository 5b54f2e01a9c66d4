-- ===== src/RpcChannel/Start.antt =====
-- `Init`, and `callMethodInternal` up to the point where the request is sent: the hand-off of `Init`,
-- the choice of the client, the message id, the serialization and the timer. Objects are numbers,
-- a null pointer is `none`; what the pool, the registry and protobuf answer is an argument. The
-- thread's logging context (`RunTime`) is left out.
pub mod Ends
use rocket_rpc.Common.{
  ℕ, max, Bool, true, false, not, ◌&&◌, Option, none, some, List, [], ◌++◌, ◌==◌, if◌then◌else◌,
  codes,
}
use rocket_rpc.RpcDispatcher.{failed_serialize}
use rocket_rpc.RpcController.{RpcController, set_error, set_msg_id}
use rocket_rpc.TcpClient.{TcpClient}
use rocket_rpc.RpcChannel.{
  RequestState, Outcome, error, begin, finish_rpc, is_empty, rpc_channel_init, rpc_peer_addr,
  rpc_pool_exhausted,
}

-- What `Init` hands over to the next call.
pub record Slot : Type 0 where
  pub controller : Option ℕ
  pub request : Option ℕ
  pub response : Option ℕ
  pub closure : Option ℕ

pub record RpcChannel : Type 0 where
  pub peer_addr : Option (List ℕ)
  pub has_pool : Bool
  pub has_registry : Bool
  pub service_name : List ℕ
  pub client : Option ℕ
  pub actual_peer : Option (List ℕ)
  pub slot : Slot
  pub is_init : Bool

abbrev pub empty_slot : Slot
empty_slot = record { controller = none; request = none; response = none; closure = none }

pub create : Option (List ℕ) → Bool → RpcChannel
create peer_addr has_pool = record {
  peer_addr = peer_addr;
  has_pool = has_pool;
  has_registry = false;
  service_name = [];
  client = none;
  actual_peer = none;
  slot = empty_slot;
  is_init = false;
}

pub for_service : List ℕ → Bool → Bool → RpcChannel
for_service service_name has_pool has_registry = record (create none has_pool) {
  service_name = service_name;
  has_registry = has_registry;
}

-- `Init`.
pub init : Slot → RpcChannel → RpcChannel
init slot ch = record ch { slot = slot; is_init = true }

-- `get() == p` for a pointer that may be null.
pub same_object : Option ℕ → Option ℕ → Bool
same_object none none = true
same_object none (some q) = false
same_object (some p) none = false
same_object (some p) (some q) = p == q

-- The closure that the call runs, and the closure that the call owns.
pub record Captured : Type 0 where
  pub done : Option ℕ
  pub closure_owner : Option ℕ

capture_closure : Option ℕ → Option ℕ → Captured
capture_closure none none = record { done = none; closure_owner = none }
capture_closure none (some closure) = record { done = some closure; closure_owner = some closure }
capture_closure (some done) closure = record {
  done = some done;
  closure_owner = if same_object closure (some done) then closure else none;
}

legacy_matches : RpcChannel → ℕ → ℕ → ℕ → Bool
legacy_matches ch controller request response =
    same_object ch.slot.controller (some controller)
    && same_object ch.slot.request (some request)
    && same_object ch.slot.response (some response)

pub capture : RpcChannel → ℕ → ℕ → ℕ → Option ℕ → Captured × RpcChannel
capture ch controller request response done =
    if ch.is_init && legacy_matches ch controller request response
    then (capture_closure done ch.slot.closure, record ch { slot = empty_slot; is_init = false })
    else (record { done = done; closure_owner = none }, ch)

-- What the world answers to the choice of a client: the pool by service with the address it chose,
-- the pool by address, which clients are connected, and the client made without a pool.
pub record Answers : Type 0 where
  pub by_service : Option (ℕ × List ℕ)
  pub acquired : Option ℕ
  pub is_connected : ℕ → Bool
  pub made : ℕ

pub data Chosen : Type 0 where
  refused : ℕ → List ℕ → Chosen
  chosen : ℕ → Chosen

by_service_client : RpcChannel → Option (ℕ × List ℕ) → Chosen × RpcChannel
by_service_client ch none =
    (refused rpc_pool_exhausted (codes "no available instance for " ++ ch.service_name), ch)
by_service_client ch (some (client, peer)) =
    (chosen client, record ch { client = some client; actual_peer = some peer })

-- The pinned client, while it is connected.
pub cached : (ℕ → Bool) → Option ℕ → Option ℕ
cached is_connected none = none
cached is_connected (some client) = if is_connected client then some client else none

-- The pool's client, and the pinned client again under the mutex, which is as it was before.
pin : RpcChannel → List ℕ → Option ℕ → Option ℕ → Chosen × RpcChannel
pin ch peer (some client) acquired = (chosen client, ch)
pin ch peer none (some client) =
    (chosen client, record ch { client = some client; actual_peer = some peer })
pin ch peer none none = (
  refused rpc_pool_exhausted (codes "connection pool exhausted"),
  record ch { client = none; actual_peer = some peer },
)

by_address_client : Answers → RpcChannel → Option (List ℕ) → Chosen × RpcChannel
by_address_client a ch none = (refused rpc_peer_addr (codes "peer addr nullptr"), ch)
by_address_client a ch (some peer) =
    if ch.has_pool
    then pin ch peer (cached a.is_connected ch.client) a.acquired
    else (chosen a.made, record ch { client = some a.made })

pub choose_client : Answers → RpcChannel → Chosen × RpcChannel
choose_client a ch =
    if ch.has_pool && ch.has_registry && not (is_empty ch.service_name)
    then by_service_client ch a.by_service
    else by_address_client a ch ch.peer_addr

-- The end of `callMethodInternal`: no state (`invalid`, with the closure run so often), a call that is
-- completed already, or one that waits for its response, with its timer, its request, and whether
-- its client is to be connected first.
pub data Started : Type 0 where
  invalid : Option RpcController → ℕ → Started
  ended : RequestState → Started
  started : RequestState → ℕ → List ℕ → Bool → Started

-- The call's message id; an empty one is replaced by `new_id`.
pub chosen_id : List ℕ → List ℕ → List ℕ
chosen_id new_id id = if is_empty id then new_id else id

module _ (parse : List ℕ → Option (List ℕ)) where
  end : List ℕ → ℕ → RequestState → TcpClient → Started
  end info code r client = ended (finish_rpc parse (error code info) r client).1.0

  -- From the serialized request on.
  send_with : RpcController → RequestState → Bool → TcpClient → Option (List ℕ) → Started
  send_with c r connects client none = end (codes "failed to serialize") failed_serialize r client
  send_with c r connects client (some request) =
      started (record r { msg_id = c.msg_id; has_timer = true }) (max 1 c.timeout) request connects

  with_client :
      RpcController → List ℕ → Bool → Bool → TcpClient → List ℕ → Option (List ℕ) → Chosen → Started
  with_client c response has_done has_pool client new_id request (refused code info) =
      end info code (begin c response has_done) client
  with_client c response has_done has_pool client new_id request (chosen k) =
      let c₁ = set_msg_id (chosen_id new_id c.msg_id) c in
      send_with c₁ (record (begin c₁ response has_done) { has_client = true }) (not has_pool) client
        request

  -- `callMethodInternal`: `controller` is the cast one, `valid` says that neither the method, nor the
  -- request, nor the response is null, `request` is the serialized request.
  pub call_internal :
      Option RpcController
      → Bool
      → List ℕ
      → Bool
      → Bool
      → TcpClient
      → List ℕ
      → Option (List ℕ)
      → Chosen
      → Started
  call_internal none valid response has_done has_pool client new_id request choice =
      invalid none (if has_done then 1 else 0)
  call_internal (some c) valid response has_done has_pool client new_id request choice =
      if valid
      then with_client c response has_done has_pool client new_id request choice
      else invalid
          (some
            (set_error rpc_channel_init (codes "method, controller, request or response NULL") c))
          (if has_done then 1 else 0)
