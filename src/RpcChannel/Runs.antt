-- ===== src/RpcChannel/Runs.antt =====
-- The interleavings of one call: the caller's thread, the timer, the loop that takes responses, and
-- whoever else completes the call or uses the same client.
pub mod Inv
pub mod Once
pub mod Blocking
pub mod Tests
use rocket_rpc.Common.{ℕ, ◌≡◌, Bool, true, false, Option, none, some, List, []}
use rocket_rpc.RpcController.{RpcController, set_msg_id}
use rocket_rpc.TcpClient.{TcpClient, take_callback}
use rocket_rpc.TcpClient.Reads.{waiting}
use rocket_rpc.RpcChannel.{
  RequestState, Call, Caller, looking, returned, Response, Outcome, answer, begin, claim, clean,
  complete, advance,
}

-- How far the completion is: nobody has it, a thread has won it, it has ended the timer and the
-- wait, the closure has run.
pub data Phase : Type 0 where
  running : Phase
  claimed : Outcome → Phase
  cleaned : Outcome → Phase
  completed : Outcome → Phase

-- The call, the completion, and a response that the loop has taken with the callback but not
-- delivered yet.
pub record System : Type 0 where
  pub call : Call
  pub phase : Phase
  pub taken : Option (Option Response)

pub won : Outcome → Bool → Phase → Phase
won o true p = claimed o
won o false p = p

-- A thread enters `finishRpc` with its outcome, and wins it or not.
pub enter : Outcome → System → System
enter o s =
    let (wins, r) = claim s.call.request in
    record s { call = record s.call { request = r }; phase = won o wins s.phase }

pub clean_up : Outcome → System → System
clean_up o s =
    let (r, client) = clean s.call.request s.call.client in
    record s { call = record s.call { request = r; client = client }; phase = cleaned o }

pub take : Option Response → System → System
take response s = record s {
  call = record s.call { client = (take_callback s.call.client s.call.request.msg_id).1 };
  taken = some response;
}

module _ (parse : List ℕ → Option (List ℕ)) (own : ℕ) where
  pub finish : Outcome → System → System
  finish o s = record s {
    call = record s.call { request = complete parse o s.call.request };
    phase = completed o;
  }

  -- The steps of all threads, in any order. The timer, a blocking caller that gives up and a failed
  -- connection may come at any time and any number of times (`attempts`); the loop takes a response
  -- only while the call's callback waits for it. Others change the client in any way that leaves
  -- the wait for this id alone, or that ends it (`stop`).
  pub data Step (s : System) : System → Type 0 where
    goes_on : Step s (record s { call = advance own s.call s.call.caller })
    attempts : (o : Outcome) → Step s (enter o s)
    cleans : (o : Outcome) → s.phase ≡ claimed o → Step s (clean_up o s)
    finishes : (o : Outcome) → s.phase ≡ cleaned o → Step s (finish o s)
    takes :
        (r : Option Response)
        → s.taken ≡ none
        → waiting s.call.client s.call.request.msg_id ≡ some own
        → Step s (take r s)
    delivers :
        (r : Option Response)
        → s.taken ≡ some r
        → Step s (record (enter (answer r) s) { taken = none })
    other_calls :
        (client : TcpClient)
        → waiting client s.call.request.msg_id ≡ waiting s.call.client s.call.request.msg_id
        → Step s (record s { call = record s.call { client = client } })
    stops :
        (client : TcpClient)
        → waiting client s.call.request.msg_id ≡ none
        → Step s (record s { call = record s.call { client = client } })

-- A call that is about to send its request: the timer is set, the client is chosen, and nobody waits
-- for its id yet.
unfoldable pub start : RpcController → List ℕ → Bool → List ℕ → TcpClient → System
start controller response has_done id client = record {
  call = record {
    request = record (begin (set_msg_id id controller) response has_done) {
      has_timer = true;
      has_client = true;
      msg_id = id;
    };
    client = client;
    caller = looking;
    queued = 0;
  };
  phase = running;
  taken = none;
}

module _ (parse : List ℕ → Option (List ℕ)) (own : ℕ) (s₀ : System) where
  pub data Reach : System → Type 0 where
    here : Reach s₀
    later : {s t : System} → Reach s → Step parse own s t → Reach t
