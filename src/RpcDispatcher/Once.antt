-- ===== src/RpcDispatcher/Once.antt =====
-- Every request gets one answer, however dispatches, workers and closures are interleaved.
use rocket_rpc.Common.{
  ℕ, suc, ◌+◌, ◌≡◌, refl, sym, ap, subst, ◌∙◌, Bool, true, false, ◌&&◌, List, [], ◌∷◌, ◌++◌, arith,
  if◌then◌else◌, length, length-append, map, drop, drop-append, append-nil,
}
use rocket_rpc.Protocol.{TinyPb, tiny_pb}
use rocket_rpc.ThreadPool.{ThreadPool}
use rocket_rpc.RpcDispatcher.{
  RpcDispatcher, Service, Call, same, register_service, invoke, dispatch, finish_response, complete,
  set_error, stop,
}
use rocket_rpc.RpcDispatcher.Answers.{Dispatched, refused, called, enqueued, dispatch_lem}

-- The dispatcher, the requests that it has been given, and the calls whose closure has not been run.
pub record System : Type 0 where
  pub dispatcher : RpcDispatcher
  pub received : List TinyPb
  pub open_calls : List Call

-- The calls that a dispatch has given to a service or to the worker pool.
unfoldable pub new_calls : RpcDispatcher → RpcDispatcher → List Call
new_calls d d' = drop (length d.invoked) d'.invoked ++ drop (length d.queued) d'.queued

unfoldable pub receive : TinyPb → TinyPb → System → System
receive req rsp s =
    let d' = dispatch s.dispatcher (tiny_pb req) (tiny_pb rsp) in
    record {
      dispatcher = d';
      received = s.received ++ req ∷ [];
      open_calls = s.open_calls ++ new_calls s.dispatcher d';
    }

-- The closure of a call is run once, by the service that has it, at any time and in any order.
pub data Step (s : System) : System → Type 0 where
  dispatches : (req rsp : TinyPb) → Step s (receive req rsp s)
  works :
      (before : List Call) (c : Call) (after : List Call)
      → s.open_calls ≡ before ++ c ∷ after
      → Step s (record s { dispatcher = invoke s.dispatcher c })
  completes :
      (before : List Call) (c : Call) (after : List Call) (result : Bool × List ℕ)
      → s.open_calls ≡ before ++ c ∷ after
      → Step s
          (record s { dispatcher = complete s.dispatcher c result; open_calls = before ++ after })
  registers :
      (service : Service) → Step s (record s { dispatcher = register_service s.dispatcher service })
  changes_pool :
      (p : ThreadPool) → Step s (record s { dispatcher = record s.dispatcher { worker_pool = p } })
  stops : Step s (record s { dispatcher = stop s.dispatcher })

pub data Reach : System → Type 0 where
  new :
      (d : RpcDispatcher)
      → d.sent ≡ []
      → d.in_flight ≡ 0
      → Reach (record { dispatcher = d; received = []; open_calls = [] })
  later : {s t : System} → Reach s → Step s t → Reach t

-- How many of the messages have this id and method name.
unfoldable pub count : List ℕ → List ℕ → List TinyPb → ℕ
count id name [] = 0
count id name (m ∷ ms) =
    let rest = count id name ms in
    if same m.msg_id id && same m.method_name name then suc rest else rest

abbrev pub requests : List Call → List TinyPb
requests cs = map (λ (c : Call). c.request) cs

-- The responses that wait for a result carry the ids of their requests.
unfoldable pub Addressed : List Call → Type 0
Addressed [] = Unit
Addressed (c ∷ cs) =
    (c.response.msg_id ≡ c.request.msg_id)
    × (c.response.method_name ≡ c.request.method_name)
    × Addressed cs

module _ (id name : List ℕ) where
  count-append : (a b : List TinyPb) → count id name (a ++ b) ≡ count id name a + count id name b
  unfolding count
  count-append [] b = omega arith
  count-append (m ∷ a) b =
      add (same m.msg_id id && same m.method_name name) (count id name a) (count id name b)
        (count-append a b)
    where
      add :
          (t : Bool) {x : ℕ} (y z : ℕ)
          → x ≡ y + z
          → (if t then suc x else x) ≡ (if t then suc y else y) + z
      add true y z e = omega (arith, e)
      add false y z e = e

  count-same :
      (m n : TinyPb)
      → m.msg_id ≡ n.msg_id
      → m.method_name ≡ n.method_name
      → count id name (m ∷ []) ≡ count id name (n ∷ [])
  unfolding count
  count-same m n e f = rw (e, f) refl

requests-append : (a b : List Call) → requests (a ++ b) ≡ requests a ++ requests b
requests-append [] b = refl
requests-append (c ∷ a) b = ap (◌∷◌ c.request) (requests-append a b)

drop-length {ℓ} : {A : Type ℓ} (a b : List A) → drop (length a) (a ++ b) ≡ b
drop-length a b = drop-append (length a) a b refl

Addressed-append : (a b : List Call) → Addressed a → Addressed b → Addressed (a ++ b)
unfolding Addressed
Addressed-append [] b h k = k
Addressed-append (c ∷ a) b h k = (h.0, h.1, Addressed-append a b h.2 k)

-- What a split list of calls says of the call in the middle, and of the others.
Addressed-split :
    (before : List Call) (c : Call) (after : List Call)
    → Addressed (before ++ c ∷ after)
    → Addressed (c ∷ []) × Addressed (before ++ after)
unfolding Addressed
Addressed-split [] c after h = ((h.0, h.1, tt), h.2)
Addressed-split (b ∷ before) c after h =
    let (one, rest) = Addressed-split before c after h.2 in (one, (h.0, h.1, rest))

new_calls-none :
    (d d' : RpcDispatcher) → d'.invoked ≡ d.invoked → d'.queued ≡ d.queued → new_calls d d' ≡ []
unfolding new_calls
new_calls-none d d' e f =
    rw (e, f)
      (ap (λ l. l ++ drop (length d.queued) d.queued) (no_more d.invoked) ∙ no_more d.queued)
  where
    no_more : (l : List Call) → drop (length l) l ≡ []
    no_more l = ap (drop (length l)) (sym (append-nil l)) ∙ drop-length l []

new_calls-invoked :
    (d d' : RpcDispatcher) (c : Call)
    → d'.invoked ≡ d.invoked ++ c ∷ []
    → d'.queued ≡ d.queued
    → new_calls d d' ≡ c ∷ []
unfolding new_calls
new_calls-invoked d d' c e f =
    rw (e, f)
      (ap (λ l. l ++ drop (length d.queued) d.queued) (drop-length d.invoked (c ∷ []))
        ∙ ap (λ l. c ∷ l)
            (ap (drop (length d.queued)) (sym (append-nil d.queued)) ∙ drop-length d.queued []))

new_calls-queued :
    (d d' : RpcDispatcher) (c : Call)
    → d'.invoked ≡ d.invoked
    → d'.queued ≡ d.queued ++ c ∷ []
    → new_calls d d' ≡ c ∷ []
unfolding new_calls
new_calls-queued d d' c e f =
    rw (e, f)
      (ap (λ l. l ++ drop (length d.queued) (d.queued ++ c ∷ []))
          (ap (drop (length d.invoked)) (sym (append-nil d.invoked)) ∙ drop-length d.invoked [])
        ∙ drop-length d.queued (c ∷ []))

module _ (id name : List ℕ) where
  -- Received is answered, or waits for a closure.
  record IsBalanced (s : System) : Type 0 where
    balance :
        count id name s.received
        ≡ count id name s.dispatcher.sent + count id name (requests s.open_calls)
    flight : s.dispatcher.in_flight ≡ length s.open_calls
    addressed_calls : Addressed s.open_calls

  -- One call more, which is open.
  opens :
      (req : TinyPb) (d' : RpcDispatcher) (s : System) (c : Call)
      → c.request ≡ req
      → c.response.msg_id ≡ req.msg_id
      → c.response.method_name ≡ req.method_name
      → d'.sent ≡ s.dispatcher.sent
      → d'.in_flight ≡ s.dispatcher.in_flight + 1
      → IsBalanced s
      → IsBalanced (record {
        dispatcher = d';
        received = s.received ++ req ∷ [];
        open_calls = s.open_calls ++ c ∷ [];
      })
  unfolding Addressed
  opens req d' s c e i n sent flight k = record {
    balance = omega (
      arith,
      k.balance,
      count-append id name s.received (req ∷ []),
      ap (count id name) sent,
      ap (count id name) (requests-append s.open_calls (c ∷ [])),
      count-append id name (requests s.open_calls) (c.request ∷ []),
      ap (λ m. count id name (m ∷ [])) e,
    );
    flight = omega (arith, flight, k.flight, length-append s.open_calls (c ∷ []));
    addressed_calls = Addressed-append s.open_calls (c ∷ []) k.addressed_calls (
      i ∙ sym (ap (λ (m : TinyPb). m.msg_id) e),
      n ∙ sym (ap (λ (m : TinyPb). m.method_name) e),
      tt,
    );
  }

  receives :
      (req : TinyPb) (s : System) (d' : RpcDispatcher)
      → Dispatched s.dispatcher req d'
      → IsBalanced s
      → IsBalanced (record {
        dispatcher = d';
        received = s.received ++ req ∷ [];
        open_calls = s.open_calls ++ new_calls s.dispatcher d';
      })
  receives req s d' (refused rsp i n code sent flight invoked queued) k =
      subst
        (λ cs.
          IsBalanced
            (record { dispatcher = d'; received = s.received ++ req ∷ []; open_calls = cs }))
        (sym (append-nil s.open_calls)
          ∙ sym (ap (◌++◌ s.open_calls) (new_calls-none s.dispatcher d' invoked queued)))
        (record {
          balance = omega (
            arith,
            k.balance,
            count-append id name s.received (req ∷ []),
            ap (count id name) sent,
            count-append id name s.dispatcher.sent (rsp ∷ []),
            count-same id name rsp req i n,
          );
          flight = flight ∙ k.flight;
          addressed_calls = k.addressed_calls;
        })
  receives req s d' (called c e i n sent flight invoked queued) k =
      subst
        (λ cs. IsBalanced (record {
          dispatcher = d';
          received = s.received ++ req ∷ [];
          open_calls = s.open_calls ++ cs;
        }))
        (sym (new_calls-invoked s.dispatcher d' c invoked queued))
        (opens req d' s c e i n sent flight k)
  receives req s d' (enqueued c e i n sent flight invoked queued _) k =
      subst
        (λ cs. IsBalanced (record {
          dispatcher = d';
          received = s.received ++ req ∷ [];
          open_calls = s.open_calls ++ cs;
        }))
        (sym (new_calls-queued s.dispatcher d' c invoked queued))
        (opens req d' s c e i n sent flight k)

  finish-ids :
      (m : TinyPb) (r : Bool × List ℕ)
      → ((finish_response m r).msg_id ≡ m.msg_id)
        × ((finish_response m r).method_name ≡ m.method_name)
  unfolding finish_response set_error
  finish-ids m (true, bytes) = (refl, refl)
  finish-ids m (false, bytes) = (refl, refl)

  closes :
      (s : System) (before : List Call) (c : Call) (after : List Call) (result : Bool × List ℕ)
      → s.open_calls ≡ before ++ c ∷ after
      → IsBalanced s
      → IsBalanced
          (record s { dispatcher = complete s.dispatcher c result; open_calls = before ++ after })
  unfolding complete Addressed
  closes s before c after result e k =
      let (one, others) = Addressed-split before c after (subst Addressed e k.addressed_calls) in
      let (i, n) = finish-ids c.response result in
      record {
        balance = omega (
          arith,
          k.balance,
          count-append id name s.dispatcher.sent (finish_response c.response result ∷ []),
          count-same id name (finish_response c.response result) c.request (i ∙ one.0) (n ∙ one.1),
          ap (λ cs. count id name (requests cs)) e,
          ap (count id name) (requests-append before (c ∷ after)),
          count-append id name (requests before) (c.request ∷ requests after),
          count-append id name (c.request ∷ []) (requests after),
          ap (count id name) (requests-append before after),
          count-append id name (requests before) (requests after),
        );
        flight = omega (
          arith,
          k.flight,
          ap length e,
          length-append before (c ∷ after),
          length-append before after,
        );
        addressed_calls = others;
      }

  Step-IsBalanced : {s t : System} → Step s t → IsBalanced s → IsBalanced t
  unfolding receive invoke register_service stop
  Step-IsBalanced {s} (dispatches req rsp) k =
      receives req s _ (dispatch_lem s.dispatcher req rsp) k
  Step-IsBalanced {s} (works before c after e) k = record {
    balance = k.balance;
    flight = k.flight;
    addressed_calls = k.addressed_calls;
  }
  Step-IsBalanced {s} (completes before c after result e) k = closes s before c after result e k
  Step-IsBalanced {s} (registers service) k = record {
    balance = k.balance;
    flight = k.flight;
    addressed_calls = k.addressed_calls;
  }
  Step-IsBalanced {s} (changes_pool p) k = record {
    balance = k.balance;
    flight = k.flight;
    addressed_calls = k.addressed_calls;
  }
  Step-IsBalanced {s} stops k = record {
    balance = k.balance;
    flight = k.flight;
    addressed_calls = k.addressed_calls;
  }

  Reach-IsBalanced : {s : System} → Reach s → IsBalanced s
  unfolding count Addressed
  Reach-IsBalanced (new d sent flight) = record {
    balance = omega (arith, ap (count id name) sent);
    flight = flight;
    addressed_calls = tt;
  }
  Reach-IsBalanced (later r st) = Step-IsBalanced st (Reach-IsBalanced r)

-- Requests of one connection are dispatched, workers start them and services run each closure once, in
-- any order. For every id and method name, as many requests with these have been received as
-- responses with these have been sent and calls of such requests are still open; and the connection
-- counts exactly the open calls as in flight. So each request has one answer as soon as none is in
-- flight.
pub answered_once :
    (id name : List ℕ) (s : System)
    → Reach s
    → (count id name s.received
        ≡ count id name s.dispatcher.sent + count id name (requests s.open_calls))
      × (s.dispatcher.in_flight ≡ length s.open_calls)
answered_once id name s r = let k = Reach-IsBalanced id name r in (k.balance, k.flight)
