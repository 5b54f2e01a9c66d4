-- ===== src/RpcConnectionPool.antt =====
-- src/rocket/net/rpc/rpc_connection_pool.{h,cc}: which connection a call gets.
-- A client and a loop are numbers. Whether a client is connected, and the connection that `acquire`
-- makes between its two parts under the mutex, are outside.
pub mod Choice
pub mod Tests
use rocket_rpc.Common.{
  ℕ, zero, suc, ◌+◌, ◌%◌, ◌^◌, ◌-◌, max, Bool, true, false, Option, none, some, List, [], ◌∷◌, ◌++◌,
  ltb, leb, ◌==◌, if◌then◌else◌, length,
}
use rocket_rpc.RpcDispatcher.{lookup, assign}

pub record RpcConnectionPool : Type 0 where
  pub conns_per_addr : ℕ
  pub clients : List (List ℕ × List ℕ)
  pub rr_counters : List (List ℕ × ℕ)
  pub is_shutdown : Bool

pub create : ℕ → RpcConnectionPool
create conns_per_addr = record {
  conns_per_addr = max 1 conns_per_addr;
  clients = [];
  rr_counters = [];
  is_shutdown = false;
}

-- An element by its index.
pub nth {ℓ} : {A : Type ℓ} → List A → ℕ → Option A
nth [] i = none
nth (x ∷ xs) zero = some x
nth (x ∷ xs) (suc i) = nth xs i

-- The loop of `pickLoop` over the numbers of connections; `none` is a thread without a loop.
pub best_loop : ℕ → ℕ → ℕ → List (Option ℕ) → ℕ
best_loop i best_idx best_count [] = best_idx
best_loop i best_idx best_count (none ∷ counts) = best_loop (suc i) best_idx best_count counts
best_loop i best_idx best_count (some count ∷ counts) =
    let better = best_loop (suc i) i count counts in
    let other = best_loop (suc i) best_idx best_count counts in
    if ltb count best_count then better else other

pub pick_loop : List (Option ℕ) → Option ℕ
pick_loop [] = none
pick_loop (count ∷ counts) = some (best_loop 0 0 (2 ^ 64 - 1) (count ∷ counts))

-- The index of a key; a missing one is made with 0.
or_zero : Option ℕ → ℕ
or_zero none = 0
or_zero (some i) = i

counter : RpcConnectionPool → List ℕ → ℕ
counter p key = or_zero (lookup key p.rr_counters)

-- Round robin over the addresses that the registry has found, by the name of the service.
pub next_address : RpcConnectionPool → List ℕ → List (List ℕ) → Option (List ℕ) × RpcConnectionPool
next_address p service [] = (none, p)
next_address p service (a ∷ addrs) =
    let i = counter p service in
    let n = length (a ∷ addrs) in
    (nth (a ∷ addrs) (i % n), record p { rr_counters = assign service ((i + 1) % n) p.rr_counters })

pub is_up : (ℕ → Bool) → Option ℕ → Bool
is_up connected none = false
is_up connected (some client) = connected client

-- The search of `acquire`, from the round-robin slot on.
pub scan : (ℕ → Bool) → List ℕ → ℕ → ℕ → Option ℕ × ℕ
scan connected vec zero idx = (none, idx)
scan connected vec (suc n) idx =
    let rest = scan connected vec n ((idx + 1) % length vec) in
    if is_up connected (nth vec idx) then (nth vec idx, (idx + 1) % length vec) else rest

-- What the first part of `acquire` finds: a client; or that one has to be made, and the dead ones
-- that have to be stopped.
pub data Found : Type 0 where
  shut : Found
  reused : ℕ → Found
  missing : List ℕ → Found

after_scan : RpcConnectionPool → List ℕ → List ℕ → Option ℕ × ℕ → Found × RpcConnectionPool
after_scan p key vec (some client, idx) =
    (reused client, record p { rr_counters = assign key idx p.rr_counters })
after_scan p key vec (none, idx) = (
  missing vec,
  record p { clients = assign key [] p.clients; rr_counters = assign key 0 p.rr_counters },
)

search : RpcConnectionPool → (ℕ → Bool) → List ℕ → Option (List ℕ) → Found × RpcConnectionPool
search p connected key none = (missing [], p)
search p connected key (some vec) =
    if leb p.conns_per_addr (length vec)
    then after_scan p key vec (scan connected vec (length vec) (counter p key % length vec))
    else (missing [], p)

pub reuse : RpcConnectionPool → (ℕ → Bool) → List ℕ → Found × RpcConnectionPool
reuse p connected key =
    if p.is_shutdown then (shut, p) else search p connected key (lookup key p.clients)

or_empty : Option (List ℕ) → List ℕ
or_empty none = []
or_empty (some vec) = vec

-- The clients of an address.
pub clients_of : RpcConnectionPool → List ℕ → List ℕ
clients_of p key = or_empty (lookup key p.clients)

-- The last part of `acquire`, with a new client that is connected: it is kept if there is room,
-- otherwise a client of the pool is returned.
pub install : RpcConnectionPool → List ℕ → ℕ → Option ℕ × RpcConnectionPool
install p key client =
    let vec = clients_of p key in
    if p.is_shutdown
    then (none, p)
    else if ltb (length vec) p.conns_per_addr
    then (some client, record p { clients = assign key (vec ++ client ∷ []) p.clients })
    else (
      nth vec (counter p key % length vec),
      record p {
        clients = assign key vec p.clients;
        rr_counters = assign key ((counter p key % length vec + 1) % length vec) p.rr_counters;
      },
    )

-- What `shutdown` leaves when all clients have been stopped.
pub shutdown : RpcConnectionPool → RpcConnectionPool
shutdown p =
    if p.is_shutdown then p else record p { is_shutdown = true; clients = []; rr_counters = [] }
