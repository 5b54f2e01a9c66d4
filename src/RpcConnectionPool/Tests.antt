-- ===== src/RpcConnectionPool/Tests.antt =====
-- A pool with two clients of one address, of which one is connected.
use rocket_rpc.Common.{
  ℕ, ◌≤◌, ◌≡◌, refl, true, false, Bool, none, some, [], ◌∷◌, arith, length, ◌==◌,
}
use rocket_rpc.RpcDispatcher.{same, lookup}
use rocket_rpc.RpcConnectionPool.{
  RpcConnectionPool, create, nth, is_up, reuse, reused, best_loop, pick_loop, next_address, counter,
  or_zero, or_empty, clients_of, install, shutdown,
}
use rocket_rpc.RpcConnectionPool.Choice.{reuse_lem, install_lem}

abbrev pool : RpcConnectionPool
pool = record {
  conns_per_addr = 2;
  clients = (80 ∷ [], 5 ∷ 6 ∷ []) ∷ [];
  rr_counters = [];
  is_shutdown = false;
}

abbrev only_six : ℕ → Bool
only_six c = c == 6

reuse_lem_example : (c : ℕ) × ((reuse pool only_six (80 ∷ [])).0 ≡ reused c) × (only_six c ≡ true)
unfolding is_up nth lookup same
reuse_lem_example =
    reuse_lem pool only_six (80 ∷ []) (5 ∷ 6 ∷ []) 1 refl refl (omega arith) (omega arith) refl

install_lem_example : length (clients_of (install pool (80 ∷ []) 7).1 (80 ∷ [])) ≤ 2
unfolding clients_of or_empty lookup same
install_lem_example = install_lem pool (80 ∷ []) 7 (omega arith)

pick_run : pick_loop (none ∷ some 4 ∷ some 2 ∷ some 3 ∷ []) ≡ some 2
unfolding pick_loop best_loop
pick_run = refl

shutdown_run : (shutdown pool).clients ≡ []
unfolding shutdown
shutdown_run = refl

address_run : (next_address (create 1) [] ((1 ∷ []) ∷ [])).0 ≡ some (1 ∷ [])
unfolding next_address create counter or_zero nth lookup
address_run = refl
