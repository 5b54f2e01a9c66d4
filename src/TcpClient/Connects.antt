-- ===== src/TcpClient/Connects.antt =====
-- Connecting: either the caller has been told, or the loop has a task that will tell it.
use rocket_rpc.Common.{
  ℕ, ◌<◌, ◌≡◌, refl, sym, subst, ◌⊎◌, inl, inr, Bool, true, false, Option, none, some, List, [],
  ◌∷◌, ◌++◌, if◌then◌else◌, Bool-cases, ◌==◌, codes,
}
use rocket_rpc.TcpConnection.{TcpState, not_connected}
use rocket_rpc.TcpClient.{
  TcpClient, establish, wait_writable, connect, after_connect, set_connect_error, in_progress, stop,
  stop_connection, connect_sync_end, timed_out,
}

-- A failure that the caller has been told of already: an error code is set and the loop has
-- nothing new to do.
abbrev pub FailedNow : TcpClient → Bool × TcpClient → Type 0
FailedNow c r = (r.0 ≡ true) × (0 < r.1.connect_error_code) × (r.1.queued ≡ c.queued)

-- An attempt that goes on: the caller has not been told, the loop has exactly one task more.
abbrev pub Pending : TcpClient → Bool × TcpClient → Type 0
Pending c r =
    (r.0 ≡ false)
    × (r.1.connect_error_code ≡ 0)
    × (r.1.connection ≡ some not_connected)
    × ((r.1.queued ≡ c.queued ++ establish ∷ []) ⊎ (r.1.queued ≡ c.queued ++ wait_writable ∷ []))

-- What a system call reports is an error code, which is not 0.
abbrev pub IsError : Option ℕ → Type 0
IsError none = 0 < 1
IsError (some e) = 0 < e

module _ (strerror : ℕ → List ℕ) where
  -- `connect` tells its caller at once exactly when it fails at once, and then leaves no task and
  -- no code 0 behind; in every other case the loop has one task more, the connection is new, and
  -- there is no error yet. A stopped client is no longer stopped.
  pub connect_lem :
      (c : TcpClient) (socket_error connect_error : Option ℕ)
      → IsError socket_error
      → IsError connect_error
      → (FailedNow c (connect strerror c socket_error connect_error)
          ⊎ Pending c (connect strerror c socket_error connect_error))
        × ((connect strerror c socket_error connect_error).1.is_stopped ≡ false)
  unfolding connect after_connect set_connect_error
  connect_lem c (some e) k s_error k_error = (inl (refl, s_error, refl), refl)
  connect_lem c none none s_error k_error = (inr (refl, refl, refl, inl refl), refl)
  connect_lem c none (some e) s_error k_error = elim (Bool-cases (e == in_progress)) [
    | inl h ↦ rw h (inr (refl, refl, refl, inr refl), refl)
    | inr h ↦ rw h (inl (refl, k_error, refl), refl)
  ]

stopped :
    (runs : Bool) (c : TcpClient) (o : Option TcpState)
    → (stop_connection runs c o).is_stopped ≡ c.is_stopped
unfolding stop_connection
stopped runs c none = refl
stopped true c (some s) = refl
stopped false c (some s) = refl

kept_code :
    (runs : Bool) (c : TcpClient) (o : Option TcpState)
    → (stop_connection runs c o).connect_error_code ≡ c.connect_error_code
unfolding stop_connection
kept_code runs c none = refl
kept_code true c (some s) = refl
kept_code false c (some s) = refl

-- What is left after a stop: no connection, no callback, the mark, and the error code as it was.
abbrev pub Stopped : TcpClient → TcpClient → Type 0
Stopped c c' =
    (c'.connection ≡ none)
    × (c'.read_callbacks ≡ [])
    × (c'.is_stopped ≡ true)
    × (c'.connect_error_code ≡ c.connect_error_code)

stop_lem : (runs : Bool) (c : TcpClient) → c.is_stopped ≡ false → Stopped c (stop runs c)
unfolding stop
stop_lem runs c h =
    subst
      (λ b. Stopped c (
        if b
        then c
        else record (stop_connection runs (record c { is_stopped = true }) c.connection) {
          connection = none;
          read_callbacks = [];
        }))
      (sym h)
      (
        refl,
        refl,
        stopped runs (record c { is_stopped = true }) c.connection,
        kept_code runs (record c { is_stopped = true }) c.connection,
      )

-- `connectSync` returns, in time, the code that the attempt has set, and changes nothing. Out of
-- time it returns -1 (`none`), and a client that nobody has stopped meanwhile is then stopped, with
-- the error ETIMEDOUT, no connection and no callback.
pub connect_sync_end_lem :
    (runs : Bool) (c : TcpClient)
    → c.is_stopped ≡ false
    → (connect_sync_end runs c true ≡ (some c.connect_error_code, c))
      × ((connect_sync_end runs c false).0 ≡ none)
      × Stopped (record c { connect_error_code = timed_out }) (connect_sync_end runs c false).1
unfolding connect_sync_end set_connect_error
connect_sync_end_lem runs c h =
    (refl, refl, stop_lem runs (set_connect_error timed_out (codes "connect() timed out") c) h)
