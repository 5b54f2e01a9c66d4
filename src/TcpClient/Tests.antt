-- ===== src/TcpClient/Tests.antt =====
-- Runs of a client, and the theorems at concrete inputs.
use rocket_rpc.Common.{ℕ, inl, ◌≡◌, refl, true, false, none, some, List, [], ◌∷◌, if◌then◌else◌}
use rocket_rpc.RpcDispatcher.{same, lookup, assign}
use rocket_rpc.TcpConnection.{is_connected}
use rocket_rpc.TcpClient.{
  TcpClient, create, read_message, run_callback, on_message, take_callback, cancel_read,
  called_with, erase_key, connect, after_connect, set_connect_error, finish_connect,
  is_connected_now, in_progress, now_in,
}
use rocket_rpc.TcpClient.Reads.{
  called_for, among, waiting, lookup-erase_key_other, RegistersNot, LeavesAlone, on_message_lem,
}

abbrev two_calls : TcpClient
two_calls = read_message (read_message create (1 ∷ []) 7) (2 ∷ []) 8

-- Every callback cancels id 3.
abbrev cancels_3 : ℕ → List ℕ → TcpClient → TcpClient
cancels_3 callback id c = cancel_read c (3 ∷ [])

on_message_test :
    (on_message cancels_3 two_calls ((2 ∷ []) ∷ (3 ∷ []) ∷ (2 ∷ []) ∷ [])).0 ≡ (8, 2 ∷ []) ∷ []
unfolding on_message run_callback take_callback cancel_read erase_key called_with read_message
    lookup assign same create
on_message_test = refl

-- A callback of the same batch cancels id 1 before its message is looked at.
cancelled_test :
    (on_message (λ callback id c. cancel_read c (1 ∷ [])) two_calls ((2 ∷ []) ∷ (1 ∷ []) ∷ [])).0
    ≡ (8, 2 ∷ []) ∷ []
unfolding on_message run_callback take_callback cancel_read erase_key called_with read_message
    lookup assign same create
cancelled_test = refl

one_waits : waiting two_calls (1 ∷ []) ≡ some 7
unfolding read_message lookup assign same create
one_waits = refl

never : RegistersNot cancels_3 (1 ∷ [])
unfolding cancel_read same
never callback j c = inl (lookup-erase_key_other (3 ∷ []) (1 ∷ []) c.read_callbacks refl)

alone : LeavesAlone cancels_3 (1 ∷ [])
unfolding cancel_read same
alone callback j c miss = lookup-erase_key_other (3 ∷ []) (1 ∷ []) c.read_callbacks refl

abbrev batch : List (List ℕ)
batch = (2 ∷ []) ∷ (1 ∷ []) ∷ (1 ∷ []) ∷ []

on_message_lem_example :
    (called_for (1 ∷ []) (on_message cancels_3 two_calls batch).0
      ≡ (if among (1 ∷ []) batch then 7 ∷ [] else []))
    × (waiting (on_message cancels_3 two_calls batch).1 (1 ∷ [])
        ≡ (if among (1 ∷ []) batch then none else some 7))
on_message_lem_example = on_message_lem cancels_3 (1 ∷ []) two_calls 7 batch never alone one_waits

abbrev no_text : ℕ → List ℕ
no_text e = []

connect_test :
    is_connected_now (finish_connect no_text (connect no_text create none (some in_progress)).1 0)
    ≡ true
unfolding is_connected_now finish_connect connect after_connect set_connect_error create now_in
    is_connected
connect_test = refl

two_calls_run : two_calls.is_stopped ≡ false
unfolding read_message create
two_calls_run = refl
