-- ===== src/TcpServer/Tests.antt =====
-- A server with two IO loops, and the theorems at its runs.
use rocket_rpc.Common.{ap, ◌==◌, inr, ◌≡◌, refl, true, false, none, some, [], inl}
use rocket_rpc.TcpServer.{
  get_io_thread, shutdown, create, start, stop, begin_accept, accepted, with_group, on_thread,
  counted, queue_in, set_count, insert, erase, remove_connection, Conn,
}
use rocket_rpc.TcpServer.Live.{
  In, System, accept, IsNew, accepts, inserts, with_new, Reach, here, later,
}
use rocket_rpc.TcpServer.Stops.{stop_lem}
use rocket_rpc.TcpServer.Early.{none_yet, and_then, closed_before_insert, closed_then_inserted}

round_robin_test :
    (get_io_thread (get_io_thread (get_io_thread (record { size = 2; index = 0 })).1).1).0 ≡ some 0
unfolding get_io_thread
round_robin_test = refl

abbrev listening : System
listening = record { server = start (create 2); accepting = none; live = [] }

-- Connection 7 is accepted, on loop 0, and not inserted yet.
abbrev accepting_7 : System
accepting_7 = accept (some 7) listening

listening-IsNew : IsNew (some 7) listening
unfolding IsNew In start create
listening-IsNew = λ q h. elim h [ inl i ↦ absurd i | inr i ↦ absurd i ]

accepting_7-Reach : Reach 2 accepting_7
accepting_7-Reach = later here (accepts (some 7) refl listening-IsNew)

is_accepting : accepting_7.accepting ≡ some (7, 0)
unfolding accept begin_accept accepted with_group on_thread get_io_thread start create
is_accepting = refl

is_live : In (7, 0) accepting_7.live
unfolding accept begin_accept accepted with_group on_thread get_io_thread start create with_new In
is_live = inl refl

-- Connection 7 is closed and then inserted; connection 8 is accepted after it.
abbrev stuck_7 : System
stuck_7 = closed_then_inserted (7, 0) accepting_7

stuck_7-IsNew : IsNew (some 8) stuck_7
unfolding IsNew In accept begin_accept accepted with_group on_thread get_io_thread counted queue_in
    start create insert with_new erase remove_connection
stuck_7-IsNew = λ q h. elim h [
  | inl i ↦ absurd i
  | inr (inl e) ↦ ap (λ (x : Conn). x.0 == 8) e
  | inr (inr i) ↦ absurd i
]

closed_before_insert_example :
    Reach 2 stuck_7
    × In (7, 0) (accept (some 8) stuck_7).server.connections
    × (¬ In (7, 0) (accept (some 8) stuck_7).live)
closed_before_insert_example =
    closed_before_insert 2 accepting_7 (7, 0) (accept (some 8) stuck_7) accepting_7-Reach
      is_accepting is_live (and_then none_yet (accepts (some 8) refl stuck_7-IsNew))

abbrev inserted_7 : System
inserted_7 = record accepting_7 { server = insert (7, 0) accepting_7.server; accepting = none }

inserted_7-Reach : Reach 2 inserted_7
inserted_7-Reach = later accepting_7-Reach (inserts (7, 0) is_accepting)

runs_7 : inserted_7.server.running ≡ true
unfolding accept begin_accept accepted with_group on_thread get_io_thread counted queue_in start
    create insert
runs_7 = refl

count_test : inserted_7.server.connection_count 0 ≡ 1
unfolding accept begin_accept accepted with_group on_thread get_io_thread counted queue_in start
    create insert set_count
count_test = refl

stop_lem_example :
    In (0, shutdown 7) (stop inserted_7.server).queued × ((stop inserted_7.server).running ≡ false)
stop_lem_example = stop_lem 2 inserted_7 7 0 inserted_7-Reach refl runs_7 is_live
