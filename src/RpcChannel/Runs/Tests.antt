-- ===== src/RpcChannel/Runs/Tests.antt =====
-- One call whose timer and whose response race, a blocking call, and the theorems at these runs.
use rocket_rpc.Common.{ℕ, ◌≡◌, refl, true, false, Option, none, some, List, [], ◌∷◌}
use rocket_rpc.RpcController.{RpcController, set_error, set_msg_id, start_cancel}
use rocket_rpc.RpcDispatcher.{lookup}
use rocket_rpc.TcpClient.{TcpClient, read_message, cancel_read, take_callback, erase_key}
use rocket_rpc.TcpClient.Reads.{waiting, waiting-read_message}
use rocket_rpc.RpcChannel.{
  returned, Response, time_out, cancel, begin, claim, clean, complete, run_done, before_done,
  is_empty, advance, look, register, look_again, send,
}
use rocket_rpc.RpcChannel.Runs.{
  completed, System, won, enter, clean_up, take, finish, goes_on, attempts, cleans, finishes, takes,
  start, Reach, here, later,
}
use rocket_rpc.RpcChannel.Runs.Once.{Settled, completed_once, no_callback_left}
use rocket_rpc.RpcChannel.Runs.Blocking.{
  Run, begins, goes, times_out, wins, back, give_up, blocking-stable,
}
use rocket_rpc.RpcChannel.Start.{Answers, call_internal, choose_client, create}
use rocket_rpc.RpcChannel.Start.Ends.{Starts, call_internal_lem}
use rocket_rpc.RpcController as Controller
use rocket_rpc.TcpClient as Client

abbrev parse_all : List ℕ → Option (List ℕ)
parse_all data_read = some data_read

abbrev id : List ℕ
id = 55 ∷ []

abbrev s₀ : System
s₀ = start Controller.create [] true id Client.create

abbrev go : System → System
go s = record s { call = advance 9 s.call s.call.caller }

-- The request is sent, the loop takes the response, and then the timer wins.
abbrev sent : System
sent = go (go (go (go s₀)))

abbrev response : Option Response
response = some record { err_code = 0; err_info = []; pb_data = 1 ∷ [] }

abbrev timed : System
timed = finish parse_all 9 time_out (clean_up time_out (enter time_out (take response sent)))

timed-Reach : Reach parse_all 9 s₀ timed
unfolding start advance look register look_again send begin claim enter won clean_up clean take
    finish is_empty complete run_done before_done
timed-Reach =
    later
      (later
        (later
          (later (later (later (later (later here goes_on) goes_on) goes_on) goes_on)
            (takes response refl (waiting-read_message Client.create id 9)))
          (attempts time_out))
        (cleans time_out refl))
      (finishes time_out refl)

id_full : is_empty id ≡ false
unfolding is_empty
id_full = refl

nobody : waiting Client.create id ≡ none
unfolding lookup Client.create
nobody = refl

timed_once : (timed.call.request.runs ≡ 1) × (timed.call.request.controller.error_code ≡ 10000007)
unfolding start advance look register look_again send begin claim enter won clean_up clean take
    finish is_empty complete run_done before_done set_error start_cancel
timed_once = (refl, refl)

completed_once_example :
    Settled parse_all 9 Controller.create [] true id Client.create id_full nobody timed.phase
      timed.call.request
completed_once_example =
    completed_once parse_all 9 Controller.create [] true id Client.create id_full nobody timed-Reach

timed-completed : timed.phase ≡ completed time_out
unfolding finish
timed-completed = refl

timed-returned : timed.call.caller ≡ returned
unfolding advance look register look_again send start begin enter clean_up take finish
timed-returned = refl

no_callback_left_example : waiting timed.call.client id ≡ none
no_callback_left_example =
    no_callback_left parse_all 9 Controller.create [] true id Client.create id_full nobody time_out
      timed-Reach timed-completed timed-returned

-- A blocking caller that gives up before anything is sent.
abbrev given_up : System
given_up = finish parse_all 9 cancel (clean_up cancel (enter cancel s₀))

given_up-Run : Run parse_all 9 s₀ given_up (back true)
unfolding start begin claim enter won clean_up clean finish give_up
given_up-Run =
    wins (goes (goes (times_out begins) (cleans cancel refl)) (finishes cancel refl)) refl

blocking-stable_example :
    (given_up.call.request.runs ≡ 1)
    × ((enter time_out given_up).call.request ≡ given_up.call.request)
blocking-stable_example =
    blocking-stable parse_all 9 Controller.create [] id Client.create id_full nobody given_up-Run
      (true, refl) (attempts time_out)

abbrev answers : Answers
answers = record { by_service = none; acquired = none; is_connected = λ k. false; made = 4 }

-- The pool has no client.
call_internal_lem_example : Starts (some Controller.create) [] true id Client.create (
    call_internal parse_all
      (some Controller.create)
      true
      []
      true
      true
      Client.create
      id
      (some [])
      (choose_client answers (create (some []) true)).0)
call_internal_lem_example =
    call_internal_lem parse_all (some Controller.create) true [] true true Client.create id
      (some []) answers (create (some []) true) id_full
