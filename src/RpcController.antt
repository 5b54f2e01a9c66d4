-- ===== src/RpcController.antt =====
-- src/rocket/net/rpc/rpc_controller.{h,cc}: the result of a call, as its caller sees it. Addresses are
-- byte lists, `none` for a null pointer; a timeout is not negative.
use rocket_rpc.Common.{ℕ, Bool, true, false, Option, none, List, []}

pub record RpcController : Type 0 where
  pub error_code : ℕ
  pub error_info : List ℕ
  pub msg_id : List ℕ
  pub is_failed : Bool
  pub is_canceled : Bool
  pub is_finished : Bool
  pub local_addr : Option (List ℕ)
  pub peer_addr : Option (List ℕ)
  pub timeout : ℕ

abbrev pub default_timeout_ms : ℕ
default_timeout_ms = 1000

-- A new controller, which is also what `Reset` makes of any.
abbrev pub create : RpcController
create = record {
  error_code = 0;
  error_info = [];
  msg_id = [];
  is_failed = false;
  is_canceled = false;
  is_finished = false;
  local_addr = none;
  peer_addr = none;
  timeout = default_timeout_ms;
}

abbrev pub set_finished : Bool → RpcController → RpcController
set_finished value c = record c { is_finished = value }

unfoldable pub start_cancel : RpcController → RpcController
start_cancel c = set_finished true (record c { is_canceled = true; is_failed = true })

unfoldable pub set_failed : List ℕ → RpcController → RpcController
set_failed reason c = record c { error_info = reason; is_failed = true }

unfoldable pub set_error : ℕ → List ℕ → RpcController → RpcController
set_error code info c = record c { error_code = code; error_info = info; is_failed = true }

unfoldable pub set_msg_id : List ℕ → RpcController → RpcController
set_msg_id id c = record c { msg_id = id }

unfoldable pub set_timeout : ℕ → RpcController → RpcController
set_timeout timeout c = record c { timeout = timeout }
