-- ===== src/MsgIdUtil.antt =====
-- src/rocket/common/msg_id_util.{h,cc}: the message ids of a thread. A string is held with its last
-- character first, which is where the code starts; the random digits are an argument.
pub mod Count
pub mod Tests
use rocket_rpc.Common.{
  ℕ, zero, suc, ◌+◌, ◌||◌, Bool, true, false, Option, none, some, List, [], ◌∷◌, ◌==◌,
  if◌then◌else◌, codes,
}
use rocket_rpc.RpcDispatcher.{same}

abbrev pub msg_id_length : ℕ
msg_id_length = 20

pub nines : ℕ → List ℕ
nines zero = []
nines (suc n) = 57 ∷ nines n

-- The two strings that a thread keeps.
pub record MsgIds : Type 0 where
  pub msg_id_no : List ℕ
  pub max_msg_id_no : List ℕ

pub create : MsgIds
create = record { msg_id_no = []; max_msg_id_no = [] }

then_zero : Option (List ℕ) → Option (List ℕ)
then_zero none = none
then_zero (some ds) = some (48 ∷ ds)

-- The last character that is not `9` is raised, and what is behind it becomes `0`; `none` where all
-- are `9`.
pub raise : List ℕ → Option (List ℕ)
raise [] = none
raise (d ∷ ds) = let rest = raise ds in if d == 57 then then_zero rest else some ((d + 1) ∷ ds)

-- `if (i > 0)`: with nothing to raise the string stays.
or_same : List ℕ → Option (List ℕ) → List ℕ
or_same s none = s
or_same s (some s') = s'

is_empty : List ℕ → Bool
is_empty [] = true
is_empty (d ∷ ds) = false

-- `m_max_msg_id_no` is made when it is first wanted.
with_max : MsgIds → MsgIds
with_max m =
    if is_empty m.max_msg_id_no then record m { max_msg_id_no = nines msg_id_length } else m

pub gen_msg_id : List ℕ → MsgIds → List ℕ × MsgIds
gen_msg_id random m =
    let m' =
      if is_empty m.msg_id_no || same m.msg_id_no m.max_msg_id_no
      then record (with_max m) { msg_id_no = random }
      else record m { msg_id_no = or_same m.msg_id_no (raise m.msg_id_no) } in
    (m'.msg_id_no, m')
