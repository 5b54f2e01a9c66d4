-- ===== src/MsgIdUtil/Tests.antt =====
-- Ids of one thread, and the theorem at one of them.
use rocket_rpc.Common.{◌+◌, ◌≡◌, refl, false, some, [], ◌∷◌, arith}
use rocket_rpc.RpcDispatcher.{same}
use rocket_rpc.MsgIdUtil.{MsgIds, create, nines, raise, then_zero, is_empty, with_max, gen_msg_id}
use rocket_rpc.MsgIdUtil.Count.{value, IsDigits, IsCounting, gen_msg_id_lem}

raise_test : raise (57 ∷ 57 ∷ 50 ∷ 57 ∷ []) ≡ some (48 ∷ 48 ∷ 51 ∷ 57 ∷ [])
unfolding raise then_zero
raise_test = refl

-- ...0999
abbrev before : MsgIds
before = record {
  msg_id_no =
      57 ∷ 57 ∷ 57 ∷ 48 ∷ 48 ∷ 48 ∷ 48 ∷ 48 ∷ 48 ∷ 48 ∷ 48 ∷ 48 ∷ 48 ∷ 48 ∷ 48 ∷ 48 ∷ 48 ∷ 48 ∷ 48
      ∷ 48 ∷ [];
  max_msg_id_no = nines 20;
}

first_test : (gen_msg_id before.msg_id_no create).0 ≡ before.msg_id_no
unfolding gen_msg_id is_empty create with_max
first_test = refl

before-IsCounting : IsCounting before
unfolding IsDigits
before-IsCounting = record { full = refl; all_digits = omega arith; limit = refl }

not_last : same before.msg_id_no before.max_msg_id_no ≡ false
unfolding same nines
not_last = refl

gen_msg_id_lem_example :
    (value (gen_msg_id [] before).0 ≡ value before.msg_id_no + 1)
    × ((gen_msg_id [] before).1.msg_id_no ≡ (gen_msg_id [] before).0)
    × IsCounting (gen_msg_id [] before).1
gen_msg_id_lem_example = gen_msg_id_lem [] before before-IsCounting not_last
