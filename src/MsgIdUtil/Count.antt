-- ===== src/MsgIdUtil/Count.antt =====
-- Message ids as numbers.
use rocket_rpc.Common.{
  ℕ, suc, ◌+◌, ◌-◌, ◌*◌, ◌≤◌, ◌||◌, ◌≡◌, ◌≢◌, refl, sym, ap, ap₂, subst, ◌∙◌, Bool, true, false,
  Option, none, some, List, [], ◌∷◌, ◌==◌, arith, if◌then◌else◌, length, Bool-cases, inl, inr,
}
use mathlib.Core.Bool.{false≢true}
use rocket_rpc.RpcDispatcher.{same}
use rocket_rpc.RpcDispatcher.Names.{same_refl}
use rocket_rpc.MsgIdUtil.{
  MsgIds, nines, raise, then_zero, or_same, is_empty, with_max, gen_msg_id, msg_id_length,
}

-- The number that a string of digits writes.
unfoldable pub value : List ℕ → ℕ
value [] = 0
value (d ∷ ds) = (d - 48) + 10 * value ds

unfoldable pub IsDigits : List ℕ → Type 0
IsDigits [] = Unit
IsDigits (d ∷ ds) = (48 ≤ d) × (d ≤ 57) × IsDigits ds

-- What becomes of a string: nothing where it is all nines, else the next number in as many digits.
Raised : List ℕ → Option (List ℕ) → Type 0
Raised s none = s ≡ nines (length s)
Raised s (some s') = (value s' ≡ value s + 1) × (length s' ≡ length s) × IsDigits s'

zeroed :
    (d : ℕ) (ds : List ℕ) (o : Option (List ℕ))
    → Raised ds o
    → d ≡ 57
    → Raised (d ∷ ds) (then_zero o)
unfolding Raised then_zero value IsDigits nines
zeroed d ds none r e = ap₂ (λ a l. a ∷ l) e r
zeroed d ds (some s') (v, l, g) e = (omega (arith, v), ap suc l, (omega arith, omega arith, g))

raise-Raised : (s : List ℕ) → IsDigits s → Raised s (raise s)
unfolding raise IsDigits Raised value nines
raise-Raised [] h = refl
raise-Raised (d ∷ ds) (low, high, h) = elim (Bool-cases (d == 57)) [
  | inl nine ↦ rw nine (zeroed d ds (raise ds) (raise-Raised ds h) (equal d nine))
  | inr other ↦
      let n : d ≢ 57 = is_other d other in
      rw other (omega arith, refl, (omega arith, omega arith, h))
]
  where
    equal : (a : ℕ) → (a == 57) ≡ true → a ≡ 57
    equal a e = ground arith

    is_other : (a : ℕ) → (a == 57) ≡ false → a ≢ 57
    is_other a e = ground arith

-- A thread that has made an id before.
pub record IsCounting (m : MsgIds) : Type 0 where
  pub full : length m.msg_id_no ≡ msg_id_length
  pub all_digits : IsDigits m.msg_id_no
  pub limit : m.max_msg_id_no ≡ nines msg_id_length

full-filled : (s : List ℕ) → length s ≡ msg_id_length → is_empty s ≡ false
unfolding is_empty
full-filled [] h = absurd (omega (arith, h))
full-filled (d ∷ s) h = refl

counts :
    (random : List ℕ) (m : MsgIds)
    → is_empty m.msg_id_no ≡ false
    → same m.msg_id_no m.max_msg_id_no ≡ false
    → gen_msg_id random m ≡ (
      or_same m.msg_id_no (raise m.msg_id_no),
      record m { msg_id_no = or_same m.msg_id_no (raise m.msg_id_no) },
    )
unfolding gen_msg_id
counts random m e n =
    let made : Bool → MsgIds = λ b.
      if b
      then record (with_max m) { msg_id_no = random }
      else record m { msg_id_no = or_same m.msg_id_no (raise m.msg_id_no) } in
    ap (λ b. ((made b).msg_id_no, made b)) (ap₂ (λ x y. x || y) e n)

raised :
    (m : MsgIds) (o : Option (List ℕ))
    → IsCounting m
    → same m.msg_id_no m.max_msg_id_no ≡ false
    → Raised m.msg_id_no o
    → (value (or_same m.msg_id_no o) ≡ value m.msg_id_no + 1)
      × IsCounting (record m { msg_id_no = or_same m.msg_id_no o })
unfolding Raised or_same
raised m none c n r =
    let all : m.msg_id_no ≡ m.max_msg_id_no = r ∙ ap nines c.full ∙ sym c.limit in
    absurd (false≢true (sym n ∙ ap (same m.msg_id_no) (sym all) ∙ same_refl m.msg_id_no))
raised m (some s') c n (v, l, g) =
    (v, record { full = l ∙ c.full; all_digits = g; limit = c.limit })

-- Until twenty nines are reached, the next id of a thread is the decimal number behind its last one,
-- in twenty digits again, and the thread remembers it: so its ids do not repeat.
pub gen_msg_id_lem :
    (random : List ℕ) (m : MsgIds)
    → IsCounting m
    → same m.msg_id_no m.max_msg_id_no ≡ false
    → (value (gen_msg_id random m).0 ≡ value m.msg_id_no + 1)
      × ((gen_msg_id random m).1.msg_id_no ≡ (gen_msg_id random m).0)
      × IsCounting (gen_msg_id random m).1
gen_msg_id_lem random m c n =
    let next = counts random m (full-filled m.msg_id_no c.full) n in
    let (v, k) = raised m (raise m.msg_id_no) c n (raise-Raised m.msg_id_no c.all_digits) in
    (
      ap (λ r. value r.0) next ∙ v,
      ap (λ r. r.1.msg_id_no) next ∙ sym (ap (λ r. r.0) next),
      subst (λ r. IsCounting r.1) (sym next) k,
    )
