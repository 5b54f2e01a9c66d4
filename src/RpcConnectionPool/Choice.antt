-- ===== src/RpcConnectionPool/Choice.antt =====
-- A call gets a live connection if there is one, and an address never more than its share.
use rocket_rpc.Common.{
  ℕ, zero, suc, ◌+◌, ◌-◌, ◌%◌, ◌≤◌, ◌<◌, ◌≡◌, sym, ap, subst, dec_le, Option-cases, ◌∙◌, Bool, true,
  false, Option, none, some, List, [], ◌∷◌, ◌++◌, arith, ltb, le→leb, ltb→lt, if◌then◌else◌,
  Bool-cases, inl, inr, length, length-append,
}
use mathlib.Core.Bool.{false≢true}
use native.Mathlib.Nat.{mod-lt, mod-eq_of_lt, mod-add-mod, add-mod_right}
use rocket_rpc.RpcDispatcher.{lookup, assign}
use rocket_rpc.RpcDispatcher.Names.{lookup-assign}
use rocket_rpc.RpcConnectionPool.{
  RpcConnectionPool, nth, is_up, scan, shut, missing, reused, after_scan, search, reuse, counter,
  or_empty, clients_of, install,
}

module _ (connected : ℕ → Bool) (vec : List ℕ) where
  later :
      {n : ℕ} (idx k : ℕ)
      → is_up connected (nth vec (idx % length vec)) ≡ false
      → ((k' : ℕ) → k' < n → is_up connected (nth vec ((idx + 1 + k') % length vec)) ≡ false)
      → k < suc n
      → is_up connected (nth vec ((idx + k) % length vec)) ≡ false
  later idx zero down rest h = let z : idx + 0 ≡ idx = omega arith in rw z down
  later idx (suc k) down rest h =
      let z : idx + suc k ≡ idx + 1 + k = omega arith in rw z (rest k (omega arith))

  -- A search that fails has met no client that is connected.
  scan-none :
      (n idx k : ℕ)
      → (scan connected vec n (idx % length vec)).0 ≡ none
      → k < n
      → 0 < length vec
      → is_up connected (nth vec ((idx + k) % length vec)) ≡ false
  unfolding scan is_up
  scan-none zero idx k e h l = absurd (omega arith)
  scan-none (suc n) idx k e h l =
      let i : ℕ = idx % length vec in
      let rest : Option ℕ × ℕ = scan connected vec n ((i + 1) % length vec) in
      elim (Bool-cases (is_up connected (nth vec i))) [
        | inl up ↦
            let e' : nth vec i ≡ none =
              sym (ap (λ b. (if b then (nth vec i, (i + 1) % length vec) else rest).0) up) ∙ e in
            absurd (false≢true (sym (ap (is_up connected) e') ∙ up))
        | inr down ↦
            let e' : (scan connected vec n ((i + 1) % length vec)).0 ≡ none =
              sym (ap (λ b. (if b then (nth vec i, (i + 1) % length vec) else rest).0) down) ∙ e in
            let next : (scan connected vec n ((idx + 1) % length vec)).0 ≡ none =
              subst (λ j. (scan connected vec n j).0 ≡ none) (mod-add-mod idx (length vec) 1) e' in
            later idx k down (λ k' b. scan-none n (idx + 1) k' next b l) h
      ]

  -- A search that succeeds returns a client that is connected.
  scan-some : (n idx c : ℕ) → (scan connected vec n idx).0 ≡ some c → connected c ≡ true
  unfolding scan is_up
  scan-some zero idx c e = absurd cc
  scan-some (suc n) idx c e =
      let rest : Option ℕ × ℕ = scan connected vec n ((idx + 1) % length vec) in
      elim (Bool-cases (is_up connected (nth vec idx))) [
        | inl up ↦
            let e' : nth vec idx ≡ some c =
              sym (ap (λ b. (if b then (nth vec idx, (idx + 1) % length vec) else rest).0) up)
              ∙ e in
            sym (ap (is_up connected) e') ∙ up
        | inr down ↦
            scan-some n ((idx + 1) % length vec) c (
              sym (ap (λ b. (if b then (nth vec idx, (idx + 1) % length vec) else rest).0) down)
              ∙ e)
      ]

  -- Every slot is reached from the first one.
  reach :
      (idx j : ℕ)
      → j < length vec
      → (k : ℕ) × (k < length vec) × ((idx % length vec + k) % length vec ≡ j)
  reach idx j h =
      let low : idx % length vec < length vec = mod-lt idx (omega arith) in
      elim (dec_le (idx % length vec) j) [
        | yes ahead ↦
            let e : idx % length vec + (j - idx % length vec) ≡ j = omega arith in
            (j - idx % length vec, omega arith, rw e (mod-eq_of_lt h))
        | no behind ↦
            let e : idx % length vec + (j + length vec - idx % length vec) ≡ j + length vec =
              omega arith in
            (
              j + length vec - idx % length vec,
              omega arith,
              rw e (add-mod_right j (length vec) ∙ mod-eq_of_lt h),
            )
      ]

-- If an address has its share of clients and one of them is connected, `acquire` returns a client
-- that is connected, and makes no new connection.
pub reuse_lem :
    (p : RpcConnectionPool) (connected : ℕ → Bool) (key vec : List ℕ) (j : ℕ)
    → p.is_shutdown ≡ false
    → lookup key p.clients ≡ some vec
    → p.conns_per_addr ≤ length vec
    → j < length vec
    → is_up connected (nth vec j) ≡ true
    → (c : ℕ) × ((reuse p connected key).0 ≡ reused c) × (connected c ≡ true)
unfolding reuse search after_scan
reuse_lem p connected key vec j on e share h up =
    let (k, b, at) = reach connected vec (counter p key) j h in
    elim (Option-cases (scan connected vec (length vec) (counter p key % length vec)).0) [
      | inl miss ↦
          let down : is_up connected (nth vec ((counter p key + k) % length vec)) ≡ false =
            scan-none connected vec (length vec) (counter p key) k miss b (omega arith) in
          let same : (counter p key + k) % length vec ≡ j =
            sym (mod-add-mod (counter p key) (length vec) k) ∙ at in
          absurd (false≢true (sym (rw same at down) ∙ up))
      | inr (c, hit) ↦ (
        c,
        ap (λ b. (if b then (shut, p) else search p connected key (lookup key p.clients)).0) on
            ∙ ap (λ o. (search p connected key o).0) e
            ∙ ap
                (λ b.
                  (if b
                    then after_scan p key vec
                        (scan connected vec (length vec) (counter p key % length vec))
                    else (missing [], p)).0)
                (le→leb p.conns_per_addr (length vec) share)
            ∙ found (scan connected vec (length vec) (counter p key % length vec)) hit,
        scan-some connected vec (length vec) (counter p key % length vec) c hit,
      )
    ]
  where
    found : {c : ℕ} (r : Option ℕ × ℕ) → r.0 ≡ some c → (after_scan p key vec r).0 ≡ reused c
    found {c} r hit = ap (λ o. (after_scan p key vec (o, r.1)).0) hit

-- However the calls of `acquire` interleave, the last part of one leaves an address with no more
-- clients than its share, if it had no more before.
pub install_lem :
    (p : RpcConnectionPool) (key : List ℕ) (client : ℕ)
    → length (clients_of p key) ≤ p.conns_per_addr
    → length (clients_of (install p key client).1 key) ≤ p.conns_per_addr
unfolding install clients_of or_empty
install_lem p key client h = elim (Bool-cases p.is_shutdown) [
  | inl off ↦ subst fits (sym (ap (λ b. (if b then (none, p) else rest).1) off)) h
  | inr on ↦
      subst fits (sym (ap (λ b. (if b then (none, p) else rest).1) on)) (elim (Bool-cases room) [
        | inl more ↦ subst fits (sym (ap (λ b. (if b then grown else same).1) more)) (
            rw (lookup-assign key (clients_of p key ++ client ∷ []) p.clients) (
              omega (
                arith,
                length-append (clients_of p key) (client ∷ []),
                ltb→lt (length (clients_of p key)) p.conns_per_addr more,
              )))
        | inr full ↦
            subst fits (sym (ap (λ b. (if b then grown else same).1) full))
              (rw (lookup-assign key (clients_of p key) p.clients) h)
      ])
]
  where
    fits : RpcConnectionPool → Type 0
    fits q = length (clients_of q key) ≤ p.conns_per_addr

    room : Bool
    room = ltb (length (clients_of p key)) p.conns_per_addr

    grown : Option ℕ × RpcConnectionPool
    grown =
        (some client, record p { clients = assign key (clients_of p key ++ client ∷ []) p.clients })

    same : Option ℕ × RpcConnectionPool
    same = (
      nth (clients_of p key) (counter p key % length (clients_of p key)),
      record p {
        clients = assign key (clients_of p key) p.clients;
        rr_counters =
            assign key ((counter p key % length (clients_of p key) + 1) % length (clients_of p key))
              p.rr_counters;
      },
    )

    rest : Option ℕ × RpcConnectionPool
    rest = if room then grown else same
