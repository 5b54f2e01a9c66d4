-- ===== src/TcpServer/Early.antt =====
-- A connection that is closed on its loop before `onAccept` inserts it.
use rocket_rpc.Common.{
  ℕ, ◌≡◌, ◌⊎◌, inl, inr, refl, sym, ap, subst, ◌∙◌, true, false, Option, none, some, ◌==◌, arith,
  Bool, if◌then◌else◌,
}
use rocket_rpc.TcpServer.{
  TcpServer, IoThreadGroup, get_io_thread, establish, Conn, queue_in, counted, on_thread,
  with_group, accepted, begin_accept, erase, insert, remove_connection,
}
use rocket_rpc.TcpServer.Live.{
  In, System, with_new, accept, IsNew, Step, accepts, inserts, closes, Reach, here, later, In-erase,
  erase-In, begin_accept-connections,
}
use rocket_rpc.TcpServer.Stops.{append-In, In-append}

pub data Steps (s : System) : System → Type 0 where
  none_yet : Steps s s
  and_then : {t u : System} → Steps s t → Step t u → Steps s u

-- The connection of `onAccept` is closed on its loop, and then inserted.
abbrev pub closed_then_inserted : Conn → System → System
closed_then_inserted p s = record {
  server = insert p (remove_connection p s.server);
  accepting = none;
  live = erase p.0 s.live;
}

-- The connection that is about to be inserted is known to its loop.
unfoldable Known : System → Type 0
Known s = (p : Conn) → s.accepting ≡ some p → In (p.1, establish p.0) s.server.queued

on_thread-queued :
    (c : ℕ) (l : Option ℕ) (s : TcpServer) (p : Conn)
    → (on_thread c l s).0 ≡ some p
    → In (p.1, establish p.0) (on_thread c l s).1.queued
unfolding on_thread counted queue_in
on_thread-queued c none s p e = absurd cc
on_thread-queued c (some l) s p e =
    let same : (c, l) ≡ p = cc in
    append-In _ s.queued _ (unfold In in inl (ap (λ (q : Conn). (q.1, establish q.0)) (sym same)))

accepted-queued :
    (fd : Option ℕ) (s : TcpServer) (p : Conn)
    → (accepted fd s).0 ≡ some p
    → In (p.1, establish p.0) (accepted fd s).1.queued
unfolding accepted with_group
accepted-queued none s p e = absurd cc
accepted-queued (some c) s p e = grouped s.io_group e
  where
    grouped :
        (g : Option IoThreadGroup)
        → (with_group c g s).0 ≡ some p
        → In (p.1, establish p.0) (with_group c g s).1.queued
    grouped none f = absurd cc
    grouped (some g) f =
        on_thread-queued c (get_io_thread g).0 (record s { io_group = some (get_io_thread g).1 }) p
          f

on_thread-number :
    (c : ℕ) (l : Option ℕ) (s : TcpServer) (p : Conn) → (on_thread c l s).0 ≡ some p → p.0 ≡ c
unfolding on_thread
on_thread-number c none s p e = absurd cc
on_thread-number c (some l) s p e = let same : (c, l) ≡ p = cc in sym (ap (λ (q : Conn). q.0) same)

Numbered : Conn → Option ℕ → Type 0
Numbered p none = ⊥
Numbered p (some c) = p.0 ≡ c

-- What `begin_accept` makes has the number that it is given.
begin_accept-number :
    (fd : Option ℕ) (s : TcpServer) (p : Conn) → (begin_accept fd s).0 ≡ some p → Numbered p fd
unfolding begin_accept accepted with_group Numbered
begin_accept-number none s p e = split s.running e
  where
    split :
        (b : Bool)
        → (if◌then◌else◌ {A = Option Conn × TcpServer} b (none, s) (none, s)).0 ≡ some p
        → ⊥
    split true f = cc
    split false f = cc
begin_accept-number (some c) s p e = split s.running e
  where
    grouped : (g : Option IoThreadGroup) → (with_group c g s).0 ≡ some p → p.0 ≡ c
    grouped none f = absurd cc
    grouped (some g) f =
        on_thread-number c (get_io_thread g).0 (record s { io_group = some (get_io_thread g).1 }) p
          f

    split : (b : Bool) → (if b then with_group c s.io_group s else (none, s)).0 ≡ some p → p.0 ≡ c
    split true f = grouped s.io_group f
    split false f = absurd cc

begin_accept-queued :
    (fd : Option ℕ) (s : TcpServer) (p : Conn)
    → (begin_accept fd s).0 ≡ some p
    → In (p.1, establish p.0) (begin_accept fd s).1.queued
unfolding begin_accept
begin_accept-queued fd s p = split s.running
  where
    split :
        (b : Bool)
        → (if b then accepted fd s else (none, s)).0 ≡ some p
        → In (p.1, establish p.0) (if b then accepted fd s else (none, s)).1.queued
    split true e = accepted-queued fd s p e
    split false e = absurd cc

Step-Known : {s t : System} → Step s t → Known s → Known t
unfolding Known accept insert remove_connection queue_in
Step-Known {s} (accepts fd _ _) k = λ p e. begin_accept-queued fd s.server p e
Step-Known {s} (inserts q _) k = λ p e. absurd (nothing e)
  where
    nothing : {p : Conn} → ◌≡◌ {A = Option Conn} none (some p) → ⊥
    nothing e = cc
Step-Known {s} (closes q _ _) k = λ p e. In-append _ s.server.queued _ (k p e)

Reach-Known : {n : ℕ} {s : System} → Reach n s → Known s
unfolding Known
Reach-Known here = λ p e. absurd (nothing e)
  where
    nothing : {p : Conn} → ◌≡◌ {A = Option Conn} none (some p) → ⊥
    nothing e = cc
Reach-Known (later r st) = Step-Known st (Reach-Known r)

-- A connection that is in the set and will not be closed again.
record IsStuck (p : Conn) (s : System) : Type 0 where
  listed : In p s.server.connections
  dead : (q : Conn) → In q s.live → (q.0 == p.0) ≡ false
  other : (q : Conn) → s.accepting ≡ some q → (q.0 == p.0) ≡ false

swap_test : (a b : ℕ) → (a == b) ≡ false → (b == a) ≡ false
swap_test a b h = ground arith

accept-IsStuck :
    (p : Conn) (fd : Option ℕ) (s : System) → IsNew fd s → IsStuck p s → IsStuck p (accept fd s)
unfolding accept IsNew with_new In Numbered
accept-IsStuck p fd s new k = record {
  listed = subst (In p) (sym (begin_accept-connections fd s.server)) k.listed;
  dead = λ q i. dead_too (begin_accept fd s.server).0 refl q i;
  other = λ q e. fresh fd new q e;
}
  where
    fresh :
        (o : Option ℕ)
        → IsNew o s
        → (q : Conn) → (begin_accept o s.server).0 ≡ some q
        → (q.0 == p.0) ≡ false
    fresh none m q e = absurd (begin_accept-number none s.server q e)
    fresh (some c) m q e =
        ap (λ (x : ℕ). x == p.0) (begin_accept-number (some c) s.server q e)
        ∙ swap_test p.0 c (m p (inr k.listed))

    new_or_old :
        (x : Conn)
        → (begin_accept fd s.server).0 ≡ some x
        → (q : Conn) → (q ≡ x) ⊎ In q s.live
        → (q.0 == p.0) ≡ false
    new_or_old x e q (inl f) = ap (λ (y : Conn). y.0 == p.0) f ∙ fresh fd new x e
    new_or_old x e q (inr i) = k.dead q i

    dead_too :
        (o : Option Conn)
        → (begin_accept fd s.server).0 ≡ o
        → (q : Conn) → In q (with_new o s.live)
        → (q.0 == p.0) ≡ false
    dead_too none e q i = k.dead q i
    dead_too (some x) e q i = new_or_old x e q i

Step-IsStuck : (p : Conn) {s t : System} → Step s t → IsStuck p s → IsStuck p t
Step-IsStuck p {s} (accepts fd _ new) k = accept-IsStuck p fd s new k
Step-IsStuck p {s} (inserts q e) k = record {
  listed = unfold insert In in inr k.listed;
  dead = k.dead;
  other = λ x f. absurd (nothing f);
}
  where
    nothing : {x : Conn} → ◌≡◌ {A = Option Conn} none (some x) → ⊥
    nothing f = cc
Step-IsStuck p {s} (closes q i _) k = record {
  listed =
      unfold remove_connection queue_in in
      erase-In p q.0 s.server.connections k.listed (swap_test q.0 p.0 (k.dead q i));
  dead = λ x h. k.dead x (In-erase x q.0 s.live h).0;
  other = k.other;
}

Steps-IsStuck : (p : Conn) {s t : System} → Steps s t → IsStuck p s → IsStuck p t
Steps-IsStuck p none_yet k = k
Steps-IsStuck p (and_then r st) k = Step-IsStuck p st (Steps-IsStuck p r k)

early-IsStuck :
    (p : Conn) (s : System) → s.accepting ≡ some p → IsStuck p (closed_then_inserted p s)
unfolding insert In
early-IsStuck p s e = record {
  listed = inl refl;
  dead = λ q h. (In-erase q p.0 s.live h).1;
  other = λ x f. absurd (nothing f);
}
  where
    nothing : {x : Conn} → ◌≡◌ {A = Option Conn} none (some x) → ⊥
    nothing f = cc

same_number : (a : ℕ) → (a == a) ≡ false → ⊥
same_number a m = ground arith

-- A connection that `onAccept` has made and not inserted yet can already be closed, since its loop
-- knows it: the state in which it is closed and then inserted is reached. From then on, however
-- connections are accepted, inserted and closed, it stays in the set although it is not live.
pub closed_before_insert :
    (n : ℕ) (s : System) (p : Conn) (t : System)
    → Reach n s
    → s.accepting ≡ some p
    → In p s.live
    → Steps (closed_then_inserted p s) t
    → Reach n (closed_then_inserted p s) × In p t.server.connections × (¬ In p t.live)
unfolding Known
closed_before_insert n s p t r e i more =
    let k = Steps-IsStuck p more (early-IsStuck p s e) in
    (
      later (later r (closes p i (Reach-Known r p e))) (inserts p e),
      k.listed,
      (λ (h : In p t.live). same_number p.0 (k.dead p h)),
    )
