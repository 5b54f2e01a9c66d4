-- ===== src/TcpServer/Live.antt =====
-- The connections of a server while its IO loops close some of them.
use rocket_rpc.Common.{
  ℕ, ◌≡◌, ◌⊎◌, inl, inr, refl, sym, ap, subst, ◌∙◌, true, false, Option, none, some, List, [], ◌∷◌,
  ◌==◌, if◌then◌else◌, Bool-cases,
}
use rocket_rpc.TcpServer.{
  TcpServer, IoThreadGroup, get_io_thread, Conn, queue_in, counted, on_thread, with_group, accepted,
  begin_accept, erase, insert, remove_connection, start, create, establish,
}

unfoldable pub In : {A : Type 0} → A → List A → Type 0
In a [] = ⊥
In a (b ∷ l) = (a ≡ b) ⊎ In a l

-- A server, the connection that `onAccept` has made and not inserted yet, and the connections whose
-- close callback has not been called.
pub record System : Type 0 where
  pub server : TcpServer
  pub accepting : Option Conn
  pub live : List Conn

unfoldable pub with_new : Option Conn → List Conn → List Conn
with_new none live = live
with_new (some p) live = p ∷ live

unfoldable pub accept : Option ℕ → System → System
accept fd s =
    let (p, server) = begin_accept fd s.server in
    record { server = server; accepting = p; live = with_new p s.live }

-- A new connection object is not one of those that are there.
unfoldable pub IsNew : Option ℕ → System → Type 0
IsNew none s = Unit
IsNew (some c) s = (q : Conn) → In q s.live ⊎ In q s.server.connections → (q.0 == c) ≡ false

pub data Step (s : System) : System → Type 0 where
  accepts : (fd : Option ℕ) → s.accepting ≡ none → IsNew fd s → Step s (accept fd s)
  inserts :
      (p : Conn)
      → s.accepting ≡ some p
      → Step s (record s { server = insert p s.server; accepting = none })
  -- The loop of a live connection calls its close callback, once. That loop knows the connection
  -- from the task that establishes it.
  closes :
      (p : Conn)
      → In p s.live
      → In (p.1, establish p.0) s.server.queued
      → Step s (record s { server = remove_connection p s.server; live = erase p.0 s.live })

pub data Reach (io_threads : ℕ) : System → Type 0 where
  here :
      Reach io_threads (record { server = start (create io_threads); accepting = none; live = [] })
  later : {s t : System} → Reach io_threads s → Step s t → Reach io_threads t

-- A live connection is in the set, unless it is about to be inserted.
unfoldable pub Kept : System → Type 0
Kept s = (q : Conn) → In q s.live → In q s.server.connections ⊎ (s.accepting ≡ some q)

pub In-erase : (q : Conn) (c : ℕ) (l : List Conn) → In q (erase c l) → In q l × ((q.0 == c) ≡ false)
unfolding In erase
In-erase q c [] h = absurd h
In-erase q c ((d, k) ∷ l) h = elim (Bool-cases (d == c)) [
  | inl hit ↦
      let (i, n) =
        In-erase q c l (subst (λ b. In q (if b then erase c l else (d, k) ∷ erase c l)) hit h) in
      (inr i, n)
  | inr miss ↦
      found (subst (λ b. In q (if b then erase c l else (d, k) ∷ erase c l)) miss h)
        (In-erase q c l) miss
]
  where
    found :
        (q ≡ (d, k)) ⊎ In q (erase c l)
        → (In q (erase c l) → In q l × ((q.0 == c) ≡ false))
        → (d == c) ≡ false
        → ((q ≡ (d, k)) ⊎ In q l) × ((q.0 == c) ≡ false)
    found (inl e) ih n = (inl e, ap (λ (x : Conn). x.0 == c) e ∙ n)
    found (inr h) ih n = let (i, m) = ih h in (inr i, m)

pub erase-In : (q : Conn) (c : ℕ) (l : List Conn) → In q l → (q.0 == c) ≡ false → In q (erase c l)
unfolding In erase
erase-In q c [] h n = absurd h
erase-In q c ((d, k) ∷ l) (inl e) n =
    subst (λ b. In q (if b then erase c l else (d, k) ∷ erase c l))
      (sym (sym (ap (λ (x : Conn). x.0 == c) e) ∙ n)) (inl e)
erase-In q c ((d, k) ∷ l) (inr i) n = elim (Bool-cases (d == c)) [
  | inl hit ↦ rw hit (erase-In q c l i n)
  | inr miss ↦ rw miss (inr (erase-In q c l i n))
]

remove-Kept :
    (p : Conn) (s : System)
    → Kept s
    → Kept (record s { server = remove_connection p s.server; live = erase p.0 s.live })
unfolding Kept remove_connection queue_in
remove-Kept p s k q h = let (i, n) = In-erase q p.0 s.live h in still (k q i) n
  where
    still :
        In q s.server.connections ⊎ (s.accepting ≡ some q)
        → (q.0 == p.0) ≡ false
        → In q (erase p.0 s.server.connections) ⊎ (s.accepting ≡ some q)
    still (inl i) n = inl (erase-In q p.0 s.server.connections i n)
    still (inr e) n = inr e

insert-Kept :
    (p : Conn) (s : System)
    → s.accepting ≡ some p
    → Kept s
    → Kept (record s { server = insert p s.server; accepting = none })
unfolding Kept insert In
insert-Kept p s e k q h = moved (k q h)
  where
    same : some p ≡ some q → q ≡ p
    same f = cc

    moved :
        In q s.server.connections ⊎ (s.accepting ≡ some q)
        → ((q ≡ p) ⊎ In q s.server.connections) ⊎ ◌≡◌ {A = Option Conn} none (some q)
    moved (inl i) = inl (inr i)
    moved (inr f) = inl (inl (same (sym e ∙ f)))

on_thread-connections :
    (c : ℕ) (l : Option ℕ) (s : TcpServer) → (on_thread c l s).1.connections ≡ s.connections
unfolding on_thread counted queue_in
on_thread-connections c none s = refl
on_thread-connections c (some l) s = refl

accepted-connections :
    (fd : Option ℕ) (s : TcpServer) → (accepted fd s).1.connections ≡ s.connections
unfolding accepted
accepted-connections none s = refl
accepted-connections (some c) s = grouped s.io_group
  where
    grouped : (g : Option IoThreadGroup) → (with_group c g s).1.connections ≡ s.connections
    grouped none = unfold with_group in refl
    grouped (some g) =
        unfold with_group in
        on_thread-connections c (get_io_thread g).0
          (record s { io_group = some (get_io_thread g).1 })

pub begin_accept-connections :
    (fd : Option ℕ) (s : TcpServer) → (begin_accept fd s).1.connections ≡ s.connections
unfolding begin_accept
begin_accept-connections fd s =
    elim s.running
      as (λ b. (if b then accepted fd s else (none, s)).1.connections ≡ s.connections) [
        | true ↦ accepted-connections fd s
        | false ↦ refl
      ]

accept-Kept : (fd : Option ℕ) (s : System) → s.accepting ≡ none → Kept s → Kept (accept fd s)
unfolding Kept accept
accept-Kept fd s e k q h = new (begin_accept fd s.server).0 h
  where
    set : List Conn
    set = (begin_accept fd s.server).1.connections

    old : In q s.live → In q set
    old i = elim (k q i) [
      | inl c ↦ subst (In q) (sym (begin_accept-connections fd s.server)) c
      | inr f ↦ absurd (none≢some e f)
    ]
      where
        none≢some : {o : Option Conn} → o ≡ none → o ≡ some q → ⊥
        none≢some a b = cc

    new : (p : Option Conn) → In q (with_new p s.live) → In q set ⊎ (p ≡ some q)
    new none i = unfold with_new in inl (old i)
    new (some p) i =
        unfold with_new In in elim i [ inl f ↦ inr (ap some (sym f)) | inr j ↦ inl (old j) ]

Step-Kept : {s t : System} → Step s t → Kept s → Kept t
Step-Kept {s} (accepts fd e _) k = accept-Kept fd s e k
Step-Kept {s} (inserts p e) k = insert-Kept p s e k
Step-Kept {s} (closes p i _) k = remove-Kept p s k

pub Reach-Kept : {n : ℕ} {s : System} → Reach n s → Kept s
unfolding Kept In start create
Reach-Kept here = λ q h. absurd h
Reach-Kept (later r st) = Step-Kept st (Reach-Kept r)
