-- ===== src/TcpServer/Stops.antt =====
-- Stopping a server.
use rocket_rpc.Common.{
  ℕ, ◌≡◌, ◌⊎◌, inl, inr, refl, sym, ap, subst, true, false, Option, none, some, List, [], ◌∷◌, ◌++◌,
  if◌then◌else◌, map,
}
use rocket_rpc.TcpServer.{shutdown, Conn, shutdown_of, stop}
use rocket_rpc.TcpServer.Live.{In, System, Reach, Kept, Reach-Kept}

map-In : (q : Conn) (l : List Conn) → In q l → In (shutdown_of q) (map shutdown_of l)
unfolding In
map-In q [] h = absurd h
map-In q (p ∷ l) (inl e) = inl (ap shutdown_of e)
map-In q (p ∷ l) (inr i) = inr (map-In q l i)

pub append-In : {A : Type 0} (x : A) (a b : List A) → In x b → In x (a ++ b)
unfolding In
append-In x [] b i = i
append-In x (y ∷ a) b i = inr (append-In x a b i)

pub In-append : {A : Type 0} (x : A) (a b : List A) → In x a → In x (a ++ b)
unfolding In
In-append x [] b i = absurd i
In-append x (y ∷ a) b (inl e) = inl e
In-append x (y ∷ a) b (inr i) = inr (In-append x a b i)

-- A server that runs is stopped when no connection is half accepted, as after its main loop has
-- ended: then every connection whose close callback has not been called, however accepting and
-- closing were interleaved, is told to shut down on its own loop, and the server does not run.
pub stop_lem :
    (n : ℕ) (s : System) (c l : ℕ)
    → Reach n s
    → s.accepting ≡ none
    → s.server.running ≡ true
    → In (c, l) s.live
    → In (l, shutdown c) (stop s.server).queued × ((stop s.server).running ≡ false)
unfolding stop Kept shutdown_of
stop_lem n s c l r e run i =
    let known : In (c, l) s.server.connections = listed (Reach-Kept r (c, l) i) in
    subst
      (λ b.
        In (l, shutdown c)
          (if b
            then record s.server {
              running = false;
              queued = s.server.queued ++ map shutdown_of s.server.connections;
              io_group = none;
            }
            else s.server).queued
        × ((if b
              then record s.server {
                running = false;
                queued = s.server.queued ++ map shutdown_of s.server.connections;
                io_group = none;
              }
              else s.server).running
            ≡ false))
      (sym run)
      (
        append-In (l, shutdown c) s.server.queued (map shutdown_of s.server.connections)
            (map-In (c, l) s.server.connections known),
        refl,
      )
  where
    none≢some : {o : Option Conn} → o ≡ none → o ≡ some (c, l) → ⊥
    none≢some a b = cc

    listed :
        In (c, l) s.server.connections ⊎ (s.accepting ≡ some (c, l))
        → In (c, l) s.server.connections
    listed (inl j) = j
    listed (inr f) = absurd (none≢some e f)
